-- ===== src/Db/Threads.antt =====
-- Callers that run at the same time: each has a program left to do, and a schedule says whose
-- next step is made. The steps are atomic, since the pool of internal/db has one connection.
use starfighter_workflow.Common.{ℕ, zero, suc, List, [], ◌∷◌, All}
use starfighter_workflow.Db.{Db}
use starfighter_workflow.Db.Exec.{World, Prog, ret, raise, step}
use starfighter_workflow.Db.Keeps.{Keeps, returns, raises, steps}

module _ {E A : Type 0} where
  abbrev pub advance : Prog E A → World → Prog E A × World
  advance (ret a) w = (ret a, w)
  advance (raise e) w = (raise e, w)
  advance (step f m) w = (m w, f w)

  abbrev pub advance_at : ℕ → List (Prog E A) → World → List (Prog E A) × World
  advance_at i [] w = ([], w)
  advance_at zero (p ∷ ps) w = let (p', w') = advance p w in (p' ∷ ps, w')
  advance_at (suc i) (p ∷ ps) w = let (ps', w') = advance_at i ps w in (p ∷ ps', w')

  unfoldable pub interleave : List ℕ → List (Prog E A) → World → List (Prog E A) × World
  interleave [] ps w = (ps, w)
  interleave (i ∷ is) ps w = let (ps', w') = advance_at i ps w in interleave is ps' w'

  -- the callers that have returned a value
  unfoldable pub winners : List (Prog E A) → ℕ
  winners [] = 0
  winners (ret a ∷ ps) = suc (winners ps)
  winners (raise e ∷ ps) = winners ps
  winners (step f m ∷ ps) = winners ps

  -- the callers that have not returned yet
  unfoldable pub running : List (Prog E A) → ℕ
  running [] = 0
  running (ret a ∷ ps) = running ps
  running (raise e ∷ ps) = running ps
  running (step f m ∷ ps) = suc (running ps)

module _ (P : Db → Type 0) {E A : Type 0} where
  advance-Keeps :
      {p : Prog E A} (w : World)
      → Keeps P p
      → P w.db
      → Keeps P (advance p w).0 × P (advance p w).1.db
  advance-Keeps w (returns a) h = (returns a, h)
  advance-Keeps w (raises e) h = (raises e, h)
  advance-Keeps w (steps f m) h = (m w, f w h)

  advance_at-Keeps :
      (i : ℕ) (ps : List (Prog E A)) (w : World)
      → All (Keeps P) ps
      → P w.db
      → All (Keeps P) (advance_at i ps w).0 × P (advance_at i ps w).1.db
  advance_at-Keeps i [] w k h = (tt, h)
  advance_at-Keeps zero (p ∷ ps) w (k, ks) h = let (k', h') = advance-Keeps w k h in ((k', ks), h')
  advance_at-Keeps (suc i) (p ∷ ps) w (k, ks) h =
      let (ks', h') = advance_at-Keeps i ps w ks h in ((k, ks'), h')

  -- an invariant that every caller's program keeps holds after any schedule
  pub interleave-Keeps :
      (is : List ℕ) (ps : List (Prog E A)) (w : World)
      → All (Keeps P) ps
      → P w.db
      → P (interleave is ps w).1.db
  unfolding interleave
  interleave-Keeps [] ps w k h = h
  interleave-Keeps (i ∷ is) ps w k h =
      let (k', h') = advance_at-Keeps i ps w k h in
      interleave-Keeps is (advance_at i ps w).0 (advance_at i ps w).1 k' h'
