-- ===== src/Db/Progress.antt =====
-- Every caller comes to its end under a schedule that gives it enough turns.
use starfighter_workflow.Common.{
  ℕ, zero, suc, ◌+◌, ◌≤◌, ◌<◌, ◌≡◌, refl, List, [], ◌∷◌, All, arith, length, ◌=ℕ◌, if◌then◌else◌,
}
use starfighter_workflow.Db.Exec.{World, Prog, ret, raise, step}
use starfighter_workflow.Db.Takes.{Takes, returns, raises, steps, Takes-le}
use starfighter_workflow.Db.Threads.{advance, advance_at, interleave, running}

-- how often a schedule gives caller `i` a turn
unfoldable pub turns : ℕ → List ℕ → ℕ
turns i [] = 0
turns i (j ∷ js) = let rest = turns i js in if i =ℕ j then suc rest else rest

-- what the callers from `i` on still have to do fits in the turns that they get
abbrev Fits : {E A : Type 0} → ℕ → List (Prog E A) → List ℕ → Type 0
Fits i [] is = Unit {0}
Fits i (p ∷ ps) is = Takes (turns i is) p × Fits (suc i) ps is

module _ {E A : Type 0} where
  Takes-advance : {n : ℕ} {p : Prog E A} (w : World) → Takes (suc n) p → Takes n (advance p w).0
  Takes-advance w (returns a) = returns a
  Takes-advance w (raises e) = raises e
  Takes-advance w (steps k) = k w

  no_step : {f : World → World} {m : World → Prog E A} → Takes zero (step f m) → ⊥
  no_step h = elim h [ ]

  -- a turn of an earlier caller leaves the rest as it is
  Fits-later :
      (i d j : ℕ) (ps : List (Prog E A)) (is : List ℕ)
      → i ≡ suc (j + d)
      → Fits i ps (j ∷ is)
      → Fits i ps is
  unfolding turns
  Fits-later i d j [] is e h = tt
  Fits-later i d j (p ∷ ps) is e (t, h) =
      (Takes-le (ground arith) t, Fits-later (suc i) (suc d) j ps is (omega (arith, e)) h)

  -- `i + d` is the caller whose turn it is
  advance_at-Fits :
      (i d : ℕ) (ps : List (Prog E A)) (is : List ℕ) (j : ℕ) (w : World)
      → j ≡ i + d
      → Fits i ps (j ∷ is)
      → Fits i (advance_at d ps w).0 is
  unfolding turns
  advance_at-Fits i d [] is j w e h = tt
  advance_at-Fits i zero (p ∷ ps) is j w e (t, h) = (
    Takes-advance w (Takes-le (ground arith) t),
    Fits-later (suc i) zero j ps is (omega (arith, e)) h,
  )
  advance_at-Fits i (suc d) (p ∷ ps) is j w e (t, h) =
      (Takes-le (ground arith) t, advance_at-Fits (suc i) d ps is j w (omega (arith, e)) h)

  Fits-done : (i : ℕ) (ps : List (Prog E A)) → Fits i ps [] → running ps ≡ 0
  unfolding running turns
  Fits-done i [] h = refl
  Fits-done i (ret a ∷ ps) (t, h) = Fits-done (suc i) ps h
  Fits-done i (raise e ∷ ps) (t, h) = Fits-done (suc i) ps h
  Fits-done i (step f m ∷ ps) (t, h) = absurd (no_step t)

  Fits-interleave :
      (is : List ℕ) (ps : List (Prog E A)) (w : World)
      → Fits 0 ps is
      → running (interleave is ps w).0 ≡ 0
  unfolding interleave
  Fits-interleave [] ps w h = Fits-done 0 ps h
  Fits-interleave (i ∷ is) ps w h =
      Fits-interleave is (advance_at i ps w).0 (advance_at i ps w).1
        (advance_at-Fits 0 i ps is i w (omega arith) h)

  Fits-turns :
      (n i : ℕ) (ps : List (Prog E A)) (is : List ℕ)
      → All (Takes n) ps
      → ((k : ℕ) → i ≤ k → k < i + length ps → n ≤ turns k is)
      → Fits i ps is
  Fits-turns n i [] is t enough = tt
  Fits-turns n i (p ∷ ps) is (t, ts) enough = (
    Takes-le (enough i (omega arith) (omega arith)) t,
    Fits-turns n (suc i) ps is ts (λ k from to. enough k (omega (arith, from)) (omega (arith, to))),
  )

  -- callers that need at most `n` steps each have all ended after a schedule that gives each `n` turns
  pub interleave-running :
      (n : ℕ) (ps : List (Prog E A)) (is : List ℕ) (w : World)
      → All (Takes n) ps
      → ((k : ℕ) → k < length ps → n ≤ turns k is)
      → running (interleave is ps w).0 ≡ 0
  interleave-running n ps is w t enough =
      Fits-interleave is ps w (Fits-turns n 0 ps is t (λ k from to. enough k (omega (arith, to))))
