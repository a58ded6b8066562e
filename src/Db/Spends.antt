-- ===== src/Db/Spends.antt =====
-- Counting who may return: a caller's program moves tokens from the database to itself, and returns
-- only with one in hand.
use starfighter_workflow.Common.{
  Bool, ℕ, zero, suc, ◌+◌, ◌≤◌, List, [], ◌∷◌, arith, Result, if◌then◌else◌, Bool-cases, inl, inr,
}
use starfighter_workflow.Db.{Db}
use starfighter_workflow.Db.Exec.{World, Prog, ret, raise, step, ◌>>=◌, lift, commit_if, statement}
use starfighter_workflow.Db.Threads.{advance, advance_at, interleave, winners}

module _ (tokens : Db → ℕ) {E A : Type 0} where
  -- `p` holds `k` tokens
  pub data Spends : ℕ → Prog E A → Type 0 where
    returned : (a : A) → Spends 1 (ret a)
    raised : {k : ℕ} (e : E) → Spends k (raise e)
    stepped :
        {k : ℕ} {f : World → World} {m : World → Prog E A}
        → (j : World → ℕ) → ((w : World) → tokens (f w).db + j w ≤ tokens w.db + k)
        → ((w : World) → Spends (j w) (m w))
        → Spends k (step f m)

  -- the callers `ps` hold at most `n` tokens together
  pub data Pool : ℕ → List (Prog E A) → Type 0 where
    nobody : {n : ℕ} → Pool n []
    joined :
        {n k j : ℕ} {p : Prog E A} {ps : List (Prog E A)}
        → k + j ≤ n
        → Spends k p
        → Pool j ps
        → Pool n (p ∷ ps)

  advance-Spends :
      {k : ℕ} {p : Prog E A} (w : World)
      → Spends k p
      → (j : ℕ) × (tokens (advance p w).1.db + j ≤ tokens w.db + k) × Spends j (advance p w).0
  advance-Spends w (returned a) = (1, omega arith, returned a)
  advance-Spends w (raised {k} e) = (k, omega arith, raised e)
  advance-Spends w (stepped j h s) = (j w, h w, s w)

  advance_at-Pool :
      {n : ℕ} {ps : List (Prog E A)} (i : ℕ) (w : World)
      → Pool n ps
      → (m : ℕ) × (tokens (advance_at i ps w).1.db + m ≤ tokens w.db + n)
        × Pool m (advance_at i ps w).0
  advance_at-Pool {n} i w nobody = (n, omega arith, nobody)
  advance_at-Pool zero w (joined {k} {j} {p} le s rest) =
      let (l, moved, s') = advance-Spends w s in (l + j, omega arith, joined (omega arith) s' rest)
  advance_at-Pool (suc i) w (joined {k} {j} le s rest) =
      let (l, moved, rest') = advance_at-Pool i w rest in
      (k + l, omega arith, joined (omega arith) s rest')

  interleave-Pool :
      (is : List ℕ) (w : World) {n : ℕ} {ps : List (Prog E A)}
      → Pool n ps
      → (m : ℕ) × (tokens (interleave is ps w).1.db + m ≤ tokens w.db + n)
        × Pool m (interleave is ps w).0
  unfolding interleave
  interleave-Pool [] w {n} p = (n, omega arith, p)
  interleave-Pool (i ∷ is) w p =
      let (m, moved, p') = advance_at-Pool i w p in
      let (l, later, p'') = interleave-Pool is (advance_at i _ w).1 p' in (l, omega arith, p'')

  winners-le : {n : ℕ} {ps : List (Prog E A)} → Pool n ps → winners ps ≤ n
  unfolding winners
  winners-le nobody = omega arith
  winners-le (joined le (returned a) rest) = omega (arith, winners-le rest)
  winners-le (joined le (raised e) rest) = omega (arith, winners-le rest)
  winners-le (joined le (stepped j h s) rest) = omega (arith, winners-le rest)

  -- whatever the schedule, at most as many callers return as there were tokens
  pub winners-interleave-le :
      (is : List ℕ) (w : World) {n : ℕ} {ps : List (Prog E A)}
      → Pool n ps
      → winners (interleave is ps w).0 ≤ tokens w.db + n
  winners-interleave-le is w p =
      let (m, moved, p') = interleave-Pool is w p in omega (arith, winners-le p')

  -- a statement, and what is done with its result
  pub Spends-statement :
      {B : Type 0} {k : ℕ} (bad : E) (t : Db → Result E B × Db) (g : B → Prog E A) (j : Db → ℕ)
      → ((d : Db) → tokens (t d).1 + j d ≤ tokens d + k)
      → ((d : Db) → Spends (j d) (lift (t d).0 >>= g))
      → Spends k (statement bad t >>= g)
  Spends-statement {k} bad t g j h s =
      stepped (λ w. if w.fault w.tick then k else j w.db)
        (λ w. elim (Bool-cases (w.fault w.tick)) [
          | inl failed ↦ rw failed (omega arith)
          | inr done ↦ rw done (h w.db)
        ])
        (λ w. elim (Bool-cases (w.fault w.tick)) [
          | inl failed ↦ rw failed (raised bad)
          | inr done ↦ rw done (s w.db)
        ])

  -- a statement under a constraint; a refused one takes no token
  pub Spends-commit_if :
      {B : Type 0} (bad : E) (allowed : Db → Bool) (b : Db → B) (after : Db → Db) (g : B → Prog E A)
      (j : Db → ℕ)
      → ((d : Db) → tokens (after d) + j d ≤ tokens d)
      → ((d : Db) → Spends (j d) (g (b d)))
      → Spends 0 (statement bad (λ d. commit_if (allowed d) bad (b d) (after d) d) >>= g)
  unfolding commit_if
  Spends-commit_if bad allowed b after g j h s =
      Spends-statement bad _ g (λ d. if allowed d then j d else 0)
        (λ d. elim (Bool-cases (allowed d)) [
          | inl pass ↦ rw pass (omega (arith, h d))
          | inr refused ↦ rw refused (omega arith)
        ])
        (λ d. elim (Bool-cases (allowed d)) [
          | inl pass ↦ rw pass (s d)
          | inr refused ↦ rw refused (raised bad)
        ])
