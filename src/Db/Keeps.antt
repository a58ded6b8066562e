-- ===== src/Db/Keeps.antt =====
-- Invariants of the database that every atomic step keeps, whatever runs between the steps.
use starfighter_workflow.Common.{
  Bool, true, false, ◌≡◌, refl, Result, ok, err, if◌then◌else◌, inl, inr, Bool-cases,
}
use starfighter_workflow.Db.{Db}
use starfighter_workflow.Db.Exec.{
  World, Prog, ret, raise, step, ◌>>=◌, inspect, lift, run, now, random_bytes, commit_if, statement,
  query,
}

pub data Keeps (P : Db → Type 0) {E A : Type 0} : Prog E A → Type 0 where
  returns : (a : A) → Keeps P (ret a)
  raises : (e : E) → Keeps P (raise e)
  steps :
      {f : World → World} {m : World → Prog E A}
      → ((w : World) → P w.db → P (f w).db)
      → ((w : World) → Keeps P (m w))
      → Keeps P (step f m)

pub commit_if-keeps :
    {E A : Type 0} (P : Db → Type 0) (allowed : Bool) (bad : E) (a : A) {after before : Db}
    → (allowed ≡ true → P after)
    → P before
    → P (commit_if allowed bad a after before).1
unfolding commit_if
commit_if-keeps P true bad a h p = h refl
commit_if-keeps P false bad a h p = p

module _ {P : Db → Type 0} where
  pub Keeps-bind :
      {E A B : Type 0} {m : Prog E A} {k : A → Prog E B}
      → Keeps P m
      → ((a : A) → Keeps P (k a))
      → Keeps P (m >>= k)
  Keeps-bind (returns a) h = h a
  Keeps-bind (raises e) h = raises e
  Keeps-bind (steps f m) h = steps f (λ w. Keeps-bind (m w) h)

  pub Keeps-inspect :
      {E F A B : Type 0} {m : Prog E A} {k : Result E A → Prog F B}
      → Keeps P m
      → ((r : Result E A) → Keeps P (k r))
      → Keeps P (inspect m k)
  Keeps-inspect (returns a) h = h (ok a)
  Keeps-inspect (raises e) h = h (err e)
  Keeps-inspect (steps f m) h = steps f (λ w. Keeps-inspect (m w) h)

  pub Keeps-if :
      {E A : Type 0} (b : Bool) {m k : Prog E A}
      → (b ≡ true → Keeps P m)
      → (b ≡ false → Keeps P k)
      → Keeps P (if b then m else k)
  Keeps-if true hm hk = hm refl
  Keeps-if false hm hk = hk refl

  pub Keeps-lift : {E A : Type 0} (r : Result E A) → Keeps P (lift r)
  Keeps-lift (ok a) = returns a
  Keeps-lift (err e) = raises e

  pub Keeps-statement :
      {E A : Type 0} (bad : E) (t : Db → Result E A × Db)
      → ((d : Db) → P d → P (t d).1)
      → Keeps P (statement bad t)
  Keeps-statement bad t h =
      steps
        (λ w p. elim (Bool-cases (w.fault w.tick)) [
          | inl failed ↦ rw failed p
          | inr done ↦ rw done (h w.db p)
        ])
        (λ w. Keeps-if (w.fault w.tick) (λ _. raises bad) (λ _. Keeps-lift (t w.db).0))

  pub Keeps-query : {E A : Type 0} (bad : E) (q : Db → A) → Keeps P (query bad q)
  Keeps-query bad q = Keeps-statement bad (λ d. (ok (q d), d)) (λ d p. p)

  pub Keeps-now : {E : Type 0} → Keeps P (now {E = E})
  Keeps-now = steps (λ w p. p) (λ w. returns (w.clock w.tick))

  pub Keeps-random : {E : Type 0} → Keeps P (random_bytes {E = E})
  Keeps-random = steps (λ w p. p) (λ w. returns (w.random w.tick))

  -- an uninterrupted run is one case
  pub Keeps-run :
      {E A : Type 0} {m : Prog E A} → Keeps P m → (w : World) → P w.db → P (run m w).1.db
  Keeps-run (returns a) w p = p
  Keeps-run (raises e) w p = p
  Keeps-run (steps f m) w p = Keeps-run (m w) _ (f w p)

pub ruleset keeps_rules = (
  returns, raises, Keeps-bind, Keeps-inspect, Keeps-if, Keeps-lift, Keeps-query, Keeps-now,
  Keeps-random,
)
