-- ===== src/Db/Takes.antt =====
-- How many steps a program makes at most, whatever runs between them.
use starfighter_workflow.Common.{
  ℕ, zero, suc, ◌+◌, ◌≤◌, Bool, true, false, arith, Result, ok, err, if◌then◌else◌,
}
use starfighter_workflow.Db.{Db}
use starfighter_workflow.Db.Exec.{
  World, Prog, ret, raise, step, ◌>>=◌, inspect, lift, now, random_bytes, statement, query,
}

pub data Takes {E A : Type 0} : ℕ → Prog E A → Type 0 where
  returns : {n : ℕ} (a : A) → Takes n (ret a)
  raises : {n : ℕ} (e : E) → Takes n (raise e)
  steps :
      {n : ℕ} {f : World → World} {m : World → Prog E A}
      → ((w : World) → Takes n (m w))
      → Takes (suc n) (step f m)

pub Takes-le : {E A : Type 0} {a b : ℕ} {m : Prog E A} → a ≤ b → Takes a m → Takes b m
Takes-le h (returns a) = returns a
Takes-le h (raises e) = raises e
Takes-le {b = zero} h (steps k) = absurd (omega (arith, h))
Takes-le {b = suc b} h (steps k) = steps (λ w. Takes-le (omega (arith, h)) (k w))

pub Takes-bind :
    {E A B : Type 0} {n : ℕ} (j : ℕ) {m : Prog E A} {k : A → Prog E B}
    → Takes j m
    → ((a : A) → Takes n (k a))
    → Takes (j + n) (m >>= k)
Takes-bind {n} j (returns a) h = Takes-le (omega arith) (h a)
Takes-bind j (raises e) h = raises e
Takes-bind {n} (suc j) {k = k} (steps {m} t) h =
    Takes-le {a = suc (j + n)} (omega arith) (steps (λ w. Takes-bind j (t w) h))

pub Takes-if :
    {E A : Type 0} {n : ℕ} (b : Bool) {m k : Prog E A}
    → Takes n m
    → Takes n k
    → Takes n (if b then m else k)
Takes-if true hm hk = hm
Takes-if false hm hk = hk

pub Takes-lift : {E A : Type 0} {n : ℕ} (r : Result E A) → Takes n (lift r)
Takes-lift (ok a) = returns a
Takes-lift (err e) = raises e

pub Takes-statement :
    {E A : Type 0} {n : ℕ} (bad : E) (t : Db → Result E A × Db) → Takes (suc n) (statement bad t)
Takes-statement bad t = steps (λ w. Takes-if (w.fault w.tick) (raises bad) (Takes-lift (t w.db).0))

pub Takes-inspect :
    {E F A B : Type 0} {n : ℕ} (j : ℕ) {m : Prog E A} {k : Result E A → Prog F B}
    → Takes j m
    → ((r : Result E A) → Takes n (k r))
    → Takes (j + n) (inspect m k)
Takes-inspect {n} j (returns a) h = Takes-le (omega arith) (h (ok a))
Takes-inspect {n} j (raises e) h = Takes-le (omega arith) (h (err e))
Takes-inspect {n} (suc j) {k = k} (steps {m} t) h =
    Takes-le {a = suc (j + n)} (omega arith) (steps (λ w. Takes-inspect j (t w) h))

module _ {n : ℕ} where
  pub Takes-now : {E : Type 0} → Takes (suc n) (now {E = E})
  Takes-now = steps (λ w. returns _)

  pub Takes-random : {E : Type 0} → Takes (suc n) (random_bytes {E = E})
  Takes-random = steps (λ w. returns _)

  pub Takes-query : {E A : Type 0} (bad : E) (q : Db → A) → Takes (suc n) (query bad q)
  Takes-query bad q = Takes-statement bad (λ d. (ok (q d), d))

-- Binds after a call of one, two, … steps, for `search`.
module _ {E A B : Type 0} {n : ℕ} {m : Prog E A} {k : A → Prog E B}
    (h : (a : A) → Takes n (k a)) where
  pub Takes-bind_1 : Takes (suc zero) m → Takes (suc n) (m >>= k)
  Takes-bind_1 t = Takes-le (omega arith) (Takes-bind (suc zero) t h)

  pub Takes-bind_2 : Takes (suc (suc zero)) m → Takes (suc (suc n)) (m >>= k)
  Takes-bind_2 t = Takes-le (omega arith) (Takes-bind (suc (suc zero)) t h)

  pub Takes-bind_0 : Takes zero m → Takes n (m >>= k)
  Takes-bind_0 t = Takes-le (omega arith) (Takes-bind zero t h)

module _ {E F A B : Type 0} {n : ℕ} {m : Prog E A} {k : Result E A → Prog F B}
    (h : (r : Result E A) → Takes n (k r)) where
  pub Takes-inspect_1 : Takes (suc zero) m → Takes (suc n) (inspect m k)
  Takes-inspect_1 t = Takes-le (omega arith) (Takes-inspect (suc zero) t h)

pub ruleset takes_rules = (
  returns, raises, Takes-if, Takes-lift, Takes-statement, Takes-query, Takes-now, Takes-random,
  Takes-bind_0, Takes-bind_1, Takes-bind_2, Takes-inspect_1,
)
