-- ===== src/Db/Exec.antt =====
-- What a service method does, statement by statement. `SetMaxOpenConns(1)` serialises the
-- statements of internal/db, and nothing holds two of them together: a method is a tree of atomic
-- steps, and other callers may run between any two.
use mathlib.Core.Path.{fun_ext}
use starfighter_workflow.Common.{
  ap, ◌∙◌, ◌≡◌, refl, ℕ, suc, Bool, Option, List, ◌≡◌, Result, ok, err, if◌then◌else◌,
}
use starfighter_workflow.Db.{Db}

-- The database with what surrounds the program. `tick` counts the steps made so far; at each of
-- them `fault` says whether a statement fails (I/O, cancelled context), `clock` is `time.Now()` in
-- Unix seconds, and `random` is what `crypto/rand` returns, `none` for its error.
pub record World : Type 0 where
  pub db : Db
  pub tick : ℕ
  pub fault : ℕ → Bool
  pub clock : ℕ → ℕ
  pub random : ℕ → Option (List ℕ)

-- A method that returns an `A` or an error `E`. A step changes the world, and what follows it
-- depends on the world before the step.
pub data Prog (E A : Type 0) : Type 0 where
  ret : A → Prog E A
  raise : E → Prog E A
  step : (World → World) → (World → Prog E A) → Prog E A

-- `abbrev`, so that programs compute wherever they stand.
infixl 5 ◌>>=◌ ◌>>◌
abbrev pub ◌>>=◌ : {E A B : Type 0} → Prog E A → (A → Prog E B) → Prog E B
ret a >>= k = k a
raise e >>= k = raise e
step f m >>= k = step f (λ w. m w >>= k)

abbrev pub ◌>>◌ : {E A B : Type 0} → Prog E A → Prog E B → Prog E B
m >> k = m >>= λ _. k

pub bind_assoc :
    {E A B C : Type 0} (m : Prog E A) (f : A → Prog E B) (g : B → Prog E C)
    → (m >>= f >>= g) ≡ (m >>= λ a. f a >>= g)
bind_assoc (ret a) f g = refl
bind_assoc (raise e) f g = refl
bind_assoc (step h m) f g = ap (step h) (fun_ext λ w. bind_assoc (m w) f g)

-- what Go does with a returned `(value, err)` that it looks at
abbrev pub inspect : {E F A B : Type 0} → Prog E A → (Result E A → Prog F B) → Prog F B
inspect (ret a) k = k (ok a)
inspect (raise e) k = k (err e)
inspect (step f m) k = step f (λ w. inspect (m w) k)

abbrev pub lift : {E A : Type 0} → Result E A → Prog E A
lift (ok a) = ret a
lift (err e) = raise e

-- a run that nothing interrupts
abbrev pub run : {E A : Type 0} → Prog E A → World → Result E A × World
run (ret a) w = (ok a, w)
run (raise e) w = (err e, w)
run (step f m) w = run (m w) (f w)

abbrev pub elapse : World → World
elapse w = record w { tick = suc w.tick }

module _ {E : Type 0} where
  -- `time.Now().Unix()`
  abbrev pub now : Prog E ℕ
  now = step elapse (λ w. ret (w.clock w.tick))

  -- `rand.Read`
  abbrev pub random_bytes : Prog E (Option (List ℕ))
  random_bytes = step elapse (λ w. ret (w.random w.tick))

module _ {E A : Type 0} where
  -- one SQL statement: all or nothing. `bad` is what the caller returns if it fails.
  abbrev pub statement : E → (Db → Result E A × Db) → Prog E A
  statement bad t =
      step (λ w. elapse (if w.fault w.tick then w else record w { db = (t w.db).1 }))
        (λ w. if w.fault w.tick then raise bad else lift (t w.db).0)

  -- a SELECT
  abbrev pub query : E → (Db → A) → Prog E A
  query bad q = statement bad (λ d. (ok (q d), d))

-- a statement that the constraints of the schema, `allowed`, let through or refuse with `bad`
unfoldable pub commit_if : {E A : Type 0} → Bool → E → A → (after before : Db) → Result E A × Db
commit_if allowed bad a after before = if allowed then (ok a, after) else (err bad, before)

-- no statement fails
abbrev pub IsHealthy : World → Type 0
IsHealthy w = (n : ℕ) → w.fault n ≡ Bool.false

-- the result of an uninterrupted run and the database that it leaves
abbrev pub outcome : {E A : Type 0} → Prog E A → World → Result E A × Db
outcome m w = ((run m w).0, (run m w).1.db)

module _ {E A B : Type 0} (bad : E) (w : World) (healthy : IsHealthy w) (k : A → Prog E B) where
  pub run-statement :
      (t : Db → Result E A × Db)
      → run (statement bad t >>= k) w
        ≡ run (lift (t w.db).0 >>= k) (elapse (record w { db = (t w.db).1 }))
  run-statement t = rw (healthy w.tick, run)

  pub run-commit_if :
      (allowed : Db → Bool) (a : Db → A) (after : Db → Db)
      → allowed w.db ≡ Bool.true
      → run (statement bad (λ d. commit_if (allowed d) bad (a d) (after d) d) >>= k) w
        ≡ run (k (a w.db)) (elapse (record w { db = after w.db }))
  unfolding commit_if
  run-commit_if allowed a after pass =
      run-statement (λ d. commit_if (allowed d) bad (a d) (after d) d) ∙ (rw (pass, run))
