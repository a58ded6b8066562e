-- ===== src/Db/Posts.antt =====
-- What a run leaves in the database, whether or not its statements fail.
use starfighter_workflow.Common.{Result, ok, Bool-cases, inl, inr}
use starfighter_workflow.Db.{Db}
use starfighter_workflow.Db.Exec.{World, Prog, ◌>>=◌, lift, run, elapse, statement, query}

-- `Q` holds of the database after `m`
abbrev pub Leaves : {E A : Type 0} → (Db → Type 0) → Prog E A → World → Type 0
Leaves Q m w = Q (run m w).1.db

module _ (Q : Db → Type 0) {E A B : Type 0} (bad : E) (w : World) (k : A → Prog E B) where
  -- a failed statement has changed nothing
  pub Leaves-statement :
      (t : Db → Result E A × Db)
      → Q w.db
      → Leaves Q (lift (t w.db).0 >>= k) (elapse (record w { db = (t w.db).1 }))
      → Leaves Q (statement bad t >>= k) w
  Leaves-statement t before after = elim (Bool-cases (w.fault w.tick)) [
    | inl failed ↦ rw (failed, run) before
    | inr done ↦ rw (done, run) after
  ]

  pub Leaves-query :
      (q : Db → A) → Q w.db → Leaves Q (k (q w.db)) (elapse w) → Leaves Q (query bad q >>= k) w
  Leaves-query q before after = Leaves-statement (λ d. (ok (q d), d)) before after
