-- ===== src/Db/Migrations/Opening.antt =====
-- The handle that `Open` takes, and `Close` on its errors.
use starfighter_workflow.Common.{
  ℕ, suc, String, Bool, true, false, Option, none, some, List, [], ◌∷◌, ◌≡◌, refl, inl, inr,
  if◌then◌else◌, Result, ok, err, arith, Bool-cases, ◌∙◌,
}
use starfighter_workflow.Db.Migrations.{
  Error, create_failed, list_failed, ping_failed, Disk, Session, Setting, Act, continue, or_fail,
  or_close, apply_migration, migrate_file, migrate_files, migrate, create_versions, migration_names,
  open_db, store, call,
}
use starfighter_workflow.Db.Migrations.Runs.{IsMigrated, migrate-IsMigrated, migrate-runs}
use starfighter_workflow.Db.Migrations.Prefixes.{apply_files}
use starfighter_workflow.Db.Migrations.Resume.{ensured}
use starfighter_workflow.Db.Migrations.{Entry}
use starfighter_workflow.Common.{List, false}

abbrev pub is_ok : {E A : Type 0} → Result E A → Bool
is_ok (ok a) = true
is_ok (err e) = false

continue-connections :
    {S A B : Type 0} {n : ℕ} (k : A → Act S B) (r : Result Error A × Session S)
    → r.1.connections ≡ n
    → ((a : A) (s : Session S) → (k a s).1.connections ≡ s.connections)
    → (continue k r).1.connections ≡ n
continue-connections k (ok a, s) e h = h a s ∙ e
continue-connections k (err x, s) e h = e

or_fail-connections :
    {S A : Type 0} (bad : Error) (o : Option A) (s : Session S)
    → (or_fail bad o s).1.connections ≡ s.connections
or_fail-connections bad none s = refl
or_fail-connections bad (some a) s = refl

module _ {S : Type 0} (z : Setting S) (fault : ℕ → Bool) where
  store-connections :
      (bad : Error) (f : Disk S → Disk S) (s : Session S)
      → (store fault bad f s).1.connections ≡ s.connections
  store-connections bad f s = ground arith

  migrate_file-connections :
      (name : String) (s : Session S) → (migrate_file fault z name s).1.connections ≡ s.connections
  unfolding migrate_file apply_migration
  migrate_file-connections name s = ground arith

  migrate_files-connections :
      (names : List String) (s : Session S)
      → (migrate_files fault z names s).1.connections ≡ s.connections
  unfolding migrate_files
  migrate_files-connections [] s = refl
  migrate_files-connections (name ∷ names) s =
      continue-connections (λ _. migrate_files fault z names) (migrate_file fault z name s)
        (migrate_file-connections name s) (λ a t. migrate_files-connections names t)

  migrate-connections : (s : Session S) → (migrate fault z s).1.connections ≡ s.connections
  unfolding migrate
  migrate-connections s =
      continue-connections _ _
        (store-connections create_failed (λ d. record d { versions = create_versions d.versions })
          s)
        (λ a t.
          continue-connections _ (or_fail list_failed z.entries t)
            (or_fail-connections list_failed z.entries t)
            (λ es u. migrate_files-connections (migration_names es) u))

  closed_after :
      (r : Result Error Unit × Session S) (n : ℕ)
      → r.1.connections ≡ suc n
      → (or_close r).1.connections ≡ (if is_ok (or_close r).0 then suc n else n)
  closed_after (ok a, s) n h = h
  closed_after (err e, s) n h = omega (arith, h)

  -- `Open` returns one open handle when it succeeds, and leaves none behind when it fails, wherever
  -- it fails.
  pub open_db-connections :
      (s : Session S)
      → (open_db fault z s).1.connections
        ≡ (if is_ok (open_db fault z s).0 then suc s.connections else s.connections)
  unfolding open_db
  open_db-connections s = elim (Bool-cases (fault s.tick)) [
    | inl no_directory ↦ rw no_directory refl
    | inr directory ↦ rw directory (elim (Bool-cases (fault (suc s.tick))) [
      | inl no_handle ↦ rw no_handle refl
      | inr handle ↦ rw handle (
          closed_after _ s.connections (
            continue-connections (λ _. migrate fault z) (call fault ping_failed (λ d. some tt) _)
              (ground arith) (λ a t. migrate-connections t)))
    ])
  ]

  closed-IsMigrated :
      (d : Disk S) (r : Result Error Unit × Session S)
      → IsMigrated z d r
      → IsMigrated z d (or_close r)
  closed-IsMigrated d (ok a, s) h = h
  closed-IsMigrated d (err e, s) h = h

  -- what `Open` leaves on the disk is what `migrate` leaves
  pub open_db-IsMigrated : (s : Session S) → IsMigrated z s.disk (open_db fault z s)
  unfolding open_db
  open_db-IsMigrated s = elim (Bool-cases (fault s.tick)) [
    | inl no_directory ↦ rw no_directory (inl refl)
    | inr directory ↦ rw directory (elim (Bool-cases (fault (suc s.tick))) [
      | inl no_handle ↦ rw no_handle (inl refl)
      | inr handle ↦ rw handle (
          closed-IsMigrated s.disk _ (elim (Bool-cases (fault (suc (suc s.tick)))) [
            | inl no_ping ↦ rw no_ping (inl refl)
            | inr ping ↦ rw ping (migrate-IsMigrated z fault _)
          ]))
    ])
  ]

  ok_closed : (r : Result Error Unit × Session S) → r.0 ≡ ok tt → (or_close r).0 ≡ ok tt
  ok_closed (ok a, s) h = h
  ok_closed (err e, s) h = h

  -- `Open` succeeds when nothing fails and every script runs
  pub open_db-runs :
      (es : List Entry) (d : Disk S) (s : Session S)
      → ((n : ℕ) → fault n ≡ false)
      → z.entries ≡ some es
      → apply_files z (migration_names es) (ensured s.disk) ≡ some d
      → (open_db fault z s).0 ≡ ok tt
  unfolding open_db
  open_db-runs es d s healthy e h =
      rw (healthy s.tick, healthy (suc s.tick))
        (ok_closed _ (rw (healthy (suc (suc s.tick))) (migrate-runs z fault healthy es d _ e h)))
