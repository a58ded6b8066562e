-- ===== src/Machines/Found.antt =====
-- What the type-ahead search of machines.go returns.
use mathlib.Core.Path.{subst}
use starfighter_workflow.Common.{
  ℕ, ◌≤◌, ◌<◌, ◌⊎◌, Bool, ◌&&◌, ◌++◌, drop, ap, leb, ltb, ℤ, pos, String, true, List, [], ◌∷◌, sym,
  take, length, ◌≡◌, refl, ◌∙◌, arith, ◌==◌, Bool-cases, inl, inr, ok, trim_space, eq_iff,
}
use starfighter_workflow.Sql.Rows.{count, where_rows}
use starfighter_workflow.Sql.Select.{order_by}
use starfighter_workflow.Sql.Select.Ordered.{
  IsOrdered, count-order_by, length-take, take-drop, drop-take, order_by-IsOrdered,
}
use starfighter_workflow.Sql.Like.{like, any_suffix}
use starfighter_workflow.Sql.Collate.{nocase_before, nocase_before-asym, nocase_before-mix}
use starfighter_workflow.Db.{Db, MachineRow}
use starfighter_workflow.Db.Exec.{World, run, outcome, IsHealthy}
use starfighter_workflow.Machines.{Machine, by_name, clamp_limit, select_matching, search_machines}
use starfighter_workflow.Machines.Escape.{pattern_of}
use starfighter_workflow.Machines.Search.{holds, like-escape_like}

-- `n` is the limit that was asked for if it is between 1 and 50, and else 20
abbrev pub IsLimit : ℤ → ℕ → Type 0
IsLimit (pos k) n = ((0 < k) × (k ≤ 50) × (n ≡ k)) ⊎ (((k ≡ 0) ⊎ (50 < k)) × (n ≡ 20))
IsLimit (ℤ.negsuc k) n = n ≡ 20

clamp_limit-IsLimit : (limit : ℤ) → IsLimit limit (clamp_limit limit)
clamp_limit-IsLimit (pos k) = elim (Bool-cases (leb k 0)) [
  | inl low ↦ inr (inl (ground arith), ground arith)
  | inr ok_low ↦ elim (Bool-cases (ltb 50 k)) [
    | inl high ↦ inr (inr (ground arith), ground arith)
    | inr ok_high ↦ inl (ground arith, ground arith, ground arith)
  ]
]
clamp_limit-IsLimit (ℤ.negsuc k) = refl

-- The machines `ms` of all that have `q` in their names, up to the case of ASCII letters: the first
-- by name, and as many as there are or as the limit allows.
abbrev pub IsFound : String → ℤ → List Machine → List Machine → Type 0
IsFound q limit machines ms =
    (n : ℕ) × (rest : List Machine) × IsLimit limit n
    × (length ms ≤ n)
    × ((rest ≡ []) ⊎ (length ms ≡ n))
    × IsOrdered (λ a b. nocase_before a.name b.name) (ms ++ rest)
    × ((p : Machine → Bool) → count p (ms ++ rest) ≡ count (λ m. holds q m.name && p m) machines)

holds-empty : (t : String) → holds "" t ≡ true
unfolding any_suffix
holds-empty String.[] = refl
holds-empty (String.◌∷◌ c t) = refl

listed :
    (q : String) (limit : ℤ) (machines ms : List MachineRow)
    → ((p : Machine → Bool) → count p ms ≡ count (λ m. holds q m.name && p m) machines)
    → IsFound q limit machines (take (clamp_limit limit) (order_by by_name ms))
listed q limit machines ms h =
    let n = clamp_limit limit in
    let sorted : List MachineRow = order_by by_name ms in
    (
      n,
      drop n sorted,
      clamp_limit-IsLimit limit,
      length-take n sorted,
      drop-take n sorted,
      subst (IsOrdered by_name) (sym (take-drop n sorted)) (
          order_by-IsOrdered by_name (λ a b. nocase_before-asym a.name b.name)
            (λ a b c. nocase_before-mix a.name b.name c.name) ms),
      λ p. ap (count p) (take-drop n sorted) ∙ count-order_by by_name p ms ∙ h p,
    )

count-all :
    (p : Machine → Bool) (ms : List MachineRow)
    → count p ms ≡ count (λ m. holds "" m.name && p m) ms
unfolding count
count-all p [] = refl
count-all p (m ∷ ms) = rw (holds-empty m.name) (ground (arith, count-all p ms))

count-matched :
    (q : String) (p : Machine → Bool) (ms : List MachineRow)
    → count p (where_rows (λ m. like (pattern_of q) m.name) ms)
      ≡ count (λ m. holds q m.name && p m) ms
unfolding where_rows count
count-matched q p [] = refl
count-matched q p (m ∷ ms) = ground (arith, like-escape_like q m.name, count-matched q p ms)

select_matching-IsFound :
    (q : String) (limit : ℤ) (d : Db)
    → IsFound q limit d.machines (select_matching q (clamp_limit limit) d)
unfolding select_matching
select_matching-IsFound q limit d = elim (Bool-cases (q == "")) [
  | inl e ↦ rw e (
      subst
        (λ s. IsFound s limit d.machines (take (clamp_limit limit) (order_by by_name d.machines)))
        (sym ((eq_iff q "").0 e))
        (listed "" limit d.machines d.machines (λ p. count-all p d.machines)))
  | inr e ↦ rw e (listed q limit d.machines _ (λ p. count-matched q p d.machines))
]

-- With no failing statement, a search returns the first machines by name of those in whose names
-- the trimmed query stands, up to the case of ASCII letters, each as often as it is in the table:
-- all of them, or as many as the limit allows, which is 20 where a limit outside 1 to 50 was asked
-- for; and the database is as it was.
pub search_machines-IsFound :
    (text : String) (limit : ℤ) (w : World)
    → IsHealthy w
    → (ms : List Machine) × (outcome (search_machines text limit) w ≡ (ok ms, w.db))
      × IsFound (trim_space text) limit w.db.machines ms
unfolding search_machines
search_machines-IsFound text limit w healthy = (
  select_matching (trim_space text) (clamp_limit limit) w.db,
  (rw (healthy w.tick, run) refl),
  select_matching-IsFound (trim_space text) limit w.db,
)
