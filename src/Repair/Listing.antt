-- ===== src/Repair/Listing.antt =====
-- What `List` of repair.go returns.
use mathlib.Core.List.{map}
use starfighter_workflow.Common.{
  ◌<◌, ◌⊎◌, ◌=ℕ◌, All-map, ℤ, ◌=ℤ◌, ◌<ℤ◌, <ℤ_asym, <ℤ_trans, Bool, true, false, not, ◌&&◌, ◌||◌,
  Option, none, some, List, [], ◌∷◌, ◌==◌, ◌≡◌, refl, ap, ◌∙◌, arith, All, Bool-cases, inl, inr, ok,
  Option-cases,
}
use starfighter_workflow.Sql.Rows.{count, where_rows, All-where}
use starfighter_workflow.Sql.Select.Ordered.{IsOrdered, count-order_by, order_by-IsOrdered}
use starfighter_workflow.Db.{Db, RequestRow, has_machine}
use starfighter_workflow.Db.Exec.{World, run, outcome, IsHealthy}
use starfighter_workflow.Repair.States.{is_terminal}
use starfighter_workflow.Repair.Lifecycle.{IsSound, IsSoundRow}
use starfighter_workflow.Repair.Reads.{join-view}
use starfighter_workflow.Repair.Spec.{view}
use starfighter_workflow.Repair.{
  Request, ListFilter, join_all, matches_filter, newest_first, select_filtered, list,
}

-- the rows that a filter asks for: an empty status is any, an open request is one that is not over
abbrev pub same_owner : Option ℤ → Option ℤ → Bool
same_owner none owner = true
same_owner (some u) none = false
same_owner (some u) (some owner) = owner =ℤ u

abbrev pub is_wanted : ListFilter → RequestRow → Bool
is_wanted f r =
    (f.status == "" || r.status == f.status)
    && same_owner f.assigned_to r.assigned_to
    && (not f.open_only || not (is_terminal r.status))

-- `later` was changed no later than `early`, and is the older request where they were changed at once
abbrev pub Precedes : (early later : Request) → Type 0
Precedes early later =
    (later.updated_at < early.updated_at)
    ⊎ ((later.updated_at ≡ early.updated_at) × ((early.id <ℤ later.id) ≡ false))

abbrev pub AreNewestFirst : List Request → Type 0
AreNewestFirst [] = Unit
AreNewestFirst (q ∷ qs) = All (Precedes q) qs × AreNewestFirst qs

-- the requests that are asked for, each as often as it is in the table, the last changed first
abbrev pub IsListing : ListFilter → Db → List Request → Type 0
IsListing f d rs =
    ((p : Request → Bool) → count p rs ≡ count (λ r. is_wanted f r && p (view d r)) d.requests)
    × AreNewestFirst rs

newest_first-asym : (a b : Request) → newest_first a b ≡ true → newest_first b a ≡ false
newest_first-asym a b h = elim (Bool-cases (b.id <ℤ a.id)) [
  | inl e ↦ ground (arith, <ℤ_asym b.id a.id e)
  | inr e ↦ ground arith
]

newest_first-mix :
    (a b c : Request)
    → newest_first a b ≡ true
    → newest_first c b ≡ false
    → newest_first c a ≡ false
newest_first-mix a b c h k = elim (Bool-cases (b.id <ℤ a.id)) [
  | inl e ↦ elim (Bool-cases (a.id <ℤ c.id)) [
    | inl f ↦ ground (arith, <ℤ_trans b.id a.id c.id e f)
    | inr f ↦ ground arith
  ]
  | inr e ↦ ground arith
]

newest_first-Precedes : (a b : Request) → newest_first b a ≡ false → Precedes a b
newest_first-Precedes a b h = elim (Bool-cases (b.updated_at =ℕ a.updated_at)) [
  | inl same ↦ inr (ground arith, ground arith)
  | inr other ↦ inl (ground arith)
]

ordered : (qs : List Request) → IsOrdered newest_first qs → AreNewestFirst qs
ordered [] h = tt
ordered (q ∷ qs) (h, hs) = (All-map (λ b k. newest_first-Precedes q b k) qs h, ordered qs hs)

matches_filter-wanted :
    (f : ListFilter) (r : RequestRow) → IsSoundRow r → matches_filter f r ≡ is_wanted f r
unfolding matches_filter
matches_filter-wanted f r s = rw s.closed (elim (Option-cases f.assigned_to) [
  | inl e ↦ rw e refl
  | inr (u, e) ↦
      rw e (elim (Option-cases r.assigned_to) [ inl o ↦ rw o refl | inr (owner, o) ↦ rw o refl ])
])

-- what joining the rows of a sound database gives
join_all-map :
    (d : Db) (rs : List RequestRow)
    → All (λ r. has_machine d r.machine_id ≡ true) rs
    → join_all d rs ≡ map (view d) rs
unfolding join_all
join_all-map d [] h = refl
join_all-map d (r ∷ rs) (linked, h) =
    rw (join-view d r linked, join_all) (ap (◌∷◌ (view d r)) (join_all-map d rs h))

count-map :
    {A B : Type 0} (p : B → Bool) (f : A → B) (xs : List A)
    → count p (map f xs) ≡ count (λ x. p (f x)) xs
unfolding count
count-map p f [] = refl
count-map p f (x ∷ xs) = ground (arith, count-map p f xs)

count-wanted :
    (f : ListFilter) (p : RequestRow → Bool) (rs : List RequestRow)
    → All IsSoundRow rs
    → count p (where_rows (matches_filter f) rs) ≡ count (λ r. is_wanted f r && p r) rs
unfolding count where_rows
count-wanted f p [] h = refl
count-wanted f p (r ∷ rs) (s, h) =
    ground (arith, matches_filter-wanted f r s, count-wanted f p rs h)

select_filtered-IsListing :
    (f : ListFilter) (d : Db) → IsSound d → IsListing f d (select_filtered f d)
unfolding select_filtered
select_filtered-IsListing f d s = (
  (λ p.
      count-order_by newest_first p _
      ∙ ap (count p) (join_all-map d _ (All-where _ (matches_filter f) d.requests s.linked))
      ∙ count-map p (view d) (where_rows (matches_filter f) d.requests)
      ∙ count-wanted f (λ r. p (view d r)) d.requests s.rows),
  ordered _ (order_by-IsOrdered newest_first newest_first-asym newest_first-mix _),
)

-- With no failing statement, in a sound database, `List` returns exactly the requests that the
-- filter asks for, each once and joined with its machine's name and its owner's username, the last
-- changed first, and changes nothing. An open request is one whose status is not terminal.
pub list-IsListing :
    (f : ListFilter) (w : World)
    → IsHealthy w
    → IsSound w.db
    → (rs : List Request) × (outcome (list f) w ≡ (ok rs, w.db)) × IsListing f w.db rs
unfolding list
list-IsListing f w healthy s =
    (select_filtered f w.db, rw (healthy w.tick, run) refl, select_filtered-IsListing f w.db s)
