-- ===== src/Repair/States/Stages.antt =====
-- The workflow as an enumeration of stages with an edge relation, beside the tests of states.go on
-- status texts.
use mathlib.Core.Bool.{false≢true}
use starfighter_workflow.Common.{
  List, [], ◌∷◌, any, ◌&&◌, ◌∙◌, Bool-cases, Bool, true, false, ◌≡◌, refl, sym, ◌↔◌, ◌≢◌, inl, inr,
  arith, eq_iff, ◌==◌,
}
use starfighter_workflow.Repair.States.{
  Status, all_statuses, status_received, status_in_repair, status_awaiting_parts, status_completed,
  status_cancelled, valid_status, is_terminal, can_transition, next_among, allowed_next,
}

pub data Stage : Type 0 where
  received in_repair awaiting_parts completed cancelled : Stage

abbrev pub name : Stage → Status
name received = status_received
name in_repair = status_in_repair
name awaiting_parts = status_awaiting_parts
name completed = status_completed
name cancelled = status_cancelled

pub data IsClosed : Stage → Type 0 where
  fixed : IsClosed completed
  dropped : IsClosed cancelled

-- The legal moves. `claim` is the only one that a plain transition refuses.
infix 40 ◌⟶◌
pub data ◌⟶◌ : Stage → Stage → Type 0 where
  claim : received ⟶ in_repair
  defer : in_repair ⟶ awaiting_parts
  resume : awaiting_parts ⟶ in_repair
  fix : in_repair ⟶ completed
  fix_waiting : awaiting_parts ⟶ completed
  cancel_received : received ⟶ cancelled
  cancel_in_repair : in_repair ⟶ cancelled
  cancel_awaiting : awaiting_parts ⟶ cancelled

-- A status passes `valid_status` exactly when it names a stage.
pub valid_status_stage : (s : Status) → valid_status s ≡ true → (a : Stage) × (s ≡ name a)
unfolding valid_status
valid_status_stage s h = elim (Bool-cases (status_received == s)) [
  | inl e ↦ (received, sym ((eq_iff _ _).0 e))
  | inr n ↦ elim (Bool-cases (status_in_repair == s)) [
    | inl e ↦ (in_repair, sym ((eq_iff _ _).0 e))
    | inr m ↦ elim (Bool-cases (status_awaiting_parts == s)) [
      | inl e ↦ (awaiting_parts, sym ((eq_iff _ _).0 e))
      | inr k ↦ elim (Bool-cases (status_completed == s)) [
        | inl e ↦ (completed, sym ((eq_iff _ _).0 e))
        | inr j ↦ (cancelled, ground (arith, eq_iff status_cancelled s))
      ]
    ]
  ]
]

pub valid_status-name : (a : Stage) → valid_status (name a) ≡ true
unfolding valid_status
valid_status-name received = refl
valid_status-name _ = refl

module _ (from to : Status) (h : can_transition from to ≡ true) where
  pub can_transition-valid_left : valid_status from ≡ true
  unfolding can_transition
  can_transition-valid_left = elim (Bool-cases (valid_status from)) [
    | inl v ↦ v
    | inr n ↦ absurd (refused (rw n at h))
  ]
    where
      refused : false ≡ true → ⊥
      refused e = cc

  pub can_transition-valid_right : valid_status to ≡ true
  unfolding can_transition
  can_transition-valid_right = ground arith

-- the edges as a table, to evaluate both sides
abbrev is_edge : Stage → Stage → Bool
is_edge received in_repair = true
is_edge received cancelled = true
is_edge in_repair awaiting_parts = true
is_edge in_repair completed = true
is_edge in_repair cancelled = true
is_edge awaiting_parts in_repair = true
is_edge awaiting_parts completed = true
is_edge awaiting_parts cancelled = true
is_edge _ _ = false

can_transition-name : (a b : Stage) → can_transition (name a) (name b) ≡ is_edge a b
unfolding can_transition
can_transition-name received received = refl
can_transition-name in_repair received = refl
can_transition-name awaiting_parts received = refl
can_transition-name completed received = refl
can_transition-name cancelled received = refl
can_transition-name _ _ = refl

edge_of_table : (a b : Stage) → is_edge a b ≡ true → a ⟶ b
edge_of_table received in_repair h = claim
edge_of_table received cancelled h = cancel_received
edge_of_table in_repair awaiting_parts h = defer
edge_of_table in_repair completed h = fix
edge_of_table in_repair cancelled h = cancel_in_repair
edge_of_table awaiting_parts in_repair h = resume
edge_of_table awaiting_parts completed h = fix_waiting
edge_of_table awaiting_parts cancelled h = cancel_awaiting
edge_of_table _ _ h = absurd (false≢true h)

table_of_edge : {a b : Stage} → a ⟶ b → is_edge a b ≡ true
table_of_edge claim = refl
table_of_edge _ = refl

-- what a permitted move is, by stages
pub record Move (from to : Status) : Type 0 where
  pub source : Stage
  pub target : Stage
  pub from_name : from ≡ name source
  pub to_name : to ≡ name target
  pub edge : source ⟶ target

pub can_transition-Move : (from to : Status) → can_transition from to ≡ true → Move from to
can_transition-Move from to h =
    let (a, ea) = valid_status_stage from (can_transition-valid_left from to h) in
    let (b, eb) = valid_status_stage to (can_transition-valid_right from to h) in
    record {
      source = a;
      target = b;
      from_name = ea;
      to_name = eb;
      edge = edge_of_table a b (sym (can_transition-name a b) ∙ (rw (← ea, ← eb) h));
    }

-- `CanTransition` permits exactly the moves between stages that the edge relation has, and no
-- move from or to a text that is not a status.
pub can_transition_iff : (from to : Status) → (can_transition from to ≡ true) ↔ Move from to
can_transition_iff from to = (
  can_transition-Move from to,
  λ m. rw (m.from_name, m.to_name, can_transition-name m.source m.target) (table_of_edge m.edge),
)

is_terminal_table : (a : Stage) → is_terminal (name a) ≡ true → IsClosed a
unfolding is_terminal
is_terminal_table completed h = fixed
is_terminal_table cancelled h = dropped
is_terminal_table _ h = absurd (false≢true h)

no_edge_out : {a b : Stage} → IsClosed a → a ⟶ b → ⊥
no_edge_out fixed e = elim e [ ]
no_edge_out dropped e = elim e [ ]

no_edge_in : {a b : Stage} → a ⟶ b → name b ≢ status_received
no_edge_in claim h = false≢true ((eq_iff _ _).1 h)
no_edge_in _ h = false≢true ((eq_iff _ _).1 h)

-- Nothing leaves a terminal status, not even a cancellation.
pub terminal_is_final :
    (from to : Status) → is_terminal from ≡ true → can_transition from to ≡ false
terminal_is_final from to h = elim (Bool-cases (can_transition from to)) [
  | inr refused ↦ refused
  | inl permitted ↦
      let m = can_transition-Move from to permitted in
      absurd (no_edge_out (is_terminal_table m.source (rw m.from_name at h)) m.edge)
]

abbrev pub contains : List Status → Status → Bool
contains l s = any (λ v. v == s) l

contains-next_among :
    (from to : Status) (l : List Status)
    → contains (next_among from l) to ≡ (can_transition from to && contains l to)
unfolding next_among
contains-next_among from to [] = ground arith
contains-next_among from to (s ∷ l) = ground (arith, contains-next_among from to l, eq_iff s to)

-- `AllowedNext` lists exactly the statuses that `CanTransition` permits.
pub contains-allowed_next :
    (from to : Status) → contains (allowed_next from) to ≡ can_transition from to
unfolding allowed_next
contains-allowed_next from to =
    contains-next_among from to all_statuses ∙ elim (Bool-cases (can_transition from to)) [
      | inl permitted ↦ rw permitted (valid_listed (can_transition-valid_right from to permitted))
      | inr refused ↦ rw refused
    ]
  where
    valid_listed : valid_status to ≡ true → contains all_statuses to ≡ true
    valid_listed h = unfold valid_status in h

-- No move leads back to `received`.
pub can_transition-ne-received :
    (from to : Status) → can_transition from to ≡ true → to ≢ status_received
can_transition-ne-received from to h e =
    let m = can_transition-Move from to h in absurd (no_edge_in m.edge (sym m.to_name ∙ e))
