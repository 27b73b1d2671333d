-- ===== src/Actions/State.antt =====
-- The state that packages/actions/src/service.ts works on: the tables, the mailbox session and what
-- was handed to the executor, with the statements of its queries.
use personal_mail_hub.Base.{
  ℕ, Bool, true, false, ◌&&◌, ◌||◌, Option, none, some, List, [], ◌∷◌, map, ltb, ◌==◌, select,
  Answer, answered, threw, Text, text_eq, to_lower, String, step_row, if◌then◌else◌,
}
use personal_mail_hub.Database.{ActionStatus, ActionItemStatus}
use personal_mail_hub.Recovery.{ControlStatus, RecoveryBlockedError}
use personal_mail_hub.Actions.{
  ActionKind, ActionMailboxFlags, PreparedActionItem, ExecutorOutcome, Action, Item, Occurrence,
  ActionFolder,
}
use personal_mail_hub.Actions.Kinds.{text_leb}

-- The control state, the mailbox and the executor, over the state `S` of the world outside. Any call
-- may change that state, so a recovery may begin between two items.
pub record Environment (S : Type 0) : Type 0 where
  pub control_status : S → ControlStatus × S
  -- the generation that a selection reports
  pub select_folder : String → S → Answer ℕ × S
  pub revalidate : S → Answer ℕ × S
  pub fetch_flags : List ℕ → S → Answer (List ActionMailboxFlags) × S
  pub apply : PreparedActionItem → S → Answer ExecutorOutcome × S

pub data ActionEvent : Type 0 where
  -- the action, its account and kind, the number of targets and the destination
  action_queued : Text → Text → ActionKind → ℕ → Option Text → ActionEvent
  -- the occurrence, the action, its account and kind, the folder and the UID
  action_applied : Text → Text → Text → ActionKind → Text → ℕ → ActionEvent
  -- the action, and how many items have each status
  action_completed : Text → List (ActionItemStatus × ℕ) → ActionEvent
  -- the action, its account, kind and generation, the conflicted and the unknown items
  action_restored_held : Text → Text → ActionKind → Text → ℕ → ℕ → ActionEvent

pub record Desk (S : Type 0) : Type 0 where
  pub outside : S
  pub accounts : List Text
  pub folders : List ActionFolder
  pub occurrences : List Occurrence
  pub actions : List Action
  pub items : List Item
  pub events : List ActionEvent
  -- every item handed to the executor, oldest first
  pub handed : List PreparedActionItem

pub data ActionFault : Type 0 where
  invalid_request not_found idempotency_conflict : ActionFault
  -- the mutation gate
  recovery_blocked : RecoveryBlockedError → ActionFault
  -- the unique index on the idempotency key
  unique_violation : ActionFault
  -- thrown by the mailbox
  mailbox_error : String → ActionFault

pub data Attempt (A : Type 0) : Type 0 where
  done : A → Attempt A
  faulted : ActionFault → Attempt A

-- The `await` of a call that may throw: what it wrote before stays.
unfoldable pub then_run :
    {S A B : Type 0} → Attempt A × Desk S → (A → Desk S → Attempt B × Desk S) → Attempt B × Desk S
then_run (done a, d) next = next a d
then_run (faulted e, d) next = (faulted e, d)

-- An answer of the mailbox, with the state that it left.
unfoldable pub awaited : {S A : Type 0} → Answer A × S → Desk S → Attempt A × Desk S
awaited (answered a, s) d = (done a, record d { outside = s })
awaited (threw message, s) d = (faulted (mailbox_error message), record d { outside = s })

-- `update … set … where …`
unfoldable pub update_where : {A : Type 0} → (A → Bool) → (A → A) → List A → List A
update_where test change rows = map (λ row. step_row (test row) change row) rows

-- `select … where … limit 1`
unfoldable pub first_where : {A : Type 0} → (A → Bool) → List A → Option A
first_where test [] = none
first_where test (row ∷ rows) = if test row then some row else first_where test rows

abbrev pub is_item_status : ActionItemStatus → ActionItemStatus → Bool
is_item_status ActionItemStatus.queued ActionItemStatus.queued = true
is_item_status ActionItemStatus.executing ActionItemStatus.executing = true
is_item_status ActionItemStatus.confirmed ActionItemStatus.confirmed = true
is_item_status ActionItemStatus.conflicted ActionItemStatus.conflicted = true
is_item_status ActionItemStatus.failed ActionItemStatus.failed = true
is_item_status ActionItemStatus.unknown ActionItemStatus.unknown = true
is_item_status _ _ = false

-- `PENDING_ITEM_STATUSES`
abbrev pub is_pending_item : ActionItemStatus → Bool
is_pending_item ActionItemStatus.queued = true
is_pending_item ActionItemStatus.executing = true
is_pending_item _ = false

abbrev pub is_queued_action : ActionStatus → Bool
is_queued_action ActionStatus.queued = true
is_queued_action _ = false

abbrev pub of_action : Text → Item → Bool
of_action id item = text_eq item.action_id id

abbrev pub is_item : Text → Text → Item → Bool
is_item id key item = text_eq item.action_id id && text_eq item.item_key key

-- `loadItems`: by UID, then by key.
abbrev pub item_leb : Item → Item → Bool
item_leb i j =
    ltb i.target.uid j.target.uid
    || (i.target.uid == j.target.uid && text_leb i.item_key j.item_key)

abbrev pub insert_item : Item → List Item → List Item
insert_item i [] = i ∷ []
insert_item i (j ∷ js) =
    let rest = insert_item i js in if item_leb i j then i ∷ j ∷ js else j ∷ rest

unfoldable pub sort_items : List Item → List Item
sort_items [] = []
sort_items (i ∷ is) = insert_item i (sort_items is)

unfoldable pub load_items : {S : Type 0} → Text → Desk S → List Item
unfolding sort_items
load_items id d = sort_items (select (of_action id) d.items)

abbrev pub pending_items : {S : Type 0} → Text → Desk S → List Item
pending_items id d = select (λ i. is_pending_item i.status) (load_items id d)

-- A column of type uuid holds lower case, and takes either case in a comparison.
unfoldable pub find_action : {S : Type 0} → Text → Desk S → Option Action
unfolding first_where
find_action id d = first_where (λ a. text_eq a.id (to_lower id)) d.actions

unfoldable pub load_occurrence : {S : Type 0} → Text → Desk S → Option Occurrence
unfolding first_where
load_occurrence id d = first_where (λ o. text_eq o.id id) d.occurrences
