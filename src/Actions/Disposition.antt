-- ===== src/Actions/Disposition.antt =====
-- packages/actions/src/service.ts: the writes of one item (commitDisposition, markExecuting), and the
-- status of its action (finalizeActionStatus, refreshActionStatus).
use personal_mail_hub.Base.{
  ℕ, ◌+◌, Bool, true, false, not, ◌&&◌, ◌||◌, Option, none, some, List, [], ◌∷◌, ◌++◌, ltb, any,
  select, length, Text, text_eq, String, str_eq, if◌then◌else◌,
}
use personal_mail_hub.Database.{ActionStatus, ActionItemStatus}
use personal_mail_hub.Recovery.Controls.{is_pending_action}
use personal_mail_hub.Actions.{
  ActionMailboxFlags, ItemOutcome, conflict, Detail, in_folder, reason_of, Action, Item, Occurrence,
}
use personal_mail_hub.Actions.State.{
  Desk, ActionEvent, action_applied, action_completed, update_where, load_occurrence,
  is_item_status, is_pending_item, is_queued_action, of_action, is_item, pending_items,
}

-- The argument of `commitDisposition`.
pub record Disposition : Type 0 where
  pub status : ActionItemStatus
  pub outcome : ItemOutcome
  pub observed : Option ActionMailboxFlags
  pub applied : Bool
  pub expunge : Bool
  pub supersedes_hold : Bool

abbrev pub note_event : {S : Type 0} → ActionEvent → Desk S → Desk S
note_event e d = record d { events = d.events ++ e ∷ [] }

abbrev pub is_reason : String → Option ItemOutcome → Bool
is_reason text none = false
is_reason text (some outcome) = elim (reason_of outcome) [
  | none ↦ false
  | some reason ↦ str_eq reason text
]

-- The interrupted hold, which a claim's own receipt may replace.
unfoldable pub is_interrupted : Item → Bool
is_interrupted i =
    is_item_status ActionItemStatus.unknown i.status && is_reason "interrupted" i.outcome

unfoldable pub eligible : Disposition → Item → Bool
unfolding is_interrupted
eligible write i = is_pending_item i.status || (write.supersedes_hold && is_interrupted i)

-- The condition of the update of `action_items`.
unfoldable pub disposes : Action → Item → Disposition → Item → Bool
unfolding eligible
disposes action item write i = is_item action.id item.item_key i && eligible write i

abbrev pub with_receipt : Disposition → Item → Item
with_receipt write i = record i { status = write.status; outcome = some write.outcome }

abbrev pub bool_eq : Bool → Bool → Bool
bool_eq true b = b
bool_eq false b = not b

abbrev flags_changed : Occurrence → Option ActionMailboxFlags → Bool
flags_changed o none = false
flags_changed o (some f) = not (bool_eq o.unread f.unread) || not (bool_eq o.flagged f.flagged)

-- `observed?.modseq ?? null`
abbrev pub modseq_of : Option ActionMailboxFlags → Option String
modseq_of none = none
modseq_of (some f) = elim f.modseq [ none ↦ none | some value ↦ value ]

abbrev kept_modseq : Option String → Option String → Option String
kept_modseq none old = old
kept_modseq (some fresh) old = some fresh

abbrev is_fresh : Option String → Bool
is_fresh none = false
is_fresh (some m) = true

abbrev with_flags : Option ActionMailboxFlags → Occurrence → Occurrence
with_flags none o = o
with_flags (some f) o = record o { unread = f.unread; flagged = f.flagged }

-- The columns of the occurrence that a receipt writes; `changed` was found on the row read before.
unfoldable pub observe_row : Disposition → Bool → Occurrence → Occurrence
observe_row write changed o =
    let o' = with_flags write.observed o in
    record o' {
      modseq = kept_modseq (modseq_of write.observed) o.modseq;
      revision = o.revision + (if changed then 1 else 0);
      expunged = write.expunge || o.expunged;
    }

-- The update of `message_occurrences` with a receipt, for the row that was read.
unfoldable pub observe : Disposition → Text → Option Occurrence → List Occurrence → List Occurrence
unfolding update_where observe_row
observe write id none rows = rows
observe write id (some current) rows =
    let changed = flags_changed current write.observed in
    if changed || is_fresh (modseq_of write.observed) || write.expunge
    then update_where (λ o. text_eq o.id id && not o.expunged) (observe_row write changed) rows
    else rows

-- `write.observed !== undefined || write.expunge === true`
abbrev observes : Disposition → Bool
observes write = elim write.observed [ none ↦ write.expunge | some f ↦ true ]

count_status : ActionItemStatus → List Item → ℕ
count_status s items = length (select (λ i. is_item_status s i.status) items)

-- The groups of one count each; a status without an item has none.
counts_of : List Item → List ActionItemStatus → List (ActionItemStatus × ℕ)
unfolding count_status
counts_of items [] = []
counts_of items (s ∷ ss) =
    let rest = counts_of items ss in
    if ltb 0 (count_status s items) then (s, count_status s items) ∷ rest else rest

abbrev all_statuses : List ActionItemStatus
all_statuses =
    ActionItemStatus.queued ∷ ActionItemStatus.executing ∷ ActionItemStatus.confirmed
    ∷ ActionItemStatus.conflicted ∷ ActionItemStatus.failed ∷ ActionItemStatus.unknown ∷ []

abbrev pub is_open_action : Text → Action → Bool
is_open_action id a = text_eq a.id id && is_pending_action a.status

abbrev pub with_status : ActionStatus → Action → Action
with_status s a = record a { status = s }

abbrev pub claims : Text → Text → Item → Bool
claims id key i = is_item id key i && is_item_status ActionItemStatus.queued i.status

abbrev pub claimed_item : Item → Item
claimed_item i = record i { status = ActionItemStatus.executing }

-- `this.conflict(…)`
abbrev pub conflict_with : String → Detail → Disposition
conflict_with reason detail = record {
  status = ActionItemStatus.conflicted;
  outcome = conflict reason detail;
  observed = none;
  applied = false;
  expunge = false;
  supersedes_hold = false;
}

module _ {S : Type 0} where
  unfoldable pub complete_action : Text → Desk S → Desk S
  unfolding update_where counts_of
  complete_action id d =
      let d' = record d {
        actions = update_where (is_open_action id) (with_status ActionStatus.complete) d.actions;
      } in
      if any (is_open_action id) d.actions
      then note_event (action_completed id (counts_of (select (of_action id) d.items) all_statuses))
          d'
      else d'

  -- `finalizeActionStatus`, and `refreshActionStatus`, which runs it alone.
  unfoldable pub finalize_action_status : Text → Desk S → Desk S
  unfolding update_where complete_action
  finalize_action_status id d =
      if ltb 0 (length (select (λ i. of_action id i && is_pending_item i.status) d.items))
      then record d {
        actions =
            update_where (λ a. text_eq a.id id && is_queued_action a.status)
              (with_status ActionStatus.executing) d.actions;
      }
      else complete_action id d

  -- The observed state and the event that the receipt commits with.
  unfoldable pub commit_observation : Action → Item → Disposition → Desk S → Desk S
  unfolding observe
  commit_observation action item write d =
      let id = item.target.occurrence_id in
      let d' =
        if observes write
        then record d { occurrences = observe write id (load_occurrence id d) d.occurrences }
        else d in
      if write.applied
      then note_event
          (action_applied id action.id action.account_id action.kind item.target.folder_id
            item.target.uid)
          d'
      else d'

  unfoldable pub commit_disposition : Action → Item → Disposition → Desk S → Desk S
  unfolding update_where disposes
  commit_disposition action item write d =
      let d' = record d {
        items = update_where (disposes action item write) (with_receipt write) d.items;
      } in
      if any (disposes action item write) d.items
      then finalize_action_status action.id (commit_observation action item write d')
      else d'

  -- `markExecuting`
  unfoldable pub mark_executing : Text → Text → Desk S → Bool × Desk S
  unfolding update_where
  mark_executing id key d = (
    any (claims id key) d.items,
    record d { items = update_where (claims id key) claimed_item d.items },
  )

  unfoldable pub conflict_items : Action → List Item → String → Option ℕ → Desk S → Desk S
  unfolding commit_disposition
  conflict_items action [] reason seen d = d
  conflict_items action (i ∷ is) reason seen d = conflict_items action is reason seen (
      commit_disposition action i
        (conflict_with reason (in_folder seen i.target.folder_id i.target.uid)) d)

  unfoldable pub conflict_all : Action → String → Desk S → Desk S
  unfolding conflict_items
  conflict_all action reason d = conflict_items action (pending_items action.id d) reason none d
