-- ===== src/Actions/Restore.antt =====
-- packages/actions/src/service.ts: `dispositionRestoredActions`, and `reconcileIncomplete`, which
-- drives what is pending through `execute` again.
use personal_mail_hub.Base.{
  ℕ, ◌+◌, Bool, not, ◌&&◌, List, [], ◌∷◌, ltb, leb, any, select, length, some, take, Text, text_eq,
  to_lower, if◌then◌else◌,
}
use personal_mail_hub.Database.{ActionStatus, ActionItemStatus}
use personal_mail_hub.Recovery.{is_uuid}
use personal_mail_hub.Recovery.Controls.{is_pending_action}
use personal_mail_hub.Actions.{held, Action, Item}
use personal_mail_hub.Actions.State.{
  Environment, Desk, action_restored_held, invalid_request, Attempt, done, faulted, then_run,
  update_where, is_item_status, of_action,
}
use personal_mail_hub.Actions.Disposition.{note_event, is_open_action, with_status}
use personal_mail_hub.Actions.Execute.{
  ActionExecutionResult, executed, recovery_held, mismatched, execute,
}

pub record RestoredDispositionSummary : Type 0 where
  pub actions : ℕ
  pub conflicted : ℕ
  pub unknown : ℕ

-- The condition and the change of the two updates of `action_items`.
abbrev pub of_action_in : Text → ActionItemStatus → Item → Bool
of_action_in id s i = of_action id i && is_item_status s i.status

abbrev pub restored_to : ActionItemStatus → Item → Item
restored_to s i = record i { status = s; outcome = some (held "restored_generation") }

-- The two updates, on the items.
unfoldable pub restore_items : Text → List Item → List Item
unfolding update_where
restore_items id items =
    update_where (of_action_in id ActionItemStatus.executing) (restored_to ActionItemStatus.unknown)
      (update_where (of_action_in id ActionItemStatus.queued)
        (restored_to ActionItemStatus.conflicted) items)

abbrev pub count_in : Text → ActionItemStatus → List Item → ℕ
count_in id s items = length (select (of_action_in id s) items)

-- The rows that a restore left behind.
abbrev pub is_restored : Text → Action → Bool
is_restored current a =
    not (text_eq a.recovery_generation (to_lower current)) && is_pending_action a.status

module _ {S : Type 0} where
  -- The transaction of one action.
  unfoldable pub restore_action : Action → Desk S → Desk S
  unfolding update_where restore_items
  restore_action a d =
      let d' = record d {
        items = restore_items a.id d.items;
        actions = update_where (is_open_action a.id) (with_status ActionStatus.complete) d.actions;
      } in
      if any (is_open_action a.id) d.actions
      then note_event
          (action_restored_held a.id a.account_id a.kind a.recovery_generation
            (count_in a.id ActionItemStatus.queued d.items)
            (count_in a.id ActionItemStatus.executing d.items))
          d'
      else d'

  -- What one action adds to the summary.
  unfoldable pub restored_count :
      Action → Desk S → RestoredDispositionSummary → RestoredDispositionSummary
  restored_count a d summary =
      if any (is_open_action a.id) d.actions
      then record {
        actions = summary.actions + 1;
        conflicted = summary.conflicted + count_in a.id ActionItemStatus.queued d.items;
        unknown = summary.unknown + count_in a.id ActionItemStatus.executing d.items;
      }
      else summary

  unfoldable pub restore_actions :
      List Action → RestoredDispositionSummary → Desk S → RestoredDispositionSummary × Desk S
  unfolding restore_action restored_count
  restore_actions [] summary d = (summary, d)
  restore_actions (a ∷ as') summary d =
      restore_actions as' (restored_count a d summary) (restore_action a d)

  unfoldable pub disposition_restored_actions :
      Text → Desk S → Attempt RestoredDispositionSummary × Desk S
  unfolding restore_actions
  disposition_restored_actions current d =
      if is_uuid current
      then (let (summary, d') =
            restore_actions (select (is_restored current) d.actions)
              (record { actions = 0; conflicted = 0; unknown = 0 }) d in
          (done summary, d'))
      else (faulted invalid_request, d)

pub record RestartReconciliationSummary : Type 0 where
  pub scanned : ℕ
  pub executed : ℕ
  pub held : ℕ
  pub generation_mismatch : ℕ

abbrev pub default_reconciliation_limit : ℕ
default_reconciliation_limit = 25

-- `orderBy(actions.createdAt)`; equal instants stay in the order of the table.
abbrev insert_action_by_age : Action → List Action → List Action
insert_action_by_age a [] = a ∷ []
insert_action_by_age a (b ∷ bs) =
    let rest = insert_action_by_age a bs in
    if leb a.created_at b.created_at then a ∷ b ∷ bs else b ∷ rest

abbrev actions_by_age : List Action → List Action
actions_by_age [] = []
actions_by_age (a ∷ rest) = insert_action_by_age a (actions_by_age rest)

abbrev count_result :
    ActionExecutionResult → RestartReconciliationSummary → RestartReconciliationSummary
count_result (executed r) s = record s { executed = s.executed + 1 }
count_result (recovery_held r) s = record s { held = s.held + 1 }
count_result (mismatched g r) s = record s { generation_mismatch = s.generation_mismatch + 1 }

module _ {S : Type 0} (env : Environment S) where
  unfoldable pub reconcile_rows :
      List Action
      → RestartReconciliationSummary
      → Desk S
      → Attempt RestartReconciliationSummary × Desk S
  unfolding then_run execute
  reconcile_rows [] summary d = (done summary, d)
  reconcile_rows (a ∷ rest) summary d =
      then_run (execute env a.id d)
        (λ result d'. reconcile_rows rest (count_result result summary) d')

  unfoldable pub reconcile_incomplete :
      Text → ℕ → Desk S → Attempt RestartReconciliationSummary × Desk S
  unfolding reconcile_rows
  reconcile_incomplete account limit d =
      let rows = take limit (
        actions_by_age
          (select (λ a. text_eq a.account_id account && is_pending_action a.status) d.actions)) in
      if ltb limit 1
      then (faulted invalid_request, d)
      else reconcile_rows rows
          (record { scanned = length rows; executed = 0; held = 0; generation_mismatch = 0 }) d
