-- ===== src/Actions/Execute.antt =====
-- packages/actions/src/service.ts: `execute`, one folder group of it, and `reconcileIncomplete`.
use personal_mail_hub.Base.{
  ℕ, not, ◌&&◌, ◌||◌, Option, none, some, List, [], ◌∷◌, ◌++◌, map, ◌==◌, select, Text, text_eq,
  String, if◌then◌else◌,
}
use personal_mail_hub.Database.{ActionStatus, ActionItemStatus}
use personal_mail_hub.Recovery.{ControlStatus, JobAssessment, assess_job, is_uuid}
use personal_mail_hub.Recovery.Controls.{is_pending_action}
use personal_mail_hub.Actions.{
  ActionKind, ActionMailboxFlags, PreparedActionItem, plain, ItemOutcome, Action, Item,
  ActionFolder,
}
use personal_mail_hub.Actions.Kinds.{
  flag_desire_of, is_replayable_kind, requires_destination, distinct,
}
use personal_mail_hub.Actions.State.{
  Environment, Desk, invalid_request, not_found, Attempt, done, faulted, then_run, awaited,
  first_where, is_item_status, pending_items, load_items, find_action, load_occurrence,
}
use personal_mail_hub.Actions.Disposition.{
  commit_disposition, mark_executing, conflict_with, conflict_items, conflict_all,
  finalize_action_status,
}
use personal_mail_hub.Actions.Check.{
  Destination, remote_of, examine, receipt_for, interrupted_hold, prepared_item, outcome_of,
}

-- Why a run stopped early.
pub data Halt : Type 0 where
  blocked stale : Halt

pub record ActionItemReceipt : Type 0 where
  pub item_key : Text
  pub status : ActionItemStatus
  pub outcome : Option ItemOutcome

pub record ActionReceipt : Type 0 where
  pub action_id : Text
  pub kind : ActionKind
  pub status : ActionStatus
  pub idempotency_key : String
  pub items : List ActionItemReceipt

pub data ActionExecutionResult : Type 0 where
  executed : ActionReceipt → ActionExecutionResult
  recovery_held : ActionReceipt → ActionExecutionResult
  -- with the current generation
  mismatched : Option Text → ActionReceipt → ActionExecutionResult

unfoldable pub halt_of : JobAssessment → Option Halt
halt_of JobAssessment.execute = none
halt_of JobAssessment.stale = some stale
halt_of JobAssessment.blocked = some blocked

-- `receiptOf`
unfoldable pub receipt_of : {S : Type 0} → Action → Desk S → ActionReceipt
receipt_of a d = record {
  action_id = a.id;
  kind = a.kind;
  status = a.status;
  idempotency_key = a.idempotency_key;
  items =
      map (λ i. record { item_key = i.item_key; status = i.status; outcome = i.outcome })
        (load_items a.id d);
}

-- `loadAction`
unfoldable pub load_action : {S : Type 0} → Text → Desk S → Attempt Action × Desk S
load_action id d =
    if is_uuid id
    then elim (find_action id d) [ none ↦ (faulted not_found, d) | some a ↦ (done a, d) ]
    else (faulted invalid_request, d)

unfoldable pub receipt : {S : Type 0} → Text → Desk S → Attempt ActionReceipt × Desk S
unfolding load_action
receipt id d = then_run (load_action id d) (λ a d'. (done (receipt_of a d'), d'))

-- `loadFolder`
unfoldable pub load_folder : {S : Type 0} → Text → Text → Desk S → Option ActionFolder
load_folder account id d =
    if is_uuid id
    then first_where (λ f. text_eq f.id id && text_eq f.account_id account) d.folders
    else none

-- The hold of interrupted items of a kind that never replays.
unfoldable pub hold_items : {S : Type 0} → Action → List Item → Desk S → Desk S
hold_items a [] d = d
hold_items a (i ∷ is) d = hold_items a is (
    if is_item_status ActionItemStatus.executing i.status && not (is_replayable_kind a.kind)
    then commit_disposition a i interrupted_hold d
    else d)

module _ {S : Type 0} (env : Environment S) where
  -- `assessmentOf`
  unfoldable pub assessment_of : Action → Desk S → Option Halt × Desk S
  unfolding halt_of
  assessment_of a d =
      let (status, s) = env.control_status d.outside in
      (halt_of (assess_job status a.recovery_generation), record d { outside = s })

  -- The call of the executor, and its receipt.
  unfoldable pub apply_item : Action → Item → PreparedActionItem → Desk S → Desk S
  unfolding outcome_of receipt_for
  apply_item a i p d =
      let (answer, s) = env.apply p d.outside in
      commit_disposition a i (receipt_for (outcome_of answer))
        (record d { outside = s; handed = d.handed ++ p ∷ [] })

  -- What follows the claim.
  unfoldable pub run_claimed : Action → Item → PreparedActionItem → Desk S → Option Halt × Desk S
  unfolding assessment_of apply_item
  run_claimed a i p d =
      let (halt, d') = assessment_of a d in
      elim halt [ some h ↦ (some h, d') | none ↦ (none, apply_item a i p d') ]

  -- From the claim on.
  unfoldable pub claim_and_run : Action → Item → PreparedActionItem → Desk S → Option Halt × Desk S
  unfolding run_claimed
  claim_and_run a i p d =
      let (claimed, d') = mark_executing a.id i.item_key d in
      if claimed || is_item_status ActionItemStatus.executing i.status
      then run_claimed a i p d'
      else (none, d')

  -- One item of a group, after the generation was validated again.
  unfoldable pub execute_item :
      Action
      → ActionFolder
      → ℕ
      → Destination
      → List ActionMailboxFlags
      → Item
      → Desk S
      → Option Halt × Desk S
  unfolding remote_of examine claim_and_run prepared_item
  execute_item a folder generation to remotes i d = elim (remote_of i.target.uid remotes) [
    | none ↦ (none, commit_disposition a i (conflict_with "absent_remote" plain) d)
    | some remote ↦
        elim (examine (flag_desire_of a.kind) generation i remote
          (load_occurrence i.target.occurrence_id d)) [
            | some write ↦ (none, commit_disposition a i write d)
            | none ↦ claim_and_run a i (prepared_item a i folder generation remote to) d
          ]
  ]

  -- The loop over the items of a group.
  unfoldable pub execute_items :
      Action
      → ActionFolder
      → ℕ
      → Destination
      → List ActionMailboxFlags
      → List Item
      → Desk S
      → Attempt (Option Halt) × Desk S
  unfolding execute_item
  execute_items a folder generation to remotes [] d = (done none, d)
  execute_items a folder generation to remotes (i ∷ is) d =
      then_run (awaited (env.revalidate d.outside) d) (λ seen d1.
        if seen == generation
        then (let (halt, d2) = execute_item a folder generation to remotes i d1 in
            elim halt [
              | some h ↦ (done (some h), d2)
              | none ↦ execute_items a folder generation to remotes is d2
            ])
        else (done none, conflict_items a (i ∷ is) "generation_changed" (some seen) d1))

  -- A folder with a recorded generation: selection, refresh, items.
  unfoldable pub execute_selected :
      Action → ActionFolder → ℕ → Destination → List Item → Desk S → Attempt (Option Halt) × Desk S
  unfolding execute_items
  execute_selected a folder generation to is d =
      then_run (awaited (env.select_folder folder.name d.outside) d) (λ seen d1.
        if seen == generation
        then then_run (awaited (env.fetch_flags (map (λ i. i.target.uid) is) d1.outside) d1)
            (λ remotes d2. execute_items a folder generation to remotes is d2)
        else (done none, conflict_items a is "generation_changed" (some seen) d1))

  -- `executeFolderGroup`, for the folder that the group shares.
  unfoldable pub execute_folder_group :
      Action → Text → Destination → List Item → Desk S → Attempt (Option Halt) × Desk S
  unfolding execute_selected
  execute_folder_group a folder_id to is d = elim (load_folder a.account_id folder_id d) [
    | none ↦ (done none, conflict_items a is "folder_removed" none d)
    | some folder ↦ elim folder.uidvalidity [
      | none ↦ (done none, conflict_items a is "folder_uninitialized" none d)
      | some generation ↦ execute_selected a folder generation to is d
    ]
  ]

  unfoldable pub execute_groups :
      Action → Destination → List Item → List Text → Desk S → Attempt (Option Halt) × Desk S
  unfolding execute_folder_group
  execute_groups a to pending [] d = (done none, d)
  execute_groups a to pending (f ∷ fs) d =
      then_run (execute_folder_group a f to (select (λ i. text_eq i.target.folder_id f) pending) d)
        (λ halt d'. elim halt [
          | some h ↦ (done (some h), d')
          | none ↦ execute_groups a to pending fs d'
        ])

  -- `blockedResult`
  unfoldable pub blocked_result : Text → Halt → Desk S → Attempt ActionExecutionResult × Desk S
  unfolding receipt
  blocked_result id blocked d = then_run (receipt id d) (λ r d'. (done (recovery_held r), d'))
  blocked_result id stale d = then_run (receipt id d) (λ r d'.
      let (status, s) = env.control_status d'.outside in
      (
        done (mismatched (elim status [ ControlStatus.ready g ↦ some g | _ ↦ none ]) r),
        record d' { outside = s },
      ))

  -- The groups of the items that are still pending.
  unfoldable pub execute_pending : Action → Destination → Desk S → Attempt (Option Halt) × Desk S
  unfolding execute_groups
  execute_pending a to d =
      let pending = pending_items a.id d in
      execute_groups a to pending (distinct (map (λ i. i.target.folder_id) pending)) d

  -- The destination, where the kind wants one, and then the groups.
  unfoldable pub resolve_and_execute : Action → Desk S → Attempt (Option Halt) × Desk S
  unfolding execute_pending
  resolve_and_execute a d =
      if requires_destination a.kind
      then elim (load_folder a.account_id
          (elim a.request.destination_folder_id [ none ↦ [] | some id ↦ id ]) d) [
            | none ↦ (done none, conflict_all a "destination_removed" d)
            | some folder ↦ execute_pending a (some (folder.id, folder.name)) d
          ]
      else execute_pending a none d

  -- The body of `execute` for an action that is not complete and may execute.
  unfoldable pub execute_open : Action → Desk S → Attempt ActionExecutionResult × Desk S
  unfolding hold_items resolve_and_execute blocked_result receipt
  execute_open a d =
      then_run (resolve_and_execute a (hold_items a (load_items a.id d) d)) (λ halt d'. elim halt [
        | some h ↦ blocked_result a.id h d'
        | none ↦
            then_run (receipt a.id (finalize_action_status a.id d'))
              (λ r d''. (done (executed r), d''))
      ])

  unfoldable pub execute : Text → Desk S → Attempt ActionExecutionResult × Desk S
  unfolding load_action assessment_of execute_open blocked_result
  execute id d = then_run (load_action id d) (λ a d'.
      if is_pending_action a.status
      then (let (halt, d'') = assessment_of a d' in
          elim halt [ some h ↦ blocked_result a.id h d'' | none ↦ execute_open a d'' ])
      else (done (executed (receipt_of a d')), d'))
