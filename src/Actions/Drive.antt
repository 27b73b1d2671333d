-- ===== src/Actions/Drive.antt =====
-- `execute`, `reconcileIncomplete` and `dispositionRestoredActions` of service.ts, as operations on
-- the tables.
use personal_mail_hub.Base.{
  ℕ, ◌≡◌, refl, ◌∙◌, inl, inr, none, some, List, [], ◌∷◌, ltb, All, Bool-cases, Option-cases, Text,
}
use personal_mail_hub.Recovery.{assess_job, is_uuid}
use personal_mail_hub.Recovery.Controls.{is_pending_action}
use personal_mail_hub.Actions.{Action}
use personal_mail_hub.Actions.Kinds.{requires_destination}
use personal_mail_hub.Actions.State.{
  Environment, Desk, Attempt, done, faulted, then_run, pending_items, load_items, find_action,
}
use personal_mail_hub.Actions.Disposition.{finalize_action_status}
use personal_mail_hub.Actions.Check.{Destination}
use personal_mail_hub.Actions.Execute.{
  Halt, blocked, stale, load_action, receipt, receipt_of, load_folder, assessment_of,
  blocked_result, hold_items, execute_pending, resolve_and_execute, execute_open, execute, halt_of,
}
use personal_mail_hub.Actions.Restore.{
  RestartReconciliationSummary, reconcile_rows, reconcile_incomplete,
}
use personal_mail_hub.Actions.Sound.{Sound, Sound-refl, Sound-trans, same-Sound}
use personal_mail_hub.Actions.Writes.{finalize_action_status-Sound, conflict_all-Sound}
use personal_mail_hub.Actions.Claim.{IsStartable}
use personal_mail_hub.Actions.Items.{then_run-Sound}
use personal_mail_hub.Actions.Run.{execute_groups-Sound}
use personal_mail_hub.Actions.Hold.{hold_items-Sound, pending-IsStartable}

module _ {S : Type 0} where
  pub load_action-same : (id : Text) (d : Desk S) → (load_action id d).1 ≡ d
  unfolding load_action
  load_action-same id d = elim (Bool-cases (is_uuid id)) [
    | inl u ↦ elim (Option-cases (find_action id d)) [
      | inl n ↦ rw (u, n, load_action) refl
      | inr (a, f) ↦ rw (u, f, load_action) refl
    ]
    | inr n ↦ rw (n, load_action) refl
  ]

  load_action-Sound : (id : Text) (d : Desk S) → Sound d (load_action id d).1
  load_action-Sound id d = rw (load_action-same id d) (Sound-refl d)

  pub receipt-same : (id : Text) (d : Desk S) → (receipt id d).1 ≡ d
  unfolding receipt then_run
  receipt-same id d = go (load_action id d) ∙ load_action-same id d
    where
      go :
          (x : Attempt Action × Desk S)
          → (then_run x (λ a d'. (done (receipt_of a d'), d'))).1 ≡ x.1
      go (done a, d') = refl
      go (faulted e, d') = refl

  receipt-Sound : (id : Text) (d : Desk S) → Sound d (receipt id d).1
  unfolding receipt
  receipt-Sound id d =
      then_run-Sound d (load_action id d) _ (load_action-Sound id d) (λ a d'. Sound-refl d')

module _ {S : Type 0} (env : Environment S) where
  blocked_result-Sound : (id : Text) (h : Halt) (d : Desk S) → Sound d (blocked_result env id h d).1
  unfolding blocked_result
  blocked_result-Sound id blocked d =
      then_run-Sound d (receipt id d) _ (receipt-Sound id d) (λ r d'. Sound-refl d')
  blocked_result-Sound id stale d =
      then_run-Sound d (receipt id d) _ (receipt-Sound id d)
        (λ r d'. same-Sound d' _ refl refl refl)

  execute_pending-Sound :
      (a : Action) (to : Destination) (d : Desk S)
      → All (IsStartable a) (pending_items a.id d)
      → Sound d (execute_pending env a to d).1
  unfolding execute_pending
  execute_pending-Sound a to d h = execute_groups-Sound env a to (pending_items a.id d) _ d h

  resolve_and_execute-Sound :
      (a : Action) (d : Desk S)
      → All (IsStartable a) (pending_items a.id d)
      → Sound d (resolve_and_execute env a d).1
  unfolding resolve_and_execute
  resolve_and_execute-Sound a d h = elim (Bool-cases (requires_destination a.kind)) [
    | inl r ↦
        elim (Option-cases (
          load_folder a.account_id
            (elim a.request.destination_folder_id [ none ↦ [] | some id ↦ id ]) d)) [
              | inl gone ↦
                  rw (r, gone, resolve_and_execute) (conflict_all-Sound a "destination_removed" d)
              | inr (folder, found) ↦
                  rw (r, found, resolve_and_execute)
                    (execute_pending-Sound a (some (folder.id, folder.name)) d h)
            ]
    | inr n ↦ rw (n, resolve_and_execute) (execute_pending-Sound a none d h)
  ]

  execute_open-Sound : (a : Action) (d : Desk S) → Sound d (execute_open env a d).1
  unfolding execute_open
  execute_open-Sound a d =
      let d1 = hold_items a (load_items a.id d) d in
      then_run-Sound d (resolve_and_execute env a d1) _
        (Sound-trans d d1 _ (hold_items-Sound a (load_items a.id d) d)
          (resolve_and_execute-Sound a d1 (pending-IsStartable a d)))
        (λ halt d2. elim (Option-cases halt) [
          | inl go ↦ rw go (
              Sound-trans d2 (finalize_action_status a.id d2) _
                (finalize_action_status-Sound a.id d2)
                (then_run-Sound (finalize_action_status a.id d2)
                  (receipt a.id (finalize_action_status a.id d2)) _ (receipt-Sound a.id _)
                  (λ r d3. Sound-refl d3)))
          | inr (h, stop) ↦ rw stop (blocked_result-Sound a.id h d2)
        ])

  pub execute-Sound : (id : Text) (d : Desk S) → Sound d (execute env id d).1
  unfolding execute assessment_of
  execute-Sound id d = then_run-Sound d (load_action id d) _ (load_action-Sound id d) (λ a d1.
      elim (Bool-cases (is_pending_action a.status)) [
        | inl p ↦
            let (status, s) = env.control_status d1.outside in
            let d2 = record d1 { outside = s } in
            let read = same-Sound d1 d2 refl refl refl in
            elim (Option-cases (halt_of (assess_job status a.recovery_generation))) [
              | inl go ↦ rw (p, go) (Sound-trans d1 d2 _ read (execute_open-Sound a d2))
              | inr (h, stop) ↦
                  rw (p, stop) (Sound-trans d1 d2 _ read (blocked_result-Sound a.id h d2))
            ]
        | inr c ↦ rw c (Sound-refl d1)
      ])

  reconcile_rows-Sound :
      (rows : List Action) (summary : RestartReconciliationSummary) (d : Desk S)
      → Sound d (reconcile_rows env rows summary d).1
  unfolding reconcile_rows
  reconcile_rows-Sound [] summary d = Sound-refl d
  reconcile_rows-Sound (a ∷ rows) summary d =
      then_run-Sound d (execute env a.id d) _ (execute-Sound a.id d)
        (λ result d1. reconcile_rows-Sound rows _ d1)

  pub reconcile_incomplete-Sound :
      (account : Text) (limit : ℕ) (d : Desk S)
      → Sound d (reconcile_incomplete env account limit d).1
  unfolding reconcile_incomplete
  reconcile_incomplete-Sound account limit d = elim (Bool-cases (ltb limit 1)) [
    | inl low ↦ rw (low, reconcile_incomplete) (Sound-refl d)
    | inr ok ↦ rw (ok, reconcile_incomplete) (reconcile_rows-Sound _ _ d)
  ]
