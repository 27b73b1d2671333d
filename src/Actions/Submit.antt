-- ===== src/Actions/Submit.antt =====
-- packages/actions/src/service.ts: `submit`, `freezeTargets`, and the lookups by idempotency key.
--
-- The hash of a scope (SHA-256 of its JSON) is a parameter, as are the identifier and the instant
-- that the database gives a new row, and what other requests commit between the lookup of the key
-- and the transaction.
pub mod Replay
use personal_mail_hub.Base.{
  ℕ, Bool, true, false, not, ◌&&◌, ◌||◌, Option, none, some, List, [], ◌∷◌, ◌++◌, map, ◌==◌, any,
  select, length, Text, text_eq, String, str_eq, if◌then◌else◌,
}
use personal_mail_hub.Database.{ActionStatus, ActionItemStatus}
use personal_mail_hub.Recovery.{decide_mutation_gate}
use personal_mail_hub.Recovery.Controls.{GateResult, passed, refused, of_decision}
use personal_mail_hub.Actions.{
  ActionKind, ActionScope, ActionItemTarget, Action, Item, Occurrence, ActionFolder,
}
use personal_mail_hub.Actions.Kinds.{
  MailActionSubmission, requires_destination, validate_submission, canonical_scope, frozen_target,
}
use personal_mail_hub.Actions.State.{
  Environment, Desk, action_queued, ActionFault, invalid_request, not_found, idempotency_conflict,
  recovery_blocked, unique_violation, Attempt, done, faulted, then_run, first_where,
}
use personal_mail_hub.Actions.Disposition.{note_event}
use personal_mail_hub.Actions.Execute.{ActionReceipt, receipt_of, receipt}

pub record SubmitResult : Type 0 where
  pub created : Bool
  pub receipt : ActionReceipt

-- What a request brings besides the submission.
pub record Request (S : Type 0) : Type 0 where
  pub hash_scope : ActionScope → String
  pub new_id : Text
  pub now : ℕ
  pub interfere : Desk S → Desk S

abbrev pub is_member : Text → List Text → Bool
is_member id ids = any (λ other. text_eq id other) ids

-- The rows that the scope names.
abbrev pub targets_of : {S : Type 0} → ActionScope → Desk S → List Occurrence
targets_of scope d =
    select (λ o. text_eq o.account_id scope.account_id && is_member o.id scope.occurrence_ids)
      d.occurrences

-- The destination of a move or archive: an existing folder that is no source.
destination_fault : {S : Type 0} → ActionScope → Desk S → Option ActionFault
unfolding first_where
destination_fault scope d = elim scope.destination_folder_id [
  | none ↦ some not_found
  | some id ↦
      elim (first_where (λ f. text_eq f.id id && text_eq f.account_id scope.account_id) d.folders) [
        | none ↦ some not_found
        | some folder ↦
            if any (λ o. text_eq o.folder_id folder.id) (targets_of scope d)
            then some invalid_request
            else none
      ]
]

unfoldable pub freeze_fault : {S : Type 0} → ActionScope → Desk S → Option ActionFault
unfolding requires_destination destination_fault
freeze_fault scope d =
    if not (is_member scope.account_id d.accounts)
    then some not_found
    else if not (length (targets_of scope d) == length scope.occurrence_ids)
        || any (λ o. o.expunged || o.invalidated) (targets_of scope d)
    then some invalid_request
    else if requires_destination scope.kind
    then destination_fault scope d
    else none

unfoldable pub freeze_targets :
    {S : Type 0} → ActionScope → Desk S → Attempt (List ActionItemTarget)
unfolding freeze_fault frozen_target
freeze_targets scope d = elim (freeze_fault scope d) [
  | some e ↦ faulted e
  | none ↦ done (map frozen_target (targets_of scope d))
]

-- `findByIdempotencyKey`
unfoldable pub find_by_key : {S : Type 0} → String → Desk S → Option Action
unfolding first_where
find_by_key key d = first_where (λ a. str_eq a.idempotency_key key) d.actions

-- `existingReceipt`
unfoldable pub existing_receipt : {S : Type 0} → Action → String → Desk S → Attempt SubmitResult
unfolding receipt_of
existing_receipt a hash d =
    if str_eq a.request_hash hash
    then done (record { created = false; receipt = receipt_of a d })
    else faulted idempotency_conflict

abbrev pub new_item : Text → ActionItemTarget → Item
new_item id t = record {
  action_id = id;
  item_key = t.occurrence_id;
  target = t;
  status = ActionItemStatus.queued;
  outcome = none;
}

module _ {S : Type 0} where
  -- The transaction that queues the action, its items and the event.
  unfoldable pub insert_action : Action → List ActionItemTarget → Desk S → Attempt Text × Desk S
  unfolding find_by_key
  insert_action a targets d = elim (find_by_key a.idempotency_key d) [
    | some taken ↦ (faulted unique_violation, d)
    | none ↦ (
      done a.id,
      note_event
          (action_queued a.id a.account_id a.kind (length targets) a.request.destination_folder_id)
          (record d {
            actions = d.actions ++ a ∷ [];
            items = d.items ++ map (new_item a.id) targets;
          }),
    )
  ]

  unfoldable pub new_action : Request S → Text → String → ActionScope → Action
  new_action request generation key scope = record {
    id = request.new_id;
    account_id = scope.account_id;
    recovery_generation = generation;
    idempotency_key = key;
    request_hash = request.hash_scope scope;
    kind = scope.kind;
    request = scope;
    status = ActionStatus.queued;
    created_at = request.now;
  }

  unfoldable pub settle_receipt : Attempt ActionReceipt × Desk S → Attempt SubmitResult × Desk S
  unfolding then_run
  settle_receipt x = then_run x (λ r d'. (done (record { created = true; receipt = r }), d'))

  -- The answer to the transaction: a lost race falls back to the row that won it.
  unfoldable pub settle_insert :
      String → String → Attempt Text × Desk S → Attempt SubmitResult × Desk S
  unfolding find_by_key existing_receipt receipt settle_receipt
  settle_insert key hash (done id, d) = settle_receipt (receipt id d)
  settle_insert key hash (faulted unique_violation, d) = elim (find_by_key key d) [
    | none ↦ (faulted unique_violation, d)
    | some raced ↦ (existing_receipt raced hash d, d)
  ]
  settle_insert key hash (faulted e, d) = (faulted e, d)

  -- From the lookup of the key on.
  unfoldable pub submit_scope :
      Request S → Text → String → ActionScope → Desk S → Attempt SubmitResult × Desk S
  unfolding find_by_key existing_receipt freeze_targets insert_action new_action settle_insert
  submit_scope request generation key scope d =
      let hash = request.hash_scope scope in
      elim (find_by_key key d) [
        | some existing ↦ (existing_receipt existing hash d, d)
        | none ↦ elim (freeze_targets scope d) [
          | faulted e ↦ (faulted e, d)
          | done targets ↦ settle_insert key hash (
              insert_action (new_action request generation key scope) targets (request.interfere d))
        ]
      ]

  unfoldable pub submit :
      Environment S → Request S → MailActionSubmission → Desk S → Attempt SubmitResult × Desk S
  unfolding decide_mutation_gate validate_submission canonical_scope submit_scope
  submit env request s d =
      let (status, outside) = env.control_status d.outside in
      let d' = record d { outside = outside } in
      elim (of_decision (decide_mutation_gate status (some s.recovery_generation))) [
        | refused e ↦ (faulted (recovery_blocked e), d')
        | passed generation ↦ elim (validate_submission s) [
          | none ↦ (faulted invalid_request, d')
          | some kind ↦
              submit_scope request generation s.idempotency_key (canonical_scope kind s) d'
        ]
      ]
