-- ===== src/Actions/Submit/Replay.antt =====
-- A repeated `submit` (service.ts): what the second request under an idempotency key is answered.
use mathlib.Core.Path.{subst}
use personal_mail_hub.Base.{
  Bool, true, false, ◌≡◌, refl, ◌∙◌, ap, inl, inr, none, some, List, [], ◌∷◌, ◌++◌, Bool-cases,
  Option-cases, Text, String, str_eq, eq_refl, if◌then◌else◌,
}
use personal_mail_hub.Actions.{Action, ActionItemTarget, ActionScope}
use personal_mail_hub.Actions.State.{
  Desk, Attempt, done, faulted, idempotency_conflict, unique_violation, then_run, first_where,
}
use personal_mail_hub.Actions.Execute.{ActionReceipt, receipt, receipt_of}
use personal_mail_hub.Actions.Submit.{
  Request, SubmitResult, freeze_fault, freeze_targets, find_by_key, existing_receipt, insert_action,
  new_action, settle_receipt, settle_insert, submit_scope,
}
use personal_mail_hub.Actions.Drive.{receipt-same}

-- The call queued an action.
abbrev pub IsCreated : {S : Type 0} → Attempt SubmitResult × Desk S → Type 0
IsCreated (done r, d) = r.created ≡ true
IsCreated (faulted e, d) = ⊥

first_where-append :
    {A : Type 0} (test : A → Bool) (rows : List A) (a : A)
    → first_where test rows ≡ none
    → test a ≡ true
    → first_where test (rows ++ a ∷ []) ≡ some a
unfolding first_where
first_where-append test [] a n h = rw h refl
first_where-append test (r ∷ rows) a n h = elim (Bool-cases (test r)) [
  | inl hit ↦ cc (rw hit at n)
  | inr miss ↦ rw miss (first_where-append test rows a (rw miss at n) h)
]

module _ {S : Type 0} where
  existing-uncreated :
      (a : Action) (hash : String) (d d' : Desk S) → IsCreated (existing_receipt a hash d, d') → ⊥
  unfolding existing_receipt
  existing-uncreated a hash d d' h = elim (Bool-cases (str_eq a.request_hash hash)) [
    | inl same ↦ cc (rw same at h)
    | inr other ↦ rw other at h
  ]

  settle_receipt-desk : (x : Attempt ActionReceipt × Desk S) → (settle_receipt x).1 ≡ x.1
  unfolding settle_receipt then_run
  settle_receipt-desk (done r, d) = refl
  settle_receipt-desk (faulted e, d) = refl

  settled-desk :
      (key hash : String) (id : Text) (d : Desk S) → (settle_insert key hash (done id, d)).1 ≡ d
  unfolding settle_insert
  settled-desk key hash id d = settle_receipt-desk (receipt id d) ∙ receipt-same id d

  insert_action-find :
      (a : Action) (targets : List ActionItemTarget) (d : Desk S)
      → find_by_key a.idempotency_key d ≡ none
      → find_by_key a.idempotency_key (insert_action a targets d).1 ≡ some a
  unfolding insert_action find_by_key
  insert_action-find a targets d free =
      rw (free, insert_action)
        (first_where-append (λ b. str_eq b.idempotency_key a.idempotency_key) d.actions a free
          (eq_refl a.idempotency_key))

  insert_action-free :
      (a : Action) (targets : List ActionItemTarget) (d : Desk S)
      → find_by_key a.idempotency_key d ≡ none
      → insert_action a targets d ≡ (done a.id, (insert_action a targets d).1)
  unfolding insert_action
  insert_action-free a targets d free = rw (free, insert_action) refl

  insert_action-taken :
      (a taken : Action) (targets : List ActionItemTarget) (d : Desk S)
      → find_by_key a.idempotency_key d ≡ some taken
      → insert_action a targets d ≡ (faulted unique_violation, d)
  unfolding insert_action
  insert_action-taken a taken targets d e = rw (e, insert_action) refl

  settle_insert-raced :
      (taken : Action) (key hash : String) (d : Desk S)
      → find_by_key key d ≡ some taken
      → IsCreated (settle_insert key hash (faulted unique_violation, d))
      → ⊥
  unfolding settle_insert
  settle_insert-raced taken key hash d e h =
      existing-uncreated taken hash d d (rw (e, IsCreated, settle_insert) at h)

  -- What a submission that queued its action leaves under the key.
  settle_insert-find :
      (a : Action) (targets : List ActionItemTarget) (hash : String) (d : Desk S)
      → IsCreated (settle_insert a.idempotency_key hash (insert_action a targets d))
      → find_by_key a.idempotency_key
          (settle_insert a.idempotency_key hash (insert_action a targets d)).1
        ≡ some a
  settle_insert-find a targets hash d h = elim (Option-cases (find_by_key a.idempotency_key d)) [
    | inl free ↦
        let d2 = (insert_action a targets d).1 in
        ap (λ x. find_by_key a.idempotency_key (settle_insert a.idempotency_key hash x).1)
          (insert_action-free a targets d free)
        ∙ ap (find_by_key a.idempotency_key) (settled-desk a.idempotency_key hash a.id d2)
        ∙ insert_action-find a targets d free
    | inr (taken, e) ↦ absurd (
        settle_insert-raced taken a.idempotency_key hash d e (
          subst (λ x. IsCreated (settle_insert a.idempotency_key hash x))
            (insert_action-taken a taken targets d e) h))
  ]

  submit_scope-find :
      (request : Request S) (generation : Text) (key : String) (scope : ActionScope) (d : Desk S)
      → IsCreated (submit_scope request generation key scope d)
      → find_by_key key (submit_scope request generation key scope d).1
        ≡ some (new_action request generation key scope)
  unfolding submit_scope freeze_targets new_action
  submit_scope-find request generation key scope d h = elim (Option-cases (find_by_key key d)) [
    | inr (existing, e) ↦
        absurd
          (existing-uncreated existing (request.hash_scope scope) d d (rw (e, submit_scope) at h))
    | inl free ↦ elim (Option-cases (freeze_fault scope d)) [
      | inr (fault, f) ↦ absurd (rw (free, f, submit_scope) at h)
      | inl frozen ↦
          rw (free, frozen, submit_scope)
            (settle_insert-find (new_action request generation key scope) _
              (request.hash_scope scope) (request.interfere d)
              (rw (free, frozen, submit_scope) at h))
    ]
  ]

submit_scope-existing :
    {S : Type 0} (later : Request S) (now : Text) (key : String) (other : ActionScope)
    (existing : Action) (d : Desk S)
    → find_by_key key d ≡ some existing
    → submit_scope later now key other d ≡ (existing_receipt existing (later.hash_scope other) d, d)
unfolding submit_scope
submit_scope-existing later now key other existing d e = rw (e, submit_scope) refl

-- A submission that queued its action, whatever other requests committed before its transaction:
-- any later one under the same idempotency key, with any scope, changes no table. It is answered
-- with the receipts of the queued action, not as created, if the hashes of the scopes agree, and
-- with an idempotency conflict otherwise.
pub submit_scope_replay :
    {S : Type 0} (request later : Request S) (generation now : Text) (key : String)
    (scope other : ActionScope) (d : Desk S)
    → IsCreated (submit_scope request generation key scope d)
    → submit_scope later now key other (submit_scope request generation key scope d).1 ≡ (
      if str_eq (request.hash_scope scope) (later.hash_scope other)
          then done (record {
            created = false;
            receipt =
                receipt_of
                  (new_action request generation key scope)
                  (submit_scope request generation key scope d).1;
          })
          else faulted idempotency_conflict,
      (submit_scope request generation key scope d).1,
    )
unfolding existing_receipt new_action
submit_scope_replay request later generation now key scope other d h =
    submit_scope-existing later now key other (new_action request generation key scope)
      (submit_scope request generation key scope d).1
      (submit_scope-find request generation key scope d h)
