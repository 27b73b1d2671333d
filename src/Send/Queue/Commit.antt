-- ===== src/Send/Queue/Commit.antt =====
-- The transaction of `freezeSnapshot`, `lockDraftForSend` (packages/compose/src/service.ts) and
-- `queueSend` with its idempotency rules.
pub mod Laws
pub mod Once
use personal_mail_hub.Base.{
  ℕ, Bool, true, false, not, ◌&&◌, ◌||◌, Option, none, some, List, [], ◌∷◌, ◌++◌, map, Text, codes,
  String, str_eq, ◌==◌, ltb, leb, any, length, find, update_rows, if◌then◌else◌,
}
use personal_mail_hub.Recovery.{MutationGateDecision, allow, decide_mutation_gate}
use personal_mail_hub.Send.{OutboundMessage, Draft, UploadLink}
use personal_mail_hub.Send.World.{
  World, SendEvent, send_queued, draft_locked, Failure, invalid_request, not_found,
  compose_invalid_request, unique_violation, draft_stale, draft_is_locked, idempotency_conflict,
  recovery_blocked, Result, ok, err, transaction, valid_uuid,
}
use personal_mail_hub.Send.Lock.{draft_key, locked_by}
use personal_mail_hub.Send.Queue.{
  max_idempotency_key_length, max_safe_integer, QueueSendInput, Attachment, QueueEnv, and_then,
  require, read_attachment_links, Frozen, links_of_attachments, is_unlocked, snapshot_row,
}
use personal_mail_hub.Send.Queue.Prepare.{prepare, store}

abbrev pub lock_draft : String → Draft → Draft
lock_draft outbound d = record d { locked_by_send = some outbound }

-- The writes of `lockDraftForSend`.
abbrev pub lock_written : String → String → World → World
lock_written draft outbound w = record w {
  drafts = update_rows draft_key (λ d. true) (lock_draft outbound) draft w.drafts;
  events = w.events ++ draft_locked draft outbound ∷ [];
}

lock_found : String → ℕ → String → Option Draft → World → Result (Unit {0}) × World
lock_found draft revision outbound none w = (err not_found, w)
lock_found draft revision outbound (some d) w =
    if not (d.revision == revision)
    then (err (draft_stale d.revision), w)
    else if locked_by outbound d.locked_by_send
    then (ok tt, w)
    else if not (is_unlocked d.locked_by_send)
    then (err draft_is_locked, w)
    else (ok tt, lock_written draft outbound w)

unfoldable pub lock_draft_for_send : String → ℕ → String → World → Result (Unit {0}) × World
unfolding lock_found
lock_draft_for_send draft revision outbound w =
    if valid_uuid draft && valid_uuid outbound
    then lock_found draft revision outbound (find draft_key draft w.drafts) w
    else (err compose_invalid_request, w)

abbrev same_link : String × ℕ → String × ℕ → Bool
same_link (u, n) (v, m) = str_eq u v && n == m

-- `matchesFrozenAttachments`
abbrev pub matches_frozen_attachments : List (String × ℕ) → List (String × ℕ) → Bool
matches_frozen_attachments [] [] = true
matches_frozen_attachments [] (y ∷ ys) = false
matches_frozen_attachments (x ∷ xs) [] = false
matches_frozen_attachments (x ∷ xs) (y ∷ ys) = same_link x y && matches_frozen_attachments xs ys

abbrev is_deleted : Option ℕ → Bool
is_deleted none = false
is_deleted (some t) = true

-- The checks on the draft under its lock.
unfoldable pub check_locked : QueueSendInput → Frozen → World → Option Draft → Result (Unit {0})
check_locked input frozen w none = err not_found
check_locked input frozen w (some locked) =
    and_then (require (not (is_deleted locked.deleted_at)) not_found) λ _.
      and_then (require (locked.revision == input.base_revision) (draft_stale locked.revision)) λ _.
        and_then (require (is_unlocked locked.locked_by_send) draft_is_locked) λ _.
          require
            (matches_frozen_attachments (read_attachment_links frozen.draft.id w)
              (links_of_attachments frozen.attachments))
            (draft_stale locked.revision)

-- The unique columns of the table: the identifier, the idempotency key and the message identifier.
abbrev pub collides : OutboundMessage → OutboundMessage → Bool
collides row r =
    str_eq r.id row.id
    || str_eq r.idempotency_key row.idempotency_key
    || str_eq r.rfc_message_id row.rfc_message_id

abbrev outbound_links : String → List Attachment → List UploadLink
outbound_links outbound = map (λ (a : Attachment). record {
  owner_id = outbound;
  upload_id = a.upload.id;
  ordinal = a.ordinal;
})

abbrev pub inserted : OutboundMessage → Frozen → World → World
inserted row frozen w = record w {
  outbound = row ∷ w.outbound;
  outbound_uploads = w.outbound_uploads ++ outbound_links row.id frozen.attachments;
}

abbrev pub queued_event : OutboundMessage → Frozen → SendEvent
queued_event row frozen =
    send_queued row.id frozen.draft.id frozen.draft.revision (length frozen.envelope)
      (length frozen.attachments)

with_lock : OutboundMessage → Frozen → Result (Unit {0}) × World → Result OutboundMessage × World
with_lock row frozen (err e, w) = (err e, w)
with_lock row frozen (ok _, w) =
    (ok row, record w { events = w.events ++ queued_event row frozen ∷ [] })

insert_row : OutboundMessage → Frozen → Result (Unit {0}) → World → Result OutboundMessage × World
unfolding with_lock
insert_row row frozen (err e) w = (err e, w)
insert_row row frozen (ok _) w =
    if any (collides row) w.outbound
    then (err unique_violation, w)
    else with_lock row frozen
        (lock_draft_for_send frozen.draft.id frozen.draft.revision row.id (inserted row frozen w))

module _ (env : QueueEnv) (input : QueueSendInput) where
  -- The transaction.
  unfoldable pub commit_snapshot : Text → Frozen → World → Result OutboundMessage × World
  unfolding insert_row
  commit_snapshot generation frozen = transaction λ w.
      insert_row (snapshot_row env input generation frozen) frozen
        (check_locked input frozen w (find draft_key frozen.draft.id w.drafts)) w

  -- Whether the call created the snapshot, and its row.
  abbrev pub Outcome : Type 0
  Outcome = Result (Bool × OutboundMessage) × World

  unfoldable pub find_by_idempotency_key : List OutboundMessage → Option OutboundMessage
  find_by_idempotency_key [] = none
  find_by_idempotency_key (r ∷ rows) =
      if str_eq r.idempotency_key input.idempotency_key
      then some r
      else find_by_idempotency_key rows

  abbrev pub existing_snapshot : OutboundMessage → String → World → Outcome
  existing_snapshot row request_hash w =
      if str_eq row.request_hash request_hash
      then (ok (false, row), w)
      else (err idempotency_conflict, w)

  abbrev is_race : Failure → Bool
  is_race unique_violation = true
  is_race draft_is_locked = true
  is_race _ = false

  raced : String → Failure → Option OutboundMessage → World → Outcome
  raced request_hash e none w = (err e, w)
  raced request_hash e (some row) w = existing_snapshot row request_hash w

  -- The catch clause.
  after_freeze : String → Result OutboundMessage × World → Outcome
  unfolding raced
  after_freeze request_hash (ok row, w) = (ok (true, row), w)
  after_freeze request_hash (err e, w) =
      if is_race e then raced request_hash e (find_by_idempotency_key w.outbound) w else (err e, w)

  -- Others may write between the storing of the bytes and the transaction.
  freeze : (World → World) → Text → Result Frozen × World → Result OutboundMessage × World
  freeze between generation (err e, w) = (err e, between w)
  freeze between generation (ok frozen, w) = commit_snapshot generation frozen (between w)

  looked_up : (World → World) → Text → String → Option OutboundMessage → World → Outcome
  unfolding after_freeze freeze
  looked_up between generation request_hash (some row) w = existing_snapshot row request_hash w
  looked_up between generation request_hash none w =
      after_freeze request_hash
        (freeze between generation (store env input (prepare env input w) w))

  abbrev pub is_well_formed : Bool
  is_well_formed =
      valid_uuid input.draft_id
      && ltb 0 (length (codes input.idempotency_key))
      && leb (length (codes input.idempotency_key)) max_idempotency_key_length
      && ltb 0 input.base_revision
      && leb input.base_revision max_safe_integer

  gated : (World → World) → MutationGateDecision → World → Outcome
  unfolding looked_up
  gated between (allow generation) w =
      if is_well_formed
      then looked_up between generation
          (env.hash_request input.draft_id input.base_revision
            (read_attachment_links input.draft_id w))
          (find_by_idempotency_key w.outbound) w
      else (err invalid_request, w)
  gated between _ w = (err recovery_blocked, w)

  unfoldable pub queue_send : Option Text → (World → World) → World → Outcome
  unfolding gated
  queue_send request between w = gated between (decide_mutation_gate w.control request) w
