-- ===== src/Send/Queue.antt =====
-- `queueSend` and `freezeSnapshot` of service.ts, with `lockDraftForSend` of
-- packages/compose/src/service.ts: a draft becomes one frozen, queued snapshot.
pub mod Prepare
pub mod Commit
mod Tests
use personal_mail_hub.Base.{
  ℕ, ◌+◌, ◌*◌, Bool, true, false, not, ◌&&◌, ◌||◌, Option, none, some, List, [], ◌∷◌, ◌++◌, map,
  Text, codes, String, str_eq, ◌==◌, ltb, leb, any, select, length, find, update_rows,
  if◌then◌else◌,
}
use personal_mail_hub.Database.{OutboundStatus, SentCopyStatus}
use personal_mail_hub.Recovery.{MutationGateDecision, allow, decide_mutation_gate}
use personal_mail_hub.Send.{
  Bytes, EmailAddress, Recipients, RecipientResult, Snapshot, OutboundMessage, Draft, Upload,
  UploadLink, ParsedMime,
}
use personal_mail_hub.Send.World.{
  World, SendEvent, send_queued, draft_locked, Failure, invalid_request, not_found,
  compose_invalid_request, unique_violation, draft_stale, draft_is_locked, recipients_required,
  upload_unverified, idempotency_conflict, recovery_blocked, thrown, Result, ok, err, Answer,
  answered, threw, transaction, record_event, valid_uuid, storage_get,
}
use personal_mail_hub.Send.Lock.{draft_key, locked_by}
use personal_mail_hub.Send.Commit.{has_any, byte_length}

abbrev pub max_idempotency_key_length : ℕ
max_idempotency_key_length = 200

-- `Number.MAX_SAFE_INTEGER`
abbrev pub max_safe_integer : ℕ
max_safe_integer = 9_007_199_254_740_991

abbrev pub attachments_total_max_bytes : ℕ
attachments_total_max_bytes = 32 * 1024 * 1024

abbrev pub max_message_bytes : ℕ
max_message_bytes = 50 * 1024 * 1024

pub record QueueSendInput : Type 0 where
  pub draft_id : String
  pub base_revision : ℕ
  pub idempotency_key : String

pub record Attachment : Type 0 where
  pub upload : Upload
  pub ordinal : ℕ
  pub bytes : Bytes

-- The input of `composeOutboundMime`.
pub record ComposeInput : Type 0 where
  pub identity : EmailAddress
  pub to : List EmailAddress
  pub cc : List EmailAddress
  pub subject : Option String
  pub markdown : String
  pub html : String
  pub rfc_message_id : String
  pub date : ℕ
  pub in_reply_to : Option String
  pub reference_ids : List String
  pub attachments : List Attachment

-- The callees of one call, and the identifiers that it generates.
pub record QueueEnv : Type 0 where
  pub sha256_hex : Bytes → String
  -- what the durable storage reports of the object: its hash and its size
  pub put : String → Bytes → Answer (String × ℕ)
  pub render_markdown_html : String → String
  pub compose_outbound_mime : ComposeInput → Answer Bytes
  pub parse_mime : Bytes → Answer ParsedMime
  pub hash_request : String → ℕ → List (String × ℕ) → String
  pub generate_rfc_message_id : String → String
  pub outbound_mime_key : String → String
  pub outbound_id : String
  pub now : ℕ

abbrev pub and_then : {A B : Type 0} → Result A → (A → Result B) → Result B
and_then (ok a) f = f a
and_then (err e) f = err e

abbrev pub require : Bool → Failure → Result (Unit {0})
require true e = ok tt
require false e = err e

abbrev of_answer : {A : Type 0} → Answer A → Result A
of_answer (answered a) = ok a
of_answer (threw m) = err (thrown m)

-- `orderBy(asc(ordinal))` over the links of one draft.
abbrev insert_link : UploadLink → List UploadLink → List UploadLink
insert_link l [] = l ∷ []
insert_link l (x ∷ xs) =
    let rest = insert_link l xs in if leb l.ordinal x.ordinal then l ∷ x ∷ xs else x ∷ rest

abbrev by_ordinal : List UploadLink → List UploadLink
by_ordinal [] = []
by_ordinal (l ∷ ls) = insert_link l (by_ordinal ls)

abbrev pub links_of : String → World → List UploadLink
links_of draft w = by_ordinal (select (λ l. str_eq l.owner_id draft) w.draft_uploads)

-- `readAttachmentLinks`
abbrev pub read_attachment_links : String → World → List (String × ℕ)
read_attachment_links draft w =
    map (λ (l : UploadLink). (l.upload_id, l.ordinal)) (links_of draft w)

abbrev upload_key : Upload → String
upload_key u = u.id

module _ (env : QueueEnv) where
  verified_bytes : Upload → Option Bytes → Result Bytes
  verified_bytes upload none = err upload_unverified
  verified_bytes upload (some bytes) =
      if byte_length bytes == upload.size_bytes && str_eq (env.sha256_hex bytes) upload.sha256
      then ok bytes
      else err upload_unverified

  -- The inner join leaves out a link to an upload of another account.
  load_link :
      String
      → UploadLink
      → Option Upload
      → Result (List Attachment)
      → World
      → Result (List Attachment)
  unfolding verified_bytes
  load_link account link none rest w = rest
  load_link account link (some upload) rest w =
      if str_eq upload.account_id account
      then (and_then (verified_bytes upload (storage_get upload.storage_key w.durable)) λ bytes.
          and_then rest λ others.
            ok (record { upload = upload; ordinal = link.ordinal; bytes = bytes } ∷ others))
      else rest

  load_links : String → List UploadLink → World → Result (List Attachment)
  unfolding load_link
  load_links account [] w = ok []
  load_links account (link ∷ links) w =
      load_link account link (find upload_key link.upload_id w.uploads) (load_links account links w)
        w

  unfoldable pub load_verified_attachments : String → String → World → Result (List Attachment)
  unfolding load_links
  load_verified_attachments account draft w = load_links account (links_of draft w) w

abbrev editable : Option Draft → Result Draft
editable none = err not_found
editable (some draft) = elim draft.deleted_at [ none ↦ ok draft | some t ↦ err not_found ]

abbrev pub is_unlocked : Option String → Bool
is_unlocked none = true
is_unlocked (some outbound) = false

abbrev pub listed : Option (List EmailAddress) → List EmailAddress
listed none = []
listed (some addresses) = addresses

-- `envelopeOf`
abbrev pub envelope_of : Draft → List String
envelope_of draft =
    map (λ (a : EmailAddress). a.address)
      (draft.recipients.to ++ listed draft.recipients.cc ++ listed draft.recipients.bcc)

abbrev pub total_bytes : List Attachment → ℕ
total_bytes [] = 0
total_bytes (a ∷ rest) = a.upload.size_bytes + total_bytes rest

abbrev carries : Option String → String → Bool
carries none rfc_message_id = false
carries (some m) rfc_message_id = str_eq m rfc_message_id

-- What the freeze composed before its transaction opens.
pub record Frozen : Type 0 where
  pub draft : Draft
  pub envelope : List String
  pub attachments : List Attachment
  pub html : String
  pub rfc_message_id : String
  pub bytes : Bytes

abbrev pub links_of_attachments : List Attachment → List (String × ℕ)
links_of_attachments = map (λ (a : Attachment). (a.upload.id, a.ordinal))

module _ (env : QueueEnv) (input : QueueSendInput) where
  -- The inserted row.
  abbrev pub snapshot_row : Text → Frozen → OutboundMessage
  snapshot_row generation frozen = record {
    snapshot = record {
      id = env.outbound_id;
      account_id = frozen.draft.account_id;
      recovery_generation = generation;
      idempotency_key = input.idempotency_key;
      request_hash =
          env.hash_request input.draft_id input.base_revision
            (links_of_attachments frozen.attachments);
      draft_id = some frozen.draft.id;
      draft_revision = frozen.draft.revision;
      identity = frozen.draft.identity;
      envelope_sender = frozen.draft.identity.address;
      envelope_recipients = frozen.envelope;
      thread_id = frozen.draft.thread_id;
      reply_parent_id = frozen.draft.reply_parent_id;
      in_reply_to = frozen.draft.in_reply_to;
      reference_ids = frozen.draft.reference_ids;
      recipients = frozen.draft.recipients;
      subject = frozen.draft.subject;
      markdown_source = frozen.draft.markdown;
      html = some frozen.html;
      rfc_message_id = frozen.rfc_message_id;
      mime_storage_key = env.outbound_mime_key env.outbound_id;
      mime_sha256 = env.sha256_hex frozen.bytes;
      created_at = env.now;
    };
    status = OutboundStatus.queued;
    sent_copy_status = SentCopyStatus.pending;
    logical_message_id = none;
    smtp_response = none;
    recipient_results = [];
    sending_started_at = none;
    append_started_at = none;
    sent_copy_attempts = 0;
    reconcile_attempts = 0;
    sent_folder_id = none;
    sent_uidvalidity = none;
    sent_uid = none;
    last_error = none;
    sent_at = none;
  }
