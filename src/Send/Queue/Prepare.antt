-- ===== src/Send/Queue/Prepare.antt =====
-- The part of `freezeSnapshot` before its transaction: the draft and its files are read and checked,
-- the message is composed, and its bytes are stored.
use personal_mail_hub.Base.{
  ℕ, ◌&&◌, List, ◌∷◌, String, str_eq, ◌==◌, leb, length, find, if◌then◌else◌,
}
use personal_mail_hub.Send.{Bytes, Draft}
use personal_mail_hub.Send.World.{
  World, invalid_request, draft_stale, draft_is_locked, recipients_required, upload_unverified,
  thrown, Result, ok, err, Answer, answered, threw,
}
use personal_mail_hub.Send.Lock.{draft_key}
use personal_mail_hub.Send.Commit.{has_any, byte_length}
use personal_mail_hub.Send.Queue.{
  attachments_total_max_bytes, max_message_bytes, QueueSendInput, Attachment, ComposeInput,
  QueueEnv, and_then, require, of_answer, load_verified_attachments, editable, is_unlocked, listed,
  envelope_of, total_bytes, carries, Frozen,
}

module _ (env : QueueEnv) (input : QueueSendInput) where
  abbrev compose_input : Draft → String → String → List Attachment → ComposeInput
  compose_input draft html rfc_message_id attachments = record {
    identity = draft.identity;
    to = draft.recipients.to;
    cc = listed draft.recipients.cc;
    subject = draft.subject;
    markdown = draft.markdown;
    html = html;
    rfc_message_id = rfc_message_id;
    date = env.now;
    in_reply_to = draft.in_reply_to;
    reference_ids = draft.reference_ids;
    attachments = attachments;
  }

  -- `verifyComposedMessage`
  abbrev verify_composed_message : Bytes → String → ℕ → Result (Unit {0})
  verify_composed_message bytes rfc_message_id attachments =
      and_then (of_answer (env.parse_mime bytes)) λ parsed.
        and_then (require (carries parsed.message_id rfc_message_id) invalid_request)
          λ _. require (length parsed.attachments == attachments) invalid_request

  compose_frozen : Draft → List Attachment → Result Frozen
  compose_frozen draft attachments =
      let html = env.render_markdown_html draft.markdown in
      let rfc_message_id = env.generate_rfc_message_id draft.identity.address in
      and_then
        (of_answer
          (env.compose_outbound_mime (compose_input draft html rfc_message_id attachments)))
        λ bytes. and_then (require (leb (byte_length bytes) max_message_bytes) invalid_request) λ _.
          and_then (verify_composed_message bytes rfc_message_id (length attachments)) λ _.
            ok (record {
              draft = draft;
              envelope = envelope_of draft;
              attachments = attachments;
              html = html;
              rfc_message_id = rfc_message_id;
              bytes = bytes;
            })

  -- The part of `freezeSnapshot` that only reads.
  unfoldable pub prepare : World → Result Frozen
  unfolding compose_frozen
  prepare w = and_then (editable (find draft_key input.draft_id w.drafts)) λ draft.
      and_then (require (draft.revision == input.base_revision) (draft_stale draft.revision)) λ _.
        and_then (require (is_unlocked draft.locked_by_send) draft_is_locked) λ _.
          and_then (require (has_any (envelope_of draft)) recipients_required) λ _.
            and_then (load_verified_attachments env draft.account_id draft.id w) λ attachments.
              and_then
                (require (leb (total_bytes attachments) attachments_total_max_bytes)
                  invalid_request)
                λ _. compose_frozen draft attachments

  stored_as : Frozen → Answer (String × ℕ) → World → Result Frozen × World
  stored_as frozen (threw m) w = (err (thrown m), w)
  stored_as frozen (answered (sha256, size)) w =
      let w' = record w {
        durable = (env.outbound_mime_key env.outbound_id, frozen.bytes) ∷ w.durable;
      } in
      if str_eq sha256 (env.sha256_hex frozen.bytes) && size == byte_length frozen.bytes
      then (ok frozen, w')
      else (err upload_unverified, w')

  unfoldable pub store : Result Frozen → World → Result Frozen × World
  unfolding stored_as
  store (err e) w = (err e, w)
  store (ok frozen) w =
      stored_as frozen (env.put (env.outbound_mime_key env.outbound_id) frozen.bytes) w
