-- ===== src/Send/Commit.antt =====
-- The transactions of service.ts that end a submission: `commitAcceptance`, `recordFailure` and
-- `recordUnknown`.
--
-- The callees outside of the service (SMTP submission, credentials, hashing, MIME parsing, index
-- texts, clock and identifiers) are the fields of `Env`. Statements and transactions run one at a
-- time; what other workers do between them is the subject of Send/Interleaving.
pub mod Cases
pub mod Follows
use personal_mail_hub.Base.{
  ℕ, suc, ◌+◌, Bool, true, false, not, ◌&&◌, Option, none, some, List, [], ◌∷◌, ◌++◌, String,
  str_eq, any, if◌then◌else◌,
}
use personal_mail_hub.Database.{OutboundStatus, SentCopyStatus, is_status}
use personal_mail_hub.Send.{
  Bytes, RecipientResult, SmtpResponse, LastError, SentCopyDestination, OutboundMessage, ParsedMime,
  IndexTexts, LocalMessage, SmtpCredentials, SmtpSubmitRequest, SmtpSubmitState, SmtpSubmitReport,
}
use personal_mail_hub.Send.World.{
  World, SendEvent, send_sent, send_failed, send_unknown, Failure, invalid_request, not_found,
  send_unavailable, unique_violation, acceptance_superseded, thrown, Result, ok, err, Answer,
  answered, threw, transaction, record_event, valid_uuid, find_outbound, update_outbound,
  storage_get, owns,
}
use personal_mail_hub.Send.Results.{recipient_results_of, smtp_response_of}
use personal_mail_hub.Send.Lock.{unlock_draft_after_failure, unlock_draft_after_send}

pub record Env : Type 0 where
  -- absent where the process cannot submit mail
  pub submit : Option (SmtpSubmitRequest → Answer SmtpSubmitReport)
  pub resolve_credentials : Option (String → Answer SmtpCredentials)
  pub sha256_hex : Bytes → String
  pub parse_mime : Bytes → Answer ParsedMime
  pub index_texts : OutboundMessage → IndexTexts
  pub now : ℕ
  pub generated_id : String

-- `recordFailure`
pub record FailureOutcome : Type 0 where
  pub smtp_response : Option SmtpResponse
  pub recipient_results : List RecipientResult
  pub error : Option LastError

abbrev pub is_sending : OutboundMessage → Bool
is_sending row = is_status OutboundStatus.sending row.status

abbrev pub or_row : OutboundMessage → Option OutboundMessage → OutboundMessage
or_row row none = row
or_row row (some updated) = updated

abbrev pub error_code : Option LastError → String
error_code none = "unknown"
error_code (some e) = e.code

abbrev pub fail_row : FailureOutcome → OutboundMessage → OutboundMessage
fail_row outcome r = record r {
  status = OutboundStatus.failed;
  smtp_response = outcome.smtp_response;
  recipient_results = outcome.recipient_results;
  last_error = outcome.error;
}

failure_event :
    OutboundMessage
    → String
    → OutboundMessage
    → Result (Unit {0}) × World
    → Result OutboundMessage × World
failure_event row code failed (ok _, w) = (ok failed, record_event (send_failed row.id code) w)
failure_event row code failed (err e, w) = (err e, w)

failure_body : OutboundMessage → FailureOutcome → World → Result OutboundMessage × World
unfolding failure_event
failure_body row outcome w =
    let (w', updated) = update_outbound row.id is_sending (fail_row outcome) w in
    failure_event row (error_code outcome.error) (or_row row updated)
      (unlock_draft_after_failure row.id w')

unfoldable pub record_failure :
    OutboundMessage → FailureOutcome → World → Result OutboundMessage × World
unfolding failure_body
record_failure row outcome = transaction (failure_body row outcome)

-- `recordUnknown`; the service always calls it with a report and no error of its own.
abbrev pub unknown_row : OutboundMessage → SmtpSubmitReport → OutboundMessage → OutboundMessage
unknown_row row report r = record r {
  status = OutboundStatus.outcome_unknown;
  smtp_response = smtp_response_of report;
  recipient_results = recipient_results_of row.envelope_recipients (some report);
  last_error = report.error;
}

unfoldable pub record_unknown :
    OutboundMessage → SmtpSubmitReport → World → Result OutboundMessage × World
record_unknown row report w =
    let (w', updated) = update_outbound row.id is_sending (unknown_row row report) w in
    (ok (or_row row updated), record_event (send_unknown row.id (error_code report.error)) w')

-- `findMessageByHash`; the unique index on account and hash leaves one row at most.
unfoldable pub find_message_by_hash : String → String → List LocalMessage → Option LocalMessage
find_message_by_hash account hash [] = none
find_message_by_hash account hash (m ∷ ms) =
    if str_eq m.account_id account && str_eq m.original_sha256 hash
    then some m
    else find_message_by_hash account hash ms

abbrev or_now : Option ℕ → ℕ → ℕ
or_now none now = now
or_now (some t) now = t

abbrev pub has_any {ℓ} : {A : Type ℓ} → List A → Bool
has_any [] = false
has_any (x ∷ xs) = true

abbrev pub byte_length : Bytes → ℕ
byte_length [] = 0
byte_length (b ∷ bs) = suc (byte_length bs)

-- The record that `insertLocalSentMessage` writes.
unfoldable pub local_sent_message : Env → OutboundMessage → ParsedMime → Bytes → LocalMessage
local_sent_message env row parsed bytes = record {
  id = env.generated_id;
  account_id = row.account_id;
  message_id = row.rfc_message_id;
  in_reply_to = row.in_reply_to;
  reference_ids = row.reference_ids;
  thread_id = row.thread_id;
  thread_dirty = true;
  sender = row.identity;
  recipients = row.recipients;
  subject = row.subject;
  sent_at = or_now parsed.sent_at env.now;
  has_attachments = has_any parsed.attachments;
  size_bytes = byte_length bytes;
  fetched_body = true;
  original_storage_key = row.mime_storage_key;
  original_sha256 = row.mime_sha256;
  texts = env.index_texts row;
  text_plain = row.markdown_source;
  html_sanitized = row.html;
  attachments = parsed.attachments;
}

-- A second row with the generated identifier violates the primary key.
unfoldable pub insert_local_sent_message :
    Env → OutboundMessage → ParsedMime → Bytes → World → Result String × World
insert_local_sent_message env row parsed bytes w =
    if any (λ m. str_eq m.id env.generated_id) w.messages then (err unique_violation, w) else (
      ok env.generated_id,
      record w {
        messages = w.messages ++ local_sent_message env row parsed bytes ∷ [];
        thread_jobs = w.thread_jobs ++ (row.account_id, row.rfc_message_id) ∷ [];
      },
    )

pub record Acceptance : Type 0 where
  -- the status that the row must still hold
  pub from_status : OutboundStatus
  pub bytes : Bytes
  pub smtp_response : Option SmtpResponse
  pub recipient_results : List RecipientResult
  -- a Sent copy that verification already settled
  pub sent_copy : Option SentCopyDestination
  pub evidence : Option String

abbrev settle_copy : Option SentCopyDestination → OutboundMessage → OutboundMessage
settle_copy none r = r
settle_copy (some copy) r = record r {
  sent_copy_status = SentCopyStatus.stored;
  sent_folder_id = some copy.folder_id;
  sent_uidvalidity = copy.uidvalidity;
  sent_uid = copy.uid;
}

abbrev pub accept_row : ℕ → Acceptance → String → OutboundMessage → OutboundMessage
accept_row now input message r = settle_copy input.sent_copy (record r {
  status = OutboundStatus.sent;
  logical_message_id = some message;
  smtp_response = input.smtp_response;
  recipient_results = input.recipient_results;
  sent_at = some now;
  last_error = none;
})

abbrev pub count_accepted : Bool → List RecipientResult → ℕ
count_accepted b [] = 0
count_accepted b (r ∷ rs) =
    let rest = count_accepted b rs in if (if r.accepted then b else not b) then suc rest else rest

-- Another row that holds the message already, against the unique logical message.
abbrev is_message : String → Option String → Bool
is_message message none = false
is_message message (some m) = str_eq m message

abbrev pub message_taken : String → String → List OutboundMessage → Bool
message_taken id message rows =
    any (λ r. not (str_eq r.id id) && is_message message r.logical_message_id) rows

abbrev pub acceptance_event : OutboundMessage → Acceptance → String → SendEvent
acceptance_event row input message =
    send_sent row.id message (count_accepted true input.recipient_results)
      (count_accepted false input.recipient_results)
      (any (λ r. not r.accepted) input.recipient_results) input.evidence

accept_event :
    OutboundMessage
    → Acceptance
    → String
    → OutboundMessage
    → Result (Unit {0}) × World
    → Result OutboundMessage × World
accept_event row input message accepted (ok _, w) =
    (ok accepted, record_event (acceptance_event row input message) w)
accept_event row input message accepted (err e, w) = (err e, w)

accept_updated :
    OutboundMessage
    → Acceptance
    → String
    → World × Option OutboundMessage
    → Result OutboundMessage × World
unfolding accept_event
accept_updated row input message (w, none) = (err acceptance_superseded, w)
accept_updated row input message (w, some accepted) =
    if message_taken row.id message w.outbound
    then (err unique_violation, w)
    else accept_event row input message accepted (unlock_draft_after_send row.id w)

accept_under :
    Env → OutboundMessage → Acceptance → Result String × World → Result OutboundMessage × World
unfolding accept_updated
accept_under env row input (err e, w) = (err e, w)
accept_under env row input (ok message, w) = accept_updated row input message (
    update_outbound row.id (λ r. is_status input.from_status r.status)
      (accept_row env.now input message) w)

-- The local message: the one with the same original, or a new one.
place_message :
    Env → OutboundMessage → ParsedMime → Bytes → Option LocalMessage → World → Result String × World
place_message env row parsed bytes (some existing) w = (ok existing.id, w)
place_message env row parsed bytes none w = insert_local_sent_message env row parsed bytes w

-- One run of the acceptance transaction.
unfoldable pub accept_once :
    Env → OutboundMessage → Acceptance → ParsedMime → World → Result OutboundMessage × World
unfolding accept_under place_message
accept_once env row input parsed = transaction λ w. accept_under env row input (
    place_message env row parsed input.bytes
      (find_message_by_hash row.account_id row.mime_sha256 w.messages) w)

-- The catch clause: a superseded acceptance reads the row as it stands.
after_attempt :
    OutboundMessage → World → Result OutboundMessage × World → Result OutboundMessage × World
after_attempt row w (err acceptance_superseded, _) = (ok (or_row row (find_outbound row.id w)), w)
after_attempt row w (ok accepted, w') = (ok accepted, w')
after_attempt row w (err e, w') = (err e, w')

-- A unique violation of the first attempt is tried once more.
retry_once :
    (World → Result OutboundMessage × World)
    → World
    → Result OutboundMessage × World
    → Result OutboundMessage × World
retry_once again w (err unique_violation, _) = again w
retry_once again w (ok accepted, w') = (ok accepted, w')
retry_once again w (err e, w') = (err e, w')

commit_parsed :
    Env → OutboundMessage → Acceptance → World → Answer ParsedMime → Result OutboundMessage × World
unfolding after_attempt retry_once
commit_parsed env row input w (threw m) = (err (thrown m), w)
commit_parsed env row input w (answered parsed) =
    after_attempt row w
      (retry_once (accept_once env row input parsed) w (accept_once env row input parsed w))

unfoldable pub commit_acceptance :
    Env → OutboundMessage → Acceptance → World → Result OutboundMessage × World
unfolding commit_parsed
commit_acceptance env row input w = commit_parsed env row input w (env.parse_mime input.bytes)
