-- ===== src/Send/Tests.antt =====
-- The send service at work on one account: a queued row, a sent row without its copy, an unknown
-- outcome and an abandoned attempt.
use personal_mail_hub.Base.{
  ℕ, ◌-◌, ◌≤◌, ◌+◌, true, false, ◌≡◌, refl, ◌⊎◌, none, some, List, [], ◌∷◌, codes, length, All, map,
  find, String,
}
use personal_mail_hub.Database.{OutboundStatus, SentCopyStatus, FolderRole}
use personal_mail_hub.Recovery.{ControlStatus}
use personal_mail_hub.Send.{
  Bytes, Snapshot, OutboundMessage, Folder, SmtpSecurityMode, SmtpCredentials, SmtpSubmitReport,
  SmtpSubmitState, IndexTexts, SentCopyDestination,
}
use personal_mail_hub.Send.World.{World, Answer, answered, find_outbound}
use personal_mail_hub.Send.Results.{recipient_results_of, reconciled_recipient_results}
use personal_mail_hub.Send.Results.Laws.{
  address_of, Reconciles, Reported, recipient_results_of-Reported,
  reconciled_recipient_results-Reconciles,
}
use personal_mail_hub.Send.Status.{Follows, Keeps, Row}
use personal_mail_hub.Send.Commit.{Env, Acceptance, commit_acceptance}
use personal_mail_hub.Send.Commit.Cases.{Accepted, commit_acceptance_cases}
use personal_mail_hub.Send.Outbound.{execute_outbound}
use personal_mail_hub.Send.Outbound.Moves.{
  Handed, execute_outbound-submits, execute_outbound-Follows,
}
use personal_mail_hub.Send.SentCopy.{
  Mailbox, Session, SentCopyWriteResult, check_candidates, locate_verified_copy,
}
use personal_mail_hub.Send.SentCopy.Verified.{
  Among, locate_verified_copy-verified, locate_verified_copy-absent,
}
use personal_mail_hub.Send.Append.{execute_sent_copy_append}
use personal_mail_hub.Send.Append.Authorized.{execute_sent_copy_append-appends}
use personal_mail_hub.Send.Append.Laws.{Authorized, Appended, execute_sent_copy_append-Keeps}
use personal_mail_hub.Send.Reconcile.{reconcile_unknown_outcome}
use personal_mail_hub.Send.Reconcile.Laws.{
  Reconciled, reconcile_unknown_outcome-Reconciled, reconcile_unknown_outcome-Follows,
}
use personal_mail_hub.Send.Recovery.{recover_abandoned_attempts, attempt_lease_ms}
use personal_mail_hub.Send.Recovery.Laws.{recover_abandoned_attempts-Follows}
use personal_mail_hub.Send.Recovery.Expired.{Expires, recover_abandoned_attempts-Expires}
use personal_mail_hub.Send.Sweep.{sweep, execute_queued}
use personal_mail_hub.Send.Sweep.Counts.{sweep-counted}
use personal_mail_hub.Send.Sweep.Laws.{execute_queued-Follows}
use personal_mail_hub.Send.Interleaving.{System, Steps, submissions}
use personal_mail_hub.Send.Interleaving.Once.{submissions-at_most_once, request_in}
use personal_mail_hub.Send.Interleaving.Runs.{execute_outbound-Steps}

abbrev queued_id : String
queued_id = "11111111-1111-4111-8111-111111111111"

abbrev unknown_id : String
unknown_id = "22222222-2222-4222-8222-222222222222"

abbrev sent_id : String
sent_id = "33333333-3333-4333-8333-333333333333"

abbrev sending_id : String
sending_id = "44444444-4444-4444-8444-444444444444"

abbrev generation : String
generation = "99999999-9999-4999-8999-999999999999"

abbrev frozen : String → Snapshot
frozen id = record {
  id = id;
  account_id = "a1";
  recovery_generation = codes generation;
  idempotency_key = id;
  request_hash = "h";
  draft_id = some "d1";
  draft_revision = 1;
  identity = record { address = "me@here.org"; name = none };
  envelope_sender = "me@here.org";
  envelope_recipients = "you@there.org" ∷ "blind@there.org" ∷ [];
  thread_id = none;
  reply_parent_id = none;
  in_reply_to = none;
  reference_ids = [];
  recipients = record { to = []; cc = none; bcc = none };
  subject = some "Hello";
  markdown_source = "Hello";
  html = none;
  rfc_message_id = id;
  mime_storage_key = "outbound";
  mime_sha256 = "sha";
  created_at = 7;
}

abbrev row_in : OutboundStatus → String → OutboundMessage
row_in status id = record {
  snapshot = frozen id;
  status = status;
  sent_copy_status = SentCopyStatus.pending;
  logical_message_id = none;
  smtp_response = none;
  recipient_results = [];
  sending_started_at = some 1_000;
  append_started_at = none;
  sent_copy_attempts = 0;
  reconcile_attempts = 0;
  sent_folder_id = none;
  sent_uidvalidity = none;
  sent_uid = none;
  last_error = none;
  sent_at = none;
}

abbrev sent_folder : Folder
sent_folder = record { id = "f1"; account_id = "a1"; path = "Sent"; role = some FolderRole.sent }

abbrev office : World
office = record {
  control = ControlStatus.ready (codes generation);
  outbound =
      row_in OutboundStatus.queued queued_id
      ∷ row_in OutboundStatus.outcome_unknown unknown_id
      ∷ row_in OutboundStatus.sent sent_id
      ∷ row_in OutboundStatus.sending sending_id
      ∷ [];
  drafts = [];
  uploads = [];
  draft_uploads = [];
  outbound_uploads = [];
  folders = sent_folder ∷ [];
  messages = [];
  thread_jobs = [];
  events = [];
  durable = ("outbound", 1 ∷ 2 ∷ []) ∷ [];
  submitted = [];
  appended = [];
}

abbrev accepting : SmtpSubmitReport
accepting = record {
  state = SmtpSubmitState.accepted;
  response = some "250 ok";
  response_code = some 250;
  recipients = [];
  error = none;
}

abbrev credentials : SmtpCredentials
credentials = record {
  host = "smtp.here.org";
  port = 465;
  security = SmtpSecurityMode.implicit_tls;
  username = "me";
  password = "secret";
}

abbrev texts : IndexTexts
texts = record {
  snippet = "";
  sender_text = "";
  recipients_text = "";
  addresses_text = "";
  subject_text = "";
  body_index_text = "";
}

abbrev desk : Env
desk = record {
  submit = some (λ request. answered accepting);
  resolve_credentials = some (λ account. answered credentials);
  sha256_hex = λ bytes. "sha";
  parse_mime = λ bytes. answered (record { message_id = none; sent_at = none; attachments = [] });
  index_texts = λ row. texts;
  now = 1_000_000;
  generated_id = "m1";
}

abbrev empty_mailbox : Mailbox
empty_mailbox = record {
  select = λ path. answered 5;
  search_by_message_id = λ id. answered [];
  fetch_original = λ uid. answered none;
}

abbrev full_mailbox : Mailbox
full_mailbox = record {
  select = λ path. answered 5;
  search_by_message_id = λ id. answered (8 ∷ []);
  fetch_original = λ uid. answered (some (1 ∷ 2 ∷ []));
}

abbrev session_of : Mailbox → String → Answer Session
session_of mailbox account = answered (record {
  before = mailbox;
  append_message = λ path bytes. answered (SentCopyWriteResult.appended (some 5) (some 9));
  after = full_mailbox;
})

abbrev idle : World → System
idle w = record { world = w; claimed = []; unrecorded = []; log = [] }

execute_outbound-submits_example :
    let w' = (execute_outbound desk queued_id office).1 in
    (w'.submitted ≡ office.submitted) ⊎ Handed desk queued_id office w'
execute_outbound-submits_example = execute_outbound-submits desk queued_id office

execute_outbound-Follows_example :
    Follows office.outbound (execute_outbound desk queued_id office).1.outbound
execute_outbound-Follows_example = execute_outbound-Follows desk queued_id office

execute_sent_copy_append-appends_example :
    let opener = some (session_of empty_mailbox) in
    let w' = (execute_sent_copy_append desk opener sent_id office).1 in
    ((w'.appended ≡ office.appended) × ¬ Authorized desk opener sent_id office)
    ⊎ Appended desk opener sent_id office w'
execute_sent_copy_append-appends_example =
    execute_sent_copy_append-appends desk (some (session_of empty_mailbox)) sent_id office

execute_sent_copy_append-Keeps_example :
    let w' = (execute_sent_copy_append desk (some (session_of empty_mailbox)) sent_id office).1 in
    Keeps office.outbound w'.outbound × (w'.submitted ≡ office.submitted)
execute_sent_copy_append-Keeps_example =
    execute_sent_copy_append-Keeps desk (some (session_of empty_mailbox)) sent_id office

reconcile_unknown_outcome-Reconciled_example :
    Reconciled desk
      (some (session_of full_mailbox))
      unknown_id
      office
      (reconcile_unknown_outcome desk (some (session_of full_mailbox)) unknown_id office)
reconcile_unknown_outcome-Reconciled_example =
    reconcile_unknown_outcome-Reconciled desk (some (session_of full_mailbox)) unknown_id office

reconcile_unknown_outcome-Follows_example :
    let w' =
      (reconcile_unknown_outcome desk (some (session_of full_mailbox)) unknown_id office).1 in
    Follows office.outbound w'.outbound
    × (w'.submitted ≡ office.submitted)
    × (w'.appended ≡ office.appended)
reconcile_unknown_outcome-Follows_example =
    reconcile_unknown_outcome-Follows desk (some (session_of full_mailbox)) unknown_id office

recover_abandoned_attempts-Follows_example :
    let w' = (recover_abandoned_attempts 1_000_000 office).0 in
    Follows office.outbound w'.outbound
    × (w'.submitted ≡ office.submitted)
    × (w'.appended ≡ office.appended)
recover_abandoned_attempts-Follows_example = recover_abandoned_attempts-Follows 1_000_000 office

recover_abandoned_attempts-Expires_example :
    Row
      (Expires (1_000_000 - attempt_lease_ms))
      (find_outbound sending_id office)
      (find_outbound sending_id (recover_abandoned_attempts 1_000_000 office).0)
unfolding find
recover_abandoned_attempts-Expires_example =
    recover_abandoned_attempts-Expires 1_000_000 office (refl, (refl, (refl, (refl, tt))))
      sending_id

execute_queued-Follows_example :
    let w' = (execute_queued desk 10 office).0 in
    Follows office.outbound w'.outbound × (length w'.submitted ≤ length office.submitted + 10)
execute_queued-Follows_example = execute_queued-Follows desk 10 office

sweep-counted_example :
    let summary = (sweep (λ id w. (none, w)) 2 (λ w r. true) office).1 in
    (summary.done + summary.skipped_stale + summary.row_errors ≤ summary.scanned)
    × (summary.scanned ≤ 2)
sweep-counted_example = sweep-counted (λ id w. (none, w)) 2 (λ w r. true) office

abbrev at_uid : SentCopyDestination
at_uid = record { folder_id = "f1"; uidvalidity = some 5; uid = some 8 }

locate_verified_copy-verified_example :
    (v uid : ℕ) × (uids : List ℕ) × (bytes : Bytes) × (full_mailbox.select "Sent" ≡ answered v)
    × (full_mailbox.search_by_message_id sent_id ≡ answered uids)
    × Among uid uids
    × (full_mailbox.fetch_original uid ≡ answered (some bytes))
    × (desk.sha256_hex bytes ≡ "sha")
    × (at_uid ≡ record { folder_id = "f1"; uidvalidity = some v; uid = some uid })
unfolding locate_verified_copy check_candidates
locate_verified_copy-verified_example =
    locate_verified_copy-verified desk.sha256_hex full_mailbox sent_folder
      (row_in OutboundStatus.sent sent_id) at_uid refl

locate_verified_copy-absent_example :
    (uids : List ℕ) × (empty_mailbox.search_by_message_id sent_id ≡ answered uids)
    × All (λ uid. empty_mailbox.fetch_original uid ≡ answered none) uids
unfolding locate_verified_copy check_candidates
locate_verified_copy-absent_example =
    locate_verified_copy-absent desk.sha256_hex empty_mailbox sent_folder
      (row_in OutboundStatus.sent sent_id) refl

abbrev accepted_send : Acceptance
accepted_send = record {
  from_status = OutboundStatus.sending;
  bytes = 1 ∷ 2 ∷ [];
  smtp_response = none;
  recipient_results = [];
  sent_copy = none;
  evidence = none;
}

commit_acceptance_cases_example :
    let row = row_in OutboundStatus.sending sending_id in
    Accepted desk row accepted_send office (commit_acceptance desk row accepted_send office)
    ⊎ ((commit_acceptance desk row accepted_send office).1 ≡ office)
commit_acceptance_cases_example =
    commit_acceptance_cases desk (row_in OutboundStatus.sending sending_id) accepted_send office

execute_outbound-Steps_example :
    (s' : System) × Steps (idle office) s'
    × (s'.world ≡ (execute_outbound desk queued_id office).1)
    × (s'.claimed ≡ [])
    × (s'.unrecorded ≡ [])
execute_outbound-Steps_example = execute_outbound-Steps desk queued_id (idle office)

abbrev one_call : (s : System) × Steps (idle office) s
one_call = let r = execute_outbound-Steps desk queued_id (idle office) in (r.0, r.1)

submissions-at_most_once_example :
    (submissions queued_id one_call.0 ≤ 1)
    × (one_call.0.world.submitted ≡ map request_in one_call.0.log)
submissions-at_most_once_example =
    submissions-at_most_once (idle office) one_call.0 queued_id (refl, refl, refl, refl) one_call.1

-- The server lists one recipient of two, twice.
abbrev listing : SmtpSubmitReport
listing = record accepting {
  recipients =
      record { address = "you@there.org"; accepted = false; response = none }
      ∷ record { address = "you@there.org"; accepted = true; response = some "250 ok" }
      ∷ [];
}

recipient_results_of-Reported_example :
    let results = recipient_results_of ("you@there.org" ∷ "blind@there.org" ∷ []) (some listing) in
    (map address_of results ≡ "you@there.org" ∷ "blind@there.org" ∷ [])
    × All (Reported (some listing)) results
recipient_results_of-Reported_example =
    recipient_results_of-Reported ("you@there.org" ∷ "blind@there.org" ∷ []) (some listing)

-- One recipient was refused before the outcome was lost.
abbrev half_answered : OutboundMessage
half_answered = record (row_in OutboundStatus.outcome_unknown unknown_id) {
  recipient_results =
      record { address = "blind@there.org"; accepted = false; response = some "550 no" }
      ∷ record { address = "you@there.org"; accepted = false; response = none }
      ∷ [];
}

reconciled_recipient_results-Reconciles_example :
    (map address_of (reconciled_recipient_results half_answered)
      ≡ "you@there.org" ∷ "blind@there.org" ∷ [])
    × All (Reconciles half_answered) (reconciled_recipient_results half_answered)
reconciled_recipient_results-Reconciles_example =
    reconciled_recipient_results-Reconciles half_answered
