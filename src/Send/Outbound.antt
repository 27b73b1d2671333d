-- ===== src/Send/Outbound.antt =====
-- `executeOutbound` of service.ts: the claim, the checks on the stored bytes, the submission and
-- the transaction that records its outcome.
pub mod Cases
pub mod Moves
use personal_mail_hub.Base.{
  ℕ, Bool, true, false, not, ◌&&◌, Option, none, some, List, [], ◌∷◌, ◌++◌, String, str_eq,
  if◌then◌else◌,
}
use personal_mail_hub.Database.{OutboundStatus, is_status}
use personal_mail_hub.Send.{
  Bytes, LastError, OutboundMessage, SmtpCredentials, SmtpSubmitRequest, SmtpSubmitState,
  SmtpSubmitReport,
}
use personal_mail_hub.Send.World.{
  World, Failure, invalid_request, not_found, send_unavailable, Result, ok, err, Answer, answered,
  threw, valid_uuid, find_outbound, update_outbound, storage_get, owns,
}
use personal_mail_hub.Send.Results.{recipient_results_of, smtp_response_of}
use personal_mail_hub.Send.Commit.{
  Env, FailureOutcome, record_failure, record_unknown, Acceptance, commit_acceptance,
}

-- The answer of the call, with its field `submitted`.
abbrev pub Outcome : Type 0
Outcome = Result (OutboundMessage × Bool) × World

abbrev as_submitted : Result OutboundMessage × World → Outcome
as_submitted (ok row, w) = (ok (row, true), w)
as_submitted (err e, w) = (err e, w)

abbrev pub is_queued : OutboundMessage → Bool
is_queued row = is_status OutboundStatus.queued row.status

abbrev pub claim_row : ℕ → OutboundMessage → OutboundMessage
claim_row now r = record r { status = OutboundStatus.sending; sending_started_at = some now }

-- The claim: the one statement that moves a row from `queued` to `sending`.
abbrev pub claim_outbound : ℕ → String → World → World × Option OutboundMessage
claim_outbound now id w = update_outbound id is_queued (claim_row now) w

-- A failure before SMTP opened: no response, no recipient result.
abbrev pub local_failure : String → String → FailureOutcome
local_failure code message = record {
  smtp_response = none;
  recipient_results = [];
  error = some (record { code = code; message = message });
}

abbrev pub request_of : OutboundMessage → SmtpCredentials → Bytes → SmtpSubmitRequest
request_of row credentials bytes = record {
  credentials = credentials;
  from = row.envelope_sender;
  to = row.envelope_recipients;
  raw = bytes;
}

-- A submitter that throws leaves the outcome unknown.
abbrev report_of : Answer SmtpSubmitReport → SmtpSubmitReport
report_of (answered report) = report
report_of (threw message) = record {
  state = SmtpSubmitState.unknown;
  response = none;
  response_code = none;
  recipients = [];
  error = some (record { code = "submitter_error"; message = message });
}

unfoldable pub record_report : Env → OutboundMessage → Bytes → SmtpSubmitReport → World → Outcome
record_report env row bytes report w = elim report.state [
  | SmtpSubmitState.accepted ↦ as_submitted (
      commit_acceptance env row
        (record {
          from_status = OutboundStatus.sending;
          bytes = bytes;
          smtp_response = smtp_response_of report;
          recipient_results = recipient_results_of row.envelope_recipients (some report);
          sent_copy = none;
          evidence = none;
        })
        w)
  | SmtpSubmitState.rejected ↦ as_submitted (
      record_failure row
        (record {
          smtp_response = smtp_response_of report;
          recipient_results = recipient_results_of row.envelope_recipients (some report);
          error = report.error;
        })
        w)
  | SmtpSubmitState.unknown ↦ as_submitted (record_unknown row report w)
]

module _ (env : Env) (submit : SmtpSubmitRequest → Answer SmtpSubmitReport) where
  submit_with : OutboundMessage → Bytes → Answer SmtpCredentials → World → Outcome
  unfolding record_report
  submit_with row bytes (threw message) w =
      as_submitted (record_failure row (local_failure "credentials_unavailable" message) w)
  submit_with row bytes (answered credentials) w =
      let request = request_of row credentials bytes in
      record_report env row bytes (report_of (submit request))
        (record w { submitted = w.submitted ++ request ∷ [] })

  module _ (resolve : String → Answer SmtpCredentials) where
    -- The work of the claimer, by the stored bytes that it reads.
    submit_bytes : OutboundMessage → Option Bytes → World → Outcome
    unfolding submit_with
    submit_bytes row none w = as_submitted (
        record_failure row
          (local_failure "mime_missing"
            "The stored MIME bytes could not be read; nothing was submitted.")
          w)
    submit_bytes row (some bytes) w =
        if str_eq (env.sha256_hex bytes) row.mime_sha256
        then submit_with row bytes (resolve row.account_id) w
        else as_submitted (
            record_failure row
              (local_failure "mime_mismatch"
                "The stored MIME bytes no longer match their recorded hash; nothing was submitted.")
              w)

    reread : Option OutboundMessage → World → Outcome
    reread none w = (err not_found, w)
    reread (some current) w = (ok (current, false), w)

    after_claim : String → World × Option OutboundMessage → Outcome
    unfolding reread submit_bytes
    after_claim id (w, none) = reread (find_outbound id w) w
    after_claim id (w, some row) = submit_bytes row (storage_get row.mime_storage_key w.durable) w

    execute_found : String → Option OutboundMessage → World → Outcome
    unfolding after_claim
    execute_found id none w = (err not_found, w)
    execute_found id (some before) w =
        if is_queued before && owns w.control before
        then after_claim id (claim_outbound env.now id w)
        else (ok (before, false), w)

execute_configured :
    Env
    → Option (SmtpSubmitRequest → Answer SmtpSubmitReport)
    → Option (String → Answer SmtpCredentials)
    → String
    → World
    → Outcome
unfolding execute_found
execute_configured env (some submit) (some resolve) id w =
    execute_found env submit resolve id (find_outbound id w) w
execute_configured env (some submit) none id w = (err send_unavailable, w)
execute_configured env none resolve id w = (err send_unavailable, w)

unfoldable pub execute_outbound : Env → String → World → Outcome
unfolding execute_configured
execute_outbound env id w =
    if valid_uuid id
    then execute_configured env env.submit env.resolve_credentials id w
    else (err invalid_request, w)
