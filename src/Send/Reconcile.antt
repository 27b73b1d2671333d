-- ===== src/Send/Reconcile.antt =====
-- `reconcileUnknownOutcome` and `noteReconcilePass` of service.ts.
pub mod Laws
use Prim.Native.String
use personal_mail_hub.Base.{
  ℕ, ◌+◌, Bool, true, false, ◌&&◌, Option, none, some, List, [], ◌∷◌, ◌++◌, String, str_eq, leb,
  if◌then◌else◌,
}
use personal_mail_hub.Database.{OutboundStatus, is_status}
use personal_mail_hub.Send.{Bytes, Folder, SentCopyDestination, OutboundMessage}
use personal_mail_hub.Send.World.{
  World, SendEvent, reconcile_halted, invalid_request, not_found, sent_copy_unavailable, thrown,
  Result, ok, err, Answer, answered, threw, valid_uuid, find_outbound, update_outbound,
  find_sent_folder, owns,
}
use personal_mail_hub.Send.Results.{reconciled_recipient_results}
use personal_mail_hub.Send.Commit.{Env, Acceptance, commit_acceptance}
use personal_mail_hub.Send.SentCopy.{
  Mailbox, Session, Evidence, verified, absent, conflict, locate_verified_copy, sweep_attempt_cap,
}

-- The row, whether this call resolved it, and the reason where it did not.
abbrev pub Outcome : Type 0
Outcome = Result (OutboundMessage × Bool × Option String) × World

-- The field `reconciled` of the answer; an exception carries none.
abbrev pub is_resolved : Outcome → Bool
is_resolved (ok (row, reconciled, reason), w) = reconciled
is_resolved (err e, w) = false

abbrev pub is_unknown : OutboundMessage → Bool
is_unknown row = is_status OutboundStatus.outcome_unknown row.status

abbrev pub count_pass : OutboundMessage → OutboundMessage
count_pass r = record r { reconcile_attempts = r.reconcile_attempts + 1 }

noted : World × Option OutboundMessage → World
noted (w, none) = w
noted (w, some after) =
    if leb sweep_attempt_cap after.reconcile_attempts
    then record w { events = w.events ++ reconcile_halted after.id after.reconcile_attempts ∷ [] }
    else w

unfoldable pub note_reconcile_pass : OutboundMessage → World → World
unfolding noted
note_reconcile_pass row w = noted (update_outbound row.id is_unknown count_pass w)

-- A pass that settled nothing.
abbrev unresolved : OutboundMessage → String → World → Outcome
unresolved before reason w = (ok (before, false, some reason), note_reconcile_pass before w)

abbrev resolved : Result OutboundMessage × World → Outcome
resolved (ok row, w) = (ok (row, true, none), w)
resolved (err e, w) = (err e, w)

-- The acceptance that verified evidence commits.
abbrev pub reconciliation : OutboundMessage → SentCopyDestination → Bytes → Acceptance
reconciliation before destination bytes = record {
  from_status = OutboundStatus.outcome_unknown;
  bytes = bytes;
  smtp_response = before.smtp_response;
  recipient_results = reconciled_recipient_results before;
  sent_copy = some destination;
  evidence = some "verified_sent_copy";
}

module _ (env : Env) where
  -- The verified copy is read once more before it is committed. An exception leaves the call.
  resolve_with : OutboundMessage → SentCopyDestination → Answer (Option Bytes) → World → Outcome
  resolve_with before destination (threw m) w = (err (thrown m), w)
  resolve_with before destination (answered none) w = unresolved before "candidate_unreadable" w
  resolve_with before destination (answered (some bytes)) w =
      if str_eq (env.sha256_hex bytes) before.mime_sha256
      then resolved (commit_acceptance env before (reconciliation before destination bytes) w)
      else unresolved before "candidate_unreadable" w

  fetch_copy : Mailbox → Option ℕ → Answer (Option Bytes)
  fetch_copy mailbox none = answered none
  fetch_copy mailbox (some uid) = mailbox.fetch_original uid

  by_evidence : OutboundMessage → Mailbox → Answer Evidence → World → Outcome
  unfolding resolve_with fetch_copy
  by_evidence before mailbox (threw m) w = (err (thrown m), w)
  by_evidence before mailbox (answered absent) w = unresolved before "absent" w
  by_evidence before mailbox (answered conflict) w = unresolved before "conflict" w
  by_evidence before mailbox (answered (verified destination)) w =
      resolve_with before destination (fetch_copy mailbox destination.uid) w

  by_session : OutboundMessage → Folder → Answer Session → World → Outcome
  unfolding by_evidence
  by_session before folder (threw m) w = unresolved before (String.◌++◌ "session_unavailable: " m) w
  by_session before folder (answered session) w =
      by_evidence before session.before
        (locate_verified_copy env.sha256_hex session.before folder before) w

  module _ (open_sent_copy : String → Answer Session) where
    reconcile_in : OutboundMessage → Option Folder → World → Outcome
    unfolding by_session
    reconcile_in before none w = (ok (before, false, some "sent_folder_unmapped"), w)
    reconcile_in before (some folder) w =
        by_session before folder (open_sent_copy before.account_id) w

    reconcile_found : Option OutboundMessage → World → Outcome
    unfolding reconcile_in
    reconcile_found none w = (err not_found, w)
    reconcile_found (some before) w =
        if is_unknown before && owns w.control before
        then reconcile_in before (find_sent_folder before.account_id w.folders) w
        else (ok (before, false, none), w)

unfoldable pub reconcile_unknown_outcome :
    Env → Option (String → Answer Session) → String → World → Outcome
unfolding reconcile_found
reconcile_unknown_outcome env none id w =
    if valid_uuid id then (err sent_copy_unavailable, w) else (err invalid_request, w)
reconcile_unknown_outcome env (some open_sent_copy) id w =
    if valid_uuid id
    then reconcile_found env open_sent_copy (find_outbound id w) w
    else (err invalid_request, w)
