-- ===== src/Send/Append.antt =====
-- `executeSentCopyAppend` of service.ts: the guards, the claim and one conclusion.
pub mod Laws
pub mod Authorized
use Prim.Native.String
use personal_mail_hub.Base.{
  ℕ, Bool, true, false, not, ◌&&◌, ◌||◌, Option, none, some, [], ◌∷◌, ◌++◌, String, str_eq,
  if◌then◌else◌,
}
use personal_mail_hub.Database.{OutboundStatus, SentCopyStatus, is_status, is_copy_status}
use personal_mail_hub.Send.{Bytes, Folder, LastError, OutboundMessage}
use personal_mail_hub.Send.World.{
  World, invalid_request, not_found, sent_copy_unavailable, Result, ok, err, Answer, answered,
  threw, valid_uuid, find_outbound, update_outbound, storage_get, find_sent_folder, owns,
}
use personal_mail_hub.Send.Commit.{Env}
use personal_mail_hub.Send.SentCopy.{
  Session, Conclusion, claimed, unclaimed, is_open_copy, conclude_sent_copy, unknown_because,
  failed_because, copy_bytes,
}

abbrev pub Outcome : Type 0
Outcome = Result (OutboundMessage × Bool) × World

abbrev attempted : OutboundMessage × World → Outcome
attempted (row, w) = (ok (row, true), w)

abbrev pub claim_copy_row : ℕ → OutboundMessage → OutboundMessage
claim_copy_row now r = record r {
  sent_copy_status = SentCopyStatus.appending;
  append_started_at = some now;
}

abbrev pub may_claim_copy : OutboundMessage → Bool
may_claim_copy r = is_status OutboundStatus.sent r.status && is_open_copy r.sent_copy_status

-- The claim: `appending` persists before the connection opens.
abbrev pub claim_copy : ℕ → String → World → World × Option OutboundMessage
claim_copy now id w = update_outbound id may_claim_copy (claim_copy_row now) w

-- An append goes over the network before its attempt is concluded.
abbrev pub appending_to : Folder → Option Bytes → Bool → World → World
appending_to folder none made w = w
appending_to folder (some bytes) made w =
    if made then record w { appended = w.appended ++ (folder.path, bytes) ∷ [] } else w

run_copy : Folder → OutboundMessage → Option Bytes → Conclusion × Bool → World → Outcome
run_copy folder row bytes (conclusion, made) w =
    attempted (conclude_sent_copy row claimed conclusion (appending_to folder bytes made w))

module _ (env : Env) (open_sent_copy : String → Answer Session) where
  copy_session : Folder → OutboundMessage → Answer Session → World → Outcome
  unfolding run_copy
  copy_session folder row (threw m) w = attempted (
      conclude_sent_copy row claimed
        (unknown_because "session_unavailable"
          (String.◌++◌ "The Sent-copy connection could not be opened: " m))
        w)
  copy_session folder row (answered session) w =
      let bytes = storage_get row.mime_storage_key w.durable in
      run_copy folder row bytes (copy_bytes env folder row session bytes) w

  reread : Option OutboundMessage → World → Outcome
  reread none w = (err not_found, w)
  reread (some current) w = (ok (current, false), w)

  after_copy_claim : String → Folder → World × Option OutboundMessage → Outcome
  unfolding reread copy_session
  after_copy_claim id folder (w, none) = reread (find_outbound id w) w
  after_copy_claim id folder (w, some row) =
      copy_session folder row (open_sent_copy row.account_id) w

  abbrev unmapped_already : Option LastError → Bool
  unmapped_already none = false
  unmapped_already (some e) = str_eq e.code "sent_folder_unmapped"

  -- The unmapped folder was recorded before, or the outcome of an attempt is open.
  abbrev is_quiet : OutboundMessage → Bool
  is_quiet before =
      is_copy_status SentCopyStatus.unknown before.sent_copy_status
      || (is_copy_status SentCopyStatus.failed before.sent_copy_status
          && unmapped_already before.last_error)

  -- No folder maps the Sent role: one failure is recorded, and later passes stay quiet.
  without_folder : OutboundMessage → World → Outcome
  without_folder before w =
      if is_quiet before
      then (ok (before, false), w)
      else attempted (
          conclude_sent_copy before unclaimed
            (failed_because "sent_folder_unmapped"
              "The account has no folder mapped to the Sent role; map one in settings to store the sent copy.")
            w)

  with_folder : String → OutboundMessage → Option Folder → World → Outcome
  unfolding without_folder after_copy_claim
  with_folder id before none w = without_folder before w
  with_folder id before (some folder) w = after_copy_claim id folder (claim_copy env.now id w)

  append_found : String → Option OutboundMessage → World → Outcome
  unfolding with_folder
  append_found id none w = (err not_found, w)
  append_found id (some before) w =
      if is_status OutboundStatus.sent before.status
        && not (is_copy_status SentCopyStatus.stored before.sent_copy_status)
        && owns w.control before
      then with_folder id before (find_sent_folder before.account_id w.folders) w
      else (ok (before, false), w)

unfoldable pub execute_sent_copy_append :
    Env → Option (String → Answer Session) → String → World → Outcome
unfolding append_found
execute_sent_copy_append env none id w =
    if valid_uuid id then (err sent_copy_unavailable, w) else (err invalid_request, w)
execute_sent_copy_append env (some open_sent_copy) id w =
    if valid_uuid id
    then append_found env open_sent_copy id (find_outbound id w) w
    else (err invalid_request, w)
