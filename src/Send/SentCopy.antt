-- ===== src/Send/SentCopy.antt =====
-- The Sent-copy job of service.ts: `locateVerifiedCopy`, `concludeSentCopy` and
-- `executeSentCopyAppend`, over the port of packages/send/src/sent-copy.ts.
--
-- A session is what the mailbox answers: a view before the append, the append, and a view after it.
-- Closing the session has no effect on the state and is left out.
pub mod Verified
pub mod Cases
use Prim.Native.String
use personal_mail_hub.Base.{
  ℕ, suc, ◌+◌, Bool, true, false, not, ◌&&◌, ◌||◌, Option, none, some, List, [], ◌∷◌, ◌++◌, String,
  str_eq, leb, if◌then◌else◌,
}
use personal_mail_hub.Database.{OutboundStatus, SentCopyStatus, is_status, is_copy_status}
use personal_mail_hub.Send.{Bytes, Folder, LastError, SentCopyDestination, OutboundMessage}
use personal_mail_hub.Send.World.{
  World, SendEvent, sent_copy_stored, sent_copy_failed, sent_copy_unknown, sent_copy_halted,
  Failure, invalid_request, not_found, sent_copy_unavailable, Result, ok, err, Answer, answered,
  threw, record_event, valid_uuid, find_outbound, update_outbound, storage_get, find_sent_folder,
  owns,
}
use personal_mail_hub.Send.Commit.{Env}

pub data SentCopyWriteResult : Type 0 where
  appended : Option ℕ → Option ℕ → SentCopyWriteResult
  rejected : SentCopyWriteResult
  uncertain : String → SentCopyWriteResult

pub record Mailbox : Type 0 where
  -- the generation that selecting the folder reports
  pub select : String → Answer ℕ
  pub search_by_message_id : String → Answer (List ℕ)
  pub fetch_original : ℕ → Answer (Option Bytes)

pub record Session : Type 0 where
  pub before : Mailbox
  pub append_message : String → Bytes → Answer SentCopyWriteResult
  pub after : Mailbox

pub data Evidence : Type 0 where
  verified : SentCopyDestination → Evidence
  absent conflict : Evidence

abbrev pub sweep_attempt_cap : ℕ
sweep_attempt_cap = 20

-- The candidates in order; `seen` says that one with other bytes was passed over.
unfoldable pub check_candidates :
    (Bytes → String)
    → String
    → (ℕ → SentCopyDestination)
    → (ℕ → Answer (Option Bytes))
    → Bool
    → List ℕ
    → Answer Evidence
check_candidates sha hash at fetch seen [] = answered (if seen then conflict else absent)
check_candidates sha hash at fetch seen (uid ∷ uids) = elim (fetch uid) [
  | threw m ↦ threw m
  | answered found ↦ elim found [
    | none ↦ check_candidates sha hash at fetch seen uids
    | some bytes ↦ elim (str_eq (sha bytes) hash) [
      | true ↦ answered (verified (at uid))
      | false ↦ check_candidates sha hash at fetch true uids
    ]
  ]
]

abbrev pub destination_at : Folder → ℕ → ℕ → SentCopyDestination
destination_at folder uid_validity uid = record {
  folder_id = folder.id;
  uidvalidity = some uid_validity;
  uid = some uid;
}

locate_found :
    (Bytes → String) → Mailbox → Folder → OutboundMessage → ℕ → Answer (List ℕ) → Answer Evidence
locate_found sha mailbox folder row uid_validity (threw m) = threw m
locate_found sha mailbox folder row uid_validity (answered uids) =
    check_candidates sha row.mime_sha256 (destination_at folder uid_validity) mailbox.fetch_original
      false uids

locate_selected : (Bytes → String) → Mailbox → Folder → OutboundMessage → Answer ℕ → Answer Evidence
unfolding locate_found
locate_selected sha mailbox folder row (threw m) = threw m
locate_selected sha mailbox folder row (answered uid_validity) =
    locate_found sha mailbox folder row uid_validity
      (mailbox.search_by_message_id row.rfc_message_id)

unfoldable pub locate_verified_copy :
    (Bytes → String) → Mailbox → Folder → OutboundMessage → Answer Evidence
unfolding locate_selected
locate_verified_copy sha mailbox folder row =
    locate_selected sha mailbox folder row (mailbox.select folder.path)

-- How one attempt is concluded.
pub data Conclusion : Type 0 where
  stored : SentCopyDestination → Conclusion
  failed unknown : LastError → Conclusion

pub data Claim : Type 0 where
  claimed unclaimed : Claim

-- `inArray(sentCopyStatus, ["pending", "failed", "unknown"])`
abbrev pub is_open_copy : SentCopyStatus → Bool
is_open_copy SentCopyStatus.pending = true
is_open_copy SentCopyStatus.failed = true
is_open_copy SentCopyStatus.unknown = true
is_open_copy _ = false

abbrev holds : Claim → SentCopyStatus → Bool
holds claimed s = is_copy_status SentCopyStatus.appending s
holds unclaimed s = is_open_copy s

abbrev pub may_conclude : Claim → OutboundMessage → Bool
may_conclude claim r = is_status OutboundStatus.sent r.status && holds claim r.sent_copy_status

abbrev pub conclude_row : Conclusion → OutboundMessage → OutboundMessage
conclude_row (stored d) r = record r {
  sent_copy_status = SentCopyStatus.stored;
  sent_folder_id = some d.folder_id;
  sent_uidvalidity = d.uidvalidity;
  sent_uid = d.uid;
  last_error = none;
}
conclude_row (failed e) r = record r {
  sent_copy_status = SentCopyStatus.failed;
  last_error = some e;
  sent_copy_attempts = r.sent_copy_attempts + 1;
}
conclude_row (unknown e) r = record r {
  sent_copy_status = SentCopyStatus.unknown;
  last_error = some e;
  sent_copy_attempts = r.sent_copy_attempts + 1;
}

-- The halt event of an attempt that exhausted its tries.
abbrev halted : String → ℕ → String → List SendEvent
halted id attempts code =
    if leb sweep_attempt_cap attempts then sent_copy_halted id attempts code ∷ [] else []

abbrev pub conclusion_events : Conclusion → OutboundMessage → List SendEvent
conclusion_events (stored d) after = sent_copy_stored after.id d.uidvalidity d.uid ∷ []
conclusion_events (failed e) after =
    sent_copy_failed after.id e.code ∷ halted after.id after.sent_copy_attempts e.code
conclusion_events (unknown e) after =
    sent_copy_unknown after.id e.code ∷ halted after.id after.sent_copy_attempts e.code

concluded :
    OutboundMessage → Conclusion → World → World × Option OutboundMessage → OutboundMessage × World
concluded row outcome w (w', none) = (row, w)
concluded row outcome w (w', some after) =
    (after, record w' { events = w'.events ++ conclusion_events outcome after })

unfoldable pub conclude_sent_copy :
    OutboundMessage → Claim → Conclusion → World → OutboundMessage × World
unfolding concluded
conclude_sent_copy row claim outcome w =
    concluded row outcome w (update_outbound row.id (may_conclude claim) (conclude_row outcome) w)

abbrev pub unknown_because : String → String → Conclusion
unknown_because code message = unknown (record { code = code; message = message })

abbrev pub failed_because : String → String → Conclusion
failed_because code message = failed (record { code = code; message = message })

-- What the mailbox answered decides the conclusion; `true` beside it says that an append was made.
after_append_located : Folder → SentCopyWriteResult → Answer Evidence → Conclusion
after_append_located folder result (threw m) =
    unknown_because "session_error" (String.◌++◌ "The Sent-copy session failed: " m)
after_append_located folder result (answered (verified d)) = stored d
after_append_located folder result (answered conflict) =
    unknown_because "sent_copy_conflict"
      "The Sent folder holds a message with this identifier but different bytes; the append outcome stays unknown."
after_append_located folder (appended v u) (answered absent) =
    stored (record { folder_id = folder.id; uidvalidity = none; uid = none })
after_append_located folder (uncertain reason) (answered absent) =
    unknown_because "append_uncertain" (String.◌++◌ "The Sent append response was lost: " reason)
-- A refused append was concluded before the folder is searched again.
after_append_located folder rejected (answered absent) =
    failed_because "append_rejected"
      "The server refused the Sent append; the sent state is unchanged."

module _ (env : Env) (folder : Folder) (row : OutboundMessage) (session : Session) where
  after_append : Answer SentCopyWriteResult → Conclusion
  unfolding after_append_located
  after_append (threw m) =
      unknown_because "session_error" (String.◌++◌ "The Sent-copy session failed: " m)
  after_append (answered rejected) =
      failed_because "append_rejected"
        "The server refused the Sent append; the sent state is unchanged."
  after_append (answered (appended (some v) (some u))) =
      stored (record { folder_id = folder.id; uidvalidity = some v; uid = some u })
  after_append (answered (appended none u)) =
      after_append_located folder (appended none u)
        (locate_verified_copy env.sha256_hex session.after folder row)
  after_append (answered (appended (some v) none)) =
      after_append_located folder (appended (some v) none)
        (locate_verified_copy env.sha256_hex session.after folder row)
  after_append (answered (uncertain reason)) =
      after_append_located folder (uncertain reason)
        (locate_verified_copy env.sha256_hex session.after folder row)

  -- Reconcile first; only a proved absence authorizes an append.
  copy_by_evidence : Bytes → Answer Evidence → Conclusion × Bool
  unfolding after_append
  copy_by_evidence bytes (threw m) =
      (unknown_because "session_error" (String.◌++◌ "The Sent-copy session failed: " m), false)
  copy_by_evidence bytes (answered (verified d)) = (stored d, false)
  copy_by_evidence bytes (answered conflict) = (
    unknown_because "sent_copy_conflict"
        "The Sent folder holds a message with this identifier but different bytes; the copy was not verified and nothing was appended.",
    false,
  )
  copy_by_evidence bytes (answered absent) =
      (after_append (session.append_message folder.path bytes), true)

  unfoldable pub copy_bytes : Option Bytes → Conclusion × Bool
  unfolding copy_by_evidence
  copy_bytes none = (
    unknown_because "mime_missing" "The stored MIME bytes could not be read; nothing was appended.",
    false,
  )
  copy_bytes (some bytes) =
      if str_eq (env.sha256_hex bytes) row.mime_sha256
      then copy_by_evidence bytes (locate_verified_copy env.sha256_hex session.before folder row)
      else (
        unknown_because "mime_mismatch"
            "The stored MIME bytes no longer match their recorded hash; nothing was appended.",
        false,
      )
