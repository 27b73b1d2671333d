-- ===== src/Send/Interleaving.antt =====
-- The jobs of service.ts under interleaving and crashes: several workers run `executeOutbound` at
-- once, each statement or transaction of it is one step, and a process may stop between two.
pub mod Once
pub mod Runs
use personal_mail_hub.Base.{
  ℕ, Text, ◌+◌, Bool, true, ◌≡◌, Option, none, some, List, [], ◌∷◌, ◌++◌, map, String, str_eq,
  if◌then◌else◌,
}
use personal_mail_hub.Send.{
  Bytes, OutboundMessage, SmtpCredentials, SmtpSubmitRequest, SmtpSubmitReport,
}
use personal_mail_hub.Send.World.{World, Answer, find_outbound, storage_get}
use personal_mail_hub.Send.Commit.{Env, FailureOutcome, record_failure}
use personal_mail_hub.Send.SentCopy.{Session}
use personal_mail_hub.Send.Outbound.{claim_outbound, request_of, record_report}
use personal_mail_hub.Send.Append.{execute_sent_copy_append}
use personal_mail_hub.Send.Reconcile.{reconcile_unknown_outcome}
use personal_mail_hub.Send.Queue.{QueueSendInput, QueueEnv, Frozen}
use personal_mail_hub.Send.Queue.Commit.{commit_snapshot}
use personal_mail_hub.Send.Recovery.{recover_abandoned_attempts}

-- The world, the rows whose claimers have not submitted yet, the submissions that no transaction
-- has recorded yet, and the requests handed to SMTP with the rows that they are for.
pub record System : Type 0 where
  pub world : World
  pub claimed : List OutboundMessage
  pub unrecorded : List (OutboundMessage × Bytes)
  pub log : List (String × SmtpSubmitRequest)

abbrev pub handed_over : World → SmtpSubmitRequest → World
handed_over w request = record w { submitted = w.submitted ++ request ∷ [] }

pub data Step (env : Env) (s s' : System) : Type 0 where
  -- the transaction of a request that queues a send
  queue :
      (callees : QueueEnv) (input : QueueSendInput) (generation : Text) (frozen : Frozen)
      → s' ≡ record s { world = (commit_snapshot callees input generation frozen s.world).1 }
      → Step env s s'
  -- the guarded update of a worker returns its row
  claim :
      (id : String) (row : OutboundMessage)
      → (claim_outbound env.now id s.world).1 ≡ some row
      → s' ≡ record s { world = (claim_outbound env.now id s.world).0; claimed = row ∷ s.claimed }
      → Step env s s'
  -- a claimer hands the stored bytes to SMTP
  submit :
      (before after : List OutboundMessage) (row : OutboundMessage) (bytes : Bytes)
      (credentials : SmtpCredentials)
      → s.claimed ≡ before ++ row ∷ after
      → storage_get row.mime_storage_key s.world.durable ≡ some bytes
      → str_eq (env.sha256_hex bytes) row.mime_sha256 ≡ true
      → s' ≡ record {
        world = handed_over s.world (request_of row credentials bytes);
        claimed = before ++ after;
        unrecorded = (row, bytes) ∷ s.unrecorded;
        log = s.log ++ (row.id, request_of row credentials bytes) ∷ [];
      }
      → Step env s s'
  -- a claimer fails before SMTP opens
  fail :
      (before after : List OutboundMessage) (row : OutboundMessage) (outcome : FailureOutcome)
      → s.claimed ≡ before ++ row ∷ after
      → s' ≡ record s { world = (record_failure row outcome s.world).1; claimed = before ++ after }
      → Step env s s'
  -- the transaction that records what the server reported
  report :
      (before after : List (OutboundMessage × Bytes)) (row : OutboundMessage) (bytes : Bytes)
      (answer : SmtpSubmitReport)
      → s.unrecorded ≡ before ++ (row, bytes) ∷ after
      → s' ≡ record s {
        world = (record_report env row bytes answer s.world).1;
        unrecorded = before ++ after;
      }
      → Step env s s'
  -- a process stops with a claim, or with a submission that it did not record
  lose_claim :
      (before after : List OutboundMessage) (row : OutboundMessage)
      → s.claimed ≡ before ++ row ∷ after
      → s' ≡ record s { claimed = before ++ after }
      → Step env s s'
  lose_report :
      (before after : List (OutboundMessage × Bytes)) (entry : OutboundMessage × Bytes)
      → s.unrecorded ≡ before ++ entry ∷ after
      → s' ≡ record s { unrecorded = before ++ after }
      → Step env s s'
  -- the other jobs
  recover :
      (now : ℕ)
      → s' ≡ record s { world = (recover_abandoned_attempts now s.world).0 }
      → Step env s s'
  reconcile :
      (open_sent_copy : Option (String → Answer Session)) (id : String)
      → s' ≡ record s { world = (reconcile_unknown_outcome env open_sent_copy id s.world).1 }
      → Step env s s'
  append :
      (open_sent_copy : Option (String → Answer Session)) (id : String)
      → s' ≡ record s { world = (execute_sent_copy_append env open_sent_copy id s.world).1 }
      → Step env s s'

pub data Steps (s : System) : System → Type 0 where
  done : Steps s s
  more : {t u : System} (env : Env) → Steps s t → Step env t u → Steps s u

-- A system without workers, before anything was submitted.
abbrev pub IsInitial : System → Type 0
IsInitial s = (s.claimed ≡ []) × (s.unrecorded ≡ []) × (s.log ≡ []) × (s.world.submitted ≡ [])

-- How often an identifier stands in a list, by the identifiers of its entries.
module _ {A : Type 0} (key : A → String) (id : String) where
  abbrev pub hit : A → ℕ
  hit x = if str_eq (key x) id then 1 else 0

  abbrev pub tally : List A → ℕ
  tally [] = 0
  tally (x ∷ xs) = hit x + tally xs

abbrev pub log_key : String × SmtpSubmitRequest → String
log_key e = e.0

-- How often a row was handed to SMTP.
abbrev pub submissions : String → System → ℕ
submissions id s = tally log_key id s.log
