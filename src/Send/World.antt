-- ===== src/Send/World.antt =====
-- The state that the send service works on: the tables, the durable storage and what went out over
-- the network, with the statements of its queries.
use personal_mail_hub.Base.{
  ℕ, Bool, true, false, ◌&&◌, ◌≡◌, refl, Option, none, some, List, [], ◌∷◌, ◌++◌, codes, String,
  str_eq, if◌then◌else◌, find, update_rows, changed, returning, find-update_rows_self,
  find-update_rows_other,
}
use personal_mail_hub.Database.{is_sent_role}
use personal_mail_hub.Recovery.{ControlStatus, assess_job, is_uuid, JobAssessment}
use personal_mail_hub.Send.{
  Bytes, OutboundMessage, Draft, Upload, UploadLink, Folder, LocalMessage, SmtpSubmitRequest,
}
pub use personal_mail_hub.Base.{Answer, answered, threw}

pub data SendEvent : Type 0 where
  -- the outbound message, then the payload
  send_queued : String → String → ℕ → ℕ → ℕ → SendEvent
  send_sent : String → String → ℕ → ℕ → Bool → Option String → SendEvent
  send_failed send_unknown : String → String → SendEvent
  sent_copy_stored : String → Option ℕ → Option ℕ → SendEvent
  sent_copy_failed sent_copy_unknown : String → String → SendEvent
  sent_copy_halted : String → ℕ → String → SendEvent
  reconcile_halted : String → ℕ → SendEvent
  -- the draft, then the outbound message
  draft_locked draft_unlocked : String → String → SendEvent

pub record World : Type 0 where
  pub control : ControlStatus
  pub outbound : List OutboundMessage
  pub drafts : List Draft
  pub uploads : List Upload
  pub draft_uploads : List UploadLink
  pub outbound_uploads : List UploadLink
  pub folders : List Folder
  pub messages : List LocalMessage
  -- the accounts and message identifiers of the thread jobs marked dirty
  pub thread_jobs : List (String × String)
  pub events : List SendEvent
  pub durable : List (String × Bytes)
  -- every request handed to an SMTP server, oldest first
  pub submitted : List SmtpSubmitRequest
  -- every append to a Sent folder, oldest first
  pub appended : List (String × Bytes)

pub data Failure : Type 0 where
  invalid_request not_found send_unavailable sent_copy_unavailable : Failure
  -- an error of the compose package, of the database, or of a callee
  compose_invalid_request unique_violation : Failure
  -- with the revision that the server holds
  draft_stale : ℕ → Failure
  draft_is_locked recipients_required upload_unverified idempotency_conflict : Failure
  -- the mutation gate
  recovery_blocked : Failure
  -- thrown inside a transaction to roll it back
  acceptance_superseded : Failure
  thrown : String → Failure

pub data Result {ℓ} (A : Type ℓ) : Type ℓ where
  ok : A → Result A
  err : Failure → Result A

-- A transaction keeps its writes only if its body returns.
abbrev pub settle : {A : Type 0} → World → Result A × World → Result A × World
settle w (ok a, w') = (ok a, w')
settle w (err e, w') = (err e, w)

abbrev pub IsErr : {A : Type 0} → Result A × World → Type 0
IsErr (ok a, w) = ⊥
IsErr (err e, w) = Unit

-- What a failing body wrote is rolled back.
pub settle-IsErr :
    {A : Type 0} (w : World) (r : Result A × World)
    → IsErr r
    → (e : Failure) × (settle w r ≡ (err e, w))
settle-IsErr w (ok a, w') h = absurd h
settle-IsErr w (err e, w') h = (e, refl)

abbrev pub transaction : {A : Type 0} → (World → Result A × World) → World → Result A × World
transaction body w = settle w (body w)

abbrev pub record_event : SendEvent → World → World
record_event e w = record w { events = w.events ++ e ∷ [] }

abbrev pub valid_uuid : String → Bool
valid_uuid s = is_uuid (codes s)

abbrev pub outbound_key : OutboundMessage → String
outbound_key row = row.id

-- `select … from outbound_messages where id = … limit 1`
abbrev pub find_outbound : String → World → Option OutboundMessage
find_outbound id w = find outbound_key id w.outbound

-- `update outbound_messages set … where id = … and guard returning …`
abbrev pub update_outbound :
    String
    → (OutboundMessage → Bool)
    → (OutboundMessage → OutboundMessage)
    → World
    → World × Option OutboundMessage
update_outbound id guard change w = (
  record w { outbound = update_rows outbound_key guard change id w.outbound },
  returning guard change (find_outbound id w),
)

unfoldable pub storage_get : String → List (String × Bytes) → Option Bytes
storage_get key [] = none
storage_get key ((k, bytes) ∷ rest) = if str_eq k key then some bytes else storage_get key rest

abbrev is_sent_folder : Folder → Bool
is_sent_folder f = elim f.role [ none ↦ false | some r ↦ is_sent_role r ]

-- `findSentFolder`
unfoldable pub find_sent_folder : String → List Folder → Option Folder
find_sent_folder account [] = none
find_sent_folder account (f ∷ fs) =
    if str_eq f.account_id account && is_sent_folder f then some f else find_sent_folder account fs

-- The check in front of every job: `status.state === "ready"` and the job is not stale.
abbrev pub is_executable : JobAssessment → Bool
is_executable JobAssessment.execute = true
is_executable _ = false

unfoldable pub owns : ControlStatus → OutboundMessage → Bool
unfolding assess_job
owns status row = is_executable (assess_job status row.recovery_generation)

module _ (guard : OutboundMessage → Bool) (change : OutboundMessage → OutboundMessage)
    (keeps : (r : OutboundMessage) → (change r).id ≡ r.id) where
  -- The row after an update, under its own identifier and under any other.
  pub find_outbound-update_self :
      (id : String) (rows : List OutboundMessage)
      → find outbound_key id (update_rows outbound_key guard change id rows)
        ≡ changed guard change (find outbound_key id rows)
  find_outbound-update_self id rows = find-update_rows_self outbound_key guard change keeps id rows

  pub find_outbound-update_other :
      (id j : String) (rows : List OutboundMessage)
      → str_eq id j ≡ false
      → find outbound_key j (update_rows outbound_key guard change id rows)
        ≡ find outbound_key j rows
  find_outbound-update_other id j rows =
      find-update_rows_other outbound_key guard change keeps id j rows
