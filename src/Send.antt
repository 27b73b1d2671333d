-- ===== src/Send.antt =====
-- packages/send/src/service.ts with the rows of packages/database/src/schema.ts that it reads and
-- writes: the outbound snapshots, their drafts and uploads, the local messages and the audit trail.
--
-- Identifiers, addresses and texts that are only compared are native strings; instants and
-- counters are numbers (instants in milliseconds). Error messages for people are left out, the
-- codes are kept.
pub mod World
pub mod Lock
pub mod Status
pub mod Results
pub mod Commit
pub mod Outbound
pub mod SentCopy
pub mod Append
pub mod Reconcile
pub mod Recovery
pub mod Sweep
pub mod Interleaving
pub mod Queue
mod Tests
use personal_mail_hub.Base.{ℕ, Bool, Option, List, Text, String}
use personal_mail_hub.Database.{OutboundStatus, SentCopyStatus, FolderRole}

abbrev pub Bytes : Type 0
Bytes = List ℕ

pub record EmailAddress : Type 0 where
  pub address : String
  pub name : Option String

pub record Recipients : Type 0 where
  pub to : List EmailAddress
  pub cc : Option (List EmailAddress)
  pub bcc : Option (List EmailAddress)

pub record RecipientResult : Type 0 where
  pub address : String
  pub accepted : Bool
  pub response : Option String

pub record SmtpResponse : Type 0 where
  pub response : Option String
  pub response_code : Option ℕ

pub record LastError : Type 0 where
  pub code : String
  pub message : String

pub record SentCopyDestination : Type 0 where
  pub folder_id : String
  pub uidvalidity : Option ℕ
  pub uid : Option ℕ

-- The columns of `outbound_messages` that are written once, when the snapshot is frozen.
pub record Snapshot : Type 0 where
  pub id : String
  pub account_id : String
  pub recovery_generation : Text
  pub idempotency_key : String
  pub request_hash : String
  pub draft_id : Option String
  pub draft_revision : ℕ
  pub identity : EmailAddress
  pub envelope_sender : String
  pub envelope_recipients : List String
  pub thread_id : Option String
  pub reply_parent_id : Option String
  pub in_reply_to : Option String
  pub reference_ids : List String
  pub recipients : Recipients
  pub subject : Option String
  pub markdown_source : String
  pub html : Option String
  pub rfc_message_id : String
  pub mime_storage_key : String
  pub mime_sha256 : String
  pub created_at : ℕ

-- One row of `outbound_messages`.
pub record OutboundMessage : Type 0 where
  pub snapshot : Snapshot
  pub open snapshot use *
  pub status : OutboundStatus
  pub sent_copy_status : SentCopyStatus
  pub logical_message_id : Option String
  pub smtp_response : Option SmtpResponse
  pub recipient_results : List RecipientResult
  pub sending_started_at : Option ℕ
  pub append_started_at : Option ℕ
  pub sent_copy_attempts : ℕ
  pub reconcile_attempts : ℕ
  pub sent_folder_id : Option String
  pub sent_uidvalidity : Option ℕ
  pub sent_uid : Option ℕ
  pub last_error : Option LastError
  pub sent_at : Option ℕ

pub record Draft : Type 0 where
  pub id : String
  pub account_id : String
  pub revision : ℕ
  pub locked_by_send : Option String
  pub deleted_at : Option ℕ
  pub identity : EmailAddress
  pub recipients : Recipients
  pub subject : Option String
  pub markdown : String
  pub thread_id : Option String
  pub reply_parent_id : Option String
  pub in_reply_to : Option String
  pub reference_ids : List String

pub record Upload : Type 0 where
  pub id : String
  pub account_id : String
  pub filename : String
  pub content_type : String
  pub size_bytes : ℕ
  pub storage_key : String
  pub sha256 : String

-- The position of an upload inside a draft, or inside an outbound snapshot.
pub record UploadLink : Type 0 where
  pub owner_id : String
  pub upload_id : String
  pub ordinal : ℕ

pub record Folder : Type 0 where
  pub id : String
  pub account_id : String
  pub path : String
  pub role : Option FolderRole

-- What one attachment part of a parsed message carries over into a row of `attachments`.
pub record ParsedAttachment : Type 0 where
  pub part_path : String
  pub decoded_sha256 : String
  pub content_id : Option String
  pub disposition : Option String
  pub filename : Option String
  pub content_type : String
  pub size_bytes : ℕ

pub record ParsedMime : Type 0 where
  pub message_id : Option String
  pub sent_at : Option ℕ
  pub attachments : List ParsedAttachment

-- The index texts of a local message (packages/ingestion/src/text.ts).
pub record IndexTexts : Type 0 where
  pub snippet : String
  pub sender_text : String
  pub recipients_text : String
  pub addresses_text : String
  pub subject_text : String
  pub body_index_text : String

-- One row of `messages` with its row of `bodies` and its rows of `attachments`. Fields that the
-- send service always leaves empty (the parent, `replyTo`) are not kept.
pub record LocalMessage : Type 0 where
  pub id : String
  pub account_id : String
  pub message_id : String
  pub in_reply_to : Option String
  pub reference_ids : List String
  pub thread_id : Option String
  pub thread_dirty : Bool
  pub sender : EmailAddress
  pub recipients : Recipients
  pub subject : Option String
  pub sent_at : ℕ
  pub has_attachments : Bool
  pub size_bytes : ℕ
  pub fetched_body : Bool
  pub original_storage_key : String
  pub original_sha256 : String
  pub texts : IndexTexts
  pub text_plain : String
  pub html_sanitized : Option String
  pub attachments : List ParsedAttachment

pub data SmtpSecurityMode : Type 0 where
  starttls_required implicit_tls : SmtpSecurityMode

pub record SmtpCredentials : Type 0 where
  pub host : String
  pub port : ℕ
  pub security : SmtpSecurityMode
  pub username : String
  pub password : String

pub record SmtpSubmitRequest : Type 0 where
  pub credentials : SmtpCredentials
  -- the envelope: the sender and every recipient, blind copies included
  pub from : String
  pub to : List String
  pub raw : Bytes

pub data SmtpSubmitState : Type 0 where
  accepted rejected unknown : SmtpSubmitState

pub record SmtpRecipientOutcome : Type 0 where
  pub address : String
  pub accepted : Bool
  pub response : Option String

pub record SmtpSubmitReport : Type 0 where
  pub state : SmtpSubmitState
  pub response : Option String
  pub response_code : Option ℕ
  pub recipients : List SmtpRecipientOutcome
  pub error : Option LastError
