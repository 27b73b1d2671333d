-- ===== src/Sync.antt =====
-- packages/sync/src/mailbox.ts and the rows of packages/database/src/schema.ts that the backfill of a
-- folder reads and writes. Columns that nothing here reads are left out.
pub mod Store
pub mod Backfill
mod Tests
use personal_mail_hub.Base.{ℕ, Bool, Option, List, Answer, String}

pub record SyncFolder : Type 0 where
  pub id : String
  pub account_id : String
  pub name : String
  pub uidvalidity : Option ℕ
  pub arrival_scanned_uid : ℕ
  pub backfill_upper_uid : Option ℕ
  pub backfill_before_uid : Option ℕ
  pub backfill_complete : Bool

pub record MailboxState : Type 0 where
  pub uid_validity : ℕ
  pub uid_next : ℕ

pub record MailboxHeaders : Type 0 where
  pub uid : ℕ
  pub raw_headers : String
  pub internal_date : ℕ
  pub size_bytes : ℕ
  pub unread : Bool
  pub flagged : Bool

-- What the header parser answers.
pub record ParsedHeaders : Type 0 where
  pub message_id : Option String
  pub in_reply_to : Option String
  pub reference_ids : List String
  pub sent_at : Option ℕ

pub record HeaderMessage : Type 0 where
  pub account_id : String
  pub header : ParsedHeaders
  pub sent_at : ℕ
  pub size_bytes : ℕ

-- An occurrence, with its message by its place in the table.
pub record FolderOccurrence : Type 0 where
  pub account_id : String
  pub message : ℕ
  pub folder_id : String
  pub uidvalidity : ℕ
  pub uid : ℕ
  pub internal_date : ℕ
  pub unread : Bool
  pub flagged : Bool

pub data SyncEvent : Type 0 where
  -- the folder, and the payload
  backfill_initialized : String → ℕ → ℕ → SyncEvent
  folder_generation_changed : String → ℕ → ℕ → SyncEvent
  backfill_closed : String → Option ℕ → SyncEvent
  -- whether the folder is complete, the range, what was found, imported and skipped, the boundary
  backfill_batch : String → Bool → ℕ → ℕ → ℕ → ℕ → ℕ → ℕ → Option ℕ → SyncEvent
  -- the message, the folder, the UID and the size
  body_skipped : ℕ → String → ℕ → ℕ → SyncEvent

-- The mailbox session, over the state `S` of the server.
pub record MailboxSession (S : Type 0) : Type 0 where
  pub select_mailbox : String → S → Answer MailboxState × S
  pub revalidate_mailbox : S → Answer MailboxState × S
  pub search_uids : ℕ → ℕ → S → Answer (List ℕ) × S
  pub fetch_headers : List ℕ → S → Answer (List MailboxHeaders) × S

pub record SyncWorld (S : Type 0) : Type 0 where
  pub server : S
  pub sync_folders : List SyncFolder
  pub header_messages : List HeaderMessage
  pub folder_occurrences : List FolderOccurrence
  -- the identifiers of the thread jobs marked dirty
  pub dirty_identifiers : List String
  pub sync_events : List SyncEvent
