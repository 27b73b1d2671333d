-- ===== src/Actions.antt =====
-- packages/actions/src/kinds.ts, mailbox.ts and executor.ts, and the rows of the tables that the
-- action service reads and writes (packages/database/src/schema.ts).
--
-- Identifiers and generations are texts of code points; their lower case is that of the ASCII
-- letters, since each is tested against the UUID pattern first.
pub mod Kinds
pub mod State
pub mod Disposition
pub mod Check
pub mod Execute
pub mod Submit
pub mod Restore
pub mod Rows
pub mod Sound
pub mod Writes
pub mod Claim
pub mod Items
pub mod Run
pub mod Hold
pub mod Drive
pub mod Restored
pub mod Runs
pub mod Fresh
pub mod TwoWay
mod Tests
use personal_mail_hub.Base.{ℕ, Bool, true, false, Option, none, some, List, [], Text, String}
use personal_mail_hub.Database.{ActionStatus, ActionItemStatus}

pub data ActionKind : Type 0 where
  mark_read mark_unread star unstar archive move : ActionKind

pub data Flag : Type 0 where
  unread flagged : Flag

pub record FlagDesire : Type 0 where
  pub flag : Flag
  pub value : Bool

-- The immutable scope of an action row.
pub record ActionScope : Type 0 where
  pub kind : ActionKind
  pub account_id : Text
  pub occurrence_ids : List Text
  pub destination_folder_id : Option Text

-- The flags of one UID. The sequence is left out, null or a value.
pub record ActionMailboxFlags : Type 0 where
  pub uid : ℕ
  pub unread : Bool
  pub flagged : Bool
  pub modseq : Option (Option String)

pub record MoveDestination : Type 0 where
  pub folder : String
  pub uidvalidity : Option ℕ
  pub uid : Option ℕ

pub record ActionItemTarget : Type 0 where
  pub occurrence_id : Text
  pub account_id : Text
  pub folder_id : Text
  pub uidvalidity : ℕ
  pub uid : ℕ
  pub revision : ℕ
  pub observed_unread : Bool
  pub observed_flagged : Bool
  pub modseq : Option String

pub data DesiredActionState : Type 0 where
  flags : FlagDesire → DesiredActionState
  -- the destination's identifier and its name
  relocate : Text → String → DesiredActionState

pub record PreparedActionItem : Type 0 where
  pub action_id : Text
  pub item_key : Text
  pub kind : ActionKind
  pub account_id : Text
  pub folder_id : Text
  pub folder_name : String
  pub folder_uidvalidity : ℕ
  pub target : ActionItemTarget
  pub remote : ActionMailboxFlags
  pub desired : DesiredActionState

pub data ExecutorOutcome : Type 0 where
  confirmed : ActionMailboxFlags → Option MoveDestination → ExecutorOutcome
  conflicted : String → ActionMailboxFlags → ExecutorOutcome
  unknown : String → Option ActionMailboxFlags → ExecutorOutcome
  -- the code and the message
  failed : String → String → ExecutorOutcome

-- What a conflict adds to its reason.
pub data Detail : Type 0 where
  plain : Detail
  -- the generation that the mailbox showed, where that is the reason, the folder and the UID
  in_folder : Option ℕ → Text → ℕ → Detail
  -- the generations of the occurrence and of the folder
  generations : ℕ → ℕ → Detail
  current_revision : ℕ → Detail
  current_modseq : Option String → Detail

-- The shapes of `outcome` in a receipt.
pub data ItemOutcome : Type 0 where
  -- a reason alone: a hold, or a conflict with its details
  held : String → ItemOutcome
  conflict : String → Detail → ItemOutcome
  noop : ActionMailboxFlags → ItemOutcome
  observed : ActionMailboxFlags → Option MoveDestination → ItemOutcome
  refuted : String → ActionMailboxFlags → ItemOutcome
  lost : String → Option ActionMailboxFlags → ItemOutcome
  failure : String → String → ItemOutcome

-- `outcome ->> 'reason'`
abbrev pub reason_of : ItemOutcome → Option String
reason_of (held reason) = some reason
reason_of (conflict reason detail) = some reason
reason_of (noop f) = none
reason_of (observed f to) = none
reason_of (refuted reason f) = some reason
reason_of (lost reason f) = some reason
reason_of (failure code message) = none

pub record Action : Type 0 where
  pub id : Text
  pub account_id : Text
  pub recovery_generation : Text
  pub idempotency_key : String
  pub request_hash : String
  pub kind : ActionKind
  pub request : ActionScope
  pub status : ActionStatus
  pub created_at : ℕ

pub record Item : Type 0 where
  pub action_id : Text
  pub item_key : Text
  pub target : ActionItemTarget
  pub status : ActionItemStatus
  pub outcome : Option ItemOutcome

pub record Occurrence : Type 0 where
  pub id : Text
  pub account_id : Text
  pub folder_id : Text
  pub uidvalidity : ℕ
  pub uid : ℕ
  pub unread : Bool
  pub flagged : Bool
  pub modseq : Option String
  pub revision : ℕ
  pub expunged : Bool
  pub invalidated : Bool

pub record ActionFolder : Type 0 where
  pub id : Text
  pub account_id : Text
  pub name : String
  pub uidvalidity : Option ℕ
