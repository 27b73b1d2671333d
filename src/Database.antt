-- ===== src/Database.antt =====
-- packages/database/src/schema.ts: the closed sets of states that the tables store, and the
-- equality tests of the queries on them.
use personal_mail_hub.Base.{Bool, true, false}

pub data RecoveryMode : Type 0 where
  ready reconciling : RecoveryMode

pub data OutboundStatus : Type 0 where
  queued sending sent failed outcome_unknown : OutboundStatus

pub data SentCopyStatus : Type 0 where
  pending appending stored failed unknown : SentCopyStatus

pub data ActionStatus : Type 0 where
  queued executing complete : ActionStatus

pub data ActionItemStatus : Type 0 where
  queued executing confirmed conflicted failed unknown : ActionItemStatus

abbrev pub is_status : OutboundStatus → OutboundStatus → Bool
is_status OutboundStatus.queued OutboundStatus.queued = true
is_status OutboundStatus.sending OutboundStatus.sending = true
is_status OutboundStatus.sent OutboundStatus.sent = true
is_status OutboundStatus.failed OutboundStatus.failed = true
is_status OutboundStatus.outcome_unknown OutboundStatus.outcome_unknown = true
is_status _ _ = false

abbrev pub is_copy_status : SentCopyStatus → SentCopyStatus → Bool
is_copy_status SentCopyStatus.pending SentCopyStatus.pending = true
is_copy_status SentCopyStatus.appending SentCopyStatus.appending = true
is_copy_status SentCopyStatus.stored SentCopyStatus.stored = true
is_copy_status SentCopyStatus.failed SentCopyStatus.failed = true
is_copy_status SentCopyStatus.unknown SentCopyStatus.unknown = true
is_copy_status _ _ = false

pub data FolderRole : Type 0 where
  inbox sent drafts archive trash junk : FolderRole

abbrev pub is_sent_role : FolderRole → Bool
is_sent_role FolderRole.sent = true
is_sent_role _ = false
