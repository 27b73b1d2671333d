-- ===== src/Actions/TwoWay.antt =====
-- packages/actions/src/two-way-executor.ts: the executor of flag assignments and moves.
--
-- The mailbox session (packages/actions/src/mailbox.ts, WritableActionMailbox) is a parameter: its
-- calls act on a state `S`. A message that an exception carries is the text of `threw`.
pub mod Laws
use Prim.Native.String.{◌++◌ as str_append}
use personal_mail_hub.Base.{
  ℕ, Bool, true, false, not, ◌&&◌, Option, none, some, List, [], ◌∷◌, Answer, answered, threw,
  String, if◌then◌else◌,
}
use personal_mail_hub.Actions.{
  Flag, FlagDesire, ActionMailboxFlags, MoveDestination, flags, relocate, PreparedActionItem,
  ExecutorOutcome,
}
use personal_mail_hub.Actions.Disposition.{bool_eq}
use personal_mail_hub.Actions.Check.{flag_value}

pub record ActionMailboxCapabilities : Type 0 where
  pub condstore : Bool
  pub move : Bool

pub record FlagWriteRequest : Type 0 where
  pub uid : ℕ
  pub flag : Flag
  pub value : Bool
  pub unchanged_since : Option String

pub record MoveWriteRequest : Type 0 where
  pub uid : ℕ
  pub destination_folder : String

pub data FlagWriteResult : Type 0 where
  accepted rejected : FlagWriteResult
  uncertain : String → FlagWriteResult

pub data MoveWriteResult : Type 0 where
  moved : MoveDestination → MoveWriteResult
  refused : MoveWriteResult
  uncertain : String → MoveWriteResult

pub record WritableActionMailbox (S : Type 0) : Type 0 where
  pub capabilities : S → Answer ActionMailboxCapabilities × S
  pub fetch_flags : List ℕ → S → Answer (List ActionMailboxFlags) × S
  pub write_flag : FlagWriteRequest → S → Answer FlagWriteResult × S
  pub move_message : MoveWriteRequest → S → Answer MoveWriteResult × S

abbrev pub is_captured : Option String → Bool
is_captured none = false
is_captured (some modseq) = true

-- A conditional write wants a capable session and a captured sequence.
unfoldable pub is_conditional : Bool → PreparedActionItem → Bool
is_conditional condstore item = condstore && is_captured item.target.modseq

unfoldable pub flag_request : Bool → FlagDesire → PreparedActionItem → FlagWriteRequest
unfolding is_conditional
flag_request condstore desire item = record {
  uid = item.target.uid;
  flag = desire.flag;
  value = desire.value;
  unchanged_since = if is_conditional condstore item then item.target.modseq else none;
}

-- The outcome of a write that was answered, by what was read back. An uncertain write is not read
-- back; a miss that is left after the plain writes is that of a conditional one.
unfoldable pub read_outcome :
    Bool → FlagDesire → FlagWriteResult → ActionMailboxFlags → ExecutorOutcome
read_outcome conditional desire (uncertain reason) readback = ExecutorOutcome.unknown reason none
read_outcome conditional desire rejected readback =
    if bool_eq (flag_value desire.flag readback) desire.value
    then ExecutorOutcome.confirmed readback none
    else if not conditional
    then ExecutorOutcome.failed "write_rejected" "The server rejected the flag write."
    else ExecutorOutcome.conflicted "condstore_rejected" readback
read_outcome conditional desire accepted readback =
    if bool_eq (flag_value desire.flag readback) desire.value
    then ExecutorOutcome.confirmed readback none
    else if not conditional
    then ExecutorOutcome.confirmed readback none
    else ExecutorOutcome.conflicted "condstore_rejected" readback

-- The outcome where the UID is gone from the mailbox that is read back.
unfoldable pub gone_outcome : FlagWriteResult → ActionMailboxFlags → ExecutorOutcome
gone_outcome (uncertain reason) remote = ExecutorOutcome.unknown reason none
gone_outcome accepted remote =
    ExecutorOutcome.unknown "The target left the folder before the write could be read back."
      (some remote)
gone_outcome rejected remote = ExecutorOutcome.conflicted "absent_remote" remote

abbrev result_name : FlagWriteResult → String
result_name accepted = "accepted"
result_name rejected = "rejected"
result_name (uncertain reason) = "uncertain"

unfoldable pub unread_reason : FlagWriteResult → String → String
unread_reason write detail =
    str_append "The "
      (str_append (result_name write) (str_append " write could not be read back: " detail))

-- `readback`, and the outcome that it decides.
unfoldable pub readback_outcome :
    Bool
    → FlagDesire
    → FlagWriteResult
    → PreparedActionItem
    → Answer (List ActionMailboxFlags)
    → ExecutorOutcome
unfolding read_outcome gone_outcome unread_reason
readback_outcome conditional desire write item (threw message) =
    ExecutorOutcome.unknown (unread_reason write message) (some item.remote)
readback_outcome conditional desire write item (answered []) = gone_outcome write item.remote
readback_outcome conditional desire write item (answered (f ∷ fs)) =
    read_outcome conditional desire write f

module _ {S : Type 0} (mailbox : WritableActionMailbox S) where
  -- The read after a write that was answered.
  after_write : Bool → FlagDesire → FlagWriteResult → PreparedActionItem → S → ExecutorOutcome × S
  unfolding readback_outcome
  after_write conditional desire write item s =
      let (answer, s') = mailbox.fetch_flags (item.target.uid ∷ []) s in
      (readback_outcome conditional desire write item answer, s')

  -- A write that threw, or whose outcome is uncertain, is not read back.
  written :
      Bool → FlagDesire → PreparedActionItem → Answer FlagWriteResult × S → ExecutorOutcome × S
  unfolding after_write
  written conditional desire item (threw message, s) = (ExecutorOutcome.unknown message none, s)
  written conditional desire item (answered (uncertain reason), s) =
      (ExecutorOutcome.unknown reason none, s)
  written conditional desire item (answered accepted, s) =
      after_write conditional desire accepted item s
  written conditional desire item (answered rejected, s) =
      after_write conditional desire rejected item s

  unfoldable pub apply_flags : PreparedActionItem → FlagDesire → Bool → S → ExecutorOutcome × S
  unfolding is_conditional flag_request written
  apply_flags item desire condstore s =
      written (is_conditional condstore item) desire item
        (mailbox.write_flag (flag_request condstore desire item) s)

  moved_outcome : PreparedActionItem → Answer MoveWriteResult × S → ExecutorOutcome × S
  moved_outcome item (threw message, s) = (ExecutorOutcome.unknown message none, s)
  moved_outcome item (answered (uncertain reason), s) = (ExecutorOutcome.unknown reason none, s)
  moved_outcome item (answered refused, s) =
      (ExecutorOutcome.failed "move_rejected" "The server rejected the move.", s)
  moved_outcome item (answered (moved to), s) = (ExecutorOutcome.confirmed item.remote (some to), s)

  unfoldable pub apply_move : PreparedActionItem → String → Bool → S → ExecutorOutcome × S
  unfolding moved_outcome
  apply_move item destination false s = (
    ExecutorOutcome.failed "move_unsupported"
        "The server does not support MOVE, so move and archive are unavailable.",
    s,
  )
  apply_move item destination true s =
      moved_outcome item (
        mailbox.move_message (record { uid = item.target.uid; destination_folder = destination }) s)

  -- What the capabilities lead to.
  apply_with : PreparedActionItem → Answer ActionMailboxCapabilities × S → ExecutorOutcome × S
  unfolding apply_flags apply_move
  apply_with item (threw message, s) = (ExecutorOutcome.failed "capability_error" message, s)
  apply_with item (answered capabilities, s) = elim item.desired [
    | flags desire ↦ apply_flags item desire capabilities.condstore s
    | relocate id name ↦ apply_move item name capabilities.move s
  ]

  unfoldable pub apply : PreparedActionItem → S → ExecutorOutcome × S
  unfolding apply_with
  apply item s = apply_with item (mailbox.capabilities s)
