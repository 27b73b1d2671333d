-- ===== src/Actions/Check.antt =====
-- packages/actions/src/service.ts: the checks of one item, what the executor is given, and the
-- receipts of its answers.
use personal_mail_hub.Base.{
  ℕ, Bool, true, false, not, ◌||◌, Option, none, some, List, [], ◌∷◌, ◌==◌, Answer, answered, threw,
  Text, String, str_eq, if◌then◌else◌,
}
use personal_mail_hub.Database.{ActionItemStatus}
use personal_mail_hub.Actions.{
  Flag, FlagDesire, ActionMailboxFlags, MoveDestination, DesiredActionState, flags, relocate,
  PreparedActionItem, ExecutorOutcome, plain, generations, current_revision, current_modseq,
  ItemOutcome, held, noop, observed, refuted, lost, failure, Action, Item, Occurrence, ActionFolder,
}
use personal_mail_hub.Actions.Kinds.{flag_desire_of}
use personal_mail_hub.Actions.Disposition.{Disposition, bool_eq, conflict_with}

-- A destination, as its identifier and its name.
abbrev pub Destination : Type 0
Destination = Option (Text × String)

-- `remoteByUid.get(uid)`: of two entries with the UID, the later one.
unfoldable pub remote_of : ℕ → List ActionMailboxFlags → Option ActionMailboxFlags
remote_of uid [] = none
remote_of uid (f ∷ fs) =
    let later = remote_of uid fs in
    elim later [ some g ↦ some g | none ↦ if f.uid == uid then some f else none ]

abbrev pub flag_value : Flag → ActionMailboxFlags → Bool
flag_value Flag.unread f = f.unread
flag_value Flag.flagged f = f.flagged

-- The target holds the desired value already.
unfoldable pub holds_desired : Option FlagDesire → ActionMailboxFlags → Bool
holds_desired none f = false
holds_desired (some desire) f = bool_eq (flag_value desire.flag f) desire.value

abbrev pub modseq_eq : Option String → Option String → Bool
modseq_eq none none = true
modseq_eq none (some b) = false
modseq_eq (some a) none = false
modseq_eq (some a) (some b) = str_eq a b

abbrev pub confirm_noop : ActionMailboxFlags → Disposition
confirm_noop remote = record {
  status = ActionItemStatus.confirmed;
  outcome = noop remote;
  observed = some remote;
  applied = true;
  expunge = false;
  supersedes_hold = false;
}

-- The checks of one item between the refresh and the claim: the receipt that ends it here, or none.
unfoldable pub examine_found :
    Option FlagDesire → ℕ → Item → ActionMailboxFlags → Occurrence → Option Disposition
unfolding holds_desired
examine_found desire generation i remote o =
    if o.expunged
    then some (conflict_with "expunged" plain)
    else if o.invalidated
    then some (conflict_with "invalidated" plain)
    else if not (o.uidvalidity == i.target.uidvalidity) || not (o.uidvalidity == generation)
    then some (conflict_with "generation_changed" (generations o.uidvalidity generation))
    else if holds_desired desire remote
    then some (confirm_noop remote)
    else if not (o.revision == i.target.revision)
    then some (conflict_with "stale_revision" (current_revision o.revision))
    else if not (modseq_eq o.modseq i.target.modseq)
    then some (conflict_with "modseq_changed" (current_modseq o.modseq))
    else none

unfoldable pub examine :
    Option FlagDesire → ℕ → Item → ActionMailboxFlags → Option Occurrence → Option Disposition
unfolding examine_found
examine desire generation i remote none = some (conflict_with "occurrence_missing" plain)
examine desire generation i remote (some o) = examine_found desire generation i remote o

-- The receipt of what the executor answered; each belongs to the claim that ran the write.
abbrev receipt_with :
    ActionItemStatus → ItemOutcome → Option ActionMailboxFlags → Bool → Bool → Disposition
receipt_with status outcome seen applied expunge = record {
  status = status;
  outcome = outcome;
  observed = seen;
  applied = applied;
  expunge = expunge;
  supersedes_hold = true;
}

abbrev is_moved : Option MoveDestination → Bool
is_moved none = false
is_moved (some to) = true

unfoldable pub receipt_for : ExecutorOutcome → Disposition
receipt_for (ExecutorOutcome.confirmed f to) =
    receipt_with ActionItemStatus.confirmed (observed f to) (some f) true (is_moved to)
receipt_for (ExecutorOutcome.conflicted reason f) =
    receipt_with ActionItemStatus.conflicted (refuted reason f) (some f) false false
receipt_for (ExecutorOutcome.unknown reason f) =
    receipt_with ActionItemStatus.unknown (lost reason f) none false false
receipt_for (ExecutorOutcome.failed code message) =
    receipt_with ActionItemStatus.failed (failure code message) none false false

-- `desiredState`
abbrev desired_state : Action → Option FlagDesire → Destination → DesiredActionState
desired_state a (some desire) to = flags desire
desired_state a none (some (id, name)) = relocate id name
desired_state a none none = elim a.request.destination_folder_id [
  | none ↦ relocate [] ""
  | some id ↦ relocate id ""
]

unfoldable pub interrupted_hold : Disposition
interrupted_hold = record {
  status = ActionItemStatus.unknown;
  outcome = held "interrupted";
  observed = none;
  applied = false;
  expunge = false;
  supersedes_hold = false;
}

unfoldable pub prepared_item :
    Action → Item → ActionFolder → ℕ → ActionMailboxFlags → Destination → PreparedActionItem
unfolding flag_desire_of
prepared_item a i folder generation remote to = record {
  action_id = a.id;
  item_key = i.item_key;
  kind = a.kind;
  account_id = a.account_id;
  folder_id = folder.id;
  folder_name = folder.name;
  folder_uidvalidity = generation;
  target = i.target;
  remote = remote;
  desired = desired_state a (flag_desire_of a.kind) to;
}

-- `applyPrepared`: what the executor throws becomes a failed receipt.
unfoldable pub outcome_of : Answer ExecutorOutcome → ExecutorOutcome
outcome_of (answered o) = o
outcome_of (threw message) = ExecutorOutcome.failed "executor_error" message
