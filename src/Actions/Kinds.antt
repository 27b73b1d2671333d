-- ===== src/Actions/Kinds.antt =====
-- packages/actions/src/kinds.ts: the kinds, the validation of a submission, its canonical scope and
-- the frozen targets.
use personal_mail_hub.Base.{
  ℕ, ◌+◌, Bool, true, false, not, ◌&&◌, ◌||◌, Option, none, some, List, [], ◌∷◌, map, ltb, leb,
  ◌==◌, length, any, Text, codes, text_eq, to_lower, String, str_eq, if◌then◌else◌,
}
use personal_mail_hub.Recovery.{is_uuid}
use personal_mail_hub.Actions.{
  ActionKind, mark_read, mark_unread, star, unstar, archive, move, Flag, FlagDesire, ActionScope,
  ActionItemTarget, Occurrence,
}

-- `ACTION_KINDS`, as the names that a client sends.
unfoldable pub action_kind_of : String → Option ActionKind
action_kind_of name =
    if str_eq name "mark_read"
    then some mark_read
    else if str_eq name "mark_unread"
    then some mark_unread
    else if str_eq name "star"
    then some star
    else if str_eq name "unstar"
    then some unstar
    else if str_eq name "archive"
    then some archive
    else if str_eq name "move"
    then some move
    else none

unfoldable pub flag_desire_of : ActionKind → Option FlagDesire
flag_desire_of mark_read = some (record { flag = Flag.unread; value = false })
flag_desire_of mark_unread = some (record { flag = Flag.unread; value = true })
flag_desire_of star = some (record { flag = Flag.flagged; value = true })
flag_desire_of unstar = some (record { flag = Flag.flagged; value = false })
flag_desire_of archive = none
flag_desire_of move = none

unfoldable pub is_replayable_kind : ActionKind → Bool
is_replayable_kind mark_read = true
is_replayable_kind mark_unread = true
is_replayable_kind star = true
is_replayable_kind unstar = true
is_replayable_kind archive = false
is_replayable_kind move = false

unfoldable pub requires_destination : ActionKind → Bool
requires_destination archive = true
requires_destination move = true
requires_destination _ = false

abbrev pub max_action_targets : ℕ
max_action_targets = 500

abbrev pub max_action_key_length : ℕ
max_action_key_length = 200

pub record MailActionSubmission : Type 0 where
  pub account_id : Text
  pub kind : String
  pub recovery_generation : Text
  pub idempotency_key : String
  pub occurrence_ids : List Text
  pub destination_folder_id : Option Text

-- `[...new Set(xs)]`: the first of equal elements stays.
abbrev pub without : Text → List Text → List Text
without x [] = []
without x (y ∷ ys) = let rest = without x ys in if text_eq x y then rest else y ∷ rest

unfoldable pub distinct : List Text → List Text
distinct [] = []
distinct (x ∷ xs) = x ∷ without x (distinct xs)

-- `string.length`: a character outside of the first plane counts twice.
unfoldable pub utf16_length : Text → ℕ
utf16_length [] = 0
utf16_length (c ∷ s) = let rest = utf16_length s in if ltb c 0x10000 then 1 + rest else 2 + rest

-- The order of `sort()` on texts of the first plane.
unfoldable pub text_leb : Text → Text → Bool
text_leb [] t = true
text_leb (c ∷ s) [] = false
text_leb (c ∷ s) (d ∷ t) = let rest = text_leb s t in ltb c d || (c == d && rest)

abbrev pub insert_text : Text → List Text → List Text
insert_text x [] = x ∷ []
insert_text x (y ∷ ys) =
    let rest = insert_text x ys in if text_leb x y then x ∷ y ∷ ys else y ∷ rest

unfoldable pub sort_texts : List Text → List Text
sort_texts [] = []
sort_texts (x ∷ xs) = insert_text x (sort_texts xs)

abbrev pub is_some_uuid : Option Text → Bool
is_some_uuid none = false
is_some_uuid (some id) = is_uuid id

abbrev pub is_given : {A : Type 0} → Option A → Bool
is_given none = false
is_given (some a) = true

-- The last test of the validation.
destination_accepted : ActionKind → Option Text → Bool
unfolding requires_destination
destination_accepted kind destination =
    if requires_destination kind then is_some_uuid destination else not (is_given destination)

-- `validateSubmission`, which answers the kind that it recognised; every rejection is an
-- `invalid_request`.
unfoldable pub validate_submission : MailActionSubmission → Option ActionKind
unfolding action_kind_of distinct utf16_length destination_accepted
validate_submission s = elim (action_kind_of s.kind) [
  | none ↦ none
  | some kind ↦
      if is_uuid s.account_id
        && ltb 0 (utf16_length (codes s.idempotency_key))
        && leb (utf16_length (codes s.idempotency_key)) max_action_key_length
        && ltb 0 (length s.occurrence_ids)
        && leb (length (distinct s.occurrence_ids)) max_action_targets
        && not (any (λ id. not (is_uuid id)) (distinct s.occurrence_ids))
        && destination_accepted kind s.destination_folder_id
      then some kind
      else none
]

abbrev pub lower_option : Option Text → Option Text
lower_option none = none
lower_option (some id) = some (to_lower id)

-- The kind is the one that the validation recognised.
unfoldable pub canonical_scope : ActionKind → MailActionSubmission → ActionScope
unfolding distinct sort_texts
canonical_scope kind s = record {
  kind = kind;
  account_id = to_lower s.account_id;
  occurrence_ids = sort_texts (map to_lower (distinct s.occurrence_ids));
  destination_folder_id = lower_option s.destination_folder_id;
}

unfoldable pub frozen_target : Occurrence → ActionItemTarget
frozen_target o = record {
  occurrence_id = o.id;
  account_id = o.account_id;
  folder_id = o.folder_id;
  uidvalidity = o.uidvalidity;
  uid = o.uid;
  revision = o.revision;
  observed_unread = o.unread;
  observed_flagged = o.flagged;
  modseq = o.modseq;
}
