-- ===== src/Home.antt =====
-- packages/home/src/ranking.ts: attention tiers, reasons, the order of the attention section and the
-- keys of its pages.
--
-- A confidence is counted in billionths: it is only compared with 0.75. Instants are milliseconds
-- since the start of the year 0. The ISO text of an instant is a parameter.
pub mod Laws
mod Tests
use personal_mail_hub.Base.{
  ℕ, Bool, true, false, not, ◌&&◌, ◌||◌, Option, none, some, List, [], ◌∷◌, ◌++◌, ltb, leb, ◌==◌,
  Text, text_eq, if◌then◌else◌,
}

pub data MessageClass : Type 0 where
  correspondence receipt newsletter notification marketing security_alert bounce other :
      MessageClass

pub data SuggestionSource : Type 0 where
  manual override rule jev : SuggestionSource

pub record AttentionCandidate : Type 0 where
  pub message_id : Text
  pub account_id : Text
  pub thread_id : Option Text
  pub sent_at : Option ℕ
  pub sender_address : Option Text
  pub class_hint : Option MessageClass
  pub class_source : Option SuggestionSource
  pub asks_action : Option Bool
  pub asks_reply : Option Bool
  pub time_sensitive : Option Bool
  pub action_confidence : Option ℕ
  pub priority_sender : Bool
  pub priority_thread : Bool

-- 0.75, in billionths
abbrev pub action_breakout_confidence : ℕ
action_breakout_confidence = 750_000_000

-- `answer === true`
abbrev pub is_true : Option Bool → Bool
is_true none = false
is_true (some answer) = answer

abbrev pub is_confident : Option ℕ → Bool
is_confident none = false
is_confident (some c) = leb action_breakout_confidence c

unfoldable pub is_protected_action : AttentionCandidate → Bool
is_protected_action c = is_true c.asks_action && is_confident c.action_confidence

abbrev pub is_security : Option MessageClass → Bool
is_security none = false
is_security (some security_alert) = true
is_security (some _) = false

unfoldable pub attention_tier : AttentionCandidate → Option ℕ
unfolding is_protected_action
attention_tier c =
    if c.priority_sender || c.priority_thread || is_security c.class_hint || is_protected_action c
    then some 0
    else if is_true c.asks_action || is_true c.asks_reply || is_true c.time_sensitive
    then some 1
    else none

pub data Origin : Type 0 where
  choice suggestion : Origin

pub data ReasonCode : Type 0 where
  you_prioritized_sender you_prioritized_thread security may_need_action may_need_reply
        is_time_sensitive :
      ReasonCode

unfoldable pub suggestion_origin : Option SuggestionSource → Origin
suggestion_origin (some manual) = choice
suggestion_origin (some override) = choice
suggestion_origin _ = suggestion

abbrev pub reason_if : Bool → ReasonCode → Origin → List (ReasonCode × Origin)
reason_if held code origin = if held then (code, origin) ∷ [] else []

unfoldable pub attention_reasons : AttentionCandidate → List (ReasonCode × Origin)
attention_reasons c =
    let origin = suggestion_origin c.class_source in
    reason_if c.priority_sender you_prioritized_sender choice
    ++ reason_if c.priority_thread you_prioritized_thread choice
    ++ reason_if (is_security c.class_hint) security origin
    ++ reason_if (is_true c.asks_action) may_need_action origin
    ++ reason_if (is_true c.asks_reply) may_need_reply origin
    ++ reason_if (is_true c.time_sensitive) is_time_sensitive origin

-- The sign of a comparison.
pub data Sign : Type 0 where
  negative zero_sign positive : Sign

-- `<` on texts of the first plane.
unfoldable pub text_less : Text → Text → Bool
text_less s [] = false
text_less [] (d ∷ t) = true
text_less (c ∷ s) (d ∷ t) = let rest = text_less s t in ltb c d || (c == d && rest)

unfoldable pub compare_identifier : Text → Text → Sign
unfolding text_less
compare_identifier a b =
    if text_less a b then negative else if text_less b a then positive else zero_sign

-- `timeB - timeA`, where no date counts as minus infinity.
unfoldable pub compare_time : Option ℕ → Option ℕ → Sign
compare_time none none = zero_sign
compare_time none (some b) = positive
compare_time (some a) none = negative
compare_time (some a) (some b) =
    if ltb b a then negative else if ltb a b then positive else zero_sign

abbrev pub compare_number : ℕ → ℕ → Sign
compare_number a b = if ltb a b then negative else if ltb b a then positive else zero_sign

-- The first sign that decides.
abbrev pub or_else : Sign → Sign → Sign
or_else negative next = negative
or_else positive next = positive
or_else zero_sign next = next

-- `compareAttention`, or nothing where it throws.
unfoldable pub compare_attention : AttentionCandidate → AttentionCandidate → Option Sign
unfolding attention_tier compare_time compare_identifier
compare_attention a b = elim (attention_tier a) [
  | none ↦ none
  | some tier_a ↦ elim (attention_tier b) [
    | none ↦ none
    | some tier_b ↦ some (
        or_else (compare_number tier_a tier_b) (
          or_else (compare_time a.sent_at b.sent_at)
            (compare_identifier a.message_id b.message_id)))
  ]
]

pub record AttentionSortKey : Type 0 where
  pub tier : ℕ
  pub sent_at : Text
  pub message_id : Text

abbrev pub iso_or_empty : (ℕ → Text) → Option ℕ → Text
iso_or_empty to_iso none = []
iso_or_empty to_iso (some t) = to_iso t

unfoldable pub attention_sort_key : (ℕ → Text) → AttentionCandidate → Option AttentionSortKey
unfolding attention_tier
attention_sort_key to_iso c = elim (attention_tier c) [
  | none ↦ none
  | some tier ↦
      some
        (record { tier = tier; sent_at = iso_or_empty to_iso c.sent_at; message_id = c.message_id })
]

unfoldable pub attention_key_after : AttentionSortKey → AttentionSortKey → Bool
unfolding text_less
attention_key_after key last =
    if not (key.tier == last.tier)
    then ltb last.tier key.tier
    else if not (text_eq key.sent_at last.sent_at)
    then text_less key.sent_at last.sent_at
    else text_less last.message_id key.message_id
