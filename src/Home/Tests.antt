-- ===== src/Home/Tests.antt =====
-- Two messages that may need action, received at two instants.
use personal_mail_hub.Base.{
  ℕ, ◌+◌, Bool, true, false, ◌≡◌, refl, ◌↔◌, none, some, [], ◌∷◌, arith, Text,
}
use personal_mail_hub.Home.{
  AttentionCandidate, correspondence, jev, is_protected_action, attention_tier, compare_attention,
  text_less, compare_identifier, compare_time, negative, zero_sign, AttentionSortKey,
  attention_sort_key, attention_key_after,
}
use personal_mail_hub.Home.Laws.{IsIso, flip, attention_key_after_iff, compare_attention-flip}

abbrev candidate_at : ℕ → Bool → Text → AttentionCandidate
candidate_at t priority id = record {
  message_id = id;
  account_id = 1 ∷ [];
  thread_id = none;
  sent_at = some t;
  sender_address = none;
  class_hint = some correspondence;
  class_source = some jev;
  asks_action = some true;
  asks_reply = none;
  time_sensitive = some false;
  action_confidence = some 600_000_000;
  priority_sender = priority;
  priority_thread = false;
}

abbrev early : AttentionCandidate
early = candidate_at 10 false (5 ∷ [])

abbrev late : AttentionCandidate
late = candidate_at 20 false (4 ∷ [])

abbrev one_digit : ℕ → Text
one_digit t = (t + 1) ∷ []

one_digit-IsIso : IsIso one_digit 100
unfolding text_less
one_digit-IsIso = record {
  order = λ s t s_small t_small. ground arith;
  nonempty = λ t t_small. refl;
}

abbrev key_at : ℕ → Text → AttentionSortKey
key_at t id = record { tier = 1; sent_at = one_digit t; message_id = id }

attention_key_after_iff_example :
    (attention_key_after (key_at 10 (5 ∷ [])) (key_at 20 (4 ∷ [])) ≡ true)
    ↔ (compare_attention late early ≡ some negative)
unfolding attention_sort_key attention_tier is_protected_action
attention_key_after_iff_example =
    attention_key_after_iff one_digit 100 one_digit-IsIso late early (key_at 20 (4 ∷ []))
      (key_at 10 (5 ∷ [])) (ground arith) (ground arith) refl refl

compare_attention-flip_example :
    (compare_attention early late ≡ some (flip negative))
    × (negative ≡ zero_sign → late.message_id ≡ early.message_id)
unfolding compare_attention attention_tier is_protected_action compare_time compare_identifier
    text_less
compare_attention-flip_example = compare_attention-flip late early negative refl
