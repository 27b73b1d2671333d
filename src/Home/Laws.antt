-- ===== src/Home/Laws.antt =====
-- The tiers, the reasons and the page keys of ranking.ts beside each other.
use personal_mail_hub.Base.{
  ℕ, ◌<◌, true, false, ◌≡◌, refl, ◌↔◌, ◌∙◌, ap, sym, inl, inr, Option, none, some, [], ◌∷◌, arith,
  ltb, Bool-cases, Option-cases, Text, text_eq, text_eq_iff,
}
use personal_mail_hub.Home.{
  AttentionCandidate, is_protected_action, attention_tier, attention_reasons, Sign, negative,
  zero_sign, positive, text_less, compare_identifier, compare_time, compare_number, or_else,
  compare_attention, AttentionSortKey, iso_or_empty, attention_sort_key, attention_key_after,
}

-- A candidate has no reason exactly if it asks for no attention, so that nothing is shown in the
-- attention section without a reason.
pub attention_reasons-eq-none_iff :
    (c : AttentionCandidate) → (attention_reasons c ≡ []) ↔ (attention_tier c ≡ none)
unfolding attention_reasons attention_tier is_protected_action
attention_reasons-eq-none_iff c = ground arith

text_less_irrefl : (s : Text) → text_less s s ≡ false
unfolding text_less
text_less_irrefl [] = refl
text_less_irrefl (c ∷ s) = ground (arith, text_less_irrefl s)

text_less_asym : (s t : Text) → text_less s t ≡ true → text_less t s ≡ false
unfolding text_less
text_less_asym [] [] h = refl
text_less_asym [] (d ∷ t) h = refl
text_less_asym (c ∷ s) [] h = cc h
text_less_asym (c ∷ s) (d ∷ t) h = ground (arith, text_less_asym s t)

text_less_total : (s t : Text) → text_less s t ≡ false → text_less t s ≡ false → s ≡ t
unfolding text_less
text_less_total [] [] h k = refl
text_less_total [] (d ∷ t) h k = cc h
text_less_total (c ∷ s) [] h k = cc k
text_less_total (c ∷ s) (d ∷ t) h k = ground (arith, text_less_total s t)

-- How two instants compare, and how their texts do.
data TimeCase (to_iso : ℕ → Text) (a b : Option ℕ) : Type 0 where
  later :
      compare_time a b ≡ negative
      → text_eq (iso_or_empty to_iso b) (iso_or_empty to_iso a) ≡ false
      → text_less (iso_or_empty to_iso b) (iso_or_empty to_iso a) ≡ true
      → TimeCase to_iso a b
  earlier :
      compare_time a b ≡ positive
      → text_eq (iso_or_empty to_iso b) (iso_or_empty to_iso a) ≡ false
      → text_less (iso_or_empty to_iso b) (iso_or_empty to_iso a) ≡ false
      → TimeCase to_iso a b
  same :
      compare_time a b ≡ zero_sign
      → text_eq (iso_or_empty to_iso b) (iso_or_empty to_iso a) ≡ true
      → TimeCase to_iso a b

less_distinct : (s t : Text) → text_less s t ≡ true → text_eq s t ≡ false
less_distinct s t h = elim (Bool-cases (text_eq s t)) [
  | inr n ↦ n
  | inl e ↦ cc (rw ((text_eq_iff s t).0 e, text_less_irrefl t) at h)
]

greater_distinct : (s t : Text) → text_less t s ≡ true → text_eq s t ≡ false
greater_distinct s t h = elim (Bool-cases (text_eq s t)) [
  | inr n ↦ n
  | inl e ↦ cc (rw ((text_eq_iff s t).0 e, text_less_irrefl t) at h)
]

-- Instants before the bound have ISO texts in their order, and none is empty.
pub record IsIso (to_iso : ℕ → Text) (bound : ℕ) : Type 0 where
  pub order : (s t : ℕ) → s < bound → t < bound → text_less (to_iso s) (to_iso t) ≡ ltb s t
  pub nonempty : (t : ℕ) → t < bound → text_less [] (to_iso t) ≡ true

abbrev pub IsBefore : ℕ → Option ℕ → Type 0
IsBefore bound none = Unit
IsBefore bound (some t) = t < bound

time_cases :
    (to_iso : ℕ → Text) (bound : ℕ) (iso : IsIso to_iso bound) (a b : Option ℕ)
    → IsBefore bound a
    → IsBefore bound b
    → TimeCase to_iso a b
unfolding compare_time
time_cases to_iso bound iso none none ha hb = same refl ((text_eq_iff [] []).1 refl)
time_cases to_iso bound iso none (some t) ha hb =
    earlier refl (greater_distinct (to_iso t) [] (iso.nonempty t hb))
      (text_less_asym [] (to_iso t) (iso.nonempty t hb))
time_cases to_iso bound iso (some s) none ha hb =
    later refl (less_distinct [] (to_iso s) (iso.nonempty s ha)) (iso.nonempty s ha)
time_cases to_iso bound iso (some s) (some t) ha hb = elim (Bool-cases (ltb t s)) [
  | inl down ↦
      let less = iso.order t s hb ha ∙ down in
      later (rw down refl) (less_distinct (to_iso t) (to_iso s) less) less
  | inr n ↦ elim (Bool-cases (ltb s t)) [
    | inl up ↦
        let less = iso.order s t ha hb ∙ up in
        earlier (rw (n, up) refl) (greater_distinct (to_iso t) (to_iso s) less)
          (text_less_asym (to_iso s) (to_iso t) less)
    | inr m ↦ same (rw (n, m) refl) (
        (text_eq_iff (to_iso t) (to_iso s)).1 (
          text_less_total (to_iso t) (to_iso s) (iso.order t s hb ha ∙ n)
            (iso.order s t ha hb ∙ m)))
  ]
]

compare_identifier-eq-negative :
    (a b : Text) → (text_less a b ≡ true) ↔ (compare_identifier a b ≡ negative)
unfolding compare_identifier
compare_identifier-eq-negative a b = ground arith

attention_key_after-eq-true :
    (to_iso : ℕ → Text) (ta tb : ℕ) (sa sb : Option ℕ) (ia ib : Text)
    → TimeCase to_iso sa sb
    → (attention_key_after
          (record { tier = tb; sent_at = iso_or_empty to_iso sb; message_id = ib })
          (record { tier = ta; sent_at = iso_or_empty to_iso sa; message_id = ia })
        ≡ true)
      ↔ (or_else (compare_number ta tb) (or_else (compare_time sa sb) (compare_identifier ia ib))
          ≡ negative)
unfolding attention_key_after
attention_key_after-eq-true to_iso ta tb sa sb ia ib (later c e l) = rw (c, e, l) (ground arith)
attention_key_after-eq-true to_iso ta tb sa sb ia ib (earlier c e l) = rw (c, e, l) (ground arith)
attention_key_after-eq-true to_iso ta tb sa sb ia ib (same c e) =
    rw (c, e) (ground (arith, compare_identifier-eq-negative ia ib))

-- For candidates that ask for attention, with instants before a bound up to which ISO texts keep the
-- order of instants: a page key stands after another exactly if compareAttention puts its candidate
-- after the other one, so that paging by keys and sorting by comparison agree.
pub attention_key_after_iff :
    (to_iso : ℕ → Text) (bound : ℕ)
    → IsIso to_iso bound
    → (a b : AttentionCandidate) (ka kb : AttentionSortKey) → IsBefore bound a.sent_at
    → IsBefore bound b.sent_at
    → attention_sort_key to_iso a ≡ some ka
    → attention_sort_key to_iso b ≡ some kb
    → (attention_key_after kb ka ≡ true) ↔ (compare_attention a b ≡ some negative)
unfolding attention_sort_key compare_attention
attention_key_after_iff to_iso bound iso a b ka kb ha hb ea eb =
    elim (Option-cases (attention_tier a)) [
      | inl none_a ↦ cc (rw (none_a, attention_sort_key) at ea)
      | inr (ta, tier_a) ↦ elim (Option-cases (attention_tier b)) [
        | inl none_b ↦ cc (rw (none_b, attention_sort_key) at eb)
        | inr (tb, tier_b) ↦
            let key_a : AttentionSortKey = record {
              tier = ta;
              sent_at = iso_or_empty to_iso a.sent_at;
              message_id = a.message_id;
            } in
            let key_b : AttentionSortKey = record {
              tier = tb;
              sent_at = iso_or_empty to_iso b.sent_at;
              message_id = b.message_id;
            } in
            let same_a : key_a ≡ ka = cc (rw (tier_a, attention_sort_key) at ea) in
            let same_b : key_b ≡ kb = cc (rw (tier_b, attention_sort_key) at eb) in
            let agrees =
              attention_key_after-eq-true to_iso ta tb a.sent_at b.sent_at a.message_id b.message_id
                (time_cases to_iso bound iso a.sent_at b.sent_at ha hb) in
            let compared : compare_attention a b
                ≡ some (
                    or_else (compare_number ta tb) (
                      or_else (compare_time a.sent_at b.sent_at)
                        (compare_identifier a.message_id b.message_id))) =
              rw (tier_a, compare_attention) (rw (tier_b, compare_attention) refl) in
            let keys : attention_key_after kb ka ≡ attention_key_after key_b key_a =
              ap (λ k. attention_key_after k ka) (sym same_b)
              ∙ ap (attention_key_after key_b) (sym same_a) in
            (
              λ h. compared ∙ ap some (agrees.0 (sym keys ∙ h)),
              λ h. keys ∙ agrees.1 (some-eq (sym compared ∙ h)),
            )
      ]
    ]
  where
    some-eq : {s t : Sign} → some s ≡ some t → s ≡ t
    some-eq h = cc h

abbrev pub flip : Sign → Sign
flip negative = positive
flip positive = negative
flip zero_sign = zero_sign

flip-or_else : (s t : Sign) → flip (or_else s t) ≡ or_else (flip s) (flip t)
flip-or_else negative t = refl
flip-or_else positive t = refl
flip-or_else zero_sign t = refl

flip-compare_number : (a b : ℕ) → compare_number b a ≡ flip (compare_number a b)
flip-compare_number a b = ground arith

flip-compare_time : (a b : Option ℕ) → compare_time b a ≡ flip (compare_time a b)
unfolding compare_time
flip-compare_time none none = refl
flip-compare_time none (some b) = refl
flip-compare_time (some a) none = refl
flip-compare_time (some a) (some b) = ground arith

flip-compare_identifier : (a b : Text) → compare_identifier b a ≡ flip (compare_identifier a b)
unfolding compare_identifier
flip-compare_identifier a b = ground (arith, text_less_asym a b)

compare_identifier_zero : (a b : Text) → compare_identifier a b ≡ zero_sign → a ≡ b
unfolding compare_identifier
compare_identifier_zero a b h = text_less_total a b (ground (arith, h)) (ground (arith, h))

or_else_zero : (s t : Sign) → or_else s t ≡ zero_sign → t ≡ zero_sign
or_else_zero zero_sign t h = h
or_else_zero negative t h = cc h
or_else_zero positive t h = cc h

-- Where compareAttention answers, it answers the opposite for the candidates in the other order, and
-- it calls two candidates equal only if they have the same message identifier.
pub compare_attention-flip :
    (a b : AttentionCandidate) (s : Sign)
    → compare_attention a b ≡ some s
    → (compare_attention b a ≡ some (flip s)) × (s ≡ zero_sign → a.message_id ≡ b.message_id)
unfolding compare_attention
compare_attention-flip a b s h = elim (Option-cases (attention_tier a)) [
  | inl none_a ↦ cc (rw (none_a, compare_attention) at h)
  | inr (ta, tier_a) ↦ elim (Option-cases (attention_tier b)) [
    | inl none_b ↦ cc (rw (tier_a, none_b, compare_attention) at h)
    | inr (tb, tier_b) ↦
        let inner =
          or_else (compare_time a.sent_at b.sent_at)
            (compare_identifier a.message_id b.message_id) in
        let sign : or_else (compare_number ta tb) inner ≡ s =
          cc (rw (tier_a, tier_b, compare_attention) at h) in
        let back : compare_attention b a
            ≡ some (
                or_else (compare_number tb ta) (
                  or_else (compare_time b.sent_at a.sent_at)
                    (compare_identifier b.message_id a.message_id))) =
          rw (tier_b, compare_attention) (rw (tier_a, compare_attention) refl) in
        (
          back
              ∙ ap some (
                  rw
                    (
                      flip-compare_number ta tb,
                      flip-compare_time a.sent_at b.sent_at,
                      flip-compare_identifier a.message_id b.message_id,
                    )
                    (rw (← sign) (
                      rw
                        (
                          flip-or_else (compare_number ta tb) inner,
                          flip-or_else (compare_time a.sent_at b.sent_at)
                              (compare_identifier a.message_id b.message_id),
                        )
                        refl))),
          λ z. compare_identifier_zero a.message_id b.message_id (
              or_else_zero (compare_time a.sent_at b.sent_at) _
                (or_else_zero (compare_number ta tb) inner (sign ∙ z))),
        )
  ]
]
