-- ===== src/Recovery/Uuid.antt =====
-- The UUID pattern and the case of its letters.
use personal_mail_hub.Base.{
  ℕ, Bool, ◌≡◌, refl, ap, [], ◌∷◌, ◌==◌, ◌&&◌, arith, Text, to_lower, lower_code,
}
use personal_mail_hub.Recovery.{is_hex, hex_block, dash, at_end, is_uuid}

is_hex-lower_code : (c : ℕ) → is_hex (lower_code c) ≡ is_hex c
is_hex-lower_code c = ground arith

is_dash-lower_code : (c : ℕ) → (lower_code c == b'-') ≡ (c == b'-')
is_dash-lower_code c = ground arith

abbrev CaseBlind : (Text → Bool) → Type 0
CaseBlind p = (s : Text) → p (to_lower s) ≡ p s

hex_block-CaseBlind : (n : ℕ) (p : Text → Bool) → CaseBlind p → CaseBlind (hex_block n p)
unfolding hex_block to_lower
hex_block-CaseBlind ℕ.zero p h s = h s
hex_block-CaseBlind (ℕ.suc n) p h [] = refl
hex_block-CaseBlind (ℕ.suc n) p h (c ∷ s) =
    rw (is_hex-lower_code c) (ap (λ b. is_hex c && b) (hex_block-CaseBlind n p h s))

dash-CaseBlind : (p : Text → Bool) → CaseBlind p → CaseBlind (dash p)
unfolding dash to_lower
dash-CaseBlind p h [] = refl
dash-CaseBlind p h (c ∷ s) = rw (is_dash-lower_code c) (ap (λ b. (c == b'-') && b) (h s))

at_end-CaseBlind : CaseBlind at_end
unfolding to_lower
at_end-CaseBlind [] = refl
at_end-CaseBlind (c ∷ s) = refl

group-CaseBlind : (n : ℕ) (p : Text → Bool) → CaseBlind p → CaseBlind (hex_block n (dash p))
group-CaseBlind n p h = hex_block-CaseBlind n (dash p) (dash-CaseBlind p h)

pub is_uuid-to_lower : (s : Text) → is_uuid (to_lower s) ≡ is_uuid s
unfolding is_uuid
is_uuid-to_lower = group-CaseBlind 8 _ (
    group-CaseBlind 4 _
      (group-CaseBlind 4 _ (group-CaseBlind 4 _ (hex_block-CaseBlind 12 at_end at_end-CaseBlind))))
