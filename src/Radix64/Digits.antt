-- ===== src/Radix64/Digits.antt =====
-- The two tables of lib/a64l.c are inverse to one another.
use sneks.Base.{
  ℕ, ◌≤◌, ◌<◌, ◌≡◌, refl, ◌≢◌, ◌↔◌, Bool, true, false, not, ◌&&◌, none, some, arith, ltb, ltb→lt,
  le→ltb, Bool-cases, inl, inr, ◌==◌, holds_below, holds_below-at,
}
use sneks.Radix64.{decode_byte, encode_byte}

-- What the tables say of one digit, and of one character.
abbrev digit_check : ℕ → Bool
digit_check d =
    not (encode_byte d == 0)
    && elim (decode_byte (encode_byte d)) [ none ↦ false | some e ↦ d == e ]

abbrev byte_check : ℕ → Bool
byte_check c = elim (decode_byte c) [ none ↦ true | some d ↦ ltb d 64 && (encode_byte d == c) ]

digit_table : holds_below digit_check 64 ≡ true
unfolding holds_below encode_byte decode_byte
digit_table = refl

byte_table : holds_below byte_check 123 ≡ true
unfolding holds_below encode_byte decode_byte
byte_table = refl

pub decode-encode : (d : ℕ) → d < 64 → (decode_byte (encode_byte d) ≡ some d) × (encode_byte d ≢ 0)
decode-encode d h = ground (arith, holds_below-at digit_check 64 d digit_table h)

decode_past_table : (c : ℕ) → 123 ≤ c → decode_byte c ≡ none
unfolding decode_byte
decode_past_table c h = rw (le→ltb c 123 h)

decode→encode : (c d : ℕ) → decode_byte c ≡ some d → (d < 64) × (encode_byte d ≡ c)
decode→encode c d e = elim (Bool-cases (ltb c 123)) [
  | inl small ↦ ground (arith, holds_below-at byte_check 123 c byte_table (ltb→lt c 123 small))
  | inr large ↦ ground (arith, decode_past_table c)
]

-- A character decodes to a digit exactly when the digit is below 64 and encodes to the character.
pub decode-encode_iff : (c d : ℕ) → (decode_byte c ≡ some d) ↔ ((d < 64) × (encode_byte d ≡ c))
decode-encode_iff c d = (decode→encode c d, λ h. ground (arith, decode-encode d h.0))
