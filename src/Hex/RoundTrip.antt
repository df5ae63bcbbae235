-- ===== src/Hex/RoundTrip.antt =====
-- Reading back what the printers of `Hex` write.
use mathlib.Core.Path.{ap₂}
use ajax_bridge.Prelude.{
  ℕ, ◌+◌, ◌*◌, ◌/◌, ◌%◌, ◌<◌, true, ◌≡◌, refl, ap, ◌∙◌, Option, some, [], ◌∷◌, arith, Bytes, All,
}
use ajax_bridge.Hex.{
  hex_digit, hex_value, push_digit, is_hex_byte, is_hex, parse_hex_from, parse_hex, format_04x,
  encode_upper, decoded, push_pair, decode,
}

pub hex_value-hex_digit : (d : ℕ) → d < 16 → hex_value (hex_digit d) ≡ some d
unfolding hex_value hex_digit
hex_value-hex_digit d h = ground arith

pub is_hex_byte-hex_digit : (d : ℕ) → d < 16 → is_hex_byte (hex_digit d) ≡ true
unfolding is_hex_byte hex_digit
is_hex_byte-hex_digit d h = ground arith

-- Every byte is read back.
pub decode-encode_upper :
    (bs : Bytes) → All (λ b. b < 256) bs → decode (encode_upper bs) ≡ decoded bs
unfolding decode encode_upper
decode-encode_upper [] h = refl
decode-encode_upper (b ∷ bs) h =
    ap₂
      (λ (x y : Option ℕ).
        push_pair x y (hex_digit (b / 16)) (hex_digit (b % 16)) (decode (encode_upper bs)))
      (hex_value-hex_digit (b / 16) (omega arith)) (hex_value-hex_digit (b % 16) (omega arith))
    ∙ rw (decode-encode_upper bs h.1) (ap (λ (x : ℕ). decoded (x ∷ bs)) (omega arith))

-- The four digits of a number below 2 ^ 16.
abbrev pub four_digits : ℕ → Bytes
four_digits n =
    hex_digit (n / 4096 % 16)
    ∷ hex_digit (n / 256 % 16)
    ∷ hex_digit (n / 16 % 16)
    ∷ hex_digit (n % 16)
    ∷ []

pub format_04x-four : (n : ℕ) → n < 65536 → format_04x n ≡ four_digits n
unfolding format_04x
format_04x-four n h =
    let top : n / 16 / 16 / 16 / 16 ≡ 0 = omega arith in
    let third : n / 16 / 16 / 16 ≡ n / 4096 = omega arith in
    let second : n / 16 / 16 ≡ n / 256 = omega arith in rw (top, third, second)

parse_hex_from-hex_digit :
    (acc d : ℕ) (s : Bytes)
    → d < 16
    → parse_hex_from (some acc) (hex_digit d ∷ s) ≡ parse_hex_from (some (acc * 16 + d)) s
unfolding parse_hex_from
parse_hex_from-hex_digit acc d s h =
    ap (λ (o : Option ℕ). parse_hex_from (push_digit acc o) s) (hex_value-hex_digit d h)

parse_hex_from-nil : (acc : ℕ) → parse_hex_from (some acc) [] ≡ some acc
unfolding parse_hex_from
parse_hex_from-nil acc = refl

four_digits_sum :
    (n : ℕ)
    → n < 65536
    → (((0 * 16 + n / 4096 % 16) * 16 + n / 256 % 16) * 16 + n / 16 % 16) * 16 + n % 16 ≡ n
four_digits_sum n h = omega arith

pub parse_hex-four_digits : (n : ℕ) → n < 65536 → parse_hex (four_digits n) ≡ some n
unfolding parse_hex
parse_hex-four_digits n h =
    parse_hex_from-hex_digit 0 (n / 4096 % 16) _ (omega arith)
    ∙ parse_hex_from-hex_digit _ (n / 256 % 16) _ (omega arith)
    ∙ parse_hex_from-hex_digit _ (n / 16 % 16) _ (omega arith)
    ∙ parse_hex_from-hex_digit _ (n % 16) _ (omega arith)
    ∙ parse_hex_from-nil _
    ∙ ap some (four_digits_sum n h)

pub is_hex-four_digits : (n : ℕ) → is_hex (four_digits n) ≡ true
unfolding is_hex
is_hex-four_digits n = rw (
  is_hex_byte-hex_digit (n / 4096 % 16) (omega arith),
  is_hex_byte-hex_digit (n / 256 % 16) (omega arith),
  is_hex_byte-hex_digit (n / 16 % 16) (omega arith),
  is_hex_byte-hex_digit (n % 16) (omega arith),
)
