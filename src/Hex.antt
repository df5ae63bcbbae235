-- ===== src/Hex.antt =====
-- Hexadecimal text: the digits of Go's `fmt` verbs and of encoding/hex, and its parsing by strconv.
pub mod RoundTrip
use ajax_bridge.Prelude.{
  ℕ, zero, suc, ◌+◌, ◌-◌, ◌*◌, ◌/◌, ◌%◌, Bool, true, false, ◌||◌, ◌&&◌, Option, none, some, [], ◌∷◌,
  ◌++◌, ltb, leb, if◌then◌else◌, Bytes, all,
}
use ajax_bridge.Text.{is_digit}

-- A digit below 16, in upper case.
unfoldable pub hex_digit : ℕ → ℕ
hex_digit d = if ltb d 10 then b'0' + d else b'A' + (d - 10)

-- '0'..'9', 'a'..'f' or 'A'..'F'
unfoldable pub is_hex_byte : ℕ → Bool
is_hex_byte c = is_digit c || (leb b'a' c && leb c b'f') || (leb b'A' c && leb c b'F')

unfoldable pub is_hex : Bytes → Bool
is_hex = all is_hex_byte

-- The value of a hexadecimal digit.
unfoldable pub hex_value : ℕ → Option ℕ
hex_value c =
    if is_digit c
    then some (c - b'0')
    else if leb b'a' c && leb c b'f'
    then some (c - b'a' + 10)
    else if leb b'A' c && leb c b'F'
    then some (c - b'A' + 10)
    else none

abbrev pub push_digit : ℕ → Option ℕ → Option ℕ
push_digit acc none = none
push_digit acc (some d) = some (acc * 16 + d)

-- The digits of a text on top of the number read so far.
unfoldable pub parse_hex_from : Option ℕ → Bytes → Option ℕ
parse_hex_from none s = none
parse_hex_from (some acc) [] = some acc
parse_hex_from (some acc) (c ∷ s) = parse_hex_from (push_digit acc (hex_value c)) s

-- strconv.ParseInt(s, 16, 32) on a text of at most seven digits and no sign; `none` is its error.
unfoldable pub parse_hex : Bytes → Option ℕ
parse_hex [] = none
parse_hex (c ∷ s) = parse_hex_from (some 0) (c ∷ s)

-- The digits of a number, at least `width` of them, and as many as `fuel` allows.
unfoldable pub hex_digits : ℕ → ℕ → ℕ → Bytes
hex_digits zero width n = []
hex_digits (suc fuel) zero n = elim n [
  | zero ↦ []
  | suc m ↦ hex_digits fuel zero (suc m / 16) ++ hex_digit (suc m % 16) ∷ []
]
hex_digits (suc fuel) (suc width) n = hex_digits fuel width (n / 16) ++ hex_digit (n % 16) ∷ []

-- fmt's `%04X`, on numbers below 16 ^ 16
unfoldable pub format_04x : ℕ → Bytes
unfolding hex_digits
format_04x = hex_digits 16 4

-- hex.EncodeToString under strings.ToUpper
unfoldable pub encode_upper : Bytes → Bytes
encode_upper [] = []
encode_upper (b ∷ bs) = hex_digit (b / 16) ∷ hex_digit (b % 16) ∷ encode_upper bs

-- What hex.DecodeString returns: the bytes, or its error for a byte that is no digit or for a text
-- of odd length.
pub data Decoded : Type 0 where
  decoded : Bytes → Decoded
  invalid_byte : ℕ → Decoded
  odd_length : Decoded

abbrev push_byte : ℕ → Decoded → Decoded
push_byte b (decoded bs) = decoded (b ∷ bs)
push_byte b failure = failure

abbrev pub push_pair : Option ℕ → Option ℕ → ℕ → ℕ → Decoded → Decoded
push_pair none low c d rest = invalid_byte c
push_pair (some h) none c d rest = invalid_byte d
push_pair (some h) (some l) c d rest = push_byte (h * 16 + l) rest

-- A single byte at the end is tested before the length is.
unfoldable pub decode : Bytes → Decoded
decode [] = decoded []
decode (c ∷ []) = elim (hex_value c) [ none ↦ invalid_byte c | some h ↦ odd_length ]
decode (c ∷ d ∷ s) = push_pair (hex_value c) (hex_value d) c d (decode s)
