-- ===== src/Format.antt =====
-- The verbs of Go's `fmt` that the sources use, on ASCII text.
use ajax_bridge.Prelude.{
  ℕ, zero, suc, ◌+◌, ◌/◌, ◌%◌, ◌&&◌, [], ◌∷◌, ◌++◌, leb, ltb, ◌==◌, if◌then◌else◌, Bytes,
}
use ajax_bridge.Hex.{hex_digit}
use ajax_bridge.Text.{to_lower}

-- The decimal digits of a number, as many as the fuel allows.
unfoldable pub decimal_digits : ℕ → ℕ → Bytes
decimal_digits zero n = []
decimal_digits (suc fuel) n =
    let more = decimal_digits fuel (n / 10) in
    (if ltb n 10 then [] else more) ++ (b'0' + n % 10) ∷ []

-- `%d` of a number that is not negative and below 2 ^ 63, which has at most 19 digits
unfoldable pub decimal : ℕ → Bytes
decimal = decimal_digits 19

unfoldable pub quote_byte : ℕ → Bytes
quote_byte c =
    if c == b'"'
    then b'\\' ∷ b'"' ∷ []
    else if c == b'\\'
    then b'\\' ∷ b'\\' ∷ []
    else if leb 32 c && leb c 126
    then c ∷ []
    else if c == 7
    then b'\\' ∷ b'a' ∷ []
    else if c == 8
    then b'\\' ∷ b'b' ∷ []
    else if c == 9
    then b'\\' ∷ b't' ∷ []
    else if c == 10
    then b'\\' ∷ b'n' ∷ []
    else if c == 11
    then b'\\' ∷ b'v' ∷ []
    else if c == 12
    then b'\\' ∷ b'f' ∷ []
    else if c == 13
    then b'\\' ∷ b'r' ∷ []
    else b'\\' ∷ b'x' ∷ to_lower (hex_digit (c / 16) ∷ hex_digit (c % 16) ∷ [])

unfoldable pub quote_bytes : Bytes → Bytes
quote_bytes [] = []
quote_bytes (c ∷ s) = quote_byte c ++ quote_bytes s

-- `%q`
unfoldable pub quote : Bytes → Bytes
quote s = b'"' ∷ (quote_bytes s ++ b'"' ∷ [])
