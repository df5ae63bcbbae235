-- ===== src/Sia/Errors.antt =====
-- The errors of bridge/internal/sia, by the call that makes them, with the texts that the code looks into.
use ajax_bridge.Prelude.{
  ℕ, ◌&&◌, Option, none, some, [], ◌∷◌, ◌++◌, leb, if◌then◌else◌, Bytes, codes,
}
use ajax_bridge.Event.{ParseStatus, format_invalid}
use ajax_bridge.Format.{decimal, quote}
use ajax_bridge.Hex.{format_04x}

pub data SiaError : Type 0 where
  -- parser.go
  empty_frame header_mismatch missing_frame : SiaError
  invalid_length : Bytes → SiaError
  length_mismatch : ℕ → ℕ → SiaError
  crc_mismatch : Bytes → Bytes → SiaError
  no_opening_bracket no_key no_closing_bracket : SiaError
  unexpected_account : Bytes → Bytes → SiaError
  -- crypto.go
  bad_aes_key : SiaError
  invalid_hex_byte : ℕ → SiaError
  odd_hex_length : SiaError
  not_block_multiple : ℕ → SiaError
  bad_key_size : ℕ → SiaError

-- err.Error()
unfoldable pub error_text : SiaError → Bytes
error_text empty_frame = codes "empty SIA frame"
error_text header_mismatch = codes "SIA payload header did not match expected DC-09 shape"
error_text missing_frame = codes "missing frame"
error_text (invalid_length s) =
    codes "invalid frame length "
    ++ (quote s ++ (codes ": strconv.ParseInt: parsing " ++ (quote s ++ codes ": invalid syntax")))
error_text (length_mismatch got expected) =
    codes "frame length mismatch: got "
    ++ (decimal got ++ (codes ", expected " ++ decimal expected))
error_text (crc_mismatch got calculated) =
    codes "CRC mismatch: got " ++ (got ++ (codes ", calculated " ++ calculated))
error_text no_opening_bracket = codes "payload has no data opening bracket"
error_text no_key = codes "encrypted payload received but no AES key is configured"
error_text no_closing_bracket = codes "payload has no data closing bracket"
error_text (unexpected_account got expected) =
    codes "unexpected account " ++ (quote got ++ (codes ", expected " ++ quote expected))
error_text bad_aes_key = codes "AES key must be 16, 24, or 32 bytes, or 32/48/64 hex characters"
error_text (invalid_hex_byte c) =
    codes "decode encrypted payload: encoding/hex: invalid byte: U+"
    ++ (format_04x c ++ (if leb 32 c && leb c 126 then 32 ∷ b'\'' ∷ c ∷ b'\'' ∷ [] else []))
error_text odd_hex_length = codes "decode encrypted payload: encoding/hex: odd length hex string"
error_text (not_block_multiple n) =
    codes "encrypted payload length " ++ (decimal n ++ codes " is not an AES block multiple")
error_text (bad_key_size n) = codes "crypto/aes: invalid key size " ++ decimal n

-- What `Parse` returns as its error: a plain error, or a `typedParseError` with its status.
pub data ParseError : Type 0 where
  plain : SiaError → ParseError
  typed : ParseStatus → SiaError → ParseError

unfoldable pub parse_status_from_error : Option ParseError → ParseStatus
parse_status_from_error none = ParseStatus.ok
parse_status_from_error (some (typed status e)) = status
parse_status_from_error (some (plain e)) = format_invalid

-- A result or an error, for the functions that return one of the two.
pub data Result {ℓ} (A : Type ℓ) : Type ℓ where
  ok : A → Result A
  err : SiaError → Result A

infixl 5 ◌>>=◌
abbrev pub ◌>>=◌ {ℓ κ} : {A : Type ℓ} {B : Type κ} → Result A → (A → Result B) → Result B
ok a >>= f = f a
err e >>= f = err e
