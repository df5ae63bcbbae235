-- ===== src/Sia/Frame/Checks.antt =====
-- Which errors `validateFrame` gives, and the statuses that `Parse` reads off their texts.
use ajax_bridge.Prelude.{
  ℕ, Bool, true, false, not, some, [], ◌∷◌, ◌++◌, ◌==◌, Bytes, codes, all, all-append, ◌≡◌, refl,
  arith, Bool-cases, inl, inr, zero, suc, ◌+◌, ◌/◌, ◌%◌, ◌≤◌, ltb,
}
use ajax_bridge.Text.{has_prefix, contains}
use ajax_bridge.Hex.{is_hex, is_hex_byte}
use ajax_bridge.Hex.RoundTrip.{is_hex-four_digits}
use ajax_bridge.Format.{decimal_digits}
use ajax_bridge.Event.{crc_invalid, length_invalid}
use ajax_bridge.Sia.Crc.{crc_bytes, upper_hex16, crc16}
use ajax_bridge.Sia.Errors.{SiaError, invalid_length, length_mismatch, crc_mismatch, error_text}
use ajax_bridge.Sia.Frame.{Frame, check_length, check_crc, validation_status}

abbrev differs : ℕ → ℕ → Bool
differs x c = not (c == x)

-- A text without the byte `x` has no prefix with it.
has_prefix-absent :
    (x : ℕ) (s before after : Bytes)
    → all (differs x) s ≡ true
    → has_prefix s (before ++ (x ∷ after)) ≡ false
unfolding has_prefix
has_prefix-absent x [] [] after h = refl
has_prefix-absent x [] (b ∷ before) after h = refl
has_prefix-absent x (c ∷ s) [] after h = ground arith
has_prefix-absent x (c ∷ s) (b ∷ before) after h =
    ground (arith, has_prefix-absent x s before after)

pub contains-absent :
    (x : ℕ) (s before after : Bytes)
    → all (differs x) s ≡ true
    → contains s (before ++ (x ∷ after)) ≡ false
unfolding contains
contains-absent x [] before after h = has_prefix-absent x [] before after h
contains-absent x (c ∷ s) before after h =
    ground (arith, has_prefix-absent x (c ∷ s) before after h, contains-absent x s before after)

decimal_digits-absent : (x fuel n : ℕ) → 58 ≤ x → all (differs x) (decimal_digits fuel n) ≡ true
unfolding decimal_digits
decimal_digits-absent x zero n h = refl
decimal_digits-absent x (suc fuel) n h = elim (Bool-cases (ltb n 10)) [
  | inl small ↦ rw small (ground arith)
  | inr large ↦ rw large (
      all-append (differs x) (decimal_digits fuel (n / 10)) ((b'0' + n % 10) ∷ [])
        (decimal_digits-absent x fuel (n / 10) h) (ground arith))
]

is_hex-absent : (s : Bytes) → is_hex s ≡ true → all (differs b'n') s ≡ true
unfolding is_hex is_hex_byte
is_hex-absent [] h = refl
is_hex-absent (c ∷ s) h = ground (arith, is_hex-absent s)

invalid_length-status : (s : Bytes) → validation_status (invalid_length s) ≡ length_invalid
unfolding validation_status contains has_prefix error_text
invalid_length-status s = refl

length_mismatch-status : (m n : ℕ) → validation_status (length_mismatch m n) ≡ length_invalid
unfolding validation_status contains has_prefix error_text
length_mismatch-status m n = refl

-- The text of a length error holds the word that `Parse` looks for.
pub check_length-status :
    (frame : Frame) {e : SiaError}
    → check_length frame ≡ some e
    → validation_status e ≡ length_invalid
unfolding check_length
check_length-status frame h = grind (arith, invalid_length-status, length_mismatch-status)

crc_mismatch-absent :
    (got calculated : Bytes)
    → is_hex got ≡ true
    → is_hex calculated ≡ true
    → all (differs b'n') (error_text (crc_mismatch got calculated)) ≡ true
unfolding error_text
crc_mismatch-absent got calculated h k =
    all-append (differs b'n') got (codes ", calculated " ++ calculated) (is_hex-absent got h)
      (is_hex-absent calculated k)

crc_mismatch-present :
    (got calculated : Bytes)
    → contains (error_text (crc_mismatch got calculated)) (codes "CRC") ≡ true
unfolding contains has_prefix error_text
crc_mismatch-present got calculated = refl

-- The text of a CRC error holds "CRC", and "length" cannot stand in it: its two values are
-- hexadecimal.
crc_mismatch-status :
    (got calculated : Bytes)
    → is_hex got ≡ true
    → is_hex calculated ≡ true
    → validation_status (crc_mismatch got calculated) ≡ crc_invalid
unfolding validation_status
crc_mismatch-status got calculated h k = rw (
  contains-absent b'n' (error_text (crc_mismatch got calculated)) (codes "le") (codes "gth")
      (crc_mismatch-absent got calculated h k),
  crc_mismatch-present got calculated,
)

crc16-is_hex : (s : Bytes) → is_hex (crc16 s) ≡ true
unfolding crc16 upper_hex16
crc16-is_hex s = is_hex-four_digits (crc_bytes 0 s)

pub check_crc-status :
    (frame : Frame) (strict : Bool) {e : SiaError}
    → is_hex frame.crc ≡ true
    → check_crc frame strict ≡ some e
    → validation_status e ≡ crc_invalid
unfolding check_crc
check_crc-status frame strict h c =
    ground
      (arith, crc_mismatch-status frame.crc (crc16 frame.payload) h (crc16-is_hex frame.payload))
