-- ===== src/Sia/Frame/Framing.antt =====
-- The envelope of a payload: `buildPlainResponse` of bridge/internal/sia/response.go writes it, and the
-- receiving side reads it back.
use mathlib.Core.Path.{subst}
use ajax_bridge.Prelude.{
  ℕ, ◌/◌, ◌%◌, ◌<◌, Bool, true, false, ◌||◌, none, some, [], ◌∷◌, ◌++◌, ◌==◌, leb, Bytes, length,
  eqb_iff, append_assoc, ◌≡◌, refl, sym, ap, ◌∙◌, arith,
}
use ajax_bridge.Text.{to_upper, upper_byte, trim, trim_space, is_space}
use ajax_bridge.Text.Trim.{trim-framed, trim-kept}
use ajax_bridge.Hex.{hex_digit, parse_hex, format_04x}
use ajax_bridge.Hex.RoundTrip.{
  four_digits, format_04x-four, parse_hex-four_digits, is_hex-four_digits,
}
use ajax_bridge.Sia.Crc.{crc_bytes, upper_hex16, crc16}
use ajax_bridge.Sia.Header.{Groups, match_header}
use ajax_bridge.Sia.Frame.{
  Frame, split_prefix, fill_groups, match_frame, parse_frame, check_length, check_crc,
  validate_frame,
}

abbrev pub is_line_end : ℕ → Bool
is_line_end c = c == 0 || c == b'\r' || c == b'\n'

-- The trimming at the start of `Parse`.
unfoldable pub line_of : Bytes → Bytes
line_of raw = trim_space (trim is_line_end raw)

-- "\n%s%04X%s\r"
unfoldable pub build_plain_response : Bytes → Bytes
build_plain_response payload =
    b'\n' ∷ (crc16 payload ++ (format_04x (length payload) ++ (payload ++ b'\r' ∷ [])))

pub crc16-four : (s : Bytes) → crc16 s ≡ four_digits (crc_bytes 0 s)
unfolding crc16 upper_hex16
crc16-four s = refl

upper_byte-hex_digit : (d : ℕ) → d < 16 → upper_byte (hex_digit d) ≡ hex_digit d
unfolding upper_byte hex_digit
upper_byte-hex_digit d h = ground arith

to_upper-four_digits : (n : ℕ) → to_upper (four_digits n) ≡ four_digits n
unfolding to_upper
to_upper-four_digits n = rw (
  upper_byte-hex_digit (n / 4096 % 16) (omega arith),
  upper_byte-hex_digit (n / 256 % 16) (omega arith),
  upper_byte-hex_digit (n / 16 % 16) (omega arith),
  upper_byte-hex_digit (n % 16) (omega arith),
)

-- A line with its CRC and its length in front.
abbrev pub enveloped : ℕ → ℕ → Bytes → Bytes
enveloped crc size payload = four_digits crc ++ (four_digits size ++ payload)

module _ (crc size : ℕ) (payload : Bytes) where
  pub split_prefix-enveloped : split_prefix (enveloped crc size payload) ≡ record {
    raw = enveloped crc size payload;
    crc = four_digits crc;
    length_field = four_digits size;
    payload = payload;
    token = [];
    encrypted = false;
    sequence = [];
    receiver = [];
    line = [];
    account = [];
  }
  unfolding split_prefix
  split_prefix-enveloped =
      let long : leb 8 (length (enveloped crc size payload)) ≡ true = ground arith in
      rw (
        long,
        is_hex-four_digits crc,
        is_hex-four_digits size,
        to_upper-four_digits crc,
        to_upper-four_digits size,
      )

pub parse_frame-matched :
    (text : Bytes) {frame : Frame} {g : Groups}
    → split_prefix text ≡ frame
    → match_header frame.payload ≡ some g
    → parse_frame text ≡ (fill_groups frame g, none)
unfolding parse_frame match_frame
parse_frame-matched text {frame} e m =
    ap (λ (f : Frame). match_frame f (match_header f.payload)) e ∙ ap (match_frame frame) m

-- A frame whose fields are those that an envelope of its payload has.
pub record IsEnveloped (frame : Frame) : Type 0 where
  pub crc_is : frame.crc ≡ crc16 frame.payload
  pub length_is : frame.length_field ≡ four_digits (length frame.payload)
  pub bounded : length frame.payload < 65536

check_length-enveloped : (frame : Frame) → IsEnveloped frame → check_length frame ≡ none
unfolding check_length
check_length-enveloped frame h =
    let parsed : parse_hex frame.length_field ≡ some (length frame.payload) =
      ap parse_hex h.length_is ∙ parse_hex-four_digits (length frame.payload) h.bounded in
    ground (arith, parsed)

check_crc-enveloped :
    (frame : Frame) (strict : Bool) → IsEnveloped frame → check_crc frame strict ≡ none
unfolding check_crc
check_crc-enveloped frame strict h =
    ground (arith, (eqb_iff (crc16 frame.payload) frame.crc).1 (sym h.crc_is))

pub validate_frame-enveloped :
    (frame : Frame) (strict : Bool) → IsEnveloped frame → validate_frame (some frame) strict ≡ none
unfolding validate_frame
validate_frame-enveloped frame strict h =
    rw (check_length-enveloped frame h, validate_frame) (check_crc-enveloped frame strict h)

hex_digit_kept :
    (d : ℕ) → d < 16 → (is_space (hex_digit d) ≡ false) × (is_line_end (hex_digit d) ≡ false)
unfolding hex_digit
hex_digit_kept d h = ground arith

-- A last byte that trimming keeps.
abbrev pub IsLast : ℕ → Type 0
IsLast d = (is_space d ≡ false) × (is_line_end d ≡ false)

-- The line, but for its first byte and its last.
abbrev middle : ℕ → ℕ → Bytes → Bytes
middle n size body =
    hex_digit (n / 256 % 16)
    ∷ hex_digit (n / 16 % 16)
    ∷ hex_digit (n % 16)
    ∷ (four_digits size ++ body)

module _ (body : Bytes) (d : ℕ) (h : length (body ++ d ∷ []) < 65536) (l : IsLast d) where
  abbrev crc_value : ℕ
  crc_value = crc_bytes 0 (body ++ d ∷ [])

  abbrev size : ℕ
  size = length (body ++ d ∷ [])

  build_plain_response-bytes :
      build_plain_response (body ++ d ∷ [])
      ≡ b'\n' ∷ hex_digit (crc_value / 4096 % 16) ∷ (middle crc_value size body ++ d ∷ b'\r' ∷ [])
  unfolding build_plain_response
  build_plain_response-bytes =
      rw (
        format_04x-four size h,
        crc16-four (body ++ d ∷ []),
        append_assoc body (d ∷ []) (b'\r' ∷ []),
      )

  -- What is left of an answer after the trimming of `Parse`.
  line_of-build_plain_response :
      line_of (build_plain_response (body ++ d ∷ [])) ≡ enveloped crc_value size (body ++ d ∷ [])
  unfolding line_of trim_space
  line_of-build_plain_response =
      let top = hex_digit (crc_value / 4096 % 16) in
      let (not_space, not_end) = hex_digit_kept (crc_value / 4096 % 16) (omega arith) in
      let inner = middle crc_value size body in
      ap line_of build_plain_response-bytes
      ∙ ap trim_space (trim-framed is_line_end b'\n' top inner d b'\r' refl refl not_end l.1)
      ∙ trim-kept is_space top inner d not_space l.0

pub line_of-answer :
    (payload body : Bytes) (d : ℕ)
    → payload ≡ body ++ d ∷ []
    → length payload < 65536
    → IsLast d
    → line_of (build_plain_response payload)
      ≡ enveloped (crc_bytes 0 payload) (length payload) payload
line_of-answer payload body d e h l =
    subst
      (λ (p : Bytes).
        length p < 65536
        → line_of (build_plain_response p) ≡ enveloped (crc_bytes 0 p) (length p) p)
      (sym e) (λ bound. line_of-build_plain_response body d bound l) h
