-- ===== src/Sia/Frame/Status.antt =====
-- Which test of `validateFrame` a status stands for, on the frames that `parseFrame` reads.
use ajax_bridge.Prelude.{
  Bool, true, ◌&&◌, Option, none, some, [], ◌∷◌, Bytes, eqb_iff, leb, length, take, drop, ◌≡◌, ◌≢◌,
  ◌⊎◌, inl, inr, refl, ap, ◌∙◌, arith, Bool-cases, Option-cases, and-eq_true,
}
use ajax_bridge.Event.{crc_invalid, length_invalid}
use ajax_bridge.Text.{to_upper, upper_byte}
use ajax_bridge.Hex.{is_hex_byte, is_hex}
use ajax_bridge.Sia.Crc.{crc16}
use ajax_bridge.Sia.Header.{Groups, match_header}
use ajax_bridge.Sia.Errors.{SiaError}
use ajax_bridge.Sia.Frame.{
  split_prefix, fill_groups, Frame, match_frame, parse_frame, check_length, check_crc,
  validate_frame, validation_status,
}
use ajax_bridge.Sia.Frame.Checks.{check_length-status, check_crc-status}

to_upper-is_hex : (s : Bytes) → is_hex s ≡ true → is_hex (to_upper s) ≡ true
unfolding to_upper is_hex is_hex_byte upper_byte
to_upper-is_hex [] h = refl
to_upper-is_hex (c ∷ s) h = ground (arith, to_upper-is_hex s)

split_prefix-is_hex : (line : Bytes) → is_hex (split_prefix line).crc ≡ true
unfolding split_prefix
split_prefix-is_hex line =
    elim (Bool-cases
      (leb 8 (length line) && (is_hex (take 4 line) && is_hex (take 4 (drop 4 line))))) [
        | inl prefixed ↦
            let (long, hex) = and-eq_true (leb 8 (length line)) _ prefixed in
            let (first, second) = and-eq_true (is_hex (take 4 line)) _ hex in
            rw prefixed (to_upper-is_hex (take 4 line) first)
        | inr plain_line ↦ rw plain_line (unfold is_hex in refl)
      ]

match_frame-crc : (frame : Frame) (o : Option Groups) → (match_frame frame o).0.crc ≡ frame.crc
unfolding match_frame fill_groups
match_frame-crc frame none = refl
match_frame-crc frame (some g) = refl

parse_frame-is_hex : (line : Bytes) → is_hex (parse_frame line).0.crc ≡ true
unfolding parse_frame
parse_frame-is_hex line =
    ap is_hex (match_frame-crc (split_prefix line) (match_header (split_prefix line).payload))
    ∙ split_prefix-is_hex line

check_crc-fails :
    (frame : Frame) (strict : Bool) {e : SiaError}
    → check_crc frame strict ≡ some e
    → (strict ≡ true) × (crc16 frame.payload ≢ frame.crc)
unfolding check_crc
check_crc-fails frame strict h = (
  ground arith,
  λ same. absurd (ground (arith, (eqb_iff (crc16 frame.payload) frame.crc).1 same)),
)

-- The status that `Parse` reads off the text of a validation error names the test that failed, for
-- every line that was read as a frame: `length_invalid` where the declared length is not that of
-- the payload, `crc_invalid` where the length is right, the CRC is tested and it differs.
pub validate_frame-status :
    (line : Bytes) (strict : Bool) {e : SiaError}
    → validate_frame (some (parse_frame line).0) strict ≡ some e
    → ((validation_status e ≡ length_invalid) × (check_length (parse_frame line).0 ≡ some e))
      ⊎ ((validation_status e ≡ crc_invalid)
          × (check_length (parse_frame line).0 ≡ none)
          × (strict ≡ true)
          × (crc16 (parse_frame line).0.payload ≢ (parse_frame line).0.crc))
unfolding validate_frame
validate_frame-status line strict {e} h =
    let frame = (parse_frame line).0 in
    elim (Option-cases (check_length frame)) [
      | inr (x, l) ↦
          let same : x ≡ e = ground (arith, l) in
          inl (check_length-status frame (l ∙ ap some same), l ∙ ap some same)
      | inl l ↦
          let c : check_crc frame strict ≡ some e = rw (l, validate_frame) at h in
          let (tested, differs) = check_crc-fails frame strict c in
          inr (check_crc-status frame strict (parse_frame-is_hex line) c, l, tested, differs)
    ]
