-- ===== src/Sia/Frame.antt =====
-- `parseFrame` and `validateFrame` of bridge/internal/sia/parser.go.
pub mod Checks
pub mod Status
pub mod Framing
pub mod Receiver
use ajax_bridge.Prelude.{
  ℕ, Bool, true, false, not, ◌&&◌, Option, none, some, [], ◌∷◌, ◌==◌, leb, if◌then◌else◌, Bytes,
  codes, is_empty, length, take, drop, eqb,
}
use ajax_bridge.Text.{has_prefix, to_upper, contains}
use ajax_bridge.Hex.{is_hex, parse_hex}
use ajax_bridge.Event.{ParseStatus, crc_invalid, length_invalid, format_invalid}
use ajax_bridge.Sia.Crc.{crc16}
use ajax_bridge.Sia.Header.{Groups, match_header}
use ajax_bridge.Sia.Errors.{
  SiaError, header_mismatch, missing_frame, invalid_length, length_mismatch, crc_mismatch,
  error_text,
}

pub record Frame : Type 0 where
  pub raw : Bytes
  pub crc : Bytes
  pub length_field : Bytes
  pub payload : Bytes
  pub token : Bytes
  pub encrypted : Bool
  pub sequence : Bytes
  pub receiver : Bytes
  pub line : Bytes
  pub account : Bytes

unfoldable pub fallback : Bytes → Bytes → Bytes
fallback value default = if is_empty value then default else value

-- `parseFrame` up to `frame.Payload = payload`: the CRC and the length, if the line has them.
unfoldable pub split_prefix : Bytes → Frame
split_prefix line =
    let start : Frame = record {
      raw = line;
      crc = [];
      length_field = [];
      payload = line;
      token = [];
      encrypted = false;
      sequence = [];
      receiver = [];
      line = [];
      account = [];
    } in
    if leb 8 (length line) && (is_hex (take 4 line) && is_hex (take 4 (drop 4 line)))
    then record start {
      crc = to_upper (take 4 line);
      length_field = to_upper (take 4 (drop 4 line));
      payload = drop 8 line;
    }
    else start

unfoldable pub fill_groups : Frame → Groups → Frame
unfolding fallback
fill_groups frame g = record frame {
  token = g.token;
  encrypted = has_prefix g.token (b'*' ∷ []);
  sequence = g.sequence;
  receiver = fallback g.receiver (codes "R0");
  line = fallback g.line (codes "L0");
  account = g.account;
}

-- The submatches of the header, if it has the expected shape. The frame comes back beside the
-- error too.
unfoldable pub match_frame : Frame → Option Groups → Frame × Option SiaError
match_frame frame none = (frame, some header_mismatch)
match_frame frame (some g) = (fill_groups frame g, none)

unfoldable pub parse_frame : Bytes → Frame × Option SiaError
parse_frame line = let frame = split_prefix line in match_frame frame (match_header frame.payload)

unfoldable pub check_length : Frame → Option SiaError
check_length frame =
    if is_empty frame.length_field then none else elim (parse_hex frame.length_field) [
      | none ↦ some (invalid_length frame.length_field)
      | some expected ↦
          if expected == length frame.payload
          then none
          else some (length_mismatch (length frame.payload) expected)
    ]

unfoldable pub check_crc : Frame → Bool → Option SiaError
check_crc frame strict =
    if strict && not (is_empty frame.crc)
    then (if eqb (crc16 frame.payload) frame.crc
        then none
        else some (crc_mismatch frame.crc (crc16 frame.payload)))
    else none

unfoldable pub validate_frame : Option Frame → Bool → Option SiaError
validate_frame none strict = some missing_frame
validate_frame (some frame) strict = elim (check_length frame) [
  | some e ↦ some e
  | none ↦ check_crc frame strict
]

-- The status that `Parse` gives an error of `validateFrame`: it looks for words in the text.
unfoldable pub validation_status : SiaError → ParseStatus
validation_status e =
    if contains (error_text e) (codes "length")
    then length_invalid
    else if contains (error_text e) (codes "CRC")
    then crc_invalid
    else format_invalid
