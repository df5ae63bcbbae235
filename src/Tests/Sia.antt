-- ===== src/Tests/Sia.antt =====
-- bridge/internal/sia at concrete inputs: the fixtures are of the kind of bridge/internal/sia/parser_test.go.
use ajax_bridge.Prelude.{
  eqb, ℕ, ◌<◌, true, false, none, some, [], ◌∷◌, ◌++◌, Bytes, codes, length, ◌≡◌, ◌≢◌, ◌⊎◌, refl,
  inr, arith,
}
use ajax_bridge.Text.{has_prefix, upper_byte, cut, to_upper, trim, trim_space}
use ajax_bridge.Time.{date}
use ajax_bridge.Event.{
  alarm, unset, crc_invalid, length_invalid, received as event_received, ok, Normalized,
}
use ajax_bridge.Sia.Crc.{crc_turn, crc_turns, upper_hex16, crc_bytes, crc16}
use ajax_bridge.Word.{xor}
use ajax_bridge.Hex.{hex_digit, hex_value, parse_hex, parse_hex_from, is_hex, is_hex_byte}
use ajax_bridge.Sia.Crc.Standard.{standard_crc, crc_bytes-eq-standard_crc}
use ajax_bridge.Sia.Errors.{Result, crc_mismatch}
use ajax_bridge.Sia.Header.{
  byte, some_of, many, match_sequence, exactly, match_path, optional_group, match_account,
  match_header,
}
use ajax_bridge.Sia.Header.Captures.{received, IsHeader, header_text, match_header-run}
use ajax_bridge.Sia.Frame.{
  match_frame, split_prefix, fill_groups, check_crc, fallback, Frame, parse_frame, check_length,
  validate_frame, validation_status,
}
use ajax_bridge.Sia.Frame.Status.{validate_frame-status}
use ajax_bridge.Sia.Frame.Receiver.{line_swallowed}
use ajax_bridge.Sia.Frame.Framing.{line_of, build_plain_response}
use ajax_bridge.Sia.Crypto.{BlockCipher, is_aes_key_size, encrypt_sia_content, decrypt_sia_content}
use ajax_bridge.Sia.Crypto.RoundTrip.{IsContent, decrypt-encrypt_sia_content}
use ajax_bridge.Sia.Content.{
  with_trailer, rebuild_raw_payload, parse_content, only_digits, contact_id_qualifier,
  parse_contact_id,
}
use ajax_bridge.Sia.Content.Xdata.{IsTrailer, parse_xdata_trailer_complete}
use ajax_bridge.Sia.Content.Codes.{IsParsed, parse_content-IsParsed}
use ajax_bridge.Sia.Catalog.{enrich_event, lookup_code, cid_catalog}
use ajax_bridge.Sia.Catalog.Classes.{enrich_event-class, unlisted_contact-class}
use ajax_bridge.Sia.Timestamp.{Civil}
use ajax_bridge.Sia.Parser.Occurred.{parse-occurred_at}
use ajax_bridge.Sia.Parser.{Parser, parse}
use ajax_bridge.Sia.Parser.Status.{Outcome, parse-Outcome}
use ajax_bridge.Sia.Response.{ack, plain_payload, response_text}
use ajax_bridge.Sia.Response.Answers.{IsReceived, answered, answer-accepted}

-- A block cipher for the examples: the one that changes nothing.
abbrev pub plain_cipher : BlockCipher
plain_cipher = record {
  encrypt_block = λ key s. s;
  decrypt_block = λ key s. s;
  encrypt-IsBlock = λ key s h. h;
  decrypt-encrypt = λ key s h. refl;
}

abbrev any_parser : Parser
any_parser = record { account = []; strict_crc = false; aes_key = none }

abbrev pub alarm_line : Bytes
alarm_line = codes "\"SIA-DCS\"0001R0L0#0001[#0001|Nri0/BA001]_12:00:00,04-19-2026"

abbrev noon : ℕ
noon = date 2026 4 19 12 0 0

-- The check value of CRC-16/ARC.
crc16-check : crc16 (codes "123456789") ≡ codes "BB3D"
unfolding crc16 upper_hex16 hex_digit crc_bytes crc_turns crc_turn xor
crc16-check = refl

crc_example : crc_bytes 0 (codes "123456789") ≡ standard_crc 0 (codes "123456789")
crc_example = crc_bytes-eq-standard_crc (codes "123456789") 0 (omega arith) (ground arith)

alarm_line-ne_nil : line_of alarm_line ≢ []
unfolding line_of trim_space trim
alarm_line-ne_nil = λ e. cc e

parse-Outcome_example : Outcome any_parser (parse plain_cipher any_parser noon alarm_line)
parse-Outcome_example = parse-Outcome plain_cipher any_parser noon alarm_line alarm_line-ne_nil

hex_0001 : is_hex (codes "0001") ≡ true
unfolding is_hex is_hex_byte
hex_0001 = refl

abbrev header_rest : Bytes
header_rest = codes "[#0001|Nri0/BA001]"

pub IsHeader-parts : IsHeader (codes "SIA-DCS") (codes "0001") (codes "0001") header_rest
IsHeader-parts = record {
  token_ne_nil = λ e. cc e;
  token_unquoted = refl;
  sequence_length = refl;
  sequence_hex = hex_0001;
  account_ne_nil = λ e. cc e;
  account_unbracketed = refl;
  account_ends = refl;
}

match_header-run_example :
    match_header
      (header_text (codes "SIA-DCS") (codes "0001") (codes "RAL0") (codes "0001") header_rest)
    ≡ some (record {
      token = codes "SIA-DCS";
      sequence = codes "0001";
      receiver = codes "RAL0";
      line = [];
      account = codes "0001";
    })
match_header-run_example =
    match_header-run (codes "SIA-DCS") (codes "0001") (codes "0001") header_rest IsHeader-parts
      (received (codes "AL0") (λ e. cc e) refl)

line_swallowed_example :
    let frame =
      (parse_frame (
        header_text
          (codes "SIA-DCS")
          (codes "0001")
          (codes "RAL7")
          (codes "0001")
          header_rest)).0 in
    (frame.receiver ≡ codes "RAL7") × (frame.line ≡ codes "L0")
line_swallowed_example =
    line_swallowed (codes "SIA-DCS") (codes "0001") (codes "0001") header_rest IsHeader-parts
      (codes "A") (codes "7") (λ e. cc e) refl refl

-- The CRC of the line is not that of its payload.
abbrev bad_line : Bytes
bad_line = codes "00000028\"SIA-DCS\"0001R0L0#0001[#0001|Nri0/BA001]"

bad_line-refused :
    validate_frame (some (parse_frame bad_line).0) true
    ≡ some (crc_mismatch (codes "0000") (codes "43A4"))
unfolding validate_frame check_length parse_frame match_frame match_header byte split_prefix is_hex
    is_hex_byte some_of many match_sequence exactly match_path optional_group match_account
    fill_groups hex_digit hex_value parse_hex parse_hex_from eqb crc16 crc_bytes crc_turn crc_turns
    upper_hex16 check_crc fallback has_prefix to_upper upper_byte xor
bad_line-refused = refl

validate_frame-status_example :
    ((validation_status (crc_mismatch (codes "0000") (codes "43A4")) ≡ length_invalid)
      × (check_length (parse_frame bad_line).0 ≡ some (crc_mismatch (codes "0000") (codes "43A4"))))
    ⊎ ((validation_status (crc_mismatch (codes "0000") (codes "43A4")) ≡ crc_invalid)
        × (check_length (parse_frame bad_line).0 ≡ none)
        × (true ≡ true)
        × (crc16 (parse_frame bad_line).0.payload ≢ (parse_frame bad_line).0.crc))
validate_frame-status_example = validate_frame-status bad_line true bad_line-refused

abbrev key_16 : Bytes
key_16 = codes "0123456789abcdef"

abbrev stamp : Bytes
stamp = codes "]_12:00:00,04-19-2026"

stamp-IsContent : IsContent b']' (codes "_12:00:00,04-19-202") b'6'
unfolding cut
stamp-IsContent = record {
  first_kept = refl;
  first_not_nul = refl;
  last_not_nul = refl;
  no_account = inr refl;
}

decrypt-encrypt_example :
    (encrypted : Bytes) × (encrypt_sia_content plain_cipher key_16 stamp ≡ Result.ok encrypted)
    × (decrypt_sia_content plain_cipher key_16 encrypted ≡ Result.ok stamp)
unfolding is_aes_key_size
decrypt-encrypt_example =
    decrypt-encrypt_sia_content plain_cipher key_16 b']' (codes "_12:00:00,04-19-202") b'6' refl
      (ground arith) stamp-IsContent

xdata_example :
    (rebuild_raw_payload
        (with_trailer (codes "|Nri0/BA001") (codes "[V123][W9]_12:00:00,04-19-2026"))
      ≡ codes "|Nri0/BA001" ++ codes "[V123][W9]_12:00:00,04-19-2026")
    × IsTrailer
        (with_trailer (codes "|Nri0/BA001") (codes "[V123][W9]_12:00:00,04-19-2026")).trailer
xdata_example =
    parse_xdata_trailer_complete (codes "|Nri0/BA001") (codes "[V123][W9]_12:00:00,04-19-2026")

abbrev new_event : Normalized
new_event = event_received noon alarm_line

parse_content_example : IsParsed (parse_content new_event (codes "#0001|Nri0/BA001"))
parse_content_example = parse_content-IsParsed new_event (codes "#0001|Nri0/BA001") refl

enrich_example : (enrich_event (record new_event { event_code = codes "QQ" })).event_class ≢ unset
enrich_example = enrich_event-class (record new_event { event_code = codes "QQ" })

-- The restore of an event with the code 199, which is in no table, is classified as an alarm.
unlisted_digits : only_digits (codes "3199 01 003") ≡ codes "319901003"
unfolding only_digits
unlisted_digits = refl

unlisted_code :
    lookup_code (to_upper (contact_id_qualifier (b'3' ∷ []) ++ codes "199")) cid_catalog ≡ none
unfolding lookup_code to_upper contact_id_qualifier cid_catalog eqb
unlisted_code = refl

unlisted_example :
    (enrich_event (parse_contact_id new_event (codes "3199 01 003"))).event_class ≡ alarm
unlisted_example =
    unlisted_contact-class new_event (codes "3199 01 003") b'3' b'1' b'9' b'9' (codes "01003")
      unlisted_digits (omega arith) unlisted_code

abbrev pub noon_civil : Civil
noon_civil = record { year = 2026; month = 4; day = 19; hour = 12; minute = 0; sec = 0 }

occurred_example : (parse plain_cipher any_parser noon alarm_line).event.occurred_at ≡ noon
occurred_example = parse-occurred_at plain_cipher any_parser noon alarm_line

abbrev one_frame : Frame
one_frame = record {
  raw = [];
  crc = [];
  length_field = [];
  payload = [];
  token = codes "SIA-DCS";
  encrypted = false;
  sequence = codes "0001";
  receiver = codes "RA";
  line = codes "L0";
  account = codes "0001";
}

one_frame-IsReceived : IsReceived one_frame (codes "A") (codes "0")
one_frame-IsReceived = record {
  sequence_length = refl;
  sequence_hex = hex_0001;
  receiver_is = refl;
  receiver_ne_nil = λ e. cc e;
  receiver_alnum = refl;
  line_is = refl;
  line_alnum = refl;
  account_ne_nil = λ e. cc e;
  account_unbracketed = refl;
}

one_frame-short : length (plain_payload ack one_frame) < 65536
unfolding plain_payload response_text
one_frame-short = omega arith

answer-accepted_example :
    (parse_frame (line_of (build_plain_response (plain_payload ack one_frame)))
      ≡ (answered ack one_frame (codes "A") (codes "0") one_frame-IsReceived, none))
    × (validate_frame
          (some (answered ack one_frame (codes "A") (codes "0") one_frame-IsReceived))
          true
        ≡ none)
answer-accepted_example =
    answer-accepted ack one_frame (codes "A") (codes "0") one_frame-IsReceived one_frame-short
