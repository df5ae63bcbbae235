-- ===== src/Sia/Parser.antt =====
-- `Parser` and `Parse` of bridge/internal/sia/parser.go. The wall clock is an argument.
pub mod Status
pub mod Occurred
use ajax_bridge.Prelude.{
  ℕ, Bool, true, false, not, ◌&&◌, ◌||◌, Option, none, some, [], ◌∷◌, ◌++◌, ◌==◌, if◌then◌else◌,
  Bytes, is_empty, eqb,
}
use ajax_bridge.Text.{trim, trim_space}
use ajax_bridge.Time.{Time}
use ajax_bridge.Event.{
  ParseStatus, format_invalid, account_invalid, decrypt_invalid, Normalized, received,
}
use ajax_bridge.Sia.Errors.{
  SiaError, empty_frame, unexpected_account, error_text, ParseError, plain, typed, Result, ok, err,
  ◌>>=◌,
}
use ajax_bridge.Sia.Frame.{Frame, parse_frame, validate_frame, validation_status}
use ajax_bridge.Sia.Frame.Framing.{line_of}
use ajax_bridge.Sia.Crypto.{BlockCipher, decode_aes_key}
use ajax_bridge.Sia.Content.{Content, extract_content, rebuild_raw_payload, parse_content}
use ajax_bridge.Sia.Timestamp.{parse_timestamp}
use ajax_bridge.Sia.Catalog.{enrich_event}

pub record Parser : Type 0 where
  pub account : Bytes
  pub strict_crc : Bool
  pub aes_key : Option Bytes

unfoldable pub new_parser : Bytes → Bool → Bytes → Result Parser
new_parser account strict_crc encryption_key = do
  key ← decode_aes_key encryption_key
  ok (record { account = account; strict_crc = strict_crc; aes_key = key })

-- The three results of `Parse`; the event is never nil.
pub record Parsed : Type 0 where
  pub event : Normalized
  pub frame : Option Frame
  pub error : Option ParseError

unfoldable pub copy_frame : Normalized → Frame → Normalized
copy_frame e frame = record e {
  account = frame.account;
  protocol = frame.token;
  sequence = frame.sequence;
  receiver = frame.receiver;
  line = frame.line;
  encrypted = frame.encrypted;
}

-- A refusal after the frame was read: the status and the text stand in the event too.
abbrev pub refuse : Normalized → Frame → ParseStatus → SiaError → Parsed
refuse e frame status why = record {
  event = record e { parse_status = status; parse_error = error_text why };
  frame = some frame;
  error = some (typed status why);
}

unfoldable pub set_occurred : Option Time → Normalized → Normalized
set_occurred none e = e
set_occurred (some t) e = record e { occurred_at = t }

-- The end of `Parse`, from the account test on.
unfoldable pub parse_event : Parser → Frame → Normalized → Content → Parsed
parse_event p frame e content =
    if not (is_empty p.account) && not (eqb frame.account p.account)
    then refuse e frame account_invalid (unexpected_account frame.account p.account)
    else record {
      event =
          enrich_event
            (set_occurred (parse_timestamp content.trailer) (parse_content e content.text));
      frame = some frame;
      error = none;
    }

unfoldable pub store_content : Normalized → Content → Normalized
store_content e content = record e {
  raw_data = content.text;
  xdata = content.xdata;
  raw_payload = rebuild_raw_payload content;
}

unfoldable pub parse_body : Parser → Frame → Normalized → Result Content → Parsed
parse_body p frame e (err why) = refuse e frame decrypt_invalid why
parse_body p frame e (ok content) = parse_event p frame (store_content e content) content

module _ (aes : BlockCipher) where
  unfoldable pub parse_validated : Parser → Frame → Normalized → Option SiaError → Parsed
  parse_validated p frame e (some why) = refuse e frame (validation_status why) why
  parse_validated p frame e none = parse_body p frame e (extract_content aes p.aes_key frame)

  unfoldable pub parse_framed : Parser → Normalized → Frame × Option SiaError → Parsed
  parse_framed p e (frame, some why) = record {
    event = record e { parse_status = format_invalid; parse_error = error_text why };
    frame = some frame;
    error = some (plain why);
  }
  parse_framed p e (frame, none) =
      parse_validated p frame (copy_frame e frame) (validate_frame (some frame) p.strict_crc)

  -- p.Parse(raw)
  unfoldable pub parse : Parser → Time → Bytes → Parsed
  parse p now raw =
      if is_empty (line_of raw)
      then record {
        event = received now (line_of raw);
        frame = none;
        error = some (typed format_invalid empty_frame);
      }
      else parse_framed p (received now (line_of raw)) (parse_frame (line_of raw))
