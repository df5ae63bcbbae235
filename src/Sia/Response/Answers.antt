-- ===== src/Sia/Response/Answers.antt =====
-- The answers of the bridge are frames that its own parser accepts, and what they repeat.
use ajax_bridge.Prelude.{
  ◌<◌, true, false, none, some, [], ◌∷◌, ◌++◌, Bytes, codes, is_empty, length, all, all-append,
  append_assoc, ◌≡◌, ◌≢◌, refl, sym, ap, ◌∙◌, arith,
}
use ajax_bridge.Text.{is_alnum, has_prefix}
use ajax_bridge.Hex.{is_hex}
use ajax_bridge.Hex.RoundTrip.{four_digits}
use ajax_bridge.Sia.Crc.{crc_bytes}
use ajax_bridge.Sia.Header.{not_quote, not_bracket, match_header}
use ajax_bridge.Sia.Header.Captures.{Route, received, IsHeader, header_text, match_header-run}
use ajax_bridge.Sia.Frame.{Frame, fallback, fill_groups, parse_frame, validate_frame}
use ajax_bridge.Sia.Frame.Receiver.{append-ne_nil}
use ajax_bridge.Sia.Frame.Framing.{
  line_of, build_plain_response, enveloped, parse_frame-matched, split_prefix-enveloped,
  validate_frame-enveloped, line_of-answer, crc16-four,
}
use ajax_bridge.Sia.Response.{ResponseType, ack, nak, duh, response_text, plain_payload}

-- A frame with the parts that `parseFrame` puts in: a receiver and a line of letters and digits.
pub record IsReceived (frame : Frame) (r l : Bytes) : Type 0 where
  pub sequence_length : length frame.sequence ≡ 4
  pub sequence_hex : is_hex frame.sequence ≡ true
  pub receiver_is : frame.receiver ≡ b'R' ∷ r
  pub receiver_ne_nil : r ≢ []
  pub receiver_alnum : all is_alnum r ≡ true
  pub line_is : frame.line ≡ b'L' ∷ l
  pub line_alnum : all is_alnum l ≡ true
  pub account_ne_nil : frame.account ≢ []
  pub account_unbracketed : all not_bracket frame.account ≡ true

response_text-token :
    (kind : ResponseType) → (response_text kind ≢ []) × (all not_quote (response_text kind) ≡ true)
unfolding response_text
response_text-token ack = (λ e. cc e, refl)
response_text-token nak = (λ e. cc e, refl)
response_text-token duh = (λ e. cc e, refl)

unstarred : (kind : ResponseType) → has_prefix (response_text kind) (b'*' ∷ []) ≡ false
unfolding response_text has_prefix
unstarred ack = refl
unstarred nak = refl
unstarred duh = refl

is_empty-ne_nil : (s : Bytes) → s ≢ [] → is_empty s ≡ false
is_empty-ne_nil [] ne = absurd (ne refl)
is_empty-ne_nil (c ∷ s) ne = refl

module _ (kind : ResponseType) (frame : Frame) (r l : Bytes) (h : IsReceived frame r l) where
  abbrev route : Bytes
  route = r ++ (b'L' ∷ l)

  payload-header :
      plain_payload kind frame
      ≡ header_text
          (response_text kind)
          frame.sequence
          (b'R' ∷ route)
          frame.account
          (b'[' ∷ b']' ∷ [])
  unfolding plain_payload
  payload-header =
      let named : is_empty frame.account ≡ false = is_empty-ne_nil frame.account h.account_ne_nil in
      rw (named, h.receiver_is, h.line_is, plain_payload) (simp append_assoc)

  abbrev answer_body : Bytes
  answer_body =
      b'"'
      ∷ (response_text kind
          ++ (b'"' ∷ (frame.sequence ++ (b'R' ∷ (route ++ (b'#' ∷ (frame.account ++ b'[' ∷ [])))))))

  payload-body : plain_payload kind frame ≡ answer_body ++ b']' ∷ []
  payload-body = payload-header ∙ simp append_assoc

  route_captured : Route (b'R' ∷ route) (b'R' ∷ route) []
  route_captured =
      received route (append-ne_nil r (b'L' ∷ l) h.receiver_ne_nil)
        (all-append is_alnum r (b'L' ∷ l) h.receiver_alnum (ground (arith, h.line_alnum)))

  IsHeader-parts : IsHeader (response_text kind) frame.sequence frame.account (b'[' ∷ b']' ∷ [])
  IsHeader-parts = record {
    token_ne_nil = (response_text-token kind).0;
    token_unquoted = (response_text-token kind).1;
    sequence_length = h.sequence_length;
    sequence_hex = h.sequence_hex;
    account_ne_nil = h.account_ne_nil;
    account_unbracketed = h.account_unbracketed;
    account_ends = refl;
  }

  abbrev pub answered : Frame
  answered = record {
    raw =
        enveloped (crc_bytes 0 (plain_payload kind frame)) (length (plain_payload kind frame))
          (plain_payload kind frame);
    crc = four_digits (crc_bytes 0 (plain_payload kind frame));
    length_field = four_digits (length (plain_payload kind frame));
    payload = plain_payload kind frame;
    token = response_text kind;
    encrypted = false;
    sequence = frame.sequence;
    receiver = b'R' ∷ route;
    line = codes "L0";
    account = frame.account;
  }

  answer_token : has_prefix (response_text kind) (b'*' ∷ []) ≡ false
  answer_token = unstarred kind

  parse_frame-answer :
      parse_frame (
        enveloped
          (crc_bytes 0 (plain_payload kind frame))
          (length (plain_payload kind frame))
          (plain_payload kind frame))
      ≡ (answered, none)
  unfolding fill_groups fallback
  parse_frame-answer =
      let payload = plain_payload kind frame in
      parse_frame-matched (enveloped (crc_bytes 0 payload) (length payload) payload)
        (split_prefix-enveloped (crc_bytes 0 payload) (length payload) payload)
        (ap match_header payload-header
          ∙ match_header-run (response_text kind) frame.sequence frame.account (b'[' ∷ b']' ∷ [])
              IsHeader-parts route_captured)
      ∙ rw answer_token

  -- For every frame that was read with a receiver and a line, a sequence number of four hexadecimal
  -- digits and an account that is not empty and holds no opening bracket, and every answer that is not
  -- encrypted: the answer, of less than 65,536 bytes, is read back by the parser as a frame with
  -- the kind of the answer, the sequence number and the account of the frame, and passes the
  -- strict tests of its length and its CRC.
  pub answer-accepted :
      length (plain_payload kind frame) < 65536
      → (parse_frame (line_of (build_plain_response (plain_payload kind frame))) ≡ (answered, none))
        × (validate_frame (some answered) true ≡ none)
  answer-accepted bound =
      let payload = plain_payload kind frame in
      (
        ap parse_frame (line_of-answer payload answer_body b']' payload-body bound (refl, refl))
            ∙ parse_frame-answer,
        validate_frame-enveloped answered true
            (record { crc_is = sym (crc16-four payload); length_is = refl; bounded = bound }),
      )
