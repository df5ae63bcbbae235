-- ===== src/Sia/Parser/Status.antt =====
-- The status and the error that `Parse` returns.
use ajax_bridge.Prelude.{
  false, ap, not, ◌&&◌, Option, none, some, [], Bytes, is_empty, eqb, eqb_iff, ◌≡◌, ◌≢◌, ◌⊎◌, inl,
  inr, refl, ◌∙◌, arith, Bool-cases, Option-cases,
}
use ajax_bridge.Time.{Time}
use ajax_bridge.Event.{
  ParseStatus, ok, unset, account_invalid, decrypt_invalid, Normalized, received,
}
use ajax_bridge.Sia.Errors.{
  SiaError, ParseError, plain, typed, parse_status_from_error, Result, err,
}
use ajax_bridge.Sia.Frame.{Frame, parse_frame, validate_frame, validation_status}
use ajax_bridge.Sia.Frame.Framing.{line_of}
use ajax_bridge.Sia.Crypto.{BlockCipher}
use ajax_bridge.Sia.Content.{Content, parse_content}
use ajax_bridge.Sia.Content.Codes.{IsParsed, parse_content-IsParsed}
use ajax_bridge.Sia.Content.Kept.{parse_content-Kept, parse_content-account}
use ajax_bridge.Sia.Catalog.Classes.{enrich_event-class}
use ajax_bridge.Sia.Timestamp.{parse_timestamp}
use ajax_bridge.Sia.Catalog.{enrich_event, apply_info}
use ajax_bridge.Sia.Parser.{
  Parser, Parsed, copy_frame, refuse, set_occurred, parse_event, store_content, parse_body,
  parse_validated, parse_framed, parse,
}

-- What `Parse` promises of an event that it returns without an error.
pub record IsAccepted (p : Parser) (r : Parsed) : Type 0 where
  pub frame : Frame
  pub frame_is : r.frame ≡ some frame
  pub checked : validate_frame (some frame) p.strict_crc ≡ none
  pub account_is : (p.account ≡ []) ⊎ (frame.account ≡ p.account)
  pub status_ok : r.event.parse_status ≡ ok
  pub parsed : IsParsed r.event
  pub event_account : is_empty frame.account ≡ false → r.event.account ≡ frame.account
  pub classified : r.event.event_class ≢ unset

-- How `Parse` ends on a line that is not empty.
pub data Outcome (p : Parser) (r : Parsed) : Type 0 where
  refused :
      (x : ParseError)
      → r.error ≡ some x
      → r.event.parse_status ≡ parse_status_from_error (some x)
      → r.event.parse_status ≢ ok
      → Outcome p r
  accepted : r.error ≡ none → IsAccepted p r → Outcome p r

validation_status-ne-ok : (e : SiaError) → validation_status e ≢ ok
unfolding validation_status
validation_status-ne-ok e = ground arith

refuse-Outcome :
    (p : Parser) (e : Normalized) (frame : Frame) (status : ParseStatus) (why : SiaError)
    → status ≢ ok
    → Outcome p (refuse e frame status why)
refuse-Outcome p e frame status why ne =
    refused (typed status why) refl (unfold parse_status_from_error in refl) ne

enrich-fields :
    (e : Normalized)
    → ((enrich_event e).parse_status ≡ e.parse_status)
      × ((enrich_event e).event_code ≡ e.event_code)
      × ((enrich_event e).zone ≡ e.zone)
      × ((enrich_event e).account ≡ e.account)
unfolding enrich_event apply_info
enrich-fields e = ground arith

occurred-fields :
    (o : Option Time) (e : Normalized)
    → ((set_occurred o e).parse_status ≡ e.parse_status)
      × ((set_occurred o e).event_code ≡ e.event_code)
      × ((set_occurred o e).zone ≡ e.zone)
      × ((set_occurred o e).account ≡ e.account)
unfolding set_occurred
occurred-fields none e = ground arith
occurred-fields (some t) e = ground arith

-- The event of an accepted frame: the steps after the content keep its status, code and zone.
accepted-fields :
    (o : Option Time) (e : Normalized) (content : Bytes)
    → e.parse_status ≡ ok
    → e.zone ≡ []
    → let r = enrich_event (set_occurred o (parse_content e content)) in
      (r.parse_status ≡ ok) × (is_empty e.account ≡ false → r.account ≡ e.account) × IsParsed r
accepted-fields o e content s z =
    let c = parse_content e content in
    let (s1, k1, z1, a1) = occurred-fields o c in
    let (s2, k2, z2, a2) = enrich-fields (set_occurred o c) in
    let code = k2 ∙ k1 in
    let zone = z2 ∙ z1 in
    (
      s2 ∙ s1 ∙ (parse_content-Kept e content).parse_status ∙ s,
      λ named. a2 ∙ (a1 ∙ parse_content-account e content named),
      rw (code, zone) (parse_content-IsParsed e content z),
    )

parse_event-Outcome :
    (p : Parser) (frame : Frame) (e : Normalized) (content : Content)
    → e.parse_status ≡ ok
    → e.zone ≡ []
    → e.account ≡ frame.account
    → validate_frame (some frame) p.strict_crc ≡ none
    → Outcome p (parse_event p frame e content)
unfolding parse_event
parse_event-Outcome p frame e content s z a v =
    elim (Bool-cases (not (is_empty p.account) && not (eqb frame.account p.account))) [
      | inl bad ↦ rw bad (refuse-Outcome p e frame account_invalid _ (λ x. cc x))
      | inr good ↦
          let (status, account, parsed) =
            accepted-fields (parse_timestamp content.trailer) e content.text s z in
          rw good (
            accepted refl (record {
              frame = frame;
              frame_is = refl;
              checked = v;
              account_is = ground (arith, eqb_iff frame.account p.account);
              status_ok = status;
              parsed = parsed;
              event_account = λ named. account (ap is_empty a ∙ named) ∙ a;
              classified = enrich_event-class _;
            }))
    ]

parse_body-Outcome :
    (p : Parser) (frame : Frame) (e : Normalized) (content : Result Content)
    → e.parse_status ≡ ok
    → e.zone ≡ []
    → e.account ≡ frame.account
    → validate_frame (some frame) p.strict_crc ≡ none
    → Outcome p (parse_body p frame e content)
unfolding parse_body
parse_body-Outcome p frame e (err why) s z a v =
    refuse-Outcome p e frame decrypt_invalid why (λ x. cc x)
parse_body-Outcome p frame e (Result.ok content) s z a v =
    parse_event-Outcome p frame (store_content e content) content (unfold store_content in s)
      (unfold store_content in z) (unfold store_content in a) v

module _ (aes : BlockCipher) (p : Parser) where
  parse_framed-Outcome :
      (e : Normalized) (f : Frame × Option SiaError)
      → e.parse_status ≡ ok
      → e.zone ≡ []
      → Outcome p (parse_framed aes p e f)
  unfolding parse_framed parse_validated copy_frame parse_status_from_error
  parse_framed-Outcome e (frame, some why) s z = refused (plain why) refl refl (λ x. cc x)
  parse_framed-Outcome e (frame, none) s z =
      elim (Option-cases (validate_frame (some frame) p.strict_crc)) [
        | inr (why, v) ↦ rw v (
            refuse-Outcome p (copy_frame e frame) frame (validation_status why) why
              (validation_status-ne-ok why))
        | inl v ↦ rw v (parse_body-Outcome p frame (copy_frame e frame) _ s z refl v)
      ]

  -- Whatever bytes a connection brings, if a line is left after trimming, `Parse` either refuses it,
  -- and then the status of the event is that of the error and is not "ok"; or it returns no error,
  -- and then the status is "ok", the frame passed the length and CRC tests, its account is the
  -- configured one if one is configured, the event has the account of the frame, one of the event
  -- codes, a class and a well-formed zone.
  pub parse-Outcome :
      (now : Time) (raw : Bytes) → line_of raw ≢ [] → Outcome p (parse aes p now raw)
  unfolding parse
  parse-Outcome now raw ne = elim (Bool-cases (is_empty (line_of raw))) [
    | inl e ↦ absurd (ne (ground arith))
    | inr e ↦
        rw e
          (parse_framed-Outcome (received now (line_of raw)) (parse_frame (line_of raw)) refl refl)
  ]
