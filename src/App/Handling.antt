-- ===== src/App/Handling.antt =====
-- What the handling of a frame leaves and answers.
use ajax_bridge.Prelude.{
  true, false, not, Option, none, some, ◌||◌, Bytes, is_empty, ◌≡◌, ◌≢◌, ◌↔◌, refl, sym, ap, ◌∙◌,
  arith, Bool-cases, inl, inr,
}
use ajax_bridge.Time.{Time}
use ajax_bridge.Event.{
  ParseStatus, ok, crc_invalid, length_invalid, format_invalid, account_invalid, decrypt_invalid,
  Normalized, is_valid,
}
use ajax_bridge.Sia.Errors.{ParseError}
use ajax_bridge.Sia.Frame.{Frame}
use ajax_bridge.Sia.Frame.Framing.{line_of}
use ajax_bridge.Sia.Crypto.{BlockCipher}
use ajax_bridge.Sia.Parser.{Parser, Parsed, parse}
use ajax_bridge.Sia.Parser.Status.{IsAccepted, Outcome, refused, accepted, parse-Outcome}
use ajax_bridge.Forward.{ForwardResult}
use ajax_bridge.DeviceCatalog.{Catalog}
use ajax_bridge.State.{Engine, has_alarm}
use ajax_bridge.State.Owners.{slash_free, IsConsistent}
use ajax_bridge.State.Alarms.{apply-IsConsistent}
use ajax_bridge.App.{
  App, Clock, refusal, discover, discover_device, refuse_with, accept_event, handle_parsed,
  store_event, handle_sia_frame,
}

absurd_empty : true ≢ false
absurd_empty p = ground arith

Outcome-IsAccepted : {p : Parser} {r : Parsed} → Outcome p r → r.error ≡ none → IsAccepted p r
Outcome-IsAccepted (refused x e s n) h = ground arith
Outcome-IsAccepted (accepted e a) h = a

discover-IsConsistent :
    (stopped : Option Bytes) (clock : Time) (engine : Engine) (e : Normalized) (o : Option Catalog)
    → IsConsistent engine
    → IsConsistent (discover stopped clock engine e o)
unfolding discover has_alarm
discover-IsConsistent stopped clock engine e none h = h
discover-IsConsistent (some why) clock engine e (some c) h = h
discover-IsConsistent none clock engine e (some c) h = record {
  account_named = h.account_named;
  zone_named = h.zone_named;
  alarm_known = h.alarm_known;
}

discover_device-IsConsistent :
    (stopped : Option Bytes) (clock : Time) (engine : Engine) (e : Normalized)
    → IsConsistent engine
    → IsConsistent (discover_device stopped clock engine e)
unfolding discover_device
discover_device-IsConsistent stopped clock engine e h =
    elim (Bool-cases (not (is_valid e) || is_empty e.zone)) [
      | inl t ↦ rw t h
      | inr f ↦ rw f (discover-IsConsistent stopped clock engine e engine.devices h)
    ]

module _ (aes : BlockCipher) (send : Bytes → Bytes → ForwardResult) (app : App) where
  refuse_with-none :
      (clock : Clock) (frame : Option Frame) (s : ParseStatus)
      → (refuse_with aes send app clock frame (refusal s) ≡ none) ↔ (s ≡ crc_invalid)
  unfolding refusal
  refuse_with-none clock frame ok = ground arith
  refuse_with-none clock frame crc_invalid = ground arith
  refuse_with-none clock frame length_invalid = ground arith
  refuse_with-none clock frame format_invalid = ground arith
  refuse_with-none clock frame account_invalid = ground arith
  refuse_with-none clock frame decrypt_invalid = ground arith

  handle_parsed-silent :
      (clock : Clock) (raw : Bytes) (r : Parsed) (o : Option ParseError) (s : ParseStatus)
      → r.event.parse_status ≡ s
      → (o ≡ none → s ≡ ok)
      → ((handle_parsed aes send app clock raw r o).response ≡ none) ↔ (s ≡ crc_invalid)
  unfolding handle_parsed accept_event
  handle_parsed-silent clock raw r (some x) s e a = rw e (refuse_with-none clock r.frame s)
  handle_parsed-silent clock raw r none s e a =
      let status = a refl in (λ q. ground arith, λ q. ground arith)

module _ (aes : BlockCipher) (send : Bytes → Bytes → ForwardResult) (app : App) where
  parse-IsAccepted :
      (now : Time) (raw : Bytes)
      → (parse aes app.parser now raw).error ≡ none
      → IsAccepted app.parser (parse aes app.parser now raw)
  unfolding parse
  parse-IsAccepted now raw h = elim (Bool-cases (is_empty (line_of raw))) [
    | inl e ↦ ground arith
    | inr e ↦
        Outcome-IsAccepted
          (parse-Outcome aes app.parser now raw (λ n. absurd_empty (sym (ap is_empty n) ∙ e))) h
  ]

  accepted-account :
      {r : Parsed}
      → IsAccepted app.parser r
      → is_empty app.parser.account ≡ false
      → r.event.account ≡ app.parser.account
  accepted-account {r} h n = elim h.account_is [
    | inl empty ↦ ground arith
    | inr same ↦ h.event_account (ap is_empty same ∙ n) ∙ same
  ]

  module _ (h : IsConsistent app.engine) (named : is_empty app.parser.account ≡ false)
      (no_slash : slash_free app.parser.account ≡ true) where
    handle_parsed-IsConsistent :
        (before : App) (clock : Clock) (raw : Bytes) (r : Parsed) (o : Option ParseError)
        → before.engine ≡ app.engine
        → (o ≡ none → IsAccepted app.parser r)
        → IsConsistent (handle_parsed aes send before clock raw r o).app.engine
    unfolding handle_parsed accept_event
    handle_parsed-IsConsistent before clock raw r (some x) same a = rw same h
    handle_parsed-IsConsistent before clock raw r none same a =
        let account = accepted-account (a refl) named in
        rw same (
          apply-IsConsistent clock.applied
            (discover_device clock.stopped clock.discovering app.engine r.event) r.event
            (discover_device-IsConsistent clock.stopped clock.discovering app.engine r.event h)
            (ap is_empty account ∙ named) (ap slash_free account ∙ no_slash))

    -- Whatever bytes arrive and whatever the targets answer: with a configured account, which is not
    -- empty and holds no slash, the handling of a frame keeps the engine consistent.
    pub handle_sia_frame-IsConsistent :
        (clock : Clock) (raw : Bytes)
        → IsConsistent (handle_sia_frame aes send app clock raw).app.engine
    unfolding handle_sia_frame store_event
    handle_sia_frame-IsConsistent clock raw =
        let r = parse aes app.parser clock.parsed raw in
        handle_parsed-IsConsistent (store_event app clock r.event) clock raw r r.error refl
          (parse-IsAccepted clock.parsed raw)

  -- The bridge stays silent exactly when the parser finds the CRC of a frame to be wrong: every other
  -- frame, accepted or refused, is answered.
  pub handle_sia_frame-silent :
      (clock : Clock) (raw : Bytes)
      → ((handle_sia_frame aes send app clock raw).response ≡ none)
        ↔ ((parse aes app.parser clock.parsed raw).event.parse_status ≡ crc_invalid)
  unfolding handle_sia_frame
  handle_sia_frame-silent clock raw =
      let r = parse aes app.parser clock.parsed raw in
      handle_parsed-silent aes send (store_event app clock r.event) clock raw r r.error
        r.event.parse_status refl (λ n. (parse-IsAccepted clock.parsed raw n).status_ok)
