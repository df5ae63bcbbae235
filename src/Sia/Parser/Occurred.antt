-- ===== src/Sia/Parser/Occurred.antt =====
-- The time that `Parse` gives an event.
use ajax_bridge.Prelude.{
  not, ◌&&◌, Option, none, some, Bytes, is_empty, eqb, ◌≡◌, refl, ◌∙◌, ap, Bool-cases, inl, inr,
}
use ajax_bridge.Time.{Time}
use ajax_bridge.Event.{Normalized, received}
use ajax_bridge.Sia.Errors.{SiaError, Result, ok, err}
use ajax_bridge.Sia.Frame.{Frame, parse_frame, validate_frame}
use ajax_bridge.Sia.Frame.Framing.{line_of}
use ajax_bridge.Sia.Crypto.{BlockCipher}
use ajax_bridge.Sia.Content.{Content, parse_content, extract_content}
use ajax_bridge.Sia.Content.Kept.{parse_content-Kept}
use ajax_bridge.Sia.Timestamp.Unread.{parse_timestamp-none}
use ajax_bridge.Sia.Catalog.{EventInfo, lookup_event_info, enrich_event, apply_info}
use ajax_bridge.Sia.Parser.{
  Parser, copy_frame, set_occurred, parse_event, store_content, parse_body, parse_validated,
  parse_framed, parse,
}

apply_info-occurred_at :
    (o : Option EventInfo) (e : Normalized) → (apply_info o e).occurred_at ≡ e.occurred_at
unfolding apply_info
apply_info-occurred_at none e = refl
apply_info-occurred_at (some info) e = refl

enrich_event-occurred_at : (e : Normalized) → (enrich_event e).occurred_at ≡ e.occurred_at
unfolding enrich_event
enrich_event-occurred_at e = apply_info-occurred_at (lookup_event_info e) e

parse_event-occurred_at :
    (p : Parser) (frame : Frame) (e : Normalized) (content : Content)
    → (parse_event p frame e content).event.occurred_at ≡ e.occurred_at
unfolding parse_event set_occurred
parse_event-occurred_at p frame e content =
    elim (Bool-cases (not (is_empty p.account) && not (eqb frame.account p.account))) [
      | inl t ↦ rw t refl
      | inr f ↦
          let parsed = parse_content e content.text in
          rw f (
            ap (λ o. (enrich_event (set_occurred o parsed)).occurred_at)
              (parse_timestamp-none content.trailer)
            ∙ enrich_event-occurred_at parsed
            ∙ (parse_content-Kept e content.text).occurred_at)
    ]

parse_body-occurred_at :
    (p : Parser) (frame : Frame) (e : Normalized) (o : Result Content)
    → (parse_body p frame e o).event.occurred_at ≡ e.occurred_at
unfolding parse_body store_content
parse_body-occurred_at p frame e (err why) = refl
parse_body-occurred_at p frame e (ok content) =
    parse_event-occurred_at p frame (store_content e content) content

module _ (aes : BlockCipher) (p : Parser) where
  parse_validated-occurred_at :
      (frame : Frame) (e : Normalized) (o : Option SiaError)
      → (parse_validated aes p frame e o).event.occurred_at ≡ e.occurred_at
  unfolding parse_validated
  parse_validated-occurred_at frame e (some why) = refl
  parse_validated-occurred_at frame e none =
      parse_body-occurred_at p frame e (extract_content aes p.aes_key frame)

  parse_framed-occurred_at :
      (e : Normalized) (r : Frame × Option SiaError)
      → (parse_framed aes p e r).event.occurred_at ≡ e.occurred_at
  unfolding parse_framed copy_frame
  parse_framed-occurred_at e (frame, some why) = refl
  parse_framed-occurred_at e (frame, none) =
      parse_validated-occurred_at frame (copy_frame e frame)
        (validate_frame (some frame) p.strict_crc)

  -- Every event that `Parse` returns, with an error or without one, has the time of its receipt as the time
  -- at which it occurred, whatever timestamp the frame carries.
  pub parse-occurred_at : (now : Time) (raw : Bytes) → (parse aes p now raw).event.occurred_at ≡ now
  unfolding parse
  parse-occurred_at now raw = elim (Bool-cases (is_empty (line_of raw))) [
    | inl t ↦ rw t refl
    | inr f ↦
        rw f (parse_framed-occurred_at (received now (line_of raw)) (parse_frame (line_of raw)))
  ]
