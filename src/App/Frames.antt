-- ===== src/App/Frames.antt =====
-- The frames that `handleSIAFrame` handles one after the other.
use ajax_bridge.Prelude.{
  suc, ◌≤◌, ◌<◌, ◌^◌, Option, none, some, List, [], ◌∷◌, Bytes, length, ◌≡◌, refl, sym, ap, ◌∙◌,
  arith, Option-cases, inl, inr,
}
use ajax_bridge.Time.{Time}
use ajax_bridge.Event.{Normalized}
use ajax_bridge.Sia.Errors.{ParseError}
use ajax_bridge.Sia.Crypto.{BlockCipher}
use ajax_bridge.Sia.Parser.{Parser, Parsed, parse}
use ajax_bridge.Forward.{ForwardResult}
use ajax_bridge.Store.{Store, new_store, append_event, list_events, pos}
use ajax_bridge.Store.Log.{Run, append_all, numbered, list-append_all}
use ajax_bridge.State.{apply}
use ajax_bridge.App.{
  App, Clock, store_event, discover_device, accept_event, handle_parsed, handle_sia_frame,
}

-- A frame, with what the clock and the context say at its handling.
pub record Arrival : Type 0 where
  pub clock : Clock
  pub raw : Bytes

-- The event goes into the log, unless the context is done.
abbrev pub logged : Option Bytes → Time → Normalized → Run → Run
logged none now e rest = (now, e) ∷ rest
logged (some why) now e rest = rest

-- The arrival counts, unless its frame is refused.
abbrev pub counted : Option ParseError → Arrival → List Arrival → List Arrival
counted none f rest = f ∷ rest
counted (some x) f rest = rest

module _ (aes : BlockCipher) where
  -- The events that the parser makes of the frames, refused or not.
  unfoldable pub parsed_run : Parser → List Arrival → Run
  parsed_run p [] = []
  parsed_run p (f ∷ fs) =
      logged f.clock.stopped f.clock.stored (parse aes p f.clock.parsed f.raw).event
        (parsed_run p fs)

  -- The frames that the parser accepts.
  unfoldable pub accepted_only : Parser → List Arrival → List Arrival
  accepted_only p [] = []
  accepted_only p (f ∷ fs) = counted (parse aes p f.clock.parsed f.raw).error f (accepted_only p fs)

module _ (aes : BlockCipher) (send : Bytes → Bytes → ForwardResult) where
  unfoldable pub handle_all : App → List Arrival → App
  handle_all app [] = app
  handle_all app (f ∷ fs) = handle_all (handle_sia_frame aes send app f.clock f.raw).app fs

  handled-store :
      (app : App) (clock : Clock) (raw : Bytes) (r : Parsed) (o : Option ParseError)
      → (handle_parsed aes send app clock raw r o).app.store ≡ app.store
  unfolding handle_parsed accept_event
  handled-store app clock raw r none = refl
  handled-store app clock raw r (some x) = refl

  handled-parser :
      (app : App) (clock : Clock) (raw : Bytes) (r : Parsed) (o : Option ParseError)
      → (handle_parsed aes send app clock raw r o).app.parser ≡ app.parser
  unfolding handle_parsed accept_event
  handled-parser app clock raw r none = refl
  handled-parser app clock raw r (some x) = refl

  -- The engine that is left depends on the engine alone.
  handled-engine :
      (app other : App) (clock : Clock) (raw : Bytes) (r : Parsed) (o : Option ParseError)
      → app.engine ≡ other.engine
      → (handle_parsed aes send app clock raw r o).app.engine
        ≡ (handle_parsed aes send other clock raw r o).app.engine
  unfolding handle_parsed accept_event
  handled-engine app other clock raw r none h =
      ap
        (λ g.
          apply clock.applied (discover_device clock.stopped clock.discovering g r.event) r.event)
        h
  handled-engine app other clock raw r (some x) h = h

  frame-store :
      (app : App) (clock : Clock) (raw : Bytes)
      → (handle_sia_frame aes send app clock raw).app.store
        ≡ (append_event clock.stopped clock.stored app.store
            (parse aes app.parser clock.parsed raw).event).1
  unfolding handle_sia_frame store_event
  frame-store app clock raw =
      let r = parse aes app.parser clock.parsed raw in
      handled-store (store_event app clock r.event) clock raw r r.error

  frame-parser :
      (app : App) (clock : Clock) (raw : Bytes)
      → (handle_sia_frame aes send app clock raw).app.parser ≡ app.parser
  unfolding handle_sia_frame store_event
  frame-parser app clock raw =
      let r = parse aes app.parser clock.parsed raw in
      handled-parser (store_event app clock r.event) clock raw r r.error

  -- What a frame does to the engine, by the parser and an app with the same engine.
  frame-engine :
      (p : Parser) (app base : App) (clock : Clock) (raw : Bytes)
      → app.parser ≡ p
      → app.engine ≡ base.engine
      → (handle_sia_frame aes send app clock raw).app.engine
        ≡ (handle_parsed aes send base clock raw
            (parse aes p clock.parsed raw)
            (parse aes p clock.parsed raw).error).app.engine
  unfolding handle_sia_frame store_event
  frame-engine p app base clock raw hp he =
      let r = parse aes app.parser clock.parsed raw in
      handled-engine (store_event app clock r.event) base clock raw r r.error he
      ∙ ap
          (λ q.
            (handle_parsed aes send base clock raw (parse aes q clock.parsed raw)
              (parse aes q clock.parsed raw).error).app.engine)
          hp

  refused-engine :
      (app : App) (clock : Clock) (raw : Bytes) (r : Parsed) (x : ParseError)
      → r.error ≡ some x
      → (handle_parsed aes send app clock raw r r.error).app.engine ≡ app.engine
  unfolding handle_parsed
  refused-engine app clock raw r x h =
      ap (λ o. (handle_parsed aes send app clock raw r o).app.engine) h

  logged-store :
      (o : Option Bytes) (now : Time) (e : Normalized) (rest : Run) (s : Store)
      → append_all (append_event o now s e).1 rest ≡ append_all s (logged o now e rest)
  unfolding append_all append_event
  logged-store none now e rest s = refl
  logged-store (some why) now e rest s = refl

  handle_all-store :
      (p : Parser) (fs : List Arrival) (app : App)
      → app.parser ≡ p
      → (handle_all app fs).store ≡ append_all app.store (parsed_run aes p fs)
  unfolding handle_all parsed_run append_all
  handle_all-store p [] app h = refl
  handle_all-store p (f ∷ fs) app h =
      let after = (handle_sia_frame aes send app f.clock f.raw).app in
      let event_of : Parser → Normalized = λ q. (parse aes q f.clock.parsed f.raw).event in
      let added : Parser → Store =
        λ q. (append_event f.clock.stopped f.clock.stored app.store (event_of q)).1 in
      handle_all-store p fs after (frame-parser app f.clock f.raw ∙ h)
      ∙ ap (λ s. append_all s (parsed_run aes p fs)) (frame-store app f.clock f.raw ∙ ap added h)
      ∙ logged-store f.clock.stopped f.clock.stored (event_of p) (parsed_run aes p fs) app.store

  handle_all-engine :
      (p : Parser) (fs : List Arrival) (app other : App)
      → app.parser ≡ p
      → other.parser ≡ p
      → app.engine ≡ other.engine
      → (handle_all app fs).engine ≡ (handle_all other (accepted_only aes p fs)).engine
  unfolding handle_all accepted_only
  handle_all-engine p [] app other ha ho h = h
  handle_all-engine p (f ∷ fs) app other ha ho h =
      let r = parse aes p f.clock.parsed f.raw in
      let after = (handle_sia_frame aes send app f.clock f.raw).app in
      let parser_lem = frame-parser app f.clock f.raw ∙ ha in
      let engine_lem = frame-engine p app app f.clock f.raw ha refl in
      elim (Option-cases r.error) [
        | inl n ↦
            let after_other = (handle_sia_frame aes send other f.clock f.raw).app in
            rw n (
              handle_all-engine p fs after after_other parser_lem
                (frame-parser other f.clock f.raw ∙ ho)
                (engine_lem ∙ sym (frame-engine p other app f.clock f.raw ho (sym h))))
        | inr (x, e) ↦ rw e (
            handle_all-engine p fs after other parser_lem ho
              (engine_lem ∙ refused-engine app f.clock f.raw r x e ∙ h))
      ]

  length-logged :
      (o : Option Bytes) (now : Time) (e : Normalized) (rest : Run)
      → length (logged o now e rest) ≤ suc (length rest)
  length-logged none now e rest = omega arith
  length-logged (some why) now e rest = omega arith

  length-parsed_run : (p : Parser) (fs : List Arrival) → length (parsed_run aes p fs) ≤ length fs
  unfolding parsed_run
  length-parsed_run p [] = omega arith
  length-parsed_run p (f ∷ fs) = omega (
    arith,
    length-parsed_run p fs,
    length-logged f.clock.stopped f.clock.stored (parse aes p f.clock.parsed f.raw).event
        (parsed_run aes p fs),
  )

  -- After any run of fewer than 2^64 frames from an empty store, the store lists one record for every frame
  -- whose context was not done, refused or accepted, of the event that the parser makes of it, numbered from
  -- 1 on in the order of arrival; and the engine is the one that the accepted frames alone leave, so that a
  -- refused frame among them changes nothing for those behind it.
  pub handle_all-recorded :
      (fs : List Arrival) (app : App)
      → app.store ≡ new_store
      → length fs < 2 ^ 64
      → (list_events (handle_all app fs).store (pos 0) ≡ numbered 1 (parsed_run aes app.parser fs))
        × ((handle_all app fs).engine ≡ (handle_all app (accepted_only aes app.parser fs)).engine)
  handle_all-recorded fs app h n =
      let es = parsed_run aes app.parser fs in
      let held : (handle_all app fs).store ≡ append_all new_store es =
        handle_all-store app.parser fs app refl ∙ ap (λ s. append_all s es) h in
      let listed = list-append_all es 0 (omega (arith, n, length-parsed_run app.parser fs)) in
      (
        ap (λ s. list_events s (pos 0)) held ∙ listed.1,
        handle_all-engine app.parser fs app app refl refl refl,
      )
