-- ===== src/App.antt =====
-- The handling of a frame in bridge/internal/app/app.go: `handleSIAFrame`, `discoverDevice` and
-- `forwardAjaxFrame`. The catalog of devices is one object, which the state engine holds too: it is
-- kept there. Logs, metrics and the queue of MQTT updates are left out.

pub mod Handling
pub mod Frames
use ajax_bridge.Prelude.{
  [], ◌∷◌, ◌++◌, codes, Bool, true, not, ◌&&◌, ◌||◌, Option, none, some, List, if◌then◌else◌, Bytes,
  is_empty,
}
use ajax_bridge.Time.{Time}
use ajax_bridge.Event.{
  ParseStatus, ok, crc_invalid, length_invalid, format_invalid, account_invalid, decrypt_invalid,
  Normalized, is_valid, status_text,
}
use ajax_bridge.Sia.Errors.{ParseError}
use ajax_bridge.Sia.Frame.{Frame}
use ajax_bridge.Sia.Crypto.{BlockCipher}
use ajax_bridge.Sia.Timestamp.{Civil}
use ajax_bridge.Sia.Parser.{Parser, Parsed, parse}
use ajax_bridge.Sia.Response.{ResponseType, ack, nak, duh, Responder, build}
use ajax_bridge.Forward.{ForwardResult, disabled, all_ack, send_all, skipped_all}
use ajax_bridge.Store.{Store, append_event}
use ajax_bridge.DeviceCatalog.{Catalog, upsert_from_event}
use ajax_bridge.State.{Engine, apply}

-- The parts of `App` that take part. `targets` is the group of forwarders, empty without one.
pub record App : Type 0 where
  pub parser : Parser
  pub responder : Responder
  pub store : Store
  pub engine : Engine
  pub targets : List Bytes
  pub forward_require_ack : Bool

-- What the clock says where it is read: by the parser, the store, the catalog, the engine and, for
-- an answer, the responder; and the error of the context, once it is done.
pub record Clock : Type 0 where
  pub parsed : Time
  pub stored : Time
  pub discovering : Time
  pub applied : Time
  pub answered : Civil
  pub stopped : Option Bytes

-- The answer, if there is one, whether an error is returned, and the state that is left.
pub record Handled : Type 0 where
  pub app : App
  pub response : Option Bytes
  pub failed : Bool

-- The answer that a refused event calls for.
unfoldable pub refusal : ParseStatus → Option ResponseType
refusal crc_invalid = none
refusal account_invalid = some nak
refusal decrypt_invalid = some nak
refusal ok = some duh
refusal length_invalid = some duh
refusal format_invalid = some duh

-- a.devices.UpsertFromEvent(ctx, *evt), which refuses a context that is done; the error goes to the log
unfoldable pub discover : Option Bytes → Time → Engine → Normalized → Option Catalog → Engine
discover stopped clock engine e none = engine
discover (some why) clock engine e (some c) = engine
discover none clock engine e (some c) = record engine {
  devices = some (upsert_from_event c clock e).0;
}

-- a.discoverDevice(ctx, evt)
unfoldable pub discover_device : Option Bytes → Time → Engine → Normalized → Engine
discover_device stopped clock engine e =
    if not (is_valid e) || is_empty e.zone
    then engine
    else discover stopped clock engine e engine.devices

-- a.store.AppendEvent(ctx, *evt), whose error goes to the log
unfoldable pub store_event : App → Clock → Normalized → App
store_event app clock e = record app {
  store = (append_event clock.stopped clock.stored app.store e).1;
}

module _ (aes : BlockCipher) (send : Bytes → Bytes → ForwardResult) where
  -- a.forwardAjaxFrame(ctx, raw, evt)
  unfoldable pub forward_ajax_frame : List Bytes → Bytes → Normalized → List ForwardResult
  forward_ajax_frame targets raw e =
      if is_empty targets
      then disabled ∷ []
      else if not (is_valid e)
      then skipped_all targets (codes "parse_status=" ++ status_text e.parse_status)
      else send_all send targets raw

  -- The answer of the given kind.
  abbrev pub respond : App → Clock → Option Frame → ResponseType → Bytes
  respond app clock frame kind = build aes app.responder clock.answered kind frame

  -- What the answer to a refused frame is.
  abbrev pub refuse_with : App → Clock → Option Frame → Option ResponseType → Option Bytes
  refuse_with app clock frame none = none
  refuse_with app clock frame (some kind) = some (respond app clock frame kind)

  -- An accepted event, once its device is looked after.
  unfoldable pub accept_event : App → Clock → Bytes → Option Frame → Normalized → Handled
  accept_event app clock raw frame e =
      let engine : Engine =
        apply clock.applied (discover_device clock.stopped clock.discovering app.engine e) e in
      let refused : Bool =
        app.forward_require_ack && not (all_ack (forward_ajax_frame app.targets raw e)) in
      record {
        app = record app { engine = engine };
        response = some (respond app clock frame (if refused then nak else ack));
        failed = refused;
      }

  unfoldable pub handle_parsed : App → Clock → Bytes → Parsed → Option ParseError → Handled
  handle_parsed app clock raw r (some x) = record {
    app = app;
    response = refuse_with app clock r.frame (refusal r.event.parse_status);
    failed = true;
  }
  handle_parsed app clock raw r none = accept_event app clock raw r.frame r.event

  -- a.handleSIAFrame(ctx, raw, remoteAddr); the parser always gives an event
  unfoldable pub handle_sia_frame : App → Clock → Bytes → Handled
  handle_sia_frame app clock raw =
      let r : Parsed = parse aes app.parser clock.parsed raw in
      handle_parsed (store_event app clock r.event) clock raw r r.error
