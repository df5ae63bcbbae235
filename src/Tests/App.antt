-- ===== src/Tests/App.antt =====
-- bridge/internal/app and bridge/internal/store at concrete inputs.
use ajax_bridge.Prelude.{
  ◌+◌, ◌-◌, true, none, some, List, [], ◌∷◌, Bytes, codes, length, drop, ◌≡◌, ◌↔◌, refl, arith,
}
use ajax_bridge.Event.{crc_invalid, received}
use ajax_bridge.Sia.Parser.{parse}
use ajax_bridge.Forward.{ForwardResult, disabled}
use ajax_bridge.Store.{new_store, pos, negsuc, list_events, count}
use ajax_bridge.Store.Log.{Run, append_all, numbered, list-append_all}
use ajax_bridge.State.Owners.{IsConsistent}
use ajax_bridge.Tests.Sia.{plain_cipher, alarm_line, noon_civil}
use ajax_bridge.Tests.State.{noon, empty_engine, empty_engine-IsConsistent}
use ajax_bridge.App.{App, Clock, handle_sia_frame}
use ajax_bridge.App.Frames.{Arrival, parsed_run, accepted_only, handle_all, handle_all-recorded}
use ajax_bridge.App.Handling.{handle_sia_frame-IsConsistent, handle_sia_frame-silent}

-- A target that acknowledges everything.
abbrev willing : Bytes → Bytes → ForwardResult
willing target raw = record disabled { enabled = true; target = target; ack = true }

abbrev small_app : App
small_app = record {
  parser = record { account = codes "0001"; strict_crc = true; aes_key = none };
  responder = record { aes_key = none };
  store = new_store;
  engine = empty_engine;
  targets = codes "10.0.0.2:12128" ∷ [];
  forward_require_ack = true;
}

abbrev one_clock : Clock
one_clock = record {
  parsed = noon;
  stored = noon;
  discovering = noon;
  applied = noon;
  answered = noon_civil;
  stopped = none;
}

handle-IsConsistent_example :
    IsConsistent (handle_sia_frame plain_cipher willing small_app one_clock alarm_line).app.engine
handle-IsConsistent_example =
    handle_sia_frame-IsConsistent plain_cipher willing small_app empty_engine-IsConsistent refl refl
      one_clock alarm_line

-- The frame, the frame again with a context that is done, and a blank one.
abbrev three_frames : List Arrival
three_frames =
    record { clock = one_clock; raw = alarm_line }
    ∷ record {
      clock = record one_clock { stopped = some (codes "context canceled") };
      raw = alarm_line;
    }
    ∷ record { clock = one_clock; raw = codes "  " }
    ∷ []

handle_all-recorded_example :
    (list_events (handle_all plain_cipher willing small_app three_frames).store (pos 0)
      ≡ numbered 1 (parsed_run plain_cipher small_app.parser three_frames))
    × ((handle_all plain_cipher willing small_app three_frames).engine
        ≡ (handle_all plain_cipher willing small_app
            (accepted_only plain_cipher small_app.parser three_frames)).engine)
handle_all-recorded_example =
    handle_all-recorded plain_cipher willing three_frames small_app refl (omega arith)

handle-silent_example :
    ((handle_sia_frame plain_cipher willing small_app one_clock alarm_line).response ≡ none)
    ↔ ((parse plain_cipher small_app.parser noon alarm_line).event.parse_status ≡ crc_invalid)
handle-silent_example = handle_sia_frame-silent plain_cipher willing small_app one_clock alarm_line

abbrev two_events : Run
two_events =
    (noon, received noon (codes "one")) ∷ (noon + 1, received (noon + 1) (codes "two")) ∷ []

list-append_all_example :
    (list_events (append_all new_store two_events) (pos 1)
      ≡ drop (length two_events - 1) (numbered 1 two_events))
    × (list_events (append_all new_store two_events) (pos 0) ≡ numbered 1 two_events)
    × (list_events (append_all new_store two_events) (negsuc 0) ≡ numbered 1 two_events)
    × (count (append_all new_store two_events) ≡ length two_events)
list-append_all_example = list-append_all two_events 0 (omega arith)
