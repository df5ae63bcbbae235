-- ===== src/HaMqtt/Plans/Stable.antt =====
-- A zone is announced in the same way whatever order its signals come in.
use ajax_bridge.Prelude.{List, ◌++◌, Bool, Bytes, ◌≡◌, refl}
use ajax_bridge.Dict.{Dict}
use ajax_bridge.DeviceCatalog.{one_of}
use ajax_bridge.State.Zones.{Zone}
use ajax_bridge.HaMqtt.Topics.{Config}
use ajax_bridge.HaMqtt.Entities.{keys, sorted_signals, zone_entities}
use ajax_bridge.HaMqtt.Entities.Sorted.{signals_unique}
use ajax_bridge.HaMqtt.Plans.{
  DiscoveryConfig, zone_plan, zone_discovery_signature, zone_cleanup_messages,
  legacy_sia_object_cleanup_messages, renamed_signal_cleanup_messages, legacy_sia_object_ids,
  zone_device,
}

sorted_signals_unique :
    (events others : List Bytes) (active stored : Dict Bool)
    → ((k : Bytes) → one_of k (events ++ keys active) ≡ one_of k (others ++ keys stored))
    → sorted_signals events active ≡ sorted_signals others stored
unfolding sorted_signals
sorted_signals_unique events others active stored same =
    signals_unique (events ++ keys active) (others ++ keys stored) same

-- The plan of a zone, with its signature, its clearing messages and its announcements, is the same for
-- every order and repetition of its events and every order of the map of its signals: only the names
-- count. So the order in which Go ranges over a map does not announce a zone anew.
pub zone_plan-reordered :
    (cfg : Config) (discovery_json : DiscoveryConfig → Bytes) (z : Zone) (others : List Bytes)
    (stored : Dict Bool)
    → ((k : Bytes)
        → one_of k (z.device_events ++ keys z.signal_active) ≡ one_of k (others ++ keys stored))
    → let w = record z { device_events = others; signal_active = stored } in
      zone_plan cfg discovery_json (zone_discovery_signature z) z
      ≡ zone_plan cfg discovery_json (zone_discovery_signature w) w
unfolding zone_plan zone_discovery_signature zone_entities zone_cleanup_messages
    legacy_sia_object_cleanup_messages renamed_signal_cleanup_messages legacy_sia_object_ids
    zone_device
zone_plan-reordered cfg discovery_json z others stored same =
    let sorted = sorted_signals_unique z.device_events others z.signal_active stored same in
    rw sorted refl
