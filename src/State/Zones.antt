-- ===== src/State/Zones.antt =====
-- The zones of bridge/internal/state/state.go.
pub mod Named
use ajax_bridge.Prelude.{
  Bool, true, false, not, ◌&&◌, ◌||◌, List, [], ◌∷◌, ◌++◌, if◌then◌else◌, is_some, Bytes, codes,
  is_empty, eqb,
}
use ajax_bridge.Time.{Time, zero_time, is_zero, after, max_time}
use ajax_bridge.Event.{
  Class, unset, unknown, alarm, restore, arm, disarm, night, tamper, trouble, test, common,
  Normalized,
}
use ajax_bridge.Dict.{Dict, get, put}
use ajax_bridge.DeviceCatalog.{one_of, Device}
use ajax_bridge.State.Accounts.{trouble_signals}

pub record Zone : Type 0 where
  pub account : Bytes
  pub partition : Bytes
  pub group : Bytes
  pub zone : Bytes
  pub device : Bytes
  pub device_name : Bytes
  pub room : Bytes
  pub kind : Bytes
  pub device_events : List Bytes
  pub device_events_label : Bytes
  pub alarm_active : Bool
  pub alarm_signal : Bytes
  pub alarm_action : Bytes
  pub alarm_event_code : Bytes
  pub alarm_event_name : Bytes
  pub alarm_started_at : Time
  pub tamper_active : Bool
  pub trouble_active : Bool
  pub signal_active : Dict Bool
  pub last_event_code : Bytes
  pub last_event_name : Bytes
  pub last_signal : Bytes
  pub last_event_at : Time

-- &Zone{Account: accountID, Zone: zoneID, SignalActive: make(map[string]bool)}
abbrev pub fresh_zone : Bytes → Bytes → Zone
fresh_zone account_id zone_id = record {
  account = account_id;
  partition = [];
  group = [];
  zone = zone_id;
  device = [];
  device_name = [];
  room = [];
  kind = [];
  device_events = [];
  device_events_label = [];
  alarm_active = false;
  alarm_signal = [];
  alarm_action = [];
  alarm_event_code = [];
  alarm_event_name = [];
  alarm_started_at = zero_time;
  tamper_active = false;
  trouble_active = false;
  signal_active = [];
  last_event_code = [];
  last_event_name = [];
  last_signal = [];
  last_event_at = zero_time;
}

unfoldable pub set_signal : Bytes → Bool → Zone → Zone
set_signal signal active z =
    if is_empty signal || eqb signal (codes "unknown")
    then z
    else record z { signal_active = put signal active z.signal_active }

unfoldable pub clear_zone_alarm : Zone → Zone
clear_zone_alarm z = record (set_signal z.alarm_signal false z) {
  alarm_active = false;
  alarm_signal = [];
  alarm_action = [];
  alarm_event_code = [];
  alarm_event_name = [];
  alarm_started_at = zero_time;
}

unfoldable pub apply_zone_restore : Zone → Normalized → Zone
apply_zone_restore z e =
    if eqb e.signal (codes "tamper")
    then set_signal e.signal false (record z { tamper_active = false })
    else if one_of e.signal trouble_signals
    then set_signal e.signal false (record z { trouble_active = false })
    else set_signal e.signal false (clear_zone_alarm z)

-- strings.Join(events, ",")
unfoldable pub join_events : List Bytes → Bytes
join_events [] = []
join_events (s ∷ []) = s
join_events (s ∷ t ∷ ss) = s ++ (44 ∷ join_events (t ∷ ss))

-- The loop of `applyDeviceMetadata`.
unfoldable pub add_signals : List Bytes → Dict Bool → Dict Bool
add_signals [] m = m
add_signals (s ∷ ss) m =
    let next : Dict Bool = if is_empty s || is_some (get s m) then m else put s false m in
    add_signals ss next

abbrev pub override : Bytes → Bytes → Bytes
override old new = if is_empty new then old else new

unfoldable pub apply_device_metadata : Zone → Device → Zone
apply_device_metadata z d = record z {
  partition = override z.partition d.partition;
  group = override z.group d.group;
  device = override z.device d.device;
  device_name = d.name;
  room = d.room;
  kind = d.kind;
  device_events = d.events;
  device_events_label = join_events d.events;
  signal_active = add_signals d.events z.signal_active;
}

unfoldable pub apply_catalog_state : Zone → Device → Zone
apply_catalog_state z d =
    if not (is_zero d.last_seen_at) && after d.last_seen_at z.last_event_at
    then record z {
      last_event_at = d.last_seen_at;
      last_event_code = d.last_event_code;
      last_event_name = d.last_event_name;
      last_signal = d.last_signal;
    }
    else record z {
      last_event_code = if is_empty z.last_event_code then d.last_event_code else z.last_event_code;
      last_event_name = if is_empty z.last_event_name then d.last_event_name else z.last_event_name;
      last_signal = if is_empty z.last_signal then d.last_signal else z.last_signal;
    }

-- The fields of an event that a zone takes over.
unfoldable pub event_metadata : Zone → Normalized → Zone
event_metadata z e = record z {
  partition = override z.partition e.partition;
  group = override z.group e.group;
  device = override z.device e.device;
}

unfoldable pub touch_zone : Zone → Normalized → Zone
touch_zone z e = record z {
  last_event_at = max_time z.last_event_at e.received_at;
  last_event_code = e.event_code;
  last_event_name = e.event_name;
  last_signal = e.signal;
}

unfoldable pub raise_alarm : Zone → Normalized → Zone
raise_alarm z e = record z {
  alarm_active = true;
  alarm_signal = e.signal;
  alarm_action = e.event_action;
  alarm_event_code = e.event_code;
  alarm_event_name = e.event_name;
  alarm_started_at = e.received_at;
}

-- The second switch of `Apply`, on the zone.
unfoldable pub apply_zone : Class → Zone → Normalized → Zone
apply_zone alarm z e = set_signal e.signal true (raise_alarm z e)
apply_zone restore z e = apply_zone_restore z e
apply_zone tamper z e = set_signal e.signal true (record z { tamper_active = true })
apply_zone trouble z e =
    let marked : Zone = set_signal e.signal true (record z { trouble_active = true }) in
    if eqb e.event_action (codes "device_bypassed") then clear_zone_alarm marked else marked
apply_zone common z e = if eqb e.event_action (codes "turned_off") then clear_zone_alarm z else z
apply_zone arm z e = set_signal (codes "night_mode") false (set_signal (codes "arming") true z)
apply_zone night z e = set_signal (codes "night_mode") true (set_signal (codes "arming") true z)
apply_zone disarm z e =
    if eqb e.signal (codes "night_mode")
    then set_signal (codes "night_mode") false z
    else set_signal (codes "duress") false
        (set_signal (codes "night_mode") false (set_signal (codes "arming") false z))
apply_zone unset z e = z
apply_zone unknown z e = z
apply_zone test z e = z
