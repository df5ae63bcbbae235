-- ===== src/HaMqtt/Payloads.antt =====
-- The states and attributes that bridge/internal/hamqtt/publisher.go publishes.
use ajax_bridge.Prelude.{Bool, false, List, [], ◌∷◌, if◌then◌else◌, Bytes, codes, is_empty}
use ajax_bridge.Integer.{ℤ, pos}
use ajax_bridge.Time.{Time, is_zero}
use ajax_bridge.Dict.{Dict, put}
use ajax_bridge.State.Accounts.{Account}
use ajax_bridge.State.Zones.{Zone}
use ajax_bridge.HaMqtt.Topics.{or_fallback}

pub record ZonePayload : Type 0 where
  pub source_id : Bytes
  pub account : Bytes
  pub partition : Bytes
  pub group : Bytes
  pub zone : Bytes
  pub device : Bytes
  pub device_name : Bytes
  pub room : Bytes
  pub kind : Bytes
  pub device_events : List Bytes
  pub alarm_active : Bool
  pub alarm_signal : Bytes
  pub alarm_action : Bytes
  pub alarm_event_code : Bytes
  pub alarm_event_name : Bytes
  pub tamper_active : Bool
  pub trouble_active : Bool
  pub signal_active : Dict Bool
  pub last_event_code : Bytes
  pub last_event_name : Bytes
  pub last_signal : Bytes
  pub last_event_at : Bytes
  pub last_event_unix : ℤ
  pub alarm_started_at : Bytes
  pub alarm_started_unix : ℤ

pub record AccountPayload : Type 0 where
  pub source_id : Bytes
  pub account : Bytes
  pub online : Bool
  pub mode : Bytes
  pub armed : Bool
  pub night_mode : Bool
  pub partially_armed : Bool
  pub alarm_active : Bool
  pub tamper_active : Bool
  pub trouble_active : Bool
  pub last_event_code : Bytes
  pub last_event_name : Bytes
  pub last_signal : Bytes
  pub last_event_at : Bytes
  pub last_event_unix : ℤ
  pub last_ping_at : Bytes
  pub last_ping_unix : ℤ

pub record AccountAttributesPayload : Type 0 where
  pub source_id : Bytes
  pub account : Bytes

pub record ZoneAttributesPayload : Type 0 where
  pub source_id : Bytes
  pub account : Bytes
  pub partition : Bytes
  pub group : Bytes
  pub zone : Bytes
  pub device : Bytes
  pub device_name : Bytes
  pub room : Bytes
  pub kind : Bytes
  pub device_events : List Bytes

-- What the standard library writes: time.RFC3339, and time.Unix in seconds.
pub record Clock : Type 0 where
  pub rfc3339 : Time → Bytes
  pub unix : Time → ℤ

unfoldable pub mqtt_time : Clock → Time → Bytes
mqtt_time clock t = if is_zero t then [] else clock.rfc3339 t

unfoldable pub unix_time : Clock → Time → ℤ
unix_time clock t = if is_zero t then pos 0 else clock.unix t

-- The first loop of `zoneState`.
unfoldable pub event_signals : List Bytes → Dict Bool → Dict Bool
event_signals [] m = m
event_signals (s ∷ ss) m = event_signals ss (if is_empty s then m else put s false m)

-- The second loop of `zoneState`.
unfoldable pub active_signals : Dict Bool → Dict Bool → Dict Bool
active_signals [] m = m
active_signals ((s, active) ∷ ss) m = active_signals ss (if is_empty s then m else put s active m)

unfoldable pub zone_state : Clock → Bytes → Zone → ZonePayload
zone_state clock source z = record {
  source_id = source;
  account = z.account;
  partition = z.partition;
  group = z.group;
  zone = z.zone;
  device = or_fallback z.device z.zone;
  device_name = z.device_name;
  room = z.room;
  kind = z.kind;
  device_events = z.device_events;
  alarm_active = z.alarm_active;
  alarm_signal = or_fallback z.alarm_signal (codes "none");
  alarm_action = or_fallback z.alarm_action (codes "none");
  alarm_event_code = z.alarm_event_code;
  alarm_event_name = z.alarm_event_name;
  tamper_active = z.tamper_active;
  trouble_active = z.trouble_active;
  signal_active = active_signals z.signal_active (event_signals z.device_events []);
  last_event_code = z.last_event_code;
  last_event_name = z.last_event_name;
  last_signal = z.last_signal;
  last_event_at = mqtt_time clock z.last_event_at;
  last_event_unix = unix_time clock z.last_event_at;
  alarm_started_at = mqtt_time clock z.alarm_started_at;
  alarm_started_unix = unix_time clock z.alarm_started_at;
}

unfoldable pub account_state : Clock → Bytes → Account → AccountPayload
account_state clock source a = record {
  source_id = source;
  account = a.account;
  online = a.online;
  mode = a.mode;
  armed = a.armed;
  night_mode = a.night_mode;
  partially_armed = a.partially_armed;
  alarm_active = a.alarm_active;
  tamper_active = a.tamper_active;
  trouble_active = a.trouble_active;
  last_event_code = a.last_event_code;
  last_event_name = a.last_event_name;
  last_signal = a.last_signal;
  last_event_at = mqtt_time clock a.last_event_at;
  last_event_unix = unix_time clock a.last_event_at;
  last_ping_at = mqtt_time clock a.last_ping_at;
  last_ping_unix = unix_time clock a.last_ping_at;
}

unfoldable pub account_attributes : Bytes → Account → AccountAttributesPayload
account_attributes source a = record { source_id = source; account = a.account }

unfoldable pub zone_attributes : Bytes → Zone → ZoneAttributesPayload
zone_attributes source z = record {
  source_id = source;
  account = z.account;
  partition = z.partition;
  group = z.group;
  zone = z.zone;
  device = or_fallback z.device z.zone;
  device_name = z.device_name;
  room = z.room;
  kind = z.kind;
  device_events = z.device_events;
}
