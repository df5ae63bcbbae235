-- ===== src/HaMqtt/Entities.antt =====
-- The entities of accounts and zones, and the signals of a zone: bridge/internal/hamqtt/publisher.go.
pub mod Sorted
use ajax_bridge.Prelude.{
  ℕ, Bool, true, false, ◌&&◌, ◌||◌, not, Option, none, some, List, [], ◌∷◌, ◌++◌, ◌==◌, ltb,
  if◌then◌else◌, String, Bytes, codes, is_empty, eqb, map,
}
use ajax_bridge.Text.{is_space, upper_byte}
use ajax_bridge.Text.Words.{split_words, join_words}
use ajax_bridge.Dict.{Dict}
use ajax_bridge.State.Zones.{Zone}
use ajax_bridge.Jeedom.Keys.{first_row, or_default}

-- `entity`
pub record Entity : Type 0 where
  pub component : Bytes
  pub object_id : Bytes
  pub name : Bytes
  pub value_template : Bytes
  pub device_class : Bytes
  pub entity_category : Bytes
  pub icon : Bytes
  pub binary : Bool

unfoldable pub binary_entity : Bytes → Bytes → Bytes → Bytes → Bytes → Entity
binary_entity object_id name device_class icon template = record {
  component = codes "binary_sensor";
  object_id = object_id;
  name = name;
  value_template = template;
  device_class = device_class;
  entity_category = [];
  icon = icon;
  binary = true;
}

unfoldable pub sensor_entity : Bytes → Bytes → Bytes → Bytes → Bytes → Entity
sensor_entity object_id name device_class icon template = record {
  component = codes "sensor";
  object_id = object_id;
  name = name;
  value_template = template;
  device_class = device_class;
  entity_category = [];
  icon = icon;
  binary = false;
}

-- "{{ 'ON' if " + condition + " else 'OFF' }}"
abbrev pub on_off : String → Bytes
on_off condition = codes "{{ 'ON' if " ++ (codes condition ++ codes " else 'OFF' }}")

unfoldable pub account_entities : Bytes → List Entity
account_entities account =
    let base = codes "account_" ++ (account ++ codes "_") in
    binary_entity (base ++ codes "online") (codes "Online") (codes "connectivity") []
      (on_off "value_json.online")
    ∷ binary_entity (base ++ codes "armed") (codes "Armed") [] (codes "mdi:shield-lock")
        (on_off "value_json.armed")
    ∷ binary_entity (base ++ codes "night_mode") (codes "Night mode") [] (codes "mdi:weather-night")
        (on_off "value_json.night_mode")
    ∷ binary_entity (base ++ codes "partially_armed") (codes "Partially armed") []
        (codes "mdi:shield-half-full") (on_off "value_json.partially_armed")
    ∷ binary_entity (base ++ codes "alarm_active") (codes "Alarm active") (codes "safety") []
        (on_off "value_json.alarm_active")
    ∷ binary_entity (base ++ codes "tamper_active") (codes "Tamper active") (codes "tamper") []
        (on_off "value_json.tamper_active")
    ∷ binary_entity (base ++ codes "trouble_active") (codes "Trouble active") (codes "problem") []
        (on_off "value_json.trouble_active")
    ∷ sensor_entity (base ++ codes "mode") (codes "Mode") [] (codes "mdi:shield-home")
        (codes "{{ value_json.mode }}")
    ∷ sensor_entity (base ++ codes "last_event_name") (codes "Last event") []
        (codes "mdi:message-alert") (codes "{{ value_json.last_event_name }}")
    ∷ sensor_entity (base ++ codes "last_event_code") (codes "Last event code") []
        (codes "mdi:identifier") (codes "{{ value_json.last_event_code }}")
    ∷ sensor_entity (base ++ codes "last_signal") (codes "Last signal") [] (codes "mdi:signal")
        (codes "{{ value_json.last_signal }}")
    ∷ sensor_entity (base ++ codes "last_event_at") (codes "Last event time") (codes "timestamp") []
        (codes "{{ value_json.last_event_at }}")
    ∷ sensor_entity (base ++ codes "last_ping_at") (codes "Last ping time") (codes "timestamp") []
        (codes "{{ value_json.last_ping_at }}")
    ∷ []

-- a < b, of strings
unfoldable pub text_less : Bytes → Bytes → Bool
text_less s [] = false
text_less [] (d ∷ t) = true
text_less (c ∷ s) (d ∷ t) = let rest = text_less s t in ltb c d || (c == d && rest)

-- A signal in a sorted list, once: the set of `sortedSignals` and its sorting in one.
unfoldable pub insert_signal : Bytes → List Bytes → List Bytes
insert_signal signal [] = signal ∷ []
insert_signal signal (s ∷ signals) =
    let rest = insert_signal signal signals in
    if text_less signal s
    then signal ∷ s ∷ signals
    else if eqb signal s
    then s ∷ signals
    else s ∷ rest

unfoldable pub insert_signals : List Bytes → List Bytes → List Bytes
insert_signals [] sorted = sorted
insert_signals (signal ∷ signals) sorted =
    let rest = insert_signals signals sorted in
    if is_empty signal then rest else insert_signal signal rest

-- The keys of the map.
abbrev pub keys : Dict Bool → List Bytes
keys m = map (λ e. e.0) m

unfoldable pub sorted_signals : List Bytes → Dict Bool → List Bytes
sorted_signals events active = insert_signals (events ++ keys active) []

-- The switch of `signalPresentation`.
unfoldable pub presentation_rows : List (List Bytes × (Bytes × Bytes))
presentation_rows =
    (codes "battery" ∷ [], (codes "battery", []))
    ∷ (codes "co" ∷ codes "gas" ∷ codes "gas_or_co" ∷ [], (codes "gas", []))
    ∷ (
      codes "connectivity"
          ∷ codes "hardware"
          ∷ codes "fire_detector"
          ∷ codes "interference"
          ∷ codes "accelerometer"
          ∷ codes "bypass"
          ∷ codes "tamper_bypass"
          ∷ [],
      (codes "problem", []),
    )
    ∷ (
      codes "duress"
          ∷ codes "emergency"
          ∷ codes "fire"
          ∷ codes "medical"
          ∷ codes "panic"
          ∷ codes "temperature"
          ∷ [],
      (codes "safety", []),
    )
    ∷ (codes "power" ∷ [], (codes "problem", codes "mdi:power-plug-off"))
    ∷ (codes "smoke" ∷ [], (codes "smoke", []))
    ∷ (codes "tamper" ∷ [], (codes "tamper", []))
    ∷ (codes "water_leak" ∷ [], (codes "moisture", []))
    ∷ (codes "arming" ∷ [], ([], codes "mdi:shield-lock"))
    ∷ (codes "burglary" ∷ [], (codes "safety", codes "mdi:shield-alert"))
    ∷ (codes "configuration" ∷ [], ([], codes "mdi:cog"))
    ∷ (codes "firmware" ∷ [], ([], codes "mdi:update"))
    ∷ (codes "night_mode" ∷ [], ([], codes "mdi:weather-night"))
    ∷ []

unfoldable pub signal_presentation : Bytes → Bytes × Bytes
signal_presentation signal = or_default (codes "problem", []) (first_row signal presentation_rows)

abbrev pub upper_first : Bytes → Bytes
upper_first [] = []
upper_first (c ∷ s) = upper_byte c ∷ s

unfoldable pub title_label : Bytes → Bytes
title_label value =
    join_words upper_first (split_words is_space (map (λ c. if c == b'_' then b' ' else c) value))

-- The switch of `signalName`.
unfoldable pub signal_rows : List (List Bytes × Bytes)
signal_rows =
    (codes "battery" ∷ [], codes "Battery low")
    ∷ (codes "burglary" ∷ [], codes "Burglary")
    ∷ (codes "bypass" ∷ [], codes "Bypassed")
    ∷ (codes "co" ∷ [], codes "Carbon monoxide")
    ∷ (codes "connectivity" ∷ [], codes "Connection lost")
    ∷ (codes "fire_detector" ∷ [], codes "Fire detector fault")
    ∷ (codes "gas_or_co" ∷ [], codes "Gas or CO")
    ∷ (codes "hardware" ∷ [], codes "Hardware fault")
    ∷ (codes "night_mode" ∷ [], codes "Night mode")
    ∷ (codes "power" ∷ [], codes "Power failure")
    ∷ (codes "temperature" ∷ [], codes "Temperature alarm")
    ∷ (codes "tamper_bypass" ∷ [], codes "Tamper bypassed")
    ∷ (codes "water_leak" ∷ [], codes "Water leak")
    ∷ []

unfoldable pub signal_name : Bytes → Bytes
signal_name signal = or_default (title_label signal) (first_row signal signal_rows)

unfoldable pub signal_object_suffix : Bytes → Bytes
signal_object_suffix signal =
    if eqb signal (codes "power")
    then codes "signal_power_failure"
    else if eqb signal (codes "temperature")
    then codes "signal_temperature_alarm"
    else codes "signal_" ++ signal

unfoldable pub legacy_signal_object_suffixes : Bytes → List Bytes
legacy_signal_object_suffixes signal =
    if eqb signal (codes "power")
    then codes "signal_power" ∷ codes "power" ∷ []
    else if eqb signal (codes "temperature")
    then codes "signal_temperature" ∷ codes "temperature" ∷ []
    else []

unfoldable pub signal_entity : Bytes → Bytes → Entity
signal_entity base signal =
    let shown = signal_presentation signal in
    binary_entity (base ++ signal_object_suffix signal) (signal_name signal) shown.0 shown.1 (
      codes "{{ 'ON' if value_json.signal_active.get('"
      ++ (signal ++ codes "', false) else 'OFF' }}"))

-- "zone_" + zone.Account + "_" + zone.Zone + "_"
abbrev pub zone_base : Zone → Bytes
zone_base z = codes "zone_" ++ (z.account ++ (b'_' ∷ z.zone ++ codes "_"))

-- The entities that every zone has.
unfoldable pub fixed_entities : Bytes → List Entity
fixed_entities base =
    binary_entity (base ++ codes "alarm_active") (codes "Alarm active") (codes "safety") []
      (on_off "value_json.alarm_active")
    ∷ binary_entity (base ++ codes "tamper_active") (codes "Tamper active") (codes "tamper") []
        (on_off "value_json.tamper_active")
    ∷ binary_entity (base ++ codes "trouble_active") (codes "Trouble active") (codes "problem") []
        (on_off "value_json.trouble_active")
    ∷ sensor_entity (base ++ codes "last_event_name") (codes "Last event") []
        (codes "mdi:message-alert") (codes "{{ value_json.last_event_name }}")
    ∷ sensor_entity (base ++ codes "last_event_code") (codes "Last event code") []
        (codes "mdi:identifier") (codes "{{ value_json.last_event_code }}")
    ∷ sensor_entity (base ++ codes "last_signal") (codes "Last signal") [] (codes "mdi:signal")
        (codes "{{ value_json.last_signal }}")
    ∷ sensor_entity (base ++ codes "last_event_at") (codes "Last event time") (codes "timestamp") []
        (codes "{{ value_json.last_event_at }}")
    ∷ sensor_entity (base ++ codes "alarm_signal") (codes "Alarm signal") []
        (codes "mdi:alarm-light") (codes "{{ value_json.alarm_signal }}")
    ∷ sensor_entity (base ++ codes "alarm_action") (codes "Alarm action") []
        (codes "mdi:alarm-light-outline") (codes "{{ value_json.alarm_action }}")
    ∷ []

unfoldable pub zone_entities : Zone → List Entity
zone_entities z =
    fixed_entities (zone_base z)
    ++ map (signal_entity (zone_base z)) (sorted_signals z.device_events z.signal_active)
