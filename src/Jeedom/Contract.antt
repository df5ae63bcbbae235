-- ===== src/Jeedom/Contract.antt =====
-- `contractMappingFor` of bridge/internal/jeedom/mapping.go: the mappings by identifiers of the plugin.
use ajax_bridge.Prelude.{
  Bool, true, false, Option, none, some, List, [], ◌∷◌, if◌then◌else◌, Bytes, codes, map, eqb,
}
use ajax_bridge.Text.{to_lower}
use ajax_bridge.Jeedom.Runes.{upper_rune, trim_runes}
use ajax_bridge.Jeedom.Slug.{repair_text}
use ajax_bridge.Jeedom.Keys.{command_key, first_row, or_default}
use ajax_bridge.Jeedom.Translation.{first_non_empty}
use ajax_bridge.Jeedom.Parser.{Event}
use ajax_bridge.Jeedom.Electrical.{
  Mapping, sensor_mapping, diagnostic_sensor_mapping, diagnostic_binary_mapping, electrical_mapping,
}

-- firstNonEmpty(unit, other)
abbrev pub unit_or : Bytes → Bytes → Bytes
unit_or unit other = first_non_empty (unit ∷ other ∷ [])

-- strings.EqualFold(strings.TrimSpace(evt.Subtype), kind)
abbrev pub is_subtype : Event → Bytes → Bool
is_subtype evt kind = eqb (to_lower (trim_runes evt.subtype)) kind

unfoldable pub channel_signal_mapping : Bytes → Bytes → Bytes → Bytes → Mapping
channel_signal_mapping metric name subtype unit =
    if eqb (to_lower (trim_runes subtype)) (codes "numeric")
    then record (sensor_mapping metric name (unit_or unit (codes "dBm")) (codes "signal_strength")
        (codes "measurement") true) { entity_category = codes "diagnostic" }
    else diagnostic_sensor_mapping metric name [] [] [] false

-- The cases of `contractSensorMapping`.
unfoldable pub contract_sensor_mapping : Bytes → Bytes → Mapping
contract_sensor_mapping kind unit =
    or_default
      (record {
        metric = [];
        component = [];
        entity_name = [];
        unit = [];
        device_class = [];
        state_class = [];
        entity_category = [];
        numeric = false;
        binary = false;
        timestamp = false;
        fallback = false;
      })
      (first_row kind (
        (
          codes "temperature" ∷ [],
          sensor_mapping (codes "temperature_c") (codes "Temperature") (unit_or unit (codes "°C"))
              (codes "temperature") (codes "measurement") true,
        )
        ∷ (
          codes "humidity" ∷ [],
          sensor_mapping (codes "humidity_percent") (codes "Humidity") (unit_or unit (codes "%"))
              (codes "humidity") (codes "measurement") true,
        )
        ∷ (
          codes "co2" ∷ [],
          sensor_mapping (codes "co2_ppm") (codes "Carbon dioxide") (unit_or unit (codes "ppm"))
              (codes "carbon_dioxide") (codes "measurement") true,
        )
        ∷ (
          codes "battery" ∷ [],
          sensor_mapping (codes "battery_percent") (codes "Battery") (unit_or unit (codes "%"))
              (codes "battery") (codes "measurement") true,
        )
        ∷ []))

-- The first switch of `contractMappingFor`.
unfoldable pub logical_rows : Event → Bytes → List (List Bytes × Mapping)
logical_rows evt unit =
    (
      codes "activechannelethernet" ∷ [],
      diagnostic_binary_mapping (codes "ethernet_active") (codes "Ethernet active")
          (codes "connectivity"),
    )
    ∷ (
      codes "activechannelwifi" ∷ [],
      diagnostic_binary_mapping (codes "wifi_active") (codes "Wi-Fi active") (codes "connectivity"),
    )
    ∷ (
      codes "activechannelgsm" ∷ [],
      diagnostic_binary_mapping (codes "gsm_active") (codes "GSM active") (codes "connectivity"),
    )
    ∷ (
      codes "ethernetenabled" ∷ [],
      diagnostic_binary_mapping (codes "ethernet_enabled") (codes "Ethernet enabled") [],
    )
    ∷ (
      codes "gsmgprsenabled" ∷ [],
      diagnostic_binary_mapping (codes "cellular_data_enabled") (codes "Cellular data enabled") [],
    )
    ∷ (
      codes "wifienabled" ∷ [],
      diagnostic_binary_mapping (codes "wifi_enabled") (codes "Wi-Fi enabled") [],
    )
    ∷ (
      codes "wifisignallevel" ∷ [],
      diagnostic_sensor_mapping (codes "wifi_signal_level") (codes "Wi-Fi signal") [] [] [] false,
    )
    ∷ (
      codes "gsmsignallevel" ∷ [],
      if is_subtype evt (codes "numeric")
          then diagnostic_sensor_mapping (codes "gsm_signal_dbm") (codes "GSM signal")
              (unit_or unit (codes "dBm")) (codes "signal_strength") (codes "measurement") true
          else diagnostic_sensor_mapping (codes "gsm_signal_level") (codes "GSM signal") [] [] []
              false,
    )
    ∷ (
      codes "noiselevelhigh" ∷ [],
      diagnostic_binary_mapping (codes "jeweller_interference") (codes "Jeweller interference")
          (codes "problem"),
    )
    ∷ (
      codes "noiselevelavgvaluechannel1" ∷ [],
      diagnostic_sensor_mapping (codes "jeweller_noise_channel_1")
          (codes "Jeweller noise channel 1") unit [] (codes "measurement") true,
    )
    ∷ (
      codes "noiselevelavgvaluechannel2" ∷ [],
      diagnostic_sensor_mapping (codes "jeweller_noise_channel_2")
          (codes "Jeweller noise channel 2") unit [] (codes "measurement") true,
    )
    ∷ (
      codes "noiselevelavgvaluedatachannel" ∷ [],
      diagnostic_sensor_mapping (codes "wings_noise") (codes "Wings noise") unit []
          (codes "measurement") true,
    )
    ∷ (
      codes "jewellerlostheartbeatsthreshold" ∷ [],
      diagnostic_sensor_mapping (codes "jeweller_lost_heartbeats_threshold")
          (codes "Jeweller lost-heartbeat threshold") unit [] (codes "measurement") true,
    )
    ∷ (
      codes "jewellerdetectorpingintervalseconds" ∷ [],
      diagnostic_sensor_mapping (codes "jeweller_ping_interval") (codes "Jeweller ping interval")
          (unit_or unit (codes "s")) (codes "duration") (codes "measurement") true,
    )
    ∷ (codes "currentma" ∷ [], electrical_mapping (codes "current") unit)
    ∷ (codes "powerwth" ∷ [], electrical_mapping (codes "power") unit)
    ∷ (
      codes "temperature" ∷ codes "actualtemperature" ∷ [],
      contract_sensor_mapping (codes "temperature") unit,
    )
    ∷ (
      codes "humidity" ∷ codes "actualhumidity" ∷ [],
      contract_sensor_mapping (codes "humidity") unit,
    )
    ∷ (codes "co2" ∷ codes "actualco2" ∷ [], contract_sensor_mapping (codes "co2") unit)
    ∷ (codes "batterychargelevelpercentage" ∷ [], contract_sensor_mapping (codes "battery") unit)
    ∷ []

-- The second switch of `contractMappingFor`.
unfoldable pub generic_rows : Bytes → List (List Bytes × Mapping)
generic_rows unit =
    (codes "CURRENT" ∷ [], electrical_mapping (codes "current") unit)
    ∷ (codes "POWER" ∷ [], electrical_mapping (codes "power") unit)
    ∷ (codes "TEMPERATURE" ∷ [], contract_sensor_mapping (codes "temperature") unit)
    ∷ (codes "HUMIDITY" ∷ [], contract_sensor_mapping (codes "humidity") unit)
    ∷ (codes "CO2" ∷ [], contract_sensor_mapping (codes "co2") unit)
    ∷ (codes "BATTERY" ∷ [], contract_sensor_mapping (codes "battery") unit)
    ∷ []

abbrev pub or_later : {A : Type 0} → Option A → Option A → Option A
or_later none later = later
or_later (some a) later = some a

unfoldable pub contract_mapping_for : Event → Bytes → Option Mapping
contract_mapping_for evt unit =
    or_later (first_row (command_key evt.logical_id) (logical_rows evt unit))
      (first_row (map upper_rune (trim_runes (repair_text evt.generic_type))) (generic_rows unit))
