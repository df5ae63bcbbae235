-- ===== src/Jeedom/Mapping.antt =====
-- `MappingFor` of bridge/internal/jeedom/mapping.go and the mappings it is made of, with the rows in the
-- order of the source. The hash of `Slug` is a parameter.
pub mod Valid
use ajax_bridge.Prelude.{
  ℕ, Bool, true, false, ◌&&◌, ◌||◌, not, Option, none, some, List, [], ◌∷◌, ◌++◌, if◌then◌else◌,
  Bytes, codes, map, eqb, is_empty,
}
use ajax_bridge.Text.{to_lower}
use ajax_bridge.Jeedom.Runes.{lower_rune, upper_rune, trim_runes}
use ajax_bridge.Jeedom.Slug.{repair_text, metric_name}
use ajax_bridge.Jeedom.Keys.{command_key, canonical_command_key, first_row, or_default}
use ajax_bridge.Jeedom.Translation.{first_non_empty, translate_command_label, title_name}
use ajax_bridge.Jeedom.Parser.{Event}
use ajax_bridge.Jeedom.Electrical.{
  Mapping, sensor_mapping, diagnostic_sensor_mapping, binary_mapping, diagnostic_binary_mapping,
  electrical_mapping, energy_mapping,
}
use ajax_bridge.Jeedom.Contract.{unit_or, is_subtype, channel_signal_mapping, contract_mapping_for}

-- firstNonEmpty(translateCommandLabel(command), titleName(command))
abbrev pub label_of : Bytes → Bytes
label_of command = first_non_empty (translate_command_label command ∷ title_name command ∷ [])

module _ (short_hash : Bytes → Bytes) where
  -- MetricName(command, "cmd_"+evt.CommandID)
  abbrev pub metric_of : Event → Bytes → Bytes
  metric_of evt command = metric_name short_hash command (codes "cmd_" ++ evt.command_id)

  unfoldable pub fallback_mapping : Event → Bytes → Bytes → Mapping
  fallback_mapping evt command unit =
      let metric = metric_of evt command in
      let name = label_of command in
      let subtype = map lower_rune (trim_runes evt.subtype) in
      let mapping =
        if eqb subtype (codes "numeric")
        then sensor_mapping (metric ++ codes "_value") name unit [] (codes "measurement") true
        else if eqb subtype (codes "binary")
        then binary_mapping metric name []
        else sensor_mapping metric name unit [] [] false in
      record mapping { fallback = true }

  -- The switch of `MappingFor`.
  unfoldable pub mapping_rows : Event → Bytes → Bytes → List (List Bytes × Mapping)
  mapping_rows evt command unit =
      (codes "puissance" ∷ codes "power" ∷ [], electrical_mapping (codes "power") unit)
      ∷ (codes "consommation" ∷ codes "energy" ∷ codes "consumption" ∷ [], energy_mapping unit)
      ∷ (codes "courant" ∷ codes "current" ∷ [], electrical_mapping (codes "current") unit)
      ∷ (
        codes "tension" ∷ codes "voltage" ∷ [],
        sensor_mapping (codes "voltage_v") (codes "Voltage") (unit_or unit (codes "V"))
            (codes "voltage") (codes "measurement") true,
      )
      ∷ (
        codes "temperature" ∷ codes "temp" ∷ [],
        sensor_mapping (codes "temperature_c") (codes "Temperature") (unit_or unit (codes "°C"))
            (codes "temperature") (codes "measurement") true,
      )
      ∷ (
        codes "batterie" ∷ codes "battery" ∷ [],
        sensor_mapping (codes "battery_percent") (codes "Battery") (unit_or unit (codes "%"))
            (codes "battery") (codes "measurement") true,
      )
      ∷ (
        codes "etatdelabatterie" ∷ codes "batterystate" ∷ [],
        diagnostic_sensor_mapping (codes "battery_state") (codes "Battery state") unit [] [] false,
      )
      ∷ (
        codes "signal" ∷ codes "rssi" ∷ [],
        if is_subtype evt (codes "numeric")
            then sensor_mapping (codes "signal_dbm") (codes "Signal") (unit_or unit (codes "dBm"))
                (codes "signal_strength") (codes "measurement") true
            else diagnostic_sensor_mapping (codes "signal_level") (codes "Signal") [] [] [] false,
      )
      ∷ (
        codes "intensitedusignalcellulaire" ∷ codes "cellularsignalstrength" ∷ [],
        if is_subtype evt (codes "numeric")
            then diagnostic_sensor_mapping (codes "gsm_signal_dbm") (codes "GSM signal")
                (unit_or unit (codes "dBm")) (codes "signal_strength") (codes "measurement") true
            else diagnostic_sensor_mapping (codes "gsm_signal_level") (codes "GSM signal") [] [] []
                false,
      )
      ∷ (
        codes "humidite" ∷ codes "humidity" ∷ [],
        sensor_mapping (codes "humidity_percent") (codes "Humidity") (unit_or unit (codes "%"))
            (codes "humidity") (codes "measurement") true,
      )
      ∷ (
        codes "co2" ∷ [],
        sensor_mapping (codes "co2_ppm") (codes "Carbon dioxide") (unit_or unit (codes "ppm"))
            (codes "carbon_dioxide") (codes "measurement") true,
      )
      ∷ (
        codes "etat" ∷ codes "state" ∷ codes "status" ∷ [],
        if is_subtype evt (codes "binary")
            then binary_mapping (codes "state") (codes "State") []
            else sensor_mapping (codes "state") (codes "State") unit [] [] false,
      )
      ∷ (
        codes "sourceevenement" ∷ codes "eventsource" ∷ [],
        diagnostic_sensor_mapping (codes "event_source") (codes "Event source") unit [] [] false,
      )
      ∷ (
        codes "evenement" ∷ codes "event" ∷ [],
        diagnostic_sensor_mapping (codes "event") (codes "Event") unit [] [] false,
      )
      ∷ (
        codes "codeevenement" ∷ codes "eventcode" ∷ [],
        diagnostic_sensor_mapping (codes "event_code") (codes "Event code") unit [] [] false,
      )
      ∷ (
        codes "enligne" ∷ codes "online" ∷ [],
        diagnostic_binary_mapping (codes "online") (codes "Online") (codes "connectivity"),
      )
      ∷ (
        codes "trafique" ∷ codes "tampered" ∷ codes "tamper" ∷ codes "sabotage" ∷ [],
        binary_mapping (codes "tamper") (codes "Tamper") (codes "tamper"),
      )
      ∷ (
        codes "alimentationsecteur"
            ∷ codes "externallypowered"
            ∷ codes "externalpower"
            ∷ codes "mainspower"
            ∷ [],
        binary_mapping (codes "external_power") (codes "External power") (codes "power"),
      )
      ∷ (
        codes "gsm" ∷ codes "cms" ∷ codes "ethernet" ∷ [],
        diagnostic_binary_mapping (metric_of evt command) (label_of command) (codes "connectivity"),
      )
      ∷ (
        codes "typereseaugsm" ∷ codes "gsmnetworktype" ∷ [],
        diagnostic_sensor_mapping (codes "gsm_network_type") (codes "GSM network type") unit [] []
            false,
      )
      ∷ (
        codes "donneescellulairesactives" ∷ codes "cellulardataactive" ∷ [],
        diagnostic_binary_mapping (codes "cellular_data_active") (codes "Cellular data active")
            (codes "connectivity"),
      )
      ∷ (
        codes "ouverture" ∷ codes "opening" ∷ [],
        binary_mapping (codes "opening") (codes "Opening") (codes "opening"),
      )
      ∷ (
        codes "porte" ∷ codes "door" ∷ [],
        binary_mapping (codes "door") (codes "Door") (codes "door"),
      )
      ∷ (
        codes "fuite" ∷ codes "leak" ∷ [],
        binary_mapping (codes "leak") (codes "Leak") (codes "moisture"),
      )
      ∷ (
        codes "issuecount" ∷ [],
        diagnostic_sensor_mapping (codes "issue_count") (codes "Issue count") unit []
            (codes "measurement") true,
      )
      ∷ (
        codes "firmwareversion" ∷ [],
        diagnostic_sensor_mapping (codes "firmware_version") (codes "Firmware version") unit [] []
            false,
      )
      ∷ (
        codes "operatingmode" ∷ [],
        diagnostic_sensor_mapping (codes "operating_mode") (codes "Operating mode") unit [] []
            false,
      )
      ∷ (
        codes "operatingstate" ∷ [],
        diagnostic_sensor_mapping (codes "operating_state") (codes "Operating state") unit [] []
            false,
      )
      ∷ (
        codes "batterycheckstatus" ∷ [],
        diagnostic_sensor_mapping (codes "battery_check_status") (codes "Battery check status") unit
            [] [] false,
      )
      ∷ (
        codes "lastupdate" ∷ [],
        record (diagnostic_sensor_mapping (codes "device_last_update") (codes "Last update") []
            (codes "timestamp") [] false) { timestamp = true },
      )
      ∷ (
        codes "valveposition" ∷ [],
        sensor_mapping (codes "valve_position") (codes "Valve position") unit [] [] false,
      )
      ∷ (
        codes "smokealarm" ∷ [],
        binary_mapping (codes "smoke_alarm") (codes "Smoke alarm") (codes "smoke"),
      )
      ∷ (
        codes "criticalsmokealarm" ∷ [],
        binary_mapping (codes "critical_smoke_alarm") (codes "Critical smoke alarm")
            (codes "smoke"),
      )
      ∷ (
        codes "heatalarm" ∷ [],
        binary_mapping (codes "heat_alarm") (codes "Heat alarm") (codes "heat"),
      )
      ∷ (
        codes "rapidtemperaturerisealarm" ∷ [],
        binary_mapping (codes "rapid_temperature_rise_alarm") (codes "Rapid temperature rise alarm")
            (codes "heat"),
      )
      ∷ (
        codes "carbonmonoxidealarm" ∷ [],
        binary_mapping (codes "carbon_monoxide_alarm") (codes "Carbon monoxide alarm")
            (codes "carbon_monoxide"),
      )
      ∷ (
        codes "criticalcarbonmonoxidealarm" ∷ [],
        binary_mapping (codes "critical_carbon_monoxide_alarm")
            (codes "Critical carbon monoxide alarm") (codes "carbon_monoxide"),
      )
      ∷ (
        codes "radioconnection" ∷ [],
        diagnostic_binary_mapping (codes "radio_connection") (codes "Radio connection")
            (codes "connectivity"),
      )
      ∷ (
        codes "photochannelconnection" ∷ [],
        diagnostic_binary_mapping (codes "photo_channel_connection")
            (codes "Photo channel connection") (codes "connectivity"),
      )
      ∷ (
        codes "photochannelsignal" ∷ [],
        channel_signal_mapping (codes "photo_channel_signal") (codes "Photo channel signal")
            evt.subtype unit,
      )
      ∷ (
        codes "ethernetenabled" ∷ [],
        diagnostic_binary_mapping (codes "ethernet_enabled") (codes "Ethernet enabled") [],
      )
      ∷ (
        codes "ethernetconnected" ∷ [],
        diagnostic_binary_mapping (codes "ethernet_connected") (codes "Ethernet connected")
            (codes "connectivity"),
      )
      ∷ (
        codes "jewellerantennastatus" ∷ [],
        diagnostic_sensor_mapping (codes "jeweller_antenna_status")
            (codes "Jeweller antenna status") unit [] [] false,
      )
      ∷ (
        codes "wingsantennastatus" ∷ [],
        diagnostic_sensor_mapping (codes "wings_antenna_status") (codes "Wings antenna status") unit
            [] [] false,
      )
      ∷ (
        codes "batterycharging" ∷ [],
        diagnostic_binary_mapping (codes "battery_charging") (codes "Battery charging")
            (codes "battery_charging"),
      )
      ∷ (
        codes "batteryfault" ∷ [],
        diagnostic_binary_mapping (codes "battery_fault") (codes "Battery fault") (codes "problem"),
      )
      ∷ (
        codes "detectorpowerfault" ∷ [],
        diagnostic_binary_mapping (codes "detector_power_fault") (codes "Detector power fault")
            (codes "problem"),
      )
      ∷ (
        codes "firedetectorpowerfault" ∷ [],
        diagnostic_binary_mapping (codes "fire_detector_power_fault")
            (codes "Fire detector power fault") (codes "problem"),
      )
      ∷ (
        codes "detectorpowerundervoltage" ∷ [],
        diagnostic_binary_mapping (codes "detector_power_undervoltage")
            (codes "Detector power undervoltage") (codes "problem"),
      )
      ∷ (
        codes "firedetectorpowerundervoltage" ∷ [],
        diagnostic_binary_mapping (codes "fire_detector_power_undervoltage")
            (codes "Fire detector power undervoltage") (codes "problem"),
      )
      ∷ (
        codes "fibrapowertest" ∷ [],
        diagnostic_sensor_mapping (codes "fibra_power_test") (codes "Fibra power test") unit [] []
            false,
      )
      ∷ (
        codes "chargerfault" ∷ [],
        diagnostic_binary_mapping (codes "charger_fault") (codes "Charger fault") (codes "problem"),
      )
      ∷ (
        codes "chargerfaults" ∷ [],
        diagnostic_sensor_mapping (codes "charger_faults") (codes "Charger faults") unit [] []
            false,
      )
      ∷ (
        codes "batterychargerfaults" ∷ [],
        diagnostic_sensor_mapping (codes "battery_charger_faults")
            (codes "Battery and charger faults") unit [] [] false,
      )
      ∷ (
        codes "datachannelstatus" ∷ [],
        diagnostic_sensor_mapping (codes "data_channel_status") (codes "Data channel status") unit
            [] [] false,
      )
      ∷ (
        codes "datachannelsignal" ∷ [],
        channel_signal_mapping (codes "data_channel_signal") (codes "Data channel signal")
            evt.subtype unit,
      )
      ∷ (
        codes "detectorsupplystate" ∷ [],
        diagnostic_sensor_mapping (codes "detector_supply_state") (codes "Detector supply state")
            unit [] [] false,
      )
      ∷ (
        codes "firedetectorsupplystate" ∷ [],
        diagnostic_sensor_mapping (codes "fire_detector_supply_state")
            (codes "Fire detector supply state") unit [] [] false,
      )
      ∷ []

  unfoldable pub mapping_for : Event → Mapping
  mapping_for evt =
      let command = first_non_empty (evt.command_name ∷ evt.name ∷ evt.command_id ∷ []) in
      let unit = trim_runes (repair_text evt.unit) in
      let named =
        or_default (fallback_mapping evt command unit) (
          first_row (canonical_command_key (command_key command))
            (mapping_rows evt command unit)) in
      or_default named (contract_mapping_for evt unit)
