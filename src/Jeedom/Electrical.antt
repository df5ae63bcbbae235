-- ===== src/Jeedom/Electrical.antt =====
-- bridge/internal/jeedom/electrical.go: the mappings of electrical commands, whose quantity the unit
-- decides, and the mappings of mapping.go that the others are made of.
use ajax_bridge.Prelude.{
  Bool, true, false, Option, none, some, List, [], ◌∷◌, ◌++◌, if◌then◌else◌, Bytes, codes, eqb,
}
use ajax_bridge.Text.{to_lower}
use ajax_bridge.DeviceCatalog.{one_of}
use ajax_bridge.Jeedom.Runes.{trim_runes}

-- `Mapping` of mapping.go
pub record Mapping : Type 0 where
  pub metric : Bytes
  pub component : Bytes
  pub entity_name : Bytes
  pub unit : Bytes
  pub device_class : Bytes
  pub state_class : Bytes
  pub entity_category : Bytes
  pub numeric : Bool
  pub binary : Bool
  pub timestamp : Bool
  pub fallback : Bool

unfoldable pub sensor_mapping : Bytes → Bytes → Bytes → Bytes → Bytes → Bool → Mapping
sensor_mapping metric name unit device_class state_class numeric = record {
  metric = metric;
  component = codes "sensor";
  entity_name = name;
  unit = unit;
  device_class = device_class;
  state_class = state_class;
  entity_category = [];
  numeric = numeric;
  binary = false;
  timestamp = false;
  fallback = false;
}

unfoldable pub diagnostic_sensor_mapping : Bytes → Bytes → Bytes → Bytes → Bytes → Bool → Mapping
diagnostic_sensor_mapping metric name unit device_class state_class numeric =
    record (sensor_mapping metric name unit device_class state_class numeric) {
      entity_category = codes "diagnostic";
    }

unfoldable pub binary_mapping : Bytes → Bytes → Bytes → Mapping
binary_mapping metric name device_class = record {
  metric = metric;
  component = codes "binary_sensor";
  entity_name = name;
  unit = [];
  device_class = device_class;
  state_class = [];
  entity_category = [];
  numeric = false;
  binary = true;
  timestamp = false;
  fallback = false;
}

unfoldable pub diagnostic_binary_mapping : Bytes → Bytes → Bytes → Mapping
diagnostic_binary_mapping metric name device_class =
    record (binary_mapping metric name device_class) { entity_category = codes "diagnostic" }

-- The units whose metric is "energy_" and the unit in small letters.
abbrev pub heat_units : List Bytes
heat_units =
    codes "J"
    ∷ codes "kJ"
    ∷ codes "MJ"
    ∷ codes "GJ"
    ∷ codes "cal"
    ∷ codes "kcal"
    ∷ codes "Mcal"
    ∷ codes "Gcal"
    ∷ []

-- The switch of `energyMappingForUnit`.
unfoldable pub energy_metric : Bytes → Option Bytes
energy_metric unit =
    if eqb unit (codes "mWh")
    then some (codes "energy_milliwh")
    else if eqb unit (codes "Wh")
    then some (codes "energy_wh")
    else if eqb unit (codes "kWh")
    then some (codes "energy_kwh")
    else if eqb unit (codes "MWh")
    then some (codes "energy_mwh")
    else if eqb unit (codes "GWh")
    then some (codes "energy_gwh")
    else if eqb unit (codes "TWh")
    then some (codes "energy_twh")
    else if one_of unit heat_units
    then some (codes "energy_" ++ to_lower unit)
    else none

abbrev pub energy_of : Bytes → Option Bytes → Option Mapping
energy_of unit none = none
energy_of unit (some metric) =
    some
      (sensor_mapping metric (codes "Energy") unit (codes "energy") (codes "total_increasing") true)

unfoldable pub energy_mapping_for_unit : Bytes → Option Mapping
energy_mapping_for_unit unit = energy_of (trim_runes unit) (energy_metric (trim_runes unit))

abbrev pub mapping_or : Mapping → Option Mapping → Mapping
mapping_or m none = m
mapping_or m (some energy) = energy

unfoldable pub energy_mapping : Bytes → Mapping
energy_mapping unit =
    mapping_or
      (diagnostic_sensor_mapping (codes "energy_raw") (codes "Energy") (trim_runes unit) [] [] true)
      (energy_mapping_for_unit (trim_runes unit))

-- `electricalMapping` of a current.
unfoldable pub current_mapping : Bytes → Mapping
current_mapping unit =
    if eqb unit (codes "A")
    then sensor_mapping (codes "current_a") (codes "Current") unit (codes "current")
        (codes "measurement") true
    else if eqb unit (codes "mA")
    then sensor_mapping (codes "current_ma") (codes "Current") unit (codes "current")
        (codes "measurement") true
    else if one_of unit (codes "µA" ∷ codes "μA" ∷ codes "uA" ∷ [])
    then sensor_mapping (codes "current_ua") (codes "Current") (codes "μA") (codes "current")
        (codes "measurement") true
    else diagnostic_sensor_mapping (codes "current_raw") (codes "Current") unit [] [] true

-- `electricalMapping` of any other kind, for a unit that is no unit of energy.
unfoldable pub power_mapping : Bytes → Mapping
power_mapping unit =
    if eqb unit (codes "W")
    then sensor_mapping (codes "power_w") (codes "Power") unit (codes "power") (codes "measurement")
        true
    else if eqb unit (codes "kW")
    then sensor_mapping (codes "power_kw") (codes "Power") unit (codes "power")
        (codes "measurement") true
    else if eqb unit (codes "mW")
    then sensor_mapping (codes "power_mw") (codes "Power") unit (codes "power")
        (codes "measurement") true
    else diagnostic_sensor_mapping (codes "power_raw") (codes "Power") unit [] [] true

unfoldable pub electrical_mapping : Bytes → Bytes → Mapping
electrical_mapping kind value =
    let unit = trim_runes value in
    if eqb kind (codes "current")
    then current_mapping unit
    else mapping_or (power_mapping unit) (energy_mapping_for_unit unit)
