-- ===== src/Jeedom/Mapping/Valid.antt =====
-- The form of what `MappingFor` gives, for every event.
use ajax_bridge.Prelude.{
  Bool, true, false, not, ◌&&◌, ◌||◌, some, List, [], ◌∷◌, if◌then◌else◌, Bytes, codes, eqb,
  is_empty, map, ◌≡◌, refl, ◌∙◌, arith, Bool-cases, Option-cases, inl, inr,
}
use ajax_bridge.DeviceCatalog.{one_of}
use ajax_bridge.Jeedom.Runes.{trim_runes, upper_rune}
use ajax_bridge.Jeedom.Slug.{slug, metric_name, repair_text}
use ajax_bridge.Jeedom.Keys.{first_row, or_default, command_key, canonical_command_key}
use ajax_bridge.Jeedom.Translation.{first_non_empty}
use ajax_bridge.Jeedom.Parser.{Event}
use ajax_bridge.Jeedom.Electrical.{
  Mapping, sensor_mapping, diagnostic_sensor_mapping, binary_mapping, diagnostic_binary_mapping,
  energy_metric, energy_mapping_for_unit, energy_mapping, current_mapping, power_mapping,
  electrical_mapping, mapping_or,
}
use ajax_bridge.Jeedom.Contract.{
  channel_signal_mapping, contract_sensor_mapping, logical_rows, generic_rows, contract_mapping_for,
}
use ajax_bridge.Jeedom.Mapping.{fallback_mapping, mapping_rows, mapping_for, metric_of, label_of}

-- A mapping has a metric; it is a binary sensor without unit, number and state class, or a sensor; and
-- what has a state class is a number.
abbrev pub is_usable : Mapping → Bool
is_usable m =
    not (is_empty m.metric)
    && (if m.binary
        then eqb m.component (codes "binary_sensor")
          && not m.numeric
          && is_empty m.unit
          && is_empty m.state_class
        else eqb m.component (codes "sensor"))
    && (is_empty m.state_class || m.numeric)

current_mapping-valid : (unit : Bytes) → is_usable (current_mapping unit) ≡ true
unfolding current_mapping sensor_mapping diagnostic_sensor_mapping eqb
current_mapping-valid unit = ground arith

power_mapping-valid : (unit : Bytes) → is_usable (power_mapping unit) ≡ true
unfolding power_mapping sensor_mapping diagnostic_sensor_mapping eqb
power_mapping-valid unit = ground arith

energy_metric-filled :
    (unit metric : Bytes) → energy_metric unit ≡ some metric → is_empty metric ≡ false
unfolding energy_metric
energy_metric-filled unit metric h = ground arith

energy_mapping_for_unit-valid :
    (unit : Bytes) (m : Mapping) → energy_mapping_for_unit unit ≡ some m → is_usable m ≡ true
unfolding energy_mapping_for_unit sensor_mapping eqb
energy_mapping_for_unit-valid unit m h = elim (Option-cases (energy_metric (trim_runes unit))) [
  | inl n ↦ ground arith
  | inr (metric, e) ↦ ground (arith, energy_metric-filled (trim_runes unit) metric e)
]

mapping_or-valid :
    (m : Mapping) (unit : Bytes)
    → is_usable m ≡ true
    → is_usable (mapping_or m (energy_mapping_for_unit unit)) ≡ true
mapping_or-valid m unit h = elim (Option-cases (energy_mapping_for_unit unit)) [
  | inl n ↦ rw n h
  | inr (energy, e) ↦ rw e (energy_mapping_for_unit-valid unit energy e)
]

energy_mapping-valid : (unit : Bytes) → is_usable (energy_mapping unit) ≡ true
unfolding energy_mapping sensor_mapping diagnostic_sensor_mapping eqb
energy_mapping-valid unit = mapping_or-valid _ (trim_runes unit) refl

electrical_mapping-valid : (kind unit : Bytes) → is_usable (electrical_mapping kind unit) ≡ true
unfolding electrical_mapping
electrical_mapping-valid kind unit = elim (Bool-cases (eqb kind (codes "current"))) [
  | inl t ↦ rw t (current_mapping-valid (trim_runes unit))
  | inr f ↦ rw f (mapping_or-valid _ (trim_runes unit) (power_mapping-valid (trim_runes unit)))
]

channel_signal_mapping-valid :
    (metric name subtype unit : Bytes)
    → is_empty metric ≡ false
    → is_usable (channel_signal_mapping metric name subtype unit) ≡ true
unfolding channel_signal_mapping sensor_mapping diagnostic_sensor_mapping eqb
channel_signal_mapping-valid metric name subtype unit h = ground arith

-- Every mapping of the rows is valid.
infixr 5 ◌⨾◌
data RowsPass : List (List Bytes × Mapping) → Type 0 where
  done : RowsPass []
  ◌⨾◌ :
      {names : List Bytes} {m : Mapping} {rows : List (List Bytes × Mapping)}
      → is_usable m ≡ true
      → RowsPass rows
      → RowsPass ((names, m) ∷ rows)

first_row-valid :
    (key : Bytes) (rows : List (List Bytes × Mapping)) (m : Mapping)
    → RowsPass rows
    → first_row key rows ≡ some m
    → is_usable m ≡ true
unfolding first_row
first_row-valid key _ m done h = ground arith
first_row-valid key _ m (◌⨾◌ {names = names} {rows = rows} v vs) h =
    elim (Bool-cases (one_of key names)) [
      | inl t ↦ ground arith
      | inr f ↦ ground (arith, first_row-valid key rows m vs)
    ]

or_default-valid :
    (key : Bytes) (rows : List (List Bytes × Mapping)) (m : Mapping)
    → RowsPass rows
    → is_usable m ≡ true
    → is_usable (or_default m (first_row key rows)) ≡ true
or_default-valid key rows m pass h = elim (Option-cases (first_row key rows)) [
  | inl n ↦ rw n h
  | inr (found, e) ↦ rw e (first_row-valid key rows found pass e)
]

generic_rows-pass : (unit : Bytes) → RowsPass (generic_rows unit)
unfolding generic_rows contract_sensor_mapping first_row sensor_mapping eqb
generic_rows-pass unit =
    electrical_mapping-valid _ unit
    ⨾ electrical_mapping-valid _ unit
    ⨾ refl
    ⨾ refl
    ⨾ refl
    ⨾ refl
    ⨾ done

logical_rows-pass : (evt : Event) (unit : Bytes) → RowsPass (logical_rows evt unit)
unfolding logical_rows contract_sensor_mapping first_row sensor_mapping diagnostic_sensor_mapping
    binary_mapping diagnostic_binary_mapping eqb
logical_rows-pass evt unit =
    refl
    ⨾ refl
    ⨾ refl
    ⨾ refl
    ⨾ refl
    ⨾ refl
    ⨾ refl
    ⨾ (ground arith)
    ⨾ refl
    ⨾ refl
    ⨾ refl
    ⨾ refl
    ⨾ refl
    ⨾ refl
    ⨾ electrical_mapping-valid _ _
    ⨾ electrical_mapping-valid _ _
    ⨾ refl
    ⨾ refl
    ⨾ refl
    ⨾ refl
    ⨾ done

contract_mapping_for-valid :
    (evt : Event) (unit : Bytes) (m : Mapping)
    → contract_mapping_for evt unit ≡ some m
    → is_usable m ≡ true
unfolding contract_mapping_for
contract_mapping_for-valid evt unit m h =
    let logical = command_key evt.logical_id in
    let generic = map upper_rune (trim_runes (repair_text evt.generic_type)) in
    elim (Option-cases (first_row logical (logical_rows evt unit))) [
      | inl n ↦ first_row-valid generic (generic_rows unit) m (generic_rows-pass unit) (rw n at h)
      | inr (found, e) ↦
          first_row-valid logical (logical_rows evt unit) m (logical_rows-pass evt unit)
            (e ∙ rw e at h)
    ]

module _ (short_hash : Bytes → Bytes) where
  slug-filled : (s : Bytes) → is_empty (slug short_hash s) ≡ false
  unfolding slug
  slug-filled s = ground arith

  metric_of-filled :
      (evt : Event) (command : Bytes) → is_empty (metric_of short_hash evt command) ≡ false
  unfolding metric_name
  metric_of-filled evt command = ground (arith, slug-filled command)

  fallback_mapping-valid :
      (evt : Event) (command unit : Bytes)
      → is_usable (fallback_mapping short_hash evt command unit) ≡ true
  unfolding fallback_mapping sensor_mapping binary_mapping eqb
  fallback_mapping-valid evt command unit = ground (arith, metric_of-filled evt command)

  metric_valid :
      (evt : Event) (command : Bytes)
      → is_usable (
          diagnostic_binary_mapping
            (metric_of short_hash evt command)
            (label_of command)
            (codes "connectivity"))
        ≡ true
  unfolding diagnostic_binary_mapping binary_mapping eqb
  metric_valid evt command = rw (metric_of-filled evt command) refl

  mapping_rows-pass :
      (evt : Event) (command unit : Bytes) → RowsPass (mapping_rows short_hash evt command unit)
  unfolding mapping_rows sensor_mapping diagnostic_sensor_mapping binary_mapping
      diagnostic_binary_mapping eqb
  mapping_rows-pass evt command unit =
      electrical_mapping-valid _ _
      ⨾ energy_mapping-valid _
      ⨾ electrical_mapping-valid _ _
      ⨾ refl
      ⨾ refl
      ⨾ refl
      ⨾ refl
      ⨾ (ground arith)
      ⨾ (ground arith)
      ⨾ refl
      ⨾ refl
      ⨾ (ground arith)
      ⨾ refl
      ⨾ refl
      ⨾ refl
      ⨾ refl
      ⨾ refl
      ⨾ refl
      ⨾ metric_valid evt command
      ⨾ refl
      ⨾ refl
      ⨾ refl
      ⨾ refl
      ⨾ refl
      ⨾ refl
      ⨾ refl
      ⨾ refl
      ⨾ refl
      ⨾ refl
      ⨾ refl
      ⨾ refl
      ⨾ refl
      ⨾ refl
      ⨾ refl
      ⨾ refl
      ⨾ refl
      ⨾ refl
      ⨾ refl
      ⨾ refl
      ⨾ channel_signal_mapping-valid _ _ _ _ refl
      ⨾ refl
      ⨾ refl
      ⨾ refl
      ⨾ refl
      ⨾ refl
      ⨾ refl
      ⨾ refl
      ⨾ refl
      ⨾ refl
      ⨾ refl
      ⨾ refl
      ⨾ refl
      ⨾ refl
      ⨾ refl
      ⨾ refl
      ⨾ channel_signal_mapping-valid _ _ _ _ refl
      ⨾ refl
      ⨾ refl
      ⨾ done

  -- The mapping of every Jeedom event is usable for Home Assistant: it has a metric; it is a binary
  -- sensor, which has no unit, no state class and is not numeric, or a sensor; and only a numeric one
  -- has a state class.
  pub mapping_for-valid : (evt : Event) → is_usable (mapping_for short_hash evt) ≡ true
  unfolding mapping_for
  mapping_for-valid evt =
      let command = first_non_empty (evt.command_name ∷ evt.name ∷ evt.command_id ∷ []) in
      let unit = trim_runes (repair_text evt.unit) in
      let named =
        or_default-valid (canonical_command_key (command_key command))
          (mapping_rows short_hash evt command unit) (fallback_mapping short_hash evt command unit)
          (mapping_rows-pass evt command unit) (fallback_mapping-valid evt command unit) in
      elim (Option-cases (contract_mapping_for evt unit)) [
        | inl n ↦ rw n named
        | inr (m, e) ↦ rw e (contract_mapping_for-valid evt unit m e)
      ]
