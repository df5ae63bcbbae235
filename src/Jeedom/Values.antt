-- ===== src/Jeedom/Values.antt =====
-- The values of commands in bridge/internal/jeedom/parser.go. What encoding/json, strconv and unicode
-- make of a text is a parameter.
pub mod Polarity
use ajax_bridge.Prelude.{
  ℕ, Bool, true, false, ◌&&◌, ◌||◌, not, Option, none, some, [], ◌∷◌, ◌++◌, ◌==◌, if◌then◌else◌,
  Bytes, codes, is_empty, eqb, map, length, drop, ◌-◌,
}
use ajax_bridge.Float.{Float, nonzero}
use ajax_bridge.DeviceCatalog.{one_of}
use ajax_bridge.Jeedom.Runes.{fold_latin, upper_rune, trim_runes}
use ajax_bridge.Jeedom.Slug.{repair_text}
use ajax_bridge.Jeedom.Translation.{english_value}
use ajax_bridge.Jeedom.Electrical.{Mapping}

-- json.Unmarshal into a string, a float64, a bool and a json.Number; strconv.ParseFloat; and whether a
-- rune is a letter or a digit.
pub record Reader : Type 0 where
  pub text : Bytes → Option Bytes
  pub number : Bytes → Option Float
  pub boolean : Bytes → Option Bool
  pub numeral : Bytes → Option Bytes
  pub parse_float : Bytes → Option Float
  pub is_word_rune : ℕ → Bool

abbrev pub is_blank : Option Bytes → Bool
is_blank none = false
is_blank (some text) = is_empty (trim_runes text)

-- strings.HasSuffix
abbrev pub has_suffix : Bytes → Bytes → Bool
has_suffix s suffix = eqb (drop (length s - length suffix) s) suffix

-- The words of a text that BoolRawValue takes for true or for false.
unfoldable pub bool_of_token : Bytes → Option Bool
bool_of_token token =
    if one_of token (
      codes "1"
      ∷ codes "TRUE"
      ∷ codes "ON"
      ∷ codes "OPEN"
      ∷ codes "OPENED"
      ∷ codes "OUVERT"
      ∷ codes "OUVERTE"
      ∷ codes "OUI"
      ∷ codes "YES"
      ∷ codes "ACTIVE"
      ∷ codes "ACTIF"
      ∷ codes "CONNECTED"
      ∷ codes "CONNECTE"
      ∷ codes "CONNECTEE"
      ∷ codes "ENABLED"
      ∷ codes "CHARGING"
      ∷ codes "EN_CHARGE"
      ∷ [])
    then some true
    else if one_of token (
        codes "0"
        ∷ codes "FALSE"
        ∷ codes "OFF"
        ∷ codes "CLOSED"
        ∷ codes "CLOSE"
        ∷ codes "FERME"
        ∷ codes "FERMEE"
        ∷ codes "NON"
        ∷ codes "NO"
        ∷ codes "INACTIVE"
        ∷ codes "INACTIF"
        ∷ codes "DISCONNECTED"
        ∷ codes "DECONNECTED"
        ∷ codes "DECONNECTE"
        ∷ codes "DECONNECTEE"
        ∷ codes "NOT_CONNECTED"
        ∷ codes "DISABLED"
        ∷ codes "DESACTIVE"
        ∷ codes "DESACTIVEE"
        ∷ codes "NOT_ENABLED"
        ∷ codes "NOT_CHARGING"
        ∷ codes "PAS_EN_CHARGE"
        ∷ codes "DISCHARGING"
        ∷ codes "UNDETECTED"
        ∷ [])
    then some false
    else if eqb token (codes "NOT_DETECTED")
        || has_suffix token (codes "_NOT_DETECTED")
        || has_suffix token (codes "_UNDETECTED")
    then some false
    else if eqb token (codes "DETECTED") || has_suffix token (codes "_DETECTED")
    then some true
    else none

unfoldable pub problem_of_token : Bytes → Option Bool
problem_of_token token =
    if one_of token (
      codes "FAULT"
      ∷ codes "FAILED"
      ∷ codes "FAILURE"
      ∷ codes "ERROR"
      ∷ codes "DEFAUT"
      ∷ codes "ECHEC"
      ∷ [])
    then some true
    else if one_of token
        (codes "OK" ∷ codes "NORMAL" ∷ codes "HEALTHY" ∷ codes "NO_FAULT" ∷ codes "NOT_FAILED" ∷ [])
    then some false
    else none

unfoldable pub connectivity_of_token : Bytes → Option Bool
connectivity_of_token token =
    if one_of token (codes "OK" ∷ codes "ONLINE" ∷ codes "AVAILABLE" ∷ [])
    then some true
    else if one_of token
        (codes "FAULT" ∷ codes "FAILED" ∷ codes "OFFLINE" ∷ codes "UNAVAILABLE" ∷ [])
    then some false
    else none

-- The switch of `BoolRawValueForMapping`.
unfoldable pub bool_of_class : Bytes → Bytes → Option Bool
bool_of_class device_class token =
    if eqb device_class (codes "problem")
    then problem_of_token token
    else if eqb device_class (codes "connectivity")
    then connectivity_of_token token
    else none

module _ (reader : Reader) where
  unfoldable pub empty_raw_value : Bytes → Bool
  empty_raw_value value =
      let trimmed = trim_runes value in
      is_empty trimmed || eqb trimmed (codes "null") || is_blank (reader.text trimmed)

  -- The text as a number, with a comma for a point.
  abbrev pub number_of_text : Option Bytes → Option Float
  number_of_text none = none
  number_of_text (some text) =
      let numeral = trim_runes (map (λ c. if c == b',' then b'.' else c) text) in
      if is_empty numeral then none else reader.parse_float numeral

  abbrev pub number_or_text : Bytes → Option Float → Option Float
  number_or_text value none = number_of_text (reader.text value)
  number_or_text value (some number) = some number

  unfoldable pub numeric_raw_value : Bytes → Option Float
  numeric_raw_value value =
      if empty_raw_value value then none else number_or_text value (reader.number value)

  -- The loop of `boolEnumToken`; the flags are `separator` and that something is written.
  unfoldable pub token_runes : Bool → Bool → Bytes → Bytes
  token_runes separator written [] = []
  token_runes separator written (r ∷ rs) =
      let c = upper_rune (fold_latin r) in
      let behind = token_runes false true rs in
      let dropped = token_runes true written rs in
      if reader.is_word_rune c
      then (if separator && written then b'_' ∷ c ∷ behind else c ∷ behind)
      else dropped

  unfoldable pub bool_enum_token : Bytes → Bytes
  bool_enum_token value = token_runes false false (trim_runes (repair_text value))

  abbrev pub bool_of_text : Option Bytes → Option Bool
  bool_of_text none = none
  bool_of_text (some text) = bool_of_token (bool_enum_token text)

  abbrev pub bool_of_number : Bytes → Option Float → Option Bool
  bool_of_number value none = bool_of_text (reader.text value)
  bool_of_number value (some number) = some (nonzero number)

  abbrev pub bool_or_number : Bytes → Option Bool → Option Bool
  bool_or_number value none = bool_of_number value (reader.number value)
  bool_or_number value (some b) = some b

  unfoldable pub bool_raw_value : Bytes → Option Bool
  bool_raw_value value =
      if empty_raw_value value then none else bool_or_number value (reader.boolean value)

  abbrev pub class_of_text : Bytes → Option Bytes → Option Bool
  class_of_text device_class none = none
  class_of_text device_class (some text) = bool_of_class device_class (bool_enum_token text)

  abbrev pub decided_or_class : Bytes → Mapping → Option Bool → Option Bool
  decided_or_class value mapping (some b) = some b
  decided_or_class value mapping none =
      if not mapping.binary || empty_raw_value value
      then none
      else class_of_text mapping.device_class (reader.text value)

  unfoldable pub bool_raw_value_for_mapping : Bytes → Mapping → Option Bool
  bool_raw_value_for_mapping value mapping = decided_or_class value mapping (bool_raw_value value)

  abbrev pub boolean_text : Bytes → Option Bool → Bytes
  boolean_text value none = value
  boolean_text value (some true) = codes "true"
  boolean_text value (some false) = codes "false"

  abbrev pub numeral_or_boolean : Bytes → Option Bytes → Bytes
  numeral_or_boolean value none = boolean_text value (reader.boolean value)
  numeral_or_boolean value (some numeral) = numeral

  abbrev pub text_or_numeral : Bytes → Option Bytes → Bytes
  text_or_numeral value none = numeral_or_boolean value (reader.numeral value)
  text_or_numeral value (some text) = english_value text

  unfoldable pub string_raw_value : Bytes → Option Bytes
  string_raw_value value =
      if empty_raw_value value then none else some (text_or_numeral value (reader.text value))
