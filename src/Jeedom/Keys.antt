-- ===== src/Jeedom/Keys.antt =====
-- `commandKey` and `canonicalCommandKey` of bridge/internal/jeedom/mapping.go, with the rows and the
-- patterns in the order of the source.
pub mod Table
pub mod Settled
use ajax_bridge.Prelude.{
  ℕ, Bool, true, false, ◌&&◌, ◌||◌, not, Option, none, some, List, [], ◌∷◌, ◌==◌, if◌then◌else◌,
  Bytes, codes, map,
}
use ajax_bridge.Text.{contains}
use ajax_bridge.DeviceCatalog.{one_of}
use ajax_bridge.Notifications.Slug.{is_slug_byte}
use ajax_bridge.Jeedom.Runes.{fold_latin, lower_rune, trim_runes}
use ajax_bridge.Jeedom.Slug.{repair_text}
use ajax_bridge.Jeedom.Keys.Table.{key_rows}

-- The runes that pass.
unfoldable pub filter : (ℕ → Bool) → Bytes → Bytes
filter p [] = []
filter p (r ∷ rs) = let rest = filter p rs in if p r then r ∷ rest else rest

unfoldable pub command_key : Bytes → Bytes
command_key value =
    filter is_slug_byte
      (map (λ r. lower_rune (fold_latin r)) (map lower_rune (trim_runes (repair_text value))))

-- The value of the first row that lists the key.
unfoldable pub first_row {ℓ} : {A : Type ℓ} → Bytes → List (List Bytes × A) → Option A
first_row key [] = none
first_row key ((names, a) ∷ rows) =
    let rest = first_row key rows in if one_of key names then some a else rest

abbrev pub or_default {ℓ} : {A : Type ℓ} → A → Option A → A
or_default a none = a
or_default a (some b) = b

unfoldable pub contains_all : Bytes → List Bytes → Bool
contains_all value [] = true
contains_all value (fragment ∷ fragments) =
    if contains value fragment then contains_all value fragments else false

unfoldable pub contains_any : Bytes → List Bytes → Bool
contains_any value [] = false
contains_any value (fragment ∷ fragments) =
    if contains value fragment then true else contains_any value fragments

unfoldable pub is_detector_key : Bytes → Bool
is_detector_key key = contains_any key (codes "detector" ∷ codes "detecteur" ∷ [])

unfoldable pub is_fire_detector_key : Bytes → Bool
is_fire_detector_key key =
    contains_any key
      (codes "firedetector" ∷ codes "detecteurincendie" ∷ codes "detecteurdincendie" ∷ [])

unfoldable pub is_data_channel_key : Bytes → Bool
is_data_channel_key key = contains_any key (codes "datachannel" ∷ codes "canaldedonnees" ∷ [])

-- A switch of conditions: the value of the first that holds.
unfoldable pub first_case {ℓ} : {A : Type ℓ} → A → List (Bool × A) → A
first_case a [] = a
first_case a ((holds, b) ∷ cases) = let rest = first_case a cases in if holds then b else rest

-- The second switch of `canonicalCommandKey`.
unfoldable pub key_cases : Bytes → List (Bool × Bytes)
key_cases key =
    (
      contains_all key (codes "jeweller" ∷ [])
          && contains_any key (codes "antenna" ∷ codes "antenne" ∷ []),
      codes "jewellerantennastatus",
    )
    ∷ (
      contains_all key (codes "wings" ∷ [])
          && contains_any key (codes "antenna" ∷ codes "antenne" ∷ []),
      codes "wingsantennastatus",
    )
    ∷ (
      contains_any key (codes "photo" ∷ codes "wings" ∷ [])
          && contains_any key (codes "signal" ∷ []),
      codes "photochannelsignal",
    )
    ∷ (
      contains_any key (codes "photo" ∷ codes "wings" ∷ [])
          && contains_any key (codes "connect" ∷ codes "connexion" ∷ codes "link" ∷ []),
      codes "photochannelconnection",
    )
    ∷ (
      contains_all key (codes "ethernet" ∷ [])
          && contains_any key (codes "connect" ∷ codes "connexion" ∷ codes "link" ∷ []),
      codes "ethernetconnected",
    )
    ∷ (
      contains_all key (codes "ethernet" ∷ [])
          && contains_any key
              (codes "active" ∷ codes "actif" ∷ codes "activation" ∷ codes "enable" ∷ []),
      codes "ethernetenabled",
    )
    ∷ (
      contains_all key (codes "fibra" ∷ codes "test" ∷ [])
          && contains_any key (codes "alimentation" ∷ codes "power" ∷ codes "supply" ∷ []),
      codes "fibrapowertest",
    )
    ∷ (
      is_fire_detector_key key
          && contains_any key
              (codes "undervoltage" ∷ codes "soustension" ∷ codes "lowvoltage" ∷ []),
      codes "firedetectorpowerundervoltage",
    )
    ∷ (
      is_detector_key key
          && contains_any key
              (codes "undervoltage" ∷ codes "soustension" ∷ codes "lowvoltage" ∷ []),
      codes "detectorpowerundervoltage",
    )
    ∷ (
      is_fire_detector_key key
          && contains_any key
              (codes "fault" ∷ codes "failure" ∷ codes "defaut" ∷ codes "panne" ∷ [])
          && contains_any key (codes "alimentation" ∷ codes "power" ∷ codes "supply" ∷ []),
      codes "firedetectorpowerfault",
    )
    ∷ (
      is_detector_key key
          && contains_any key
              (codes "fault" ∷ codes "failure" ∷ codes "defaut" ∷ codes "panne" ∷ [])
          && contains_any key (codes "alimentation" ∷ codes "power" ∷ codes "supply" ∷ []),
      codes "detectorpowerfault",
    )
    ∷ (
      is_fire_detector_key key
          && contains_any key (codes "alimentation" ∷ codes "power" ∷ codes "supply" ∷ [])
          && contains_any key (codes "etat" ∷ codes "state" ∷ codes "status" ∷ codes "statut" ∷ []),
      codes "firedetectorsupplystate",
    )
    ∷ (
      is_detector_key key
          && contains_any key (codes "alimentation" ∷ codes "power" ∷ codes "supply" ∷ [])
          && contains_any key (codes "etat" ∷ codes "state" ∷ codes "status" ∷ codes "statut" ∷ []),
      codes "detectorsupplystate",
    )
    ∷ (
      contains_any key (codes "chargeur" ∷ codes "charger" ∷ [])
          && contains_any key (codes "faults" ∷ codes "defauts" ∷ codes "list" ∷ []),
      if contains_any key (codes "battery" ∷ codes "batterie" ∷ [])
          then codes "batterychargerfaults"
          else codes "chargerfaults",
    )
    ∷ (
      contains_any key (codes "chargeur" ∷ codes "charger" ∷ [])
          && contains_any key
              (codes "fault" ∷ codes "failure" ∷ codes "defaut" ∷ codes "panne" ∷ []),
      codes "chargerfault",
    )
    ∷ (is_data_channel_key key && contains_any key (codes "signal" ∷ []), codes "datachannelsignal")
    ∷ (
      is_data_channel_key key
          && contains_any key (codes "etat" ∷ codes "state" ∷ codes "status" ∷ codes "statut" ∷ []),
      codes "datachannelstatus",
    )
    ∷ (
      contains_any key (codes "battery" ∷ codes "batterie" ∷ [])
          && contains_any key
              (codes "fault" ∷ codes "failure" ∷ codes "defaut" ∷ codes "panne" ∷ []),
      codes "batteryfault",
    )
    ∷ (
      contains_any key (codes "radio" ∷ codes "jeweller" ∷ [])
          && contains_any key (codes "connect" ∷ codes "connexion" ∷ codes "link" ∷ []),
      codes "radioconnection",
    )
    ∷ []

unfoldable pub canonical_command_key : Bytes → Bytes
canonical_command_key key = or_default (first_case key (key_cases key)) (first_row key key_rows)
