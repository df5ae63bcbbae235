-- ===== src/Sia/Catalog.antt =====
-- bridge/internal/sia/catalog.go: the classification of an event.
mod Entry
mod SiaTable
mod CidTable
pub mod Classes
pub use Entry.{EventInfo}
unfoldable pub use SiaTable.{sia_catalog}
unfoldable pub use CidTable.{cid_catalog}
use ajax_bridge.Prelude.{
  ℕ, Bool, true, false, not, ◌&&◌, ◌||◌, Option, none, some, List, [], ◌∷◌, ◌++◌, if◌then◌else◌,
  or_else, Bytes, codes, is_empty, eqb,
}
use ajax_bridge.Text.{has_prefix, to_upper}
use ajax_bridge.Event.{
  Class, unset, unknown, alarm, restore, arm, disarm, night, tamper, trouble, test, common,
  Normalized,
}

-- The look-up in a table.
unfoldable pub lookup_code : Bytes → List (Bytes × EventInfo) → Option EventInfo
lookup_code k [] = none
lookup_code k ((code, info) ∷ rest) = if eqb code k then some info else lookup_code k rest

abbrev pub one_of : Bytes → List Bytes → Bool
one_of s [] = false
one_of s (k ∷ ks) = eqb s k || one_of s ks

unfoldable pub merge_sia_hints : Bytes → EventInfo → EventInfo
merge_sia_hints code info =
    let upper = to_upper code in
    if one_of upper (codes "NL" ∷ codes "NC" ∷ codes "NF" ∷ codes "NB" ∷ [])
    then record info { class = night; signal = codes "night_mode" }
    else if one_of upper (codes "NP" ∷ codes "NO" ∷ [])
    then record info { class = disarm; signal = codes "night_mode" }
    else if one_of upper (codes "HA" ∷ codes "ND" ∷ [])
    then record info { class = alarm; signal = codes "duress"; severity = codes "critical" }
    else if eqb upper (codes "PA")
    then record info { signal = codes "panic" }
    else info

abbrev pub hinted : Bytes → Option EventInfo → Option EventInfo
hinted code none = none
hinted code (some info) = some (merge_sia_hints code info)

unfoldable pub lookup_event_info : Normalized → Option EventInfo
lookup_event_info e =
    or_else
      (if is_empty e.contact_id
        then none
        else hinted e.event_code (lookup_code (to_upper e.contact_id) cid_catalog))
      (lookup_code (to_upper e.event_code) sia_catalog)

unfoldable pub fallback_class : Bytes → Class
fallback_class code =
    if has_prefix code (codes "CID1")
    then alarm
    else if has_prefix code (codes "CID3")
    then restore
    else if has_prefix code (codes "CID4")
    then disarm
    else unknown

unfoldable pub fallback_action : Class → Bytes
fallback_action alarm = codes "alarm"
fallback_action restore = codes "restore"
fallback_action arm = codes "arm"
fallback_action disarm = codes "disarm"
fallback_action night = codes "night_mode"
fallback_action tamper = codes "tamper"
fallback_action trouble = codes "trouble"
fallback_action test = codes "test"
fallback_action common = codes "common"
fallback_action _ = codes "unknown"

unfoldable pub fallback_name : Bytes → Bytes
fallback_name code =
    if is_empty code then codes "Unknown event" else codes "Unknown event code " ++ code

unfoldable pub fallback_severity : Class → Bytes
fallback_severity alarm = codes "critical"
fallback_severity tamper = codes "warning"
fallback_severity trouble = codes "warning"
fallback_severity _ = codes "info"

unfoldable pub apply_info : Option EventInfo → Normalized → Normalized
apply_info (some info) e = record e {
  event_class = info.class;
  event_action = info.action;
  event_name = info.name;
  description = info.description;
  source = info.source;
  signal = info.signal;
  severity = info.severity;
}
apply_info none e = record e {
  event_class = fallback_class e.event_code;
  event_action = fallback_action (fallback_class e.event_code);
  event_name = fallback_name e.event_code;
  source = codes "unknown";
  signal = codes "unknown";
  severity = fallback_severity (fallback_class e.event_code);
}

unfoldable pub enrich_event : Normalized → Normalized
enrich_event e = apply_info (lookup_event_info e) e
