-- ===== src/DeviceCatalog/Naming.antt =====
-- The names, kinds and events of a discovered device: `defaultName`, `defaultKind`, `eventFamily` and
-- `contains` of bridge/internal/devicecatalog/catalog.go.
use ajax_bridge.Prelude.{
  Bool, false, not, ◌&&◌, ◌||◌, List, [], ◌∷◌, ◌++◌, if◌then◌else◌, Bytes, codes, is_empty, eqb,
}
use ajax_bridge.Event.{Class, alarm, restore, arm, disarm, trouble, class_text, Normalized}

unfoldable pub default_name : Normalized → Bytes
default_name e =
    if not (is_empty e.device)
    then codes "Zone " ++ (e.zone ++ (32 ∷ e.device))
    else codes "Zone " ++ e.zone

abbrev pub one_of : Bytes → List Bytes → Bool
one_of s [] = false
one_of s (k ∷ ks) = eqb s k || one_of s ks

unfoldable pub sensor_kind : Bytes → Bytes
sensor_kind signal =
    if one_of signal
      (codes "smoke" ∷ codes "fire" ∷ codes "temperature" ∷ codes "fire_detector" ∷ codes "co" ∷ [])
    then codes "fireprotect"
    else if eqb signal (codes "water_leak")
    then codes "leakprotect"
    else codes "ajax_sensor"

unfoldable pub default_kind : Normalized → Bytes
default_kind e =
    if one_of e.source (codes "button_or_user" ∷ codes "button_or_transmitter" ∷ [])
    then codes "button"
    else if one_of e.source (codes "keypad" ∷ codes "user_or_keypad" ∷ [])
    then codes "keypad"
    else if eqb e.source (codes "user")
    then codes "user"
    else if eqb e.source (codes "hub")
    then codes "hub"
    else if eqb e.source (codes "sensor")
    then sensor_kind e.signal
    else if one_of e.source (codes "device" ∷ codes "hub_or_device" ∷ [])
    then codes "ajax_device"
    else codes "unknown"

unfoldable pub class_family : Class → Bytes
class_family alarm = codes "alarm"
class_family restore = codes "restore"
class_family arm = codes "arm"
class_family disarm = codes "disarm"
class_family trouble = codes "trouble"
class_family other = class_text other

-- The cases for "tamper" and "night_mode" give the signal itself.
unfoldable pub event_family : Normalized → Bytes
event_family e =
    if eqb e.signal (codes "tamper")
    then codes "tamper"
    else if eqb e.signal (codes "night_mode")
    then codes "night_mode"
    else if not (is_empty e.signal) && not (eqb e.signal (codes "unknown"))
    then e.signal
    else class_family e.event_class

unfoldable pub contains : List Bytes → Bytes → Bool
contains [] value = false
contains (x ∷ xs) value = eqb x value || contains xs value
