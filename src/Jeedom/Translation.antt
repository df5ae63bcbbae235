-- ===== src/Jeedom/Translation.antt =====
-- bridge/internal/jeedom/translation.go, with the rows in the order of the source, and `titleName` and
-- `firstNonEmpty` of mapping.go.
use ajax_bridge.Prelude.{not, List, [], ◌∷◌, ◌==◌, if◌then◌else◌, Bytes, codes, map, is_empty}
use ajax_bridge.Text.Words.{split_words, join_words}
use ajax_bridge.Jeedom.Runes.{lower_rune, upper_rune, trim_runes, is_space_rune}
use ajax_bridge.Jeedom.Slug.{repair_text}
use ajax_bridge.Jeedom.Keys.{command_key, canonical_command_key, first_row, or_default}

unfoldable pub first_non_empty : List Bytes → Bytes
first_non_empty [] = []
first_non_empty (value ∷ values) =
    let rest = first_non_empty values in
    if not (is_empty (trim_runes value)) then trim_runes value else rest

-- The switch of `translateCommandLabel`.
unfoldable pub label_rows : List (List Bytes × Bytes)
label_rows =
    (codes "puissance" ∷ codes "power" ∷ [], codes "Power")
    ∷ (codes "consommation" ∷ codes "energy" ∷ codes "consumption" ∷ [], codes "Energy")
    ∷ (codes "courant" ∷ codes "current" ∷ [], codes "Current")
    ∷ (codes "tension" ∷ codes "voltage" ∷ [], codes "Voltage")
    ∷ (codes "temperature" ∷ codes "temp" ∷ [], codes "Temperature")
    ∷ (codes "batterie" ∷ codes "battery" ∷ [], codes "Battery")
    ∷ (codes "etatdelabatterie" ∷ codes "batterystate" ∷ [], codes "Battery state")
    ∷ (codes "signal" ∷ codes "rssi" ∷ [], codes "Signal")
    ∷ (
      codes "intensitedusignalcellulaire" ∷ codes "cellularsignalstrength" ∷ [],
      codes "Cellular signal strength",
    )
    ∷ (codes "humidite" ∷ codes "humidity" ∷ [], codes "Humidity")
    ∷ (codes "co2" ∷ [], codes "Carbon dioxide")
    ∷ (codes "etat" ∷ codes "state" ∷ codes "status" ∷ [], codes "State")
    ∷ (codes "sourceevenement" ∷ codes "eventsource" ∷ [], codes "Event source")
    ∷ (codes "evenement" ∷ codes "event" ∷ [], codes "Event")
    ∷ (codes "codeevenement" ∷ codes "eventcode" ∷ [], codes "Event code")
    ∷ (codes "enligne" ∷ codes "online" ∷ [], codes "Online")
    ∷ (codes "trafique" ∷ codes "tampered" ∷ codes "tamper" ∷ codes "sabotage" ∷ [], codes "Tamper")
    ∷ (
      codes "alimentationsecteur"
          ∷ codes "externallypowered"
          ∷ codes "externalpower"
          ∷ codes "mainspower"
          ∷ [],
      codes "External power",
    )
    ∷ (codes "gsm" ∷ [], codes "GSM")
    ∷ (codes "cms" ∷ [], codes "CMS")
    ∷ (codes "ethernet" ∷ [], codes "Ethernet")
    ∷ (codes "typereseaugsm" ∷ codes "gsmnetworktype" ∷ [], codes "GSM network type")
    ∷ (
      codes "donneescellulairesactives" ∷ codes "cellulardataactive" ∷ [],
      codes "Cellular data active",
    )
    ∷ (codes "ouverture" ∷ codes "opening" ∷ [], codes "Opening")
    ∷ (codes "porte" ∷ codes "door" ∷ [], codes "Door")
    ∷ (codes "fuite" ∷ codes "leak" ∷ [], codes "Leak")
    ∷ (codes "issuecount" ∷ [], codes "Issue count")
    ∷ (codes "firmwareversion" ∷ [], codes "Firmware version")
    ∷ (codes "operatingmode" ∷ [], codes "Operating mode")
    ∷ (codes "operatingstate" ∷ [], codes "Operating state")
    ∷ (codes "batterycheckstatus" ∷ [], codes "Battery check status")
    ∷ (codes "lastupdate" ∷ [], codes "Last update")
    ∷ (codes "valveposition" ∷ [], codes "Valve position")
    ∷ (codes "smokealarm" ∷ [], codes "Smoke alarm")
    ∷ (codes "criticalsmokealarm" ∷ [], codes "Critical smoke alarm")
    ∷ (codes "heatalarm" ∷ [], codes "Heat alarm")
    ∷ (codes "rapidtemperaturerisealarm" ∷ [], codes "Rapid temperature rise alarm")
    ∷ (codes "carbonmonoxidealarm" ∷ [], codes "Carbon monoxide alarm")
    ∷ (codes "criticalcarbonmonoxidealarm" ∷ [], codes "Critical carbon monoxide alarm")
    ∷ (codes "radioconnection" ∷ [], codes "Radio connection")
    ∷ (codes "photochannelconnection" ∷ [], codes "Photo channel connection")
    ∷ (codes "photochannelsignal" ∷ [], codes "Photo channel signal")
    ∷ (codes "ethernetenabled" ∷ [], codes "Ethernet enabled")
    ∷ (codes "ethernetconnected" ∷ [], codes "Ethernet connected")
    ∷ (codes "jewellerantennastatus" ∷ [], codes "Jeweller antenna status")
    ∷ (codes "wingsantennastatus" ∷ [], codes "Wings antenna status")
    ∷ (codes "batterycharging" ∷ [], codes "Battery charging")
    ∷ (codes "batteryfault" ∷ [], codes "Battery fault")
    ∷ (codes "detectorpowerfault" ∷ [], codes "Detector power fault")
    ∷ (codes "firedetectorpowerfault" ∷ [], codes "Fire detector power fault")
    ∷ (codes "detectorpowerundervoltage" ∷ [], codes "Detector power undervoltage")
    ∷ (codes "firedetectorpowerundervoltage" ∷ [], codes "Fire detector power undervoltage")
    ∷ (codes "fibrapowertest" ∷ [], codes "Fibra power test")
    ∷ (codes "chargerfault" ∷ [], codes "Charger fault")
    ∷ (codes "chargerfaults" ∷ [], codes "Charger faults")
    ∷ (codes "batterychargerfaults" ∷ [], codes "Battery and charger faults")
    ∷ (codes "datachannelstatus" ∷ [], codes "Data channel status")
    ∷ (codes "datachannelsignal" ∷ [], codes "Data channel signal")
    ∷ (codes "detectorsupplystate" ∷ [], codes "Detector supply state")
    ∷ (codes "firedetectorsupplystate" ∷ [], codes "Fire detector supply state")
    ∷ (codes "armement" ∷ codes "arm" ∷ [], codes "Arm")
    ∷ (codes "modenuit" ∷ codes "nightmode" ∷ [], codes "Night mode")
    ∷ (codes "desarmement" ∷ codes "disarm" ∷ [], codes "Disarm")
    ∷ (codes "panic" ∷ [], codes "Panic")
    ∷ (codes "impulse" ∷ codes "impulsion" ∷ codes "pulse" ∷ codes "toggle" ∷ [], codes "Impulse")
    ∷ (codes "arretdetectionincendie" ∷ codes "mutefiredetectors" ∷ [], codes "Mute fire detectors")
    ∷ []

unfoldable pub translate_command_label : Bytes → Bytes
translate_command_label value =
    or_default [] (first_row (canonical_command_key (command_key value)) label_rows)

-- The switch of `EnglishValue`.
unfoldable pub value_rows : List (List Bytes × Bytes)
value_rows =
    (codes "ARME" ∷ codes "ARMEMENT" ∷ codes "ARMED" ∷ [], codes "ARMED")
    ∷ (codes "DESARME" ∷ codes "DESARMEMENT" ∷ codes "DISARMED" ∷ [], codes "DISARMED")
    ∷ (codes "MODE_NUIT" ∷ codes "NIGHT_MODE" ∷ [], codes "NIGHT_MODE")
    ∷ (codes "PASSIF" ∷ codes "PASSIVE" ∷ [], codes "PASSIVE")
    ∷ (codes "ACTIF" ∷ codes "ACTIVE" ∷ [], codes "ACTIVE")
    ∷ (codes "FORT" ∷ codes "STRONG" ∷ [], codes "STRONG")
    ∷ (codes "FAIBLE" ∷ codes "WEAK" ∷ [], codes "WEAK")
    ∷ (codes "MOYEN" ∷ codes "AVERAGE" ∷ codes "MEDIUM" ∷ [], codes "MEDIUM")
    ∷ (codes "CHARGE" ∷ codes "CHARGED" ∷ [], codes "CHARGED")
    ∷ (codes "DECHARGE" ∷ codes "DISCHARGED" ∷ [], codes "DISCHARGED")
    ∷ []

unfoldable pub english_value : Bytes → Bytes
english_value value =
    or_default (repair_text value)
      (first_row (map upper_rune (trim_runes (repair_text value))) value_rows)

-- The loop of `titleName`.
abbrev pub title_word : Bytes → Bytes
title_word [] = []
title_word (r ∷ rs) = upper_rune (lower_rune r) ∷ map lower_rune rs

unfoldable pub title_name : Bytes → Bytes
title_name value =
    let text = trim_runes (repair_text value) in
    if is_empty text
    then codes "Value"
    else join_words title_word
        (split_words is_space_rune (map (λ r. if r == b'_' then b' ' else r) text))
