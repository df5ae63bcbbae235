-- ===== src/Sia/Catalog/SiaTable.antt =====
-- `siaCatalog` of bridge/internal/sia/catalog.go, in the order of the source.
use ajax_bridge.Prelude.{true, false, List, [], ◌∷◌, Bytes}
use ajax_bridge.Event.{alarm, restore, arm, disarm, night, tamper, trouble, test, common}
use ajax_bridge.Sia.Catalog.Entry.{EventInfo, entry}

unfoldable pub sia_catalog : List (Bytes × EventInfo)
sia_catalog =
    entry "AR" restore "power_restored" "External power restored" "system" "power" "info" true
    ∷ entry "AT" trouble "power_failure" "External power failure" "system" "power" "warning" false
    ∷ entry "BA" alarm "burglary_alarm" "Burglary alarm" "sensor" "burglary" "critical" false
    ∷ entry "BR" restore "burglary_restore" "Burglary alarm restored" "sensor" "burglary" "info"
        true
    ∷ entry "BS" trouble "accelerometer_failure" "Accelerometer failure" "sensor" "accelerometer"
        "warning" false
    ∷ entry "CA" arm "armed_automatically" "Armed automatically" "automation" "arming" "info" false
    ∷ entry "CB" arm "group_armed_automatically" "Group armed automatically" "automation" "arming"
        "info" false
    ∷ entry "CC" trouble "arming_failed" "Unsuccessful arming attempt" "automation" "arming"
        "warning" false
    ∷ entry "CD" trouble "group_arming_failed" "Unsuccessful group arming attempt" "automation"
        "arming" "warning" false
    ∷ entry "CF" arm "armed_with_malfunctions" "Armed with malfunctions" "system" "arming" "warning"
        false
    ∷ entry "CG" arm "group_armed" "Group armed" "user_or_device" "arming" "info" false
    ∷ entry "CL" arm "armed" "Armed" "user_or_device" "arming" "info" false
    ∷ entry "FA" alarm "fire_alarm" "Fire or smoke alarm" "sensor" "fire" "critical" false
    ∷ entry "FH" restore "fire_restore" "Fire or smoke alarm restored" "sensor" "fire" "info" true
    ∷ entry "FJ" restore "fire_detector_restore" "Fire detector fault restored" "sensor"
        "fire_detector" "info" true
    ∷ entry "FS" trouble "smoke_chamber_dirty" "Smoke chamber dirty or fire detector fault" "sensor"
        "fire_detector" "warning" false
    ∷ entry "FT" trouble "fire_detector_failure" "Fire detector hardware failure" "sensor"
        "fire_detector" "warning" false
    ∷ entry "FX" restore "smoke_chamber_restore" "Smoke chamber restored" "sensor" "fire_detector"
        "info" true
    ∷ entry "GA" alarm "gas_or_co_alarm" "Gas or CO alarm" "sensor" "gas_or_co" "critical" false
    ∷ entry "GH" restore "gas_or_co_restore" "Gas or CO alarm restored" "sensor" "gas_or_co" "info"
        true
    ∷ entry "HA" alarm "duress_disarm" "Duress disarm" "user_or_keypad" "duress" "critical" false
    ∷ entry "JA" trouble "password_bruteforce" "Password guessing attempt" "keypad" "access"
        "warning" false
    ∷ entry "KA" alarm "temperature_alarm" "High temperature or rapid temperature rise alarm"
        "sensor" "temperature" "critical" false
    ∷ entry "KH" restore "temperature_restore" "Temperature alarm restored" "sensor" "temperature"
        "info" true
    ∷ entry "MA" alarm "medical_alarm" "Medical alarm" "button_or_transmitter" "medical" "critical"
        false
    ∷ entry "MR" restore "medical_restore" "Medical alarm restored" "button_or_transmitter"
        "medical" "info" true
    ∷ entry "NB" night "night_mode_on_with_malfunctions" "Night mode activated with malfunctions"
        "automation" "night_mode" "warning" false
    ∷ entry "NC" night "night_mode_on_automatically" "Night mode activated automatically"
        "automation" "night_mode" "info" false
    ∷ entry "ND" alarm "night_mode_off_duress" "Night mode deactivated by duress" "user_or_keypad"
        "duress" "critical" false
    ∷ entry "NE" trouble "night_mode_failed" "Unsuccessful Night mode activation attempt"
        "automation" "night_mode" "warning" false
    ∷ entry "NF" night "night_mode_on_with_malfunctions" "Night mode activated with malfunctions"
        "user_or_device" "night_mode" "warning" false
    ∷ entry "NL" night "night_mode_on" "Night mode activated" "user_or_device" "night_mode" "info"
        false
    ∷ entry "NO" disarm "night_mode_off_automatically" "Night mode deactivated automatically"
        "automation" "night_mode" "info" false
    ∷ entry "NP" disarm "night_mode_off" "Night mode deactivated" "user_or_device" "night_mode"
        "info" false
    ∷ entry "OA" disarm "disarmed_automatically" "Disarmed automatically" "automation" "arming"
        "info" false
    ∷ entry "OB" disarm "group_disarmed_automatically" "Group disarmed automatically" "automation"
        "arming" "info" false
    ∷ entry "OG" disarm "group_disarmed" "Group disarmed" "user_or_device" "arming" "info" false
    ∷ entry "OP" disarm "disarmed" "Disarmed" "user_or_device" "arming" "info" false
    ∷ entry "PA" alarm "panic_alarm" "Panic button alarm" "button_or_user" "panic" "critical" false
    ∷ entry "PF" trouble "photo_channel_lost" "Photo channel connection lost" "sensor"
        "connectivity" "warning" false
    ∷ entry "PH" restore "panic_restore" "Panic alarm restored" "button_or_transmitter" "panic"
        "info" true
    ∷ entry "PO" restore "photo_channel_restored" "Photo channel connection restored" "sensor"
        "connectivity" "info" true
    ∷ entry "QA" alarm "emergency_alarm" "Emergency alarm" "button_or_transmitter" "emergency"
        "critical" false
    ∷ entry "QB" trouble "device_bypassed" "Device bypassed or deactivated" "device" "bypass"
        "warning" false
    ∷ entry "QU" restore "device_bypass_restored" "Device bypass restored or reactivated" "device"
        "bypass" "info" true
    ∷ entry "RB" common "firmware_update_started" "Firmware update started" "system_or_device"
        "firmware" "info" false
    ∷ entry "RP" test "periodic_test" "Periodic test or null message" "hub" "supervision" "info"
        false
    ∷ entry "RS" common "firmware_updated" "Firmware updated" "system_or_device" "firmware" "info"
        false
    ∷ entry "RX" test "manual_test" "Manual test" "hub" "supervision" "info" false
    ∷ entry "RY" test "test_restore" "Test restore" "hub" "supervision" "info" true
    ∷ entry "SM" tamper "device_moved" "Device moved" "sensor" "tamper" "warning" false
    ∷ entry "TA" tamper "tamper_alarm" "Tamper alarm or masking detected" "hub_or_device" "tamper"
        "warning" false
    ∷ entry "TB" trouble "tamper_bypassed" "Tamper bypassed or deactivated" "device" "tamper_bypass"
        "warning" false
    ∷ entry "TR" restore "tamper_restore" "Tamper restored or masking cleared" "hub_or_device"
        "tamper" "info" true
    ∷ entry "TU" restore "tamper_bypass_restored" "Tamper bypass restored or reactivated" "device"
        "tamper_bypass" "info" true
    ∷ entry "WA" alarm "water_leak_alarm" "Water leak alarm" "sensor" "water_leak" "critical" false
    ∷ entry "WH" restore "water_leak_restore" "Water leak restored" "sensor" "water_leak" "info"
        true
    ∷ entry "XC" restore "device_connection_restored" "Device connection restored" "device"
        "connectivity" "info" true
    ∷ entry "XH" restore "interference_restored" "Interference level OK" "system" "interference"
        "info" true
    ∷ entry "XI" common "factory_reset" "Factory reset" "system_or_device" "configuration" "warning"
        false
    ∷ entry "XL" trouble "device_connection_lost" "Device connection lost" "device" "connectivity"
        "warning" false
    ∷ entry "XQ" trouble "interference_high" "Radio interference high" "system" "interference"
        "warning" false
    ∷ entry "XR" restore "battery_restored" "Device battery charged" "device" "battery" "info" true
    ∷ entry "XT" trouble "battery_low" "Device battery low" "device" "battery" "warning" false
    ∷ entry "YA" restore "battery_connected" "Battery connected" "hub" "battery" "info" true
    ∷ entry "YC" trouble "hub_offline" "Hub offline" "hub" "connectivity" "critical" false
    ∷ entry "YG" common "settings_changed" "Settings changed" "system" "configuration" "info" false
    ∷ entry "YK" restore "hub_online" "Hub online" "hub" "connectivity" "info" true
    ∷ entry "YM" trouble "battery_missing" "Battery missing" "hub" "battery" "warning" false
    ∷ entry "YP" trouble "external_power_failure" "External power failure" "device" "power"
        "warning" false
    ∷ entry "YQ" restore "external_power_restored" "External power restored" "device" "power" "info"
        true
    ∷ entry "YR" restore "battery_charged" "Battery charged" "hub_or_detector" "battery" "info" true
    ∷ entry "YS" trouble "monitoring_connection_lost" "Monitoring station connection lost" "hub"
        "connectivity" "warning" false
    ∷ entry "YT" trouble "battery_low" "Battery low" "hub_or_detector" "battery" "warning" false
    ∷ entry "ZZ" common "turned_off" "Turned off" "system_or_device" "power" "warning" false
    ∷ entry "ZY" common "turned_on" "Turned on" "system_or_device" "power" "info" false
    ∷ []
