-- ===== src/Sia/Catalog/CidTable.antt =====
-- `cidCatalog` of bridge/internal/sia/catalog.go, in the order of the source.
use ajax_bridge.Prelude.{true, false, List, [], ◌∷◌, Bytes}
use ajax_bridge.Event.{alarm, restore, arm, disarm, night, tamper, trouble, common}
use ajax_bridge.Sia.Catalog.Entry.{EventInfo, entry}

unfoldable pub cid_catalog : List (Bytes × EventInfo)
cid_catalog =
    entry "E100" alarm "medical_alarm" "Medical alarm" "button_or_transmitter" "medical" "critical"
      false
    ∷ entry "R100" restore "medical_restore" "Medical alarm restored" "button_or_transmitter"
        "medical" "info" true
    ∷ entry "E110" alarm "fire_alarm" "Fire alarm" "sensor" "fire" "critical" false
    ∷ entry "R110" restore "fire_restore" "Fire alarm restored" "sensor" "fire" "info" true
    ∷ entry "E111" alarm "smoke_alarm" "Smoke alarm" "sensor" "smoke" "critical" false
    ∷ entry "R111" restore "smoke_restore" "Smoke alarm restored" "sensor" "smoke" "info" true
    ∷ entry "E114" alarm "temperature_alarm" "Temperature alarm" "sensor" "temperature" "critical"
        false
    ∷ entry "R114" restore "temperature_restore" "Temperature alarm restored" "sensor" "temperature"
        "info" true
    ∷ entry "E120" alarm "panic_alarm" "Panic button alarm" "button_or_user" "panic" "critical"
        false
    ∷ entry "R120" restore "panic_restore" "Panic alarm restored" "button_or_transmitter" "panic"
        "info" true
    ∷ entry "E130" alarm "burglary_alarm" "Burglary alarm" "sensor" "burglary" "critical" false
    ∷ entry "R130" restore "burglary_restore" "Burglary alarm restored" "sensor" "burglary" "info"
        true
    ∷ entry "E137" tamper "masking_detected" "Masking detected" "sensor" "tamper" "warning" false
    ∷ entry "R137" restore "masking_restored" "Masking cleared" "sensor" "tamper" "info" true
    ∷ entry "E144" tamper "tamper_alarm" "Tamper alarm" "device" "tamper" "warning" false
    ∷ entry "R144" restore "tamper_restore" "Tamper restored" "device" "tamper" "info" true
    ∷ entry "E145" tamper "hub_tamper_alarm" "Hub lid open" "hub" "tamper" "warning" false
    ∷ entry "R145" restore "hub_tamper_restore" "Hub lid closed" "hub" "tamper" "info" true
    ∷ entry "E151" alarm "gas_alarm" "Gas alarm" "sensor" "gas" "critical" false
    ∷ entry "R151" restore "gas_restore" "Gas alarm restored" "sensor" "gas" "info" true
    ∷ entry "E154" alarm "water_leak_alarm" "Water leak alarm" "sensor" "water_leak" "critical"
        false
    ∷ entry "R154" restore "water_leak_restore" "Water leak restored" "sensor" "water_leak" "info"
        true
    ∷ entry "E162" alarm "co_alarm" "Carbon monoxide alarm" "sensor" "co" "critical" false
    ∷ entry "R162" restore "co_restore" "Carbon monoxide restored" "sensor" "co" "info" true
    ∷ entry "E300" trouble "battery_missing" "Battery missing" "hub" "battery" "warning" false
    ∷ entry "R300" restore "battery_connected" "Battery connected" "hub" "battery" "info" true
    ∷ entry "E301" trouble "external_power_failure" "External power failure" "system_or_device"
        "power" "warning" false
    ∷ entry "R301" restore "external_power_restored" "External power restored" "system_or_device"
        "power" "info" true
    ∷ entry "E302" trouble "battery_low" "Battery low" "hub" "battery" "warning" false
    ∷ entry "R302" restore "battery_charged" "Battery charged" "hub" "battery" "info" true
    ∷ entry "E337" trouble "device_external_power_failure" "Device external power failure" "device"
        "power" "warning" false
    ∷ entry "R337" restore "device_external_power_restored" "Device external power restored"
        "device" "power" "info" true
    ∷ entry "E344" trouble "interference_high" "Radio interference high" "system" "interference"
        "warning" false
    ∷ entry "R344" restore "interference_restored" "Radio interference restored" "system"
        "interference" "info" true
    ∷ entry "E350" trouble "hub_offline" "Hub offline" "hub" "connectivity" "critical" false
    ∷ entry "R350" restore "hub_online" "Hub online" "hub" "connectivity" "info" true
    ∷ entry "E377" trouble "accelerometer_failure" "Accelerometer failure" "sensor" "accelerometer"
        "warning" false
    ∷ entry "R377" restore "accelerometer_restore" "Accelerometer restored" "sensor" "accelerometer"
        "info" true
    ∷ entry "E381" trouble "device_connection_lost" "Device connection lost" "device" "connectivity"
        "warning" false
    ∷ entry "R381" restore "device_connection_restored" "Device connection restored" "device"
        "connectivity" "info" true
    ∷ entry "E384" trouble "device_battery_low" "Device battery low" "device" "battery" "warning"
        false
    ∷ entry "R384" restore "device_battery_restored" "Device battery restored" "device" "battery"
        "info" true
    ∷ entry "E389" trouble "hardware_failure" "Hardware failure" "device" "hardware" "warning" false
    ∷ entry "R389" restore "hardware_restore" "Hardware restored" "device" "hardware" "info" true
    ∷ entry "E391" trouble "photo_channel_lost" "Photo channel lost" "sensor" "connectivity"
        "warning" false
    ∷ entry "R391" restore "photo_channel_restored" "Photo channel restored" "sensor" "connectivity"
        "info" true
    ∷ entry "E393" trouble "smoke_chamber_dirty" "Smoke chamber dirty" "sensor" "fire_detector"
        "warning" false
    ∷ entry "R393" restore "smoke_chamber_restore" "Smoke chamber restored" "sensor" "fire_detector"
        "info" true
    ∷ entry "E400" disarm "disarmed_by_user" "Disarmed by user" "user" "arming" "info" false
    ∷ entry "R400" arm "armed_by_user" "Armed by user" "user" "arming" "info" false
    ∷ entry "E403" disarm "disarmed_automatically" "Disarmed automatically" "automation" "arming"
        "info" false
    ∷ entry "R403" arm "armed_automatically" "Armed automatically" "automation" "arming" "info"
        false
    ∷ entry "E409" disarm "disarmed_by_device" "Disarmed by device" "keypad_or_spacecontrol"
        "arming" "info" false
    ∷ entry "R409" arm "armed_by_device" "Armed by device" "keypad_or_spacecontrol" "arming" "info"
        false
    ∷ entry "E423" alarm "duress_disarm" "Duress disarm" "user_or_keypad" "duress" "critical" false
    ∷ entry "E441" disarm "night_mode_off_group" "Night mode deactivated for group" "user"
        "night_mode" "info" false
    ∷ entry "R441" night "night_mode_on_group" "Night mode activated for group" "user" "night_mode"
        "info" false
    ∷ entry "E442" disarm "night_mode_off_group" "Night mode deactivated for group" "device"
        "night_mode" "info" false
    ∷ entry "R442" night "night_mode_on_group" "Night mode activated for group" "device"
        "night_mode" "info" false
    ∷ entry "E455" trouble "arming_failed" "Unsuccessful arming attempt" "system" "arming" "warning"
        false
    ∷ entry "E461" trouble "password_bruteforce" "Password guessing attempt" "keypad" "access"
        "warning" false
    ∷ entry "E627" common "settings_changed" "Settings changed" "system" "configuration" "info"
        false
    ∷ []
