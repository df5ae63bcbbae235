-- ===== src/State.antt =====
-- bridge/internal/state/state.go: the engine. The lock makes every operation one step. The wall clock that
-- `Apply` reads is an argument.
pub mod Accounts
pub mod Zones
pub mod Owners
pub mod Alarms
pub mod Modes
use ajax_bridge.Prelude.{
  ℕ, ◌+◌, ◌%◌, ◌^◌, Bool, true, false, ◌&&◌, ◌||◌, Option, none, some, List, [], ◌∷◌, ◌++◌,
  if◌then◌else◌, Bytes, codes, is_empty, eqb, map,
}
use ajax_bridge.Time.{Time}
use ajax_bridge.Event.{
  Class, unset, unknown, alarm, restore, arm, disarm, night, tamper, trouble, test, common,
  Normalized,
}
use ajax_bridge.Dict.{Dict, get, put, map_values, any_value}
use ajax_bridge.DeviceCatalog.{Device, Catalog, lookup}
use ajax_bridge.State.Accounts.{
  Account, fresh_account, touch_account, apply_account, refresh_account,
}
use ajax_bridge.State.Zones.{
  Zone, fresh_zone, event_metadata, apply_device_metadata, apply_catalog_state, touch_zone,
  apply_zone,
}

pub record Engine : Type 0 where
  pub offline_grace : ℕ
  -- A pointer, which may be nil, to the catalog as it is now.
  pub devices : Option Catalog
  pub accounts : Dict Account
  pub zones : Dict Zone
  pub direct_alarms : Dict Bool
  pub revision : ℕ

pub record Snapshot : Type 0 where
  pub accounts : List Account
  pub zones : List Zone
  pub revision : ℕ

-- The identifier that an account is kept under.
unfoldable pub account_id : Bytes → Bytes
account_id a = if is_empty a then codes "unknown" else a

abbrev pub or_fresh {ℓ} : {A : Type ℓ} → A → Option A → A
or_fresh fresh none = fresh
or_fresh fresh (some a) = a

-- e.account(accountID); `Apply` stores the account that it goes on to change.
unfoldable pub account : Engine → Bytes → Account
account e id = or_fresh (fresh_account (account_id id)) (get (account_id id) e.accounts)

unfoldable pub zone_key : Bytes → Bytes → Bytes
zone_key account_id zone_id = account_id ++ (47 ∷ zone_id)

-- e.zone(accountID, zoneID), in the same way
unfoldable pub zone : Engine → Bytes → Bytes → Zone
zone e account_id zone_id =
    or_fresh (fresh_zone account_id zone_id) (get (zone_key account_id zone_id) e.zones)

unfoldable pub seed_device : Engine → Device → Engine
seed_device e d = if is_empty d.account || is_empty d.zone then e else record e {
  zones =
      put (zone_key d.account d.zone)
        (apply_catalog_state (apply_device_metadata (zone e d.account d.zone) d) d) e.zones;
}

unfoldable pub seed_devices : Engine → List Device → Engine
seed_devices e [] = e
seed_devices e (d ∷ ds) = seed_devices (seed_device e d) ds

unfoldable pub seed_catalog_devices : Engine → Option Catalog → Engine
seed_catalog_devices e none = e
seed_catalog_devices e (some c) = seed_devices e c.devices

unfoldable pub new_engine : ℕ → Option Catalog → Engine
new_engine offline_grace devices =
    seed_catalog_devices
      (record {
        offline_grace = offline_grace;
        devices = devices;
        accounts = [];
        zones = [];
        direct_alarms = [];
        revision = 1;
      })
      devices

-- e.revision++
unfoldable pub next_revision : Engine → Engine
next_revision e = record e { revision = (e.revision + 1) % 2 ^ 64 }

-- e.refreshOnlineLocked(now)
unfoldable pub refresh_online_locked : Time → Engine → Engine
refresh_online_locked now e = record e {
  accounts = map_values (refresh_account e.offline_grace now) e.accounts;
}

-- A missing key is read as false.
abbrev pub flag : Option Bool → Bool
flag none = false
flag (some b) = b

abbrev pub is_alarmed : Bytes → Zone → Bool
is_alarmed id z = eqb z.account id && z.alarm_active

-- The `active` that `refreshAccountAlarmLocked` computes.
unfoldable pub has_alarm : Engine → Bytes → Bool
has_alarm e id = flag (get id e.direct_alarms) || any_value (is_alarmed id) e.zones

unfoldable pub refresh_alarm_of : Engine → Bytes → Option Account → Engine
refresh_alarm_of e id none = e
refresh_alarm_of e id (some a) = record e {
  accounts = put id (record a { alarm_active = has_alarm e id }) e.accounts;
}

-- e.refreshAccountAlarmLocked(accountID)
unfoldable pub refresh_account_alarm : Bytes → Engine → Engine
refresh_account_alarm id e = refresh_alarm_of e id (get id e.accounts)

-- What the first switch of `Apply` writes to `directAlarms`.
unfoldable pub apply_direct : Class → Bytes → Normalized → Dict Bool → Dict Bool
apply_direct alarm id evt m = if is_empty evt.zone then put id true m else m
apply_direct restore id evt m = if is_empty evt.zone then put id false m else m
apply_direct disarm id evt m = if eqb evt.signal (codes "night_mode") then m else put id false m
apply_direct unset id evt m = m
apply_direct unknown id evt m = m
apply_direct arm id evt m = m
apply_direct night id evt m = m
apply_direct tamper id evt m = m
apply_direct trouble id evt m = m
apply_direct test id evt m = m
apply_direct common id evt m = m

-- `Apply` up to the end of its first switch.
unfoldable pub apply_to_account : Engine → Normalized → Engine
apply_to_account e evt =
    let a : Account = touch_account (account e evt.account) evt in
    record e {
      accounts = put (account_id evt.account) (apply_account evt.event_class a evt) e.accounts;
      direct_alarms = apply_direct evt.event_class a.account evt e.direct_alarms;
    }

unfoldable pub catalog_metadata : Zone → Option Device → Zone
catalog_metadata z none = z
catalog_metadata z (some d) = apply_device_metadata z d

unfoldable pub looked_up : Option Catalog → Normalized → Option Device
looked_up none evt = none
looked_up (some c) evt = lookup c evt.account evt.zone evt.device

-- e.updateZoneMetadata(zone, evt)
unfoldable pub update_zone_metadata : Engine → Zone → Normalized → Zone
update_zone_metadata e z evt = catalog_metadata (event_metadata z evt) (looked_up e.devices evt)

-- The zone that an event of a zone leaves.
unfoldable pub event_zone : Engine → Normalized → Zone
event_zone e evt =
    apply_zone evt.event_class
      (touch_zone (update_zone_metadata e (zone e evt.account evt.zone) evt) evt) evt

unfoldable pub apply_to_zone : Engine → Normalized → Engine
apply_to_zone e evt =
    if is_empty evt.zone
    then e
    else record e { zones = put (zone_key evt.account evt.zone) (event_zone e evt) e.zones }

-- e.Apply(evt)
unfoldable pub apply : Time → Engine → Normalized → Engine
apply now e evt =
    refresh_online_locked now (
      refresh_account_alarm evt.account
        (apply_to_zone (apply_to_account (next_revision e) evt) evt))

-- e.RefreshOnline(now)
unfoldable pub refresh_online : Time → Engine → Engine
refresh_online now e = refresh_online_locked now (next_revision e)

-- e.ReloadCatalog()
unfoldable pub reload_catalog : Engine → Engine
reload_catalog e = seed_catalog_devices (next_revision e) e.devices

abbrev pub values {ℓ} : {V : Type ℓ} → Dict V → List V
values [] = []
values ((k, v) ∷ m) = v ∷ values m

-- e.Snapshot(), which every operation gives back of the engine that it leaves
unfoldable pub snapshot : Engine → Snapshot
snapshot e = record { accounts = values e.accounts; zones = values e.zones; revision = e.revision }
