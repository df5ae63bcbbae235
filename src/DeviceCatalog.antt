-- ===== src/DeviceCatalog.antt =====
-- bridge/internal/devicecatalog/catalog.go. Saving the file is an effect of the operating system: what
-- it returns is left out, and the catalog in memory has changed before it.
mod Naming
pub mod Found
pub mod Repeated
use ajax_bridge.Prelude.{
  ℕ, zero, suc, ◌+◌, Bool, true, false, not, ◌&&◌, ◌||◌, Option, none, some, List, [], ◌∷◌, ◌++◌,
  if◌then◌else◌, or_else, Bytes, codes, is_empty, eqb,
}
use ajax_bridge.Time.{Time, is_zero, after}
use ajax_bridge.Event.{Class, alarm, restore, arm, disarm, trouble, class_text, Normalized}
use ajax_bridge.Dict.{Dict, get, put}
unfoldable pub use ajax_bridge.DeviceCatalog.Naming.{
  default_name, one_of, sensor_kind, default_kind, class_family, event_family, contains,
}

pub record Device : Type 0 where
  pub account : Bytes
  pub zone : Bytes
  pub partition : Bytes
  pub group : Bytes
  pub device : Bytes
  pub name : Bytes
  pub room : Bytes
  pub kind : Bytes
  pub events : List Bytes
  pub description : Bytes
  pub jeedom_names : List Bytes
  pub jeedom_command_ids : List Bytes
  pub auto_discovered : Bool
  pub first_seen_at : Time
  pub last_seen_at : Time
  pub last_event_code : Bytes
  pub last_event_name : Bytes
  pub last_signal : Bytes

pub record Catalog : Type 0 where
  pub path : Bytes
  pub devices : List Device
  pub by_exact : Dict Device
  pub by_zone : Dict Device

abbrev pub empty : Catalog
empty = record { path = []; devices = []; by_exact = []; by_zone = [] }

-- account + "\x00" + zone + "\x00" + device
unfoldable pub key : Bytes → Bytes → Bytes → Bytes
key account zone device = account ++ (0 ∷ (zone ++ (0 ∷ device)))

abbrev pub Indexes : Type 0
Indexes = Dict Device × Dict Device

-- One turn of the loop of `rebuildIndexes`.
unfoldable pub index_device : Indexes → Device → Indexes
index_device (by_exact, by_zone) d =
    let exact : Dict Device =
      if is_empty d.device then by_exact else put (key d.account d.zone d.device) d by_exact in
    let zoned : Dict Device = elim (get (key d.account d.zone []) by_zone) [
      | none ↦ put (key d.account d.zone []) d by_zone
      | some old ↦ by_zone
    ] in
    if is_empty d.account || is_empty d.zone then (by_exact, by_zone) else (exact, zoned)

unfoldable pub index_devices : Indexes → List Device → Indexes
index_devices ix [] = ix
index_devices ix (d ∷ ds) = index_devices (index_device ix d) ds

unfoldable pub rebuild_indexes : Catalog → Catalog
rebuild_indexes c =
    let (by_exact, by_zone) = index_devices ([], []) c.devices in
    record c { by_exact = by_exact; by_zone = by_zone }

unfoldable pub lookup : Catalog → Bytes → Bytes → Bytes → Option Device
lookup c account zone device =
    or_else (get (key account zone device) c.by_exact) (get (key account zone []) c.by_zone)

-- The account and the zone of a device are those that are asked for.
abbrev pub is_at : Bytes → Bytes → Device → Bool
is_at account zone d = eqb d.account account && eqb d.zone zone

-- The loop of `findDeviceIndex` from index `i`, with the fallback found so far.
unfoldable pub find_from : Bytes → Bytes → Bytes → ℕ → Option ℕ → List Device → Option ℕ
find_from account zone device i fallback [] = fallback
find_from account zone device i fallback (d ∷ ds) =
    let rest = find_from account zone device (i + 1) fallback ds in
    let here = find_from account zone device (i + 1) (or_else fallback (some i)) ds in
    if not (is_at account zone d)
    then rest
    else if not (is_empty device) && eqb d.device device
    then some i
    else if is_empty d.device
    then here
    else rest

unfoldable pub find_device_index : List Device → Bytes → Bytes → Bytes → Option ℕ
find_device_index ds account zone device = find_from account zone device 0 none ds

-- The device that `UpsertFromEvent` adds.
unfoldable pub discovered : Normalized → Time → Device
discovered e now = record {
  account = e.account;
  zone = e.zone;
  partition = e.partition;
  group = e.group;
  device = e.device;
  name = default_name e;
  room = codes "unknown";
  kind = default_kind e;
  events = event_family e ∷ [];
  description = [];
  jeedom_names = [];
  jeedom_command_ids = [];
  auto_discovered = true;
  first_seen_at = now;
  last_seen_at = now;
  last_event_code = e.event_code;
  last_event_name = e.event_name;
  last_signal = e.signal;
}

-- A field that is empty is filled from the event; the flag is `changed`.
abbrev pub fill : Bytes → Bytes → Bytes
fill old new = if is_empty old && not (is_empty new) then new else old

abbrev pub filled : Bytes → Bytes → Bool
filled old new = is_empty old && not (is_empty new)

abbrev pub adds_family : List Bytes → Bytes → Bool
adds_family events family = not (is_empty family) && not (contains events family)

unfoldable pub merge_event : Device → Normalized → Time → Device
merge_event d e now =
    let family = event_family e in
    record d {
      partition = fill d.partition e.partition;
      group = fill d.group e.group;
      device = fill d.device e.device;
      events = if adds_family d.events family then d.events ++ family ∷ [] else d.events;
      last_seen_at =
          if is_zero d.last_seen_at || after now d.last_seen_at then now else d.last_seen_at;
      last_event_code = e.event_code;
      last_event_name = e.event_name;
      last_signal = e.signal;
    }

-- `changed`
unfoldable pub merge_changes : Device → Normalized → Time → Bool
merge_changes d e now =
    filled d.partition e.partition
    || filled d.group e.group
    || filled d.device e.device
    || adds_family d.events (event_family e)
    || is_zero d.last_seen_at
    || after now d.last_seen_at
    || not (eqb d.last_event_code e.event_code)
    || not (eqb d.last_event_name e.event_name)
    || not (eqb d.last_signal e.signal)

pub record UpsertResult : Type 0 where
  pub device : Option Device
  pub created : Bool
  pub updated : Bool
  -- Whether the file was written over, or was to be.
  pub saved : Bool

abbrev pub nothing : UpsertResult
nothing = record { device = none; created = false; updated = false; saved = false }

abbrev pub nth : List Device → ℕ → Option Device
nth [] i = none
nth (d ∷ ds) zero = some d
nth (d ∷ ds) (suc i) = nth ds i

abbrev pub set_nth : List Device → ℕ → Device → List Device
set_nth [] i x = []
set_nth (d ∷ ds) zero x = x ∷ ds
set_nth (d ∷ ds) (suc i) x = d ∷ set_nth ds i x

-- c.devices[index], with the event merged in
unfoldable pub upsert_at : Catalog → Normalized → Time → ℕ → Option Device → Catalog × UpsertResult
upsert_at c e now index none = (c, nothing)
upsert_at c e now index (some d) =
    if merge_changes d e now
    then (
      rebuild_indexes (record c { devices = set_nth c.devices index (merge_event d e now) }),
      record { device = some (merge_event d e now); created = false; updated = true; saved = true },
    )
    else (c, record { device = some d; created = false; updated = false; saved = false })

unfoldable pub upsert_found : Catalog → Normalized → Time → Option ℕ → Catalog × UpsertResult
upsert_found c e now (some index) = upsert_at c e now index (nth c.devices index)
upsert_found c e now none = (
  rebuild_indexes (record c { devices = c.devices ++ discovered e now ∷ [] }),
  record { device = some (discovered e now); created = true; updated = false; saved = true },
)

-- c.UpsertFromEvent(ctx, evt) in a context that is not done. The wall clock stands in for a missing
-- time of receipt. What saving returns is the error beside the result; the catalog in memory has
-- changed before it.
unfoldable pub upsert_from_event : Catalog → Time → Normalized → Catalog × UpsertResult
upsert_from_event c clock e =
    let now = if is_zero e.received_at then clock else e.received_at in
    if is_empty c.path || is_empty e.account || is_empty e.zone
    then (c, nothing)
    else upsert_found c e now (find_device_index c.devices e.account e.zone e.device)

-- c.Replace(ctx, devices) in a context that is not done
unfoldable pub replace : Catalog → List Device → Catalog
replace c devices = rebuild_indexes (record c { devices = devices })
