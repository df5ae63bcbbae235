-- ===== src/Tests/Catalog.antt =====
-- bridge/internal/devicecatalog at a concrete input.
use ajax_bridge.Time.{is_zero, date, days_before_year, days_before_month, days_in_month, is_leap}
use ajax_bridge.Prelude.{false, codes, ◌≡◌, refl}
use ajax_bridge.DeviceCatalog.{Catalog, empty, upsert_from_event}
use ajax_bridge.DeviceCatalog.Repeated.{unchanged, upsert_from_event-repeated}
use ajax_bridge.Tests.State.{noon, zone_alarm}

abbrev new_catalog : Catalog
new_catalog = record empty { path = codes "devices.json" }

noon-set : is_zero noon ≡ false
unfolding date days_before_year days_before_month days_in_month is_leap
noon-set = refl

upsert_from_event-repeated_example :
    let done = upsert_from_event new_catalog noon zone_alarm in
    upsert_from_event done.0 noon zone_alarm ≡ (done.0, unchanged done.1)
upsert_from_event-repeated_example = upsert_from_event-repeated new_catalog noon zone_alarm noon-set
