-- ===== src/DeviceCatalog/Repeated.antt =====
-- An event that comes twice leaves the catalog as it left it the first time.
use ajax_bridge.Prelude.{
  ℕ, zero, suc, ◌+◌, true, false, ◌||◌, Option, none, some, List, [], ◌∷◌, ◌++◌, if◌then◌else◌,
  Bytes, is_empty, length, eqb_refl, ◌≡◌, refl, ap, ◌∙◌, arith, Bool-cases, Option-cases, inl, inr,
}
use ajax_bridge.Time.{Time, is_zero, after}
use ajax_bridge.Event.{Normalized}
use ajax_bridge.DeviceCatalog.{
  Device, Catalog, find_device_index, nth, set_nth, fill, filled, adds_family, contains,
  event_family, merge_event, merge_changes, discovered, rebuild_indexes, UpsertResult, upsert_at,
  upsert_found, upsert_from_event,
}
use ajax_bridge.DeviceCatalog.Found.{find-set, find-added, find-at}

filled-fill : (old new : Bytes) → filled (fill old new) new ≡ false
filled-fill old new = ground arith

contains-added : (xs : List Bytes) (x : Bytes) → contains (xs ++ x ∷ []) x ≡ true
unfolding contains
contains-added [] x = ground (arith, eqb_refl x)
contains-added (y ∷ xs) x = ground (arith, contains-added xs x)

adds_family-added :
    (xs : List Bytes) (x : Bytes)
    → adds_family (if adds_family xs x then xs ++ x ∷ [] else xs) x ≡ false
adds_family-added xs x = ground (arith, contains-added xs x)

seen-again :
    (now last : Time)
    → is_zero now ≡ false
    → let seen = if is_zero last || after now last then now else last in
      (is_zero seen ≡ false) × (after now seen ≡ false)
seen-again now last h = ground arith

merge_changes-merged :
    (d : Device) (e : Normalized) (now : Time)
    → is_zero now ≡ false
    → merge_changes (merge_event d e now) e now ≡ false
unfolding merge_changes merge_event
merge_changes-merged d e now h =
    let seen = seen-again now d.last_seen_at h in
    rw (
      filled-fill d.partition e.partition,
      filled-fill d.group e.group,
      filled-fill d.device e.device,
      adds_family-added d.events (event_family e),
      seen.0,
      seen.1,
      eqb_refl e.event_code,
      eqb_refl e.event_name,
      eqb_refl e.signal,
    )

merge_changes-discovered :
    (e : Normalized) (now : Time)
    → is_zero now ≡ false
    → merge_changes (discovered e now) e now ≡ false
unfolding merge_changes discovered contains
merge_changes-discovered e now h = ground (
  arith,
  eqb_refl (event_family e),
  eqb_refl e.event_code,
  eqb_refl e.event_name,
  eqb_refl e.signal,
)

nth-set_nth :
    (ds : List Device) (n : ℕ) (d d' : Device)
    → nth ds n ≡ some d
    → nth (set_nth ds n d') n ≡ some d'
nth-set_nth [] n d d' h = ground arith
nth-set_nth (x ∷ ds) zero d d' h = refl
nth-set_nth (x ∷ ds) (suc n) d d' h = nth-set_nth ds n d d' h

nth-added : (ds : List Device) (d : Device) → nth (ds ++ d ∷ []) (length ds) ≡ some d
nth-added [] d = refl
nth-added (x ∷ ds) d = nth-added ds d

-- What a second time must give.
abbrev pub unchanged : UpsertResult → UpsertResult
unchanged r = record { device = r.device; created = false; updated = false; saved = false }

module _ (e : Normalized) (now : Time) (later : is_zero now ≡ false) where
  abbrev again : Catalog → Catalog × UpsertResult
  again c = upsert_found c e now (find_device_index c.devices e.account e.zone e.device)

  settled-again :
      (c : Catalog) (n : ℕ) (d : Device)
      → find_device_index c.devices e.account e.zone e.device ≡ some n
      → nth c.devices n ≡ some d
      → merge_changes d e now ≡ false
      → again c ≡ (c, record { device = some d; created = false; updated = false; saved = false })
  unfolding upsert_found upsert_at
  settled-again c n d f m q = ap (upsert_found c e now) f ∙ ap (upsert_at c e now n) m ∙ rw q refl

  again-created :
      (c : Catalog)
      → find_device_index c.devices e.account e.zone e.device ≡ none
      → let c' = rebuild_indexes (record c { devices = c.devices ++ discovered e now ∷ [] }) in
        again c' ≡ (
          c',
          record {
            device = some (discovered e now);
            created = false;
            updated = false;
            saved = false;
          },
        )
  unfolding rebuild_indexes find_device_index discovered
  again-created c h =
      settled-again (rebuild_indexes (record c { devices = c.devices ++ discovered e now ∷ [] }))
        (length c.devices) (discovered e now)
        (find-added e.account e.zone e.device (discovered e now)
            (rw (eqb_refl e.account, eqb_refl e.zone) refl) refl 0 c.devices h
          ∙ ap some (omega arith))
        (nth-added c.devices (discovered e now)) (merge_changes-discovered e now later)

  again-updated :
      (c : Catalog) (n : ℕ) (d : Device)
      → find_device_index c.devices e.account e.zone e.device ≡ some n
      → nth c.devices n ≡ some d
      → let c' =
          rebuild_indexes (record c { devices = set_nth c.devices n (merge_event d e now) }) in
        again c' ≡ (
          c',
          record {
            device = some (merge_event d e now);
            created = false;
            updated = false;
            saved = false;
          },
        )
  unfolding rebuild_indexes find_device_index merge_event
  again-updated c n d h m =
      let d' = merge_event d e now in
      let found : find_device_index c.devices e.account e.zone e.device ≡ some (0 + n) =
        h ∙ ap some (omega arith) in
      settled-again (rebuild_indexes (record c { devices = set_nth c.devices n d' })) n d'
        (find-set e.account e.zone e.device d'
            (find-at e.account e.zone e.device 0 none c.devices n d m (λ f p. ground arith) found) 0
            none c.devices n d m refl (λ f p. ground arith) found
          ∙ ap some (omega arith))
        (nth-set_nth c.devices n d d' m) (merge_changes-merged d e now later)

  again-found :
      (c : Catalog) (o : Option ℕ)
      → find_device_index c.devices e.account e.zone e.device ≡ o
      → let done = upsert_found c e now o in again done.0 ≡ (done.0, unchanged done.1)
  unfolding upsert_found upsert_at
  again-found c none h = again-created c h
  again-found c (some n) h = elim (Option-cases (nth c.devices n)) [
    | inl x ↦ rw x (ap (upsert_found c e now) h ∙ ap (upsert_at c e now n) x)
    | inr (d, m) ↦ elim (Bool-cases (merge_changes d e now)) [
      | inl t ↦ rw (m, t) (again-updated c n d h m)
      | inr f ↦ rw (m, f) (settled-again c n d h m f)
    ]
  ]

  found-path : (c : Catalog) (o : Option ℕ) → (upsert_found c e now o).0.path ≡ c.path
  unfolding upsert_found upsert_at rebuild_indexes
  found-path c none = refl
  found-path c (some n) = elim (Option-cases (nth c.devices n)) [
    | inl x ↦ rw x refl
    | inr (d, m) ↦ elim (Bool-cases (merge_changes d e now)) [
      | inl t ↦ rw (m, t) refl
      | inr f ↦ rw (m, f) refl
    ]
  ]

-- The same event a second time: with a time of receipt, or a clock, that is set, the catalog is that
-- which the first time left, the device found is the same, and nothing is created, updated or saved.
pub upsert_from_event-repeated :
    (c : Catalog) (clock : Time) (e : Normalized)
    → is_zero clock ≡ false
    → let done = upsert_from_event c clock e in
      upsert_from_event done.0 clock e ≡ (done.0, unchanged done.1)
unfolding upsert_from_event
upsert_from_event-repeated c clock e set =
    let now = if is_zero e.received_at then clock else e.received_at in
    elim (Bool-cases (is_empty c.path || is_empty e.account || is_empty e.zone)) [
      | inl t ↦ rw t (rw t refl)
      | inr f ↦
          let o = find_device_index c.devices e.account e.zone e.device in
          rw f (
            rw (found-path e now (ground arith) c o, f) (again-found e now (ground arith) c o refl))
    ]
