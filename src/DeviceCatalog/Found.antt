-- ===== src/DeviceCatalog/Found.antt =====
-- Which device `findDeviceIndex` finds once the found one is updated, or a new one added.
use ajax_bridge.Prelude.{
  ℕ, zero, suc, ◌+◌, ◌<◌, ◌≤◌, true, Option, none, some, List, [], ◌∷◌, ◌++◌, Bytes, length,
  eqb_iff, eqb_refl, ◌≡◌, ◌≢◌, ◌⊎◌, inl, refl, arith,
}
use ajax_bridge.DeviceCatalog.{Device, is_at, find_from, nth, set_nth, fill}

module _ (account zone device : Bytes) where
  abbrev find : ℕ → Option ℕ → List Device → Option ℕ
  find i fallback ds = find_from account zone device i fallback ds

  -- An index that is found is the fallback or one of the list.
  find-bound :
      (i : ℕ) (fallback : Option ℕ) (ds : List Device) (k : ℕ)
      → find i fallback ds ≡ some k
      → (fallback ≡ some k) ⊎ (i ≤ k)
  unfolding find_from
  find-bound i fallback [] k h = inl h
  find-bound i none (d ∷ ds) k h =
      let tail = find-bound (i + 1) none ds k in
      let here = find-bound (i + 1) (some i) ds k in ground arith
  find-bound i (some f) (d ∷ ds) k h = let tail = find-bound (i + 1) (some f) ds k in ground arith

  -- A device that is found still is once an empty identifier is filled in.
  pub find-set :
      (d' : Device)
      → is_at account zone d' ≡ true
      → (i : ℕ) (fallback : Option ℕ) (ds : List Device) (n : ℕ) (d : Device) → nth ds n ≡ some d
      → d'.device ≡ fill d.device device
      → ((f : ℕ) → fallback ≡ some f → f < i)
      → find i fallback ds ≡ some (i + n)
      → find i fallback (set_nth ds n d') ≡ some (i + n)
  unfolding find_from
  find-set d' at i fallback [] n d m w b h = ground arith
  find-set d' at i none (x ∷ ds) zero d m w b h =
      let tail = find-bound (i + 1) none ds i in
      ground (arith, eqb_refl device, eqb_iff x.device device, eqb_iff d'.device device)
  find-set d' at i (some f) (x ∷ ds) zero d m w b h =
      let tail = find-bound (i + 1) (some f) ds i in
      let below = b f refl in
      ground (arith, eqb_refl device, eqb_iff x.device device, eqb_iff d'.device device)
  find-set d' at i none (x ∷ ds) (suc n) d m w b h =
      let tail = find-set d' at (i + 1) none ds n d m w (λ f e. ground arith) in
      let here = find-set d' at (i + 1) (some i) ds n d m w (λ f e. ground arith) in ground arith
  find-set d' at i (some f) (x ∷ ds) (suc n) d m w b h =
      let below = b f refl in
      let tail = find-set d' at (i + 1) (some f) ds n d m w (λ g e. ground arith) in ground arith

  -- A device that is found has the account and the zone that are looked for.
  pub find-at :
      (i : ℕ) (fallback : Option ℕ) (ds : List Device) (n : ℕ) (d : Device)
      → nth ds n ≡ some d
      → ((f : ℕ) → fallback ≡ some f → f < i)
      → find i fallback ds ≡ some (i + n)
      → is_at account zone d ≡ true
  unfolding find_from
  find-at i fallback [] n d m b h = ground arith
  find-at i none (x ∷ ds) zero d m b h = let tail = find-bound (i + 1) none ds i in ground arith
  find-at i (some f) (x ∷ ds) zero d m b h =
      let tail = find-bound (i + 1) (some f) ds i in let below = b f refl in ground arith
  find-at i none (x ∷ ds) (suc n) d m b h =
      let tail = find-at (i + 1) none ds n d m (λ f e. ground arith) in
      let here = find-at (i + 1) (some i) ds n d m (λ f e. ground arith) in ground arith
  find-at i (some f) (x ∷ ds) (suc n) d m b h =
      let below = b f refl in
      let tail = find-at (i + 1) (some f) ds n d m (λ g e. ground arith) in ground arith

  find-some : (i f : ℕ) (ds : List Device) → find i (some f) ds ≢ none
  unfolding find_from
  find-some i f [] h = ground arith
  find-some i f (d ∷ ds) h = let tail = find-some (i + 1) f ds in ground arith

  -- A device that is added is found where none was.
  pub find-added :
      (d' : Device)
      → is_at account zone d' ≡ true
      → d'.device ≡ device
      → (i : ℕ) (ds : List Device) → find i none ds ≡ none
      → find i none (ds ++ d' ∷ []) ≡ some (i + length ds)
  unfolding find_from
  find-added d' at same i [] h = ground (arith, eqb_refl device)
  find-added d' at same i (x ∷ ds) h =
      let tail = find-added d' at same (i + 1) ds in
      let found = find-some (i + 1) i ds in ground arith
