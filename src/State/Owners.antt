-- ===== src/State/Owners.antt =====
-- Which account and zone the keys of the engine's maps name, and what an event of one account leaves of
-- another.
use ajax_bridge.Prelude.{
  Bool, true, false, not, Option, none, some, [], ◌∷◌, ◌==◌, Bytes, eqb, all, ◌≡◌, refl, sym, ◌∙◌,
  arith, Option-cases, inl, inr,
}
use ajax_bridge.Event.{
  Class, unset, unknown, alarm, restore, arm, disarm, night, tamper, trouble, test, common,
  Normalized,
}
use ajax_bridge.Dict.{Dict, get, put, map_option, get-put}
use ajax_bridge.DeviceCatalog.{Device}
use ajax_bridge.State.Accounts.{Account, apply_account, apply_account_restore}
use ajax_bridge.State.Zones.{Zone}
use ajax_bridge.State.Zones.Named.{
  IsSame, IsSame-refl, IsSame-trans, apply_zone-IsSame, device-IsSame, event-IsSame, touch-IsSame,
}
use ajax_bridge.State.{
  Engine, zone_key, zone, has_alarm, apply_direct, looked_up, catalog_metadata,
  update_zone_metadata, event_zone,
}

abbrev pub slash_free : Bytes → Bool
slash_free s = all (λ c. not (c == 47)) s

pub zone_key-injective :
    (a b z y : Bytes)
    → slash_free a ≡ true
    → slash_free b ≡ true
    → zone_key a z ≡ zone_key b y
    → (a ≡ b) × (z ≡ y)
unfolding zone_key
zone_key-injective [] [] z y h k p = ground arith
zone_key-injective [] (c ∷ b) z y h k p = ground arith
zone_key-injective (c ∷ a) [] z y h k p = ground arith
zone_key-injective (c ∷ a) (d ∷ b) z y h k p = ground (arith, zone_key-injective a b z y)

pub record IsConsistent (e : Engine) : Type 0 where
  pub account_named : (k : Bytes) (a : Account) → get k e.accounts ≡ some a → a.account ≡ k
  pub zone_named :
      (k : Bytes) (z : Zone)
      → get k e.zones ≡ some z
      → (k ≡ zone_key z.account z.zone) × (slash_free z.account ≡ true)
  pub alarm_known :
      (k : Bytes) (a : Account) → get k e.accounts ≡ some a → a.alarm_active ≡ has_alarm e k

pub catalog-IsSame : (z : Zone) (o : Option Device) → IsSame z (catalog_metadata z o)
unfolding catalog_metadata
catalog-IsSame z none = IsSame-refl z
catalog-IsSame z (some d) = device-IsSame z d

pub event_zone-IsSame :
    (e : Engine) (evt : Normalized) → IsSame (zone e evt.account evt.zone) (event_zone e evt)
unfolding event_zone update_zone_metadata
event_zone-IsSame e evt =
    IsSame-trans
      (IsSame-trans (IsSame-trans (event-IsSame _ evt) (catalog-IsSame _ (looked_up e.devices evt)))
        (touch-IsSame _ evt))
      (apply_zone-IsSame _ evt evt.event_class)

pub apply_account-account :
    (c : Class) (a : Account) (evt : Normalized) → (apply_account c a evt).account ≡ a.account
unfolding apply_account apply_account_restore
apply_account-account alarm a evt = ground arith
apply_account-account restore a evt = ground arith
apply_account-account arm a evt = refl
apply_account-account night a evt = refl
apply_account-account disarm a evt = ground arith
apply_account-account tamper a evt = refl
apply_account-account trouble a evt = refl
apply_account-account unset a evt = refl
apply_account-account unknown a evt = refl
apply_account-account test a evt = refl
apply_account-account common a evt = refl

pub some-injective : {A : Type 0} {a b : A} → some a ≡ some b → a ≡ b
some-injective p = ground arith

pub map_option-some :
    {V : Type 0} (f : V → V) (o : Option V) (v : V)
    → map_option f o ≡ some v
    → (w : V) × (o ≡ some w) × (v ≡ f w)
map_option-some f none v h = ground arith
map_option-some f (some w) v h = (w, refl, sym (some-injective h))

module _ (id : Bytes) (evt : Normalized) where
  pub put-other :
      {V : Type 0} (k : Bytes) (v : V) (m : Dict V)
      → eqb id k ≡ false
      → get k (put id v m) ≡ get k m
  put-other k v m h = get-put id k v m ∙ rw h refl

  pub apply_direct-other :
      (c : Class) (k : Bytes) (m : Dict Bool)
      → eqb id k ≡ false
      → get k (apply_direct c id evt m) ≡ get k m
  unfolding apply_direct
  apply_direct-other alarm k m h = ground (arith, put-other k true m h)
  apply_direct-other restore k m h = ground (arith, put-other k false m h)
  apply_direct-other disarm k m h = ground (arith, put-other k false m h)
  apply_direct-other unset k m h = refl
  apply_direct-other unknown k m h = refl
  apply_direct-other arm k m h = refl
  apply_direct-other night k m h = refl
  apply_direct-other tamper k m h = refl
  apply_direct-other trouble k m h = refl
  apply_direct-other test k m h = refl
  apply_direct-other common k m h = refl

-- The zone that an event finds is one of its account, new or not.
pub zone-named :
    (e : Engine) (acc zn : Bytes)
    → IsConsistent e
    → slash_free acc ≡ true
    → ((zone e acc zn).account ≡ acc) × ((zone e acc zn).zone ≡ zn)
unfolding zone
zone-named e acc zn h s = elim (Option-cases (get (zone_key acc zn) e.zones)) [
  | inl n ↦ rw n (refl, refl)
  | inr (z, m) ↦
      let named = h.zone_named (zone_key acc zn) z m in
      let same = zone_key-injective acc z.account zn z.zone s named.1 named.0 in
      rw m (sym same.0, sym same.1)
]
