-- ===== src/State/Alarms.antt =====
-- The alarm of an account in the engine: it is active when a direct alarm is, or that of a zone of the
-- account.
use ajax_bridge.Prelude.{
  true, false, some, if◌then◌else◌, Bytes, is_empty, eqb, eqb_iff, eqb_refl, ◌≡◌, refl, sym, ap,
  ◌∙◌, Bool-cases, Option-cases, inl, inr,
}
use ajax_bridge.Time.{Time}
use ajax_bridge.Event.{Normalized}
use ajax_bridge.Dict.{
  get, put, any_value, holds, map_option, get-put, get-put_self, get-map_values, any_value-put,
}
use ajax_bridge.State.Accounts.{Account, touch_account, apply_account, refresh_account}
use ajax_bridge.State.Zones.{Zone}
use ajax_bridge.State.{
  Engine, account_id, account, zone_key, zone, next_revision, refresh_online_locked, is_alarmed,
  has_alarm, refresh_alarm_of, refresh_account_alarm, apply_to_account, update_zone_metadata,
  event_zone, apply_to_zone, apply,
}
use ajax_bridge.State.Owners.{
  slash_free, IsConsistent, zone_key-injective, event_zone-IsSame, apply_account-account,
  some-injective, map_option-some, put-other, apply_direct-other, zone-named,
}

module _ (e : Engine) (evt : Normalized) (h : IsConsistent e)
    (some_account : is_empty evt.account ≡ false) (no_slash : slash_free evt.account ≡ true) where
  id_lem : account_id evt.account ≡ evt.account
  unfolding account_id
  id_lem = rw some_account

  pub account-named : (account e evt.account).account ≡ evt.account
  unfolding account
  account-named = elim (Option-cases (get evt.account e.accounts)) [
    | inl n ↦ rw (id_lem, n) refl
    | inr (a, m) ↦ rw (id_lem, m) (h.account_named evt.account a m)
  ]

  event_zone-named :
      ((event_zone e evt).account ≡ evt.account) × ((event_zone e evt).zone ≡ evt.zone)
  event_zone-named =
      let same = event_zone-IsSame e evt in
      let found = zone-named e evt.account evt.zone h no_slash in
      (same.account ∙ found.0, same.zone ∙ found.1)

  held :
      (k : Bytes)
      → eqb evt.account k ≡ false
      → holds (is_alarmed k) (get (zone_key evt.account evt.zone) e.zones) ≡ false
  held k ne = elim (Option-cases (get (zone_key evt.account evt.zone) e.zones)) [
    | inl n ↦ rw n refl
    | inr (z, m) ↦
        let named = h.zone_named (zone_key evt.account evt.zone) z m in
        let same =
          zone_key-injective evt.account z.account evt.zone z.zone no_slash named.1 named.0 in
        rw (m, sym same.0, ne) refl
  ]

  -- The zones of other accounts have the alarms that they had.
  any_alarm-other :
      (k : Bytes)
      → eqb evt.account k ≡ false
      → any_value (is_alarmed k) (apply_to_zone e evt).zones ≡ any_value (is_alarmed k) e.zones
  unfolding apply_to_zone
  any_alarm-other k ne = elim (Bool-cases (is_empty evt.zone)) [
    | inl t ↦ rw t refl
    | inr f ↦ rw f (
        any_value-put (is_alarmed k) (zone_key evt.account evt.zone) (event_zone e evt) e.zones
          (rw ((event_zone-named).0, ne) refl) (held k ne))
  ]

  pub touched-named :
      (touch_account (account (next_revision e) evt.account) evt).account ≡ evt.account
  unfolding touch_account account next_revision
  touched-named = account-named

  direct-other :
      (k : Bytes)
      → eqb evt.account k ≡ false
      → get k (apply_to_account (next_revision e) evt).direct_alarms ≡ get k e.direct_alarms
  unfolding apply_to_account next_revision
  direct-other k ne =
      rw (touched-named) (apply_direct-other evt.account evt evt.event_class k e.direct_alarms ne)

  -- The engine before the alarm of the account is computed.
  abbrev pub settled : Engine
  settled = apply_to_zone (apply_to_account (next_revision e) evt) evt

  -- The account of the event then.
  abbrev pub entered : Account
  entered = apply_account evt.event_class (touch_account (account e evt.account) evt) evt

  pub entered-named : entered.account ≡ evt.account
  unfolding touch_account
  entered-named =
      apply_account-account evt.event_class (touch_account (account e evt.account) evt) evt
      ∙ account-named

  pub settled-zones : settled.zones ≡ (apply_to_zone e evt).zones
  unfolding apply_to_zone apply_to_account next_revision event_zone update_zone_metadata zone
  settled-zones = elim (Bool-cases (is_empty evt.zone)) [ inl t ↦ rw t refl | inr f ↦ rw f refl ]

  pub settled-direct :
      settled.direct_alarms ≡ (apply_to_account (next_revision e) evt).direct_alarms
  unfolding apply_to_zone
  settled-direct = elim (Bool-cases (is_empty evt.zone)) [ inl t ↦ rw t refl | inr f ↦ rw f refl ]

  settled-accounts : settled.accounts ≡ put evt.account entered e.accounts
  unfolding apply_to_zone apply_to_account next_revision account
  settled-accounts = elim (Bool-cases (is_empty evt.zone)) [
    | inl t ↦ rw (t, id_lem) refl
    | inr f ↦ rw (f, id_lem) refl
  ]

  has_alarm-other : (k : Bytes) → eqb evt.account k ≡ false → has_alarm settled k ≡ has_alarm e k
  unfolding has_alarm
  has_alarm-other k ne =
      rw (settled-zones, settled-direct, any_alarm-other k ne, direct-other k ne) refl

  -- The account of the event with its alarm.
  abbrev pub informed : Account
  informed = record entered { alarm_active = has_alarm settled evt.account }

  refresh_settled :
      refresh_account_alarm evt.account settled
      ≡ record settled { accounts = put evt.account informed settled.accounts }
  unfolding refresh_account_alarm refresh_alarm_of
  refresh_settled =
      rw (ap (get evt.account) settled-accounts ∙ get-put_self evt.account entered e.accounts) refl

  pub has_alarm-refreshed :
      (now : Time) (k : Bytes) → has_alarm (apply now e evt) k ≡ has_alarm settled k
  unfolding has_alarm apply refresh_online_locked
  has_alarm-refreshed now k = rw refresh_settled refl

  refreshed-get :
      (k : Bytes)
      → get k (put evt.account informed settled.accounts)
        ≡ (if eqb evt.account k then some informed else get k e.accounts)
  refreshed-get k =
      get-put evt.account k informed settled.accounts ∙ elim (Bool-cases (eqb evt.account k)) [
        | inl t ↦ rw t refl
        | inr f ↦
            rw f (ap (get k) settled-accounts ∙ put-other evt.account evt k entered e.accounts f)
      ]

  pub applied-accounts :
      (now : Time) (k : Bytes)
      → get k (apply now e evt).accounts
        ≡ map_option
            (refresh_account settled.offline_grace now)
            (if eqb evt.account k then some informed else get k e.accounts)
  unfolding apply refresh_online_locked
  applied-accounts now k = rw refresh_settled (
      get-map_values (refresh_account settled.offline_grace now) k
        (put evt.account informed settled.accounts)
      ∙ ap (map_option (refresh_account settled.offline_grace now)) (refreshed-get k))

  -- The account of the event is there then.
  pub applied-own :
      (now : Time)
      → get evt.account (apply now e evt).accounts
        ≡ some (refresh_account settled.offline_grace now informed)
  applied-own now = applied-accounts now evt.account ∙ rw (eqb_refl evt.account) refl

  pub applied-zones : (now : Time) → (apply now e evt).zones ≡ (apply_to_zone e evt).zones
  unfolding apply refresh_online_locked
  applied-zones now = rw refresh_settled settled-zones

  pub applied-direct :
      (now : Time)
      → (apply now e evt).direct_alarms ≡ (apply_to_account (next_revision e) evt).direct_alarms
  unfolding apply refresh_online_locked
  applied-direct now = rw refresh_settled settled-direct

  -- What is true of the account of the event and of all others is true of every account then.
  pub each_account :
      (now : Time) (P : Bytes → Account → Type 0)
      → P evt.account (refresh_account settled.offline_grace now informed)
      → ((k : Bytes) (a : Account)
          → eqb evt.account k ≡ false
          → get k e.accounts ≡ some a
          → P k (refresh_account settled.offline_grace now a))
      → (k : Bytes) (a : Account) → get k (apply now e evt).accounts ≡ some a
      → P k a
  each_account now P own others k a m =
      let got = sym (applied-accounts now k) ∙ m in
      elim (Bool-cases (eqb evt.account k)) [
        | inl t ↦
            let same : some (refresh_account settled.offline_grace now informed) ≡ some a =
              rw t at got in
            let named : evt.account ≡ k = (eqb_iff evt.account k).0 t in
            rw (sym (some-injective same), sym named) own
        | inr f ↦
            let kept =
              map_option-some (refresh_account settled.offline_grace now) (get k e.accounts) a
                (rw f at got) in
            rw kept.2 (others k kept.0 f kept.1)
      ]

  zone_named-applied :
      (now : Time) (k : Bytes) (z : Zone)
      → get k (apply now e evt).zones ≡ some z
      → (k ≡ zone_key z.account z.zone) × (slash_free z.account ≡ true)
  unfolding apply_to_zone
  zone_named-applied now k z m =
      let found = sym (ap (get k) (applied-zones now)) ∙ m in
      elim (Bool-cases (is_empty evt.zone)) [
        | inl t ↦ h.zone_named k z (rw t at found)
        | inr f ↦
            let got =
              sym (get-put (zone_key evt.account evt.zone) k (event_zone e evt) e.zones)
              ∙ rw f at found in
            elim (Bool-cases (eqb (zone_key evt.account evt.zone) k)) [
              | inl t ↦
                  let same : some (event_zone e evt) ≡ some z = rw t at got in
                  let key = (eqb_iff (zone_key evt.account evt.zone) k).0 t in
                  rw (sym (some-injective same), sym key)
                    (rw (event_zone-named.0, event_zone-named.1) (refl, no_slash))
              | inr g ↦ h.zone_named k z (rw g at got)
            ]
      ]

-- After an event of a named account, without a slash in its name, an account is in alarm exactly when it
-- has a direct alarm or a zone of it is in alarm, if that held before; and the keys of both maps still
-- are those of their accounts and zones.
pub apply-IsConsistent :
    (now : Time) (e : Engine) (evt : Normalized)
    → IsConsistent e
    → is_empty evt.account ≡ false
    → slash_free evt.account ≡ true
    → IsConsistent (apply now e evt)
unfolding refresh_account
apply-IsConsistent now e evt h n s = record {
  account_named =
      each_account e evt h n s now (λ k a. a.account ≡ k) (entered-named e evt h n s)
        (λ k a ne m. h.account_named k a m);
  zone_named = zone_named-applied e evt h n s now;
  alarm_known =
      each_account e evt h n s now (λ k a. a.alarm_active ≡ has_alarm (apply now e evt) k)
        (sym (has_alarm-refreshed e evt h n s now evt.account))
        (λ k a ne m.
          h.alarm_known k a m
          ∙ sym (has_alarm-refreshed e evt h n s now k ∙ has_alarm-other e evt h n s k ne));
}
