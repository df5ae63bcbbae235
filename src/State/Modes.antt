-- ===== src/State/Modes.antt =====
-- The mode of an account, and what ends its direct alarm.
use ajax_bridge.Prelude.{
  ℕ, Bool, true, false, not, some, Bytes, codes, is_empty, eqb, ◌≡◌, ◌↔◌, refl, ap, ◌∙◌, arith,
  Option-cases, inl, inr,
}
use ajax_bridge.Time.{Time}
use ajax_bridge.Event.{
  Class, unset, unknown, alarm, restore, arm, disarm, night, tamper, trouble, test, common,
  Normalized,
}
use ajax_bridge.Dict.{Dict, get, any_value, get-put_self}
use ajax_bridge.State.Accounts.{
  Account, fresh_account, touch_account, apply_account, apply_account_restore, refresh_account,
}
use ajax_bridge.State.{
  Engine, account_id, account, next_revision, is_alarmed, has_alarm, apply_direct, apply_to_account,
  apply,
}
use ajax_bridge.State.Owners.{slash_free, IsConsistent}
use ajax_bridge.State.Alarms.{
  each_account, entered, informed, applied-direct, touched-named, apply-IsConsistent,
}

-- Night mode is a partial arming, and a partial arming is an arming.
pub record IsOrdered (a : Account) : Type 0 where
  pub night_partial : a.night_mode ≡ true → a.partially_armed ≡ true
  pub partial_armed : a.partially_armed ≡ true → a.armed ≡ true

-- The mode says which of the three the account is in.
pub record IsModed (a : Account) : Type 0 where
  pub ordered : IsOrdered a
  pub mode_night : (a.mode ≡ codes "night") ↔ (a.night_mode ≡ true)
  pub mode_disarmed : (a.mode ≡ codes "disarmed") ↔ (a.armed ≡ false)

refresh-IsModed :
    (g : ℕ) (now : Time) (a : Account) → IsOrdered a → IsModed (refresh_account g now a)
unfolding refresh_account
refresh-IsModed g now a h = ground arith

apply_account-IsOrdered :
    (c : Class) (a : Account) (evt : Normalized) → IsOrdered a → IsOrdered (apply_account c a evt)
unfolding apply_account apply_account_restore
apply_account-IsOrdered alarm a evt h = ground arith
apply_account-IsOrdered restore a evt h = ground arith
apply_account-IsOrdered arm a evt h = ground arith
apply_account-IsOrdered night a evt h = ground arith
apply_account-IsOrdered disarm a evt h = ground arith
apply_account-IsOrdered tamper a evt h = ground arith
apply_account-IsOrdered trouble a evt h = ground arith
apply_account-IsOrdered unset a evt h = h
apply_account-IsOrdered unknown a evt h = h
apply_account-IsOrdered test a evt h = h
apply_account-IsOrdered common a evt h = h

fresh-IsOrdered : (id : Bytes) → IsOrdered (fresh_account id)
fresh-IsOrdered id = ground arith

-- Every account of the engine is in an order of the arming flags.
abbrev pub AreOrdered : Engine → Type 0
AreOrdered e = (k : Bytes) (a : Account) → get k e.accounts ≡ some a → IsOrdered a

account-IsOrdered : (e : Engine) (id : Bytes) → AreOrdered e → IsOrdered (account e id)
unfolding account
account-IsOrdered e id h = elim (Option-cases (get (account_id id) e.accounts)) [
  | inl n ↦ rw n (fresh-IsOrdered (account_id id))
  | inr (a, m) ↦ rw m (h (account_id id) a m)
]

touch-IsOrdered : (a : Account) (evt : Normalized) → IsOrdered a → IsOrdered (touch_account a evt)
unfolding touch_account
touch-IsOrdered a evt h = record {
  night_partial = h.night_partial;
  partial_armed = h.partial_armed;
}

module _ (e : Engine) (evt : Normalized) (h : IsConsistent e)
    (some_account : is_empty evt.account ≡ false) (no_slash : slash_free evt.account ≡ true) where
  entered-IsOrdered : AreOrdered e → IsOrdered (entered e evt h some_account no_slash)
  entered-IsOrdered o =
      apply_account-IsOrdered evt.event_class (touch_account (account e evt.account) evt) evt
        (touch-IsOrdered (account e evt.account) evt (account-IsOrdered e evt.account o))

  informed-IsOrdered : AreOrdered e → IsOrdered (informed e evt h some_account no_slash)
  informed-IsOrdered o =
      let before = entered-IsOrdered o in
      record { night_partial = before.night_partial; partial_armed = before.partial_armed }

-- After an event of a named account, without a slash in its name, night mode implies a partial arming
-- and that an arming in every account, and each account is in the mode "night" exactly in night mode and
-- in the mode "disarmed" exactly when it is not armed, provided that the flags implied each other so
-- before the event.
pub apply-IsModed :
    (now : Time) (e : Engine) (evt : Normalized)
    → IsConsistent e
    → AreOrdered e
    → is_empty evt.account ≡ false
    → slash_free evt.account ≡ true
    → (k : Bytes) (a : Account) → get k (apply now e evt).accounts ≡ some a
    → IsModed a
apply-IsModed now e evt h o n s k a m =
    each_account e evt h n s now (λ k a. IsModed a)
      (refresh-IsModed _ now _ (informed-IsOrdered e evt h n s o))
      (λ k a ne m. refresh-IsModed _ now a (o k a m)) k a m

-- A restore that names no zone, whatever its signal, and a disarming that is not of the night mode.
abbrev pub ends_alarm : Class → Normalized → Bool
ends_alarm restore evt = is_empty evt.zone
ends_alarm disarm evt = not (eqb evt.signal (codes "night_mode"))
ends_alarm unset evt = false
ends_alarm unknown evt = false
ends_alarm alarm evt = false
ends_alarm arm evt = false
ends_alarm night evt = false
ends_alarm tamper evt = false
ends_alarm trouble evt = false
ends_alarm test evt = false
ends_alarm common evt = false

apply_direct-ends :
    (c : Class) (id : Bytes) (evt : Normalized) (m : Dict Bool)
    → ends_alarm c evt ≡ true
    → get id (apply_direct c id evt m) ≡ some false
unfolding apply_direct
apply_direct-ends restore id evt m q = rw q (get-put_self id false m)
apply_direct-ends disarm id evt m q = ground (arith, get-put_self id false m)
apply_direct-ends _ id evt m q = ground arith

-- After a restore that names no zone, whatever its signal, and after a disarming that is not of the
-- night mode, of a named account without a slash in its name, the account is in alarm exactly when one
-- of its zones is.
pub apply-ends_alarm :
    (now : Time) (e : Engine) (evt : Normalized)
    → IsConsistent e
    → is_empty evt.account ≡ false
    → slash_free evt.account ≡ true
    → ends_alarm evt.event_class evt ≡ true
    → (a : Account) → get evt.account (apply now e evt).accounts ≡ some a
    → a.alarm_active ≡ any_value (is_alarmed evt.account) (apply now e evt).zones
unfolding has_alarm apply_to_account next_revision
apply-ends_alarm now e evt h n s q a m =
    let ended : get evt.account (apply now e evt).direct_alarms ≡ some false =
      ap (get evt.account) (applied-direct e evt h n s now)
      ∙ rw (touched-named e evt h n s)
          (apply_direct-ends evt.event_class evt.account evt e.direct_alarms q) in
    (apply-IsConsistent now e evt h n s).alarm_known evt.account a m ∙ rw ended refl
