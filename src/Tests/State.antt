-- ===== src/Tests/State.antt =====
-- bridge/internal/state at concrete inputs.
use ajax_bridge.Prelude.{none, some, [], codes, ◌≡◌, refl, arith}
use ajax_bridge.Time.{Time, date}
use ajax_bridge.Event.{alarm, restore, Normalized, received}
use ajax_bridge.Dict.{get, any_value}
use ajax_bridge.State.Accounts.{Account}
use ajax_bridge.State.{Engine, is_alarmed, apply}
use ajax_bridge.State.Owners.{IsConsistent}
use ajax_bridge.State.Alarms.{applied-own, apply-IsConsistent}
use ajax_bridge.State.Modes.{IsModed, AreOrdered, apply-IsModed, apply-ends_alarm}

abbrev pub noon : Time
noon = date 2026 4 19 12 0 0

-- An engine without accounts or zones.
abbrev pub empty_engine : Engine
empty_engine = record {
  offline_grace = 90;
  devices = none;
  accounts = [];
  zones = [];
  direct_alarms = [];
  revision = 1;
}

pub empty_engine-IsConsistent : IsConsistent empty_engine
unfolding get
empty_engine-IsConsistent = record {
  account_named = λ k a m. ground arith;
  zone_named = λ k z m. ground arith;
  alarm_known = λ k a m. ground arith;
}

empty_engine-AreOrdered : AreOrdered empty_engine
unfolding get
empty_engine-AreOrdered k a m = ground arith

abbrev pub zone_alarm : Normalized
zone_alarm = record (received noon []) {
  account = codes "0001";
  zone = codes "1";
  event_code = codes "BA";
  event_class = alarm;
  signal = codes "intrusion";
}

-- The mains are back: a restore that names no zone.
abbrev power_restore : Normalized
power_restore = record (received noon []) {
  account = codes "0001";
  event_code = codes "YR";
  event_class = restore;
  signal = codes "power";
}

apply-IsConsistent_example : IsConsistent (apply noon empty_engine zone_alarm)
apply-IsConsistent_example =
    apply-IsConsistent noon empty_engine zone_alarm empty_engine-IsConsistent refl refl

abbrev alarmed_engine : Engine
alarmed_engine = apply noon empty_engine zone_alarm

alarmed-account :
    (a : Account) × (get (codes "0001") (apply noon alarmed_engine power_restore).accounts ≡ some a)
alarmed-account = (
  _,
  applied-own alarmed_engine power_restore
      (apply-IsConsistent noon empty_engine zone_alarm empty_engine-IsConsistent refl refl) refl
      refl noon,
)

alarmed_engine-AreOrdered : AreOrdered alarmed_engine
alarmed_engine-AreOrdered k a m =
    (apply-IsModed noon empty_engine zone_alarm empty_engine-IsConsistent empty_engine-AreOrdered
      refl refl k a m).ordered

apply-ends_alarm_example :
    (alarmed-account.0).alarm_active
    ≡ any_value (is_alarmed (codes "0001")) (apply noon alarmed_engine power_restore).zones
apply-ends_alarm_example =
    apply-ends_alarm noon alarmed_engine power_restore
      (apply-IsConsistent noon empty_engine zone_alarm empty_engine-IsConsistent refl refl) refl
      refl refl (alarmed-account.0) (alarmed-account.1)

apply-IsModed_example : IsModed (alarmed-account.0)
apply-IsModed_example =
    apply-IsModed noon alarmed_engine power_restore
      (apply-IsConsistent noon empty_engine zone_alarm empty_engine-IsConsistent refl refl)
      alarmed_engine-AreOrdered refl refl (codes "0001") (alarmed-account.0) (alarmed-account.1)
