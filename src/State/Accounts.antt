-- ===== src/State/Accounts.antt =====
-- The accounts of bridge/internal/state/state.go.
use ajax_bridge.Prelude.{
  ℕ, ◌+◌, Bool, true, false, not, ◌&&◌, List, [], ◌∷◌, leb, if◌then◌else◌, Bytes, codes, is_empty,
  eqb,
}
use ajax_bridge.Time.{Time, zero_time, is_zero, max_time}
use ajax_bridge.Event.{
  Class, unset, unknown, alarm, restore, arm, disarm, night, tamper, trouble, test, common,
  Normalized,
}
use ajax_bridge.DeviceCatalog.{one_of}

pub record Account : Type 0 where
  pub account : Bytes
  pub online : Bool
  pub mode : Bytes
  pub armed : Bool
  pub night_mode : Bool
  pub partially_armed : Bool
  pub alarm_active : Bool
  pub tamper_active : Bool
  pub trouble_active : Bool
  pub last_event_code : Bytes
  pub last_event_name : Bytes
  pub last_signal : Bytes
  pub last_event_at : Time
  pub last_ping_at : Time

-- &Account{Account: accountID, Mode: "unknown"}
abbrev pub fresh_account : Bytes → Account
fresh_account account_id = record {
  account = account_id;
  online = false;
  mode = codes "unknown";
  armed = false;
  night_mode = false;
  partially_armed = false;
  alarm_active = false;
  tamper_active = false;
  trouble_active = false;
  last_event_code = [];
  last_event_name = [];
  last_signal = [];
  last_event_at = zero_time;
  last_ping_at = zero_time;
}

-- The signals whose restore ends a trouble.
abbrev pub trouble_signals : List Bytes
trouble_signals =
    codes "battery"
    ∷ codes "connectivity"
    ∷ codes "power"
    ∷ codes "interference"
    ∷ codes "fire_detector"
    ∷ codes "hardware"
    ∷ codes "accelerometer"
    ∷ codes "bypass"
    ∷ codes "tamper_bypass"
    ∷ []

unfoldable pub apply_account_restore : Account → Normalized → Account
apply_account_restore a e =
    if eqb e.signal (codes "tamper")
    then record a { tamper_active = false }
    else if one_of e.signal trouble_signals
    then record a { trouble_active = false }
    else record a { alarm_active = false }

-- What `Apply` writes to the account before it looks at the class, and the time of a ping.
unfoldable pub touch_account : Account → Normalized → Account
touch_account a e = record a {
  last_event_at = max_time a.last_event_at e.received_at;
  last_event_code = e.event_code;
  last_event_name = e.event_name;
  last_signal = e.signal;
  online = true;
  last_ping_at = elim e.event_class [
    | test ↦ max_time a.last_ping_at e.received_at
    | _ ↦ a.last_ping_at
  ];
}

-- The first switch of `Apply`, on the account.
unfoldable pub apply_account : Class → Account → Normalized → Account
apply_account alarm a e = if is_empty e.zone then record a { alarm_active = true } else a
apply_account restore a e = apply_account_restore a e
apply_account arm a e = record a {
  armed = true;
  night_mode = false;
  partially_armed = eqb e.event_code (codes "CG");
}
apply_account night a e = record a { armed = true; night_mode = true; partially_armed = true }
apply_account disarm a e =
    if eqb e.signal (codes "night_mode")
    then record a { night_mode = false; partially_armed = false }
    else record a { armed = false; night_mode = false; partially_armed = false }
apply_account tamper a e = record a { tamper_active = true }
apply_account trouble a e = record a { trouble_active = true }
apply_account unset a e = a
apply_account unknown a e = a
apply_account test a e = a
apply_account common a e = a

-- The time that the account was last heard of.
abbrev pub reference_time : Account → Time
reference_time a = if is_zero a.last_ping_at then a.last_event_at else a.last_ping_at

-- One turn of the loop of `refreshOnlineLocked`. A time that has not come yet counts as now.
unfoldable pub refresh_account : ℕ → Time → Account → Account
refresh_account offline_grace now a = record a {
  online = not (is_zero (reference_time a)) && leb now (reference_time a + offline_grace);
  mode =
      if a.night_mode then codes "night" else if a.armed then codes "armed" else codes "disarmed";
}
