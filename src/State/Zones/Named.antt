-- ===== src/State/Zones/Named.antt =====
-- Which zone a zone is: the account and the zone identifier, which no operation changes.
use ajax_bridge.Prelude.{
  Bool, true, false, Bytes, codes, eqb, ◌≡◌, refl, arith, Bool-cases, inl, inr,
}
use ajax_bridge.Event.{
  Class, unset, unknown, alarm, restore, arm, disarm, night, tamper, trouble, test, common,
  Normalized,
}
use ajax_bridge.DeviceCatalog.{one_of, Device}
use ajax_bridge.State.Accounts.{trouble_signals}
use ajax_bridge.State.Zones.{
  Zone, set_signal, clear_zone_alarm, apply_zone_restore, apply_device_metadata, event_metadata,
  touch_zone, raise_alarm, apply_zone,
}

pub record IsSame (z z' : Zone) : Type 0 where
  pub account : z'.account ≡ z.account
  pub zone : z'.zone ≡ z.zone

pub IsSame-refl : (z : Zone) → IsSame z z
IsSame-refl z = record { account = refl; zone = refl }

pub IsSame-trans : {x y z : Zone} → IsSame x y → IsSame y z → IsSame x z
IsSame-trans h k = ground arith

set_signal-IsSame : (s : Bytes) (b : Bool) (z : Zone) → IsSame z (set_signal s b z)
unfolding set_signal
set_signal-IsSame s b z = ground arith

clear_zone_alarm-IsSame : (z : Zone) → IsSame z (clear_zone_alarm z)
unfolding clear_zone_alarm
clear_zone_alarm-IsSame z = ground (arith, set_signal-IsSame z.alarm_signal false z)

module _ (z : Zone) (e : Normalized) where
  signal-IsSame : (s : Bytes) (b : Bool) {y : Zone} → IsSame z y → IsSame z (set_signal s b y)
  signal-IsSame s b {y} h = IsSame-trans h (set_signal-IsSame s b y)

  restore-IsSame : IsSame z (apply_zone_restore z e)
  unfolding apply_zone_restore
  restore-IsSame = elim (Bool-cases (eqb e.signal (codes "tamper"))) [
    | inl t ↦ rw t (signal-IsSame e.signal false (record { account = refl; zone = refl }))
    | inr f ↦ rw f (elim (Bool-cases (one_of e.signal trouble_signals)) [
      | inl t ↦ rw t (signal-IsSame e.signal false (record { account = refl; zone = refl }))
      | inr g ↦ rw g (signal-IsSame e.signal false (clear_zone_alarm-IsSame z))
    ])
  ]

  trouble-IsSame : IsSame z (apply_zone trouble z e)
  unfolding apply_zone
  trouble-IsSame =
      let marked : IsSame z (set_signal e.signal true (record z { trouble_active = true })) =
        signal-IsSame e.signal true (record { account = refl; zone = refl }) in
      elim (Bool-cases (eqb e.event_action (codes "device_bypassed"))) [
        | inl t ↦ rw t (IsSame-trans marked (clear_zone_alarm-IsSame _))
        | inr f ↦ rw f marked
      ]

  disarm-IsSame : IsSame z (apply_zone disarm z e)
  unfolding apply_zone
  disarm-IsSame = elim (Bool-cases (eqb e.signal (codes "night_mode"))) [
    | inl t ↦ rw t (set_signal-IsSame (codes "night_mode") false z)
    | inr f ↦ rw f (
        signal-IsSame (codes "duress") false
          (signal-IsSame (codes "night_mode") false (set_signal-IsSame (codes "arming") false z)))
  ]

  common-IsSame : IsSame z (apply_zone common z e)
  unfolding apply_zone
  common-IsSame = ground (arith, clear_zone_alarm-IsSame z)

  pub apply_zone-IsSame : (c : Class) → IsSame z (apply_zone c z e)
  unfolding apply_zone raise_alarm
  apply_zone-IsSame alarm = signal-IsSame e.signal true (record { account = refl; zone = refl })
  apply_zone-IsSame restore = restore-IsSame
  apply_zone-IsSame tamper = signal-IsSame e.signal true (record { account = refl; zone = refl })
  apply_zone-IsSame trouble = trouble-IsSame
  apply_zone-IsSame common = common-IsSame
  apply_zone-IsSame arm =
      signal-IsSame (codes "night_mode") false (set_signal-IsSame (codes "arming") true z)
  apply_zone-IsSame night =
      signal-IsSame (codes "night_mode") true (set_signal-IsSame (codes "arming") true z)
  apply_zone-IsSame disarm = disarm-IsSame
  apply_zone-IsSame unset = IsSame-refl z
  apply_zone-IsSame unknown = IsSame-refl z
  apply_zone-IsSame test = IsSame-refl z

pub device-IsSame : (z : Zone) (d : Device) → IsSame z (apply_device_metadata z d)
unfolding apply_device_metadata
device-IsSame z d = record { account = refl; zone = refl }

pub event-IsSame : (z : Zone) (e : Normalized) → IsSame z (event_metadata z e)
unfolding event_metadata
event-IsSame z e = record { account = refl; zone = refl }

pub touch-IsSame : (z : Zone) (e : Normalized) → IsSame z (touch_zone z e)
unfolding touch_zone
touch-IsSame z e = record { account = refl; zone = refl }
