-- ===== src/Notifications/Observe.antt =====
-- What bridge/internal/notifications/manager.go is told of the Jeedom side, and its history.
use ajax_bridge.Prelude.{
  ℕ, zero, suc, Bool, true, false, not, ◌||◌, Option, none, some, List, [], ◌∷◌, ◌++◌, ltb,
  if◌then◌else◌, is_some, Bytes, codes, is_empty, length, take,
}
use mathlib.Core.List.{reverse}
use ajax_bridge.Integer.{ℤ, pos, negsuc}
use ajax_bridge.Time.{Time}
use ajax_bridge.Dict.{get, put}
use ajax_bridge.State.Accounts.{Account}
use ajax_bridge.Notifications.Rules.{
  Value, null, Event, number_value, bool_value, first_non_empty, arm_mode,
}
use ajax_bridge.Notifications.Manager.{Manager, Delivery, Outside, evaluate}

-- The fields of `jeedom.ApplyResult` that are read.
pub record JeedomUpdate : Type 0 where
  pub device_slug : Bytes
  pub device : Bytes
  pub jeedom_device_type : Bytes
  pub ha_model : Bytes
  pub linked_account : Bytes
  pub linked_zone : Bytes
  pub metric : Bytes
  pub object_name : Bytes
  pub value : Value
  pub updated_value : Bool

-- Those of `jeedom.ControlResult`.
pub record JeedomControl : Type 0 where
  pub device_slug : Bytes
  pub device : Bytes
  pub device_type : Bytes
  pub account : Bytes
  pub zone : Bytes
  pub action : Bytes

abbrev pub value_or : Option Value → Value
value_or none = null
value_or (some v) = v

-- A name and a metric, with a slash between them.
unfoldable pub value_key : JeedomUpdate → Bytes
value_key u = u.device_slug ++ (b'/' ∷ u.metric)

unfoldable pub control_event : Time → List Account → JeedomControl → Bool → Event
control_event now accounts c failed = record {
  kind = if failed then codes "control_failed" else codes "control";
  source = codes "jeedom";
  device_slug = c.device_slug;
  device = c.device;
  device_type = c.device_type;
  account = c.account;
  zone = c.zone;
  metric = [];
  action = c.action;
  value = null;
  previous_value = null;
  numeric_value = 0;
  has_numeric = false;
  bool_value = false;
  has_bool = false;
  arm_mode = arm_mode accounts c.account;
  time = now;
}

module _ (outside : Outside) where
  unfoldable pub update_event : Time → List Account → JeedomUpdate → Option Value → Event
  update_event now accounts u previous =
      let (number, has_number) = number_value outside.numerals u.value in
      let (bool, has_bool) = bool_value u.value in
      record {
        kind = codes "metric";
        source = codes "jeedom";
        device_slug = u.device_slug;
        device = u.device;
        device_type = first_non_empty u.jeedom_device_type u.ha_model;
        account = u.linked_account;
        zone = u.linked_zone;
        metric = u.metric;
        action = [];
        value = u.value;
        previous_value = value_or previous;
        numeric_value = number;
        has_numeric = has_number;
        bool_value = bool;
        has_bool = has_bool;
        arm_mode = arm_mode accounts (first_non_empty u.linked_account u.object_name);
        time = now;
      }

  -- m.ObserveJeedomUpdate(ctx, result, snapshot)
  unfoldable pub observe_jeedom_update : Time → List Account → JeedomUpdate → Manager → Manager
  observe_jeedom_update now accounts u m =
      let previous : Option Value = get (value_key u) m.last_values in
      if is_empty u.metric || is_empty u.device_slug || not u.updated_value
      then m
      else evaluate outside now (update_event now accounts u previous) (is_some previous)
          (record m { last_values = put (value_key u) u.value m.last_values })

  -- m.ObserveJeedomControl(ctx, result, err, snapshot); the flag is that there is an error
  unfoldable pub observe_jeedom_control :
      Time → List Account → JeedomControl → Bool → Manager → Manager
  observe_jeedom_control now accounts c failed m =
      if is_empty c.device_slug
      then m
      else evaluate outside now (control_event now accounts c failed) true m

-- The limit of `History`, for the length of the history.
unfoldable pub history_count : ℤ → ℕ → ℕ
history_count (negsuc n) size = size
history_count (pos zero) size = size
history_count (pos (suc n)) size = if ltb size (suc n) then size else suc n

-- m.History(limit): the newest first
unfoldable pub list_history : Manager → ℤ → List Delivery
list_history m limit = take (history_count limit (length m.history)) (reverse m.history)
