-- ===== src/Tests/Notifications.antt =====
-- bridge/internal/notifications at concrete inputs.
use ajax_bridge.Prelude.{◌<◌, true, false, none, [], ◌∷◌, codes, ◌≡◌, ◌≢◌, refl, arith}
use ajax_bridge.Text.{trim, trim_left, trim_right, trim_space, to_lower, lower_byte}
use ajax_bridge.Notifications.Slug.{slug, slug_loop}
use ajax_bridge.Notifications.Config.{
  Rule, Config, default_config, normalize_rule, normalize_config,
}
use ajax_bridge.Notifications.Config.Settled.{normalize_config-again}
use ajax_bridge.Notifications.Rules.{boolean, Event, alert_message}
use ajax_bridge.Notifications.Manager.{
  Manager, Outside, status, cooldown_of, evaluate, fire, mark_sent, record_delivery,
}
use ajax_bridge.Notifications.Manager.Bounded.{IsBounded, observe-IsBounded}
use ajax_bridge.Notifications.Manager.Missing.{fire-unslugged}
use ajax_bridge.Notifications.Manager.Once.{evaluate-again, failed_control-silent}
use ajax_bridge.Notifications.Observe.{
  JeedomUpdate, JeedomControl, observe_jeedom_update, observe_jeedom_control,
}
use ajax_bridge.Tests.State.{noon}
use ajax_bridge.Tests.Jeedom.{fixed_hash, fixed_hash-IsDigest}

-- Every request is answered, and no text is a number or a duration.
abbrev outside : Outside
outside = record {
  numerals = record { parse_float = λ s. none; sprint = λ x. codes "0"; fixed = λ x. codes "0.00" };
  parse_duration = λ s. none;
  client = λ r. status 200;
}

-- Tell the log when a device is tampered with.
abbrev tampered : Rule
tampered = record {
  id = codes "tamper";
  name = codes "Tamper";
  enabled = true;
  device_slug = [];
  account = [];
  zone = [];
  metric = codes "tamper";
  condition = codes "true";
  threshold = 0;
  arm_modes = [];
  channels = codes "log" ∷ [];
  cooldown = codes "10m";
}

abbrev with_rule : Config
with_rule = record default_config { rules = tampered ∷ [] }

abbrev manager : Manager
manager = record { config = with_rule; last_values = []; last_sent = []; history = [] }

abbrev opened : JeedomUpdate
opened = record {
  device_slug = codes "hall";
  device = codes "Hall";
  jeedom_device_type = codes "motion";
  ha_model = [];
  linked_account = [];
  linked_zone = [];
  metric = codes "tamper";
  object_name = [];
  value = boolean true;
  updated_value = true;
}

abbrev arm : JeedomControl
arm = record {
  device_slug = codes "hub";
  device = codes "Hub";
  device_type = [];
  account = codes "1234";
  zone = [];
  action = codes "arm";
}

observe-IsBounded_example :
    IsBounded (observe_jeedom_update outside noon [] opened manager)
    × IsBounded (observe_jeedom_control outside noon [] arm false manager)
observe-IsBounded_example = observe-IsBounded outside noon [] opened arm false manager (omega arith)

abbrev tampering : Event
tampering = record {
  kind = codes "state";
  source = codes "jeedom";
  device_slug = codes "hall";
  device = codes "Hall";
  device_type = codes "motion";
  account = [];
  zone = [];
  metric = codes "tamper";
  action = [];
  value = boolean true;
  previous_value = boolean false;
  numeric_value = 0;
  has_numeric = false;
  bool_value = true;
  has_bool = true;
  arm_mode = [];
  time = noon;
}

tampered-cooldown : 0 < cooldown_of outside tampered
unfolding cooldown_of
tampered-cooldown = ground arith

evaluate-again_example :
    let done = evaluate outside noon tampering true manager in
    evaluate outside noon tampering true done ≡ done
evaluate-again_example = evaluate-again outside noon tampering true manager (tampered-cooldown, tt)

failed_control-silent_example : observe_jeedom_control outside noon [] arm true manager ≡ manager
failed_control-silent_example = failed_control-silent outside noon [] arm manager

normalize_config-again_example :
    normalize_config fixed_hash (normalize_config fixed_hash with_rule)
    ≡ normalize_config fixed_hash with_rule
normalize_config-again_example = normalize_config-again fixed_hash fixed_hash-IsDigest with_rule

dashed : slug (codes "my-phone") ≡ codes "my_phone"
unfolding slug slug_loop trim trim_left trim_right trim_space to_lower lower_byte
dashed = refl

dashed-unlike : slug (codes "my-phone") ≢ codes "my-phone"
dashed-unlike h = ground (arith, dashed, h)

lower_dashed : to_lower (trim_space (codes "My-Phone")) ≡ codes "my-phone"
unfolding trim trim_left trim_right trim_space to_lower lower_byte
lower_dashed = refl

named-unlike :
    slug (to_lower (trim_space (codes "My-Phone"))) ≢ to_lower (trim_space (codes "My-Phone"))
named-unlike = rw lower_dashed dashed-unlike

fire-unslugged_example :
    let rule = normalize_rule fixed_hash (record tampered { channels = codes "My-Phone" ∷ [] }) in
    let value = to_lower (trim_space (codes "My-Phone")) in
    (rule.channels ≡ value ∷ [])
    × (fire outside noon (normalize_config fixed_hash with_rule) tampering rule manager
        ≡ mark_sent rule noon (
            record_delivery noon rule value tampering
              (alert_message outside.numerals rule tampering)
              (codes "failed")
              (codes "channel not found")
              manager))
fire-unslugged_example =
    fire-unslugged fixed_hash fixed_hash-IsDigest outside noon with_rule tampering tampered
      (codes "My-Phone") manager named-unlike
