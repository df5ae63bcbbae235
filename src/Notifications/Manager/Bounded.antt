-- ===== src/Notifications/Manager/Bounded.antt =====
-- The history of the deliveries stays within its limit.
use ajax_bridge.Prelude.{
  ◌-◌, ◌≤◌, Bool, true, Option, none, some, List, [], ◌∷◌, is_some, Bytes, length, length-drop,
  arith, Bool-cases, Option-cases, inl, inr,
}
use ajax_bridge.Time.{Time}
use ajax_bridge.Dict.{get, put}
use ajax_bridge.State.Accounts.{Account}
use ajax_bridge.Notifications.Config.{Channel, Rule, Config}
use ajax_bridge.Notifications.Rules.{Event}
use ajax_bridge.Notifications.Manager.{
  Delivery, Manager, Alert, Outside, history_limit, mark_sent, keep_last, record_delivery, send_to,
  send_all_targets, channel_by_id, deliver, targets_of, alert_of, is_due, fire, evaluate_rule,
  evaluate_rules, evaluate,
}
use ajax_bridge.Notifications.Observe.{
  JeedomUpdate, JeedomControl, value_key, update_event, control_event, observe_jeedom_update,
  observe_jeedom_control,
}

abbrev pub IsBounded : Manager → Type 0
IsBounded m = length m.history ≤ history_limit

length-keep_last : (ds : List Delivery) → length (keep_last ds) ≤ history_limit
unfolding keep_last
length-keep_last ds = ground (arith, length-drop (length ds - history_limit) ds)

module _ (outside : Outside) where
  send_to-IsBounded :
      (clock : Time) (alert : Alert) (id : Bytes) (o : Option Channel) (m : Manager)
      → IsBounded (send_to outside clock alert id o m)
  unfolding record_delivery
  send_to-IsBounded clock alert id none m = length-keep_last _
  send_to-IsBounded clock alert id (some c) m = elim (Option-cases (deliver outside c alert)) [
    | inl n ↦ rw n (length-keep_last _)
    | inr (why, e) ↦ rw e (length-keep_last _)
  ]

  send_all_targets-IsBounded :
      (clock : Time) (channels : List Channel) (alert : Alert) (ids : List Bytes) (m : Manager)
      → IsBounded m
      → IsBounded (send_all_targets outside clock channels alert ids m)
  unfolding send_all_targets
  send_all_targets-IsBounded clock channels alert [] m h = h
  send_all_targets-IsBounded clock channels alert (id ∷ ids) m h =
      send_all_targets-IsBounded clock channels alert ids _
        (send_to-IsBounded clock alert id (channel_by_id id channels) m)

  fire-IsBounded :
      (clock : Time) (cfg : Config) (event : Event) (rule : Rule) (m : Manager)
      → IsBounded m
      → IsBounded (fire outside clock cfg event rule m)
  unfolding fire mark_sent
  fire-IsBounded clock cfg event rule m h =
      send_all_targets-IsBounded clock cfg.channels (alert_of outside.numerals rule event)
        (targets_of cfg rule) m h

  evaluate_rules-IsBounded :
      (clock : Time) (cfg : Config) (event : Event) (had : Bool) (rules : List Rule) (m : Manager)
      → IsBounded m
      → IsBounded (evaluate_rules outside clock cfg event had rules m)
  unfolding evaluate_rules evaluate_rule
  evaluate_rules-IsBounded clock cfg event had [] m h = h
  evaluate_rules-IsBounded clock cfg event had (rule ∷ rules) m h =
      evaluate_rules-IsBounded clock cfg event had rules _
        (elim (Bool-cases (is_due outside event had rule m)) [
          | inl t ↦ rw t (fire-IsBounded clock cfg event rule m h)
          | inr f ↦ rw f h
        ])

  pub evaluate-IsBounded :
      (clock : Time) (event : Event) (had : Bool) (m : Manager)
      → IsBounded m
      → IsBounded (evaluate outside clock event had m)
  unfolding evaluate
  evaluate-IsBounded clock event had m h =
      ground (arith, evaluate_rules-IsBounded clock m.config event had m.config.rules m h)

  -- Neither an update of a value nor a control request, whatever the rules and the channels are, takes
  -- the history over its 200 entries.
  pub observe-IsBounded :
      (now : Time) (accounts : List Account) (u : JeedomUpdate) (c : JeedomControl) (failed : Bool)
      (m : Manager)
      → IsBounded m
      → IsBounded (observe_jeedom_update outside now accounts u m)
        × IsBounded (observe_jeedom_control outside now accounts c failed m)
  unfolding observe_jeedom_update observe_jeedom_control
  observe-IsBounded now accounts u c failed m h =
      let previous = get (value_key u) m.last_values in
      let stored = record m { last_values = put (value_key u) u.value m.last_values } in
      let update =
        evaluate-IsBounded now (update_event outside now accounts u previous) (is_some previous)
          stored h in
      let control = evaluate-IsBounded now (control_event now accounts c failed) true m h in
      (ground arith, ground arith)
