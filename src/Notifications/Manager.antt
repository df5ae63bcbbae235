-- ===== src/Notifications/Manager.antt =====
-- bridge/internal/notifications/manager.go: observation, evaluation and delivery. The clock is an
-- argument; what an HTTP request comes to is one too.
pub mod Bounded
pub mod Once
pub mod Missing
use ajax_bridge.Prelude.{
  ℕ, ◌+◌, ◌*◌, ◌-◌, Bool, true, false, not, ◌&&◌, ◌||◌, Option, none, some, List, [], ◌∷◌, ◌++◌,
  if◌then◌else◌, is_some, Bytes, codes, is_empty, eqb, map, length, drop, leb, ltb, ◌==◌, or_else,
}
use ajax_bridge.Text.{trim_space, to_lower}
use ajax_bridge.Format.{decimal, quote}
use ajax_bridge.Integer.{ℤ, pos, negsuc}
use ajax_bridge.Time.{Time, second}
use ajax_bridge.Dict.{Dict, get, put}
use ajax_bridge.State.{Snapshot}
use ajax_bridge.DeviceCatalog.{one_of}
use ajax_bridge.Notifications.Config.{Channel, Rule, Config}
use ajax_bridge.Notifications.Rules.{
  Value, null, Event, Numerals, number_value, bool_value, first_non_empty, arm_mode,
  rule_matches_event, rule_matches_arm, alert_message,
}

pub record Delivery : Type 0 where
  pub time : Time
  pub rule_id : Bytes
  pub rule_name : Bytes
  pub channel_id : Bytes
  pub event_kind : Bytes
  pub device : Bytes
  pub metric : Bytes
  pub action : Bytes
  pub message : Bytes
  pub result : Bytes
  pub error : Bytes

pub record Manager : Type 0 where
  pub config : Config
  pub last_values : Dict Value
  pub last_sent : Dict Time
  pub history : List Delivery

pub record Alert : Type 0 where
  pub title : Bytes
  pub message : Bytes
  pub rule : Rule
  pub event : Event
  pub created_at : Time

-- The requests that channels make: an alert as JSON, or its message as text, with headers on top.
pub data Request : Type 0 where
  webhook : Bytes → Bytes → Dict Bytes → Alert → Request
  ntfy : Bytes → Dict Bytes → Bytes → Bytes → Request

-- An HTTP status, or the text of the error of the request.
pub data Reply : Type 0 where
  status : ℕ → Reply
  failure : Bytes → Reply

-- What the manager calls outside: the texts of numbers, time.ParseDuration in nanoseconds, and the
-- HTTP client.
pub record Outside : Type 0 where
  pub numerals : Numerals
  pub parse_duration : Bytes → Option ℤ
  pub client : Request → Reply

-- The error of a request whose answer must be of the 200s.
unfoldable pub reply_error : Bytes → Reply → Option Bytes
reply_error name (failure why) = some why
reply_error name (status code) =
    if ltb code 200 || leb 300 code
    then some (name ++ (codes " returned HTTP " ++ decimal code))
    else none

abbrev pub half_hour : Time
half_hour = 1800 * second

-- The duration that `cooldownReady` goes on with.
abbrev pub valid_cooldown : Option ℤ → Time
valid_cooldown none = half_hour
valid_cooldown (some (negsuc n)) = half_hour
valid_cooldown (some (pos n)) = n

-- No time, or one that is far enough back.
unfoldable pub is_over : Time → Time → Option Time → Bool
is_over cooldown now none = true
is_over cooldown now (some last) = cooldown == 0 || leb (last + cooldown) now

unfoldable pub mark_sent : Rule → Time → Manager → Manager
mark_sent rule now m = record m { last_sent = put rule.id now m.last_sent }

abbrev pub history_limit : ℕ
history_limit = 200

-- The last of a list, as many as the limit allows.
unfoldable pub keep_last : List Delivery → List Delivery
keep_last ds = if ltb history_limit (length ds) then drop (length ds - history_limit) ds else ds

-- m.record(rule, channel, event, message, result, errText)
unfoldable pub record_delivery :
    Time → Rule → Bytes → Event → Bytes → Bytes → Bytes → Manager → Manager
record_delivery clock rule channel_id event message result error m =
    let delivery : Delivery = record {
      time = clock;
      rule_id = rule.id;
      rule_name = rule.name;
      channel_id = channel_id;
      event_kind = event.kind;
      device = first_non_empty event.device event.device_slug;
      metric = event.metric;
      action = event.action;
      message = message;
      result = result;
      error = error;
    } in
    record m { history = keep_last (m.history ++ delivery ∷ []) }

-- channelsByID(channels)[id]: the last channel of an identifier is the one that is found.
unfoldable pub channel_by_id : Bytes → List Channel → Option Channel
channel_by_id id [] = none
channel_by_id id (c ∷ cs) =
    let later : Option Channel = channel_by_id id cs in
    or_else later (if eqb c.id id then some c else none)

unfoldable pub targets_of : Config → Rule → List Bytes
targets_of cfg rule =
    if is_empty rule.channels then map (λ (c : Channel). c.id) cfg.channels else rule.channels

unfoldable pub alert_of : Numerals → Rule → Event → Alert
alert_of numerals rule event = record {
  title = codes "AjaxBridge: " ++ rule.name;
  message = alert_message numerals rule event;
  rule = rule;
  event = event;
  created_at = event.time;
}

module _ (outside : Outside) where
  unfoldable pub deliver_webhook : Channel → Alert → Option Bytes
  deliver_webhook c alert =
      if is_empty (trim_space c.url)
      then some (codes "webhook channel " ++ (quote c.id ++ codes " has no URL"))
      else reply_error (codes "webhook")
          (outside.client (webhook (first_non_empty c.method (codes "POST")) c.url c.headers alert))

  unfoldable pub deliver_ntfy : Channel → Alert → Option Bytes
  deliver_ntfy c alert =
      if is_empty (trim_space c.url)
      then some (codes "ntfy channel " ++ (quote c.id ++ codes " has no URL"))
      else reply_error (codes "ntfy")
          (outside.client (ntfy c.url c.headers alert.title alert.message))

  -- m.deliver(ctx, channel, alert): the text of the error, if there is one
  unfoldable pub deliver : Channel → Alert → Option Bytes
  deliver c alert =
      let kind = to_lower (trim_space c.kind) in
      if one_of kind ([] ∷ codes "log" ∷ [])
      then none
      else if eqb kind (codes "ntfy")
      then deliver_ntfy c alert
      else deliver_webhook c alert

  unfoldable pub cooldown_of : Rule → Time
  cooldown_of rule =
      valid_cooldown (outside.parse_duration (first_non_empty rule.cooldown (codes "30m")))

  unfoldable pub cooldown_ready : Manager → Rule → Time → Bool
  cooldown_ready m rule now = is_over (cooldown_of rule) now (get rule.id m.last_sent)

  -- The record of a delivery that ends in an error, or in none.
  abbrev pub record_result : Time → Alert → Bytes → Option Bytes → Manager → Manager
  record_result clock alert id none m =
      record_delivery clock alert.rule id alert.event alert.message (codes "sent") [] m
  record_result clock alert id (some why) m =
      record_delivery clock alert.rule id alert.event alert.message (codes "failed") why m

  abbrev pub send_to : Time → Alert → Bytes → Option Channel → Manager → Manager
  send_to clock alert id none m =
      record_delivery clock alert.rule id alert.event alert.message (codes "failed")
        (codes "channel not found") m
  send_to clock alert id (some c) m = record_result clock alert c.id (deliver c alert) m

  -- The loop over the targets of a rule.
  unfoldable pub send_all_targets : Time → List Channel → Alert → List Bytes → Manager → Manager
  send_all_targets clock channels alert [] m = m
  send_all_targets clock channels alert (id ∷ ids) m =
      send_all_targets clock channels alert ids
        (send_to clock alert id (channel_by_id id channels) m)

  -- The tests at the start of the loop of `evaluate`.
  unfoldable pub is_due : Event → Bool → Rule → Manager → Bool
  is_due event had_previous rule m =
      rule.enabled
      && rule_matches_event outside.numerals rule event had_previous
      && rule_matches_arm rule event.arm_mode
      && cooldown_ready m rule event.time

  unfoldable pub fire : Time → Config → Event → Rule → Manager → Manager
  fire clock cfg event rule m = mark_sent rule event.time (
      send_all_targets clock cfg.channels (alert_of outside.numerals rule event)
        (targets_of cfg rule) m)

  -- One turn of the loop of `evaluate`.
  unfoldable pub evaluate_rule : Time → Config → Event → Bool → Rule → Manager → Manager
  evaluate_rule clock cfg event had_previous rule m =
      if is_due event had_previous rule m then fire clock cfg event rule m else m

  unfoldable pub evaluate_rules : Time → Config → Event → Bool → List Rule → Manager → Manager
  evaluate_rules clock cfg event had_previous [] m = m
  evaluate_rules clock cfg event had_previous (rule ∷ rules) m =
      evaluate_rules clock cfg event had_previous rules
        (evaluate_rule clock cfg event had_previous rule m)

  -- m.evaluate(ctx, event, hadPrevious)
  unfoldable pub evaluate : Time → Event → Bool → Manager → Manager
  evaluate clock event had_previous m =
      if m.config.enabled
      then evaluate_rules clock m.config event had_previous m.config.rules m
      else m
