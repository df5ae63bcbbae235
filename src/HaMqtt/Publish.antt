-- ===== src/HaMqtt/Publish.antt =====
-- The publisher of bridge/internal/hamqtt/publisher.go: the caches, the gates and the publications.
-- What the client answers to a message may depend on all that was handed to it before.
pub mod Kept
pub mod Truth
pub mod Gates
pub mod Steps
use ajax_bridge.Prelude.{
  ℕ, ◌+◌, Bool, true, false, ◌&&◌, not, Option, none, some, List, [], ◌∷◌, ◌++◌, ltb, if◌then◌else◌,
  Bytes, codes, is_empty, eqb,
}
use ajax_bridge.Dict.{Dict, get, put, delete}
use ajax_bridge.State.Accounts.{Account}
use ajax_bridge.State.Zones.{Zone}
use ajax_bridge.HaMqtt.Topics.{Config, availability_topic}
use ajax_bridge.HaMqtt.Payloads.{
  ZonePayload, AccountPayload, AccountAttributesPayload, ZoneAttributesPayload, Clock, zone_state,
  account_state, account_attributes, zone_attributes,
}
use ajax_bridge.HaMqtt.Plans.{
  DiscoveryConfig, DiscoveryMessage, AccountPlan, ZonePlan, account_plan, zone_plan,
  zone_discovery_signature, zone_plan_key,
}

-- The method that hands over a message: `publishState`, `publishDiscoveryMessage` or `publish` itself.
pub data Kind : Type 0 where
  state : Kind
  discovery : Kind
  plain : Kind

-- A call of `publish` and its error.
pub record Attempt : Type 0 where
  pub kind : Kind
  pub topic : Bytes
  pub payload : Bytes
  pub retain : Bool
  pub error : Option Bytes

-- The latest attempt stands first.
pub record Publisher : Type 0 where
  pub cfg : Config
  pub discovered : Dict Bytes
  pub published_states : Dict Bytes
  pub account_plans : Dict AccountPlan
  pub zone_plans : Dict ZonePlan
  pub state_gates : Dict ℕ
  pub attempts : List Attempt

-- encoding/json, the clock, and the client: the error of the next message, if there is one.
pub record Outside : Type 0 where
  pub clock : Clock
  pub discovery_json : DiscoveryConfig → Bytes
  pub zone_json : ZonePayload → Bytes
  pub account_json : AccountPayload → Bytes
  pub zone_attributes_json : ZoneAttributesPayload → Bytes
  pub account_attributes_json : AccountAttributesPayload → Bytes
  pub client : List Attempt → Bytes → Bytes → Bool → Option Bytes

-- An error, if there is one, and the publisher.
abbrev pub Outcome : Type 0
Outcome = Option Bytes × Publisher

-- return err, or go on
abbrev pub and_then : Outcome → (Publisher → Outcome) → Outcome
and_then (none, p) next = next p
and_then (some why, p) next = (some why, p)

-- The payload that a cache has for the topic.
abbrev pub is_cached : Bytes → Option Bytes → Bool
is_cached payload none = false
is_cached payload (some cached) = eqb cached payload

-- p.publishedStates[topic] and the other cache, after an error
abbrev pub clear_state : Bytes → Outcome → Outcome
clear_state topic (none, p) = (none, p)
clear_state topic (some why, p) =
    (some why, record p { published_states = delete topic p.published_states })

abbrev pub clear_discovered : Bytes → Outcome → Outcome
clear_discovered topic (none, p) = (none, p)
clear_discovered topic (some why, p) =
    (some why, record p { discovered = delete topic p.discovered })

-- The latest revision of a gate; a new gate has 0.
abbrev pub latest : Option ℕ → ℕ
latest none = 0
latest (some r) = r

-- `beginStatePublish`
unfoldable pub begin_state_publish : Bytes → ℕ → Publisher → Option Publisher
begin_state_publish key revision p =
    if ltb revision (latest (get key p.state_gates))
    then none
    else some (record p { state_gates = put key revision p.state_gates })

abbrev pub account_gate : Account → Bytes
account_gate a = codes "account:" ++ a.account

abbrev pub zone_gate : Zone → Bytes
zone_gate z = codes "zone:" ++ (z.account ++ (0 ∷ z.zone))

-- `resetCaches`
unfoldable pub reset_caches : Publisher → Publisher
reset_caches p = record p { discovered = []; published_states = [] }

-- The errors of a loop, in order.
abbrev pub collect : Outcome → (Publisher → List Bytes × Publisher) → List Bytes × Publisher
collect (none, p) next = next p
collect (some why, p) next = let rest = next p in (why ∷ rest.0, rest.1)

-- if err := ctx.Err(); err != nil
abbrev pub unless_stopped : {A : Type 0} → Option Bytes → (Bytes → A) → A → A
unless_stopped none stop next = next
unless_stopped (some why) stop next = stop why

module _ (outside : Outside) where
  unfoldable pub publish : Kind → Bytes → Bytes → Bool → Publisher → Outcome
  publish kind topic payload retain p =
      let error = outside.client p.attempts topic payload retain in
      (
        error,
        record p {
          attempts =
              record {
                kind = kind;
                topic = topic;
                payload = payload;
                retain = retain;
                error = error;
              }
              ∷ p.attempts;
        },
      )

  unfoldable pub publish_state : Bytes → Bytes → Bool → Publisher → Outcome
  publish_state topic payload retain p =
      if is_cached payload (get topic p.published_states)
      then (none, p)
      else clear_state topic (
          publish state topic payload retain
            (record p { published_states = put topic payload p.published_states }))

  unfoldable pub publish_discovery_message : DiscoveryMessage → Publisher → Outcome
  publish_discovery_message m p =
      if is_cached m.payload (get m.topic p.discovered)
      then (none, p)
      else clear_discovered m.topic (
          publish discovery m.topic m.payload true
            (record p { discovered = put m.topic m.payload p.discovered }))

  unfoldable pub publish_messages : List DiscoveryMessage → Publisher → Outcome
  publish_messages [] p = (none, p)
  publish_messages (m ∷ ms) p = and_then (publish_discovery_message m p) (publish_messages ms)

  -- The messages of a plan, where discovery is on.
  unfoldable pub announce : List DiscoveryMessage → List DiscoveryMessage → Publisher → Outcome
  announce cleanup messages p =
      if p.cfg.discovery
      then and_then (publish_messages cleanup p) (publish_messages messages)
      else (none, p)

  -- The state, then the attributes.
  unfoldable pub publish_both : Bytes → Bytes → Bytes → Bytes → Publisher → Outcome
  publish_both state_topic state_payload attributes_topic attributes p =
      and_then (publish_state state_topic state_payload p.cfg.retain p)
        (publish_state attributes_topic attributes true)

  abbrev pub known_account_plan : Account → Publisher → Option AccountPlan → AccountPlan × Publisher
  known_account_plan a p (some plan) = (plan, p)
  known_account_plan a p none =
      let plan = account_plan p.cfg outside.discovery_json a in
      (plan, record p { account_plans = put a.account plan p.account_plans })

  unfoldable pub account_plan_for : Account → Publisher → AccountPlan × Publisher
  account_plan_for a p = known_account_plan a p (get a.account p.account_plans)

  unfoldable pub new_zone_plan : Zone → Publisher → ZonePlan × Publisher
  new_zone_plan z p =
      let plan = zone_plan p.cfg outside.discovery_json (zone_discovery_signature z) z in
      (plan, record p { zone_plans = put (zone_plan_key z.account z.zone) plan p.zone_plans })

  abbrev pub known_zone_plan : Zone → Publisher → Option ZonePlan → ZonePlan × Publisher
  known_zone_plan z p none = new_zone_plan z p
  known_zone_plan z p (some plan) =
      if eqb plan.signature (zone_discovery_signature z) then (plan, p) else new_zone_plan z p

  unfoldable pub zone_plan_for : Zone → Publisher → ZonePlan × Publisher
  zone_plan_for z p = known_zone_plan z p (get (zone_plan_key z.account z.zone) p.zone_plans)

  -- `publishAccount`, behind its gate.
  unfoldable pub publish_open_account : Account → Publisher → Outcome
  publish_open_account a p =
      let planned = account_plan_for a p in
      let plan = planned.0 in
      and_then (announce plan.cleanup plan.discovery planned.1) (
        publish_both plan.state_topic
          (outside.account_json (account_state outside.clock p.cfg.source_id a))
          plan.attributes_topic
          (outside.account_attributes_json (account_attributes p.cfg.source_id a)))

  -- `publishZone`, behind its gate.
  unfoldable pub publish_open_zone : Zone → Publisher → Outcome
  publish_open_zone z p =
      let planned = zone_plan_for z p in
      let plan = planned.0 in
      and_then (announce plan.cleanup plan.discovery planned.1) (
        publish_both plan.state_topic
          (outside.zone_json (zone_state outside.clock p.cfg.source_id z)) plan.attributes_topic
          (outside.zone_attributes_json (zone_attributes p.cfg.source_id z)))

  -- Nothing happens behind a closed gate.
  abbrev pub through : Publisher → (Publisher → Outcome) → Option Publisher → Outcome
  through p body none = (none, p)
  through p body (some opened) = body opened

  unfoldable pub publish_account : ℕ → Account → Publisher → Outcome
  publish_account revision a p =
      through p (publish_open_account a) (begin_state_publish (account_gate a) revision p)

  unfoldable pub publish_zone : ℕ → Zone → Publisher → Outcome
  publish_zone revision z p =
      through p (publish_open_zone z) (begin_state_publish (zone_gate z) revision p)

  unfoldable pub publish_zones : ℕ → List Zone → Publisher → List Bytes × Publisher
  publish_zones revision [] p = ([], p)
  publish_zones revision (z ∷ zs) p =
      collect (publish_zone revision z p) (publish_zones revision zs)

  unfoldable pub publish_accounts :
      ℕ → List Account → List Zone → Publisher → List Bytes × Publisher
  publish_accounts revision [] zones p = publish_zones revision zones p
  publish_accounts revision (a ∷ rest) zones p =
      collect (publish_account revision a p) (publish_accounts revision rest zones)

  -- `PublishUpdate`, by the error of the context and whether the client is connected.
  unfoldable pub publish_update :
      Option Bytes → Bool → ℕ → List Account → List Zone → Publisher → List Bytes × Publisher
  publish_update stopped connected revision accounts zones p =
      if is_empty p.cfg.broker
      then ([], p)
      else unless_stopped stopped (λ why. (why ∷ [], p))
          (if not connected
            then (codes "MQTT client is not connected" ∷ [], p)
            else publish_accounts revision accounts zones p)

  -- `ReplayRetained`, by the error of the context, with the replay as a function on the publisher.
  unfoldable pub replay_retained : Option Bytes → (Publisher → Publisher) → Publisher → Outcome
  replay_retained stopped replay p =
      if is_empty p.cfg.broker
      then (none, p)
      else unless_stopped stopped (λ why. (some why, p))
          (and_then
            (publish plain (availability_topic p.cfg) (codes "online") true (reset_caches p))
            (λ q. (none, replay q)))

  -- `PublishStateMessage`, `PublishDiscoveryMessage` and `PublishCommandMessage`.
  unfoldable pub publish_state_message : Bytes → Bytes → Bool → Publisher → Outcome
  publish_state_message topic payload retain p =
      if is_empty p.cfg.broker then (none, p) else publish_state topic payload retain p

  unfoldable pub publish_any_discovery : DiscoveryMessage → Bool → Publisher → Outcome
  publish_any_discovery m retain p =
      if is_empty p.cfg.broker
      then (none, p)
      else if retain
      then publish_discovery_message m p
      else publish plain m.topic m.payload false p

  unfoldable pub publish_command_message : Bytes → Bytes → Publisher → Outcome
  publish_command_message topic payload p =
      if is_empty p.cfg.broker then (none, p) else publish plain topic payload false p
