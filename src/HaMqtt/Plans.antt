-- ===== src/HaMqtt/Plans.antt =====
-- The messages that announce accounts and zones to Home Assistant and the ones that clear older
-- announcements: bridge/internal/hamqtt/publisher.go. What encoding/json writes is a parameter.
pub mod Stable
use ajax_bridge.Prelude.{
  ℕ, Bool, true, false, ◌&&◌, ◌||◌, not, Option, none, some, List, [], ◌∷◌, ◌++◌, ◌==◌,
  if◌then◌else◌, Bytes, codes, is_empty, eqb, map,
}
use ajax_bridge.Text.{has_prefix, trim_prefix, trim_space}
use ajax_bridge.DeviceCatalog.{one_of}
use ajax_bridge.State.Accounts.{Account}
use ajax_bridge.State.Zones.{Zone}
use ajax_bridge.HaMqtt.Topics.{
  Config, or_fallback, slug, availability_topic, account_state_topic, account_attributes_topic,
  zone_state_topic, zone_attributes_topic, source_identity, discovery_node, unique_id,
  discovery_topic,
}
use ajax_bridge.HaMqtt.Entities.{
  Entity, account_entities, zone_entities, zone_base, sorted_signals, legacy_signal_object_suffixes,
}

pub record DeviceInfo : Type 0 where
  pub identifiers : List Bytes
  pub name : Bytes
  pub manufacturer : Bytes
  pub model : Bytes
  pub suggested_area : Bytes

pub record DiscoveryConfig : Type 0 where
  pub name : Bytes
  pub unique_id : Bytes
  pub state_topic : Bytes
  pub value_template : Bytes
  pub payload_on : Bytes
  pub payload_off : Bytes
  pub availability_topic : Bytes
  pub payload_available : Bytes
  pub payload_not_available : Bytes
  pub device_class : Bytes
  pub entity_category : Bytes
  pub icon : Bytes
  pub json_attributes_topic : Bytes
  pub device : DeviceInfo

pub record DiscoveryMessage : Type 0 where
  pub key : Bytes
  pub topic : Bytes
  pub payload : Bytes

pub record AccountPlan : Type 0 where
  pub state_topic : Bytes
  pub attributes_topic : Bytes
  pub cleanup : List DiscoveryMessage
  pub discovery : List DiscoveryMessage

pub record ZonePlan : Type 0 where
  pub signature : Bytes
  pub state_topic : Bytes
  pub attributes_topic : Bytes
  pub cleanup : List DiscoveryMessage
  pub discovery : List DiscoveryMessage

unfoldable pub account_device : Account → DeviceInfo
account_device a = record {
  identifiers = (codes "ajaxbridge_account_" ++ a.account) ∷ [];
  name = codes "Ajax account " ++ a.account;
  manufacturer = codes "Ajax Systems";
  model = codes "Ajax account";
  suggested_area = [];
}

unfoldable pub zone_device : Zone → DeviceInfo
zone_device z = record {
  identifiers = (codes "ajaxbridge_" ++ (z.account ++ (codes "_zone_" ++ z.zone))) ∷ [];
  name = or_fallback z.device_name (codes "Ajax zone " ++ z.zone);
  manufacturer = codes "Ajax Systems";
  model = or_fallback z.kind (codes "Ajax device");
  suggested_area =
      if not (is_empty z.room) && not (eqb z.room (codes "unknown")) then z.room else [];
}

abbrev pub legacy_discovery_nodes : List Bytes
legacy_discovery_nodes = codes "ajax2prometheus" ∷ []

-- A list for each element, one behind the other: a loop that appends.
unfoldable pub append_each {ℓ k} : {A : Type ℓ} → {B : Type k} → (A → List B) → List A → List B
append_each f [] = []
append_each f (a ∷ rest) = f a ++ append_each f rest

-- The candidates in order, each once, and none that is blank; those seen so far are the first argument.
unfoldable pub unique_from : List Bytes → List Bytes → List Bytes
unique_from seen [] = []
unique_from seen (c ∷ cs) =
    let candidate = trim_space c in
    let skip = unique_from seen cs in
    let keep = unique_from (candidate ∷ seen) cs in
    if is_empty candidate then skip else if one_of candidate seen then skip else candidate ∷ keep

unfoldable pub unique_object_ids : List Bytes → List Bytes
unique_object_ids = unique_from []

unfoldable pub legacy_sia_object_ids : Zone → Bytes → List Bytes
legacy_sia_object_ids z suffix =
    let signal = trim_prefix suffix (codes "signal_") in
    let zone = codes "zone_" ++ (z.zone ++ codes "_") in
    let account = codes "zone_" ++ (z.account ++ codes "_") in
    unique_object_ids (
      (zone ++ suffix)
      ∷ (account ++ suffix)
      ∷ (if has_prefix suffix (codes "signal_")
          then (zone_base z ++ signal)
            ∷ (zone ++ signal)
            ∷ (zone ++ (codes "signal_" ++ signal))
            ∷ (account ++ signal)
            ∷ (account ++ (codes "signal_" ++ signal))
            ∷ []
          else []))

-- The loop of `dedupeDiscoveryMessages`, with the topics seen so far.
unfoldable pub dedupe_from : List Bytes → List DiscoveryMessage → List DiscoveryMessage
dedupe_from seen [] = []
dedupe_from seen (m ∷ ms) =
    let skip = dedupe_from seen ms in
    let keep = dedupe_from (m.topic ∷ seen) ms in
    if is_empty m.topic then skip else if one_of m.topic seen then skip else m ∷ keep

unfoldable pub dedupe_discovery_messages : List DiscoveryMessage → List DiscoveryMessage
dedupe_discovery_messages = dedupe_from []

-- The loop of `cleanupDiscoveryNodes`, with the nodes seen so far.
unfoldable pub nodes_from : List Bytes → List Bytes → List Bytes
nodes_from seen [] = []
nodes_from seen (n ∷ ns) =
    let node = slug n in
    let skip = nodes_from seen ns in
    let keep = nodes_from (node ∷ seen) ns in
    if is_empty node || eqb node (codes "unknown")
    then skip
    else if one_of node seen
    then skip
    else node ∷ keep

module _ (cfg : Config) where
  unfoldable pub cleanup_discovery_nodes : List Bytes
  cleanup_discovery_nodes =
      if not (is_empty cfg.source_id)
      then slug (discovery_node cfg) ∷ []
      else nodes_from [] (discovery_node cfg ∷ legacy_discovery_nodes)

  -- A message that clears what stands under a topic.
  abbrev pub clearing : Bytes → Bytes → Bytes → Bytes → DiscoveryMessage
  clearing kind component node object_id = record {
    key = codes "cleanup:" ++ (kind ++ (b':' ∷ component ++ (b'/' ∷ object_id)));
    topic = discovery_topic cfg component node object_id;
    payload = [];
  }

  unfoldable pub legacy_cleanup_messages : List Entity → List DiscoveryMessage
  legacy_cleanup_messages entities =
      if not (is_empty cfg.source_id)
      then []
      else append_each
          (λ node.
            if eqb (slug node) (slug (discovery_node cfg))
            then []
            else map (λ (e : Entity). clearing (slug node) e.component node e.object_id) entities)
          legacy_discovery_nodes

  unfoldable pub legacy_sia_object_cleanup_messages : Zone → List Entity → List DiscoveryMessage
  legacy_sia_object_cleanup_messages z entities =
      append_each
        (λ (e : Entity).
          let suffix = trim_prefix e.object_id (zone_base z) in
          if eqb suffix e.object_id
          then []
          else append_each
              (λ object_id.
                map
                  (λ node. clearing (codes "legacy_sia_object:" ++ node) e.component node object_id)
                  cleanup_discovery_nodes)
              (legacy_sia_object_ids z suffix))
        entities

  unfoldable pub renamed_signal_cleanup_messages : Zone → List DiscoveryMessage
  renamed_signal_cleanup_messages z =
      append_each
        (λ signal.
          append_each
            (λ suffix.
              map
                (λ node.
                  clearing (codes "renamed_signal:" ++ node) (codes "binary_sensor") node
                    (zone_base z ++ suffix))
                cleanup_discovery_nodes)
            (legacy_signal_object_suffixes signal))
        (sorted_signals z.device_events z.signal_active)

  unfoldable pub zone_cleanup_messages : Zone → List Entity → List DiscoveryMessage
  zone_cleanup_messages z entities = dedupe_discovery_messages (
      legacy_cleanup_messages entities
      ++ (legacy_sia_object_cleanup_messages z entities ++ renamed_signal_cleanup_messages z))

  module _ (discovery_json : DiscoveryConfig → Bytes) where
    -- One turn of the loop of `buildDiscoveryMessages`.
    unfoldable pub discovery_message :
        Bytes → Bytes → DeviceInfo → Bytes → Entity → DiscoveryMessage
    discovery_message state_topic attributes_topic device node e = record {
      key = codes "discover:" ++ (slug node ++ (b':' ∷ e.component ++ (b'/' ∷ e.object_id)));
      topic = discovery_topic cfg e.component node e.object_id;
      payload = discovery_json record {
        name = e.name;
        unique_id = unique_id cfg e.object_id;
        state_topic = state_topic;
        value_template = e.value_template;
        payload_on = if e.binary then codes "ON" else [];
        payload_off = if e.binary then codes "OFF" else [];
        availability_topic = availability_topic cfg;
        payload_available = codes "online";
        payload_not_available = codes "offline";
        device_class = e.device_class;
        entity_category = e.entity_category;
        icon = e.icon;
        json_attributes_topic = attributes_topic;
        device = record device { identifiers = map (source_identity cfg) device.identifiers };
      };
    }

    unfoldable pub build_discovery_messages :
        List Entity → Bytes → Bytes → DeviceInfo → Bytes → List DiscoveryMessage
    build_discovery_messages entities state_topic attributes_topic device node =
        map (discovery_message state_topic attributes_topic device node) entities

    -- The plan that `accountPlanFor` makes.
    unfoldable pub account_plan : Account → AccountPlan
    account_plan a = record {
      state_topic = account_state_topic cfg a.account;
      attributes_topic = account_attributes_topic cfg a.account;
      cleanup = legacy_cleanup_messages (account_entities a.account);
      discovery =
          build_discovery_messages (account_entities a.account) (account_state_topic cfg a.account)
            (account_attributes_topic cfg a.account) (account_device a) (discovery_node cfg);
    }

    -- The plan that `zonePlanFor` makes.
    unfoldable pub zone_plan : Bytes → Zone → ZonePlan
    zone_plan signature z = record {
      signature = signature;
      state_topic = zone_state_topic cfg z.account z.zone;
      attributes_topic = zone_attributes_topic cfg z.account z.zone;
      cleanup = zone_cleanup_messages z (zone_entities z);
      discovery =
          build_discovery_messages (zone_entities z) (zone_state_topic cfg z.account z.zone)
            (zone_attributes_topic cfg z.account z.zone) (zone_device z) (discovery_node cfg);
    }

-- A bar and a text, for each text.
abbrev pub barred : List Bytes → Bytes
barred [] = []
barred (s ∷ ss) = b'|' ∷ (s ++ barred ss)

unfoldable pub zone_discovery_signature : Zone → Bytes
zone_discovery_signature z =
    z.account
    ++ barred
        (z.zone ∷ z.device_name ∷ z.room ∷ z.kind ∷ sorted_signals z.device_events z.signal_active)

unfoldable pub zone_plan_key : Bytes → Bytes → Bytes
zone_plan_key account zone = account ++ (b'/' ∷ zone)
