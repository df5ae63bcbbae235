-- ===== src/HaMqtt/Topics.antt =====
-- The topics and identifiers of bridge/internal/hamqtt/publisher.go, on ASCII text.
use ajax_bridge.Prelude.{Bool, ◌||◌, ◌∷◌, ◌++◌, ◌==◌, if◌then◌else◌, Bytes, codes, is_empty, map}
use ajax_bridge.Text.{trim_space}
use ajax_bridge.Time.{Time}
use ajax_bridge.Notifications.Slug

pub record Config : Type 0 where
  pub source_id : Bytes
  pub broker : Bytes
  pub username : Bytes
  pub password : Bytes
  pub client_id : Bytes
  pub topic_prefix : Bytes
  pub discovery : Bool
  pub discovery_prefix : Bytes
  pub home_assistant_status_topic : Bytes
  pub home_assistant_online_payload : Bytes
  pub timeout : Time
  pub retain : Bool

-- fallback(value, fallbackValue)
abbrev pub or_fallback : Bytes → Bytes → Bytes
or_fallback value other = if is_empty (trim_space value) then other else value

-- `slug`: the loop is that of notifications/slug.go, and nothing becomes "unknown".
unfoldable pub slug : Bytes → Bytes
slug value = let out = Slug.slug value in if is_empty out then codes "unknown" else out

unfoldable pub topic_part : Bytes → Bytes
topic_part value =
    let part = trim_space value in
    if is_empty part
    then codes "unknown"
    else map (λ c. if c == b'#' || c == b'+' || c == b' ' then b'_' else c) part

unfoldable pub availability_topic : Config → Bytes
availability_topic cfg = cfg.topic_prefix ++ codes "/status"

-- p.cfg.TopicPrefix + "/accounts/" + topicPart(account)
abbrev pub account_topic : Config → Bytes → Bytes
account_topic cfg account = cfg.topic_prefix ++ (codes "/accounts/" ++ topic_part account)

unfoldable pub account_state_topic : Config → Bytes → Bytes
account_state_topic cfg account = account_topic cfg account ++ codes "/state"

unfoldable pub account_attributes_topic : Config → Bytes → Bytes
account_attributes_topic cfg account = account_topic cfg account ++ codes "/attributes"

unfoldable pub zone_state_topic : Config → Bytes → Bytes → Bytes
zone_state_topic cfg account zone =
    account_topic cfg account ++ (codes "/zones/" ++ (topic_part zone ++ codes "/state"))

unfoldable pub zone_attributes_topic : Config → Bytes → Bytes → Bytes
zone_attributes_topic cfg account zone =
    account_topic cfg account ++ (codes "/zones/" ++ (topic_part zone ++ codes "/attributes"))

unfoldable pub source_identity : Config → Bytes → Bytes
source_identity cfg identity =
    if is_empty cfg.source_id then identity else cfg.source_id ++ (b':' ∷ identity)

unfoldable pub source_object_id : Config → Bytes → Bytes
source_object_id cfg object_id =
    if is_empty cfg.source_id then object_id else cfg.source_id ++ (b'_' ∷ object_id)

unfoldable pub discovery_node : Config → Bytes
discovery_node cfg = or_fallback cfg.topic_prefix cfg.client_id

unfoldable pub unique_id : Config → Bytes → Bytes
unique_id cfg object_id =
    if is_empty cfg.source_id
    then source_identity cfg (slug (discovery_node cfg ++ (b'_' ∷ object_id)))
    else source_identity cfg (slug (codes "ajaxbridge_" ++ object_id))

unfoldable pub discovery_topic : Config → Bytes → Bytes → Bytes → Bytes
discovery_topic cfg component node object_id =
    cfg.discovery_prefix
    ++ (b'/' ∷ component
        ++ (b'/' ∷ slug node ++ (b'/' ∷ source_object_id cfg (slug object_id) ++ codes "/config")))
