-- ===== src/Notifications/Config.antt =====
-- bridge/internal/notifications/store.go: the configuration. Reading and writing its file are effects
-- of the operating system. SHA-1 is a parameter.
pub mod Settled
use ajax_bridge.Prelude.{
  Bool, true, List, [], ◌∷◌, ◌++◌, if◌then◌else◌, Bytes, codes, is_empty, map,
}
use ajax_bridge.Text.{trim_space, to_lower, to_upper}
use ajax_bridge.Dict.{Dict}
use ajax_bridge.Float.{Float}
use ajax_bridge.DeviceCatalog.{one_of}
use ajax_bridge.Notifications.Slug.{slug}

pub record Channel : Type 0 where
  pub id : Bytes
  pub kind : Bytes
  pub url : Bytes
  pub method : Bytes
  pub headers : Dict Bytes

pub record Rule : Type 0 where
  pub id : Bytes
  pub name : Bytes
  pub enabled : Bool
  pub device_slug : Bytes
  pub account : Bytes
  pub zone : Bytes
  pub metric : Bytes
  pub condition : Bytes
  pub threshold : Float
  pub arm_modes : List Bytes
  pub channels : List Bytes
  pub cooldown : Bytes

pub record Config : Type 0 where
  pub enabled : Bool
  pub channels : List Channel
  pub rules : List Rule

abbrev pub log_channel : Channel
log_channel = record { id = codes "log"; kind = codes "log"; url = []; method = []; headers = [] }

abbrev pub default_config : Config
default_config = record { enabled = true; channels = log_channel ∷ []; rules = [] }

abbrev pub or_text : Bytes → Bytes → Bytes
or_text s default = if is_empty s then default else s

-- The loop of `normalizeList`, with the names seen so far.
unfoldable pub normalize_from : List Bytes → List Bytes → List Bytes
normalize_from seen [] = []
normalize_from seen (v ∷ vs) =
    let value = to_lower (trim_space v) in
    let skip = normalize_from seen vs in
    let keep = normalize_from (value ∷ seen) vs in
    if is_empty value then skip else if one_of value seen then skip else value ∷ keep

unfoldable pub normalize_list : List Bytes → List Bytes
normalize_list = normalize_from []

-- The ten hexadecimal digits that `shortHash` gives, and that they are such.
module _ (short_hash : Bytes → Bytes) where
  unfoldable pub normalize_channel : Channel → Channel
  normalize_channel c = record c {
    id = or_text (slug (trim_space c.id)) (codes "channel_" ++ short_hash (c.url ++ c.kind));
    kind = or_text (to_lower (trim_space c.kind)) (codes "log");
    method = or_text (to_upper (trim_space c.method)) (codes "POST");
  }

  -- The identifier of a rule after the loop.
  unfoldable pub rule_id : Rule → Bytes
  rule_id r =
      or_text (slug (trim_space r.id))
        (codes "rule_" ++ short_hash (r.name ++ (r.device_slug ++ (r.metric ++ r.condition))))

  unfoldable pub normalize_rule : Rule → Rule
  normalize_rule r = record r {
    id = rule_id r;
    name = or_text (trim_space r.name) (rule_id r);
    device_slug = slug (trim_space r.device_slug);
    metric = to_lower (trim_space r.metric);
    condition = to_lower (trim_space r.condition);
    cooldown = or_text r.cooldown (codes "30m");
    arm_modes = normalize_list r.arm_modes;
    channels = normalize_list r.channels;
  }

  unfoldable pub normalize_config : Config → Config
  normalize_config cfg =
      let channels : List Channel =
        if is_empty cfg.channels then default_config.channels else cfg.channels in
      record cfg { channels = map normalize_channel channels; rules = map normalize_rule cfg.rules }
