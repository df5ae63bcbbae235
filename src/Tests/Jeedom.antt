-- ===== src/Tests/Jeedom.antt =====
-- bridge/internal/jeedom at concrete inputs.
use ajax_bridge.Prelude.{true, false, some, [], Bytes, codes, is_empty, ◌≡◌, refl, arith}
use ajax_bridge.Notifications.Slug.Fixed.{IsSlug}
use ajax_bridge.Notifications.Config.Settled.{IsDigest}
use ajax_bridge.Jeedom.Runes.{trim_runes}
use ajax_bridge.Jeedom.Slug.{slug}
use ajax_bridge.Jeedom.Slug.Fixed.{slug-IsSlug, slug-again}
use ajax_bridge.Jeedom.Keys.{canonical_command_key}
use ajax_bridge.Jeedom.Keys.Settled.{canonical_command_key-again}
use ajax_bridge.Jeedom.Parser.{Event, name_parts, parse_human_name}
use ajax_bridge.Jeedom.Parser.Names.{
  is_done, human_name, name_parts-done, parse_human_name-human_name,
}
use ajax_bridge.Text.{trim, trim_left, trim_right}
use ajax_bridge.Jeedom.Runes.{is_space_rune}
use ajax_bridge.Jeedom.Control.{trim_topic, device_slug_from_command_topic, command_topic}
use ajax_bridge.Jeedom.Control.Topics.{device_slug-command_topic}
use ajax_bridge.Jeedom.Mapping.{mapping_for}
use ajax_bridge.Jeedom.Mapping.Valid.{is_usable, mapping_for-valid}

-- In place of SHA-1.
abbrev pub fixed_hash : Bytes → Bytes
fixed_hash s = codes "0a1b2c3d4e"

pub fixed_hash-IsDigest : IsDigest fixed_hash
fixed_hash-IsDigest = record { digits = λ s. refl; filled = λ s. refl }

slug-IsSlug_example :
    IsSlug (slug fixed_hash (codes "Détecteur de fumée №1"))
    × (is_empty (slug fixed_hash (codes "Détecteur de fumée №1")) ≡ false)
slug-IsSlug_example = slug-IsSlug fixed_hash fixed_hash-IsDigest (codes "Détecteur de fumée №1")

slug-again_example :
    slug fixed_hash (slug fixed_hash (codes "Кухня 2")) ≡ slug fixed_hash (codes "Кухня 2")
slug-again_example = slug-again fixed_hash fixed_hash-IsDigest (codes "Кухня 2")

canonical_command_key-again_example :
    canonical_command_key (canonical_command_key (codes "defautdelabatterie"))
    ≡ canonical_command_key (codes "defautdelabatterie")
canonical_command_key-again_example = canonical_command_key-again (codes "defautdelabatterie")

name_parts-done_example : is_done (name_parts 6 (codes "[a][b]")) ≡ true
name_parts-done_example = name_parts-done 6 (codes "[a][b]") (omega arith)

parse_human_name-human_name_example :
    parse_human_name (human_name (codes "Maison") (codes " Hub ") (codes "Batterie"))
    ≡ some
        (trim_runes (codes "Maison"), (trim_runes (codes " Hub "), trim_runes (codes "Batterie")))
parse_human_name-human_name_example =
    parse_human_name-human_name (codes "Maison") (codes " Hub ") (codes "Batterie") refl refl refl

-- The battery of a hub, as Jeedom tells it.
abbrev battery : Event
battery = record {
  topic = codes "jeedom/cmd/event/42";
  command_id = codes "42";
  object_name = codes "Maison";
  device_name = codes "Hub";
  command_name = codes "Batterie";
  name = codes "Batterie";
  logical_id = [];
  generic_type = codes "BATTERY";
  kind = codes "info";
  subtype = codes "numeric";
  unit = codes "%";
  unit_provided = true;
  value = codes "97";
  received_at = 0;
  raw_payload = [];
}

mapping_for-valid_example : is_usable (mapping_for fixed_hash battery) ≡ true
mapping_for-valid_example = mapping_for-valid fixed_hash battery

prefix-trimmed : trim_topic (codes "ajaxbridge/jeedom") ≡ codes "ajaxbridge/jeedom"
unfolding trim_topic trim_runes is_space_rune trim trim_left trim_right
prefix-trimmed = refl

not_space : is_space_rune b'a' ≡ false
unfolding is_space_rune
not_space = refl

device_slug-command_topic_example :
    device_slug_from_command_topic
      (codes "ajaxbridge/jeedom")
      (command_topic fixed_hash (codes "ajaxbridge/jeedom") (codes "Hub 2"))
    ≡ some (slug fixed_hash (codes "Hub 2"))
device_slug-command_topic_example =
    device_slug-command_topic fixed_hash fixed_hash-IsDigest b'a' (codes "jaxbridge/jeedom")
      (codes "Hub 2") prefix-trimmed refl not_space
