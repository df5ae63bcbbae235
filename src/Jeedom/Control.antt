-- ===== src/Jeedom/Control.antt =====
-- The topics of control requests in bridge/internal/jeedom/control.go, on lists of code points.
pub mod Topics
use ajax_bridge.Prelude.{
  ℕ, Bool, true, false, ◌&&◌, ◌||◌, not, Option, none, some, List, [], ◌∷◌, ◌++◌, ◌==◌,
  if◌then◌else◌, Bytes, codes, is_empty, eqb,
}
use ajax_bridge.Text.{trim}
use ajax_bridge.Jeedom.Runes.{trim_runes}
use ajax_bridge.Jeedom.Parser.{split}
use ajax_bridge.Jeedom.Slug.{slug}

abbrev pub is_slash : ℕ → Bool
is_slash c = c == b'/'

-- trimTopic
unfoldable pub trim_topic : Bytes → Bytes
trim_topic value = trim is_slash (trim_runes value)

-- A name for a device: not blank and no wildcard.
abbrev pub named_device : Bytes → Option Bytes
named_device device_slug =
    if is_empty device_slug || eqb device_slug (codes "+") || eqb device_slug (codes "#")
    then none
    else some device_slug

-- Behind the parts of the prefix there are three: "devices", the device and "set".
unfoldable pub device_of_parts : List Bytes → Option Bytes
device_of_parts (devices ∷ device_slug ∷ last ∷ []) =
    if eqb devices (codes "devices") && eqb last (codes "set")
    then named_device (trim_runes device_slug)
    else none
device_of_parts other = none

-- The comparison of the parts with those of the prefix.
unfoldable pub behind_prefix : List Bytes → List Bytes → Option Bytes
behind_prefix [] parts = device_of_parts parts
behind_prefix (p ∷ prefix) [] = none
behind_prefix (p ∷ prefix) (part ∷ parts) =
    let rest = behind_prefix prefix parts in if eqb part p then rest else none

-- `deviceSlugFromCommandTopic`, of a controller with this prefix for its topics
unfoldable pub device_slug_from_command_topic : Bytes → Bytes → Option Bytes
device_slug_from_command_topic state_topic_prefix topic =
    behind_prefix (split (trim_topic state_topic_prefix)) (split (trim_topic topic))

-- `CommandTopic`
unfoldable pub command_topic : (Bytes → Bytes) → Bytes → Bytes → Bytes
command_topic short_hash state_topic_prefix device_slug =
    state_topic_prefix ++ (codes "/devices/" ++ (slug short_hash device_slug ++ codes "/set"))
