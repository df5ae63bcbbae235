-- ===== src/Jeedom/Parser.antt =====
-- bridge/internal/jeedom/parser.go: the event of a command, its topic and its human name, and its value
-- as a truth value. What encoding/json reads is a parameter.
pub mod Names
use ajax_bridge.Prelude.{
  ℕ, zero, suc, ◌+◌, Bool, true, false, ◌&&◌, ◌||◌, not, Option, none, some, List, [], ◌∷◌, ◌++◌,
  ◌==◌, leb, ltb, if◌then◌else◌, Bytes, codes, eqb, is_empty, length,
}
use ajax_bridge.Text.{trim, cut}
use ajax_bridge.Time.{Time}
use ajax_bridge.DeviceCatalog.{one_of}
use ajax_bridge.Float.{nonzero}
use ajax_bridge.Jeedom.Runes.{trim_runes}
use ajax_bridge.Jeedom.Slug.{repair_text}

pub record Event : Type 0 where
  pub topic : Bytes
  pub command_id : Bytes
  pub object_name : Bytes
  pub device_name : Bytes
  pub command_name : Bytes
  pub name : Bytes
  pub logical_id : Bytes
  pub generic_type : Bytes
  pub kind : Bytes
  pub subtype : Bytes
  pub unit : Bytes
  pub unit_provided : Bool
  pub value : Bytes
  pub received_at : Time
  pub raw_payload : Bytes

-- A byte in front of the first part.
abbrev pub push_part : ℕ → List Bytes → List Bytes
push_part c [] = (c ∷ []) ∷ []
push_part c (part ∷ parts) = (c ∷ part) ∷ parts

-- strings.Split(s, "/")
unfoldable pub split : Bytes → List Bytes
split [] = [] ∷ []
split (c ∷ s) = let parts = split s in if c == b'/' then [] ∷ parts else push_part c parts

-- strings.Trim(strings.TrimSpace(topic), "/")
abbrev pub bare_topic : Bytes → Bytes
bare_topic topic = trim (λ c. c == b'/') (trim_runes topic)

-- parts[len(parts)-1]
unfoldable pub last_part : List Bytes → Bytes
last_part [] = []
last_part (part ∷ []) = part
last_part (part ∷ next ∷ parts) = last_part (next ∷ parts)

abbrev pub is_id : Bytes → Bool
is_id id = not (is_empty id || eqb id (codes "#") || eqb id (codes "+"))

unfoldable pub command_id_from_topic : Bytes → Option Bytes
command_id_from_topic topic =
    let bare = bare_topic topic in
    let id = trim_runes (last_part (split bare)) in
    if is_empty bare then none else if is_id id then some id else none

-- len(parts) is at least 4, and the last three are "cmd", "event" and an identifier.
unfoldable pub ends_in_event : List Bytes → Bool
ends_in_event [] = false
ends_in_event (a ∷ []) = false
ends_in_event (a ∷ b ∷ []) = false
ends_in_event (a ∷ b ∷ c ∷ []) = false
ends_in_event (a ∷ b ∷ c ∷ d ∷ []) =
    eqb b (codes "cmd") && eqb c (codes "event") && is_id (trim_runes d)
ends_in_event (a ∷ b ∷ c ∷ d ∷ e ∷ parts) = ends_in_event (b ∷ c ∷ d ∷ e ∷ parts)

unfoldable pub is_command_event_topic : Bytes → Bool
is_command_event_topic topic =
    let bare = bare_topic topic in if is_empty bare then false else ends_in_event (split bare)

-- What the loop of `ParseHumanName` has come to: its turns are used up, it returned the error, or it
-- took the whole text apart.
pub data Parts : Type 0 where
  unfinished : Parts
  malformed : Parts
  parts : List Bytes → Parts

abbrev pub push_to : Bytes → Parts → Parts
push_to part unfinished = unfinished
push_to part malformed = malformed
push_to part (parts ps) = parts (part ∷ ps)

-- The part in front of the first "]", and the turns behind it.
abbrev pub next_part : (Bytes → Parts) → Option (Bytes × Bytes) → Parts
next_part later none = malformed
next_part later (some (part, rest)) = push_to part (later rest)

-- The loop, of so many turns at most. The text behind the first "[" is cut at its first "]", which is
-- the first of the whole text.
unfoldable pub name_parts : ℕ → Bytes → Parts
name_parts turns [] = parts []
name_parts zero (c ∷ s) = unfinished
name_parts (suc turns) (c ∷ s) =
    let taken = next_part (name_parts turns) (cut b']' s) in if c == b'[' then taken else malformed

abbrev pub three_parts : Parts → Option (Bytes × (Bytes × Bytes))
three_parts (parts (a ∷ b ∷ c ∷ [])) = some (trim_runes a, (trim_runes b, trim_runes c))
three_parts other = none

unfoldable pub parse_human_name : Bytes → Option (Bytes × (Bytes × Bytes))
parse_human_name value =
    let text = trim_runes value in
    if is_empty text then none else three_parts (name_parts (length text) text)
