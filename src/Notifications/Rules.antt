-- ===== src/Notifications/Rules.antt =====
-- The conditions of the rules, and the texts, of bridge/internal/notifications/manager.go.
use ajax_bridge.Prelude.{
  Bool, true, false, not, ◌&&◌, ◌||◌, Option, none, some, List, [], ◌∷◌, ◌++◌, if◌then◌else◌, Bytes,
  codes, is_empty, eqb, map, ◌==◌,
}
use ajax_bridge.Text.{trim_space, to_lower, to_upper}
use ajax_bridge.Time.{Time}
use ajax_bridge.Float.{Float, less, nonzero}
use ajax_bridge.DeviceCatalog.{one_of}
use ajax_bridge.State.Accounts.{Account}
use ajax_bridge.Notifications.Config.{Rule}

-- A value of type `any` that a command holds.
pub data Value : Type 0 where
  null : Value
  boolean : Bool → Value
  number : Float → Value
  text : Bytes → Value

pub record Event : Type 0 where
  pub kind : Bytes
  pub source : Bytes
  pub device_slug : Bytes
  pub device : Bytes
  pub device_type : Bytes
  pub account : Bytes
  pub zone : Bytes
  pub metric : Bytes
  pub action : Bytes
  pub value : Value
  pub previous_value : Value
  pub numeric_value : Float
  pub has_numeric : Bool
  pub bool_value : Bool
  pub has_bool : Bool
  pub arm_mode : Bytes
  pub time : Time

-- The texts of strconv and fmt for a float64: strconv.ParseFloat, `%v` and `%.2f`.
pub record Numerals : Type 0 where
  pub parse_float : Bytes → Option Float
  pub sprint : Float → Bytes
  pub fixed : Float → Bytes

-- strings.ReplaceAll(s, ",", ".")
unfoldable pub commas_to_dots : Bytes → Bytes
commas_to_dots s = map (λ c. if c == b',' then b'.' else c) s

-- firstNonEmpty of two texts
unfoldable pub first_non_empty : Bytes → Bytes → Bytes
first_non_empty a b = if is_empty (trim_space a) then trim_space b else trim_space a

abbrev pub or_zero : Option Float → Float × Bool
or_zero none = (0, false)
or_zero (some f) = (f, true)

-- What `boolValue` makes of a text.
unfoldable pub bool_text : Bytes → Bool × Bool
bool_text s =
    let token = to_lower (trim_space s) in
    if one_of token
      (codes "1" ∷ codes "true" ∷ codes "on" ∷ codes "open" ∷ codes "opened" ∷ codes "active" ∷ [])
    then (true, true)
    else if one_of token
        (codes "0" ∷ codes "false" ∷ codes "off" ∷ codes "closed" ∷ codes "inactive" ∷ [])
    then (false, true)
    else (false, false)

unfoldable pub bool_value : Value → Bool × Bool
bool_value null = (false, false)
bool_value (boolean b) = (b, true)
bool_value (number f) = (nonzero f, true)
bool_value (text s) = bool_text s

-- The mode of the account, or of the only one there is.
unfoldable pub mode_of : List Account → Bytes → Option Bytes
mode_of [] id = none
mode_of (a ∷ accounts) id =
    let rest : Option Bytes = mode_of accounts id in if eqb a.account id then some a.mode else rest

abbrev pub only_mode : List Account → Bytes
only_mode (a ∷ []) = a.mode
only_mode _ = codes "unknown"

abbrev pub mode_or : List Account → Option Bytes → Bytes
mode_or accounts none = only_mode accounts
mode_or accounts (some mode) = mode

unfoldable pub arm_mode : List Account → Bytes → Bytes
arm_mode accounts id =
    if is_empty id then only_mode accounts else mode_or accounts (mode_of accounts id)

-- A field of a rule that is set is that of the event.
abbrev pub admits : Bytes → Bytes → Bool
admits wanted actual = is_empty wanted || eqb wanted actual

abbrev pub is_metric : Rule → Event → Bool
is_metric rule event = eqb event.kind (codes "metric") && eqb rule.metric event.metric

module _ (numerals : Numerals) where
  unfoldable pub number_value : Value → Float × Bool
  number_value null = (0, false)
  number_value (boolean b) = (0, false)
  number_value (number f) = (f, true)
  number_value (text s) = or_zero (numerals.parse_float (commas_to_dots (trim_space s)))

  -- fmt.Sprint(value)
  unfoldable pub sprint_value : Value → Bytes
  sprint_value null = codes "<nil>"
  sprint_value (boolean b) = if b then codes "true" else codes "false"
  sprint_value (number f) = numerals.sprint f
  sprint_value (text s) = s

  unfoldable pub equal_value : Value → Value → Bool
  equal_value a b = eqb (sprint_value a) (sprint_value b)

  abbrev pub has_changed : Event → Bool → Bool
  has_changed event had_previous =
      had_previous && not (equal_value event.previous_value event.value)

  -- The switch of `ruleMatchesEvent`, by the condition in lower case.
  unfoldable pub condition_holds : Bytes → Rule → Event → Bool → Bool
  condition_holds condition rule event had_previous =
      if eqb condition (codes "above")
      then is_metric rule event && event.has_numeric && less rule.threshold event.numeric_value
      else if eqb condition (codes "below")
      then is_metric rule event && event.has_numeric && less event.numeric_value rule.threshold
      else if eqb condition (codes "changed")
      then is_metric rule event && has_changed event had_previous
      else if eqb condition (codes "changed_to_on")
      then is_metric rule event
        && has_changed event had_previous
        && event.has_bool
        && event.bool_value
      else if eqb condition (codes "changed_to_off")
      then is_metric rule event
        && has_changed event had_previous
        && event.has_bool
        && not event.bool_value
      else if eqb condition (codes "control")
      then eqb event.kind (codes "control")
      else if eqb condition (codes "control_on")
      then eqb event.kind (codes "control") && eqb event.action (codes "on")
      else eqb condition (codes "control_off")
        && eqb event.kind (codes "control")
        && eqb event.action (codes "off")

  unfoldable pub rule_matches_event : Rule → Event → Bool → Bool
  rule_matches_event rule event had_previous =
      admits rule.device_slug event.device_slug
      && admits rule.account event.account
      && admits rule.zone event.zone
      && condition_holds (to_lower (trim_space rule.condition)) rule event had_previous

  -- The second switch of `alertMessage`, behind the name of the device and a space.
  unfoldable pub metric_message : Rule → Event → Bytes
  metric_message rule event =
      if eqb rule.condition (codes "above")
      then event.metric
        ++ (codes " is "
            ++ (numerals.fixed event.numeric_value
                ++ (codes ", above " ++ numerals.fixed rule.threshold)))
      else if eqb rule.condition (codes "below")
      then event.metric
        ++ (codes " is "
            ++ (numerals.fixed event.numeric_value
                ++ (codes ", below " ++ numerals.fixed rule.threshold)))
      else if eqb rule.condition (codes "changed_to_on")
      then event.metric ++ codes " turned ON"
      else if eqb rule.condition (codes "changed_to_off")
      then event.metric ++ codes " turned OFF"
      else if eqb rule.condition (codes "changed")
      then event.metric
        ++ (codes " changed from "
            ++ (sprint_value event.previous_value ++ (codes " to " ++ sprint_value event.value)))
      else event.metric ++ (codes " matched " ++ rule.condition)

  unfoldable pub alert_message : Rule → Event → Bytes
  alert_message rule event =
      let device : Bytes =
        first_non_empty event.device (first_non_empty event.device_slug (codes "device")) in
      if eqb event.kind (codes "control")
      then device ++ (codes " control requested: " ++ to_upper event.action)
      else if eqb event.kind (codes "control_failed")
      then device ++ (codes " control failed: " ++ to_upper event.action)
      else device ++ (32 ∷ metric_message rule event)

-- The loop of `ruleMatchesArm`, for a mode in lower case.
unfoldable pub any_arm_mode : Bytes → List Bytes → Bool
any_arm_mode mode [] = false
any_arm_mode mode (allowed ∷ rest) =
    let a = to_lower (trim_space allowed) in
    one_of a ([] ∷ codes "any" ∷ codes "all" ∷ [])
    || eqb a mode
    || (eqb a (codes "armed") && one_of mode (codes "armed" ∷ codes "night" ∷ []))
    || any_arm_mode mode rest

unfoldable pub rule_matches_arm : Rule → Bytes → Bool
rule_matches_arm rule mode =
    is_empty rule.arm_modes || any_arm_mode (to_lower (trim_space mode)) rule.arm_modes
