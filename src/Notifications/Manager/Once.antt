-- ===== src/Notifications/Manager/Once.antt =====
-- When the manager stays silent: within the cooldown of a rule, and for a control that failed.
use ajax_bridge.Prelude.{
  ◌<◌, Bool, true, false, ◌&&◌, Option, none, some, List, [], ◌∷◌, if◌then◌else◌, Bytes, eqb,
  eqb_iff, All, ◌≡◌, ◌⊎◌, refl, sym, ap, ◌∙◌, arith, Bool-cases, Option-cases, inl, inr,
}
use ajax_bridge.Time.{Time}
use ajax_bridge.Dict.{get, put, get-put}
use ajax_bridge.State.Accounts.{Account}
use ajax_bridge.Notifications.Config.{Channel, Rule, Config}
use ajax_bridge.Notifications.Rules.{Event, rule_matches_event, rule_matches_arm, condition_holds}
use ajax_bridge.Notifications.Manager.{
  Manager, Alert, Outside, mark_sent, record_delivery, send_to, send_all_targets, channel_by_id,
  deliver, targets_of, alert_of, is_over, cooldown_of, cooldown_ready, is_due, fire, evaluate_rule,
  evaluate_rules, evaluate,
}
use ajax_bridge.Notifications.Observe.{JeedomControl, control_event, observe_jeedom_control}

module _ (outside : Outside) where
  -- The fields of the manager that sending leaves alone.
  record Kept (m m' : Manager) : Type 0 where
    sent : m'.last_sent ≡ m.last_sent
    config : m'.config ≡ m.config

  send_to-Kept :
      (clock : Time) (alert : Alert) (id : Bytes) (o : Option Channel) (m : Manager)
      → Kept m (send_to outside clock alert id o m)
  unfolding record_delivery
  send_to-Kept clock alert id none m = record { sent = refl; config = refl }
  send_to-Kept clock alert id (some c) m = elim (Option-cases (deliver outside c alert)) [
    | inl n ↦ rw n (record { sent = refl; config = refl })
    | inr (why, e) ↦ rw e (record { sent = refl; config = refl })
  ]

  send_all_targets-Kept :
      (clock : Time) (channels : List Channel) (alert : Alert) (ids : List Bytes) (m : Manager)
      → Kept m (send_all_targets outside clock channels alert ids m)
  unfolding send_all_targets
  send_all_targets-Kept clock channels alert [] m = record { sent = refl; config = refl }
  send_all_targets-Kept clock channels alert (id ∷ ids) m =
      let first = send_to-Kept clock alert id (channel_by_id id channels) m in
      let rest =
        send_all_targets-Kept clock channels alert ids
          (send_to outside clock alert id (channel_by_id id channels) m) in
      record { sent = rest.sent ∙ first.sent; config = rest.config ∙ first.config }

  module _ (clock : Time) (cfg : Config) (event : Event) (had : Bool) where
    fire-sent :
        (rule : Rule) (m : Manager)
        → (fire outside clock cfg event rule m).last_sent ≡ put rule.id event.time m.last_sent
    unfolding fire mark_sent
    fire-sent rule m =
        ap (put rule.id event.time)
          (send_all_targets-Kept clock cfg.channels (alert_of outside.numerals rule event)
            (targets_of cfg rule) m).sent

    fire-config :
        (rule : Rule) (m : Manager) → (fire outside clock cfg event rule m).config ≡ m.config
    unfolding fire mark_sent
    fire-config rule m =
        (send_all_targets-Kept clock cfg.channels (alert_of outside.numerals rule event)
          (targets_of cfg rule) m).config

    rule-config :
        (rule : Rule) (m : Manager)
        → (evaluate_rule outside clock cfg event had rule m).config ≡ m.config
    unfolding evaluate_rule
    rule-config rule m = elim (Bool-cases (is_due outside event had rule m)) [
      | inl t ↦ rw t (fire-config rule m)
      | inr f ↦ rw f refl
    ]

    evaluate_rules-config :
        (rules : List Rule) (m : Manager)
        → (evaluate_rules outside clock cfg event had rules m).config ≡ m.config
    unfolding evaluate_rules
    evaluate_rules-config [] m = refl
    evaluate_rules-config (rule ∷ rules) m =
        evaluate_rules-config rules (evaluate_rule outside clock cfg event had rule m)
        ∙ rule-config rule m

    over-again : (c : Time) → 0 < c → is_over c event.time (some event.time) ≡ false
    unfolding is_over
    over-again c pos = ground arith

    -- A rule is due by the last time it was sent alone.
    abbrev due_with : Rule → Option Time → Bool
    due_with r o =
        r.enabled
        && rule_matches_event outside.numerals r event had
        && rule_matches_arm r event.arm_mode
        && is_over (cooldown_of outside r) event.time o

    due-with :
        (r : Rule) (m : Manager) → is_due outside event had r m ≡ due_with r (get r.id m.last_sent)
    unfolding is_due cooldown_ready
    due-with r m = refl

    due_with-now : (r : Rule) → 0 < cooldown_of outside r → due_with r (some event.time) ≡ false
    due_with-now r pos = ground (arith, over-again (cooldown_of outside r) pos)

    -- A rule with a cooldown is not due where it was not, or is sent just now.
    fire-quiet :
        (r rule : Rule) (m : Manager)
        → 0 < cooldown_of outside r
        → (is_due outside event had r m ≡ false) ⊎ (rule.id ≡ r.id)
        → is_due outside event had r (fire outside clock cfg event rule m) ≡ false
    fire-quiet r rule m pos quiet =
        let sent = ap (get r.id) (fire-sent rule m) ∙ get-put rule.id r.id event.time m.last_sent in
        let due = due-with r (fire outside clock cfg event rule m) ∙ ap (due_with r) sent in
        elim (Bool-cases (eqb rule.id r.id)) [
          | inl t ↦ rw t at due ∙ due_with-now r pos
          | inr f ↦ rw f at due ∙ sym (due-with r m) ∙ unsent quiet f
        ]
      where
        unsent :
            (is_due outside event had r m ≡ false) ⊎ (rule.id ≡ r.id)
            → eqb rule.id r.id ≡ false
            → is_due outside event had r m ≡ false
        unsent (inl q) f = q
        unsent (inr p) f = ground (arith, (eqb_iff rule.id r.id).1 p)

    rule-quiet :
        (r rule : Rule) (m : Manager)
        → 0 < cooldown_of outside r
        → is_due outside event had r m ≡ false
        → is_due outside event had r (evaluate_rule outside clock cfg event had rule m) ≡ false
    unfolding evaluate_rule
    rule-quiet r rule m pos q = elim (Bool-cases (is_due outside event had rule m)) [
      | inl t ↦ rw t (fire-quiet r rule m pos (inl q))
      | inr f ↦ rw f q
    ]

    own-quiet :
        (r : Rule) (m : Manager)
        → 0 < cooldown_of outside r
        → is_due outside event had r (evaluate_rule outside clock cfg event had r m) ≡ false
    unfolding evaluate_rule
    own-quiet r m pos = elim (Bool-cases (is_due outside event had r m)) [
      | inl t ↦ rw t (fire-quiet r r m pos (inr refl))
      | inr f ↦ rw f f
    ]

    rules-quiet :
        (r : Rule) (rules : List Rule) (m : Manager)
        → 0 < cooldown_of outside r
        → is_due outside event had r m ≡ false
        → is_due outside event had r (evaluate_rules outside clock cfg event had rules m) ≡ false
    unfolding evaluate_rules
    rules-quiet r [] m pos q = q
    rules-quiet r (rule ∷ rules) m pos q =
        rules-quiet r rules (evaluate_rule outside clock cfg event had rule m) pos
          (rule-quiet r rule m pos q)

    abbrev AllQuiet : List Rule → Manager → Type 0
    AllQuiet rules m = All (λ r. is_due outside event had r m ≡ false) rules

    rules-AllQuiet :
        (rules : List Rule) (m : Manager)
        → All (λ r. 0 < cooldown_of outside r) rules
        → AllQuiet rules (evaluate_rules outside clock cfg event had rules m)
    unfolding evaluate_rules
    rules-AllQuiet [] m h = tt
    rules-AllQuiet (r ∷ rules) m (pos, h) =
        let after = evaluate_rule outside clock cfg event had r m in
        (rules-quiet r rules after pos (own-quiet r m pos), rules-AllQuiet rules after h)

    quiet-unchanged :
        (rules : List Rule) (m : Manager)
        → AllQuiet rules m
        → evaluate_rules outside clock cfg event had rules m ≡ m
    unfolding evaluate_rules evaluate_rule
    quiet-unchanged [] m h = refl
    quiet-unchanged (r ∷ rules) m (q, h) = rw (q, evaluate_rules) (quiet-unchanged rules m h)

  evaluate-with :
      (clock : Time) (event : Event) (had : Bool) (m : Manager) (c : Config)
      → m.config ≡ c
      → evaluate outside clock event had m
        ≡ (if c.enabled then evaluate_rules outside clock c event had c.rules m else m)
  unfolding evaluate
  evaluate-with clock event had m c e =
      ap
        (λ (k : Config).
          if k.enabled then evaluate_rules outside clock k event had k.rules m else m)
        e

  -- An event that is evaluated a second time, with the same values, sends nothing and records nothing,
  -- if every rule of the configuration has a cooldown that is not zero.
  pub evaluate-again :
      (clock : Time) (event : Event) (had : Bool) (m : Manager)
      → All (λ r. 0 < cooldown_of outside r) m.config.rules
      → let done = evaluate outside clock event had m in
        evaluate outside clock event had done ≡ done
  evaluate-again clock event had m h = elim (Bool-cases m.config.enabled) [
    | inl t ↦
        let done = evaluate_rules outside clock m.config event had m.config.rules m in
        let e : evaluate outside clock event had m ≡ done =
          evaluate-with clock event had m m.config refl ∙ rw t refl in
        let second : evaluate outside clock event had done ≡ done =
          evaluate-with clock event had done m.config
            (evaluate_rules-config clock m.config event had m.config.rules m)
          ∙ ap
              (λ (b : Bool).
                if b
                then evaluate_rules outside clock m.config event had m.config.rules done
                else done)
              t
          ∙ (quiet-unchanged clock m.config event had m.config.rules done
              (rules-AllQuiet clock m.config event had m.config.rules m h)) in
        ap (evaluate outside clock event had) e ∙ second ∙ sym e
    | inr f ↦
        let e : evaluate outside clock event had m ≡ m =
          evaluate-with clock event had m m.config refl ∙ rw f refl in
        ap (evaluate outside clock event had) e
  ]

  failed-unmatched :
      (now : Time) (accounts : List Account) (c : JeedomControl) (rule : Rule)
      → rule_matches_event outside.numerals rule (control_event now accounts c true) true ≡ false
  unfolding rule_matches_event condition_holds control_event eqb
  failed-unmatched now accounts c rule = ground arith

  failed-quiet :
      (now : Time) (accounts : List Account) (c : JeedomControl) (rules : List Rule) (m : Manager)
      → All (λ r. is_due outside (control_event now accounts c true) true r m ≡ false) rules
  unfolding is_due
  failed-quiet now accounts c [] m = tt
  failed-quiet now accounts c (r ∷ rules) m =
      (ground (arith, failed-unmatched now accounts c r), failed-quiet now accounts c rules m)

  -- A control request that fails is told to no channel and leaves no record, whatever the rules are: no
  -- condition of a rule holds of it.
  pub failed_control-silent :
      (now : Time) (accounts : List Account) (c : JeedomControl) (m : Manager)
      → observe_jeedom_control outside now accounts c true m ≡ m
  unfolding observe_jeedom_control
  failed_control-silent now accounts c m =
      let event = control_event now accounts c true in
      let unchanged : evaluate_rules outside now m.config event true m.config.rules m ≡ m =
        quiet-unchanged now m.config event true m.config.rules m
          (failed-quiet now accounts c m.config.rules m) in
      let silent : evaluate outside now event true m ≡ m =
        evaluate-with now event true m m.config refl ∙ ground (arith, unchanged) in
      ground (arith, silent)
