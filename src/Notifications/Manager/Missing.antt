-- ===== src/Notifications/Manager/Missing.antt =====
-- A rule that names its channel by a text that is no slug.
use ajax_bridge.Prelude.{
  false, List, [], ◌∷◌, Bytes, codes, is_empty, map, if◌then◌else◌, ◌≡◌, ◌≢◌, refl, ap, ◌∙◌,
}
use ajax_bridge.Text.{trim, trim_left, trim_right, trim_space, to_lower}
use ajax_bridge.Time.{Time}
use ajax_bridge.Notifications.Slug.{slug, slug_loop}
use ajax_bridge.Notifications.Rules.{Event, alert_message}
use ajax_bridge.Notifications.Config.{
  Channel, Rule, Config, normalize_from, normalize_list, normalize_rule, normalize_config,
}
use ajax_bridge.Notifications.Config.Settled.{IsDigest, unslugged_channel-missing}
use ajax_bridge.Notifications.Manager.{
  Manager, Outside, mark_sent, record_delivery, targets_of, alert_of, send_to, send_all_targets,
  fire,
}

slug-nil : slug [] ≡ []
unfolding slug slug_loop trim trim_left trim_right trim_space to_lower
slug-nil = refl

unslugged-filled : (value : Bytes) → slug value ≢ value → is_empty value ≡ false
unslugged-filled [] h = absurd (h slug-nil)
unslugged-filled (c ∷ value) h = refl

-- A list of one name keeps it, in lower case and trimmed.
normalize_list-one :
    (x : Bytes)
    → is_empty (to_lower (trim_space x)) ≡ false
    → normalize_list (x ∷ []) ≡ to_lower (trim_space x) ∷ []
unfolding normalize_list normalize_from
normalize_list-one x h = rw h refl

targets-one :
    (cfg : Config) (rule : Rule) (id : Bytes)
    → rule.channels ≡ id ∷ []
    → targets_of cfg rule ≡ id ∷ []
unfolding targets_of
targets-one cfg rule id h =
    ap
      (λ (ids : List Bytes). if is_empty ids then map (λ (c : Channel). c.id) cfg.channels else ids)
      h

module _ (short_hash : Bytes → Bytes) (h : IsDigest short_hash) where
  -- A rule whose only channel is named by a text that is no slug once it is trimmed and in lower case, as
  -- "my-phone", keeps that name when the configuration is normalised, and where it fires under the
  -- normalised configuration, its one delivery is recorded as failed with "channel not found" and the
  -- cooldown begins, whatever identifiers the channels were written with.
  pub fire-unslugged :
      (outside : Outside) (clock : Time) (cfg : Config) (event : Event) (r : Rule) (x : Bytes)
      (m : Manager)
      → slug (to_lower (trim_space x)) ≢ to_lower (trim_space x)
      → let rule = normalize_rule short_hash (record r { channels = x ∷ [] }) in
        let value = to_lower (trim_space x) in
        (rule.channels ≡ value ∷ [])
        × (fire outside clock (normalize_config short_hash cfg) event rule m
            ≡ mark_sent rule event.time (
                record_delivery clock rule value event
                  (alert_message outside.numerals rule event)
                  (codes "failed")
                  (codes "channel not found")
                  m))
  unfolding normalize_rule fire send_all_targets alert_of
  fire-unslugged outside clock cfg event r x m u =
      let value = to_lower (trim_space x) in
      let one = normalize_list-one x (unslugged-filled value u) in
      let rule = normalize_rule short_hash (record r { channels = x ∷ [] }) in
      let alert = alert_of outside.numerals rule event in
      let channels = (normalize_config short_hash cfg).channels in
      let targets : targets_of (normalize_config short_hash cfg) rule ≡ value ∷ [] =
        targets-one (normalize_config short_hash cfg) rule value one in
      (
        one,
        ap (λ ids. mark_sent rule event.time (send_all_targets outside clock channels alert ids m))
              targets
            ∙ ap (λ o. mark_sent rule event.time (send_to outside clock alert value o m))
                (unslugged_channel-missing short_hash h value cfg u),
      )
