-- ===== src/Notifications/Config/Settled.antt =====
-- The normalisation of a configuration, a second time, and the names it lets channels have.
use ajax_bridge.Prelude.{
  Bool, true, false, not, none, List, [], ◌∷◌, ◌++◌, if◌then◌else◌, Bytes, codes, is_empty, eqb,
  eqb_iff, all, map, ◌≡◌, ◌≢◌, refl, ap, ◌∙◌, arith, Bool-cases, inl, inr,
}
use ajax_bridge.Text.{trim_space, trim_right, to_lower, to_upper}
use ajax_bridge.Text.Trim.{trim_right-untouched, trim_right-append}
use ajax_bridge.Text.Case.{trim_space-again, lower-again, upper-again}
use ajax_bridge.DeviceCatalog.{one_of}
use ajax_bridge.Notifications.Slug.{is_slug_byte, is_underscore, slug}
use ajax_bridge.Notifications.Slug.Fixed.{
  steady, IsSlug, slug-IsSlug, IsSlug-trim_space, IsSlug-slug,
}
use ajax_bridge.Notifications.Config.{
  Channel, Rule, Config, or_text, default_config, normalize_from, normalize_list, normalize_channel,
  rule_id, normalize_rule, normalize_config,
}
use ajax_bridge.Notifications.Manager.{channel_by_id}

-- A text that is made settled, or replaced by a settled default, is settled.
or_text-settled :
    (F : Bytes → Bytes) (s d d' : Bytes)
    → F (F s) ≡ F s
    → F d ≡ d
    → is_empty d ≡ false
    → or_text (F (or_text (F s) d)) d' ≡ or_text (F s) d
or_text-settled F s d d' again fixed filled = elim (Bool-cases (is_empty (F s))) [
  | inl t ↦ rw t (rw (fixed, filled) refl)
  | inr f ↦ rw f (rw (again, f) refl)
]

steady-slug_bytes : (b : Bool) (s : Bytes) → all is_slug_byte s ≡ true → steady b s ≡ true
unfolding steady
steady-slug_bytes b [] h = refl
steady-slug_bytes b (c ∷ s) h = ground (arith, steady-slug_bytes false s)

no_underscores : (s : Bytes) → all is_slug_byte s ≡ true → all (λ c. not (is_underscore c)) s ≡ true
no_underscores [] h = refl
no_underscores (c ∷ s) h = ground (arith, no_underscores s)

slug_of_slug : (s : Bytes) → slug (trim_space (slug (trim_space s))) ≡ slug (trim_space s)
slug_of_slug s =
    let is = slug-IsSlug (trim_space s) in
    ap slug (IsSlug-trim_space (slug (trim_space s)) is) ∙ IsSlug-slug (slug (trim_space s)) is

slugged : (s : Bytes) → IsSlug s → slug (trim_space s) ≡ s
slugged s h = ap slug (IsSlug-trim_space s h) ∙ IsSlug-slug s h

or_text-IsSlug : (s d : Bytes) → IsSlug s → IsSlug d → IsSlug (or_text s d)
or_text-IsSlug s d h k = elim (Bool-cases (is_empty s)) [ inl t ↦ rw t k | inr f ↦ rw f h ]

normalize_from-again :
    (seen vs : List Bytes) → normalize_from seen (normalize_from seen vs) ≡ normalize_from seen vs
unfolding normalize_from
normalize_from-again seen [] = refl
normalize_from-again seen (v ∷ vs) =
    let value = to_lower (trim_space v) in
    let kept = normalize_from-again (value ∷ seen) vs in
    let same : to_lower (trim_space value) ≡ value = lower-again v in
    elim (Bool-cases (is_empty value)) [
      | inl t ↦ rw t (normalize_from-again seen vs)
      | inr f ↦ rw f (elim (Bool-cases (one_of value seen)) [
        | inl t ↦ rw t (normalize_from-again seen vs)
        | inr g ↦ rw g (rw (same, f, g) (ap (λ t. value ∷ t) kept))
      ])
    ]

log_fixed : to_lower (trim_space (codes "log")) ≡ codes "log"
unfolding to_lower trim_space
log_fixed = refl

post_fixed : to_upper (trim_space (codes "POST")) ≡ codes "POST"
unfolding to_upper trim_space
post_fixed = refl

map-settled :
    {A : Type 0} (f : A → A)
    → ((a : A) → f (f a) ≡ f a)
    → (xs : List A) → map f (map f xs) ≡ map f xs
map-settled f h [] = refl
map-settled f h (a ∷ xs) = rw (h a, map-settled f h xs)

mapped-filled :
    (f : Channel → Channel) (cs : List Channel)
    → is_empty (map f (if is_empty cs then default_config.channels else cs)) ≡ false
mapped-filled f [] = refl
mapped-filled f (c ∷ cs) = refl

-- What SHA-1 in hexadecimal digits is taken to give: letters and digits, and not nothing.
pub record IsDigest (short_hash : Bytes → Bytes) : Type 0 where
  pub digits : (s : Bytes) → all is_slug_byte (short_hash s) ≡ true
  pub filled : (s : Bytes) → is_empty (short_hash s) ≡ false

module _ (short_hash : Bytes → Bytes) (digest : IsDigest short_hash) where
  hash-ended : (s : Bytes) → trim_right is_underscore (short_hash s) ≡ short_hash s
  hash-ended s =
      trim_right-untouched is_underscore (short_hash s)
        (no_underscores (short_hash s) (digest.digits s))

  -- A hash behind a prefix of this form.
  pub hash-IsSlug :
      (prefix s : Bytes)
      → steady true (prefix ++ short_hash s) ≡ true
      → IsSlug (prefix ++ short_hash s)
  hash-IsSlug prefix s h = record {
    body = h;
    ended = trim_right-append is_underscore prefix (short_hash s) (digest.filled s) (hash-ended s);
  }

  pub hash-steady : (s : Bytes) → steady true (short_hash s) ≡ true
  hash-steady s = steady-slug_bytes true (short_hash s) (digest.digits s)

  channel_hash-IsSlug : (s : Bytes) → IsSlug (codes "channel_" ++ short_hash s)
  unfolding steady
  channel_hash-IsSlug s = hash-IsSlug (codes "channel_") s (hash-steady s)

  rule_hash-IsSlug : (s : Bytes) → IsSlug (codes "rule_" ++ short_hash s)
  unfolding steady
  rule_hash-IsSlug s = hash-IsSlug (codes "rule_") s (hash-steady s)

  normalize_channel-IsSlug : (c : Channel) → IsSlug (normalize_channel short_hash c).id
  unfolding normalize_channel
  normalize_channel-IsSlug c =
      or_text-IsSlug (slug (trim_space c.id)) _ (slug-IsSlug (trim_space c.id))
        (channel_hash-IsSlug (c.url ++ c.kind))

  rule_id-IsSlug : (r : Rule) → IsSlug (rule_id short_hash r)
  unfolding rule_id
  rule_id-IsSlug r =
      or_text-IsSlug (slug (trim_space r.id)) _ (slug-IsSlug (trim_space r.id)) (rule_hash-IsSlug _)

  normalize_channel-again :
      (c : Channel)
      → normalize_channel short_hash (normalize_channel short_hash c)
        ≡ normalize_channel short_hash c
  unfolding normalize_channel
  normalize_channel-again c =
      let hash = codes "channel_" ++ short_hash (c.url ++ c.kind) in
      let id =
        or_text-settled (λ s. slug (trim_space s)) c.id hash
          (codes "channel_" ++ short_hash (c.url ++ (normalize_channel short_hash c).kind))
          (slug_of_slug c.id) (slugged hash (channel_hash-IsSlug (c.url ++ c.kind))) refl in
      let kind =
        or_text-settled (λ s. to_lower (trim_space s)) c.kind (codes "log") (codes "log")
          (lower-again c.kind) log_fixed refl in
      let method =
        or_text-settled (λ s. to_upper (trim_space s)) c.method (codes "POST") (codes "POST")
          (upper-again c.method) post_fixed refl in
      λ i. record c { id = id i; kind = kind i; method = method i }

  rule_id-again :
      (r : Rule) → rule_id short_hash (normalize_rule short_hash r) ≡ rule_id short_hash r
  unfolding normalize_rule rule_id
  rule_id-again r =
      let hash =
        codes "rule_" ++ short_hash (r.name ++ (r.device_slug ++ (r.metric ++ r.condition))) in
      or_text-settled (λ s. slug (trim_space s)) r.id hash _ (slug_of_slug r.id)
        (slugged hash (rule_hash-IsSlug _)) refl

  filled-rule_id : (r : Rule) → is_empty (rule_id short_hash r) ≡ false
  unfolding rule_id
  filled-rule_id r = elim (Bool-cases (is_empty (slug (trim_space r.id)))) [
    | inl t ↦ rw t refl
    | inr f ↦ rw f f
  ]

  normalize_rule-again :
      (r : Rule)
      → normalize_rule short_hash (normalize_rule short_hash r) ≡ normalize_rule short_hash r
  unfolding normalize_rule normalize_list
  normalize_rule-again r =
      let id = rule_id-again r in
      let name =
        or_text-settled trim_space r.name (rule_id short_hash r)
          (rule_id short_hash (normalize_rule short_hash r)) (trim_space-again r.name)
          (IsSlug-trim_space (rule_id short_hash r) (rule_id-IsSlug r)) (filled-rule_id r) in
      let device = slug_of_slug r.device_slug in
      let metric = lower-again r.metric in
      let condition = lower-again r.condition in
      let cooldown =
        or_text-settled (λ s. s) r.cooldown (codes "30m") (codes "30m") refl refl refl in
      let modes = normalize_from-again [] r.arm_modes in
      let channels = normalize_from-again [] r.channels in
      λ i. record r {
        id = id i;
        name = name i;
        device_slug = device i;
        metric = metric i;
        condition = condition i;
        cooldown = cooldown i;
        arm_modes = modes i;
        channels = channels i;
      }

  -- Normalising a configuration a second time changes nothing: identifiers, kinds, methods, names,
  -- conditions, cooldowns and lists are in their final form after the first, if SHA-1 gives hexadecimal
  -- digits.
  pub normalize_config-again :
      (cfg : Config)
      → normalize_config short_hash (normalize_config short_hash cfg)
        ≡ normalize_config short_hash cfg
  unfolding normalize_config
  normalize_config-again cfg =
      let first = if is_empty cfg.channels then default_config.channels else cfg.channels in
      let filled : is_empty (map (normalize_channel short_hash) first) ≡ false =
        mapped-filled (normalize_channel short_hash) cfg.channels in
      let channels =
        ap
          (λ (b : Bool).
            map (normalize_channel short_hash)
              (if b then default_config.channels else map (normalize_channel short_hash) first))
          filled
        ∙ map-settled (normalize_channel short_hash) normalize_channel-again first in
      let rules = map-settled (normalize_rule short_hash) normalize_rule-again cfg.rules in
      λ i. record cfg { channels = channels i; rules = rules i }

  unnamed :
      (name : Bytes) (channels : List Channel)
      → slug name ≢ name
      → channel_by_id name (map (normalize_channel short_hash) channels) ≡ none
  unfolding channel_by_id
  unnamed name [] h = refl
  unnamed name (c ∷ channels) h =
      let slugs = normalize_channel-IsSlug c in
      let later = unnamed name channels h in
      elim (Bool-cases (eqb (normalize_channel short_hash c).id name)) [
        | inl t ↦
            let same = (eqb_iff (normalize_channel short_hash c).id name).0 t in
            absurd (h (rw (← same) (IsSlug-slug (normalize_channel short_hash c).id slugs)))
        | inr f ↦ rw (later, f) refl
      ]

  -- A text that is no slug finds no channel in a normalised configuration.
  pub unslugged_channel-missing :
      (name : Bytes) (cfg : Config)
      → slug name ≢ name
      → channel_by_id name (normalize_config short_hash cfg).channels ≡ none
  unfolding normalize_config
  unslugged_channel-missing name cfg h = unnamed name _ h
