-- ===== src/Jeedom/Control/Topics.antt =====
-- A command topic names its device again.
use ajax_bridge.Prelude.{
  ℕ, Bool, true, false, not, some, List, [], ◌∷◌, ◌++◌, ◌==◌, Bytes, codes, all, is_empty, eqb,
  eqb_iff, eqb_refl, append_assoc, ◌≡◌, refl, sym, ap, ◌∙◌, arith, Bool-cases, inl, inr,
}
use ajax_bridge.Text.{trim}
use ajax_bridge.Text.Trim.{trim-kept}
use ajax_bridge.Notifications.Slug.Fixed.{steady, IsSlug}
use ajax_bridge.Notifications.Config.Settled.{IsDigest}
use ajax_bridge.Jeedom.Runes.{trim_runes, is_space_rune}
use ajax_bridge.Jeedom.Parser.{split, push_part}
use ajax_bridge.Jeedom.Slug.{slug}
use ajax_bridge.Jeedom.Slug.Fixed.{slug-IsSlug, IsSlug-trim_runes}
use ajax_bridge.Jeedom.Control.{
  is_slash, trim_topic, named_device, device_of_parts, behind_prefix,
  device_slug_from_command_topic, command_topic,
}

-- Without a slash.
abbrev IsPart : Bytes → Type 0
IsPart s = all (λ c. not (is_slash c)) s ≡ true

push_part-append :
    (c : ℕ) (ps qs : List Bytes)
    → is_empty ps ≡ false
    → push_part c (ps ++ qs) ≡ push_part c ps ++ qs
push_part-append c [] qs h = ground arith
push_part-append c (p ∷ ps) qs h = refl

split-filled : (s : Bytes) → is_empty (split s) ≡ false
unfolding split
split-filled [] = refl
split-filled (c ∷ s) = ground (arith, split-filled s)

split-append : (a b : Bytes) → split (a ++ (b'/' ∷ b)) ≡ split a ++ split b
unfolding split
split-append [] b = refl
split-append (c ∷ a) b = elim (Bool-cases (c == b'/')) [
  | inl t ↦ rw t (ap (λ ps. [] ∷ ps) (split-append a b))
  | inr f ↦ rw f (
      ap (push_part c) (split-append a b) ∙ push_part-append c (split a) (split b) (split-filled a))
]

split-part : (s : Bytes) → IsPart s → split s ≡ s ∷ []
unfolding split
split-part [] h = refl
split-part (c ∷ s) h = ground (arith, split-part s)

behind_prefix-append :
    (prefix rest : List Bytes) → behind_prefix prefix (prefix ++ rest) ≡ device_of_parts rest
unfolding behind_prefix
behind_prefix-append [] rest = refl
behind_prefix-append (p ∷ prefix) rest = rw (eqb_refl p) (behind_prefix-append prefix rest)

steady-IsPart : (b : Bool) (s : Bytes) → steady b s ≡ true → IsPart s
unfolding steady
steady-IsPart b [] h = refl
steady-IsPart b (c ∷ s) h = ground (arith, steady-IsPart false s, steady-IsPart true s)

no_wildcard : (s w : Bytes) → steady true s ≡ true → steady true w ≡ false → eqb s w ≡ false
no_wildcard s w h k = elim (Bool-cases (eqb s w)) [
  | inl t ↦ ground (arith, ap (steady true) ((eqb_iff s w).0 t), h, k)
  | inr f ↦ f
]

-- A slug is a name of a device.
slug_named : (s : Bytes) → IsSlug s → is_empty s ≡ false → named_device (trim_runes s) ≡ some s
unfolding steady
slug_named s h filled =
    rw
      (
        IsSlug-trim_runes s h,
        filled,
        no_wildcard s (codes "+") h.body refl,
        no_wildcard s (codes "#") h.body refl,
      )
      refl

-- Where a topic ends, after a prefix that begins with c.
whole :
    (c : ℕ) (s g : Bytes)
    → (c ∷ s) ++ (codes "/devices/" ++ (g ++ codes "/set"))
      ≡ c ∷ ((s ++ (codes "/devices/" ++ (g ++ codes "/se"))) ++ (b't' ∷ []))
whole c s g = rw (append_assoc s _ _, append_assoc g _ _) refl

trim_topic-whole :
    (c : ℕ) (s g : Bytes)
    → is_slash c ≡ false
    → is_space_rune c ≡ false
    → trim_topic ((c ∷ s) ++ (codes "/devices/" ++ (g ++ codes "/set")))
      ≡ (c ∷ s) ++ (codes "/devices/" ++ (g ++ codes "/set"))
unfolding trim_topic trim_runes is_space_rune
trim_topic-whole c s g slash space =
    let middle = s ++ (codes "/devices/" ++ (g ++ codes "/se")) in
    ap trim_topic (whole c s g)
    ∙ ap (trim is_slash) (trim-kept is_space_rune c middle b't' space refl)
    ∙ trim-kept is_slash c middle b't' slash refl
    ∙ sym (whole c s g)

split-topic :
    (prefix g : Bytes)
    → IsPart g
    → split (prefix ++ (codes "/devices/" ++ (g ++ codes "/set")))
      ≡ split prefix ++ (codes "devices" ∷ g ∷ codes "set" ∷ [])
split-topic prefix g h =
    split-append prefix (codes "devices" ++ (b'/' ∷ (g ++ (b'/' ∷ codes "set"))))
    ∙ ap (λ ps. split prefix ++ ps)
        (split-append (codes "devices") (g ++ (b'/' ∷ codes "set"))
          ∙ rw
              (
                split-part (codes "devices") refl,
                split-append g (codes "set"),
                split-part g h,
                split-part (codes "set") refl,
              )
              refl)

module _ (short_hash : Bytes → Bytes) (digest : IsDigest short_hash) where
  -- The topic that Home Assistant is given for the commands of a device leads back to the slug of that
  -- device, if SHA-1 gives hexadecimal digits and the prefix of the topics is trimmed and begins with
  -- neither a slash nor a space.
  pub device_slug-command_topic :
      (c : ℕ) (s name : Bytes)
      → trim_topic (c ∷ s) ≡ c ∷ s
      → is_slash c ≡ false
      → is_space_rune c ≡ false
      → device_slug_from_command_topic (c ∷ s) (command_topic short_hash (c ∷ s) name)
        ≡ some (slug short_hash name)
  unfolding device_slug_from_command_topic command_topic device_of_parts eqb trim_runes
  device_slug-command_topic c s name trimmed slash space =
      let g = slug short_hash name in
      let is = slug-IsSlug short_hash digest name in
      rw
        (
          trim_topic-whole c s g slash space,
          trimmed,
          split-topic (c ∷ s) g (steady-IsPart true g is.0.body),
          behind_prefix-append (split (c ∷ s)) (codes "devices" ∷ g ∷ codes "set" ∷ []),
        )
        (slug_named g is.0 is.1)
