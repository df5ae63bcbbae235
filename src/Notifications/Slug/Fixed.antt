-- ===== src/Notifications/Slug/Fixed.antt =====
-- What `slug` gives, and that it leaves such a text as it is.
use ajax_bridge.Prelude.{
  ℕ, Bool, true, false, not, ◌&&◌, [], ◌∷◌, ◌==◌, if◌then◌else◌, Bytes, all, ◌≡◌, refl, ap, ◌∙◌,
  arith,
}
use ajax_bridge.Text.{
  is_space, trim_left, trim_right, keep_right, trim, trim_space, to_lower, lower_byte,
}
use ajax_bridge.Text.Trim.{trim-untouched, trim_right-again}
use ajax_bridge.Notifications.Slug.{is_slug_byte, slug_loop, is_underscore, slug}

-- Slug bytes and single underscores; the flag is that an underscore stands in front.
unfoldable pub steady : Bool → Bytes → Bool
steady b [] = true
steady b (c ∷ s) =
    let kept = steady false s in
    let parted = steady true s in if is_slug_byte c then kept else c == b'_' && not b && parted

slug_loop-steady : (b : Bool) (s : Bytes) → steady b (slug_loop b s) ≡ true
unfolding slug_loop steady
slug_loop-steady b [] = refl
slug_loop-steady false (c ∷ s) = ground (arith, slug_loop-steady false s, slug_loop-steady true s)
slug_loop-steady true (c ∷ s) = ground (arith, slug_loop-steady false s, slug_loop-steady true s)

steady-slug_loop : (b : Bool) (s : Bytes) → steady b s ≡ true → slug_loop b s ≡ s
unfolding slug_loop steady
steady-slug_loop b [] h = refl
steady-slug_loop b (c ∷ s) h = ground (arith, steady-slug_loop false s, steady-slug_loop true s)

to_lower-steady : (b : Bool) (s : Bytes) → steady b s ≡ true → to_lower s ≡ s
unfolding to_lower lower_byte steady
to_lower-steady b [] h = refl
to_lower-steady b (c ∷ s) h = ground (arith, to_lower-steady false s, to_lower-steady true s)

steady-unspaced : (b : Bool) (s : Bytes) → steady b s ≡ true → all (λ c. not (is_space c)) s ≡ true
unfolding steady
steady-unspaced b [] h = refl
steady-unspaced b (c ∷ s) h = ground (arith, steady-unspaced false s, steady-unspaced true s)

trim_left-steady :
    (b : Bool) (s : Bytes) → steady b s ≡ true → steady true (trim_left is_underscore s) ≡ true
unfolding trim_left steady
trim_left-steady b [] h = refl
trim_left-steady b (c ∷ s) h = ground (arith, trim_left-steady true s)

steady-trim_left : (s : Bytes) → steady true s ≡ true → trim_left is_underscore s ≡ s
unfolding trim_left steady
steady-trim_left [] h = refl
steady-trim_left (c ∷ s) h = ground arith

keep-steady :
    (b : Bool) (c : ℕ) (t : Bytes)
    → steady b (c ∷ t) ≡ true
    → steady b (keep_right is_underscore c t) ≡ true
unfolding steady
keep-steady b c [] h = ground arith
keep-steady b c (d ∷ t) h = h

trim_right-steady :
    (b : Bool) (s : Bytes) → steady b s ≡ true → steady b (trim_right is_underscore s) ≡ true
unfolding trim_right steady
trim_right-steady b [] h = refl
trim_right-steady b (c ∷ s) h =
    keep-steady b c (trim_right is_underscore s)
      (ground (arith, trim_right-steady false s, trim_right-steady true s))

-- A text that `slug` gives: slug bytes and single underscores, none in front and none at the end.
pub record IsSlug (s : Bytes) : Type 0 where
  pub body : steady true s ≡ true
  pub ended : trim_right is_underscore s ≡ s

pub trim-IsSlug : (text : Bytes) → steady false text ≡ true → IsSlug (trim is_underscore text)
unfolding trim
trim-IsSlug text h = record {
  body = trim_right-steady true (trim_left is_underscore text) (trim_left-steady false text h);
  ended = trim_right-again is_underscore (trim_left is_underscore text);
}

pub slug-IsSlug : (s : Bytes) → IsSlug (slug s)
unfolding slug
slug-IsSlug s = trim-IsSlug _ (slug_loop-steady false (to_lower (trim_space s)))

-- Such a text is not trimmed any further.
pub IsSlug-trim : (s : Bytes) → IsSlug s → trim is_underscore s ≡ s
unfolding trim
IsSlug-trim s h = ap (trim_right is_underscore) (steady-trim_left s h.body) ∙ h.ended

pub IsSlug-trim_space : (s : Bytes) → IsSlug s → trim_space s ≡ s
unfolding trim_space
IsSlug-trim_space s h = trim-untouched is_space s (steady-unspaced true s h.body)

-- The text that begins a slug may stand in front of an underscore too.
pub steady-false : (s : Bytes) → steady true s ≡ true → steady false s ≡ true
unfolding steady
steady-false [] h = refl
steady-false (c ∷ s) h = ground arith

pub IsSlug-slug : (s : Bytes) → IsSlug s → slug s ≡ s
unfolding slug
IsSlug-slug s h =
    let looped : slug_loop false (to_lower (trim_space s)) ≡ s =
      ap (λ t. slug_loop false (to_lower t)) (IsSlug-trim_space s h)
      ∙ ap (slug_loop false) (to_lower-steady true s h.body)
      ∙ steady-slug_loop false s (steady-false s h.body) in
    ap (trim is_underscore) looped ∙ IsSlug-trim s h
