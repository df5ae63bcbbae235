-- ===== src/Text/Case.antt =====
-- Trimmed text in one case.
use ajax_bridge.Prelude.{ℕ, [], ◌∷◌, ◌≡◌, refl, ap, sym, ◌∙◌, arith, Bytes, map}
use ajax_bridge.Text.{is_space, lower_byte, upper_byte, to_lower, to_upper, trim, trim_space}
use ajax_bridge.Text.Trim.{trim-again, trim-map}

map-again : (f : ℕ → ℕ) → ((c : ℕ) → f (f c) ≡ f c) → (s : Bytes) → map f (map f s) ≡ map f s
map-again f h [] = refl
map-again f h (c ∷ s) = rw (h c, map-again f h s)

-- Trimming and a change of bytes, twice.
settled-map :
    (f : ℕ → ℕ)
    → ((c : ℕ) → f (f c) ≡ f c)
    → ((c : ℕ) → is_space (f c) ≡ is_space c)
    → (s : Bytes) → map f (trim is_space (map f (trim is_space s))) ≡ map f (trim is_space s)
settled-map f h same s =
    ap (map f) (trim-map is_space f same (trim is_space s) ∙ ap (map f) (trim-again is_space s))
    ∙ map-again f h (trim is_space s)

to_lower-map : (s : Bytes) → to_lower s ≡ map lower_byte s
unfolding to_lower
to_lower-map [] = refl
to_lower-map (c ∷ s) = ap (λ t. lower_byte c ∷ t) (to_lower-map s)

to_upper-map : (s : Bytes) → to_upper s ≡ map upper_byte s
unfolding to_upper
to_upper-map [] = refl
to_upper-map (c ∷ s) = ap (λ t. upper_byte c ∷ t) (to_upper-map s)

pub trim_space-again : (s : Bytes) → trim_space (trim_space s) ≡ trim_space s
unfolding trim_space
trim_space-again s = trim-again is_space s

lower_byte-again : (c : ℕ) → lower_byte (lower_byte c) ≡ lower_byte c
unfolding lower_byte
lower_byte-again c = ground arith

space-lower_byte : (c : ℕ) → is_space (lower_byte c) ≡ is_space c
unfolding lower_byte
space-lower_byte c = ground arith

upper_byte-again : (c : ℕ) → upper_byte (upper_byte c) ≡ upper_byte c
unfolding upper_byte
upper_byte-again c = ground arith

space-upper_byte : (c : ℕ) → is_space (upper_byte c) ≡ is_space c
unfolding upper_byte
space-upper_byte c = ground arith

pub lower-again :
    (s : Bytes) → to_lower (trim_space (to_lower (trim_space s))) ≡ to_lower (trim_space s)
unfolding trim_space
lower-again s =
    to_lower-map (trim is_space (to_lower (trim is_space s)))
    ∙ ap (λ t. map lower_byte (trim is_space t)) (to_lower-map (trim is_space s))
    ∙ settled-map lower_byte lower_byte-again space-lower_byte s
    ∙ sym (to_lower-map (trim is_space s))

pub upper-again :
    (s : Bytes) → to_upper (trim_space (to_upper (trim_space s))) ≡ to_upper (trim_space s)
unfolding trim_space
upper-again s =
    to_upper-map (trim is_space (to_upper (trim is_space s)))
    ∙ ap (λ t. map upper_byte (trim is_space t)) (to_upper-map (trim is_space s))
    ∙ settled-map upper_byte upper_byte-again space-upper_byte s
    ∙ sym (to_upper-map (trim is_space s))
