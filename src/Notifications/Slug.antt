-- ===== src/Notifications/Slug.antt =====
-- bridge/internal/notifications/slug.go, on ASCII text. The hash is a parameter.
pub mod Fixed
use ajax_bridge.Prelude.{ℕ, Bool, true, false, ◌||◌, [], ◌∷◌, ◌==◌, if◌then◌else◌, Bytes}
use ajax_bridge.Text.{is_lower, is_digit, trim, trim_space, to_lower}

-- r >= 'a' && r <= 'z' || r >= '0' && r <= '9'
abbrev pub is_slug_byte : ℕ → Bool
is_slug_byte c = is_lower c || is_digit c

-- The loop of `slug`; the flag is `lastSep`.
unfoldable pub slug_loop : Bool → Bytes → Bytes
slug_loop last_sep [] = []
slug_loop last_sep (c ∷ s) =
    let kept = slug_loop false s in
    let dropped = slug_loop true s in
    if is_slug_byte c then c ∷ kept else if last_sep then dropped else b'_' ∷ dropped

abbrev pub is_underscore : ℕ → Bool
is_underscore c = c == b'_'

unfoldable pub slug : Bytes → Bytes
slug value = trim is_underscore (slug_loop false (to_lower (trim_space value)))
