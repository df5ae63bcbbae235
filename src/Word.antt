-- ===== src/Word.antt =====
-- Bitwise exclusive or of unsigned words, by the recursion on the bits, and its laws at every width.
use native.Mathlib.Nat.{pow-suc}
use ajax_bridge.Prelude.{ℕ, zero, suc, ◌+◌, ◌*◌, ◌/◌, ◌%◌, ◌^◌, ◌<◌, ◌≡◌, refl, arith}

-- `a ^ b` of two words of `w` bits.
unfoldable pub xor : ℕ → ℕ → ℕ → ℕ
xor zero a b = 0
xor (suc w) a b = xor w (a / 2) (b / 2) * 2 + (a + b) % 2

pub xor-lt : (w a b : ℕ) → xor w a b < 2 ^ w
unfolding xor
xor-lt zero a b = omega arith
xor-lt (suc w) a b = omega (arith, pow-suc 2 w, xor-lt w (a / 2) (b / 2))

pub xor-zero : (w a : ℕ) → a < 2 ^ w → xor w a 0 ≡ a
unfolding xor
xor-zero zero a h = omega arith
xor-zero (suc w) a h = omega (arith, pow-suc 2 w, xor-zero w (a / 2) (omega (arith, pow-suc 2 w)))

pub xor-half : (w a b : ℕ) → xor (suc w) a b / 2 ≡ xor w (a / 2) (b / 2)
unfolding xor
xor-half w a b = omega arith

pub xor-parity : (w a b : ℕ) → xor (suc w) a b % 2 ≡ (a + b) % 2
unfolding xor
xor-parity w a b = omega arith

pub xor_swap_right : (w a b c : ℕ) → xor w (xor w a b) c ≡ xor w (xor w a c) b
unfolding xor
xor_swap_right zero a b c = refl
xor_swap_right (suc w) a b c =
    rw (xor-half w a b, xor-half w a c)
      (omega (arith, xor-parity w a b, xor-parity w a c, xor_swap_right w (a / 2) (b / 2) (c / 2)))

pub xor_cancel : (w a b : ℕ) → a < 2 ^ w → xor w (xor w a b) b ≡ a
unfolding xor
xor_cancel zero a b h = omega arith
xor_cancel (suc w) a b h =
    rw (xor-half w a b)
      (omega (arith, xor-parity w a b, xor_cancel w (a / 2) (b / 2) (omega (arith, pow-suc 2 w))))

-- One more bit changes nothing where both words fit.
pub xor_widen : (w a b : ℕ) → a < 2 ^ w → b < 2 ^ w → xor (suc w) a b ≡ xor w a b
unfolding xor
xor_widen zero a b h k = omega arith
xor_widen (suc w) a b h k =
    omega
      (arith, xor_widen w (a / 2) (b / 2) (omega (arith, pow-suc 2 w)) (omega (arith, pow-suc 2 w)))
