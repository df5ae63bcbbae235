-- ===== src/Float.antt =====
-- Go's float64, as the 64 bits of its IEEE 754 form: the sign, and the magnitude, whose order is that of
-- the numbers. How a text is read or written is a parameter of what needs it.
use ajax_bridge.Prelude.{
  ℕ, ◌*◌, ◌%◌, ◌^◌, Bool, false, not, ◌&&◌, ◌||◌, ltb, leb, ◌==◌, if◌then◌else◌,
}

abbrev pub Float : Type 0
Float = ℕ

abbrev pub is_negative : Float → Bool
is_negative a = leb (2 ^ 63) a

abbrev pub magnitude : Float → ℕ
magnitude a = a % 2 ^ 63

-- The magnitudes behind that of infinity are not numbers.
abbrev pub infinity : ℕ
infinity = 2047 * 2 ^ 52

unfoldable pub is_nan : Float → Bool
is_nan a = ltb infinity (magnitude a)

-- a < b
unfoldable pub less : Float → Float → Bool
less a b =
    if is_nan a || is_nan b
    then false
    else if is_negative a
    then (if is_negative b
        then ltb (magnitude b) (magnitude a)
        else not (magnitude a == 0 && magnitude b == 0))
    else if is_negative b
    then false
    else ltb (magnitude a) (magnitude b)

-- a != 0
unfoldable pub nonzero : Float → Bool
nonzero a = not (magnitude a == 0)
