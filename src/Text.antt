-- ===== src/Text.antt =====
-- The functions of Go's `strings` that the sources call, on ASCII text: a byte that is 128 or more
-- is no letter and no space here.
pub mod Trim
pub mod Case
pub mod Words
use ajax_bridge.Prelude.{
  ℕ, ◌+◌, ◌-◌, Bool, true, false, ◌&&◌, ◌||◌, Option, none, some, [], ◌∷◌, leb, ◌==◌, if◌then◌else◌,
  Bytes, length, drop,
}

-- strings.HasPrefix(s, prefix)
unfoldable pub has_prefix : Bytes → Bytes → Bool
has_prefix s [] = true
has_prefix [] (p ∷ ps) = false
has_prefix (c ∷ s) (p ∷ ps) = c == p && has_prefix s ps

-- strings.TrimPrefix
unfoldable pub trim_prefix : Bytes → Bytes → Bytes
unfolding has_prefix
trim_prefix s prefix = if has_prefix s prefix then drop (length prefix) s else s

-- strings.Contains(s, needle)
unfoldable pub contains : Bytes → Bytes → Bool
unfolding has_prefix
contains [] needle = has_prefix [] needle
contains (c ∷ s) needle = has_prefix (c ∷ s) needle || contains s needle

abbrev pub push_before : ℕ → Option (Bytes × Bytes) → Option (Bytes × Bytes)
push_before c none = none
push_before c (some (before, behind)) = some (c ∷ before, behind)

-- strings.Cut for a separator of one byte: the text before it and behind it, if it is there.
-- strings.Index of such a byte and the two slices around it come to the same.
unfoldable pub cut : ℕ → Bytes → Option (Bytes × Bytes)
cut sep [] = none
cut sep (c ∷ s) = if c == sep then some ([], s) else push_before c (cut sep s)

-- strings.TrimLeft, by the set of bytes to cut away
unfoldable pub trim_left : (ℕ → Bool) → Bytes → Bytes
trim_left cutset [] = []
trim_left cutset (c ∷ s) = let rest = trim_left cutset s in if cutset c then rest else c ∷ s

-- A byte in front of a trimmed text: it stays if it is outside the set or something behind it stays.
abbrev pub keep_right : (ℕ → Bool) → ℕ → Bytes → Bytes
keep_right cutset c [] = if cutset c then [] else c ∷ []
keep_right cutset c (x ∷ xs) = c ∷ x ∷ xs

-- strings.TrimRight
unfoldable pub trim_right : (ℕ → Bool) → Bytes → Bytes
trim_right cutset [] = []
trim_right cutset (c ∷ s) = keep_right cutset c (trim_right cutset s)

-- strings.Trim
unfoldable pub trim : (ℕ → Bool) → Bytes → Bytes
unfolding trim_left trim_right
trim cutset s = trim_right cutset (trim_left cutset s)

abbrev pub is_space : ℕ → Bool
is_space c = c == 32 || (leb 9 c && leb c 13)

-- strings.TrimSpace
unfoldable pub trim_space : Bytes → Bytes
unfolding trim
trim_space = trim is_space

abbrev pub is_upper : ℕ → Bool
is_upper c = leb b'A' c && leb c b'Z'

abbrev pub is_lower : ℕ → Bool
is_lower c = leb b'a' c && leb c b'z'

abbrev pub is_digit : ℕ → Bool
is_digit c = leb b'0' c && leb c b'9'

-- [0-9A-Za-z]
abbrev pub is_alnum : ℕ → Bool
is_alnum c = is_digit c || is_upper c || is_lower c

unfoldable pub upper_byte : ℕ → ℕ
upper_byte c = if is_lower c then c - 32 else c

unfoldable pub lower_byte : ℕ → ℕ
lower_byte c = if is_upper c then c + 32 else c

-- strings.ToUpper
unfoldable pub to_upper : Bytes → Bytes
unfolding upper_byte
to_upper [] = []
to_upper (c ∷ s) = upper_byte c ∷ to_upper s

-- strings.ToLower
unfoldable pub to_lower : Bytes → Bytes
unfolding lower_byte
to_lower [] = []
to_lower (c ∷ s) = lower_byte c ∷ to_lower s

-- The longest run of bytes of a class that a text begins with, and what follows it.
unfoldable pub span : (ℕ → Bool) → Bytes → Bytes × Bytes
span p [] = ([], [])
span p (c ∷ s) = let (run, rest) = span p s in if p c then (c ∷ run, rest) else ([], c ∷ s)
