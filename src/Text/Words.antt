-- ===== src/Text/Words.antt =====
-- strings.Fields and strings.Join of words with a space.
use ajax_bridge.Prelude.{ℕ, Bool, List, [], ◌∷◌, ◌++◌, if◌then◌else◌, Bytes, is_empty}

-- A character in front of the first word.
abbrev pub push_word : ℕ → List Bytes → List Bytes
push_word c [] = (c ∷ []) ∷ []
push_word c (w ∷ ws) = (c ∷ w) ∷ ws

-- The words between the characters of the set, with the empty words between two of those still in.
unfoldable pub split_words : (ℕ → Bool) → Bytes → List Bytes
split_words is_gap [] = [] ∷ []
split_words is_gap (c ∷ s) =
    let words = split_words is_gap s in if is_gap c then [] ∷ words else push_word c words

-- The words that are not empty, each made anew, with a space between two of them.
unfoldable pub join_words : (Bytes → Bytes) → List Bytes → Bytes
join_words f [] = []
join_words f (w ∷ ws) =
    let rest = join_words f ws in
    if is_empty w then rest else if is_empty rest then f w else f w ++ (b' ' ∷ rest)
