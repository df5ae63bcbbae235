-- ===== src/Jeedom/Utf8.antt =====
-- UTF-8 as Go's unicode/utf8 reads it: `utf8.Valid` and the runes of a valid string.
use ajax_bridge.Prelude.{
  ℕ, ◌+◌, ◌-◌, ◌*◌, Bool, not, ◌&&◌, ◌||◌, Option, none, some, [], ◌∷◌, leb, ltb, ◌==◌,
  if◌then◌else◌, Bytes,
}
use ajax_bridge.Jeedom.Runes.{between}

-- A rune in front of what is read behind it.
abbrev pub push_rune : ℕ → Option Bytes → Option Bytes
push_rune r none = none
push_rune r (some s) = some (r ∷ s)

abbrev pub is_tail : ℕ → Bool
is_tail b = between 128 191 b

-- The rune of two, three or four bytes, if they are in the ranges that shortest forms have; no
-- surrogates, nothing over 0x10FFFF.
unfoldable pub rune_2 : ℕ → ℕ → Option ℕ
rune_2 a b = if between 194 223 a && is_tail b then some ((a - 192) * 64 + (b - 128)) else none

unfoldable pub rune_3 : ℕ → ℕ → ℕ → Option ℕ
rune_3 a b c =
    if between 224 239 a
      && is_tail b
      && is_tail c
      && (not (a == 224) || leb 160 b)
      && (not (a == 237) || leb b 159)
    then some ((a - 224) * 4096 + ((b - 128) * 64 + (c - 128)))
    else none

unfoldable pub rune_4 : ℕ → ℕ → ℕ → ℕ → Option ℕ
rune_4 a b c d =
    if between 240 244 a
      && is_tail b
      && is_tail c
      && is_tail d
      && (not (a == 240) || leb 144 b)
      && (not (a == 244) || leb b 143)
    then some ((a - 240) * 262144 + ((b - 128) * 4096 + ((c - 128) * 64 + (d - 128))))
    else none

abbrev pub push_some : Option ℕ → Option Bytes → Option Bytes
push_some none rest = none
push_some (some r) rest = push_rune r rest

-- The runes of the bytes, if they are valid.
unfoldable pub decode_runes : Bytes → Option Bytes
decode_runes [] = some []
decode_runes (a ∷ []) = if ltb a 128 then some (a ∷ []) else none
decode_runes (a ∷ b ∷ []) =
    let tail = decode_runes (b ∷ []) in
    if ltb a 128 then push_rune a tail else push_some (rune_2 a b) (some [])
decode_runes (a ∷ b ∷ c ∷ []) =
    let tail = decode_runes (b ∷ c ∷ []) in
    let tail_2 = decode_runes (c ∷ []) in
    if ltb a 128
    then push_rune a tail
    else if ltb a 224
    then push_some (rune_2 a b) tail_2
    else push_some (rune_3 a b c) (some [])
decode_runes (a ∷ b ∷ c ∷ d ∷ s) =
    let tail = decode_runes (b ∷ c ∷ d ∷ s) in
    let tail_2 = decode_runes (c ∷ d ∷ s) in
    let tail_3 = decode_runes (d ∷ s) in
    let tail_4 = decode_runes s in
    if ltb a 128
    then push_rune a tail
    else if ltb a 224
    then push_some (rune_2 a b) tail_2
    else if ltb a 240
    then push_some (rune_3 a b c) tail_3
    else push_some (rune_4 a b c d) tail_4
