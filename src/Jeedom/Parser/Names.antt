-- ===== src/Jeedom/Parser/Names.antt =====
-- The loop of `ParseHumanName`: it ends, and it takes apart what has the form of a human name.
use ajax_bridge.Prelude.{
  ℕ, zero, suc, ◌+◌, ◌≤◌, Bool, true, false, not, some, [], ◌∷◌, ◌++◌, ◌==◌, Bytes, all, length,
  append_assoc, ◌≡◌, refl, sym, ap, ◌∙◌, arith, Bool-cases, Option-cases, inl, inr,
}
use ajax_bridge.Text.{cut}
use ajax_bridge.Text.Trim.{trim-kept}
use ajax_bridge.Jeedom.Runes.{trim_runes, is_space_rune}
use ajax_bridge.Jeedom.Parser.{
  Parts, unfinished, malformed, parts, push_to, name_parts, three_parts, parse_human_name,
}

-- Behind a separator there is less than the text.
cut-shorter : (sep : ℕ) (s a b : Bytes) → cut sep s ≡ some (a, b) → length b + 1 ≤ length s
unfolding cut
cut-shorter sep [] a b h = ground arith
cut-shorter sep (c ∷ s) a b h = elim (Bool-cases (c == sep)) [
  | inl t ↦ ground arith
  | inr f ↦ elim (Option-cases (cut sep s)) [
    | inl n ↦ ground arith
    | inr ((a', b'), e) ↦ ground (arith, cut-shorter sep s a' b' e)
  ]
]

abbrev pub is_done : Parts → Bool
is_done unfinished = false
is_done malformed = true
is_done (parts ps) = true

is_done-push : (part : Bytes) (r : Parts) → is_done r ≡ true → is_done (push_to part r) ≡ true
is_done-push part unfinished h = h
is_done-push part malformed h = refl
is_done-push part (parts ps) h = refl

-- With a turn for each character the loop of `ParseHumanName` ends on every text: it takes the text
-- apart or returns the error.
pub name_parts-done :
    (turns : ℕ) (s : Bytes) → length s ≤ turns → is_done (name_parts turns s) ≡ true
unfolding name_parts
name_parts-done turns [] h = refl
name_parts-done zero (c ∷ s) h = ground arith
name_parts-done (suc turns) (c ∷ s) h = elim (Bool-cases (c == b'[')) [
  | inr f ↦ rw f refl
  | inl t ↦ rw t (elim (Option-cases (cut b']' s)) [
    | inl n ↦ rw n refl
    | inr ((part, rest), e) ↦ rw e (
        is_done-push part (name_parts turns rest)
          (name_parts-done turns rest (ground (arith, cut-shorter b']' s part rest e))))
  ])
]

-- Without a "]".
abbrev pub IsPart : Bytes → Type 0
IsPart s = all (λ c. not (c == b']')) s ≡ true

cut-part : (s rest : Bytes) → IsPart s → cut b']' (s ++ (b']' ∷ rest)) ≡ some (s, rest)
unfolding cut
cut-part [] rest h = refl
cut-part (c ∷ s) rest h = ground (arith, cut-part s rest)

-- A part in its brackets, in front of the rest.
abbrev bracketed : Bytes → Bytes → Bytes
bracketed s rest = b'[' ∷ (s ++ (b']' ∷ rest))

name_parts-bracketed :
    (turns : ℕ) (s rest : Bytes)
    → IsPart s
    → name_parts (suc turns) (bracketed s rest) ≡ push_to s (name_parts turns rest)
unfolding name_parts
name_parts-bracketed turns s rest h = rw (cut-part s rest h) refl

-- "[a][b][c]"
abbrev pub human_name : Bytes → Bytes → Bytes → Bytes
human_name a b c = bracketed a (bracketed b (bracketed c []))

name_parts-human_name :
    (turns : ℕ) (a b c : Bytes)
    → 3 ≤ turns
    → IsPart a
    → IsPart b
    → IsPart c
    → name_parts turns (human_name a b c) ≡ parts (a ∷ b ∷ c ∷ [])
unfolding name_parts
name_parts-human_name zero a b c l ha hb hc = ground arith
name_parts-human_name (suc zero) a b c l ha hb hc = ground arith
name_parts-human_name (suc (suc zero)) a b c l ha hb hc = ground arith
name_parts-human_name (suc (suc (suc turns))) a b c l ha hb hc =
    name_parts-bracketed (suc (suc turns)) a (bracketed b (bracketed c [])) ha
    ∙ ap (push_to a) (
        name_parts-bracketed (suc turns) b (bracketed c []) hb
        ∙ ap (push_to b) (name_parts-bracketed turns c [] hc))

length-bracketed : (s rest : Bytes) → length rest + 1 ≤ length (bracketed s rest)
length-bracketed [] rest = ground arith
length-bracketed (c ∷ s) rest = ground (arith, length-bracketed s rest)

ends_closed :
    (a b c : Bytes)
    → human_name a b c ≡ b'[' ∷ ((a ++ (b']' ∷ b'[' ∷ (b ++ (b']' ∷ b'[' ∷ c)))) ++ (b']' ∷ []))
ends_closed a b c = rw (append_assoc a _ _, append_assoc b _ _) refl

trim_runes-human_name : (a b c : Bytes) → trim_runes (human_name a b c) ≡ human_name a b c
unfolding trim_runes is_space_rune
trim_runes-human_name a b c =
    ap trim_runes (ends_closed a b c)
    ∙ trim-kept is_space_rune b'[' (a ++ (b']' ∷ b'[' ∷ (b ++ (b']' ∷ b'[' ∷ c)))) b']' refl refl
    ∙ sym (ends_closed a b c)

human_name-long : (a b c : Bytes) → 3 ≤ length (human_name a b c)
human_name-long a b c = ground (
  arith,
  length-bracketed a (bracketed b (bracketed c [])),
  length-bracketed b (bracketed c []),
  length-bracketed c [],
)

-- The parser takes a human name apart again: the three parts in their brackets give the parts without
-- the spaces around them, if there is no "]" inside a part.
pub parse_human_name-human_name :
    (a b c : Bytes)
    → IsPart a
    → IsPart b
    → IsPart c
    → parse_human_name (human_name a b c) ≡ some (trim_runes a, (trim_runes b, trim_runes c))
unfolding parse_human_name
parse_human_name-human_name a b c ha hb hc = rw (trim_runes-human_name a b c) (
    ap three_parts
      (name_parts-human_name (length (human_name a b c)) a b c (human_name-long a b c) ha hb hc))
