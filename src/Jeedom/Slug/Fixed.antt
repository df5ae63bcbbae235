-- ===== src/Jeedom/Slug/Fixed.antt =====
-- What `Slug` gives, and that it leaves such a text as it is.
use ajax_bridge.Prelude.{
  ℕ, ◌<◌, ◌≤◌, Bool, true, false, not, ◌&&◌, ◌||◌, none, some, List, [], ◌∷◌, ◌++◌, ◌==◌, leb, ltb,
  if◌then◌else◌, Bytes, codes, all, is_empty, eqb_refl, ◌≡◌, refl, ap, ◌∙◌, arith, Bool-cases, inl,
  inr,
}
use ajax_bridge.Text.{is_upper, trim}
use ajax_bridge.Text.Trim.{trim-untouched}
use ajax_bridge.Notifications.Slug.{is_slug_byte, is_underscore}
use ajax_bridge.Notifications.Slug.Fixed.{steady, steady-false, IsSlug, trim-IsSlug, IsSlug-trim}
use ajax_bridge.Notifications.Config.Settled.{IsDigest, hash-IsSlug, hash-steady}
use ajax_bridge.Jeedom.Runes.{
  elem, between, row_of, latin_rows, rune_or, fold_latin, cyrillic_rows, text_or_nil,
  transliterate_cyrillic, lower_rune, is_far_capital, is_paired_capital, is_space_rune, trim_runes,
}
use ajax_bridge.Jeedom.Utf8.{decode_runes}
use ajax_bridge.Jeedom.Slug.{
  cp1251_bytes, decode_of, decode_cp1251_mojibake, better_text, repair_text, slug_runes, or_hash,
  slug,
}

-- The entries of the rows that pass.
abbrev entries_pass : (Bytes → Bool) → List (Bytes × Bytes) → Bool
entries_pass p [] = true
entries_pass p (row ∷ rows) = p row.1 && entries_pass p rows

row_of-pass :
    (p : Bytes → Bool) (r : ℕ) (rows : List (Bytes × Bytes))
    → p [] ≡ true
    → entries_pass p rows ≡ true
    → p (text_or_nil (row_of r rows)) ≡ true
row_of-pass p r [] e h = e
row_of-pass p r ((cs, t) ∷ rows) e h = elim (Bool-cases (elem r cs)) [
  | inl t ↦ rw t (ground arith)
  | inr f ↦ rw f (row_of-pass p r rows e (ground arith))
]

-- Cyrillic letters are written as Latin letters and digits.
transliterated : (r : ℕ) → all is_slug_byte (transliterate_cyrillic r) ≡ true
unfolding transliterate_cyrillic cyrillic_rows
transliterated r = row_of-pass (all is_slug_byte) r cyrillic_rows refl refl

steady-append :
    (b : Bool) (t s : Bytes)
    → is_empty t ≡ false
    → all is_slug_byte t ≡ true
    → steady false s ≡ true
    → steady b (t ++ s) ≡ true
unfolding steady
steady-append b [] s e h k = ground arith
steady-append b (c ∷ []) s e h k = ground arith
steady-append b (c ∷ d ∷ t) s e h k = ground (arith, steady-append false (d ∷ t) s)

parted : (b : Bool) (s : Bytes) → steady true s ≡ true → steady b (if b then s else b'_' ∷ s) ≡ true
unfolding steady
parted true s h = h
parted false s h = h

slug_runes-steady : (b : Bool) (rs : Bytes) → steady b (slug_runes b rs) ≡ true
unfolding slug_runes steady
slug_runes-steady b [] = refl
slug_runes-steady b (r ∷ rs) =
    let c = lower_rune (fold_latin r) in
    elim (Bool-cases (is_slug_byte c)) [
      | inl t ↦ rw t (rw t (slug_runes-steady false rs))
      | inr f ↦ rw f (elim (Bool-cases (is_empty (transliterate_cyrillic c))) [
        | inr g ↦ rw g (
            steady-append b (transliterate_cyrillic c) (slug_runes false rs) g (transliterated c)
              (slug_runes-steady false rs))
        | inl t ↦ rw t (parted b (slug_runes true rs) (slug_runes-steady true rs))
      ])
    ]

module _ (short_hash : Bytes → Bytes) (digest : IsDigest short_hash) where
  -- Every name has a slug: it is made of small letters, digits and single underscores, none in front
  -- and none at the end, and it is not empty, if SHA-1 gives hexadecimal digits.
  pub slug-IsSlug :
      (s : Bytes) → IsSlug (slug short_hash s) × (is_empty (slug short_hash s) ≡ false)
  unfolding slug steady
  slug-IsSlug s =
      let out = trim is_underscore (slug_runes false (repair_text (trim_runes s))) in
      elim (Bool-cases (is_empty out)) [
        | inl t ↦ rw t (
          hash-IsSlug short_hash digest (codes "dev_") (trim_runes s)
              (hash-steady short_hash digest (trim_runes s)),
          refl,
        )
        | inr f ↦ rw f (trim-IsSlug _ (slug_runes-steady false (repair_text (trim_runes s))), f)
      ]

-- The runes of the rows are no ASCII.
abbrev rows_high {ℓ} : {A : Type ℓ} → List (Bytes × A) → Bool
rows_high [] = true
rows_high (row ∷ rows) = all (λ r. leb 128 r) row.0 && rows_high rows

elem-high : (r : ℕ) (cs : Bytes) → r < 128 → all (λ r. leb 128 r) cs ≡ true → elem r cs ≡ false
elem-high r [] l h = refl
elem-high r (c ∷ cs) l h = ground (arith, elem-high r cs)

row_of-ascii :
    {A : Type 0} (r : ℕ) (rows : List (Bytes × A))
    → r < 128
    → rows_high rows ≡ true
    → row_of r rows ≡ none
row_of-ascii r [] l h = refl
row_of-ascii r ((cs, a) ∷ rows) l h =
    rw (elem-high r cs l (ground arith)) (row_of-ascii r rows l (ground arith))

fold_latin-ascii : (r : ℕ) → r < 128 → fold_latin r ≡ r
unfolding fold_latin latin_rows
fold_latin-ascii r l = ap (rune_or r) (row_of-ascii r latin_rows l refl)

transliterate-ascii : (r : ℕ) → r < 128 → transliterate_cyrillic r ≡ []
unfolding transliterate_cyrillic cyrillic_rows
transliterate-ascii r l = ap text_or_nil (row_of-ascii r cyrillic_rows l refl)

-- Texts of ASCII.
abbrev IsAscii : Bytes → Type 0
IsAscii s = all (λ r. ltb r 128) s ≡ true

cp1251_bytes-ascii : (s : Bytes) → IsAscii s → cp1251_bytes s ≡ some s
unfolding cp1251_bytes
cp1251_bytes-ascii [] h = refl
cp1251_bytes-ascii (c ∷ s) h = ground (arith, cp1251_bytes-ascii s)

decode_runes-ascii : (s : Bytes) → IsAscii s → decode_runes s ≡ some s
unfolding decode_runes
decode_runes-ascii [] h = refl
decode_runes-ascii (a ∷ []) h = ground arith
decode_runes-ascii (a ∷ b ∷ []) h = ground (arith, decode_runes-ascii (b ∷ []))
decode_runes-ascii (a ∷ b ∷ c ∷ []) h = ground (arith, decode_runes-ascii (b ∷ c ∷ []))
decode_runes-ascii (a ∷ b ∷ c ∷ d ∷ s) h = ground (arith, decode_runes-ascii (b ∷ c ∷ d ∷ s))

repair_text-ascii : (s : Bytes) → IsAscii s → trim_runes s ≡ s → repair_text s ≡ s
unfolding repair_text decode_cp1251_mojibake better_text
repair_text-ascii [] h t =
    ap (λ u. if is_empty u then [] else better_text u (decode_of (cp1251_bytes u))) t
repair_text-ascii (c ∷ s) h t =
    ap (λ u. if is_empty u then [] else better_text u (decode_of (cp1251_bytes u))) t
    ∙ ap (λ o. better_text (c ∷ s) (decode_of o)) (cp1251_bytes-ascii (c ∷ s) h)
    ∙ ap (better_text (c ∷ s)) (decode_runes-ascii (c ∷ s) h)
    ∙ rw (eqb_refl (c ∷ s)) refl

steady-IsAscii : (b : Bool) (s : Bytes) → steady b s ≡ true → IsAscii s
unfolding steady
steady-IsAscii b [] h = refl
steady-IsAscii b (c ∷ s) h = ground (arith, steady-IsAscii false s, steady-IsAscii true s)

steady-unspaced :
    (b : Bool) (s : Bytes) → steady b s ≡ true → all (λ c. not (is_space_rune c)) s ≡ true
unfolding steady is_space_rune
steady-unspaced b [] h = refl
steady-unspaced b (c ∷ s) h = ground (arith, steady-unspaced false s, steady-unspaced true s)

far_capital-ascii : (c : ℕ) → c < 128 → is_upper c ≡ false → is_far_capital c ≡ false
unfolding is_far_capital
far_capital-ascii c l h = ground arith

above : (lo hi c : ℕ) → c < 128 → 128 ≤ lo → between lo hi c ≡ false
above lo hi c l h = ground arith

paired_capital-ascii : (c : ℕ) → c < 128 → is_paired_capital c ≡ false
unfolding is_paired_capital
paired_capital-ascii c l = ground (
  arith,
  above 256 303 c l (omega arith),
  above 306 311 c l (omega arith),
  above 330 375 c l (omega arith),
  above 313 328 c l (omega arith),
  above 377 382 c l (omega arith),
)

lower_rune-small : (c : ℕ) → c < 128 → is_upper c ≡ false → lower_rune c ≡ c
unfolding lower_rune
lower_rune-small c l h = rw (far_capital-ascii c l h, paired_capital-ascii c l) (ground arith)

slug_rune : (c : ℕ) → (is_slug_byte c || c == b'_') ≡ true → lower_rune (fold_latin c) ≡ c
slug_rune c h =
    ap lower_rune (fold_latin-ascii c (ground arith))
    ∙ lower_rune-small c (ground arith) (ground arith)

steady-slug_runes : (b : Bool) (s : Bytes) → steady b s ≡ true → slug_runes b s ≡ s
unfolding slug_runes steady
steady-slug_runes b [] h = refl
steady-slug_runes b (c ∷ s) h =
    ground (
      arith,
      slug_rune c,
      transliterate-ascii c,
      steady-slug_runes false s,
      steady-slug_runes true s,
    )

pub IsSlug-trim_runes : (s : Bytes) → IsSlug s → trim_runes s ≡ s
unfolding trim_runes
IsSlug-trim_runes s h = trim-untouched is_space_rune s (steady-unspaced true s h.body)

module _ (short_hash : Bytes → Bytes) where
  pub IsSlug-slug : (s : Bytes) → IsSlug s → is_empty s ≡ false → slug short_hash s ≡ s
  unfolding slug
  IsSlug-slug s h filled =
      let bare = IsSlug-trim_runes s h in
      let repaired : repair_text (trim_runes s) ≡ s =
        ap repair_text bare ∙ repair_text-ascii s (steady-IsAscii true s h.body) bare in
      let out : trim is_underscore (slug_runes false (repair_text (trim_runes s))) ≡ s =
        ap (λ t. trim is_underscore (slug_runes false t)) repaired
        ∙ ap (trim is_underscore) (steady-slug_runes false s (steady-false s h.body))
        ∙ IsSlug-trim s h in
      ap (or_hash short_hash (trim_runes s)) out ∙ rw filled refl

  -- A slug is its own slug, if SHA-1 gives hexadecimal digits: topics and identifiers that are made of
  -- one a second time stay the same.
  pub slug-again :
      (digest : IsDigest short_hash) (s : Bytes)
      → slug short_hash (slug short_hash s) ≡ slug short_hash s
  slug-again digest s =
      let is = slug-IsSlug short_hash digest s in IsSlug-slug (slug short_hash s) is.0 is.1
