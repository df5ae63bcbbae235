-- ===== src/Sia/Content/Xdata.antt =====
-- The extended data of a frame is split without loss, and completely.
use mathlib.Core.Path.{ap₂}
use ajax_bridge.Prelude.{
  ℕ, zero, suc, ◌≤◌, ◌<◌, none, some, [], ◌∷◌, ◌++◌, ◌==◌, ==_iff, Bytes, length, length-append,
  ◌≡◌, ◌≢◌, refl, sym, ap, ◌∙◌, arith, Bool-cases, Option-cases, inl, inr, ◌⊎◌,
}
use ajax_bridge.Text.{cut}
use ajax_bridge.Sia.Content.{
  xdata_entry, xdata_loop, parse_xdata_trailer, with_trailer, rebuild_entries, rebuild_raw_payload,
}

-- The two parts of a cut and the separator make up the text.
pub cut-append :
    (sep : ℕ) (s : Bytes) {before behind : Bytes}
    → cut sep s ≡ some (before, behind)
    → s ≡ before ++ (sep ∷ behind)
unfolding cut
cut-append sep [] h = cc
cut-append sep (c ∷ s) h = elim (Option-cases (cut sep s)) [
  | inl e ↦ ground (arith, e)
  | inr (p, e) ↦ ground (arith, e, cut-append sep s e)
]

rebuild-xdata_loop :
    (fuel : ℕ) (s : Bytes) → rebuild_entries (xdata_loop fuel s).0 (xdata_loop fuel s).1 ≡ s
unfolding xdata_loop rebuild_entries xdata_entry
rebuild-xdata_loop zero s = refl
rebuild-xdata_loop (suc fuel) [] = refl
rebuild-xdata_loop (suc fuel) (c ∷ s) = elim (Bool-cases (c == b'[')) [
  | inr e ↦ rw e
  | inl e ↦ elim (Option-cases (cut b']' s)) [
    | inl n ↦ rw (e, n)
    | inr (p, m) ↦
        rw (e, m)
          (ap (λ (t : Bytes). b'[' ∷ (p.0 ++ (b']' ∷ t))) (rebuild-xdata_loop fuel p.1)
            ∙ ap₂ ◌∷◌ (sym ((==_iff c b'[').0 e)) (sym (cut-append b']' s m)))
  ]
]

-- A text with no further entry in front: it begins with no `[`, or with one that is not closed.
abbrev pub IsTrailer : Bytes → Type 0
IsTrailer [] = Unit
IsTrailer (c ∷ s) = (c ≢ b'[') ⊎ (cut b']' s ≡ none)

cut-shorter :
    (sep : ℕ) (s : Bytes) {before behind : Bytes}
    → cut sep s ≡ some (before, behind)
    → length behind < length s
cut-shorter sep s {before} {behind} h =
    omega (arith, ap length (cut-append sep s h), length-append before (sep ∷ behind))

xdata_loop-IsTrailer : (fuel : ℕ) (s : Bytes) → length s ≤ fuel → IsTrailer (xdata_loop fuel s).1
unfolding xdata_loop
xdata_loop-IsTrailer zero [] h = tt
xdata_loop-IsTrailer zero (c ∷ s) h = absurd (omega arith)
xdata_loop-IsTrailer (suc fuel) [] h = tt
xdata_loop-IsTrailer (suc fuel) (c ∷ s) h = elim (Bool-cases (c == b'[')) [
  | inr e ↦ rw e (inl (ground arith))
  | inl e ↦ elim (Option-cases (cut b']' s)) [
    | inl n ↦ rw (e, n) (inr n)
    | inr (p, m) ↦ rw (e, m) (xdata_loop-IsTrailer fuel p.1 (omega (arith, cut-shorter b']' s m)))
  ]
]

-- For every text behind a content: the entries and the trailer that `parseXDataTrailer` returns
-- make up the text again in `rebuildRawPayload`, and the loop ends by its own test: the trailer
-- begins with no further closed bracket.
pub parse_xdata_trailer_complete :
    (text value : Bytes)
    → (rebuild_raw_payload (with_trailer text value) ≡ text ++ value)
      × IsTrailer (with_trailer text value).trailer
unfolding with_trailer parse_xdata_trailer rebuild_raw_payload
parse_xdata_trailer_complete text value = (
  ap (λ (t : Bytes). text ++ t) (rebuild-xdata_loop (length value) value),
  xdata_loop-IsTrailer (length value) value (omega arith),
)
