-- ===== src/Text/Trim.antt =====
-- What trimming keeps.
use ajax_bridge.Prelude.{
  ℕ, Bool, true, false, not, all, map, is_empty, [], ◌∷◌, ◌++◌, ◌≡◌, ◌⊎◌, refl, arith, Bytes, ◌∙◌,
  ap, sym, append_assoc,
}
use ajax_bridge.Text.{trim_left, keep_right, trim_right, trim}

module _ (p : ℕ → Bool) where
  pub trim_left-kept : (c : ℕ) (s : Bytes) → p c ≡ false → trim_left p (c ∷ s) ≡ c ∷ s
  unfolding trim_left
  trim_left-kept c s h = rw h

  pub trim_left-cut : (c : ℕ) (s : Bytes) → p c ≡ true → trim_left p (c ∷ s) ≡ trim_left p s
  unfolding trim_left
  trim_left-cut c s h = rw h

  pub trim_right-kept : (s : Bytes) (c : ℕ) → p c ≡ false → trim_right p (s ++ c ∷ []) ≡ s ++ c ∷ []
  unfolding trim_right
  trim_right-kept [] c h = rw h
  trim_right-kept (d ∷ []) c h = ap (keep_right p d) (trim_right-kept [] c h)
  trim_right-kept (d ∷ e ∷ s) c h = ap (keep_right p d) (trim_right-kept (e ∷ s) c h)

  trim_right-cut : (s : Bytes) (c : ℕ) → p c ≡ true → trim_right p (s ++ c ∷ []) ≡ trim_right p s
  unfolding trim_right
  trim_right-cut [] c h = rw h
  trim_right-cut (d ∷ s) c h = ap (keep_right p d) (trim_right-cut s c h)

  -- A text whose first and last bytes stay.
  pub trim-kept :
      (c : ℕ) (s : Bytes) (d : ℕ)
      → p c ≡ false
      → p d ≡ false
      → trim p (c ∷ (s ++ d ∷ [])) ≡ c ∷ (s ++ d ∷ [])
  unfolding trim
  trim-kept c s d h k =
      ap (trim_right p) (trim_left-kept c (s ++ d ∷ []) h) ∙ trim_right-kept (c ∷ s) d k

  -- One byte to cut at each end.
  pub trim-framed :
      (a c : ℕ) (s : Bytes) (d z : ℕ)
      → p a ≡ true
      → p z ≡ true
      → p c ≡ false
      → p d ≡ false
      → trim p (a ∷ c ∷ (s ++ d ∷ z ∷ [])) ≡ c ∷ (s ++ d ∷ [])
  unfolding trim
  trim-framed a c s d z ha hz hc hd =
      ap (trim_right p)
        (trim_left-cut a (c ∷ (s ++ d ∷ z ∷ [])) ha ∙ trim_left-kept c (s ++ d ∷ z ∷ []) hc)
      ∙ ap (λ (t : Bytes). trim_right p (c ∷ t)) (sym (append_assoc s (d ∷ []) (z ∷ [])))
      ∙ trim_right-cut (c ∷ (s ++ d ∷ [])) z hz
      ∙ trim_right-kept (c ∷ s) d hd

  pub trim_right-untouched : (s : Bytes) → all (λ c. not (p c)) s ≡ true → trim_right p s ≡ s
  unfolding trim_right
  trim_right-untouched [] h = refl
  trim_right-untouched (c ∷ []) h = ground arith
  trim_right-untouched (c ∷ d ∷ s) h =
      ap (keep_right p c) (trim_right-untouched (d ∷ s) (ground arith))

  trim_left-untouched : (s : Bytes) → all (λ c. not (p c)) s ≡ true → trim_left p s ≡ s
  unfolding trim_left
  trim_left-untouched [] h = refl
  trim_left-untouched (c ∷ s) h = trim_left-kept c s (ground arith)

  -- A text with nothing to cut.
  pub trim-untouched : (s : Bytes) → all (λ c. not (p c)) s ≡ true → trim p s ≡ s
  unfolding trim
  trim-untouched s h = ap (trim_right p) (trim_left-untouched s h) ∙ trim_right-untouched s h

  again-keep_right :
      (c : ℕ) (t : Bytes) → trim_right p t ≡ t → trim_right p (keep_right p c t) ≡ keep_right p c t
  unfolding trim_right
  again-keep_right c [] h = ground arith
  again-keep_right c (d ∷ t) h = ap (keep_right p c) h

  -- Trimming a second time changes nothing.
  pub trim_right-again : (s : Bytes) → trim_right p (trim_right p s) ≡ trim_right p s
  unfolding trim_right
  trim_right-again [] = refl
  trim_right-again (c ∷ s) = again-keep_right c (trim_right p s) (trim_right-again s)

  -- The first byte, if there is one, stays.
  starts : Bytes → Bool
  starts [] = true
  starts (c ∷ s) = not (p c)

  starts-trim_left : (s : Bytes) → starts (trim_left p s) ≡ true
  unfolding trim_left starts
  starts-trim_left [] = refl
  starts-trim_left (c ∷ s) = ground (arith, starts-trim_left s)

  starts-keep_right : (c : ℕ) (t : Bytes) → starts (keep_right p c t) ≡ true ⊎ (p c ≡ true)
  unfolding starts
  starts-keep_right c [] = ground arith
  starts-keep_right c (d ∷ t) = ground arith

  starts-trim_right : (s : Bytes) → starts s ≡ true → starts (trim_right p s) ≡ true
  unfolding trim_right starts
  starts-trim_right [] h = refl
  starts-trim_right (c ∷ s) h = ground (arith, starts-keep_right c (trim_right p s))

  trim_left-starts : (s : Bytes) → starts s ≡ true → trim_left p s ≡ s
  unfolding trim_left starts
  trim_left-starts [] h = refl
  trim_left-starts (c ∷ s) h = ground arith

  pub trim-again : (s : Bytes) → trim p (trim p s) ≡ trim p s
  unfolding trim
  trim-again s =
      let first = starts-trim_right (trim_left p s) (starts-trim_left s) in
      ap (trim_right p) (trim_left-starts (trim_right p (trim_left p s)) first)
      ∙ trim_right-again (trim_left p s)

  -- A text behind another that keeps its end.
  pub trim_right-append :
      (xs ys : Bytes)
      → is_empty ys ≡ false
      → trim_right p ys ≡ ys
      → trim_right p (xs ++ ys) ≡ xs ++ ys
  unfolding trim_right
  trim_right-append [] ys n h = h
  trim_right-append (c ∷ []) [] n h = ground arith
  trim_right-append (c ∷ []) (d ∷ ys) n h = ap (keep_right p c) h
  trim_right-append (c ∷ d ∷ xs) ys n h = ap (keep_right p c) (trim_right-append (d ∷ xs) ys n h)

  -- Trimming and a change of the bytes that keeps what is cut away.
  module _ (f : ℕ → ℕ) (same : (c : ℕ) → p (f c) ≡ p c) where
    trim_left-map : (s : Bytes) → trim_left p (map f s) ≡ map f (trim_left p s)
    unfolding trim_left
    trim_left-map [] = refl
    trim_left-map (c ∷ s) = ground (arith, same c, trim_left-map s)

    keep_right-map : (c : ℕ) (t : Bytes) → keep_right p (f c) (map f t) ≡ map f (keep_right p c t)
    keep_right-map c [] = ground (arith, same c)
    keep_right-map c (d ∷ t) = refl

    trim_right-map : (s : Bytes) → trim_right p (map f s) ≡ map f (trim_right p s)
    unfolding trim_right
    trim_right-map [] = refl
    trim_right-map (c ∷ s) =
        ap (keep_right p (f c)) (trim_right-map s) ∙ keep_right-map c (trim_right p s)

    pub trim-map : (s : Bytes) → trim p (map f s) ≡ map f (trim p s)
    unfolding trim
    trim-map s = ap (trim_right p) (trim_left-map s) ∙ trim_right-map (trim_left p s)
