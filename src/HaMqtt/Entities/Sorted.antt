-- ===== src/HaMqtt/Entities/Sorted.antt =====
-- The signals of a zone come in one order, whatever the order of the list and the map is.
use ajax_bridge.Prelude.{
  Bool, true, false, not, ◌&&◌, ◌||◌, List, [], ◌∷◌, Bytes, is_empty, eqb, eqb_iff, eqb_refl, ◌≡◌,
  refl, sym, ap, ◌∙◌, arith, Bool-cases, inl, inr,
}
use ajax_bridge.DeviceCatalog.{one_of}
use ajax_bridge.HaMqtt.Entities.{text_less, insert_signal, insert_signals}

less-irreflexive : (s : Bytes) → text_less s s ≡ false
unfolding text_less
less-irreflexive [] = refl
less-irreflexive (c ∷ s) = ground (arith, less-irreflexive s)

less-transitive :
    (a b c : Bytes) → text_less a b ≡ true → text_less b c ≡ true → text_less a c ≡ true
unfolding text_less
less-transitive a b [] h k = k
less-transitive a [] (z ∷ c) h k = ground arith
less-transitive [] (y ∷ b) (z ∷ c) h k = refl
less-transitive (x ∷ a) (y ∷ b) (z ∷ c) h k = ground (arith, less-transitive a b c)

less-total : (a b : Bytes) → text_less a b ≡ false → eqb a b ≡ false → text_less b a ≡ true
unfolding text_less eqb
less-total [] [] h k = ground arith
less-total [] (y ∷ b) h k = ground arith
less-total (x ∷ a) [] h k = refl
less-total (x ∷ a) (y ∷ b) h k = ground (arith, less-total a b)

abbrev below : Bytes → List Bytes → Bool
below x [] = true
below x (y ∷ s) = text_less x y && below x s

abbrev pub ascending : List Bytes → Bool
ascending [] = true
ascending (x ∷ s) = below x s && ascending s

below-less :
    (x y : Bytes) (s : List Bytes) → text_less x y ≡ true → below y s ≡ true → below x s ≡ true
below-less x y [] h k = refl
below-less x y (z ∷ s) h k = ground (arith, less-transitive x y z, below-less x y s)

below-insert :
    (x a : Bytes) (s : List Bytes)
    → text_less x a ≡ true
    → below x s ≡ true
    → below x (insert_signal a s) ≡ true
unfolding insert_signal
below-insert x a [] h k = ground arith
below-insert x a (y ∷ s) h k = ground (arith, below-insert x a s)

insert-ascending :
    (a : Bytes) (s : List Bytes) → ascending s ≡ true → ascending (insert_signal a s) ≡ true
unfolding insert_signal
insert-ascending a [] h = refl
insert-ascending a (y ∷ s) h = elim (Bool-cases (text_less a y)) [
  | inl t ↦ rw t (ground (arith, below-less a y s))
  | inr f ↦ rw f (elim (Bool-cases (eqb a y)) [
    | inl e ↦ rw e h
    | inr n ↦ rw n (ground (arith, below-insert y a s (less-total a y f n), insert-ascending a s))
  ])
]

one_of-insert :
    (k a : Bytes) (s : List Bytes) → one_of k (insert_signal a s) ≡ (eqb k a || one_of k s)
unfolding insert_signal
one_of-insert k a [] = refl
one_of-insert k a (y ∷ s) =
    ground (arith, one_of-insert k a s, eqb_iff a y, eqb_iff k a, eqb_iff k y)

signals-ascending : (signals : List Bytes) → ascending (insert_signals signals []) ≡ true
unfolding insert_signals
signals-ascending [] = refl
signals-ascending (a ∷ signals) =
    ground (arith, insert-ascending a (insert_signals signals []), signals-ascending signals)

one_of-signals :
    (k : Bytes) (signals : List Bytes)
    → one_of k (insert_signals signals []) ≡ (not (is_empty k) && one_of k signals)
unfolding insert_signals eqb
one_of-signals k [] = ground arith
one_of-signals [] ([] ∷ signals) = one_of-signals [] signals
one_of-signals (d ∷ k) ([] ∷ signals) = one_of-signals (d ∷ k) signals
one_of-signals [] ((c ∷ a) ∷ signals) =
    one_of-insert [] (c ∷ a) (insert_signals signals []) ∙ one_of-signals [] signals
one_of-signals (d ∷ k) ((c ∷ a) ∷ signals) =
    one_of-insert (d ∷ k) (c ∷ a) (insert_signals signals [])
    ∙ ap (λ b. eqb (d ∷ k) (c ∷ a) || b) (one_of-signals (d ∷ k) signals)

below-member :
    (x y : Bytes) (s : List Bytes) → below x s ≡ true → one_of y s ≡ true → text_less x y ≡ true
below-member x y [] h k = ground arith
below-member x y (z ∷ s) h k = ground (arith, eqb_iff y z, below-member x y s)

-- The first of the one and of the other are the same.
heads :
    (x y : Bytes) (s t : List Bytes)
    → below x s ≡ true
    → below y t ≡ true
    → one_of x (y ∷ t) ≡ true
    → one_of y (x ∷ s) ≡ true
    → eqb x y ≡ true
heads x y s t h k m n = elim (Bool-cases (eqb x y)) [
  | inl e ↦ e
  | inr d ↦
      let apart : eqb y x ≡ false = ground (arith, eqb_iff x y, eqb_iff y x) in
      let behind = below-member y x t k (ground arith) in
      let before = below-member x y s h (ground arith) in
      ground (arith, less-transitive x y x before behind, less-irreflexive x)
]

-- A text that is below all is not among them.
outside_tail : (x : Bytes) (s : List Bytes) → below x s ≡ true → one_of x s ≡ false
outside_tail x s h = elim (Bool-cases (one_of x s)) [
  | inl t ↦ ground (arith, below-member x x s h t, less-irreflexive x)
  | inr f ↦ f
]

SameTexts : List Bytes → List Bytes → Type 0
SameTexts s t = (k : Bytes) → one_of k s ≡ one_of k t

tails-SameTexts :
    (x : Bytes) (s t : List Bytes)
    → below x s ≡ true
    → below x t ≡ true
    → SameTexts (x ∷ s) (x ∷ t)
    → SameTexts s t
unfolding SameTexts
tails-SameTexts x s t h k same j = elim (Bool-cases (eqb j x)) [
  | inl e ↦ let is = (eqb_iff j x).0 e in rw is (outside_tail x s h ∙ sym (outside_tail x t k))
  | inr d ↦ ground (arith, same j)
]

-- Two ascending lists with the same members are one list.
ascending_unique :
    (s t : List Bytes) → ascending s ≡ true → ascending t ≡ true → SameTexts s t → s ≡ t
unfolding SameTexts
ascending_unique [] [] h k same = refl
ascending_unique [] (y ∷ t) h k same = ground (arith, same y, eqb_refl y)
ascending_unique (x ∷ s) [] h k same = ground (arith, same x, eqb_refl x)
ascending_unique (x ∷ s) (y ∷ t) h k same =
    let head : x ≡ y = (eqb_iff x y).0 (
      heads x y s t (ground arith) (ground arith) (ground (arith, same x, eqb_refl x))
        (ground (arith, same y, eqb_refl y))) in
    let shared : (j : Bytes) → one_of j (x ∷ s) ≡ one_of j (x ∷ t) = λ j. same j ∙ rw head refl in
    let ordered : ascending (x ∷ t) ≡ true = rw head k in
    let rest : s ≡ t =
      ascending_unique s t (ground arith) (ground arith)
        (tails-SameTexts x s t (ground arith) (ground arith) shared) in
    λ i. head i ∷ rest i

pub signals_unique :
    (s t : List Bytes)
    → ((k : Bytes) → one_of k s ≡ one_of k t)
    → insert_signals s [] ≡ insert_signals t []
unfolding SameTexts
signals_unique s t same =
    ascending_unique (insert_signals s []) (insert_signals t []) (signals-ascending s)
      (signals-ascending t)
      (λ k.
        one_of-signals k s ∙ ap (λ b. not (is_empty k) && b) (same k) ∙ sym (one_of-signals k t))
