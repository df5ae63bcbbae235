-- ===== src/Dict.antt =====
-- Go's maps with string keys, as association lists. A range over a map takes its entries in the order
-- of this list; Go leaves the order open.
use ajax_bridge.Prelude.{
  Bool, false, ◌||◌, Option, none, some, List, [], ◌∷◌, if◌then◌else◌, Bytes, eqb, eqb_iff,
  eqb_refl, ◌≡◌, refl, arith, Bool-cases, inl, inr,
}

abbrev pub Dict {ℓ} : Type ℓ → Type ℓ
Dict V = List (Bytes × V)

module _ {ℓ} {V : Type ℓ} where
  -- m[k], with the test whether it is there
  unfoldable pub get : Bytes → Dict V → Option V
  get k [] = none
  get k ((j, v) ∷ m) = if eqb j k then some v else get k m

  -- m[k] = v
  unfoldable pub put : Bytes → V → Dict V → Dict V
  put k v [] = (k, v) ∷ []
  put k v ((j, w) ∷ m) = if eqb j k then (j, v) ∷ m else (j, w) ∷ put k v m

  -- delete(m, k)
  unfoldable pub delete : Bytes → Dict V → Dict V
  delete k [] = []
  delete k ((j, v) ∷ m) = let rest = delete k m in if eqb j k then rest else (j, v) ∷ rest

  -- A loop that gives each value anew.
  unfoldable pub map_values : (V → V) → Dict V → Dict V
  map_values f [] = []
  map_values f ((j, v) ∷ m) = (j, f v) ∷ map_values f m

  -- Some value passes.
  unfoldable pub any_value : (V → Bool) → Dict V → Bool
  any_value p [] = false
  any_value p ((j, v) ∷ m) = p v || any_value p m

  abbrev pub holds : (V → Bool) → Option V → Bool
  holds p none = false
  holds p (some v) = p v

  abbrev pub map_option : (V → V) → Option V → Option V
  map_option f none = none
  map_option f (some v) = some (f v)

module _ {ℓ} {V : Type ℓ} where
  pub get-put :
      (k j : Bytes) (v : V) (m : Dict V) → get j (put k v m) ≡ (if eqb k j then some v else get j m)
  unfolding get put
  get-put k j v [] = refl
  get-put k j v ((i, w) ∷ m) =
      ground (arith, get-put k j v m, eqb_iff i k, eqb_iff i j, eqb_iff k j)

  pub get-put_self : (k : Bytes) (v : V) (m : Dict V) → get k (put k v m) ≡ some v
  get-put_self k v m = rw (get-put k k v m, eqb_refl k)

  pub get-delete :
      (k j : Bytes) (m : Dict V) → get j (delete k m) ≡ (if eqb k j then none else get j m)
  unfolding get delete
  get-delete k j [] = ground arith
  get-delete k j ((i, w) ∷ m) =
      ground (arith, get-delete k j m, eqb_iff i k, eqb_iff i j, eqb_iff k j)

  pub get-map_values :
      (f : V → V) (k : Bytes) (m : Dict V) → get k (map_values f m) ≡ map_option f (get k m)
  unfolding get map_values
  get-map_values f k [] = refl
  get-map_values f k ((j, v) ∷ m) = elim (Bool-cases (eqb j k)) [
    | inl e ↦ rw e
    | inr e ↦ rw e (get-map_values f k m)
  ]

  -- A write between values that do not pass changes no test.
  pub any_value-put :
      (p : V → Bool) (k : Bytes) (v : V) (m : Dict V)
      → p v ≡ false
      → holds p (get k m) ≡ false
      → any_value p (put k v m) ≡ any_value p m
  unfolding get put any_value
  any_value-put p k v [] h g = rw h
  any_value-put p k v ((j, w) ∷ m) h g = elim (Bool-cases (eqb j k)) [
    | inl e ↦ let w_fails : p w ≡ false = rw (e, get) at g in rw e (rw (h, w_fails))
    | inr e ↦
        let rest : holds p (get k m) ≡ false = rw (e, get) at g in
        rw e (rw (any_value-put p k v m h rest))
  ]
