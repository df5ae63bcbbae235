-- ===== src/Jeedom/Values/Polarity.antt =====
-- A word that two classes of entities read differently is read the opposite way.
use ajax_bridge.Prelude.{
  Bool, true, false, not, ◌&&◌, ◌||◌, Option, none, some, List, [], ◌∷◌, Bytes, codes, eqb, eqb_iff,
  ◌≡◌, refl, ap, ◌∙◌, arith, Bool-cases, Option-cases, inl, inr,
}
use ajax_bridge.DeviceCatalog.{one_of}
use ajax_bridge.Jeedom.Electrical.{Mapping}
use ajax_bridge.Jeedom.Values.{
  Reader, problem_of_token, connectivity_of_token, bool_of_class, bool_enum_token, class_of_text,
  bool_raw_value, bool_raw_value_for_mapping, empty_raw_value,
}

abbrev all_pass : (Bytes → Bool) → List Bytes → Bool
all_pass p [] = true
all_pass p (w ∷ ws) = p w && all_pass p ws

member-pass :
    (p : Bytes → Bool) (k : Bytes) (ws : List Bytes)
    → all_pass p ws ≡ true
    → one_of k ws ≡ true
    → p k ≡ true
member-pass p k [] h m = ground arith
member-pass p k (w ∷ ws) h m = elim (Bool-cases (eqb k w)) [
  | inl t ↦ ap p ((eqb_iff k w).0 t) ∙ ground arith
  | inr f ↦ member-pass p k ws (ground arith) (ground arith)
]

-- The words of a problem and those of its absence.
abbrev faults : List Bytes
faults =
    codes "FAULT"
    ∷ codes "FAILED"
    ∷ codes "FAILURE"
    ∷ codes "ERROR"
    ∷ codes "DEFAUT"
    ∷ codes "ECHEC"
    ∷ []

abbrev fine : List Bytes
fine = codes "OK" ∷ codes "NORMAL" ∷ codes "HEALTHY" ∷ codes "NO_FAULT" ∷ codes "NOT_FAILED" ∷ []

abbrev says : Bool → Option Bool → Bool
says b none = false
says true (some c) = c
says false (some c) = not c

faults-unconnected : all_pass (λ w. not (says true (connectivity_of_token w))) faults ≡ true
unfolding connectivity_of_token eqb
faults-unconnected = refl

fine-connected : all_pass (λ w. not (says false (connectivity_of_token w))) fine ≡ true
unfolding connectivity_of_token eqb
fine-connected = refl

says-not : (b c : Bool) (o : Option Bool) → o ≡ some c → not (says b o) ≡ true → c ≡ not b
says-not true true o e h = ground arith
says-not true false o e h = refl
says-not false true o e h = refl
says-not false false o e h = ground arith

token-opposite :
    (token : Bytes) (a b : Bool)
    → problem_of_token token ≡ some a
    → connectivity_of_token token ≡ some b
    → b ≡ not a
unfolding problem_of_token
token-opposite token a b h k = elim (Bool-cases (one_of token faults)) [
  | inl t ↦
      let against = says-not true b (connectivity_of_token token) k (
        member-pass (λ w. not (says true (connectivity_of_token w))) token faults faults-unconnected
          t) in
      ground (arith, against)
  | inr f ↦ elim (Bool-cases (one_of token fine)) [
    | inl t ↦
        let against = says-not false b (connectivity_of_token token) k (
          member-pass (λ w. not (says false (connectivity_of_token w))) token fine fine-connected
            t) in
        ground (arith, against)
    | inr g ↦ ground arith
  ]
]

module _ (reader : Reader) (value : Bytes) (undecided : bool_raw_value reader value ≡ none) where
  by_class :
      (m : Mapping) (x : Bool)
      → bool_raw_value_for_mapping reader value m ≡ some x
      → class_of_text reader m.device_class (reader.text value) ≡ some x
  unfolding bool_raw_value_for_mapping
  by_class m x h = elim (Bool-cases (not m.binary || empty_raw_value reader value)) [
    | inl t ↦ ground (arith, rw (undecided, t) at h)
    | inr f ↦ rw (undecided, f) at h
  ]

-- Where a value is true or false by the class of its entity alone, a problem sensor and a connectivity
-- sensor read it in opposite ways, if both read it at all.
pub problem-connectivity_opposite :
    (reader : Reader) (value : Bytes) (problem connected : Mapping) (a b : Bool)
    → bool_raw_value reader value ≡ none
    → problem.device_class ≡ codes "problem"
    → connected.device_class ≡ codes "connectivity"
    → bool_raw_value_for_mapping reader value problem ≡ some a
    → bool_raw_value_for_mapping reader value connected ≡ some b
    → b ≡ not a
unfolding bool_of_class eqb
problem-connectivity_opposite reader value problem connected a b undecided p c h k =
    let first = by_class reader value undecided problem a h in
    let second = by_class reader value undecided connected b k in
    elim (Option-cases (reader.text value)) [
      | inl n ↦ ground (arith, rw n at first)
      | inr (text, e) ↦
          token-opposite (bool_enum_token reader text) a b (rw (e, p) at first)
            (rw (e, c) at second)
    ]
