-- ===== src/Jeedom/Keys/Settled.antt =====
-- `canonicalCommandKey` leaves the keys that it gives.
use ajax_bridge.Prelude.{
  Bool, true, false, ◌&&◌, none, some, List, [], ◌∷◌, if◌then◌else◌, Bytes, codes, eqb, eqb_iff,
  ◌≡◌, ◌⊎◌, refl, sym, ap, ◌∙◌, arith, Bool-cases, Option-cases, inl, inr,
}
use ajax_bridge.DeviceCatalog.{one_of}
use ajax_bridge.Text.{contains}
use ajax_bridge.Jeedom.Keys.Table.{key_rows}
use ajax_bridge.Jeedom.Keys.{
  contains_all, contains_any, is_fire_detector_key, is_detector_key, is_data_channel_key, first_row,
  or_default, key_cases, first_case, canonical_command_key,
}

-- A key that stands for itself.
abbrev IsCanonical : Bytes → Type 0
IsCanonical key = canonical_command_key key ≡ key

-- The values of the rows that pass.
abbrev rows_pass : (Bytes → Bool) → List (List Bytes × Bytes) → Bool
rows_pass p [] = true
rows_pass p (row ∷ rows) = p row.1 && rows_pass p rows

first_row-pass :
    (p : Bytes → Bool) (key v : Bytes) (rows : List (List Bytes × Bytes))
    → rows_pass p rows ≡ true
    → first_row key rows ≡ some v
    → p v ≡ true
unfolding first_row
first_row-pass p key v [] h e = ground arith
first_row-pass p key v ((names, a) ∷ rows) h e = elim (Bool-cases (one_of key names)) [
  | inl t ↦ ground arith
  | inr f ↦ ground (arith, first_row-pass p key v rows)
]

abbrev stands : Bytes → Bool
stands v = eqb (canonical_command_key v) v

key_rows-stand : rows_pass stands key_rows ≡ true
unfolding canonical_command_key first_row key_rows key_cases first_case eqb contains_all contains
    contains_any is_fire_detector_key is_detector_key is_data_channel_key
key_rows-stand = refl

-- The values of the cases that pass.
abbrev cases_pass : (Bytes → Bool) → List (Bool × Bytes) → Bool
cases_pass p [] = true
cases_pass p (c ∷ cases) = p c.1 && cases_pass p cases

key_cases-stand : (key : Bytes) → cases_pass stands (key_cases key) ≡ true
unfolding canonical_command_key first_row key_rows key_cases first_case eqb contains_all contains
    contains_any is_fire_detector_key is_detector_key is_data_channel_key
key_cases-stand key =
    elim (Bool-cases (contains_any key (codes "battery" ∷ codes "batterie" ∷ []))) [
      | inl t ↦
          ap
            (λ (b : Bool).
              stands (if b then codes "batterychargerfaults" else codes "chargerfaults") && true)
            t
      | inr f ↦
          ap
            (λ (b : Bool).
              stands (if b then codes "batterychargerfaults" else codes "chargerfaults") && true)
            f
    ]

first_case-pass :
    (p : Bytes → Bool) (key : Bytes) (cases : List (Bool × Bytes))
    → cases_pass p cases ≡ true
    → (p (first_case key cases) ≡ true) ⊎ (first_case key cases ≡ key)
unfolding first_case
first_case-pass p key [] h = inr refl
first_case-pass p key ((true, b) ∷ cases) h = inl (ground arith)
first_case-pass p key ((false, b) ∷ cases) h = first_case-pass p key cases (ground arith)

stood : (v : Bytes) → stands v ≡ true → IsCanonical v
stood v h = (eqb_iff (canonical_command_key v) v).0 h

unlisted :
    (key : Bytes)
    → first_row key key_rows ≡ none
    → canonical_command_key key ≡ first_case key (key_cases key)
unfolding canonical_command_key
unlisted key n = ap (or_default (first_case key (key_cases key))) n

listed : (key v : Bytes) → first_row key key_rows ≡ some v → canonical_command_key key ≡ v
unfolding canonical_command_key
listed key v e = ap (or_default (first_case key (key_cases key))) e

-- The canonical key of a command is its own canonical key: no row and no pattern takes a key that
-- another one gives any further.
pub canonical_command_key-again :
    (key : Bytes) → canonical_command_key (canonical_command_key key) ≡ canonical_command_key key
canonical_command_key-again key = elim (Option-cases (first_row key key_rows)) [
  | inl n ↦
      let whole = unlisted key n in
      elim (first_case-pass stands key (key_cases key) (key_cases-stand key)) [
        | inl t ↦ ap canonical_command_key whole ∙ stood _ t ∙ sym whole
        | inr same ↦ ap canonical_command_key (whole ∙ same)
      ]
  | inr (v, e) ↦
      let whole = listed key v e in
      ap canonical_command_key whole
      ∙ stood v (first_row-pass stands key v key_rows key_rows-stand e)
      ∙ sym whole
]
