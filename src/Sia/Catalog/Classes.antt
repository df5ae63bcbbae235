-- ===== src/Sia/Catalog/Classes.antt =====
-- The classes that `enrichEvent` gives.
use ajax_bridge.Prelude.{
  ℕ, suc, leb, Bool, true, false, Option, none, some, List, [], ◌∷◌, ◌++◌, ◌==◌, if◌then◌else◌,
  Bytes, codes, is_empty, length, all, eqb, eqb_iff, ◌≤◌, ◌≡◌, ◌≢◌, refl, ap, ◌∙◌, arith,
  Bool-cases, inl, inr, or_else,
}
use ajax_bridge.Text.{to_upper, has_prefix}
use ajax_bridge.Event.{Class, unset, unknown, alarm, restore, disarm, Normalized}
use ajax_bridge.Sia.Content.{only_digits, contact_id_qualifier, parse_contact_id}
use ajax_bridge.Sia.Catalog.{
  EventInfo, sia_catalog, cid_catalog, lookup_code, hinted, merge_sia_hints, lookup_event_info,
  fallback_class, apply_info, enrich_event,
}

abbrev passes : (EventInfo → Bool) → Option EventInfo → Bool
passes p none = true
passes p (some info) = p info

-- A test that every row of a table passes holds of what the table gives.
lookup_code-passes :
    (p : EventInfo → Bool) (k : Bytes) (table : List (Bytes × EventInfo))
    → all (λ row. p row.1) table ≡ true
    → passes p (lookup_code k table) ≡ true
unfolding lookup_code
lookup_code-passes p k [] h = refl
lookup_code-passes p k (row ∷ rest) h = ground (arith, lookup_code-passes p k rest)

-- The classes of the tables: none is the zero value or "unknown".
abbrev is_listed : Class → Bool
is_listed unset = false
is_listed unknown = false
is_listed _ = true

abbrev listed : EventInfo → Bool
listed info = is_listed info.class

sia_catalog-listed : (k : Bytes) → passes listed (lookup_code k sia_catalog) ≡ true
unfolding sia_catalog
sia_catalog-listed k = lookup_code-passes listed k sia_catalog refl

cid_catalog-listed : (k : Bytes) → passes listed (lookup_code k cid_catalog) ≡ true
unfolding cid_catalog
cid_catalog-listed k = lookup_code-passes listed k cid_catalog refl

merge_sia_hints-listed :
    (code : Bytes) (info : EventInfo)
    → listed info ≡ true
    → listed (merge_sia_hints code info) ≡ true
unfolding merge_sia_hints
merge_sia_hints-listed code info h = ground arith

hinted-listed :
    (code : Bytes) (o : Option EventInfo)
    → passes listed o ≡ true
    → passes listed (hinted code o) ≡ true
hinted-listed code none h = refl
hinted-listed code (some info) h = merge_sia_hints-listed code info h

or_else-listed :
    (b : Bool) (o o' : Option EventInfo)
    → passes listed o ≡ true
    → passes listed o' ≡ true
    → passes listed (or_else (if b then none else o) o') ≡ true
or_else-listed b o o' h k = ground arith

lookup_event_info-listed : (e : Normalized) → passes listed (lookup_event_info e) ≡ true
unfolding lookup_event_info
lookup_event_info-listed e =
    let cid =
      hinted-listed e.event_code (lookup_code (to_upper e.contact_id) cid_catalog)
        (cid_catalog-listed (to_upper e.contact_id)) in
    let sia = sia_catalog-listed (to_upper e.event_code) in
    or_else-listed (is_empty e.contact_id) _ _ cid sia

apply_info-class :
    (o : Option EventInfo) (e : Normalized)
    → passes listed o ≡ true
    → (apply_info o e).event_class ≢ unset
unfolding apply_info fallback_class
apply_info-class none e h = ground arith
apply_info-class (some info) e h = ground arith

-- Every enriched event has a class: the zero value of `Class` does not reach the state engine.
pub enrich_event-class : (e : Normalized) → (enrich_event e).event_class ≢ unset
unfolding enrich_event
enrich_event-class e = apply_info-class (lookup_event_info e) e (lookup_event_info-listed e)

length-to_upper : (s : Bytes) → length (to_upper s) ≡ length s
unfolding to_upper
length-to_upper [] = refl
length-to_upper (c ∷ s) = ap suc (length-to_upper s)

eqb-length : (a b : Bytes) → length a ≢ length b → eqb a b ≡ false
eqb-length a b ne = elim (Bool-cases (eqb a b)) [
  | inl e ↦ absurd (ne (ap length ((eqb_iff a b).0 e)))
  | inr e ↦ e
]

-- A key longer than every code of a table.
lookup_code-absent :
    (k : Bytes) (table : List (Bytes × EventInfo))
    → all (λ row. length row.0 == 2) table ≡ true
    → length k ≢ 2
    → lookup_code k table ≡ none
unfolding lookup_code
lookup_code-absent k [] h ne = refl
lookup_code-absent k (row ∷ rest) h ne =
    rw (eqb-length row.0 k (ground arith)) (lookup_code-absent k rest (ground arith) ne)

sia_catalog-absent : (k : Bytes) → length k ≢ 2 → lookup_code k sia_catalog ≡ none
unfolding sia_catalog
sia_catalog-absent k = lookup_code-absent k sia_catalog refl

contact_parts :
    (e : Normalized) (data_text : Bytes) (q c a b : ℕ) (rest : Bytes)
    → only_digits data_text ≡ q ∷ c ∷ a ∷ b ∷ rest
    → 5 ≤ length rest
    → ((parse_contact_id e data_text).contact_id ≡ contact_id_qualifier (q ∷ []) ++ c ∷ a ∷ b ∷ [])
      × ((parse_contact_id e data_text).event_code ≡ codes "CID" ++ c ∷ a ∷ b ∷ [])
unfolding parse_contact_id
contact_parts e data_text q c a b rest h l =
    let long : leb 9 (suc (suc (suc (suc (length rest))))) ≡ true = ground arith in
    rw h (rw long (refl, refl))

no_info :
    (e : Normalized)
    → lookup_code (to_upper e.contact_id) cid_catalog ≡ none
    → lookup_code (to_upper e.event_code) sia_catalog ≡ none
    → lookup_event_info e ≡ none
unfolding lookup_event_info
no_info e n m = rw (n, m, lookup_event_info) (ground arith)

apply_none-class : (e : Normalized) → (apply_info none e).event_class ≡ fallback_class e.event_code
unfolding apply_info
apply_none-class e = refl

fallback_class-cid :
    (c : ℕ) (s : Bytes)
    → fallback_class (codes "CID" ++ c ∷ s) ≡ (
        if c == b'1'
        then alarm
        else if c == b'3'
        then restore
        else if c == b'4'
        then disarm
        else unknown)
unfolding fallback_class has_prefix
fallback_class-cid c s = ground arith

unlisted-class :
    (e : Normalized) (c a b : ℕ)
    → e.event_code ≡ codes "CID" ++ c ∷ a ∷ b ∷ []
    → lookup_code (to_upper e.contact_id) cid_catalog ≡ none
    → (enrich_event e).event_class ≡ (
        if c == b'1'
        then alarm
        else if c == b'3'
        then restore
        else if c == b'4'
        then disarm
        else unknown)
unfolding enrich_event
unlisted-class e c a b code n =
    let absent : lookup_code (to_upper e.event_code) sia_catalog ≡ none =
      sia_catalog-absent (to_upper e.event_code)
        (λ x. absurd (omega (arith, length-to_upper e.event_code, ap length code, x))) in
    ap (λ (o : Option EventInfo). (apply_info o e).event_class) (no_info e n absent)
    ∙ apply_none-class e
    ∙ ap fallback_class code
    ∙ fallback_class-cid c (a ∷ b ∷ [])

-- A Contact ID event whose code is in no table is classified by the first digit of its code alone.
-- Its qualifier, which tells an alarm from its restore and arming from disarming, plays no part.
pub unlisted_contact-class :
    (e : Normalized) (data_text : Bytes) (q c a b : ℕ) (rest : Bytes)
    → only_digits data_text ≡ q ∷ c ∷ a ∷ b ∷ rest
    → 5 ≤ length rest
    → lookup_code (to_upper (contact_id_qualifier (q ∷ []) ++ c ∷ a ∷ b ∷ [])) cid_catalog ≡ none
    → (enrich_event (parse_contact_id e data_text)).event_class ≡ (
        if c == b'1'
        then alarm
        else if c == b'3'
        then restore
        else if c == b'4'
        then disarm
        else unknown)
unlisted_contact-class e data_text q c a b rest h l n =
    let (id, code) = contact_parts e data_text q c a b rest h l in
    unlisted-class (parse_contact_id e data_text) c a b code (rw id n)
