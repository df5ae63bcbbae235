-- ===== src/Sia/Content/Kept.antt =====
-- The fields of an event that the parsing of its content leaves alone.
use ajax_bridge.Prelude.{
  false, refl, ℕ, zero, suc, ◌&&◌, Option, none, some, [], ◌∷◌, Bytes, codes, is_empty, length, eqb,
  ◌≡◌, arith, Bool-cases, Option-cases, inl, inr,
}
use ajax_bridge.Text.{cut, has_prefix, trim_prefix}
use ajax_bridge.Event.{Normalized}
use ajax_bridge.Sia.Content.{
  parse_sia_prefix, sia_prefixes, find_code, set_code, parse_siadcs, parse_contact_id, parse_data,
  parse_content,
}

pub record Kept (e e' : Normalized) : Type 0 where
  pub parse_status : e'.parse_status ≡ e.parse_status
  pub received_at : e'.received_at ≡ e.received_at
  pub occurred_at : e'.occurred_at ≡ e.occurred_at
  pub protocol : e'.protocol ≡ e.protocol
  pub sequence : e'.sequence ≡ e.sequence

-- The same fields and the account.
record Carried (e e' : Normalized) : Type 0 where
  parse_status : e'.parse_status ≡ e.parse_status
  received_at : e'.received_at ≡ e.received_at
  occurred_at : e'.occurred_at ≡ e.occurred_at
  protocol : e'.protocol ≡ e.protocol
  sequence : e'.sequence ≡ e.sequence
  account : e'.account ≡ e.account

Carried-refl : (e : Normalized) → Carried e e
Carried-refl e = ground arith

Carried-trans : {e f g : Normalized} → Carried e f → Carried f g → Carried e g
Carried-trans h k = ground arith

prefix-Carried :
    (e : Normalized) (token : Bytes) {e' : Normalized}
    → parse_sia_prefix e token ≡ some e'
    → Carried e e'
unfolding parse_sia_prefix
prefix-Carried e token h = ground arith

prefixes-Carried : (fuel : ℕ) (e : Normalized) (s : Bytes) → Carried e (sia_prefixes fuel e s).0
unfolding sia_prefixes
prefixes-Carried zero e s = Carried-refl e
prefixes-Carried (suc fuel) e s = elim (Option-cases (cut b'/' s)) [
  | inl n ↦ rw (n, sia_prefixes) (Carried-refl e)
  | inr (p, m) ↦ elim (Option-cases (parse_sia_prefix e p.0)) [
    | inl n ↦ rw (m, n, sia_prefixes) (Carried-refl e)
    | inr (e', q) ↦
        rw (m, q, sia_prefixes)
          (Carried-trans (prefix-Carried e p.0 q) (prefixes-Carried fuel e' p.1))
  ]
]

set_code-Carried : (o : Option (Bytes × Bytes)) (e : Normalized) → Carried e (set_code o e)
unfolding set_code
set_code-Carried none e = ground arith
set_code-Carried (some p) e = ground arith

parse_data-Carried : (e : Normalized) (s : Bytes) → Carried e (parse_data e s)
unfolding parse_data parse_contact_id parse_siadcs
parse_data-Carried e s =
    let data_text = trim_prefix s (b'N' ∷ []) in
    let run = sia_prefixes (suc (length data_text)) e data_text in
    let dcs =
      Carried-trans (prefixes-Carried (suc (length data_text)) e data_text)
        (set_code-Carried (find_code run.1) run.0) in
    elim (Bool-cases (eqb (trim_prefix e.protocol (b'*' ∷ [])) (codes "ADM-CID"))) [
      | inl cid ↦ rw cid (ground arith)
      | inr other ↦ rw other dcs
    ]

Carried-Kept : {e e' : Normalized} → Carried e e' → Kept e e'
Carried-Kept h = ground arith

rename-Kept : {e e' : Normalized} (a : Bytes) → Carried (record e { account = a }) e' → Kept e e'
rename-Kept a h = ground arith

pub parse_content-Kept : (e : Normalized) (content : Bytes) → Kept e (parse_content e content)
unfolding parse_content
parse_content-Kept e [] = ground arith
parse_content-Kept e (c ∷ content) = elim (Option-cases (cut b'|' (c ∷ content))) [
  | inl n ↦ rw (n, parse_content) (Carried-Kept (parse_data-Carried e (c ∷ content)))
  | inr (p, m) ↦
      rw (m, parse_content)
        (elim (Bool-cases (has_prefix p.0 (b'#' ∷ []) && is_empty e.account)) [
          | inl t ↦
              let name = trim_prefix p.0 (b'#' ∷ []) in
              rw t (rename-Kept name (parse_data-Carried (record e { account = name }) p.1))
          | inr f ↦ rw f (Carried-Kept (parse_data-Carried e p.1))
        ])
]

-- The account that the header names stays that of the event.
pub parse_content-account :
    (e : Normalized) (content : Bytes)
    → is_empty e.account ≡ false
    → (parse_content e content).account ≡ e.account
unfolding parse_content
parse_content-account e [] h = refl
parse_content-account e (c ∷ content) h = elim (Option-cases (cut b'|' (c ∷ content))) [
  | inl n ↦ rw (n, parse_content) (parse_data-Carried e (c ∷ content)).account
  | inr (p, m) ↦
      rw (m, parse_content)
        (elim (Bool-cases (has_prefix p.0 (b'#' ∷ []) && is_empty e.account)) [
          | inl t ↦ ground (arith, h, t)
          | inr f ↦ rw f (parse_data-Carried e p.1).account
        ])
]
