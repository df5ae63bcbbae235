-- ===== src/Sia/Content/Codes.antt =====
-- What the parsers of SIA-DCS and Contact ID data read.
use ajax_bridge.Prelude.{
  ℕ, zero, suc, Bool, true, ◌&&◌, Option, none, some, [], ◌∷◌, ◌++◌, ◌==◌, leb, Bytes, codes,
  is_empty, length, take, drop, all, ◌≡◌, ◌≢◌, refl, ◌∙◌, arith, Bool-cases, and-eq_true,
  Option-cases, inl, inr, eqb,
}
use ajax_bridge.Text.{cut, has_prefix, trim_prefix, trim_left, span, is_upper, is_digit}
use ajax_bridge.Event.{Normalized}
use ajax_bridge.Sia.Content.{
  parse_sia_prefix, sia_prefixes, find_code, leading_digits, set_code, parse_siadcs, only_digits,
  parse_contact_id, parse_data, parse_content,
}

-- The run of a class is made of the class.
span-all : (p : ℕ → Bool) (s : Bytes) → all p (span p s).0 ≡ true
unfolding span
span-all p [] = refl
span-all p (c ∷ s) = ground (arith, span-all p s)

trim_left-all : (p q : ℕ → Bool) (s : Bytes) → all p s ≡ true → all p (trim_left q s) ≡ true
unfolding trim_left
trim_left-all p q [] h = refl
trim_left-all p q (c ∷ s) h = ground (arith, trim_left-all p q s)

take-all : (p : ℕ → Bool) (n : ℕ) (s : Bytes) → all p s ≡ true → all p (take n s) ≡ true
take-all p zero s h = refl
take-all p (suc n) [] h = refl
take-all p (suc n) (c ∷ s) h = ground (arith, take-all p n s)

drop-all : (p : ℕ → Bool) (n : ℕ) (s : Bytes) → all p s ≡ true → all p (drop n s) ≡ true
drop-all p zero s h = h
drop-all p (suc n) [] h = refl
drop-all p (suc n) (c ∷ s) h = drop-all p n s (ground arith)

only_digits-all : (s : Bytes) → all is_digit (only_digits s) ≡ true
unfolding only_digits
only_digits-all [] = refl
only_digits-all (c ∷ s) = ground (arith, only_digits-all s)

-- A text that does not begin with the digit 0.
abbrev pub NoZero : Bytes → Type 0
NoZero [] = Unit
NoZero (c ∷ s) = c ≢ b'0'

trim_left-NoZero : (s : Bytes) → NoZero (trim_left (λ c. c == b'0') s)
unfolding trim_left
trim_left-NoZero [] = tt
trim_left-NoZero (c ∷ s) = elim (Bool-cases (c == b'0')) [
  | inl e ↦ rw e (trim_left-NoZero s)
  | inr e ↦ rw e (ground arith)
]

-- A zone number: digits only, with no zero in front. Zone 0 is the empty text.
abbrev pub IsZone : Bytes → Type 0
IsZone s = (all is_digit s ≡ true) × NoZero s

leading_digits-IsZone : (s : Bytes) → IsZone (leading_digits s)
unfolding leading_digits
leading_digits-IsZone s = (
  trim_left-all is_digit (λ c. c == b'0') (span is_digit s).0 (span-all is_digit s),
  trim_left-NoZero (span is_digit s).0,
)

prefix-zone :
    (e : Normalized) (token : Bytes) {e' : Normalized}
    → parse_sia_prefix e token ≡ some e'
    → e'.zone ≡ e.zone
unfolding parse_sia_prefix
prefix-zone e token h = ground arith

prefixes-zone : (fuel : ℕ) (e : Normalized) (s : Bytes) → (sia_prefixes fuel e s).0.zone ≡ e.zone
unfolding sia_prefixes
prefixes-zone zero e s = refl
prefixes-zone (suc fuel) e s = elim (Option-cases (cut b'/' s)) [
  | inl n ↦ rw (n, sia_prefixes)
  | inr (p, m) ↦ elim (Option-cases (parse_sia_prefix e p.0)) [
    | inl n ↦ rw (m, n, sia_prefixes)
    | inr (e', q) ↦ rw (m, q, sia_prefixes) (prefixes-zone fuel e' p.1 ∙ prefix-zone e p.0 q)
  ]
]

-- The event codes that the parser gives: `RP` for an empty content, two capital letters, `YN`
-- where SIA-DCS data holds none, and `CID` with the three digits of a Contact ID event.
pub data IsEventCode : Bytes → Type 0 where
  null_message : IsEventCode (codes "RP")
  no_code : IsEventCode (codes "YN")
  letters : (a b : ℕ) → is_upper a ≡ true → is_upper b ≡ true → IsEventCode (a ∷ b ∷ [])
  contact : (digits : Bytes) → all is_digit digits ≡ true → IsEventCode (codes "CID" ++ digits)

-- What a parsed event must be: one of the codes, and a zone number.
abbrev pub IsParsed : Normalized → Type 0
IsParsed e = IsEventCode e.event_code × IsZone e.zone

abbrev IsFound : Option (Bytes × Bytes) → Type 0
IsFound none = Unit
IsFound (some (code, rest)) = IsEventCode code

find_code-IsFound : (s : Bytes) → IsFound (find_code s)
unfolding find_code
find_code-IsFound [] = tt
find_code-IsFound (a ∷ []) = tt
find_code-IsFound (a ∷ b ∷ s) = elim (Bool-cases (is_upper a && is_upper b)) [
  | inl both ↦
      let (ua, ub) = and-eq_true (is_upper a) (is_upper b) both in rw both (letters a b ua ub)
  | inr other ↦ rw other (find_code-IsFound (b ∷ s))
]

set_code-IsParsed : (s : Bytes) (e : Normalized) → e.zone ≡ [] → IsParsed (set_code (find_code s) e)
unfolding set_code
set_code-IsParsed s e z = elim (Option-cases (find_code s)) [
  | inl n ↦ rw (n, z) (no_code, (refl, tt))
  | inr (p, m) ↦ rw m (rw m at (find_code-IsFound s), leading_digits-IsZone p.1)
]

parse_siadcs-IsParsed : (e : Normalized) (s : Bytes) → e.zone ≡ [] → IsParsed (parse_siadcs e s)
unfolding parse_siadcs
parse_siadcs-IsParsed e s z =
    let data_text = trim_prefix s (b'N' ∷ []) in
    let run = sia_prefixes (suc (length data_text)) e data_text in
    set_code-IsParsed run.1 run.0 (prefixes-zone (suc (length data_text)) e data_text ∙ z)

digits_part : (n m : ℕ) (s : Bytes) → all is_digit (take n (drop m (only_digits s))) ≡ true
digits_part n m s =
    take-all is_digit n (drop m (only_digits s))
      (drop-all is_digit m (only_digits s) (only_digits-all s))

parse_contact_id-IsParsed :
    (e : Normalized) (s : Bytes) → e.zone ≡ [] → IsParsed (parse_contact_id e s)
unfolding parse_contact_id
parse_contact_id-IsParsed e s z = elim (Bool-cases (leb 9 (length (only_digits s)))) [
  | inl long ↦ rw long (
    contact (take 3 (drop 1 (only_digits s))) (digits_part 3 1 s),
    (
      trim_left-all is_digit (λ c. c == b'0') (take 3 (drop 6 (only_digits s))) (digits_part 3 6 s),
      trim_left-NoZero (take 3 (drop 6 (only_digits s))),
    ),
  )
  | inr short ↦ rw (short, z) (contact [] refl, (refl, tt))
]

parse_data-IsParsed : (e : Normalized) (s : Bytes) → e.zone ≡ [] → IsParsed (parse_data e s)
unfolding parse_data
parse_data-IsParsed e s z =
    elim (Bool-cases (eqb (trim_prefix e.protocol (b'*' ∷ [])) (codes "ADM-CID"))) [
      | inl cid ↦ rw cid (parse_contact_id-IsParsed e s z)
      | inr other ↦ rw other (parse_siadcs-IsParsed e s z)
    ]

-- Whatever a frame holds, in either protocol and on every branch of the parser, the event has one
-- of the event codes, and its zone is a decimal number with no zero in front, or empty.
pub parse_content-IsParsed :
    (e : Normalized) (content : Bytes) → e.zone ≡ [] → IsParsed (parse_content e content)
unfolding parse_content
parse_content-IsParsed e [] z = rw z (null_message, (refl, tt))
parse_content-IsParsed e (c ∷ content) z = elim (Option-cases (cut b'|' (c ∷ content))) [
  | inl n ↦ rw (n, parse_content) (parse_data-IsParsed e (c ∷ content) z)
  | inr (p, m) ↦
      rw (m, parse_content)
        (elim (Bool-cases (has_prefix p.0 (b'#' ∷ []) && is_empty e.account)) [
          | inl t ↦
              rw t (parse_data-IsParsed (record e { account = trim_prefix p.0 (b'#' ∷ []) }) p.1 z)
          | inr f ↦ rw f (parse_data-IsParsed e p.1 z)
        ])
]
