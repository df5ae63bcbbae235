-- ===== src/Sia/Content.antt =====
-- The content of a frame: extraction, extended data, and the SIA-DCS and Contact ID events of
-- bridge/internal/sia/parser.go.
pub mod Xdata
pub mod Codes
pub mod Kept
use ajax_bridge.Prelude.{
  ℕ, zero, suc, ◌+◌, ◌≤◌, Bool, true, false, not, ◌&&◌, ◌||◌, Option, none, some, List, [], ◌∷◌,
  ◌++◌, leb, ltb, ◌==◌, if◌then◌else◌, Bytes, codes, is_empty, length, take, drop, eqb,
}
use ajax_bridge.Text.{
  has_prefix, trim_prefix, cut, trim_left, trim_space, to_lower, span, is_upper, is_digit,
}
use ajax_bridge.Event.{Normalized, XdataEntry}
use ajax_bridge.Sia.Errors.{
  SiaError, no_opening_bracket, no_key, no_closing_bracket, Result, ok, err, ◌>>=◌,
}
use ajax_bridge.Sia.Frame.{Frame}
use ajax_bridge.Sia.Crypto.{BlockCipher, decrypt_sia_content}

unfoldable pub xdata_entry : Bytes → XdataEntry
xdata_entry raw = record { identifier = take 1 raw; value = drop 1 raw; raw = raw }

abbrev push_entry : Bytes → List XdataEntry × Bytes → List XdataEntry × Bytes
push_entry raw (entries, rest) = (xdata_entry raw ∷ entries, rest)

-- The loop of `parseXDataTrailer`; each turn takes two bytes at least.
unfoldable pub xdata_loop : ℕ → Bytes → List XdataEntry × Bytes
xdata_loop zero rest = ([], rest)
xdata_loop (suc fuel) [] = ([], [])
xdata_loop (suc fuel) (c ∷ s) =
    if c == b'['
    then elim (cut b']' s) [
      | none ↦ ([], c ∷ s)
      | some (raw, behind) ↦ push_entry raw (xdata_loop fuel behind)
    ]
    else ([], c ∷ s)

unfoldable pub parse_xdata_trailer : Bytes → List XdataEntry × Bytes
parse_xdata_trailer value = xdata_loop (length value) value

-- The content, the extended data and the trailer.
pub record Content : Type 0 where
  pub text : Bytes
  pub xdata : List XdataEntry
  pub trailer : Bytes

unfoldable pub with_trailer : Bytes → Bytes → Content
with_trailer text behind =
    let (entries, rest) = parse_xdata_trailer behind in
    record { text = text; xdata = entries; trailer = rest }

unfoldable pub split_plain_content : Bytes → Content
split_plain_content value = elim (cut b']' value) [
  | none ↦ record { text = value; xdata = []; trailer = [] }
  | some (text, behind) ↦ with_trailer text behind
]

module _ (aes : BlockCipher) where
  unfoldable pub open_content : Option Bytes → Bool → Bytes → Result Content
  open_content none true rest = err no_key
  open_content (some key) true rest = do
    plain ← decrypt_sia_content aes key rest
    ok (split_plain_content plain)
  open_content key false rest = elim (cut b']' rest) [
    | none ↦ err no_closing_bracket
    | some (text, behind) ↦ ok (with_trailer text behind)
  ]

  -- A key is never empty: `decodeAESKey` gives nil or a key of one of the three sizes.
  unfoldable pub extract_content : Option Bytes → Frame → Result Content
  extract_content key frame = elim (cut b'[' frame.payload) [
    | none ↦ err no_opening_bracket
    | some (head, rest) ↦ open_content key frame.encrypted rest
  ]

unfoldable pub rebuild_entries : List XdataEntry → Bytes → Bytes
rebuild_entries [] trailer = trailer
rebuild_entries (e ∷ es) trailer = b'[' ∷ (e.raw ++ (b']' ∷ rebuild_entries es trailer))

unfoldable pub rebuild_raw_payload : Content → Bytes
rebuild_raw_payload c = c.text ++ rebuild_entries c.xdata c.trailer

-- `parseSIAPrefix`: `none` where it returns false.
unfoldable pub parse_sia_prefix : Normalized → Bytes → Option Normalized
parse_sia_prefix e token =
    let t = trim_space token in
    let digits = trim_left (λ c. c == b'0') (drop 2 t) in
    let value : Bytes = if is_empty digits then b'0' ∷ [] else digits in
    if is_empty t
    then some e
    else if has_prefix (to_lower t) (codes "ri")
    then some (record e { partition = value; group = value })
    else none

-- The loop over the prefixes in front of the event; each turn takes a byte at least.
unfoldable pub sia_prefixes : ℕ → Normalized → Bytes → Normalized × Bytes
sia_prefixes zero e s = (e, s)
sia_prefixes (suc fuel) e s = elim (cut b'/' s) [
  | none ↦ (e, s)
  | some (token, rest) ↦ elim (parse_sia_prefix e token) [
    | none ↦ (e, s)
    | some e' ↦ sia_prefixes fuel e' rest
  ]
]

-- The first two upper-case letters that stand side by side, and what follows them.
unfoldable pub find_code : Bytes → Option (Bytes × Bytes)
find_code [] = none
find_code (a ∷ []) = none
find_code (a ∷ b ∷ s) = if is_upper a && is_upper b then some (a ∷ b ∷ [], s) else find_code (b ∷ s)

unfoldable pub leading_digits : Bytes → Bytes
leading_digits value = trim_left (λ c. c == b'0') (span is_digit value).0

unfoldable pub set_code : Option (Bytes × Bytes) → Normalized → Normalized
set_code none e = record e { event_code = codes "YN" }
set_code (some (code, rest)) e = record e { event_code = code; zone = leading_digits rest }

unfoldable pub parse_siadcs : Normalized → Bytes → Normalized
parse_siadcs e data_text =
    let s = trim_prefix data_text (b'N' ∷ []) in
    let (e', rest) = sia_prefixes (suc (length s)) e s in set_code (find_code rest) e'

unfoldable pub only_digits : Bytes → Bytes
only_digits [] = []
only_digits (c ∷ s) = let rest = only_digits s in if is_digit c then c ∷ rest else rest

unfoldable pub contact_id_qualifier : Bytes → Bytes
contact_id_qualifier value =
    if eqb value (codes "1") then codes "E" else if eqb value (codes "3") then codes "R" else value

unfoldable pub parse_contact_id : Normalized → Bytes → Normalized
parse_contact_id e data_text =
    let digits = only_digits data_text in
    let code = take 3 (drop 1 digits) in
    let partition = trim_left (λ c. c == b'0') (take 2 (drop 4 digits)) in
    if leb 9 (length digits)
    then record e {
      contact_id = contact_id_qualifier (take 1 digits) ++ code;
      event_code = codes "CID" ++ code;
      partition = partition;
      group = partition;
      zone = trim_left (λ c. c == b'0') (take 3 (drop 6 digits));
    }
    else record e { event_code = codes "CID" }

unfoldable pub parse_data : Normalized → Bytes → Normalized
parse_data e data_text =
    if eqb (trim_prefix e.protocol (b'*' ∷ [])) (codes "ADM-CID")
    then parse_contact_id e data_text
    else parse_siadcs e data_text

unfoldable pub parse_content : Normalized → Bytes → Normalized
parse_content e content =
    if is_empty content then record e { event_code = codes "RP" } else elim (cut b'|' content) [
      | none ↦ parse_data e content
      | some (account, data_text) ↦
          parse_data
            (if has_prefix account (b'#' ∷ []) && is_empty e.account
              then record e { account = trim_prefix account (b'#' ∷ []) }
              else e)
            data_text
    ]
