-- ===== src/Sia/Header.antt =====
-- `headerPattern` of bridge/internal/sia/parser.go, matched as Go's regexp does: a repetition takes as
-- many bytes as it can and gives them back one by one, and an optional group is tried first.
pub mod Captures
use ajax_bridge.Prelude.{
  ℕ, zero, suc, Bool, true, false, not, Option, none, some, [], ◌∷◌, ◌++◌, ◌==◌, if◌then◌else◌,
  or_else, Bytes,
}
use ajax_bridge.Text.{is_alnum}
use ajax_bridge.Hex.{is_hex_byte}

-- What follows in a pattern: it is given the text that a group took and the text behind it.
abbrev pub Rest {ℓ} : Type ℓ → Type ℓ
Rest A = Bytes → Bytes → Option A

module _ {ℓ} {A : Type ℓ} where
  -- `[class]*`, on top of what the group has taken
  unfoldable pub many : (ℕ → Bool) → Bytes → Bytes → Rest A → Option A
  many p taken [] k = k taken []
  many p taken (c ∷ s) k =
      if p c then or_else (many p (taken ++ c ∷ []) s k) (k taken (c ∷ s)) else k taken (c ∷ s)

  -- `[class]+`
  unfoldable pub some_of : (ℕ → Bool) → Bytes → Bytes → Rest A → Option A
  some_of p taken [] k = none
  some_of p taken (c ∷ s) k = if p c then many p (taken ++ c ∷ []) s k else none

  -- `[class]{n}`
  unfoldable pub exactly : ℕ → (ℕ → Bool) → Bytes → Bytes → Rest A → Option A
  exactly zero p taken s k = k taken s
  exactly (suc n) p taken [] k = none
  exactly (suc n) p taken (c ∷ s) k = if p c then exactly n p (taken ++ c ∷ []) s k else none

  -- one byte, outside every group
  unfoldable pub byte : ℕ → Bytes → (Bytes → Option A) → Option A
  byte b [] k = none
  byte b (c ∷ s) k = if c == b then k s else none

  -- `(b[class]+)?`; a group that takes no part in the match is the empty text
  unfoldable pub optional_group : ℕ → (ℕ → Bool) → Bytes → Rest A → Option A
  optional_group b p s k = or_else (byte b s λ t. some_of p (b ∷ []) t k) (k [] s)

-- The submatches 1 to 5.
pub record Groups : Type 0 where
  pub token : Bytes
  pub sequence : Bytes
  pub receiver : Bytes
  pub line : Bytes
  pub account : Bytes

abbrev pub not_quote : ℕ → Bool
not_quote c = not (c == b'"')

abbrev pub not_bracket : ℕ → Bool
not_bracket c = not (c == b'[')

-- `#([^\[]+)`
unfoldable pub match_account : Bytes → Bytes → Bytes → Bytes → Bytes → Option Groups
match_account token sequence receiver line s = byte b'#' s λ t.
    some_of not_bracket [] t λ account rest. some (record {
      token = token;
      sequence = sequence;
      receiver = receiver;
      line = line;
      account = account;
    })

-- `(R[0-9A-Za-z]+)?(L[0-9A-Za-z]+)?#([^\[]+)`
unfoldable pub match_path : Bytes → Bytes → Bytes → Option Groups
match_path token sequence s = optional_group b'R' is_alnum s λ receiver t.
    optional_group b'L' is_alnum t λ line u. match_account token sequence receiver line u

-- `"([0-9A-Fa-f]{4})` and the rest
unfoldable pub match_sequence : Bytes → Bytes → Option Groups
match_sequence token s =
    byte b'"' s λ t. exactly 4 is_hex_byte [] t λ sequence u. match_path token sequence u

-- `headerPattern.FindStringSubmatch(payload)`: the pattern begins with `^`, so it is tried at the
-- start only. `\*?` takes a star if it can, and gives it back.
unfoldable pub match_header : Bytes → Option Groups
match_header payload = byte b'"' payload λ s.
    or_else (byte b'*' s λ t. some_of not_quote (b'*' ∷ []) t match_sequence)
      (some_of not_quote [] s match_sequence)
