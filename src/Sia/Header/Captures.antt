-- ===== src/Sia/Header/Captures.antt =====
-- What `headerPattern` captures.
use ajax_bridge.Prelude.{
  ℕ, Bool, true, false, Option, none, some, [], ◌∷◌, ◌++◌, ◌==◌, or_else, Bool-cases, ◌⊎◌, inl, inr,
  Bytes, all, length, ==_refl, ==_iff, ◌≡◌, ◌≢◌, refl, sym, ap, ◌∙◌, arith, append_assoc,
  append-nil,
}
use ajax_bridge.Text.{is_alnum}
use ajax_bridge.Hex.{is_hex_byte, is_hex}
use ajax_bridge.Sia.Header.{
  Rest, many, some_of, exactly, byte, optional_group, Groups, not_quote, not_bracket, match_account,
  match_path, match_sequence, match_header,
}

-- A text that no byte of the class begins.
abbrev pub Stops : (ℕ → Bool) → Bytes → Type 0
Stops p [] = Unit
Stops p (c ∷ s) = p c ≡ false

module _ {ℓ} {A : Type ℓ} (p : ℕ → Bool) (k : Rest A) (a : A) where
  many-run :
      (run taken rest : Bytes)
      → all p run ≡ true
      → Stops p rest
      → k (taken ++ run) rest ≡ some a
      → many p taken (run ++ rest) k ≡ some a
  unfolding many
  many-run [] taken [] h s e = rw (append-nil taken) at e
  many-run [] taken (c ∷ rest) h s e = rw s (rw (append-nil taken) at e)
  many-run (c ∷ run) taken rest h s e =
      let ih = many-run run (taken ++ c ∷ []) rest in
      ground (arith, ih (ground arith) s (rw append_assoc e))

  -- A repetition takes the longest run, where the rest of the pattern matches behind it.
  pub some_of-run :
      (run taken rest : Bytes)
      → run ≢ []
      → all p run ≡ true
      → Stops p rest
      → k (taken ++ run) rest ≡ some a
      → some_of p taken (run ++ rest) k ≡ some a
  unfolding some_of
  some_of-run [] taken rest ne h s e = absurd (ne refl)
  some_of-run (c ∷ run) taken rest ne h s e =
      ground (arith, many-run run (taken ++ c ∷ []) rest (ground arith) s (rw append_assoc e))

module _ {ℓ} {A : Type ℓ} (p : ℕ → Bool) (k : Rest A) where
  pub exactly-run :
      (run taken rest : Bytes)
      → all p run ≡ true
      → exactly (length run) p taken (run ++ rest) k ≡ k (taken ++ run) rest
  unfolding exactly
  exactly-run [] taken rest h = rw append-nil
  exactly-run (c ∷ run) taken rest h =
      ground (arith, exactly-run run (taken ++ c ∷ []) rest, append_assoc taken (c ∷ []) run)

-- `#account` at the end of the header
pub match_account-run :
    (token sequence receiver line account rest : Bytes)
    → account ≢ []
    → all not_bracket account ≡ true
    → Stops not_bracket rest
    → match_account token sequence receiver line (b'#' ∷ (account ++ rest))
      ≡ some (record {
        token = token;
        sequence = sequence;
        receiver = receiver;
        line = line;
        account = account;
      })
unfolding match_account byte
match_account-run token sequence receiver line account rest ne h s =
    some_of-run not_bracket _ _ account [] rest ne h s refl

module _ {ℓ} {A : Type ℓ} (b : ℕ) (p : ℕ → Bool) (k : Rest A) where
  optional_group-run :
      (a : A) (run rest : Bytes)
      → run ≢ []
      → all p run ≡ true
      → Stops p rest
      → k (b ∷ run) rest ≡ some a
      → optional_group b p (b ∷ (run ++ rest)) k ≡ some a
  unfolding optional_group byte
  optional_group-run a run rest ne h s e =
      rw (==_refl b) (rw (some_of-run p k a run (b ∷ []) rest ne h s e))

  optional_group-absent : (c : ℕ) (s : Bytes) → c ≢ b → optional_group b p (c ∷ s) k ≡ k [] (c ∷ s)
  unfolding optional_group byte
  optional_group-absent c s ne = ground (arith, ==_iff c b)

-- The text between the sequence number and the `#`: nothing, a receiver, or a line alone. It is
-- given with what the pattern captures as the receiver and as the line.
pub data Route : Bytes → Bytes → Bytes → Type 0 where
  bare : Route [] [] []
  received : (run : Bytes) → run ≢ [] → all is_alnum run ≡ true → Route (b'R' ∷ run) (b'R' ∷ run) []
  lined : (run : Bytes) → run ≢ [] → all is_alnum run ≡ true → Route (b'L' ∷ run) [] (b'L' ∷ run)

module _ (token sequence account rest : Bytes) (ne : account ≢ [])
    (h : all not_bracket account ≡ true) (s : Stops not_bracket rest) where
  abbrev captured : Bytes → Bytes → Groups
  captured receiver line = record {
    token = token;
    sequence = sequence;
    receiver = receiver;
    line = line;
    account = account;
  }

  match_path-run :
      {path receiver line : Bytes}
      → Route path receiver line
      → match_path token sequence (path ++ (b'#' ∷ (account ++ rest)))
        ≡ some (captured receiver line)
  unfolding match_path
  match_path-run bare =
      optional_group-absent b'R' is_alnum _ b'#' (account ++ rest) (omega arith)
      ∙ optional_group-absent b'L' is_alnum _ b'#' (account ++ rest) (omega arith)
      ∙ match_account-run token sequence [] [] account rest ne h s
  match_path-run (received run ne' h') = optional_group-run b'R' is_alnum _ _ run _ ne' h' refl (
      optional_group-absent b'L' is_alnum _ b'#' (account ++ rest) (omega arith)
      ∙ match_account-run token sequence (b'R' ∷ run) [] account rest ne h s)
  match_path-run (lined run ne' h') =
      optional_group-absent b'R' is_alnum _ b'L' (run ++ (b'#' ∷ (account ++ rest))) (omega arith)
      ∙ optional_group-run b'L' is_alnum _ _ run _ ne' h' refl
          (match_account-run token sequence [] (b'L' ∷ run) account rest ne h s)

  match_sequence-run :
      {path receiver line : Bytes}
      → length sequence ≡ 4
      → is_hex sequence ≡ true
      → Route path receiver line
      → match_sequence token (b'"' ∷ (sequence ++ (path ++ (b'#' ∷ (account ++ rest)))))
        ≡ some (captured receiver line)
  unfolding match_sequence byte is_hex
  match_sequence-run {path} n x r =
      ap
        (λ (w : ℕ).
          exactly w is_hex_byte [] (sequence ++ (path ++ (b'#' ∷ (account ++ rest))))
            (match_path token))
        (sym n)
      ∙ exactly-run is_hex_byte (match_path token) sequence [] _ x
      ∙ match_path-run r

-- The text of a header, up to the `[` of the data.
abbrev pub header_text : Bytes → Bytes → Bytes → Bytes → Bytes → Bytes
header_text token sequence path account rest =
    b'"' ∷ (token ++ (b'"' ∷ (sequence ++ (path ++ (b'#' ∷ (account ++ rest))))))

-- What a header must be made of.
pub record IsHeader (token sequence account rest : Bytes) : Type 0 where
  pub token_ne_nil : token ≢ []
  pub token_unquoted : all not_quote token ≡ true
  pub sequence_length : length sequence ≡ 4
  pub sequence_hex : is_hex sequence ≡ true
  pub account_ne_nil : account ≢ []
  pub account_unbracketed : all not_bracket account ≡ true
  pub account_ends : Stops not_bracket rest

-- The attempt with the star taken first: it fails, or it comes to the same captures.
star_first :
    (c : ℕ) (token behind : Bytes) {g : Groups}
    → c ≡ b'*'
    → all not_quote (c ∷ token) ≡ true
    → match_sequence (c ∷ token) (b'"' ∷ behind) ≡ some g
    → (some_of not_quote (b'*' ∷ []) (token ++ (b'"' ∷ behind)) match_sequence ≡ none)
      ⊎ (some_of not_quote (b'*' ∷ []) (token ++ (b'"' ∷ behind)) match_sequence ≡ some g)
unfolding some_of
star_first c [] behind e h done = inl refl
star_first c (d ∷ token) behind e h done = inr (
    some_of-run not_quote match_sequence _ (d ∷ token) (b'*' ∷ []) (b'"' ∷ behind) (λ x. cc x)
      (ground arith) refl (rw (← e) done))

or_else-same {ℓ} :
    {A : Type ℓ} (a : A) {x y : Option A}
    → (x ≡ none) ⊎ (x ≡ some a)
    → y ≡ some a
    → or_else x y ≡ some a
or_else-same a (inl e) h = rw e h
or_else-same a (inr e) h = rw e

-- Of a header with a token without quotation marks, four hexadecimal digits and an account that ends at
-- an opening bracket or with the text, the pattern captures the token, the sequence number and the account
-- as they are written. Between the number and the `#` stands nothing, a line alone, which is captured, or a
-- receiver, which is captured with all the letters and digits behind it, a line too.
pub match_header-run :
    (token sequence account rest : Bytes) {path receiver line : Bytes}
    → IsHeader token sequence account rest
    → Route path receiver line
    → match_header (header_text token sequence path account rest)
      ≡ some (record {
        token = token;
        sequence = sequence;
        receiver = receiver;
        line = line;
        account = account;
      })
unfolding match_header byte
match_header-run [] sequence account rest h r = absurd (h.token_ne_nil refl)
match_header-run (c ∷ token) sequence account rest {path} {receiver} {line} h r =
    let behind = sequence ++ (path ++ (b'#' ∷ (account ++ rest))) in
    let done =
      match_sequence-run (c ∷ token) sequence account rest h.account_ne_nil h.account_unbracketed
        h.account_ends h.sequence_length h.sequence_hex r in
    let plain =
      some_of-run not_quote match_sequence _ (c ∷ token) [] (b'"' ∷ behind) h.token_ne_nil
        h.token_unquoted refl done in
    elim (Bool-cases (c == b'*')) [
      | inl star ↦ rw star (
          or_else-same _ (star_first c token behind ((==_iff c b'*').0 star) h.token_unquoted done)
            plain)
      | inr other ↦ rw other plain
    ]
