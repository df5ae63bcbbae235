-- ===== src/Sia/Timestamp/Unread.antt =====
-- `parseTimestamp` reads no time.
use ajax_bridge.Prelude.{
  ℕ, zero, suc, ◌+◌, ◌*◌, Bool, true, ◌&&◌, Option, none, some, List, [], ◌∷◌, ◌++◌, ◌==◌, leb,
  Bytes, ◌≡◌, refl, sym, ap, ◌∙◌, ==_refl, Bool-cases, Option-cases, inl, inr,
}
use ajax_bridge.Text.{is_digit}
use ajax_bridge.Time.{
  Element, hour, minute, sec, month, day, year, literal, Fields, no_fields, two_number,
  short_number, drop_digits, drop_fraction, within, digit, read_element, go_on, parse_elements,
}
use ajax_bridge.Sia.Header.{Rest, exactly, byte}
use ajax_bridge.Sia.Timestamp.{time_at, find_time, parse_match, parse_timestamp}

module _ (Q : Option Bytes → Type 0) (q : Q none) where
  byte-all :
      (b : ℕ) (s : Bytes) (k : Bytes → Option Bytes) → ((t : Bytes) → Q (k t)) → Q (byte b s k)
  unfolding byte
  byte-all b [] k h = q
  byte-all b (c ∷ s) k h = elim (Bool-cases (c == b)) [ inl t ↦ rw t (h s) | inr f ↦ rw f q ]

  digits-all :
      (n : ℕ) (p : ℕ → Bool) (taken s : Bytes) (k : Rest Bytes)
      → ((run rest : Bytes) → Q (k run rest))
      → Q (exactly n p taken s k)
  unfolding exactly
  digits-all zero p taken s k h = h taken s
  digits-all (suc n) p taken [] k h = q
  digits-all (suc n) p taken (c ∷ s) k h = elim (Bool-cases (p c)) [
    | inl t ↦ rw t (digits-all n p (taken ++ c ∷ []) s k h)
    | inr f ↦ rw f q
  ]

  two-all :
      (s : Bytes) (k : Rest Bytes)
      → ((c d : ℕ) (rest : Bytes) → is_digit c ≡ true → is_digit d ≡ true → Q (k (c ∷ d ∷ []) rest))
      → Q (exactly 2 is_digit [] s k)
  unfolding exactly
  two-all [] k h = q
  two-all (c ∷ []) k h = elim (Bool-cases (is_digit c)) [ inl t ↦ rw t q | inr f ↦ rw f q ]
  two-all (c ∷ d ∷ s) k h = elim (Bool-cases (is_digit c)) [
    | inr f ↦ rw f q
    | inl t ↦ rw t (elim (Bool-cases (is_digit d)) [ inl u ↦ rw u (h c d s t u) | inr g ↦ rw g q ])
  ]

-- Where two digits are read and what is behind them cannot be, nothing is.
module _ (next : List Element) (s : Bytes)
    (stuck : (f : Fields) → parse_elements next f s ≡ none) where
  within-stuck :
      (low high : ℕ) (set : ℕ → Fields) (n : ℕ)
      → go_on (parse_elements next) (within low high set (some (n, s))) ≡ none
  within-stuck low high set n = elim (Bool-cases (leb low n && leb n high)) [
    | inl t ↦ rw t (stuck (set n))
    | inr f ↦ rw f refl
  ]

  literal-stuck : (b : ℕ) (f : Fields) → parse_elements (literal b ∷ next) f (b ∷ s) ≡ none
  unfolding parse_elements read_element
  literal-stuck b f = rw (==_refl b) (stuck f)

  hour-stuck :
      (c d : ℕ) (f : Fields)
      → is_digit c ≡ true
      → is_digit d ≡ true
      → parse_elements (hour ∷ next) f (c ∷ d ∷ s) ≡ none
  unfolding parse_elements read_element short_number
  hour-stuck c d f h k =
      rw (h, k) (within-stuck 0 23 (λ n. record f { hours = n }) (digit c * 10 + digit d))

  minute-stuck :
      (c d : ℕ) (f : Fields)
      → is_digit c ≡ true
      → is_digit d ≡ true
      → parse_elements (minute ∷ next) f (c ∷ d ∷ s) ≡ none
  unfolding parse_elements read_element two_number
  minute-stuck c d f h k =
      rw (h, k) (within-stuck 0 59 (λ n. record f { minutes = n }) (digit c * 10 + digit d))

-- The comma behind the seconds goes with the month, and the layout wants it.
seconds-stuck :
    (c d m n : ℕ) (f : Fields) (s : Bytes)
    → is_digit c ≡ true
    → is_digit d ≡ true
    → is_digit m ≡ true
    → is_digit n ≡ true
    → parse_elements
        (sec ∷ literal b',' ∷ month ∷ literal b'-' ∷ day ∷ literal b'-' ∷ year ∷ [])
        f
        (c ∷ d ∷ b',' ∷ m ∷ n ∷ b'-' ∷ s)
      ≡ none
unfolding parse_elements read_element two_number drop_fraction drop_digits
seconds-stuck c d m n f s hc hd hm hn =
    let value = digit c * 10 + digit d in
    elim (Bool-cases (leb 0 value && leb value 59)) [
      | inl t ↦ rw (hc, hd, t, hm, hn) refl
      | inr g ↦ rw (hc, hd, g) refl
    ]

Unread : Option Bytes → Type 0
Unread o = parse_match o ≡ none

time_at-Unread : (s : Bytes) → Unread (time_at s)
unfolding time_at Unread
time_at-Unread s0 = byte-all Unread refl b'_' s0 _ λ s1. two-all Unread refl s1 _ λ a b s2 ha hb.
    byte-all Unread refl b':' s2 _ λ s3. two-all Unread refl s3 _ λ c d s4 hc hd.
      byte-all Unread refl b':' s4 _ λ s5. two-all Unread refl s5 _ λ e f s6 he hf.
        byte-all Unread refl b',' s6 _ λ s7. two-all Unread refl s7 _ λ g h s8 hg hh.
          byte-all Unread refl b'-' s8 _ λ s9. digits-all Unread refl 2 is_digit [] s9 _ λ day s10.
            byte-all Unread refl b'-' s10 _ λ s11.
              digits-all Unread refl 4 is_digit [] s11 _ λ year rest.
                hour-stuck _ _
                  (λ f1.
                    literal-stuck _ _
                      (λ f2.
                        minute-stuck _ _
                          (λ f3.
                            literal-stuck _ _
                              (λ f4. seconds-stuck e f g h f4 (day ++ b'-' ∷ year) he hf hg hh) b':'
                              f3)
                          c d f2 hc hd)
                      b':' f1)
                  a b no_fields ha hb

find_time-Unread : (s : Bytes) → Unread (find_time s)
unfolding find_time Unread
find_time-Unread [] = refl
find_time-Unread (c ∷ s) = elim (Option-cases (time_at (c ∷ s))) [
  | inl n ↦ rw n (find_time-Unread s)
  | inr (text, m) ↦ rw m (sym (ap parse_match m) ∙ time_at-Unread (c ∷ s))
]

-- `parseTimestamp` fails on every text.
pub parse_timestamp-none : (value : Bytes) → parse_timestamp value ≡ none
unfolding parse_timestamp Unread
parse_timestamp-none value = find_time-Unread value
