-- ===== src/Sia/Crypto/RoundTrip.antt =====
-- What the bridge encrypts is read back by its own decryption.
use ajax_bridge.Prelude.{
  ℕ, zero, suc, ◌+◌, ◌-◌, ◌*◌, ◌/◌, ◌%◌, ◌<◌, ◌≡◌, ◌⊎◌, inl, inr, refl, sym, ap, ◌∙◌, arith, true,
  false, not, none, [], ◌∷◌, ◌++◌, ◌==◌, ◌||◌, if◌then◌else◌, Bool-cases, Bytes, length, replicate,
  length-append, length-replicate, append_assoc, all,
}
use ajax_bridge.Text.{cut, has_prefix, trim_left, trim_right, trim_space, is_space}
use ajax_bridge.Text.Trim.{trim_left-kept, trim_right-kept, trim_left-cut, trim-untouched}
use ajax_bridge.Hex.{hex_digit, encode_upper, decode}
use ajax_bridge.Hex.RoundTrip.{decode-encode_upper}
use ajax_bridge.Sia.Errors.{Result, ok}
use ajax_bridge.Sia.Crypto.Cbc.{
  length-cbc_encrypt, cbc_encrypt-IsBytes, cbc_decrypt-cbc_encrypt, append-IsBytes,
}
use ajax_bridge.Sia.Crypto.{
  IsBytes, BlockCipher, is_aes_key_size, left_zero_pad, zero_iv, is_nul, is_zero_digit,
  drop_account, normalize_decrypted_content, cbc_encrypt, encrypt_sia_content, decrypt_blocks,
  decrypt_decoded, decrypt_sia_content,
}

trim_left-replicate :
    (k : ℕ) (c : ℕ) (s : Bytes)
    → (c == b'0') ≡ false
    → trim_left is_zero_digit (replicate k b'0' ++ (c ∷ s)) ≡ c ∷ s
trim_left-replicate zero c s h = trim_left-kept is_zero_digit c s h
trim_left-replicate (suc k) c s h =
    trim_left-cut is_zero_digit b'0' (replicate k b'0' ++ (c ∷ s)) refl
    ∙ trim_left-replicate k c s h

-- The text that the padding leaves alone: it begins with neither `0` nor NUL and ends in no NUL.
-- A `|` would cut it, unless it begins with `#`.
pub record IsContent (c : ℕ) (body : Bytes) (d : ℕ) : Type 0 where
  pub first_kept : (c == b'0') ≡ false
  pub first_not_nul : (c == 0) ≡ false
  pub last_not_nul : (d == 0) ≡ false
  pub no_account : (c ≡ b'#') ⊎ (cut b'|' (c ∷ (body ++ d ∷ [])) ≡ none)

module _ (c : ℕ) (body : Bytes) (d : ℕ) (h : IsContent c body d) where
  drop_account-kept : drop_account (c ∷ (body ++ d ∷ [])) ≡ c ∷ (body ++ d ∷ [])
  unfolding drop_account has_prefix
  drop_account-kept = elim h.no_account [ inl e ↦ ground arith | inr e ↦ rw (e, drop_account) ]

  nul_kept :
      (k : ℕ)
      → trim_left is_nul (replicate k b'0' ++ (c ∷ (body ++ d ∷ [])))
        ≡ replicate k b'0' ++ (c ∷ (body ++ d ∷ []))
  nul_kept zero = trim_left-kept is_nul c (body ++ d ∷ []) h.first_not_nul
  nul_kept (suc k) = trim_left-kept is_nul b'0' (replicate k b'0' ++ (c ∷ (body ++ d ∷ []))) refl

  padding_dropped :
      (k : ℕ)
      → normalize_decrypted_content (replicate k b'0' ++ (c ∷ (body ++ d ∷ [])))
        ≡ c ∷ (body ++ d ∷ [])
  unfolding normalize_decrypted_content
  padding_dropped k =
      let text = replicate k b'0' ++ (c ∷ (body ++ d ∷ [])) in
      let split : text ≡ (replicate k b'0' ++ (c ∷ body)) ++ d ∷ [] =
        sym (append_assoc (replicate k b'0') (c ∷ body) (d ∷ [])) in
      let right : trim_right is_nul text ≡ text =
        ap (trim_right is_nul) split
        ∙ trim_right-kept is_nul (replicate k b'0' ++ (c ∷ body)) d h.last_not_nul
        ∙ sym split in
      rw (right, nul_kept k, trim_left-replicate k c (body ++ d ∷ []) h.first_kept)
        drop_account-kept

replicate-IsBytes : (k : ℕ) → IsBytes (replicate k b'0')
replicate-IsBytes zero = tt
replicate-IsBytes (suc k) = (omega arith, replicate-IsBytes k)

-- The number of zeros that the padding adds.
padding : ℕ → ℕ
padding n = if n % 16 == 0 then 0 else 16 - n % 16

left_zero_pad-replicate :
    (s : Bytes) → left_zero_pad s 16 ≡ replicate (padding (length s)) b'0' ++ s
unfolding left_zero_pad padding
left_zero_pad-replicate s = elim (Bool-cases (length s % 16 == 0)) [ inl e ↦ rw e | inr e ↦ rw e ]

padding-multiple : (n : ℕ) → padding n + n ≡ (padding n + n) / 16 * 16
unfolding padding
padding-multiple n = ground arith

not_space-encode_upper :
    (bs : Bytes) → IsBytes bs → all (λ c. not (is_space c)) (encode_upper bs) ≡ true
unfolding encode_upper hex_digit
not_space-encode_upper [] h = refl
not_space-encode_upper (b ∷ bs) h = ground (arith, not_space-encode_upper bs)

decrypt_sia_content-encode_upper :
    (aes : BlockCipher) (key bs : Bytes)
    → IsBytes bs
    → decrypt_sia_content aes key (encode_upper bs) ≡ decrypt_blocks aes key bs
unfolding decrypt_sia_content decrypt_decoded trim_space
decrypt_sia_content-encode_upper aes key bs h =
    ap (λ (t : Bytes). decrypt_decoded aes key (decode t))
      (trim-untouched is_space (encode_upper bs) (not_space-encode_upper bs h))
    ∙ ap (decrypt_decoded aes key) (decode-encode_upper bs h)

module _ (aes : BlockCipher) (key : Bytes) (c : ℕ) (body : Bytes) (d : ℕ) where
  abbrev content : Bytes
  content = c ∷ (body ++ d ∷ [])

  abbrev padded : Bytes
  padded = replicate (padding (length content)) b'0' ++ content

  abbrev ciphertext : Bytes
  ciphertext = cbc_encrypt aes (length padded / 16) key zero_iv padded

  length-padded : length padded ≡ length padded / 16 * 16
  length-padded =
      let sum : length padded ≡ padding (length content) + length content =
        length-append (replicate (padding (length content)) b'0') content
        ∙ ap (λ (n : ℕ). n + length content) (length-replicate (padding (length content)) b'0') in
      omega (arith, sum, padding-multiple (length content))

  padded-pos : 0 < length padded / 16
  padded-pos =
      let sum = length-append (replicate (padding (length content)) b'0') content in
      omega (arith, sum, length-padded)

  decrypt_blocks-ciphertext :
      is_aes_key_size (length key) ≡ true
      → IsBytes content
      → IsContent c body d
      → decrypt_blocks aes key ciphertext ≡ ok content
  unfolding decrypt_blocks
  decrypt_blocks-ciphertext k b h =
      let n = length padded / 16 in
      let size = length-cbc_encrypt aes key n zero_iv padded length-padded refl in
      let accepted : (length ciphertext == 0 || not (length ciphertext % 16 == 0)) ≡ false =
        ground (arith, size, padded-pos) in
      let blocks : length ciphertext / 16 ≡ n = omega (arith, size) in
      let opened =
        cbc_decrypt-cbc_encrypt aes key n zero_iv padded length-padded refl
          (append-IsBytes _ content (replicate-IsBytes (padding (length content))) b) in
      rw (accepted, k, blocks, opened)
        (ap {B = Result Bytes} ok (padding_dropped c body d h (padding (length content))))

  -- Under a key of a size that AES takes, what `encryptSIAContent` makes of a text is decrypted by
  -- `decryptSIAContent` to that text, whatever the block cipher and the length of the text, if the
  -- text begins and ends in bytes that padding leaves alone and holds no `|` or begins with `#`.
  pub decrypt-encrypt_sia_content :
      is_aes_key_size (length key) ≡ true
      → IsBytes content
      → IsContent c body d
      → (encrypted : Bytes) × (encrypt_sia_content aes key content ≡ ok encrypted)
        × (decrypt_sia_content aes key encrypted ≡ ok content)
  unfolding encrypt_sia_content
  decrypt-encrypt_sia_content k b h = (
    encode_upper ciphertext,
    rw (k, left_zero_pad-replicate content),
    decrypt_sia_content-encode_upper aes key ciphertext
          (cbc_encrypt-IsBytes aes key (length padded / 16) zero_iv padded length-padded refl)
        ∙ decrypt_blocks-ciphertext k b h,
  )
