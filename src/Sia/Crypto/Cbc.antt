-- ===== src/Sia/Crypto/Cbc.antt =====
-- CBC decryption undoes CBC encryption, for every block cipher.
use ajax_bridge.Prelude.{
  ℕ, zero, suc, ◌*◌, ◌≤◌, ◌≡◌, refl, sym, ap, ◌∙◌, arith, [], ◌∷◌, ◌++◌, Bytes, length, take, drop,
  length-append, length-drop, take-length_append, drop-length_append, take-append-drop,
}
use ajax_bridge.Word.{xor-lt, xor_cancel}
use ajax_bridge.Sia.Crypto.{IsBytes, IsBlock, BlockCipher, xor_bytes, cbc_encrypt, cbc_decrypt}

xor_bytes-cancel : (s t : Bytes) → length s ≡ length t → IsBytes s → xor_bytes (xor_bytes s t) t ≡ s
unfolding xor_bytes
xor_bytes-cancel [] t e h = refl
xor_bytes-cancel (a ∷ s) [] e h = absurd (omega arith)
xor_bytes-cancel (a ∷ s) (b ∷ t) e h = ground (arith, xor_cancel 8 a b, xor_bytes-cancel s t)

xor_bytes-IsBytes : (s t : Bytes) → IsBytes (xor_bytes s t)
unfolding xor_bytes
xor_bytes-IsBytes [] t = tt
xor_bytes-IsBytes (a ∷ s) [] = tt
xor_bytes-IsBytes (a ∷ s) (b ∷ t) = (xor-lt 8 a b, xor_bytes-IsBytes s t)

length-xor_bytes : (s t : Bytes) → length s ≡ length t → length (xor_bytes s t) ≡ length s
unfolding xor_bytes
length-xor_bytes [] t e = refl
length-xor_bytes (a ∷ s) [] e = absurd (omega arith)
length-xor_bytes (a ∷ s) (b ∷ t) e = omega (arith, length-xor_bytes s t)

take-IsBytes : (n : ℕ) (s : Bytes) → IsBytes s → IsBytes (take n s)
take-IsBytes zero s h = tt
take-IsBytes (suc n) [] h = tt
take-IsBytes (suc n) (x ∷ s) h = (h.0, take-IsBytes n s h.1)

drop-IsBytes : (n : ℕ) (s : Bytes) → IsBytes s → IsBytes (drop n s)
drop-IsBytes zero s h = h
drop-IsBytes (suc n) [] h = tt
drop-IsBytes (suc n) (x ∷ s) h = drop-IsBytes n s h.1

pub append-IsBytes : (s t : Bytes) → IsBytes s → IsBytes t → IsBytes (s ++ t)
append-IsBytes [] t h k = k
append-IsBytes (x ∷ s) t h k = (h.0, append-IsBytes s t h.1 k)

length-take_le : (n : ℕ) (s : Bytes) → n ≤ length s → length (take n s) ≡ n
length-take_le zero s h = refl
length-take_le (suc n) [] h = absurd (omega arith)
length-take_le (suc n) (x ∷ s) h = omega (arith, length-take_le n s)

module _ (aes : BlockCipher) (key : Bytes) where
  -- The block that is encrypted in one step.
  mixed-IsBlock :
      (s previous : Bytes)
      → 16 ≤ length s
      → length previous ≡ 16
      → IsBlock (xor_bytes (take 16 s) previous)
  mixed-IsBlock s previous h p = (
    length-xor_bytes (take 16 s) previous (length-take_le 16 s h ∙ sym p) ∙ length-take_le 16 s h,
    xor_bytes-IsBytes (take 16 s) previous,
  )

  pub length-cbc_encrypt :
      (n : ℕ) (previous s : Bytes)
      → length s ≡ n * 16
      → length previous ≡ 16
      → length (cbc_encrypt aes n key previous s) ≡ n * 16
  unfolding cbc_encrypt
  length-cbc_encrypt zero previous s e p = omega arith
  length-cbc_encrypt (suc n) previous s e p =
      let block =
        aes.encrypt-IsBlock key (xor_bytes (take 16 s) previous)
          (mixed-IsBlock s previous (omega arith) p) in
      length-append (aes.encrypt_block key (xor_bytes (take 16 s) previous)) _
      ∙ omega (
        arith,
        block.0,
        length-cbc_encrypt n (aes.encrypt_block key (xor_bytes (take 16 s) previous)) (drop 16 s)
            (omega (arith, length-drop 16 s)) block.0,
      )

  pub cbc_encrypt-IsBytes :
      (n : ℕ) (previous s : Bytes)
      → length s ≡ n * 16
      → length previous ≡ 16
      → IsBytes (cbc_encrypt aes n key previous s)
  unfolding cbc_encrypt
  cbc_encrypt-IsBytes zero previous s e p = tt
  cbc_encrypt-IsBytes (suc n) previous s e p =
      let block =
        aes.encrypt-IsBlock key (xor_bytes (take 16 s) previous)
          (mixed-IsBlock s previous (omega arith) p) in
      append-IsBytes _ _ block.1
        (cbc_encrypt-IsBytes n _ (drop 16 s) (omega (arith, length-drop 16 s)) block.0)

  -- Decryption from the same previous block gives the text back.
  pub cbc_decrypt-cbc_encrypt :
      (n : ℕ) (previous s : Bytes)
      → length s ≡ n * 16
      → length previous ≡ 16
      → IsBytes s
      → cbc_decrypt aes n key previous (cbc_encrypt aes n key previous s) ≡ s
  unfolding cbc_encrypt cbc_decrypt
  cbc_decrypt-cbc_encrypt zero previous [] e p h = refl
  cbc_decrypt-cbc_encrypt zero previous (x ∷ s) e p h = absurd (omega arith)
  cbc_decrypt-cbc_encrypt (suc n) previous s e p h =
      let m = xor_bytes (take 16 s) previous in
      let c = aes.encrypt_block key m in
      let rest = cbc_encrypt aes n key c (drop 16 s) in
      let block = aes.encrypt-IsBlock key m (mixed-IsBlock s previous (omega arith) p) in
      let first : take 16 (c ++ rest) ≡ c =
        ap (λ (k : ℕ). take k (c ++ rest)) (sym block.0) ∙ take-length_append c rest in
      let others : drop 16 (c ++ rest) ≡ rest =
        ap (λ (k : ℕ). drop k (c ++ rest)) (sym block.0) ∙ drop-length_append c rest in
      let opened : xor_bytes (aes.decrypt_block key c) previous ≡ take 16 s =
        ap (λ (b : Bytes). xor_bytes b previous)
          (aes.decrypt-encrypt key m (mixed-IsBlock s previous (omega arith) p))
        ∙ xor_bytes-cancel (take 16 s) previous (length-take_le 16 s (omega arith) ∙ sym p)
            (take-IsBytes 16 s h) in
      let ih =
        cbc_decrypt-cbc_encrypt n c (drop 16 s) (omega (arith, length-drop 16 s)) block.0
          (drop-IsBytes 16 s h) in
      rw (first, others, opened, ih) (take-append-drop 16 s)
