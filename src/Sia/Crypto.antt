-- ===== src/Sia/Crypto.antt =====
-- bridge/internal/sia/crypto.go. The AES block cipher is a parameter; its use in CBC mode with a zero
-- initialisation vector (crypto/cipher) is written out.
pub mod Cbc
pub mod RoundTrip
use ajax_bridge.Prelude.{
  ℕ, zero, suc, ◌+◌, ◌-◌, ◌/◌, ◌%◌, ◌<◌, ◌≡◌, Bool, true, false, not, ◌&&◌, ◌||◌, Option, none,
  some, [], ◌∷◌, ◌++◌, ◌==◌, if◌then◌else◌, Bytes, is_empty, length, take, drop, replicate, All,
}
use ajax_bridge.Word.{xor}
use ajax_bridge.Text.{cut, has_prefix, trim_left, trim_right, trim_space}
use ajax_bridge.Hex.{Decoded, decoded, invalid_byte, odd_length, decode, encode_upper}
use ajax_bridge.Sia.Errors.{
  SiaError, bad_aes_key, invalid_hex_byte, odd_hex_length, not_block_multiple, bad_key_size, Result,
  ok, err, ◌>>=◌,
}

abbrev pub IsBytes : Bytes → Type 0
IsBytes = All (λ b. b < 256)

-- A block of 16 bytes.
abbrev pub IsBlock : Bytes → Type 0
IsBlock s = (length s ≡ 16) × IsBytes s

-- The block functions of crypto/aes under a key, and what its documentation says of them: a block
-- is encrypted to a block, and decryption undoes that.
pub record BlockCipher : Type 0 where
  pub encrypt_block : Bytes → Bytes → Bytes
  pub decrypt_block : Bytes → Bytes → Bytes
  pub encrypt-IsBlock : (key s : Bytes) → IsBlock s → IsBlock (encrypt_block key s)
  pub decrypt-encrypt : (key s : Bytes) → IsBlock s → decrypt_block key (encrypt_block key s) ≡ s

abbrev pub block_size : ℕ
block_size = 16

unfoldable pub is_aes_key_size : ℕ → Bool
is_aes_key_size size = size == 16 || size == 24 || size == 32

-- `none` is the nil key of an empty setting.
unfoldable pub raw_key : Bytes → Result (Option Bytes)
raw_key value = if is_aes_key_size (length value) then ok (some value) else err bad_aes_key

unfoldable pub decode_aes_key : Bytes → Result (Option Bytes)
decode_aes_key setting =
    let value = trim_space setting in
    if is_empty value then ok none else elim (decode value) [
      | decoded key ↦ if is_aes_key_size (length key) then ok (some key) else raw_key value
      | _ ↦ raw_key value
    ]

unfoldable pub left_zero_pad : Bytes → ℕ → Bytes
left_zero_pad value size =
    if length value % size == 0 then value else replicate (size - length value % size) b'0' ++ value

-- The exclusive or of two blocks.
unfoldable pub xor_bytes : Bytes → Bytes → Bytes
xor_bytes [] bs = []
xor_bytes (a ∷ as') [] = []
xor_bytes (a ∷ as') (b ∷ bs) = xor 8 a b ∷ xor_bytes as' bs

abbrev pub zero_iv : Bytes
zero_iv = replicate 16 0

abbrev pub is_nul : ℕ → Bool
is_nul c = c == 0

abbrev pub is_zero_digit : ℕ → Bool
is_zero_digit c = c == b'0'

-- What stands behind the first `|` of a text that does not begin with `#`.
unfoldable pub drop_account : Bytes → Bytes
drop_account value = elim (cut b'|' value) [
  | none ↦ value
  | some (before, behind) ↦ if not (has_prefix value (b'#' ∷ [])) then behind else value
]

unfoldable pub normalize_decrypted_content : Bytes → Bytes
normalize_decrypted_content value =
    drop_account (trim_left is_zero_digit (trim_left is_nul (trim_right is_nul value)))

module _ (aes : BlockCipher) where
  -- The CBC mode of crypto/cipher on `n` blocks: cipher.NewCBCEncrypter(block, iv).CryptBlocks, and the
  -- decrypter.
  unfoldable pub cbc_encrypt : ℕ → Bytes → Bytes → Bytes → Bytes
  cbc_encrypt zero key previous s = []
  cbc_encrypt (suc n) key previous s =
      let c = aes.encrypt_block key (xor_bytes (take 16 s) previous) in
      c ++ cbc_encrypt n key c (drop 16 s)

  unfoldable pub cbc_decrypt : ℕ → Bytes → Bytes → Bytes → Bytes
  cbc_decrypt zero key previous s = []
  cbc_decrypt (suc n) key previous s =
      let c = take 16 s in
      xor_bytes (aes.decrypt_block key c) previous ++ cbc_decrypt n key c (drop 16 s)

  -- aes.NewCipher refuses a key of another size.
  unfoldable pub encrypt_sia_content : Bytes → Bytes → Result Bytes
  encrypt_sia_content key plaintext =
      if is_aes_key_size (length key)
      then (let padded = left_zero_pad plaintext block_size in
          ok (encode_upper (cbc_encrypt (length padded / 16) key zero_iv padded)))
      else err (bad_key_size (length key))

  unfoldable pub decrypt_blocks : Bytes → Bytes → Result Bytes
  decrypt_blocks key ciphertext =
      if length ciphertext == 0 || not (length ciphertext % block_size == 0)
      then err (not_block_multiple (length ciphertext))
      else if is_aes_key_size (length key)
      then ok (
          normalize_decrypted_content (cbc_decrypt (length ciphertext / 16) key zero_iv ciphertext))
      else err (bad_key_size (length key))

  unfoldable pub decrypt_decoded : Bytes → Decoded → Result Bytes
  decrypt_decoded key (decoded ciphertext) = decrypt_blocks key ciphertext
  decrypt_decoded key (invalid_byte c) = err (invalid_hex_byte c)
  decrypt_decoded key odd_length = err odd_hex_length

  unfoldable pub decrypt_sia_content : Bytes → Bytes → Result Bytes
  decrypt_sia_content key encrypted_hex = decrypt_decoded key (decode (trim_space encrypted_hex))
