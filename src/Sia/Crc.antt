-- ===== src/Sia/Crc.antt =====
-- bridge/internal/sia/crc.go
pub mod Standard
use ajax_bridge.Prelude.{ℕ, zero, suc, ◌/◌, ◌%◌, [], ◌∷◌, ◌==◌, if◌then◌else◌, Bytes}
use ajax_bridge.Word.{xor}
use ajax_bridge.Hex.{hex_digit}

-- One turn of the inner loop, on `crc` and `temp`, both uint16.
unfoldable pub crc_turn : ℕ × ℕ → ℕ × ℕ
crc_turn (crc, temp) =
    let mixed = xor 16 temp (crc % 2) in
    let shifted = crc / 2 in (if mixed % 2 == 1 then xor 16 shifted 0xA001 else shifted, mixed / 2)

unfoldable pub crc_turns : ℕ → ℕ × ℕ → ℕ × ℕ
crc_turns zero s = s
crc_turns (suc n) s = crc_turns n (crc_turn s)

-- The outer loop over the bytes.
unfoldable pub crc_bytes : ℕ → Bytes → ℕ
crc_bytes crc [] = crc
crc_bytes crc (b ∷ bs) = crc_bytes (crc_turns 8 (crc, b)).0 bs

unfoldable pub upper_hex16 : ℕ → Bytes
upper_hex16 value =
    hex_digit (value / 4096 % 16)
    ∷ hex_digit (value / 256 % 16)
    ∷ hex_digit (value / 16 % 16)
    ∷ hex_digit (value % 16)
    ∷ []

unfoldable pub crc16 : Bytes → Bytes
crc16 value = upper_hex16 (crc_bytes 0 value)
