-- ===== src/Sia/Crc/Standard.antt =====
-- The loop of `CRC16`, which shifts the byte beside the register, computes the reflected CRC-16 of
-- polynomial 0x8005 (CRC-16/ARC), which adds the byte to the register first.
use native.Mathlib.Nat.{pow-suc}
use ajax_bridge.Prelude.{
  ℕ, zero, suc, ◌/◌, ◌%◌, ◌^◌, ◌<◌, ◌≡◌, refl, sym, ap, ◌∙◌, arith, [], ◌∷◌, ◌==◌, if◌then◌else◌,
  Bytes, All,
}
use ajax_bridge.Word.{xor, xor-lt, xor-zero, xor-half, xor-parity, xor_swap_right, xor_widen}
use ajax_bridge.Sia.Crc.{crc_turn, crc_turns, crc_bytes}

-- One shift of the standard register.
abbrev pub shift : ℕ → ℕ
shift r = if r % 2 == 1 then xor 16 (r / 2) 0xA001 else r / 2

abbrev pub shifts : ℕ → ℕ → ℕ
shifts zero r = r
shifts (suc n) r = shifts n (shift r)

pub standard_crc : ℕ → Bytes → ℕ
standard_crc r [] = r
standard_crc r (b ∷ bs) = standard_crc (shifts 8 (xor 16 r b)) bs

temp-crc_turn : (c t : ℕ) → t < 65536 → (crc_turn (c, t)).1 ≡ t / 2
unfolding crc_turn
temp-crc_turn c t h =
    let bit : c % 2 / 2 ≡ 0 = omega arith in
    rw (xor-half 15 t (c % 2), bit, xor-zero 15 (t / 2) (omega arith))

crc_turn-lt : (c t : ℕ) → c < 65536 → (crc_turn (c, t)).0 < 65536
unfolding crc_turn
crc_turn-lt c t h = ground (arith, xor-lt 16 (c / 2) 0xA001)

-- The register of the source and what is left of the byte add up to the standard register.
sum-crc_turn :
    (c t : ℕ) → c < 65536 → t < 65536 → xor 16 (crc_turn (c, t)).0 (t / 2) ≡ shift (xor 16 c t)
unfolding crc_turn
sum-crc_turn c t h k =
    let half : xor 16 c t / 2 ≡ xor 16 (c / 2) (t / 2) =
      xor-half 15 c t ∙ sym (xor_widen 15 (c / 2) (t / 2) (omega arith) (omega arith)) in
    let bit : xor 16 c t % 2 ≡ xor 16 t (c % 2) % 2 =
      omega (arith, xor-parity 15 c t, xor-parity 15 t (c % 2)) in
    rw half (ground (arith, bit, xor_swap_right 16 (c / 2) (t / 2) 0xA001))

crc_turns-shifts :
    (n c t : ℕ) → c < 65536 → t < 65536 → t < 2 ^ n → (crc_turns n (c, t)).0 ≡ shifts n (xor 16 c t)
unfolding crc_turns
crc_turns-shifts zero c t h k s =
    let none_left : t ≡ 0 = omega arith in rw (none_left, xor-zero 16 c h)
crc_turns-shifts (suc n) c t h k s =
    let e : crc_turn (c, t) ≡ ((crc_turn (c, t)).0, t / 2) = ground (arith, temp-crc_turn c t k) in
    ap (λ (s : ℕ × ℕ). (crc_turns n s).0) e
    ∙ crc_turns-shifts n (crc_turn (c, t)).0 (t / 2) (crc_turn-lt c t h) (omega arith)
        (omega (arith, pow-suc 2 n))
    ∙ ap (shifts n) (sum-crc_turn c t h k)

crc_turns-lt : (n c t : ℕ) → c < 65536 → (crc_turns n (c, t)).0 < 65536
unfolding crc_turns
crc_turns-lt zero c t h = h
crc_turns-lt (suc n) c t h =
    crc_turns-lt n (crc_turn (c, t)).0 (crc_turn (c, t)).1 (crc_turn-lt c t h)

shift-lt : (r : ℕ) → r < 65536 → shift r < 65536
shift-lt r h = ground (arith, xor-lt 16 (r / 2) 0xA001)

shifts-lt : (n r : ℕ) → r < 65536 → shifts n r < 65536
shifts-lt zero r h = h
shifts-lt (suc n) r h = shifts-lt n (shift r) (shift-lt r h)

-- For every text of bytes, and from every 16-bit register, the loops of `CRC16` leave the register
-- that the standard CRC-16/ARC leaves.
pub crc_bytes-eq-standard_crc :
    (bs : Bytes) (r : ℕ) → r < 65536 → All (λ b. b < 256) bs → crc_bytes r bs ≡ standard_crc r bs
unfolding crc_bytes standard_crc
crc_bytes-eq-standard_crc [] r h k = refl
crc_bytes-eq-standard_crc (b ∷ bs) r h k =
    rw (crc_turns-shifts 8 r b h (omega arith) (omega arith))
      (crc_bytes-eq-standard_crc bs (shifts 8 (xor 16 r b)) (shifts-lt 8 _ (xor-lt 16 r b)) k.1)

pub crc_bytes-lt : (bs : Bytes) (r : ℕ) → r < 65536 → crc_bytes r bs < 65536
unfolding crc_bytes
crc_bytes-lt [] r h = h
crc_bytes-lt (b ∷ bs) r h = crc_bytes-lt bs _ (crc_turns-lt 8 r b h)
