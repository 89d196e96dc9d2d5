-- ===== src/Hidpp/Crc/Bitwise.antt =====
-- src/hidpp-generic.c, hidpp_crc_ccitt: the checksum is the CRC of the polynomial
-- x^16 + x^12 + x^5 + 1, which takes the bytes bit by bit.
use Prim.Native.Nat.{bit_xor}
use libratbag.Base.{
  ℕ, zero, suc, ◌+◌, ◌-◌, ◌*◌, ◌/◌, ◌%◌, ◌^◌, ◌≤◌, ◌<◌, true, false, List, [], ◌∷◌, ltb, ◌==◌,
  if◌then◌else◌, ◌≡◌, refl, sym, ap, ◌∙◌, arith, All, Bool-cases, inl, inr, up_to, up_to-at, ==_iff,
}
use native.Mathlib.Nat.{mul_assoc, one-le-pow, le-mul_of_pos_right}
use libratbag.Hidpp.{crc_ccitt_seed, crc_ccitt_byte, crc_ccitt_loop, hidpp_crc_ccitt}
use libratbag.Hidpp.Crc.{crc_ccitt_byte-lt}
use libratbag.Bits.Xor.{
  bit_xor-lt, bit_xor_comm, bit_xor_assoc, bit_xor-zero, bit_xor-double, bit_xor_fields, one_up,
}

abbrev pub polynomial : ℕ
polynomial = 0x1021

-- A word is shifted by a bit, and the polynomial taken from it if the bit that falls out is set.
unfoldable pub crc_bit : ℕ → ℕ
crc_bit crc = if ltb crc (2 ^ 15) then 2 * crc else bit_xor (2 * crc % 2 ^ 16) polynomial

unfoldable pub crc_bits : ℕ → ℕ → ℕ
unfolding crc_bit
crc_bits zero crc = crc
crc_bits (suc n) crc = crc_bits n (crc_bit crc)

-- The bytes one after the other, each put into the upper half of the word.
unfoldable pub crc_bitwise : ℕ → List ℕ → ℕ
unfolding crc_bits
crc_bitwise crc [] = crc
crc_bitwise crc (byte ∷ bytes) = crc_bitwise (crc_bits 8 (bit_xor crc (byte * 2 ^ 8))) bytes

crc_bit-below : (c : ℕ) → c < 2 ^ 15 → crc_bit c ≡ 2 * c
unfolding crc_bit
crc_bit-below c h = ground (arith, h)

crc_bit-above : (c r : ℕ) → c ≡ 2 ^ 15 + r → r < 2 ^ 15 → crc_bit c ≡ bit_xor (2 * r) polynomial
unfolding crc_bit
crc_bit-above c r h small =
    let over : ltb c (2 ^ 15) ≡ false = ground arith in
    let rest : 2 * c % 2 ^ 16 ≡ 2 * r = omega arith in rw (over, rest)

crc_bit-lt : (c : ℕ) → c < 2 ^ 16 → crc_bit c < 2 ^ 16
unfolding crc_bit
crc_bit-lt c h = elim (Bool-cases (ltb c (2 ^ 15))) [
  | inl e ↦ let small : c < 2 ^ 15 = ground arith in rw e (omega arith)
  | inr e ↦ rw e (bit_xor-lt 16 (2 * c % 2 ^ 16) polynomial (omega arith) (omega arith))
]

-- With the upper bit set, the rest is a word of 15 bits.
crc_bit-above_bit_xor :
    (a b : ℕ)
    → a < 2 ^ 15
    → b < 2 ^ 15
    → crc_bit (bit_xor (2 ^ 15 + a) b) ≡ bit_xor (crc_bit (2 ^ 15 + a)) (2 * b)
crc_bit-above_bit_xor a b ha hb =
    let split : bit_xor (2 ^ 15 + a) b ≡ 2 ^ 15 + bit_xor a b =
      let low : b ≡ 0 * 2 ^ 15 + b = omega arith in
      ap (bit_xor (2 ^ 15 + a)) low ∙ bit_xor_fields 15 1 a 0 b ha hb in
    crc_bit-above (bit_xor (2 ^ 15 + a) b) (bit_xor a b) split (bit_xor-lt 15 a b ha hb)
    ∙ ap (λ (t : ℕ). bit_xor t polynomial) (sym (bit_xor-double a b))
    ∙ bit_xor_assoc 16 (2 * a) (2 * b) polynomial (omega arith) (omega arith) (omega arith)
    ∙ ap (bit_xor (2 * a)) (bit_xor_comm 16 (2 * b) polynomial (omega arith) (omega arith))
    ∙ sym (bit_xor_assoc 16 (2 * a) polynomial (2 * b) (omega arith) (omega arith) (omega arith))
    ∙ ap (λ (t : ℕ). bit_xor t (2 * b)) (sym (crc_bit-above (2 ^ 15 + a) a refl ha))

crc_bit-bit_xor :
    (a b : ℕ) → a < 2 ^ 16 → b < 2 ^ 15 → crc_bit (bit_xor a b) ≡ bit_xor (crc_bit a) (2 * b)
crc_bit-bit_xor a b ha hb = elim (Bool-cases (ltb a (2 ^ 15))) [
  | inl e ↦
      let small : a < 2 ^ 15 = ground arith in
      crc_bit-below (bit_xor a b) (bit_xor-lt 15 a b small hb)
      ∙ sym (bit_xor-double a b)
      ∙ ap (λ (t : ℕ). bit_xor t (2 * b)) (sym (crc_bit-below a small))
  | inr e ↦
      let over : 2 ^ 15 ≤ a = ground arith in
      let split : a ≡ 2 ^ 15 + (a - 2 ^ 15) = omega arith in
      ap (λ (t : ℕ). crc_bit (bit_xor t b)) split
      ∙ crc_bit-above_bit_xor (a - 2 ^ 15) b (omega arith) hb
      ∙ ap (λ (t : ℕ). bit_xor (crc_bit t) (2 * b)) (sym split)
]

-- What is low enough is only shifted.
crc_bits-bit_xor :
    (n a b : ℕ)
    → a < 2 ^ 16
    → b * 2 ^ n < 2 ^ 16
    → crc_bits n (bit_xor a b) ≡ bit_xor (crc_bits n a) (b * 2 ^ n)
unfolding crc_bits
crc_bits-bit_xor zero a b ha hb = let same : b ≡ b * 2 ^ 0 = omega arith in ap (bit_xor a) same
crc_bits-bit_xor (suc n) a b ha hb =
    let shift : 2 * b * 2 ^ n ≡ b * 2 ^ suc n = omega (arith, one_up b n, mul_assoc 2 b (2 ^ n)) in
    let doubled : b ≤ b * 2 ^ n = le-mul_of_pos_right b (omega (arith, one-le-pow n 2)) in
    ap (crc_bits n) (crc_bit-bit_xor a b ha (omega (arith, one_up b n, doubled)))
    ∙ crc_bits-bit_xor n (crc_bit a) (2 * b) (crc_bit-lt a ha) (omega (arith, shift))
    ∙ ap (bit_xor (crc_bits n (crc_bit a))) shift

-- The three shifts of the loop.
quick_sum : ℕ → ℕ
quick_sum temp =
    let quick = bit_xor temp (temp / 2 ^ 4) in
    let quick5 = quick * 2 ^ 5 % 2 ^ 16 in bit_xor (bit_xor quick quick5) (quick5 * 2 ^ 7 % 2 ^ 16)

quick_found : up_to (λ t. crc_bits 8 (t * 2 ^ 8) == quick_sum t) 255 ≡ true
unfolding up_to quick_sum crc_bits crc_bit
quick_found = refl

quick_sum-bits : (temp : ℕ) → temp < 2 ^ 8 → crc_bits 8 (temp * 2 ^ 8) ≡ quick_sum temp
quick_sum-bits temp h =
    let found : (crc_bits 8 (temp * 2 ^ 8) == quick_sum temp) ≡ true =
      up_to-at (λ t. crc_bits 8 (t * 2 ^ 8) == quick_sum t) 255 temp (omega arith) quick_found in
    (==_iff (crc_bits 8 (temp * 2 ^ 8)) (quick_sum temp)).0 found

quick_sum-lt : (temp : ℕ) → temp < 2 ^ 8 → quick_sum temp < 2 ^ 16
unfolding quick_sum
quick_sum-lt temp h =
    let quick : bit_xor temp (temp / 2 ^ 4) < 2 ^ 16 =
      bit_xor-lt 16 temp (temp / 2 ^ 4) (omega arith) (omega arith) in
    bit_xor-lt 16 _ _ (bit_xor-lt 16 _ _ quick (omega arith)) (omega arith)

-- A byte put into the upper half.
byte_in :
    (crc byte : ℕ)
    → crc < 2 ^ 16
    → byte < 2 ^ 8
    → bit_xor crc (byte * 2 ^ 8) ≡ bit_xor (bit_xor (crc / 2 ^ 8) byte * 2 ^ 8) (crc % 2 ^ 8)
byte_in crc byte word small =
    let high = crc / 2 ^ 8 in
    let low = crc % 2 ^ 8 in
    let temp = bit_xor high byte in
    let temp_small : temp < 2 ^ 8 = bit_xor-lt 8 high byte (omega arith) small in
    let parts : crc ≡ high * 2 ^ 8 + low = omega arith in
    let byte_up : byte * 2 ^ 8 ≡ byte * 2 ^ 8 + 0 = omega arith in
    let temp_up : temp * 2 ^ 8 + 0 ≡ temp * 2 ^ 8 = omega arith in
    let low_up : 0 * 2 ^ 8 + low ≡ low = omega arith in
    let low_zero : bit_xor low 0 ≡ low = bit_xor-zero 8 low (omega arith) in
    let zero_low : bit_xor 0 low ≡ low =
      bit_xor_comm 8 0 low (omega arith) (omega arith) ∙ low_zero in
    ap (λ (t : ℕ). bit_xor t (byte * 2 ^ 8)) parts
    ∙ ap (bit_xor (high * 2 ^ 8 + low)) byte_up
    ∙ bit_xor_fields 8 high low byte 0 (omega arith) (omega arith)
    ∙ ap (λ (t : ℕ). temp * 2 ^ 8 + t) (low_zero ∙ sym zero_low)
    ∙ ap (λ (t : ℕ). t * 2 ^ 8 + bit_xor 0 low) (sym (bit_xor-zero 8 temp temp_small))
    ∙ sym (bit_xor_fields 8 temp 0 0 low (omega arith) (omega arith))
    ∙ ap (λ (t : ℕ). bit_xor t (0 * 2 ^ 8 + low)) temp_up
    ∙ ap (bit_xor (temp * 2 ^ 8)) low_up

-- One byte: the shortcut of the loop is eight rounds.
crc_ccitt_byte-bits :
    (crc byte : ℕ)
    → crc < 2 ^ 16
    → byte < 2 ^ 8
    → crc_ccitt_byte crc byte ≡ crc_bits 8 (bit_xor crc (byte * 2 ^ 8))
unfolding crc_ccitt_byte quick_sum
crc_ccitt_byte-bits crc byte word small =
    let high = crc / 2 ^ 8 in
    let low = crc % 2 ^ 8 in
    let temp = bit_xor high byte in
    let temp_small : temp < 2 ^ 8 = bit_xor-lt 8 high byte (omega arith) small in
    let quick = bit_xor temp (temp / 2 ^ 4) in
    let quick_small : quick < 2 ^ 16 =
      bit_xor-lt 16 temp (temp / 2 ^ 4) (omega (arith, temp_small)) (omega (arith, temp_small)) in
    let quick5 = quick * 2 ^ 5 % 2 ^ 16 in
    let quick12 = quick5 * 2 ^ 7 % 2 ^ 16 in
    let shifted : crc * 2 ^ 8 % 2 ^ 16 ≡ low * 2 ^ 8 = omega arith in
    let shifted_small : low * 2 ^ 8 < 2 ^ 16 = omega arith in
    ap (λ (t : ℕ). bit_xor (bit_xor (bit_xor t quick) quick5) quick12) shifted
    ∙ ap (λ (t : ℕ). bit_xor t quick12)
        (bit_xor_assoc 16 (low * 2 ^ 8) quick quick5 shifted_small quick_small (omega arith))
    ∙ bit_xor_assoc 16 (low * 2 ^ 8) (bit_xor quick quick5) quick12 shifted_small
        (bit_xor-lt 16 quick quick5 quick_small (omega arith)) (omega arith)
    ∙ bit_xor_comm 16 (low * 2 ^ 8) (quick_sum temp) shifted_small (quick_sum-lt temp temp_small)
    ∙ ap (λ (t : ℕ). bit_xor t (low * 2 ^ 8)) (sym (quick_sum-bits temp temp_small))
    ∙ sym (crc_bits-bit_xor 8 (temp * 2 ^ 8) low (omega (arith, temp_small)) shifted_small)
    ∙ ap (crc_bits 8) (sym (byte_in crc byte word small))

loop-bitwise :
    (crc : ℕ) (bytes : List ℕ)
    → crc < 2 ^ 16
    → All (λ b. b < 2 ^ 8) bytes
    → crc_ccitt_loop crc bytes ≡ crc_bitwise crc bytes
unfolding crc_ccitt_loop crc_bitwise
loop-bitwise crc [] word small = refl
loop-bitwise crc (byte ∷ bytes) word (small, rest) =
    loop-bitwise (crc_ccitt_byte crc byte) bytes (crc_ccitt_byte-lt crc byte word small) rest
    ∙ ap (λ (t : ℕ). crc_bitwise t bytes) (crc_ccitt_byte-bits crc byte word small)

-- The checksum of any bytes is the one that takes them bit by bit: each byte is put into the upper
-- half of the word, which is then divided by the polynomial in eight rounds.
pub hidpp_crc_ccitt-bitwise :
    (bytes : List ℕ) → All (λ b. b < 2 ^ 8) bytes → hidpp_crc_ccitt bytes ≡ crc_bitwise 0xFFFF bytes
unfolding hidpp_crc_ccitt
hidpp_crc_ccitt-bitwise bytes small = loop-bitwise crc_ccitt_seed bytes (omega arith) small
