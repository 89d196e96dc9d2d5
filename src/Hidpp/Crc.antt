-- ===== src/Hidpp/Crc.antt =====
-- src/hidpp-generic.c, hidpp_crc_ccitt: the checksum is a word of 16 bits.
pub mod Bitwise
use Prim.Native.Nat.{bit_xor}
use libratbag.Base.{ℕ, ◌/◌, ◌^◌, ◌<◌, List, [], ◌∷◌, arith}
use libratbag.Base.{All}
use libratbag.Hidpp.{crc_ccitt_seed, crc_ccitt_byte, crc_ccitt_loop, hidpp_crc_ccitt}
use libratbag.Bits.Xor.{bit_xor-lt}

pub crc_ccitt_byte-lt :
    (crc byte : ℕ) → crc < 2 ^ 16 → byte < 2 ^ 8 → crc_ccitt_byte crc byte < 2 ^ 16
unfolding crc_ccitt_byte
crc_ccitt_byte-lt crc byte word small =
    let temp : bit_xor (crc / 2 ^ 8) byte < 2 ^ 8 =
      bit_xor-lt 8 (crc / 2 ^ 8) byte (omega arith) small in
    let quick : bit_xor (bit_xor (crc / 2 ^ 8) byte) (bit_xor (crc / 2 ^ 8) byte / 2 ^ 4) < 2 ^ 16 =
      bit_xor-lt 16 _ _ (omega (arith, temp)) (omega (arith, temp)) in
    bit_xor-lt 16 _ _ (bit_xor-lt 16 _ _ (bit_xor-lt 16 _ _ (omega arith) quick) (omega arith))
      (omega arith)

crc_ccitt_loop-lt :
    (crc : ℕ) (bytes : List ℕ)
    → crc < 2 ^ 16
    → All (λ b. b < 2 ^ 8) bytes
    → crc_ccitt_loop crc bytes < 2 ^ 16
unfolding crc_ccitt_loop
crc_ccitt_loop-lt crc [] word small = word
crc_ccitt_loop-lt crc (b ∷ bytes) word (small, rest) =
    crc_ccitt_loop-lt (crc_ccitt_byte crc b) bytes (crc_ccitt_byte-lt crc b word small) rest

pub hidpp_crc_ccitt-lt :
    (bytes : List ℕ) → All (λ b. b < 2 ^ 8) bytes → hidpp_crc_ccitt bytes < 2 ^ 16
unfolding hidpp_crc_ccitt
hidpp_crc_ccitt-lt bytes small = crc_ccitt_loop-lt crc_ccitt_seed bytes (omega arith) small
