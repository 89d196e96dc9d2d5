-- ===== src/Hidpp.antt =====
-- src/hidpp-generic.c, src/hidpp-generic.h: the words of the HID++ protocol and its checksum. A
-- byte is a number below 256, so that the `|` of bytes at different places is their sum.
pub mod Words
pub mod Crc
use Prim.Native.Nat.{bit_xor}
use libratbag.Base.{ℕ, ◌+◌, ◌*◌, ◌/◌, ◌%◌, ◌^◌, List, [], ◌∷◌}

-- `(buf[0] << 8) | buf[1]`
unfoldable pub get_be_u16 : ℕ → ℕ → ℕ
get_be_u16 high low = high * 256 + low

-- `buf[0] = value >> 8; buf[1] = value & 0xFF`
unfoldable pub set_be_u16 : ℕ → List ℕ
set_be_u16 value = value / 256 % 256 ∷ value % 256 ∷ []

-- `(buf[1] << 8) | buf[0]`
unfoldable pub get_le_u16 : ℕ → ℕ → ℕ
get_le_u16 low high = high * 256 + low

-- `buf[0] = value & 0xFF; buf[1] = value >> 8`
unfoldable pub set_le_u16 : ℕ → List ℕ
set_le_u16 value = value % 256 ∷ value / 256 % 256 ∷ []

abbrev pub crc_ccitt_seed : ℕ
crc_ccitt_seed = 0xFFFF

-- One round of the loop, on words of 16 bits.
unfoldable pub crc_ccitt_byte : ℕ → ℕ → ℕ
crc_ccitt_byte crc byte =
    let temp = bit_xor (crc / 2 ^ 8) byte in
    let quick = bit_xor temp (temp / 2 ^ 4) in
    let quick5 = quick * 2 ^ 5 % 2 ^ 16 in
    let quick12 = quick5 * 2 ^ 7 % 2 ^ 16 in
    bit_xor (bit_xor (bit_xor (crc * 2 ^ 8 % 2 ^ 16) quick) quick5) quick12

unfoldable pub crc_ccitt_loop : ℕ → List ℕ → ℕ
unfolding crc_ccitt_byte
crc_ccitt_loop crc [] = crc
crc_ccitt_loop crc (byte ∷ bytes) = crc_ccitt_loop (crc_ccitt_byte crc byte) bytes

unfoldable pub hidpp_crc_ccitt : List ℕ → ℕ
unfolding crc_ccitt_loop
hidpp_crc_ccitt bytes = crc_ccitt_loop crc_ccitt_seed bytes
