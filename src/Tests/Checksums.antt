-- ===== src/Tests/Checksums.antt =====
-- The checksum of the digits from 1 to 9, by which CRCs are told apart.
use libratbag.Base.{ℕ, List, [], ◌∷◌, ◌≡◌, refl, arith}
use libratbag.Hidpp.{hidpp_crc_ccitt, crc_ccitt_loop, crc_ccitt_byte}
use libratbag.Hidpp.Crc.Bitwise.{crc_bitwise, hidpp_crc_ccitt-bitwise}

abbrev digits : List ℕ
digits = b'1' ∷ b'2' ∷ b'3' ∷ b'4' ∷ b'5' ∷ b'6' ∷ b'7' ∷ b'8' ∷ b'9' ∷ []

digits_checksum : hidpp_crc_ccitt digits ≡ 0x29B1
unfolding hidpp_crc_ccitt crc_ccitt_loop crc_ccitt_byte
digits_checksum = refl

hidpp_crc_ccitt-bitwise_example : hidpp_crc_ccitt (7 ∷ 200 ∷ []) ≡ crc_bitwise 0xFFFF (7 ∷ 200 ∷ [])
hidpp_crc_ccitt-bitwise_example =
    hidpp_crc_ccitt-bitwise (7 ∷ 200 ∷ []) (omega arith, (omega arith, tt))
