-- ===== src/Hidpp/Words.antt =====
-- src/hidpp-generic.h: words of 16 bits as bytes, and back.
use libratbag.Base.{ℕ, ◌^◌, ◌<◌, length, get_or, ◌≡◌, refl, arith}
use libratbag.Hidpp.{get_be_u16, set_be_u16, get_le_u16, set_le_u16}

pub length-set_be_u16 : (w : ℕ) → length (set_be_u16 w) ≡ 2
unfolding set_be_u16
length-set_be_u16 w = refl

pub get_be_u16-set_be_u16 :
    (w : ℕ) → w < 2 ^ 16 → get_be_u16 (get_or (set_be_u16 w) 0 0) (get_or (set_be_u16 w) 1 0) ≡ w
unfolding get_be_u16 set_be_u16
get_be_u16-set_be_u16 w h = omega arith

pub get_le_u16-set_le_u16 :
    (w : ℕ) → w < 2 ^ 16 → get_le_u16 (get_or (set_le_u16 w) 0 0) (get_or (set_le_u16 w) 1 0) ≡ w
unfolding get_le_u16 set_le_u16
get_le_u16-set_le_u16 w h = omega arith
