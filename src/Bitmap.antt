-- ===== src/Bitmap.antt =====
-- src/libratbag-util.h: a set of small numbers as an array of `unsigned long`. A `long` has 64
-- bits (LP64). An index past the array is undefined in C; here it reads 0 and writes nothing, and
-- the callers stay inside.
pub mod Laws
use libratbag.Base.{
  ℕ, ◌-◌, ◌/◌, ◌%◌, ◌^◌, bit_and, bit_or, Bool, true, false, not, List, get_or, set, ◌==◌,
  if◌then◌else◌,
}

abbrev pub long_bits : ℕ
long_bits = 64

-- Reads the bit with `array[bit / LONG_BITS] & (1LL << (bit % LONG_BITS))`.
unfoldable pub long_bit_is_set : List ℕ → ℕ → Bool
long_bit_is_set array bit =
    not (bit_and (get_or array (bit / long_bits) 0) (2 ^ (bit % long_bits)) == 0)

unfoldable pub long_set_bit : List ℕ → ℕ → List ℕ
long_set_bit array bit =
    set array (bit / long_bits) (bit_or (get_or array (bit / long_bits) 0) (2 ^ (bit % long_bits)))

-- `~(1LL << k)` is `2 ^ 64 - 1 - 2 ^ k`.
unfoldable pub long_clear_bit : List ℕ → ℕ → List ℕ
long_clear_bit array bit =
    set array (bit / long_bits)
      (bit_and (get_or array (bit / long_bits) 0) (2 ^ long_bits - 1 - 2 ^ (bit % long_bits)))

pub long_set_bit_state : List ℕ → ℕ → Bool → List ℕ
long_set_bit_state array bit state =
    if state then long_set_bit array bit else long_clear_bit array bit
