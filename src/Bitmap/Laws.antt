-- ===== src/Bitmap/Laws.antt =====
-- The bitmap of libratbag-util.h against the set of numbers that it stands for.
use libratbag.Base.{
  ℕ, zero, suc, ◌-◌, ◌*◌, ◌/◌, ◌%◌, ◌^◌, ◌≤◌, ◌<◌, bit_and, bit_or, ◌≡◌, refl, ap, arith, Bool,
  true, false, not, ◌&&◌, ◌||◌, List, length, get_or, set, ◌==◌, if◌then◌else◌, get_or-set_self,
  get_or-set_ne, length-set, replicate,
}
use native.Mathlib.Nat.{pow-le-pow_right}
use libratbag.Bits.{
  bit_at, bit_at-lt, bit_and-pow_eq_zero, bit_at-bit_or, bit_at-bit_and, bit_at-pow,
  bit_at-complement, bit_at-zero,
}
use libratbag.Bitmap.{long_bits, long_bit_is_set, long_set_bit, long_clear_bit, long_set_bit_state}

abbrev word_bit : ℕ → ℕ → Bool
word_bit w k = not (bit_at w k == 0)

long_bit_is_set-word :
    (a : List ℕ) (c : ℕ) → long_bit_is_set a c ≡ word_bit (get_or a (c / 64) 0) (c % 64)
unfolding long_bit_is_set
long_bit_is_set-word a c = ap not (bit_and-pow_eq_zero (get_or a (c / 64) 0) (c % 64))

word_bit-or : (w k j : ℕ) → word_bit (bit_or w (2 ^ k)) j ≡ (k == j) || word_bit w j
word_bit-or w k j = ground (arith, bit_at-bit_or j w (2 ^ k), bit_at-pow k j, bit_at-lt w j)

pow-lt : (k : ℕ) → k < 64 → 2 ^ k < 2 ^ 64
pow-lt k h = omega (arith, pow-le-pow_right {n = 2} (omega arith) {j = 63} (le_63 k h))
  where
    le_63 : (k : ℕ) → k < 64 → k ≤ 63
    le_63 k h = omega arith

word_bit-clear :
    (w k j : ℕ)
    → k < 64
    → j < 64
    → word_bit (bit_and w (2 ^ 64 - 1 - 2 ^ k)) j ≡ not (k == j) && word_bit w j
word_bit-clear w k j hk hj = ground (
  arith,
  bit_at-bit_and j w (2 ^ 64 - 1 - 2 ^ k),
  bit_at-complement 64 j (2 ^ k) hj (pow-lt k hk),
  bit_at-pow k j,
  bit_at-lt w j,
)

get_or-set :
    (a : List ℕ) (i j v : ℕ)
    → i < length a
    → get_or (set a i v) j 0 ≡ (if i == j then v else get_or a j 0)
get_or-set a i j v h = ground (arith, get_or-set_self a i v 0, get_or-set_ne a i j v 0)

-- A write of one word, seen through the test of a bit.
long_bit_is_set-set :
    (a : List ℕ) (b c v : ℕ)
    → b < long_bits * length a
    → long_bit_is_set (set a (b / 64) v) c
      ≡ (if b / 64 == c / 64 then word_bit v (c % 64) else long_bit_is_set a c)
long_bit_is_set-set a b c v h = ground (
  arith,
  long_bit_is_set-word (set a (b / 64) v) c,
  long_bit_is_set-word a c,
  get_or-set a (b / 64) (c / 64) v,
)

-- Setting a bit of the array adds that number to the set and no other.
pub long_bit_is_set-set_bit :
    (array : List ℕ) (b c : ℕ)
    → b < long_bits * length array
    → long_bit_is_set (long_set_bit array b) c ≡ (b == c) || long_bit_is_set array c
unfolding long_set_bit
long_bit_is_set-set_bit array b c h = ground (
  arith,
  long_bit_is_set-set array b c (bit_or (get_or array (b / 64) 0) (2 ^ (b % 64))) h,
  long_bit_is_set-word array c,
  word_bit-or (get_or array (b / 64) 0) (b % 64) (c % 64),
)

-- Clearing a bit of the array removes that number from the set and no other.
pub long_bit_is_set-clear_bit :
    (array : List ℕ) (b c : ℕ)
    → b < long_bits * length array
    → long_bit_is_set (long_clear_bit array b) c ≡ not (b == c) && long_bit_is_set array c
unfolding long_clear_bit
long_bit_is_set-clear_bit array b c h = ground (
  arith,
  long_bit_is_set-set array b c
      (bit_and (get_or array (b / 64) 0) (2 ^ long_bits - 1 - 2 ^ (b % 64))) h,
  long_bit_is_set-word array c,
  word_bit-clear (get_or array (b / 64) 0) (b % 64) (c % 64),
)

-- `long_set_bit_state` puts the number into the set or takes it out, as its `state` says, and
-- leaves every other number as it was.
pub long_bit_is_set-set_bit_state :
    (array : List ℕ) (b : ℕ) (state : Bool) (c : ℕ)
    → b < long_bits * length array
    → long_bit_is_set (long_set_bit_state array b state) c
      ≡ (if b == c then state else long_bit_is_set array c)
unfolding long_set_bit_state
long_bit_is_set-set_bit_state array b true c h = ground (arith, long_bit_is_set-set_bit array b c)
long_bit_is_set-set_bit_state array b false c h =
    ground (arith, long_bit_is_set-clear_bit array b c)

pub length-long_set_bit : (array : List ℕ) (b : ℕ) → length (long_set_bit array b) ≡ length array
unfolding long_set_bit
length-long_set_bit array b = length-set array _ _

pub length-long_clear_bit :
    (array : List ℕ) (b : ℕ) → length (long_clear_bit array b) ≡ length array
unfolding long_clear_bit
length-long_clear_bit array b = length-set array _ _

get_or-replicate : (n i : ℕ) → get_or (replicate {A = ℕ} n 0) i 0 ≡ 0
get_or-replicate zero i = refl
get_or-replicate (suc n) zero = refl
get_or-replicate (suc n) (suc i) = get_or-replicate n i

-- An array of zeros is the empty set.
pub long_bit_is_set-zeros : (n c : ℕ) → long_bit_is_set (replicate n 0) c ≡ false
long_bit_is_set-zeros n c = ground (
  arith,
  long_bit_is_set-word (replicate n 0) c,
  get_or-replicate n (c / 64),
  bit_at-zero (c % 64),
)
