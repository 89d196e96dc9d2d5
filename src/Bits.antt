-- ===== src/Bits.antt =====
-- Single bits of a machine word. `bit_at` reads a word digit by digit; the laws of `&`, `|` and
-- `~` on single bits are proved from one equation for the lowest digit.
mod Step
pub mod Xor
use Step.{bit_and_step, bit_or_step, bit_and-zero}
use native.Mathlib.Nat.{pow-suc, one-le-pow}
use libratbag.Base.{
  ℕ, zero, suc, ◌+◌, ◌-◌, ◌*◌, ◌/◌, ◌%◌, ◌^◌, ◌≤◌, ◌<◌, min, max, bit_and, bit_or, ◌≡◌, refl, arith,
  ◌==◌, if◌then◌else◌, ap, ◌∙◌,
}

pub bit_at : ℕ → ℕ → ℕ
bit_at w zero = w % 2
bit_at w (suc j) = bit_at (w / 2) j

pub bit_at-lt : (w j : ℕ) → bit_at w j < 2
unfolding bit_at
bit_at-lt w zero = omega arith
bit_at-lt w (suc j) = bit_at-lt (w / 2) j

half-pow : (k : ℕ) → 2 ^ suc k / 2 ≡ 2 ^ k
half-pow k = omega (arith, pow-suc 2 k)

-- `w & (1 << k)` is the bit, at its place.
pub bit_and-pow : (k w : ℕ) → bit_and w (2 ^ k) ≡ bit_at w k * 2 ^ k
unfolding bit_at
bit_and-pow zero w = omega (arith, bit_and_step w 1, bit_and-zero (w / 2))
bit_and-pow (suc k) w = omega (
  arith,
  bit_and_step w (2 ^ suc k),
  ap (bit_and (w / 2)) (half-pow k),
  bit_and-pow k (w / 2),
  pow-suc 2 k,
  ap (λ (t : ℕ). bit_at (w / 2) k * t) (pow-suc 2 k),
)

pub bit_at-bit_or : (j a b : ℕ) → bit_at (bit_or a b) j ≡ max (bit_at a j) (bit_at b j)
unfolding bit_at
bit_at-bit_or zero a b = omega (arith, bit_or_step a b)
bit_at-bit_or (suc j) a b = ap (λ (t : ℕ). bit_at t j) (half a b) ∙ bit_at-bit_or j (a / 2) (b / 2)
  where
    half : (a b : ℕ) → bit_or a b / 2 ≡ bit_or (a / 2) (b / 2)
    half a b = omega (arith, bit_or_step a b)

pub bit_at-bit_and : (j a b : ℕ) → bit_at (bit_and a b) j ≡ min (bit_at a j) (bit_at b j)
unfolding bit_at
bit_at-bit_and zero a b = omega (arith, bit_and_step a b)
bit_at-bit_and (suc j) a b =
    ap (λ (t : ℕ). bit_at t j) (half a b) ∙ bit_at-bit_and j (a / 2) (b / 2)
  where
    half : (a b : ℕ) → bit_and a b / 2 ≡ bit_and (a / 2) (b / 2)
    half a b = omega (arith, bit_and_step a b)

pub bit_at-zero : (j : ℕ) → bit_at 0 j ≡ 0
unfolding bit_at
bit_at-zero zero = refl
bit_at-zero (suc j) = bit_at-zero j

pub bit_at-pow : (k j : ℕ) → bit_at (2 ^ k) j ≡ (if j == k then 1 else 0)
unfolding bit_at
bit_at-pow zero zero = refl
bit_at-pow zero (suc j) = ground (arith, bit_at-zero j)
bit_at-pow (suc k) zero = ground (arith, pow-suc 2 k)
bit_at-pow (suc k) (suc j) =
    ap (λ (t : ℕ). bit_at t j) (half-pow k) ∙ ground (arith, bit_at-pow k j)

-- `~x` over `n` bits.
pub bit_at-complement : (n j x : ℕ) → j < n → x < 2 ^ n → bit_at (2 ^ n - 1 - x) j ≡ 1 - bit_at x j
unfolding bit_at
bit_at-complement zero j x h lt = absurd (omega arith)
bit_at-complement (suc n) zero x h lt = omega (arith, pow-suc 2 n)
bit_at-complement (suc n) (suc j) x h lt =
    ap (λ (t : ℕ). bit_at t j) half
    ∙ bit_at-complement n j (x / 2) (omega arith) (omega (arith, pow-suc 2 n))
  where
    half : (2 ^ suc n - 1 - x) / 2 ≡ 2 ^ n - 1 - x / 2
    half = omega (arith, pow-suc 2 n)

-- A test by a mask of one bit.
pub bit_and-pow_eq_zero : (w k : ℕ) → (bit_and w (2 ^ k) == 0) ≡ (bit_at w k == 0)
bit_and-pow_eq_zero w k = ground (arith, bit_and-pow k w, one-le-pow k 2, bit_at-lt w k)
