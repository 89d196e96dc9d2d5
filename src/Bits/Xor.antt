-- ===== src/Bits/Xor.antt =====
-- The laws of `^`, from one equation for the lowest digit.
use Prim.Native.Nat.{bit_xor, differ, bit_xor-bitwise}
use native.Mathlib.Nat.{pow-suc}
use libratbag.Base.{ℕ, zero, suc, ◌+◌, ◌*◌, ◌/◌, ◌%◌, ◌^◌, ◌<◌, ◌≡◌, refl, sym, ap, ◌∙◌, arith}
use libratbag.Bits.Step.{lowest}

pub bit_xor_step : (w v : ℕ) → bit_xor w v ≡ differ (w % 2) (v % 2) + 2 * bit_xor (w / 2) (v / 2)
bit_xor_step zero v = omega (arith, bit_xor-bitwise 0 (v / 2), bit_xor-bitwise 0 v)
bit_xor_step (suc w) v = omega (
  arith,
  lowest (λ v. v) differ w v,
  bit_xor-bitwise (suc w / 2) (v / 2),
  bit_xor-bitwise (suc w) v,
)

differ-lt : (a b : ℕ) → a < 2 → b < 2 → differ a b < 2
differ-lt zero b ha hb = hb
differ-lt (suc zero) zero ha hb = omega arith
differ-lt (suc zero) (suc b) ha hb = omega arith
differ-lt (suc (suc a)) b ha hb = absurd (omega arith)

pub bit_xor-lt : (k a b : ℕ) → a < 2 ^ k → b < 2 ^ k → bit_xor a b < 2 ^ k
bit_xor-lt zero a b ha hb =
    let a0 : a ≡ 0 = omega arith in let b0 : b ≡ 0 = omega arith in rw (a0, b0) (omega arith)
bit_xor-lt (suc k) a b ha hb = omega (
  arith,
  pow-suc 2 k,
  bit_xor_step a b,
  differ-lt (a % 2) (b % 2) (omega arith) (omega arith),
  bit_xor-lt k (a / 2) (b / 2) (omega (arith, pow-suc 2 k)) (omega (arith, pow-suc 2 k)),
)

-- The two digits of a result.
pub bit_xor-half : (a b : ℕ) → bit_xor a b / 2 ≡ bit_xor (a / 2) (b / 2)
bit_xor-half a b =
    omega (arith, bit_xor_step a b, differ-lt (a % 2) (b % 2) (omega arith) (omega arith))

pub bit_xor-low : (a b : ℕ) → bit_xor a b % 2 ≡ differ (a % 2) (b % 2)
bit_xor-low a b =
    omega (arith, bit_xor_step a b, differ-lt (a % 2) (b % 2) (omega arith) (omega arith))

differ_comm : (a b : ℕ) → differ a b ≡ differ b a
differ_comm zero zero = refl
differ_comm zero (suc b) = refl
differ_comm (suc a) zero = refl
differ_comm (suc a) (suc b) = differ_comm a b

differ_assoc : (a b c : ℕ) → a < 2 → b < 2 → c < 2 → differ (differ a b) c ≡ differ a (differ b c)
differ_assoc zero b c ha hb hc = refl
differ_assoc (suc zero) zero c ha hb hc = refl
differ_assoc (suc zero) (suc zero) zero ha hb hc = refl
differ_assoc (suc zero) (suc zero) (suc zero) ha hb hc = refl
differ_assoc (suc zero) (suc zero) (suc (suc c)) ha hb hc = absurd (omega arith)
differ_assoc (suc zero) (suc (suc b)) c ha hb hc = absurd (omega arith)
differ_assoc (suc (suc a)) b c ha hb hc = absurd (omega arith)

-- Two numbers with the same lowest digit and the same rest.
by_digits : (x y : ℕ) → x % 2 ≡ y % 2 → x / 2 ≡ y / 2 → x ≡ y
by_digits x y low half = omega (arith, low, half)

pub bit_xor_comm : (k a b : ℕ) → a < 2 ^ k → b < 2 ^ k → bit_xor a b ≡ bit_xor b a
bit_xor_comm zero a b ha hb =
    let a0 : a ≡ 0 = omega arith in let b0 : b ≡ 0 = omega arith in rw (a0, b0)
bit_xor_comm (suc k) a b ha hb =
    by_digits (bit_xor a b) (bit_xor b a)
      (bit_xor-low a b ∙ differ_comm (a % 2) (b % 2) ∙ sym (bit_xor-low b a))
      (bit_xor-half a b
        ∙ bit_xor_comm k (a / 2) (b / 2) (omega (arith, pow-suc 2 k)) (omega (arith, pow-suc 2 k))
        ∙ sym (bit_xor-half b a))

pub bit_xor_assoc :
    (k a b c : ℕ)
    → a < 2 ^ k
    → b < 2 ^ k
    → c < 2 ^ k
    → bit_xor (bit_xor a b) c ≡ bit_xor a (bit_xor b c)
bit_xor_assoc zero a b c ha hb hc =
    let a0 : a ≡ 0 = omega arith in
    let b0 : b ≡ 0 = omega arith in let c0 : c ≡ 0 = omega arith in rw (a0, b0, c0)
bit_xor_assoc (suc k) a b c ha hb hc =
    by_digits (bit_xor (bit_xor a b) c) (bit_xor a (bit_xor b c))
      (bit_xor-low (bit_xor a b) c
        ∙ ap (λ (d : ℕ). differ d (c % 2)) (bit_xor-low a b)
        ∙ differ_assoc (a % 2) (b % 2) (c % 2) (omega arith) (omega arith) (omega arith)
        ∙ ap (differ (a % 2)) (sym (bit_xor-low b c))
        ∙ sym (bit_xor-low a (bit_xor b c)))
      (bit_xor-half (bit_xor a b) c
        ∙ ap (λ (d : ℕ). bit_xor d (c / 2)) (bit_xor-half a b)
        ∙ bit_xor_assoc k (a / 2) (b / 2) (c / 2) (omega (arith, pow-suc 2 k))
            (omega (arith, pow-suc 2 k)) (omega (arith, pow-suc 2 k))
        ∙ ap (bit_xor (a / 2)) (sym (bit_xor-half b c))
        ∙ sym (bit_xor-half a (bit_xor b c)))

pub bit_xor-zero : (k a : ℕ) → a < 2 ^ k → bit_xor a 0 ≡ a
bit_xor-zero zero a h = let a0 : a ≡ 0 = omega arith in rw a0
bit_xor-zero (suc k) a h =
    by_digits (bit_xor a 0) a (bit_xor-low a 0 ∙ differ_zero (a % 2))
      (bit_xor-half a 0 ∙ bit_xor-zero k (a / 2) (omega (arith, pow-suc 2 k)))
  where
    differ_zero : (d : ℕ) → differ d 0 ≡ d
    differ_zero zero = refl
    differ_zero (suc d) = refl

pub bit_xor-double : (a b : ℕ) → bit_xor (2 * a) (2 * b) ≡ 2 * bit_xor a b
bit_xor-double a b =
    let a2 : 2 * a / 2 ≡ a = omega arith in
    let b2 : 2 * b / 2 ≡ b = omega arith in
    let a0 : 2 * a % 2 ≡ 0 = omega arith in
    let b0 : 2 * b % 2 ≡ 0 = omega arith in
    bit_xor_step (2 * a) (2 * b)
    ∙ ap (λ (t : ℕ). differ t (2 * b % 2) + 2 * bit_xor (2 * a / 2) (2 * b / 2)) a0
    ∙ ap (λ (t : ℕ). differ 0 t + 2 * bit_xor (2 * a / 2) (2 * b / 2)) b0
    ∙ ap (λ (t : ℕ). 0 + 2 * bit_xor t (2 * b / 2)) a2
    ∙ ap (λ (t : ℕ). 0 + 2 * bit_xor a t) b2
    ∙ omega arith

-- A part that is one digit further up.
pub one_up : (part k : ℕ) → part * 2 ^ suc k ≡ 2 * (part * 2 ^ k)
one_up part k = omega (arith, ap (◌*◌ part) (pow-suc 2 k))

-- Numbers of two parts.
pub bit_xor_fields :
    (k x y x' y' : ℕ)
    → y < 2 ^ k
    → y' < 2 ^ k
    → bit_xor (x * 2 ^ k + y) (x' * 2 ^ k + y') ≡ bit_xor x x' * 2 ^ k + bit_xor y y'
bit_xor_fields zero x y x' y' h h' =
    let y0 : y ≡ 0 = omega arith in
    let y0' : y' ≡ 0 = omega arith in
    let a : x * 2 ^ 0 + 0 ≡ x = omega arith in
    let a' : x' * 2 ^ 0 + 0 ≡ x' = omega arith in
    ap (λ (t : ℕ). bit_xor (x * 2 ^ 0 + t) (x' * 2 ^ 0 + y')) y0
    ∙ ap (λ (t : ℕ). bit_xor (x * 2 ^ 0 + 0) (x' * 2 ^ 0 + t)) y0'
    ∙ ap (λ (t : ℕ). bit_xor t (x' * 2 ^ 0 + 0)) a
    ∙ ap (bit_xor x) a'
    ∙ omega (arith, ap (λ (t : ℕ). bit_xor t y') y0, ap (bit_xor 0) y0')
bit_xor_fields (suc k) x y x' y' h h' =
    let half : (x * 2 ^ suc k + y) / 2 ≡ x * 2 ^ k + y / 2 = omega (arith, one_up x k) in
    let half' : (x' * 2 ^ suc k + y') / 2 ≡ x' * 2 ^ k + y' / 2 = omega (arith, one_up x' k) in
    let low : (x * 2 ^ suc k + y) % 2 ≡ y % 2 = omega (arith, one_up x k) in
    let low' : (x' * 2 ^ suc k + y') % 2 ≡ y' % 2 = omega (arith, one_up x' k) in
    bit_xor_step (x * 2 ^ suc k + y) (x' * 2 ^ suc k + y')
    ∙ ap
        (λ (t : ℕ).
          differ t ((x' * 2 ^ suc k + y') % 2)
          + 2 * bit_xor ((x * 2 ^ suc k + y) / 2) ((x' * 2 ^ suc k + y') / 2))
        low
    ∙ ap
        (λ (t : ℕ).
          differ (y % 2) t + 2 * bit_xor ((x * 2 ^ suc k + y) / 2) ((x' * 2 ^ suc k + y') / 2))
        low'
    ∙ ap (λ (t : ℕ). differ (y % 2) (y' % 2) + 2 * bit_xor t ((x' * 2 ^ suc k + y') / 2)) half
    ∙ ap (λ (t : ℕ). differ (y % 2) (y' % 2) + 2 * bit_xor (x * 2 ^ k + y / 2) t) half'
    ∙ omega (
      arith,
      bit_xor_fields k x (y / 2) x' (y' / 2) (omega (arith, pow-suc 2 k))
          (omega (arith, pow-suc 2 k)),
      bit_xor_step y y',
      one_up (bit_xor x x') k,
    )
