-- ===== src/Bits/Step.antt =====
-- The native `&` and `|` count their rounds down from the first number. One equation for the
-- lowest digit takes the count away.
use Prim.Native.Nat.{digits, bit_and-bitwise, bit_or-bitwise}
use libratbag.Base.{
  ℕ, zero, suc, ◌+◌, ◌-◌, ◌*◌, ◌/◌, ◌%◌, ◌≤◌, min, max, bit_and, bit_or, ◌≡◌, refl, ap, ◌∙◌, arith,
}

module _ (ended : ℕ → ℕ) (digit : ℕ → ℕ → ℕ) where
  abbrev pub run : ℕ → ℕ → ℕ → ℕ
  run rounds a b = digits ended digit rounds a b

  -- A round more changes nothing once there are enough.
  one_more : (rounds a b : ℕ) → a ≤ rounds → run (suc rounds) a b ≡ run rounds a b
  one_more zero zero b enough = refl
  one_more zero (suc a) b enough = absurd (omega arith)
  one_more (suc r) zero b enough = refl
  one_more (suc r) (suc a) b enough =
      ap (λ (t : ℕ). t * 2 + digit (suc a % 2) (b % 2))
        (one_more r (suc a / 2) (b / 2) (omega arith))

  many_more : (extra rounds a b : ℕ) → rounds ≡ extra + a → run rounds a b ≡ run a a b
  many_more zero rounds a b h = ap (λ (r : ℕ). run r a b) (omega arith)
  many_more (suc extra) rounds a b h =
      ap (λ (r : ℕ). run r a b) more
      ∙ one_more (extra + a) a b (omega arith)
      ∙ many_more extra (extra + a) a b refl
    where
      more : rounds ≡ suc (extra + a)
      more = omega arith

  pub lowest :
      (a b : ℕ)
      → run (suc a) (suc a) b ≡ run (suc a / 2) (suc a / 2) (b / 2) * 2 + digit (suc a % 2) (b % 2)
  lowest a b =
      ap (λ (t : ℕ). t * 2 + digit (suc a % 2) (b % 2))
        (many_more (a - suc a / 2) a (suc a / 2) (b / 2) (omega arith))

pub bit_and_step : (w v : ℕ) → bit_and w v ≡ min (w % 2) (v % 2) + 2 * bit_and (w / 2) (v / 2)
bit_and_step zero v = omega (arith, bit_and-bitwise 0 (v / 2), bit_and-bitwise 0 v)
bit_and_step (suc w) v =
    omega (
      arith,
      lowest (λ v. 0) min w v,
      bit_and-bitwise (suc w / 2) (v / 2),
      bit_and-bitwise (suc w) v,
    )

pub bit_or_step : (w v : ℕ) → bit_or w v ≡ max (w % 2) (v % 2) + 2 * bit_or (w / 2) (v / 2)
bit_or_step zero v = omega (arith, bit_or-bitwise 0 (v / 2), bit_or-bitwise 0 v)
bit_or_step (suc w) v =
    omega
      (arith, lowest (λ v. v) max w v, bit_or-bitwise (suc w / 2) (v / 2), bit_or-bitwise (suc w) v)

nothing_in_common : (rounds w : ℕ) → digits (λ v. 0) min rounds w 0 ≡ 0
nothing_in_common zero w = refl
nothing_in_common (suc rounds) zero = refl
nothing_in_common (suc rounds) (suc w) = omega (arith, nothing_in_common rounds (suc w / 2))

pub bit_and-zero : (w : ℕ) → bit_and w 0 ≡ 0
bit_and-zero w = bit_and-bitwise w 0 ∙ nothing_in_common w w
