-- ===== src/Resolution/Range.antt =====
-- src/libratbag-private.h: the dpi list that is made from a range.
use libratbag.Base.{
  ℕ, zero, suc, ◌+◌, ◌*◌, ◌%◌, ◌^◌, ◌≤◌, ◌<◌, ◌≡◌, refl, ◌⊎◌, inl, inr, arith, true, false, List,
  [], ◌∷◌, ltb, length, All, Bool-cases,
}
use native.Mathlib.Decide.{dec_lt}
use libratbag.Types.{Resolution}
use libratbag.Resolution.{
  dpi_range_loop, stepsize, store_dpi, max_dpis, is_ascending, resolution_set_dpi_list_from_range,
}

stepsize_bounds : (dpi : ℕ) → (50 ≤ stepsize dpi) × (stepsize dpi ≤ 500)
unfolding stepsize
stepsize_bounds dpi = ground arith

-- Every entry lies from `lo` to `hi`.
abbrev pub Within : ℕ → ℕ → List ℕ → Type 0
Within lo hi l = All (λ d. (lo ≤ d) × (d ≤ hi)) l

-- Some entry lies at `v` or up to 500 below.
abbrev pub Near : ℕ → List ℕ → Type 0
Near v [] = ⊥
Near v (d ∷ l) = ((d ≤ v) × (v < d + 500)) ⊎ Near v l

Within-mono : (lo lo' hi : ℕ) (l : List ℕ) → lo ≤ lo' → Within lo' hi l → Within lo hi l
Within-mono lo lo' hi [] h w = tt
Within-mono lo lo' hi (d ∷ l) h w = ((omega arith, omega arith), Within-mono lo lo' hi l h w.1)

is_ascending-cons :
    (x lo hi : ℕ) (l : List ℕ)
    → x < lo
    → Within lo hi l
    → is_ascending l ≡ true
    → is_ascending (x ∷ l) ≡ true
unfolding is_ascending
is_ascending-cons x lo hi [] h w a = refl
is_ascending-cons x lo hi (y ∷ l) h w a = ground arith

module _ (hi : ℕ) (no_wrap : hi + 500 < 2 ^ 32) where
  loop-store :
      (left dpi : ℕ)
      → ltb hi dpi ≡ false
      → dpi_range_loop (suc left) dpi hi
        ≡ store_dpi dpi (dpi_range_loop left (dpi + stepsize dpi) hi)
  unfolding dpi_range_loop
  loop-store left dpi h = rw (h, wraps) refl
    where
      wraps : (dpi + stepsize dpi) % 2 ^ 32 ≡ dpi + stepsize dpi
      wraps = ground (arith, stepsize_bounds dpi)

  loop-stop : (left dpi : ℕ) → ltb hi dpi ≡ true → dpi_range_loop (suc left) dpi hi ≡ ([], true)
  unfolding dpi_range_loop
  loop-stop left dpi h = rw h

  -- What the loop stores: it starts at `dpi`, stays in the range, and ascends.
  pub record IsRange (dpi : ℕ) (l : List ℕ) : Type 0 where
    pub within : Within dpi hi l
    pub ascending : is_ascending l ≡ true

  loop-IsRange : (left dpi : ℕ) → IsRange dpi (dpi_range_loop left dpi hi).0
  unfolding dpi_range_loop is_ascending
  loop-IsRange zero dpi = record { within = tt; ascending = refl }
  loop-IsRange (suc left) dpi = elim (Bool-cases (ltb hi dpi)) [
    | inl e ↦ rw (loop-stop left dpi e) (record { within = tt; ascending = refl })
    | inr e ↦ rw (loop-store left dpi e) (
        let rest = loop-IsRange left (dpi + stepsize dpi) in
        record {
          within =
              (ground arith, Within-mono dpi (dpi + stepsize dpi) hi _ (omega arith) rest.within);
          ascending =
              is_ascending-cons dpi (dpi + stepsize dpi) hi _ (omega (arith, stepsize_bounds dpi))
                rest.within rest.ascending;
        })
  ]

  length-loop : (left dpi : ℕ) → length (dpi_range_loop left dpi hi).0 ≤ left
  unfolding dpi_range_loop
  length-loop zero dpi = omega arith
  length-loop (suc left) dpi = elim (Bool-cases (ltb hi dpi)) [
    | inl e ↦ rw (loop-stop left dpi e) (omega arith)
    | inr e ↦ rw (loop-store left dpi e) (omega (arith, length-loop left (dpi + stepsize dpi)))
  ]

  -- With enough entries the loop gets to the end of the range and passes over nothing.
  loop-Near :
      (left dpi v : ℕ)
      → hi < dpi + 50 * left
      → dpi ≤ v
      → v ≤ hi
      → Near v (dpi_range_loop (suc left) dpi hi).0
  loop-Near zero dpi v room h1 h2 = absurd (omega arith)
  loop-Near (suc left) dpi v room h1 h2 =
      rw (loop-store (suc left) dpi (ground arith)) (elim (dec_lt v (dpi + stepsize dpi)) [
        | yes below ↦ inl (omega arith, omega (arith, stepsize_bounds dpi))
        | no above ↦ inr (
            loop-Near left (dpi + stepsize dpi) v (omega (arith, stepsize_bounds dpi)) (omega arith)
              h2)
      ])

  loop-maxed_out :
      (left dpi : ℕ) → hi < dpi + 50 * left → (dpi_range_loop (suc left) dpi hi).1 ≡ true
  loop-maxed_out zero dpi room = rw (loop-stop zero dpi (ground arith))
  loop-maxed_out (suc left) dpi room = elim (Bool-cases (ltb hi dpi)) [
    | inl e ↦ rw (loop-stop (suc left) dpi e)
    | inr e ↦
        rw (loop-store (suc left) dpi e)
          (loop-maxed_out left (dpi + stepsize dpi) (omega (arith, stepsize_bounds dpi)))
  ]

-- The dpi list made from a range that an `unsigned int` holds with room to spare: at most 300
-- entries, all from `lo` to `hi`, each above the one before.
pub dpi_list_from_range-IsRange :
    (res : Resolution) (lo hi : ℕ)
    → hi + 500 < 2 ^ 32
    → let l = (resolution_set_dpi_list_from_range res lo hi).dpis in
      (length l ≤ max_dpis) × Within lo hi l × (is_ascending l ≡ true)
unfolding resolution_set_dpi_list_from_range
dpi_list_from_range-IsRange res lo hi no_wrap =
    (length-loop hi no_wrap 300 lo, range.within, range.ascending)
  where
    range : IsRange hi no_wrap lo (dpi_range_loop max_dpis lo hi).0
    range = loop-IsRange hi no_wrap 300 lo

-- If a range is under 14950 dpi long and its maximum is more than 500 below 2 ^ 32, the 300
-- entries suffice: the loop ends because it passed `hi`, and each dpi value of the range has an
-- entry of the list at most 499 below it.
pub dpi_list_from_range_complete :
    (res : Resolution) (lo hi v : ℕ)
    → hi + 500 < 2 ^ 32
    → hi < lo + 14950
    → lo ≤ v
    → v ≤ hi
    → ((dpi_range_loop max_dpis lo hi).1 ≡ true)
      × Near v (resolution_set_dpi_list_from_range res lo hi).dpis
unfolding resolution_set_dpi_list_from_range
dpi_list_from_range_complete res lo hi v no_wrap room h1 h2 = (
  loop-maxed_out hi no_wrap 299 lo (omega arith),
  loop-Near hi no_wrap 299 lo v (omega arith) h1 h2,
)
