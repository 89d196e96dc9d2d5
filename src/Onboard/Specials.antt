-- ===== src/Onboard/Specials.antt =====
-- src/hidpp20.c: the codes of the special actions in a profile. A special action is the value of its
-- enumerator in src/libratbag-enums.h; `invalid` is -1 as a word.
use libratbag.Base.{
  ℕ, zero, suc, ◌+◌, ◌%◌, ◌^◌, ◌<◌, Bool, true, ◌&&◌, List, [], ◌∷◌, ◌++◌, ◌==◌, if◌then◌else◌,
  length, some, get_elem?, get_or, replicate, ◌≡◌, refl, ap, ◌∙◌, ◌⊎◌, inl, inr, arith, Outcome,
  done, deref, up_to, up_to-at,
}

abbrev pub invalid_special : ℕ
invalid_special = 0xFFFFFFFF

-- `RATBAG_BUTTON_ACTION_SPECIAL_UNKNOWN` and the `n`-th enumerator behind it.
abbrev pub special_action : ℕ → ℕ
special_action n = 0x40000000 + n

-- `hidpp20_profiles_specials`: left, right, resolution up, down, cycle up, default, alternate,
-- profile up, down, cycle up, second mode.
unfoldable pub profiles_specials : List ℕ
profiles_specials =
    (invalid_special
      ∷ special_action 2
      ∷ special_action 3
      ∷ special_action 9
      ∷ special_action 10
      ∷ special_action 7
      ∷ special_action 12
      ∷ special_action 11
      ∷ special_action 15
      ∷ special_action 16
      ∷ special_action 13
      ∷ special_action 17
      ∷ [])
    ++ replicate 244 invalid_special

unfoldable pub get_special : ℕ → Outcome ℕ
unfolding profiles_specials
get_special code = deref (get_elem? profiles_specials code)

-- The loop over the codes from `i` on, up to the wrap of the counter.
unfoldable pub code_from : List ℕ → ℕ → ℕ → ℕ
code_from [] i special = invalid_special % 2 ^ 8
code_from (s ∷ specials) i special =
    let rest = code_from specials (i + 1) special in if s == special then i else rest

unfoldable pub behind_first : List ℕ → List ℕ
behind_first [] = []
behind_first (s ∷ specials) = specials

-- The counter is increased before the first test, so that code 0 is left out.
unfoldable pub get_code_from_special : ℕ → ℕ
unfolding code_from behind_first
get_code_from_special special = code_from (behind_first profiles_specials) 1 special

-- The test of the claim for one code.
comes_back : ℕ → Bool
comes_back code =
    let special = get_or profiles_specials code 0 in
    let again = get_code_from_special special in
    (get_or profiles_specials again 0 == special)
    && (if (special == invalid_special) then (again == 12) else (again == code))

all_come_back : up_to comes_back 255 ≡ true
unfolding up_to comes_back get_code_from_special code_from behind_first profiles_specials
all_come_back = refl

length-profiles_specials : length profiles_specials ≡ 256
unfolding profiles_specials
length-profiles_specials = refl

get_elem?-some : (l : List ℕ) (i : ℕ) → i < length l → get_elem? l i ≡ some (get_or l i 0)
get_elem?-some [] i h = absurd (omega arith)
get_elem?-some (x ∷ l) zero h = refl
get_elem?-some (x ∷ l) (suc i) h = get_elem?-some l i (omega arith)

get_special-read :
    (code : ℕ) → code < 256 → get_special code ≡ done (get_or profiles_specials code 0)
unfolding get_special
get_special-read code small =
    ap deref (get_elem?-some profiles_specials code (omega (arith, length-profiles_specials)))

comes_back-cases :
    (again special found code : ℕ)
    → ((found == special)
        && (if (special == invalid_special) then (again == 12) else (again == code)))
      ≡ true
    → (found ≡ special) × (((special ≡ invalid_special) × (again ≡ 12)) ⊎ (again ≡ code))
comes_back-cases again special found code h = (ground arith, ground arith)

-- Each code stands for a special action, which is found again from the code that is looked up for
-- it: this is the code itself, but for the codes of no action, all of which become 12.
pub get_special-get_code :
    (code : ℕ)
    → code < 256
    → (special : ℕ) × (get_special code ≡ done special)
      × (get_special (get_code_from_special special) ≡ done special)
      × (((special ≡ invalid_special) × (get_code_from_special special ≡ 12))
          ⊎ (get_code_from_special special ≡ code))
unfolding comes_back
get_special-get_code code small =
    let (found, which) =
      comes_back-cases (get_code_from_special (get_or profiles_specials code 0))
        (get_or profiles_specials code 0)
        (get_or profiles_specials (get_code_from_special (get_or profiles_specials code 0)) 0) code
        (up_to-at comes_back 255 code (omega arith) all_come_back) in
    (
      get_or profiles_specials code 0,
      get_special-read code small,
      get_special-read (get_code_from_special (get_or profiles_specials code 0)) (code_small which)
          ∙ ap done found,
      which,
    )
  where
    code_small :
        ((get_or profiles_specials code 0 ≡ invalid_special)
            × (get_code_from_special (get_or profiles_specials code 0) ≡ 12))
          ⊎ (get_code_from_special (get_or profiles_specials code 0) ≡ code)
        → get_code_from_special (get_or profiles_specials code 0) < 256
    code_small (inl (e, twelve)) = omega (arith, twelve)
    code_small (inr same) = omega (arith, same, small)
