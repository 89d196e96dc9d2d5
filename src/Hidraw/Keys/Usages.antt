-- ===== src/Hidraw/Keys/Usages.antt =====
-- src/libratbag-hidraw.c: the ways from a usage to a key code and back fit together.
use libratbag.Base.{
  ℕ, zero, suc, ◌+◌, ◌≤◌, ◌<◌, Bool, true, ◌||◌, some, List, [], ◌∷◌, ◌==◌, get_elem?, length, ◌≡◌,
  refl, ap, ◌⊎◌, inl, inr, arith, done, aborted, up_to, up_to-at, get_or, Bool-cases,
}
use mathlib.Core.Path.{subst}
use native.Mathlib.Decide.{dec_lt}
use libratbag.Hidraw.Keys.{
  hid_keyboard_mapping, hid_consumer_mapping, keycode_at, usage_from,
  hidraw_get_keycode_from_keyboard_usage, hidraw_get_keyboard_usage_from_keycode,
  hidraw_get_keycode_from_consumer_usage, hidraw_get_consumer_usage_from_keycode,
}

-- The usage found for the code at a place is no later place, and has the code.
usage_from-at :
    (mapping : List ℕ) (j u code : ℕ)
    → get_elem? mapping u ≡ some code
    → (v : ℕ) × (usage_from mapping j code ≡ j + v) × (v ≤ u) × (get_elem? mapping v ≡ some code)
unfolding usage_from
usage_from-at [] j u code h = cc
usage_from-at (c ∷ mapping) j zero code h =
    let same : c ≡ code = ground arith in (0, ground arith, omega arith, ap some same)
usage_from-at (c ∷ mapping) j (suc u) code h = elim (Bool-cases (c == code)) [
  | inl e ↦ let same : c ≡ code = ground arith in (0, rw e (omega arith), omega arith, ap some same)
  | inr e ↦
      let (v, found, le, at) = usage_from-at mapping (j + 1) u code h in
      (suc v, ground (arith, found), omega arith, at)
]

get_elem?-there : (l : List ℕ) (i : ℕ) → i < length l → (x : ℕ) × (get_elem? l i ≡ some x)
get_elem?-there [] i h = absurd (omega arith)
get_elem?-there (x ∷ l) zero h = (x, refl)
get_elem?-there (x ∷ l) (suc i) h = get_elem?-there l i (omega arith)

-- A table that is read at a place in it, and searched for what was read.
keycode_at-usage_from :
    (mapping : List ℕ) (u : ℕ)
    → u < length mapping
    → (code : ℕ) × (keycode_at mapping u ≡ done code)
      × (keycode_at mapping (usage_from mapping 0 code) ≡ done code)
      × (usage_from mapping 0 code ≤ u)
unfolding keycode_at
keycode_at-usage_from mapping u small =
    let (code, at) = get_elem?-there mapping u small in
    let (v, found, le, again) = usage_from-at mapping 0 u code at in
    let at_v : usage_from mapping 0 code ≡ v = omega (arith, found) in
    (code, rw at, rw (at_v, again), rw at_v le)

keycode_at-outside :
    (mapping : List ℕ) (u : ℕ) → length mapping ≤ u → keycode_at mapping u ≡ aborted
unfolding keycode_at
keycode_at-outside [] u h = refl
keycode_at-outside (x ∷ mapping) zero h = absurd (omega arith)
keycode_at-outside (x ∷ mapping) (suc u) h = keycode_at-outside mapping u (omega arith)

get_or-keycode_at :
    (mapping : List ℕ) (u code : ℕ) → keycode_at mapping u ≡ done code → get_or mapping u 0 ≡ code
unfolding keycode_at
get_or-keycode_at [] u code h = cc
get_or-keycode_at (x ∷ mapping) zero code h = ground arith
get_or-keycode_at (x ∷ mapping) (suc u) code h = get_or-keycode_at mapping u code h

length-hid_keyboard_mapping : length hid_keyboard_mapping ≡ 256
unfolding hid_keyboard_mapping
length-hid_keyboard_mapping = refl

length-hid_consumer_mapping : length hid_consumer_mapping ≡ 4096
unfolding hid_consumer_mapping
length-hid_consumer_mapping = refl

-- The usages whose key has an earlier usage too: the non-US `#`, SysRq and the keypad `=` of
-- the AS/400.
abbrev pub is_second : ℕ → Bool
is_second u = u == 0x32 || (u == 0x9a || u == 0x86)

abbrev recovers : ℕ → Bool
recovers u =
    let code = get_or hid_keyboard_mapping u 0 in
    (code == 0) || (is_second u || (usage_from hid_keyboard_mapping 0 code == u))

recovers-cases :
    (code u v : ℕ)
    → ((code == 0) || (is_second u || (v == u))) ≡ true
    → (code ≡ 0) ⊎ ((is_second u ≡ true) ⊎ (v ≡ u))
recovers-cases code u v h = ground arith

recovers_all : up_to recovers 255 ≡ true
unfolding up_to usage_from hid_keyboard_mapping
recovers_all = refl

-- A keyboard usage, read as a key code, is found again from this code as a usage with the same
-- code; and as itself, but for the usages with no key and the three whose key has an earlier usage.
pub keyboard_usage-keycode :
    (u : ℕ)
    → u < 256
    → (code : ℕ) × (hidraw_get_keycode_from_keyboard_usage u ≡ done code)
      × (hidraw_get_keycode_from_keyboard_usage (hidraw_get_keyboard_usage_from_keycode code)
          ≡ done code)
      × ((code ≡ 0) ⊎ ((is_second u ≡ true) ⊎ (hidraw_get_keyboard_usage_from_keycode code ≡ u)))
unfolding hidraw_get_keycode_from_keyboard_usage hidraw_get_keyboard_usage_from_keycode keycode_at
keyboard_usage-keycode u small =
    let (code, read, again, le) =
      keycode_at-usage_from hid_keyboard_mapping u (omega (arith, length-hid_keyboard_mapping)) in
    (
      code,
      read,
      again,
      recovers-cases code u (usage_from hid_keyboard_mapping 0 code) (
          subst
            (λ c. ((c == 0) || (is_second u || (usage_from hid_keyboard_mapping 0 c == u))) ≡ true)
            (get_or-keycode_at hid_keyboard_mapping u code read)
            (up_to-at recovers 255 u (omega arith) recovers_all)),
    )

-- A consumer usage below 4096, read as a key code, is found again from this code as a usage with
-- the same code, and no later one; any usage from 4096 on is read past the end of the table.
pub consumer_usage-keycode :
    (u : ℕ)
    → ((u < 4096)
        × ((code : ℕ) × (hidraw_get_keycode_from_consumer_usage u ≡ done code)
            × (hidraw_get_keycode_from_consumer_usage (hidraw_get_consumer_usage_from_keycode code)
                ≡ done code)
            × (hidraw_get_consumer_usage_from_keycode code ≤ u)))
      ⊎ ((4096 ≤ u) × (hidraw_get_keycode_from_consumer_usage u ≡ aborted))
unfolding hidraw_get_keycode_from_consumer_usage hidraw_get_consumer_usage_from_keycode
consumer_usage-keycode u = elim (dec_lt u 4096) [
  | yes small ↦ inl (
    small,
    keycode_at-usage_from hid_consumer_mapping u (omega (arith, length-hid_consumer_mapping)),
  )
  | no large ↦ inr (
    omega arith,
    keycode_at-outside hid_consumer_mapping u (omega (arith, length-hid_consumer_mapping)),
  )
]
