-- ===== src/Refs.antt =====
-- src/libratbag.c: reference counts, and the lookups that hand out a reference. A device holds one
-- for each reference to one of its profiles, and a profile one for each reference to one of its
-- resolutions, buttons and LEDs. A device that is destroyed is `none`.
pub mod Lookup
pub mod Counted
pub mod Release
pub mod Destroy
use mathlib.Core.Option
use libratbag.Base.{
  ℕ, zero, suc, ◌+◌, ◌-◌, ◌^◌, Bool, true, false, Option, none, some, List, [], ◌∷◌, ltb, leb, ◌==◌,
  if◌then◌else◌, get_elem?, set, modify, Outcome, done, aborted, assert, deref, ◌>>=◌, ◌>>◌,
}
use libratbag.Types.{Device, Profile, Resolution, Button, Led}
use libratbag.Numbered.{profile_index, resolution_index, button_index, led_index}

abbrev pub int_max : ℕ
int_max = 2 ^ 31 - 1

abbrev pub put_profile : Device → ℕ → Profile → Device
put_profile device p profile = record device { profiles = set device.profiles p profile }

unfoldable pub device_ref : Device → Outcome Device
device_ref device = do
  assert (ltb device.refcount int_max)
  done (record device { refcount = device.refcount + 1 })

-- A device whose last reference goes is destroyed.
unfoldable pub device_unref : Device → Outcome (Option Device)
device_unref device = do
  assert (ltb 0 device.refcount)
  done (
      if device.refcount - 1 == 0
      then none
      else some (record device { refcount = device.refcount - 1 }))

unfoldable pub profile_ref : Device → ℕ → Outcome Device
unfolding device_ref
profile_ref device p = do
  profile ← deref (get_elem? device.profiles p)
  assert (ltb profile.refcount int_max)
  device' ← device_ref device
  done (put_profile device' p (record profile { refcount = profile.refcount + 1 }))

unfoldable pub profile_unref : Device → ℕ → Outcome (Option Device)
unfolding device_unref
profile_unref device p = do
  profile ← deref (get_elem? device.profiles p)
  assert (ltb 0 profile.refcount)
  device_unref (put_profile device p (record profile { refcount = profile.refcount - 1 }))

-- The objects that a profile owns.
pub data Part : Type 0 where
  part_resolution part_button part_led : Part

abbrev pub refcount_at : Part → Profile → ℕ → Option ℕ
refcount_at part_resolution profile i =
    Option.map (λ x. x.refcount) (get_elem? profile.resolutions i)
refcount_at part_button profile i = Option.map (λ x. x.refcount) (get_elem? profile.buttons i)
refcount_at part_led profile i = Option.map (λ x. x.refcount) (get_elem? profile.leds i)

abbrev pub put_refcount : Part → Profile → ℕ → ℕ → Profile
put_refcount part_resolution profile i n = record profile {
  resolutions = modify profile.resolutions i (λ x. record x { refcount = n });
}
put_refcount part_button profile i n = record profile {
  buttons = modify profile.buttons i (λ x. record x { refcount = n });
}
put_refcount part_led profile i n = record profile {
  leds = modify profile.leds i (λ x. record x { refcount = n });
}

-- `ratbag_resolution_ref`, `ratbag_button_ref` and `ratbag_led_ref`, which are one text for three
-- types: the profile's reference is taken first.
unfoldable pub part_ref : Part → Device → ℕ → ℕ → Outcome Device
unfolding profile_ref
part_ref part device p i = do
  profile ← deref (get_elem? device.profiles p)
  n ← deref (refcount_at part profile i)
  assert (ltb n int_max)
  device' ← profile_ref device p
  profile' ← deref (get_elem? device'.profiles p)
  done (put_profile device' p (put_refcount part profile' i (n + 1)))

-- `ratbag_resolution_unref`, `ratbag_button_unref` and `ratbag_led_unref`.
unfoldable pub part_unref : Part → Device → ℕ → ℕ → Outcome (Option Device)
unfolding profile_unref
part_unref part device p i = do
  profile ← deref (get_elem? device.profiles p)
  n ← deref (refcount_at part profile i)
  assert (ltb 0 n)
  profile_unref (put_profile device p (put_refcount part profile i (n - 1))) p

-- The place of the first object with this index: the loop of the lookups.
pub find_place {ℓ} : {A : Type ℓ} → (A → ℕ) → List A → ℕ → Option ℕ
find_place index_of [] index = none
find_place index_of (x ∷ xs) index =
    if index_of x == index
    then some 0
    else elim (find_place index_of xs index) [ none ↦ none | some i ↦ some (i + 1) ]

-- A null result is `none`; the log messages are left out.
pub device_get_profile : Device → ℕ → Outcome (Option ℕ × Device)
unfolding profile_ref find_place
device_get_profile device index =
    if leb device.num_profiles index
    then done (none, device)
    else elim (find_place profile_index device.profiles index) [
      | none ↦ done (none, device)
      | some p ↦ profile_ref device p >>= λ device'. done (some p, device')
    ]

-- The part of a profile that carries the index, and the number of such parts that the profile or
-- the device claims to have.
abbrev pub find_part : Part → Profile → ℕ → Option ℕ
find_part part_resolution profile index = find_place resolution_index profile.resolutions index
find_part part_button profile index = find_place button_index profile.buttons index
find_part part_led profile index = find_place led_index profile.leds index

abbrev pub num_parts : Part → Device → Profile → ℕ
num_parts part_resolution device profile = profile.num_resolutions
num_parts part_button device profile = device.num_buttons
num_parts part_led device profile = device.num_leds

-- `ratbag_profile_get_resolution`, `ratbag_profile_get_button` and `ratbag_profile_get_led`.
pub profile_get_part : Part → Device → ℕ → ℕ → Outcome (Option ℕ × Device)
unfolding part_ref find_place
profile_get_part part device p index = do
  profile ← deref (get_elem? device.profiles p)
  if leb (num_parts part device profile) index
      then done (none, device)
      else elim (find_part part profile index) [
        | none ↦ done (none, device)
        | some i ↦ part_ref part device p i >>= λ device'. done (some i, device')
      ]

-- The calls by their names in the source.
abbrev pub resolution_ref : Device → ℕ → ℕ → Outcome Device
resolution_ref = part_ref part_resolution

abbrev pub button_ref : Device → ℕ → ℕ → Outcome Device
button_ref = part_ref part_button

abbrev pub led_ref : Device → ℕ → ℕ → Outcome Device
led_ref = part_ref part_led

abbrev pub resolution_unref : Device → ℕ → ℕ → Outcome (Option Device)
resolution_unref = part_unref part_resolution

abbrev pub button_unref : Device → ℕ → ℕ → Outcome (Option Device)
button_unref = part_unref part_button

abbrev pub led_unref : Device → ℕ → ℕ → Outcome (Option Device)
led_unref = part_unref part_led

abbrev pub profile_get_resolution : Device → ℕ → ℕ → Outcome (Option ℕ × Device)
profile_get_resolution = profile_get_part part_resolution

abbrev pub profile_get_button : Device → ℕ → ℕ → Outcome (Option ℕ × Device)
profile_get_button = profile_get_part part_button

abbrev pub profile_get_led : Device → ℕ → ℕ → Outcome (Option ℕ × Device)
profile_get_led = profile_get_part part_led
