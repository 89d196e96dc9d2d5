-- ===== src/Refs/Lookup.antt =====
-- src/libratbag.c: the lookups find what they are asked for.
use libratbag.Base.{
  ℕ, zero, suc, ◌+◌, ◌-◌, ◌<◌, ◌≡◌, ap, arith, Option, some, List, [], ◌∷◌, get_elem?, done,
  get_elem?-set, All, All-get_elem?,
}
use mathlib.Core.Option
use native.Mathlib.Decide.{dec_lt}
use libratbag.Types.{Device, Profile}
use libratbag.Numbered.{
  descending, indices, IsNumbered, ProfileIsNumbered, profile_index, resolution_index, button_index,
  led_index,
}
use libratbag.Refs.{
  Part, part_resolution, part_button, part_led, find_place, device_get_profile, profile_get_part,
  profile_ref, device_ref, part_ref, put_profile, int_max, num_parts, find_part, refcount_at,
  put_refcount,
}

-- The place of an index in a list that is numbered downwards.
find_place-descending {ℓ} :
    {A : Type ℓ} (index_of : A → ℕ) (l : List A) (n index : ℕ)
    → indices index_of l ≡ descending n
    → index < n
    → (x : A) × (find_place index_of l index ≡ some (n - 1 - index))
      × (get_elem? l (n - 1 - index) ≡ some x)
      × (index_of x ≡ index)
unfolding find_place
find_place-descending index_of l zero index e lt = absurd (omega arith)
find_place-descending index_of [] (suc n) index e lt = cc
find_place-descending index_of (x ∷ l) (suc n) index e lt = elim (dec_lt index n) [
  | yes below ↦
      let (y, found, there, eq) = find_place-descending index_of l n index (ground arith) below in
      let place : suc n - 1 - index ≡ suc (n - 1 - index) = omega arith in
      (y, ground (arith, found), rw place there, eq)
  | no top ↦
      let place : suc n - 1 - index ≡ 0 = omega arith in (x, ground arith, rw place, ground arith)
]

-- No count of the device, of a profile, or of one of its parts, is at its limit.
pub record ProfileHasRoom (profile : Profile) : Type 0 where
  pub of_profile : profile.refcount < int_max
  pub of_resolutions : All (λ x. x.refcount < int_max) profile.resolutions
  pub of_buttons : All (λ x. x.refcount < int_max) profile.buttons
  pub of_leds : All (λ x. x.refcount < int_max) profile.leds

pub record HasRoom (device : Device) : Type 0 where
  pub of_device : device.refcount < int_max
  pub of_profiles : All ProfileHasRoom device.profiles

-- The device with one more reference to the profile at `p`, and to itself.
abbrev pub profile_taken : Device → ℕ → Profile → Device
profile_taken device p profile =
    put_profile (record device { refcount = device.refcount + 1 }) p
      (record profile { refcount = profile.refcount + 1 })

profile_ref_lem :
    (device : Device) (p : ℕ) (profile : Profile)
    → get_elem? device.profiles p ≡ some profile
    → device.refcount < int_max
    → profile.refcount < int_max
    → profile_ref device p ≡ done (profile_taken device p profile)
unfolding profile_ref device_ref
profile_ref_lem device p profile h r1 r2 = ground arith

-- On a numbered device whose counts have room, asking for a profile by a number below the count
-- gives the profile with that number, with a reference taken for it and for the device.
pub device_get_profile_found :
    (device : Device) (index : ℕ)
    → IsNumbered device
    → HasRoom device
    → index < device.num_profiles
    → (p : ℕ) × (profile : Profile) × (device_get_profile device index
        ≡ done (some p, profile_taken device p profile))
      × (get_elem? device.profiles p ≡ some profile)
      × (profile.index ≡ index)
unfolding device_get_profile
device_get_profile_found device index numbered room lt =
    let (profile, found, there, eq) =
      find_place-descending profile_index device.profiles device.num_profiles index
        numbered.of_profiles lt in
    let small = All-get_elem? ProfileHasRoom device.profiles _ profile room.of_profiles there in
    (
      device.num_profiles - 1 - index,
      profile,
      rw
          (
            found,
            profile_ref_lem device (device.num_profiles - 1 - index) profile there room.of_device
                small.of_profile,
          )
          (ground arith),
      there,
      eq,
    )

-- The number that the part at a place carries.
abbrev pub index_at : Part → Profile → ℕ → Option ℕ
index_at part_resolution profile i = Option.map resolution_index (get_elem? profile.resolutions i)
index_at part_button profile i = Option.map button_index (get_elem? profile.buttons i)
index_at part_led profile i = Option.map led_index (get_elem? profile.leds i)

-- The device with one more reference to a part of the profile at `p`, to that profile and to
-- itself.
abbrev pub part_taken : Part → Device → ℕ → Profile → ℕ → ℕ → Device
part_taken part device p profile i n =
    put_profile (profile_taken device p profile) p
      (put_refcount part (record profile { refcount = profile.refcount + 1 }) i (n + 1))

module _ (device : Device) (p : ℕ) (profile : Profile)
    (there : get_elem? device.profiles p ≡ some profile) where
  part_ref_lem :
      (part : Part) (i n : ℕ)
      → refcount_at part profile i ≡ some n
      → device.refcount < int_max
      → profile.refcount < int_max
      → n < int_max
      → part_ref part device p i ≡ done (part_taken part device p profile i n)
  unfolding part_ref
  part_ref_lem part i n count r1 r2 r3 = ground (
    arith,
    profile_ref_lem device p profile there r1 r2,
    get_elem?-set device.profiles p p profile (record profile { refcount = profile.refcount + 1 })
        there,
  )

  -- The place of the part with this number, its count, and room for one more reference.
  record IsFound (part : Part) (index : ℕ) : Type 0 where
    place : ℕ
    count : ℕ
    found : find_part part profile index ≡ some place
    counted : refcount_at part profile place ≡ some count
    room : count < int_max
    is_index : index_at part profile place ≡ some index

  find_part-IsFound :
      (part : Part) (index : ℕ)
      → IsNumbered device
      → ProfileHasRoom profile
      → index < num_parts part device profile
      → IsFound part index
  find_part-IsFound part_resolution index numbered room lt =
      let parts =
        All-get_elem? (ProfileIsNumbered device.num_buttons device.num_leds) device.profiles p
          profile numbered.of_parts there in
      let (x, found, at, eq) =
        find_place-descending resolution_index profile.resolutions profile.num_resolutions index
          parts.of_resolutions lt in
      record {
        place = profile.num_resolutions - 1 - index;
        count = x.refcount;
        found = found;
        counted = rw (at, refcount_at);
        room =
            All-get_elem? (λ x. x.refcount < int_max) profile.resolutions _ x room.of_resolutions
              at;
        is_index = rw (at, index_at) (ap some eq);
      }
  find_part-IsFound part_button index numbered room lt =
      let parts =
        All-get_elem? (ProfileIsNumbered device.num_buttons device.num_leds) device.profiles p
          profile numbered.of_parts there in
      let (x, found, at, eq) =
        find_place-descending button_index profile.buttons device.num_buttons index parts.of_buttons
          lt in
      record {
        place = device.num_buttons - 1 - index;
        count = x.refcount;
        found = found;
        counted = rw (at, refcount_at);
        room = All-get_elem? (λ x. x.refcount < int_max) profile.buttons _ x room.of_buttons at;
        is_index = rw (at, index_at) (ap some eq);
      }
  find_part-IsFound part_led index numbered room lt =
      let parts =
        All-get_elem? (ProfileIsNumbered device.num_buttons device.num_leds) device.profiles p
          profile numbered.of_parts there in
      let (x, found, at, eq) =
        find_place-descending led_index profile.leds device.num_leds index parts.of_leds lt in
      record {
        place = device.num_leds - 1 - index;
        count = x.refcount;
        found = found;
        counted = rw (at, refcount_at);
        room = All-get_elem? (λ x. x.refcount < int_max) profile.leds _ x room.of_leds at;
        is_index = rw (at, index_at) (ap some eq);
      }

  -- On a numbered device whose counts have room, asking a profile for a resolution, a button or an
  -- LED by a number below the count gives the one with that number, with a reference taken for it,
  -- for its profile and for the device.
  pub profile_get_part_found :
      (part : Part) (index : ℕ)
      → IsNumbered device
      → HasRoom device
      → index < num_parts part device profile
      → (i : ℕ) × (n : ℕ) × (profile_get_part part device p index
          ≡ done (some i, part_taken part device p profile i n))
        × (index_at part profile i ≡ some index)
        × (refcount_at part profile i ≡ some n)
  unfolding profile_get_part
  profile_get_part_found part index numbered room lt =
      let small = All-get_elem? ProfileHasRoom device.profiles p profile room.of_profiles there in
      let f = find_part-IsFound part index numbered small lt in
      (
        f.place,
        f.count,
        ground (
          arith,
          f.found,
          part_ref_lem part f.place f.count f.counted room.of_device small.of_profile f.room,
        ),
        f.is_index,
        f.counted,
      )
