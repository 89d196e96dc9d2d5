-- ===== src/Onboard/Profile/Device.antt =====
-- A profile that is written to a device, and read again.
use libratbag.Base.{
  ℕ, ◌+◌, ◌%◌, ◌^◌, ◌≤◌, ◌<◌, Bool, true, false, not, some, List, ltb, length, get_elem?, set,
  replicate, ◌≡◌, ◌≢◌, sym, ap, ◌∙◌, arith, Outcome, done, ◌>>=◌, if◌then◌else◌, length-replicate,
}
use libratbag.Hidpp20.{Message, Read, HidppDevice, root_get_feature_idx}
use libratbag.Onboard.{page_onboard_profiles, is_sector_valid}
use libratbag.Onboard.Writing.{summed, is_sector_valid-summed}
use libratbag.Onboard.Reading.Loop.{Serves}
use libratbag.Onboard.Writing.Loop.{Takes}
use libratbag.Onboard.RoundTrip.{summed-RoundTrip}
use libratbag.Onboard.Buttons.{Binding}
use libratbag.Onboard.Buttons.RoundTrip.{Meaning}
use libratbag.Onboard.Leds.{LedSetting}
use libratbag.Onboard.Profile.{
  OnboardProfile, Profiles, profile_to_bytes, profile_from_bytes, write_profile, use_sector,
  parse_profile,
}
use libratbag.Onboard.Profile.Storable.{IsStorable, fresh_profile, parsed_again}
use libratbag.Onboard.Profile.RoundTrip.{profile-RoundTrip}

ltb-inside : (i n : ℕ) → i < n → not (ltb i n) ≡ false
ltb-inside i n h = ground (arith, h)

use_sector-valid :
    {S : Type 0} (transfer : Message → S → S × (ℕ × List Read)) (fuel : ℕ) (device : HidppDevice)
    (list : Profiles) (index : ℕ) (profile read : OnboardProfile) (s : S) (buf : List ℕ)
    → is_sector_valid list.sector_size buf ≡ done true
    → profile_from_bytes transfer fuel device list.sector_size list.num_buttons buf profile s
      ≡ done (s, read)
    → use_sector transfer fuel device list index true profile s buf
      ≡ done (s, (0, record list { profiles = set list.profiles index read }))
unfolding use_sector
use_sector-valid {S = S} transfer fuel device list index profile read s buf valid from =
    ap
      (λ (o : Outcome Bool). o >>= (λ valid.
        if valid
        then (profile_from_bytes transfer fuel device list.sector_size list.num_buttons buf profile
              s
            >>= (λ read.
                done (read.0, (0, record list { profiles = set list.profiles index read.1 }))))
        else done (s, (11, list))))
      valid
    ∙ ap
        (λ (o : Outcome (S × OnboardProfile)). o >>= (λ read.
          done (read.0, (0, record list { profiles = set list.profiles index read.1 }))))
        from

-- A profile that a sector can hold, of a list with as many buttons as its meanings say, none of them a
-- macro, is written to its sector without an error. A fresh array of profiles in the same list, into
-- which it is then parsed, its checksum checked, has its rate, dpi values, buttons, LEDs and name, with
-- the address of the sector; it is not enabled, and has no macros and the current dpi 0, as these are
-- not in the sector. The other profiles are as before. The device takes what is sent, and
-- serves its memory, in sectors of whole pieces.
pub write_profile-parse_profile :
    {S : Type 0} (transfer : Message → S → S × (ℕ × List Read)) (fuel : ℕ) (device : HidppDevice)
    (memory pending : S → List ℕ) (s : S) (list : Profiles) (fresh : List OnboardProfile)
    (index : ℕ) (p : OnboardProfile) (meanings : List Meaning) (settings : List LedSetting)
    (rest : List Binding)
    → root_get_feature_idx device page_onboard_profiles ≢ 0
    → Takes transfer device (index + 1) list.sector_size memory pending
    → Serves transfer device (index + 1) list.sector_size memory
    → 256 ≤ list.sector_size
    → list.sector_size < 2 ^ 16
    → list.sector_size % 16 ≡ 0
    → length meanings ≡ list.num_buttons
    → index < list.num_profiles
    → get_elem? list.profiles index ≡ some p
    → get_elem? fresh index ≡ some (fresh_profile (index + 1) (length meanings) rest)
    → IsStorable p meanings settings rest
    → (s1 : S) × (s2 : S) × (write_profile transfer device list index s ≡ done (s1, 0))
      × (parse_profile transfer fuel device (record list { profiles = fresh }) index true s1
          ≡ done (s2, (0, record list { profiles = set fresh index (parsed_again (index + 1) p) })))
unfolding write_profile parse_profile
write_profile-parse_profile transfer fuel device memory pending s list fresh index p meanings
      settings rest supported takes serves large word whole buttons there at fresh_at storable =
    let size = list.sector_size in
    let (bytes, to, room, small, from) =
      profile-RoundTrip size (index + 1) p meanings settings rest large storable transfer fuel
        device in
    let (s1, s2, writes, reads) =
      summed-RoundTrip transfer device (index + 1) size memory pending supported s bytes
        (replicate size 0) takes serves (omega (arith, large)) word whole room
        (length-replicate size 0) in
    let inside : not (ltb index list.num_profiles) ≡ false =
      ltb-inside index list.num_profiles there in
    let to' : profile_to_bytes size list.num_buttons p ≡ done bytes =
      ap (λ (n : ℕ). profile_to_bytes size n p) (sym buttons) ∙ to in
    let from' =
      ap
        (λ (n : ℕ).
          profile_from_bytes transfer fuel device size n (summed size bytes)
            (fresh_profile (index + 1) (length meanings) rest) s2)
        (sym buttons)
      ∙ from s2 in
    (
      s1,
      s2,
      rw (inside, at, to', writes),
      rw (
        inside,
        fresh_at,
        reads,
        use_sector-valid transfer fuel device (record list { profiles = fresh }) index
            (fresh_profile (index + 1) (length meanings) rest) (parsed_again (index + 1) p) s2
            (summed size bytes)
            (is_sector_valid-summed size bytes (omega (arith, large)) room small) from',
      ),
    )
