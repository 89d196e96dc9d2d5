-- ===== src/Onboard/Dictionary.antt =====
-- src/hidpp20.c: the dictionary, the sector that says which profiles there are and which of them are
-- enabled; the commit of a list of profiles, and its reading from a device. Messages about an
-- unexpected address are left out.
pub mod RoundTrip
use libratbag.Base.{
  ℕ, zero, suc, ◌+◌, ◌*◌, ◌-◌, ◌%◌, ◌^◌, bit_or, Option, none, some, Bool, true, false, not, ◌&&◌,
  ◌||◌, List, [], ◌∷◌, ◌++◌, ltb, leb, ◌==◌, if◌then◌else◌, length, get_elem?, get_or, set, modify,
  map, replicate, Outcome, done, aborted, deref, ◌>>=◌,
}
use libratbag.Hidpp.{get_be_u16}
use libratbag.Hidpp20.{Message, Read, HidppDevice, einval}
use libratbag.Onboard.{put, copy_from, copy_to, is_sector_valid, read_sector, write_sector}
use libratbag.Onboard.Profile.{OnboardProfile, Profiles, write_profile, parse_profile, eagain}

-- The entries, from profile `i` on, and the end.
unfoldable pub dict_entries : ℕ → List OnboardProfile → List ℕ
dict_entries i [] = 0xFF ∷ 0xFF ∷ 0 ∷ 0 ∷ []
dict_entries i (p ∷ ps) =
    0 ∷ (i + 1) % 2 ^ 8 ∷ (if p.enabled == 0 then 0 else 1) ∷ 0 ∷ dict_entries (i + 1) ps

-- The bytes of the dictionary, which are 0xff behind the end.
unfoldable pub dict_to_bytes : ℕ → List OnboardProfile → Outcome (List ℕ)
unfolding dict_entries copy_to
dict_to_bytes sector_size profiles =
    copy_to (replicate sector_size 0xff) 0 (dict_entries 0 profiles)

-- The loop over the entries, which ends at the end mark.
unfoldable pub read_dict : ℕ → List ℕ → List OnboardProfile → Outcome (List OnboardProfile)
unfolding copy_from get_be_u16
read_dict i buf [] = done []
read_dict i buf (p ∷ ps) = copy_from buf (4 * i) 3 >>= (λ entry.
    elim ((get_or entry 0 0 == 0xFF) && (get_or entry 1 0 == 0xFF)) [
      | true ↦ done (p ∷ ps)
      | false ↦ read_dict (i + 1) buf ps >>= (λ rest. done (
          record p {
            address = get_be_u16 (get_or entry 0 0) (get_or entry 1 0);
            enabled = if get_or entry 2 0 == 0 then 0 else 1;
          }
          ∷ rest))
    ])

abbrev pub cleared : OnboardProfile → OnboardProfile
cleared p = record p { address = 0; enabled = 0 }

-- The address of a profile that the dictionary does not name; `none` is `-EINVAL`.
unfoldable pub default_address : ℕ → ℕ → ℕ → Option ℕ
default_address dict_address num_rom_profiles i =
    if dict_address == 0x0000
    then some (i + 1)
    else if dict_address == 0x0100
    then some (
        if leb num_rom_profiles i
        then bit_or dict_address num_rom_profiles
        else bit_or dict_address (i + 1))
    else none

module _ {S : Type 0} (transfer : Message → S → S × (ℕ × List Read)) where
  unfoldable pub write_dict : HidppDevice → Profiles → S → Outcome (S × ℕ)
  unfolding dict_to_bytes write_sector
  write_dict device list s = dict_to_bytes list.sector_size list.profiles >>= (λ bytes.
      write_sector transfer device 0x0000 list.sector_size s bytes true
      >>= (λ written. done (written.0, written.1.0)))

  -- The loop over the profiles from the `i`-th on, with whether one was enabled before.
  unfoldable pub write_enabled :
      HidppDevice → Profiles → ℕ → List OnboardProfile → Bool → S → Outcome (S × (ℕ × Bool))
  unfolding write_profile
  write_enabled device list i [] any s = done (s, (0, any))
  write_enabled device list i (p ∷ ps) any s = elim (p.enabled == 0) [
    | true ↦ write_enabled device list (i + 1) ps any s
    | false ↦ write_profile transfer device list i s >>= (λ written. elim (written.1 == 0) [
      | true ↦ write_enabled device list (i + 1) ps true written.0
      | false ↦ done (written.0, (written.1, true))
    ])
  ]

  -- With no profile enabled the first one is enabled and written.
  unfoldable pub enable_one : HidppDevice → Profiles → Bool → S → Outcome (S × (ℕ × Profiles))
  unfolding write_profile
  enable_one device list any s =
      if any || (list.num_profiles == 0)
      then done (s, (0, list))
      else let list' = record list {
        profiles = modify list.profiles 0 (λ p. record p { enabled = 1 });
      } in
        write_profile transfer device list' 0 s
        >>= (λ written. done (written.0, (written.1, list')))

  unfoldable pub onboard_commit : HidppDevice → Profiles → S → Outcome (S × (ℕ × Profiles))
  unfolding write_dict write_enabled enable_one
  onboard_commit device list s = write_enabled device list 0 list.profiles false s >>= (λ written.
      if not (written.1.0 == 0)
      then done (written.0, (written.1.0, list))
      else (enable_one device list written.1.1 written.0 >>= (λ enabled.
          if not (enabled.1.0 == 0)
          then done (enabled.0, enabled.1)
          else (write_dict device enabled.1.1 enabled.0
              >>= (λ last. done (last.0, (last.1, enabled.1.1)))))))

-- The fuel is for the reading of each macro.
module _ {S : Type 0} (transfer : Message → S → S × (ℕ × List Read)) (fuel : ℕ) where
  -- The loop over `n` profiles from the `i`-th on, with whether every checksum was right.
  unfoldable pub parse_each :
      ℕ → HidppDevice → ℕ → Bool → ℕ → Bool → Profiles → S → Outcome (S × (ℕ × (Bool × Profiles)))
  unfolding parse_profile default_address
  parse_each zero device dict_address check_crc i crc_valid list s =
      done (s, (0, (crc_valid, list)))
  parse_each (suc n) device dict_address check_crc i crc_valid list s =
      deref (get_elem? list.profiles i) >>= (λ p.
        elim (if p.address == 0
          then default_address dict_address list.num_rom_profiles i
          else some p.address) [
            | none ↦ done (s, (einval, (crc_valid, list)))
            | some address ↦
                let list' = record list {
                  profiles = set list.profiles i (record p { address = address });
                } in
                parse_profile transfer fuel device list' i check_crc s >>= (λ parsed.
                  parse_each n device dict_address check_crc (i + 1)
                    (crc_valid && not (parsed.1.0 == eagain)) parsed.1.1 parsed.0)
          ])

  -- The profiles that a dictionary names, if it is to be trusted.
  unfoldable pub read_entries : Bool → Bool → List ℕ → Profiles → Outcome Profiles
  unfolding read_dict
  read_entries crc_valid check_crc buf list =
      if crc_valid || not check_crc
      then (read_dict 0 buf list.profiles
          >>= (λ profiles. done (record list { profiles = profiles })))
      else done list

  unfoldable pub onboard_parse :
      HidppDevice → Profiles → ℕ → Bool → S → Outcome (S × (ℕ × Profiles))
  unfolding read_sector is_sector_valid read_entries parse_each
  onboard_parse device list dict_address check_crc s =
      let list0 = record list { profiles = map cleared list.profiles } in
      read_sector transfer device dict_address list.sector_size s (replicate list.sector_size 0)
      >>= (λ got.
          if not (got.1.0 == 0)
          then done (got.0, (got.1.0, list0))
          else (is_sector_valid list.sector_size got.1.1 >>= (λ crc_valid.
              read_entries crc_valid check_crc got.1.1 list0 >>= (λ list1.
                parse_each list.num_profiles device dict_address check_crc 0 crc_valid list1 got.0
                >>= (λ parsed.
                    if not (parsed.1.0 == 0)
                    then done (parsed.0, (parsed.1.0, parsed.1.1.1))
                    else if check_crc && not parsed.1.1.0
                    then done (parsed.0, (eagain, parsed.1.1.1))
                    else done (parsed.0, (0, parsed.1.1.1)))))))

  -- The profiles in use, or those in ROM if a checksum is wrong.
  unfoldable pub onboard_initialize : HidppDevice → Profiles → S → Outcome (S × (ℕ × Profiles))
  unfolding onboard_parse
  onboard_initialize device list s = onboard_parse device list 0x0000 true s >>= (λ parsed.
      if parsed.1.0 == eagain
      then onboard_parse device parsed.1.1 0x0100 false parsed.0
      else done parsed)
