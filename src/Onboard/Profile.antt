-- ===== src/Onboard/Profile.antt =====
-- src/hidpp20.c, hidpp20_onboard_profiles_parse_profile and _write_profile: a profile as the bytes of a
-- sector, by `union hidpp20_internal_profile`. Every profile has all the LEDs of the array, since
-- `num_leds` is its length.
pub mod Cut
pub mod Layout
pub mod Parts
pub mod Storable
pub mod Small
pub mod RoundTrip
pub mod Device
use libratbag.Base.{
  ℕ, zero, suc, ◌+◌, ◌*◌, ◌/◌, ◌%◌, ◌^◌, max, Bool, true, false, not, ◌&&◌, Option, List, [], ◌∷◌,
  ◌++◌, ltb, ◌==◌, if◌then◌else◌, length, get_elem?, get_or, set, take, replicate, map, Outcome,
  done, aborted, deref, ◌>>=◌,
}
use libratbag.Hidpp.{get_le_u16, set_le_u16}
use libratbag.Hidpp20.{Message, Read, HidppDevice, einval}
use libratbag.Onboard.{skip, copy_to, copy_from, is_sector_valid, read_sector, write_sector}
use libratbag.Onboard.Macros.{MacroItem}
use libratbag.Onboard.Buttons.{Binding, buttons_to_cpu, buttons_from_cpu}
use libratbag.Onboard.Leds.{InternalLed, HidppLed, read_led, write_led}

-- `struct hidpp20_profile`: `name` is an array of 48 characters, `dpi` one of 5 words, `buttons` one of
-- 32 bindings, `macros` one of 32 pointers, of which `none` is the null one, `leds` one of 2.
pub record OnboardProfile : Type 0 where
  pub address : ℕ
  pub enabled : ℕ
  pub name : List ℕ
  pub report_rate : ℕ
  pub default_dpi : ℕ
  pub switched_dpi : ℕ
  pub current_dpi : ℕ
  pub dpi : List ℕ
  pub buttons : List Binding
  pub macros : List (Option (List MacroItem))
  pub leds : List HidppLed

-- `struct hidpp20_profiles`, as far as profiles are read and written.
pub record Profiles : Type 0 where
  pub num_profiles : ℕ
  pub num_rom_profiles : ℕ
  pub num_buttons : ℕ
  pub sector_size : ℕ
  pub profiles : List OnboardProfile

-- The places in `union hidpp20_internal_profile`.
abbrev pub dpi_at : ℕ
dpi_at = 3

abbrev pub buttons_at : ℕ
buttons_at = 32

abbrev pub name_at : ℕ
name_at = 160

abbrev pub leds_at : ℕ
leds_at = 208

-- Words, bindings and LEDs as bytes, and back.
abbrev pub words_to_bytes : List ℕ → List ℕ
words_to_bytes [] = []
words_to_bytes (w ∷ ws) = set_le_u16 w ++ words_to_bytes ws

abbrev pub bytes_to_words : List ℕ → List ℕ
bytes_to_words [] = []
bytes_to_words (low ∷ []) = []
bytes_to_words (low ∷ high ∷ bytes) = get_le_u16 low high ∷ bytes_to_words bytes

abbrev pub bindings_to_bytes : List Binding → List ℕ
bindings_to_bytes [] = []
bindings_to_bytes (b ∷ bs) = b.kind ∷ b.byte1 ∷ b.byte2 ∷ b.byte3 ∷ bindings_to_bytes bs

abbrev pub bytes_to_bindings : ℕ → List ℕ → List Binding
bytes_to_bindings zero bytes = []
bytes_to_bindings (suc n) bytes =
    record {
      kind = get_or bytes 0 0;
      byte1 = get_or bytes 1 0;
      byte2 = get_or bytes 2 0;
      byte3 = get_or bytes 3 0;
    }
    ∷ bytes_to_bindings n (skip 4 bytes)

abbrev pub leds_to_bytes : List InternalLed → List ℕ
leds_to_bytes [] = []
leds_to_bytes (led ∷ leds) = led.mode ∷ (led.effect ++ leds_to_bytes leds)

abbrev pub bytes_to_leds : ℕ → List ℕ → List InternalLed
bytes_to_leds zero bytes = []
bytes_to_leds (suc n) bytes =
    record { mode = get_or bytes 0 0; effect = take 10 (skip 1 bytes) }
    ∷ bytes_to_leds n (skip 11 bytes)

abbrev pub read_leds : List HidppLed → List InternalLed → List HidppLed
read_leds [] internals = []
read_leds (led ∷ leds) [] = led ∷ leds
read_leds (led ∷ leds) (internal ∷ internals) = read_led led internal ∷ read_leds leds internals

-- `1000 / rate`, which is undefined for 0.
abbrev pub rate_code : ℕ → Outcome ℕ
rate_code zero = aborted
rate_code (suc n) = done (1000 / suc n)

-- The bytes that `hidpp20_onboard_profiles_write_profile` makes of a profile.
unfoldable pub profile_to_bytes : ℕ → ℕ → OnboardProfile → Outcome (List ℕ)
unfolding copy_to copy_from buttons_from_cpu write_led
profile_to_bytes sector_size num_buttons profile = do
  rate ← rate_code profile.report_rate
  rated ←
      copy_to (replicate sector_size 0xff) 0
        (rate % 2 ^ 8 ∷ profile.default_dpi % 2 ^ 8 ∷ profile.switched_dpi % 2 ^ 8 ∷ [])
  with_dpi ← copy_to rated dpi_at (words_to_bytes profile.dpi)
  with_leds ← copy_to with_dpi leds_at (leds_to_bytes (map write_led profile.leds))
  blank ← copy_from with_leds buttons_at (4 * num_buttons)
  raw ← buttons_from_cpu (take num_buttons profile.buttons) (bytes_to_bindings num_buttons blank)
  with_buttons ← copy_to with_leds buttons_at (bindings_to_bytes raw)
  copy_to with_buttons name_at profile.name

abbrev pub is_default_name : List ℕ → Bool
is_default_name [] = true
is_default_name (c ∷ name) = (c == 0xff) && is_default_name name

-- The name that is read: its last character is 0, and all of it if no name is stored.
unfoldable pub name_from : List ℕ → List ℕ
name_from raw = if is_default_name raw then replicate 48 0 else set raw 47 0

-- What `hidpp20_onboard_profiles_parse_profile` makes of the bytes, over what the profile was. The fuel
-- is for the reading of each macro.
module _ {S : Type 0} (transfer : Message → S → S × (ℕ × List Read)) (fuel : ℕ) where
  unfoldable pub profile_from_bytes :
      HidppDevice → ℕ → ℕ → List ℕ → OnboardProfile → S → Outcome (S × OnboardProfile)
  unfolding copy_from buttons_to_cpu read_led name_from
  profile_from_bytes device sector_size num_buttons buf profile s = do
    rates ← copy_from buf 0 3
    words ← copy_from buf dpi_at 10
    leds ← copy_from buf leds_at 22
    raw ← copy_from buf buttons_at (4 * num_buttons)
    loaded ←
        buttons_to_cpu transfer fuel device sector_size 0 (bytes_to_bindings num_buttons raw)
          profile.buttons profile.macros s
    name ← copy_from buf name_at 48
    done (
      loaded.0,
      record profile {
        report_rate = 1000 / max 1 (get_or rates 0 0);
        default_dpi = get_or rates 1 0;
        switched_dpi = get_or rates 2 0;
        dpi = bytes_to_words words;
        leds = read_leds profile.leds (bytes_to_leds 2 leds);
        buttons = loaded.1.0;
        macros = loaded.1.1;
        name = name_from name;
      },
    )

abbrev pub eagain : ℕ
eagain = 11

module _ {S : Type 0} (transfer : Message → S → S × (ℕ × List Read)) where
  unfoldable pub write_profile : HidppDevice → Profiles → ℕ → S → Outcome (S × ℕ)
  unfolding profile_to_bytes write_sector
  write_profile device list index s =
      if not (ltb index list.num_profiles)
      then done (s, einval)
      else (deref (get_elem? list.profiles index) >>= (λ profile.
          profile_to_bytes list.sector_size list.num_buttons profile >>= (λ bytes.
            write_sector transfer device (index + 1) list.sector_size s bytes true
            >>= (λ written. done (written.0, written.1.0)))))

module _ {S : Type 0} (transfer : Message → S → S × (ℕ × List Read)) (fuel : ℕ) where
  -- What is done with the sector that was read.
  unfoldable pub use_sector :
      HidppDevice → Profiles → ℕ → Bool → OnboardProfile → S → List ℕ → Outcome (S × (ℕ × Profiles))
  unfolding is_sector_valid profile_from_bytes
  use_sector device list index check_crc profile s buf =
      (if check_crc then is_sector_valid list.sector_size buf else done true) >>= (λ valid.
        if valid
        then (profile_from_bytes transfer fuel device list.sector_size list.num_buttons buf profile
              s
            >>= (λ read.
                done (read.0, (0, record list { profiles = set list.profiles index read.1 }))))
        else done (s, (eagain, list)))

  unfoldable pub parse_profile :
      HidppDevice → Profiles → ℕ → Bool → S → Outcome (S × (ℕ × Profiles))
  unfolding read_sector use_sector
  parse_profile device list index check_crc s =
      if not (ltb index list.num_profiles)
      then done (s, (einval, list))
      else (deref (get_elem? list.profiles index) >>= (λ profile.
          read_sector transfer device profile.address list.sector_size s
            (replicate list.sector_size 0)
          >>= (λ got.
              if got.1.0 == 0
              then use_sector device list index check_crc profile got.0 got.1.1
              else done (got.0, (got.1.0, list)))))
