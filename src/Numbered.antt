-- ===== src/Numbered.antt =====
-- The shape of a device as src/libratbag.c creates it and the lookups rely on: the objects of each
-- list carry the numbers below the list's count, the highest in front.
use libratbag.Base.{ℕ, zero, suc, ◌≡◌, List, [], ◌∷◌, map, All}
use libratbag.Types.{Device, Profile, Resolution, Button, Led}

abbrev pub descending : ℕ → List ℕ
descending zero = []
descending (suc n) = n ∷ descending n

abbrev pub indices {ℓ} : {A : Type ℓ} → (A → ℕ) → List A → List ℕ
indices index l = map index l

abbrev pub resolution_index : Resolution → ℕ
resolution_index res = res.index

abbrev pub button_index : Button → ℕ
button_index button = button.index

abbrev pub led_index : Led → ℕ
led_index led = led.index

abbrev pub profile_index : Profile → ℕ
profile_index profile = profile.index

pub record HasParts (profile : Profile) (resolutions buttons leds : ℕ) : Type 0 where
  pub counted : profile.num_resolutions ≡ resolutions
  pub of_resolutions : indices resolution_index profile.resolutions ≡ descending resolutions
  pub of_buttons : indices button_index profile.buttons ≡ descending buttons
  pub of_leds : indices led_index profile.leds ≡ descending leds

-- The parts of one profile of the device.
abbrev pub ProfileIsNumbered : ℕ → ℕ → Profile → Type 0
ProfileIsNumbered buttons leds profile = HasParts profile profile.num_resolutions buttons leds

pub record IsNumbered (device : Device) : Type 0 where
  pub of_profiles : indices profile_index device.profiles ≡ descending device.num_profiles
  pub of_parts : All (ProfileIsNumbered device.num_buttons device.num_leds) device.profiles
