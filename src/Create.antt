-- ===== src/Create.antt =====
-- src/libratbag.c and src/libratbag-data.c: the creation of a device with its profiles,
-- resolutions, buttons and LEDs. The library's context and the udev handle are left out; the data
-- file of the device is an argument.
pub mod Shape
pub mod Init
use libratbag.Base.{
  ℕ, zero, suc, ◌+◌, ◌/◌, ◌%◌, Bool, true, false, Option, none, some, List, [], ◌∷◌, ◌++◌, ltb,
  if◌then◌else◌, get_elem?, replicate, Outcome, done, aborted, assert, deref, ◌>>=◌, length,
}
use libratbag.Types.{
  Device, Profile, Resolution, Button, Led, Action, InputId, type_none, led_off, Color,
}
use libratbag.Capability.{
  cap_words, device_set_capability, cap_query_configuration, cap_resolution,
  cap_switchable_resolution, cap_profile, cap_switchable_profile, cap_button, cap_button_key,
  cap_led,
}

abbrev pub no_action : Action
no_action = record { action_type = type_none; value = 0; macro = none }

pub device_new : Option (List ℕ) → InputId → Option (List ℕ) → Outcome Device
device_new name id device_data =
    device_set_capability
      (record {
        refcount = 1;
        name = name;
        ids = id;
        driver = none;
        device_data = device_data;
        capabilities = replicate cap_words 0;
        num_profiles = 0;
        profiles = [];
        num_buttons = 0;
        num_leds = 0;
      })
      cap_query_configuration

pub create_button : Profile → ℕ → Profile
create_button profile index = record profile { buttons = button ∷ profile.buttons }
  where
    button : Button
    button = record {
      refcount = 0;
      index = index;
      button_type = 0;
      action = no_action;
      action_caps = 0;
      dirty = false;
    }

-- `ratbag_device_data_get_led_type`, with its assertion.
pub device_data_get_led_type : List ℕ → ℕ → Outcome ℕ
device_data_get_led_type led_types index = deref (get_elem? led_types index)

-- `RATBAG_LED_COLORDEPTH_RGB_888`.
abbrev colordepth_rgb_888 : ℕ
colordepth_rgb_888 = 401

abbrev new_led : ℕ → ℕ → Led
new_led index led_type = record {
  refcount = 0;
  index = index;
  led_type = led_type;
  mode = led_off;
  modes = 0;
  color = record { red = 0; green = 0; blue = 0 };
  colordepth = colordepth_rgb_888;
  ms = 0;
  brightness = 0;
  dirty = false;
}

pub create_led : Option (List ℕ) → Profile → ℕ → Outcome Profile
unfolding device_data_get_led_type
create_led none profile index = done (record profile { leds = new_led index 0 ∷ profile.leds })
create_led (some led_types) profile index = do
  led_type ← device_data_get_led_type led_types index
  done (record profile { leds = new_led index led_type ∷ profile.leds })

pub create_resolution : Profile → ℕ → Profile
create_resolution profile index = record profile {
  resolutions = res ∷ profile.resolutions;
  num_resolutions = profile.num_resolutions + 1;
}
  where
    res : Resolution
    res = record {
      refcount = 0;
      index = index;
      dpis = [];
      dpi_x = 0;
      dpi_y = 0;
      hz = 0;
      rates = [];
      is_active = false;
      is_default = false;
      dirty = false;
      capabilities = 0;
    }

-- The three loops of `ratbag_create_profile` with `left` rounds to go, at index `i`.
pub create_resolutions : ℕ → ℕ → Profile → Profile
unfolding create_resolution
create_resolutions zero i profile = profile
create_resolutions (suc left) i profile =
    create_resolutions left (i + 1) (create_resolution profile i)

pub create_buttons : ℕ → ℕ → Profile → Profile
unfolding create_button
create_buttons zero i profile = profile
create_buttons (suc left) i profile = create_buttons left (i + 1) (create_button profile i)

pub create_leds : Option (List ℕ) → ℕ → ℕ → Profile → Outcome Profile
unfolding create_led
create_leds device_data zero i profile = done profile
create_leds device_data (suc left) i profile =
    create_led device_data profile i >>= create_leds device_data left (i + 1)

-- The decimal digits that `%d` prints, on fuel: a number has at most as many digits as its value
-- has units, and one more.
decimal : ℕ → ℕ → List ℕ
decimal zero n = []
decimal (suc fuel) n =
    let above = decimal fuel (n / 10) in
    if ltb n 10 then (b'0' + n) ∷ [] else above ++ (b'0' + n % 10) ∷ []

-- "Profile %d"
profile_name : ℕ → List ℕ
unfolding decimal
profile_name n = b'P' ∷ b'r' ∷ b'o' ∷ b'f' ∷ b'i' ∷ b'l' ∷ b'e' ∷ 32 ∷ decimal (n + 1) n

abbrev new_profile : ℕ → Profile
new_profile index = record {
  refcount = 0;
  name = some (profile_name (index + 1));
  index = index;
  buttons = [];
  resolutions = [];
  leds = [];
  num_resolutions = 0;
  is_active = false;
  is_enabled = true;
  dirty = false;
  capabilities = replicate cap_words 0;
}

pub create_profile : Device → ℕ → ℕ → ℕ → ℕ → Outcome Device
unfolding create_resolutions create_buttons create_leds
create_profile device index num_resolutions num_buttons num_leds = do
  let filled =
      create_buttons num_buttons 0 (create_resolutions num_resolutions 0 (new_profile index))
  profile ← create_leds device.device_data num_leds 0 filled
  done (record device {
    profiles = profile ∷ device.profiles;
    num_buttons = num_buttons;
    num_leds = num_leds;
  })

pub create_profiles : ℕ → ℕ → ℕ → ℕ → ℕ → Device → Outcome Device
create_profiles zero i num_resolutions num_buttons num_leds device = done device
create_profiles (suc left) i num_resolutions num_buttons num_leds device =
    create_profile device i num_resolutions num_buttons num_leds
    >>= create_profiles left (i + 1) num_resolutions num_buttons num_leds

-- Several capabilities, one call after another.
pub set_capabilities : List ℕ → Device → Outcome Device
set_capabilities [] device = done device
set_capabilities (cap ∷ caps) device = device_set_capability device cap >>= set_capabilities caps

pub device_init_profiles : Device → ℕ → ℕ → ℕ → ℕ → Outcome Device
unfolding set_capabilities
device_init_profiles device num_profiles num_resolutions num_buttons num_leds = do
  created ← create_profiles num_profiles 0 num_resolutions num_buttons num_leds device
  let counted = record created { num_profiles = num_profiles }
  with_profiles ←
      set_capabilities
        (if ltb 1 num_profiles
          then cap_profile ∷ cap_switchable_profile ∷ cap_button ∷ cap_button_key ∷ []
          else [])
        counted
  with_resolutions ←
      set_capabilities
        (if ltb 1 num_resolutions then cap_resolution ∷ cap_switchable_resolution ∷ [] else [])
        with_profiles
  set_capabilities (if ltb 0 num_leds then cap_led ∷ [] else []) with_resolutions
