-- ===== src/Tests.antt =====
-- A small device on which the theorems are tried: two profiles, each with two resolutions, a
-- button and an LED.
mod Capabilities
mod Macros
mod Resolutions
mod Devices
mod Commits
mod Sessions
mod Logs
mod Reports
mod Sectors
mod Profiles
mod Checksums
use libratbag.Base.{ℕ, ◌^◌, Bool, true, false, none, some, List, [], ◌∷◌, replicate}
use libratbag.Types.{
  Device, Profile, Resolution, Button, Led, Action, Macro, type_button, type_none, led_off, InputId,
}
use libratbag.Capability.{cap_words}

abbrev pub resolution : ℕ → Resolution
resolution i = record {
  refcount = 0;
  index = i;
  dpis = 400 ∷ 800 ∷ 1600 ∷ [];
  dpi_x = 400;
  dpi_y = 400;
  hz = 500;
  rates = 500 ∷ 1000 ∷ [];
  is_active = false;
  is_default = false;
  dirty = false;
  capabilities = 4;
}

abbrev pub button : Button
button = record {
  refcount = 0;
  index = 0;
  button_type = 0;
  action = record { action_type = type_button; value = 1; macro = none };
  action_caps = 2;
  dirty = false;
}

abbrev pub led : Led
led = record {
  refcount = 0;
  index = 0;
  led_type = 1;
  mode = led_off;
  modes = 0;
  color = record { red = 0; green = 0; blue = 0 };
  colordepth = 401;
  ms = 0;
  brightness = 0;
  dirty = false;
}

abbrev pub profile : ℕ → Bool → Profile
profile i active = record {
  refcount = 0;
  name = some (b'P' ∷ []);
  index = i;
  buttons = button ∷ [];
  resolutions = resolution 1 ∷ resolution 0 ∷ [];
  leds = led ∷ [];
  num_resolutions = 2;
  is_active = active;
  is_enabled = true;
  dirty = false;
  capabilities = replicate cap_words 0;
}

abbrev pub input_id : InputId
input_id = record { bustype = 3; vendor = 1133; product = 49277 }

-- The device before its profiles are created.
abbrev pub fresh : Device
fresh = record {
  refcount = 1;
  name = none;
  ids = input_id;
  driver = none;
  device_data = some (1 ∷ 2 ∷ []);
  capabilities = replicate cap_words 0;
  num_profiles = 0;
  profiles = [];
  num_buttons = 0;
  num_leds = 0;
}

-- The device with its profiles; bit 9 of word 3 is `RATBAG_DEVICE_CAP_SWITCHABLE_PROFILE`.
abbrev pub device : Device
device = record fresh {
  capabilities = 0 ∷ 0 ∷ 0 ∷ 2 ^ 9 ∷ replicate 12 0;
  num_profiles = 2;
  profiles = profile 1 false ∷ profile 0 true ∷ [];
  num_buttons = 1;
  num_leds = 1;
}
