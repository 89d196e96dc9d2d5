-- ===== src/Tests/Profiles.antt =====
-- A profile with four buttons and two LEDs.
use libratbag.Base.{
  map, none, ℕ, zero, suc, ◌^◌, ◌<◌, true, List, [], ◌∷◌, ◌++◌, replicate, ◌≡◌, ◌⊎◌, refl, arith,
  done, All,
}
use libratbag.Types.{Color}
use libratbag.Onboard.Buttons.{Binding, buttons_from_cpu, buttons_to_cpu}
use libratbag.Onboard.Buttons.RoundTrip.{
  Meaning, mouse_button, consumer, key, disabled, bindings_of, blank_binding, no_binding,
  buttons_from_cpu-buttons_to_cpu,
}
use libratbag.Onboard.Leds.{
  HidppLed, LedSetting, IsLed, led_of, on, breathing, mode_of, read_led, write_led,
  read_led-write_led,
}
use libratbag.Onboard.Profile.{OnboardProfile}
use libratbag.Onboard.Profile.Storable.{IsStorable, fresh_profile}
use libratbag.Onboard.Specials.{
  invalid_special, get_special, get_code_from_special, get_special-get_code,
}
use libratbag.Onboard.Profile.{Profiles, write_profile, parse_profile}
use libratbag.Base.{length}
use libratbag.Onboard.Writing.{summed}
use libratbag.Onboard.Dictionary.{dict_to_bytes, read_dict, cleared}
use libratbag.Onboard.Dictionary.RoundTrip.{dict_to_bytes-read_dict}
use libratbag.Onboard.Profile.Device.{write_profile-parse_profile}
use libratbag.Tests.Sectors.{
  Flash, sector_of, pending_of, flash_transfer, mouse, blank, flash-Serves, flash-Takes,
  is_supported,
}

abbrev four_buttons : List Meaning
four_buttons = mouse_button 3 ∷ consumer 0xE2 ∷ key 2 30 ∷ disabled ∷ []

buttons_from_cpu-buttons_to_cpu_example :
    (raw : List Binding) × (buttons_from_cpu
        (bindings_of 0 four_buttons)
        (replicate 4 blank_binding)
      ≡ done raw)
    × (buttons_to_cpu
          (flash_transfer 256)
          100
          mouse
          256
          0
          raw
          (replicate 4 no_binding)
          (replicate 32 none)
          blank
        ≡ done (blank, (bindings_of 0 four_buttons, replicate 32 none)))
buttons_from_cpu-buttons_to_cpu_example =
    buttons_from_cpu-buttons_to_cpu (flash_transfer 256) 100 mouse 256 0 four_buttons
      (replicate 32 none) blank
      ((omega arith, omega arith), (omega arith, ((omega arith, omega arith), (tt, tt))))

abbrev red : Color
red = record { red = 255; green = 0; blue = 0 }

abbrev led_before : HidppLed
led_before = record {
  mode = 0;
  color = record { red = 1; green = 2; blue = 3 };
  period = 0;
  brightness = 0;
}

read_led-write_led_example :
    read_led led_before
      (write_led (record { mode = mode_of breathing; color = red; period = 3000; brightness = 0 }))
    ≡ record { mode = 10; color = red; period = 3000; brightness = 100 }
read_led-write_led_example = read_led-write_led breathing red 3000 0 led_before (omega arith)

get_special-get_code_example :
    (special : ℕ) × (get_special 5 ≡ done special)
    × (get_special (get_code_from_special special) ≡ done special)
    × (((special ≡ invalid_special) × (get_code_from_special special ≡ 12))
        ⊎ (get_code_from_special special ≡ 5))
get_special-get_code_example = get_special-get_code 5 (omega arith)

abbrev two_settings : List LedSetting
two_settings =
    record { effect = breathing; color = red; period = 3000; brightness = 40 }
    ∷ record { effect = on; color = red; period = 0; brightness = 100 }
    ∷ []

abbrev spare_buttons : List Binding
spare_buttons = replicate 28 no_binding

abbrev stored_profile : OnboardProfile
stored_profile = record {
  address = 1;
  enabled = 1;
  name = b'P' ∷ replicate 47 0;
  report_rate = 500;
  default_dpi = 1;
  switched_dpi = 0;
  current_dpi = 2;
  dpi = 400 ∷ 800 ∷ 1600 ∷ 3200 ∷ 0 ∷ [];
  buttons = bindings_of 0 four_buttons ++ spare_buttons;
  macros = replicate 32 none;
  leds = map led_of two_settings;
}

zero_bytes : (n : ℕ) → All (λ b. b < 2 ^ 8) (replicate n 0)
zero_bytes zero = tt
zero_bytes (suc n) = (omega arith, zero_bytes n)

lit_up : IsLed (record { effect = breathing; color = red; period = 3000; brightness = 40 })
lit_up = (omega arith, omega arith, omega arith, (omega arith, omega arith, omega arith))

lit_up_too : IsLed (record { effect = on; color = red; period = 0; brightness = 100 })
lit_up_too = (omega arith, omega arith, omega arith, (omega arith, omega arith, omega arith))

stored_profile-IsStorable : IsStorable stored_profile four_buttons two_settings spare_buttons
stored_profile-IsStorable = record {
  divisor = 1;
  slowest = omega arith;
  rate = refl;
  default_dpi = omega arith;
  switched_dpi = omega arith;
  five = refl;
  words = (omega arith, (omega arith, (omega arith, (omega arith, (omega arith, tt)))));
  few = omega arith;
  bound = refl;
  bindable = ((omega arith, omega arith), (omega arith, ((omega arith, omega arith), (tt, tt))));
  two = refl;
  lit = refl;
  leds = (lit_up, (lit_up_too, tt));
  long = refl;
  bytes = (omega arith, zero_bytes 47);
  ended = refl;
}

abbrev one_profile : Profiles
one_profile = record {
  num_profiles = 1;
  num_rom_profiles = 1;
  num_buttons = 4;
  sector_size = 256;
  profiles = stored_profile ∷ [];
}

write_profile-parse_profile_example :
    (s1 : Flash) × (s2 : Flash) × (write_profile (flash_transfer 256) mouse one_profile 0 blank
      ≡ done (s1, 0))
    × (parse_profile
          (flash_transfer 256)
          100
          mouse
          (record one_profile { profiles = fresh_profile 1 4 spare_buttons ∷ [] })
          0
          true
          s1
        ≡ done (
          s2,
          (
            0,
            record one_profile {
              profiles = record stored_profile { address = 1; enabled = 0; current_dpi = 0 } ∷ [];
            },
          ),
        ))
write_profile-parse_profile_example =
    write_profile-parse_profile (flash_transfer 256) 100 mouse (sector_of 256) pending_of blank
      one_profile (fresh_profile 1 4 spare_buttons ∷ []) 0 stored_profile four_buttons two_settings
      spare_buttons is_supported (flash-Takes 256) (flash-Serves 256 (omega arith)) (omega arith)
      (omega arith) refl refl (omega arith) refl refl stored_profile-IsStorable

dict_to_bytes-read_dict_example :
    (bytes : List ℕ) × (dict_to_bytes 32 (stored_profile ∷ []) ≡ done bytes)
    × (length bytes ≡ 32)
    × (read_dict 0 (summed 32 bytes) (cleared stored_profile ∷ []) ≡ done (stored_profile ∷ []))
dict_to_bytes-read_dict_example =
    dict_to_bytes-read_dict 32 (stored_profile ∷ []) (omega arith) (omega arith)
