-- ===== src/Tests/Devices.antt =====
-- The theorems on the creation of devices, references, lookups and settings, each at one input.
use libratbag.Base.{ℕ, ◌≡◌, refl, ◌⊎◌, arith, true, false, ◌==◌, none, some, done, get_elem?}
use mathlib.Core.Option
use libratbag.Types.{Device, Profile, type_special, success, error_device, error_capability}
use libratbag.Capability.{device_has_capability}
use libratbag.Bitmap.{long_bit_is_set}
use libratbag.Capability.Laws.{zeros-IsClosed}
use libratbag.Numbered.{IsNumbered}
use libratbag.Create.{device_init_profiles}
use libratbag.Create.Init.{IsInitialised, device_init_profiles-IsInitialised}
use libratbag.Refs.{
  part_button, device_get_profile, profile_get_part, refcount_at, device_unref, part_ref,
  part_unref, profile_ref, profile_unref, device_ref,
}
use libratbag.Refs.Lookup.{
  HasRoom, profile_taken, part_taken, index_at, device_get_profile_found, profile_get_part_found,
}
use libratbag.Refs.Counted.{IsCounted, to_device, to_part, ref, unref}
use libratbag.Refs.Release.{ref-IsCounted}
use libratbag.Refs.Destroy.{unref-IsCounted, unref-WasLast, WasLast}
use libratbag.Macro.{button_get_macro}
use libratbag.Settings.{button_set_action, plain_action, profile_set_active}
use libratbag.Settings.Actions.{Reads, button_set_action-Reads}
use libratbag.Settings.Active.{profile_set_active_lem}
use libratbag.Tests.{fresh, device, profile, button}

device_init_profiles-IsInitialised_example :
    (device' : Device) × (device_init_profiles fresh 2 3 5 2 ≡ done device')
    × IsInitialised fresh device' 2 3 5 2
device_init_profiles-IsInitialised_example =
    device_init_profiles-IsInitialised fresh 2 3 5 2 (omega arith) refl zeros-IsClosed (omega arith)

device-IsNumbered : IsNumbered device
device-IsNumbered = record {
  of_profiles = refl;
  of_parts = (
    record { counted = refl; of_resolutions = refl; of_buttons = refl; of_leds = refl },
    (record { counted = refl; of_resolutions = refl; of_buttons = refl; of_leds = refl }, tt),
  );
}

device-HasRoom : HasRoom device
device-HasRoom = record {
  of_device = omega arith;
  of_profiles = (
    record {
      of_profile = omega arith;
      of_resolutions = (omega arith, (omega arith, tt));
      of_buttons = (omega arith, tt);
      of_leds = (omega arith, tt);
    },
    (
      record {
        of_profile = omega arith;
        of_resolutions = (omega arith, (omega arith, tt));
        of_buttons = (omega arith, tt);
        of_leds = (omega arith, tt);
      },
      tt,
    ),
  );
}

device_get_profile_found_example :
    (p : ℕ) × (there : Profile) × (device_get_profile device 1
      ≡ done (some p, profile_taken device p there))
    × (get_elem? device.profiles p ≡ some there)
    × (there.index ≡ 1)
device_get_profile_found_example =
    device_get_profile_found device 1 device-IsNumbered device-HasRoom (omega arith)

profile_get_part_found_example :
    (i : ℕ) × (n : ℕ) × (profile_get_part part_button device 0 0
      ≡ done (some i, part_taken part_button device 0 (profile 1 false) i n))
    × (index_at part_button (profile 1 false) i ≡ some 0)
    × (refcount_at part_button (profile 1 false) i ≡ some n)
profile_get_part_found_example =
    profile_get_part_found device 0 (profile 1 false) refl part_button 0 device-IsNumbered
      device-HasRoom (omega arith)

device-IsCounted : IsCounted device
device-IsCounted = record { of_profiles = omega arith; of_parts = (omega arith, (omega arith, tt)) }

-- The device with a reference to the button of its first profile.
abbrev referred : Device
referred = part_taken part_button device 0 (profile 1 false) 0 0

take_button : ref (to_part part_button 0 0) device ≡ done referred
unfolding part_ref profile_ref device_ref
take_button = refl

ref-IsCounted_example : IsCounted referred
ref-IsCounted_example =
    ref-IsCounted (to_part part_button 0 0) device referred device-IsCounted take_button

drop_button : unref (to_part part_button 0 0) referred ≡ done (some device)
unfolding part_unref profile_unref device_unref
drop_button = refl

unref-IsCounted_example : IsCounted device
unref-IsCounted_example =
    unref-IsCounted (to_part part_button 0 0) referred device
      (ref-IsCounted (to_part part_button 0 0) device referred device-IsCounted take_button) tt
      drop_button

drop_device : unref to_device device ≡ done none
unfolding device_unref
drop_device = refl

unref-WasLast_example : WasLast to_device device
unref-WasLast_example = unref-WasLast to_device device device-IsCounted (omega arith) drop_device

button_set_action-Reads_example :
    Reads (button_set_action button (plain_action type_special 5)) type_special 5
    × (button_get_macro (button_set_action button (plain_action type_special 5)) ≡ done none)
    × (button_set_action button (plain_action type_special 5)
        ≡ record button { action = record { action_type = type_special; value = 5; macro = none } })
button_set_action-Reads_example = button_set_action-Reads button type_special 5 (λ e. cc)

profile_set_active_lem_example :
    ((true ≡ false)
      × (profile_set_active (some (λ d i. false)) device 0 ≡ done (error_capability, device)))
    ⊎ (((true ≡ true)
          × (false ≡ true)
          × (profile_set_active (some (λ d i. false)) device 0 ≡ done (error_device, device)))
        ⊎ ((true ≡ true)
            × (false ≡ false)
            × ((device' : Device) × (profile_set_active (some (λ d i. false)) device 0
                  ≡ done (success, device'))
                × (device' ≡ record device { profiles = device'.profiles })
                × ((j : ℕ)
                    → get_elem? device'.profiles j
                      ≡ Option.map {A = Profile} {B = Profile}
                          (λ q. record q { is_active = 0 == j })
                          (get_elem? device.profiles j)))))
unfolding device_has_capability long_bit_is_set
profile_set_active_lem_example =
    profile_set_active_lem (λ d i. false) device 0 (profile 1 false) true refl refl
