-- ===== src/Tests/Capabilities.antt =====
-- The theorems on capabilities, each at one input.
use libratbag.Base.{ℕ, ◌≡◌, refl, arith, true, false, ◌||◌, ◌==◌, [], ◌∷◌, done, ◌<◌}
use libratbag.Types.{Device, Resolution}
use libratbag.Bitmap.{long_bit_is_set, long_set_bit_state, long_set_bit}
use libratbag.Bitmap.Laws.{long_bit_is_set-set_bit_state}
use libratbag.Capability.{
  max_cap, cap_button, device_set_capability, device_has_capability, resolution_set_cap,
  resolution_has_capability, cap_individual_report_rate, cap_separate_xy_resolution,
}
use libratbag.Capability.Laws.{
  IsClosed, zeros-IsClosed, device_set_capability-IsClosed, device_has_capability-set,
}
use libratbag.Capability.Flags.{resolution_set_cap-forgets}
use libratbag.Tests.{fresh, resolution}

long_bit_is_set-set_bit_state_example :
    long_bit_is_set (long_set_bit_state (5 ∷ 7 ∷ []) 66 false) 66 ≡ false
long_bit_is_set-set_bit_state_example =
    long_bit_is_set-set_bit_state (5 ∷ 7 ∷ []) 66 false 66 (omega arith)

-- The device with buttons.
abbrev with_button : Device
with_button = record fresh { capabilities = long_set_bit fresh.capabilities cap_button }

set_button : device_set_capability fresh cap_button ≡ done with_button
unfolding device_set_capability
set_button = refl

device_set_capability-IsClosed_example :
    IsClosed with_button.capabilities
    × (with_button ≡ record fresh { capabilities = with_button.capabilities })
    × (0 < cap_button)
    × (cap_button < max_cap)
    × ((c : ℕ)
        → long_bit_is_set with_button.capabilities c
          ≡ (cap_button == c) || long_bit_is_set fresh.capabilities c)
device_set_capability-IsClosed_example =
    device_set_capability-IsClosed fresh with_button cap_button set_button zeros-IsClosed

device_has_capability-set_example : device_has_capability with_button cap_button ≡ done true
device_has_capability-set_example =
    device_has_capability-set fresh with_button cap_button cap_button refl set_button

abbrev individual : Resolution
individual = record (resolution 0) { capabilities = 2 }

abbrev separate : Resolution
separate = record (resolution 0) { capabilities = 4 }

resolution_set_cap-forgets_example :
    (resolution_has_capability separate cap_individual_report_rate ≡ false)
    × (resolution_has_capability separate cap_separate_xy_resolution
        ≡ (cap_separate_xy_resolution == cap_individual_report_rate)
          || (cap_separate_xy_resolution == cap_separate_xy_resolution))
unfolding resolution_set_cap
resolution_set_cap-forgets_example =
    resolution_set_cap-forgets (resolution 0) individual separate cap_individual_report_rate
      cap_separate_xy_resolution first second (omega arith)
  where
    first : resolution_set_cap (resolution 0) cap_individual_report_rate ≡ done individual
    first = refl

    second : resolution_set_cap individual cap_separate_xy_resolution ≡ done separate
    second = refl
