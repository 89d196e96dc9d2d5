-- ===== src/Tests/Sessions.antt =====
-- The theorems on sequences of calls, each at one input: a button is mapped, then an LED is
-- switched on and the active profile changed.
use libratbag.Base.{
  map, ℕ, ◌^◌, Bool, true, false, Option, some, List, [], ◌∷◌, ◌≡◌, refl, ◌⊎◌, replicate, done,
}
use libratbag.Types.{success, Device, Profile, Button, Led, led_on}
use libratbag.Capability.{device_has_capability}
use libratbag.Bitmap.{long_bit_is_set}
use libratbag.Settings.{button_set_button, button_set_action, led_set_mode, profile_set_active}
use libratbag.Commit.{Write, device_commit, clean_profile, write_profile, write_button}
use libratbag.Commit.Plan.{onto, plan}
use libratbag.Session.{Call, map_button, put_mode, activate_profile, perform, perform_all}
use libratbag.Session.Marks.{Behaves}
use libratbag.Session.Calls.{perform-Behaves}
use libratbag.Session.Written.{Among, profile-IsWritten, button-IsWritten}
use libratbag.Tests.{device, profile, button, led}
use libratbag.Tests.Commits.{willing}

-- Button keys, LEDs and switchable profiles.
abbrev able : Device
able = record device { capabilities = 0 ∷ 0 ∷ 0 ∷ 2 ^ 9 ∷ 2 ^ 45 ∷ 0 ∷ 2 ^ 16 ∷ replicate 9 0 }

abbrev accepting : Option (Device → ℕ → Bool)
accepting = some (λ d i. false)

abbrev calls : List Call
calls = map_button 0 0 7 ∷ put_mode 0 0 led_on ∷ activate_profile 0 ∷ []

abbrev mapped : Button
mapped = record button { action = record button.action { value = 7 }; dirty = true }

abbrev lit : Led
lit = record led { mode = led_on; dirty = true }

abbrev touched : Profile
touched = record (profile 1 true) { buttons = mapped ∷ []; leds = lit ∷ []; dirty = true }

abbrev after : Device
after = record able { profiles = touched ∷ profile 0 false ∷ [] }

abbrev first : Device
first = record able {
  profiles = record (profile 1 false) { buttons = mapped ∷ []; dirty = true } ∷ profile 0 true ∷ [];
}

first_runs : perform accepting (map_button 0 0 7) able ≡ done (success, first)
unfolding perform button_set_button button_set_action device_has_capability long_bit_is_set
first_runs = refl

runs : perform_all accepting calls able ≡ done after
unfolding perform_all perform button_set_button button_set_action led_set_mode profile_set_active
    device_has_capability long_bit_is_set
runs = refl

perform-Behaves_example : Behaves able success first
perform-Behaves_example = perform-Behaves accepting (map_button 0 0 7) able first success first_runs

abbrev committed : Device
committed = record after { profiles = map clean_profile after.profiles }

abbrev written_calls : List Write
written_calls = onto (plan willing after) []

commits : device_commit willing after [] ≡ done (success, committed, written_calls)
unfolding device_commit
commits = refl

profile-IsWritten_example :
    (touched ≡ record (profile 1 false) { is_active = touched.is_active })
    ⊎ Among (write_profile touched) written_calls
profile-IsWritten_example =
    profile-IsWritten accepting willing calls able after committed [] written_calls 0
      (profile 1 false) touched runs commits refl refl refl

button-IsWritten_example :
    (mapped ≡ button) ⊎ Among (write_button mapped mapped.action) written_calls
button-IsWritten_example =
    button-IsWritten accepting willing calls able after committed [] written_calls 0
      (profile 1 false) touched runs commits refl refl refl 0 button mapped refl refl refl
