-- ===== src/Session.antt =====
-- src/libratbag.c: any sequence of the calls of a client that change the device's objects.
pub mod Pairs
pub mod Tracks
pub mod Rates
pub mod Marks
pub mod Calls
pub mod Written
use libratbag.Base.{ℕ, Bool, Option, List, [], ◌∷◌, get_elem?, Outcome, done, deref, ◌>>=◌}
use libratbag.Types.{ErrorCode, Device, Profile, Macro, LedMode, Color}
use libratbag.Refs.{put_profile}
use libratbag.Resolution.{
  resolution_set_dpi, resolution_set_dpi_xy, resolution_set_report_rate, resolution_set_active,
  resolution_set_default,
}
use libratbag.Settings.{
  profile_set_enabled, profile_set_name, profile_set_active, button_set_button, button_set_special,
  button_set_key, button_disable, button_set_macro, led_set_mode, led_set_color,
  led_set_effect_duration, led_set_brightness,
}

-- A call, with the places of the objects that it is made on: the profile, and the button, the LED
-- or the resolution.
pub data Call : Type 0 where
  enable_profile : ℕ → Bool → Call
  name_profile : ℕ → Option (List ℕ) → Call
  activate_profile : ℕ → Call
  map_button map_special map_key : ℕ → ℕ → ℕ → Call
  disable_button : ℕ → ℕ → Call
  map_macro : ℕ → ℕ → Macro → Call
  put_mode : ℕ → ℕ → LedMode → Call
  put_color : ℕ → ℕ → Color → Call
  put_duration put_brightness : ℕ → ℕ → ℕ → Call
  put_dpi : ℕ → ℕ → ℕ → Call
  put_dpi_xy : ℕ → ℕ → ℕ → ℕ → Call
  put_rate : ℕ → ℕ → ℕ → Call
  activate_resolution default_resolution : ℕ → ℕ → Call

-- A call on a resolution reaches no more than its profile.
pub on_profile :
    Device → ℕ → (Profile → Outcome (ErrorCode × Profile)) → Outcome (ErrorCode × Device)
on_profile device p f = do
  profile ← deref (get_elem? device.profiles p)
  (code, profile') ← f profile
  done (code, put_profile device p profile')

-- `driver` is the driver's `set_active_profile`, as in `profile_set_active`.
unfoldable pub perform : Option (Device → ℕ → Bool) → Call → Device → Outcome (ErrorCode × Device)
unfolding on_profile
perform driver (enable_profile p enabled) device = profile_set_enabled device p enabled
perform driver (name_profile p name) device = profile_set_name device p name
perform driver (activate_profile p) device = profile_set_active driver device p
perform driver (map_button p i btn) device = button_set_button device p i btn
perform driver (map_special p i act) device = button_set_special device p i act
perform driver (map_key p i key) device = button_set_key device p i key
perform driver (disable_button p i) device = button_disable device p i
perform driver (map_macro p i m) device = button_set_macro device p i m
perform driver (put_mode p i mode) device = led_set_mode device p i mode
perform driver (put_color p i color) device = led_set_color device p i color
perform driver (put_duration p i ms) device = led_set_effect_duration device p i ms
perform driver (put_brightness p i brightness) device = led_set_brightness device p i brightness
perform driver (put_dpi p r dpi) device =
    on_profile device p (λ profile. resolution_set_dpi profile r dpi)
perform driver (put_dpi_xy p r x y) device =
    on_profile device p (λ profile. resolution_set_dpi_xy profile r x y)
perform driver (put_rate p r hz) device =
    on_profile device p (λ profile. resolution_set_report_rate profile r hz)
perform driver (activate_resolution p r) device =
    on_profile device p (λ profile. resolution_set_active profile r)
perform driver (default_resolution p r) device =
    on_profile device p (λ profile. resolution_set_default profile r)

-- The calls one after another; the codes are not looked at.
unfoldable pub perform_all : Option (Device → ℕ → Bool) → List Call → Device → Outcome Device
unfolding perform
perform_all driver [] device = done device
perform_all driver (call ∷ calls) device =
    perform driver call device >>= λ result. perform_all driver calls result.1
