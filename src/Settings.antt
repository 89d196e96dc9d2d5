-- ===== src/Settings.antt =====
-- src/libratbag.c: the calls that change a profile, a button or an LED. A profile is its place `p`
-- in the device's list, a button or an LED its place `i` in the profile's; at a place with no object,
-- for which the source has no pointer, a call aborts. `driver_set_active` is
-- the driver's `set_active_profile`: it says whether the device refused.
pub mod Actions
pub mod Active
use libratbag.Base.{
  ℕ, ◌-◌, ◌^◌, Bool, true, false, not, Option, none, some, List, map, if◌then◌else◌, get_elem?, set,
  modify, Outcome, done, aborted, deref, ◌>>=◌,
}
use libratbag.Types.{
  ErrorCode, success, error_device, error_capability, Device, Profile, Resolution, Button, Led,
  Action, ActionType, type_none, type_button, type_special, type_key, type_macro, type_unknown,
  Macro, LedMode, Color,
}
use libratbag.Capability.{
  device_has_capability, profile_has_capability, cap_disable_profile, cap_switchable_profile,
  cap_button_key, cap_button_macros, cap_led, cap_writable_name,
}
use libratbag.Macro.{button_copy_macro}
use libratbag.Create.{no_action}

-- The object behind a pointer to a button or an LED.
abbrev pub part_of {ℓ} : {A : Type ℓ} → (Profile → List A) → Device → ℕ → ℕ → Option A
part_of parts device p i = elim (get_elem? device.profiles p) [
  | none ↦ none
  | some profile ↦ get_elem? (parts profile) i
]

-- The result of a call on an object that needs a capability of the device.
abbrev pub guarded {ℓ} :
    {A : Type ℓ} → Option A → Device → ℕ → Device → Outcome (ErrorCode × Device)
guarded object device cap changed = do
  there ← deref object
  has ← device_has_capability device cap
  done (if has then (success, changed) else (error_capability, device))

-- Writes into the objects behind the pointers.
abbrev pub change_profile : Device → ℕ → (Profile → Profile) → Device
change_profile device p f = record device { profiles = modify device.profiles p f }

abbrev pub change_button : Device → ℕ → ℕ → (Button → Button) → Device
change_button device p i f = change_profile device p λ profile. record profile {
  buttons = modify profile.buttons i (λ button. record (f button) { dirty = true });
  dirty = true;
}

abbrev pub change_led : Device → ℕ → ℕ → (Led → Led) → Device
change_led device p i f = change_profile device p λ profile. record profile {
  leds = modify profile.leds i (λ led. record (f led) { dirty = true });
  dirty = true;
}

unfoldable pub profile_set_enabled : Device → ℕ → Bool → Outcome (ErrorCode × Device)
profile_set_enabled device p enabled =
    guarded (get_elem? device.profiles p) device cap_disable_profile
      (change_profile device p λ profile. record profile { is_enabled = enabled; dirty = true })

unfoldable pub profile_set_name : Device → ℕ → Option (List ℕ) → Outcome (ErrorCode × Device)
profile_set_name device p name = do
  profile ← deref (get_elem? device.profiles p)
  has ← profile_has_capability profile cap_writable_name
  done (
      if has
      then (
        success,
        change_profile device p λ profile. record profile { name = name; dirty = true },
      )
      else (error_capability, device))

abbrev pub deactivate_profile : Profile → Profile
deactivate_profile profile = record profile { is_active = false }

-- The write reaches the device at once, so the profile is not marked. The driver's function is
-- asserted to be there.
unfoldable pub profile_set_active :
    Option (Device → ℕ → Bool) → Device → ℕ → Outcome (ErrorCode × Device)
profile_set_active driver_set_active device p = do
  has ← device_has_capability device cap_switchable_profile
  if not has
      then done (error_capability, device)
      else deref driver_set_active >>= λ fails. deref (get_elem? device.profiles p) >>= λ profile.
          done (
            if fails device profile.index then (error_device, device) else (
              success,
              record device {
                profiles =
                    modify (map deactivate_profile device.profiles) p
                      (λ q. record q { is_active = true });
              },
            ))

is_macro_action : ActionType → Bool
is_macro_action type_macro = true
is_macro_action t = false

-- Only an action of the macro type brings its own macro.
unfoldable pub button_set_action : Button → Action → Button
unfolding is_macro_action
button_set_action button action =
    if is_macro_action action.action_type
    then record button { action = action }
    else record button { action = record action { macro = button.action.macro } }

abbrev pub plain_action : ActionType → ℕ → Action
plain_action t value = record { action_type = t; value = value; macro = none }

unfoldable pub button_set_button : Device → ℕ → ℕ → ℕ → Outcome (ErrorCode × Device)
unfolding button_set_action
button_set_button device p i btn =
    guarded (part_of (λ profile. profile.buttons) device p i) device cap_button_key
      (change_button device p i λ button. button_set_action button (plain_action type_button btn))

unfoldable pub button_set_special : Device → ℕ → ℕ → ℕ → Outcome (ErrorCode × Device)
unfolding button_set_action
button_set_special device p i act =
    guarded (part_of (λ profile. profile.buttons) device p i) device cap_button_key
      (change_button device p i λ button. button_set_action button (plain_action type_special act))

-- The modifiers of the call are ignored by the source.
unfoldable pub button_set_key : Device → ℕ → ℕ → ℕ → Outcome (ErrorCode × Device)
unfolding button_set_action
button_set_key device p i key =
    guarded (part_of (λ profile. profile.buttons) device p i) device cap_button_key
      (change_button device p i λ button. button_set_action button (plain_action type_key key))

unfoldable pub button_disable : Device → ℕ → ℕ → Outcome (ErrorCode × Device)
unfolding button_set_action
button_disable device p i =
    guarded (part_of (λ profile. profile.buttons) device p i) device cap_button_key
      (change_button device p i λ button. button_set_action button (plain_action type_none 0))

unfoldable pub button_set_macro : Device → ℕ → ℕ → Macro → Outcome (ErrorCode × Device)
button_set_macro device p i m =
    guarded (part_of (λ profile. profile.buttons) device p i) device cap_button_macros
      (change_button device p i λ button. button_copy_macro button m)

unfoldable pub led_set_mode : Device → ℕ → ℕ → LedMode → Outcome (ErrorCode × Device)
led_set_mode device p i mode =
    guarded (part_of (λ profile. profile.leds) device p i) device cap_led
      (change_led device p i λ led. record led { mode = mode })

unfoldable pub led_set_color : Device → ℕ → ℕ → Color → Outcome (ErrorCode × Device)
led_set_color device p i color =
    guarded (part_of (λ profile. profile.leds) device p i) device cap_led
      (change_led device p i λ led. record led { color = color })

unfoldable pub led_set_effect_duration : Device → ℕ → ℕ → ℕ → Outcome (ErrorCode × Device)
led_set_effect_duration device p i ms =
    guarded (part_of (λ profile. profile.leds) device p i) device cap_led
      (change_led device p i λ led. record led { ms = ms })

unfoldable pub led_set_brightness : Device → ℕ → ℕ → ℕ → Outcome (ErrorCode × Device)
led_set_brightness device p i brightness =
    guarded (part_of (λ profile. profile.leds) device p i) device cap_led
      (change_led device p i λ led. record led { brightness = brightness })

is_button_type : ActionType → Bool
is_button_type type_button = true
is_button_type t = false

pub button_get_button : Button → ℕ
unfolding is_button_type
button_get_button button =
    if is_button_type button.action.action_type then button.action.value else 0

-- `RATBAG_BUTTON_ACTION_SPECIAL_INVALID`, -1, as an unsigned int.
abbrev pub special_invalid : ℕ
special_invalid = 2 ^ 32 - 1

is_special_type : ActionType → Bool
is_special_type type_special = true
is_special_type t = false

pub button_get_special : Button → ℕ
unfolding is_special_type
button_get_special button =
    if is_special_type button.action.action_type then button.action.value else special_invalid

is_key_type : ActionType → Bool
is_key_type type_key = true
is_key_type t = false

-- The number of modifiers that is written back is always 0.
pub button_get_key : Button → ℕ
unfolding is_key_type
button_get_key button = if is_key_type button.action.action_type then button.action.value else 0
