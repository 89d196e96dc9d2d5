-- ===== src/Capability.antt =====
-- src/libratbag.c, src/libratbag-private.h and src/libratbag-enums.h: capabilities of devices,
-- profiles, resolutions, buttons and LEDs. A capability is the number of its enumeration value.
pub mod Laws
pub mod Flags
use libratbag.Base.{
  ℕ, ◌-◌, ◌*◌, ◌/◌, ◌%◌, ◌^◌, bit_and, bit_or, Bool, true, false, not, ◌&&◌, ◌||◌, List, leb, ltb,
  ◌==◌, if◌then◌else◌, Outcome, done, aborted, assert, ◌>>=◌, ◌>>◌,
}
use libratbag.Types.{
  Device, Profile, Resolution, Button, Led, ActionType, type_none, type_button, type_special,
  type_key, type_macro, type_unknown, LedMode, led_off, led_on, led_cycle, led_breathing,
}
use libratbag.Bitmap.{long_bit_is_set, long_set_bit, long_clear_bit}

abbrev pub max_cap : ℕ
max_cap = 1000

-- `NLONGS(MAX_CAP)`.
abbrev pub cap_words : ℕ
cap_words = 16

abbrev pub cap_query_configuration : ℕ
cap_query_configuration = 1

abbrev pub cap_resolution : ℕ
cap_resolution = 100

abbrev pub cap_switchable_resolution : ℕ
cap_switchable_resolution = 101

abbrev pub cap_profile : ℕ
cap_profile = 200

abbrev pub cap_switchable_profile : ℕ
cap_switchable_profile = 201

abbrev pub cap_disable_profile : ℕ
cap_disable_profile = 202

abbrev pub cap_button : ℕ
cap_button = 300

abbrev pub cap_button_key : ℕ
cap_button_key = 301

abbrev pub cap_button_macros : ℕ
cap_button_macros = 302

abbrev pub cap_led : ℕ
cap_led = 400

-- `RATBAG_PROFILE_CAP_WRITABLE_NAME`.
abbrev pub cap_writable_name : ℕ
cap_writable_name = 100

unfoldable pub is_invalid_cap : ℕ → Bool
is_invalid_cap cap = cap == 0 || leb max_cap cap

unfoldable pub device_set_capability : Device → ℕ → Outcome Device
unfolding is_invalid_cap
device_set_capability device cap =
    if is_invalid_cap cap
    then aborted
    else if not (cap == cap_query_configuration)
        && not (cap % 100 == 0)
        && not (long_bit_is_set device.capabilities (cap / 100 * 100))
    then aborted
    else done (record device { capabilities = long_set_bit device.capabilities cap })

unfoldable pub device_unset_capability : Device → ℕ → Outcome Device
unfolding is_invalid_cap
device_unset_capability device cap =
    if is_invalid_cap cap
    then aborted
    else done (record device { capabilities = long_clear_bit device.capabilities cap })

unfoldable pub device_has_capability : Device → ℕ → Outcome Bool
unfolding is_invalid_cap
device_has_capability device cap =
    if is_invalid_cap cap then aborted else done (long_bit_is_set device.capabilities cap)

unfoldable pub profile_has_capability : Profile → ℕ → Outcome Bool
unfolding is_invalid_cap
profile_has_capability profile cap =
    if is_invalid_cap cap then aborted else done (long_bit_is_set profile.capabilities cap)

pub profile_set_cap : Profile → ℕ → Outcome Profile
profile_set_cap profile cap = do
  assert (leb cap max_cap)
  done (record profile { capabilities = long_set_bit profile.capabilities cap })

abbrev pub cap_individual_report_rate : ℕ
cap_individual_report_rate = 1

abbrev pub cap_separate_xy_resolution : ℕ
cap_separate_xy_resolution = 2

-- A number that is no capability of a resolution has the answer 0.
pub resolution_has_capability : Resolution → ℕ → Bool
resolution_has_capability resolution cap =
    if cap == cap_individual_report_rate || cap == cap_separate_xy_resolution
    then not (bit_and resolution.capabilities (2 ^ cap) == 0)
    else false

-- The source assigns the mask: it does not add to it.
unfoldable pub resolution_set_cap : Resolution → ℕ → Outcome Resolution
resolution_set_cap res cap = do
  assert (leb cap cap_separate_xy_resolution)
  done (record res { capabilities = 2 ^ cap })

-- The values of `enum ratbag_button_action_type`.
abbrev pub action_type_value : ActionType → ℕ
action_type_value type_none = 0
action_type_value type_button = 1
action_type_value type_special = 2
action_type_value type_key = 3
action_type_value type_macro = 4
action_type_value type_unknown = 1000

unfoldable pub is_assignable : ActionType → Bool
is_assignable type_none = false
is_assignable type_unknown = false
is_assignable t = true

pub button_has_action_type : Button → ActionType → Bool
unfolding is_assignable
button_has_action_type button t =
    if is_assignable t
    then not (bit_and button.action_caps (2 ^ action_type_value t) == 0)
    else false

-- The shift of a 32-bit 1 is defined for the values below 32 only: `type_unknown` has no caller.
pub button_enable_action_type : Button → ActionType → Button
button_enable_action_type button t = record button {
  action_caps = bit_or button.action_caps (2 ^ action_type_value t);
}

-- The values of `enum ratbag_led_mode`.
abbrev pub led_mode_value : LedMode → ℕ
led_mode_value led_off = 0
led_mode_value led_on = 1
led_mode_value led_cycle = 2
led_mode_value led_breathing = 3

is_off : LedMode → Bool
is_off led_off = true
is_off mode = false

-- The assertions on the range hold for every value of the enumeration.
pub led_has_mode : Led → LedMode → Bool
unfolding is_off
led_has_mode led mode =
    if is_off mode then true else not (bit_and led.modes (2 ^ led_mode_value mode) == 0)

pub led_set_mode_capability : Led → LedMode → Led
led_set_mode_capability led mode = record led { modes = bit_or led.modes (2 ^ led_mode_value mode) }
