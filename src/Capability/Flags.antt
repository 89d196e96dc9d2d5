-- ===== src/Capability/Flags.antt =====
-- src/libratbag-private.h: the small sets of flags of resolutions, buttons and LEDs.
use libratbag.Base.{
  ℕ, ◌^◌, ◌≡◌, ◌≢◌, arith, true, false, not, ◌||◌, ◌&&◌, bit_and, bit_or, ◌==◌, if◌then◌else◌, done,
}
use libratbag.Types.{Resolution, Button, Led, ActionType, LedMode}
use libratbag.Bits.{bit_at-lt, bit_at-pow, bit_at-bit_or, bit_and-pow_eq_zero}
use libratbag.Capability.{
  resolution_set_cap, resolution_has_capability, button_has_action_type, button_enable_action_type,
  led_has_mode, led_set_mode_capability, action_type_value, led_mode_value,
  cap_individual_report_rate, cap_separate_xy_resolution, is_assignable,
}

flag-or :
    (w k j : ℕ)
    → not (bit_and (bit_or w (2 ^ k)) (2 ^ j) == 0) ≡ (j == k) || not (bit_and w (2 ^ j) == 0)
flag-or w k j = ground (
  arith,
  bit_and-pow_eq_zero (bit_or w (2 ^ k)) j,
  bit_and-pow_eq_zero w j,
  bit_at-bit_or j w (2 ^ k),
  bit_at-pow k j,
  bit_at-lt w j,
)

-- Setting one capability of a resolution takes the other one away: behind two calls, only the
-- second capability is there.
pub resolution_set_cap-forgets :
    (res first second : Resolution) (a b : ℕ)
    → resolution_set_cap res a ≡ done first
    → resolution_set_cap first b ≡ done second
    → a ≢ b
    → (resolution_has_capability second a ≡ false)
      × (resolution_has_capability second b
          ≡ (b == cap_individual_report_rate) || (b == cap_separate_xy_resolution))
unfolding resolution_set_cap resolution_has_capability
resolution_set_cap-forgets res first second a b h1 h2 ne = ground (
  arith,
  bit_and-pow_eq_zero (2 ^ b) a,
  bit_and-pow_eq_zero (2 ^ b) b,
  bit_at-pow b a,
  bit_at-pow b b,
)

-- Enabling an action type for a button enables that type, of the four that can be assigned, and
-- leaves the answers for the other types as they were.
pub button_has_action_type-enable :
    (button : Button) (t u : ActionType)
    → button_has_action_type (button_enable_action_type button t) u ≡ (
        if is_assignable u && (action_type_value u == action_type_value t)
        then true
        else button_has_action_type button u)
unfolding button_has_action_type button_enable_action_type
button_has_action_type-enable button t u =
    ground (arith, flag-or button.action_caps (action_type_value t) (action_type_value u))

-- Adding a mode to an LED adds that mode and no other; off is always there.
pub led_has_mode-set_mode_capability :
    (led : Led) (m n : LedMode)
    → led_has_mode (led_set_mode_capability led m) n
      ≡ (led_mode_value n == led_mode_value m) || led_has_mode led n
unfolding led_has_mode led_set_mode_capability
led_has_mode-set_mode_capability led m n =
    ground (arith, flag-or led.modes (led_mode_value m) (led_mode_value n))
