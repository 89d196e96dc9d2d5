-- ===== src/Onboard/Leds.antt =====
-- src/hidpp20.c, hidpp20_onboard_profiles_read_led and _write_led: the effect of an LED, as its eleven
-- bytes in the sector of a profile.
use libratbag.Base.{
  ℕ, ◌/◌, ◌%◌, ◌^◌, ◌≤◌, ◌<◌, Bool, true, false, ◌||◌, List, [], ◌∷◌, ltb, ◌==◌, if◌then◌else◌,
  get_or, ◌≡◌, refl, ap, ◌∙◌, arith,
}
use libratbag.Base.{length, inl, inr, Bool-cases}
use libratbag.Hidpp.{get_be_u16, set_be_u16}
use libratbag.Types.{Color}

-- `struct hidpp20_internal_led`: the mode, and the ten bytes of the union.
pub record InternalLed : Type 0 where
  pub mode : ℕ
  pub effect : List ℕ

-- `struct hidpp20_led`
pub record HidppLed : Type 0 where
  pub mode : ℕ
  pub color : Color
  pub period : ℕ
  pub brightness : ℕ

abbrev pub hidpp_led_off : ℕ
hidpp_led_off = 0x00

abbrev pub hidpp_led_on : ℕ
hidpp_led_on = 0x01

abbrev pub hidpp_led_cycle : ℕ
hidpp_led_cycle = 0x03

abbrev pub hidpp_led_breathing : ℕ
hidpp_led_breathing = 0x0a

-- An intensity of 0 stands for 100.
unfoldable pub intensity_read : ℕ → ℕ
intensity_read brightness = if brightness == 0 then 100 else brightness

unfoldable pub intensity_written : ℕ → ℕ
intensity_written brightness = if ltb brightness 100 then brightness else 0

abbrev pub color_at : List ℕ → Color
color_at effect = record {
  red = get_or effect 0 0;
  green = get_or effect 1 0;
  blue = get_or effect 2 0;
}

unfoldable pub read_led : HidppLed → InternalLed → HidppLed
unfolding intensity_read get_be_u16
read_led led internal =
    let effect = internal.effect in
    let plain = record led { mode = internal.mode; period = 0; brightness = 0 } in
    if internal.mode == hidpp_led_cycle
    then record plain {
      period = get_be_u16 (get_or effect 5 0) (get_or effect 6 0);
      brightness = intensity_read (get_or effect 7 0);
    }
    else if internal.mode == hidpp_led_breathing
    then record plain {
      color = color_at effect;
      period = get_be_u16 (get_or effect 3 0) (get_or effect 4 0);
      brightness = intensity_read (get_or effect 6 0);
    }
    else if internal.mode == hidpp_led_on
    then record plain { color = color_at effect }
    else plain

unfoldable pub write_led : HidppLed → InternalLed
unfolding intensity_written set_be_u16
write_led led =
    let period = set_be_u16 led.period in
    let high = get_or period 0 0 in
    let low = get_or period 1 0 in
    let intensity = intensity_written led.brightness in
    let color = led.color in
    record {
      mode = led.mode % 2 ^ 8;
      effect =
          if led.mode == hidpp_led_cycle
          then 0 ∷ 0 ∷ 0 ∷ 0 ∷ 0 ∷ high ∷ low ∷ intensity ∷ 0 ∷ 0 ∷ []
          else if led.mode == hidpp_led_breathing
          then color.red ∷ color.green ∷ color.blue ∷ high ∷ low ∷ 0 ∷ intensity ∷ 0 ∷ 0 ∷ 0 ∷ []
          else if led.mode == hidpp_led_on
          then color.red ∷ color.green ∷ color.blue ∷ 0 ∷ 0 ∷ 0 ∷ 0 ∷ 0 ∷ 0 ∷ 0 ∷ []
          else 0 ∷ 0 ∷ 0 ∷ 0 ∷ 0 ∷ 0 ∷ 0 ∷ 0 ∷ 0 ∷ 0 ∷ [];
    }

-- The four modes.
pub data Effect : Type 0 where
  off on cycle breathing : Effect

abbrev pub mode_of : Effect → ℕ
mode_of off = hidpp_led_off
mode_of on = hidpp_led_on
mode_of cycle = hidpp_led_cycle
mode_of breathing = hidpp_led_breathing

abbrev pub has_color : Effect → Bool
has_color off = false
has_color on = true
has_color cycle = false
has_color breathing = true

abbrev pub has_period : Effect → Bool
has_period off = false
has_period on = false
has_period cycle = true
has_period breathing = true

-- The brightness that comes back.
abbrev pub brightness_back : ℕ → ℕ
brightness_back b = if (b == 0) || ltb 99 b then 100 else b

intensity_read-written : (b : ℕ) → intensity_read (intensity_written b) ≡ brightness_back b
unfolding intensity_read intensity_written
intensity_read-written b = ground arith

period_back : (p : ℕ) → p < 2 ^ 16 → get_be_u16 (p / 256 % 256) (p % 256) ≡ p
unfolding get_be_u16
period_back p h = omega arith

-- An LED that is written and read over another state of it: the mode is the same, the color if the
-- mode has one, and else that of the other state. In a mode with a period the period is the same, and
-- so is a brightness between 1 and 100, but a brightness of 0 comes back as 100; in a mode with none
-- both come back as 0.
pub read_led-write_led :
    (effect : Effect) (color : Color) (period brightness : ℕ) (before : HidppLed)
    → period < 2 ^ 16
    → read_led before (
        write_led (record {
          mode = mode_of effect;
          color = color;
          period = period;
          brightness = brightness;
        }))
      ≡ record {
        mode = mode_of effect;
        color = if has_color effect then color else before.color;
        period = if has_period effect then period else 0;
        brightness = if has_period effect then brightness_back brightness else 0;
      }
unfolding read_led write_led set_be_u16
read_led-write_led off color period brightness before h = refl
read_led-write_led on color period brightness before h = refl
read_led-write_led cycle color period brightness before h =
    ap
      (λ (p : ℕ). record {
        mode = hidpp_led_cycle;
        color = before.color;
        period = p;
        brightness = intensity_read (intensity_written brightness);
      })
      (period_back period h)
    ∙ ap
        (λ (b : ℕ). record {
          mode = hidpp_led_cycle;
          color = before.color;
          period = period;
          brightness = b;
        })
        (intensity_read-written brightness)
read_led-write_led breathing color period brightness before h =
    ap
      (λ (p : ℕ). record {
        mode = hidpp_led_breathing;
        color = color;
        period = p;
        brightness = intensity_read (intensity_written brightness);
      })
      (period_back period h)
    ∙ ap
        (λ (b : ℕ). record {
          mode = hidpp_led_breathing;
          color = color;
          period = period;
          brightness = b;
        })
        (intensity_read-written brightness)

-- What an LED is set to, in an array that is fresh otherwise.
pub record LedSetting : Type 0 where
  pub effect : Effect
  pub color : Color
  pub period : ℕ
  pub brightness : ℕ

abbrev pub fresh_led : HidppLed
fresh_led = record {
  mode = 0;
  color = record { red = 0; green = 0; blue = 0 };
  period = 0;
  brightness = 0;
}

abbrev pub led_of : LedSetting → HidppLed
led_of s = record {
  mode = mode_of s.effect;
  color = if has_color s.effect then s.color else fresh_led.color;
  period = if has_period s.effect then s.period else 0;
  brightness = if has_period s.effect then s.brightness else 0;
}

abbrev pub IsLed : LedSetting → Type 0
IsLed s =
    (s.period < 2 ^ 16)
    × (1 ≤ s.brightness)
    × (s.brightness ≤ 100)
    × ((s.color.red < 2 ^ 8) × (s.color.green < 2 ^ 8) × (s.color.blue < 2 ^ 8))

brightness_kept : (b : ℕ) → 1 ≤ b → b ≤ 100 → brightness_back b ≡ b
brightness_kept b bright not_over = ground arith

abbrev pub setting : Effect → Color → ℕ → ℕ → LedSetting
setting effect color period brightness = record {
  effect = effect;
  color = color;
  period = period;
  brightness = brightness;
}

setting_back :
    (effect : Effect) (color : Color) (period brightness : ℕ)
    → period < 2 ^ 16
    → 1 ≤ brightness
    → brightness ≤ 100
    → read_led fresh_led (write_led (led_of (setting effect color period brightness)))
      ≡ led_of (setting effect color period brightness)
setting_back off color period brightness word bright not_over =
    read_led-write_led off fresh_led.color 0 0 fresh_led (omega arith)
setting_back on color period brightness word bright not_over =
    read_led-write_led on color 0 0 fresh_led (omega arith)
setting_back cycle color period brightness word bright not_over =
    read_led-write_led cycle fresh_led.color period brightness fresh_led word
    ∙ ap
        (λ (b : ℕ). record {
          mode = hidpp_led_cycle;
          color = fresh_led.color;
          period = period;
          brightness = b;
        })
        (brightness_kept brightness bright not_over)
setting_back breathing color period brightness word bright not_over =
    read_led-write_led breathing color period brightness fresh_led word
    ∙ ap
        (λ (b : ℕ). record {
          mode = hidpp_led_breathing;
          color = color;
          period = period;
          brightness = b;
        })
        (brightness_kept brightness bright not_over)

pub read_led-led_of :
    (s : LedSetting) → IsLed s → read_led fresh_led (write_led (led_of s)) ≡ led_of s
read_led-led_of s (word, bright, not_over, bytes) =
    setting_back s.effect s.color s.period s.brightness word bright not_over

pub length-write_led : (led : HidppLed) → length (write_led led).effect ≡ 10
unfolding write_led
length-write_led led = elim (Bool-cases (led.mode == hidpp_led_cycle)) [
  | inl e ↦ rw e
  | inr e ↦ elim (Bool-cases (led.mode == hidpp_led_breathing)) [
    | inl f ↦ rw (e, f)
    | inr f ↦ elim (Bool-cases (led.mode == hidpp_led_on)) [
      | inl g ↦ rw (e, f, g)
      | inr g ↦ rw (e, f, g)
    ]
  ]
]
