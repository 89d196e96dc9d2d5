-- ===== src/Onboard/Profile/Small.antt =====
-- What is written for a profile are bytes.
use libratbag.Base.{ℕ, zero, suc, ◌^◌, ◌<◌, List, [], ◌∷◌, ◌++◌, map, replicate, arith, All}
use libratbag.Hidpp.{set_le_u16, set_be_u16}
use libratbag.Types.{Color}
use libratbag.Onboard.{put}
use libratbag.Onboard.Buttons.{Binding}
use libratbag.Onboard.Buttons.RoundTrip.{IsRaw}
use libratbag.Onboard.Leds.{
  write_led, intensity_written, Effect, off, on, cycle, breathing, setting, LedSetting, led_of,
  IsLed,
}
use libratbag.Onboard.Profile.{words_to_bytes, bindings_to_bytes, leds_to_bytes}

abbrev pub AreBytes : List ℕ → Type 0
AreBytes l = All (λ b. b < 2 ^ 8) l

pub put-AreBytes :
    (buf : List ℕ) (at : ℕ) (bytes : List ℕ)
    → AreBytes buf
    → AreBytes bytes
    → AreBytes (put buf at bytes)
put-AreBytes [] at bytes h k = tt
put-AreBytes (x ∷ buf) (suc at) bytes (small, h) k = (small, put-AreBytes buf at bytes h k)
put-AreBytes (x ∷ buf) zero [] h k = h
put-AreBytes (x ∷ buf) zero (b ∷ bytes) (small, h) (small', k) =
    (small', put-AreBytes buf zero bytes h k)

pub replicate-AreBytes : (n b : ℕ) → b < 2 ^ 8 → AreBytes (replicate n b)
replicate-AreBytes zero b h = tt
replicate-AreBytes (suc n) b h = (h, replicate-AreBytes n b h)

pub append-AreBytes : (k l : List ℕ) → AreBytes k → AreBytes l → AreBytes (k ++ l)
append-AreBytes [] l h h' = h'
append-AreBytes (x ∷ k) l (small, h) h' = (small, append-AreBytes k l h h')

pub words_to_bytes-AreBytes : (ws : List ℕ) → AreBytes (words_to_bytes ws)
unfolding set_le_u16
words_to_bytes-AreBytes [] = tt
words_to_bytes-AreBytes (w ∷ ws) = (omega arith, (omega arith, words_to_bytes-AreBytes ws))

pub bindings_to_bytes-AreBytes :
    (bs : List Binding) → All IsRaw bs → AreBytes (bindings_to_bytes bs)
bindings_to_bytes-AreBytes [] h = tt
bindings_to_bytes-AreBytes (b ∷ bs) ((k0, k1, k2, k3), h) =
    (k0, (k1, (k2, (k3, bindings_to_bytes-AreBytes bs h))))

intensity_small : (b : ℕ) → intensity_written b < 2 ^ 8
unfolding intensity_written
intensity_small b = ground arith

effect-AreBytes :
    (effect : Effect) (color : Color) (period brightness : ℕ)
    → color.red < 2 ^ 8
    → color.green < 2 ^ 8
    → color.blue < 2 ^ 8
    → AreBytes (write_led (led_of (setting effect color period brightness))).effect
unfolding write_led set_be_u16
effect-AreBytes off color period brightness r g b = replicate-AreBytes 10 0 (omega arith)
effect-AreBytes on color period brightness r g b =
    (r, (g, (b, replicate-AreBytes 7 0 (omega arith))))
effect-AreBytes cycle color period brightness r g b = (
  omega arith,
  (
    omega arith,
    (
      omega arith,
      (
        omega arith,
        (
          omega arith,
          (
            omega arith,
            (omega arith, (intensity_small brightness, replicate-AreBytes 2 0 (omega arith))),
          ),
        ),
      ),
    ),
  ),
)
effect-AreBytes breathing color period brightness r g b = (
  r,
  (
    g,
    (
      b,
      (
        omega arith,
        (
          omega arith,
          (omega arith, (intensity_small brightness, replicate-AreBytes 3 0 (omega arith))),
        ),
      ),
    ),
  ),
)

mode_small : (s : LedSetting) → (write_led (led_of s)).mode < 2 ^ 8
unfolding write_led
mode_small s = omega arith

pub leds_to_bytes-AreBytes :
    (settings : List LedSetting)
    → All IsLed settings
    → AreBytes (leds_to_bytes (map write_led (map led_of settings)))
leds_to_bytes-AreBytes [] h = tt
leds_to_bytes-AreBytes (s ∷ settings) ((word, bright, not_over, (r, g, b)), h) = (
  mode_small s,
  append-AreBytes (write_led (led_of s)).effect
      (leds_to_bytes (map write_led (map led_of settings)))
      (effect-AreBytes s.effect s.color s.period s.brightness r g b)
      (leds_to_bytes-AreBytes settings h),
)
