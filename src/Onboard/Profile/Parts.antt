-- ===== src/Onboard/Profile/Parts.antt =====
-- The parts of a profile as bytes, and back.
use libratbag.Base.{
  ℕ, zero, suc, ◌+◌, ◌*◌, ◌/◌, ◌%◌, ◌^◌, ◌<◌, List, [], ◌∷◌, ◌++◌, length, map, take, replicate,
  ◌≡◌, refl, ap, ◌∙◌, arith, All, length-append,
}
use libratbag.Hidpp.{set_le_u16, get_le_u16}
use libratbag.Onboard.{skip}
use libratbag.Onboard.Buttons.{Binding, button_to_cpu}
use libratbag.Onboard.Buttons.RoundTrip.{bindings_to_cpu}
use libratbag.Onboard.Leds.{
  HidppLed, write_led, LedSetting, led_of, fresh_led, IsLed, read_led-led_of, length-write_led,
}
use libratbag.Onboard.Profile.{
  words_to_bytes, bytes_to_words, bindings_to_bytes, bytes_to_bindings, leds_to_bytes,
  bytes_to_leds, read_leds,
}

pub length-words_to_bytes : (ws : List ℕ) → length (words_to_bytes ws) ≡ 2 * length ws
unfolding set_le_u16
length-words_to_bytes [] = omega arith
length-words_to_bytes (w ∷ ws) = omega (arith, length-words_to_bytes ws)

pub bytes_to_words-words_to_bytes :
    (ws : List ℕ) → All (λ w. w < 2 ^ 16) ws → bytes_to_words (words_to_bytes ws) ≡ ws
unfolding set_le_u16 get_le_u16
bytes_to_words-words_to_bytes [] h = refl
bytes_to_words-words_to_bytes (w ∷ ws) (small, h) =
    let same : w / 256 % 256 * 256 + w % 256 ≡ w = omega (arith, small) in
    ap (λ (v : ℕ). v ∷ bytes_to_words (words_to_bytes ws)) same
    ∙ ap (◌∷◌ w) (bytes_to_words-words_to_bytes ws h)

pub length-bindings_to_bytes : (bs : List Binding) → length (bindings_to_bytes bs) ≡ 4 * length bs
length-bindings_to_bytes [] = omega arith
length-bindings_to_bytes (b ∷ bs) = omega (arith, length-bindings_to_bytes bs)

pub bytes_to_bindings-bindings_to_bytes :
    (bs : List Binding) → bytes_to_bindings (length bs) (bindings_to_bytes bs) ≡ bs
bytes_to_bindings-bindings_to_bytes [] = refl
bytes_to_bindings-bindings_to_bytes (b ∷ bs) = ap (◌∷◌ b) (bytes_to_bindings-bindings_to_bytes bs)

pub take-append {ℓ} : {A : Type ℓ} (n : ℕ) (l m : List A) → length l ≡ n → take n (l ++ m) ≡ l
take-append zero [] m h = refl
take-append zero (x ∷ l) m h = absurd (omega arith)
take-append (suc n) [] m h = absurd (omega arith)
take-append (suc n) (x ∷ l) m h = ap (◌∷◌ x) (take-append n l m (omega arith))

skip-append : (n : ℕ) (l m : List ℕ) → length l ≡ n → skip n (l ++ m) ≡ m
skip-append zero [] m h = refl
skip-append zero (x ∷ l) m h = absurd (omega arith)
skip-append (suc n) [] m h = absurd (omega arith)
skip-append (suc n) (x ∷ l) m h = skip-append n l m (omega arith)

pub length-leds_to_bytes :
    (leds : List HidppLed) → length (leds_to_bytes (map write_led leds)) ≡ 11 * length leds
length-leds_to_bytes [] = omega arith
length-leds_to_bytes (led ∷ leds) = omega (
  arith,
  length-write_led led,
  length-leds_to_bytes leds,
  length-append (write_led led).effect (leds_to_bytes (map write_led leds)),
)

pub bytes_to_leds-leds_to_bytes :
    (leds : List HidppLed)
    → bytes_to_leds (length leds) (leds_to_bytes (map write_led leds)) ≡ map write_led leds
bytes_to_leds-leds_to_bytes [] = refl
bytes_to_leds-leds_to_bytes (led ∷ leds) =
    let rest = leds_to_bytes (map write_led leds) in
    let ten = length-write_led led in
    ap
      (λ (e : List ℕ).
        record { mode = (write_led led).mode; effect = e }
        ∷ bytes_to_leds (length leds) (skip 10 ((write_led led).effect ++ rest)))
      (take-append 10 (write_led led).effect rest ten)
    ∙ ap (λ (l : List ℕ). write_led led ∷ bytes_to_leds (length leds) l)
        (skip-append 10 (write_led led).effect rest ten)
    ∙ ap (◌∷◌ (write_led led)) (bytes_to_leds-leds_to_bytes leds)

pub read_leds-led_of :
    (settings : List LedSetting)
    → All IsLed settings
    → read_leds (replicate (length settings) fresh_led) (map write_led (map led_of settings))
      ≡ map led_of settings
read_leds-led_of [] h = refl
read_leds-led_of (s ∷ settings) (is_led, h) =
    ap
      (λ (l : HidppLed).
        l ∷ read_leds (replicate (length settings) fresh_led) (map write_led (map led_of settings)))
      (read_led-led_of s is_led)
    ∙ ap (◌∷◌ (led_of s)) (read_leds-led_of settings h)

-- Buttons behind those that are read are kept.
pub bindings_to_cpu-append :
    (i : ℕ) (raw buttons rest : List Binding)
    → length buttons ≡ length raw
    → bindings_to_cpu i raw (buttons ++ rest) ≡ bindings_to_cpu i raw buttons ++ rest
bindings_to_cpu-append i [] [] rest h = refl
bindings_to_cpu-append i [] (b ∷ buttons) rest h = refl
bindings_to_cpu-append i (r ∷ raw) [] rest h = absurd (omega arith)
bindings_to_cpu-append i (r ∷ raw) (b ∷ buttons) rest h =
    ap (◌∷◌ (button_to_cpu i r b)) (bindings_to_cpu-append (i + 1) raw buttons rest (omega arith))
