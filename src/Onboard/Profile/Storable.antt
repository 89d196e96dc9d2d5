-- ===== src/Onboard/Profile/Storable.antt =====
-- What a sector can hold of a profile, and the profile that is read, part by part.
use libratbag.Base.{
  ℕ, zero, suc, ◌+◌, ◌*◌, ◌/◌, ◌%◌, ◌^◌, ◌≤◌, ◌<◌, max, Bool, true, false, ◌&&◌, ltb, none, up_to,
  up_to-at, List, [], ◌∷◌, ◌++◌, ◌==◌, length, map, replicate, get_or, set, ◌≡◌, refl, sym, ap, ◌∙◌,
  arith, done, All, Bool-cases, inl, inr,
}
use libratbag.Onboard.Bytes.{copy_from-done}
use libratbag.Hidpp20.{Message, Read, HidppDevice}
use libratbag.Onboard.{skip}
use libratbag.Onboard.Buttons.{Binding}
use libratbag.Onboard.Buttons.RoundTrip.{
  Meaning, IsBindable, bindings_of, no_binding, IsPlain, bindings_to_cpu, buttons_to_cpu-plain,
}
use libratbag.Onboard.Leds.{HidppLed, LedSetting, led_of, fresh_led, IsLed}
use libratbag.Onboard.Profile.{
  OnboardProfile, dpi_at, buttons_at, name_at, leds_at, bytes_to_words, bytes_to_bindings,
  bytes_to_leds, read_leds, rate_code, is_default_name, name_from, profile_from_bytes,
}
use libratbag.Onboard.Profile.Cut.{cut}

-- A profile that a sector can hold: its first buttons have these meanings, its two LEDs these
-- settings, and its rate is 1000 Hz divided by a number from 1 to 250.
pub record IsStorable (p : OnboardProfile) (meanings : List Meaning) (settings : List LedSetting)
    (rest : List Binding) : Type 0 where
  pub divisor : ℕ
  pub slowest : divisor < 250
  pub rate : p.report_rate ≡ 1000 / suc divisor
  pub default_dpi : p.default_dpi < 2 ^ 8
  pub switched_dpi : p.switched_dpi < 2 ^ 8
  pub five : length p.dpi ≡ 5
  pub words : All (λ w. w < 2 ^ 16) p.dpi
  pub few : length meanings ≤ 16
  pub bound : p.buttons ≡ bindings_of 0 meanings ++ rest
  pub bindable : All IsBindable meanings
  pub two : length settings ≡ 2
  pub lit : p.leds ≡ map led_of settings
  pub leds : All IsLed settings
  pub long : length p.name ≡ 48
  pub bytes : All (λ b. b < 2 ^ 8) p.name
  pub ended : set p.name 47 0 ≡ p.name

-- What a profile is before anything is read into it.
abbrev pub fresh_profile : ℕ → ℕ → List Binding → OnboardProfile
fresh_profile address n rest = record {
  address = address;
  enabled = 0;
  name = replicate 48 0;
  report_rate = 0;
  default_dpi = 0;
  switched_dpi = 0;
  current_dpi = 0;
  dpi = replicate 5 0;
  buttons = replicate n no_binding ++ rest;
  macros = replicate 32 none;
  leds = replicate 2 fresh_led;
}

-- A profile as it is after being written and read into a fresh one: its address is that of the sector
-- that it was read from, and what is not in the sector is as it was in the fresh one.
abbrev pub parsed_again : ℕ → OnboardProfile → OnboardProfile
parsed_again address p = record p {
  address = address;
  enabled = 0;
  current_dpi = 0;
  macros = replicate 32 none;
}

is_rate : ℕ → Bool
is_rate d = (1000 / max 1 (1000 / (1000 / suc d) % 2 ^ 8) == 1000 / suc d) && ltb 0 (1000 / suc d)

rates_found : up_to is_rate 249 ≡ true
unfolding is_rate up_to
rates_found = refl

-- These rates are kept, and are not 0.
pub rate-RoundTrip :
    (r d : ℕ) → d < 250 → r ≡ 1000 / suc d → (1000 / max 1 (1000 / r % 2 ^ 8) ≡ r) × (1 ≤ r)
unfolding is_rate
rate-RoundTrip r d h e =
    let found : is_rate d ≡ true = up_to-at is_rate 249 d (omega (arith, h)) rates_found in
    rw e (ground (arith, found), ground (arith, found))

pub rate_code-done : (r : ℕ) → 1 ≤ r → rate_code r ≡ done (1000 / r)
rate_code-done zero h = absurd (omega arith)
rate_code-done (suc r) h = refl

-- A name that ends in 0 is not taken for none.
is_default_name-set :
    (name : List ℕ) (i : ℕ) → i < length name → is_default_name (set name i 0) ≡ false
is_default_name-set [] i h = absurd (omega arith)
is_default_name-set (c ∷ name) zero h = refl
is_default_name-set (c ∷ name) (suc i) h = elim (Bool-cases (c == 0xff)) [
  | inl e ↦ rw e (is_default_name-set name i (omega arith))
  | inr e ↦ rw e
]

pub name_kept : (name : List ℕ) → length name ≡ 48 → set name 47 0 ≡ name → name_from name ≡ name
unfolding name_from
name_kept name long ended =
    let named : is_default_name name ≡ false =
      ap is_default_name (sym ended) ∙ is_default_name-set name 47 (omega (arith, long)) in
    rw named ended

length-bytes_to_bindings : (n : ℕ) (bytes : List ℕ) → length (bytes_to_bindings n bytes) ≡ n
length-bytes_to_bindings zero bytes = refl
length-bytes_to_bindings (suc n) bytes = ap suc (length-bytes_to_bindings n (skip 4 bytes))

pub length-bindings_of :
    (i : ℕ) (meanings : List Meaning) → length (bindings_of i meanings) ≡ length meanings
length-bindings_of i [] = refl
length-bindings_of i (m ∷ ms) = ap suc (length-bindings_of (i + 1) ms)

-- The parts that are read from a buffer make up a profile.
module _ (n : ℕ) (before : OnboardProfile) where
  abbrev pub read_parts : List ℕ → List ℕ → List ℕ → List ℕ → List ℕ → OnboardProfile
  read_parts rates words leds raw name = record before {
    report_rate = 1000 / max 1 (get_or rates 0 0);
    default_dpi = get_or rates 1 0;
    switched_dpi = get_or rates 2 0;
    dpi = bytes_to_words words;
    leds = read_leds before.leds (bytes_to_leds 2 leds);
    buttons = bindings_to_cpu 0 (bytes_to_bindings n raw) before.buttons;
    name = name_from name;
  }

  pub profile_from_bytes-parts :
      {S : Type 0} (transfer : Message → S → S × (ℕ × List Read)) (fuel : ℕ) (device : HidppDevice)
      (size : ℕ) (s : S) (buf : List ℕ)
      → 256 ≤ length buf
      → n ≤ 16
      → n ≤ length before.buttons
      → All IsPlain (bytes_to_bindings n (cut buf buttons_at (4 * n)))
      → profile_from_bytes transfer fuel device size n buf before s
        ≡ done (
          s,
          read_parts
              (cut buf 0 3)
              (cut buf dpi_at 10)
              (cut buf leds_at 22)
              (cut buf buttons_at (4 * n))
              (cut buf name_at 48),
        )
  unfolding profile_from_bytes
  profile_from_bytes-parts transfer fuel device size s buf large few enough plain = rw (
    copy_from-done buf 0 3 (omega arith),
    copy_from-done buf dpi_at 10 (omega arith),
    copy_from-done buf leds_at 22 (omega arith),
    copy_from-done buf buttons_at (4 * n) (omega arith),
    buttons_to_cpu-plain transfer fuel device size 0
        (bytes_to_bindings n (cut buf buttons_at (4 * n))) before.buttons before.macros s plain
        (omega (arith, enough, length-bytes_to_bindings n (cut buf buttons_at (4 * n)))),
    copy_from-done buf name_at 48 (omega arith),
  )

-- A profile that was just read, by its fields.
abbrev pub read_profile :
    ℕ → ℕ → ℕ → ℕ → List ℕ → List HidppLed → List Binding → List ℕ → OnboardProfile
read_profile address rate default_dpi switched_dpi dpi leds buttons name = record {
  address = address;
  enabled = 0;
  name = name;
  report_rate = rate;
  default_dpi = default_dpi;
  switched_dpi = switched_dpi;
  current_dpi = 0;
  dpi = dpi;
  buttons = buttons;
  macros = replicate 32 none;
  leds = leds;
}

pub read_profile_eq :
    (address : ℕ) {rate rate' default default' switched switched' : ℕ} {dpi dpi' : List ℕ}
    {leds leds' : List HidppLed} {buttons buttons' : List Binding} {name name' : List ℕ}
    → rate ≡ rate'
    → default ≡ default'
    → switched ≡ switched'
    → dpi ≡ dpi'
    → leds ≡ leds'
    → buttons ≡ buttons'
    → name ≡ name'
    → read_profile address rate default switched dpi leds buttons name
      ≡ read_profile address rate' default' switched' dpi' leds' buttons' name'
read_profile_eq address r d s w l b n =
    λ i. read_profile address (r i) (d i) (s i) (w i) (l i) (b i) (n i)

pub cong5 :
    {A : Type 0} (f : List ℕ → List ℕ → List ℕ → List ℕ → List ℕ → A)
    {a a' b b' c c' d d' e e' : List ℕ}
    → a ≡ a'
    → b ≡ b'
    → c ≡ c'
    → d ≡ d'
    → e ≡ e'
    → f a b c d e ≡ f a' b' c' d' e'
cong5 f p q r s t = λ i. f (p i) (q i) (r i) (s i) (t i)
