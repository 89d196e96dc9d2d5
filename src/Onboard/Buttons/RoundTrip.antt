-- ===== src/Onboard/Buttons/RoundTrip.antt =====
-- The bindings of the library survive the way to the device and back.
use libratbag.Base.{
  ℕ, zero, suc, ◌+◌, ◌*◌, ◌/◌, ◌%◌, ◌^◌, ◌≤◌, ◌<◌, true, List, [], ◌∷◌, ◌==◌, length, replicate,
  false, Option, length-replicate, ◌≡◌, refl, ap, ◌∙◌, arith, Outcome, done, ◌>>=◌, All, up_to,
  up_to-at,
}
use libratbag.Hidpp.{get_be_u16, set_be_u16, get_le_u16, set_le_u16}
use libratbag.Hidpp20.{Message, Read, HidppDevice}
use libratbag.Onboard.Macros.{MacroItem}
use libratbag.Onboard.Buttons.{
  load_macro, Binding, hid_type, hid_mouse, hid_keyboard, hid_consumer_control, button_special,
  button_macro, button_disabled, ffs, hid_to_cpu, button_to_cpu, buttons_to_cpu, shifted_one,
  hid_from_cpu, button_from_cpu, buttons_from_cpu, ffs_from,
}

-- What a button does, other than a macro, whose events are not in the profile's sector.
pub data Meaning : Type 0 where
  mouse_button : ℕ → Meaning
  key : ℕ → ℕ → Meaning
  consumer : ℕ → Meaning
  special : ℕ → Meaning
  disabled : Meaning

-- The binding that the library keeps for it, as button `i`.
abbrev pub binding_of : ℕ → Meaning → Binding
binding_of i (mouse_button n) = record { kind = hid_type; byte1 = hid_mouse; byte2 = n; byte3 = 0 }
binding_of i (key modifiers code) = record {
  kind = hid_type;
  byte1 = hid_keyboard;
  byte2 = modifiers;
  byte3 = code;
}
binding_of i (consumer usage) = record {
  kind = hid_type;
  byte1 = hid_consumer_control;
  byte2 = usage % 256;
  byte3 = usage / 256;
}
binding_of i (special code) = record { kind = button_special; byte1 = code; byte2 = 0; byte3 = 0 }
binding_of i disabled = record { kind = button_disabled; byte1 = 0; byte2 = 0; byte3 = 0 }

-- The 16 mouse buttons, usages of 16 bits, and bytes.
abbrev pub IsBindable : Meaning → Type 0
IsBindable (mouse_button n) = (1 ≤ n) × (n ≤ 16)
IsBindable (key modifiers code) = (modifiers < 2 ^ 8) × (code < 2 ^ 8)
IsBindable (consumer usage) = usage < 2 ^ 16
IsBindable (special code) = code < 2 ^ 8
IsBindable disabled = Unit {0}

-- The bindings of a list of meanings, from button `i` on.
abbrev pub bindings_of : ℕ → List Meaning → List Binding
bindings_of i [] = []
bindings_of i (m ∷ ms) = binding_of i m ∷ bindings_of (i + 1) ms

-- What stands in a fresh profile, and in a fresh sector.
abbrev pub no_binding : Binding
no_binding = record { kind = 0; byte1 = 0; byte2 = 0; byte3 = 0 }

abbrev pub blank_binding : Binding
blank_binding = record { kind = 0xff; byte1 = 0xff; byte2 = 0xff; byte3 = 0xff }

word_of_flag : ℕ → ℕ
word_of_flag n = let flag = 2 ^ n % 2 ^ 16 in ffs (get_be_u16 (flag / 256 % 256) (flag % 256))

flag_found : up_to (λ n. word_of_flag n == n + 1) 15 ≡ true
unfolding word_of_flag ffs ffs_from get_be_u16 up_to
flag_found = refl

word_of_flag-suc : (n : ℕ) → n ≤ 15 → word_of_flag n ≡ suc n
word_of_flag-suc n small =
    let found : (word_of_flag n == n + 1) ≡ true =
      up_to-at (λ n. word_of_flag n == n + 1) 15 n small flag_found in
    let same : word_of_flag n ≡ n + 1 = ground arith in omega (arith, same)

shifted_one-suc : (n : ℕ) → n ≤ 15 → shifted_one (get_le_u16 (suc n) 0) ≡ done (2 ^ n)
unfolding shifted_one get_le_u16
shifted_one-suc n small =
    let same : 0 * 256 + suc n ≡ suc n = omega arith in ap shifted_one same ∙ ground (arith, small)

-- A binding with a word, by the bytes of the word.
binding_eq :
    (kind byte1 v byte2 byte3 : ℕ)
    → v % 256 ≡ byte2
    → v / 256 % 256 ≡ byte3
    → ◌≡◌ {A = Binding}
        (record { kind = kind; byte1 = byte1; byte2 = v % 256; byte3 = v / 256 % 256 })
        (record { kind = kind; byte1 = byte1; byte2 = byte2; byte3 = byte3 })
binding_eq kind byte1 v byte2 byte3 e2 e3 =
    ap (λ (b : ℕ). record { kind = kind; byte1 = byte1; byte2 = b; byte3 = v / 256 % 256 }) e2
    ∙ ap (λ (b : ℕ). record { kind = kind; byte1 = byte1; byte2 = byte2; byte3 = b }) e3

-- The bindings that the loop makes of bindings none of which is a macro, over those that were there.
abbrev pub bindings_to_cpu : ℕ → List Binding → List Binding → List Binding
bindings_to_cpu i [] buttons = buttons
bindings_to_cpu i (b ∷ bs) [] = []
bindings_to_cpu i (b ∷ bs) (button ∷ buttons) =
    button_to_cpu i b button ∷ bindings_to_cpu (i + 1) bs buttons

abbrev pub IsPlain : Binding → Type 0
IsPlain b = (b.kind == button_macro) ≡ false

load_macro-plain :
    {S : Type 0} (transfer : Message → S → S × (ℕ × List Read)) (fuel : ℕ) (device : HidppDevice)
    (sector_size i : ℕ) (b : Binding) (macros : List (Option (List MacroItem))) (s : S)
    → IsPlain b
    → load_macro transfer fuel device sector_size i b macros s ≡ done (s, macros)
unfolding load_macro
load_macro-plain transfer fuel device sector_size i b macros s plain = rw (load_macro, plain)

-- Without macros the loop needs nothing of the device.
pub buttons_to_cpu-plain :
    {S : Type 0} (transfer : Message → S → S × (ℕ × List Read)) (fuel : ℕ) (device : HidppDevice)
    (sector_size i : ℕ) (bs buttons : List Binding) (macros : List (Option (List MacroItem)))
    (s : S)
    → All IsPlain bs
    → length bs ≤ length buttons
    → buttons_to_cpu transfer fuel device sector_size i bs buttons macros s
      ≡ done (s, (bindings_to_cpu i bs buttons, macros))
unfolding buttons_to_cpu
buttons_to_cpu-plain transfer fuel device sector_size i [] buttons macros s h room = refl
buttons_to_cpu-plain transfer fuel device sector_size i (b ∷ bs) [] macros s h room =
    absurd (omega (arith, room))
buttons_to_cpu-plain transfer fuel device sector_size i (b ∷ bs) (button ∷ buttons) macros s
      (plain, h) room =
    rw (
      load_macro-plain transfer fuel device sector_size i b macros s plain,
      buttons_to_cpu-plain transfer fuel device sector_size (i + 1) bs buttons macros s h
          (omega (arith, room)),
    )

-- A binding in a sector.
abbrev pub IsRaw : Binding → Type 0
IsRaw b = (b.kind < 2 ^ 8) × (b.byte1 < 2 ^ 8) × (b.byte2 < 2 ^ 8) × (b.byte3 < 2 ^ 8)

button-RoundTrip :
    (i : ℕ) (m : Meaning)
    → IsBindable m
    → (raw : Binding) × (button_from_cpu (binding_of i m) blank_binding ≡ done raw)
      × (button_to_cpu i raw no_binding ≡ binding_of i m)
      × IsRaw raw
      × IsPlain raw
unfolding button_from_cpu button_to_cpu hid_to_cpu hid_from_cpu word_of_flag set_be_u16 set_le_u16
    get_be_u16 get_le_u16
button-RoundTrip i (mouse_button zero) h = absurd (omega (arith, h.0))
button-RoundTrip i (mouse_button (suc n)) h =
    let small : n ≤ 15 = omega (arith, h.1) in
    (
      record {
        kind = hid_type;
        byte1 = hid_mouse;
        byte2 = 2 ^ n % 2 ^ 16 / 256 % 256;
        byte3 = 2 ^ n % 2 ^ 16 % 256;
      },
      ap
          (λ (o : Outcome ℕ). o >>= (λ flag. done (record {
            kind = hid_type;
            byte1 = hid_mouse;
            byte2 = flag % 2 ^ 16 / 256 % 256;
            byte3 = flag % 2 ^ 16 % 256;
          })))
          (shifted_one-suc n small),
      binding_eq hid_type hid_mouse (word_of_flag n) (suc n) 0
          (omega (arith, word_of_flag-suc n small)) (omega (arith, word_of_flag-suc n small)),
      (omega arith, omega arith, omega arith, omega arith),
      refl,
    )
button-RoundTrip i (key modifiers code) (small, small') =
    (_, refl, refl, (omega arith, omega arith, small, small'), refl)
button-RoundTrip i (consumer usage) h = (
  _,
  refl,
  binding_eq hid_type hid_consumer_control
      (get_be_u16 (get_le_u16 (usage % 256) (usage / 256) / 256 % 256)
        (get_le_u16 (usage % 256) (usage / 256) % 256))
      (usage % 256) (usage / 256) (omega arith) (omega arith),
  (omega arith, omega arith, omega arith, omega arith),
  refl,
)
button-RoundTrip i (special code) h =
    (_, refl, refl, (omega arith, h, omega arith, omega arith), refl)
button-RoundTrip i disabled h =
    (_, refl, refl, (omega arith, omega arith, omega arith, omega arith), refl)

pub buttons-RoundTrip :
    (i : ℕ) (meanings : List Meaning)
    → All IsBindable meanings
    → (raw : List Binding) × (buttons_from_cpu
          (bindings_of i meanings)
          (replicate (length meanings) blank_binding)
        ≡ done raw)
      × (bindings_to_cpu i raw (replicate (length meanings) no_binding) ≡ bindings_of i meanings)
      × (length raw ≡ length meanings)
      × All IsRaw raw
      × All IsPlain raw
unfolding buttons_from_cpu
buttons-RoundTrip i [] h = ([], refl, refl, refl, tt, tt)
buttons-RoundTrip i (m ∷ ms) (h, hs) =
    let (raw, out, back, small, plain) = button-RoundTrip i m h in
    let (raws, outs, backs, long, smalls, plains) = buttons-RoundTrip (i + 1) ms hs in
    (
      raw ∷ raws,
      rw (out, outs),
      ap (λ (b : Binding). b ∷ bindings_to_cpu (i + 1) raws (replicate (length ms) no_binding)) back
          ∙ ap (◌∷◌ (binding_of i m)) backs,
      ap suc long,
      (small, smalls),
      (plain, plains),
    )

-- The bindings of a profile's buttons, none of which is a macro or a mouse button outside of 1 to
-- 16, are written to a blank sector without undefined shifts; and read into a fresh profile, each is
-- as it was, with nothing asked of the device and no macro touched.
pub buttons_from_cpu-buttons_to_cpu :
    {S : Type 0} (transfer : Message → S → S × (ℕ × List Read)) (fuel : ℕ) (device : HidppDevice)
    (sector_size i : ℕ) (meanings : List Meaning) (macros : List (Option (List MacroItem))) (s : S)
    → All IsBindable meanings
    → (raw : List Binding) × (buttons_from_cpu
          (bindings_of i meanings)
          (replicate (length meanings) blank_binding)
        ≡ done raw)
      × (buttons_to_cpu transfer fuel device sector_size i raw
            (replicate (length meanings) no_binding)
            macros
            s
          ≡ done (s, (bindings_of i meanings, macros)))
buttons_from_cpu-buttons_to_cpu transfer fuel device sector_size i meanings macros s h =
    let (raw, out, back, long, small, plain) = buttons-RoundTrip i meanings h in
    (
      raw,
      out,
      buttons_to_cpu-plain transfer fuel device sector_size i raw
            (replicate (length meanings) no_binding) macros s plain
            (omega (arith, long, length-replicate (length meanings) no_binding))
          ∙ ap (λ bs. done (s, (bs, macros))) back,
    )
