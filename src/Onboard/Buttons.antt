-- ===== src/Onboard/Buttons.antt =====
-- src/hidpp20.c, hidpp20_buttons_to_cpu and hidpp20_buttons_from_cpu: the buttons of a profile, as the
-- device has them and as the library keeps them. A binding is its four bytes; a word of the library
-- is in the last two, the lower byte first.
pub mod RoundTrip
use libratbag.Base.{
  ℕ, zero, suc, ◌+◌, ◌-◌, ◌/◌, ◌%◌, ◌^◌, List, [], ◌∷◌, ltb, ◌==◌, if◌then◌else◌, get_or, set, true,
  false, Option, Outcome, done, aborted, ◌>>=◌,
}
use libratbag.Hidpp.{get_be_u16, set_be_u16, get_le_u16, set_le_u16}
use libratbag.Hidpp20.{Message, Read, HidppDevice}
use libratbag.Onboard.Macros.{MacroItem, parse_macro}

-- `union hidpp20_button_binding`
pub record Binding : Type 0 where
  pub kind : ℕ
  pub byte1 : ℕ
  pub byte2 : ℕ
  pub byte3 : ℕ

abbrev pub hid_type : ℕ
hid_type = 0x80

abbrev pub hid_mouse : ℕ
hid_mouse = 0x01

abbrev pub hid_keyboard : ℕ
hid_keyboard = 0x02

abbrev pub hid_consumer_control : ℕ
hid_consumer_control = 0x03

abbrev pub button_special : ℕ
button_special = 0x90

abbrev pub button_macro : ℕ
button_macro = 0x00

abbrev pub button_disabled : ℕ
button_disabled = 0xFF

-- `ffs`: the place of the lowest bit that is set, from 1 on.
unfoldable pub ffs_from : ℕ → ℕ → ℕ → ℕ
ffs_from zero place word = 0
ffs_from (suc fuel) place word =
    let rest = ffs_from fuel (place + 1) (word / 2) in if word % 2 == 1 then place else rest

unfoldable pub ffs : ℕ → ℕ
unfolding ffs_from
ffs word = ffs_from 32 1 word

-- A word in the last two bytes.
abbrev pub with_word : Binding → List ℕ → Binding
with_word b word = record b { byte2 = get_or word 0 0; byte3 = get_or word 1 0 }

-- The HID bindings, by their subtype.
unfoldable pub hid_to_cpu : Binding → Binding → Binding
unfolding ffs get_be_u16 set_le_u16
hid_to_cpu b button =
    let typed = record button { byte1 = b.byte1 } in
    if b.byte1 == hid_mouse
    then with_word typed (set_le_u16 (ffs (get_be_u16 b.byte2 b.byte3)))
    else if b.byte1 == hid_keyboard
    then record typed { byte2 = b.byte2; byte3 = b.byte3 }
    else if b.byte1 == hid_consumer_control
    then with_word typed (set_le_u16 (get_be_u16 b.byte2 b.byte3))
    else typed

-- Button `i`, from the device's binding over the one that the profile had. A macro's page goes to
-- the field `zero`, and `i` in its place.
unfoldable pub button_to_cpu : ℕ → Binding → Binding → Binding
unfolding hid_to_cpu
button_to_cpu i b button =
    let typed = record button { kind = b.kind } in
    if b.kind == hid_type
    then hid_to_cpu b typed
    else if b.kind == button_special
    then record typed { byte1 = b.byte1 }
    else if b.kind == button_macro
    then record typed { byte1 = i; byte2 = b.byte1; byte3 = b.byte3 }
    else typed

module _ {S : Type 0} (transfer : Message → S → S × (ℕ × List Read)) (fuel : ℕ)
    (device : HidppDevice) (sector_size : ℕ) where
  -- The macro of button `i`, if the device's binding is one: the old one is dropped, and the new one
  -- read from the device, which leaves none if that fails.
  unfoldable pub load_macro :
      ℕ
      → Binding
      → List (Option (List MacroItem))
      → S
      → Outcome (S × List (Option (List MacroItem)))
  load_macro i b macros s = elim (b.kind == button_macro) [
    | true ↦
        parse_macro transfer fuel device sector_size b.byte1 b.byte3 s
        >>= (λ parsed. done (parsed.0, set macros i parsed.1.1))
    | false ↦ done (s, macros)
  ]

  -- The loop over the buttons from the `i`-th on, with the macros of all buttons. What a macro's
  -- reading returns is dropped, and none of it is in the binding, so that it is read first.
  unfoldable pub buttons_to_cpu :
      ℕ
      → List Binding
      → List Binding
      → List (Option (List MacroItem))
      → S
      → Outcome (S × (List Binding × List (Option (List MacroItem))))
  unfolding load_macro button_to_cpu
  buttons_to_cpu i [] buttons macros s = done (s, (buttons, macros))
  buttons_to_cpu i (b ∷ bs) [] macros s = aborted
  buttons_to_cpu i (b ∷ bs) (button ∷ buttons) macros s = load_macro i b macros s >>= (λ loaded.
      buttons_to_cpu (i + 1) bs buttons loaded.1 loaded.0
      >>= (λ rest. done (rest.0, (button_to_cpu i b button ∷ rest.1.0, rest.1.1))))

-- `1U << (n - 1)`, which is undefined for 0 and beyond the width of the word.
unfoldable pub shifted_one : ℕ → Outcome ℕ
shifted_one zero = aborted
shifted_one (suc n) = if ltb n 32 then done (2 ^ n) else aborted

unfoldable pub hid_from_cpu : Binding → Binding → Outcome Binding
unfolding shifted_one get_le_u16 set_be_u16
hid_from_cpu b button =
    let typed = record button { byte1 = b.byte1 } in
    if b.byte1 == hid_mouse
    then shifted_one (get_le_u16 b.byte2 b.byte3)
      >>= (λ flag. done (with_word typed (set_be_u16 (flag % 2 ^ 16))))
    else if b.byte1 == hid_keyboard
    then done (record typed { byte2 = b.byte2; byte3 = b.byte3 })
    else if b.byte1 == hid_consumer_control
    then done (with_word typed (set_be_u16 (get_le_u16 b.byte2 b.byte3)))
    else done typed

-- The library's binding, over what stands in the sector.
unfoldable pub button_from_cpu : Binding → Binding → Outcome Binding
unfolding hid_from_cpu
button_from_cpu b button =
    let typed = record button { kind = b.kind } in
    if b.kind == hid_type
    then hid_from_cpu b typed
    else if b.kind == button_special
    then done (record typed { byte1 = b.byte1 })
    else if b.kind == button_macro
    then done (record typed { byte1 = b.byte2; byte2 = 0; byte3 = b.byte3 })
    else done typed

unfoldable pub buttons_from_cpu : List Binding → List Binding → Outcome (List Binding)
unfolding button_from_cpu
buttons_from_cpu [] buttons = done buttons
buttons_from_cpu (b ∷ bs) [] = aborted
buttons_from_cpu (b ∷ bs) (button ∷ buttons) = do
  first ← button_from_cpu b button
  rest ← buttons_from_cpu bs buttons
  done (first ∷ rest)
