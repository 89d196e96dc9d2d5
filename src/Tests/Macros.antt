-- ===== src/Tests/Macros.antt =====
-- The theorems on macros, each at one input: KEY_A (30) with the left shift and the left control.
use libratbag.Base.{◌≡◌, refl, arith, some, []}
use libratbag.Types.{Macro, Action, type_macro}
use libratbag.Macro.{
  keycode, action_keycode_from_macro, button_macro_new_from_keycode, modifier_of, macro_new,
}
use libratbag.Macro.RoundTrip.{
  keycode_from_macro-new_from_keycode, keycode_from_macro_sound, IsKeystrokeOf,
}
use libratbag.Tests.{button}

keycode_from_macro-new_from_keycode_example :
    action_keycode_from_macro (button_macro_new_from_keycode button 30 3).action ≡ keycode 30 3
unfolding modifier_of
keycode_from_macro-new_from_keycode_example =
    keycode_from_macro-new_from_keycode button 30 3 refl (omega arith) (omega arith)

-- The button with that key.
abbrev with_key : Action
with_key = (button_macro_new_from_keycode button 30 3).action

read_back : action_keycode_from_macro with_key ≡ keycode 30 3
unfolding modifier_of
read_back = keycode_from_macro-new_from_keycode button 30 3 refl (omega arith) (omega arith)

keycode_from_macro_sound_example :
    (with_key.action_type ≡ type_macro)
    × ((m : Macro) × (with_key.macro ≡ some m) × IsKeystrokeOf 30 m.events)
keycode_from_macro_sound_example = keycode_from_macro_sound with_key 30 3 read_back

-- A macro with a group.
abbrev grouped : Macro
grouped = record (macro_new (some [])) { group = some [] }
