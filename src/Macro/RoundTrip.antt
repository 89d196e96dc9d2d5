-- ===== src/Macro/RoundTrip.antt =====
-- src/libratbag.c: a key with modifiers as a macro and back, and a macro set and read back.
use mathlib.Core.List.{append_assoc}
use libratbag.Base.{
  ℕ, ◌-◌, ◌^◌, ◌<◌, ◌≡◌, refl, ◌≢◌, ◌⊎◌, inl, inr, ◌∙◌, arith, List, [], ◌∷◌, ◌++◌, none, some,
  ◌==◌, Bool-cases, Option-cases, replicate, length, done, get_or, bit_and, bit_or,
}
use libratbag.Types.{
  EventType, event_key_pressed, event_key_released, MacroEvent, Macro, Button, Action, type_macro,
}
use libratbag.Macro.{
  modifier_of, modifier_mapping, macro_num_keys, scan_events, keycode, counts_key, empty_event,
  macro_from_keycode, button_macro_new_from_keycode, action_keycode_from_macro, button_copy_macro,
  button_get_macro, macro_keycode, max_macro_events,
}
use libratbag.Macro.Emit.{event, held, keystroke, macro_from_keycode-events}
use libratbag.Macro.Scan.{
  scan_events-held, collected-mapping, mapping-Mapped, macro_num_keys-append,
  macro_num_keys-held_pressed, macro_num_keys-held_released, macro_num_keys-empty,
}

module _ (key modifiers : ℕ) (plain : modifier_of key ≡ 0) (n : ℕ) where
  abbrev down : List MacroEvent
  down = held event_key_pressed modifiers modifier_mapping

  abbrev up : List MacroEvent
  up = held event_key_released modifiers modifier_mapping

  abbrev after : List MacroEvent
  after = event event_key_released key ∷ up ++ replicate n empty_event

  keystroke-split :
      keystroke key modifiers ++ replicate n empty_event
      ≡ down ++ event event_key_pressed key ∷ after
  keystroke-split = simp append_assoc

  macro_num_keys-keystroke : macro_num_keys (keystroke key modifiers ++ replicate n empty_event) ≡ 1
  unfolding macro_num_keys counts_key
  macro_num_keys-keystroke = rw keystroke-split (
      ground (
        arith,
        macro_num_keys-append down (event event_key_pressed key ∷ after),
        macro_num_keys-append up (replicate n empty_event),
        macro_num_keys-held_pressed modifiers modifier_mapping mapping-Mapped,
        macro_num_keys-held_released modifiers modifier_mapping,
        macro_num_keys-empty n,
      ))

  scan_events-keystroke :
      key ≢ 0
      → modifiers < 256
      → scan_events (keystroke key modifiers ++ replicate n empty_event) 0 0 ≡ keycode key modifiers
  unfolding scan_events
  scan_events-keystroke nonzero small = rw keystroke-split (
      scan_events-held modifiers 0 0 modifier_mapping (event event_key_pressed key ∷ after)
        mapping-Mapped
      ∙ ground (arith, collected-mapping modifiers small))

first_held :
    (modifiers key : ℕ) (l : List (ℕ × ℕ)) (rest : List MacroEvent)
    → (get_or
        (held event_key_pressed modifiers l ++ event event_key_pressed key ∷ rest)
        0
        empty_event).event_type
      ≡ event_key_pressed
first_held modifiers key [] rest = refl
first_held modifiers key ((mask, k) ∷ l) rest = elim (Bool-cases (bit_and modifiers mask == 0)) [
  | inl e ↦ rw e (first_held modifiers key l rest)
  | inr e ↦ rw e
]

macro_keycode_lem :
    (m : Macro) (key modifiers : ℕ)
    → (get_or m.events 0 empty_event).event_type ≡ event_key_pressed
    → macro_num_keys m.events ≡ 1
    → scan_events m.events 0 0 ≡ keycode key modifiers
    → macro_keycode m ≡ keycode key modifiers
unfolding macro_keycode
macro_keycode_lem m key modifiers h1 h2 h3 = ground arith

-- A key that is neither `KEY_RESERVED` (0) nor a modifier, put on a button as a macro with any
-- set of the eight modifiers, is read back from the button as that key with those modifiers.
pub keycode_from_macro-new_from_keycode :
    (button : Button) (key modifiers : ℕ)
    → modifier_of key ≡ 0
    → key ≢ 0
    → modifiers < 256
    → action_keycode_from_macro (button_macro_new_from_keycode button key modifiers).action
      ≡ keycode key modifiers
unfolding action_keycode_from_macro button_macro_new_from_keycode button_copy_macro
keycode_from_macro-new_from_keycode button key modifiers plain nonzero small =
    macro_keycode_lem copied key modifiers
      (rw written (
        rw (keystroke-split key modifiers plain left)
          (first_held modifiers key modifier_mapping _)))
      (rw written (macro_num_keys-keystroke key modifiers plain left))
      (rw written (scan_events-keystroke key modifiers plain left nonzero small))
  where
    written_macro : Macro
    written_macro = macro_from_keycode key modifiers

    copied : Macro
    copied = record {
      name = written_macro.name;
      group = written_macro.group;
      events = written_macro.events;
    }

    left : ℕ
    left = max_macro_events - length (keystroke key modifiers)

    written :
        (macro_from_keycode key modifiers).events
        ≡ keystroke key modifiers ++ replicate left empty_event
    written = macro_from_keycode-events key modifiers

-- Some entry of the list is an event of this type for this key.
abbrev pub Has : EventType → ℕ → List MacroEvent → Type 0
Has t key [] = ⊥
Has t key (e ∷ es) = ((e.event_type ≡ t) × (e.value ≡ key)) ⊎ Has t key es

scan_events_sound :
    (es : List MacroEvent) (key modifiers k m : ℕ)
    → scan_events es key modifiers ≡ keycode k m
    → ((k ≡ key) ⊎ Has event_key_pressed k es) × Has event_key_released k es × (modifier_of k ≡ 0)
unfolding scan_events
scan_events_sound [] key modifiers k m h = cc
scan_events_sound (e ∷ es) key modifiers k m h = ground (
  arith,
  scan_events_sound es key (bit_or modifiers (modifier_of e.value)) k m,
  scan_events_sound es e.value modifiers k m,
  scan_events_sound es key (bit_and modifiers (2 ^ 32 - 1 - modifier_of e.value)) k m,
  scan_events_sound es key modifiers k m,
)

-- One plain key is pressed in all; this one is pressed, unless it is 0, and released.
pub record IsKeystrokeOf (k : ℕ) (es : List MacroEvent) : Type 0 where
  pub one_key : macro_num_keys es ≡ 1
  pub pressed : (k ≡ 0) ⊎ Has event_key_pressed k es
  pub released : Has event_key_released k es
  pub plain : modifier_of k ≡ 0

macro_keycode_sound :
    (mac : Macro) (k m : ℕ) → macro_keycode mac ≡ keycode k m → IsKeystrokeOf k mac.events
unfolding macro_keycode
macro_keycode_sound mac k m h =
    let scan = scan_events_sound mac.events 0 0 k m in
    record {
      one_key = ground arith;
      pressed = (scan (ground arith)).0;
      released = (scan (ground arith)).1;
      plain = (scan (ground arith)).2;
    }

-- A macro that is read as a key is of the macro type; it presses one plain key in all, and has
-- the release of the key that is read, which is no modifier; unless that key is 0 it also has
-- its press.
pub keycode_from_macro_sound :
    (action : Action) (k m : ℕ)
    → action_keycode_from_macro action ≡ keycode k m
    → (action.action_type ≡ type_macro)
      × ((mac : Macro) × (action.macro ≡ some mac) × IsKeystrokeOf k mac.events)
unfolding action_keycode_from_macro
keycode_from_macro_sound action k m h = elim (Option-cases action.macro) [
  | inl e ↦ absurd (ground arith)
  | inr (mac, e) ↦ (ground arith, (mac, e, macro_keycode_sound mac k m (ground arith)))
]

-- A macro put on a button is read back with its name and its events; its group is lost.
pub get_macro-copy_macro :
    (button : Button) (m : Macro)
    → button_get_macro (button_copy_macro button m) ≡ done (some (record m { group = none }))
unfolding button_get_macro button_copy_macro
get_macro-copy_macro button m = refl
