-- ===== src/Macro.antt =====
-- src/libratbag.c: button macros, and the key with modifiers that a macro can stand for.
--
-- The `KEY_*` codes are those of linux/input-event-codes.h. The reference count of a macro handle
-- is left out. An `events` list stands for the C array of 256 entries.
pub mod Emit
pub mod Scan
pub mod RoundTrip
use libratbag.Base.{
  ℕ, zero, suc, ◌+◌, ◌-◌, ◌^◌, bit_and, bit_or, Bool, true, false, not, ◌||◌, ◌&&◌, Option, none,
  some, List, [], ◌∷◌, ltb, leb, ◌==◌, Outcome, done, deref, ◌>>=◌, if◌then◌else◌, get_or, modify,
  replicate,
}
use libratbag.Types.{
  ErrorCode, success, error_value, EventType, event_invalid, event_none, event_key_pressed,
  event_key_released, event_wait, MacroEvent, Macro, Action, ActionType, type_none, type_button,
  type_special, type_key, type_macro, type_unknown, Button,
}

abbrev pub max_macro_events : ℕ
max_macro_events = 256

abbrev pub empty_event : MacroEvent
empty_event = record { event_type = event_none; value = 0 }

pub macro_new : Option (List ℕ) → Macro
macro_new name = record {
  name = name;
  group = none;
  events = replicate max_macro_events empty_event;
}

-- The write of one entry; the union keeps its content for `RATBAG_MACRO_EVENT_NONE`.
write_event : EventType → ℕ → MacroEvent → MacroEvent
write_event event_none data_value e = record e { event_type = event_none }
write_event t data_value e = record { event_type = t; value = data_value }

is_event : EventType → Bool
is_event event_invalid = false
is_event t = true

pub macro_set_event : Macro → ℕ → EventType → ℕ → ErrorCode × Macro
unfolding write_event is_event
macro_set_event m index t data_value =
    if leb max_macro_events index
    then (error_value, m)
    else if is_event t
    then (success, record m { events = modify m.events index (write_event t data_value) })
    else (error_value, m)

pub macro_get_event_type : Macro → ℕ → EventType
macro_get_event_type m index =
    if leb max_macro_events index
    then event_invalid
    else (get_or m.events index empty_event).event_type

is_key_event : EventType → Bool
is_key_event event_key_pressed = true
is_key_event event_key_released = true
is_key_event t = false

-- `none` is `-EINVAL`.
pub macro_get_event_key : Macro → ℕ → Option ℕ
unfolding is_key_event
macro_get_event_key m index =
    let e = get_or m.events index empty_event in
    if leb max_macro_events index
    then some 0
    else if is_key_event e.event_type
    then some e.value
    else none

is_wait : EventType → Bool
is_wait event_wait = true
is_wait t = false

pub macro_get_event_timeout : Macro → ℕ → ℕ
unfolding is_wait
macro_get_event_timeout m index =
    let e = get_or m.events index empty_event in
    if leb max_macro_events index then 0 else if is_wait e.event_type then e.value else 0

-- Both branches of the source leave a macro with nothing but the copied content.
unfoldable pub button_copy_macro : Button → Macro → Button
button_copy_macro button m = record button {
  action = record action {
    action_type = type_macro;
    macro = some (record { name = m.name; group = m.group; events = m.events });
  };
}
  where
    open button use {action}

-- `none` is a null result. The copy's `group` stays null.
unfoldable pub button_get_macro : Button → Outcome (Option Macro)
unfolding macro_new
button_get_macro button = elim button.action.action_type [
  | type_macro ↦ do
    m ← deref button.action.macro
    done (some (record (macro_new m.name) { events = m.events }))
  | _ ↦ done none
]

-- `ratbag_modifier_mapping`: a bit of the modifiers and the code of its key.
abbrev pub modifier_mapping : List (ℕ × ℕ)
modifier_mapping =
    (2 ^ 0, 29)
    ∷ (2 ^ 1, 42)
    ∷ (2 ^ 2, 56)
    ∷ (2 ^ 3, 125)
    ∷ (2 ^ 4, 97)
    ∷ (2 ^ 5, 54)
    ∷ (2 ^ 6, 100)
    ∷ (2 ^ 7, 126)
    ∷ []

-- `ratbag_button_macro_set_event(macro, i++, …)`.
abbrev pub set_next : EventType → ℕ → Macro × ℕ → Macro × ℕ
set_next t key (m, i) = ((macro_set_event m i t key).1, i + 1)

-- One loop over the mapping: an event for each modifier that is held.
pub set_modifiers : EventType → ℕ → List (ℕ × ℕ) → Macro × ℕ → Macro × ℕ
set_modifiers t modifiers [] s = s
set_modifiers t modifiers ((mask, key) ∷ rest) s =
    set_modifiers t modifiers rest (if bit_and modifiers mask == 0 then s else set_next t key s)

pub macro_from_keycode : ℕ → ℕ → Macro
macro_from_keycode key modifiers =
    (set_modifiers event_key_released modifiers modifier_mapping (
      set_next event_key_released key (
        set_next event_key_pressed key (
          set_modifiers event_key_pressed modifiers modifier_mapping
            (macro_new (some (b'k' ∷ b'e' ∷ b'y' ∷ [])), 0))))).0

pub button_macro_new_from_keycode : Button → ℕ → ℕ → Button
button_macro_new_from_keycode button key modifiers =
    button_copy_macro button (macro_from_keycode key modifiers)

-- The modifier bit of a key, by the cases of the two `switch` statements; 0 is their `default`.
unfoldable pub modifier_of : ℕ → ℕ
modifier_of key =
    if key == 29
    then 2 ^ 0
    else if key == 42
    then 2 ^ 1
    else if key == 56
    then 2 ^ 2
    else if key == 125
    then 2 ^ 3
    else if key == 97
    then 2 ^ 4
    else if key == 54
    then 2 ^ 5
    else if key == 100
    then 2 ^ 6
    else if key == 126
    then 2 ^ 7
    else 0

-- The entry counts if it presses a key that is no modifier.
pub counts_key : MacroEvent → Bool
counts_key e = elim e.event_type [ event_key_pressed ↦ modifier_of e.value == 0 | _ ↦ false ]

pub macro_num_keys : List MacroEvent → ℕ
macro_num_keys [] = 0
macro_num_keys (e ∷ es) = (if counts_key e then 1 else 0) + macro_num_keys es

-- `einval` is `-EINVAL`, `no_keycode` is 0, and `keycode` is 1 with the two results.
pub data Keycode : Type 0 where
  einval no_keycode : Keycode
  keycode : ℕ → ℕ → Keycode

-- The loop of `ratbag_action_keycode_from_macro`, with its `key` and `modifiers`. A release of a
-- modifier falls through to the `break` of `RATBAG_MACRO_EVENT_WAIT`.
pub scan_events : List MacroEvent → ℕ → ℕ → Keycode
scan_events [] key modifiers = einval
scan_events (e ∷ es) key modifiers = elim e.event_type [
  | event_invalid ↦ einval
  | event_none ↦ no_keycode
  | event_key_pressed ↦ elim (modifier_of e.value == 0) [
    | false ↦ scan_events es key (bit_or modifiers (modifier_of e.value))
    | true ↦ elim (key == 0) [ true ↦ scan_events es e.value modifiers | false ↦ einval ]
  ]
  | event_key_released ↦ elim (modifier_of e.value == 0) [
    | false ↦ scan_events es key (bit_and modifiers (2 ^ 32 - 1 - modifier_of e.value))
    | true ↦ if e.value == key then keycode key modifiers else einval
  ]
  | event_wait ↦ scan_events es key modifiers
]

is_none_event : EventType → Bool
is_none_event event_none = true
is_none_event t = false

is_macro_type : ActionType → Bool
is_macro_type type_macro = true
is_macro_type t = false

macro_keycode : Macro → Keycode
unfolding is_none_event
macro_keycode m =
    if is_none_event (get_or m.events 0 empty_event).event_type
    then einval
    else if macro_num_keys m.events == 1
    then scan_events m.events 0 0
    else einval

pub action_keycode_from_macro : Action → Keycode
unfolding macro_keycode is_macro_type
action_keycode_from_macro action = elim action.macro [
  | none ↦ einval
  | some m ↦ if is_macro_type action.action_type then macro_keycode m else einval
]
