-- ===== src/Macro/Emit.antt =====
-- What `ratbag_button_macro_new_from_keycode` writes: the events one after another, and nothing
-- behind them.
use mathlib.Core.Path.{subst, ◌≡⟨◌⟩◌, ◌∎}
use mathlib.Core.List.{append_assoc, append-nil}
use libratbag.Base.{
  ℕ, suc, ◌+◌, ◌-◌, ◌≤◌, ◌<◌, bit_and, ◌≡◌, refl, ap, arith, true, List, [], ◌∷◌, ◌++◌, Option,
  some, ◌==◌, if◌then◌else◌, length, modify, replicate, length-append, Bool-cases, inl, inr,
}
use libratbag.Types.{
  EventType, event_key_pressed, event_key_released, MacroEvent, Macro, event_none, event_wait,
  event_invalid,
}
use libratbag.Macro.{
  max_macro_events, empty_event, macro_new, macro_set_event, set_next, set_modifiers,
  modifier_mapping, macro_from_keycode, is_key_event,
}

abbrev pub event : EventType → ℕ → MacroEvent
event t key = record { event_type = t; value = key }

-- The events of the modifiers that are held.
abbrev pub held : EventType → ℕ → List (ℕ × ℕ) → List MacroEvent
held t modifiers [] = []
held t modifiers ((mask, key) ∷ rest) =
    if bit_and modifiers mask == 0
    then held t modifiers rest
    else event t key ∷ held t modifiers rest

length-held :
    (t : EventType) (modifiers : ℕ) (l : List (ℕ × ℕ)) → length (held t modifiers l) ≤ length l
length-held t modifiers [] = omega arith
length-held t modifiers ((mask, key) ∷ rest) = ground (arith, length-held t modifiers rest)

-- The first entries of the macro are `xs`, and the rest is empty.
record Holds (s : Macro × ℕ) (xs : List MacroEvent) : Type 0 where
  content : s.0.events ≡ xs ++ replicate (max_macro_events - length xs) empty_event
  place : s.1 ≡ length xs

modify-append :
    (xs : List MacroEvent) (n : ℕ) (f : MacroEvent → MacroEvent)
    → modify (xs ++ replicate (suc n) empty_event) (length xs) f
      ≡ xs ++ f empty_event ∷ replicate n empty_event
modify-append [] n f = refl
modify-append (x ∷ xs) n f = ap (◌∷◌ x) (modify-append xs n f)

set_next_lem :
    (t : EventType) (key : ℕ) (s : Macro × ℕ)
    → is_key_event t ≡ true
    → s.1 < max_macro_events
    → set_next t key s ≡ (record s.0 { events = modify s.0.events s.1 (λ _. event t key) }, s.1 + 1)
unfolding macro_set_event is_key_event
set_next_lem event_key_pressed key s k lt = ground arith
set_next_lem event_key_released key s k lt = ground arith
set_next_lem event_none key s k lt = cc
set_next_lem event_wait key s k lt = cc
set_next_lem event_invalid key s k lt = cc

module _ (t : EventType) (is_key : is_key_event t ≡ true) where
  Holds-set_next :
      (key : ℕ) (s : Macro × ℕ) (xs : List MacroEvent)
      → length xs < max_macro_events
      → Holds s xs
      → Holds (set_next t key s) (xs ++ event t key ∷ [])
  Holds-set_next key s xs lt h = rw (set_next_lem t key s is_key (rw h.place lt)) (record {
    content =
        modify s.0.events s.1 (λ _. event t key)
        ≡⟨ rw (h.content, h.place) (rw room (modify-append xs left (λ _. event t key))) ⟩
          xs ++ event t key ∷ replicate left empty_event
        ≡⟨ (rw (less, append_assoc)) ⟩
          (xs ++ event t key ∷ [])
          ++ replicate (max_macro_events - length (xs ++ event t key ∷ [])) empty_event ∎;
    place = omega (arith, h.place, length-append xs (event t key ∷ []));
  })
    where
      left : ℕ
      left = max_macro_events - suc (length xs)

      room : max_macro_events - length xs ≡ suc left
      room = omega arith

      less : max_macro_events - length (xs ++ event t key ∷ []) ≡ left
      less = omega (arith, length-append xs (event t key ∷ []))

  Holds-set_modifiers :
      (modifiers : ℕ) (l : List (ℕ × ℕ)) (s : Macro × ℕ) (xs : List MacroEvent)
      → length xs + length l < max_macro_events
      → Holds s xs
      → Holds (set_modifiers t modifiers l s) (xs ++ held t modifiers l)
  unfolding set_modifiers
  Holds-set_modifiers modifiers [] s xs lt h = rw (append-nil xs) h
  Holds-set_modifiers modifiers ((mask, key) ∷ rest) s xs lt h =
      elim (Bool-cases (bit_and modifiers mask == 0)) [
        | inl e ↦ rw e (Holds-set_modifiers modifiers rest s xs (omega arith) h)
        | inr e ↦ rw e (
            subst (Holds _) (append_assoc xs (event t key ∷ []) (held t modifiers rest)) (
              Holds-set_modifiers modifiers rest (set_next t key s) (xs ++ event t key ∷ [])
                (omega (arith, length-append xs (event t key ∷ [])))
                (Holds-set_next key s xs (omega arith) h)))
      ]

-- The events of a key with modifiers, in order: the modifiers go down, the key goes down and up,
-- and the modifiers go up.
abbrev pub keystroke : ℕ → ℕ → List MacroEvent
keystroke key modifiers =
    ((held event_key_pressed modifiers modifier_mapping ++ event event_key_pressed key ∷ [])
      ++ event event_key_released key ∷ [])
    ++ held event_key_released modifiers modifier_mapping

macro_new-Holds : (name : Option (List ℕ)) → Holds (macro_new name, 0) []
unfolding macro_new
macro_new-Holds name = record { content = refl; place = refl }

-- The macro made from a key holds its keystroke, and nothing behind it.
pub macro_from_keycode-events :
    (key modifiers : ℕ)
    → (macro_from_keycode key modifiers).events
      ≡ keystroke key modifiers
        ++ replicate (max_macro_events - length (keystroke key modifiers)) empty_event
unfolding macro_from_keycode is_key_event
macro_from_keycode-events key modifiers = all.content
  where
    state : Macro × ℕ
    state = set_modifiers event_key_released modifiers modifier_mapping (
        set_next event_key_released key (
          set_next event_key_pressed key (
            set_modifiers event_key_pressed modifiers modifier_mapping
              (macro_new (some (b'k' ∷ b'e' ∷ b'y' ∷ [])), 0))))

    down : List MacroEvent
    down = held event_key_pressed modifiers modifier_mapping

    start : Holds (macro_new (some (b'k' ∷ b'e' ∷ b'y' ∷ [])), 0) []
    start = macro_new-Holds _

    few : length down ≤ 8
    few = length-held event_key_pressed modifiers modifier_mapping

    pressed : length (down ++ event event_key_pressed key ∷ []) ≤ 9
    pressed = omega (arith, few, length-append down (event event_key_pressed key ∷ []))

    tapped :
        length ((down ++ event event_key_pressed key ∷ []) ++ event event_key_released key ∷ [])
        ≤ 10
    tapped = omega (
      arith,
      pressed,
      length-append (down ++ event event_key_pressed key ∷ []) (event event_key_released key ∷ []),
    )

    all : Holds state (keystroke key modifiers)
    all =
        Holds-set_modifiers event_key_released refl modifiers modifier_mapping _ _
          (omega (arith, tapped))
          (Holds-set_next event_key_released refl key _ _ (omega (arith, pressed)) (
            Holds-set_next event_key_pressed refl key _ _ (omega (arith, few)) (
              Holds-set_modifiers event_key_pressed refl modifiers modifier_mapping _ []
                (omega arith) start)))
