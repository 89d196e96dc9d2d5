-- ===== src/Macro/Scan.antt =====
-- `ratbag_action_macro_num_keys` and the loop of `ratbag_action_keycode_from_macro` on the events
-- of a keystroke.
use libratbag.Base.{
  up_to, up_to-at, ℕ, zero, suc, ◌+◌, ◌<◌, bit_and, bit_or, ◌≡◌, refl, ◌≢◌, ◌∙◌, arith, true, List,
  [], ◌∷◌, ◌++◌, ◌==◌, if◌then◌else◌, Bool-cases, inl, inr, replicate, All, ==_iff,
}
use libratbag.Types.{event_key_pressed, event_key_released, MacroEvent}
use libratbag.Macro.{
  modifier_of, modifier_mapping, macro_num_keys, scan_events, counts_key, empty_event,
}
use libratbag.Macro.Emit.{event, held}

-- The pair is an entry of the two `switch` statements.
abbrev pub Mapped : ℕ × ℕ → Type 0
Mapped (mask, key) = (modifier_of key ≡ mask) × (mask ≢ 0)

pub mapping-Mapped : All Mapped modifier_mapping
unfolding modifier_of
mapping-Mapped = omega arith

pub macro_num_keys-append :
    (xs ys : List MacroEvent) → macro_num_keys (xs ++ ys) ≡ macro_num_keys xs + macro_num_keys ys
unfolding macro_num_keys
macro_num_keys-append [] ys = omega arith
macro_num_keys-append (x ∷ xs) ys = omega (arith, macro_num_keys-append xs ys)

pub macro_num_keys-held_pressed :
    (modifiers : ℕ) (l : List (ℕ × ℕ))
    → All Mapped l
    → macro_num_keys (held event_key_pressed modifiers l) ≡ 0
unfolding macro_num_keys counts_key
macro_num_keys-held_pressed modifiers [] h = refl
macro_num_keys-held_pressed modifiers ((mask, key) ∷ rest) h =
    ground (arith, macro_num_keys-held_pressed modifiers rest h.1)

pub macro_num_keys-held_released :
    (modifiers : ℕ) (l : List (ℕ × ℕ)) → macro_num_keys (held event_key_released modifiers l) ≡ 0
unfolding macro_num_keys counts_key
macro_num_keys-held_released modifiers [] = refl
macro_num_keys-held_released modifiers ((mask, key) ∷ rest) =
    ground (arith, macro_num_keys-held_released modifiers rest)

pub macro_num_keys-empty : (n : ℕ) → macro_num_keys (replicate n empty_event) ≡ 0
unfolding macro_num_keys counts_key
macro_num_keys-empty zero = refl
macro_num_keys-empty (suc n) = omega (arith, macro_num_keys-empty n)

-- The modifiers that the loop has collected behind the presses.
abbrev pub collected : ℕ → List (ℕ × ℕ) → ℕ → ℕ
collected modifiers [] acc = acc
collected modifiers ((mask, key) ∷ rest) acc =
    collected modifiers rest (if bit_and modifiers mask == 0 then acc else bit_or acc mask)

pub scan_events-held :
    (modifiers key acc : ℕ) (l : List (ℕ × ℕ)) (rest : List MacroEvent)
    → All Mapped l
    → scan_events (held event_key_pressed modifiers l ++ rest) key acc
      ≡ scan_events rest key (collected modifiers l acc)
unfolding scan_events
scan_events-held modifiers key acc [] rest h = refl
scan_events-held modifiers key acc ((mask, k) ∷ l) rest h =
    elim (Bool-cases (bit_and modifiers mask == 0)) [
      | inl e ↦ rw e (scan_events-held modifiers key acc l rest h.1)
      | inr e ↦ rw e (pressed ∙ scan_events-held modifiers key (bit_or acc mask) l rest h.1)
    ]
  where
    pressed :
        scan_events (event event_key_pressed k ∷ held event_key_pressed modifiers l ++ rest) key acc
        ≡ scan_events (held event_key_pressed modifiers l ++ rest) key (bit_or acc mask)
    pressed = ground (arith, h.0)

collected_table : up_to (λ m. collected m modifier_mapping 0 == m) 255 ≡ true
unfolding up_to
collected_table = refl

-- All eight bits are collected.
pub collected-mapping : (m : ℕ) → m < 256 → collected m modifier_mapping 0 ≡ m
collected-mapping m h = (==_iff _ m).0 (up_to-at _ 255 m (omega arith) collected_table)
