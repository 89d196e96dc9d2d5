-- ===== src/Settings/Actions.antt =====
-- src/libratbag.c: an action that is set on a button is the one that is read back.
use libratbag.Base.{ℕ, ◌≡◌, refl, ◌≢◌, none, done}
use libratbag.Types.{Button, ActionType, type_none, type_button, type_special, type_key, type_macro}
use libratbag.Macro.{button_get_macro}
use libratbag.Settings.{
  button_set_action, plain_action, button_get_button, button_get_special, button_get_key,
  special_invalid,
}

-- What the readers give for an action of this type with this value.
pub record Reads (button : Button) (t : ActionType) (value : ℕ) : Type 0 where
  pub of_type : button.action.action_type ≡ t
  pub of_button : button_get_button button ≡ elim t [ type_button ↦ value | _ ↦ 0 ]
  pub of_special : button_get_special button ≡ elim t [ type_special ↦ value | _ ↦ special_invalid ]
  pub of_key : button_get_key button ≡ elim t [ type_key ↦ value | _ ↦ 0 ]

-- An action that is no macro, set on a button: the reader of its kind gives its value, the other
-- readers give their value for a wrong kind, no macro is read, and the macro that the button holds
-- in memory, and everything else of the button, is kept.
pub button_set_action-Reads :
    (button : Button) (t : ActionType) (value : ℕ)
    → t ≢ type_macro
    → Reads (button_set_action button (plain_action t value)) t value
      × (button_get_macro (button_set_action button (plain_action t value)) ≡ done none)
      × (button_set_action button (plain_action t value) ≡ record button {
        action = record { action_type = t; value = value; macro = button.action.macro };
      })
unfolding button_set_action button_get_button button_get_special button_get_key button_get_macro
button_set_action-Reads button type_none value ne =
    (record { of_type = refl; of_button = refl; of_special = refl; of_key = refl }, refl, refl)
button_set_action-Reads button type_macro value ne = absurd (ne refl)
button_set_action-Reads button _ value ne =
    (record { of_type = refl; of_button = refl; of_special = refl; of_key = refl }, refl, refl)
