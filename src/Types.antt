-- ===== src/Types.antt =====
-- src/libratbag-private.h and src/libratbag-enums.h: the structures of the library and the
-- enumerations that they use.
--
-- A list of C objects is a `List`, in the order of `list_for_each`, so `list_insert` puts an
-- object in front. A pointer to an object is its place in that list. `dpis` and `rates` hold the
-- used part of the C array (`ndpis`, `nrates` entries). User data, the driver's private data and
-- the udev and hidraw handles are left out.
use libratbag.Base.{ℕ, Bool, Option, List}

pub data ErrorCode : Type 0 where
  success error_device error_capability error_value error_system error_implementation : ErrorCode

pub data ActionType : Type 0 where
  type_none type_button type_special type_key type_macro type_unknown : ActionType

pub data EventType : Type 0 where
  event_invalid event_none event_key_pressed event_key_released event_wait : EventType

pub data LedMode : Type 0 where
  led_off led_on led_cycle led_breathing : LedMode

-- `value` is the union of `key` and `timeout`, two fields of one size.
pub record MacroEvent : Type 0 where
  pub event_type : EventType
  pub value : ℕ

-- A name that is `none` is a null pointer.
pub record Macro : Type 0 where
  pub name : Option (List ℕ)
  pub group : Option (List ℕ)
  pub events : List MacroEvent

-- `value` is the union of `button`, `special` and `key.key`, three fields of one size.
pub record Action : Type 0 where
  pub action_type : ActionType
  pub value : ℕ
  pub macro : Option Macro

pub record Button : Type 0 where
  pub refcount : ℕ
  pub index : ℕ
  pub button_type : ℕ
  pub action : Action
  pub action_caps : ℕ
  pub dirty : Bool

pub record Color : Type 0 where
  pub red : ℕ
  pub green : ℕ
  pub blue : ℕ

-- `led_type` is 0 for an unknown type.
pub record Led : Type 0 where
  pub refcount : ℕ
  pub index : ℕ
  pub led_type : ℕ
  pub mode : LedMode
  pub modes : ℕ
  pub color : Color
  pub colordepth : ℕ
  pub ms : ℕ
  pub brightness : ℕ
  pub dirty : Bool

pub record Resolution : Type 0 where
  pub refcount : ℕ
  pub index : ℕ
  pub dpis : List ℕ
  pub dpi_x : ℕ
  pub dpi_y : ℕ
  pub hz : ℕ
  pub rates : List ℕ
  pub is_active : Bool
  pub is_default : Bool
  pub dirty : Bool
  pub capabilities : ℕ

pub record Profile : Type 0 where
  pub refcount : ℕ
  pub name : Option (List ℕ)
  pub index : ℕ
  pub buttons : List Button
  pub resolutions : List Resolution
  pub leds : List Led
  pub num_resolutions : ℕ
  pub is_active : Bool
  pub is_enabled : Bool
  pub dirty : Bool
  pub capabilities : List ℕ

pub record InputId : Type 0 where
  pub bustype : ℕ
  pub vendor : ℕ
  pub product : ℕ

-- `device_data` is the content of the device's data file as far as the library reads it here: the
-- 20 entries of `led_types`. `driver` is the id of the driver that is attached, if one is.
pub record Device : Type 0 where
  pub refcount : ℕ
  pub name : Option (List ℕ)
  pub ids : InputId
  pub driver : Option (List ℕ)
  pub device_data : Option (List ℕ)
  pub capabilities : List ℕ
  pub num_profiles : ℕ
  pub profiles : List Profile
  pub num_buttons : ℕ
  pub num_leds : ℕ
