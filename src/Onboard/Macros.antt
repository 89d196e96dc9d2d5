-- ===== src/Onboard/Macros.antt =====
-- src/hidpp20.c, hidpp20_onboard_profiles_macro_next, _read_macro and _parse_macro: the events of a
-- macro, read item by item from the sectors of a device. An item is its three bytes. The loop over
-- the items has no bound in the code: a macro that jumps back for ever never ends. It is on fuel, and
-- `aborted` also stands for its end.
use libratbag.Base.{
  ℕ, zero, suc, ◌+◌, ◌-◌, ◌%◌, ◌^◌, bit_and, Option, none, some, Bool, true, false, not, ◌||◌, List,
  [], ◌++◌, map, ltb, leb, ◌==◌, if◌then◌else◌, length, get_or, set, take, replicate, Outcome, done,
  aborted, ◌>>=◌,
}
use libratbag.Hidpp.{get_be_u16, set_le_u16}
use libratbag.Hidpp20.{Message, Read, HidppDevice}
use libratbag.Onboard.{copy_from, read_sector}

-- `union hidpp20_macro_data`
pub record MacroItem : Type 0 where
  pub kind : ℕ
  pub byte1 : ℕ
  pub byte2 : ℕ

abbrev no_item : MacroItem
no_item = record { kind = 0; byte1 = 0; byte2 = 0 }

abbrev macro_noop : ℕ
macro_noop = 0x01

abbrev macro_delay : ℕ
macro_delay = 0x40

abbrev macro_key_press : ℕ
macro_key_press = 0x43

abbrev macro_key_release : ℕ
macro_key_release = 0x44

abbrev macro_jump : ℕ
macro_jump = 0x60

abbrev macro_end : ℕ
macro_end = 0xff

abbrev eagain : ℕ
eagain = 11

abbrev enomem : ℕ
enomem = 12

abbrev efault : ℕ
efault = 14

-- The bytes that an item takes, and the code for going on behind it.
abbrev step_of : ℕ → ℕ × ℕ
step_of kind =
    if (kind == macro_delay)
      || (kind == macro_key_press)
      || (kind == macro_key_release)
      || (kind == macro_jump)
    then (3, eagain)
    else if kind == macro_noop
    then (1, eagain)
    else (1, efault)

-- The code, the new index, and the item that was stored, if one was.
unfoldable pub macro_next : List ℕ → ℕ → Outcome (ℕ × (ℕ × Option MacroItem))
unfolding copy_from
macro_next memory index =
    if leb 29 index
    then done (efault, (index, none))
    else copy_from memory index 3 >>= (λ bytes.
      let item : MacroItem = record {
        kind = get_or bytes 0 0;
        byte1 = get_or bytes 1 0;
        byte2 = get_or bytes 2 0;
      } in
      let step = step_of item.kind in
      if item.kind == macro_end
      then done (0, (index, some item))
      else if not (bit_and (index + step.0) 0xF0 == 0)
      then done (enomem, (index, some item))
      else done (step.1, (index + step.0, some item)))

-- `macro[index] = item`, in an array that is as long as the list.
abbrev store_item : List MacroItem → ℕ → Option MacroItem → Outcome (List MacroItem)
store_item macro index none = done macro
store_item macro index (some item) =
    if ltb index (length macro) then done (set macro index item) else aborted

abbrev is_jump : Option MacroItem → Bool
is_jump none = false
is_jump (some item) = item.kind == macro_jump

-- Where a jump goes.
abbrev target_of : Option MacroItem → ℕ × ℕ
target_of none = (0, 0)
target_of (some item) = (item.byte2, item.byte1)

-- The array with room for 32 items more, when it is full.
abbrev grown : List MacroItem → ℕ → List MacroItem
grown macro index = if length macro == index then macro ++ replicate 32 no_item else macro

-- The time of a delay, in the order of bytes of the computer.
abbrev delay_to_cpu : MacroItem → MacroItem
unfolding get_be_u16 set_le_u16
delay_to_cpu item =
    let word = set_le_u16 (get_be_u16 item.byte1 item.byte2) in
    if item.kind == macro_delay
    then record item { byte1 = get_or word 0 0; byte2 = get_or word 1 0 }
    else item

module _ {S : Type 0} (transfer : Message → S → S × (ℕ × List Read)) where
  -- The sector is read when the last code says so.
  fetch : HidppDevice → ℕ → ℕ → ℕ → List ℕ → S → Outcome (S × (ℕ × List ℕ))
  unfolding read_sector
  fetch device page sector_size rc memory s = elim (rc == enomem) [
    | true ↦ read_sector transfer device page sector_size s memory
    | false ↦ done (s, (0, memory))
  ]

  -- The loop, from this place on: an error with no items, or 0 with the items.
  read_items :
      ℕ
      → HidppDevice
      → ℕ
      → ℕ
      → ℕ
      → ℕ
      → List MacroItem
      → ℕ
      → List ℕ
      → S
      → Outcome (S × (ℕ × List MacroItem))
  unfolding fetch macro_next
  read_items zero device sector_size page mem_index rc macro index memory s = aborted
  read_items (suc fuel) device sector_size page mem_index rc macro index memory s =
      fetch device page sector_size rc memory s >>= (λ got. elim (got.1.0 == 0) [
        | false ↦ done (got.0, (got.1.0, []))
        | true ↦ macro_next got.1.1 mem_index >>= (λ next.
            store_item (grown macro index) index next.1.1 >>= (λ stored. elim (next.0 == efault) [
              | true ↦ done (got.0, (efault, []))
              | false ↦ elim (next.0 == enomem) [
                | true ↦
                    read_items fuel device sector_size ((page + 1) % 2 ^ 8) 0 enomem stored index
                      got.1.1 got.0
                | false ↦ elim (is_jump next.1.1) [
                  | true ↦
                      read_items fuel device sector_size (target_of next.1.1).0
                        (target_of next.1.1).1 enomem stored ((index + 2 ^ 32 - 1) % 2 ^ 32) got.1.1
                        got.0
                  | false ↦ elim (next.0 == 0) [
                    | true ↦ done (got.0, (0, take (index + 1) stored))
                    | false ↦
                        read_items fuel device sector_size page next.1.0 next.0 stored (index + 1)
                          got.1.1 got.0
                  ]
                ]
              ]
            ]))
      ])

  read_macro : ℕ → HidppDevice → ℕ → ℕ → ℕ → S → Outcome (S × (ℕ × List MacroItem))
  unfolding read_items
  read_macro fuel device sector_size page offset s =
      read_items fuel device sector_size page offset enomem [] 0 (replicate sector_size 0) s

  -- The error, 0 for none, and the macro, `none` where no macro is stored.
  pub parse_macro : ℕ → HidppDevice → ℕ → ℕ → ℕ → S → Outcome (S × (ℕ × Option (List MacroItem)))
  unfolding read_macro
  parse_macro fuel device sector_size page offset s =
      read_macro fuel device sector_size page offset s >>= (λ read.
        if read.1.0 == 0
        then done (read.0, (0, some (map delay_to_cpu read.1.1)))
        else done (read.0, (read.1.0, none)))
