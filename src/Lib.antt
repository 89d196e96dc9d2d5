-- ===== src/Lib.antt =====
-- The core of libratbag, a library that configures mice: src/libratbag.c, with the inline
-- functions of src/libratbag-private.h and the bitmaps of src/libratbag-util.h; and, below it, parts
-- of src/libratbag-hidraw.c and of the HID++ protocol, src/hidpp-generic.c and src/hidpp20.c.
--
-- A device owns profiles, and a profile owns resolutions, buttons and LEDs. A client looks these
-- objects up, each time with a reference, and changes them; a change marks the object and its
-- profile. A commit hands what is marked to the driver of the device. The model keeps the whole
-- device as one value: a list in C is a list in the order of `list_for_each`, a pointer to an
-- object is its place in that list, and a call takes the device (or the profile, where it touches
-- no more) and gives it back. A call that fails an assertion, calls abort or follows a null
-- pointer is `aborted`; an error code is a value.
--
-- Base: the Boolean tests, lists over the native numbers, and `Outcome`, a result or an abort.
-- Bits: bits of numbers, for the bitmaps and the flags.
-- Bitmap: `long_bit_is_set`, `long_set_bit`, `long_clear_bit`, `long_set_bit_state`.
-- Types: the structures and enumerations.
-- Macro: button macros (`ratbag_button_macro_*`), and `ratbag_action_keycode_from_macro`. Emit
--   says what `ratbag_button_macro_new_from_keycode` writes, Scan how it is read.
-- Capability: `ratbag_device_set_capability` and its relatives, and the flags of resolutions,
--   buttons and LEDs.
-- Resolution: the setters of a resolution, and its lists of dpi values and report rates.
-- Numbered: the shape that the lookups rely on.
-- Create: `ratbag_device_new` and `ratbag_device_init_profiles`.
-- Refs: the reference counts and the lookups. The three texts of `ratbag_resolution_ref`,
--   `ratbag_button_ref` and `ratbag_led_ref`, and of their relatives, are one function of a `Part`.
-- Settings: the setters of profiles, buttons and LEDs.
-- Commit: `ratbag_device_commit`. Plan describes the calls that it makes, Clean what it leaves.
-- Session: any sequence of a client's calls. Tracks says what a call may do to the device, Rates
--   and Marks show it for each kind of call, Calls for all of them;
--   Written relates what they change to the calls of the next commit.
-- Hidraw: the reports in a device's report descriptor, and the tables of key usages, of
--   src/libratbag-hidraw.c. Descriptor follows one item, Descriptor.Passes the two passes of the
--   opening; Keys has the tables, Keys.Usages the way from a usage to a key code and back.
-- Hidpp: words of 16 bits and the checksum of src/hidpp-generic.c; Crc.Bitwise has the description by
--   bits that it is compared with.
-- Hidpp20: a request to an HID++ 2.0 device and its answer (src/hidpp20.c).
-- Onboard: the memory of such a device. Reading and Writing follow a sector piece by piece,
--   RoundTrip joins them; Macros reads the events of a macro; Buttons, Leds and Specials are the
--   parts of a profile in a sector, Profile is all of it: Layout says where the parts are,
--   Storable what a sector can hold, Device writes a profile to a device and parses it again.
--   Dictionary is the sector that lists the profiles, with the commit and the parsing of a whole
--   list.
-- Log: `log_buffer`, and `snprintf_safe` of src/libratbag-util.h.
-- Tests: a small device on which each theorem is applied.
--
-- Numbers are natural numbers. Where the source can wrap (the dpi of a range) the wrap is written
-- out; the reference counts are guarded by assertions, as in the source. The array of 256 macro
-- events is a list of that length, the array of 300 dpi values a list with at most that length.
-- The loop over a dpi range is bounded by the 300 entries of the source. Some loops are on fuel, and
-- no fuel left is an abort. `decimal` prints a profile's number: it is given one unit more than the
-- number, which loses a digit in each round. The parser of a report descriptor has the length of the
-- descriptor, of which each item takes a byte or more. The loops over a sector have one unit more
-- than its size, of which each piece but the last takes 16. The items of an onboard macro can jump
-- back for ever, so that no fuel is enough for all of them: it is an argument, and the theorems on
-- profiles are about buttons that are no macros, with any fuel.
--
-- The transfer of a message to a device is an argument: it says what the reads after the message
-- bring. What the firmware does with a message is stated where it is used, by `Serves` and `Takes`.
--
-- Drivers, the device's answers, udev, hidraw and the data files are no part of the model: a
-- driver is an argument that says which functions are there and what each call answers. The other
-- log messages, user data, memory that is freed, and the reference count of a macro handle are left
-- out. The choice of a driver and its sanity check, the parsers of src/libratbag-util.c, the
-- drivers, the rest of HID++ and the daemon are not modelled.
pub mod Base
pub mod Bits
pub mod Bitmap
pub mod Types
pub mod Macro
pub mod Capability
pub mod Resolution
pub mod Numbered
pub mod Create
pub mod Refs
pub mod Settings
pub mod Commit
pub mod Session
pub mod Log
pub mod Hidpp
pub mod Hidpp20
pub mod Hidraw
pub mod Onboard
pub mod Tests
