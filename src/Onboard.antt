-- ===== src/Onboard.antt =====
-- src/hidpp20.c, feature 0x8100: the sectors of the memory of a device, read and written in
-- pieces of 16 bytes. A call returns its error, 0 for none, with the buffer; an access outside of
-- the buffer aborts.
pub mod Bytes
pub mod Reading
pub mod Writing
pub mod RoundTrip
pub mod Macros
pub mod Buttons
pub mod Leds
pub mod Specials
pub mod Profile
pub mod Dictionary
use libratbag.Base.{
  ℕ, zero, suc, ◌+◌, ◌-◌, ◌*◌, ◌%◌, ◌^◌, min, Bool, true, false, List, [], ◌∷◌, ◌++◌, ltb, leb,
  ◌==◌, if◌then◌else◌, length, get_or, take, replicate, Outcome, done, aborted, ◌>>=◌,
}
use libratbag.Hidpp.{get_be_u16, set_be_u16, hidpp_crc_ccitt}
use libratbag.Hidpp20.{
  Message, Read, Answer, answered, device_error, failed, HidppDevice, report_id_short,
  report_id_long, enotsup, request_command, root_get_feature_idx,
}

abbrev pub page_onboard_profiles : ℕ
page_onboard_profiles = 0x8100

abbrev pub memory_read : ℕ
memory_read = 0x50

abbrev pub memory_addr_write : ℕ
memory_addr_write = 0x60

abbrev pub memory_write : ℕ
memory_write = 0x70

abbrev pub memory_write_end : ℕ
memory_write_end = 0x80

-- `buf + n`
abbrev pub skip : ℕ → List ℕ → List ℕ
skip zero buf = buf
skip (suc n) [] = []
skip (suc n) (x ∷ buf) = skip n buf

-- Bytes put over those of a buffer from a place on.
abbrev pub put : List ℕ → ℕ → List ℕ → List ℕ
put [] at bytes = []
put (x ∷ buf) (suc at) bytes = x ∷ put buf at bytes
put (x ∷ buf) zero [] = x ∷ buf
put (x ∷ buf) zero (b ∷ bytes) = b ∷ put buf zero bytes

-- `memcpy (buf + at, bytes, length)`
unfoldable pub copy_to : List ℕ → ℕ → List ℕ → Outcome (List ℕ)
copy_to buf at bytes =
    if leb (at + length bytes) (length buf) then done (put buf at bytes) else aborted

-- `memcpy (…, buf + at, n)`
unfoldable pub copy_from : List ℕ → ℕ → ℕ → Outcome (List ℕ)
copy_from buf at n = if leb (at + n) (length buf) then done (take n (skip at buf)) else aborted

-- A long message, all of whose parameters that are not set are 0.
abbrev pub long_message : ℕ → ℕ → ℕ → List ℕ → Message
long_message device_idx sub_id address parameters = record {
  report_id = report_id_long;
  device_idx = device_idx;
  sub_id = sub_id;
  address = address;
  parameters = put (replicate 16 0) 0 parameters;
}

abbrev pub read_message : ℕ → ℕ → ℕ → ℕ → Message
read_message device_idx feature_index sector offset =
    long_message device_idx feature_index memory_read (set_be_u16 sector ++ set_be_u16 offset)

unfoldable pub is_sector_valid : ℕ → List ℕ → Outcome Bool
unfolding copy_from
is_sector_valid sector_size buf = do
  bytes ← copy_from buf 0 (sector_size - 2)
  read ← copy_from buf (sector_size - 2) 2
  done (hidpp_crc_ccitt bytes == get_be_u16 (get_or read 0 0) (get_or read 1 0))

abbrev pub write_start_message : ℕ → ℕ → ℕ → ℕ → ℕ → Message
write_start_message device_idx feature_index sector sub_address count =
    long_message device_idx feature_index memory_addr_write
      (set_be_u16 sector ++ (set_be_u16 sub_address ++ set_be_u16 count))

abbrev pub write_data_message : ℕ → ℕ → List ℕ → Message
write_data_message device_idx feature_index bytes =
    long_message device_idx feature_index memory_write bytes

abbrev pub write_end_message : ℕ → ℕ → Message
write_end_message device_idx feature_index = record {
  report_id = report_id_short;
  device_idx = device_idx;
  sub_id = feature_index;
  address = memory_write_end;
  parameters = replicate 16 0;
}

-- The bytes of a sector, with the checksum in its last two if that is wanted.
unfoldable pub with_crc : ℕ → List ℕ → Bool → Outcome (List ℕ)
unfolding copy_from copy_to
with_crc sector_size buf write_crc =
    if write_crc
    then copy_from buf 0 (sector_size - 2)
      >>= (λ bytes. copy_to buf (sector_size - 2) (set_be_u16 (hidpp_crc_ccitt bytes)))
    else done buf

-- Where the piece is read from.
unfoldable pub read_from : ℕ → ℕ → ℕ
read_from sector_size offset =
    if ltb (sector_size - offset) 16 then (sector_size + 2 ^ 16 - 16) % 2 ^ 16 else offset

module _ {S : Type 0} (transfer : Message → S → S × (ℕ × List Read)) where
  -- A request whose answer is not looked at.
  unfoldable pub send : Message → S → S × ℕ
  send msg s =
      let (s', ret) = request_command transfer msg s in
      (s', elim ret [ answered read ↦ 0 | device_error code ↦ code | failed code ↦ code ])

  -- What is done with the answer for the piece at `from`, and the rest of the loop.
  unfoldable pub take_answer :
      (ℕ → ℕ → S → List ℕ → Outcome (S × (ℕ × List ℕ)))
      → ℕ
      → ℕ
      → List ℕ
      → S × Answer
      → Outcome (S × (ℕ × List ℕ))
  unfolding copy_to
  take_answer next from count buf (s, answered read) =
      copy_to buf from (take (min count 16) read.parameters)
      >>= next ((from + 16) % 2 ^ 16) (count - 16) s
  take_answer next from count buf (s, device_error code) = done (s, (code, buf))
  take_answer next from count buf (s, failed code) = done (s, (code, buf))

  -- The loop over the pieces. `count` is what is left, `offset` a word of 16 bits.
  unfoldable pub read_loop :
      ℕ → HidppDevice → ℕ → ℕ → ℕ → ℕ → ℕ → S → List ℕ → Outcome (S × (ℕ × List ℕ))
  unfolding take_answer read_from
  read_loop zero device feature_index sector sector_size offset count s buf = aborted
  read_loop (suc fuel) device feature_index sector sector_size offset count s buf =
      elim (ltb offset sector_size) [
        | false ↦ done (s, (0, buf))
        | true ↦
            let from = read_from sector_size offset in
            take_answer (read_loop fuel device feature_index sector sector_size) from count buf
              (request_command transfer (read_message device.index feature_index sector from) s)
      ]

  unfoldable pub read_sector : HidppDevice → ℕ → ℕ → S → List ℕ → Outcome (S × (ℕ × List ℕ))
  unfolding read_loop
  read_sector device sector sector_size s buf =
      let feature_index = root_get_feature_idx device page_onboard_profiles in
      if feature_index == 0
      then done (s, (enotsup, buf))
      else read_loop (sector_size + 1) device feature_index sector sector_size 0 sector_size s buf

  -- What is done after a piece is sent.
  unfoldable pub go_on : (S → Outcome (S × ℕ)) → S × ℕ → Outcome (S × ℕ)
  go_on next (s, zero) = next s
  go_on next (s, suc code) = done (s, suc code)

  unfoldable pub write_loop : ℕ → HidppDevice → ℕ → ℕ → List ℕ → ℕ → S → Outcome (S × ℕ)
  unfolding copy_from send go_on
  write_loop zero device feature_index sector_size buf transferred s = aborted
  write_loop (suc fuel) device feature_index sector_size buf transferred s =
      elim (ltb transferred sector_size) [
        | false ↦ done (s, 0)
        | true ↦ copy_from buf transferred 16 >>= (λ bytes.
            go_on (write_loop fuel device feature_index sector_size buf (transferred + 16))
              (send (write_data_message device.index feature_index bytes) s))
      ]

  -- The messages for a sector, the checksum being in the buffer.
  unfoldable pub write_messages : HidppDevice → ℕ → ℕ → ℕ → List ℕ → S → Outcome (S × ℕ)
  unfolding write_loop send go_on
  write_messages device feature_index sector sector_size buf s =
      go_on
        (λ s1.
          write_loop (sector_size + 1) device feature_index sector_size buf 0 s1
          >>= go_on (λ s2. done (send (write_end_message device.index feature_index) s2)))
        (send (write_start_message device.index feature_index sector 0 sector_size) s)

  unfoldable pub write_sector : HidppDevice → ℕ → ℕ → S → List ℕ → Bool → Outcome (S × (ℕ × List ℕ))
  unfolding write_messages with_crc
  write_sector device sector sector_size s buf write_crc =
      let feature_index = root_get_feature_idx device page_onboard_profiles in
      if feature_index == 0
      then done (s, (enotsup, buf))
      else (with_crc sector_size buf write_crc >>= (λ buf'.
          write_messages device feature_index sector sector_size buf' s
          >>= (λ written. done (written.0, (written.1, buf')))))
