-- ===== src/Tests/Sectors.antt =====
-- A device with one sector, that keeps what is written to it.
use libratbag.Base.{
  ℕ, zero, suc, ◌+◌, ◌-◌, ◌*◌, ◌^◌, ◌<◌, true, List, [], ◌∷◌, ◌++◌, ◌==◌, if◌then◌else◌, length,
  get_or, take, replicate, ◌≡◌, ◌≢◌, refl, sym, ap, ◌∙◌, arith, done, All, length-append,
  length-replicate,
}
use libratbag.Hidpp.{set_be_u16}
use libratbag.Hidpp20.{
  Message, Read, report, HidppDevice, root_get_feature_idx, find_feature, behind_first,
  request_command, request_command_allow_error, await_answer, classify,
}
use libratbag.Onboard.{
  skip, put, send, page_onboard_profiles, read_message, is_sector_valid, read_sector, write_sector,
}
use libratbag.Onboard.Bytes.{length-take}
use libratbag.Onboard.Reading.{Filled, reached}
use libratbag.Onboard.Reading.Loop.{Serves, read_sector-Filled}
use libratbag.Onboard.Writing.Loop.{Takes}
use libratbag.Onboard.RoundTrip.{write_sector-read_sector}

pub record Flash : Type 0 where
  pub stored : List ℕ
  pub pending : List ℕ

-- The sector, which is blank where nothing is stored.
abbrev pub sector_of : ℕ → Flash → List ℕ
sector_of size flash = take size (flash.stored ++ replicate size 0)

abbrev pub pending_of : Flash → List ℕ
pending_of flash = flash.pending

abbrev offset_in : Message → ℕ
offset_in msg = get_or msg.parameters 2 0 * 256 + get_or msg.parameters 3 0

-- The firmware, which tells the commands by their addresses with the software's id.
abbrev pub flash_transfer : ℕ → Message → Flash → Flash × (ℕ × List Read)
flash_transfer size msg flash =
    if msg.address == 0x58
    then (
      flash,
      (
        0,
        report (record msg { parameters = take 16 (skip (offset_in msg) (sector_of size flash)) })
            ∷ [],
      ),
    )
    else if msg.address == 0x68
    then (record flash { pending = [] }, (0, report msg ∷ []))
    else if msg.address == 0x78
    then (record flash { pending = flash.pending ++ msg.parameters }, (0, report msg ∷ []))
    else if msg.address == 0x88
    then (record flash { stored = flash.pending }, (0, report msg ∷ []))
    else (flash, (110, []))

abbrev pub mouse : HidppDevice
mouse = record { index = 0xff; feature_list = 0 ∷ 0x8100 ∷ [] }

mouse_supported : root_get_feature_idx mouse page_onboard_profiles ≡ 1
unfolding root_get_feature_idx find_feature behind_first
mouse_supported = refl

length-sector_of : (size : ℕ) (flash : Flash) → length (sector_of size flash) ≡ size
length-sector_of size flash =
    length-take size (flash.stored ++ replicate size 0) (
      omega (arith, length-append flash.stored (replicate size 0), length-replicate {A = ℕ} size 0))

take-append_all : (l m : List ℕ) → take (length l) (l ++ m) ≡ l
take-append_all [] m = refl
take-append_all (x ∷ l) m = ap (◌∷◌ x) (take-append_all l m)

offset_in-read_message :
    (offset : ℕ) → offset < 2 ^ 16 → offset_in (read_message 0xff 1 1 offset) ≡ offset
unfolding set_be_u16
offset_in-read_message offset small = omega arith

pub flash-Serves :
    (size : ℕ) → size < 2 ^ 16 → Serves (flash_transfer size) mouse 1 size (sector_of size)
unfolding request_command request_command_allow_error await_answer classify set_be_u16
    root_get_feature_idx find_feature behind_first
flash-Serves size small = record {
  room = length-sector_of size;
  answers = λ flash offset h. (
    flash,
    record (read_message 0xff 1 1 offset) {
      address = 0x58;
      parameters = take 16 (skip (offset_in (read_message 0xff 1 1 offset)) (sector_of size flash));
    },
    refl,
    ap (λ (n : ℕ). take 16 (skip n (sector_of size flash)))
        (offset_in-read_message offset (omega (arith, h))),
    refl,
  );
}

put_whole : (bytes : List ℕ) (n : ℕ) → length bytes ≡ n → put (replicate n 0) 0 bytes ≡ bytes
put_whole [] zero h = refl
put_whole [] (suc n) h = absurd (omega arith)
put_whole (b ∷ bytes) zero h = absurd (omega arith)
put_whole (b ∷ bytes) (suc n) h = ap (◌∷◌ b) (put_whole bytes n (omega arith))

pub flash-Takes : (size : ℕ) → Takes (flash_transfer size) mouse 1 size (sector_of size) pending_of
unfolding request_command request_command_allow_error await_answer classify set_be_u16
    root_get_feature_idx find_feature behind_first send
flash-Takes size = record {
  begun = λ flash. (record flash { pending = [] }, refl, refl);
  more = λ flash bytes h. (
    record flash { pending = flash.pending ++ put (replicate 16 0) 0 bytes },
    refl,
    ap (λ (l : List ℕ). flash.pending ++ l) (put_whole bytes 16 h),
  );
  ended = λ flash h. (
    record flash { stored = flash.pending },
    refl,
    ap (λ (n : ℕ). take n (flash.pending ++ replicate size 0)) (sym h)
        ∙ take-append_all flash.pending (replicate size 0),
  );
}

abbrev pub blank : Flash
blank = record { stored = []; pending = [] }

abbrev counting : List ℕ
counting =
    1 ∷ 2 ∷ 3 ∷ 4 ∷ 5 ∷ 6 ∷ 7 ∷ 8 ∷ 9 ∷ 10 ∷ 11 ∷ 12 ∷ 13 ∷ 14 ∷ 15 ∷ 16 ∷ 17 ∷ 18 ∷ 19 ∷ 20 ∷ []

abbrev written : Flash
written = record { stored = counting; pending = [] }

pub is_supported : root_get_feature_idx mouse page_onboard_profiles ≢ 0
is_supported h = omega (arith, h, mouse_supported)

read_sector-Filled_example :
    (s' : Flash) × (buf' : List ℕ) × (read_sector
        (flash_transfer 20)
        mouse
        1
        20
        written
        (replicate 20 0)
      ≡ done (s', (0, buf')))
    × (sector_of 20 s' ≡ sector_of 20 written)
    × Filled (sector_of 20 written) (replicate 20 0) (reached 20) buf'
read_sector-Filled_example =
    read_sector-Filled (flash_transfer 20) mouse 1 20 (sector_of 20) written (replicate 20 0)
      is_supported (flash-Serves 20 (omega arith)) (omega arith) (omega arith) refl

sevens_and_eights : (n m : ℕ) → All (λ b. b < 2 ^ 8) (replicate n 7 ++ replicate m 8)
sevens_and_eights zero zero = tt
sevens_and_eights zero (suc m) = (omega arith, sevens_and_eights zero m)
sevens_and_eights (suc n) m = (omega arith, sevens_and_eights n m)

abbrev sector_32 : List ℕ
sector_32 = replicate 16 7 ++ replicate 16 8

write_sector-read_sector_example :
    (s1 : Flash) × (s2 : Flash) × (bytes : List ℕ) × (write_sector
        (flash_transfer 32)
        mouse
        1
        32
        blank
        sector_32
        true
      ≡ done (s1, (0, bytes)))
    × (read_sector (flash_transfer 32) mouse 1 32 s1 (replicate 32 0) ≡ done (s2, (0, bytes)))
    × (is_sector_valid 32 bytes ≡ done true)
    × (take (32 - 2) bytes ≡ take (32 - 2) sector_32)
write_sector-read_sector_example =
    write_sector-read_sector (flash_transfer 32) mouse 1 32 (sector_of 32) pending_of is_supported
      blank sector_32 (replicate 32 0) (flash-Takes 32) (flash-Serves 32 (omega arith))
      (omega arith) (omega arith) refl refl refl (sevens_and_eights 16 16)
