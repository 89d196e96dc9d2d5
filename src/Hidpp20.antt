-- ===== src/Hidpp20.antt =====
-- src/hidpp20.c: a request to an HID++ 2.0 device, and the search for its answer among what the
-- device sends. The transfer itself is a parameter: it gives the error of the write, and what the
-- reads after it bring, in their order; after the last one nothing comes any more. Errors are the
-- positive numbers behind the negative return values; log messages are left out.
use libratbag.Base.{
  ℕ, ◌+◌, ◌%◌, bit_and, bit_or, Bool, true, false, not, ◌&&◌, ◌||◌, List, [], ◌∷◌, ◌==◌,
  if◌then◌else◌, get_or,
}

-- `union hidpp20_message`
pub record Message : Type 0 where
  pub report_id : ℕ
  pub device_idx : ℕ
  pub sub_id : ℕ
  pub address : ℕ
  pub parameters : List ℕ

-- What a read brings.
pub data Read : Type 0 where
  timed_out : Read
  read_error : ℕ → Read
  report : Message → Read

-- What a request returns: 0 with the answer, a positive code from the device, or an error.
pub data Answer : Type 0 where
  answered : Message → Answer
  device_error : ℕ → Answer
  failed : ℕ → Answer

pub record HidppDevice : Type 0 where
  pub index : ℕ
  pub feature_list : List ℕ

abbrev pub report_id_short : ℕ
report_id_short = 0x10

abbrev pub report_id_long : ℕ
report_id_long = 0x11

abbrev pub error_msg : ℕ
error_msg = 0x8f

abbrev pub device_sw_id : ℕ
device_sw_id = 0x8

abbrev pub einval : ℕ
einval = 22

abbrev pub eproto : ℕ
eproto = 71

abbrev pub etimedout : ℕ
etimedout = 110

abbrev pub enotsup : ℕ
enotsup = 95

-- The tests of the loop on a report: it is another one, the answer, or an error for this message.
pub data Kind : Type 0 where
  other : Kind
  answer : Kind
  error : ℕ → Kind

unfoldable pub classify : Message → Message → Kind
classify msg read =
    if not (read.report_id == report_id_short) && not (read.report_id == report_id_long)
    then other
    else if (read.sub_id == msg.sub_id) && (read.address == msg.address)
    then answer
    else if ((read.sub_id == error_msg) || (read.sub_id == 0xff))
        && ((read.address == msg.sub_id) && (get_or read.parameters 0 0 == msg.address))
    then error (get_or read.parameters 1 0)
    else other

-- The loop over the reads. A first time-out is followed by one more read; a read that fails ends
-- the loop and the call, whatever is in the buffer.
unfoldable pub await_answer : Bool → Message → List Read → Answer
unfolding classify
await_answer retried msg [] = failed etimedout
await_answer true msg (timed_out ∷ reads) = failed etimedout
await_answer false msg (timed_out ∷ reads) = await_answer true msg reads
await_answer retried msg (read_error code ∷ reads) = failed code
await_answer retried msg (report read ∷ reads) = elim (classify msg read) [
  | other ↦ await_answer false msg reads
  | answer ↦ answered read
  | error code ↦ if code == 0 then answered read else device_error code
]

module _ {S : Type 0} (transfer : Message → S → S × (ℕ × List Read)) where
  unfoldable pub request_command_allow_error : Message → S → S × Answer
  unfolding await_answer
  request_command_allow_error msg s =
      if not (bit_and msg.address 0xf == 0)
      then (s, failed einval)
      else let sent = record msg { address = bit_or msg.address device_sw_id } in
        let (s', (ret, reads)) = transfer sent s in
        (s', if ret == 0 then await_answer false sent reads else failed ret)

  unfoldable pub request_command : Message → S → S × Answer
  unfolding request_command_allow_error
  request_command msg s =
      let (s', ret) = request_command_allow_error msg s in
      (
        s',
        elim ret [
          | answered read ↦ answered read
          | device_error code ↦ failed eproto
          | failed code ↦ failed code
        ],
      )

-- The loop over the features from the place `i` on.
unfoldable pub find_feature : ℕ → List ℕ → ℕ → ℕ
find_feature i [] feature = 0
find_feature i (f ∷ features) feature =
    let behind = find_feature (i + 1) features feature in if f == feature then i % 256 else behind

unfoldable pub behind_first : List ℕ → List ℕ
behind_first [] = []
behind_first (f ∷ features) = features

-- 0 if the feature is not found; feature 0 is not looked for.
unfoldable pub root_get_feature_idx : HidppDevice → ℕ → ℕ
unfolding find_feature behind_first
root_get_feature_idx device feature =
    if feature == 0 then 0 else find_feature 1 (behind_first device.feature_list) feature
