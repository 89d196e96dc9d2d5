-- ===== src/Onboard/Writing/Loop.antt =====
-- src/hidpp20.c, hidpp20_onboard_profiles_write_sector: the pieces that are sent make up the sector.
use libratbag.Base.{
  ℕ, zero, suc, ◌+◌, ◌-◌, ◌%◌, ◌≤◌, ◌<◌, List, [], ◌++◌, length, take, ◌≡◌, sym, ap, ◌∙◌, arith,
  Outcome, done, ◌>>=◌,
}
use native.Mathlib.Decide.{dec_lt}
use libratbag.Hidpp20.{Message, Read, HidppDevice, root_get_feature_idx}
use libratbag.Onboard.{
  skip, copy_from, page_onboard_profiles, write_start_message, write_data_message,
  write_end_message, send, go_on, write_loop, write_messages,
}
use libratbag.Onboard.Bytes.{length-skip, length-take, copy_from-done, take-add, take_all}

-- A device that takes the messages for a sector: `pending` is what is written to it since the start,
-- and its memory after the end, if that is a whole sector.
pub record Takes {S : Type 0} (transfer : Message → S → S × (ℕ × List Read)) (device : HidppDevice)
    (sector size : ℕ) (memory pending : S → List ℕ) : Type 0 where
  pub begun :
      (s : S)
      → (s' : S) × (send transfer
            (write_start_message device.index
              (root_get_feature_idx device page_onboard_profiles)
              sector
              0
              size)
            s
          ≡ (s', 0))
        × (pending s' ≡ [])
  pub more :
      (s : S) (bytes : List ℕ)
      → length bytes ≡ 16
      → (s' : S) × (send transfer
            (write_data_message device.index
              (root_get_feature_idx device page_onboard_profiles)
              bytes)
            s
          ≡ (s', 0))
        × (pending s' ≡ pending s ++ bytes)
  pub ended :
      (s : S)
      → length (pending s) ≡ size
      → (s' : S) × (send transfer
            (write_end_message device.index (root_get_feature_idx device page_onboard_profiles))
            s
          ≡ (s', 0))
        × (memory s' ≡ pending s)

module _ {S : Type 0} (transfer : Message → S → S × (ℕ × List Read)) (device : HidppDevice)
    (sector size : ℕ) (memory pending : S → List ℕ)
    (takes : Takes transfer device sector size memory pending) (buf : List ℕ)
    (whole : size % 16 ≡ 0) (room : length buf ≡ size) where
  abbrev pub feature : ℕ
  feature = root_get_feature_idx device page_onboard_profiles

  loop : ℕ → ℕ → S → Outcome (S × ℕ)
  loop fuel = write_loop transfer fuel device feature size buf

  loop-end : (fuel offset : ℕ) (s : S) → 0 < fuel → size ≤ offset → loop fuel offset s ≡ done (s, 0)
  unfolding loop write_loop
  loop-end zero offset s h over = absurd (omega arith)
  loop-end (suc fuel) offset s h over = ground (arith, over)

  loop-enters :
      (fuel offset : ℕ) (s : S)
      → offset < size
      → loop (suc fuel) offset s ≡ (
          copy_from buf offset 16 >>= (λ bytes.
            go_on transfer
              (loop fuel (offset + 16))
              (send transfer (write_data_message device.index feature bytes) s)))
  unfolding loop write_loop
  loop-enters fuel offset s h = ground (arith, h)

  loop-piece :
      (fuel offset : ℕ) (s : S)
      → offset + 16 ≤ size
      → pending s ≡ take offset buf
      → (s' : S) × (loop (suc fuel) offset s ≡ loop fuel (offset + 16) s')
        × (pending s' ≡ take (offset + 16) buf)
  unfolding go_on
  loop-piece fuel offset s inside holds =
      let bytes = take 16 (skip offset buf) in
      let (s', sent, more) =
        takes.more s bytes
          (length-take 16 (skip offset buf) (omega (arith, length-skip offset buf))) in
      (
        s',
        loop-enters fuel offset s (omega arith)
            ∙ ap
                (λ (o : Outcome (List ℕ)). o >>= (λ bytes.
                  go_on transfer (loop fuel (offset + 16))
                    (send transfer (write_data_message device.index feature bytes) s)))
                (copy_from-done buf offset 16 (omega arith))
            ∙ ap (go_on transfer (loop fuel (offset + 16))) sent,
        more ∙ ap (λ l. l ++ bytes) holds ∙ sym (take-add buf offset 16 (omega arith)),
      )

  loop-pending :
      (fuel offset : ℕ) (s : S)
      → size - offset < fuel
      → offset ≤ size
      → offset % 16 ≡ 0
      → pending s ≡ take offset buf
      → (s' : S) × (loop fuel offset s ≡ done (s', 0)) × (pending s' ≡ buf)
  loop-pending zero offset s enough inside h holds = absurd (omega arith)
  loop-pending (suc fuel) offset s enough inside h holds = elim (dec_lt offset size) [
    | no over ↦ (
      s,
      loop-end (suc fuel) offset s (omega arith) (omega arith),
      holds ∙ take_all buf offset (omega arith),
    )
    | yes more ↦
        let (s1, piece, holds1) = loop-piece fuel offset s (omega arith) holds in
        let (s2, rest, holds2) =
          loop-pending fuel (offset + 16) s1 (omega arith) (omega arith) (omega arith) holds1 in
        (s2, piece ∙ rest, holds2)
  ]

  pub write_messages-memory :
      (s : S)
      → (s' : S) × (write_messages transfer device feature sector size buf s ≡ done (s', 0))
        × (memory s' ≡ buf)
  unfolding write_messages loop go_on
  write_messages-memory s =
      let (s1, start, empty) = takes.begun s in
      let (s2, pieces, full) =
        loop-pending (size + 1) 0 s1 (omega arith) (omega arith) (omega arith) empty in
      let (s3, finish, holds) = takes.ended s2 (omega (arith, ap length full)) in
      (s3, rw (start, pieces, finish), holds ∙ full)
