-- ===== src/Onboard/Reading/Loop.antt =====
-- src/hidpp20.c, hidpp20_onboard_profiles_read_sector: the loop over the pieces, for a device that
-- serves its memory in pieces of 16 bytes.
use mathlib.Core.Path.{subst}
use native.Mathlib.Decide.{dec_lt}
use libratbag.Base.{
  ℕ, zero, suc, ◌+◌, ◌-◌, ◌%◌, ◌^◌, ◌≤◌, ◌<◌, min, max, false, List, ◌==◌, length, take, ◌≡◌, refl,
  sym, ap, ◌∙◌, ◌≢◌, arith, Outcome, done,
}
use libratbag.Hidpp20.{Message, Read, answered, HidppDevice, request_command, root_get_feature_idx}
use libratbag.Onboard.{
  skip, put, page_onboard_profiles, read_message, read_from, read_loop, read_sector,
}
use libratbag.Onboard.Reading.{
  Filled, reached, piece, length-piece, Filled-put, read_loop-end, read_loop-round,
}

-- A device that answers a read of 16 bytes within the sector with these bytes of its memory, which
-- the read leaves as they are.
pub record Serves {S : Type 0} (transfer : Message → S → S × (ℕ × List Read)) (device : HidppDevice)
    (sector size : ℕ) (memory : S → List ℕ) : Type 0 where
  pub room : (s : S) → length (memory s) ≡ size
  pub answers :
      (s : S) (offset : ℕ)
      → offset + 16 ≤ size
      → (s' : S) × (read : Message) × (request_command transfer
            (read_message device.index
              (root_get_feature_idx device page_onboard_profiles)
              sector
              offset)
            s
          ≡ (s', answered read))
        × (read.parameters ≡ take 16 (skip offset (memory s)))
        × (memory s' ≡ memory s)

module _ {S : Type 0} (transfer : Message → S → S × (ℕ × List Read)) (device : HidppDevice)
    (sector size : ℕ) (memory : S → List ℕ) (serves : Serves transfer device sector size memory)
    (bytes before : List ℕ) (large : 16 ≤ size) (word : size < 2 ^ 16)
    (length_bytes : length bytes ≡ size) (length_before : length before ≡ size) where
  feature : ℕ
  feature = root_get_feature_idx device page_onboard_profiles

  loop : ℕ → ℕ → ℕ → S → List ℕ → Outcome (S × (ℕ × List ℕ))
  loop fuel = read_loop transfer fuel device feature sector size

  -- A round that copies `min count 16` bytes.
  loop-piece :
      (fuel offset from count m : ℕ) (s : S) (buf : List ℕ)
      → offset < size
      → read_from size offset ≡ from
      → from + 16 ≤ size
      → from ≤ m
      → memory s ≡ bytes
      → Filled bytes before m buf
      → (s' : S) × (buf' : List ℕ) × (loop (suc fuel) offset count s buf
          ≡ loop fuel ((from + 16) % 2 ^ 16) (count - 16) s' buf')
        × (memory s' ≡ bytes)
        × Filled bytes before (max m (from + min count 16)) buf'
  unfolding loop feature piece
  loop-piece fuel offset from count m s buf h at room near holds filled =
      let (s', read, answers, parameters, kept) = serves.answers s from room in
      let same : take (min count 16) read.parameters ≡ piece bytes from (min count 16) =
        ap (take (min count 16)) (parameters ∙ ap (λ l. take 16 (skip from l)) holds) in
      let short = length-piece bytes from (min count 16) (omega arith) (omega arith) in
      (
        s',
        put buf from (piece bytes from (min count 16)),
        read_loop-round transfer device feature sector size fuel offset count from s s' buf read h
              at answers
              (omega (arith, filled.size, length_bytes, length_before, ap length same, short))
            ∙ ap (λ l. loop fuel ((from + 16) % 2 ^ 16) (count - 16) s' (put buf from l)) same,
        kept ∙ holds,
        Filled-put bytes before from (min count 16) m buf (length_bytes ∙ sym length_before)
            (omega arith) (omega arith) near filled,
      )

  -- The state at the end of the loop.
  Ends : ℕ → ℕ → S → List ℕ → Type 0
  Ends fuel offset s buf =
      (s' : S) × (buf' : List ℕ) × (loop fuel offset (size - offset) s buf ≡ done (s', (0, buf')))
      × (memory s' ≡ bytes)
      × Filled bytes before (reached size) buf'

  -- The last piece, if it is no whole one.
  loop-last :
      (fuel offset : ℕ) (s : S) (buf : List ℕ)
      → 0 < fuel
      → offset < size
      → size - offset < 16
      → offset % 16 ≡ 0
      → memory s ≡ bytes
      → Filled bytes before offset buf
      → Ends (suc fuel) offset s buf
  unfolding loop read_from Ends
  loop-last fuel offset s buf more h last whole holds filled =
      let at : read_from size offset ≡ size - 16 = ground arith in
      let (s', buf', round, holds', filled') =
        loop-piece fuel offset (size - 16) (size - offset) offset s buf h at (omega arith)
          (omega arith) holds filled in
      let at_end : max offset (size - 16 + min (size - offset) 16) ≡ reached size = ground arith in
      (
        s',
        buf',
        round
            ∙ read_loop-end transfer device feature sector size fuel ((size - 16 + 16) % 2 ^ 16)
                (size - offset - 16) s' buf' more (omega arith),
        holds',
        subst (λ n. Filled bytes before n buf') at_end filled',
      )

  loop-whole :
      (fuel offset : ℕ) (s : S) (buf : List ℕ)
      → offset + 16 ≤ size
      → memory s ≡ bytes
      → Filled bytes before offset buf
      → (s' : S) × (buf' : List ℕ) × (loop (suc fuel) offset (size - offset) s buf
          ≡ loop fuel (offset + 16) (size - (offset + 16)) s' buf')
        × (memory s' ≡ bytes)
        × Filled bytes before (offset + 16) buf'
  unfolding loop read_from
  loop-whole fuel offset s buf room holds filled =
      let at : read_from size offset ≡ offset = ground arith in
      let (s', buf', round, holds', filled') =
        loop-piece fuel offset offset (size - offset) offset s buf (omega arith) at room
          (omega arith) holds filled in
      let on : max offset (offset + min (size - offset) 16) ≡ offset + 16 = omega arith in
      let next : (offset + 16) % 2 ^ 16 ≡ offset + 16 = omega arith in
      let left : size - offset - 16 ≡ size - (offset + 16) = omega arith in
      (
        s',
        buf',
        round
            ∙ ap (λ n. loop fuel n (size - offset - 16) s' buf') next
            ∙ ap (λ n. loop fuel (offset + 16) n s' buf') left,
        holds',
        subst (λ n. Filled bytes before n buf') on filled',
      )

  -- The loop from a piece on.
  loop-Ends :
      (fuel offset : ℕ) (s : S) (buf : List ℕ)
      → size - offset < fuel
      → offset ≤ size
      → offset % 16 ≡ 0
      → memory s ≡ bytes
      → Filled bytes before offset buf
      → Ends fuel offset s buf
  unfolding loop Ends
  loop-Ends zero offset s buf enough inside whole holds filled = absurd (omega arith)
  loop-Ends (suc fuel) offset s buf enough inside whole holds filled = elim (dec_lt offset size) [
    | no over ↦
        let at_end : offset ≡ reached size = ground arith in
        (
          s,
          buf,
          read_loop-end transfer device feature sector size (suc fuel) offset (size - offset) s buf
              (omega arith) (omega arith),
          holds,
          subst (λ n. Filled bytes before n buf) at_end filled,
        )
    | yes h ↦ elim (dec_lt (size - offset) 16) [
      | yes last ↦ loop-last fuel offset s buf (omega arith) h last whole holds filled
      | no more ↦
          let (s1, buf1, round, holds1, filled1) =
            loop-whole fuel offset s buf (omega arith) holds filled in
          let (s2, buf2, rest, holds2, filled2) =
            loop-Ends fuel (offset + 16) s1 buf1 (omega arith) (omega arith) (omega arith) holds1
              filled1 in
          (s2, buf2, round ∙ rest, holds2, filled2)
    ]
  ]

-- Reading a sector of at least 16 bytes from a device that serves it ends without an error and
-- leaves its memory as it is. The buffer then holds the sector's bytes up to `reached size`, so all
-- of them if the size is a multiple of 16; the bytes from there on are still those of before.
pub read_sector-Filled :
    {S : Type 0} (transfer : Message → S → S × (ℕ × List Read)) (device : HidppDevice)
    (sector size : ℕ) (memory : S → List ℕ) (s : S) (buf : List ℕ)
    → root_get_feature_idx device page_onboard_profiles ≢ 0
    → Serves transfer device sector size memory
    → 16 ≤ size
    → size < 2 ^ 16
    → length buf ≡ size
    → (s' : S) × (buf' : List ℕ) × (read_sector transfer device sector size s buf
        ≡ done (s', (0, buf')))
      × (memory s' ≡ memory s)
      × Filled (memory s) buf (reached size) buf'
unfolding read_sector loop feature Ends
read_sector-Filled transfer device sector size memory s buf supported serves large word room =
    let there : (root_get_feature_idx device page_onboard_profiles == 0) ≡ false = ground arith in
    let (s', buf', reads, holds, filled) =
      loop-Ends transfer device sector size memory serves (memory s) buf large word (serves.room s)
        room (size + 1) 0 s buf (omega arith) (omega arith) (omega arith) refl
        (record { size = refl; read = λ i h. absurd (omega (arith, h)); kept = λ i h. refl }) in
    let all : size ≡ size - 0 = omega arith in
    (
      s',
      buf',
      rw there (
          ap
            (λ n.
              read_loop transfer (size + 1) device
                (root_get_feature_idx device page_onboard_profiles) sector size 0 n s buf)
            all
          ∙ reads),
      holds,
      filled,
    )
