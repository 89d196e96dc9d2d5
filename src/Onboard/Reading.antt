-- ===== src/Onboard/Reading.antt =====
-- src/hidpp20.c, hidpp20_onboard_profiles_read_sector: what the buffer holds after all the pieces
-- are read: one piece, and one round of the loop.
pub mod Loop
use mathlib.Core.Path.{subst}
use native.Mathlib.Decide.{dec_lt}
use libratbag.Base.{
  ℕ, zero, suc, ◌+◌, ◌-◌, ◌%◌, ◌^◌, ◌≤◌, ◌<◌, min, max, Bool, true, false, Option, none, some, List,
  ltb, ◌==◌, if◌then◌else◌, length, get_elem?, take, ◌≡◌, refl, sym, ap, ◌∙◌, ◌⊎◌, inl, inr, ◌≢◌,
  arith, Outcome, done, aborted, ◌>>=◌, Bool-cases,
}
use libratbag.Hidpp20.{
  Message, Read, Answer, answered, HidppDevice, request_command, root_get_feature_idx,
}
use libratbag.Onboard.{
  skip, put, copy_to, page_onboard_profiles, read_message, read_from, take_answer, read_loop,
  read_sector,
}
use libratbag.Onboard.Bytes.{
  length-skip, length-take, length-put, get_elem?-skip, get_elem?-take, get_elem?-put_in,
  get_elem?-put_out, copy_to-done,
}

-- The first so many bytes are those of `bytes`, the others those of `before`.
pub record Filled (bytes before : List ℕ) (n : ℕ) (buf : List ℕ) : Type 0 where
  pub size : length buf ≡ length before
  pub read : (i : ℕ) → i < n → get_elem? buf i ≡ get_elem? bytes i
  pub kept : (i : ℕ) → n ≤ i → get_elem? buf i ≡ get_elem? before i

-- Where the reading ends: with the sector if that has whole pieces only. Otherwise the last piece is
-- read from 16 bytes before the end, but only as many bytes of it are copied as were left.
abbrev pub reached : ℕ → ℕ
reached size = if size % 16 == 0 then size else max (size - size % 16) (size + size % 16 - 16)

-- A piece of at most 16 bytes.
unfoldable pub piece : List ℕ → ℕ → ℕ → List ℕ
piece bytes from c = take c (take 16 (skip from bytes))

pub length-piece :
    (bytes : List ℕ) (from c : ℕ)
    → c ≤ 16
    → from + 16 ≤ length bytes
    → length (piece bytes from c) ≡ c
unfolding piece
length-piece bytes from c small room =
    let there : length (take 16 (skip from bytes)) ≡ 16 =
      length-take 16 (skip from bytes) (omega (arith, length-skip from bytes)) in
    length-take c (take 16 (skip from bytes)) (omega arith)

get_elem?-piece :
    (bytes : List ℕ) (from c j : ℕ)
    → c ≤ 16
    → j < c
    → get_elem? (piece bytes from c) j ≡ get_elem? bytes (from + j)
unfolding piece
get_elem?-piece bytes from c j small h =
    get_elem?-take c (take 16 (skip from bytes)) j h
    ∙ get_elem?-take 16 (skip from bytes) j (omega arith)
    ∙ get_elem?-skip from bytes j

module _ (bytes before : List ℕ) (from c m : ℕ) (buf : List ℕ) (same : length bytes ≡ length before)
    (small : c ≤ 16) (room : from + 16 ≤ length bytes) (near : from ≤ m)
    (filled : Filled bytes before m buf) where
  put-piece_read :
      (i : ℕ)
      → i < max m (from + c)
      → get_elem? (put buf from (piece bytes from c)) i ≡ get_elem? bytes i
  put-piece_read i h =
      let n = length-piece bytes from c small room in
      elim (Bool-cases (ltb i from)) [
        | inl e ↦
            let lt : i < from = ground arith in
            get_elem?-put_out buf from (piece bytes from c) i (inl lt) ∙ filled.read i (omega arith)
        | inr e ↦
            let ge : from ≤ i = ground arith in
            elim (Bool-cases (ltb (i - from) c)) [
              | inl f ↦
                  let inside : i - from < c = ground arith in
                  let there : from + (i - from) ≡ i = omega arith in
                  subst (λ k. get_elem? (put buf from (piece bytes from c)) k ≡ get_elem? bytes k)
                    there
                    (get_elem?-put_in buf from (piece bytes from c) (i - from) (omega arith)
                        (omega (arith, filled.size))
                      ∙ get_elem?-piece bytes from c (i - from) small inside)
              | inr f ↦
                  let past : c ≤ i - from = ground arith in
                  get_elem?-put_out buf from (piece bytes from c) i (inr (omega arith))
                  ∙ filled.read i (omega arith)
            ]
      ]

  pub Filled-put : Filled bytes before (max m (from + c)) (put buf from (piece bytes from c))
  Filled-put = record {
    size = length-put buf from (piece bytes from c) ∙ filled.size;
    read = put-piece_read;
    kept = λ i h.
        get_elem?-put_out buf from (piece bytes from c) i
          (inr (omega (arith, h, length-piece bytes from c small room)))
        ∙ filled.kept i (omega (arith, h));
  }

-- One round of the loop, and its end.
module _ {S : Type 0} (transfer : Message → S → S × (ℕ × List Read)) (device : HidppDevice)
    (feature_index sector size : ℕ) where
  pub read_loop-end :
      (fuel offset count : ℕ) (s : S) (buf : List ℕ)
      → 0 < fuel
      → size ≤ offset
      → read_loop transfer fuel device feature_index sector size offset count s buf
        ≡ done (s, (0, buf))
  unfolding read_loop
  read_loop-end zero offset count s buf h over = absurd (omega arith)
  read_loop-end (suc fuel) offset count s buf h over = ground (arith, over)

  read_loop-enters :
      (fuel offset count : ℕ) (s : S) (buf : List ℕ)
      → offset < size
      → read_loop transfer (suc fuel) device feature_index sector size offset count s buf
        ≡ take_answer transfer
            (read_loop transfer fuel device feature_index sector size)
            (read_from size offset)
            count
            buf
            (request_command transfer
              (read_message device.index feature_index sector (read_from size offset))
              s)
  unfolding read_loop
  read_loop-enters fuel offset count s buf h = ground (arith, h)

  pub read_loop-round :
      (fuel offset count from : ℕ) (s s' : S) (buf : List ℕ) (read : Message)
      → offset < size
      → read_from size offset ≡ from
      → request_command transfer (read_message device.index feature_index sector from) s
        ≡ (s', answered read)
      → from + length (take (min count 16) read.parameters) ≤ length buf
      → read_loop transfer (suc fuel) device feature_index sector size offset count s buf
        ≡ read_loop transfer fuel device feature_index sector size
            ((from + 16) % 2 ^ 16)
            (count - 16)
            s'
            (put buf from (take (min count 16) read.parameters))
  unfolding take_answer
  read_loop-round fuel offset count from s s' buf read h at answers room =
      read_loop-enters fuel offset count s buf h
      ∙ ap
          (λ (f : ℕ).
            take_answer transfer next f count buf
              (request_command transfer (read_message device.index feature_index sector f) s))
          at
      ∙ ap (take_answer transfer next from count buf) answers
      ∙ ap (λ (o : Outcome (List ℕ)). o >>= next ((from + 16) % 2 ^ 16) (count - 16) s')
          (copy_to-done buf from (take (min count 16) read.parameters) room)
    where
      next : ℕ → ℕ → S → List ℕ → Outcome (S × (ℕ × List ℕ))
      next = read_loop transfer fuel device feature_index sector size
