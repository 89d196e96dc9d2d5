-- ===== src/Onboard/RoundTrip.antt =====
-- src/hidpp20.c: a sector that is written with its checksum, and read again.
use libratbag.Base.{
  ℕ, zero, suc, ◌-◌, ◌%◌, ◌^◌, ◌≤◌, ◌<◌, true, List, [], ◌∷◌, ◌==◌, length, get_elem?, take, ◌≡◌,
  refl, sym, ap, ◌∙◌, ◌≢◌, arith, done, All, false, none,
}
use native.Mathlib.Decide.{dec_lt}
use libratbag.Hidpp20.{Message, Read, HidppDevice, root_get_feature_idx}
use libratbag.Hidpp.{set_be_u16, hidpp_crc_ccitt}
use libratbag.Onboard.{page_onboard_profiles, is_sector_valid, read_sector, write_sector}
use libratbag.Onboard.Bytes.{List-ext, take-put}
use libratbag.Onboard.Reading.{Filled, reached}
use libratbag.Onboard.Reading.Loop.{Serves, read_sector-Filled}
use libratbag.Onboard.Writing.{summed, with_crc-summed, length-summed, is_sector_valid-summed}
use libratbag.Onboard.Writing.Loop.{Takes, write_messages-memory}

get_elem?-past : (l : List ℕ) (i : ℕ) → length l ≤ i → get_elem? l i ≡ none
get_elem?-past [] i h = refl
get_elem?-past (x ∷ l) zero h = absurd (omega arith)
get_elem?-past (x ∷ l) (suc i) h = get_elem?-past l i (omega arith)

-- A buffer that is filled up to its end.
Filled-all :
    (bytes before buf : List ℕ) (n : ℕ)
    → length bytes ≡ n
    → length before ≡ n
    → Filled bytes before n buf
    → buf ≡ bytes
Filled-all bytes before buf n hb hf filled = List-ext buf bytes (λ i. elim (dec_lt i n) [
  | yes small ↦ filled.read i small
  | no large ↦
      get_elem?-past buf i (omega (arith, filled.size, hf))
      ∙ sym (get_elem?-past bytes i (omega (arith, hb)))
])

module _ {S : Type 0} (transfer : Message → S → S × (ℕ × List Read)) (device : HidppDevice)
    (sector size : ℕ) (memory pending : S → List ℕ)
    (supported : root_get_feature_idx device page_onboard_profiles ≢ 0) where
  write_sector-memory :
      (s : S) (buf : List ℕ)
      → Takes transfer device sector size memory pending
      → 2 ≤ size
      → size % 16 ≡ 0
      → length buf ≡ size
      → (s' : S) × (write_sector transfer device sector size s buf true
          ≡ done (s', (0, summed size buf)))
        × (memory s' ≡ summed size buf)
  unfolding write_sector
  write_sector-memory s buf takes large whole room =
      let there : (root_get_feature_idx device page_onboard_profiles == 0) ≡ false = ground arith in
      let (s', writes, holds) =
        write_messages-memory transfer device sector size memory pending takes (summed size buf)
          whole (length-summed size buf large room) s in
      (s', rw (there, with_crc-summed size buf large room, writes), holds)

  pub summed-RoundTrip :
      (s : S) (buf before : List ℕ)
      → Takes transfer device sector size memory pending
      → Serves transfer device sector size memory
      → 16 ≤ size
      → size < 2 ^ 16
      → size % 16 ≡ 0
      → length buf ≡ size
      → length before ≡ size
      → (s1 : S) × (s2 : S) × (write_sector transfer device sector size s buf true
          ≡ done (s1, (0, summed size buf)))
        × (read_sector transfer device sector size s1 before ≡ done (s2, (0, summed size buf)))
  summed-RoundTrip s buf before takes serves large word whole room space =
      let (s1, writes, holds) = write_sector-memory s buf takes (omega arith) whole room in
      let (s2, read, reads, kept, filled) =
        read_sector-Filled transfer device sector size memory s1 before supported serves large word
          space in
      let all : reached size ≡ size = ground arith in
      let same : read ≡ summed size buf =
        Filled-all (memory s1) before read (reached size) (serves.room s1 ∙ sym all)
          (space ∙ sym all) filled
        ∙ holds in
      (s1, s2, writes, reads ∙ ap (λ (l : List ℕ). done (s2, (0, l))) same)

  -- A sector that has whole pieces only is written with its checksum without an error, and what is
  -- then read, into any buffer of its size, is what was written: it is valid, and its bytes but for
  -- the last two, the checksum, are those that were to be written.
  pub write_sector-read_sector :
      (s : S) (buf before : List ℕ)
      → Takes transfer device sector size memory pending
      → Serves transfer device sector size memory
      → 16 ≤ size
      → size < 2 ^ 16
      → size % 16 ≡ 0
      → length buf ≡ size
      → length before ≡ size
      → All (λ b. b < 2 ^ 8) buf
      → (s1 : S) × (s2 : S) × (written : List ℕ) × (write_sector transfer device sector size s buf
            true
          ≡ done (s1, (0, written)))
        × (read_sector transfer device sector size s1 before ≡ done (s2, (0, written)))
        × (is_sector_valid size written ≡ done true)
        × (take (size - 2) written ≡ take (size - 2) buf)
  write_sector-read_sector s buf before takes serves large word whole room space small =
      let (s1, s2, writes, reads) =
        summed-RoundTrip s buf before takes serves large word whole room space in
      (
        s1,
        s2,
        summed size buf,
        writes,
        reads,
        is_sector_valid-summed size buf (omega arith) room small,
        take-put buf (size - 2) (set_be_u16 (hidpp_crc_ccitt (take (size - 2) buf))),
      )
