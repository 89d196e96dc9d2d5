-- ===== src/Onboard/Writing.antt =====
-- src/hidpp20.c, hidpp20_onboard_profiles_write_sector: the checksum that is put in.
pub mod Loop
use libratbag.Base.{
  ℕ, zero, suc, ◌+◌, ◌-◌, ◌*◌, ◌/◌, ◌%◌, ◌^◌, ◌≤◌, ◌<◌, Bool, true, false, Option, List, [], ◌∷◌,
  ◌++◌, ◌==◌, length, get_elem?, get_or, take, ◌≡◌, refl, sym, ap, ◌∙◌, ◌≢◌, inl, arith, Outcome,
  done, aborted, ◌>>=◌, if◌then◌else◌, All,
}
use native.Mathlib.Decide.{dec_lt}
use mathlib.Core.Path.{subst}
use libratbag.Hidpp.{get_be_u16, set_be_u16, hidpp_crc_ccitt}
use libratbag.Hidpp.Words.{length-set_be_u16, get_be_u16-set_be_u16}
use libratbag.Hidpp.Crc.{hidpp_crc_ccitt-lt}
use libratbag.Hidpp20.{Message, Read, HidppDevice, root_get_feature_idx}
use libratbag.Onboard.{
  skip, put, copy_to, copy_from, page_onboard_profiles, is_sector_valid, write_start_message,
  write_data_message, write_end_message, with_crc, send, go_on, write_loop, write_messages,
  write_sector,
}
use libratbag.Onboard.Bytes.{
  length-skip, length-take, length-put, get_elem?-put_out, copy_to-done, copy_from-done, take-put,
  take-skip-put, take-add, take_all,
}

All-take : (P : ℕ → Type 0) (n : ℕ) (l : List ℕ) → All P l → All P (take n l)
All-take P zero l h = tt
All-take P (suc n) [] h = tt
All-take P (suc n) (x ∷ l) (p, h) = (p, All-take P n l h)

-- The sector with its checksum.
abbrev pub summed : ℕ → List ℕ → List ℕ
summed size buf = put buf (size - 2) (set_be_u16 (hidpp_crc_ccitt (take (size - 2) buf)))

module _ (size : ℕ) (buf : List ℕ) (large : 2 ≤ size) (room : length buf ≡ size) where
  pub with_crc-summed : with_crc size buf true ≡ done (summed size buf)
  unfolding with_crc
  with_crc-summed =
      ap
        (λ (o : Outcome (List ℕ)).
          o >>= (λ bytes. copy_to buf (size - 2) (set_be_u16 (hidpp_crc_ccitt bytes))))
        (copy_from-done buf 0 (size - 2) (omega arith))
      ∙ copy_to-done buf (size - 2) (set_be_u16 (hidpp_crc_ccitt (take (size - 2) buf)))
          (omega (arith, length-set_be_u16 (hidpp_crc_ccitt (take (size - 2) buf))))

  pub length-summed : length (summed size buf) ≡ size
  length-summed = length-put buf (size - 2) _ ∙ room

  take-summed : take (size - 2) (skip 0 (summed size buf)) ≡ take (size - 2) buf
  take-summed = take-put buf (size - 2) _

  crc_at_end :
      take 2 (skip (size - 2) (summed size buf))
      ≡ set_be_u16 (hidpp_crc_ccitt (take (size - 2) buf))
  crc_at_end =
      let word = set_be_u16 (hidpp_crc_ccitt (take (size - 2) buf)) in
      let two : length word ≡ 2 = length-set_be_u16 (hidpp_crc_ccitt (take (size - 2) buf)) in
      ap (λ (n : ℕ). take n (skip (size - 2) (summed size buf))) (sym two)
      ∙ take-skip-put buf (size - 2) word (omega (arith, two))

  pub is_sector_valid-summed :
      All (λ b. b < 2 ^ 8) buf → is_sector_valid size (summed size buf) ≡ done true
  unfolding is_sector_valid
  is_sector_valid-summed small =
      ap
        (λ (o : Outcome (List ℕ)). o >>= (λ bytes.
          copy_from (summed size buf) (size - 2) 2 >>= (λ read.
            done (hidpp_crc_ccitt bytes == get_be_u16 (get_or read 0 0) (get_or read 1 0)))))
        (copy_from-done (summed size buf) 0 (size - 2) (omega (arith, length-summed)))
      ∙ ap
          (λ (o : Outcome (List ℕ)). o >>= (λ read. done (
            hidpp_crc_ccitt (take (size - 2) (skip 0 (summed size buf)))
            == get_be_u16 (get_or read 0 0) (get_or read 1 0))))
          (copy_from-done (summed size buf) (size - 2) 2 (omega (arith, length-summed)))
      ∙ ap
          (λ (read : List ℕ). done (
            hidpp_crc_ccitt (take (size - 2) (skip 0 (summed size buf)))
            == get_be_u16 (get_or read 0 0) (get_or read 1 0)))
          crc_at_end
      ∙ ap
          (λ (bytes : List ℕ). done (
            hidpp_crc_ccitt bytes
            == get_be_u16 (get_or (set_be_u16 crc) 0 0) (get_or (set_be_u16 crc) 1 0)))
          take-summed
      ∙ ap (λ (n : ℕ). done (crc == n))
          (get_be_u16-set_be_u16 crc (
            hidpp_crc_ccitt-lt (take (size - 2) buf)
              (All-take (λ b. b < 2 ^ 8) (size - 2) buf small)))
      ∙ ap done same
    where
      crc : ℕ
      crc = hidpp_crc_ccitt (take (size - 2) buf)

      same : (crc == crc) ≡ true
      same = ground arith
