-- ===== src/Onboard/Dictionary/RoundTrip.antt =====
-- The dictionary that is written is read again.
use libratbag.Base.{
  ℕ, zero, suc, ◌+◌, ◌*◌, ◌-◌, ◌%◌, ◌^◌, ◌≤◌, true, false, ◌&&◌, List, [], ◌∷◌, ◌++◌, ◌==◌,
  if◌then◌else◌, length, get_or, map, replicate, take, ◌≡◌, refl, ap, ◌∙◌, inl, inr, arith, Outcome,
  done, ◌>>=◌, length-replicate, Bool-cases,
}
use libratbag.Hidpp.{get_be_u16}
use libratbag.Onboard.{skip, put}
use libratbag.Onboard.Bytes.{copy_to-done, copy_from-done, length-put}
use libratbag.Onboard.Writing.{summed, length-summed}
use libratbag.Onboard.Profile.{OnboardProfile}
use libratbag.Onboard.Profile.Cut.{cut, cut-put_out, cut-put_in}
use libratbag.Onboard.Dictionary.{dict_entries, dict_to_bytes, read_dict, cleared}

-- What the dictionary says of the profiles, from profile `i` on.
abbrev pub listed : ℕ → List OnboardProfile → List OnboardProfile
listed i [] = []
listed i (p ∷ ps) =
    record p { address = i + 1; enabled = if p.enabled == 0 then 0 else 1 } ∷ listed (i + 1) ps

length-dict_entries :
    (i : ℕ) (ps : List OnboardProfile) → length (dict_entries i ps) ≡ 4 * length ps + 4
unfolding dict_entries
length-dict_entries i [] = refl
length-dict_entries i (p ∷ ps) = omega (arith, length-dict_entries (i + 1) ps)

skip-add : (n m : ℕ) (l : List ℕ) → skip (n + m) l ≡ skip m (skip n l)
skip-add zero m l = let same : 0 + m ≡ m = omega arith in ap (λ (k : ℕ). skip k l) same
skip-add (suc n) zero [] =
    let some_more : suc n + 0 ≡ suc n = omega arith in ap (λ (k : ℕ). skip k []) some_more
skip-add (suc n) (suc m) [] =
    let some_more : suc n + suc m ≡ suc (n + suc m) = omega arith in
    ap (λ (k : ℕ). skip k []) some_more
skip-add (suc n) m (x ∷ l) =
    let shift : suc n + m ≡ suc (n + m) = omega arith in
    ap (λ (k : ℕ). skip k (x ∷ l)) shift ∙ skip-add n m l

take-skip-append : (n : ℕ) (l : List ℕ) → l ≡ take n l ++ skip n l
take-skip-append zero l = refl
take-skip-append (suc n) [] = refl
take-skip-append (suc n) (x ∷ l) = ap (◌∷◌ x) (take-skip-append n l)

abbrev flag : ℕ → ℕ
flag e = if e == 0 then 0 else 1

flag_kept : (e : ℕ) → flag (flag e) ≡ flag e
flag_kept e = elim (Bool-cases (e == 0)) [ inl h ↦ rw h | inr h ↦ rw h ]

-- The entries, from where they stand in the buffer.
read_dict-listed :
    (i : ℕ) (buf tail : List ℕ) (ps : List OnboardProfile)
    → i + length ps ≤ 255
    → 4 * (i + length ps) ≤ length buf
    → skip (4 * i) buf ≡ dict_entries i ps ++ tail
    → read_dict i buf (map cleared ps) ≡ done (listed i ps)
unfolding read_dict dict_entries get_be_u16
read_dict-listed i buf tail [] few room there = refl
read_dict-listed i buf tail (p ∷ ps) few room there =
    let next : 4 * (i + 1) ≡ 4 * i + 4 = omega arith in
    let behind : skip (4 * (i + 1)) buf ≡ dict_entries (i + 1) ps ++ tail =
      ap (λ (k : ℕ). skip k buf) next ∙ skip-add (4 * i) 4 buf ∙ ap (skip 4) there in
    let rest = read_dict-listed (i + 1) buf tail ps (omega arith) (omega arith) behind in
    let address : 0 * 256 + (i + 1) % 2 ^ 8 ≡ i + 1 = omega arith in
    ap
      (λ (o : Outcome (List ℕ)). o >>= (λ entry.
        elim ((get_or entry 0 0 == 0xFF) && (get_or entry 1 0 == 0xFF)) [
          | true ↦ done (cleared p ∷ map cleared ps)
          | false ↦ read_dict (i + 1) buf (map cleared ps) >>= (λ rest. done (
              record p {
                address = get_be_u16 (get_or entry 0 0) (get_or entry 1 0);
                enabled = if get_or entry 2 0 == 0 then 0 else 1;
              }
              ∷ rest))
        ]))
      (copy_from-done buf (4 * i) 3 (omega arith) ∙ ap (λ (l : List ℕ). done (take 3 l)) there)
    ∙ ap
        (λ (o : Outcome (List OnboardProfile)). o >>= (λ rest. done (
          record p {
            address = 0 * 256 + (i + 1) % 2 ^ 8;
            enabled = if (if p.enabled == 0 then 0 else 1) == 0 then 0 else 1;
          }
          ∷ rest)))
        rest
    ∙ ap
        (λ (a : ℕ). done (
          record p {
            address = a;
            enabled = if (if p.enabled == 0 then 0 else 1) == 0 then 0 else 1;
          }
          ∷ listed (i + 1) ps))
        address
    ∙ ap (λ (e : ℕ). done (record p { address = i + 1; enabled = e } ∷ listed (i + 1) ps))
        (flag_kept p.enabled)

-- The dictionary of at most 255 profiles is written to a sector that has room for it and a checksum;
-- and read from the sector, it says of each profile that its address is its place from 1 on, and
-- whether it is enabled, and leaves the rest of it alone.
pub dict_to_bytes-read_dict :
    (size : ℕ) (ps : List OnboardProfile)
    → length ps ≤ 255
    → 4 * length ps + 6 ≤ size
    → (bytes : List ℕ) × (dict_to_bytes size ps ≡ done bytes)
      × (length bytes ≡ size)
      × (read_dict 0 (summed size bytes) (map cleared ps) ≡ done (listed 0 ps))
unfolding dict_to_bytes
dict_to_bytes-read_dict size ps few room =
    let entries = dict_entries 0 ps in
    let long = length-dict_entries 0 ps in
    let blank = length-replicate {A = ℕ} size 0xff in
    let bytes = put (replicate size 0xff) 0 entries in
    let length_bytes : length bytes ≡ size = length-put (replicate size 0xff) 0 entries ∙ blank in
    let cut_bytes : cut (summed size bytes) 0 (length entries) ≡ entries =
      cut-put_out bytes (size - 2) _ 0 (length entries) (inl (omega (arith, long)))
      ∙ cut-put_in (replicate size 0xff) 0 entries (length entries) refl
          (omega (arith, long, blank)) in
    (
      bytes,
      copy_to-done (replicate size 0xff) 0 entries (omega (arith, long, blank)),
      length_bytes,
      read_dict-listed 0 (summed size bytes) (skip (length entries) (summed size bytes)) ps
          (omega arith) (omega (arith, length-summed size bytes (omega arith) length_bytes))
          (take-skip-append (length entries) (summed size bytes)
            ∙ ap (λ (l : List ℕ). l ++ skip (length entries) (summed size bytes)) cut_bytes),
    )
