-- ===== src/Onboard/Bytes.antt =====
-- The bytes of a buffer, place by place: what is cut out of it, and what is put over it.
use libratbag.Base.{
  ℕ, zero, suc, ◌+◌, ◌-◌, ◌≤◌, ◌<◌, none, some, List, [], ◌∷◌, ◌++◌, length, get_elem?, take, ◌≡◌,
  refl, ap, ◌∙◌, ◌⊎◌, arith, done,
}
use libratbag.Onboard.{skip, put, copy_to, copy_from}

pub length-skip : (n : ℕ) (l : List ℕ) → length (skip n l) ≡ length l - n
length-skip zero l = omega arith
length-skip (suc n) [] = omega arith
length-skip (suc n) (x ∷ l) = omega (arith, length-skip n l)

pub length-take : (n : ℕ) (l : List ℕ) → n ≤ length l → length (take n l) ≡ n
length-take zero l h = refl
length-take (suc n) [] h = absurd (omega arith)
length-take (suc n) (x ∷ l) h = ap suc (length-take n l (omega arith))

pub length-put : (buf : List ℕ) (at : ℕ) (bytes : List ℕ) → length (put buf at bytes) ≡ length buf
length-put [] at bytes = refl
length-put (x ∷ buf) (suc at) bytes = ap suc (length-put buf at bytes)
length-put (x ∷ buf) zero [] = refl
length-put (x ∷ buf) zero (b ∷ bytes) = ap suc (length-put buf zero bytes)

pub get_elem?-skip : (n : ℕ) (l : List ℕ) (j : ℕ) → get_elem? (skip n l) j ≡ get_elem? l (n + j)
get_elem?-skip zero l j = let same : j ≡ 0 + j = omega arith in ap (get_elem? l) same
get_elem?-skip (suc n) [] j = refl
get_elem?-skip (suc n) (x ∷ l) j =
    let shift : suc (n + j) ≡ suc n + j = omega arith in
    get_elem?-skip n l j ∙ ap (get_elem? (x ∷ l)) shift

pub get_elem?-take : (n : ℕ) (l : List ℕ) (j : ℕ) → j < n → get_elem? (take n l) j ≡ get_elem? l j
get_elem?-take zero l j h = absurd (omega arith)
get_elem?-take (suc n) [] j h = refl
get_elem?-take (suc n) (x ∷ l) zero h = refl
get_elem?-take (suc n) (x ∷ l) (suc j) h = get_elem?-take n l j (omega arith)

pub get_elem?-put_in :
    (buf : List ℕ) (at : ℕ) (bytes : List ℕ) (j : ℕ)
    → j < length bytes
    → at + length bytes ≤ length buf
    → get_elem? (put buf at bytes) (at + j) ≡ get_elem? bytes j
get_elem?-put_in [] at bytes j h room = absurd (omega arith)
get_elem?-put_in (x ∷ buf) (suc at) bytes j h room =
    let shift : suc at + j ≡ suc (at + j) = omega arith in
    ap (get_elem? (x ∷ put buf at bytes)) shift ∙ get_elem?-put_in buf at bytes j h (omega arith)
get_elem?-put_in (x ∷ buf) zero [] j h room = absurd (omega arith)
get_elem?-put_in (x ∷ buf) zero (b ∷ bytes) zero h room = refl
get_elem?-put_in (x ∷ buf) zero (b ∷ bytes) (suc j) h room =
    let shift : 0 + suc j ≡ suc (0 + j) = omega arith in
    ap (get_elem? (b ∷ put buf zero bytes)) shift
    ∙ get_elem?-put_in buf zero bytes j (omega arith) (omega arith)

pub get_elem?-put_out :
    (buf : List ℕ) (at : ℕ) (bytes : List ℕ) (i : ℕ)
    → (i < at) ⊎ (at + length bytes ≤ i)
    → get_elem? (put buf at bytes) i ≡ get_elem? buf i
get_elem?-put_out [] at bytes i h = refl
get_elem?-put_out (x ∷ buf) (suc at) bytes zero h = refl
get_elem?-put_out (x ∷ buf) (suc at) bytes (suc i) h =
    get_elem?-put_out buf at bytes i (ground arith)
get_elem?-put_out (x ∷ buf) zero [] i h = refl
get_elem?-put_out (x ∷ buf) zero (b ∷ bytes) zero h = absurd (ground arith)
get_elem?-put_out (x ∷ buf) zero (b ∷ bytes) (suc i) h =
    get_elem?-put_out buf zero bytes i (ground arith)

pub copy_to-done :
    (buf : List ℕ) (at : ℕ) (bytes : List ℕ)
    → at + length bytes ≤ length buf
    → copy_to buf at bytes ≡ done (put buf at bytes)
unfolding copy_to
copy_to-done buf at bytes room = ground (arith, room)

pub copy_from-done :
    (buf : List ℕ) (at n : ℕ)
    → at + n ≤ length buf
    → copy_from buf at n ≡ done (take n (skip at buf))
unfolding copy_from
copy_from-done buf at n room = ground (arith, room)

-- Two lists that agree in every place.
pub List-ext : (k l : List ℕ) → ((i : ℕ) → get_elem? k i ≡ get_elem? l i) → k ≡ l
List-ext [] [] h = refl
List-ext [] (x ∷ l) h = let first : none ≡ some x = h 0 in cc
List-ext (x ∷ k) [] h = let first : some x ≡ none = h 0 in cc
List-ext (x ∷ k) (y ∷ l) h =
    let first : some x ≡ some y = h 0 in
    let same : x ≡ y = cc in
    let rest : k ≡ l = List-ext k l (λ i. h (suc i)) in ap (λ (z : ℕ). z ∷ k) same ∙ ap (◌∷◌ y) rest

pub take-put : (buf : List ℕ) (at : ℕ) (bytes : List ℕ) → take at (put buf at bytes) ≡ take at buf
take-put [] zero bytes = refl
take-put [] (suc at) bytes = refl
take-put (x ∷ buf) zero bytes = refl
take-put (x ∷ buf) (suc at) bytes = ap (◌∷◌ x) (take-put buf at bytes)

pub take-skip-put :
    (buf : List ℕ) (at : ℕ) (bytes : List ℕ)
    → at + length bytes ≤ length buf
    → take (length bytes) (skip at (put buf at bytes)) ≡ bytes
take-skip-put [] zero [] h = refl
take-skip-put [] (suc at) [] h = refl
take-skip-put [] at (b ∷ bytes) h = absurd (omega arith)
take-skip-put (x ∷ buf) (suc at) bytes h = take-skip-put buf at bytes (omega arith)
take-skip-put (x ∷ buf) zero [] h = refl
take-skip-put (x ∷ buf) zero (b ∷ bytes) h = ap (◌∷◌ b) (take-skip-put buf zero bytes (omega arith))

pub take-add :
    (l : List ℕ) (n m : ℕ) → n ≤ length l → take (n + m) l ≡ take n l ++ take m (skip n l)
take-add l zero m h = let same : 0 + m ≡ m = omega arith in ap (λ (k : ℕ). take k l) same
take-add [] (suc n) m h = absurd (omega arith)
take-add (x ∷ l) (suc n) m h =
    let shift : suc n + m ≡ suc (n + m) = omega arith in
    ap (λ (k : ℕ). take k (x ∷ l)) shift ∙ ap (◌∷◌ x) (take-add l n m (omega arith))

pub take_all : (l : List ℕ) (n : ℕ) → n ≡ length l → take n l ≡ l
take_all [] zero h = refl
take_all [] (suc n) h = refl
take_all (x ∷ l) zero h = absurd (omega arith)
take_all (x ∷ l) (suc n) h = ap (◌∷◌ x) (take_all l n (omega arith))
