-- ===== src/Onboard/Profile/Cut.antt =====
-- A piece cut out of a buffer is not touched by what is put elsewhere.
use libratbag.Base.{
  ℕ, zero, suc, ◌+◌, ◌≤◌, List, [], ◌∷◌, length, take, replicate, ◌≡◌, refl, ap, ◌∙◌, ◌⊎◌, arith,
}
use libratbag.Onboard.{skip, put}
use libratbag.Onboard.Bytes.{take-skip-put}

abbrev pub cut : List ℕ → ℕ → ℕ → List ℕ
cut buf at n = take n (skip at buf)

pub cut-put_out :
    (buf : List ℕ) (at : ℕ) (bytes : List ℕ) (from n : ℕ)
    → (from + n ≤ at) ⊎ (at + length bytes ≤ from)
    → cut (put buf at bytes) from n ≡ cut buf from n
cut-put_out [] at bytes from n h = refl
cut-put_out (x ∷ buf) (suc at) bytes (suc from) n h = cut-put_out buf at bytes from n (ground arith)
cut-put_out (x ∷ buf) (suc at) bytes zero zero h = refl
cut-put_out (x ∷ buf) (suc at) bytes zero (suc n) h =
    ap (◌∷◌ x) (cut-put_out buf at bytes zero n (ground arith))
cut-put_out (x ∷ buf) zero [] from n h = refl
cut-put_out (x ∷ buf) zero (b ∷ bytes) (suc from) n h =
    cut-put_out buf zero bytes from n (ground arith)
cut-put_out (x ∷ buf) zero (b ∷ bytes) zero zero h = refl
cut-put_out (x ∷ buf) zero (b ∷ bytes) zero (suc n) h = absurd (ground arith)

pub cut-put_in :
    (buf : List ℕ) (at : ℕ) (bytes : List ℕ) (n : ℕ)
    → n ≡ length bytes
    → at + n ≤ length buf
    → cut (put buf at bytes) at n ≡ bytes
cut-put_in buf at bytes n same room =
    ap (λ (k : ℕ). cut (put buf at bytes) at k) same
    ∙ take-skip-put buf at bytes (omega (arith, same))

pub cut-replicate :
    (size from n x : ℕ) → from + n ≤ size → cut (replicate size x) from n ≡ replicate n x
cut-replicate size zero zero x h = refl
cut-replicate zero zero (suc n) x h = absurd (omega arith)
cut-replicate (suc size) zero (suc n) x h = ap (◌∷◌ x) (cut-replicate size zero n x (omega arith))
cut-replicate zero (suc from) n x h = absurd (omega arith)
cut-replicate (suc size) (suc from) n x h = cut-replicate size from n x (omega arith)
