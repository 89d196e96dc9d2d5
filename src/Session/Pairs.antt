-- ===== src/Session/Pairs.antt =====
-- Two lists of objects, place by place, before and behind a call.
use mathlib.Core.Option
use libratbag.Base.{
  ℕ, zero, suc, Option, some, none, List, [], ◌∷◌, map, modify, set, get_elem?, ◌≡◌, arith,
}

-- The lists have one length, and the objects at each place are related.
abbrev pub Pairs {ℓ} : {A : Type ℓ} → (A → A → Type 0) → List A → List A → Type 0
Pairs R [] [] = Unit {0}
Pairs R [] (y ∷ ys) = ⊥
Pairs R (x ∷ xs) [] = ⊥
Pairs R (x ∷ xs) (y ∷ ys) = R x y × Pairs R xs ys

module _ {ℓ} {A : Type ℓ} (R : A → A → Type 0) where
  pub Pairs-trans :
      ((x y z : A) → R x y → R y z → R x z)
      → (xs ys zs : List A) → Pairs R xs ys
      → Pairs R ys zs
      → Pairs R xs zs
  Pairs-trans t [] [] zs h k = k
  Pairs-trans t [] (y ∷ ys) zs h k = absurd h
  Pairs-trans t (x ∷ xs) [] zs h k = absurd h
  Pairs-trans t (x ∷ xs) (y ∷ ys) [] h k = absurd k
  Pairs-trans t (x ∷ xs) (y ∷ ys) (z ∷ zs) h k = (t x y z h.0 k.0, Pairs-trans t xs ys zs h.1 k.1)

  pub Pairs-map : (f : A → A) → ((x : A) → R x (f x)) → (l : List A) → Pairs R l (map f l)
  Pairs-map f h [] = tt
  Pairs-map f h (x ∷ l) = (h x, Pairs-map f h l)

  pub Pairs-get :
      (xs ys : List A) (i : ℕ) (x y : A)
      → Pairs R xs ys
      → get_elem? xs i ≡ some x
      → get_elem? ys i ≡ some y
      → (x' : A) × (y' : A) × (x' ≡ x) × (y' ≡ y) × R x' y'
  Pairs-get [] ys i x y h a b = cc
  Pairs-get (x' ∷ xs) [] i x y h a b = absurd h
  Pairs-get (x' ∷ xs) (y' ∷ ys) zero x y h a b = (x', y', ground arith, ground arith, h.0)
  Pairs-get (x' ∷ xs) (y' ∷ ys) (suc i) x y h a b = Pairs-get xs ys i x y h.1 a b

  module _ (same : (x : A) → R x x) where
    pub Pairs-refl : (l : List A) → Pairs R l l
    Pairs-refl [] = tt
    Pairs-refl (x ∷ l) = (same x, Pairs-refl l)

    pub Pairs-modify :
        (f : A → A) → ((x : A) → R x (f x)) → (l : List A) (i : ℕ) → Pairs R l (modify l i f)
    Pairs-modify f h [] i = tt
    Pairs-modify f h (x ∷ l) zero = (h x, Pairs-refl l)
    Pairs-modify f h (x ∷ l) (suc i) = (same x, Pairs-modify f h l i)

    pub Pairs-set :
        (l : List A) (i : ℕ) (x y : A)
        → get_elem? l i ≡ some x
        → ((x' : A) → x' ≡ x → R x' y)
        → Pairs R l (set l i y)
    Pairs-set [] i x y a h = tt
    Pairs-set (x' ∷ l) zero x y a h = (h x' (ground arith), Pairs-refl l)
    Pairs-set (x' ∷ l) (suc i) x y a h = (same x', Pairs-set l i x y a h)

-- The same of two objects that may be there.
abbrev pub MaybePair {ℓ} : {A : Type ℓ} → (A → A → Type 0) → Option A → Option A → Type 0
MaybePair R none none = Unit {0}
MaybePair R none (some y) = ⊥
MaybePair R (some x) none = ⊥
MaybePair R (some x) (some y) = R x y

module _ {ℓ} {A : Type ℓ} (R : A → A → Type 0) where
  pub Pairs-pointwise :
      (xs ys : List A) → ((j : ℕ) → MaybePair R (get_elem? xs j) (get_elem? ys j)) → Pairs R xs ys
  Pairs-pointwise [] [] h = tt
  Pairs-pointwise [] (y ∷ ys) h = h 0
  Pairs-pointwise (x ∷ xs) [] h = h 0
  Pairs-pointwise (x ∷ xs) (y ∷ ys) h = (h 0, Pairs-pointwise xs ys (λ j. h (suc j)))

  pub MaybePair-map :
      (f : A → A) → ((x : A) → R x (f x)) → (o : Option A) → MaybePair R o (Option.map f o)
  MaybePair-map f h none = tt
  MaybePair-map f h (some x) = h x

  pub MaybePair-refl : ((x : A) → R x x) → (o : Option A) → MaybePair R o o
  MaybePair-refl h none = tt
  MaybePair-refl h (some x) = h x
