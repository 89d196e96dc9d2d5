-- ===== src/Refs/Counted.antt =====
-- src/libratbag.c: the counts of a device stay at or above the references that hang on it, so
-- that nothing of it is referred to when it is destroyed, as `ratbag_device_destroy` says.
use mathlib.Core.Option
use libratbag.Base.{
  ℕ, zero, suc, ◌+◌, ◌≤◌, ◌<◌, ◌≡◌, refl, arith, Option, some, List, [], ◌∷◌, get_elem?, set,
  modify, Outcome, All, All-set,
}
use libratbag.Types.{Device, Profile}
use libratbag.Refs.{
  Part, part_resolution, part_button, part_led, device_ref, device_unref, profile_ref,
  profile_unref, part_ref, part_unref, put_profile, refcount_at, put_refcount,
}

abbrev pub sum_of {ℓ} : {A : Type ℓ} → (A → ℕ) → List A → ℕ
sum_of f [] = 0
sum_of f (x ∷ xs) = f x + sum_of f xs

pub sum_of-set {ℓ} :
    {A : Type ℓ} (f : A → ℕ) (l : List A) (i : ℕ) (x y : A)
    → get_elem? l i ≡ some x
    → sum_of f (set l i y) + f x ≡ sum_of f l + f y
sum_of-set f [] i x y h = cc
sum_of-set f (z ∷ l) zero x y h = omega (arith, same h)
  where
    same : some z ≡ some x → f z ≡ f x
    same h = ground arith
sum_of-set f (z ∷ l) (suc i) x y h = omega (arith, sum_of-set f l i x y h)

sum_of-modify {ℓ} :
    {A : Type ℓ} (f : A → ℕ) (l : List A) (i n m : ℕ) (g : A → A)
    → Option.map f (get_elem? l i) ≡ some n
    → ((x : A) → f (g x) ≡ m)
    → sum_of f (modify l i g) + n ≡ sum_of f l + m
sum_of-modify f [] i n m g h e = cc
sum_of-modify f (z ∷ l) zero n m g h e = omega (arith, e z, same h)
  where
    same : some (f z) ≡ some n → f z ≡ n
    same h = ground arith
sum_of-modify f (z ∷ l) (suc i) n m g h e = omega (arith, sum_of-modify f l i n m g h e)

sum_of-zero {ℓ} : {A : Type ℓ} (f : A → ℕ) (l : List A) → sum_of f l ≡ 0 → All (λ x. f x ≡ 0) l
sum_of-zero f [] h = tt
sum_of-zero f (x ∷ l) h = (omega arith, sum_of-zero f l (omega arith))

-- The references to the parts of a profile.
abbrev pub part_refs : Profile → ℕ
part_refs profile =
    sum_of (λ x. x.refcount) profile.resolutions
    + sum_of (λ x. x.refcount) profile.buttons
    + sum_of (λ x. x.refcount) profile.leds

abbrev pub profile_refs : Device → ℕ
profile_refs device = sum_of (λ p. p.refcount) device.profiles

abbrev pub PartsCounted : Profile → Type 0
PartsCounted profile = part_refs profile ≤ profile.refcount

pub record IsCounted (device : Device) : Type 0 where
  pub of_profiles : profile_refs device ≤ device.refcount
  pub of_parts : All PartsCounted device.profiles

-- What a reference refers to.
pub data Handle : Type 0 where
  to_device : Handle
  to_profile : ℕ → Handle
  to_part : Part → ℕ → ℕ → Handle

abbrev pub ref : Handle → Device → Outcome Device
ref to_device device = device_ref device
ref (to_profile p) device = profile_ref device p
ref (to_part part p i) device = part_ref part device p i

abbrev pub unref : Handle → Device → Outcome (Option Device)
unref to_device device = device_unref device
unref (to_profile p) device = profile_unref device p
unref (to_part part p i) device = part_unref part device p i

-- The caller drops a reference that is its own, not one that the library holds for a part.
abbrev pub Owned : Handle → Device → Type 0
Owned to_device device = profile_refs device < device.refcount
Owned (to_profile p) device =
    (profile : Profile) × (get_elem? device.profiles p ≡ some profile)
    × (part_refs profile < profile.refcount)
Owned (to_part part p i) device = Unit {0}

pub part_refs-put :
    (part : Part) (profile : Profile) (i n m : ℕ)
    → refcount_at part profile i ≡ some n
    → part_refs (put_refcount part profile i m) + n ≡ part_refs profile + m
part_refs-put part_resolution profile i n m h = omega (
  arith,
  sum_of-modify (λ x. x.refcount) profile.resolutions i n m (λ x. record x { refcount = m }) h
      (λ x. refl),
)
part_refs-put part_button profile i n m h = omega (
  arith,
  sum_of-modify (λ x. x.refcount) profile.buttons i n m (λ x. record x { refcount = m }) h
      (λ x. refl),
)
part_refs-put part_led profile i n m h = omega (
  arith,
  sum_of-modify (λ x. x.refcount) profile.leds i n m (λ x. record x { refcount = m }) h (λ x. refl),
)

pub refcount-put :
    (part : Part) (profile : Profile) (i m : ℕ)
    → (put_refcount part profile i m).refcount ≡ profile.refcount
refcount-put part_resolution profile i m = refl
refcount-put part_button profile i m = refl
refcount-put part_led profile i m = refl

-- A profile replaced by another whose parts are counted.
pub IsCounted-put :
    (device : Device) (p : ℕ) (old new : Profile)
    → get_elem? device.profiles p ≡ some old
    → All PartsCounted device.profiles
    → PartsCounted new
    → profile_refs device + new.refcount ≤ device.refcount + old.refcount
    → IsCounted (put_profile device p new)
IsCounted-put device p old new there parts counted room = record {
  of_profiles = omega (arith, sum_of-set (λ q. q.refcount) device.profiles p old new there);
  of_parts = All-set PartsCounted device.profiles p new parts counted;
}
