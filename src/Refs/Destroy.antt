-- ===== src/Refs/Destroy.antt =====
-- src/libratbag.c: `ratbag_device_unref` and the calls that end in it destroy the device only with
-- its last reference.
use libratbag.Base.{
  ℕ, zero, suc, ◌+◌, ◌-◌, ◌≤◌, ◌≡◌, refl, ap, arith, Option, none, some, List, [], ◌∷◌, get_elem?,
  done, All,
}
use libratbag.Types.{Device, Profile}
use libratbag.Refs.{device_unref}
use libratbag.Refs.Counted.{
  IsCounted, PartsCounted, Handle, to_device, to_profile, to_part, unref, Owned, part_refs,
  profile_refs, sum_of, part_refs-put,
}
use libratbag.Refs.Release.{Slack, profile_unref-Slack, part_unref-Slack}

unref-Slack :
    (h : Handle) (device : Device) (o : Option Device)
    → IsCounted device
    → Owned h device
    → unref h device ≡ done o
    → (mid : Device) × Slack device mid o
unref-Slack to_device device o c own e =
    (device, record { returns = e; same = refl; below = own; of_parts = c.of_parts })
unref-Slack (to_profile p) device o c (profile, there, own) e =
    profile_unref-Slack device p profile o there c.of_parts c.of_profiles own e
unref-Slack (to_part part p i) device o c own e = (part_unref-Slack part device p i o c e).5

device_unref-eq-some :
    (mid device' : Device)
    → device_unref mid ≡ done (some device')
    → device' ≡ record mid { refcount = mid.refcount - 1 }
unfolding device_unref
device_unref-eq-some mid device' h = ground arith

device_unref-eq-none : (mid : Device) → device_unref mid ≡ done none → mid.refcount ≡ 1
unfolding device_unref
device_unref-eq-none mid h = ground arith

-- Dropping a reference that the caller owns, while others are left, keeps the counts right.
pub unref-IsCounted :
    (h : Handle) (device device' : Device)
    → IsCounted device
    → Owned h device
    → unref h device ≡ done (some device')
    → IsCounted device'
unref-IsCounted h device device' c own e =
    let (mid, s) = unref-Slack h device (some device') c own e in
    rw (device_unref-eq-some mid device' s.returns)
      (record { of_profiles = omega (arith, s.below); of_parts = s.of_parts })

-- The references to parts, over all profiles.
abbrev pub all_part_refs : Device → ℕ
all_part_refs device = sum_of part_refs device.profiles

-- The references to profiles and to parts that a single reference makes.
abbrev pub own_profile_refs : Handle → ℕ
own_profile_refs to_device = 0
own_profile_refs (to_profile p) = 1
own_profile_refs (to_part part p i) = 1

abbrev pub own_part_refs : Handle → ℕ
own_part_refs to_device = 0
own_part_refs (to_profile p) = 0
own_part_refs (to_part part p i) = 1

sum_of-le :
    (l : List Profile) → All PartsCounted l → sum_of part_refs l ≤ sum_of (λ p. p.refcount) l
sum_of-le [] h = omega arith
sum_of-le (p ∷ l) h = omega (arith, h.0, sum_of-le l h.1)

-- One profile of the list is left out of both sums.
sum_of-le_at :
    (l : List Profile) (i : ℕ) (p : Profile)
    → All PartsCounted l
    → get_elem? l i ≡ some p
    → sum_of part_refs l + p.refcount ≤ sum_of (λ q. q.refcount) l + part_refs p
sum_of-le_at [] i p h e = cc
sum_of-le_at (q ∷ l) zero p h e =
    let same : q ≡ p = ground arith in
    omega (arith, sum_of-le l h.1, ap part_refs same, ap (λ (x : Profile). x.refcount) same)
sum_of-le_at (q ∷ l) (suc i) p h e = omega (arith, h.0, sum_of-le_at l i p h.1 e)

sum_of-ge_at :
    (f : Profile → ℕ) (l : List Profile) (i : ℕ) (p : Profile)
    → get_elem? l i ≡ some p
    → f p ≤ sum_of f l
sum_of-ge_at f [] i p e = cc
sum_of-ge_at f (q ∷ l) zero p e = let same : q ≡ p = ground arith in omega (arith, ap f same)
sum_of-ge_at f (q ∷ l) (suc i) p e = omega (arith, sum_of-ge_at f l i p e)

-- The device had one reference in all, and what hung on its profiles and their parts was that
-- reference alone.
abbrev pub WasLast : Handle → Device → Type 0
WasLast h device =
    (device.refcount ≡ 1)
    × (profile_refs device ≡ own_profile_refs h)
    × (all_part_refs device ≡ own_part_refs h)

-- If dropping a reference that the caller owns destroys the device, then no other reference to the
-- device, to a profile, or to a resolution, button or LED of it was left.
pub unref-WasLast :
    (h : Handle) (device : Device)
    → IsCounted device
    → Owned h device
    → unref h device ≡ done none
    → WasLast h device
unref-WasLast h device c own e =
    let (mid, s) = unref-Slack h device none c own e in
    let single : device.refcount ≡ 1 = omega (arith, device_unref-eq-none mid s.returns, s.same) in
    let both = rest h own e single in (single, both.0, both.1)
  where
    rest :
        (h : Handle)
        → Owned h device
        → unref h device ≡ done none
        → device.refcount ≡ 1
        → (profile_refs device ≡ own_profile_refs h) × (all_part_refs device ≡ own_part_refs h)
    rest to_device own e single = (omega arith, omega (arith, sum_of-le device.profiles c.of_parts))
    rest (to_profile p) (profile, there, own) e single =
        let apart = sum_of-le_at device.profiles p profile c.of_parts there in
        let here = sum_of-ge_at (λ q. q.refcount) device.profiles p profile there in
        (omega (arith, here, c.of_profiles), omega (arith, apart, c.of_profiles))
    rest (to_part part p i) own e single =
        let (profile, n, there, count, positive, _) = part_unref-Slack part device p i none c e in
        let here = sum_of-ge_at part_refs device.profiles p profile there in
        let some_part = part_refs-put part profile i n 0 count in
        (
          omega (arith, here, some_part, c.of_profiles, sum_of-le device.profiles c.of_parts),
          omega (arith, here, some_part, c.of_profiles, sum_of-le device.profiles c.of_parts),
        )
