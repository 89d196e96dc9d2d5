-- ===== src/Refs/Release.antt =====
-- src/libratbag.c: taking and dropping references keeps the counts right, and a device is
-- destroyed with its last reference.
use libratbag.Base.{
  ℕ, zero, suc, ◌+◌, ◌-◌, ◌≤◌, ◌<◌, ◌≡◌, refl, ap, arith, Option, some, List, [], ◌∷◌, get_elem?,
  set, inl, inr, done, All, All-get_elem?, get_elem?-set, Option-cases,
}
use libratbag.Types.{Device, Profile}
use libratbag.Refs.{
  Part, part_resolution, part_button, part_led, device_ref, device_unref, profile_ref,
  profile_unref, part_ref, part_unref, put_profile, refcount_at, put_refcount,
}
use libratbag.Refs.Counted.{
  IsCounted, IsCounted-put, PartsCounted, Handle, to_device, to_profile, to_part, ref, part_refs,
  profile_refs, part_refs-put, refcount-put, sum_of-set,
}

set-set : (l : List Profile) (i : ℕ) (x y : Profile) → set (set l i x) i y ≡ set l i y
set-set [] i x y = refl
set-set (z ∷ l) zero x y = refl
set-set (z ∷ l) (suc i) x y = ap (◌∷◌ z) (set-set l i x y)

profile_ref-eq-done :
    (device device' : Device) (p : ℕ)
    → profile_ref device p ≡ done device'
    → (profile : Profile) × (get_elem? device.profiles p ≡ some profile)
      × (device'
          ≡ put_profile
              (record device { refcount = device.refcount + 1 })
              p
              (record profile { refcount = profile.refcount + 1 }))
unfolding profile_ref device_ref
profile_ref-eq-done device device' p h = elim (Option-cases (get_elem? device.profiles p)) [
  | inl e ↦ absurd (ground arith)
  | inr (profile, there) ↦ (profile, there, ground arith)
]

part_ref-eq-done :
    (part : Part) (device device' : Device) (p i : ℕ)
    → part_ref part device p i ≡ done device'
    → (profile : Profile) × (n : ℕ) × (get_elem? device.profiles p ≡ some profile)
      × (refcount_at part profile i ≡ some n)
      × (device'
          ≡ put_profile
              (record device { refcount = device.refcount + 1 })
              p
              (put_refcount part (record profile { refcount = profile.refcount + 1 }) i (n + 1)))
unfolding part_ref profile_ref device_ref
part_ref-eq-done part device device' p i h = elim (Option-cases (get_elem? device.profiles p)) [
  | inl e ↦ absurd (ground arith)
  | inr (profile, there) ↦ elim (Option-cases (refcount_at part profile i)) [
    | inl e ↦ absurd (ground arith)
    | inr (n, count) ↦
        let more = record profile { refcount = profile.refcount + 1 } in
        (
          profile,
          n,
          there,
          count,
          ground (
            arith,
            get_elem?-set device.profiles p p profile more there,
            set-set device.profiles p more (put_refcount part more i (n + 1)),
          ),
        )
  ]
]

device_ref-eq-done :
    (device device' : Device)
    → device_ref device ≡ done device'
    → device' ≡ record device { refcount = device.refcount + 1 }
unfolding device_ref
device_ref-eq-done device device' h = ground arith

refcount_at-more :
    (part : Part) (profile : Profile) (i k : ℕ) {o : Option ℕ}
    → refcount_at part profile i ≡ o
    → refcount_at part (record profile { refcount = k }) i ≡ o
refcount_at-more part_resolution profile i k h = h
refcount_at-more part_button profile i k h = h
refcount_at-more part_led profile i k h = h

part_refs-more :
    (profile : Profile) (k : ℕ) → part_refs (record profile { refcount = k }) ≡ part_refs profile
part_refs-more profile k = refl

-- Taking a reference of any kind keeps the counts right.
pub ref-IsCounted :
    (h : Handle) (device device' : Device)
    → IsCounted device
    → ref h device ≡ done device'
    → IsCounted device'
ref-IsCounted to_device device device' c e =
    rw (device_ref-eq-done device device' e)
      (record { of_profiles = omega (arith, c.of_profiles); of_parts = c.of_parts })
ref-IsCounted (to_profile p) device device' c e =
    let (profile, there, same) = profile_ref-eq-done device device' p e in
    let counted = All-get_elem? PartsCounted device.profiles p profile c.of_parts there in
    rw same (
      IsCounted-put (record device { refcount = device.refcount + 1 }) p profile
        (record profile { refcount = profile.refcount + 1 }) there c.of_parts (omega arith)
        (omega (arith, c.of_profiles)))
ref-IsCounted (to_part part p i) device device' c e =
    let (profile, n, there, count, same) = part_ref-eq-done part device device' p i e in
    let counted = All-get_elem? PartsCounted device.profiles p profile c.of_parts there in
    let more = record profile { refcount = profile.refcount + 1 } in
    rw same (
      IsCounted-put (record device { refcount = device.refcount + 1 }) p profile
        (put_refcount part more i (n + 1)) there c.of_parts
        (omega (
          arith,
          refcount-put part more i (n + 1),
          part_refs-put part more i n (n + 1) (refcount_at-more part profile i _ count),
        ))
        (omega (arith, c.of_profiles, refcount-put part more i (n + 1))))

-- The device as it is before the call of `ratbag_device_unref`: it counts a reference more than
-- its profiles do.
pub record Slack (device mid : Device) (o : Option Device) : Type 0 where
  pub returns : device_unref mid ≡ done o
  pub same : mid.refcount ≡ device.refcount
  pub below : profile_refs mid < mid.refcount
  pub of_parts : All PartsCounted mid.profiles

pub profile_unref-Slack :
    (device : Device) (p : ℕ) (profile : Profile) (o : Option Device)
    → get_elem? device.profiles p ≡ some profile
    → All PartsCounted device.profiles
    → profile_refs device ≤ device.refcount
    → part_refs profile < profile.refcount
    → profile_unref device p ≡ done o
    → (mid : Device) × Slack device mid o
unfolding profile_unref
profile_unref-Slack device p profile o there parts counted own e =
    let less = record profile { refcount = profile.refcount - 1 } in
    let mid = IsCounted-put device p profile less there parts (omega arith) (omega arith) in
    (
      put_profile device p less,
      record {
        returns = ground arith;
        same = refl;
        below = omega (arith, sum_of-set (λ q. q.refcount) device.profiles p profile less there);
        of_parts = mid.of_parts;
      },
    )

pub part_unref-Slack :
    (part : Part) (device : Device) (p i : ℕ) (o : Option Device)
    → IsCounted device
    → part_unref part device p i ≡ done o
    → (profile : Profile) × (n : ℕ) × (get_elem? device.profiles p ≡ some profile)
      × (refcount_at part profile i ≡ some n)
      × (0 < n)
      × ((mid : Device) × Slack device mid o)
unfolding part_unref
part_unref-Slack part device p i o c e = elim (Option-cases (get_elem? device.profiles p)) [
  | inl none_there ↦ absurd (ground arith)
  | inr (profile, there) ↦ elim (Option-cases (refcount_at part profile i)) [
    | inl none_there ↦ absurd (ground arith)
    | inr (n, count) ↦
        let positive : 0 < n = ground arith in
        (profile, n, there, count, positive, lowered profile n there count positive (ground arith))
  ]
]
  where
    lowered :
        (profile : Profile) (n : ℕ)
        → get_elem? device.profiles p ≡ some profile
        → refcount_at part profile i ≡ some n
        → 0 < n
        → profile_unref (put_profile device p (put_refcount part profile i (n - 1))) p ≡ done o
        → (mid : Device) × Slack device mid o
    lowered profile n there count positive runs =
        let less = put_refcount part profile i (n - 1) in
        let counted = All-get_elem? PartsCounted device.profiles p profile c.of_parts there in
        let below : part_refs less < less.refcount = omega (
          arith,
          counted,
          part_refs-put part profile i n (n - 1) count,
          refcount-put part profile i (n - 1),
        ) in
        let mid =
          IsCounted-put device p profile less there c.of_parts (omega arith)
            (omega (arith, c.of_profiles, refcount-put part profile i (n - 1))) in
        let (mid', slack) =
          profile_unref-Slack (put_profile device p less) p less o
            (rw (get_elem?-set device.profiles p p profile less there) (ground arith)) mid.of_parts
            mid.of_profiles below runs in
        (
          mid',
          record {
            returns = slack.returns;
            same = slack.same;
            below = slack.below;
            of_parts = slack.of_parts;
          },
        )
