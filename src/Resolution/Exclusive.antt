-- ===== src/Resolution/Exclusive.antt =====
-- src/libratbag.c: the calls on one resolution that reach all resolutions of its profile: the
-- active one, the default one, and a report rate that they share.
use libratbag.Base.{
  ℕ, zero, suc, ◌≡◌, refl, ◌⊎◌, inl, inr, arith, Bool, true, false, not, ◌&&◌, ◌||◌, List, [], ◌∷◌,
  map, ◌==◌, if◌then◌else◌, get_elem?, set, set_self, get_elem?-set, get_elem?-map, some, done,
  Bool-cases,
}
use mathlib.Core.Option
use libratbag.Types.{success, Resolution, Profile}
use libratbag.Capability.{resolution_has_capability, cap_individual_report_rate}
use libratbag.Resolution.{
  resolution_set_report_rate, change_rate, put_changed, any_other_rate, resolution_set_active,
  resolution_set_default, deactivate, clear_default, clear_other_defaults, any_other_default,
  any_default,
}

get_elem?-clear_other_defaults :
    (l : List Resolution) (r j : ℕ)
    → get_elem? (clear_other_defaults l r) j
      ≡ (if r == j then get_elem? l j else Option.map clear_default (get_elem? l j))
unfolding clear_other_defaults
get_elem?-clear_other_defaults [] r j = ground arith
get_elem?-clear_other_defaults (x ∷ l) zero zero = refl
get_elem?-clear_other_defaults (x ∷ l) zero (suc j) =
    ground (arith, get_elem?-map clear_default l j)
get_elem?-clear_other_defaults (x ∷ l) (suc r) zero = ground arith
get_elem?-clear_other_defaults (x ∷ l) (suc r) (suc j) =
    ground (arith, get_elem?-clear_other_defaults l r j)

-- The resolution at place `j` behind a call, from the one that stood there before.
abbrev pub After : Profile → Profile → (ℕ → Resolution → Resolution) → Type 0
After profile profile' f =
    (j : ℕ) → get_elem? profile'.resolutions j ≡ Option.map (f j) (get_elem? profile.resolutions j)

-- Making a resolution the active one succeeds, marks it and the profile, and leaves it as the one
-- active resolution: every other one is inactive, and is else as before.
pub resolution_set_active-After :
    (profile : Profile) (r : ℕ) (res : Resolution)
    → get_elem? profile.resolutions r ≡ some res
    → (profile' : Profile) × (resolution_set_active profile r ≡ done (success, profile'))
      × (profile' ≡ record profile { resolutions = profile'.resolutions; dirty = true })
      × After profile profile'
          λ j old. record old { is_active = r == j; dirty = (r == j) || old.dirty }
unfolding resolution_set_active
resolution_set_active-After profile r res h = (
  record profile { resolutions = set (map deactivate profile.resolutions) r stored; dirty = true },
  rw h,
  refl,
  λ j. ground (
    arith,
    get_elem?-map deactivate profile.resolutions r,
    get_elem?-map deactivate profile.resolutions j,
    get_elem?-set (map deactivate profile.resolutions) r j (deactivate res) stored,
  ),
)
  where
    stored : Resolution
    stored = record res { is_active = true; dirty = true }

clear_default_self : (res : Resolution) → res.is_default ≡ false → clear_default res ≡ res
clear_default_self res h = ground arith

map-clear_default : (l : List Resolution) → any_default l ≡ false → map clear_default l ≡ l
unfolding any_default
map-clear_default [] h = refl
map-clear_default (x ∷ l) h = ground (arith, clear_default_self x, map-clear_default l)

clear_other_defaults_self :
    (l : List Resolution) (r : ℕ) → any_other_default l r ≡ false → clear_other_defaults l r ≡ l
unfolding clear_other_defaults any_other_default
clear_other_defaults_self [] r h = refl
clear_other_defaults_self (x ∷ l) zero h = ground (arith, map-clear_default l)
clear_other_defaults_self (x ∷ l) (suc r) h =
    ground (arith, clear_default_self x, clear_other_defaults_self l r)

any_default-found :
    (l : List Resolution)
    → any_default l ≡ true
    → (j : ℕ) × (x : Resolution) × (get_elem? l j ≡ some x) × (x.is_default ≡ true)
unfolding any_default
any_default-found [] h = absurd (ground arith)
any_default-found (x ∷ l) h = elim (Bool-cases x.is_default) [
  | inl e ↦ (0, x, refl, e)
  | inr e ↦ let (j, y, at, is) = any_default-found l (ground (arith, h, e)) in (suc j, y, at, is)
]

any_other_default-found :
    (l : List Resolution) (r : ℕ)
    → any_other_default l r ≡ true
    → (j : ℕ) × (x : Resolution) × (get_elem? l j ≡ some x) × (x.is_default ≡ not (r == j))
unfolding any_other_default
any_other_default-found [] r h = absurd (ground arith)
any_other_default-found (x ∷ l) zero h =
    let (j, y, at, is) = any_default-found l h in (suc j, y, at, ground (arith, is))
any_other_default-found (x ∷ l) (suc r) h = elim (Bool-cases x.is_default) [
  | inl e ↦ (0, x, refl, ground (arith, e))
  | inr e ↦
      let (j, y, at, is) = any_other_default-found l r (ground (arith, h, e)) in
      (suc j, y, at, ground (arith, is))
]

pub resolution_set_default-After :
    (profile : Profile) (r : ℕ) (res : Resolution)
    → get_elem? profile.resolutions r ≡ some res
    → (profile' : Profile) × (changed : Bool) × (resolution_set_default profile r
        ≡ done (success, profile'))
      × (profile'
          ≡ record profile { resolutions = profile'.resolutions; dirty = changed || profile.dirty })
      × (After profile profile'
          λ j old. record old { is_default = r == j; dirty = ((r == j) && changed) || old.dirty })
      × (((changed ≡ true)
            × ((j : ℕ) × (old : Resolution) × (get_elem? profile.resolutions j ≡ some old)
                × (old.is_default ≡ not (r == j))))
          ⊎ ((changed ≡ false) × (profile' ≡ profile)))
unfolding resolution_set_default
resolution_set_default-After profile r res h = (
  record profile {
    resolutions = set (clear_other_defaults profile.resolutions r) r stored;
    dirty = changed || profile.dirty;
  },
  changed,
  rw h,
  refl,
  λ j. ground (
    arith,
    get_elem?-clear_other_defaults profile.resolutions r r,
    get_elem?-clear_other_defaults profile.resolutions r j,
    get_elem?-set (clear_other_defaults profile.resolutions r) r j res stored,
  ),
  elim (Bool-cases (any_other_default profile.resolutions r)) [
    | inl e ↦ inl (ground arith, any_other_default-found profile.resolutions r e)
    | inr e ↦ elim (Bool-cases res.is_default) [
      | inl d ↦ inr (
        ground arith,
        ground (
          arith,
          clear_other_defaults_self profile.resolutions r e,
          set_self profile.resolutions r res h,
        ),
      )
      | inr d ↦ inl (ground arith, (r, res, h, ground arith))
    ]
  ],
)
  where
    changed : Bool
    changed = any_other_default profile.resolutions r || not res.is_default

    stored : Resolution
    stored = record res { is_default = true; dirty = changed || res.dirty }

any_other_rate-false :
    (hz : ℕ) (l : List Resolution) → any_other_rate hz l ≡ false → map (change_rate hz) l ≡ l
unfolding any_other_rate change_rate
any_other_rate-false hz [] h = refl
any_other_rate-false hz (x ∷ l) h = ground (arith, any_other_rate-false hz l)

any_other_rate-found :
    (hz : ℕ) (l : List Resolution)
    → any_other_rate hz l ≡ true
    → (j : ℕ) × (x : Resolution) × (get_elem? l j ≡ some x) × ((x.hz == hz) ≡ false)
unfolding any_other_rate
any_other_rate-found hz [] h = absurd (ground arith)
any_other_rate-found hz (x ∷ l) h = elim (Bool-cases (x.hz == hz)) [
  | inl e ↦
      let (j, y, at, is) = any_other_rate-found hz l (ground (arith, h, e)) in (suc j, y, at, is)
  | inr e ↦ (0, x, refl, e)
]

-- Setting a report rate always succeeds. Where the resolution has a rate of its own, it alone is
-- given the rate; otherwise all resolutions of the profile are. Each resolution whose rate changes
-- is marked and no other is; the profile is marked if one that is given the rate had another, and
-- is as it was if none had.
pub resolution_set_report_rate-After :
    (profile : Profile) (r hz : ℕ) (res : Resolution)
    → get_elem? profile.resolutions r ≡ some res
    → (profile' : Profile) × (changed : Bool) × (resolution_set_report_rate profile r hz
        ≡ done (success, profile'))
      × (profile'
          ≡ record profile { resolutions = profile'.resolutions; dirty = changed || profile.dirty })
      × (After profile profile' λ j old.
          if (r == j) || not (resolution_has_capability res cap_individual_report_rate)
          then record old { hz = hz; dirty = not (old.hz == hz) || old.dirty }
          else old)
      × (((changed ≡ true)
            × ((j : ℕ) × (old : Resolution) × (get_elem? profile.resolutions j ≡ some old)
                × (((r == j) || not (resolution_has_capability res cap_individual_report_rate))
                    ≡ true)
                × ((old.hz == hz) ≡ false)))
          ⊎ ((changed ≡ false) × (profile' ≡ profile)))
unfolding resolution_set_report_rate
resolution_set_report_rate-After profile r hz res h =
    elim (Bool-cases (resolution_has_capability res cap_individual_report_rate)) [
      | inl e ↦ (
        (if not (res.hz == hz) then put_changed profile r (record res { hz = hz }) else profile),
        not (res.hz == hz),
        rw (h, e),
        ground arith,
        λ j. ground (
          arith,
          get_elem?-set profile.resolutions r j res (record res { hz = hz; dirty = true }) h,
        ),
        elim (Bool-cases (res.hz == hz)) [
          | inl s ↦ inr (ground arith, ground arith)
          | inr s ↦ inl (ground arith, (r, res, h, ground arith, s))
        ],
      )
      | inr e ↦ (
        record profile {
          resolutions = map (change_rate hz) profile.resolutions;
          dirty = any_other_rate hz profile.resolutions || profile.dirty;
        },
        any_other_rate hz profile.resolutions,
        rw (h, e),
        refl,
        λ j. ground (arith, get_elem?-map (change_rate hz) profile.resolutions j),
        elim (Bool-cases (any_other_rate hz profile.resolutions)) [
          | inl s ↦
              let (j, old, at, other) = any_other_rate-found hz profile.resolutions s in
              inl (s, (j, old, at, ground arith, other))
          | inr s ↦ inr (s, ground (arith, any_other_rate-false hz profile.resolutions s))
        ],
      )
    ]
