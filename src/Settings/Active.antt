-- ===== src/Settings/Active.antt =====
-- src/libratbag.c: `ratbag_profile_set_active`.
use mathlib.Core.Option
use libratbag.Base.{
  ℕ, zero, suc, ◌≡◌, refl, ◌⊎◌, inl, inr, arith, Bool, true, false, some, List, [], ◌∷◌, map,
  get_elem?, modify, done, ◌==◌, get_elem?-map, Bool-cases,
}
use libratbag.Types.{success, error_device, error_capability, Device, Profile}
use libratbag.Capability.{device_has_capability, cap_switchable_profile}
use libratbag.Settings.{profile_set_active, deactivate_profile}

get_elem?-activate :
    (l : List Profile) (p j : ℕ)
    → get_elem? (modify (map deactivate_profile l) p (λ q. record q { is_active = true })) j
      ≡ Option.map {A = Profile} {B = Profile}
          (λ q. record q { is_active = p == j })
          (get_elem? l j)
get_elem?-activate [] p j = refl
get_elem?-activate (x ∷ l) zero zero = refl
get_elem?-activate (x ∷ l) zero (suc j) = ground (arith, get_elem?-map deactivate_profile l j)
get_elem?-activate (x ∷ l) (suc p) zero = ground arith
get_elem?-activate (x ∷ l) (suc p) (suc j) = ground (arith, get_elem?-activate l p j)

-- Making the profile at `p` the active one, with a driver that has this function: without the
-- capability, or if the driver fails, the call says so and changes nothing. Otherwise it succeeds,
-- the profile at `p` is the one active profile, and nothing else changes.
pub profile_set_active_lem :
    (fails : Device → ℕ → Bool) (device : Device) (p : ℕ) (profile : Profile) (has : Bool)
    → device_has_capability device cap_switchable_profile ≡ done has
    → get_elem? device.profiles p ≡ some profile
    → ((has ≡ false) × (profile_set_active (some fails) device p ≡ done (error_capability, device)))
      ⊎ (((has ≡ true)
            × (fails device profile.index ≡ true)
            × (profile_set_active (some fails) device p ≡ done (error_device, device)))
          ⊎ ((has ≡ true)
              × (fails device profile.index ≡ false)
              × ((device' : Device) × (profile_set_active (some fails) device p
                    ≡ done (success, device'))
                  × (device' ≡ record device { profiles = device'.profiles })
                  × ((j : ℕ)
                      → get_elem? device'.profiles j
                        ≡ Option.map {A = Profile} {B = Profile}
                            (λ q. record q { is_active = p == j })
                            (get_elem? device.profiles j)))))
unfolding profile_set_active
profile_set_active_lem fails device p profile false h there = inl (refl, rw h)
profile_set_active_lem fails device p profile true h there =
    elim (Bool-cases (fails device profile.index)) [
      | inl e ↦ inr (inl (refl, e, rw (h, there) (rw e)))
      | inr e ↦ inr (
          inr (
            refl,
            e,
            (
              record device {
                profiles =
                    modify (map deactivate_profile device.profiles) p
                      (λ q. record q { is_active = true });
              },
              rw (h, there) (rw e),
              refl,
              get_elem?-activate device.profiles p,
            ),
          ))
    ]
