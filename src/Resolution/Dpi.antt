-- ===== src/Resolution/Dpi.antt =====
-- src/libratbag.c: what the calls that set a resolution's dpi and report rate leave behind.
use libratbag.Base.{
  Bool-cases, ℕ, ◌≡◌, refl, ◌⊎◌, ◌↔◌, inl, inr, arith, Bool, true, false, not, ◌&&◌, ◌||◌, List, [],
  ◌∷◌, ◌==◌, if◌then◌else◌, get_elem?, get_elem?-set, some, done,
}
use libratbag.Types.{ErrorCode, success, error_value, error_capability, Resolution, Profile}
use libratbag.Capability.{resolution_has_capability, cap_separate_xy_resolution}
use libratbag.Resolution.{resolution_has_dpi, resolution_set_dpi, resolution_set_dpi_xy, change_dpi}

-- The value is an entry of the list.
abbrev pub Listed : ℕ → List ℕ → Type 0
Listed v [] = ⊥
Listed v (d ∷ l) = (v ≡ d) ⊎ Listed v l

resolution_has_dpi-Listed : (l : List ℕ) (v : ℕ) → resolution_has_dpi l v ≡ true → Listed v l
unfolding resolution_has_dpi
resolution_has_dpi-Listed [] v h = cc
resolution_has_dpi-Listed (d ∷ l) v h = ground (arith, resolution_has_dpi-Listed l v)

not_Listed : (l : List ℕ) (v : ℕ) → resolution_has_dpi l v ≡ false → ¬ Listed v l
unfolding resolution_has_dpi
not_Listed [] v h p = p
not_Listed (d ∷ l) v h p = ground (arith, not_Listed l v)

-- The profile differs from the old one in the resolution at `r` alone, which has the dpi `x`
-- and `y`. Either that resolution and the profile are marked, or nothing has changed.
pub record IsSetTo (profile profile' : Profile) (r : ℕ) (res : Resolution) (x y : ℕ) : Type 0 where
  pub mark : Bool
  pub at :
      (j : ℕ)
      → get_elem? profile'.resolutions j ≡ (
          if r == j
          then some (record res { dpi_x = x; dpi_y = y; dirty = mark || res.dirty })
          else get_elem? profile.resolutions j)
  pub rest :
      profile'
      ≡ record profile { resolutions = profile'.resolutions; dirty = mark || profile.dirty }
  pub marked : (mark ≡ true) ⊎ (profile' ≡ profile)

change_dpi-IsSetTo :
    (profile : Profile) (r : ℕ) (res : Resolution) (x y : ℕ)
    → get_elem? profile.resolutions r ≡ some res
    → IsSetTo profile (change_dpi profile r res x y) r res x y
unfolding change_dpi
change_dpi-IsSetTo profile r res x y h = record {
  mark = not (res.dpi_x == x) || not (res.dpi_y == y);
  at = λ j. ground (arith, get_elem?-set profile.resolutions r j res stored h);
  rest = ground arith;
  marked = ground arith;
}
  where
    stored : Resolution
    stored = record res { dpi_x = x; dpi_y = y; dirty = true }

-- Setting the dpi of a resolution: a value that is not in its list is refused with
-- `RATBAG_ERROR_VALUE` and the profile stays as it is; a value of the list becomes both
-- components of that resolution, and nothing else but the dirty flags changes.
pub resolution_set_dpi_lem :
    (profile : Profile) (r : ℕ) (res : Resolution) (dpi : ℕ)
    → get_elem? profile.resolutions r ≡ some res
    → ((¬ Listed dpi res.dpis) × (resolution_set_dpi profile r dpi ≡ done (error_value, profile)))
      ⊎ (Listed dpi res.dpis
          × ((profile' : Profile) × (resolution_set_dpi profile r dpi ≡ done (success, profile'))
              × IsSetTo profile profile' r res dpi dpi))
unfolding resolution_set_dpi
resolution_set_dpi_lem profile r res dpi h = elim (Bool-cases (resolution_has_dpi res.dpis dpi)) [
  | inl e ↦ inr (
    resolution_has_dpi-Listed res.dpis dpi e,
    (change_dpi profile r res dpi dpi, rw (h, e), change_dpi-IsSetTo profile r res dpi dpi h),
  )
  | inr e ↦ inl (not_Listed res.dpis dpi e, rw (h, e))
]

-- One component is zero and the other is not.
is_lopsided : ℕ → ℕ → Bool
is_lopsided x y = (x == 0 && not (y == 0)) || (not (x == 0) && y == 0)

-- The guards of `ratbag_resolution_set_dpi_xy`, and the error that each of them gives.
abbrev pub RefusedXy : Resolution → ℕ → ℕ → ErrorCode → Type 0
RefusedXy res x y code =
    ((resolution_has_capability res cap_separate_xy_resolution ≡ false) × (code ≡ error_capability))
    ⊎ ((¬ ((x ≡ 0) ↔ (y ≡ 0)) ⊎ (¬ Listed x res.dpis ⊎ ¬ Listed y res.dpis))
        × (resolution_has_capability res cap_separate_xy_resolution ≡ true)
        × (code ≡ error_value))

-- The call sets both components, in a resolution that can have two.
pub record AcceptsXy (profile : Profile) (r : ℕ) (res : Resolution) (x y : ℕ) : Type 0 where
  pub separate : resolution_has_capability res cap_separate_xy_resolution ≡ true
  pub zeros : (x ≡ 0) ↔ (y ≡ 0)
  pub listed_x : Listed x res.dpis
  pub listed_y : Listed y res.dpis
  pub profile' : Profile
  pub returns : resolution_set_dpi_xy profile r x y ≡ done (success, profile')
  pub is_set : IsSetTo profile profile' r res x y

module _ (profile : Profile) (r : ℕ) (res : Resolution) (x y : ℕ)
    (at_r : get_elem? profile.resolutions r ≡ some res) where
  abbrev Refuses : ErrorCode → Type 0
  Refuses code =
      (resolution_set_dpi_xy profile r x y ≡ done (code, profile)) × RefusedXy res x y code

  has_x-cases :
      resolution_has_capability res cap_separate_xy_resolution ≡ true
      → is_lopsided x y ≡ false
      → ((code : ErrorCode) × Refuses code) ⊎ AcceptsXy profile r res x y
  unfolding resolution_set_dpi_xy is_lopsided
  has_x-cases cap even = elim (Bool-cases (resolution_has_dpi res.dpis x)) [
    | inr e ↦
        inl (error_value, (ground arith, inr (inr (inl (not_Listed res.dpis x e)), cap, refl)))
    | inl e ↦ elim (Bool-cases (resolution_has_dpi res.dpis y)) [
      | inr f ↦
          inl (error_value, (ground arith, inr (inr (inr (not_Listed res.dpis y f)), cap, refl)))
      | inl f ↦ inr (record {
        separate = cap;
        zeros = ground arith;
        listed_x = resolution_has_dpi-Listed res.dpis x e;
        listed_y = resolution_has_dpi-Listed res.dpis y f;
        profile' = change_dpi profile r res x y;
        returns = ground arith;
        is_set = change_dpi-IsSetTo profile r res x y at_r;
      })
    ]
  ]

  -- Setting the two components on their own: either the call is refused with an error and the
  -- profile stays as it is, because the resolution has no separate components, or one value is
  -- zero and the other is not, or a value is not in the list; or none of this is so, the values
  -- become the components, and nothing else but the dirty flags changes.
  pub resolution_set_dpi_xy_lem :
      ((code : ErrorCode) × (resolution_set_dpi_xy profile r x y ≡ done (code, profile))
        × RefusedXy res x y code)
      ⊎ AcceptsXy profile r res x y
  unfolding resolution_set_dpi_xy is_lopsided
  resolution_set_dpi_xy_lem =
      elim (Bool-cases (resolution_has_capability res cap_separate_xy_resolution)) [
        | inr e ↦ inl (error_capability, ground arith, inl (e, refl))
        | inl e ↦ elim (Bool-cases (is_lopsided x y)) [
          | inl f ↦ inl (error_value, ground arith, inr (inl (ground arith), e, refl))
          | inr f ↦ elim (has_x-cases e f) [ inl (code, r) ↦ inl (code, r.0, r.1) | inr a ↦ inr a ]
        ]
      ]
