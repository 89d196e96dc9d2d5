-- ===== src/Session/Rates.antt =====
-- src/libratbag.c: each call on a resolution marks what it changes.
use mathlib.Core.Path.{subst}
use libratbag.Base.{
  ℕ, Bool, true, ◌||◌, ◌==◌, Option, some, none, get_elem?, if◌then◌else◌, ◌≡◌, refl, sym, ◌⊎◌, inl,
  inr, arith, ◌∙◌, ap, Outcome, done, deref, ◌>>=◌, Bool-cases, >>=-eq-done,
}
use libratbag.Types.{ErrorCode, success, Profile, Resolution}
use libratbag.Resolution.{
  resolution_set_dpi, resolution_set_dpi_xy, resolution_set_report_rate, resolution_set_active,
  resolution_set_default,
}
use libratbag.Resolution.Dpi.{IsSetTo, resolution_set_dpi_lem, resolution_set_dpi_xy_lem}
use libratbag.Resolution.Exclusive.{
  After, resolution_set_active-After, resolution_set_default-After,
  resolution_set_report_rate-After,
}
use libratbag.Session.Pairs.{
  Pairs, Pairs-refl, MaybePair, Pairs-pointwise, MaybePair-map, MaybePair-refl,
}
use libratbag.Session.Tracks.{
  ProfileTracks, ProfileTracks-refl, ButtonTracks, ButtonTracks-refl, LedTracks, LedTracks-refl,
  ResolutionTracks, ResolutionTracks-refl,
}

-- A profile in which the resolutions are changed, or which is as it was.
Tracks-resolutions :
    (q q' : Profile) (changed : Bool)
    → q' ≡ record q { resolutions = q'.resolutions; dirty = changed || q.dirty }
    → (changed ≡ true) ⊎ (q' ≡ q)
    → Pairs ResolutionTracks q.resolutions q'.resolutions
    → ProfileTracks q q'
Tracks-resolutions q q' changed same mark h = record {
  index = ap (λ p. p.index) same;
  num_resolutions = ap (λ p. p.num_resolutions) same;
  mark = ground (arith, same, mark);
  buttons = rw (ap (λ p. p.buttons) same) (Pairs-refl ButtonTracks ButtonTracks-refl q.buttons);
  leds = rw (ap (λ p. p.leds) same) (Pairs-refl LedTracks LedTracks-refl q.leds);
  resolutions = h;
}

Pairs-After :
    (q q' : Profile) (f : ℕ → Resolution → Resolution)
    → After q q' f
    → ((j : ℕ) (x : Resolution) → ResolutionTracks x (f j x))
    → Pairs ResolutionTracks q.resolutions q'.resolutions
Pairs-After q q' f after h = Pairs-pointwise ResolutionTracks q.resolutions q'.resolutions λ j.
    subst (MaybePair ResolutionTracks (get_elem? q.resolutions j)) (sym (after j))
      (MaybePair-map ResolutionTracks (f j) (h j) (get_elem? q.resolutions j))

Tracks-IsSetTo :
    (q q' : Profile) (r : ℕ) (res : Resolution) (x y : ℕ)
    → get_elem? q.resolutions r ≡ some res
    → IsSetTo q q' r res x y
    → ProfileTracks q q'
Tracks-IsSetTo q q' r res x y there s = elim s.marked [
  | inr same ↦ rw same (ProfileTracks-refl q)
  | inl marked ↦ Tracks-resolutions q q' s.mark s.rest s.marked (
      Pairs-pointwise ResolutionTracks q.resolutions q'.resolutions λ j.
        subst (MaybePair ResolutionTracks (get_elem? q.resolutions j)) (sym (s.at j))
          (pair marked j))
]
  where
    stored : Resolution
    stored = record res { dpi_x = x; dpi_y = y; dirty = s.mark || res.dirty }

    pair :
        s.mark ≡ true
        → (j : ℕ)
        → MaybePair ResolutionTracks
            (get_elem? q.resolutions j)
            (if r == j then some stored else get_elem? q.resolutions j)
    pair marked j = elim (Bool-cases (r == j)) [
      | inl e ↦ rw e (
          subst (λ o. MaybePair ResolutionTracks o (some stored))
            (sym there ∙ ap (get_elem? q.resolutions) (ground arith))
            (record { index = refl; kept = ground arith; mark = inl (ground (arith, marked)) }))
      | inr e ↦ rw e (MaybePair-refl ResolutionTracks ResolutionTracks-refl _)
    ]

-- What is wanted of a call on a profile.
abbrev pub Kept : Profile → ErrorCode → Profile → Type 0
Kept q code q' = ProfileTracks q q' × ((code ≡ success) ⊎ (q' ≡ q))

pub deref-eq-done {ℓ} : {A : Type ℓ} (o : Option A) (x : A) → deref o ≡ done x → o ≡ some x
deref-eq-done none x h = cc
deref-eq-done (some y) x h = ground arith

-- Two results of one call.
same_result :
    (result : Outcome (ErrorCode × Profile)) (c c' : ErrorCode) (q q' : Profile)
    → result ≡ done (c, q)
    → result ≡ done (c', q')
    → (c' ≡ c) × (q' ≡ q)
same_result result c c' q q' h k = ground arith

Kept-from :
    (q q' q'' : Profile) (c : ErrorCode) (result : Outcome (ErrorCode × Profile))
    → result ≡ done (c, q')
    → result ≡ done (success, q'')
    → ProfileTracks q q''
    → Kept q c q'
Kept-from q q' q'' c result h k t =
    let (code, same) = same_result result success c q'' q' k h in (rw same t, inl code)

Kept-failed :
    (q q' : Profile) (c c' : ErrorCode) (result : Outcome (ErrorCode × Profile))
    → result ≡ done (c, q')
    → result ≡ done (c', q)
    → Kept q c q'
Kept-failed q q' c c' result h k =
    let (code, same) = same_result result c' c q q' k h in
    (rw same (ProfileTracks-refl q), inr same)

module _ (q q' : Profile) (r : ℕ) (code : ErrorCode) where
  -- The resolution that a call looks up.
  found :
      (rest : Resolution → Outcome (ErrorCode × Profile))
      → (deref (get_elem? q.resolutions r) >>= rest) ≡ done (code, q')
      → (res : Resolution) × (get_elem? q.resolutions r ≡ some res)
  found rest e =
      let (res, there, _) = >>=-eq-done (deref (get_elem? q.resolutions r)) rest e in
      (res, deref-eq-done (get_elem? q.resolutions r) res there)

  pub set_dpi-Kept : (dpi : ℕ) → resolution_set_dpi q r dpi ≡ done (code, q') → Kept q code q'
  unfolding resolution_set_dpi
  set_dpi-Kept dpi e =
      let (res, there) = found _ e in
      elim (resolution_set_dpi_lem q r res dpi there) [
        | inl (_, runs) ↦ Kept-failed q q' code _ _ e runs
        | inr (_, (q'', runs, s)) ↦
            Kept-from q q' q'' code _ e runs (Tracks-IsSetTo q q'' r res dpi dpi there s)
      ]

  pub set_dpi_xy-Kept : (x y : ℕ) → resolution_set_dpi_xy q r x y ≡ done (code, q') → Kept q code q'
  unfolding resolution_set_dpi_xy
  set_dpi_xy-Kept x y e =
      let (res, there) = found _ e in
      elim (resolution_set_dpi_xy_lem q r res x y there) [
        | inl (c, runs, _) ↦ Kept-failed q q' code c _ e runs
        | inr a ↦
            Kept-from q q' a.profile' code _ e a.returns
              (Tracks-IsSetTo q a.profile' r res x y there a.is_set)
      ]

  pub set_active-Kept : resolution_set_active q r ≡ done (code, q') → Kept q code q'
  unfolding resolution_set_active
  set_active-Kept e =
      let (res, there) = found _ e in
      let (q'', runs, same, after) = resolution_set_active-After q r res there in
      Kept-from q q' q'' code _ e runs (
        Tracks-resolutions q q'' true same (inl refl) (
          Pairs-After q q'' _ after
            λ j x. record { index = refl; kept = ground arith; mark = inr refl }))

  pub set_default-Kept : resolution_set_default q r ≡ done (code, q') → Kept q code q'
  unfolding resolution_set_default
  set_default-Kept e =
      let (res, there) = found _ e in
      let (q'', changed, runs, same, after, mark) = resolution_set_default-After q r res there in
      Kept-from q q' q'' code _ e runs (
        Tracks-resolutions q q'' changed same (elim mark [ inl m ↦ inl m.0 | inr m ↦ inr m.1 ])
          (Pairs-After q q'' _ after
            λ j x. record { index = refl; kept = ground arith; mark = inr refl }))

  pub set_report_rate-Kept :
      (hz : ℕ) → resolution_set_report_rate q r hz ≡ done (code, q') → Kept q code q'
  unfolding resolution_set_report_rate
  set_report_rate-Kept hz e =
      let (res, there) = found _ e in
      let (q'', changed, runs, same, after, mark) =
        resolution_set_report_rate-After q r hz res there in
      Kept-from q q' q'' code _ e runs (
        Tracks-resolutions q q'' changed same (elim mark [ inl m ↦ inl m.0 | inr m ↦ inr m.1 ])
          (Pairs-After q q'' _ after
            λ j x. record { index = ground arith; kept = ground arith; mark = ground arith }))
