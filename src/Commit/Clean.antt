-- ===== src/Commit/Clean.antt =====
-- src/libratbag.c: what is left of the marks behind a commit that succeeds.
use libratbag.Base.{
  Bool-cases, false, true, false, ◌||◌, List, [], ◌∷◌, ◌++◌, map, ◌≡◌, refl, sym, ap, ◌∙◌, inl, inr,
  arith, done, All,
}
use libratbag.Types.{success, Device, Profile}
use libratbag.Commit.{
  Write, Driver, device_commit, old_write_profile, clean_profile, clean_button, clean_led,
  clean_resolution,
}
use libratbag.Commit.Plan.{onto, device_commit_lem, plan, Stops, profile_calls, join}

pub record ProfileIsClean (profile : Profile) : Type 0 where
  pub of_profile : profile.dirty ≡ false
  pub of_buttons : All (λ b. b.dirty ≡ false) profile.buttons
  pub of_leds : All (λ l. l.dirty ≡ false) profile.leds
  pub of_resolutions : All (λ r. r.dirty ≡ false) profile.resolutions

-- Nothing of the device is marked.
abbrev pub IsClean : Device → Type 0
IsClean device = All ProfileIsClean device.profiles

All-map {ℓ} :
    {A : Type ℓ} (P : A → Type 0) (f : A → A) (l : List A) → ((x : A) → P (f x)) → All P (map f l)
All-map P f [] h = tt
All-map P f (x ∷ l) h = (h x, All-map P f l h)

clean_profile-ProfileIsClean : (profile : Profile) → ProfileIsClean (clean_profile profile)
clean_profile-ProfileIsClean profile = record {
  of_profile = refl;
  of_buttons = All-map (λ b. b.dirty ≡ false) clean_button profile.buttons (λ b. refl);
  of_leds = All-map (λ l. l.dirty ≡ false) clean_led profile.leds (λ l. refl);
  of_resolutions = All-map (λ r. r.dirty ≡ false) clean_resolution profile.resolutions (λ r. refl);
}

map-id {ℓ} :
    {A : Type ℓ} (P : A → Type 0) (f : A → A) (l : List A)
    → ((x : A) → P x → f x ≡ x)
    → All P l
    → map f l ≡ l
map-id P f [] h a = refl
map-id P f (x ∷ l) h a = ap (λ y. y ∷ map f l) (h x a.0) ∙ ap (◌∷◌ x) (map-id P f l h a.1)

clean_profile-id : (profile : Profile) → ProfileIsClean profile → clean_profile profile ≡ profile
clean_profile-id profile c = ground (
  arith,
  c.of_profile,
  map-id (λ b. b.dirty ≡ false) clean_button profile.buttons (λ b h. ground arith) c.of_buttons,
  map-id (λ l. l.dirty ≡ false) clean_led profile.leds (λ l h. ground arith) c.of_leds,
  map-id (λ r. r.dirty ≡ false) clean_resolution profile.resolutions (λ r h. ground arith)
      c.of_resolutions,
)

no_calls :
    (driver : Driver) (l : List Profile) → All ProfileIsClean l → join (profile_calls driver) l ≡ []
no_calls driver [] c = refl
no_calls driver (p ∷ l) c = ground (arith, c.0.of_profile, no_calls driver l c.1)

append-ne_nil : (xs : List Write) (w : Write) (ys : List Write) → ¬ ([] ≡ xs ++ w ∷ ys)
append-ne_nil [] w ys h = cc
append-ne_nil (x ∷ xs) w ys h = cc

-- A plan with no calls does not stop.
not_Stops-nil :
    (driver : Driver) (ws calls calls' : List Write) → ws ≡ [] → ¬ Stops driver ws calls calls'
not_Stops-nil driver ws calls calls' h s =
    append-ne_nil s.before s.refused s.after (sym h ∙ s.split)

module _ (driver : Driver) (there : driver.has_commit || driver.has_write_profile ≡ true) where
  -- A commit that succeeds leaves nothing marked.
  succeeds-IsClean :
      (device device' : Device) (calls calls' : List Write)
      → device_commit driver device calls ≡ done (success, device', calls')
      → IsClean device'
  succeeds-IsClean device device' calls calls' returns =
      elim (device_commit_lem driver device calls there) [
        | inl (accepted, runs) ↦
            let same : record device { profiles = map clean_profile device.profiles } ≡ device' =
              ground arith in
            rw⁻¹ same
              (All-map ProfileIsClean clean_profile device.profiles clean_profile-ProfileIsClean)
        | inr (calls'', runs, s) ↦ absurd (ground arith)
      ]

-- A commit that succeeds leaves nothing marked: a second commit, by a driver with no `commit` of
-- its own, then succeeds without a single call and changes nothing.
pub device_commit-IsClean :
    (driver : Driver) (device device' : Device) (calls calls' : List Write)
    → driver.has_commit ≡ false
    → driver.has_write_profile ≡ true
    → device_commit driver device calls ≡ done (success, device', calls')
    → IsClean device' × (device_commit driver device' calls' ≡ done (success, device', calls'))
device_commit-IsClean driver device device' calls calls' no_commit there returns = (
  clean,
  elim (device_commit_lem driver device' calls' (ground arith)) [
    | inl (accepted, runs) ↦ ground (arith, runs, nothing, same)
    | inr (calls'', runs, s) ↦ absurd (not_Stops-nil driver _ calls' calls'' nothing s)
  ],
)
  where
    clean : IsClean device'
    clean = succeeds-IsClean driver (ground arith) device device' calls calls' returns

    nothing : plan driver device' ≡ []
    nothing = ground (arith, no_calls driver device'.profiles clean)

    same : map clean_profile device'.profiles ≡ device'.profiles
    same = map-id ProfileIsClean clean_profile device'.profiles clean_profile-id clean

-- A commit that succeeds has made the calls of the plan.
pub device_commit-calls :
    (driver : Driver) (device device' : Device) (calls calls' : List Write)
    → device_commit driver device calls ≡ done (success, device', calls')
    → calls' ≡ onto (plan driver device) calls
unfolding device_commit old_write_profile
device_commit-calls driver device device' calls calls' returns =
    elim (Bool-cases (driver.has_commit || driver.has_write_profile)) [
      | inr none_there ↦ absurd (ground arith)
      | inl there ↦ elim (device_commit_lem driver device calls there) [
        | inl (accepted, runs) ↦ ground arith
        | inr (calls'', runs, s) ↦ absurd (ground arith)
      ]
    ]
