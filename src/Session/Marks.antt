-- ===== src/Session/Marks.antt =====
-- src/libratbag.c: the ways in which calls change a device, and the marks that they leave.
use libratbag.Base.{
  ℕ, Bool, true, Option, none, some, List, map, modify, get_elem?, if◌then◌else◌, ◌≡◌, refl, ◌⊎◌,
  inl, inr, arith, Outcome, done, deref, >>=-eq-done, set_self,
}
use libratbag.Types.{ErrorCode, success, error_capability, Device, Profile, Button, Led}
use libratbag.Refs.{put_profile}
use libratbag.Capability.{profile_has_capability, cap_writable_name}
use libratbag.Settings.{
  guarded, change_profile, change_button, change_led, profile_set_name, profile_set_active,
  deactivate_profile,
}
use libratbag.Session.{on_profile}
use libratbag.Session.Rates.{Kept, deref-eq-done}
use libratbag.Session.Pairs.{Pairs-refl, Pairs-modify, Pairs-map, Pairs-set, Pairs-trans}
use libratbag.Session.Tracks.{
  Tracks, Tracks-refl, ProfileTracks, ProfileTracks-refl, ProfileTracks-trans, ProfileTracks-parts,
  ButtonTracks, ButtonTracks-refl, LedTracks, LedTracks-refl, ResolutionTracks,
  ResolutionTracks-refl,
}

-- The result of a call: it tracks the changes, and there are none if it failed.
pub record Behaves (device : Device) (code : ErrorCode) (device' : Device) : Type 0 where
  pub tracks : Tracks device device'
  pub atomic : (code ≡ success) ⊎ (device' ≡ device)

pub Behaves-same : (device : Device) (code : ErrorCode) → Behaves device code device
Behaves-same device code = record { tracks = Tracks-refl device; atomic = inr refl }

pub Tracks-change_profile :
    (device : Device) (p : ℕ) (f : Profile → Profile)
    → ((q : Profile) → ProfileTracks q (f q))
    → Tracks device (change_profile device p f)
Tracks-change_profile device p f h = record {
  rest = refl;
  profiles = Pairs-modify ProfileTracks ProfileTracks-refl f h device.profiles p;
}

pub Tracks-change_button :
    (device : Device) (p i : ℕ) (f : Button → Button)
    → ((b : Button) → (f b).index ≡ b.index)
    → Tracks device (change_button device p i f)
Tracks-change_button device p i f h = Tracks-change_profile device p _ λ q. record {
  index = refl;
  num_resolutions = refl;
  mark = inl refl;
  buttons =
      Pairs-modify ButtonTracks ButtonTracks-refl (λ b. record (f b) { dirty = true })
        (λ b. record { index = h b; mark = inl refl }) q.buttons i;
  leds = Pairs-refl LedTracks LedTracks-refl q.leds;
  resolutions = Pairs-refl ResolutionTracks ResolutionTracks-refl q.resolutions;
}

pub Tracks-change_led :
    (device : Device) (p i : ℕ) (f : Led → Led)
    → ((l : Led) → (f l).index ≡ l.index)
    → Tracks device (change_led device p i f)
Tracks-change_led device p i f h = Tracks-change_profile device p _ λ q. record {
  index = refl;
  num_resolutions = refl;
  mark = inl refl;
  buttons = Pairs-refl ButtonTracks ButtonTracks-refl q.buttons;
  leds =
      Pairs-modify LedTracks LedTracks-refl (λ l. record (f l) { dirty = true })
        (λ l. record { index = h l; mark = inl refl }) q.leds i;
  resolutions = Pairs-refl ResolutionTracks ResolutionTracks-refl q.resolutions;
}

pub guarded-Behaves :
    {A : Type 0} (object : Option A) (device : Device) (cap : ℕ) (changed : Device)
    (code : ErrorCode) (device' : Device)
    → Tracks device changed
    → guarded object device cap changed ≡ done (code, device')
    → Behaves device code device'
guarded-Behaves object device cap changed code device' h e =
    elim (guarded-cases object device cap changed code device' e) [
      | inl (ok, same) ↦ rw (ok, same) (record { tracks = h; atomic = inl refl })
      | inr same ↦ rw same (Behaves-same device code)
    ]
  where
    guarded-cases :
        {A : Type 0} (object : Option A) (device : Device) (cap : ℕ) (changed : Device)
        (code : ErrorCode) (device' : Device)
        → guarded object device cap changed ≡ done (code, device')
        → ((code ≡ success) × (device' ≡ changed)) ⊎ (device' ≡ device)
    guarded-cases none device cap changed code device' e = absurd (ground arith)
    guarded-cases (some x) device cap changed code device' e = ground arith

-- A call on one of the profile's resolutions.
pub on_profile-Behaves :
    (device : Device) (p : ℕ) (f : Profile → Outcome (ErrorCode × Profile)) (code : ErrorCode)
    (device' : Device)
    → ((q q' : Profile) (c : ErrorCode) → f q ≡ done (c, q') → Kept q c q')
    → on_profile device p f ≡ done (code, device')
    → Behaves device code device'
unfolding on_profile
on_profile-Behaves device p f code device' h e =
    let (q, found, runs) = >>=-eq-done (deref (get_elem? device.profiles p)) _ e in
    let there = deref-eq-done (get_elem? device.profiles p) q found in
    let ((c, q'), called, stored) = >>=-eq-done (f q) _ runs in
    let kept = h q q' c called in
    let same : device' ≡ put_profile device p q' = ground arith in
    record {
      tracks = rw same (record {
        rest = refl;
        profiles =
            Pairs-set ProfileTracks ProfileTracks-refl device.profiles p q q' there
              (λ x' eq. rw eq kept.0);
      });
      atomic = ground (arith, kept.1, set_self device.profiles p q there);
    }

pub profile_set_name-Behaves :
    (device : Device) (p : ℕ) (name : Option (List ℕ)) (code : ErrorCode) (device' : Device)
    → profile_set_name device p name ≡ done (code, device')
    → Behaves device code device'
unfolding profile_set_name
profile_set_name-Behaves device p name code device' e =
    let (q, found, runs) = >>=-eq-done (deref (get_elem? device.profiles p)) _ e in
    let (has, answered, stored) = >>=-eq-done (profile_has_capability q cap_writable_name) _ runs in
    elim (written has stored) [
      | inl (ok, same) ↦
          rw (ok, same)
            (record {
              tracks =
                  Tracks-change_profile device p _ λ q. ProfileTracks-parts q _ refl (inl refl);
              atomic = inl refl;
            })
      | inr same ↦ rw same (Behaves-same device code)
    ]
  where
    changed : Device
    changed = change_profile device p (λ profile. record profile { name = name; dirty = true })

    stored_if : Bool → ErrorCode × Device
    stored_if has = if has then (success, changed) else (error_capability, device)

    written :
        (has : Bool)
        → ◌≡◌ {A = Outcome (ErrorCode × Device)} (done (stored_if has)) (done (code, device'))
        → ((code ≡ success) × (device' ≡ changed)) ⊎ (device' ≡ device)
    written has e = ground arith

pub profile_set_active-Behaves :
    (driver : Option (Device → ℕ → Bool)) (device : Device) (p : ℕ) (code : ErrorCode)
    (device' : Device)
    → profile_set_active driver device p ≡ done (code, device')
    → Behaves device code device'
unfolding profile_set_active
profile_set_active-Behaves driver device p code device' e = elim (cases e) [
  | inl (ok, same) ↦
      rw (ok, same)
        (record {
          tracks = record {
            rest = refl;
            profiles =
                Pairs-trans ProfileTracks ProfileTracks-trans device.profiles off _
                  (Pairs-map ProfileTracks deactivate_profile
                    (λ q. ProfileTracks-parts q _ refl (inr refl)) device.profiles)
                  (Pairs-modify ProfileTracks ProfileTracks-refl activate
                    (λ q. ProfileTracks-parts q _ refl (inr refl)) off p);
          };
          atomic = inl refl;
        })
  | inr same ↦ rw same (Behaves-same device code)
]
  where
    off : List Profile
    off = map deactivate_profile device.profiles

    activate : Profile → Profile
    activate q = record q { is_active = true }

    cases :
        profile_set_active driver device p ≡ done (code, device')
        → ((code ≡ success) × (device' ≡ record device { profiles = modify off p activate }))
          ⊎ (device' ≡ device)
    cases e = ground arith
