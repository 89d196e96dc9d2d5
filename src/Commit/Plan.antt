-- ===== src/Commit/Plan.antt =====
-- src/libratbag.c: the calls that a commit makes, as a list that is made in order up to the first
-- call that the driver refuses.
use libratbag.Base.{
  Bool, true, false, ◌||◌, List, [], ◌∷◌, ◌++◌, map, if◌then◌else◌, ◌≡◌, refl, ap, ◌∙◌, ◌⊎◌, inl,
  inr, arith, done, Bool-cases,
}
use libratbag.Types.{success, error_device, Device, Profile, Resolution, Button, Led}
use libratbag.Commit.{
  Write, commit, write_profile, write_resolution_dpi, write_button, write_led, Driver, Written,
  issue, and_then, for_each, write_resolution, write_dirty_button, write_led_helper,
  write_dirty_led, when, write_dirty_profile, old_write_profile, device_commit, finish,
  clean_profile,
}

abbrev pub dpi_call : Resolution → List Write
dpi_call res = write_resolution_dpi res res.dpi_x res.dpi_y ∷ []

abbrev pub button_call : Button → List Write
button_call button = if button.dirty then write_button button button.action ∷ [] else []

abbrev pub led_call : Led → List Write
led_call led = if led.dirty then write_led led led.mode led.color led.ms led.brightness ∷ [] else []

abbrev pub join {ℓ} : {A : Type ℓ} → (A → List Write) → List A → List Write
join f [] = []
join f (x ∷ xs) = f x ++ join f xs

abbrev pub only_if : Bool → List Write → List Write
only_if there calls = if there then calls else []

-- For a marked profile: the profile, all its resolutions, its marked buttons and its marked LEDs,
-- as far as the driver has a function for them.
abbrev pub profile_calls : Driver → Profile → List Write
profile_calls driver profile =
    if profile.dirty
    then write_profile profile
        ∷ only_if driver.has_write_resolution_dpi (join dpi_call profile.resolutions)
      ++ only_if driver.has_write_button (join button_call profile.buttons)
      ++ only_if driver.has_write_led (join led_call profile.leds)
    else []

-- The calls of a commit.
abbrev pub plan : Driver → Device → List Write
plan driver device =
    if driver.has_commit then commit device ∷ [] else join (profile_calls driver) device.profiles

-- The calls in order, on top of those made before.
abbrev pub onto : List Write → List Write → List Write
onto [] calls = calls
onto (w ∷ ws) calls = onto ws (w ∷ calls)

-- The driver accepts the calls, one after another.
abbrev pub AllAccepted : Driver → List Write → List Write → Type 0
AllAccepted driver [] calls = Unit {0}
AllAccepted driver (w ∷ ws) calls =
    (driver.accepts calls w ≡ true) × AllAccepted driver ws (w ∷ calls)

-- The calls are accepted up to `refused`, which is not.
pub record Stops (driver : Driver) (ws calls calls' : List Write) : Type 0 where
  pub before : List Write
  pub refused : Write
  pub after : List Write
  pub split : ws ≡ before ++ refused ∷ after
  pub accepted : AllAccepted driver before calls
  pub refuses : driver.accepts (onto before calls) refused ≡ false
  pub made : calls' ≡ refused ∷ onto before calls

-- The calls, made in order up to the first that is refused.
abbrev execute : Driver → List Write → List Write → Written
execute driver [] calls = (success, calls)
execute driver (w ∷ ws) calls =
    if driver.accepts calls w then execute driver ws (w ∷ calls) else (error_device, w ∷ calls)

execute-append :
    (driver : Driver) (xs ys calls : List Write)
    → and_then (execute driver xs calls) (execute driver ys) ≡ execute driver (xs ++ ys) calls
unfolding and_then
execute-append driver [] ys calls = refl
execute-append driver (x ∷ xs) ys calls = ground (arith, execute-append driver xs ys (x ∷ calls))

for_each-execute {ℓ} :
    {A : Type ℓ} (driver : Driver) (body : A → List Write → Written) (f : A → List Write)
    → ((x : A) (calls : List Write) → body x calls ≡ execute driver (f x) calls)
    → (l : List A) (calls : List Write) → for_each body l calls ≡ execute driver (join f l) calls
unfolding for_each
for_each-execute driver body f h [] calls = refl
for_each-execute driver body f h (x ∷ xs) calls = rw (h x calls) (
    ap (and_then (execute driver (f x) calls)) (λ i c. for_each-execute driver body f h xs c i)
    ∙ execute-append driver (f x) (join f xs) calls)

write_resolution-execute :
    (driver : Driver) (res : Resolution) (calls : List Write)
    → write_resolution driver res calls ≡ execute driver (dpi_call res) calls
unfolding write_resolution issue
write_resolution-execute driver res calls = ground arith

write_dirty_button-execute :
    (driver : Driver) (button : Button) (calls : List Write)
    → write_dirty_button driver button calls ≡ execute driver (button_call button) calls
unfolding write_dirty_button issue
write_dirty_button-execute driver button calls = ground arith

write_dirty_led-execute :
    (driver : Driver) (led : Led) (calls : List Write)
    → write_dirty_led driver led calls ≡ execute driver (led_call led) calls
unfolding write_dirty_led write_led_helper issue
write_dirty_led-execute driver led calls = ground arith

when-execute :
    (driver : Driver) (there : Bool) (body : List Write → Written) (ws : List Write)
    → ((calls : List Write) → body calls ≡ execute driver ws calls)
    → (calls : List Write) → when there body calls ≡ execute driver (only_if there ws) calls
when-execute driver true body ws h calls = h calls
when-execute driver false body ws h calls = refl

-- Two steps, one after the other.
and_then-execute :
    (driver : Driver) (xs ys calls : List Write) (r : Written) (next : List Write → Written)
    → r ≡ execute driver xs calls
    → ((c : List Write) → next c ≡ execute driver ys c)
    → and_then r next ≡ execute driver (xs ++ ys) calls
and_then-execute driver xs ys calls r next h1 h2 =
    ap (λ r'. and_then r' next) h1
    ∙ ap (and_then (execute driver xs calls)) (λ i c. h2 c i)
    ∙ execute-append driver xs ys calls

if-execute :
    (driver : Driver) (b : Bool) (r : Written) (ws calls : List Write)
    → r ≡ execute driver ws calls
    → (if b then r else (success, calls)) ≡ execute driver (if b then ws else []) calls
if-execute driver true r ws calls h = h
if-execute driver false r ws calls h = refl

write_dirty_profile-execute :
    (driver : Driver) (profile : Profile) (calls : List Write)
    → write_dirty_profile driver profile calls ≡ execute driver (profile_calls driver profile) calls
unfolding write_dirty_profile issue
write_dirty_profile-execute driver profile calls =
    if-execute driver profile.dirty _ (write_profile profile ∷ dpis ++ buttons ++ leds) calls (
      and_then-execute driver ((write_profile profile ∷ dpis) ++ buttons) leds calls _ _
        (and_then-execute driver (write_profile profile ∷ dpis) buttons calls _ _
          (and_then-execute driver (write_profile profile ∷ []) dpis calls _ _ (ground arith) (
            when-execute driver _ _ _ (
              for_each-execute driver _ dpi_call (write_resolution-execute driver)
                profile.resolutions)))
          (when-execute driver _ _ _ (
            for_each-execute driver _ button_call (write_dirty_button-execute driver)
              profile.buttons)))
        (when-execute driver _ _ _
          (for_each-execute driver _ led_call (write_dirty_led-execute driver) profile.leds)))
  where
    dpis : List Write
    dpis = only_if driver.has_write_resolution_dpi (join dpi_call profile.resolutions)

    buttons : List Write
    buttons = only_if driver.has_write_button (join button_call profile.buttons)

    leds : List Write
    leds = only_if driver.has_write_led (join led_call profile.leds)

execute-cases :
    (driver : Driver) (ws calls : List Write)
    → (AllAccepted driver ws calls × (execute driver ws calls ≡ (success, onto ws calls)))
      ⊎ ((calls' : List Write) × (execute driver ws calls ≡ (error_device, calls'))
          × Stops driver ws calls calls')
execute-cases driver [] calls = inl (tt, refl)
execute-cases driver (w ∷ ws) calls = elim (Bool-cases (driver.accepts calls w)) [
  | inr e ↦ inr (
    w ∷ calls,
    rw e,
    record {
      before = [];
      refused = w;
      after = ws;
      split = refl;
      accepted = tt;
      refuses = e;
      made = refl;
    },
  )
  | inl e ↦ elim (execute-cases driver ws (w ∷ calls)) [
    | inl (accepted, runs) ↦ inl ((e, accepted), rw e runs)
    | inr (calls', runs, s) ↦ inr (
      calls',
      rw e runs,
      record {
        before = w ∷ s.before;
        refused = s.refused;
        after = s.after;
        split = ap (◌∷◌ w) s.split;
        accepted = (e, s.accepted);
        refuses = s.refuses;
        made = s.made;
      },
    )
  ]
]

device_commit-execute :
    (driver : Driver) (device : Device) (calls : List Write)
    → driver.has_commit || driver.has_write_profile ≡ true
    → device_commit driver device calls
      ≡ done (finish device (execute driver (plan driver device) calls))
unfolding device_commit old_write_profile issue
device_commit-execute driver device calls there = elim (Bool-cases driver.has_commit) [
  | inl e ↦ ground arith
  | inr e ↦ ground (
    arith,
    for_each-execute driver (write_dirty_profile driver) (profile_calls driver)
        (write_dirty_profile-execute driver) device.profiles calls,
  )
]

-- A commit with a driver that has `commit` or `write_profile` makes the calls of the plan in their
-- order. Either the driver accepts all of them, the commit succeeds, and it takes the marks away;
-- or it stops at the first call that the driver refuses, says so, and leaves the device and all
-- its marks as they were.
pub device_commit_lem :
    (driver : Driver) (device : Device) (calls : List Write)
    → driver.has_commit || driver.has_write_profile ≡ true
    → (AllAccepted driver (plan driver device) calls
        × (device_commit driver device calls
            ≡ done (
              success,
              record device { profiles = map clean_profile device.profiles },
              onto (plan driver device) calls,
            )))
      ⊎ ((calls' : List Write) × (device_commit driver device calls
            ≡ done (error_device, device, calls'))
          × Stops driver (plan driver device) calls calls')
unfolding finish
device_commit_lem driver device calls there =
    rw (device_commit-execute driver device calls there)
      (elim (execute-cases driver (plan driver device) calls) [
        | inl (accepted, runs) ↦ inl (accepted, ap (λ w. done (finish device w)) runs)
        | inr (calls', runs, s) ↦ inr (calls', ap (λ w. done (finish device w)) runs, s)
      ])
