-- ===== src/Create/Init.antt =====
-- src/libratbag.c: the device that `ratbag_device_init_profiles` leaves.
use mathlib.Core.Path.{subst}
use libratbag.Base.{
  ℕ, ◌*◌, ◌/◌, ◌%◌, ◌<◌, ◌≡◌, refl, sym, ap, ◌∙◌, ◌⊎◌, inl, arith, Bool, true, false, ◌||◌, List,
  [], ◌∷◌, ◌++◌, done, All, ltb, if◌then◌else◌, ◌==◌,
}
use libratbag.Types.{Device, Profile}
use libratbag.Bitmap.{long_bit_is_set}
use libratbag.Capability.{
  device_set_capability, max_cap, cap_resolution, cap_switchable_resolution, cap_profile,
  cap_switchable_profile, cap_button, cap_button_key, cap_led,
}
use libratbag.Capability.Laws.{
  IsClosed, HasParent, device_set_capability-IsClosed, device_set_capability_total,
}
use libratbag.Numbered.{HasParts, IsNumbered, ProfileIsNumbered}
use libratbag.Create.{device_init_profiles, set_capabilities}
use libratbag.Create.Shape.{HasLedTypes, AllHaveParts, Created, create_profiles-HasParts}

abbrev pub contains : List ℕ → ℕ → Bool
contains [] c = false
contains (x ∷ xs) c = (x == c) || contains xs c

-- The device with more capabilities: those of the list, and no others.
pub record Gains (caps : List ℕ) (device device' : Device) : Type 0 where
  pub closed : IsClosed device'.capabilities
  pub same : device' ≡ record device { capabilities = device'.capabilities }
  pub gained :
      (c : ℕ)
      → long_bit_is_set device'.capabilities c
        ≡ contains caps c || long_bit_is_set device.capabilities c

Gains-set_capability :
    (device : Device) (cap : ℕ)
    → 0 < cap
    → cap < max_cap
    → IsClosed device.capabilities
    → HasParent device.capabilities cap
    → (device' : Device) × (device_set_capability device cap ≡ done device')
      × Gains (cap ∷ []) device device'
Gains-set_capability device cap pos small closed parent =
    let returns = device_set_capability_total device cap pos small parent in
    let (closed', same, _, _, adds) = device_set_capability-IsClosed device _ cap returns closed in
    (_, returns, record { closed = closed'; same = same; gained = λ c. ground (arith, adds c) })

-- Each number is a capability in range whose parent, if it has one, comes before it.
abbrev Admissible : List ℕ → List ℕ → Type 0
Admissible before [] = Unit {0}
Admissible before (cap ∷ caps) =
    (0 < cap)
    × (cap < max_cap)
    × ((cap % 100 ≡ 0) ⊎ (contains before (cap / 100 * 100) ≡ true))
    × Admissible (cap ∷ before) caps

Gains-set_capabilities :
    (before caps : List ℕ) (device : Device)
    → IsClosed device.capabilities
    → ((c : ℕ) → (contains before c ≡ false) ⊎ (long_bit_is_set device.capabilities c ≡ true))
    → Admissible before caps
    → (device' : Device) × (set_capabilities caps device ≡ done device') × Gains caps device device'
unfolding set_capabilities
Gains-set_capabilities before [] device closed there a =
    (device, refl, record { closed = closed; same = refl; gained = λ c. refl })
Gains-set_capabilities before (cap ∷ caps) device closed there a =
    let (device', made, g) =
      Gains-set_capability device cap a.0 a.1 closed
        (ground (arith, a.2, there (cap / 100 * 100))) in
    let (device'', made', g') =
      Gains-set_capabilities (cap ∷ before) caps device' g.closed
        (λ c. ground (arith, g.gained c, there c)) a.3 in
    (
      device'',
      rw made made',
      record {
        closed = g'.closed;
        same = ground (arith, g.same, g'.same);
        gained = λ c. ground (arith, g.gained c, g'.gained c);
      },
    )

abbrev caps_of_profiles : ℕ → List ℕ
caps_of_profiles n =
    if ltb 1 n then cap_profile ∷ cap_switchable_profile ∷ cap_button ∷ cap_button_key ∷ [] else []

abbrev caps_of_resolutions : ℕ → List ℕ
caps_of_resolutions n = if ltb 1 n then cap_resolution ∷ cap_switchable_resolution ∷ [] else []

abbrev caps_of_leds : ℕ → List ℕ
caps_of_leds n = if ltb 0 n then cap_led ∷ [] else []

contains-append : (xs ys : List ℕ) (c : ℕ) → contains (xs ++ ys) c ≡ contains xs c || contains ys c
contains-append [] ys c = refl
contains-append (x ∷ xs) ys c = ground (arith, contains-append xs ys c)

Gains-append :
    (xs ys : List ℕ) (d d' d'' : Device) → Gains xs d d' → Gains ys d' d'' → Gains (xs ++ ys) d d''
Gains-append xs ys d d' d'' g g' = record {
  closed = g'.closed;
  same = ground (arith, g.same, g'.same);
  gained = λ c. ground (arith, g.gained c, g'.gained c, contains-append xs ys c);
}

-- The capabilities that follow from the counts alone.
abbrev pub caps_of_counts : ℕ → ℕ → ℕ → List ℕ
caps_of_counts profiles resolutions leds =
    caps_of_profiles profiles ++ (caps_of_resolutions resolutions ++ caps_of_leds leds)

Gains-counts :
    (n r l : ℕ) (device : Device)
    → IsClosed device.capabilities
    → (d1 : Device) × (d2 : Device) × (d3 : Device) × (set_capabilities (caps_of_profiles n) device
        ≡ done d1)
      × (set_capabilities (caps_of_resolutions r) d1 ≡ done d2)
      × (set_capabilities (caps_of_leds l) d2 ≡ done d3)
      × Gains (caps_of_counts n r l) device d3
Gains-counts n r l device closed =
    let (d1, made1, g1) =
      Gains-set_capabilities [] (caps_of_profiles n) device closed (λ c. inl refl)
        (of_profiles n) in
    let (d2, made2, g2) =
      Gains-set_capabilities [] (caps_of_resolutions r) d1 g1.closed (λ c. inl refl)
        (of_resolutions r) in
    let (d3, made3, g3) =
      Gains-set_capabilities [] (caps_of_leds l) d2 g2.closed (λ c. inl refl) (of_leds l) in
    (
      d1,
      d2,
      d3,
      made1,
      made2,
      made3,
      Gains-append _ _ device d1 d3 g1 (Gains-append _ _ d1 d2 d3 g2 g3),
    )
  where
    of_profiles : (n : ℕ) → Admissible [] (caps_of_profiles n)
    of_profiles n = ground arith

    of_resolutions : (r : ℕ) → Admissible [] (caps_of_resolutions r)
    of_resolutions r = ground arith

    of_leds : (l : ℕ) → Admissible [] (caps_of_leds l)
    of_leds l = ground arith

-- The device has the counts that were asked for, its objects are numbered, and its capabilities
-- are the old ones and those that follow from the counts.
pub record IsInitialised (device device' : Device) (profiles resolutions buttons leds : ℕ)
    : Type 0 where
  pub numbered : IsNumbered device'
  pub num_profiles : device'.num_profiles ≡ profiles
  pub num_buttons : device'.num_buttons ≡ buttons
  pub num_leds : device'.num_leds ≡ leds
  pub parts : AllHaveParts device' resolutions buttons leds
  pub closed : IsClosed device'.capabilities
  pub capabilities :
      (c : ℕ)
      → long_bit_is_set device'.capabilities c
        ≡ contains (caps_of_counts profiles resolutions leds) c
          || long_bit_is_set device.capabilities c

AllHaveParts-IsNumbered :
    (r b l : ℕ) (ps : List Profile)
    → All (λ p. HasParts p r b l) ps
    → All (ProfileIsNumbered b l) ps
AllHaveParts-IsNumbered r b l [] h = tt
AllHaveParts-IsNumbered r b l (p ∷ ps) h =
    (subst (λ t. HasParts p t b l) (sym h.0.counted) h.0, AllHaveParts-IsNumbered r b l ps h.1)

Created-IsInitialised :
    (device d0 d3 : Device) (n r b l : ℕ)
    → 0 < n
    → Created device d0 n n r b l
    → Gains (caps_of_counts n r l) (record d0 { num_profiles = n }) d3
    → IsInitialised device d3 n r b l
Created-IsInitialised device d0 d3 n r b l pos c g = record {
  numbered = record {
    of_profiles = ground (arith, g.same, c.numbered);
    of_parts =
        rw
          (ap (λ d. d.profiles) g.same, ap (λ d. d.num_buttons) g.same, ap (λ d. d.num_leds) g.same)
          (rw (buttons, leds) (AllHaveParts-IsNumbered r b l d0.profiles c.parts));
  };
  num_profiles = ground (arith, g.same);
  num_buttons = ap (λ d. d.num_buttons) g.same ∙ buttons;
  num_leds = ap (λ d. d.num_leds) g.same ∙ leds;
  parts = rw (ap (λ d. d.profiles) g.same) c.parts;
  closed = g.closed;
  capabilities = λ i. ground (arith, g.gained i, c.rest);
}
  where
    buttons : d0.num_buttons ≡ b
    buttons = ground (arith, c.buttons)

    leds : d0.num_leds ≡ l
    leds = ground (arith, c.leds)

-- On a device with no profiles yet and a closed set of capabilities, `ratbag_device_init_profiles`
-- returns without aborting, provided that it is asked for at least one profile and that the data
-- file, if there is one, has a type for each LED. The device then has the counts that were asked
-- for, the objects of each list are numbered, and the capabilities gained are those that follow
-- from the counts.
pub device_init_profiles-IsInitialised :
    (device : Device) (profiles resolutions buttons leds : ℕ)
    → 0 < profiles
    → device.profiles ≡ []
    → IsClosed device.capabilities
    → HasLedTypes device.device_data leds
    → (device' : Device) × (device_init_profiles device profiles resolutions buttons leds
        ≡ done device')
      × IsInitialised device device' profiles resolutions buttons leds
unfolding device_init_profiles
device_init_profiles-IsInitialised device n r b l pos fresh closed t =
    let (d0, made, c) =
      create_profiles-HasParts r b l n 0 0 n device refl (omega arith) t (rw fresh) (rw fresh tt) in
    let (d1, d2, d3, made1, made2, made3, g) =
      Gains-counts n r l (record d0 { num_profiles = n })
        (subst IsClosed (sym (ap (λ d. d.capabilities) c.rest)) closed) in
    (d3, rw (made, made1, made2) made3, Created-IsInitialised device d0 d3 n r b l pos c g)
