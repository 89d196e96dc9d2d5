-- ===== src/Create/Shape.antt =====
-- src/libratbag.c: `ratbag_device_new` and `ratbag_device_init_profiles` build a device with the
-- counts that were asked for, and with the capabilities that follow from them.
use mathlib.Core.Path.{subst}
use libratbag.Base.{
  sym, ℕ, zero, suc, ◌+◌, ◌≤◌, ◌<◌, ◌≡◌, refl, ◌∙◌, arith, Option, none, some, List, [], ◌∷◌,
  length, get_elem?, done, All, if◌then◌else◌, ◌==◌,
}
use libratbag.Types.{Device, Profile}
use libratbag.Numbered.{descending, HasParts, indices, profile_index}
use libratbag.Create.{
  create_resolution, create_resolutions, create_button, create_buttons, create_led, create_leds,
  create_profile, create_profiles, new_profile, new_led, device_data_get_led_type,
}

create_resolutions-HasParts :
    (left i k n b l : ℕ) (p : Profile)
    → i ≡ k
    → left + k ≡ n
    → HasParts p k b l
    → HasParts (create_resolutions left i p) n b l
unfolding create_resolutions
create_resolutions-HasParts zero i k n b l p e sum h = subst (λ t. HasParts p t b l) (omega arith) h
create_resolutions-HasParts (suc left) i k n b l p e sum h =
    create_resolutions-HasParts left (i + 1) (suc k) n b l (create_resolution p i) (omega arith)
      (omega arith)
      (record {
        counted = omega (arith, h.counted);
        of_resolutions = ground (arith, h.of_resolutions);
        of_buttons = h.of_buttons;
        of_leds = h.of_leds;
      })

create_buttons-HasParts :
    (left i r k n l : ℕ) (p : Profile)
    → i ≡ k
    → left + k ≡ n
    → HasParts p r k l
    → HasParts (create_buttons left i p) r n l
unfolding create_buttons
create_buttons-HasParts zero i r k n l p e sum h = subst (λ t. HasParts p r t l) (omega arith) h
create_buttons-HasParts (suc left) i r k n l p e sum h =
    create_buttons-HasParts left (i + 1) r (suc k) n l (create_button p i) (omega arith)
      (omega arith)
      (record {
        counted = h.counted;
        of_resolutions = h.of_resolutions;
        of_buttons = ground (arith, h.of_buttons);
        of_leds = h.of_leds;
      })

index-create_resolutions :
    (left i : ℕ) (p : Profile) → (create_resolutions left i p).index ≡ p.index
unfolding create_resolutions
index-create_resolutions zero i p = refl
index-create_resolutions (suc left) i p =
    index-create_resolutions left (i + 1) (create_resolution p i)

index-create_buttons : (left i : ℕ) (p : Profile) → (create_buttons left i p).index ≡ p.index
unfolding create_buttons
index-create_buttons zero i p = refl
index-create_buttons (suc left) i p = index-create_buttons left (i + 1) (create_button p i)

-- The data file has a type for each of `n` LEDs, or there is no data file.
abbrev pub HasLedTypes : Option (List ℕ) → ℕ → Type 0
HasLedTypes none n = Unit {0}
HasLedTypes (some led_types) n = n ≤ length led_types

get_elem?-some : (l : List ℕ) (i : ℕ) → i < length l → (x : ℕ) × (get_elem? l i ≡ some x)
get_elem?-some [] i h = absurd (omega arith)
get_elem?-some (x ∷ l) zero h = (x, refl)
get_elem?-some (x ∷ l) (suc i) h = get_elem?-some l i (omega arith)

create_led-HasParts :
    (device_data : Option (List ℕ)) (i r b n : ℕ) (p : Profile)
    → i < n
    → HasLedTypes device_data n
    → HasParts p r b i
    → (p' : Profile) × (create_led device_data p i ≡ done p')
      × HasParts p' r b (suc i)
      × (p'.index ≡ p.index)
unfolding create_led
create_led-HasParts none i r b n p lt t h = (
  record p { leds = new_led i 0 ∷ p.leds },
  refl,
  record {
    counted = h.counted;
    of_resolutions = h.of_resolutions;
    of_buttons = h.of_buttons;
    of_leds = ground (arith, h.of_leds);
  },
  refl,
)
create_led-HasParts (some led_types) i r b n p lt t h =
    let (led_type, e) = get_elem?-some led_types i (omega arith) in
    (
      record p { leds = new_led i led_type ∷ p.leds },
      rw (e, device_data_get_led_type),
      record {
        counted = h.counted;
        of_resolutions = h.of_resolutions;
        of_buttons = h.of_buttons;
        of_leds = ground (arith, h.of_leds);
      },
      refl,
    )

create_leds-HasParts :
    (device_data : Option (List ℕ)) (left i r b k n : ℕ) (p : Profile)
    → i ≡ k
    → left + k ≡ n
    → HasLedTypes device_data n
    → HasParts p r b k
    → (p' : Profile) × (create_leds device_data left i p ≡ done p')
      × HasParts p' r b n
      × (p'.index ≡ p.index)
unfolding create_leds
create_leds-HasParts device_data zero i r b k n p e sum t h =
    (p, refl, subst (λ t. HasParts p r b t) (omega arith) h, refl)
create_leds-HasParts device_data (suc left) i r b k n p e sum t h =
    let (q, made, parts, index) =
      create_led-HasParts device_data i r b n p (omega arith) t
        (subst (λ t. HasParts p r b t) (sym e) h) in
    let (p', made', parts', index') =
      create_leds-HasParts device_data left (i + 1) r b (suc i) n q (omega arith) (omega arith) t
        parts in
    (p', rw made made', parts', index' ∙ index)

-- Each profile of the list has these parts.
abbrev pub AllHaveParts : Device → ℕ → ℕ → ℕ → Type 0
AllHaveParts device r b l = All (λ p. HasParts p r b l) device.profiles

-- What `left` rounds of the loop of `ratbag_device_init_profiles` make of a device, up to `n`
-- profiles with these parts.
pub record Created (device device' : Device) (left n r b l : ℕ) : Type 0 where
  pub numbered : indices profile_index device'.profiles ≡ descending n
  pub parts : AllHaveParts device' r b l
  pub buttons : device'.num_buttons ≡ (if left == 0 then device.num_buttons else b)
  pub leds : device'.num_leds ≡ (if left == 0 then device.num_leds else l)
  pub rest : device' ≡ record device {
    profiles = device'.profiles;
    num_buttons = device'.num_buttons;
    num_leds = device'.num_leds;
  }

module _ (r b l : ℕ) where
  pub create_profile-HasParts :
      (device : Device) (i : ℕ)
      → HasLedTypes device.device_data l
      → (p : Profile) × (create_profile device i r b l
          ≡ done (record device { profiles = p ∷ device.profiles; num_buttons = b; num_leds = l }))
        × HasParts p r b l
        × (p.index ≡ i)
  unfolding create_profile
  create_profile-HasParts device i t =
      let (p, made, parts, index) =
        create_leds-HasParts device.device_data l 0 r b 0 l
          (create_buttons b 0 (create_resolutions r 0 (new_profile i))) refl (omega arith) t
          (create_buttons-HasParts b 0 r 0 b 0 _ refl (omega arith) (
            create_resolutions-HasParts r 0 0 r 0 0 (new_profile i) refl (omega arith) (record {
              counted = refl;
              of_resolutions = refl;
              of_buttons = refl;
              of_leds = refl;
            }))) in
      (
        p,
        rw made,
        parts,
        index ∙ index-create_buttons b 0 _ ∙ index-create_resolutions r 0 (new_profile i),
      )

  pub create_profiles-HasParts :
      (left i k n : ℕ) (device : Device)
      → i ≡ k
      → left + k ≡ n
      → HasLedTypes device.device_data l
      → indices profile_index device.profiles ≡ descending k
      → AllHaveParts device r b l
      → (device' : Device) × (create_profiles left i r b l device ≡ done device')
        × Created device device' left n r b l
  unfolding create_profiles
  create_profiles-HasParts zero i k n device e sum t numbered parts = (
    device,
    refl,
    record {
      numbered =
          subst (λ t. indices profile_index device.profiles ≡ descending t) (omega arith) numbered;
      parts = parts;
      buttons = refl;
      leds = refl;
      rest = refl;
    },
  )
  create_profiles-HasParts (suc left) i k n device e sum t numbered parts =
      let (p, made, has_parts, index) = create_profile-HasParts device i t in
      let (device', made', c) =
        create_profiles-HasParts left (i + 1) (suc k) n
          (record device { profiles = p ∷ device.profiles; num_buttons = b; num_leds = l })
          (omega arith) (omega arith) t (ground arith) (has_parts, parts) in
      (
        device',
        rw made made',
        record {
          numbered = c.numbered;
          parts = c.parts;
          buttons = ground (arith, c.buttons);
          leds = ground (arith, c.leds);
          rest = c.rest;
        },
      )
