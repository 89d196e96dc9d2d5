-- ===== src/Session/Tracks.antt =====
-- What a call of a client may do to the device, and the marks that it leaves.
use libratbag.Base.{true, false, ◌≡◌, refl, ◌⊎◌, inr, arith, ◌∙◌, ap}
use libratbag.Types.{Device, Profile, Resolution, Button, Led}
use libratbag.Session.Pairs.{Pairs, Pairs-trans, Pairs-refl}

pub record ButtonTracks (old new : Button) : Type 0 where
  pub index : new.index ≡ old.index
  pub mark : (new.dirty ≡ true) ⊎ (new ≡ old)

pub record LedTracks (old new : Led) : Type 0 where
  pub index : new.index ≡ old.index
  pub mark : (new.dirty ≡ true) ⊎ (new ≡ old)

-- A resolution that is not marked is as it was, but that it may be active or not, or the default
-- or not.
pub record ResolutionTracks (old new : Resolution) : Type 0 where
  pub index : new.index ≡ old.index
  pub kept : (old.dirty ≡ false) ⊎ (new.dirty ≡ true)
  pub mark :
      (new.dirty ≡ true)
      ⊎ (new ≡ record old {
        is_active = new.is_active;
        is_default = new.is_default;
        dirty = new.dirty;
      })

-- A profile that is not marked is as it was, with all its parts, but that it may be active or not.
pub record ProfileTracks (old new : Profile) : Type 0 where
  pub index : new.index ≡ old.index
  pub num_resolutions : new.num_resolutions ≡ old.num_resolutions
  pub mark : (new.dirty ≡ true) ⊎ (new ≡ record old { is_active = new.is_active })
  pub buttons : Pairs ButtonTracks old.buttons new.buttons
  pub leds : Pairs LedTracks old.leds new.leds
  pub resolutions : Pairs ResolutionTracks old.resolutions new.resolutions

-- The device has the same objects, and nothing else of it has changed. A button or an LED that is
-- not as it was is marked; a resolution need not be where only the active or the default one
-- changes.
pub record Tracks (old new : Device) : Type 0 where
  pub rest : new ≡ record old { profiles = new.profiles }
  pub profiles : Pairs ProfileTracks old.profiles new.profiles

pub ButtonTracks-refl : (x : Button) → ButtonTracks x x
ButtonTracks-refl x = record { index = refl; mark = inr refl }

pub LedTracks-refl : (x : Led) → LedTracks x x
LedTracks-refl x = record { index = refl; mark = inr refl }

pub ResolutionTracks-refl : (x : Resolution) → ResolutionTracks x x
ResolutionTracks-refl x = record { index = refl; kept = ground arith; mark = inr refl }

ButtonTracks-trans : (x y z : Button) → ButtonTracks x y → ButtonTracks y z → ButtonTracks x z
ButtonTracks-trans x y z h k = record {
  index = k.index ∙ h.index;
  mark = ground (arith, h.mark, k.mark);
}

LedTracks-trans : (x y z : Led) → LedTracks x y → LedTracks y z → LedTracks x z
LedTracks-trans x y z h k = record {
  index = k.index ∙ h.index;
  mark = ground (arith, h.mark, k.mark);
}

ResolutionTracks-trans :
    (x y z : Resolution) → ResolutionTracks x y → ResolutionTracks y z → ResolutionTracks x z
ResolutionTracks-trans x y z h k = record {
  index = k.index ∙ h.index;
  kept = ground (arith, h.kept, k.kept);
  mark = ground (arith, h.kept, h.mark, k.kept, k.mark);
}

-- A profile with the same parts.
pub ProfileTracks-parts :
    (old new : Profile)
    → (new ≡ record old {
      name = new.name;
      is_enabled = new.is_enabled;
      is_active = new.is_active;
      dirty = new.dirty;
    })
    → ((new.dirty ≡ true) ⊎ (new ≡ record old { is_active = new.is_active }))
    → ProfileTracks old new
ProfileTracks-parts old new same mark = record {
  index = ap (λ p. p.index) same;
  num_resolutions = ap (λ p. p.num_resolutions) same;
  mark = mark;
  buttons = rw (ap (λ p. p.buttons) same) (Pairs-refl ButtonTracks ButtonTracks-refl old.buttons);
  leds = rw (ap (λ p. p.leds) same) (Pairs-refl LedTracks LedTracks-refl old.leds);
  resolutions =
      rw (ap (λ p. p.resolutions) same)
        (Pairs-refl ResolutionTracks ResolutionTracks-refl old.resolutions);
}

pub ProfileTracks-refl : (x : Profile) → ProfileTracks x x
ProfileTracks-refl x = ProfileTracks-parts x x refl (inr refl)

pub ProfileTracks-trans :
    (x y z : Profile) → ProfileTracks x y → ProfileTracks y z → ProfileTracks x z
ProfileTracks-trans x y z h k = record {
  index = k.index ∙ h.index;
  num_resolutions = k.num_resolutions ∙ h.num_resolutions;
  mark = ground (arith, h.mark, k.mark);
  buttons =
      Pairs-trans ButtonTracks ButtonTracks-trans x.buttons y.buttons z.buttons h.buttons k.buttons;
  leds = Pairs-trans LedTracks LedTracks-trans x.leds y.leds z.leds h.leds k.leds;
  resolutions =
      Pairs-trans ResolutionTracks ResolutionTracks-trans x.resolutions y.resolutions z.resolutions
        h.resolutions k.resolutions;
}

pub Tracks-refl : (device : Device) → Tracks device device
Tracks-refl device = record {
  rest = refl;
  profiles = Pairs-refl ProfileTracks ProfileTracks-refl device.profiles;
}

pub Tracks-trans : (a b c : Device) → Tracks a b → Tracks b c → Tracks a c
Tracks-trans a b c h k = record {
  rest = ground (arith, h.rest, k.rest);
  profiles =
      Pairs-trans ProfileTracks ProfileTracks-trans a.profiles b.profiles c.profiles h.profiles
        k.profiles;
}
