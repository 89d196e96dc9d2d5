-- ===== src/Tests/Commits.antt =====
-- The theorems on commits, each at one input: a profile and its button are marked.
use libratbag.Base.{true, false, List, [], ◌∷◌, map, ◌≡◌, refl, ◌⊎◌, done}
use libratbag.Types.{success, error_device, Device, Profile}
use libratbag.Commit.{Write, Driver, device_commit, clean_profile}
use libratbag.Commit.Plan.{device_commit_lem, plan, onto, AllAccepted, Stops}
use libratbag.Commit.Clean.{device_commit-IsClean, IsClean}
use libratbag.Tests.{device, profile, button}

abbrev pub willing : Driver
willing = record {
  has_commit = false;
  has_write_profile = true;
  has_write_resolution_dpi = true;
  has_write_button = true;
  has_write_led = true;
  accepts = λ calls w. true;
}

abbrev marked_profile : Profile
marked_profile = record (profile 1 false) {
  buttons = record button { dirty = true } ∷ [];
  dirty = true;
}

abbrev marked : Device
marked = record device { profiles = marked_profile ∷ profile 0 true ∷ [] }

abbrev written : Device
written = record marked { profiles = map clean_profile marked.profiles }

device_commit_lem_example :
    (AllAccepted willing (plan willing marked) []
      × (device_commit willing marked [] ≡ done (success, written, onto (plan willing marked) [])))
    ⊎ ((calls' : List Write) × (device_commit willing marked []
          ≡ done (error_device, marked, calls'))
        × Stops willing (plan willing marked) [] calls')
device_commit_lem_example = device_commit_lem willing marked [] refl

succeeds : device_commit willing marked [] ≡ done (success, written, onto (plan willing marked) [])
unfolding device_commit
succeeds = refl

device_commit-IsClean_example :
    IsClean written
    × (device_commit willing written (onto (plan willing marked) [])
        ≡ done (success, written, onto (plan willing marked) []))
device_commit-IsClean_example =
    device_commit-IsClean willing marked written [] (onto (plan willing marked) []) refl refl
      succeeds
