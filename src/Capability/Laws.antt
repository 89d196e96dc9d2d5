-- ===== src/Capability/Laws.antt =====
-- src/libratbag.c: what a device can do, as a set that is closed under its parents.
use libratbag.Base.{
  ℕ, ◌*◌, ◌/◌, ◌%◌, ◌<◌, ◌≡◌, refl, ◌⊎◌, arith, true, false, ◌||◌, List, length, ◌==◌,
  if◌then◌else◌, done, replicate,
}
use libratbag.Types.{Device}
use libratbag.Bitmap.{long_bit_is_set, long_set_bit}
use libratbag.Bitmap.Laws.{
  long_bit_is_set-set_bit, long_bit_is_set-clear_bit, length-long_set_bit, long_bit_is_set-zeros,
}
use libratbag.Capability.{
  device_set_capability, device_unset_capability, device_has_capability, cap_words, max_cap,
  cap_query_configuration,
}

-- A capability with a parent, the next multiple of 100 below, is there only beside it. The one
-- exception stands for itself.
abbrev pub HasParent : List ℕ → ℕ → Type 0
HasParent caps c =
    (c ≡ cap_query_configuration) ⊎ ((c % 100 ≡ 0) ⊎ (long_bit_is_set caps (c / 100 * 100) ≡ true))

pub record IsClosed (caps : List ℕ) : Type 0 where
  pub words : length caps ≡ cap_words
  pub parents : (c : ℕ) → (long_bit_is_set caps c ≡ false) ⊎ HasParent caps c

-- No capability at all is a closed set.
pub zeros-IsClosed : IsClosed (replicate cap_words 0)
zeros-IsClosed = record { words = refl; parents = λ c. ground (arith, long_bit_is_set-zeros 16 c) }

module _ (device device' : Device) (cap : ℕ)
    (returns : device_set_capability device cap ≡ done device') where
  set_capability_guards :
      (device' ≡ record device { capabilities = long_set_bit device.capabilities cap })
      × (0 < cap)
      × (cap < max_cap)
      × HasParent device.capabilities cap
  unfolding device_set_capability
  set_capability_guards = ground arith

  abbrev Adds : Type 0
  Adds =
      (c : ℕ)
      → long_bit_is_set device'.capabilities c ≡ (cap == c) || long_bit_is_set device.capabilities c

  set_capability-Adds : IsClosed device.capabilities → Adds
  set_capability-Adds closed c = ground (
    arith,
    set_capability_guards,
    long_bit_is_set-set_bit device.capabilities cap c
        (omega (arith, set_capability_guards, closed.words)),
  )

  set_capability-parents :
      IsClosed device.capabilities
      → (c : ℕ)
      → (long_bit_is_set device'.capabilities c ≡ false) ⊎ HasParent device'.capabilities c
  set_capability-parents closed c = ground (
    arith,
    set_capability_guards,
    set_capability-Adds closed c,
    set_capability-Adds closed (c / 100 * 100),
    closed.parents c,
  )

  -- A call of `ratbag_device_set_capability` that returns was given a number from 1 to 999. It adds
  -- that capability and no other, changes nothing else of the device, and keeps the set closed
  -- under parents.
  pub device_set_capability-IsClosed :
      IsClosed device.capabilities
      → IsClosed device'.capabilities
        × (device' ≡ record device { capabilities = device'.capabilities })
        × (0 < cap)
        × (cap < max_cap)
        × Adds
  device_set_capability-IsClosed closed = (
    record {
      words =
          ground (
            arith,
            set_capability_guards,
            length-long_set_bit device.capabilities cap,
            closed.words,
          );
      parents = set_capability-parents closed;
    },
    ground (arith, set_capability_guards),
    set_capability_guards.1,
    set_capability_guards.2,
    set_capability-Adds closed,
  )

-- With the parent there, or with none needed, a capability in range can be set: the call returns.
pub device_set_capability_total :
    (device : Device) (cap : ℕ)
    → 0 < cap
    → cap < max_cap
    → HasParent device.capabilities cap
    → device_set_capability device cap
      ≡ done (record device { capabilities = long_set_bit device.capabilities cap })
unfolding device_set_capability
device_set_capability_total device cap pos small parent = ground arith

-- After a capability was set, `ratbag_device_has_capability` says so, and answers as before (or
-- aborts as before) for every other number.
pub device_has_capability-set :
    (device device' : Device) (cap c : ℕ)
    → length device.capabilities ≡ cap_words
    → device_set_capability device cap ≡ done device'
    → device_has_capability device' c
      ≡ (if cap == c then done true else device_has_capability device c)
unfolding device_set_capability device_has_capability
device_has_capability-set device device' cap c words returns =
    ground (arith, long_bit_is_set-set_bit device.capabilities cap c)

-- After a capability was taken away, `ratbag_device_has_capability` denies it, and answers as
-- before for every other number.
pub device_has_capability-unset :
    (device device' : Device) (cap c : ℕ)
    → length device.capabilities ≡ cap_words
    → device_unset_capability device cap ≡ done device'
    → device_has_capability device' c
      ≡ (if cap == c then done false else device_has_capability device c)
unfolding device_unset_capability device_has_capability
device_has_capability-unset device device' cap c words returns =
    ground (arith, long_bit_is_set-clear_bit device.capabilities cap c)
