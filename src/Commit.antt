-- ===== src/Commit.antt =====
-- src/libratbag.c: `ratbag_device_commit`, which writes what is marked to the device.
--
-- The driver is a parameter: which of its functions are there, and what each call answers, which
-- may depend on all calls before it. A call is a `Write` with the arguments that it passes; the
-- calls that were made are a list, the last one in front.
pub mod Plan
pub mod Clean
use libratbag.Base.{
  ℕ, Bool, true, false, List, [], ◌∷◌, map, if◌then◌else◌, Outcome, done, assert, ◌>>=◌, ◌>>◌,
}
use libratbag.Types.{
  ErrorCode, success, error_device, Device, Profile, Resolution, Button, Led, Action, LedMode,
  Color,
}

pub data Write : Type 0 where
  commit : Device → Write
  write_profile : Profile → Write
  write_resolution_dpi : Resolution → ℕ → ℕ → Write
  write_button : Button → Action → Write
  write_led : Led → LedMode → Color → ℕ → ℕ → Write

-- `accepts` says that a call returns 0.
pub record Driver : Type 0 where
  pub has_commit : Bool
  pub has_write_profile : Bool
  pub has_write_resolution_dpi : Bool
  pub has_write_button : Bool
  pub has_write_led : Bool
  pub accepts : List Write → Write → Bool

-- A code and the calls so far.
abbrev pub Written : Type 0
Written = ErrorCode × List Write

-- One call of the driver, and `if (rc) return RATBAG_ERROR_DEVICE`.
pub issue : Driver → Write → List Write → Written
issue driver w calls = (if driver.accepts calls w then success else error_device, w ∷ calls)

-- What comes behind is skipped by an early return.
pub and_then : Written → (List Write → Written) → Written
and_then (success, calls) next = next calls
and_then (code, calls) next = (code, calls)

-- A loop over a list, with an early return.
pub for_each {ℓ} : {A : Type ℓ} → (A → List Write → Written) → List A → List Write → Written
unfolding and_then
for_each body [] calls = (success, calls)
for_each body (x ∷ xs) calls = and_then (body x calls) (for_each body xs)

pub write_resolution : Driver → Resolution → List Write → Written
unfolding issue
write_resolution driver res calls =
    issue driver (write_resolution_dpi res res.dpi_x res.dpi_y) calls

pub write_dirty_button : Driver → Button → List Write → Written
unfolding issue
write_dirty_button driver button calls =
    if button.dirty
    then issue driver (write_button button button.action) calls
    else (success, calls)

pub write_led_helper : Driver → Led → List Write → Written
unfolding issue
write_led_helper driver led calls =
    issue driver (write_led led led.mode led.color led.ms led.brightness) calls

pub write_dirty_led : Driver → Led → List Write → Written
unfolding write_led_helper
write_dirty_led driver led calls =
    if led.dirty then write_led_helper driver led calls else (success, calls)

-- The loop's body under `if (device->driver->…)`.
abbrev pub when : Bool → (List Write → Written) → List Write → Written
when there body calls = if there then body calls else (success, calls)

pub write_dirty_profile : Driver → Profile → List Write → Written
unfolding for_each write_resolution write_dirty_button write_dirty_led
write_dirty_profile driver profile calls =
    if profile.dirty
    then and_then
        (and_then
          (and_then (issue driver (write_profile profile) calls) (
            when driver.has_write_resolution_dpi
              (for_each (write_resolution driver) profile.resolutions)))
          (when driver.has_write_button (for_each (write_dirty_button driver) profile.buttons)))
        (when driver.has_write_led (for_each (write_dirty_led driver) profile.leds))
    else (success, calls)

pub old_write_profile : Driver → Device → List Write → Outcome Written
unfolding write_dirty_profile
old_write_profile driver device calls = do
  assert driver.has_write_profile
  done (for_each (write_dirty_profile driver) device.profiles calls)

abbrev pub clean_button : Button → Button
clean_button button = record button { dirty = false }

abbrev pub clean_led : Led → Led
clean_led led = record led { dirty = false }

abbrev pub clean_resolution : Resolution → Resolution
clean_resolution res = record res { dirty = false }

abbrev pub clean_profile : Profile → Profile
clean_profile profile = record profile {
  dirty = false;
  buttons = map clean_button profile.buttons;
  leds = map clean_led profile.leds;
  resolutions = map clean_resolution profile.resolutions;
}

-- The loop at the end, which takes all marks away; it runs behind a success only.
finish : Device → Written → ErrorCode × Device × List Write
finish device (success, calls) =
    (success, record device { profiles = map clean_profile device.profiles }, calls)
finish device (code, calls) = (code, device, calls)

unfoldable pub device_commit :
    Driver → Device → List Write → Outcome (ErrorCode × Device × List Write)
unfolding old_write_profile issue finish
device_commit driver device calls = do
  written ←
      (if driver.has_commit
        then done (issue driver (commit device) calls)
        else old_write_profile driver device calls)
  done (finish device written)
