-- ===== src/Resolution.antt =====
-- src/libratbag.c and src/libratbag-private.h: the resolutions of a profile. A pointer to a
-- resolution is its place `r` in the profile's list; `aborted` is a place with no resolution, or
-- an assertion that fails. The log messages are left out.
pub mod Dpi
pub mod Exclusive
pub mod Range
use libratbag.Base.{
  ℕ, zero, suc, ◌+◌, ◌%◌, ◌^◌, Bool, true, false, not, ◌&&◌, ◌||◌, List, [], ◌∷◌, map, min, leb,
  ltb, ◌==◌, if◌then◌else◌, length, get_elem?, set, take, Outcome, done, aborted, assert, deref,
  ◌>>=◌, ◌>>◌,
}
use libratbag.Types.{ErrorCode, success, error_value, error_capability, Resolution, Profile}
use libratbag.Capability.{
  resolution_has_capability, cap_individual_report_rate, cap_separate_xy_resolution,
}

pub resolution_has_dpi : List ℕ → ℕ → Bool
resolution_has_dpi [] dpi = false
resolution_has_dpi (d ∷ dpis) dpi = if dpi == d then true else resolution_has_dpi dpis dpi

-- Stores the resolution that was changed, and marks it and its profile.
abbrev pub put_changed : Profile → ℕ → Resolution → Profile
put_changed profile r res = record profile {
  resolutions = set profile.resolutions r (record res { dirty = true });
  dirty = true;
}

-- The common end of `ratbag_resolution_set_dpi` and `ratbag_resolution_set_dpi_xy`.
unfoldable pub change_dpi : Profile → ℕ → Resolution → ℕ → ℕ → Profile
change_dpi profile r res x y =
    if not (res.dpi_x == x) || not (res.dpi_y == y)
    then put_changed profile r (record res { dpi_x = x; dpi_y = y })
    else profile

unfoldable pub resolution_set_dpi : Profile → ℕ → ℕ → Outcome (ErrorCode × Profile)
unfolding change_dpi
resolution_set_dpi profile r dpi = do
  res ← deref (get_elem? profile.resolutions r)
  if not (resolution_has_dpi res.dpis dpi)
      then done (error_value, profile)
      else done (success, change_dpi profile r res dpi dpi)

unfoldable pub resolution_set_dpi_xy : Profile → ℕ → ℕ → ℕ → Outcome (ErrorCode × Profile)
unfolding change_dpi
resolution_set_dpi_xy profile r x y = do
  res ← deref (get_elem? profile.resolutions r)
  if not (resolution_has_capability res cap_separate_xy_resolution)
      then done (error_capability, profile)
      else if (x == 0 && not (y == 0)) || (not (x == 0) && y == 0)
      then done (error_value, profile)
      else if not (resolution_has_dpi res.dpis x) || not (resolution_has_dpi res.dpis y)
      then done (error_value, profile)
      else done (success, change_dpi profile r res x y)

-- The body of the loop of `ratbag_resolution_set_report_rate` on one resolution.
pub change_rate : ℕ → Resolution → Resolution
change_rate hz res = if not (res.hz == hz) then record res { hz = hz; dirty = true } else res

any_other_rate : ℕ → List Resolution → Bool
any_other_rate hz [] = false
any_other_rate hz (res ∷ rest) = not (res.hz == hz) || any_other_rate hz rest

unfoldable pub resolution_set_report_rate : Profile → ℕ → ℕ → Outcome (ErrorCode × Profile)
unfolding change_rate any_other_rate
resolution_set_report_rate profile r hz = do
  res ← deref (get_elem? profile.resolutions r)
  if resolution_has_capability res cap_individual_report_rate
      then done (
        success,
        (if not (res.hz == hz) then put_changed profile r (record res { hz = hz }) else profile),
      )
      else done (
        success,
        record profile {
          resolutions = map (change_rate hz) profile.resolutions;
          dirty = any_other_rate hz profile.resolutions || profile.dirty;
        },
      )

-- `memcpy` of at most `nres` entries; the result is the whole count, and what was copied.
pub resolution_get_dpi_list : Resolution → ℕ → Outcome (ℕ × List ℕ)
resolution_get_dpi_list res nres = do
  assert (ltb 0 nres)
  if length res.dpis == 0
      then done (0, [])
      else done (length res.dpis, take (min nres (length res.dpis)) res.dpis)

pub resolution_get_report_rate_list : Resolution → ℕ → Outcome (ℕ × List ℕ)
resolution_get_report_rate_list res nrates = do
  assert (ltb 0 nrates)
  if length res.rates == 0
      then done (0, [])
      else done (length res.rates, take (min nrates (length res.rates)) res.rates)

abbrev pub deactivate : Resolution → Resolution
deactivate res = record res { is_active = false }

unfoldable pub resolution_set_active : Profile → ℕ → Outcome (ErrorCode × Profile)
resolution_set_active profile r = do
  res ← deref (get_elem? profile.resolutions r)
  done (
    success,
    record profile {
      resolutions =
          set (map deactivate profile.resolutions) r
            (record res { is_active = true; dirty = true });
      dirty = true;
    },
  )

abbrev pub clear_default : Resolution → Resolution
clear_default res = record res { is_default = false }

-- The loop of `ratbag_resolution_set_default` over the resolutions but the one at `r`.
pub clear_other_defaults : List Resolution → ℕ → List Resolution
clear_other_defaults [] r = []
clear_other_defaults (res ∷ rest) zero = res ∷ map clear_default rest
clear_other_defaults (res ∷ rest) (suc r) = clear_default res ∷ clear_other_defaults rest r

any_default : List Resolution → Bool
any_default [] = false
any_default (res ∷ rest) = res.is_default || any_default rest

-- Another resolution than the one at `r` is a default.
any_other_default : List Resolution → ℕ → Bool
unfolding any_default
any_other_default [] r = false
any_other_default (res ∷ rest) zero = any_default rest
any_other_default (res ∷ rest) (suc r) = res.is_default || any_other_default rest r

-- The flag `resolution->dirty` is set for a change of any of them.
unfoldable pub resolution_set_default : Profile → ℕ → Outcome (ErrorCode × Profile)
unfolding clear_other_defaults any_other_default
resolution_set_default profile r = do
  res ← deref (get_elem? profile.resolutions r)
  let changed = any_other_default profile.resolutions r || not res.is_default
  done (
    success,
    record profile {
      resolutions =
          set (clear_other_defaults profile.resolutions r) r
            (record res { is_default = true; dirty = changed || res.dirty });
      dirty = changed || profile.dirty;
    },
  )

pub resolution_set_resolution : Resolution → ℕ → ℕ → ℕ → Resolution
resolution_set_resolution res dpi_x dpi_y hz = record res { dpi_x = dpi_x; dpi_y = dpi_y; hz = hz }

-- `ARRAY_LENGTH(res->dpis)` and `ARRAY_LENGTH(res->rates)`.
abbrev pub max_dpis : ℕ
max_dpis = 300

abbrev pub max_rates : ℕ
max_rates = 8

pub stepsize : ℕ → ℕ
stepsize dpi =
    if ltb dpi 1000 then 50 else if ltb dpi 2600 then 100 else if ltb dpi 5000 then 200 else 500

-- `res->dpis[res->ndpis] = dpi; res->ndpis++`, before what the later rounds store.
abbrev store_dpi : ℕ → List ℕ × Bool → List ℕ × Bool
store_dpi dpi (rest, maxed_out) = (dpi ∷ rest, maxed_out)

-- The loop with `left` free entries: the entries that it stores, and `maxed_out`. `dpi` is an
-- `unsigned int`, which wraps.
unfoldable pub dpi_range_loop : ℕ → ℕ → ℕ → List ℕ × Bool
dpi_range_loop zero dpi max = ([], false)
dpi_range_loop (suc left) dpi max =
    let stored = store_dpi dpi (dpi_range_loop left ((dpi + stepsize dpi) % 2 ^ 32) max) in
    if ltb max dpi then ([], true) else stored

unfoldable pub resolution_set_dpi_list_from_range : Resolution → ℕ → ℕ → Resolution
resolution_set_dpi_list_from_range res min max = record res {
  dpis = (dpi_range_loop max_dpis min max).0;
}

-- `assert(dpis[i] > dpis[i - 1])` at each place but the first.
pub is_ascending : List ℕ → Bool
is_ascending [] = true
is_ascending (x ∷ []) = true
is_ascending (x ∷ y ∷ rest) = ltb x y && is_ascending (y ∷ rest)

pub resolution_set_dpi_list : Resolution → List ℕ → Outcome Resolution
resolution_set_dpi_list res dpis = do
  assert (leb (length dpis) max_dpis)
  assert (is_ascending dpis)
  done (record res { dpis = dpis })

pub resolution_set_report_rate_list : Resolution → List ℕ → Outcome Resolution
resolution_set_report_rate_list res rates = do
  assert (leb (length rates) max_rates)
  assert (is_ascending rates)
  done (record res { rates = rates })
