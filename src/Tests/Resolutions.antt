-- ===== src/Tests/Resolutions.antt =====
-- The theorems on resolutions, each at one input.
use libratbag.Base.{
  ◌≤◌, ◌≡◌, refl, ℕ, ◌⊎◌, arith, Bool, true, false, some, get_elem?, not, ◌||◌, ◌==◌, if◌then◌else◌,
  done, length,
}
use libratbag.Types.{ErrorCode, success, error_value, Profile, Resolution}
use libratbag.Capability.{resolution_has_capability, cap_individual_report_rate}
use libratbag.Resolution.{
  resolution_set_dpi, resolution_set_dpi_xy, resolution_set_active, resolution_set_report_rate,
  resolution_set_dpi_list_from_range, max_dpis, is_ascending, dpi_range_loop,
}
use libratbag.Resolution.Dpi.{
  Listed, IsSetTo, RefusedXy, AcceptsXy, resolution_set_dpi_lem, resolution_set_dpi_xy_lem,
}
use libratbag.Resolution.Exclusive.{
  After, resolution_set_active-After, resolution_set_report_rate-After,
}
use libratbag.Resolution.Range.{
  Within, Near, dpi_list_from_range-IsRange, dpi_list_from_range_complete,
}
use libratbag.Tests.{resolution, profile}

abbrev one : Profile
one = profile 0 true

resolution_set_dpi_lem_example :
    ((¬ Listed 800 (resolution 0).dpis) × (resolution_set_dpi one 1 800 ≡ done (error_value, one)))
    ⊎ (Listed 800 (resolution 0).dpis
        × ((profile' : Profile) × (resolution_set_dpi one 1 800 ≡ done (success, profile'))
            × IsSetTo one profile' 1 (resolution 0) 800 800))
resolution_set_dpi_lem_example = resolution_set_dpi_lem one 1 (resolution 0) 800 refl

resolution_set_dpi_xy_lem_example :
    ((code : ErrorCode) × (resolution_set_dpi_xy one 1 800 1600 ≡ done (code, one))
      × RefusedXy (resolution 0) 800 1600 code)
    ⊎ AcceptsXy one 1 (resolution 0) 800 1600
resolution_set_dpi_xy_lem_example = resolution_set_dpi_xy_lem one 1 (resolution 0) 800 1600 refl

resolution_set_active-After_example :
    (profile' : Profile) × (resolution_set_active one 1 ≡ done (success, profile'))
    × (profile' ≡ record one { resolutions = profile'.resolutions; dirty = true })
    × After one profile' λ j old. record old { is_active = 1 == j; dirty = (1 == j) || old.dirty }
resolution_set_active-After_example = resolution_set_active-After one 1 (resolution 0) refl

resolution_set_report_rate-After_example :
    (profile' : Profile) × (changed : Bool) × (resolution_set_report_rate one 1 1000
      ≡ done (success, profile'))
    × (profile' ≡ record one { resolutions = profile'.resolutions; dirty = changed || one.dirty })
    × (After one profile' λ j old.
        if (1 == j) || not (resolution_has_capability (resolution 0) cap_individual_report_rate)
        then record old { hz = 1000; dirty = not (old.hz == 1000) || old.dirty }
        else old)
    × (((changed ≡ true)
          × ((j : ℕ) × (old : Resolution) × (get_elem? one.resolutions j ≡ some old)
              × (((1 == j)
                    || not (resolution_has_capability (resolution 0) cap_individual_report_rate))
                  ≡ true)
              × ((old.hz == 1000) ≡ false)))
        ⊎ ((changed ≡ false) × (profile' ≡ one)))
resolution_set_report_rate-After_example =
    resolution_set_report_rate-After one 1 1000 (resolution 0) refl

abbrev ranged : Resolution
ranged = resolution_set_dpi_list_from_range (resolution 0) 800 4000

dpi_list_from_range-IsRange_example :
    (length ranged.dpis ≤ max_dpis)
    × Within 800 4000 ranged.dpis
    × (is_ascending ranged.dpis ≡ true)
dpi_list_from_range-IsRange_example =
    dpi_list_from_range-IsRange (resolution 0) 800 4000 (omega arith)

dpi_list_from_range_complete_example :
    ((dpi_range_loop max_dpis 800 4000).1 ≡ true) × Near 3333 ranged.dpis
dpi_list_from_range_complete_example =
    dpi_list_from_range_complete (resolution 0) 800 4000 3333 (omega arith) (omega arith)
      (omega arith) (omega arith)
