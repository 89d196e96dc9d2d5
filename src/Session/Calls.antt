-- ===== src/Session/Calls.antt =====
-- src/libratbag.c: the marks that each call of a client leaves, and that a call that fails changes
-- nothing.
use libratbag.Base.{ℕ, Bool, Option, List, [], ◌∷◌, ◌≡◌, refl, inl, arith, done, >>=-eq-done}
use libratbag.Types.{ErrorCode, Device, type_button, type_special, type_key, type_none}
use libratbag.Settings.{
  profile_set_enabled, button_set_button, button_set_special, button_set_key, button_disable,
  button_set_macro, led_set_mode, led_set_color, led_set_effect_duration, led_set_brightness,
  button_set_action, plain_action,
}
use libratbag.Macro.{button_copy_macro}
use libratbag.Session.{
  Call, enable_profile, name_profile, activate_profile, map_button, map_special, map_key,
  disable_button, map_macro, put_mode, put_color, put_duration, put_brightness, put_dpi, put_dpi_xy,
  put_rate, activate_resolution, default_resolution, perform, perform_all,
}
use libratbag.Session.Marks.{
  Behaves, Tracks-change_profile, Tracks-change_button, Tracks-change_led, guarded-Behaves,
  on_profile-Behaves, profile_set_name-Behaves, profile_set_active-Behaves,
}
use libratbag.Session.Rates.{
  set_dpi-Kept, set_dpi_xy-Kept, set_active-Kept, set_default-Kept, set_report_rate-Kept,
}
use libratbag.Session.Tracks.{Tracks, Tracks-refl, Tracks-trans, ProfileTracks-parts}

-- A call that returns leaves the indices and counts of all objects. Each button and LED that is then
-- not as it was is marked; so is each profile that is not as it was, its parts included, unless it
-- differs only in being active; and so is each resolution that is not as it was, unless it differs
-- only in being the active or the default one. No resolution loses its mark. If the call gives an
-- error, it has changed nothing.
pub perform-Behaves :
    (driver : Option (Device → ℕ → Bool)) (call : Call) (device device' : Device) (code : ErrorCode)
    → perform driver call device ≡ done (code, device')
    → Behaves device code device'
unfolding perform profile_set_enabled button_set_button button_set_special button_set_key
    button_disable button_set_macro led_set_mode led_set_color led_set_effect_duration
    led_set_brightness button_set_action button_copy_macro
perform-Behaves driver (enable_profile p enabled) device device' code e =
    guarded-Behaves _ device _ _ code device'
      (Tracks-change_profile device p _ λ q. ProfileTracks-parts q _ refl (inl refl)) e
perform-Behaves driver (name_profile p name) device device' code e =
    profile_set_name-Behaves device p name code device' e
perform-Behaves driver (activate_profile p) device device' code e =
    profile_set_active-Behaves driver device p code device' e
perform-Behaves driver (map_button p i btn) device device' code e =
    guarded-Behaves _ device _ _ code device'
      (Tracks-change_button device p i (λ b. button_set_action b (plain_action type_button btn))
        λ b. ground arith)
      e
perform-Behaves driver (map_special p i act) device device' code e =
    guarded-Behaves _ device _ _ code device'
      (Tracks-change_button device p i (λ b. button_set_action b (plain_action type_special act))
        λ b. ground arith)
      e
perform-Behaves driver (map_key p i key) device device' code e =
    guarded-Behaves _ device _ _ code device'
      (Tracks-change_button device p i (λ b. button_set_action b (plain_action type_key key))
        λ b. ground arith)
      e
perform-Behaves driver (disable_button p i) device device' code e =
    guarded-Behaves _ device _ _ code device'
      (Tracks-change_button device p i (λ b. button_set_action b (plain_action type_none 0))
        λ b. ground arith)
      e
perform-Behaves driver (map_macro p i m) device device' code e =
    guarded-Behaves _ device _ _ code device'
      (Tracks-change_button device p i (λ b. button_copy_macro b m) λ b. refl) e
perform-Behaves driver (put_mode p i mode) device device' code e =
    guarded-Behaves _ device _ _ code device'
      (Tracks-change_led device p i (λ l. record l { mode = mode }) λ l. refl) e
perform-Behaves driver (put_color p i color) device device' code e =
    guarded-Behaves _ device _ _ code device'
      (Tracks-change_led device p i (λ l. record l { color = color }) λ l. refl) e
perform-Behaves driver (put_duration p i ms) device device' code e =
    guarded-Behaves _ device _ _ code device'
      (Tracks-change_led device p i (λ l. record l { ms = ms }) λ l. refl) e
perform-Behaves driver (put_brightness p i brightness) device device' code e =
    guarded-Behaves _ device _ _ code device'
      (Tracks-change_led device p i (λ l. record l { brightness = brightness }) λ l. refl) e
perform-Behaves driver (put_dpi p r dpi) device device' code e =
    on_profile-Behaves device p _ code device' (λ q q' c. set_dpi-Kept q q' r c dpi) e
perform-Behaves driver (put_dpi_xy p r x y) device device' code e =
    on_profile-Behaves device p _ code device' (λ q q' c. set_dpi_xy-Kept q q' r c x y) e
perform-Behaves driver (put_rate p r hz) device device' code e =
    on_profile-Behaves device p _ code device' (λ q q' c. set_report_rate-Kept q q' r c hz) e
perform-Behaves driver (activate_resolution p r) device device' code e =
    on_profile-Behaves device p _ code device' (λ q q' c. set_active-Kept q q' r c) e
perform-Behaves driver (default_resolution p r) device device' code e =
    on_profile-Behaves device p _ code device' (λ q q' c. set_default-Kept q q' r c) e

-- The same marks are left by a sequence of calls.
pub perform_all-Tracks :
    (driver : Option (Device → ℕ → Bool)) (calls : List Call) (device device' : Device)
    → perform_all driver calls device ≡ done device'
    → Tracks device device'
unfolding perform_all
perform_all-Tracks driver [] device device' e =
    let same : device' ≡ device = ground arith in rw same (Tracks-refl device)
perform_all-Tracks driver (call ∷ calls) device device' e =
    let ((code, mid), called, rest) = >>=-eq-done (perform driver call device) _ e in
    Tracks-trans device mid device' (perform-Behaves driver call device mid code called).tracks
      (perform_all-Tracks driver calls mid device' rest)
