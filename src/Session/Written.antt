-- ===== src/Session/Written.antt =====
-- src/libratbag.c: what a client has changed is written by the next commit.
use mathlib.Core.Path.{subst}
use libratbag.Base.{
  ℕ, zero, suc, Bool, true, false, Option, some, List, [], ◌∷◌, ◌++◌, get_elem?, if◌then◌else◌, ◌≡◌,
  refl, sym, ◌⊎◌, inl, inr, arith, ◌∙◌, ap, done,
}
use libratbag.Types.{success, Device, Profile, Button, Led}
use libratbag.Commit.{device_commit, Write, write_profile, write_button, write_led, Driver}
use libratbag.Commit.Clean.{device_commit-calls}
use libratbag.Commit.Plan.{
  onto, plan, profile_calls, button_call, led_call, dpi_call, join, only_if,
}
use libratbag.Session.{Call, perform_all}
use libratbag.Session.Pairs.{Pairs-get}
use libratbag.Session.Tracks.{ProfileTracks, ButtonTracks, LedTracks}
use libratbag.Session.Calls.{perform_all-Tracks}

-- The call is one of the list.
abbrev pub Among : Write → List Write → Type 0
Among w [] = ⊥
Among w (v ∷ vs) = (w ≡ v) ⊎ Among w vs

Among-left : (w : Write) (xs ys : List Write) → Among w xs → Among w (xs ++ ys)
Among-left w [] ys h = absurd h
Among-left w (x ∷ xs) ys (inl e) = inl e
Among-left w (x ∷ xs) ys (inr h) = inr (Among-left w xs ys h)

Among-right : (w : Write) (xs ys : List Write) → Among w ys → Among w (xs ++ ys)
Among-right w [] ys h = h
Among-right w (x ∷ xs) ys h = inr (Among-right w xs ys h)

Among-join {ℓ} :
    {A : Type ℓ} (w : Write) (f : A → List Write) (l : List A) (i : ℕ) (x : A)
    → get_elem? l i ≡ some x
    → Among w (f x)
    → Among w (join f l)
Among-join w f [] i x e h = cc
Among-join w f (y ∷ l) zero x e h =
    let same : x ≡ y = ground arith in
    Among-left w (f y) (join f l) (subst (λ z. Among w (f z)) same h)
Among-join w f (y ∷ l) (suc i) x e h = Among-right w (f y) (join f l) (Among-join w f l i x e h)

Among-if :
    (w : Write) (b : Bool) (ws : List Write)
    → b ≡ true
    → Among w ws
    → Among w (if b then ws else [])
Among-if w true ws e h = h
Among-if w false ws e h = cc

Among-log : (w : Write) (ws log : List Write) → Among w log → Among w (onto ws log)
Among-log w [] log h = h
Among-log w (v ∷ ws) log h = Among-log w ws (v ∷ log) (inr h)

Among-onto : (w : Write) (ws log : List Write) → Among w ws → Among w (onto ws log)
Among-onto w [] log h = absurd h
Among-onto w (v ∷ ws) log (inl e) = Among-log w ws (v ∷ log) (inl e)
Among-onto w (v ∷ ws) log (inr h) = Among-onto w ws (v ∷ log) h

module _ (driver_set_active : Option (Device → ℕ → Bool)) (driver : Driver) (calls : List Call)
    (device device' device'' : Device) (log log' : List Write) (p : ℕ) (q q' : Profile)
    (returns : perform_all driver_set_active calls device ≡ done device')
    (commits : device_commit driver device' log ≡ done (success, device'', log'))
    (old_driver : driver.has_commit ≡ false) (before : get_elem? device.profiles p ≡ some q)
    (behind : get_elem? device'.profiles p ≡ some q') where
  tracked : ProfileTracks q q'
  tracked =
      let t = perform_all-Tracks driver_set_active calls device device' returns in
      let (a, b, ea, eb, r) =
        Pairs-get ProfileTracks device.profiles device'.profiles p q q' t.profiles before behind in
      subst (λ x. ProfileTracks x q') ea (subst (λ y. ProfileTracks a y) eb r)

  planned : (w : Write) → Among w (profile_calls driver q') → Among w log'
  planned w h = rw (device_commit-calls driver device' device'' log log' commits) (
      Among-onto w (plan driver device') log
        (rw old_driver (Among-join w (profile_calls driver) device'.profiles p q' behind h)))

  -- After any sequence of calls that returns, and a commit that succeeds, by a driver with no
  -- `commit` of its own, a profile that is not as it was, but for being the active one or not, is
  -- among the calls that the driver got.
  pub profile-IsWritten :
      (q' ≡ record q { is_active = q'.is_active }) ⊎ Among (write_profile q') log'
  profile-IsWritten = elim tracked.mark [
    | inr same ↦ inl same
    | inl dirty ↦ inr (planned _ (Among-if _ q'.dirty _ dirty (inl refl)))
  ]

  abbrev dpis : List Write
  dpis = only_if driver.has_write_resolution_dpi (join dpi_call q'.resolutions)

  abbrev buttons : List Write
  buttons = only_if driver.has_write_button (join button_call q'.buttons)

  abbrev leds : List Write
  leds = only_if driver.has_write_led (join led_call q'.leds)

  module _ (i : ℕ) where
    -- After any sequence of calls that returns, and a commit that succeeds, by a driver that can
    -- write buttons and has no `commit` of its own, a button that is not as it was is among the
    -- calls that the driver got, with its action.
    pub button-IsWritten :
        (b b' : Button)
        → driver.has_write_button ≡ true
        → get_elem? q.buttons i ≡ some b
        → get_elem? q'.buttons i ≡ some b'
        → (b' ≡ b) ⊎ Among (write_button b' b'.action) log'
    button-IsWritten b b' can old new =
        let (x, y, ex, ey, t) =
          Pairs-get ButtonTracks q.buttons q'.buttons i b b' tracked.buttons old new in
        elim tracked.mark [
          | inr same ↦ inl (ground (arith, old, new, ap (λ r. r.buttons) same))
          | inl dirty ↦ elim t.mark [
            | inr same ↦ inl (sym ey ∙ same ∙ ex)
            | inl marked ↦ inr (
                planned _ (
                  Among-if _ q'.dirty _ dirty (
                    inr (
                      Among-left _ (dpis ++ buttons) leds (
                        Among-right _ dpis buttons (
                          Among-if _ driver.has_write_button _ can (
                            Among-join _ button_call q'.buttons i b' new (
                              Among-if _ b'.dirty _ (ap (λ z. z.dirty) (sym ey) ∙ marked)
                                (inl refl)))))))))
          ]
        ]

    -- After any sequence of calls that returns, and a commit that succeeds, by a driver that can
    -- write LEDs and has no `commit` of its own, an LED that is not as it was is among the calls
    -- that the driver got, with its settings.
    pub led-IsWritten :
        (l l' : Led)
        → driver.has_write_led ≡ true
        → get_elem? q.leds i ≡ some l
        → get_elem? q'.leds i ≡ some l'
        → (l' ≡ l) ⊎ Among (write_led l' l'.mode l'.color l'.ms l'.brightness) log'
    led-IsWritten l l' can old new =
        let (x, y, ex, ey, t) = Pairs-get LedTracks q.leds q'.leds i l l' tracked.leds old new in
        elim tracked.mark [
          | inr same ↦ inl (ground (arith, old, new, ap (λ r. r.leds) same))
          | inl dirty ↦ elim t.mark [
            | inr same ↦ inl (sym ey ∙ same ∙ ex)
            | inl marked ↦ inr (
                planned _ (
                  Among-if _ q'.dirty _ dirty (
                    inr (
                      Among-right _ (dpis ++ buttons) leds (
                        Among-if _ driver.has_write_led _ can (
                          Among-join _ led_call q'.leds i l' new (
                            Among-if _ l'.dirty _ (ap (λ z. z.dirty) (sym ey) ∙ marked)
                              (inl refl))))))))
          ]
        ]
