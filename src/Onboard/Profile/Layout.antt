-- ===== src/Onboard/Profile/Layout.antt =====
-- The bytes of a profile: each part is found again at its place.
use libratbag.Base.{
  ℕ, zero, suc, ◌*◌, ◌%◌, ◌^◌, ◌≤◌, List, [], ◌∷◌, length, map, take, replicate, ◌≡◌, refl, sym, ap,
  ◌∙◌, inl, inr, arith, done, length-replicate,
}
use libratbag.Onboard.{skip, put}
use libratbag.Onboard.Bytes.{length-put, copy_to-done, copy_from-done}
use libratbag.Onboard.Buttons.{Binding, buttons_from_cpu}
use libratbag.Onboard.Buttons.RoundTrip.{blank_binding}
use libratbag.Onboard.Leds.{write_led}
use libratbag.Onboard.Profile.{
  OnboardProfile, dpi_at, buttons_at, name_at, leds_at, words_to_bytes, bindings_to_bytes,
  bytes_to_bindings, leds_to_bytes, rate_code, profile_to_bytes,
}
use libratbag.Onboard.Profile.Cut.{cut, cut-put_out, cut-put_in, cut-replicate}

-- The parts, one put over the other.
module _ (size : ℕ) (rates words leds bindings name : List ℕ) where
  abbrev pub with_rates : List ℕ
  with_rates = put (replicate size 0xff) 0 rates

  abbrev pub with_words : List ℕ
  with_words = put with_rates dpi_at words

  abbrev pub with_leds : List ℕ
  with_leds = put with_words leds_at leds

  abbrev pub with_bindings : List ℕ
  with_bindings = put with_leds buttons_at bindings

  abbrev pub image : List ℕ
  image = put with_bindings name_at name

  module _ (large : 256 ≤ size) (l_rates : length rates ≡ 3) (l_words : length words ≡ 10)
      (l_leds : length leds ≡ 22) (l_bindings : length bindings ≤ 64)
      (l_name : length name ≡ 48) where
    length-with_rates : length with_rates ≡ size
    length-with_rates =
        length-put (replicate size 0xff) 0 rates ∙ length-replicate {A = ℕ} size 0xff

    length-with_words : length with_words ≡ size
    length-with_words = length-put with_rates dpi_at words ∙ length-with_rates

    pub length-with_leds : length with_leds ≡ size
    length-with_leds = length-put with_words leds_at leds ∙ length-with_words

    length-with_bindings : length with_bindings ≡ size
    length-with_bindings = length-put with_leds buttons_at bindings ∙ length-with_leds

    pub length-image : length image ≡ size
    length-image = length-put with_bindings name_at name ∙ length-with_bindings

    pub rates_back : cut image 0 3 ≡ rates
    rates_back =
        cut-put_out with_bindings name_at name 0 3 (inl (omega arith))
        ∙ cut-put_out with_leds buttons_at bindings 0 3 (inl (omega arith))
        ∙ cut-put_out with_words leds_at leds 0 3 (inl (omega arith))
        ∙ cut-put_out with_rates dpi_at words 0 3 (inl (omega arith))
        ∙ cut-put_in (replicate size 0xff) 0 rates 3 (sym l_rates)
            (omega (arith, length-replicate {A = ℕ} size 0xff))

    pub words_back : cut image dpi_at 10 ≡ words
    words_back =
        cut-put_out with_bindings name_at name dpi_at 10 (inl (omega arith))
        ∙ cut-put_out with_leds buttons_at bindings dpi_at 10 (inl (omega arith))
        ∙ cut-put_out with_words leds_at leds dpi_at 10 (inl (omega arith))
        ∙ cut-put_in with_rates dpi_at words 10 (sym l_words) (omega (arith, length-with_rates))

    pub leds_back : cut image leds_at 22 ≡ leds
    leds_back =
        cut-put_out with_bindings name_at name leds_at 22 (inr (omega arith))
        ∙ cut-put_out with_leds buttons_at bindings leds_at 22 (inr (omega arith))
        ∙ cut-put_in with_words leds_at leds 22 (sym l_leds) (omega (arith, length-with_words))

    pub bindings_back : (n : ℕ) → n ≡ length bindings → cut image buttons_at n ≡ bindings
    bindings_back n h =
        cut-put_out with_bindings name_at name buttons_at n (inl (omega arith))
        ∙ cut-put_in with_leds buttons_at bindings n h (omega (arith, length-with_leds))

    pub name_back : cut image name_at 48 ≡ name
    name_back =
        cut-put_in with_bindings name_at name 48 (sym l_name) (omega (arith, length-with_bindings))

    -- The place of the buttons is blank before they are written.
    pub buttons_blank : (n : ℕ) → n ≤ 64 → cut with_leds buttons_at n ≡ replicate n 0xff
    buttons_blank n h =
        cut-put_out with_words leds_at leds buttons_at n (inl (omega arith))
        ∙ cut-put_out with_rates dpi_at words buttons_at n (inr (omega arith))
        ∙ cut-put_out (replicate size 0xff) 0 rates buttons_at n (inr (omega arith))
        ∙ cut-replicate size buttons_at n 0xff (omega arith)

blank_bindings : (n : ℕ) → bytes_to_bindings n (replicate (4 * n) 0xff) ≡ replicate n blank_binding
blank_bindings zero = refl
blank_bindings (suc n) =
    let four : 4 * suc n ≡ suc (suc (suc (suc (4 * n)))) = omega arith in
    ap (λ (k : ℕ). bytes_to_bindings (suc n) (replicate k 0xff)) four
    ∙ ap (◌∷◌ blank_binding) (blank_bindings n)

-- The bytes of a profile, once its rate and its buttons have a code.
module _ (size n : ℕ) (p : OnboardProfile) (rate : ℕ) (raw : List Binding) where
  abbrev pub rates_of : List ℕ
  rates_of = rate % 2 ^ 8 ∷ p.default_dpi % 2 ^ 8 ∷ p.switched_dpi % 2 ^ 8 ∷ []

  abbrev pub leds_of : List ℕ
  leds_of = leds_to_bytes (map write_led p.leds)

  abbrev pub image_of : List ℕ
  image_of = image size rates_of (words_to_bytes p.dpi) leds_of (bindings_to_bytes raw) p.name

  pub profile_to_bytes-image :
      256 ≤ size
      → n ≤ 16
      → rate_code p.report_rate ≡ done rate
      → buttons_from_cpu (take n p.buttons) (replicate n blank_binding) ≡ done raw
      → length (words_to_bytes p.dpi) ≡ 10
      → length leds_of ≡ 22
      → length (bindings_to_bytes raw) ≡ 4 * n
      → length p.name ≡ 48
      → profile_to_bytes size n p ≡ done image_of
  unfolding profile_to_bytes
  profile_to_bytes-image large few coded bound l_words l_leds l_raw l_name =
      let blank_size = length-replicate {A = ℕ} size 0xff in
      let words = words_to_bytes p.dpi in
      let s1 = with_rates size rates_of words leds_of [] [] in
      let s2 = with_words size rates_of words leds_of [] [] in
      let s3 = with_leds size rates_of words leds_of [] [] in
      let s4 = with_bindings size rates_of words leds_of (bindings_to_bytes raw) [] in
      let l1 : length s1 ≡ size = length-put (replicate size 0xff) 0 rates_of ∙ blank_size in
      let l2 : length s2 ≡ size = length-put s1 dpi_at words ∙ l1 in
      let l3 : length s3 ≡ size = length-put s2 leds_at leds_of ∙ l2 in
      let l4 : length s4 ≡ size = length-put s3 buttons_at (bindings_to_bytes raw) ∙ l3 in
      let blank : bytes_to_bindings n (take (4 * n) (skip buttons_at s3))
          ≡ replicate n blank_binding =
        ap (bytes_to_bindings n) (blank_at (4 * n) (omega arith)) ∙ blank_bindings n in
      rw (
        coded,
        copy_to-done (replicate size 0xff) 0 rates_of (omega (arith, blank_size)),
        copy_to-done s1 dpi_at words (omega (arith, l1, l_words)),
        copy_to-done s2 leds_at leds_of (omega (arith, l2, l_leds)),
        copy_from-done s3 buttons_at (4 * n) (omega (arith, l3)),
        blank,
        bound,
        copy_to-done s3 buttons_at (bindings_to_bytes raw) (omega (arith, l3, l_raw)),
        copy_to-done s4 name_at p.name (omega (arith, l4, l_name)),
      )
    where
      blank_at :
          (k : ℕ)
          → k ≤ 64
          → take k (skip buttons_at (with_leds size rates_of (words_to_bytes p.dpi) leds_of [] []))
            ≡ replicate k 0xff
      blank_at k h =
          buttons_blank size rates_of (words_to_bytes p.dpi) leds_of (bindings_to_bytes raw) p.name
            large refl l_words l_leds (omega (arith, l_raw, few)) l_name k h
