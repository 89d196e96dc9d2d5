-- ===== src/Onboard/Profile/RoundTrip.antt =====
-- A profile survives the way to the bytes of a sector and back.
use libratbag.Base.{
  ℕ, ◌+◌, ◌-◌, ◌*◌, ◌/◌, ◌%◌, ◌^◌, ◌≤◌, List, ◌++◌, length, map, max, All, length-append, take,
  replicate, ◌≡◌, refl, sym, ap, ◌∙◌, arith, done, inl, length-map, length-replicate,
}
use libratbag.Onboard.Writing.{summed, length-summed}
use libratbag.Onboard.Buttons.{Binding, buttons_from_cpu}
use libratbag.Hidpp20.{Message, Read, HidppDevice}
use libratbag.Onboard.Buttons.RoundTrip.{
  IsPlain, bindings_to_cpu, Meaning, bindings_of, blank_binding, no_binding, buttons-RoundTrip,
}
use libratbag.Onboard.Leds.{HidppLed, write_led, LedSetting, led_of, fresh_led}
use libratbag.Onboard.Profile.{
  OnboardProfile, dpi_at, buttons_at, name_at, leds_at, words_to_bytes, bindings_to_bytes,
  bytes_to_bindings, leds_to_bytes, bytes_to_leds, read_leds, profile_to_bytes, profile_from_bytes,
}
use libratbag.Onboard.Profile.Cut.{cut, cut-put_out}
use libratbag.Onboard.Profile.Layout.{
  rates_of, image_of, profile_to_bytes-image, length-image, rates_back, words_back, leds_back,
  bindings_back, name_back,
}
use libratbag.Onboard.Profile.Parts.{
  length-words_to_bytes, bytes_to_words-words_to_bytes, length-bindings_to_bytes,
  bytes_to_bindings-bindings_to_bytes, take-append, length-leds_to_bytes,
  bytes_to_leds-leds_to_bytes, read_leds-led_of, bindings_to_cpu-append,
}
use mathlib.Core.Path.{subst}
use libratbag.Onboard.Profile.Small.{
  AreBytes, put-AreBytes, replicate-AreBytes, words_to_bytes-AreBytes, bindings_to_bytes-AreBytes,
  leds_to_bytes-AreBytes,
}
use libratbag.Onboard.Profile.Storable.{
  IsStorable, fresh_profile, parsed_again, rate-RoundTrip, rate_code-done, name_kept,
  length-bindings_of, read_parts, profile_from_bytes-parts, read_profile_eq, cong5,
}

module _ (size address : ℕ) (p : OnboardProfile) (meanings : List Meaning)
    (settings : List LedSetting) (rest : List Binding) (large : 256 ≤ size)
    (storable : IsStorable p meanings settings rest) where
  raw : List Binding
  raw = (buttons-RoundTrip 0 meanings storable.bindable).0

  rates_kept : (1000 / max 1 (1000 / p.report_rate % 2 ^ 8) ≡ p.report_rate) × (1 ≤ p.report_rate)
  rates_kept = rate-RoundTrip p.report_rate storable.divisor storable.slowest storable.rate

  bound :
      buttons_from_cpu
        (take (length meanings) p.buttons)
        (replicate (length meanings) blank_binding)
      ≡ done raw
  unfolding raw
  bound =
      let first : take (length meanings) p.buttons ≡ bindings_of 0 meanings =
        ap (take (length meanings)) storable.bound
        ∙ take-append (length meanings) (bindings_of 0 meanings) rest
            (length-bindings_of 0 meanings) in
      ap (λ (bs : List Binding). buttons_from_cpu bs (replicate (length meanings) blank_binding))
        first
      ∙ (buttons-RoundTrip 0 meanings storable.bindable).1

  raw-IsPlain : All IsPlain raw
  unfolding raw
  raw-IsPlain = (buttons-RoundTrip 0 meanings storable.bindable).5

  raw_back : bindings_to_cpu 0 raw (replicate (length meanings) no_binding ++ rest) ≡ p.buttons
  unfolding raw
  raw_back =
      bindings_to_cpu-append 0 raw (replicate (length meanings) no_binding) rest (
        length-replicate (length meanings) no_binding
        ∙ sym (buttons-RoundTrip 0 meanings storable.bindable).3)
      ∙ ap (λ l. l ++ rest) (buttons-RoundTrip 0 meanings storable.bindable).2
      ∙ sym storable.bound

  length-raw : length raw ≡ length meanings
  unfolding raw
  length-raw = (buttons-RoundTrip 0 meanings storable.bindable).3

  l_words : length (words_to_bytes p.dpi) ≡ 10
  l_words = omega (arith, length-words_to_bytes p.dpi, storable.five)

  two_leds : length p.leds ≡ 2
  two_leds = ap length storable.lit ∙ length-map settings led_of ∙ storable.two

  l_leds : length (leds_to_bytes (map write_led p.leds)) ≡ 22
  l_leds = omega (arith, length-leds_to_bytes p.leds, two_leds)

  l_raw : length (bindings_to_bytes raw) ≡ 4 * length meanings
  l_raw = omega (arith, length-bindings_to_bytes raw, length-raw)

  abbrev rates : List ℕ
  rates = rates_of size (length meanings) p (1000 / p.report_rate) raw

  abbrev words : List ℕ
  words = words_to_bytes p.dpi

  abbrev leds : List ℕ
  leds = leds_to_bytes (map write_led p.leds)

  l_small : length (bindings_to_bytes raw) ≤ 64
  l_small = omega (arith, l_raw, storable.few)

  small_default : p.default_dpi % 2 ^ 8 ≡ p.default_dpi
  small_default = omega (arith, storable.default_dpi)

  small_switched : p.switched_dpi % 2 ^ 8 ≡ p.switched_dpi
  small_switched = omega (arith, storable.switched_dpi)

  abbrev bytes : List ℕ
  bytes = image_of size (length meanings) p (1000 / p.report_rate) raw

  to_bytes : profile_to_bytes size (length meanings) p ≡ done bytes
  to_bytes =
      profile_to_bytes-image size (length meanings) p (1000 / p.report_rate) raw large storable.few
        (rate_code-done p.report_rate rates_kept.1) bound l_words l_leds l_raw storable.long

  leds_read :
      read_leds (replicate 2 fresh_led) (bytes_to_leds 2 (leds_to_bytes (map write_led p.leds)))
      ≡ p.leds
  leds_read =
      ap
        (λ (k : ℕ).
          read_leds (replicate 2 fresh_led)
            (bytes_to_leds k (leds_to_bytes (map write_led p.leds))))
        (sym two_leds)
      ∙ ap (read_leds (replicate 2 fresh_led)) (bytes_to_leds-leds_to_bytes p.leds)
      ∙ ap (λ (l : List HidppLed). read_leds (replicate 2 fresh_led) (map write_led l)) storable.lit
      ∙ ap (λ (k : ℕ). read_leds (replicate k fresh_led) (map write_led (map led_of settings)))
          (sym storable.two)
      ∙ read_leds-led_of settings storable.leds
      ∙ sym storable.lit

  raw_read : bytes_to_bindings (length meanings) (bindings_to_bytes raw) ≡ raw
  raw_read =
      ap (λ (k : ℕ). bytes_to_bindings k (bindings_to_bytes raw)) (sym length-raw)
      ∙ bytes_to_bindings-bindings_to_bytes raw

  buttons_read :
      bindings_to_cpu 0
        (bytes_to_bindings (length meanings) (bindings_to_bytes raw))
        (replicate (length meanings) no_binding ++ rest)
      ≡ p.buttons
  buttons_read =
      ap
        (λ (l : List Binding). bindings_to_cpu 0 l (replicate (length meanings) no_binding ++ rest))
        raw_read
      ∙ raw_back

  length-bytes : length bytes ≡ size
  length-bytes =
      length-image size (rates_of size (length meanings) p (1000 / p.report_rate) raw)
        (words_to_bytes p.dpi) (leds_to_bytes (map write_led p.leds)) (bindings_to_bytes raw) p.name
        large refl l_words l_leds (omega (arith, l_raw, storable.few)) storable.long

  bytes-AreBytes : AreBytes bytes
  unfolding raw
  bytes-AreBytes =
      put-AreBytes _ name_at p.name
        (put-AreBytes _ buttons_at (bindings_to_bytes raw)
          (put-AreBytes _ leds_at leds
            (put-AreBytes _ dpi_at words
              (put-AreBytes (replicate size 0xff) 0 rates
                (replicate-AreBytes size 0xff (omega arith))
                (omega arith, (omega arith, (omega arith, tt))))
              (words_to_bytes-AreBytes p.dpi))
            (subst (λ l. AreBytes (leds_to_bytes (map write_led l))) (sym storable.lit)
              (leds_to_bytes-AreBytes settings storable.leds)))
          (bindings_to_bytes-AreBytes raw (buttons-RoundTrip 0 meanings storable.bindable).4))
        storable.bytes

  -- The parts of a buffer that agrees with the bytes up to its checksum.
  module _ (buf : List ℕ) (room : length buf ≡ size)
      (same : (from k : ℕ) → from + k ≤ size - 2 → cut buf from k ≡ cut bytes from k) where
    raw_kept : cut buf buttons_at (4 * length meanings) ≡ bindings_to_bytes raw
    raw_kept =
        same buttons_at (4 * length meanings) (omega (arith, storable.few))
        ∙ bindings_back size rates words leds (bindings_to_bytes raw) p.name large refl l_words
            l_leds l_small storable.long (4 * length meanings) (sym l_raw)

    plain :
        All IsPlain (bytes_to_bindings (length meanings) (cut buf buttons_at (4 * length meanings)))
    plain =
        subst (All IsPlain) (sym (ap (bytes_to_bindings (length meanings)) raw_kept ∙ raw_read))
          raw-IsPlain

    module _ {S : Type 0} (transfer : Message → S → S × (ℕ × List Read)) (fuel : ℕ)
        (device : HidppDevice) (s : S) where
      from_bytes-kept :
          profile_from_bytes transfer fuel device size
            (length meanings)
            buf
            (fresh_profile address (length meanings) rest)
            s
          ≡ done (s, parsed_again address p)
      from_bytes-kept =
          profile_from_bytes-parts (length meanings) (fresh_profile address (length meanings) rest)
            transfer fuel device size s buf (omega (arith, room, large)) storable.few
            (omega (
              arith,
              length-append (replicate (length meanings) no_binding) rest,
              length-replicate (length meanings) no_binding,
            ))
            plain
          ∙ ap (λ (q : OnboardProfile). done (s, q))
              (cong5 (read_parts (length meanings) (fresh_profile address (length meanings) rest))
                  (same 0 3 (omega arith)
                    ∙ rates_back size rates words leds (bindings_to_bytes raw) p.name large refl
                        l_words l_leds l_small storable.long)
                  (same dpi_at 10 (omega arith)
                    ∙ words_back size rates words leds (bindings_to_bytes raw) p.name large refl
                        l_words l_leds l_small storable.long)
                  (same leds_at 22 (omega arith)
                    ∙ leds_back size rates words leds (bindings_to_bytes raw) p.name large refl
                        l_words l_leds l_small storable.long)
                  raw_kept
                  (same name_at 48 (omega arith)
                    ∙ name_back size rates words leds (bindings_to_bytes raw) p.name large refl
                        l_words l_leds l_small storable.long)
                ∙ read_profile_eq address rates_kept.0 small_default small_switched
                    (bytes_to_words-words_to_bytes p.dpi storable.words) leds_read buttons_read
                    (name_kept p.name storable.long storable.ended))

-- The bytes of a profile, with the checksum put in, and what is read from them.
pub profile-RoundTrip :
    (size address : ℕ) (p : OnboardProfile) (meanings : List Meaning) (settings : List LedSetting)
    (rest : List Binding)
    → 256 ≤ size
    → IsStorable p meanings settings rest
    → {S : Type 0} (transfer : Message → S → S × (ℕ × List Read)) (fuel : ℕ) (device : HidppDevice)
    → (bytes : List ℕ) × (profile_to_bytes size (length meanings) p ≡ done bytes)
      × (length bytes ≡ size)
      × AreBytes bytes
      × ((s : S)
          → profile_from_bytes transfer fuel device size
              (length meanings)
              (summed size bytes)
              (fresh_profile address (length meanings) rest)
              s
            ≡ done (s, parsed_again address p))
profile-RoundTrip size address p meanings settings rest large storable transfer fuel device =
    let image = bytes size address p meanings settings rest large storable in
    let room = length-bytes size address p meanings settings rest large storable in
    (
      image,
      to_bytes size address p meanings settings rest large storable,
      room,
      bytes-AreBytes size address p meanings settings rest large storable,
      from_bytes-kept size address p meanings settings rest large storable (summed size image)
          (length-summed size image (omega arith) room)
          (λ from k h. cut-put_out image (size - 2) _ from k (inl h)) transfer fuel device,
    )
