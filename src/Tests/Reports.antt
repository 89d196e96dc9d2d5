-- ===== src/Tests/Reports.antt =====
-- The descriptor of a mouse with two reports, and the key tables.
use libratbag.Base.{
  ℕ, ◌<◌, ◌≤◌, true, false, some, none, List, [], ◌∷◌, ◌≡◌, refl, arith, done, aborted, ◌⊎◌,
}
use libratbag.Hidraw.{item_size, content_of, Hidraw, open_reports, hidraw_has_report}
use libratbag.Hidraw.Descriptor.{is_whole, declared_ids}
use libratbag.Hidraw.Descriptor.Passes.{is_declared, open_reports-has_report}
use libratbag.Hidraw.Keys.{
  hidraw_get_keycode_from_keyboard_usage, hidraw_get_keyboard_usage_from_keycode,
  hidraw_get_keycode_from_consumer_usage, hidraw_get_consumer_usage_from_keycode,
}
use libratbag.Hidraw.Keys.Usages.{is_second, keyboard_usage-keycode, consumer_usage-keycode}

abbrev mouse_descriptor : List ℕ
mouse_descriptor =
    0x05 ∷ 0x01 ∷ 0x09 ∷ 0x02 ∷ 0xA1 ∷ 0x01 ∷ 0x85 ∷ 0x02 ∷ 0x06 ∷ 0x00 ∷ 0xFF ∷ 0x85 ∷ 0x11 ∷ 0xC0
    ∷ []

mouse_ids : declared_ids mouse_descriptor ≡ 2 ∷ 17 ∷ []
unfolding item_size content_of
mouse_ids = refl

open_reports-has_report_example :
    ((is_whole mouse_descriptor ≡ false)
      × ((hidraw : Hidraw) × (open_reports 22 (some mouse_descriptor) (some mouse_descriptor)
            ≡ done (22, hidraw))
          × (hidraw.reports ≡ none)))
    ⊎ ((is_whole mouse_descriptor ≡ true)
        × ((hidraw : Hidraw) × (open_reports 22 (some mouse_descriptor) (some mouse_descriptor)
              ≡ done (0, hidraw))
            × (hidraw_has_report hidraw 17
                ≡ done (is_declared (declared_ids mouse_descriptor) 17))))
open_reports-has_report_example = open_reports-has_report 22 mouse_descriptor 17 (omega arith)

keyboard_usage-keycode_example :
    (code : ℕ) × (hidraw_get_keycode_from_keyboard_usage 4 ≡ done code)
    × (hidraw_get_keycode_from_keyboard_usage (hidraw_get_keyboard_usage_from_keycode code)
        ≡ done code)
    × ((code ≡ 0) ⊎ ((is_second 4 ≡ true) ⊎ (hidraw_get_keyboard_usage_from_keycode code ≡ 4)))
keyboard_usage-keycode_example = keyboard_usage-keycode 4 (omega arith)

consumer_usage-keycode_example :
    ((0xE2 < 4096)
      × ((code : ℕ) × (hidraw_get_keycode_from_consumer_usage 0xE2 ≡ done code)
          × (hidraw_get_keycode_from_consumer_usage (hidraw_get_consumer_usage_from_keycode code)
              ≡ done code)
          × (hidraw_get_consumer_usage_from_keycode code ≤ 0xE2)))
    ⊎ ((4096 ≤ 0xE2) × (hidraw_get_keycode_from_consumer_usage 0xE2 ≡ aborted))
consumer_usage-keycode_example = consumer_usage-keycode 0xE2
