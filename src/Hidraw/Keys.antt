-- ===== src/Hidraw/Keys.antt =====
-- src/libratbag-hidraw.c: the key codes of HID usages, and the way back.
pub mod Usages
use libratbag.Base.{
  ℕ, zero, suc, ◌+◌, Bool, true, false, Option, none, some, List, [], ◌∷◌, ◌++◌, ◌==◌,
  if◌then◌else◌, get_elem?, replicate, Outcome, deref,
}

-- The key code of each keyboard usage; 0 is none. The numbers are those of
-- linux/input-event-codes.h.
pub hid_keyboard_mapping : List ℕ
hid_keyboard_mapping =
    0
    ∷ 0
    ∷ 0
    ∷ 0
    ∷ 30
    ∷ 48
    ∷ 46
    ∷ 32
    ∷ 18
    ∷ 33
    ∷ 34
    ∷ 35
    ∷ 23
    ∷ 36
    ∷ 37
    ∷ 38
    ∷ 50
    ∷ 49
    ∷ 24
    ∷ 25
    ∷ 16
    ∷ 19
    ∷ 31
    ∷ 20
    ∷ 22
    ∷ 47
    ∷ 17
    ∷ 45
    ∷ 21
    ∷ 44
    ∷ 2
    ∷ 3
    ∷ 4
    ∷ 5
    ∷ 6
    ∷ 7
    ∷ 8
    ∷ 9
    ∷ 10
    ∷ 11
    ∷ 28
    ∷ 1
    ∷ 14
    ∷ 15
    ∷ 57
    ∷ 12
    ∷ 13
    ∷ 26
    ∷ 27
    ∷ 43
    ∷ 43
    ∷ 39
    ∷ 40
    ∷ 41
    ∷ 51
    ∷ 52
    ∷ 53
    ∷ 58
    ∷ 59
    ∷ 60
    ∷ 61
    ∷ 62
    ∷ 63
    ∷ 64
    ∷ 65
    ∷ 66
    ∷ 67
    ∷ 68
    ∷ 87
    ∷ 88
    ∷ 99
    ∷ 70
    ∷ 119
    ∷ 110
    ∷ 102
    ∷ 104
    ∷ 111
    ∷ 107
    ∷ 109
    ∷ 106
    ∷ 105
    ∷ 108
    ∷ 103
    ∷ 69
    ∷ 98
    ∷ 55
    ∷ 74
    ∷ 78
    ∷ 96
    ∷ 79
    ∷ 80
    ∷ 81
    ∷ 75
    ∷ 76
    ∷ 77
    ∷ 71
    ∷ 72
    ∷ 73
    ∷ 82
    ∷ 83
    ∷ 86
    ∷ 127
    ∷ 116
    ∷ 117
    ∷ 183
    ∷ 184
    ∷ 185
    ∷ 186
    ∷ 187
    ∷ 188
    ∷ 189
    ∷ 190
    ∷ 191
    ∷ 192
    ∷ 193
    ∷ 194
    ∷ 0
    ∷ 138
    ∷ 139
    ∷ 353
    ∷ 128
    ∷ 129
    ∷ 131
    ∷ 137
    ∷ 133
    ∷ 135
    ∷ 136
    ∷ 113
    ∷ 115
    ∷ 114
    ∷ 0
    ∷ 0
    ∷ 0
    ∷ 121
    ∷ 117
    ∷ (replicate 19 0
        ++ (99
            ∷ 223
            ∷ 355
            ∷ (replicate 67 0 ++ (29 ∷ 42 ∷ 56 ∷ 125 ∷ 97 ∷ 54 ∷ 100 ∷ 126 ∷ (replicate 24 0)))))

-- The key code of each consumer usage below 4096.
pub hid_consumer_mapping : List ℕ
hid_consumer_mapping =
    replicate 48 0
    ++ (116
        ∷ 0
        ∷ 142
        ∷ (replicate 13 0
            ++ (139
                ∷ (replicate 84 0
                    ++ (138
                        ∷ (replicate 26 0
                            ++ (207
                                ∷ 119
                                ∷ 167
                                ∷ 208
                                ∷ 168
                                ∷ 163
                                ∷ 165
                                ∷ 128
                                ∷ 161
                                ∷ (replicate 20 0
                                    ++ (164
                                        ∷ 0
                                        ∷ 582
                                        ∷ (replicate 18 0
                                            ++ (113
                                                ∷ 0
                                                ∷ 0
                                                ∷ 209
                                                ∷ 0
                                                ∷ 0
                                                ∷ 0
                                                ∷ 115
                                                ∷ 114
                                                ∷ (replicate 10 0
                                                    ++ (409
                                                        ∷ (replicate 141 0
                                                            ++ (171
                                                            ∷ 421
                                                            ∷ 422
                                                            ∷ 423
                                                            ∷ 424
                                                            ∷ 425
                                                            ∷ 426
                                                            ∷ 215
                                                            ∷ 427
                                                            ∷ 428
                                                            ∷ 429
                                                            ∷ 0
                                                            ∷ 0
                                                            ∷ 0
                                                            ∷ 219
                                                            ∷ 140
                                                            ∷ 0
                                                            ∷ 144
                                                            ∷ 0
                                                            ∷ 150
                                                            ∷ 0
                                                            ∷ 0
                                                            ∷ 0
                                                            ∷ 169
                                                            ∷ 0
                                                            ∷ 0
                                                            ∷ 0
                                                            ∷ 152
                                                            ∷ (replicate 7 0
                                                            ++ (138
                                                            ∷ (replicate 10 0
                                                            ++ (581
                                                            ∷ 0
                                                            ∷ 0
                                                            ∷ 144
                                                            ∷ 0
                                                            ∷ 442
                                                            ∷ 392
                                                            ∷ 393
                                                            ∷ 0
                                                            ∷ 0
                                                            ∷ 0
                                                            ∷ 430
                                                            ∷ 358
                                                            ∷ (replicate 67 0
                                                            ++ (181
                                                            ∷ 134
                                                            ∷ 206
                                                            ∷ 174
                                                            ∷ 0
                                                            ∷ 0
                                                            ∷ 234
                                                            ∷ 210
                                                            ∷ 130
                                                            ∷ (replicate 16 0
                                                            ++ (131
                                                            ∷ 133
                                                            ∷ 137
                                                            ∷ 135
                                                            ∷ 353
                                                            ∷ 136
                                                            ∷ 0
                                                            ∷ 217
                                                            ∷ 354
                                                            ∷ 172
                                                            ∷ 158
                                                            ∷ 159
                                                            ∷ 128
                                                            ∷ 173
                                                            ∷ 412
                                                            ∷ 407
                                                            ∷ 156
                                                            ∷ 0
                                                            ∷ 0
                                                            ∷ 418
                                                            ∷ 419
                                                            ∷ 420
                                                            ∷ 0
                                                            ∷ 0
                                                            ∷ 0
                                                            ∷ 177
                                                            ∷ 178
                                                            ∷ (replicate 8 0
                                                            ++ (176
                                                            ∷ (replicate 33 0
                                                            ++ (223
                                                            ∷ (replicate 10 0
                                                            ++ (111
                                                            ∷ (replicate 14 0
                                                            ++ (182
                                                            ∷ (replicate 15 0
                                                            ++ (232
                                                            ∷ 0
                                                            ∷ 233
                                                            ∷ 231
                                                            ∷ (replicate 3443
                                                            0))))))))))))))))))))))))))))))))))

-- A read of `mapping[hid_code]`: past the end of the array it is `aborted`.
pub keycode_at : List ℕ → ℕ → Outcome ℕ
keycode_at mapping hid_code = deref (get_elem? mapping hid_code)

-- The loop over the mapping at place `j`, which gives the first usage with this key code, and 0
-- for none.
pub usage_from : List ℕ → ℕ → ℕ → ℕ
usage_from [] j keycode = 0
usage_from (code ∷ mapping) j keycode =
    let rest = usage_from mapping (j + 1) keycode in if code == keycode then j else rest

pub hidraw_get_keycode_from_keyboard_usage : ℕ → Outcome ℕ
unfolding keycode_at hid_keyboard_mapping
hidraw_get_keycode_from_keyboard_usage hid_code = keycode_at hid_keyboard_mapping hid_code

pub hidraw_get_keyboard_usage_from_keycode : ℕ → ℕ
unfolding usage_from hid_keyboard_mapping
hidraw_get_keyboard_usage_from_keycode keycode = usage_from hid_keyboard_mapping 0 keycode

pub hidraw_get_keycode_from_consumer_usage : ℕ → Outcome ℕ
unfolding keycode_at hid_consumer_mapping
hidraw_get_keycode_from_consumer_usage hid_code = keycode_at hid_consumer_mapping hid_code

pub hidraw_get_consumer_usage_from_keycode : ℕ → ℕ
unfolding usage_from hid_consumer_mapping
hidraw_get_consumer_usage_from_keycode keycode = usage_from hid_consumer_mapping 0 keycode
