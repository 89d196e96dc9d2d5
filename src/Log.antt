-- ===== src/Log.antt =====
-- src/libratbag.c and src/libratbag-util.h: `log_buffer`, which prints bytes in hexadecimal into a
-- buffer whose size it computes first. A string is the list of its characters.
use mathlib.Core.List.{append_assoc, append-nil}
use libratbag.Base.{
  ℕ, zero, suc, ◌+◌, ◌-◌, ◌*◌, ◌/◌, ◌%◌, ◌^◌, ◌≤◌, ◌<◌, Bool, ◌&&◌, Option, some, none, List, [],
  ◌∷◌, ◌++◌, ltb, leb, if◌then◌else◌, length, length-append, take, ◌≡◌, refl, ap, arith, Outcome,
  done, aborted, ◌>>=◌,
}

-- What `snprintf_safe` writes into `n` bytes, the last of which is the terminator. The result of
-- the call is the length of the whole text, of which the last character is cut off without an
-- abort where that length is `n`.
snprintf_safe : ℕ → List ℕ → Outcome (List ℕ)
snprintf_safe n text = if ltb n (length text) then aborted else done (take (n - 1) text)

-- The characters of `%02x`.
unfoldable pub hex_digit : ℕ → ℕ
hex_digit d = if ltb d 10 then b'0' + d else b'a' + (d - 10)

abbrev pub hex_byte : ℕ → List ℕ
hex_byte b = hex_digit (b % 256 / 16) ∷ hex_digit (b % 16) ∷ []

-- `n += snprintf_safe(&output_buf[n], buf_len - n, …)`, for a buffer with this content.
print_at : ℕ → List ℕ → ℕ × List ℕ → Outcome (ℕ × List ℕ)
unfolding snprintf_safe
print_at buf_len text (n, output) = do
  written ← snprintf_safe (buf_len - n) text
  done (n + length text, take n output ++ written)

-- The loop over the bytes, with its separator.
print_bytes : ℕ → List ℕ → List ℕ → ℕ × List ℕ → Outcome (ℕ × List ℕ)
unfolding print_at
print_bytes buf_len sep [] s = done s
print_bytes buf_len sep (b ∷ bytes) s =
    print_at buf_len (sep ++ hex_byte b) s >>= print_bytes buf_len (32 ∷ []) bytes

abbrev pub header_text : Option (List ℕ) → List ℕ
header_text none = []
header_text (some header) = header

-- The message that the handler is given; `none` without a handler, or if its priority is higher.
unfoldable pub log_msg_va : Bool → ℕ → ℕ → List ℕ → Option (List ℕ)
log_msg_va has_handler log_priority priority text =
    if has_handler && leb log_priority priority then some text else none

-- The message that is logged, without its line end.
pub log_buffer : Bool → ℕ → ℕ → Option (List ℕ) → List ℕ → Outcome (Option (List ℕ))
unfolding print_bytes log_msg_va
log_buffer has_handler log_priority priority header bytes =
    let buf_len = (length (header_text header) + length bytes * 3 + 1) % 2 ^ 32 in
    if has_handler && ltb priority log_priority
    then done none
    else print_at buf_len (header_text header) (0, []) >>= λ s.
        print_bytes buf_len [] bytes s >>= λ s'.
        done (log_msg_va has_handler log_priority priority s'.1)

-- The bytes in hexadecimal with this separator in front of the first and a blank between two.
abbrev pub dump : List ℕ → List ℕ → List ℕ
dump sep [] = []
dump sep (b ∷ bytes) = sep ++ hex_byte b ++ dump (32 ∷ []) bytes

take-all : (l : List ℕ) (n : ℕ) → length l ≤ n → take n l ≡ l
take-all [] zero h = refl
take-all [] (suc n) h = refl
take-all (x ∷ l) zero h = absurd (omega arith)
take-all (x ∷ l) (suc n) h = ap (◌∷◌ x) (take-all l n (omega arith))

print_at_lem :
    (buf_len : ℕ) (text output : List ℕ)
    → length output + length text < buf_len
    → print_at buf_len text (length output, output) ≡ done (length (output ++ text), output ++ text)
unfolding print_at snprintf_safe
print_at_lem buf_len text output room = ground (
  arith,
  take-all output (length output) (omega arith),
  take-all text (buf_len - length output - 1) (omega arith),
  length-append output text,
)

print_bytes_lem :
    (buf_len : ℕ) (sep bytes output : List ℕ)
    → length sep ≤ 1
    → length output + length bytes * 3 < buf_len
    → print_bytes buf_len sep bytes (length output, output)
      ≡ done (length (output ++ dump sep bytes), output ++ dump sep bytes)
unfolding print_bytes
print_bytes_lem buf_len sep [] output short room = rw (append-nil output)
print_bytes_lem buf_len sep (b ∷ bytes) output short room = rw (
  print_at_lem buf_len (sep ++ hex_byte b) output (omega (arith, length-append sep (hex_byte b))),
  print_bytes_lem buf_len (32 ∷ []) bytes (output ++ (sep ++ hex_byte b)) (omega arith)
      (omega (arith, length-append sep (hex_byte b), length-append output (sep ++ hex_byte b))),
  append_assoc output (sep ++ hex_byte b) (dump (32 ∷ []) bytes),
)

-- Where the size of the buffer fits in 32 bits, `log_buffer` aborts nowhere and cuts nothing off: if
-- a handler is set and its priority is not higher, the header with all the bytes in hexadecimal, a
-- blank between two, is logged; and else nothing is.
pub log_buffer_lem :
    (has_handler : Bool) (log_priority priority : ℕ) (header : Option (List ℕ)) (bytes : List ℕ)
    → length (header_text header) + length bytes * 3 + 1 < 2 ^ 32
    → log_buffer has_handler log_priority priority header bytes
      ≡ done (
          if has_handler && leb log_priority priority
          then some (header_text header ++ dump [] bytes)
          else none)
unfolding log_buffer log_msg_va
log_buffer_lem has_handler log_priority priority header bytes room = ground (
  arith,
  print_at_lem (length (header_text header) + length bytes * 3 + 1) (header_text header) []
      (omega arith),
  print_bytes_lem (length (header_text header) + length bytes * 3 + 1) [] bytes (header_text header)
      (omega arith) (omega arith),
)
