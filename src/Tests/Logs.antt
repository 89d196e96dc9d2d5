-- ===== src/Tests/Logs.antt =====
-- The theorem on the logged bytes, at one input.
use libratbag.Base.{true, ◌≡◌, arith, some, [], ◌∷◌, done}
use libratbag.Log.{hex_digit, log_buffer, log_buffer_lem}

log_buffer_lem_example :
    log_buffer true 10 20 (some (b'>' ∷ [])) (16 ∷ 255 ∷ [])
    ≡ done (some (b'>' ∷ b'1' ∷ b'0' ∷ 32 ∷ b'f' ∷ b'f' ∷ []))
unfolding hex_digit
log_buffer_lem_example = log_buffer_lem true 10 20 (some (b'>' ∷ [])) (16 ∷ 255 ∷ []) (omega arith)
