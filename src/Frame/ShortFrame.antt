-- ===== src/Frame/ShortFrame.antt =====
-- frame.go: the type ShortFrame, a five-byte request of the master.
use gombus.Prelude.{ℕ, [], ◌∷◌, bit_or}
use gombus.Result.{Bytes, Result, ◌>>=◌, at, slice, set_at, index_from_end}
use gombus.Encoding.{calc_check_sum}
use gombus.Frame.{control_mask_fcb, control_mask_fcv, and_not, update_at}

-- `NewShortFrame`: start byte, C field, A field, checksum, stop byte.
abbrev pub new_short_frame : Bytes
new_short_frame = 0x10 ∷ 0x7B ∷ 0x00 ∷ 0x00 ∷ 0x16 ∷ []

unfoldable pub set_checksum : Bytes → Result Bytes
set_checksum sf = do i ← index_from_end sf 2; body ← slice sf 1 i; set_at sf i (calc_check_sum body)

unfoldable pub set_address : Bytes → ℕ → Result Bytes
unfolding set_at
set_address sf primary = set_at sf 2 primary

unfoldable pub set_c : Bytes → ℕ → Result Bytes
unfolding set_at
set_c sf c = set_at sf 1 c

unfoldable pub c_field : Bytes → Result ℕ
unfolding at
c_field sf = at sf 1

unfoldable pub a_field : Bytes → Result ℕ
unfolding at
a_field sf = at sf 2

unfoldable pub set_fcb : Bytes → Result Bytes
unfolding update_at
set_fcb sf = update_at sf 1 (λ c. bit_or c control_mask_fcb)

unfoldable pub set_fcv : Bytes → Result Bytes
unfolding update_at
set_fcv sf = update_at sf 1 (λ c. bit_or c control_mask_fcv)

unfoldable pub clear_fcb : Bytes → Result Bytes
unfolding update_at
clear_fcb sf = update_at sf 1 (λ c. and_not c control_mask_fcb)

unfoldable pub clear_fcv : Bytes → Result Bytes
unfolding update_at
clear_fcv sf = update_at sf 1 (λ c. and_not c control_mask_fcv)
