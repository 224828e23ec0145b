-- ===== src/Frame/LongFrame.antt =====
-- frame.go: the type LongFrame, 68h L L 68h, C, A, CI, data, checksum and stop byte.
use gombus.Prelude.{ℕ, ◌+◌, ◌-◌, ◌%◌, bit_or, length}
use gombus.Result.{Bytes, Result, ◌>>=◌, at, slice, set_at, index_from_end}
use gombus.Encoding.{calc_check_sum}
use gombus.Frame.{control_mask_fcb, control_mask_fcv, and_not, update_at}

unfoldable pub set_checksum : Bytes → Result Bytes
set_checksum lf = do i ← index_from_end lf 2; body ← slice lf 4 i; set_at lf i (calc_check_sum body)

-- `byte(len(lf) - 6)` wraps, also below 0.
unfoldable pub set_length : Bytes → Result Bytes
unfolding set_at
set_length lf = do let l = (length lf + 256 - 6) % 256; lf' ← set_at lf 1 l; set_at lf' 2 l

unfoldable pub l_field : Bytes → Result ℕ
unfolding at
l_field lf = at lf 1

unfoldable pub c_field : Bytes → Result ℕ
unfolding at
c_field lf = at lf 4

unfoldable pub a_field : Bytes → Result ℕ
unfolding at
a_field lf = at lf 5

unfoldable pub ci_field : Bytes → Result ℕ
unfolding at
ci_field lf = at lf 6

unfoldable pub set_fcb : Bytes → Result Bytes
unfolding update_at
set_fcb lf = update_at lf 4 (λ c. bit_or c control_mask_fcb)

unfoldable pub set_fcv : Bytes → Result Bytes
unfolding update_at
set_fcv lf = update_at lf 4 (λ c. bit_or c control_mask_fcv)

unfoldable pub clear_fcb : Bytes → Result Bytes
unfolding update_at
clear_fcb lf = update_at lf 4 (λ c. and_not c control_mask_fcb)

unfoldable pub clear_fcv : Bytes → Result Bytes
unfolding update_at
clear_fcv lf = update_at lf 4 (λ c. and_not c control_mask_fcv)
