-- ===== src/Frame.antt =====
-- frame.go: short and long frames, their control fields, lengths and checksums, with the control
-- bits of constants.go. A setter of the source writes into the slice; here it returns the new bytes.
pub mod ShortFrame
pub mod LongFrame
use gombus.Prelude.{ℕ, ◌+◌, ◌-◌, ◌%◌, Bool, not, List, [], ◌∷◌, ◌==◌, length, bit_and, bit_or}
use gombus.Result.{Bytes, Result, ok, ◌>>=◌, ◌>>◌, at, slice, set_at, index_from_end}
use gombus.Encoding.{calc_check_sum}

abbrev pub control_mask_fcb : ℕ
control_mask_fcb = 0x20

abbrev pub control_mask_fcv : ℕ
control_mask_fcv = 0x10

abbrev pub single_character_frame : ℕ
single_character_frame = 0xE5

-- `c &^ mask` of a byte
abbrev pub and_not : ℕ → ℕ → ℕ
and_not c mask = bit_and c (255 - mask)

-- The accessors of the type C.
unfoldable pub fcb : ℕ → Bool
fcb c = not (bit_and c control_mask_fcb == 0)

unfoldable pub fcv : ℕ → Bool
fcv c = not (bit_and c control_mask_fcv == 0)

-- `sf[i] = f(sf[i])`
unfoldable pub update_at : Bytes → ℕ → (ℕ → ℕ) → Result Bytes
unfolding at set_at
update_at b i f = do c ← at b i; set_at b i (f c)
