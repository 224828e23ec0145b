-- ===== src/Read.antt =====
-- read.go: the parser of one long frame at the head of the bytes received.
pub mod LongFrames
use gombus.Prelude.{ℕ, ◌+◌, ◌-◌, Bool, not, ◌||◌, List, ltb, ◌==◌, length}
use gombus.Result.{
  Bytes, Result, ok, sentinel, need_more, no_long_frame_found, invalid_frame, checksum_mismatch,
  ◌>>=◌, ◌>>◌, refuse, at, slice,
}
use gombus.Encoding.{calc_check_sum}

abbrev pub min_frame_length : ℕ
min_frame_length = 3

-- `parseLongFrame`: the frame, and the number of bytes that it takes.
unfoldable pub parse_long_frame : Bytes → Result (Bytes × ℕ)
parse_long_frame buf = do
  refuse (ltb (length buf) 4) (sentinel need_more)
  b0 ← at buf 0
  b1 ← at buf 1
  b2 ← at buf 2
  b3 ← at buf 3
  refuse (not (b0 == 0x68) || not (b3 == 0x68) || not (b1 == b2)) (sentinel no_long_frame_found)
  refuse (ltb b1 min_frame_length) (sentinel invalid_frame)
  let total = b1 + 6
  refuse (ltb (length buf) total) (sentinel need_more)
  stop ← at buf (total - 1)
  refuse (not (stop == 0x16)) (sentinel invalid_frame)
  got ← at buf (b1 + 4)
  body ← slice buf 4 (b1 + 4)
  refuse (not (got == calc_check_sum body)) (sentinel checksum_mismatch)
  frame ← slice buf 0 total
  ok (frame, total)
