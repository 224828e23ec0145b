-- ===== src/Client/Walk.antt =====
-- gombus.go: reading every frame of a slave, and reading one.
pub mod Requests
pub mod Answers
use gombus.Prelude.{
  ℕ, zero, suc, ◌+◌, Bool, true, false, not, ◌||◌, List, [], ◌∷◌, ◌++◌, leb, ◌==◌, if◌then◌else◌,
}
use gombus.Result.{Bytes, Result, ok, fault, out_of_fuel, sentinel, too_many_frames, refuse}
use gombus.Floats.{Floats}
use gombus.Frame.{fcb}
use gombus.Frame.ShortFrame
use gombus.Commands.{validate_destination_addr, request_ud2, snd_nke}
use gombus.Response.{DecodedFrame, has_more_records}
use gombus.Response.Decode.{decode}
use gombus.Client.{Client, Session, pure, lift, ◌>>=◌, ◌>>◌, check_context, write_frame}
use gombus.Client.Fill.{read_long_frame, read_single_char_frame}

abbrev pub max_frames_per_read : ℕ
max_frames_per_read = 64

-- The request of a round: `RequestUD2`, with the FCB set if the last request had it clear.
unfoldable pub request_for : ℕ → Bool → Session Bytes
request_for primary_id true = lift (request_ud2 primary_id)
request_for primary_id false = do
  frame ← lift (request_ud2 primary_id)
  frame' ← lift (ShortFrame.set_fcb frame)
  lift (ShortFrame.set_checksum frame')

-- The state of the loop of `ReadAllFrames` at its test: `frameCnt`, `lastFCB`, whether `respFrame`
-- has more records, and the frames.
pub record Progress (Float : Type 0) : Type 0 where
  pub frame_count : ℕ
  pub last_fcb : Bool
  pub more : Bool
  pub frames : List (DecodedFrame Float)

abbrev pub started : {Float : Type 0} → Progress Float
started = record { frame_count = 0; last_fcb = true; more = false; frames = [] }

module _ (F : Floats) where
  -- One round of the loop.
  unfoldable pub read_next : ℕ → Progress F.Float → Session (Progress F.Float)
  unfolding request_for
  read_next primary_id p = do
    check_context
    lift (refuse (leb max_frames_per_read p.frame_count) (sentinel too_many_frames))
    frame ← request_for primary_id p.last_fcb
    c ← lift (ShortFrame.c_field frame)
    write_frame frame
    resp ← read_long_frame
    resp_frame ← lift (decode F resp)
    pure (record {
      frame_count = p.frame_count + 1;
      last_fcb = fcb c;
      more = has_more_records resp_frame;
      frames = p.frames ++ (resp_frame ∷ []);
    })

  -- The loop; the bound on the frames ends it before the fuel does.
  unfoldable pub read_loop : ℕ → ℕ → Progress F.Float → Session (List (DecodedFrame F.Float))
  unfolding read_next
  read_loop zero primary_id p c = (fault out_of_fuel, c)
  read_loop (suc fuel) primary_id p c =
      if p.more || p.frame_count == 0
      then (read_next primary_id p >>= read_loop fuel primary_id) c
      else (ok p.frames, c)

  unfoldable pub read_all_frames : ℕ → Session (List (DecodedFrame F.Float))
  unfolding read_loop
  read_all_frames primary_id = do
    lift (validate_destination_addr primary_id)
    reset ← lift (snd_nke primary_id)
    write_frame reset
    _ ← read_single_char_frame
    read_loop (max_frames_per_read + 2) primary_id started

  unfoldable pub read_single_frame : ℕ → Session (DecodedFrame F.Float)
  read_single_frame primary_id = do
    lift (validate_destination_addr primary_id)
    request ← lift (request_ud2 primary_id)
    write_frame request
    resp ← read_long_frame
    lift (decode F resp)
