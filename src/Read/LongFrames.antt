-- ===== src/Read/LongFrames.antt =====
-- What `parseLongFrame` of read.go accepts: exactly the buffers that begin with a long frame.
use gombus.Prelude.{
  ◌∷◌, ℕ, ◌+◌, ◌-◌, ◌≤◌, ◌<◌, ◌≡◌, ◌≢◌, refl, sym, ap, ◌∙◌, not, ◌||◌, ◌++◌, arith, ltb, ◌==◌,
  if◌then◌else◌, length, length-append, get_or, get_or-append, take, drop, take-append,
  take-append-drop, subst, All, drop-append, take_all, length-take, length-drop, true, false,
}
use gombus.Result.{
  Bytes, IsByte, get_or-IsByte, Result, ok, err, fault, Fault, sentinel, need_more,
  no_long_frame_found, invalid_frame, checksum_mismatch, Error, errors_is, at-eq_ok, slice-eq_ok,
}
use gombus.Encoding.{calc_check_sum}
use gombus.Read.{parse_long_frame}

-- A whole long frame: 68h L L 68h, L bytes of user data, their checksum, 16h.
pub record IsLongFrame (f : Bytes) : Type 0 where
  pub sized : length f ≡ get_or f 1 0 + 6
  pub shortest : 3 ≤ get_or f 1 0
  pub start : get_or f 0 0 ≡ 0x68
  pub start_again : get_or f 3 0 ≡ 0x68
  pub length_again : get_or f 2 0 ≡ get_or f 1 0
  pub stop : get_or f (get_or f 1 0 + 5) 0 ≡ 0x16
  pub checksum : get_or f (get_or f 1 0 + 4) 0 ≡ calc_check_sum (take (get_or f 1 0) (drop 4 f))

-- The tests of `parseLongFrame` in order, with every access written as a value.
abbrev verdict : Bytes → Result (Bytes × ℕ)
verdict buf =
    let l = get_or buf 1 0 in
    if ltb (length buf) 4
    then err (sentinel need_more)
    else if not (get_or buf 0 0 == 0x68)
        || not (get_or buf 3 0 == 0x68)
        || not (l == get_or buf 2 0)
    then err (sentinel no_long_frame_found)
    else if ltb l 3
    then err (sentinel invalid_frame)
    else if ltb (length buf) (l + 6)
    then err (sentinel need_more)
    else if not (get_or buf (l + 5) 0 == 0x16)
    then err (sentinel invalid_frame)
    else if not (get_or buf (l + 4) 0 == calc_check_sum (take l (drop 4 buf)))
    then err (sentinel checksum_mismatch)
    else ok (take (l + 6) buf, l + 6)

parse_long_frame-verdict : (buf : Bytes) → parse_long_frame buf ≡ verdict buf
unfolding parse_long_frame
parse_long_frame-verdict buf =
    let l = get_or buf 1 0 in
    ground (
      arith,
      at-eq_ok buf 0,
      at-eq_ok buf 1,
      at-eq_ok buf 2,
      at-eq_ok buf 3,
      at-eq_ok buf (l + 6 - 1),
      at-eq_ok buf (l + 4),
      slice-eq_ok buf 4 (l + 4),
      slice-eq_ok buf 0 (l + 6),
    )

body-append :
    (f rest : Bytes) (l : ℕ) → l + 6 ≤ length f → take l (drop 4 (f ++ rest)) ≡ take l (drop 4 f)
body-append f rest l h =
    ap (take l) (drop-append 4 f rest (omega arith))
    ∙ take-append l (drop 4 f) rest (omega (arith, length-drop {0} 4 f))

verdict-append :
    (buf more : Bytes)
    → verdict buf ≢ err (sentinel need_more)
    → verdict (buf ++ more) ≡ verdict buf
verdict-append buf more h =
    let l = get_or buf 1 0 in
    ground (
      arith,
      length-append buf more,
      get_or-append buf more 0 0,
      get_or-append buf more 1 0,
      get_or-append buf more 2 0,
      get_or-append buf more 3 0,
      get_or-append buf more (l + 5) 0,
      get_or-append buf more (l + 4) 0,
      body-append buf more l,
      take-append (l + 6) buf more,
    )

-- A verdict other than a request for more bytes does not change when more bytes arrive.
-- Four bytes or more that do not start as a frame.
pub parse_long_frame-garbled :
    (b : ℕ) (more : Bytes)
    → b ≢ 0x68
    → 3 ≤ length more
    → parse_long_frame (b ∷ more) ≡ err (sentinel no_long_frame_found)
parse_long_frame-garbled b more n l = rw (parse_long_frame-verdict (b ∷ more)) (ground arith)

pub parse_long_frame-append :
    (buf more : Bytes)
    → parse_long_frame buf ≢ err (sentinel need_more)
    → parse_long_frame (buf ++ more) ≡ parse_long_frame buf
parse_long_frame-append buf more h =
    parse_long_frame-verdict (buf ++ more)
    ∙ verdict-append buf more (λ e. h (parse_long_frame-verdict buf ∙ e))
    ∙ sym (parse_long_frame-verdict buf)

verdict-IsLongFrame : (f : Bytes) → IsLongFrame f → verdict f ≡ ok (f, length f)
verdict-IsLongFrame f w = ground (
  arith,
  w.sized,
  w.shortest,
  w.start,
  w.start_again,
  w.length_again,
  w.stop,
  w.checksum,
  take_all (length f) f,
)

-- Of a buffer that begins with a well-formed long frame, the parser returns that frame and its
-- length, whatever follows.
pub parse_long_frame-IsLongFrame :
    (f rest : Bytes) → IsLongFrame f → parse_long_frame (f ++ rest) ≡ ok (f, length f)
parse_long_frame-IsLongFrame f rest w =
    let v = parse_long_frame-verdict f ∙ verdict-IsLongFrame f w in
    parse_long_frame-append f rest (λ e. cc (v, e)) ∙ v

-- The facts about a buffer that the tests leave when they all pass.
record Accepts (buf f : Bytes) (n : ℕ) : Type 0 where
  taken : f ≡ take (get_or buf 1 0 + 6) buf
  size : n ≡ get_or buf 1 0 + 6
  fits : get_or buf 1 0 + 6 ≤ length buf
  shortest : 3 ≤ get_or buf 1 0
  start : get_or buf 0 0 ≡ 0x68
  start_again : get_or buf 3 0 ≡ 0x68
  length_again : get_or buf 2 0 ≡ get_or buf 1 0
  stop : get_or buf (get_or buf 1 0 + 5) 0 ≡ 0x16
  checksum : get_or buf (get_or buf 1 0 + 4) 0 ≡ calc_check_sum (take (get_or buf 1 0) (drop 4 buf))

verdict-Accepts : (buf f : Bytes) (n : ℕ) → verdict buf ≡ ok (f, n) → Accepts buf f n
verdict-Accepts buf f n e = ground arith

Accepts-IsLongFrame :
    (f rest : Bytes) (n : ℕ) → length f ≡ n → Accepts (f ++ rest) f n → IsLongFrame f
Accepts-IsLongFrame f rest n h a =
    let l = get_or f 1 0 in
    let e = get_or-append f rest 1 0 in
    ground (
      arith,
      a.size,
      a.shortest,
      a.start,
      a.start_again,
      a.length_again,
      a.stop,
      a.checksum,
      get_or-append f rest 0 0,
      get_or-append f rest 1 0,
      get_or-append f rest 2 0,
      get_or-append f rest 3 0,
      get_or-append f rest (l + 5) 0,
      get_or-append f rest (l + 4) 0,
      body-append f rest l,
    )

-- What the parser returns is a whole long frame with its checksum and stop byte right, it is what
-- the buffer begins with, and the number returned is its length.
pub parse_long_frame_sound :
    (buf f : Bytes) (n : ℕ)
    → parse_long_frame buf ≡ ok (f, n)
    → IsLongFrame f × (f ++ drop n buf ≡ buf) × (n ≡ length f)
parse_long_frame_sound buf f n e =
    let a = verdict-Accepts buf f n (sym (parse_long_frame-verdict buf) ∙ e) in
    let t : f ≡ take n buf = a.taken ∙ ap (λ (k : ℕ). take k buf) (sym a.size) in
    let whole : f ++ drop n buf ≡ buf =
      ap (λ (x : Bytes). x ++ drop n buf) t ∙ take-append-drop n buf in
    let len : length f ≡ n = ap length t ∙ omega (arith, length-take {0} n buf, a.fits, a.size) in
    (
      Accepts-IsLongFrame f (drop n buf) n len (subst (λ (b : Bytes). Accepts b f n) (sym whole) a),
      whole,
      sym len,
    )

verdict-ne-fault : (buf : Bytes) (x : Fault) → verdict buf ≢ fault x
verdict-ne-fault buf x e = ground arith

verdict_decided :
    (buf : Bytes) → get_or buf 1 0 < 256 → 261 ≤ length buf → verdict buf ≢ err (sentinel need_more)
verdict_decided buf h k e = ground arith

-- The parser indexes no byte out of range, whatever was received.
pub parse_long_frame_total : (buf : Bytes) (x : Fault) → parse_long_frame buf ≢ fault x
parse_long_frame_total buf x = rw parse_long_frame-verdict (verdict-ne-fault buf x)

-- 261 buffered bytes settle what they begin with: the parser does not ask for more.
pub parse_long_frame_decided :
    (buf : Bytes)
    → All IsByte buf
    → 261 ≤ length buf
    → parse_long_frame buf ≢ err (sentinel need_more)
parse_long_frame_decided buf a k =
    rw parse_long_frame-verdict (verdict_decided buf (get_or-IsByte buf 1 (omega arith) a) k)

-- The parser's own errors, of which only one asks for more bytes.
verdict-need_more :
    (buf : Bytes) (e : Error)
    → verdict buf ≡ err e
    → errors_is e need_more ≡ true
    → e ≡ sentinel need_more
unfolding errors_is mathlib.Core.Bool.decide
verdict-need_more buf e h k =
    let a : errors_is (sentinel no_long_frame_found) need_more ≡ false = refl in
    let b : errors_is (sentinel invalid_frame) need_more ≡ false = refl in
    let c : errors_is (sentinel checksum_mismatch) need_more ≡ false = refl in
    ground (arith, a, b, c)

pub parse_long_frame-need_more :
    (buf : Bytes) (e : Error)
    → parse_long_frame buf ≡ err e
    → errors_is e need_more ≡ true
    → e ≡ sentinel need_more
parse_long_frame-need_more buf e h k =
    verdict-need_more buf e (sym (parse_long_frame-verdict buf) ∙ h) k

pub errors_is_need_more : errors_is (sentinel need_more) need_more ≡ true
unfolding errors_is mathlib.Core.Bool.decide
errors_is_need_more = refl
