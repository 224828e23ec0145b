-- ===== src/Client/Fill.antt =====
-- read.go: filling the buffer of a client, and the frames read from it.
pub mod Accounts
pub mod Streams
pub mod Ends
use gombus.Prelude.{
  ℕ, zero, suc, ◌+◌, Bool, ◌||◌, Option, none, some, List, [], ◌∷◌, ◌++◌, ◌==◌, if◌then◌else◌,
  length, drop,
}
use gombus.Encoding.{is_empty}
use gombus.Result.{
  Bytes, Error, Result, ok, err, fault, out_of_fuel, sentinel, wrapped, noted, read_timeout,
  canceled, deadline_exceeded, need_more, no_long_frame_found, set_read_deadline, read_failed,
  single_char_frame, errors_is,
}
use gombus.Frame.{single_character_frame}
use gombus.Read.{parse_long_frame}
use gombus.Client.{
  Poll, context_ended, deadline_passed, deadline_refused, read, timed_out, failed, Client, Session,
  consume,
}

-- The loop of `fill`: the buffer with the bytes of a read, and the rounds that are left.
unfoldable pub fill_from : List Poll → Bytes → Result Bytes × List Poll
fill_from [] buf = (fault out_of_fuel, [])
fill_from (context_ended e ∷ rest) buf = (err e, rest)
fill_from (deadline_passed ∷ rest) buf = (err (sentinel read_timeout), rest)
fill_from (deadline_refused e ∷ rest) buf = (err (noted set_read_deadline e), rest)
fill_from (read (b ∷ more) e ∷ rest) buf = (ok (buf ++ (b ∷ more)), rest)
fill_from (read [] (some timed_out) ∷ rest) buf = fill_from rest buf
fill_from (read [] (some (failed e)) ∷ rest) buf = (err (noted read_failed e), rest)
fill_from (read [] none ∷ rest) buf = fill_from rest buf

-- The client after `fill`; an error leaves the buffer as it was.
unfoldable pub filled : Client → Result Bytes × List Poll → Result (Unit {0}) × Client
filled c (ok buf, rest) = (ok tt, record c { buf = buf; polls = rest })
filled c (err e, rest) = (err e, record c { polls = rest })
filled c (fault x, rest) = (fault x, record c { polls = rest })

unfoldable pub fill : Session (Unit {0})
unfolding fill_from filled
fill c = filled c (fill_from c.polls c.buf)

unfoldable pub wrap_fill_err : Bytes → Error → Error
wrap_fill_err buf e =
    if errors_is e read_timeout || (errors_is e canceled || errors_is e deadline_exceeded)
    then e
    else if is_empty buf
    then e
    else wrapped no_long_frame_found e

-- What a reader does after `fill`: the next round of its loop, or its own form of the error.
unfoldable pub after_fill :
    (Bytes → Error → Error) → Session Bytes → Result (Unit {0}) × Client → Result Bytes × Client
after_fill wrap next (ok u, c) = next c
after_fill wrap next (err e, c) = (err (wrap c.buf e), c)
after_fill wrap next (fault x, c) = (fault x, c)

-- One round of the loop of `ReadLongFrame`, behind the parser.
unfoldable pub after_parse : Session Bytes → Result (Bytes × ℕ) → Session Bytes
unfolding fill wrap_fill_err after_fill
after_parse next (ok (frame, n)) c = (ok frame, consume n c)
after_parse next (err e) c =
    if errors_is e need_more then after_fill wrap_fill_err next (fill c) else (err e, c)
after_parse next (fault x) c = (fault x, c)

unfoldable pub read_long_loop : ℕ → Session Bytes
unfolding after_parse
read_long_loop zero c = (fault out_of_fuel, c)
read_long_loop (suc fuel) c = after_parse (read_long_loop fuel) (parse_long_frame c.buf) c

-- Each round but the last takes a poll or more.
unfoldable pub read_long_frame : Session Bytes
unfolding read_long_loop
read_long_frame c = read_long_loop (suc (length c.polls)) c

-- `bytes.IndexByte`
unfoldable pub index_byte : Bytes → ℕ → Option ℕ
index_byte [] b = none
index_byte (x ∷ rest) b =
    if x == b then some 0 else (elim (index_byte rest b) [ none ↦ none | some i ↦ some (suc i) ])

abbrev pub noted_single : Bytes → Error → Error
noted_single buf e = noted single_char_frame e

-- One round of the loop of `ReadSingleCharFrame`, behind the search.
unfoldable pub after_search : Session Bytes → Option ℕ → Session Bytes
unfolding fill after_fill
after_search next (some i) c = (ok (single_character_frame ∷ []), consume (i + 1) c)
after_search next none c = after_fill noted_single next (fill (consume (length c.buf) c))

unfoldable pub read_single_loop : ℕ → Session Bytes
unfolding index_byte after_search
read_single_loop zero c = (fault out_of_fuel, c)
read_single_loop (suc fuel) c =
    after_search (read_single_loop fuel) (index_byte c.buf single_character_frame) c

unfoldable pub read_single_char_frame : Session Bytes
unfolding read_single_loop
read_single_char_frame c = read_single_loop (suc (length c.polls)) c
