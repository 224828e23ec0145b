-- ===== src/Scan/Search.antt =====
-- scan.go: the search for secondary addresses, one digit at a time.
pub mod Restores
pub mod Bus
use gombus.Prelude.{ℕ, zero, suc, ◌+◌, List, [], ◌∷◌, ◌++◌, if◌then◌else◌, set, replicate}
use gombus.Result.{Bytes, Result, ok, err, fault}
use gombus.Client.{Client, Session, pure, ◌>>=◌, ◌>>◌, check_context}
use gombus.Scan.{SecondaryAddress, secondary_digits, mask_wildcard, is_bus_noise}
use gombus.Scan.Probe.{
  Selection, silence, responded, collision, select_mask, read_secondary_address,
}

-- What the search changes: the mask, and the addresses found.
abbrev pub Search : Type 0
Search = Bytes × List SecondaryAddress

-- The answer of the one slave that was selected; noise means that there are several.
unfoldable pub take_address :
    (Search → Session Search) → Search → Result SecondaryAddress × Client → Result Search × Client
take_address narrow s (ok addr, c) = (ok (s.0, s.1 ++ (addr ∷ [])), c)
take_address narrow s (err e, c) = if is_bus_noise e then narrow s c else (err e, c)
take_address narrow s (fault x, c) = (fault x, c)

-- The cases of `scanSecondaryDigit`.
unfoldable pub after_select : (Search → Session Search) → Search → Selection → Session Search
unfolding take_address
after_select narrow s silence = pure s
after_select narrow s collision = narrow s
after_select narrow s responded = λ c. take_address narrow s (read_secondary_address c)

-- The loop of `scanSecondaryDigit` over the digits from `digit` on, of which there are `n`.
unfoldable pub scan_digits : (Search → Session Search) → ℕ → ℕ → ℕ → Search → Session Search
unfolding after_select
scan_digits narrow pos zero digit s = pure (set s.0 pos mask_wildcard, s.1)
scan_digits narrow pos (suc n) digit s = do
  check_context
  let s' : Search = (set s.0 pos digit, s.1)
  outcome ← select_mask (set s.0 pos digit)
  s'' ← after_select narrow s' outcome
  scan_digits narrow pos n (digit + 1) s''

-- `scanSecondaryDigit` at `pos`, with `depth` digits from there on; with none left it is
-- `narrowSecondary` at full depth.
unfoldable pub scan_secondary_digit : ℕ → ℕ → Search → Session Search
unfolding scan_digits
scan_secondary_digit zero pos s = pure s
scan_secondary_digit (suc depth) pos s =
    scan_digits (scan_secondary_digit depth (pos + 1)) pos 10 0x30 s

unfoldable pub scan_secondary : Session (List SecondaryAddress)
unfolding scan_secondary_digit
scan_secondary = do
  s ← scan_secondary_digit secondary_digits 0 (replicate secondary_digits mask_wildcard, [])
  pure s.1
