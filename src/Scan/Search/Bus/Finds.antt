-- ===== src/Scan/Search/Bus/Finds.antt =====
-- scan.go: ScanSecondary finds the slaves of a bus, every one of them once.
use mathlib.Core.List.Perm
use mathlib.Core.List.{Perm}
use gombus.Prelude.{
  ℕ, zero, suc, ◌+◌, ◌≤◌, ◌≡◌, ◌⊎◌, inl, inr, refl, sym, ap, ◌∙◌, subst, List, [], ◌∷◌, ◌++◌,
  append_assoc, append-nil, arith, All, All-append, length, length-append, set, replicate,
}
use gombus.Result.{Bytes, ok}
use gombus.Response.Digits.{IsDigit}
use gombus.Client.{Client, Session, Poll, check_context, take_context, and_then, ◌>>=◌}
use gombus.Scan.{SecondaryAddress, mask_wildcard, secondary_digits}
use gombus.Scan.Probe.{select_mask}
use gombus.Scan.Search.{
  Search, take_address, after_select, scan_digits, scan_secondary_digit, scan_secondary,
}
use gombus.Scan.Search.Bus.{
  Slave, IsSlave, Distinct, selected, outcome_of, IsLine, Exchange, selecting, under, below,
  visits_from, visits, on_line, IsSelection, Puts, replies, writes, looks,
}
use gombus.Scan.Search.Bus.Masks.{under-IsSent, set_behind}
use gombus.Scan.Search.Bus.Heard.{heard, select_mask-IsSent, request_selected, asked}
use gombus.Scan.Search.Bus.Buckets.{buckets, buckets-perm}
use gombus.Scan.Search.Bus.Alone.{selected_alone}
use gombus.Scan.Search.Bus.Steps.{addresses, Adds, Adds-eq, none-Adds, behind-Adds, and_then-Adds}
use gombus.Scan.Search.Bus.Everyone.{All-selected, digits_in_range, selected_everyone}

-- One round of the loop of `scan_digits`, at the mask `t`.
abbrev try_digit :
    (Search → Session Search)
    → Bytes
    → List SecondaryAddress
    → (Search → Session Search)
    → Session Search
try_digit narrow t acc next =
    check_context >>= (λ _. select_mask t >>= (λ o. after_select narrow (t, acc) o >>= next))

module _ (slaves : List Slave) (line : Bytes → List Poll) (on_air : IsLine slaves line)
    (ws : All IsSlave slaves) (distinct : Distinct slaves) where
  abbrev at : List Exchange → List Bytes → Client
  at xs sent = on_line line xs sent

  -- A search below the digits `ds`, on the line.
  abbrev Narrows : (Search → Session Search) → (Bytes → List Exchange) → Bytes → ℕ → Type 0
  Narrows narrow plan ds k =
      (acc : List SecondaryAddress) (w : List Exchange) (sent : List Bytes)
      → Adds line (under ds k) acc (selected (under ds k) slaves) (plan ds) w sent
          (narrow (under ds k, acc) (at (plan ds ++ w) sent))

  after_select-Adds :
      (narrow : Search → Session Search) (plan : Bytes → List Exchange) (ds : Bytes) (k : ℕ)
      (acc : List SecondaryAddress) (w : List Exchange) (sent : List Bytes) (ts : List Slave)
      → All IsSlave ts
      → ts ≡ selected (under ds k) slaves
      → (2 ≤ length ts → Narrows narrow plan ds k)
      → Adds line (under ds k) acc ts (below slaves plan ds ts) w sent (
          after_select narrow
            (under ds k, acc)
            (outcome_of ts)
            (at (below slaves plan ds ts ++ w) sent))
  unfolding after_select
  after_select-Adds narrow plan ds k acc w sent [] hs e h = none-Adds line (under ds k) acc w sent
  after_select-Adds narrow plan ds k acc w sent (s ∷ []) hs e h = record {
    found = s.address ∷ [];
    same = Perm.refl (s.address ∷ []);
    frames = request_selected ∷ [];
    puts = (refl, tt);
    met =
        unfold take_address in
        ap (take_address narrow (under ds k, acc))
          (asked (replies line w) (writes w) (looks w) sent s hs.0);
  }
  after_select-Adds narrow plan ds k acc w sent (s ∷ (t ∷ ts)) hs e h =
      let a = h (omega arith) acc w sent in
      record {
        found = a.found;
        same = subst (λ us. Perm a.found (addresses us)) (sym e) a.same;
        frames = a.frames;
        puts = a.puts;
        met = a.met;
      }

  -- The wildcards behind the digit that is tried.
  abbrev wild : ℕ → Bytes
  wild k = replicate k mask_wildcard

  -- A round whose selection is answered.
  chosen :
      (narrow next : Search → Session Search) (ds : Bytes) (k digit x : ℕ)
      (acc : List SecondaryAddress) (w : List Exchange) (sent : List Bytes)
      → All IsDigit ds
      → length ds + suc k ≡ 8
      → IsDigit digit
      → (frame : Bytes) × IsSelection (under (ds ++ (digit ∷ [])) k) frame
        × (try_digit narrow
              (set (ds ++ (x ∷ wild k)) (length ds) digit)
              acc
              next
              (at (selecting (under (ds ++ (digit ∷ [])) k) ∷ w) sent)
            ≡ and_then
                (after_select narrow
                  (under (ds ++ (digit ∷ [])) k, acc)
                  (outcome_of (selected (under (ds ++ (digit ∷ [])) k) slaves))
                  (at w (sent ++ (frame ∷ []))))
                next)
  unfolding check_context take_context
  chosen narrow next ds k digit x acc w sent hd l h =
      let m : Bytes = under (ds ++ (digit ∷ [])) k in
      let set_to : set (ds ++ (x ∷ wild k)) (length ds) digit ≡ m =
        set_behind ds (wild k) x digit ∙ sym (append_assoc ds (digit ∷ []) (wild k)) in
      let is_sent =
        under-IsSent (ds ++ (digit ∷ [])) k (All-append IsDigit ds (digit ∷ []) hd (h, tt))
          (omega (arith, length-append ds (digit ∷ []))) in
      let sent' : List Bytes = sent ++ (is_sent.frame ∷ []) in
      let answered =
        select_mask-IsSent [] (writes w) (looks w) sent m is_sent (line m ++ replies line w)
        ∙ heard (replies line w) (writes w) (looks w) sent' (selected m slaves) (line m)
            (on_air m) in
      (
        is_sent.frame,
        is_sent.put,
        ap (λ (t : Bytes). try_digit narrow t acc next (at (selecting m ∷ w) sent)) set_to
            ∙ ap (λ p. and_then p (λ o. after_select narrow (m, acc) o >>= next)) answered,
      )

  scan_digits-Adds :
      (narrow : Search → Session Search) (plan : Bytes → List Exchange) (ds : Bytes)
      (k n digit x : ℕ) (acc : List SecondaryAddress) (w : List Exchange) (sent : List Bytes)
      → All IsDigit ds
      → length ds + suc k ≡ 8
      → 0x30 ≤ digit
      → digit + n ≤ 0x3A
      → ((d : ℕ)
          → IsDigit d
          → 2 ≤ length (selected (under (ds ++ (d ∷ [])) k) slaves)
          → Narrows narrow plan (ds ++ (d ∷ [])) k)
      → Adds line
          (ds ++ (mask_wildcard ∷ wild k))
          acc
          (buckets ds (wild k) n digit slaves)
          (visits_from slaves plan k n digit ds)
          w
          sent
          (scan_digits narrow
            (length ds)
            n
            digit
            (ds ++ (x ∷ wild k), acc)
            (at (visits_from slaves plan k n digit ds ++ w) sent))
  unfolding scan_digits visits_from check_context take_context
  scan_digits-Adds narrow plan ds k zero digit x acc w sent hd l lo hi h =
      Adds-eq line (ds ++ (mask_wildcard ∷ wild k)) acc [] [] w sent
        (ap (λ (m : Bytes). (ok (m, acc), at w sent)) (set_behind ds (wild k) x mask_wildcard))
        (none-Adds line (ds ++ (mask_wildcard ∷ wild k)) acc w sent)
  scan_digits-Adds narrow plan ds k (suc n) digit x acc w sent hd l lo hi h =
      let ds' : Bytes = ds ++ (digit ∷ []) in
      let m : Bytes = under ds' k in
      let full : Bytes = ds ++ (mask_wildcard ∷ wild k) in
      let flat : m ≡ ds ++ (digit ∷ wild k) = append_assoc ds (digit ∷ []) (wild k) in
      let behind : List Exchange = below slaves plan ds' (selected m slaves) in
      let rest : List Exchange = visits_from slaves plan k n (digit + 1) ds in
      let next : Search → Session Search = scan_digits narrow (length ds) n (digit + 1) in
      let (frame, put, met) =
        chosen narrow next ds k digit x acc (behind ++ (rest ++ w)) sent hd l (lo, omega arith) in
      let sent1 : List Bytes = sent ++ (frame ∷ []) in
      let a =
        after_select-Adds narrow plan ds' k acc (rest ++ w) sent1 (selected m slaves)
          (All-selected m slaves ws) refl (h digit (lo, omega arith)) in
      let b =
        scan_digits-Adds narrow plan ds k n (digit + 1) digit (acc ++ a.found) w (sent1 ++ a.frames)
          hd l (omega arith) (omega arith) h in
      let others : List Slave = buckets ds (wild k) n (digit + 1) slaves in
      let onward =
        Adds-eq line full (acc ++ a.found) others rest w (sent1 ++ a.frames)
          (ap (λ (t : Bytes). next (t, acc ++ a.found) (at (rest ++ w) (sent1 ++ a.frames))) flat)
          b in
      let round =
        Adds-eq line full acc (selected m slaves ++ others) (selecting m ∷ (behind ++ rest)) w sent
          (ap
              (λ (xs : List Exchange).
                try_digit narrow (set (ds ++ (x ∷ wild k)) (length ds) digit) acc next
                  (at (selecting m ∷ xs) sent))
              (append_assoc behind rest w)
            ∙ met)
          (behind-Adds line full acc (selected m slaves ++ others) (selecting m) (behind ++ rest) w
            sent frame _ put
            (and_then-Adds line m full acc (selected m slaves) others behind rest (rest ++ w) w
              sent1
              (after_select narrow (m, acc) (outcome_of (selected m slaves))
                (at (behind ++ (rest ++ w)) sent1))
              next a onward)) in
      subst
        (λ (t : Bytes).
          Adds line full acc (selected t slaves ++ others) (selecting m ∷ (behind ++ rest)) w sent (
            try_digit narrow (set (ds ++ (x ∷ wild k)) (length ds) digit) acc next
              (at (selecting m ∷ ((behind ++ rest) ++ w)) sent)))
        flat round

  -- A search at a mask with a wildcard, or at one that several slaves fit.
  narrows :
      (k : ℕ) (ds : Bytes)
      → All IsDigit ds
      → length ds + k ≡ 8
      → (2 ≤ length (selected (under ds k) slaves)) ⊎ (1 ≤ k)
      → Narrows (scan_secondary_digit k (length ds)) (visits slaves k) ds k
  unfolding scan_secondary_digit visits
  narrows zero ds hd l (inl many) acc w sent =
      absurd (omega (arith, selected_alone ds slaves hd ws distinct))
  narrows zero ds hd l (inr few) acc w sent = absurd (omega arith)
  narrows (suc k) ds hd l h acc w sent =
      let a =
        scan_digits-Adds (scan_secondary_digit k (length ds + 1)) (visits slaves k) ds k 10 0x30
          mask_wildcard acc w sent hd l (omega arith) (omega arith)
          (λ d e many.
            subst
              (λ (n : ℕ). Narrows (scan_secondary_digit k n) (visits slaves k) (ds ++ (d ∷ [])) k)
              (length-append ds (d ∷ []))
              (narrows k (ds ++ (d ∷ [])) (All-append IsDigit ds (d ∷ []) hd (e, tt))
                (omega (arith, length-append ds (d ∷ []))) (inl many))) in
      record {
        found = a.found;
        same = Perm.trans a.same (
            Perm.map (λ (s : Slave). s.address)
              (buckets-perm ds (wild k) 10 0x30 slaves (omega arith)
                (digits_in_range ds k slaves ws l)));
        frames = a.frames;
        puts = a.puts;
        met = a.met;
      }

  -- Given slaves with different identification numbers of eight digits and whole responses, and a
  -- line on which a mask that no slave fits is met by silence, one that a single slave fits by its
  -- acknowledgement, and one that several fit by a clash of their acknowledgements (one with more
  -- bytes behind it, or four bytes or more that begin neither as an acknowledgement nor as a long
  -- frame): a search for secondary addresses that meets the exchanges with these slaves succeeds,
  -- finds the address of every slave once and no other, and uses up these exchanges. It has sent
  -- one frame for each of them and no other, in their order: for a selection by a mask, a
  -- well-formed frame to 253 with the digits of that mask and wildcards for all else, and for a
  -- slave that is asked, the request to 253.
  pub scan_secondary-Finds :
      (sent : List Bytes)
      → (found : List SecondaryAddress) × (frames : List Bytes) × Perm found (addresses slaves)
        × Puts (visits slaves secondary_digits []) frames
        × (scan_secondary (on_line line (visits slaves secondary_digits []) sent)
            ≡ (ok found, on_line line [] (sent ++ frames)))
  unfolding scan_secondary
  scan_secondary-Finds sent =
      let a = narrows 8 [] tt refl (inr (omega arith)) [] [] sent in
      (
        a.found,
        a.frames,
        subst (λ ss. Perm a.found (addresses ss)) (selected_everyone slaves ws) a.same,
        a.puts,
        ap (λ (xs : List Exchange). scan_secondary (at xs sent))
              (sym (append-nil (visits slaves 8 [])))
            ∙ ap (λ p. and_then p (λ s c. (ok s.1, c))) a.met,
      )
