-- ===== src/Scan/Search/Bus/Masks.antt =====
-- scan.go: the masks of the search are packed into selection frames.
use gombus.Prelude.{
  ℕ, zero, suc, ◌+◌, ◌*◌, ◌/◌, ◌%◌, ◌<◌, ◌≡◌, ◌⊎◌, inl, inr, refl, ap, ◌∙◌, [], ◌∷◌, ◌++◌, arith,
  All, All-append, length, length-append, replicate, bit_or, set, map,
}
use gombus.Prelude.Bits.{agree, agree_sound}
use gombus.Result.{Bytes, ok}
use gombus.Response.Digits.{IsDigit}
use gombus.Scan.{mask_wildcard, mask_nibble, mask_pairs, mask_to_bcd, selection_frame}
use gombus.Scan.Selects.{mask_to_bcd-pairs, no_pairs, filter_of, filter-Holds}
use gombus.Scan.Search.Bus.{under, nibbles, digit_of, IsSelection}

abbrev IsMaskDigit : ℕ → Type 0
IsMaskDigit c = IsDigit c ⊎ (c ≡ mask_wildcard)

mask_nibble-IsMaskDigit :
    (c : ℕ) → IsMaskDigit c → (mask_nibble c ≡ ok (digit_of c)) × (digit_of c < 16)
unfolding mask_nibble
mask_nibble-IsMaskDigit c (inl h) = (ground arith, ground arith)
mask_nibble-IsMaskDigit c (inr e) = (ground arith, ground arith)

-- Two nibbles are one byte.
joined : (hi lo : ℕ) → hi < 16 → lo < 16 → bit_or (hi * 16) lo ≡ hi * 16 + lo
unfolding agree
joined hi lo h l =
    let t =
      agree_sound 256 (λ x. bit_or (x / 16 * 16) (x % 16)) (λ x. x) (hi * 16 + lo) refl
        (omega arith) in
    let q : (hi * 16 + lo) / 16 ≡ hi = omega arith in
    let r : (hi * 16 + lo) % 16 ≡ lo = omega arith in rw (q, r) at t

nibbles_behind :
    (b : Bytes) (hi lo : ℕ) → lo < 16 → nibbles (b ++ ((hi * 16 + lo) ∷ [])) ≡ hi ∷ lo ∷ nibbles b
nibbles_behind [] hi lo l =
    let q : (hi * 16 + lo) / 16 ≡ hi = omega arith in
    let r : (hi * 16 + lo) % 16 ≡ lo = omega arith in rw (q, r) refl
nibbles_behind (x ∷ b) hi lo l =
    ap (λ (n : Bytes). n ++ (x / 16 ∷ (x % 16 ∷ []))) (nibbles_behind b hi lo l)

-- Two digits more are one byte more, with these nibbles.
IsPacked : ℕ → Bytes → Type 0
IsPacked n s = (b : Bytes) × (mask_pairs s ≡ ok b) × (length b ≡ n) × (nibbles b ≡ map digit_of s)

pair-IsPacked :
    (n c d : ℕ) (s : Bytes)
    → IsMaskDigit c
    → IsMaskDigit d
    → IsPacked n s
    → IsPacked (suc n) (c ∷ d ∷ s)
unfolding IsPacked mask_pairs
pair-IsPacked n c d s hc hd (b, e, l, v) =
    let (p, h) = mask_nibble-IsMaskDigit c hc in
    let (q, k) = mask_nibble-IsMaskDigit d hd in
    let x = digit_of c * 16 + digit_of d in
    (
      b ++ (x ∷ []),
      rw (p, q, e, joined (digit_of c) (digit_of d) h k) refl,
      omega (arith, length-append b (x ∷ [])),
      nibbles_behind b (digit_of c) (digit_of d) k
          ∙ ap (λ (n : Bytes). digit_of c ∷ (digit_of d ∷ n)) v,
    )

mask_to_bcd-IsMaskDigit :
    (s : Bytes)
    → length s ≡ 8
    → All IsMaskDigit s
    → (b : Bytes) × (mask_to_bcd s ≡ ok b) × (length b ≡ 4) × (nibbles b ≡ map digit_of s)
unfolding IsPacked
mask_to_bcd-IsMaskDigit (p ∷ q ∷ r ∷ s ∷ t ∷ u ∷ v ∷ w ∷ []) l
      (hp, (hq, (hr, (hs, (ht, (hu, (hv, (hw, _)))))))) =
    let (b, e, k, n) = pair-IsPacked 3 p q _ hp hq (
      pair-IsPacked 2 r s _ hr hs
        (pair-IsPacked 1 t u _ ht hu (pair-IsPacked 0 v w [] hv hw ([], no_pairs, refl, refl)))) in
    (b, mask_to_bcd-pairs (p ∷ q ∷ r ∷ s ∷ t ∷ u ∷ v ∷ w ∷ []) l ∙ e, k, n)
mask_to_bcd-IsMaskDigit _ l a = absurd (omega arith)

wildcards-IsMaskDigit : (k : ℕ) → All IsMaskDigit (replicate k mask_wildcard)
wildcards-IsMaskDigit zero = tt
wildcards-IsMaskDigit (suc k) = (inr refl, wildcards-IsMaskDigit k)

digits-IsMaskDigit : (ds : Bytes) → All IsDigit ds → All IsMaskDigit ds
digits-IsMaskDigit [] h = tt
digits-IsMaskDigit (d ∷ ds) h = (inl h.0, digits-IsMaskDigit ds h.1)

length-replicate : (k : ℕ) (c : ℕ) → length (replicate k c) ≡ k
length-replicate zero c = refl
length-replicate (suc k) c = ap suc (length-replicate k c)

-- The selection by a mask of the search is a frame that selects by it.
pub record IsSent (m : Bytes) : Type 0 where
  pub id : Bytes
  pub frame : Bytes
  pub packed : mask_to_bcd m ≡ ok id
  pub sealed : selection_frame (filter_of id (0xFF ∷ 0xFF ∷ [])) ≡ ok frame
  pub put : IsSelection m frame

pub under-IsSent : (ds : Bytes) (k : ℕ) → All IsDigit ds → length ds + k ≡ 8 → IsSent (under ds k)
under-IsSent ds k h l =
    let (b, e, n, v) =
      mask_to_bcd-IsMaskDigit (under ds k)
        (length-append ds (replicate k mask_wildcard)
          ∙ omega (arith, length-replicate k mask_wildcard))
        (All-append IsMaskDigit ds (replicate k mask_wildcard) (digits-IsMaskDigit ds h)
          (wildcards-IsMaskDigit k)) in
    let (frame, p, w) = filter-Holds b (0xFF ∷ 0xFF ∷ []) n refl in
    record {
      id = b;
      frame = frame;
      packed = e;
      sealed = p;
      put = record {
        whole = w.whole;
        sized = w.sized;
        command = w.command;
        number = ap nibbles w.id_field ∙ v;
        wildcards = w.behind;
      };
    }

-- The digit behind those that are fixed.
pub set_behind : (ds r : Bytes) (x d : ℕ) → set (ds ++ (x ∷ r)) (length ds) d ≡ ds ++ (d ∷ r)
set_behind [] r x d = refl
set_behind (e ∷ ds) r x d = ap (◌∷◌ e) (set_behind ds r x d)
