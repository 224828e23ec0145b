-- ===== src/Scan/Selects.antt =====
-- scan.go: the selection frame of a secondary address.
use gombus.Prelude.{
  ℕ, ◌+◌, ◌-◌, ◌*◌, ◌/◌, ◌%◌, ◌^◌, ◌≤◌, ◌<◌, ◌≡◌, refl, sym, subst, ap, ◌∙◌, [], ◌∷◌, ◌++◌, arith,
  All, length, get_or, take, drop, bit_or,
}
use gombus.Encoding.{bcd_magnitude}
use gombus.Encoding.Bcd.{IsBcd, decimal, digits_table, bcd_magnitude-decimal}
use gombus.Result.{Bytes, IsByte, ok, ◌>>=◌}
use gombus.Response.{encode_manufacturer, decode_manufacturer}
use gombus.Response.Manufacturer.{
  IsLetter, encode_manufacturer_lem, decode_manufacturer-encode_manufacturer,
}
use gombus.Response.Digits.{IsDigit, number_of, eight_digits, eight_digits_lem}
use gombus.Read.LongFrames.{IsLongFrame}
use gombus.Commands.Build.{IsDraft, sealed, with_length, seal-eq_ok, sealed-IsLongFrame}
use gombus.Scan.{
  SecondaryAddress, SecondaryFilter, mask, mask_nibble, mask_pairs, mask_to_bcd,
  filter_manufacturer, new_secondary_filter, selection_frame,
}

pub mask_nibble-IsDigit : (c : ℕ) → IsDigit c → mask_nibble c ≡ ok (c - 0x30)
unfolding mask_nibble
mask_nibble-IsDigit c h = ground arith

pair_table : (hi lo : ℕ) → hi < 10 → lo < 10 → bit_or (hi * 16) lo ≡ hi * 16 + lo
pair_table hi lo h l =
    let t = digits_table (hi * 10 + lo) (omega arith) in
    let q : (hi * 10 + lo) / 10 ≡ hi = omega arith in
    let r : (hi * 10 + lo) % 10 ≡ lo = omega arith in rw (q, r) at t

mask_pairs-IsDigit :
    (c d : ℕ) (rest b : Bytes)
    → IsDigit c
    → IsDigit d
    → mask_pairs rest ≡ ok b
    → mask_pairs (c ∷ d ∷ rest) ≡ ok (b ++ (((c - 0x30) * 16 + (d - 0x30)) ∷ []))
unfolding mask_pairs
mask_pairs-IsDigit c d rest b hc hd e = rw (
  mask_nibble-IsDigit c hc,
  mask_nibble-IsDigit d hd,
  e,
  pair_table (c - 0x30) (d - 0x30) (omega arith) (omega arith),
)

-- A field of BCD bytes for the number that a text spells.
record IsField (s b : Bytes) : Type 0 where
  packed : mask_to_bcd s ≡ ok b
  sized : length b ≡ 4
  bytes : All IsByte b
  digits : All IsBcd b
  spells : decimal b ≡ number_of s

pub mask_to_bcd-pairs : (s : Bytes) → length s ≡ 8 → mask_to_bcd s ≡ mask_pairs s
unfolding mask_to_bcd
mask_to_bcd-pairs s l = rw l

pub no_pairs : mask_pairs [] ≡ ok []
unfolding mask_pairs
no_pairs = refl

mask_to_bcd-IsDigit : (s : Bytes) → length s ≡ 8 → All IsDigit s → (b : Bytes) × IsField s b
unfolding number_of
mask_to_bcd-IsDigit (p ∷ q ∷ r ∷ s ∷ t ∷ u ∷ v ∷ w ∷ []) l
      (hp, (hq, (hr, (hs, (ht, (hu, (hv, (hw, _)))))))) =
    (
      ((v - 48) * 16 + (w - 48))
          ∷ ((t - 48) * 16 + (u - 48))
          ∷ ((r - 48) * 16 + (s - 48))
          ∷ ((p - 48) * 16 + (q - 48))
          ∷ [],
      record {
        packed =
            mask_to_bcd-pairs (p ∷ q ∷ r ∷ s ∷ t ∷ u ∷ v ∷ w ∷ []) l
            ∙ mask_pairs-IsDigit p q _ _ hp hq (
                mask_pairs-IsDigit r s _ _ hr hs
                  (mask_pairs-IsDigit t u _ _ ht hu (mask_pairs-IsDigit v w _ _ hv hw no_pairs)));
        sized = refl;
        bytes = omega arith;
        digits = omega arith;
        spells = omega arith;
      },
    )
mask_to_bcd-IsDigit _ l a = absurd (omega arith)

-- What a selection frame for an identification number and two bytes of a manufacturer holds.
pub record Holds (id maker frame : Bytes) : Type 0 where
  pub whole : IsLongFrame frame
  pub sized : length frame ≡ 17
  pub command : take 3 (drop 4 frame) ≡ 0x53 ∷ 0xFD ∷ 0x52 ∷ []
  pub id_field : take 4 (drop 7 frame) ≡ id
  maker_field : get_or frame 11 0 ∷ get_or frame 12 0 ∷ [] ≡ maker
  pub behind : take 4 (drop 11 frame) ≡ maker ++ (0xFF ∷ 0xFF ∷ [])
  wildcards : take 2 (drop 13 frame) ≡ 0xFF ∷ 0xFF ∷ []
  long : 13 ≤ length frame

abbrev pub filter_of : Bytes → Bytes → SecondaryFilter
filter_of id maker = record { id = id; manufacturer = maker; version = 0xFF; medium = 0xFF }

abbrev draft : Bytes → Bytes → Bytes
draft id maker =
    (0x68 ∷ 0x00 ∷ 0x00 ∷ 0x68 ∷ 0x53 ∷ 0xFD ∷ 0x52 ∷ id)
    ++ (maker ++ (0xFF ∷ 0xFF ∷ 0x00 ∷ 0x16 ∷ []))

pub filter-Holds :
    (id maker : Bytes)
    → length id ≡ 4
    → length maker ≡ 2
    → (frame : Bytes) × (selection_frame (filter_of id maker) ≡ ok frame) × Holds id maker frame
unfolding selection_frame
filter-Holds (p ∷ q ∷ r ∷ s ∷ []) (m ∷ n ∷ []) h k =
    let lf = draft (p ∷ q ∷ r ∷ s ∷ []) (m ∷ n ∷ []) in
    let d : IsDraft lf = omega arith in
    (
      sealed lf,
      seal-eq_ok lf d,
      record {
        whole = sealed-IsLongFrame lf d;
        sized = unfold sealed with_length in refl;
        behind = unfold sealed with_length in refl;
        command = unfold sealed with_length in refl;
        id_field = unfold sealed with_length in refl;
        maker_field = unfold sealed with_length in refl;
        wildcards = unfold sealed with_length in refl;
        long = unfold sealed with_length in omega arith;
      },
    )
filter-Holds _ _ h k = absurd (omega arith)

-- The two bytes of a manufacturer in a filter: wildcards for none, and else the three letters.
abbrev pub ForMaker : Bytes → Bytes → Type 0
ForMaker [] frame = get_or frame 11 0 ∷ get_or frame 12 0 ∷ [] ≡ 0xFF ∷ 0xFF ∷ []
ForMaker (a ∷ name) frame = decode_manufacturer frame ≡ ok (a ∷ name)

-- An address that can be selected: a number of eight digits, and no manufacturer or three capital
-- letters.
pub data IsSelectable : SecondaryAddress → Type 0 where
  by_number : (s : SecondaryAddress) → s.id < 10 ^ 8 → s.manufacturer ≡ [] → IsSelectable s
  by_maker :
      (s : SecondaryAddress) (a b c : ℕ)
      → s.id < 10 ^ 8
      → IsLetter a
      → IsLetter b
      → IsLetter c
      → s.manufacturer ≡ a ∷ b ∷ c ∷ []
      → IsSelectable s

-- What the selection frame of an address says.
pub record Selects (s : SecondaryAddress) (frame : Bytes) : Type 0 where
  pub whole : IsLongFrame frame
  pub sized : length frame ≡ 17
  pub command : take 3 (drop 4 frame) ≡ 0x53 ∷ 0xFD ∷ 0x52 ∷ []
  pub number : bcd_magnitude (take 4 (drop 7 frame)) ≡ ok s.id
  pub maker : ForMaker s.manufacturer frame
  pub wildcards : take 2 (drop 13 frame) ≡ 0xFF ∷ 0xFF ∷ []

pub mask-eight_digits : (s : SecondaryAddress) → mask s ≡ eight_digits s.id
unfolding mask
mask-eight_digits s = refl

-- The bytes of the number of an address.
number_field :
    (s : SecondaryAddress)
    → s.id < 10 ^ 8
    → (b : Bytes) × (mask_to_bcd (mask s) ≡ ok b) × (length b ≡ 4) × (bcd_magnitude b ≡ ok s.id)
number_field s h =
    let (d, l, n) = eight_digits_lem s.id h in
    let (b, f) = mask_to_bcd-IsDigit (eight_digits s.id) l d in
    let small : decimal b < 2 ^ 64 = omega (arith, f.spells, n) in
    (
      b,
      ap mask_to_bcd (mask-eight_digits s) ∙ f.packed,
      f.sized,
      bcd_magnitude-decimal b (λ e. omega (arith, ap length e, f.sized)) f.bytes f.digits small
          ∙ ap ok (f.spells ∙ n),
    )

new_secondary_filter-eq :
    (s : SecondaryAddress) (b maker : Bytes)
    → mask_to_bcd (mask s) ≡ ok b
    → filter_manufacturer s.manufacturer ≡ ok maker
    → new_secondary_filter s ≡ ok (filter_of b maker)
unfolding new_secondary_filter
new_secondary_filter-eq s b maker p q = rw (p, q)

nobody : (name : Bytes) → name ≡ [] → filter_manufacturer name ≡ ok (0xFF ∷ 0xFF ∷ [])
unfolding filter_manufacturer
nobody name e = rw e

-- The two bytes that three capital letters are packed into.
letters :
    (name : Bytes) (a b c : ℕ)
    → IsLetter a
    → IsLetter b
    → IsLetter c
    → name ≡ a ∷ b ∷ c ∷ []
    → (m : ℕ) × (n : ℕ) × (filter_manufacturer name ≡ ok (m ∷ n ∷ []))
      × (encode_manufacturer (a ∷ b ∷ c ∷ []) ≡ ok (m ∷ n ∷ []))
unfolding filter_manufacturer
letters name a b c ha hb hc e = let p = encode_manufacturer_lem a b c ha hb hc in (_, _, rw e p, p)

-- For an identification number of eight digits, and no manufacturer or three capital letters: the
-- selection frame is well formed, has 17 bytes and goes to 253, its number and its manufacturer
-- read back as those of the address, and a missing manufacturer, the version and the medium are
-- wildcards.
pub selection_frame-Selects :
    (s : SecondaryAddress)
    → IsSelectable s
    → (frame : Bytes) × ((new_secondary_filter s >>= selection_frame) ≡ ok frame) × Selects s frame
selection_frame-Selects s (by_number _ h m) =
    let (b, p, l, v) = number_field s h in
    let (frame, e, w) = filter-Holds b (0xFF ∷ 0xFF ∷ []) l refl in
    (
      frame,
      rw (new_secondary_filter-eq s b (0xFF ∷ 0xFF ∷ []) p (nobody s.manufacturer m)) e,
      record {
        whole = w.whole;
        sized = w.sized;
        command = w.command;
        number = ap bcd_magnitude w.id_field ∙ v;
        maker = subst (λ n. ForMaker n frame) (sym m) w.maker_field;
        wildcards = w.wildcards;
      },
    )
selection_frame-Selects s (by_maker _ a b c h ha hb hc m) =
    let (id, p, l, v) = number_field s h in
    let (m0, m1, q, packed) = letters s.manufacturer a b c ha hb hc m in
    let (frame, e, w) = filter-Holds id (m0 ∷ m1 ∷ []) l refl in
    let read =
      decode_manufacturer-encode_manufacturer a b c frame ha hb hc w.long
        (packed ∙ ap ok (sym w.maker_field)) in
    (
      frame,
      rw (new_secondary_filter-eq s id (m0 ∷ m1 ∷ []) p q) e,
      record {
        whole = w.whole;
        sized = w.sized;
        command = w.command;
        number = ap bcd_magnitude w.id_field ∙ v;
        maker = subst (λ n. ForMaker n frame) (sym m) read;
        wildcards = w.wildcards;
      },
    )
