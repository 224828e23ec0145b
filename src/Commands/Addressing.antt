-- ===== src/Commands/Addressing.antt =====
-- commands.go: which addresses the commands accept, and what the frames carry.
use gombus.Prelude.{ℕ, ◌^◌, ◌≤◌, ◌<◌, ◌≡◌, ◌↔◌, ◌⊎◌, refl, [], ◌∷◌, ◌++◌, arith, length, take, drop}
use gombus.Result.{Bytes, ok, err, sentinel, message, invalid_primary_id, bcd_digits_exceeded}
use gombus.Encoding.{bcd_magnitude}
use gombus.Encoding.Bcd.{bcd_magnitude-uint_to_bcd, uint_to_bcd_refuses}
use gombus.Read.{parse_long_frame}
use gombus.Read.LongFrames.{IsLongFrame, parse_long_frame-IsLongFrame}
use gombus.Commands.{
  seal, validate_assignable_addr, validate_destination_addr, copy_into, set_primary_using_secondary,
  set_primary_using_primary,
}
use gombus.Commands.Build.{IsDraft, sealed, with_length, seal-eq_ok, sealed-IsLongFrame}

-- An address that a slave may hold, and one that a frame may be sent to.
abbrev pub IsAssignable : ℕ → Type 0
IsAssignable a = (1 ≤ a) × (a ≤ 250)

abbrev pub IsDestination : ℕ → Type 0
IsDestination a = IsAssignable a ⊎ (a ≡ 253) ⊎ (a ≡ 254)

-- The validators accept exactly the assignable addresses 1 to 250 and the destinations among
-- these, 253 and 254, and refuse every other byte with ErrInvalidPrimaryID.
pub validate_addr_lem :
    (a : ℕ)
    → ((validate_assignable_addr a ≡ ok tt) ↔ IsAssignable a)
      × ((validate_destination_addr a ≡ ok tt) ↔ IsDestination a)
      × ((validate_assignable_addr a ≡ ok tt)
          ⊎ (validate_assignable_addr a ≡ err (sentinel invalid_primary_id)))
      × ((validate_destination_addr a ≡ ok tt)
          ⊎ (validate_destination_addr a ≡ err (sentinel invalid_primary_id)))
unfolding validate_assignable_addr validate_destination_addr
validate_addr_lem a = (
  (λ e. ground arith, λ e. ground arith),
  (λ e. ground arith, λ e. ground arith),
  ground arith,
  ground arith,
)

abbrev primary_draft : ℕ → ℕ → Bytes
primary_draft old new =
    0x68 ∷ 0x06 ∷ 0x06 ∷ 0x68 ∷ 0x73 ∷ old ∷ 0x51 ∷ 0x01 ∷ 0x7A ∷ new ∷ 0x00 ∷ 0x16 ∷ []

primary_draft-IsDraft : (old new : ℕ) → IsDraft (primary_draft old new)
primary_draft-IsDraft old new = omega arith

-- For a destination that a frame may be sent to and an assignable new address, the command is a
-- well-formed long frame of 12 bytes with these two addresses, which the parser takes whole,
-- whatever follows it.
pub set_primary_using_primary_lem :
    (old new : ℕ) (rest : Bytes)
    → IsDestination old
    → IsAssignable new
    → (f : Bytes) × (set_primary_using_primary old new ≡ ok f)
      × IsLongFrame f
      × (parse_long_frame (f ++ rest) ≡ ok (f, length f))
      × (length f ≡ 12)
      × (take 6 (drop 4 f) ≡ 0x73 ∷ old ∷ 0x51 ∷ 0x01 ∷ 0x7A ∷ new ∷ [])
unfolding set_primary_using_primary validate_assignable_addr validate_destination_addr
set_primary_using_primary_lem old new rest d a =
    let f = sealed (primary_draft old new) in
    let w = sealed-IsLongFrame (primary_draft old new) (primary_draft-IsDraft old new) in
    (
      f,
      ground (arith, seal-eq_ok (primary_draft old new) (primary_draft-IsDraft old new)),
      w,
      parse_long_frame-IsLongFrame f rest w,
      unfold sealed with_length in refl,
      unfold sealed with_length in refl,
    )

abbrev secondary_draft : Bytes → ℕ → Bytes
secondary_draft id primary =
    0x68
    ∷ 0x00
    ∷ 0x00
    ∷ 0x68
    ∷ 0x73
    ∷ 0xFD
    ∷ 0x51
    ∷ (id ++ (0xFF ∷ 0xFF ∷ 0xFF ∷ 0xFF ∷ 0x01 ∷ 0x7A ∷ primary ∷ 0x00 ∷ 0x16 ∷ []))

abbrev Four : Bytes → Type 0
Four b = (p : ℕ) × (q : ℕ) × (r : ℕ) × (s : ℕ) × (b ≡ p ∷ q ∷ r ∷ s ∷ [])

length-Four : (b : Bytes) → length b ≡ 4 → Four b
length-Four [] e = absurd (omega arith)
length-Four (p ∷ []) e = absurd (omega arith)
length-Four (p ∷ q ∷ []) e = absurd (omega arith)
length-Four (p ∷ q ∷ r ∷ []) e = absurd (omega arith)
length-Four (p ∷ q ∷ r ∷ s ∷ []) e = (p, q, r, s, refl)
length-Four (p ∷ q ∷ r ∷ s ∷ t ∷ b) e = absurd (omega arith)

-- The selection and write in one frame, for the four bytes of the identification number.
record SecondaryFrame (id : Bytes) (primary : ℕ) (f : Bytes) : Type 0 where
  frame : IsLongFrame f
  sized : length f ≡ 20
  command : take 3 (drop 4 f) ≡ 0x73 ∷ 0xFD ∷ 0x51 ∷ []
  id_field : take 4 (drop 7 f) ≡ id
  wildcards : take 4 (drop 11 f) ≡ 0xFF ∷ 0xFF ∷ 0xFF ∷ 0xFF ∷ []
  write : take 3 (drop 15 f) ≡ 0x01 ∷ 0x7A ∷ primary ∷ []

secondary_frame :
    (id : Bytes) (primary : ℕ)
    → length id ≡ 4
    → (f : Bytes) × (seal (secondary_draft id primary) ≡ ok f) × SecondaryFrame id primary f
secondary_frame id primary e =
    let (p, q, r, s, four) = length-Four id e in
    let lf = secondary_draft (p ∷ q ∷ r ∷ s ∷ []) primary in
    let d : IsDraft lf = omega arith in
    rw four (
      sealed lf,
      seal-eq_ok lf d,
      record {
        frame = sealed-IsLongFrame lf d;
        sized = unfold sealed with_length in refl;
        command = unfold sealed with_length in refl;
        wildcards = unfold sealed with_length in refl;
        id_field = unfold sealed with_length in refl;
        write = unfold sealed with_length in refl;
      },
    )

copy_into_draft :
    (id : Bytes) (primary : ℕ)
    → length id ≡ 4
    → copy_into (secondary_draft (0x00 ∷ 0x00 ∷ 0x00 ∷ 0x00 ∷ []) primary) 7 id
      ≡ secondary_draft id primary
unfolding copy_into
copy_into_draft id primary e = rw e

-- For a secondary address of eight digits and an assignable primary address, the command is a
-- well-formed long frame of 20 bytes that is sent to 253 with C field 73h and CI field 51h, selects
-- the secondary address, in BCD that reads back as it, with wildcards for the manufacturer, the
-- version and the medium, and writes the primary address.
pub set_primary_using_secondary_lem :
    (secondary primary : ℕ)
    → secondary < 10 ^ 8
    → IsAssignable primary
    → (f : Bytes) × (set_primary_using_secondary secondary primary ≡ ok f)
      × IsLongFrame f
      × (length f ≡ 20)
      × (take 3 (drop 4 f) ≡ 0x73 ∷ 0xFD ∷ 0x51 ∷ [])
      × (bcd_magnitude (take 4 (drop 7 f)) ≡ ok secondary)
      × (take 4 (drop 11 f) ≡ 0xFF ∷ 0xFF ∷ 0xFF ∷ 0xFF ∷ [])
      × (take 3 (drop 15 f) ≡ 0x01 ∷ 0x7A ∷ primary ∷ [])
unfolding set_primary_using_secondary validate_assignable_addr
set_primary_using_secondary_lem secondary primary h a =
    let (id, e, l, _, v) = bcd_magnitude-uint_to_bcd secondary 4 (omega arith) h (omega arith) in
    let (f, s, w) = secondary_frame id primary l in
    (
      f,
      ground (arith, e, copy_into_draft id primary l, s),
      w.frame,
      w.sized,
      w.command,
      rw (w.id_field) v,
      w.wildcards,
      w.write,
    )

-- A secondary address of more than eight digits is refused, and never truncated to another one.
pub set_primary_using_secondary_refuses :
    (secondary primary : ℕ)
    → IsAssignable primary
    → 10 ^ 8 ≤ secondary
    → set_primary_using_secondary secondary primary ≡ err (message bcd_digits_exceeded)
unfolding set_primary_using_secondary validate_assignable_addr
set_primary_using_secondary_refuses secondary primary a h =
    ground (arith, uint_to_bcd_refuses secondary 4 (omega arith) h)

-- No command writes an address that no slave may hold, whoever the frame is sent to: both commands
-- return ErrInvalidPrimaryID.
pub set_primary_refuses_address :
    (old secondary primary : ℕ)
    → ¬ IsAssignable primary
    → (set_primary_using_secondary secondary primary ≡ err (sentinel invalid_primary_id))
      × (set_primary_using_primary old primary ≡ err (sentinel invalid_primary_id))
unfolding set_primary_using_secondary set_primary_using_primary validate_assignable_addr
    validate_destination_addr
set_primary_refuses_address old secondary primary n = (ground arith, ground arith)
