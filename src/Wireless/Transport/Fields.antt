-- ===== src/Wireless/Transport/Fields.antt =====
-- wmbus/tpl.go: the layers that are written are parsed to the fields that they were written from.
use gombus.Prelude.{
  ℕ, suc, ◌+◌, ◌-◌, ◌*◌, ◌/◌, ◌^◌, ◌<◌, ◌≤◌, ◌≡◌, ◌⊎◌, inl, inr, refl, sym, ap, ◌∙◌, subst, true,
  false, ◌&&◌, ◌||◌, ◌∷◌, arith, ◌==◌, ltb, if◌then◌else◌, length, length-drop, drop, take_all,
  bit_and, le→not_ltb,
}
use gombus.Prelude.Bits.{bit_or_disjoint}
use gombus.Prelude.Masks.{low_four_bits, low_five_bits}
use gombus.Response.{uint16_le}
use gombus.Result.{Bytes, Result, ok, at-eq_ok, slice-eq_ok}
use gombus.Wireless.Transport.{
  Transport, ci_long_header, ci_short_header, ci_no_header, mode_none, mode_aes_cbc_iv,
  mode_aes_cbc_derived, encryption_block_len, from_index, parse_mode, parse_long, parse_header,
  layer_of, header, enter_layer, walk_layers,
}
use gombus.Wireless.Transport.Written.{
  HeaderFields, LongAddress, Envelope, bare, short, long, write_header, write_envelope,
  IsHeaderFields, IsEnvelope, with_header, in_envelope, address_of,
}

pub from_index-drop : (b : Bytes) (i : ℕ) → i ≤ length b → from_index b i ≡ ok (drop i b)
from_index-drop b i h =
    slice-eq_ok b i (length b) h (omega arith)
    ∙ ap ok (take_all (length b - i) (drop i b) (omega (arith, length-drop {0} i b)))

-- The header parser, by what its tests find.
parse_mode-read :
    (tr : Transport) (a s c0 c1 : ℕ) (tail : Bytes) (mode blocks : ℕ) (body : Bytes)
    → bit_and (uint16_le c0 c1 / 2 ^ 8) 0x1F ≡ mode
    → bit_and (uint16_le c0 c1 / 2 ^ 4) 0x0F ≡ blocks
    → (mode == mode_none || (mode == mode_aes_cbc_iv || mode == mode_aes_cbc_derived)) ≡ true
    → (mode == mode_aes_cbc_derived && ltb (length tail) 1) ≡ false
    → from_index tail (if mode == mode_aes_cbc_derived then 1 else 0) ≡ ok body
    → blocks * 16 ≤ length body
    → parse_mode tr (a ∷ (s ∷ (c0 ∷ (c1 ∷ tail))))
      ≡ ok (record tr {
        access_number = a;
        status = s;
        mode = mode;
        encrypted_bytes = blocks * encryption_block_len;
        body = body;
      })
unfolding parse_mode
parse_mode-read tr a s c0 c1 tail mode blocks body m b known enough read held =
    let rest : Bytes = a ∷ (s ∷ (c0 ∷ (c1 ∷ tail))) in
    rw
      (
        le→not_ltb (length rest) 4 (omega arith),
        at-eq_ok rest 0 (omega arith),
        at-eq_ok rest 1 (omega arith),
        at-eq_ok rest 2 (omega arith),
        at-eq_ok rest 3 (omega arith),
        from_index-drop rest 4 (omega arith),
        m,
        b,
        known,
        enough,
        read,
        le→not_ltb (length body) (blocks * 16) held,
      )
      refl

-- What the mode says of the bytes behind the configuration word.
record Reads (mode : ℕ) (tail body : Bytes) : Type 0 where
  known : (mode == mode_none || (mode == mode_aes_cbc_iv || mode == mode_aes_cbc_derived)) ≡ true
  enough : (mode == mode_aes_cbc_derived && ltb (length tail) 1) ≡ false
  read : from_index tail (if mode == mode_aes_cbc_derived then 1 else 0) ≡ ok body

abbrev tail_of : ℕ → ℕ → Bytes → Bytes
tail_of mode extension body = if mode == mode_aes_cbc_derived then extension ∷ body else body

tail_of-Reads :
    (mode extension : ℕ) (body : Bytes)
    → (mode ≡ mode_none) ⊎ ((mode ≡ mode_aes_cbc_iv) ⊎ (mode ≡ mode_aes_cbc_derived))
    → Reads mode (tail_of mode extension body) body
tail_of-Reads mode extension body (inl e) =
    subst (λ (m : ℕ). Reads m (tail_of m extension body) body) (sym e)
      (record { known = refl; enough = refl; read = from_index-drop body 0 (omega arith) })
tail_of-Reads mode extension body (inr (inl e)) =
    subst (λ (m : ℕ). Reads m (tail_of m extension body) body) (sym e)
      (record { known = refl; enough = refl; read = from_index-drop body 0 (omega arith) })
tail_of-Reads mode extension body (inr (inr e)) =
    subst (λ (m : ℕ). Reads m (tail_of m extension body) body) (sym e)
      (record {
        known = refl;
        enough = le→not_ltb (length (extension ∷ body)) 1 (omega arith);
        read = from_index-drop (extension ∷ body) 1 (omega arith);
      })

config_bits :
    (blocks low_bits mode high_bits : ℕ)
    → blocks < 16
    → low_bits < 16
    → mode < 32
    → (bit_and (uint16_le (blocks * 16 + low_bits) (high_bits * 32 + mode) / 2 ^ 8) 0x1F ≡ mode)
      × (bit_and (uint16_le (blocks * 16 + low_bits) (high_bits * 32 + mode) / 2 ^ 4) 0x0F ≡ blocks)
config_bits blocks low_bits mode high_bits b l m =
    let w = uint16_le (blocks * 16 + low_bits) (high_bits * 32 + mode) in
    let sum = bit_or_disjoint 8 (blocks * 16 + low_bits) (high_bits * 32 + mode) (omega arith) in
    (low_five_bits (w / 2 ^ 8) ∙ omega (arith, sum), low_four_bits (w / 2 ^ 4) ∙ omega (arith, sum))

parse_mode-written :
    (tr : Transport) (h : HeaderFields) (body : Bytes)
    → IsHeaderFields h body
    → parse_mode tr (write_header h body) ≡ ok (with_header h body tr)
parse_mode-written tr h body (b, l, u, m, held) =
    let (mode, blocks) = config_bits h.blocks h.low_bits h.mode h.high_bits b l (ground arith) in
    let r = tail_of-Reads h.mode h.extension body m in
    parse_mode-read tr h.access_number h.status (h.blocks * 16 + h.low_bits)
      (h.high_bits * 32 + h.mode) (tail_of h.mode h.extension body) h.mode h.blocks body mode blocks
      r.known r.enough r.read held

parse_long-written :
    (tr : Transport) (a : LongAddress) (rest : Bytes)
    → parse_long tr (
        a.ident.0
        ∷ (a.ident.1
            ∷ (a.ident.2
                ∷ (a.ident.3
                    ∷ (a.manufacturer.0
                        ∷ (a.manufacturer.1 ∷ (a.version ∷ (a.device_type ∷ rest))))))))
      ≡ parse_mode (record tr { address = address_of a }) rest
unfolding parse_long
parse_long-written tr a rest =
    let b : Bytes =
      a.ident.0
      ∷ (a.ident.1
          ∷ (a.ident.2
              ∷ (a.ident.3
                  ∷ (a.manufacturer.0
                      ∷ (a.manufacturer.1 ∷ (a.version ∷ (a.device_type ∷ rest))))))) in
    rw
      (
        le→not_ltb (length b) 8 (omega arith),
        slice-eq_ok b 4 6 (omega arith) (omega arith),
        slice-eq_ok b 0 4 (omega arith) (omega arith),
        at-eq_ok b 6 (omega arith),
        at-eq_ok b 7 (omega arith),
        from_index-drop b 8 (omega arith),
      )
      refl

-- One round of the walk.
pub walk_layers-cons :
    (fuel : ℕ) (tr : Transport) (ci : ℕ) (rest : Bytes)
    → walk_layers (suc fuel) tr (ci ∷ rest)
      ≡ enter_layer (walk_layers fuel) (layer_of ci) ci tr (ci ∷ rest)
unfolding walk_layers
walk_layers-cons fuel tr ci rest =
    rw (le→not_ltb (length (ci ∷ rest)) 1 (omega arith), at-eq_ok (ci ∷ rest) 0 (omega arith)) refl

enter_header :
    (next : Transport → Bytes → Result Transport) (ci : ℕ) (tr : Transport) (rest : Bytes)
    → enter_layer next header ci tr (ci ∷ rest) ≡ parse_header tr ci rest
unfolding enter_layer
enter_header next ci tr rest = rw (from_index-drop (ci ∷ rest) 1 (omega arith)) refl

layer_of_envelope :
    (layer_of ci_no_header ≡ header)
    × (layer_of ci_short_header ≡ header)
    × (layer_of ci_long_header ≡ header)
unfolding layer_of
layer_of_envelope = (refl, refl, refl)

pub walk_envelope :
    (fuel : ℕ) (tr : Transport) (e : Envelope) (body : Bytes)
    → IsEnvelope e body
    → walk_layers (suc fuel) tr (write_envelope e body) ≡ ok (in_envelope e body tr)
unfolding parse_header
walk_envelope fuel tr bare body h =
    walk_layers-cons fuel tr ci_no_header body
    ∙ ap (λ l. enter_layer (walk_layers fuel) l ci_no_header tr (ci_no_header ∷ body))
        (layer_of_envelope.0)
    ∙ enter_header (walk_layers fuel) ci_no_header tr body
walk_envelope fuel tr (short f) body h =
    let rest = write_header f body in
    walk_layers-cons fuel tr ci_short_header rest
    ∙ ap (λ l. enter_layer (walk_layers fuel) l ci_short_header tr (ci_short_header ∷ rest))
        (layer_of_envelope.1)
    ∙ enter_header (walk_layers fuel) ci_short_header tr rest
    ∙ parse_mode-written (record tr { ci = ci_short_header }) f body h
walk_envelope fuel tr (long a f) body h =
    let rest : Bytes = drop 1 (write_envelope (long a f) body) in
    walk_layers-cons fuel tr ci_long_header rest
    ∙ ap (λ l. enter_layer (walk_layers fuel) l ci_long_header tr (ci_long_header ∷ rest))
        (layer_of_envelope.2)
    ∙ enter_header (walk_layers fuel) ci_long_header tr rest
    ∙ parse_long-written (record tr { ci = ci_long_header }) a (write_header f body)
    ∙ parse_mode-written (record tr { ci = ci_long_header; address = address_of a }) f body h
