-- ===== src/Wireless/Transport/Total.antt =====
-- wmbus/tpl.go: parsing the layers of any frame ends in a transport in range or an error.
use gombus.Prelude.{
  ℕ, zero, suc, ◌+◌, ◌≤◌, ◌<◌, refl, Bool, ◌&&◌, [], ◌∷◌, arith, ltb, if◌then◌else◌, length,
  length-append, All, All-append,
}
use gombus.Result.{
  Bytes, IsByte, Result, sentinel, wireless_invalid_frame, at-Ensures, slice-Ensures, Ensures,
  returns, fails, Ensures-if, Ensures-bind, Ensures-map, Ensures-refuse,
}
use gombus.Wireless.Link.{Frame}
use gombus.Wireless.Link.Total.{IsFrame}
use gombus.Wireless.Transport.{
  Transport, skip_field, take_counter, parse_auth_layer, enter_layer, layer_of, Layer,
  extended_link, session_link, auth_layer, header, unknown_layer, walk_layers, link_transport,
  parse_transport,
}
use gombus.Wireless.Transport.Header.{
  IsTransport, IsAddressed, IsDraft, wider, from_index-Ensures, parse_header-Ensures,
}

skip_field-Ensures :
    (present : Bool) (n : ℕ) (fields : Bytes)
    → All IsByte fields
    → Ensures (λ f. All IsByte f) (skip_field present n fields)
unfolding skip_field
skip_field-Ensures present n fields a =
    Ensures-refuse (present && ltb (length fields) n) (sentinel wireless_invalid_frame) λ h.
      Ensures-map (from_index-Ensures fields (if present then n else 0) (ground arith) a) λ _ p. p.1

take_counter-Ensures :
    (present : Bool) (fields : Bytes) (tr : Transport)
    → All IsByte fields
    → IsDraft tr
    → Ensures IsDraft (take_counter present fields tr)
unfolding take_counter IsDraft IsAddressed
take_counter-Ensures present fields tr a (t, mode, encrypted) =
    Ensures-if present
      (λ _. Ensures-refuse (ltb (length fields) 4) (sentinel wireless_invalid_frame) λ h.
        Ensures-bind (slice-Ensures fields 0 4 (omega arith) (ground arith) a)
          λ _ c. returns ((t.0, c, t.2, t.3), mode, encrypted))
      λ _. returns (t, mode, encrypted)

parse_auth_layer-Ensures :
    (tr : Transport) (rest : Bytes)
    → IsDraft tr
    → All IsByte rest
    → Ensures
        (λ (p : Transport × Bytes). IsDraft p.0 × All IsByte p.1 × (length p.1 + 2 ≤ length rest))
        (parse_auth_layer tr rest)
unfolding parse_auth_layer
parse_auth_layer-Ensures tr rest t a =
    Ensures-refuse (ltb (length rest) 2) (sentinel wireless_invalid_frame) λ h.
      Ensures-bind (at-Ensures rest 1 (ground arith) a) λ size _.
        Ensures-refuse (ltb (length rest) (2 + size)) (sentinel wireless_invalid_frame) λ k.
          let room : 2 + size ≤ length rest = ground arith in
          Ensures-bind (slice-Ensures rest 2 (2 + size) (omega arith) room a) λ fields (_, b).
            Ensures-refuse (ltb (length fields) 2) (sentinel wireless_invalid_frame) λ m.
              let long : 2 ≤ length fields = ground arith in
              Ensures-bind (at-Ensures fields 0 (omega arith) b) λ _ _.
                Ensures-bind (at-Ensures fields 1 (omega arith) b) λ _ _.
                  Ensures-bind (from_index-Ensures fields 2 long b) λ fields1 (_, b1).
                    Ensures-bind (skip_field-Ensures _ 1 fields1 b1) λ fields2 b2.
                      Ensures-bind (skip_field-Ensures _ 2 fields2 b2) λ fields3 b3.
                        Ensures-bind (take_counter-Ensures _ fields3 tr b3 t) λ _ d.
                          Ensures-bind (from_index-Ensures rest (2 + size) room a)
                            λ _ (l, c). returns (d, c, omega (arith, l))

enter_layer-Ensures :
    (next : Transport → Bytes → Result Transport) (layer : Layer) (ci : ℕ) (tr : Transport)
    (rest : Bytes)
    → IsDraft tr
    → All IsByte rest
    → 1 ≤ length rest
    → ((t : Transport) (b : Bytes)
        → IsDraft t
        → All IsByte b
        → length b < length rest
        → Ensures (IsTransport (length b)) (next t b))
    → Ensures (IsTransport (length rest)) (enter_layer next layer ci tr rest)
unfolding enter_layer
enter_layer-Ensures next extended_link ci tr rest t a h k =
    Ensures-refuse (ltb (length rest) 3) (sentinel wireless_invalid_frame) λ m.
      Ensures-bind (from_index-Ensures rest 3 (ground arith) a) λ rest' (l, b).
        Ensures-map (k tr rest' t b (ground arith)) λ x p. wider _ _ x (omega (arith, l)) p
enter_layer-Ensures next session_link ci tr rest t a h k = fails
enter_layer-Ensures next auth_layer ci tr rest t a h k =
    Ensures-bind (parse_auth_layer-Ensures tr rest t a)
      λ p (d, b, l). Ensures-map (k p.0 p.1 d b (omega arith)) λ x q. wider _ _ x (omega arith) q
enter_layer-Ensures next header ci tr rest t a h k =
    Ensures-bind (from_index-Ensures rest 1 h a) λ rest' (l, b).
      Ensures-map (parse_header-Ensures tr ci rest' t b) λ x p. wider _ _ x (omega (arith, l)) p
enter_layer-Ensures next unknown_layer ci tr rest t a h k = fails

walk_layers-Ensures :
    (fuel : ℕ) (tr : Transport) (rest : Bytes)
    → IsDraft tr
    → All IsByte rest
    → length rest < fuel
    → Ensures (IsTransport (length rest)) (walk_layers fuel tr rest)
unfolding walk_layers
walk_layers-Ensures zero tr rest t a h = absurd (omega arith)
walk_layers-Ensures (suc fuel) tr rest t a h =
    Ensures-refuse (ltb (length rest) 1) (sentinel wireless_invalid_frame) λ k.
      Ensures-bind (at-Ensures rest 0 (ground arith) a) λ ci _.
        enter_layer-Ensures (walk_layers fuel) (layer_of ci) ci tr rest t a (ground arith)
          λ u b d c l. walk_layers-Ensures fuel u b d c (omega arith)

link_transport-IsDraft : (n : ℕ) (f : Frame) → IsFrame n f → IsDraft (link_transport f)
unfolding IsDraft IsAddressed IsFrame
link_transport-IsDraft n f ((l, a), m, v, d, _, _) = (
  (
    (
      omega (arith, length-append f.ident (f.version ∷ f.device_type ∷ []), l),
      (omega arith, (omega arith, All-append IsByte f.ident _ a (v, (d, tt)))),
    ),
    (refl, (omega arith, (omega arith, (omega arith, (omega arith, tt))))),
    omega arith,
    omega arith,
  ),
  refl,
  refl,
)

-- Parsing the layers of a well-formed link-layer frame never indexes out of range and ends within
-- its fuel: it is an error, or a transport with an address of eight bytes, a counter of four, a
-- known security mode, and encrypted bytes that are whole blocks of 16 and no more than the body,
-- which is no longer than the payload.
pub parse_transport-Ensures :
    (n : ℕ) (f : Frame) → IsFrame n f → Ensures (IsTransport (length f.payload)) (parse_transport f)
unfolding parse_transport IsFrame
parse_transport-Ensures n f (i, m, v, d, p, l) =
    walk_layers-Ensures (length f.payload + 1) (link_transport f) f.payload
      (link_transport-IsDraft n f (i, m, v, d, p, l)) p (omega arith)
