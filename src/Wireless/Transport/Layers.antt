-- ===== src/Wireless/Transport/Layers.antt =====
-- wmbus/tpl.go: the layers in front of the header are stepped over, and give the message counter.
use gombus.Prelude.{
  ℕ, zero, suc, ◌+◌, ◌-◌, ◌*◌, ◌<◌, ◌≤◌, ◌≡◌, refl, ap, ◌∙◌, All, Bool, true, false, not, Option,
  none, some, List, [], ◌∷◌, ◌++◌, arith, ◌==◌, length, length-append, take, drop, take_all,
  take-append, drop_prefix, bit_and, le→not_ltb,
}
use gombus.Prelude.Flags.{high_mask}
use gombus.Response.{uint16_le}
use gombus.Result.{Bytes, ok, at-eq_ok, slice, slice-eq_ok}
use gombus.Wireless.Link.{Frame}
use gombus.Wireless.Transport.{
  Transport, ci_extended_link_i, ci_auth_fragmentation, from_index, skip_field, take_counter,
  parse_auth_layer, layer_of, extended_link, auth_layer, enter_layer, walk_layers, link_transport,
  parse_transport,
}
use gombus.Wireless.Transport.Written.{
  AuthFields, OuterLayer, extended, authenticated, Envelope, optional, flag, write_auth_fields,
  write_layer, write_layers, write_envelope, IsOuterLayer, IsEnvelope, with_counter, behind_layer,
  behind_layers, in_envelope,
}
use gombus.Wireless.Transport.Fields.{from_index-drop, walk_layers-cons, walk_envelope}

abbrev has : {A : Type 0} → Option A → Bool
has none = false
has (some a) = true

-- The bits of the fragmentation control field say which fields there are.
record Marks (a : AuthFields) (word : ℕ) : Type 0 where
  control : not (bit_and word 0x2000 == 0) ≡ has a.control
  key : not (bit_and word 0x0100 == 0) ≡ has a.key
  counter : not (bit_and word 0x1000 == 0) ≡ has a.counter

abbrev bits : {A B C : Type 0} → Option A → Option B → Option C → ℕ
bits control key counter = flag 0x20 control + (flag 0x10 counter + flag 0x01 key)

abbrev tested : ℕ → ℕ → Bool
tested high m = not (bit_and high m * 256 == 0)

all_tested :
    {A B C : Type 0} (control : Option A) (key : Option B) (counter : Option C)
    → (tested (bits control key counter) 0x20 ≡ has control)
      × (tested (bits control key counter) 0x01 ≡ has key)
      × (tested (bits control key counter) 0x10 ≡ has counter)
all_tested none none none = (refl, refl, refl)
all_tested none none (some n) = (refl, refl, refl)
all_tested none (some k) none = (refl, refl, refl)
all_tested none (some k) (some n) = (refl, refl, refl)
all_tested (some c) none none = (refl, refl, refl)
all_tested (some c) none (some n) = (refl, refl, refl)
all_tested (some c) (some k) none = (refl, refl, refl)
all_tested (some c) (some k) (some n) = (refl, refl, refl)

write_auth_fields-Marks :
    (a : AuthFields)
    → a.fragment < 256
    → Marks a (uint16_le a.fragment (bits a.control a.key a.counter))
write_auth_fields-Marks a h =
    let high = bits a.control a.key a.counter in
    let (c, k, n) = all_tested a.control a.key a.counter in
    record {
      control = ap (λ (x : ℕ). not (x == 0)) (high_mask a.fragment high 0x20 h) ∙ c;
      key = ap (λ (x : ℕ). not (x == 0)) (high_mask a.fragment high 0x01 h) ∙ k;
      counter = ap (λ (x : ℕ). not (x == 0)) (high_mask a.fragment high 0x10 h) ∙ n;
    }

skip_control :
    (c : Option ℕ) (rest : Bytes)
    → skip_field (has c) 1 (optional (λ x. x ∷ []) c ++ rest) ≡ ok rest
unfolding skip_field
skip_control none rest = from_index-drop rest 0 (omega arith)
skip_control (some c) rest =
    rw (le→not_ltb (length (c ∷ rest)) 1 (omega arith)) (from_index-drop (c ∷ rest) 1 (omega arith))

skip_key :
    (k : Option (ℕ × ℕ)) (rest : Bytes)
    → skip_field (has k) 2 (optional (λ x. x.0 ∷ x.1 ∷ []) k ++ rest) ≡ ok rest
unfolding skip_field
skip_key none rest = from_index-drop rest 0 (omega arith)
skip_key (some k) rest =
    rw (le→not_ltb (length (k.0 ∷ (k.1 ∷ rest))) 2 (omega arith))
      (from_index-drop (k.0 ∷ (k.1 ∷ rest)) 2 (omega arith))

counter_taken :
    (n : Option (ℕ × ℕ × ℕ × ℕ)) (rest : Bytes) (tr : Transport)
    → take_counter (has n) (optional (λ x. x.0 ∷ x.1 ∷ x.2 ∷ x.3 ∷ []) n ++ rest) tr
      ≡ ok (with_counter n tr)
unfolding take_counter
counter_taken none rest tr = refl
counter_taken (some n) rest tr =
    let b : Bytes = n.0 ∷ (n.1 ∷ (n.2 ∷ (n.3 ∷ rest))) in
    rw (le→not_ltb (length b) 4 (omega arith), slice-eq_ok b 0 4 (omega arith) (omega arith)) refl

take_prefix : (xs ys : Bytes) → take (length xs) (xs ++ ys) ≡ xs
take_prefix xs ys =
    take-append (length xs) xs ys (omega arith) ∙ take_all (length xs) xs (omega arith)

-- The fields behind the length, and what is behind the layer.
split_layer :
    (ci : ℕ) (fields inner : Bytes)
    → (slice (ci ∷ (length fields ∷ (fields ++ inner))) 2 (2 + length fields) ≡ ok fields)
      × (from_index (ci ∷ (length fields ∷ (fields ++ inner))) (2 + length fields) ≡ ok inner)
split_layer ci fields inner =
    let b : Bytes = ci ∷ (length fields ∷ (fields ++ inner)) in
    let room : 2 + length fields ≤ length b = omega (arith, length-append fields inner) in
    let count : 2 + length fields - 2 ≡ length fields = omega arith in
    let none_left : length fields ≡ length fields + 0 = omega arith in
    (
      slice-eq_ok b 2 (2 + length fields) (omega arith) room
          ∙ ap (λ (n : ℕ). ok (take n (fields ++ inner))) count
          ∙ ap ok (take_prefix fields inner),
      from_index-drop b (2 + length fields) room
          ∙ ap ok (
              drop_prefix 2 (length fields) (ci ∷ (length fields ∷ [])) (fields ++ inner) refl
              ∙ ap (λ (n : ℕ). drop n (fields ++ inner)) none_left
              ∙ drop_prefix (length fields) 0 fields inner refl),
    )

parse_auth_layer-written :
    (tr : Transport) (a : AuthFields) (inner : Bytes)
    → a.fragment < 256
    → parse_auth_layer tr (write_layer (authenticated a) ++ inner)
      ≡ ok (with_counter a.counter tr, inner)
unfolding parse_auth_layer
parse_auth_layer-written tr a inner h =
    let fields : Bytes = write_auth_fields a in
    let b : Bytes = write_layer (authenticated a) ++ inner in
    let (inside, behind) = split_layer ci_auth_fragmentation fields inner in
    let m = write_auth_fields-Marks a h in
    rw
      (
        le→not_ltb (length b) 2 (omega arith),
        at-eq_ok b 1 (omega arith),
        le→not_ltb (length b) (2 + length fields) (omega (arith, length-append fields inner)),
        inside,
        le→not_ltb (length fields) 2 (omega arith),
        at-eq_ok fields 0 (omega arith),
        at-eq_ok fields 1 (omega arith),
        from_index-drop fields 2 (omega arith),
        m.control,
        m.key,
        m.counter,
        skip_control a.control _,
        skip_key a.key _,
        counter_taken a.counter a.tail tr,
        behind,
      )
      refl

layer_of_outer :
    (layer_of ci_extended_link_i ≡ extended_link) × (layer_of ci_auth_fragmentation ≡ auth_layer)
unfolding layer_of
layer_of_outer = (refl, refl)

walk_outer :
    (fuel : ℕ) (tr : Transport) (l : OuterLayer) (inner : Bytes)
    → IsOuterLayer l
    → walk_layers (suc fuel) tr (write_layer l ++ inner)
      ≡ walk_layers fuel (behind_layer l tr) inner
unfolding enter_layer
walk_outer fuel tr (extended control access) inner h =
    let b : Bytes = ci_extended_link_i ∷ (control ∷ (access ∷ inner)) in
    walk_layers-cons fuel tr ci_extended_link_i (control ∷ (access ∷ inner))
    ∙ rw
        (layer_of_outer.0, le→not_ltb (length b) 3 (omega arith), from_index-drop b 3 (omega arith))
        refl
walk_outer fuel tr (authenticated a) inner h =
    walk_layers-cons fuel tr ci_auth_fragmentation (drop 1 (write_layer (authenticated a) ++ inner))
    ∙ rw (layer_of_outer.1, parse_auth_layer-written tr a inner h.0) refl

walk_written :
    (fuel : ℕ) (layers : List OuterLayer) (e : Envelope) (body : Bytes) (tr : Transport)
    → All IsOuterLayer layers
    → IsEnvelope e body
    → length layers < fuel
    → walk_layers fuel tr (write_layers layers (write_envelope e body))
      ≡ ok (in_envelope e body (behind_layers layers tr))
walk_written zero layers e body tr hs h l = absurd (omega arith)
walk_written (suc fuel) [] e body tr hs h l = walk_envelope fuel tr e body h
walk_written (suc fuel) (x ∷ layers) e body tr hs h l =
    walk_outer fuel tr x (write_layers layers (write_envelope e body)) hs.0
    ∙ walk_written fuel layers e body (behind_layer x tr) hs.1 h (omega arith)

-- Every layer takes a byte or more.
length-write_layers :
    (layers : List OuterLayer) (inner : Bytes) → length layers ≤ length (write_layers layers inner)
length-write_layers [] inner = omega arith
length-write_layers (extended control access ∷ layers) inner =
    omega (arith, length-write_layers layers inner)
length-write_layers (authenticated a ∷ layers) inner = omega (
  arith,
  length-write_layers layers inner,
  length-append (write_auth_fields a) (write_layers layers inner),
)

-- Any extended link and authentication layers, a header with or without an address and in one of
-- the three modes, or none, and a body that has the encrypted blocks: written one behind the other
-- as the payload of a frame, they are parsed to a transport with these fields. The address is that
-- of the link layer unless the header has one, and the counter is that of the last layer with one.
pub parse_transport-written :
    (f : Frame) (layers : List OuterLayer) (e : Envelope) (body : Bytes)
    → All IsOuterLayer layers
    → IsEnvelope e body
    → f.payload ≡ write_layers layers (write_envelope e body)
    → parse_transport f ≡ ok (in_envelope e body (behind_layers layers (link_transport f)))
unfolding parse_transport
parse_transport-written f layers e body hs h p =
    ap (λ (b : Bytes). walk_layers (length f.payload + 1) (link_transport f) b) p
    ∙ walk_written (length f.payload + 1) layers e body (link_transport f) hs h
        (omega (arith, length-write_layers layers (write_envelope e body), ap length p))
