-- ===== src/Wireless/Transport.antt =====
-- wmbus/tpl.go: the layers between the link layer and the application data.
pub mod Header
pub mod Total
pub mod Written
pub mod Fields
pub mod Layers
use gombus.Prelude.{
  ℕ, zero, suc, ◌+◌, ◌-◌, ◌*◌, ◌/◌, ◌%◌, ◌^◌, Bool, true, false, not, ◌&&◌, ◌||◌, List, [], ◌∷◌,
  ◌++◌, ltb, leb, ◌==◌, if◌then◌else◌, bit_and, length, take, drop,
}
use gombus.Result.{
  Bytes, Result, ok, err, fault, out_of_fuel, sentinel, wireless_invalid_frame,
  wireless_unsupported_ci, unsupported_mode, ◌>>=◌, ◌>>◌, refuse, at, slice,
}
use gombus.Response.{uint16_le}
use gombus.Wireless.Link.{Frame}

abbrev pub ci_long_header : ℕ
ci_long_header = 0x72

abbrev pub ci_short_header : ℕ
ci_short_header = 0x7A

abbrev pub ci_no_header : ℕ
ci_no_header = 0x78

abbrev pub ci_extended_link_i : ℕ
ci_extended_link_i = 0x8C

abbrev pub ci_extended_link_ii : ℕ
ci_extended_link_ii = 0x8D

abbrev pub ci_auth_fragmentation : ℕ
ci_auth_fragmentation = 0x90

abbrev pub mode_none : ℕ
mode_none = 0

abbrev pub mode_aes_cbc_iv : ℕ
mode_aes_cbc_iv = 5

abbrev pub mode_aes_cbc_derived : ℕ
mode_aes_cbc_derived = 7

abbrev pub encryption_block_len : ℕ
encryption_block_len = 16

-- `address` has eight bytes and `counter` four; `body` is the field data.
pub record Transport : Type 0 where
  pub ci : ℕ
  pub access_number : ℕ
  pub status : ℕ
  pub mode : ℕ
  pub encrypted_bytes : ℕ
  pub address : Bytes
  pub counter : Bytes
  pub has_counter : Bool
  pub body : Bytes

-- `b[i:]`
abbrev pub from_index : Bytes → ℕ → Result Bytes
from_index b i = slice b i (length b)

-- `parseHeader` from the access number on.
unfoldable pub parse_mode : Transport → Bytes → Result Transport
parse_mode tr rest = do
  refuse (ltb (length rest) 4) (sentinel wireless_invalid_frame)
  access_number ← at rest 0
  status ← at rest 1
  c0 ← at rest 2
  c1 ← at rest 3
  let config = uint16_le c0 c1
  rest' ← from_index rest 4
  let mode = bit_and (config / 2 ^ 8) 0x1F
  let encrypted = bit_and (config / 2 ^ 4) 0x0F * encryption_block_len
  refuse (not (mode == mode_none || (mode == mode_aes_cbc_iv || mode == mode_aes_cbc_derived)))
      (sentinel unsupported_mode)
  refuse (mode == mode_aes_cbc_derived && ltb (length rest') 1) (sentinel wireless_invalid_frame)
  body ← from_index rest' (if mode == mode_aes_cbc_derived then 1 else 0)
  refuse (ltb (length body) encrypted) (sentinel wireless_invalid_frame)
  ok (record tr {
    access_number = access_number;
    status = status;
    mode = mode;
    encrypted_bytes = encrypted;
    body = body;
  })

-- The address of a long header.
unfoldable pub parse_long : Transport → Bytes → Result Transport
unfolding parse_mode
parse_long tr rest = do
  refuse (ltb (length rest) 8) (sentinel wireless_invalid_frame)
  manufacturer ← slice rest 4 6
  ident ← slice rest 0 4
  version ← at rest 6
  device_type ← at rest 7
  rest' ← from_index rest 8
  parse_mode (record tr { address = manufacturer ++ (ident ++ (version ∷ device_type ∷ [])) }) rest'

unfoldable pub parse_header : Transport → ℕ → Bytes → Result Transport
unfolding parse_mode parse_long
parse_header tr ci rest =
    if ci == ci_no_header
    then ok (record tr { ci = ci; body = rest })
    else if ci == ci_long_header
    then parse_long (record tr { ci = ci }) rest
    else parse_mode (record tr { ci = ci }) rest

-- `control & flag != 0 && !skip(n)` is an error; otherwise the fields behind it.
unfoldable pub skip_field : Bool → ℕ → Bytes → Result Bytes
skip_field present n fields = do
  refuse (present && ltb (length fields) n) (sentinel wireless_invalid_frame)
  from_index fields (if present then n else 0)

-- The message counter, and what it leaves of the transport.
unfoldable pub take_counter : Bool → Bytes → Transport → Result Transport
take_counter present fields tr =
    if present
    then (do
      refuse (ltb (length fields) 4) (sentinel wireless_invalid_frame)
      counter ← slice fields 0 4
      ok (record tr { counter = counter; has_counter = true }))
    else ok tr

-- The transport with the counter, and the bytes behind the layer.
unfoldable pub parse_auth_layer : Transport → Bytes → Result (Transport × Bytes)
unfolding skip_field take_counter
parse_auth_layer tr rest = do
  refuse (ltb (length rest) 2) (sentinel wireless_invalid_frame)
  size ← at rest 1
  let end = 2 + size
  refuse (ltb (length rest) end) (sentinel wireless_invalid_frame)
  fields ← slice rest 2 end
  refuse (ltb (length fields) 2) (sentinel wireless_invalid_frame)
  c0 ← at fields 0
  c1 ← at fields 1
  let control = uint16_le c0 c1
  fields1 ← from_index fields 2
  fields2 ← skip_field (not (bit_and control 0x2000 == 0)) 1 fields1
  fields3 ← skip_field (not (bit_and control 0x0100 == 0)) 2 fields2
  tr' ← take_counter (not (bit_and control 0x1000 == 0)) fields3 tr
  rest' ← from_index rest end
  ok (tr', rest')

-- What the loop makes of a CI field.
pub data Layer : Type 0 where
  extended_link session_link auth_layer header unknown_layer : Layer

unfoldable pub layer_of : ℕ → Layer
layer_of ci =
    if ci == ci_extended_link_i
    then extended_link
    else if ci == ci_extended_link_ii
    then session_link
    else if ci == ci_auth_fragmentation
    then auth_layer
    else if ci == ci_long_header || (ci == ci_short_header || ci == ci_no_header)
    then header
    else unknown_layer

-- The body of the loop over the layers, behind the CI field; `next` is the rest of the loop.
unfoldable pub enter_layer :
    (Transport → Bytes → Result Transport) → Layer → ℕ → Transport → Bytes → Result Transport
unfolding parse_header parse_auth_layer
enter_layer next extended_link ci tr rest = do
  refuse (ltb (length rest) 3) (sentinel wireless_invalid_frame)
  rest' ← from_index rest 3
  next tr rest'
enter_layer next session_link ci tr rest = err (sentinel unsupported_mode)
enter_layer next auth_layer ci tr rest = do p ← parse_auth_layer tr rest; next p.0 p.1
enter_layer next header ci tr rest = do rest' ← from_index rest 1; parse_header tr ci rest'
enter_layer next unknown_layer ci tr rest = err (sentinel wireless_unsupported_ci)

-- The loop over the layers; each one takes two bytes or more.
unfoldable pub walk_layers : ℕ → Transport → Bytes → Result Transport
unfolding enter_layer layer_of
walk_layers zero tr rest = fault out_of_fuel
walk_layers (suc fuel) tr rest = do
  refuse (ltb (length rest) 1) (sentinel wireless_invalid_frame)
  ci ← at rest 0
  enter_layer (walk_layers fuel) (layer_of ci) ci tr rest

-- The transport that the link layer gives.
abbrev pub link_transport : Frame → Transport
link_transport f = record {
  ci = 0;
  access_number = 0;
  status = 0;
  mode = 0;
  encrypted_bytes = 0;
  address =
      f.manufacturer_code % 256 ∷ f.manufacturer_code / 256 % 256 ∷ f.ident
      ++ (f.version ∷ f.device_type ∷ []);
  counter = 0 ∷ 0 ∷ 0 ∷ 0 ∷ [];
  has_counter = false;
  body = [];
}

unfoldable pub parse_transport : Frame → Result Transport
unfolding walk_layers
parse_transport f = walk_layers (length f.payload + 1) (link_transport f) f.payload
