-- ===== src/Wireless/Transport/Written.antt =====
-- wmbus/tpl.go: the layers of a telegram as a description, and the bytes that they are written to.
use gombus.Prelude.{
  ℕ, ◌+◌, ◌*◌, ◌<◌, ◌≤◌, ◌≡◌, ◌⊎◌, true, Option, none, some, List, [], ◌∷◌, ◌++◌, ◌==◌,
  if◌then◌else◌, length,
}
use gombus.Result.{Bytes}
use gombus.Wireless.Transport.{
  Transport, ci_long_header, ci_short_header, ci_no_header, ci_extended_link_i,
  ci_auth_fragmentation, mode_none, mode_aes_cbc_iv, mode_aes_cbc_derived, encryption_block_len,
}

-- The fields of an authentication and fragmentation layer; `tail` is what stands behind the counter.
pub record AuthFields : Type 0 where
  pub fragment : ℕ
  pub control : Option ℕ
  pub key : Option (ℕ × ℕ)
  pub counter : Option (ℕ × ℕ × ℕ × ℕ)
  pub tail : Bytes

pub data OuterLayer : Type 0 where
  extended : ℕ → ℕ → OuterLayer
  authenticated : AuthFields → OuterLayer

-- A header from the access number on. The configuration word has `blocks` and the mode, and bits
-- that the package does not read; `extension` is there in the mode with derived keys.
pub record HeaderFields : Type 0 where
  pub access_number : ℕ
  pub status : ℕ
  pub blocks : ℕ
  pub low_bits : ℕ
  pub mode : ℕ
  pub high_bits : ℕ
  pub extension : ℕ

-- The address of a long header; a manufacturer and an identification number are bytes.
pub record LongAddress : Type 0 where
  pub ident : ℕ × ℕ × ℕ × ℕ
  pub manufacturer : ℕ × ℕ
  pub version : ℕ
  pub device_type : ℕ

pub data Envelope : Type 0 where
  bare : Envelope
  short : HeaderFields → Envelope
  long : LongAddress → HeaderFields → Envelope

abbrev pub optional : {A : Type 0} → (A → Bytes) → Option A → Bytes
optional write none = []
optional write (some a) = write a

abbrev pub flag : {A : Type 0} → ℕ → Option A → ℕ
flag bit none = 0
flag bit (some a) = bit

abbrev pub write_auth_fields : AuthFields → Bytes
write_auth_fields a =
    a.fragment
    ∷ (flag 0x20 a.control + (flag 0x10 a.counter + flag 0x01 a.key))
    ∷ (optional (λ c. c ∷ []) a.control
        ++ (optional (λ k. k.0 ∷ k.1 ∷ []) a.key
            ++ (optional (λ n. n.0 ∷ n.1 ∷ n.2 ∷ n.3 ∷ []) a.counter ++ a.tail)))

abbrev pub write_layer : OuterLayer → Bytes
write_layer (extended control access) = ci_extended_link_i ∷ control ∷ access ∷ []
write_layer (authenticated a) =
    let fields = write_auth_fields a in ci_auth_fragmentation ∷ length fields ∷ fields

abbrev pub write_layers : List OuterLayer → Bytes → Bytes
write_layers [] inner = inner
write_layers (l ∷ layers) inner = write_layer l ++ write_layers layers inner

abbrev pub write_header : HeaderFields → Bytes → Bytes
write_header h body =
    h.access_number
    ∷ h.status
    ∷ (h.blocks * 16 + h.low_bits)
    ∷ (h.high_bits * 32 + h.mode)
    ∷ (if h.mode == mode_aes_cbc_derived then h.extension ∷ body else body)

abbrev pub write_envelope : Envelope → Bytes → Bytes
write_envelope bare body = ci_no_header ∷ body
write_envelope (short h) body = ci_short_header ∷ write_header h body
write_envelope (long a h) body =
    ci_long_header
    ∷ a.ident.0
    ∷ a.ident.1
    ∷ a.ident.2
    ∷ a.ident.3
    ∷ a.manufacturer.0
    ∷ a.manufacturer.1
    ∷ a.version
    ∷ a.device_type
    ∷ write_header h body

-- The fields fit their places in the layer.
abbrev pub IsOuterLayer : OuterLayer → Type 0
IsOuterLayer (extended control access) = Unit {0}
IsOuterLayer (authenticated a) = (a.fragment < 256) × (length (write_auth_fields a) < 256)

abbrev pub IsHeaderFields : HeaderFields → Bytes → Type 0
IsHeaderFields h body =
    (h.blocks < 16)
    × (h.low_bits < 16)
    × (h.high_bits < 8)
    × ((h.mode ≡ mode_none) ⊎ ((h.mode ≡ mode_aes_cbc_iv) ⊎ (h.mode ≡ mode_aes_cbc_derived)))
    × (h.blocks * 16 ≤ length body)

abbrev pub IsEnvelope : Envelope → Bytes → Type 0
IsEnvelope bare body = Unit {0}
IsEnvelope (short h) body = IsHeaderFields h body
IsEnvelope (long a h) body = IsHeaderFields h body

-- The message counter of the last layer that has one.
abbrev pub with_counter : Option (ℕ × ℕ × ℕ × ℕ) → Transport → Transport
with_counter none tr = tr
with_counter (some n) tr = record tr { counter = n.0 ∷ n.1 ∷ n.2 ∷ n.3 ∷ []; has_counter = true }

abbrev pub behind_layer : OuterLayer → Transport → Transport
behind_layer (extended control access) tr = tr
behind_layer (authenticated a) tr = with_counter a.counter tr

abbrev pub behind_layers : List OuterLayer → Transport → Transport
behind_layers [] tr = tr
behind_layers (l ∷ layers) tr = behind_layers layers (behind_layer l tr)

abbrev pub with_header : HeaderFields → Bytes → Transport → Transport
with_header h body tr = record tr {
  access_number = h.access_number;
  status = h.status;
  mode = h.mode;
  encrypted_bytes = h.blocks * encryption_block_len;
  body = body;
}

-- The address that the package makes of a long header: the manufacturer comes first.
abbrev pub address_of : LongAddress → Bytes
address_of a =
    a.manufacturer.0 ∷ a.manufacturer.1 ∷ a.ident.0 ∷ a.ident.1 ∷ a.ident.2 ∷ a.ident.3 ∷ a.version
    ∷ a.device_type ∷ []

-- The transport that an envelope stands for.
abbrev pub in_envelope : Envelope → Bytes → Transport → Transport
in_envelope bare body tr = record tr { ci = ci_no_header; body = body }
in_envelope (short h) body tr = with_header h body (record tr { ci = ci_short_header })
in_envelope (long a h) body tr =
    with_header h body (record tr { ci = ci_long_header; address = address_of a })
