-- ===== src/Wireless/Telegram.antt =====
-- wmbus/telegram.go: a telegram decoded by the wired package.
pub mod Wired
pub mod Total
pub mod Records
use gombus.Prelude.{
  ℕ, ◌+◌, ◌-◌, Bool, String, List, [], ◌∷◌, ◌++◌, take, drop, replicate, get_or, ◌==◌,
  if◌then◌else◌,
}
use gombus.Result.{Bytes, Result, ok, err, fault, wrapped, wireless_invalid_frame, ◌>>=◌}
use gombus.Floats.{Floats}
use gombus.Commands.{seal}
use gombus.Record.{DecodedDataRecord}
use gombus.Response.{DecodedFrame}
use gombus.Response.Decode.{decode}
use gombus.Wireless.Link.{Frame, ident_serial, parse}
use gombus.Wireless.Transport.{Transport, parse_transport}
use gombus.Wireless.Cipher.{BlockCipher, decrypt}

pub record Telegram (Float : Type 0) : Type 0 where
  pub manufacturer : Bytes
  pub serial_number : ℕ
  pub version : ℕ
  pub device_type : String
  pub ci : ℕ
  pub access_number : ℕ
  pub status : ℕ
  pub encryption_mode : ℕ
  pub data_records : List (DecodedDataRecord Float)

-- The identification number of the wired header, zeroed where it is no BCD.
unfoldable pub ident_or_zero : Result ℕ → Bytes → Result Bytes
ident_or_zero (ok serial) ident = ok ident
ident_or_zero (err e) ident = ok (replicate 4 0)
ident_or_zero (fault x) ident = fault x

-- The synthetic response before its length and its checksum are set.
abbrev pub wired_draft : Transport → Bytes → Bytes → Bytes
wired_draft tr ident payload =
    (0x68 ∷ 0x00 ∷ 0x00 ∷ 0x68 ∷ 0x08 ∷ 0x00 ∷ 0x72 ∷ ident)
    ++ (take 2 tr.address
        ++ ((get_or tr.address 6 0
              ∷ get_or tr.address 7 0
              ∷ tr.access_number
              ∷ tr.status
              ∷ 0x00
              ∷ 0x00
              ∷ payload)
            ++ (0x00 ∷ 0x16 ∷ [])))

-- An error of the wired decoder is an invalid telegram.
unfoldable pub as_wireless {ℓ} : {A : Type ℓ} → Result A → Result A
as_wireless (ok f) = ok f
as_wireless (err e) = err (wrapped wireless_invalid_frame e)
as_wireless (fault x) = fault x

-- A key ring: no bytes for a meter that it does not hold.
abbrev pub KeyRing : Type 0
KeyRing = ℕ → Bytes

-- The key of the ring for an identification number that is BCD.
unfoldable pub key_of : Result ℕ → KeyRing → Result Bytes
key_of (ok serial) keys = ok (keys serial)
key_of (err e) keys = ok []
key_of (fault x) keys = fault x

module _ (F : Floats) (aes : BlockCipher) where
  unfoldable pub decode_application : Transport → Bytes → Result (DecodedFrame F.Float)
  unfolding as_wireless ident_or_zero
  decode_application tr payload = do
    let ident = take 4 (drop 2 tr.address)
    ident' ← ident_or_zero (ident_serial ident) ident
    lf ← seal (wired_draft tr ident' payload)
    as_wireless (decode F lf)

  -- The method Frame.Decode.
  unfoldable pub decode_frame : Frame → Bytes → Result (Telegram F.Float)
  unfolding decode_application
  decode_frame f key = do
    tr ← parse_transport f
    payload ← decrypt aes tr key
    decoded ← decode_application tr payload
    ok (record {
      manufacturer = decoded.manufacturer;
      serial_number = decoded.serial_number;
      version = get_or tr.address 6 0;
      device_type = decoded.device_type;
      ci = tr.ci;
      access_number = tr.access_number;
      status = tr.status;
      encryption_mode = tr.mode;
      data_records = decoded.data_records;
    })

  unfoldable pub decode_frame_with_key_ring : Frame → KeyRing → Result (Telegram F.Float)
  unfolding decode_frame key_of
  decode_frame_with_key_ring f keys = do
    key ← key_of (ident_serial f.ident) keys
    decode_frame f key

  unfoldable pub decode_telegram : Bytes → Bytes → Result (Telegram F.Float)
  unfolding decode_frame
  decode_telegram raw key = do f ← parse raw; decode_frame f key

  unfoldable pub decode_with_key_ring : Bytes → KeyRing → Result (Telegram F.Float)
  unfolding decode_frame_with_key_ring
  decode_with_key_ring raw keys = do f ← parse raw; decode_frame_with_key_ring f keys
