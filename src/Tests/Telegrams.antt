-- ===== src/Tests/Telegrams.antt =====
-- The package wmbus on a telegram of a water meter.
use gombus.Prelude.{ℕ, none, some, inr, true, ◌≡◌, refl, [], ◌∷◌, ◌++◌, map, arith}
use gombus.Prelude.Xor.{bit_xor-lt, bit_xor_cancel}
use gombus.Prelude.{bit_xor}
use gombus.Result.{at, slice, Bytes, IsSlice, ok, err, sentinel, crc_mismatch, Ensures}
use gombus.Wireless.Crc.{crc16, check_crc}
use gombus.Wireless.Crc.Detects.{check_crc_detects}
use gombus.Wireless.Link.{Frame, format_a, format_b, parse, parse_format_a, parse_format_b}
use gombus.Wireless.Link.Blocks.{crc_bytes, blocks}
use gombus.Wireless.Link.RoundTrip.{encode_format_a}
use gombus.Wireless.Link.FormatB.{encode_format_b, parse_formats-encode}
use gombus.Wireless.Link.Total.{IsFrame}
use gombus.Wireless.Transport.{parse_transport, link_transport}
use gombus.Wireless.Transport.Written.{
  OuterLayer, extended, authenticated, HeaderFields, LongAddress, long, write_layers,
  write_envelope,
}
use gombus.Wireless.Transport.Layers.{parse_transport-written}
use gombus.Wireless.Transport.Header.{IsTransport}
use gombus.Wireless.Transport.Total.{parse_transport-Ensures}
use gombus.Wireless.Cipher.{BlockCipher, mode_five_iv, decrypt}
use gombus.Wireless.Cipher.Total.{KeepsBlocks}
use gombus.Wireless.Cipher.RoundTrip.{Inverts, encrypted, decrypt-encrypt_cbc}
use gombus.Wireless.Telegram.{decode_frame, decode_telegram}
use gombus.Wireless.Telegram.Total.{IsTelegram, decode_telegram-Ensures}
use gombus.Wireless.Telegram.Records.{Refines, decode_frame-Refines}
use gombus.Tests.{all_bytes_sound, symbols}

-- The check value of the catalogue: the CRC of the digits 1 to 9.
crc16_of_digits : crc16 (0x31 ∷ 0x32 ∷ 0x33 ∷ 0x34 ∷ 0x35 ∷ 0x36 ∷ 0x37 ∷ 0x38 ∷ 0x39 ∷ []) ≡ 0xC2B7
unfolding crc16
crc16_of_digits = refl

check_crc_detects_example :
    check_crc (0x78 ∷ 0x02 ∷ 0x13 ∷ 0x07 ∷ 0x00 ∷ []) (0x0A ∷ 0x0C ∷ [])
    ≡ err (sentinel crc_mismatch)
unfolding check_crc at
check_crc_detects_example =
    check_crc_detects (0x78 ∷ 0x02 ∷ 0x13 ∷ []) (0x00 ∷ []) 0x05 0x07 0x0A 0x0C
      (all_bytes_sound (0x78 ∷ 0x02 ∷ 0x13 ∷ []) refl) (all_bytes_sound (0x00 ∷ []) refl)
      (omega arith) (omega arith) (λ e. omega arith) refl

-- A telegram in format A: the header of meter 12345678 of KAM, and a volume of 5 litres.
abbrev water_telegram : Bytes
water_telegram =
    0x0E ∷ 0x44 ∷ 0x2D ∷ 0x2C ∷ 0x78 ∷ 0x56 ∷ 0x34 ∷ 0x12 ∷ 0x1B ∷ 0x16 ∷ 0x56 ∷ 0x8B ∷ 0x78 ∷ 0x02
    ∷ 0x13 ∷ 0x05 ∷ 0x00 ∷ 0x0A ∷ 0x0C ∷ []

-- Its frame.
abbrev water : Frame
water = record {
  format = format_a;
  c = 0x44;
  manufacturer_code = 0x2C2D;
  ident = 0x78 ∷ 0x56 ∷ 0x34 ∷ 0x12 ∷ [];
  version = 0x1B;
  device_type = 0x16;
  payload = 0x78 ∷ 0x02 ∷ 0x13 ∷ 0x05 ∷ 0x00 ∷ [];
}

water_parsed : parse water_telegram ≡ ok water
unfolding parse at slice crc16 gombus.Wireless.Link.parse_format_a check_crc
water_parsed = refl

water-IsFrame : IsFrame 7 water
unfolding IsFrame
water-IsFrame = (
  (refl, all_bytes_sound water.ident refl),
  omega arith,
  omega arith,
  omega arith,
  all_bytes_sound water.payload refl,
  omega arith,
)

water_sent : encode_format_a water ≡ water_telegram
unfolding encode_format_a blocks crc_bytes crc16
water_sent = refl

parse_formats-encode_example :
    (parse_format_a (encode_format_a water ++ (0x00 ∷ []))
      ≡ ok (record water { format = format_a }))
    × (parse_format_b (encode_format_b water ++ (0x00 ∷ []))
        ≡ ok (record water { format = format_b }))
parse_formats-encode_example =
    parse_formats-encode water (0x00 ∷ []) (record { ident = refl; code = omega arith })

parse_transport-Ensures_example : Ensures (IsTransport 5) (parse_transport water)
parse_transport-Ensures_example = parse_transport-Ensures 7 water water-IsFrame

-- A block cipher that adds a constant byte to each byte of a block.
abbrev masked : Bytes → Bytes
masked b = map (λ x. bit_xor x 0x5A) b

abbrev masking : BlockCipher
masking = record { encrypt = λ key b. masked b; decrypt = λ key b. masked b }

masked-IsSlice : (n : ℕ) (b : Bytes) → IsSlice n b → IsSlice n (masked b)
masked-IsSlice n [] s = s
masked-IsSlice ℕ.zero (x ∷ b) (l, a) = absurd (omega arith)
masked-IsSlice (ℕ.suc n) (x ∷ b) (l, a) =
    let (k, c) = masked-IsSlice n b (omega arith, a.1) in
    (omega (arith, k), (bit_xor-lt 8 x 0x5A a.0 (omega arith), c))

masking-KeepsBlocks : KeepsBlocks masking
unfolding KeepsBlocks
masking-KeepsBlocks key b s = (masked-IsSlice 16 b s, masked-IsSlice 16 b s)

masked-masked : (b : Bytes) → masked (masked b) ≡ b
masked-masked [] = refl
masked-masked (x ∷ b) = rw (bit_xor_cancel x 0x5A, masked-masked b) refl

masking-Inverts : Inverts masking
unfolding Inverts
masking-Inverts key b s = masked-masked b

-- One block of plain text: the fillers, a volume, and idle bytes.
abbrev plain_block : Bytes
plain_block =
    0x2F ∷ 0x2F ∷ 0x02 ∷ 0x13 ∷ 0x05 ∷ 0x00 ∷ 0x2F ∷ 0x2F ∷ 0x2F ∷ 0x2F ∷ 0x2F ∷ 0x2F ∷ 0x2F ∷ 0x2F
    ∷ 0x2F ∷ 0x2F ∷ []

decrypt-encrypt_cbc_example :
    decrypt masking
      (encrypted masking (link_transport water) 1 plain_block plain_block (0x0F ∷ []))
      plain_block
    ≡ ok (plain_block ++ 0x0F ∷ [])
decrypt-encrypt_cbc_example =
    decrypt-encrypt_cbc masking masking-KeepsBlocks masking-Inverts (link_transport water) 1
      plain_block plain_block (0x0F ∷ []) (omega arith) refl
      (refl, all_bytes_sound (mode_five_iv (link_transport water)) refl)
      (refl, all_bytes_sound plain_block refl) refl

decode_telegram-Ensures_example :
    Ensures (IsTelegram symbols masking) (decode_telegram symbols masking water_telegram [])
decode_telegram-Ensures_example =
    decode_telegram-Ensures symbols masking masking-KeepsBlocks water_telegram []
      (all_bytes_sound water_telegram refl)

decode_frame-Refines_example :
    Ensures (Refines symbols masking water []) (decode_frame symbols masking water [])
decode_frame-Refines_example =
    decode_frame-Refines symbols masking 7 water [] masking-KeepsBlocks water-IsFrame

-- A mode 7 telegram of another meter: an authentication layer with a message counter, and a long
-- header behind it.
abbrev counted_layer : OuterLayer
counted_layer = authenticated (record {
  fragment = 0x00;
  control = some 0x25;
  key = none;
  counter = some (0x01, 0x02, 0x03, 0x04);
  tail = 0xAA ∷ 0xBB ∷ [];
})

abbrev derived_header : HeaderFields
derived_header = record {
  access_number = 0x2A;
  status = 0x10;
  blocks = 0;
  low_bits = 0;
  mode = 7;
  high_bits = 0;
  extension = 0x10;
}

abbrev other_meter : LongAddress
other_meter = record {
  ident = (0x11, 0x22, 0x33, 0x44);
  manufacturer = (0x2D, 0x2C);
  version = 0x02;
  device_type = 0x07;
}

abbrev layered : Frame
layered = record water {
  payload =
      write_layers (extended 0x00 0x2A ∷ counted_layer ∷ [])
        (write_envelope (long other_meter derived_header) (0x2F ∷ 0x2F ∷ []));
}

parse_transport-written_example :
    parse_transport layered
    ≡ ok (record {
      ci = 0x72;
      access_number = 0x2A;
      status = 0x10;
      mode = 7;
      encrypted_bytes = 0;
      address = 0x2D ∷ 0x2C ∷ 0x11 ∷ 0x22 ∷ 0x33 ∷ 0x44 ∷ 0x02 ∷ 0x07 ∷ [];
      counter = 0x01 ∷ 0x02 ∷ 0x03 ∷ 0x04 ∷ [];
      has_counter = true;
      body = 0x2F ∷ 0x2F ∷ [];
    })
parse_transport-written_example =
    parse_transport-written layered (extended 0x00 0x2A ∷ counted_layer ∷ [])
      (long other_meter derived_header) (0x2F ∷ 0x2F ∷ []) (tt, ((omega arith, omega arith), tt))
      (omega arith, omega arith, omega arith, inr (inr refl), omega arith) refl
