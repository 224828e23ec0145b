-- ===== src/Wireless/Link/Blocks.antt =====
-- wmbus/link.go: blocks with their CRCs, and removing these.
use gombus.Prelude.{
  ℕ, zero, suc, ◌+◌, ◌-◌, ◌*◌, ◌/◌, ◌%◌, ◌^◌, ◌≤◌, ◌<◌, ◌≡◌, refl, sym, ap, ◌∙◌, false, [], ◌∷◌,
  ◌++◌, append_assoc, arith, ltb, ◌==◌, min, length, length-append, length-take, length-drop, take,
  drop, take-append, take_all, drop_prefix, take-append-drop,
}
use gombus.Result.{Bytes, ok, at, slice, slice-eq_ok}
use gombus.Wireless.Crc.{crc16, check_crc}
use gombus.Wireless.Link.{block_error, strip_blocks}

-- The CRC of a block, most significant byte first.
unfoldable pub crc_bytes : Bytes → Bytes
crc_bytes b = crc16 b / 256 ∷ crc16 b % 256 ∷ []

-- A payload in blocks of 16 bytes, each with its CRC behind it.
unfoldable pub blocks : ℕ → Bytes → Bytes
blocks zero payload = []
blocks (suc n) [] = []
blocks (suc n) (b ∷ payload) =
    let block = take 16 (b ∷ payload) in
    block ++ (crc_bytes block ++ blocks n (drop 16 (b ∷ payload)))

pub check_crc-crc_bytes : (b : Bytes) → block_error (check_crc b (crc_bytes b)) ≡ ok tt
unfolding check_crc block_error at crc_bytes
check_crc-crc_bytes b =
    let same : crc16 b ≡ crc16 b / 256 * 2 ^ 8 + crc16 b % 256 = omega arith in ground arith

-- A slice expression that takes one part of its operand.
pub slice_part :
    (raw pre part post : Bytes) (i j : ℕ)
    → raw ≡ pre ++ (part ++ post)
    → length pre ≡ i
    → i + length part ≡ j
    → slice raw i j ≡ ok part
slice_part raw pre part post i j e h k =
    let size : length raw ≡ i + (length part + length post) =
      ap length e ∙ omega (arith, length-append pre (part ++ post), length-append part post) in
    let dropped : drop i raw ≡ part ++ post =
      ap (drop i) e
      ∙ ap (λ (n : ℕ). drop n (pre ++ (part ++ post))) (omega arith)
      ∙ drop_prefix i 0 pre (part ++ post) h in
    let width : j - i ≡ length part = omega arith in
    slice-eq_ok raw i j (omega arith) (omega arith)
    ∙ ap (λ (n : ℕ). ok (take n (drop i raw))) width
    ∙ ap (λ b. ok (take (length part) b)) dropped
    ∙ ap ok (
        take-append (length part) part post (omega arith)
        ∙ take_all (length part) part (omega arith))

pub length-crc_bytes : (b : Bytes) → length (crc_bytes b) ≡ 2
unfolding crc_bytes
length-crc_bytes b = refl

-- One block in front of the others.
strip_block :
    (fuel : ℕ) (raw pre block post more : Bytes) (offset remaining : ℕ)
    → raw ≡ pre ++ (block ++ (crc_bytes block ++ post))
    → length pre ≡ offset
    → 0 < remaining
    → length block ≡ min remaining 16
    → strip_blocks fuel raw (offset + min remaining 16 + 2) (remaining - min remaining 16) ≡ ok more
    → strip_blocks (suc fuel) raw offset remaining ≡ ok (block ++ more)
unfolding strip_blocks
strip_block fuel raw pre block post more offset remaining e h p l r =
    let n = min remaining 16 in
    let two = length-crc_bytes block in
    let size : length raw ≡ offset + (n + (2 + length post)) =
      ap length e
      ∙ omega (
        arith,
        length-append pre (block ++ (crc_bytes block ++ post)),
        length-append block (crc_bytes block ++ post),
        length-append (crc_bytes block) post,
      ) in
    let body =
      slice_part raw pre block (crc_bytes block ++ post) offset (offset + n) e h (omega arith) in
    let crc =
      slice_part raw (pre ++ block) (crc_bytes block) post (offset + n) (offset + n + 2)
        (e ∙ sym (append_assoc pre block (crc_bytes block ++ post)))
        (length-append pre block ∙ omega arith) (omega arith) in
    let enough : ltb (length raw) (offset + n + 2) ≡ false = ground arith in
    let some_left : (remaining == 0) ≡ false = ground arith in
    rw (some_left, enough, body, crc, check_crc-crc_bytes block, r)

blocks_first :
    (fuel b : ℕ) (rest post : Bytes)
    → blocks (suc fuel) (b ∷ rest) ++ post
      ≡ take 16 (b ∷ rest)
        ++ (crc_bytes (take 16 (b ∷ rest)) ++ (blocks fuel (drop 16 (b ∷ rest)) ++ post))
unfolding blocks
blocks_first fuel b rest post =
    let block = take 16 (b ∷ rest) in
    append_assoc block (crc_bytes block ++ blocks fuel (drop 16 (b ∷ rest))) post
    ∙ ap (λ t. block ++ t) (append_assoc (crc_bytes block) (blocks fuel (drop 16 (b ∷ rest))) post)

pub strip_blocks-blocks :
    (fuel : ℕ) (raw pre payload post : Bytes) (offset : ℕ)
    → raw ≡ pre ++ (blocks fuel payload ++ post)
    → length pre ≡ offset
    → length payload ≤ fuel
    → strip_blocks fuel raw offset (length payload) ≡ ok payload
strip_blocks-blocks zero raw pre [] post offset e h l = unfold strip_blocks in refl
strip_blocks-blocks zero raw pre (b ∷ payload) post offset e h l = absurd (omega arith)
strip_blocks-blocks (suc fuel) raw pre [] post offset e h l = unfold strip_blocks in refl
strip_blocks-blocks (suc fuel) raw pre (b ∷ rest) post offset e h l =
    let payload : Bytes = b ∷ rest in
    let block = take 16 payload in
    let behind = drop 16 payload in
    let n = min (length payload) 16 in
    let tail = blocks fuel behind ++ post in
    let width : length block ≡ n = length-take 16 payload ∙ omega arith in
    let left : length payload - n ≡ length behind = omega (arith, length-drop {0} 16 payload) in
    let whole : raw ≡ pre ++ (block ++ (crc_bytes block ++ tail)) =
      e ∙ ap (λ t. pre ++ t) (blocks_first fuel b rest post) in
    let before = pre ++ (block ++ crc_bytes block) in
    let more =
      strip_blocks-blocks fuel raw before behind post (offset + n + 2)
        (whole
          ∙ ap (λ t. pre ++ t) (sym (append_assoc block (crc_bytes block) tail))
          ∙ sym (append_assoc pre (block ++ crc_bytes block) tail))
        (length-append pre (block ++ crc_bytes block)
          ∙ omega (arith, length-append block (crc_bytes block), length-crc_bytes block))
        (omega (arith, length-drop {0} 16 payload)) in
    strip_block fuel raw pre block tail behind offset (length payload) whole h (omega arith) width
      (ap (λ (k : ℕ). strip_blocks fuel raw (offset + n + 2) k) left ∙ more)
    ∙ ap ok (take-append-drop 16 payload)
