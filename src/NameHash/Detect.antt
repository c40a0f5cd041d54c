-- ===== src/NameHash/Detect.antt =====
-- What two names of one hash have in common.
use open_bc.Base.{
  ℕ, ◌+◌, ◌*◌, ◌%◌, ◌^◌, ◌<◌, ◌≡◌, ◌≢◌, refl, ap, sym, ◌∙◌, arith, Bool, true, bit_or, bit_xor,
}
use open_bc.Base.{
  List, [], ◌∷◌, ◌++◌, All, IsByte, get_or, ltb, ltb→lt, ◌==◌, all_below, all_below-row,
}
use open_bc.Base.Bits.{xor_cancel, xor_comm, xor_byte, or_comm, or_fields}
use open_bc.NameHash.{hash_from, string_hash}
use open_bc.NameHash.Tables.{hash_table_0, hash_table_1, hash_table_2, hash_table_3}

-- Where each byte stands in the last table.
abbrev place : List ℕ
place =
    0xfc ∷ 0x84 ∷ 0x0a ∷ 0x59 ∷ 0x56 ∷ 0x99 ∷ 0xa4 ∷ 0xbc ∷ 0x64 ∷ 0x89 ∷ 0xd0 ∷ 0x83 ∷ 0x15 ∷ 0xa3
    ∷ 0x11 ∷ 0x46 ∷ 0x7a ∷ 0x23 ∷ 0x0e ∷ 0xf7 ∷ 0xb4 ∷ 0xba ∷ 0xa2 ∷ 0x9c ∷ 0xa5 ∷ 0xc9 ∷ 0x1e
    ∷ 0x6e ∷ 0x36 ∷ 0xa8 ∷ 0x88 ∷ 0xc5 ∷ 0xe1 ∷ 0xaf ∷ 0xc1 ∷ 0x4e ∷ 0x98 ∷ 0xcd ∷ 0x1c ∷ 0xff
    ∷ 0x9a ∷ 0x6b ∷ 0xc7 ∷ 0xea ∷ 0x47 ∷ 0x82 ∷ 0x24 ∷ 0x10 ∷ 0x20 ∷ 0x43 ∷ 0xb6 ∷ 0x09 ∷ 0xfa
    ∷ 0xfd ∷ 0x6c ∷ 0xe0 ∷ 0x35 ∷ 0xf5 ∷ 0xe3 ∷ 0xf9 ∷ 0xb7 ∷ 0x55 ∷ 0x40 ∷ 0xdc ∷ 0x87 ∷ 0xbd
    ∷ 0xa6 ∷ 0x2c ∷ 0xdb ∷ 0xc2 ∷ 0x90 ∷ 0xd1 ∷ 0xa1 ∷ 0xf1 ∷ 0x30 ∷ 0xe8 ∷ 0xf6 ∷ 0xad ∷ 0x18
    ∷ 0xf2 ∷ 0xab ∷ 0x65 ∷ 0xd8 ∷ 0x5d ∷ 0x97 ∷ 0xf0 ∷ 0xbe ∷ 0x80 ∷ 0xec ∷ 0xb0 ∷ 0x31 ∷ 0x81
    ∷ 0xa7 ∷ 0x38 ∷ 0x58 ∷ 0x00 ∷ 0x16 ∷ 0x25 ∷ 0xe5 ∷ 0x05 ∷ 0x5f ∷ 0xf8 ∷ 0x34 ∷ 0x8b ∷ 0x04
    ∷ 0x95 ∷ 0x0b ∷ 0xd7 ∷ 0xfb ∷ 0x4a ∷ 0x76 ∷ 0x1b ∷ 0x96 ∷ 0x49 ∷ 0xd6 ∷ 0xb3 ∷ 0x3c ∷ 0x19
    ∷ 0xe9 ∷ 0xa0 ∷ 0x66 ∷ 0xc0 ∷ 0x27 ∷ 0x85 ∷ 0x48 ∷ 0x52 ∷ 0xcc ∷ 0x45 ∷ 0x75 ∷ 0xd5 ∷ 0xb5
    ∷ 0x8c ∷ 0xd2 ∷ 0xc8 ∷ 0xe7 ∷ 0x6f ∷ 0xe6 ∷ 0x91 ∷ 0xbb ∷ 0x4b ∷ 0x41 ∷ 0x2e ∷ 0x29 ∷ 0x71
    ∷ 0x62 ∷ 0xeb ∷ 0xc3 ∷ 0x7e ∷ 0x78 ∷ 0x70 ∷ 0x8d ∷ 0x73 ∷ 0x32 ∷ 0x0c ∷ 0xcf ∷ 0x8a ∷ 0x93
    ∷ 0x3e ∷ 0xb1 ∷ 0x26 ∷ 0x2a ∷ 0x6a ∷ 0x14 ∷ 0x28 ∷ 0xed ∷ 0xc4 ∷ 0x21 ∷ 0x0f ∷ 0x9e ∷ 0xdd
    ∷ 0xac ∷ 0x17 ∷ 0xfe ∷ 0x12 ∷ 0x7c ∷ 0xe2 ∷ 0xd4 ∷ 0x3b ∷ 0x8e ∷ 0x06 ∷ 0x50 ∷ 0x1f ∷ 0x92
    ∷ 0x2d ∷ 0x02 ∷ 0x3f ∷ 0xf3 ∷ 0x7d ∷ 0x67 ∷ 0x54 ∷ 0xca ∷ 0xce ∷ 0x4f ∷ 0x69 ∷ 0xdf ∷ 0x4d
    ∷ 0x94 ∷ 0xaa ∷ 0x51 ∷ 0xc6 ∷ 0xbf ∷ 0x53 ∷ 0x2f ∷ 0xe4 ∷ 0x6d ∷ 0x3d ∷ 0x08 ∷ 0x3a ∷ 0x0d
    ∷ 0x37 ∷ 0x5b ∷ 0x7f ∷ 0x61 ∷ 0x01 ∷ 0xd9 ∷ 0x1a ∷ 0x1d ∷ 0x74 ∷ 0x63 ∷ 0x79 ∷ 0x60 ∷ 0x5c
    ∷ 0x9b ∷ 0x2b ∷ 0xcb ∷ 0xf4 ∷ 0x7b ∷ 0xb9 ∷ 0x68 ∷ 0x9f ∷ 0x07 ∷ 0x42 ∷ 0x5a ∷ 0x72 ∷ 0xae
    ∷ 0x22 ∷ 0x44 ∷ 0xd3 ∷ 0x9d ∷ 0xb8 ∷ 0x39 ∷ 0x33 ∷ 0x57 ∷ 0x03 ∷ 0x77 ∷ 0xef ∷ 0x86 ∷ 0x13
    ∷ 0xb2 ∷ 0xde ∷ 0xee ∷ 0x5e ∷ 0x8f ∷ 0xa9 ∷ 0x4c ∷ 0xda ∷ []

places : all_below (λ x. get_or place (get_or hash_table_3 x 0) 0 == x) 256 ≡ true
unfolding all_below
places = refl

==→eq : (a b : ℕ) → (a == b) ≡ true → a ≡ b
==→eq a b h = ground arith

hash_table_3_injective :
    (x y : ℕ) → x < 256 → y < 256 → get_or hash_table_3 x 0 ≡ get_or hash_table_3 y 0 → x ≡ y
hash_table_3_injective x y hx hy e =
    sym (back x hx) ∙ ap (λ (v : ℕ). get_or place v 0) e ∙ back y hy
  where
    back : (z : ℕ) → z < 256 → get_or place (get_or hash_table_3 z 0) 0 ≡ z
    back z h =
        ==→eq _ _ (all_below-row (λ x. get_or place (get_or hash_table_3 x 0) 0 == x) places z h)

abbrev bytes_of : List ℕ → ℕ → Bool
bytes_of table x = ltb (get_or table x 0) 256

entry-IsByte :
    (table : List ℕ)
    → all_below (bytes_of table) 256 ≡ true
    → (x : ℕ) → x < 256
    → get_or table x 0 < 256
entry-IsByte table whole x h =
    ltb→lt (get_or table x 0) 256 (all_below-row (bytes_of table) whole x h)

table_1-IsByte : (x : ℕ) → x < 256 → get_or hash_table_1 x 0 < 256
unfolding all_below
table_1-IsByte = entry-IsByte hash_table_1 refl

table_2-IsByte : (x : ℕ) → x < 256 → get_or hash_table_2 x 0 < 256
unfolding all_below
table_2-IsByte = entry-IsByte hash_table_2 refl

table_3-IsByte : (x : ℕ) → x < 256 → get_or hash_table_3 x 0 < 256
unfolding all_below
table_3-IsByte = entry-IsByte hash_table_3 refl

-- The last lane alone.
abbrev lane : ℕ → List ℕ → ℕ
lane h [] = h
lane h (c ∷ str) = lane (get_or hash_table_3 (bit_xor c h) 0) str

low_lane :
    (h0 h1 h2 h3 : ℕ)
    → h1 < 256
    → h2 < 256
    → h3 < 256
    → bit_or (bit_or (bit_or (h0 * 2 ^ 24) (h1 * 2 ^ 16)) (h2 * 2 ^ 8)) h3 % 256 ≡ h3
low_lane h0 h1 h2 h3 s1 s2 s3 =
    let two : bit_or (h0 * 2 ^ 24) (h1 * 2 ^ 16) ≡ (h1 + h0 * 256) * 2 ^ 16 =
      or_comm (h0 * 2 ^ 24) (h1 * 2 ^ 16)
      ∙ omega (arith, or_fields 24 h0 (h1 * 2 ^ 16) (omega arith)) in
    let three : bit_or ((h1 + h0 * 256) * 2 ^ 16) (h2 * 2 ^ 8)
        ≡ (h2 + (h1 + h0 * 256) * 256) * 2 ^ 8 =
      or_comm ((h1 + h0 * 256) * 2 ^ 16) (h2 * 2 ^ 8)
      ∙ omega (arith, or_fields 16 (h1 + h0 * 256) (h2 * 2 ^ 8) (omega arith)) in
    let four : bit_or ((h2 + (h1 + h0 * 256) * 256) * 2 ^ 8) h3
        ≡ h3 + (h2 + (h1 + h0 * 256) * 256) * 2 ^ 8 =
      or_comm ((h2 + (h1 + h0 * 256) * 256) * 2 ^ 8) h3
      ∙ or_fields 8 (h2 + (h1 + h0 * 256) * 256) h3 s3 in
    rw (two, three, four) (omega arith)

hash_from-lane :
    (h0 h1 h2 h3 : ℕ) (str : List ℕ)
    → h1 < 256
    → h2 < 256
    → h3 < 256
    → All IsByte str
    → hash_from h0 h1 h2 h3 str % 256 ≡ lane h3 str
unfolding hash_from
hash_from-lane h0 h1 h2 h3 [] s1 s2 s3 bytes = low_lane h0 h1 h2 h3 s1 s2 s3
hash_from-lane h0 h1 h2 h3 (c ∷ str) s1 s2 s3 bytes =
    hash_from-lane (get_or hash_table_0 (bit_xor c h0) 0) (get_or hash_table_1 (bit_xor c h1) 0)
      (get_or hash_table_2 (bit_xor c h2) 0) (get_or hash_table_3 (bit_xor c h3) 0) str
      (table_1-IsByte (bit_xor c h1) (xor_byte c h1 bytes.0 s1))
      (table_2-IsByte (bit_xor c h2) (xor_byte c h2 bytes.0 s2))
      (table_3-IsByte (bit_xor c h3) (xor_byte c h3 bytes.0 s3)) bytes.1

-- A lane's step, from the character or from the lane.
step_injective :
    (a h b k : ℕ)
    → a < 256
    → h < 256
    → b < 256
    → k < 256
    → get_or hash_table_3 (bit_xor a h) 0 ≡ get_or hash_table_3 (bit_xor b k) 0
    → bit_xor a h ≡ bit_xor b k
step_injective a h b k sa sh sb sk e =
    hash_table_3_injective (bit_xor a h) (bit_xor b k) (xor_byte a h sa sh) (xor_byte b k sb sk) e

cancel_right : (a b h : ℕ) → bit_xor a h ≡ bit_xor b h → a ≡ b
cancel_right a b h e = sym (xor_cancel a h) ∙ ap (λ (x : ℕ). bit_xor x h) e ∙ xor_cancel b h

lane_injective :
    (h k : ℕ) (str : List ℕ) → h < 256 → k < 256 → All IsByte str → lane h str ≡ lane k str → h ≡ k
lane_injective h k [] sh sk bytes e = e
lane_injective h k (c ∷ str) sh sk bytes e =
    let after =
      lane_injective (get_or hash_table_3 (bit_xor c h) 0) (get_or hash_table_3 (bit_xor c k) 0) str
        (table_3-IsByte (bit_xor c h) (xor_byte c h bytes.0 sh))
        (table_3-IsByte (bit_xor c k) (xor_byte c k bytes.0 sk)) bytes.1 e in
    cancel_right h k c
      (xor_comm h c ∙ step_injective c h c k bytes.0 sh bytes.0 sk after ∙ xor_comm c k)

lane_finds :
    (h : ℕ) (front : List ℕ) (a b : ℕ) (back : List ℕ)
    → h < 256
    → All IsByte front
    → a < 256
    → b < 256
    → All IsByte back
    → lane h (front ++ (a ∷ back)) ≡ lane h (front ++ (b ∷ back))
    → a ≡ b
lane_finds h [] a b back sh bf sa sb bb e =
    let after =
      lane_injective (get_or hash_table_3 (bit_xor a h) 0) (get_or hash_table_3 (bit_xor b h) 0)
        back (table_3-IsByte (bit_xor a h) (xor_byte a h sa sh))
        (table_3-IsByte (bit_xor b h) (xor_byte b h sb sh)) bb e in
    cancel_right a b h (step_injective a h b h sa sh sb sh after)
lane_finds h (c ∷ front) a b back sh bf sa sb bb e =
    lane_finds (get_or hash_table_3 (bit_xor c h) 0) front a b back
      (table_3-IsByte (bit_xor c h) (xor_byte c h bf.0 sh)) bf.1 sa sb bb e

whole-IsByte :
    (front : List ℕ) (a : ℕ) (back : List ℕ)
    → All IsByte front
    → a < 256
    → All IsByte back
    → All IsByte (front ++ (a ∷ back))
whole-IsByte [] a back bf sa bb = (sa, bb)
whole-IsByte (c ∷ front) a back bf sa bb = (bf.0, whole-IsByte front a back bf.1 sa bb)

-- Names, of bytes, that differ in one character have different hashes.
pub string_hash-detects :
    (front : List ℕ) (a b : ℕ) (back : List ℕ)
    → All IsByte front
    → a < 256
    → b < 256
    → All IsByte back
    → a ≢ b
    → string_hash (front ++ (a ∷ back)) ≢ string_hash (front ++ (b ∷ back))
unfolding string_hash
string_hash-detects front a b back bf sa sb bb differ e =
    let lane_of = λ (c : ℕ) (sc : c < 256).
      hash_from-lane 0 0 0 0 (front ++ (c ∷ back)) (omega arith) (omega arith) (omega arith)
        (whole-IsByte front c back bf sc bb) in
    differ (
      lane_finds 0 front a b back (omega arith) bf sa sb bb
        (sym (lane_of a sa) ∙ ap (λ (x : ℕ). x % 256) e ∙ lane_of b sb))
