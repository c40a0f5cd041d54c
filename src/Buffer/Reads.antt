-- ===== src/Buffer/Reads.antt =====
-- What a primitive read takes from the bytes ahead of the position, and where it refuses.
use open_bc.Base.{ℕ, ◌+◌, ◌*◌, ◌/◌, ◌%◌, ◌^◌, ◌≤◌, ◌<◌, ◌≡◌, refl, sym, ap, ◌∙◌, arith}
use open_bc.Base.{Option, some, List, [], ◌∷◌, ◌++◌}
use open_bc.Base.{
  length, take, drop, get_or, length-append, length-drop, get_or-drop, take_of_append,
}
use open_bc.Base.{drop-drop, drop_of_append, add_size, bit_or, IsU16, IsU32}
use open_bc.Base.Bits.{or_fields}
use open_bc.Buffer.{Buffer, byte_at, read_u8, read_u16, read_u32, read_bytes}
use open_bc.Buffer.Writes.{IsValid, le16, le32}

-- What lies ahead of the position.
abbrev pub unread : Buffer → List ℕ
unread b = drop b.pos b.bytes

abbrev pub skip : ℕ → Buffer → Buffer
skip n b = record b { pos = b.pos + n }

-- A read that takes the bytes `taken` off the front and answers `v`, whatever follows them.
pub record Takes {ℓ} {A : Type ℓ} (r : Buffer → Option A × Buffer) (taken : List ℕ) (v : A)
    : Type ℓ where
  pub takes :
      (b : Buffer) (rest : List ℕ)
      → IsValid b
      → unread b ≡ taken ++ rest
      → r b ≡ (some v, skip (length taken) b)

-- The bytes ahead fit in the capacity.
pub ahead_fits :
    (b : Buffer) (taken rest : List ℕ)
    → IsValid b
    → unread b ≡ taken ++ rest
    → b.pos + length taken ≤ b.capacity
ahead_fits b taken rest v e =
    omega (arith, ap length e, length-drop b.pos b.bytes, length-append taken rest)

pub skip-IsValid :
    (b : Buffer) (taken rest : List ℕ)
    → IsValid b
    → unread b ≡ taken ++ rest
    → IsValid (skip (length taken) b) × (unread (skip (length taken) b) ≡ rest)
skip-IsValid b taken rest v e = (
  record { storage = v.storage; small = v.small; inside = ahead_fits b taken rest v e },
  sym (drop-drop b.pos (length taken) b.bytes _ refl) ∙ rw e (drop_of_append taken rest _ refl),
)

byte_ahead :
    (b : Buffer) (taken rest : List ℕ) (i : ℕ)
    → IsValid b
    → unread b ≡ taken ++ rest
    → i ≤ length taken
    → byte_at b i ≡ get_or (taken ++ rest) i 0
unfolding byte_at
byte_ahead b taken rest i v e h =
    let wrap : add_size b.pos i ≡ b.pos + i = omega (arith, ahead_fits b taken rest v e) in
    rw wrap (sym (get_or-drop b.bytes b.pos i 0 _ refl) ∙ ap (λ l. get_or l i 0) e)

join16 : (v : ℕ) → IsU16 v → bit_or (v % 256) (v / 256 % 256 * 2 ^ 8) ≡ v
join16 v h = omega (arith, or_fields 8 (v / 256 % 256) (v % 256))

join32 :
    (v : ℕ)
    → IsU32 v
    → bit_or
        (bit_or (bit_or (v % 256) (v / 256 % 256 * 2 ^ 8)) (v / 65536 % 256 * 2 ^ 16))
        (v / 16777216 % 256 * 2 ^ 24)
      ≡ v
join32 v h =
    rw
      (
        or_fields 8 (v / 256 % 256) (v % 256) (omega arith),
        or_fields 16 (v / 65536 % 256) (v % 256 + v / 256 % 256 * 2 ^ 8) (omega arith),
      )
      (omega (
        arith,
        or_fields 24 (v / 16777216 % 256)
            (v % 256 + v / 256 % 256 * 2 ^ 8 + v / 65536 % 256 * 2 ^ 16),
      ))

pub read_u8-Takes : (v : ℕ) → Takes read_u8 (v ∷ []) v
unfolding read_u8
read_u8-Takes v = record {
  takes =
      λ b rest h e. ground (arith, byte_ahead b (v ∷ []) rest 0 h, ahead_fits b (v ∷ []) rest h e);
}

pub read_u16-Takes : (v : ℕ) → IsU16 v → Takes read_u16 (le16 v) v
unfolding read_u16
read_u16-Takes v small = record {
  takes = λ b rest h e.
      let byte = λ (i : ℕ). byte_ahead b (le16 v) rest i h e in
      ground (arith, byte 0, byte 1, ahead_fits b (le16 v) rest h e, join16 v);
}

pub read_u32-Takes : (v : ℕ) → IsU32 v → Takes read_u32 (le32 v) v
unfolding read_u32
read_u32-Takes v small = record {
  takes = λ b rest h e.
      let byte = λ (i : ℕ). byte_ahead b (le32 v) rest i h e in
      ground (arith, byte 0, byte 1, byte 2, byte 3, ahead_fits b (le32 v) rest h e, join32 v);
}

pub read_bytes-Takes : (xs : List ℕ) → length xs < 2 ^ 63 → Takes (read_bytes (length xs)) xs xs
unfolding read_bytes
read_bytes-Takes xs short = record {
  takes = λ b rest h e.
      let ahead : take (length xs) (drop b.pos b.bytes) ≡ xs =
        rw e (take_of_append xs rest _ refl) in
      ground (arith, ahead_fits b xs rest h e, ahead);
}
