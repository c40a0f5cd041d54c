-- ===== src/Buffer/Writes.antt =====
-- The bytes that a primitive write stores behind the position, and where it refuses.
use open_bc.Base.{ℕ, ◌+◌, ◌/◌, ◌%◌, ◌^◌, ◌≤◌, ◌<◌, ◌≡◌, refl, ap, ◌∙◌, arith}
use open_bc.Base.{Bool, true, false, List, [], ◌∷◌, ◌++◌, leb, if◌then◌else◌, add_size}
use open_bc.Base.{
  length, take, length-append, u8, low, ◌>>>◌, set-eq-copy_at, copy_at, copy_at-append,
  length-copy_at,
}
use open_bc.Buffer.{Buffer, put, write_u8, write_u16, write_u32, write_bytes}

-- The storage has the capacity's size, and the position lies in it.
pub record IsValid (b : Buffer) : Type 0 where
  pub storage : length b.bytes ≡ b.capacity
  pub small : b.capacity < 2 ^ 63
  pub inside : b.pos ≤ b.capacity

-- The buffer after `out` has been stored at its position.
abbrev pub emit : List ℕ → Buffer → Buffer
emit out b = record b { bytes = copy_at b.bytes b.pos out; pos = b.pos + length out }

abbrev pub Fits : Buffer → ℕ → Type 0
Fits b n = b.pos + n ≤ b.capacity

pub emit-IsValid :
    {b : Buffer} (out : List ℕ) → IsValid b → Fits b (length out) → IsValid (emit out b)
emit-IsValid {b} out v h = record {
  storage = length-copy_at b.bytes b.pos out ∙ v.storage;
  small = v.small;
  inside = h;
}

pub emit-emit : (b : Buffer) (xs ys : List ℕ) → emit ys (emit xs b) ≡ emit (xs ++ ys) b
emit-emit b xs ys = λ i. record b {
  bytes = copy_at-append b.bytes b.pos xs ys (b.pos + length xs) refl i;
  pos = ends i;
}
  where
    ends : b.pos + length xs + length ys ≡ b.pos + length (xs ++ ys)
    ends = omega (arith, length-append xs ys)

-- Little-endian bytes.
abbrev pub le16 : ℕ → List ℕ
le16 v = v % 256 ∷ v / 256 % 256 ∷ []

abbrev pub le32 : ℕ → List ℕ
le32 v = v % 256 ∷ v / 256 % 256 ∷ v / 65536 % 256 ∷ v / 16777216 % 256 ∷ []

-- What a primitive write `f` of the bytes `out` does at every valid buffer.
abbrev pub Stores : (Buffer → Bool × Buffer) → List ℕ → Type 0
Stores f out =
    (b : Buffer)
    → IsValid b
    → f b ≡ (if leb (b.pos + length out) b.capacity then (true, emit out b) else (false, b))

put-eq-emit : {b : Buffer} (v : ℕ) → IsValid b → Fits b 1 → put v b ≡ emit (v ∷ []) b
unfolding put
put-eq-emit {b} v h fits = λ i. record b { bytes = set-eq-copy_at b.bytes b.pos v i; pos = ends i }
  where
    ends : add_size b.pos 1 ≡ b.pos + 1
    ends = omega arith

-- One more byte behind those that have been stored.
put_behind :
    {b : Buffer} (out : List ℕ) (v : ℕ)
    → IsValid b
    → Fits b (length out + 1)
    → put v (emit out b) ≡ emit (out ++ (v ∷ [])) b
put_behind {b} out v h fits =
    put-eq-emit v (emit-IsValid out h (omega arith)) (omega arith) ∙ emit-emit b out (v ∷ [])

pub write_u8-Stores : (v : ℕ) → Stores (write_u8 v) (v ∷ [])
unfolding write_u8
write_u8-Stores v b h = ground (arith, put-eq-emit v h)

pub write_u16-Stores : (v : ℕ) → Stores (write_u16 v) (le16 v)
unfolding write_u16
write_u16-Stores v b h =
    ground
      (arith, put-eq-emit (u8 (low 8 v)) h, put_behind (u8 (low 8 v) ∷ []) (u8 (low 8 (v >>> 8))) h)

pub write_u32-Stores : (v : ℕ) → Stores (write_u32 v) (le32 v)
unfolding write_u32
write_u32-Stores v b h =
    let b0 = u8 (low 8 v) in
    let b1 = u8 (low 8 (v >>> 8)) in
    let b2 = u8 (low 8 (v >>> 16)) in
    ground (
      arith,
      put-eq-emit b0 h,
      put_behind (b0 ∷ []) b1 h,
      put_behind (b0 ∷ b1 ∷ []) b2 h,
      put_behind (b0 ∷ b1 ∷ b2 ∷ []) (u8 (low 8 (v >>> 24))) h,
    )

pub write_bytes-Stores :
    (src : List ℕ) → length src < 2 ^ 63 → Stores (write_bytes src (length src)) src
unfolding write_bytes
write_bytes-Stores src short b h = ground (arith, take_all src)
  where
    take_all : (xs : List ℕ) → take (length xs) xs ≡ xs
    take_all [] = refl
    take_all (x ∷ xs) = ap (λ r. x ∷ r) (take_all xs)
