-- ===== src/Buffer.antt =====
-- The stream buffer of src/shared/protocol/buffer.c: its state and its primitive writes and reads.
-- A write returns the C function's `bool` beside the buffer; a read returns `none` for `false`.
-- `size_t` sums wrap at 2 ^ 64.
pub mod Writes
pub mod Reads
pub mod Seq
pub mod Script
pub mod Bounds
mod Tests
use open_bc.Base.{ℕ, suc, ◌+◌, ◌-◌, ◌*◌, Bool, true, false, Option, none, some, List, [], ◌∷◌}
use open_bc.Base.{ltb, ◌==◌, if◌then◌else◌, u8, low, ◌<<<◌, ◌>>>◌, add_size, bit_or}
use open_bc.Base.{not, get_or, set, take, drop, copy_at, replicate}

-- `bc_buffer_t`; `bytes` is what `data` points to.
pub record Buffer : Type 0 where
  pub bytes : List ℕ
  pub capacity : ℕ
  pub pos : ℕ
  pub bit_bookmark : ℕ
  pub bit_count : ℕ

unfoldable pub init : List ℕ → ℕ → Buffer
init storage size = record {
  bytes = storage;
  capacity = size;
  pos = 0;
  bit_bookmark = 0;
  bit_count = 0;
}

-- `bc_buf_alloc`, where `granted` says whether `calloc` gave the storage.
pub alloc : Bool → ℕ → Option Buffer
unfolding init
alloc granted size = if granted then some (init (replicate size 0) size) else none

-- `bc_buf_free`; what `calloc` gave is gone.
pub free : Buffer → Buffer
free b = record b { bytes = []; capacity = 0; pos = 0 }

pub reset : Buffer → Buffer
reset b = record b { pos = 0; bit_bookmark = 0; bit_count = 0 }

unfoldable pub remaining : Buffer → ℕ
remaining b = if ltb b.pos b.capacity then b.capacity - b.pos else 0

-- `data[pos++] = val`
put : ℕ → Buffer → Buffer
put val b = record b { bytes = set b.bytes b.pos val; pos = add_size b.pos 1 }

unfoldable pub write_u8 : ℕ → Buffer → Bool × Buffer
unfolding put
write_u8 val b = if ltb b.capacity (add_size b.pos 1) then (false, b) else (true, put val b)

unfoldable pub write_u16 : ℕ → Buffer → Bool × Buffer
unfolding put
write_u16 val b =
    if ltb b.capacity (add_size b.pos 2)
    then (false, b)
    else (true, put (u8 (low 8 (val >>> 8))) (put (u8 (low 8 val)) b))

pub write_u32 : ℕ → Buffer → Bool × Buffer
unfolding put
write_u32 val b = if ltb b.capacity (add_size b.pos 4) then (false, b) else (
  true,
  put (u8 (low 8 (val >>> 24)))
      (put (u8 (low 8 (val >>> 16))) (put (u8 (low 8 (val >>> 8))) (put (u8 (low 8 val)) b))),
)

-- An `i32` is its bit pattern, so the cast to `u32` changes nothing.
abbrev pub write_i32 : ℕ → Buffer → Bool × Buffer
write_i32 val = write_u32 val

-- `memcpy(data + pos, src, len)`
unfoldable pub write_bytes : List ℕ → ℕ → Buffer → Bool × Buffer
write_bytes src len b =
    if ltb b.capacity (add_size b.pos len)
    then (false, b)
    else (true, record b { bytes = copy_at b.bytes b.pos (take len src); pos = add_size b.pos len })

abbrev pub bit_of : Bool → ℕ
bit_of val = if val then 1 else 0

-- `bc_buf_write_bit` with no group open: a new byte that holds one bit.
unfoldable pub start_group : Bool → Buffer → Bool × Buffer
unfolding put
start_group val b =
    if ltb b.capacity (add_size b.pos 1)
    then (false, b)
    else let b' = put 0 b in
      (
        true,
        record b' {
          bytes = set b'.bytes b.pos (bit_or (1 <<< 5) (bit_of val));
          bit_bookmark = b.pos;
          bit_count = 1;
        },
      )

-- With a group open: the byte at the bookmark takes one bit more, and the count above it.
unfoldable pub extend_group : Bool → Buffer → Buffer
extend_group val b =
    let byte = get_or b.bytes b.bit_bookmark 0 in
    let byte' = if val then u8 (bit_or byte (1 <<< b.bit_count)) else byte in
    let count = u8 (b.bit_count + 1) in
    record b {
      bytes = set b.bytes b.bit_bookmark (u8 (bit_or (low 5 byte') (low 3 count <<< 5)));
      bit_count = count;
    }

-- A full group is closed, and the call made again finds none open.
unfoldable pub write_bit : Bool → Buffer → Bool × Buffer
unfolding start_group extend_group
write_bit val b =
    if b.bit_count == 0
    then start_group val b
    else if ltb b.bit_count 5
    then (true, extend_group val b)
    else start_group val (record b { bit_count = 0 })

byte_at : Buffer → ℕ → ℕ
byte_at b i = get_or b.bytes (add_size b.pos i) 0

unfoldable pub read_u8 : Buffer → Option ℕ × Buffer
unfolding byte_at
read_u8 b =
    if ltb b.capacity (add_size b.pos 1)
    then (none, b)
    else (some (byte_at b 0), record b { pos = add_size b.pos 1 })

unfoldable pub read_u16 : Buffer → Option ℕ × Buffer
unfolding byte_at
read_u16 b =
    if ltb b.capacity (add_size b.pos 2)
    then (none, b)
    else (some (bit_or (byte_at b 0) (byte_at b 1 <<< 8)), record b { pos = add_size b.pos 2 })

pub read_u32 : Buffer → Option ℕ × Buffer
unfolding byte_at
read_u32 b = if ltb b.capacity (add_size b.pos 4) then (none, b) else (
  some (
      bit_or (bit_or (bit_or (byte_at b 0) (byte_at b 1 <<< 8)) (byte_at b 2 <<< 16))
        (byte_at b 3 <<< 24)),
  record b { pos = add_size b.pos 4 },
)

abbrev pub read_i32 : Buffer → Option ℕ × Buffer
read_i32 = read_u32

unfoldable pub read_bytes : ℕ → Buffer → Option (List ℕ) × Buffer
read_bytes len b =
    if ltb b.capacity (add_size b.pos len)
    then (none, b)
    else (some (take len (drop b.pos b.bytes)), record b { pos = add_size b.pos len })

-- `(byte >> i) & 1`, as a test
unfoldable pub bit_at : ℕ → ℕ → Bool
bit_at byte i = not (low 1 (byte >>> i) == 0)

-- `bit_count--` wraps below 0, as a `u8` does.
unfoldable pub read_bit : Buffer → Option Bool × Buffer
read_bit b =
    if b.bit_count == 0
    then (if ltb b.capacity (add_size b.pos 1)
        then (none, b)
        else let byte = get_or b.bytes b.pos 0 in
          (
            some (bit_at byte 0),
            record b {
              pos = add_size b.pos 1;
              bit_bookmark = b.pos;
              bit_count = u8 (low 3 (byte >>> 5) + 255);
            },
          ))
    else (let byte = get_or b.bytes b.bit_bookmark 0 in
        let total = low 3 (byte >>> 5) in
        (
          some (bit_at byte (u8 (total + 256 - b.bit_count))),
          record b { bit_count = u8 (b.bit_count + 255) },
        ))
