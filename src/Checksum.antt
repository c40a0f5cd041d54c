-- ===== src/Checksum.antt =====
-- The hash of a file's contents, src/shared/checksum/file_hash.c. `file_hash_from_path`, which reads the file
-- and hashes what it read, is outside the model.
mod Turn
pub mod Detect
mod Tests
use open_bc.Base.{ℕ, zero, suc, ◌+◌, ◌*◌, ◌/◌, ◌%◌, List, length, get_or, ◌==◌, if◌then◌else◌}
use open_bc.Base.{bit_or, bit_xor, u32, ◌<<<◌, ◌>>>◌, sign_extend}

-- `(hash << 1) | (hash >> 31)`
pub rotate_left : ℕ → ℕ
rotate_left hash = bit_or (u32 (hash <<< 1)) (hash >>> 31)

pub mixed : ℕ → ℕ → ℕ
mixed hash word = rotate_left (bit_xor hash word)

-- The little-endian word at `data[i * 4]`.
pub dword_at : List ℕ → ℕ → ℕ
dword_at bytes i =
    bit_or
      (bit_or (bit_or (get_or bytes (i * 4) 0) (get_or bytes (i * 4 + 1) 0 <<< 8))
        (get_or bytes (i * 4 + 2) 0 <<< 16))
      (get_or bytes (i * 4 + 3) 0 <<< 24)

-- The first loop from `i` on, with `turns` left.
pub hash_dwords : List ℕ → ℕ → ℕ → ℕ → ℕ
hash_dwords bytes i zero hash = hash
hash_dwords bytes i (suc turns) hash =
    hash_dwords bytes (suc i) turns (if i == 1 then hash else mixed hash (dword_at bytes i))

-- The second loop, over the `turns` bytes from `pos` on.
pub hash_tail : List ℕ → ℕ → ℕ → ℕ → ℕ
hash_tail bytes pos zero hash = hash
hash_tail bytes pos (suc turns) hash =
    hash_tail bytes (suc pos) turns (mixed hash (sign_extend (get_or bytes pos 0)))

pub file_hash : List ℕ → ℕ
file_hash bytes =
    let dword_count = length bytes / 4 in
    hash_tail bytes (dword_count * 4) (length bytes % 4) (hash_dwords bytes 0 dword_count 0)
