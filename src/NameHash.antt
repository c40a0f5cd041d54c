-- ===== src/NameHash.antt =====
-- The hash of a name, src/shared/checksum/string_hash.c: four lanes, each over a table of its own. A C string is
-- the list of its bytes before the NUL.
pub mod Tables
pub mod Detect
mod Tests
use open_bc.Base.{ℕ, List, [], ◌∷◌, get_or, bit_or, bit_xor, ◌<<<◌}
use open_bc.NameHash.Tables.{hash_table_0, hash_table_1, hash_table_2, hash_table_3}

-- The loop, with the lanes so far.
pub hash_from : ℕ → ℕ → ℕ → ℕ → List ℕ → ℕ
hash_from h0 h1 h2 h3 [] = bit_or (bit_or (bit_or (h0 <<< 24) (h1 <<< 16)) (h2 <<< 8)) h3
hash_from h0 h1 h2 h3 (c ∷ str) =
    hash_from (get_or hash_table_0 (bit_xor c h0) 0) (get_or hash_table_1 (bit_xor c h1) 0)
      (get_or hash_table_2 (bit_xor c h2) 0) (get_or hash_table_3 (bit_xor c h3) 0) str

pub string_hash : List ℕ → ℕ
string_hash str = hash_from 0 0 0 0 str
