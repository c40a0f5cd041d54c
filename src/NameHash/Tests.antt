-- ===== src/NameHash/Tests.antt =====
-- The hash that string_hash.c gives as verified, and that of a changed name.
use open_bc.Base.{◌≡◌, ◌≢◌, refl, arith, [], ◌∷◌}
use open_bc.NameHash.{string_hash, hash_from}
use open_bc.NameHash.Detect.{string_hash-detects}

hash_of_60 : string_hash (0x36 ∷ 0x30 ∷ []) ≡ 0x7e0c_e243
unfolding string_hash hash_from
hash_of_60 = refl

string_hash-detects_example : string_hash (0x36 ∷ 0x30 ∷ []) ≢ string_hash (0x36 ∷ 0x31 ∷ [])
string_hash-detects_example =
    string_hash-detects (0x36 ∷ []) 0x30 0x31 [] (omega arith, tt) (omega arith) (omega arith) tt
      (λ e. absurd (omega (arith, e)))
