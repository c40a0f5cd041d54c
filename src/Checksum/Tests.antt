-- ===== src/Checksum/Tests.antt =====
-- Small files and their hashes.
use open_bc.Base.{
  ℕ, zero, suc, ◌≤◌, ◌<◌, ◌≡◌, ◌≢◌, ◌⊎◌, refl, inl, arith, All, IsByte, get_or, List, [], ◌∷◌,
}
use open_bc.Checksum.{rotate_left, mixed, dword_at, hash_dwords, hash_tail, file_hash}
use open_bc.Checksum.Detect.{file_hash-timestamp, file_hash-detects}

abbrev script : List ℕ
script = 3 ∷ 243 ∷ 13 ∷ 10 ∷ 1 ∷ 2 ∷ 3 ∷ 4 ∷ 99 ∷ 0 ∷ 200 ∷ []

abbrev compiled_later : List ℕ
compiled_later = 3 ∷ 243 ∷ 13 ∷ 10 ∷ 9 ∷ 8 ∷ 7 ∷ 6 ∷ 99 ∷ 0 ∷ 200 ∷ []

abbrev altered : List ℕ
altered = 3 ∷ 243 ∷ 12 ∷ 10 ∷ 1 ∷ 2 ∷ 3 ∷ 4 ∷ 99 ∷ 0 ∷ 200 ∷ []

-- The bytes of a file shorter than eight after its first word are hashed.
short_file : file_hash (0 ∷ 0 ∷ 0 ∷ 0 ∷ 1 ∷ []) ≡ 2
unfolding file_hash hash_tail hash_dwords mixed rotate_left dword_at
short_file = refl

file_hash-timestamp_here : file_hash script ≡ file_hash compiled_later
file_hash-timestamp_here =
    file_hash-timestamp script compiled_later (omega arith) (record { size = refl; same = outside })
  where
    outside : (i : ℕ) → (i < 4) ⊎ (8 ≤ i) → get_or script i 0 ≡ get_or compiled_later i 0
    outside zero h = refl
    outside (suc zero) h = refl
    outside (suc (suc zero)) h = refl
    outside (suc (suc (suc zero))) h = refl
    outside (suc (suc (suc (suc zero)))) h = absurd (ground (arith, h))
    outside (suc (suc (suc (suc (suc zero))))) h = absurd (ground (arith, h))
    outside (suc (suc (suc (suc (suc (suc zero)))))) h = absurd (ground (arith, h))
    outside (suc (suc (suc (suc (suc (suc (suc zero))))))) h = absurd (ground (arith, h))
    outside (suc (suc (suc (suc (suc (suc (suc (suc i)))))))) h = refl

script-IsByte : All IsByte script
script-IsByte = (
  omega arith,
  (
    omega arith,
    (
      omega arith,
      (
        omega arith,
        (
          omega arith,
          (
            omega arith,
            (omega arith, (omega arith, (omega arith, (omega arith, (omega arith, tt))))),
          ),
        ),
      ),
    ),
  ),
)

altered-IsByte : All IsByte altered
altered-IsByte = (
  omega arith,
  (
    omega arith,
    (
      omega arith,
      (
        omega arith,
        (
          omega arith,
          (
            omega arith,
            (omega arith, (omega arith, (omega arith, (omega arith, (omega arith, tt))))),
          ),
        ),
      ),
    ),
  ),
)

file_hash-detects_example : file_hash script ≢ file_hash altered
file_hash-detects_example =
    file_hash-detects script altered 2 script-IsByte altered-IsByte (inl (omega arith))
      (omega arith) (record { size = refl; same = elsewhere }) (λ e. absurd (omega (arith, e)))
  where
    elsewhere : (i : ℕ) → i ≢ 2 → get_or script i 0 ≡ get_or altered i 0
    elsewhere zero other = refl
    elsewhere (suc zero) other = refl
    elsewhere (suc (suc zero)) other = absurd (other refl)
    elsewhere (suc (suc (suc i))) other = refl
