-- ===== src/Buffer/Script/Pack.antt =====
-- The byte of a group of booleans, `[count:3][bits:5]`: what the code computes with `|`, `&` and
-- shifts, as arithmetic.
use open_bc.Base.{ℕ, suc, zero, ◌+◌, ◌*◌, ◌^◌, ◌≤◌, ◌<◌, ◌≡◌, refl, arith}
use open_bc.Base.{
  Bool, true, false, List, [], ◌∷◌, ◌++◌, ltb, ◌==◌, if◌then◌else◌, length, length-append,
}
use open_bc.Base.{
  u8, low, ◌<<<◌, ◌>>>◌, bit_or, all_below, all_below-row, ◌&&◌, Bool-cases, inl, inr,
}
use native.Mathlib.Nat.{pow-suc}
use open_bc.Buffer.{bit_of, bit_at}

-- The booleans as a number, the first in the lowest place.
abbrev pub bits : List Bool → ℕ
bits [] = 0
bits (v ∷ vs) = bit_of v + 2 * bits vs

abbrev pub pack : List Bool → ℕ
pack vs = 32 * length vs + bits vs

pub bits-lt : (vs : List Bool) → bits vs < 2 ^ length vs
bits-lt [] = omega arith
bits-lt (true ∷ vs) = omega (arith, bits-lt vs, pow-suc 2 (length vs))
bits-lt (false ∷ vs) = omega (arith, bits-lt vs, pow-suc 2 (length vs))

bits-snoc : (vs : List Bool) (v : Bool) → bits (vs ++ (v ∷ [])) ≡ bits vs + bit_of v * 2 ^ length vs
bits-snoc [] true = refl
bits-snoc [] false = refl
bits-snoc (x ∷ vs) true = omega (arith, bits-snoc vs true, pow-suc 2 (length vs))
bits-snoc (x ∷ vs) false = omega (arith, bits-snoc vs false)

bits_room : (vs : List Bool) (n : ℕ) → length vs ≤ n → bits vs < 2 ^ n
bits_room [] zero h = omega arith
bits_room [] (suc n) h = omega (arith, bits_room [] n (omega arith), pow-suc 2 n)
bits_room (v ∷ vs) zero h = absurd (omega arith)
bits_room (true ∷ vs) (suc n) h = omega (arith, bits_room vs n (omega arith), pow-suc 2 n)
bits_room (false ∷ vs) (suc n) h = omega (arith, bits_room vs n (omega arith), pow-suc 2 n)

pub bits_five : (vs : List Bool) → length vs ≤ 5 → bits vs < 32
bits_five vs h = bits_room vs 5 h

-- The byte that `bc_buf_write_bit` stores when a group of `k` gets one more.
abbrev pub extended : ℕ → ℕ → Bool → ℕ
extended k byte v =
    u8 (bit_or (low 5 (if v then u8 (bit_or byte (1 <<< k)) else byte)) (low 3 (u8 (k + 1)) <<< 5))

abbrev extends_right : ℕ → ℕ → Bool
extends_right k b =
    if ltb b (2 ^ k)
    then (extended k (32 * k + b) true == 32 * (k + 1) + (b + 2 ^ k))
      && (extended k (32 * k + b) false == 32 * (k + 1) + b)
    else true

extend_table : all_below (λ k. all_below (extends_right k) 16) 5 ≡ true
unfolding all_below
extend_table = refl

extends_right_lem :
    (k b : ℕ)
    → b < 2 ^ k
    → extends_right k b ≡ true
    → (extended k (32 * k + b) true ≡ 32 * (k + 1) + (b + 2 ^ k))
      × (extended k (32 * k + b) false ≡ 32 * (k + 1) + b)
extends_right_lem k b h e = ground arith

pub extended-pack :
    (vs : List Bool) (v : Bool)
    → length vs < 5
    → extended (length vs) (pack vs) v ≡ pack (vs ++ (v ∷ []))
extended-pack vs v h = elim (Bool-cases v) [
  | inl e ↦ rw e (omega (arith, entry.0, bits-snoc vs true, length-append vs (true ∷ [])))
  | inr e ↦ rw e (omega (arith, entry.1, bits-snoc vs false, length-append vs (false ∷ [])))
]
  where
    below : bits vs < 16
    below = bits_room vs 4 (omega arith)

    entry :
        (extended (length vs) (pack vs) true ≡ 32 * (length vs + 1) + (bits vs + 2 ^ length vs))
        × (extended (length vs) (pack vs) false ≡ 32 * (length vs + 1) + bits vs)
    entry =
        let row = all_below-row (λ k. all_below (extends_right k) 16) extend_table (length vs) h in
        extends_right_lem (length vs) (bits vs) (bits-lt vs)
          (all_below-row (extends_right (length vs)) row (bits vs) below)

-- Bit `length vs` of a packed group is the boolean behind `vs`.
pub bit_at-pack :
    (vs : List Bool) (v : Bool) (more : List Bool)
    → length vs < 5
    → bit_at (pack (vs ++ (v ∷ more))) (length vs) ≡ v
unfolding bit_at
bit_at-pack [] v more h = ground arith
bit_at-pack (a ∷ []) v more h = ground arith
bit_at-pack (a ∷ b ∷ []) v more h = ground arith
bit_at-pack (a ∷ b ∷ c ∷ []) v more h = ground arith
bit_at-pack (a ∷ b ∷ c ∷ d ∷ []) v more h = ground arith
bit_at-pack (a ∷ b ∷ c ∷ d ∷ e ∷ vs) v more h = absurd (omega arith)

pub count-pack : (vs : List Bool) → length vs ≤ 5 → low 3 (pack vs >>> 5) ≡ length vs
count-pack vs h = omega (arith, bits_five vs h)
