-- ===== src/Checksum/Turn.antt =====
-- One turn of either loop of `file_hash`: what it does to the hash, and what can be told from its result.
use open_bc.Base.{
  ℕ, zero, suc, ◌+◌, ◌*◌, ◌/◌, ◌%◌, ◌^◌, ◌<◌, ◌≡◌, ◌≢◌, inl, inr, refl, sym, ap, ◌∙◌, arith,
}
use open_bc.Base.{
  List, [], ◌∷◌, All, Bool-cases, IsByte, IsU32, get_or, ◌==◌, if◌then◌else◌, if_true, if_false,
  by_branch,
}
use open_bc.Base.{bit_or, bit_xor, u32, ◌<<<◌, ◌>>>◌, sign_extend}
use open_bc.Base.Bits.{xor_cancel, xor_word, or_fields, bit_or_digit, xor_comm}
use open_bc.Checksum.{rotate_left, mixed, dword_at}

rotate_left_lem : (h : ℕ) → IsU32 h → rotate_left h ≡ h * 2 % 2 ^ 32 + h / 2 ^ 31
unfolding rotate_left
rotate_left_lem h small =
    let nothing : h / 2 ^ 31 / 2 ≡ 0 = omega arith in
    let half = or_fields 32 0 (u32 (h <<< 1) / 2) (omega arith) in
    let digit = rw nothing at (bit_or_digit (u32 (h <<< 1)) (h >>> 31)) in
    omega (arith, half, digit)

rotate_left-IsU32 : (h : ℕ) → IsU32 h → IsU32 (rotate_left h)
rotate_left-IsU32 h small = omega (arith, rotate_left_lem h small)

rotate_left_injective : (h k : ℕ) → IsU32 h → IsU32 k → rotate_left h ≡ rotate_left k → h ≡ k
rotate_left_injective h k sh sk e = omega (arith, rotate_left_lem h sh, rotate_left_lem k sk, e)

pub mixed-IsU32 : (h w : ℕ) → IsU32 h → IsU32 w → IsU32 (mixed h w)
unfolding mixed
mixed-IsU32 h w sh sw = rotate_left-IsU32 (bit_xor h w) (xor_word h w sh sw)

pub mixed-hash : (h k w : ℕ) → IsU32 h → IsU32 k → IsU32 w → mixed h w ≡ mixed k w → h ≡ k
unfolding mixed
mixed-hash h k w sh sk sw e =
    let inner =
      rotate_left_injective (bit_xor h w) (bit_xor k w) (xor_word h w sh sw) (xor_word k w sk sw)
        e in
    sym (xor_cancel h w) ∙ ap (λ (x : ℕ). bit_xor x w) inner ∙ xor_cancel k w

pub mixed-word : (h v w : ℕ) → IsU32 h → IsU32 v → IsU32 w → mixed h v ≡ mixed h w → v ≡ w
unfolding mixed
mixed-word h v w sh sv sw e =
    let inner =
      rotate_left_injective (bit_xor h v) (bit_xor h w) (xor_word h v sh sv) (xor_word h w sh sw)
        e in
    let turned = xor_comm v h ∙ inner ∙ xor_comm h w in
    sym (xor_cancel v h) ∙ ap (λ (x : ℕ). bit_xor x h) turned ∙ xor_cancel w h

pub get_or-IsByte : (f : List ℕ) (i : ℕ) → All IsByte f → IsByte (get_or f i 0)
get_or-IsByte [] i h = omega arith
get_or-IsByte (b ∷ bs) zero h = h.0
get_or-IsByte (b ∷ bs) (suc i) h = get_or-IsByte bs i h.1

join_value :
    (a b c d : ℕ)
    → a < 256
    → b < 256
    → c < 256
    → d < 256
    → bit_or (bit_or (bit_or a (b * 2 ^ 8)) (c * 2 ^ 16)) (d * 2 ^ 24)
      ≡ a + b * 2 ^ 8 + c * 2 ^ 16 + d * 2 ^ 24
join_value a b c d ha hb hc hd =
    let two = or_fields 8 b a (omega arith) in
    let three = or_fields 16 c (a + b * 2 ^ 8) (omega arith) in
    let four = or_fields 24 d (a + b * 2 ^ 8 + c * 2 ^ 16) (omega arith) in rw (two, three) four

pub dword_at-IsU32 : (f : List ℕ) (i : ℕ) → All IsByte f → IsU32 (dword_at f i)
unfolding dword_at
dword_at-IsU32 f i h =
    let byte = λ (k : ℕ). get_or-IsByte f k h in
    let value =
      join_value (get_or f (i * 4) 0) (get_or f (i * 4 + 1) 0) (get_or f (i * 4 + 2) 0)
        (get_or f (i * 4 + 3) 0) (byte (i * 4)) (byte (i * 4 + 1)) (byte (i * 4 + 2))
        (byte (i * 4 + 3)) in
    omega (arith, value, byte (i * 4), byte (i * 4 + 1), byte (i * 4 + 2), byte (i * 4 + 3))

-- One turn of the first loop.
abbrev pub next : List ℕ → ℕ → ℕ → ℕ
next f i h = if i == 1 then h else mixed h (dword_at f i)

pub next-IsU32 : (f : List ℕ) (i h : ℕ) → All IsByte f → IsU32 h → IsU32 (next f i h)
next-IsU32 f i h bytes small =
    by_branch (λ (x : ℕ). IsU32 x) (i == 1) (λ _. small)
      (λ _. mixed-IsU32 h (dword_at f i) small (dword_at-IsU32 f i bytes))

pub next-same :
    (f g : List ℕ) (i h : ℕ) → (i ≢ 1 → dword_at f i ≡ dword_at g i) → next f i h ≡ next g i h
next-same f g i h same =
    by_branch (λ (x : ℕ). x ≡ next g i h) (i == 1)
      (λ second. sym (if_true (mixed h (dword_at g i)) second))
      (λ other.
        ap (mixed h) (same (λ e. absurd (ground (arith, other, e)))) ∙ sym (if_false h other))

pub dword_at-same :
    (f g : List ℕ) (j : ℕ)
    → ((i : ℕ) → i / 4 ≡ j → get_or f i 0 ≡ get_or g i 0)
    → dword_at f j ≡ dword_at g j
unfolding dword_at
dword_at-same f g j same =
    let byte = λ (k : ℕ) (small : k < 4). same (j * 4 + k) (omega arith) in
    rw
      (same (j * 4) (omega arith), byte 1 (omega arith), byte 2 (omega arith), byte 3 (omega arith))
      refl

pub next_injective :
    (f g : List ℕ) (i h k : ℕ)
    → All IsByte f
    → IsU32 h
    → IsU32 k
    → (i ≢ 1 → dword_at f i ≡ dword_at g i)
    → next f i h ≡ next g i k
    → h ≡ k
next_injective f g i h k bytes sh sk same e = elim (Bool-cases (i == 1)) [
  | inl second ↦
      sym (if_true (mixed h (dword_at f i)) second) ∙ e ∙ if_true (mixed k (dword_at g i)) second
  | inr other ↦ mixed-hash h k (dword_at f i) sh sk (dword_at-IsU32 f i bytes) (
      sym (if_false h other)
      ∙ e
      ∙ if_false k other
      ∙ ap (mixed k) (sym (same (λ second. absurd (ground (arith, other, second))))))
]

-- The bytes of a word.
pub dword_at-byte :
    (f : List ℕ) (j k : ℕ)
    → All IsByte f
    → k < 4
    → get_or f (j * 4 + k) 0 ≡ dword_at f j / 2 ^ (8 * k) % 256
unfolding dword_at
dword_at-byte f j k bytes small =
    let byte = λ (i : ℕ). get_or-IsByte f i bytes in
    let value =
      join_value (get_or f (j * 4) 0) (get_or f (j * 4 + 1) 0) (get_or f (j * 4 + 2) 0)
        (get_or f (j * 4 + 3) 0) (byte (j * 4)) (byte (j * 4 + 1)) (byte (j * 4 + 2))
        (byte (j * 4 + 3)) in
    rw value (digit k small (byte (j * 4)) (byte (j * 4 + 1)) (byte (j * 4 + 2)) (byte (j * 4 + 3)))
  where
    digit :
        (k : ℕ)
        → k < 4
        → IsByte (get_or f (j * 4) 0)
        → IsByte (get_or f (j * 4 + 1) 0)
        → IsByte (get_or f (j * 4 + 2) 0)
        → IsByte (get_or f (j * 4 + 3) 0)
        → get_or f (j * 4 + k) 0
          ≡ (get_or f (j * 4) 0
              + get_or f (j * 4 + 1) 0 * 2 ^ 8
              + get_or f (j * 4 + 2) 0 * 2 ^ 16
              + get_or f (j * 4 + 3) 0 * 2 ^ 24)
            / 2 ^ (8 * k)
            % 256
    digit zero h a b c d = let start : j * 4 + 0 ≡ j * 4 = omega arith in rw start (omega arith)
    digit (suc zero) h a b c d = omega arith
    digit (suc (suc zero)) h a b c d = omega arith
    digit (suc (suc (suc zero))) h a b c d = omega arith
    digit (suc (suc (suc (suc k)))) h a b c d = absurd (omega arith)

sign_extend-IsU32 : (b : ℕ) → IsByte b → IsU32 (sign_extend b)
sign_extend-IsU32 b h = ground arith

pub sign_extend_injective : (a b : ℕ) → IsByte a → IsByte b → sign_extend a ≡ sign_extend b → a ≡ b
sign_extend_injective a b ha hb e = ground (arith, e)

-- One turn of the second loop.
abbrev pub next_byte : List ℕ → ℕ → ℕ → ℕ
next_byte f pos h = mixed h (sign_extend (get_or f pos 0))

pub extended-IsU32 : (f : List ℕ) (pos : ℕ) → All IsByte f → IsU32 (sign_extend (get_or f pos 0))
extended-IsU32 f pos bytes = sign_extend-IsU32 (get_or f pos 0) (get_or-IsByte f pos bytes)

pub next_byte-IsU32 : (f : List ℕ) (pos h : ℕ) → All IsByte f → IsU32 h → IsU32 (next_byte f pos h)
next_byte-IsU32 f pos h bytes small =
    mixed-IsU32 h (sign_extend (get_or f pos 0)) small (extended-IsU32 f pos bytes)
