-- ===== src/Checksum/Detect.antt =====
-- Which changes of a file its hash shows.
use open_bc.Base.{
  ℕ, zero, suc, ◌+◌, ◌*◌, ◌/◌, ◌%◌, ◌^◌, ◌≤◌, ◌<◌, ◌≡◌, ◌≢◌, ◌⊎◌, inl, inr, refl, sym, ap, subst,
  ◌∙◌, arith,
}
use open_bc.Base.{List, All, ltb, Bool-cases, IsByte, IsU32, length, get_or, ◌==◌, if_false, false}
use open_bc.Base.{sign_extend}
use open_bc.Checksum.{mixed, dword_at, hash_dwords, hash_tail, file_hash}
use open_bc.Checksum.Turn.{
  mixed-hash, mixed-word, get_or-IsByte, dword_at-IsU32, next, next-IsU32, next-same,
  next_injective, dword_at-same, dword_at-byte, sign_extend_injective, next_byte, extended-IsU32,
  next_byte-IsU32,
}

-- Two files of one length with the same byte at each place that `P` holds of.
pub record SameWhere (P : ℕ → Type 0) (f g : List ℕ) : Type 0 where
  pub size : length f ≡ length g
  pub same : (i : ℕ) → P i → get_or f i 0 ≡ get_or g i 0

hash_dwords-same :
    (f g : List ℕ) (turns i h : ℕ)
    → ((j : ℕ) → j < i + turns → j ≢ 1 → dword_at f j ≡ dword_at g j)
    → hash_dwords f i turns h ≡ hash_dwords g i turns h
unfolding hash_dwords
hash_dwords-same f g zero i h same = refl
hash_dwords-same f g (suc turns) i h same =
    ap (hash_dwords f (suc i) turns) (next-same f g i h (same i (omega arith)))
    ∙ hash_dwords-same f g turns (suc i) (next g i h) (λ j le. same j (omega (arith, le)))

hash_tail-same :
    (f g : List ℕ) (turns pos h : ℕ)
    → ((i : ℕ) → pos ≤ i → get_or f i 0 ≡ get_or g i 0)
    → hash_tail f pos turns h ≡ hash_tail g pos turns h
unfolding hash_tail
hash_tail-same f g zero pos h same = refl
hash_tail-same f g (suc turns) pos h same =
    ap (λ (b : ℕ). hash_tail f (suc pos) turns (mixed h (sign_extend b))) (same pos (omega arith))
    ∙ hash_tail-same f g turns (suc pos) (mixed h (sign_extend (get_or g pos 0)))
        (λ i le. same i (omega arith))

-- Two files of one length, of eight bytes or more, that differ in bytes 4 to 7 at most, where a compiled script
-- has its time stamp, have one hash.
pub file_hash-timestamp :
    (f g : List ℕ)
    → 8 ≤ length g
    → SameWhere (λ i. (i < 4) ⊎ (8 ≤ i)) f g
    → file_hash f ≡ file_hash g
unfolding file_hash
file_hash-timestamp f g long h = rw h.size (
    ap (hash_tail f (length g / 4 * 4) (length g % 4)) (
      hash_dwords-same f g (length g / 4) 0 0
        (λ j _ other. dword_at-same f g j (λ i e. h.same i (outside i j other e))))
    ∙ hash_tail-same f g (length g % 4) (length g / 4 * 4) (hash_dwords g 0 (length g / 4) 0)
        (λ i le. h.same i (inr (omega (arith, le)))))
  where
    outside : (i j : ℕ) → j ≢ 1 → i / 4 ≡ j → (i < 4) ⊎ (8 ≤ i)
    outside i j other e = ground (arith, other, e)

-- Files whose words are the same from `i` on keep different hashes apart.
hash_dwords_injective :
    (f g : List ℕ) (turns i h k : ℕ)
    → All IsByte f
    → All IsByte g
    → IsU32 h
    → IsU32 k
    → ((j : ℕ) → i ≤ j → dword_at f j ≡ dword_at g j)
    → hash_dwords f i turns h ≡ hash_dwords g i turns k
    → h ≡ k
unfolding hash_dwords
hash_dwords_injective f g zero i h k bf bg sh sk same e = e
hash_dwords_injective f g (suc turns) i h k bf bg sh sk same e =
    next_injective f g i h k bf sh sk (λ _. same i (omega arith))
      (hash_dwords_injective f g turns (suc i) (next f i h) (next g i k) bf bg
        (next-IsU32 f i h bf sh) (next-IsU32 g i k bg sk) (λ j le. same j (omega arith)) e)

hash_dwords-IsU32 :
    (f : List ℕ) (turns i h : ℕ) → All IsByte f → IsU32 h → IsU32 (hash_dwords f i turns h)
unfolding hash_dwords
hash_dwords-IsU32 f zero i h bytes small = small
hash_dwords-IsU32 f (suc turns) i h bytes small =
    hash_dwords-IsU32 f turns (suc i) (next f i h) bytes (next-IsU32 f i h bytes small)

-- The one word that may differ is found.
hash_dwords_finds :
    (f g : List ℕ) (turns i h at_word : ℕ)
    → All IsByte f
    → All IsByte g
    → IsU32 h
    → i ≤ at_word
    → at_word < i + turns
    → at_word ≢ 1
    → ((j : ℕ) → j ≢ at_word → dword_at f j ≡ dword_at g j)
    → hash_dwords f i turns h ≡ hash_dwords g i turns h
    → dword_at f at_word ≡ dword_at g at_word
unfolding hash_dwords
hash_dwords_finds f g zero i h at_word bf bg sh le lt used same e = absurd (omega arith)
hash_dwords_finds f g (suc turns) i h at_word bf bg sh le lt used same e =
    elim (Bool-cases (i == at_word)) [
      | inl here ↦
          let place : i ≡ at_word = ground (arith, here) in
          let unused : (i == 1) ≡ false = ground (arith, place, used) in
          let after =
            hash_dwords_injective f g turns (suc i) (next f i h) (next g i h) bf bg
              (next-IsU32 f i h bf sh) (next-IsU32 g i h bg sh)
              (λ j later. same j (λ eq. absurd (omega (arith, later, eq, place)))) e in
          subst (λ (j : ℕ). dword_at f j ≡ dword_at g j) place
            (mixed-word h (dword_at f i) (dword_at g i) sh (dword_at-IsU32 f i bf)
              (dword_at-IsU32 g i bg) (sym (if_false h unused) ∙ after ∙ if_false h unused))
      | inr elsewhere ↦
          let further : i ≢ at_word = λ eq. absurd (ground (arith, elsewhere, eq)) in
          hash_dwords_finds f g turns (suc i) (next g i h) at_word bf bg (next-IsU32 g i h bg sh)
            (ground (arith, le, further)) (omega arith) used same
            (ap (hash_dwords f (suc i) turns) (sym (next-same f g i h (λ _. same i further))) ∙ e)
    ]

hash_tail_injective :
    (f g : List ℕ) (turns pos h k : ℕ)
    → All IsByte f
    → All IsByte g
    → IsU32 h
    → IsU32 k
    → ((i : ℕ) → pos ≤ i → get_or f i 0 ≡ get_or g i 0)
    → hash_tail f pos turns h ≡ hash_tail g pos turns k
    → h ≡ k
unfolding hash_tail
hash_tail_injective f g zero pos h k bf bg sh sk same e = e
hash_tail_injective f g (suc turns) pos h k bf bg sh sk same e =
    let after =
      hash_tail_injective f g turns (suc pos) (next_byte f pos h) (next_byte g pos k) bf bg
        (next_byte-IsU32 f pos h bf sh) (next_byte-IsU32 g pos k bg sk)
        (λ i le. same i (omega arith)) e in
    mixed-hash h k (sign_extend (get_or f pos 0)) sh sk (extended-IsU32 f pos bf)
      (after ∙ ap (λ (b : ℕ). mixed k (sign_extend b)) (sym (same pos (omega arith))))

hash_tail_finds :
    (f g : List ℕ) (turns pos h p : ℕ)
    → All IsByte f
    → All IsByte g
    → IsU32 h
    → pos ≤ p
    → p < pos + turns
    → ((i : ℕ) → i ≢ p → get_or f i 0 ≡ get_or g i 0)
    → hash_tail f pos turns h ≡ hash_tail g pos turns h
    → get_or f p 0 ≡ get_or g p 0
unfolding hash_tail
hash_tail_finds f g zero pos h p bf bg sh le lt same e = absurd (omega arith)
hash_tail_finds f g (suc turns) pos h p bf bg sh le lt same e = elim (Bool-cases (pos == p)) [
  | inl here ↦
      let place : pos ≡ p = ground (arith, here) in
      let after =
        hash_tail_injective f g turns (suc pos) (next_byte f pos h) (next_byte g pos h) bf bg
          (next_byte-IsU32 f pos h bf sh) (next_byte-IsU32 g pos h bg sh)
          (λ i later. same i (λ eq. absurd (omega (arith, later, eq, place)))) e in
      subst (λ (i : ℕ). get_or f i 0 ≡ get_or g i 0) place
        (sign_extend_injective (get_or f pos 0) (get_or g pos 0) (get_or-IsByte f pos bf)
          (get_or-IsByte g pos bg)
          (mixed-word h (sign_extend (get_or f pos 0)) (sign_extend (get_or g pos 0)) sh
            (extended-IsU32 f pos bf) (extended-IsU32 g pos bg) after))
  | inr elsewhere ↦
      let further : pos ≢ p = λ eq. absurd (ground (arith, elsewhere, eq)) in
      hash_tail_finds f g turns (suc pos) (next_byte g pos h) p bf bg
        (next_byte-IsU32 g pos h bg sh) (ground (arith, le, further)) (omega arith) same
        (ap (λ (b : ℕ). hash_tail f (suc pos) turns (mixed h (sign_extend b)))
            (sym (same pos further))
          ∙ e)
]

zero-IsU32 : IsU32 0
zero-IsU32 = omega arith

-- A change of one byte of a file, outside bytes 4 to 7, always changes its hash.
pub file_hash-detects :
    (f g : List ℕ) (p : ℕ)
    → All IsByte f
    → All IsByte g
    → (p < 4) ⊎ (8 ≤ p)
    → p < length g
    → SameWhere (λ i. i ≢ p) f g
    → get_or f p 0 ≢ get_or g p 0
    → file_hash f ≢ file_hash g
unfolding file_hash
file_hash-detects f g p bf bg used inside h differs e =
    differs (elim (Bool-cases (ltb p (words * 4))) [
      | inl in_words ↦
          let before : p < words * 4 = ground (arith, in_words) in
          let hashes =
            hash_tail_injective f g (length g % 4) (words * 4) (hash_dwords f 0 words 0)
              (hash_dwords g 0 words 0) bf bg (hash_dwords-IsU32 f words 0 0 bf zero-IsU32)
              (hash_dwords-IsU32 g words 0 0 bg zero-IsU32)
              (λ i le. h.same i (λ eq. absurd (omega (arith, le, before, eq)))) whole in
          let word =
            hash_dwords_finds f g words 0 0 (p / 4) bf bg zero-IsU32 (omega arith)
              (omega (arith, before)) (ground (arith, used))
              (λ j other.
                dword_at-same f g j
                  (λ i at. h.same i (λ eq. other (sym at ∙ ap (λ (x : ℕ). x / 4) eq))))
              hashes in
          subst (λ (i : ℕ). get_or f i 0 ≡ get_or g i 0) place
            (dword_at-byte f (p / 4) (p % 4) bf (omega arith)
              ∙ ap (λ (w : ℕ). w / 2 ^ (8 * (p % 4)) % 256) word
              ∙ sym (dword_at-byte g (p / 4) (p % 4) bg (omega arith)))
      | inr in_tail ↦
          let behind : words * 4 ≤ p = ground (arith, in_tail) in
          let same_words = hash_dwords-same f g words 0 0 (λ j le _.
            dword_at-same f g j
              (λ i at. h.same i (λ eq. absurd (omega (arith, le, at, eq, behind))))) in
          hash_tail_finds f g (length g % 4) (words * 4) (hash_dwords g 0 words 0) p bf bg
            (hash_dwords-IsU32 g words 0 0 bg zero-IsU32) behind (omega (arith, inside)) h.same
            (ap (hash_tail f (words * 4) (length g % 4)) (sym same_words) ∙ whole)
    ])
  where
    words : ℕ
    words = length g / 4

    place : p / 4 * 4 + p % 4 ≡ p
    place = omega arith

    whole :
        hash_tail f (words * 4) (length g % 4) (hash_dwords f 0 words 0)
        ≡ hash_tail g (words * 4) (length g % 4) (hash_dwords g 0 words 0)
    whole =
        ap (λ (n : ℕ). hash_tail f (n / 4 * 4) (n % 4) (hash_dwords f 0 (n / 4) 0)) (sym h.size) ∙ e
