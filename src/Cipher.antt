-- ===== src/Cipher.antt =====
-- The AlbyRules stream cipher, src/shared/protocol/cipher.c.
-- An `int` and an `unsigned int` are 32-bit patterns. The C code lets `int` products overflow; the
-- model wraps them, as the supported compilers do. The fields temp_a, temp_c and temp_d of
-- `cipher_state_t` are never read or written and are left out.
pub mod Inverse
mod Tests
use open_bc.Base.{ℕ, zero, suc, ◌+◌, ◌-◌, ◌*◌, List, [], ◌∷◌, map, bit_xor, u8, u32, low, ◌>>>◌}
use open_bc.Base.{leb, if◌then◌else◌, sign_extend, get_or, set, length}

-- `ALBY_KEY`: "AlbyRules!"
abbrev pub alby_key : List ℕ
alby_key = 65 ∷ 108 ∷ 98 ∷ 121 ∷ 82 ∷ 117 ∷ 108 ∷ 101 ∷ 115 ∷ 33 ∷ []

pub record CipherState : Type 0 where
  pub state_a : ℕ
  pub running_sum : ℕ
  pub key_word : List ℕ
  pub prng_output : ℕ
  pub round_counter : ℕ
  pub accumulator : ℕ
  pub key_string : List ℕ
  pub byte_state : ℕ

pub cipher_reset : CipherState
cipher_reset = record {
  state_a = 0;
  running_sum = 0;
  key_word = 0 ∷ 0 ∷ 0 ∷ 0 ∷ 0 ∷ [];
  prng_output = 0;
  round_counter = 0;
  accumulator = 0;
  key_string = alby_key;
  byte_state = 0;
}

pub cipher_prng_step : CipherState → CipherState
cipher_prng_step s =
    let rnd = s.round_counter in
    let kw = get_or s.key_word rnd 0 in
    let mix = u32 (s.running_sum + rnd) in
    let cross1 = u32 (mix * 0x4e35) in
    let cross2 = u32 (kw * 0x15a) in
    let new_rsum = u32 (s.state_a + cross1 + cross2) in
    let new_kw = u32 (kw * 0x4e35 + 1) in
    record s {
      running_sum = new_rsum;
      state_a = cross2;
      key_word = set s.key_word rnd new_kw;
      prng_output = bit_xor new_rsum new_kw;
      round_counter = rnd + 1;
    }

-- `(unsigned)k[i] * 256 + k[i + 1]`
key_pair : CipherState → ℕ → ℕ
key_pair s i = get_or s.key_string i 0 * 256 + get_or s.key_string (i + 1) 0

-- Rounds 1 to 4: the next key word is a pair of key bytes over the word before it.
pub next_round : ℕ → CipherState → CipherState
unfolding key_pair
next_round i s =
    let word = bit_xor (key_pair s (2 * i)) (get_or s.key_word (i - 1) 0) in
    let s' = cipher_prng_step (record s { key_word = set s.key_word i word }) in
    record s' { accumulator = bit_xor s'.accumulator s'.prng_output }

pub first_round : CipherState → CipherState
unfolding key_pair
first_round s =
    let s' = cipher_prng_step (record s { key_word = set s.key_word 0 (key_pair s 0) }) in
    record s' { accumulator = s'.prng_output }

pub cipher_key_schedule : CipherState → CipherState
cipher_key_schedule s =
    let s' = next_round 4 (next_round 3 (next_round 2 (next_round 1 (first_round s)))) in
    record s' { round_counter = 0 }

-- `byte_state ^ (accumulator & 0xFF) ^ (accumulator >> 8)`
pub mask_byte : CipherState → ℕ
mask_byte s = bit_xor (bit_xor s.byte_state (low 8 s.accumulator)) (s.accumulator >>> 8)

-- `for (j = 0; j < 10; j++) key_string[j] ^= b`
pub feed_key : ℕ → CipherState → CipherState
feed_key b s = record s { key_string = map (λ k. bit_xor k b) s.key_string }

-- The loops of `encrypt_payload` and `decrypt_payload`, from the state that has been reached.
pub encrypt_loop : CipherState → List ℕ → List ℕ
encrypt_loop s [] = []
encrypt_loop s (b ∷ bs) =
    let s' = cipher_key_schedule (record s { byte_state = sign_extend b }) in
    let out = mask_byte s' in u8 out ∷ encrypt_loop (feed_key b (record s' { byte_state = out })) bs

pub decrypt_loop : CipherState → List ℕ → List ℕ
decrypt_loop s [] = []
decrypt_loop s (b ∷ bs) =
    let s' = cipher_key_schedule (record s { byte_state = sign_extend b }) in
    let out = mask_byte s' in
    u8 out ∷ decrypt_loop (feed_key (u8 out) (record s' { byte_state = out })) bs

pub encrypt_payload : List ℕ → List ℕ
encrypt_payload bytes = encrypt_loop cipher_reset bytes

pub decrypt_payload : List ℕ → List ℕ
decrypt_payload bytes = decrypt_loop cipher_reset bytes

-- Byte 0, the direction flag, stays clear; a packet of one byte or none is left alone.
pub alby_cipher_encrypt : List ℕ → List ℕ
alby_cipher_encrypt [] = []
alby_cipher_encrypt (d ∷ bytes) =
    if leb (length (d ∷ bytes)) 1 then d ∷ bytes else d ∷ encrypt_payload bytes

pub alby_cipher_decrypt : List ℕ → List ℕ
alby_cipher_decrypt [] = []
alby_cipher_decrypt (d ∷ bytes) =
    if leb (length (d ∷ bytes)) 1 then d ∷ bytes else d ∷ decrypt_payload bytes
