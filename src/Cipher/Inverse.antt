-- ===== src/Cipher/Inverse.antt =====
-- Decryption against encryption. Every plaintext byte changes the key.
use open_bc.Base.{ℕ, ◌/◌, ◌%◌, ◌<◌, ◌≡◌, refl, ap, ◌∙◌}
use open_bc.Base.{List, [], ◌∷◌, bit_xor, arith, u8, low, ◌>>>◌, sign_extend, All, IsByte}
use open_bc.Base.Bits.{xor_cancel, xor_swap, xor-low_byte}
use open_bc.Cipher.{CipherState, cipher_reset, cipher_prng_step, first_round, next_round}
use open_bc.Cipher.{cipher_key_schedule, mask_byte, feed_key, encrypt_loop, decrypt_loop}
use open_bc.Cipher.{encrypt_payload, decrypt_payload, alby_cipher_encrypt, alby_cipher_decrypt}

-- `byte_state` is only passed on by the key schedule.
key_schedule-byte_state :
    (s : CipherState) (b : ℕ)
    → cipher_key_schedule (record s { byte_state = b })
      ≡ record (cipher_key_schedule s) { byte_state = b }
unfolding cipher_key_schedule first_round next_round cipher_prng_step
key_schedule-byte_state s b = refl

u8-sign_extend : (b : ℕ) → b < 256 → u8 (sign_extend b) ≡ b
u8-sign_extend b h = ground arith

-- What the mask turns `b` into, as an `int` and as a byte.
abbrev raw : ℕ → ℕ → ℕ
raw acc b = bit_xor (bit_xor (sign_extend b) (low 8 acc)) (acc >>> 8)

abbrev masked : ℕ → ℕ → ℕ
masked acc b = u8 (raw acc b)

masked_byte :
    (acc b : ℕ) → b < 256 → masked acc b ≡ bit_xor (bit_xor b (acc % 256)) (acc / 256 % 256)
masked_byte acc b h =
    xor-low_byte (bit_xor (sign_extend b) (low 8 acc)) (acc >>> 8)
    ∙ ap (λ (x : ℕ). bit_xor x (acc / 256 % 256)) inner
  where
    low_low : low 8 acc % 256 ≡ acc % 256
    low_low = omega arith

    inner : bit_xor (sign_extend b) (low 8 acc) % 256 ≡ bit_xor b (acc % 256)
    inner = xor-low_byte (sign_extend b) (low 8 acc) ∙ rw (u8-sign_extend b h, low_low) refl

masked-IsByte : (acc b : ℕ) → masked acc b < 256
masked-IsByte acc b = omega arith

masked_twice : (acc b : ℕ) → b < 256 → masked acc (masked acc b) ≡ b
masked_twice acc b h =
    masked_byte acc (masked acc b) (masked-IsByte acc b)
    ∙ rw
        (
          masked_byte acc b h,
          xor_swap (bit_xor b (acc % 256)) (acc / 256 % 256) (acc % 256),
          xor_cancel b (acc % 256),
        )
        (xor_cancel b (acc / 256 % 256))

-- One byte: what the loops store, and the state that the next byte meets.
module _ (s : CipherState) (y b : ℕ) (bs : List ℕ) where
  abbrev keyed : CipherState
  keyed = cipher_key_schedule s

  abbrev after : ℕ → CipherState
  after key = feed_key key (record keyed { byte_state = raw keyed.accumulator b })

  encrypt_step :
      encrypt_loop (record s { byte_state = y }) (b ∷ bs)
      ≡ masked keyed.accumulator b ∷ encrypt_loop (after b) bs
  unfolding encrypt_loop mask_byte
  encrypt_step = rw key_schedule-byte_state refl

  decrypt_step :
      decrypt_loop (record s { byte_state = y }) (b ∷ bs)
      ≡ masked keyed.accumulator b ∷ decrypt_loop (after (masked keyed.accumulator b)) bs
  unfolding decrypt_loop mask_byte
  decrypt_step = rw key_schedule-byte_state refl

decrypt-encrypt_loop :
    (bs : List ℕ) (s : CipherState) (x y : ℕ)
    → All IsByte bs
    → decrypt_loop (record s { byte_state = y }) (encrypt_loop (record s { byte_state = x }) bs)
      ≡ bs
unfolding feed_key
decrypt-encrypt_loop [] s x y h = unfold encrypt_loop decrypt_loop in refl
decrypt-encrypt_loop (b ∷ bs) s x y (hb, hbs) =
    let keys = cipher_key_schedule s in
    let c = masked keys.accumulator b in
    rw (encrypt_step s x b bs, decrypt_step s y c _, masked_twice keys.accumulator b hb)
      (ap (λ r. b ∷ r)
        (decrypt-encrypt_loop bs (feed_key b keys) (raw keys.accumulator b) (raw keys.accumulator c)
          hbs))

-- The guard on the length makes no difference: the loop over no bytes does nothing.
pub encrypt_packet : (d : ℕ) (bs : List ℕ) → alby_cipher_encrypt (d ∷ bs) ≡ d ∷ encrypt_payload bs
unfolding alby_cipher_encrypt encrypt_payload encrypt_loop
encrypt_packet d [] = refl
encrypt_packet d (b ∷ bs) = ground arith

pub decrypt_packet : (d : ℕ) (bs : List ℕ) → alby_cipher_decrypt (d ∷ bs) ≡ d ∷ decrypt_payload bs
unfolding alby_cipher_decrypt decrypt_payload decrypt_loop
decrypt_packet d [] = refl
decrypt_packet d (b ∷ bs) = ground arith

-- On every packet of bytes, `alby_cipher_decrypt` gives back what `alby_cipher_encrypt` was given.
pub decrypt-encrypt :
    (packet : List ℕ)
    → All IsByte packet
    → alby_cipher_decrypt (alby_cipher_encrypt packet) ≡ packet
unfolding encrypt_payload decrypt_payload cipher_reset
decrypt-encrypt [] h = unfold alby_cipher_encrypt alby_cipher_decrypt in refl
decrypt-encrypt (d ∷ bs) h =
    rw (encrypt_packet, decrypt_packet)
      (ap (λ r. d ∷ r) (decrypt-encrypt_loop bs cipher_reset 0 0 h.1))
