-- ===== src/Cipher/Tests.antt =====
-- Runs of the cipher, and its theorems at concrete packets.
use open_bc.Base.{ℕ, ◌≡◌, refl, List, [], ◌∷◌, arith}
use open_bc.Cipher.{
  alby_cipher_encrypt, alby_cipher_decrypt, encrypt_payload, encrypt_loop, cipher_reset,
}
use open_bc.Cipher.{
  cipher_key_schedule, first_round, next_round, cipher_prng_step, mask_byte, feed_key,
}
use open_bc.Cipher.Inverse.{decrypt-encrypt}

-- A game message of opcode 0x14 behind the direction byte of the server.
abbrev packet : List ℕ
packet = 0x01 ∷ 0x14 ∷ 0x00 ∷ 0xff ∷ 0x3f ∷ []

-- Equal plaintext bytes at different places become different ciphertext.
not_simple_xor : alby_cipher_encrypt (1 ∷ 7 ∷ 7 ∷ 7 ∷ []) ≡ 1 ∷ 209 ∷ 191 ∷ 51 ∷ []
unfolding alby_cipher_encrypt encrypt_payload encrypt_loop cipher_reset cipher_key_schedule
    first_round next_round cipher_prng_step mask_byte feed_key
not_simple_xor = refl

decrypt-encrypt_example : alby_cipher_decrypt (alby_cipher_encrypt packet) ≡ packet
decrypt-encrypt_example = decrypt-encrypt packet (omega arith)
