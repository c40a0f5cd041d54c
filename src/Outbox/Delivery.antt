-- ===== src/Outbox/Delivery.antt =====
-- From the outbox of the sender to the parser of the receiver.
use open_bc.Base.{ℕ, ◌≡◌, sym, ap, ◌∙◌, arith, some, map}
use open_bc.Base.{List, [], ◌∷◌, ◌++◌, length, take, All, IsByte}
use mathlib.Core.List.{append-nil}
use open_bc.Cipher.{alby_cipher_encrypt, alby_cipher_decrypt}
use open_bc.Cipher.Inverse.{decrypt-encrypt}
use open_bc.Outbox.{Outbox, flush}
use open_bc.Outbox.Queue.{Holds}
use open_bc.Outbox.Flush.{flush-packet, few_messages}
use open_bc.Transport.{Packet, parse_packet}
use open_bc.Transport.Wire.{Sent, Sendable, received, view}
use open_bc.Transport.Packets.{wires, packet, parse_packet-packet}

-- What the receiver of a datagram gets: it deciphers and parses, and the messages are `ms`.
pub record Receives (datagram : List ℕ) (ms : List Sent) : Type 0 where
  pub packet : Packet
  pub parses :
      parse_packet (alby_cipher_decrypt datagram) (length (alby_cipher_decrypt datagram))
      ≡ some packet
  pub direction : packet.direction ≡ 0x01
  pub messages : map (view (alby_cipher_decrypt datagram)) packet.msgs ≡ take 32 (map received ms)

packet-IsByte : (ms : List Sent) → All IsByte (wires ms) → All IsByte (packet 0x01 ms)
packet-IsByte ms h = (omega arith, (omega arith, h))

-- What an outbox holds is delivered: flushing it sends one datagram, and a receiver that deciphers and
-- parses it gets the first 32 of the messages, in order, with their payloads, kinds, flags and counters,
-- where the messages are ones that the parser reads and consist of bytes. The outbox is empty then.
pub flush-Receives :
    (o : Outbox) (m : Sent) (ms : List Sent)
    → Holds o (m ∷ ms)
    → All Sendable (m ∷ ms)
    → All IsByte (wires (m ∷ ms))
    → (datagram : List ℕ) × ((flush o).0 ≡ some datagram)
      × Receives datagram (m ∷ ms)
      × Holds (flush o).1 []
flush-Receives o m ms h s bytes = (
  alby_cipher_encrypt (packet 0x01 (m ∷ ms)),
  (flush-packet o m ms h).0,
  record {
    packet = got.0;
    parses =
        ap (λ l. parse_packet l (length l)) plain
        ∙ ap (λ l. parse_packet l (length (packet 0x01 (m ∷ ms))))
            (sym (append-nil (packet 0x01 (m ∷ ms))))
        ∙ got.1;
    direction = got.2;
    messages = ap (λ l. map (view l) got.0.msgs) clear ∙ got.3;
  },
  (flush-packet o m ms h).1,
)
  where
    plain : alby_cipher_decrypt (alby_cipher_encrypt (packet 0x01 (m ∷ ms))) ≡ packet 0x01 (m ∷ ms)
    plain = decrypt-encrypt (packet 0x01 (m ∷ ms)) (packet-IsByte (m ∷ ms) bytes)

    clear :
        alby_cipher_decrypt (alby_cipher_encrypt (packet 0x01 (m ∷ ms)))
        ≡ packet 0x01 (m ∷ ms) ++ []
    clear = plain ∙ sym (append-nil (packet 0x01 (m ∷ ms)))

    got :
        (p : Packet) × (parse_packet (packet 0x01 (m ∷ ms) ++ []) (length (packet 0x01 (m ∷ ms)))
          ≡ some p)
        × (p.direction ≡ 0x01)
        × (map (view (packet 0x01 (m ∷ ms) ++ [])) p.msgs ≡ take 32 (map received (m ∷ ms)))
    got =
        parse_packet-packet 0x01 (m ∷ ms) [] s
          (omega (arith, few_messages (m ∷ ms), h.ends, h.inside))
