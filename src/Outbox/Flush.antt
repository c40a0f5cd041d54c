-- ===== src/Outbox/Flush.antt =====
-- Flushing an outbox: the packet of the messages that it holds, and an empty outbox.
use open_bc.Base.{
  ℕ, suc, ◌+◌, ◌*◌, ◌≤◌, ◌≡◌, refl, sym, ap, subst, ◌∙◌, arith, true, false, none, some,
  if◌then◌else◌, ltb, ◌==◌,
}
use open_bc.Base.{
  List, [], ◌∷◌, ◌++◌, length, length-append, length-set, length-take, take, drop, set, u8, copy_at,
  overwrite_all, take_of_append, replicate,
}
use mathlib.Core.List.{append-nil}
use open_bc.Cipher.{alby_cipher_encrypt}
use open_bc.Outbox.{Outbox, max_packet_size, outbox_init, flush_to_buf, flush, datagram}
use open_bc.Outbox.Queue.{Holds}
use open_bc.Transport.Wire.{Sent, wire}
use open_bc.Transport.Packets.{wires, packet}

pub outbox_init-Holds : (o : Outbox) → length o.buf ≡ max_packet_size → Holds (outbox_init o) []
unfolding outbox_init
outbox_init-Holds o e = record {
  storage = e;
  header = take 2 o.buf;
  header_size = omega (arith, length-take 2 o.buf, e);
  stored = sym (append-nil (take 2 o.buf));
  ends = omega arith;
  inside = omega arith;
  count = refl;
}

two_bytes : (m : Sent) → 2 ≤ length (wire m)
two_bytes m = ground arith

-- No packet has more messages than its count byte can say.
pub few_messages : (ms : List Sent) → 2 * length ms ≤ length (wires ms)
few_messages [] = omega arith
few_messages (m ∷ ms) =
    omega (arith, two_bytes m, few_messages ms, length-append (wire m) (wires ms))

-- The header's two bytes are filled in.
fill_header :
    (buf header ws : List ℕ) (k a b : ℕ)
    → length header ≡ 2
    → 2 + k ≤ length buf
    → take (suc (suc k)) buf ≡ header ++ ws
    → take (suc (suc k)) (set (set buf 0 a) 1 b) ≡ a ∷ b ∷ ws
fill_header [] header ws k a b h few e = absurd (omega arith)
fill_header (x ∷ []) header ws k a b h few e = absurd (omega arith)
fill_header (x ∷ y ∷ r) [] ws k a b h few e = absurd (omega arith)
fill_header (x ∷ y ∷ r) (u ∷ []) ws k a b h few e = absurd (omega arith)
fill_header (x ∷ y ∷ r) (u ∷ v ∷ w ∷ hs) ws k a b h few e = absurd (omega arith)
fill_header (x ∷ y ∷ r) (u ∷ v ∷ []) ws k a b h few e = ap (λ l. a ∷ b ∷ drop 2 l) e

header_filled :
    {o : Outbox} {ms : List Sent}
    → Holds o ms
    → take o.pos (set (set o.buf 0 0x01) 1 (u8 o.msg_count)) ≡ packet 0x01 ms
header_filled {o} {ms} h =
    let two_behind : o.pos ≡ suc (suc (length (wires ms))) = omega (arith, h.ends) in
    rw (two_behind, h.count)
      (fill_header o.buf h.header (wires ms) (length (wires ms)) 0x01 (u8 (length ms)) h.header_size
        (omega (arith, h.storage, h.ends, h.inside))
        (ap (λ n. take n o.buf) (sym two_behind) ∙ h.stored))

-- Where the array has room, flushing an outbox with messages returns the length of their packet, leaves
-- the packet in front of the array's old bytes, and empties the outbox.
pub flush_to_buf-packet :
    (o : Outbox) (m : Sent) (ms : List Sent) (out : List ℕ)
    → Holds o (m ∷ ms)
    → length (packet 0x01 (m ∷ ms)) ≤ length out
    → flush_to_buf out (length out) o ≡ (
      some (length (packet 0x01 (m ∷ ms))),
      packet 0x01 (m ∷ ms) ++ drop (length (packet 0x01 (m ∷ ms))) out,
      record { buf = set (set o.buf 0 0x01) 1 (u8 o.msg_count); pos = 2; msg_count = 0 },
    )
unfolding flush_to_buf outbox_init
flush_to_buf-packet o m ms out h room =
    let some_pending : (o.msg_count == 0) ≡ false = ground (arith, h.count) in
    let size : o.pos ≡ length (packet 0x01 (m ∷ ms)) = omega (arith, h.ends) in
    let fits : ltb (length out) o.pos ≡ false = ground (arith, size) in
    rw (some_pending, fits)
      (λ i. (
        some (size i),
        (ap (λ l. copy_at out 0 l) (header_filled h)
              ∙ overwrite_all out (packet 0x01 (m ∷ ms)) room)
            i,
        record { buf = set (set o.buf 0 0x01) 1 (u8 o.msg_count); pos = 2; msg_count = 0 },
      ))

-- An outbox with messages is flushed as one datagram, their packet enciphered, and holds no message then.
pub flush-packet :
    (o : Outbox) (m : Sent) (ms : List Sent)
    → Holds o (m ∷ ms)
    → ((flush o).0 ≡ some (alby_cipher_encrypt (packet 0x01 (m ∷ ms)))) × Holds (flush o).1 []
unfolding flush outbox_init
flush-packet o m ms h =
    (ap (λ r. r.0) sent, subst (λ r. Holds r []) (ap (λ r. r.1) (sym sent)) empty)
  where
    len : ℕ
    len = length (packet 0x01 (m ∷ ms))

    storage : List ℕ
    storage = replicate max_packet_size 0

    after : Outbox
    after = record { buf = set (set o.buf 0 0x01) 1 (u8 o.msg_count); pos = 2; msg_count = 0 }

    some_pending : (o.msg_count == 0) ≡ false
    some_pending = ground (arith, h.count)

    nonempty : ltb 0 len ≡ true
    nonempty = ground arith

    flushed :
        flush_to_buf storage max_packet_size o
        ≡ (some len, packet 0x01 (m ∷ ms) ++ drop len storage, after)
    flushed = flush_to_buf-packet o m ms storage h (omega (arith, h.ends, h.inside))

    sent : flush o ≡ (some (alby_cipher_encrypt (packet 0x01 (m ∷ ms))), after)
    sent =
        ap (λ t. if t then (none, o) else datagram (flush_to_buf storage max_packet_size o))
          some_pending
        ∙ ap datagram flushed
        ∙ ap
            (λ t. (
              if t
                  then some
                      (alby_cipher_encrypt (take len (packet 0x01 (m ∷ ms) ++ drop len storage)))
                  else none,
              after,
            ))
            nonempty
        ∙ ap (λ l. (some (alby_cipher_encrypt l), after))
            (take_of_append (packet 0x01 (m ∷ ms)) _ _ refl)

    empty : Holds after []
    empty =
        outbox_init-Holds after
          (length-set (set o.buf 0 0x01) 1 _ ∙ length-set o.buf 0 0x01 ∙ h.storage)
