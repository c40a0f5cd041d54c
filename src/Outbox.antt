-- ===== src/Outbox.antt =====
-- The outbox of src/server/network/transport.c, which gathers messages into one packet for a peer.
-- `int` fields hold small naturals; the socket of `bc_outbox_flush` is outside the model, which answers
-- the datagram handed to `bc_socket_send`.
pub mod Queue
pub mod Flush
pub mod Delivery
mod Tests
use open_bc.Base.{ℕ, ◌+◌, Bool, true, false, Option, none, some, List, [], ◌∷◌}
use open_bc.Base.{ltb, ◌==◌, if◌then◌else◌, u8, low, ◌>>>◌, set, take, copy_at, replicate}
use open_bc.Transport.{dir_server, type_keepalive, type_ack, type_reliable}
use open_bc.Cipher.{alby_cipher_encrypt}

-- `bc_outbox_t`
pub record Outbox : Type 0 where
  pub buf : List ℕ
  pub pos : ℕ
  pub msg_count : ℕ

-- `BC_MAX_PACKET_SIZE`
abbrev pub max_packet_size : ℕ
max_packet_size = 512

pub outbox_init : Outbox → Outbox
outbox_init o = record o { pos = 2; msg_count = 0 }

-- `buf[pos++] = v`
abbrev pub push : ℕ → Outbox → Outbox
push v o = record o { buf = set o.buf o.pos v; pos = o.pos + 1 }

-- `memcpy(buf + pos, payload, len); pos += len;`
abbrev pub push_payload : List ℕ → ℕ → Outbox → Outbox
push_payload payload len o = record o {
  buf = copy_at o.buf o.pos (take len payload);
  pos = o.pos + len;
}

abbrev pub counted : Outbox → Outbox
counted o = record o { msg_count = o.msg_count + 1 }

-- A message of `msg_len` bytes is refused where the packet has no room for it.
abbrev pub if_room : ℕ → Outbox → Outbox → Bool × Outbox
if_room msg_len o o' = if ltb max_packet_size (o.pos + msg_len) then (false, o) else (true, o')

-- So is one whose length does not fit in its length byte.
abbrev pub if_short : ℕ → Outbox → Outbox → Bool × Outbox
if_short msg_len o o' =
    if ltb max_packet_size (o.pos + msg_len)
    then (false, o)
    else if ltb 255 msg_len
    then (false, o)
    else (true, o')

pub add_unreliable : List ℕ → ℕ → Outbox → Bool × Outbox
add_unreliable payload len o =
    if_short (3 + len) o
      (counted (push_payload payload len (push 0x00 (push (u8 (3 + len)) (push type_reliable o)))))

unfoldable pub add_reliable : List ℕ → ℕ → ℕ → Outbox → Bool × Outbox
add_reliable payload len seq o = if_short (5 + len) o (
    counted (
      push_payload payload len
        (push 0 (push (u8 (low 8 seq)) (push 0x80 (push (u8 (5 + len)) (push type_reliable o)))))))

pub add_ack : ℕ → ℕ → Outbox → Bool × Outbox
add_ack seq flags o =
    if_room 4 o (counted (push flags (push 0x00 (push (u8 (seq >>> 8)) (push type_ack o)))))

pub add_fragment_ack : ℕ → ℕ → Outbox → Bool × Outbox
add_fragment_ack seq frag_idx o =
    if_room 5 o
      (counted (push frag_idx (push 0x01 (push 0x00 (push (u8 (seq >>> 8)) (push type_ack o))))))

pub add_keepalive : Outbox → Bool × Outbox
add_keepalive o = if_room 2 o (counted (push 0x02 (push type_keepalive o)))

pub add_keepalive_data : List ℕ → ℕ → Outbox → Bool × Outbox
add_keepalive_data payload len o =
    if_short (2 + len) o
      (counted (push_payload payload len (push (u8 (2 + len)) (push type_keepalive o))))

-- `out` is left alone where nothing is pending, and where it is too small.
pub flush_to_buf : List ℕ → ℕ → Outbox → Option ℕ × List ℕ × Outbox
unfolding outbox_init
flush_to_buf out out_size o =
    if o.msg_count == 0
    then (some 0, out, o)
    else if ltb out_size o.pos
    then (none, out, outbox_init o)
    else let o' = record o { buf = set (set o.buf 0 dir_server) 1 (u8 o.msg_count) } in
      (some o.pos, copy_at out 0 (take o.pos o'.buf), outbox_init o')

-- What `bc_outbox_flush` sends of a flushed buffer.
abbrev pub datagram : Option ℕ × List ℕ × Outbox → Option (List ℕ) × Outbox
datagram (none, pkt, o) = (none, o)
datagram (some len, pkt, o) =
    (if ltb 0 len then some (alby_cipher_encrypt (take len pkt)) else none, o)

unfoldable pub flush : Outbox → Option (List ℕ) × Outbox
flush o =
    if o.msg_count == 0
    then (none, o)
    else datagram (flush_to_buf (replicate max_packet_size 0) max_packet_size o)

unfoldable pub pending : Outbox → Bool
pending o = ltb 0 o.msg_count
