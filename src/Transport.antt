-- ===== src/Transport.antt =====
-- The transport layer of src/server/network/transport.c: the parser of incoming packets and the
-- builders of one-message packets. A message's `payload` is the C pointer as an offset into the packet
-- (`none`: NULL). The parser's answer is `none` where the C function returns false. A builder returns
-- the C function's length (`none`: -1) with the bytes of `out`.
pub mod Bounds
pub mod Wire
pub mod Packets
mod Tests
use open_bc.Base.{
  ℕ, zero, suc, ◌+◌, ◌-◌, Bool, ◌&&◌, ◌||◌, not, Option, none, some, List, [], ◌∷◌, ◌++◌,
}
use open_bc.Base.{
  ltb, ◌==◌, if◌then◌else◌, u8, low, ◌<<<◌, ◌>>>◌, bit_or, get_or, take, copy_at, length,
}

abbrev pub dir_server : ℕ
dir_server = 0x01

abbrev pub dir_client : ℕ
dir_client = 0x02

abbrev pub type_keepalive : ℕ
type_keepalive = 0x00

abbrev pub type_ack : ℕ
type_ack = 0x01

abbrev pub type_connect_ack : ℕ
type_connect_ack = 0x05

abbrev pub type_reliable : ℕ
type_reliable = 0x32

-- `bc_transport_msg_t`
pub record TransportMsg : Type 0 where
  pub kind : ℕ
  pub flags : ℕ
  pub seq : ℕ
  pub payload : Option ℕ
  pub payload_len : ℕ

-- `bc_packet_t`; the count is the length of `msgs`.
pub record Packet : Type 0 where
  pub direction : ℕ
  pub msgs : List TransportMsg

-- A branch of the parser's loop: the message at `pos` and the position behind it.
abbrev pub Step : Type 0
Step = Option (TransportMsg × ℕ)

-- Type 0x01, four bytes.
pub parse_ack : List ℕ → ℕ → ℕ → Step
parse_ack bytes len pos =
    if ltb len (pos + 4)
    then none
    else some (
      record {
        kind = type_ack;
        seq = get_or bytes (pos + 1) 0;
        flags = get_or bytes (pos + 3) 0;
        payload = none;
        payload_len = 0;
      },
      pos + 4,
    )

-- Type 0x32 behind its length field: reliable messages carry a sequence number. `flags & 0x80` is the
-- test of a byte's highest bit.
pub parse_framed : List ℕ → ℕ → ℕ → ℕ → Step
parse_framed bytes pos flags total_len =
    if not (ltb flags 0x80)
    then (if ltb total_len 5
        then none
        else some (
          record {
            kind = type_reliable;
            flags = flags;
            seq = bit_or (get_or bytes (pos + 3) 0 <<< 8) (get_or bytes (pos + 4) 0);
            payload = some (pos + 5);
            payload_len = total_len - 5;
          },
          pos + total_len,
        ))
    else some (
      record {
        kind = type_reliable;
        flags = flags;
        seq = 0;
        payload = some (pos + 3);
        payload_len = total_len - 3;
      },
      pos + total_len,
    )

-- `flags_len`, little-endian
abbrev pub flags_len : List ℕ → ℕ → ℕ
flags_len bytes pos = bit_or (get_or bytes (pos + 1) 0) (get_or bytes (pos + 2) 0 <<< 8)

pub parse_game : List ℕ → ℕ → ℕ → Step
parse_game bytes len pos =
    if ltb len (pos + 3)
    then none
    else let total_len = low 13 (flags_len bytes pos) in
      if ltb total_len 3 || ltb len (pos + total_len)
      then none
      else parse_framed bytes pos (u8 (flags_len bytes pos >>> 8)) total_len

-- Any other type.
pub parse_generic : List ℕ → ℕ → ℕ → Step
parse_generic bytes len pos =
    if ltb len (pos + 2)
    then none
    else let total_len = get_or bytes (pos + 1) 0 in
      if ltb total_len 2 || ltb len (pos + total_len)
      then none
      else some (
        record {
          kind = get_or bytes pos 0;
          flags = 0;
          seq = 0;
          payload = some (pos + 2);
          payload_len = total_len - 2;
        },
        pos + total_len,
      )

pub parse_msg : List ℕ → ℕ → ℕ → Step
parse_msg bytes len pos =
    if get_or bytes pos 0 == 0x01
    then parse_ack bytes len pos
    else if get_or bytes pos 0 == 0x32
    then parse_game bytes len pos
    else parse_generic bytes len pos

-- A message, and the messages that the loop finds behind it.
abbrev pub cons_msg : TransportMsg → Option (List TransportMsg) → Option (List TransportMsg)
cons_msg msg none = none
cons_msg msg (some msgs) = some (msg ∷ msgs)

abbrev pub followed_by : Step → (ℕ → Option (List TransportMsg)) → Option (List TransportMsg)
followed_by none rest = none
followed_by (some (msg, pos)) rest = cons_msg msg (rest pos)

-- The loop, with the number of messages that the header still announces, and those already parsed.
pub parse_msgs : List ℕ → ℕ → ℕ → ℕ → ℕ → Option (List TransportMsg)
parse_msgs bytes len zero count pos = some []
parse_msgs bytes len (suc announced) count pos =
    if ltb pos len && ltb count 32
    then followed_by (parse_msg bytes len pos) (parse_msgs bytes len announced (count + 1))
    else some []

abbrev pub to_packet : ℕ → Option (List TransportMsg) → Option Packet
to_packet direction none = none
to_packet direction (some msgs) = some (record { direction = direction; msgs = msgs })

-- `bc_transport_parse`
pub parse_packet : List ℕ → ℕ → Option Packet
parse_packet bytes len =
    if ltb len 2
    then none
    else to_packet (get_or bytes 0 0) (parse_msgs bytes len (get_or bytes 1 0) 0 2)

-- `out[0] = ...; out[n] = ...; memcpy(out + n, payload, payload_len)`
abbrev pub filled : List ℕ → List ℕ → List ℕ → List ℕ
filled out header payload = copy_at (copy_at out 0 header) (length header) payload

pub build_unreliable : List ℕ → ℕ → List ℕ → ℕ → Option ℕ × List ℕ
build_unreliable out out_size payload payload_len =
    let total_msg_len = 3 + payload_len in
    let packet_len = 2 + total_msg_len in
    if ltb out_size packet_len || ltb 255 total_msg_len then (none, out) else (
      some packet_len,
      filled out (dir_server ∷ 1 ∷ type_reliable ∷ u8 total_msg_len ∷ 0x00 ∷ [])
          (take payload_len payload),
    )

unfoldable pub build_reliable : List ℕ → ℕ → List ℕ → ℕ → ℕ → Option ℕ × List ℕ
build_reliable out out_size payload payload_len seq =
    let total_msg_len = 5 + payload_len in
    let packet_len = 2 + total_msg_len in
    if ltb out_size packet_len || ltb 255 total_msg_len then (none, out) else (
      some packet_len,
      filled out
          (dir_server ∷ 1 ∷ type_reliable ∷ u8 total_msg_len ∷ 0x80 ∷ u8 (low 8 seq) ∷ 0 ∷ [])
          (take payload_len payload),
    )

pub build_ack : List ℕ → ℕ → ℕ → ℕ → Option ℕ × List ℕ
build_ack out out_size seq flags =
    if ltb out_size 6
    then (none, out)
    else (some 6, copy_at out 0 (dir_server ∷ 1 ∷ type_ack ∷ u8 (seq >>> 8) ∷ 0x00 ∷ flags ∷ []))

-- The bytes that the two packets of type 0x05 share behind their direction and status.
abbrev pub slot_and_ip : ℕ → ℕ → List ℕ
slot_and_ip slot ip_be =
    slot
    ∷ u8 (low 8 ip_be)
    ∷ u8 (low 8 (ip_be >>> 8))
    ∷ u8 (low 8 (ip_be >>> 16))
    ∷ u8 (low 8 (ip_be >>> 24))
    ∷ []

pub build_connect_ack : List ℕ → ℕ → ℕ → ℕ → Option ℕ × List ℕ
build_connect_ack out out_size slot ip_be = if ltb out_size 12 then (none, out) else (
  some 12,
  copy_at out 0
      (dir_client ∷ 1 ∷ type_connect_ack ∷ 0x0a ∷ 0xc0 ∷ 0x02 ∷ 0x00 ∷ slot_and_ip slot ip_be),
)

pub build_shutdown_notify : List ℕ → ℕ → ℕ → ℕ → Option ℕ × List ℕ
build_shutdown_notify out out_size slot ip_be = if ltb out_size 12 then (none, out) else (
  some 12,
  copy_at out 0
      (dir_server ∷ 1 ∷ type_connect_ack ∷ 0x0a ∷ 0xc0 ∷ 0x00 ∷ 0x00 ∷ slot_and_ip slot ip_be),
)
