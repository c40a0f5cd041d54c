-- ===== src/Dispatch/Packet.antt =====
-- `bc_handle_packet` of src/server/server_dispatch.c.
use open_bc.Base.{
  ℕ, zero, suc, ◌+◌, Bool, true, false, ◌&&◌, ◌||◌, Option, none, some, List, [], ◌∷◌, ◌++◌,
}
use open_bc.Base.{
  ltb, leb, ◌==◌, if◌then◌else◌, length, take, drop, get_elem?, get_or, copy_at, u8, u16, low,
  ◌>>>◌, ◌<<<◌,
}
use open_bc.Cipher.{alby_cipher_decrypt, alby_cipher_encrypt}
use open_bc.Outbox.{add_ack, add_fragment_ack}
use open_bc.Peers.{Addr, Peer, peers_find}
use open_bc.Reliable.{reliable_ack}
use open_bc.Transport.{
  TransportMsg, Packet, dir_server, type_keepalive, type_ack, type_connect_ack, type_reliable,
  parse_packet,
}
use open_bc.Server.{Server, PlayerRecord, put_out, set_peer, flush_slot}
use open_bc.Server.Scores.{try_restore_reconnect_score}
use open_bc.Server.Leave.{handle_peer_disconnect}
use open_bc.Server.Connect.{handle_connect, type_connect}
use open_bc.Dispatch.Game.{Combat, handle_game_message}

-- `BC_DIR_INIT`
abbrev pub dir_init : ℕ
dir_init = 0xff

-- `BC_TRANSPORT_CONNECT_DATA`
abbrev pub type_connect_data : ℕ
type_connect_data = 0x04

-- `BC_TRANSPORT_DISCONNECT`
abbrev pub type_disconnect : ℕ
type_disconnect = 0x06

-- What a message's `payload` points at; a NULL payload has no length.
abbrev pub payload_at : Option ℕ → ℕ → List ℕ → List ℕ
payload_at none len bytes = []
payload_at (some pos) len bytes = take len (drop pos bytes)

abbrev pub payload_of : TransportMsg → List ℕ → List ℕ
payload_of msg bytes = payload_at msg.payload msg.payload_len bytes

-- A byte's bit 7
abbrev pub has_reliable_bit : ℕ → Bool
has_reliable_bit byte = low 1 (byte >>> 7) == 1

abbrev pub queue_ack : ℕ → ℕ → ℕ → Server → Server
queue_ack slot seq flags = set_peer slot (λ p. record p { outbox = (add_ack seq flags p.outbox).1 })

abbrev pub queue_fragment_ack : ℕ → ℕ → ℕ → Server → Server
queue_fragment_ack slot seq frag_idx =
    set_peer slot (λ p. record p { outbox = (add_fragment_ack seq frag_idx p.outbox).1 })

abbrev pub take_ack : ℕ → ℕ → Server → Server
take_ack slot seq =
    set_peer slot (λ p. record p { reliable_out = (reliable_ack seq p.reliable_out).1 })

-- The ACK of a reliable message of a low type, whose payload starts with its flags and its counter.
abbrev pub ack_below_32 : ℕ → ℕ → List ℕ → Server → Server
ack_below_32 slot kind payload s =
    if ltb kind 0x32 && leb 2 (length payload) && has_reliable_bit (get_or payload 0 0)
    then queue_ack slot (u16 (get_or payload 1 0 <<< 8)) 0x02 s
    else s

-- The ACK of a reliable game message, or of a fragment.
abbrev pub ack_game : ℕ → TransportMsg → List ℕ → Server → Server
ack_game slot msg payload s =
    if msg.kind == type_reliable && has_reliable_bit msg.flags
    then (if low 1 (msg.flags >>> 5) == 1 && leb 1 (length payload)
        then queue_fragment_ack slot msg.seq (get_or payload 0 0) s
        else queue_ack slot msg.seq 0x00 s)
    else s

-- The name in a keepalive, in UTF-16, of at most 30 characters; one that is no byte becomes a question mark.
abbrev pub decoded_name : ℕ → List ℕ → List ℕ
decoded_name room [] = []
decoded_name room (lo ∷ []) = []
decoded_name zero (lo ∷ hi ∷ rest) = []
decoded_name (suc room) (lo ∷ hi ∷ rest) =
    let others = decoded_name room rest in
    if lo == 0 && hi == 0 then [] else (if hi == 0 then lo else 63) ∷ others

-- The first record of the connection gets the name.
abbrev pub named_record : ℕ → List ℕ → List PlayerRecord → List PlayerRecord
named_record connect_time name [] = []
named_record connect_time name (r ∷ rs) =
    if r.connect_time == connect_time
    then record r { name = name } ∷ rs
    else r ∷ named_record connect_time name rs

abbrev pub store_name : ℕ → List ℕ → Server → Server
store_name slot name = set_peer slot (λ p. record p { name = copy_at p.name 0 (name ++ (0 ∷ [])) })

abbrev pub take_name : ℕ → ℕ → List ℕ → ℕ → Server → Server
take_name slot connect_time name now_ms s =
    let s1 = store_name slot name s in
    if ltb 0 (length name)
    then (let s2 = try_restore_reconnect_score slot name now_ms s1 in
        record s2 { players = named_record connect_time name s2.players })
    else s1

abbrev pub name_from : ℕ → List ℕ → ℕ → Option Peer → Server → Server
name_from slot payload now_ms none s = s
name_from slot payload now_ms (some p) s =
    if get_or p.name 0 0 == 0
    then take_name slot p.connect_time (decoded_name 30 (drop 8 payload)) now_ms s
    else s

-- `sizeof(peer->keepalive_data)`
abbrev pub keepalive_size : ℕ
keepalive_size = 64

abbrev pub cache_keepalive : ℕ → List ℕ → Server → Server
cache_keepalive slot payload s =
    if leb (length payload) keepalive_size
    then set_peer slot
        (λ p. record p {
          keepalive_data = copy_at p.keepalive_data 0 payload;
          keepalive_len = length payload;
        })
        s
    else s

abbrev pub keepalive : ℕ → List ℕ → ℕ → Server → Server
keepalive slot payload now_ms s =
    if leb 8 (length payload)
    then cache_keepalive slot payload
        (name_from slot payload now_ms (get_elem? s.peers.peers slot) s)
    else s

abbrev pub has_connect : List TransportMsg → Bool
has_connect [] = false
has_connect (msg ∷ msgs) = if msg.kind == type_connect then true else has_connect msgs

-- A request to connect that comes again: its reliable requests are acknowledged, and the response is sent again.
abbrev pub ack_connects : ℕ → List ℕ → List TransportMsg → Server → Server
ack_connects slot bytes [] s = s
ack_connects slot bytes (msg ∷ msgs) s =
    ack_connects slot bytes msgs
      (if msg.kind == type_connect then ack_below_32 slot msg.kind (payload_of msg bytes) s else s)

abbrev pub connect_again : ℕ → List ℕ
connect_again slot = dir_server ∷ 1 ∷ type_connect ∷ 0x06 ∷ 0xc0 ∷ 0x00 ∷ 0x00 ∷ u8 (slot + 1) ∷ []

abbrev pub duplicate_connect : Addr → ℕ → List ℕ → List TransportMsg → Server → Server
duplicate_connect from slot bytes msgs s =
    put_out (record { to_addr = from; bytes = alby_cipher_encrypt (connect_again slot) } ∷ [])
      (flush_slot slot (ack_connects slot bytes msgs s))

-- `g_peers.peers[slot].last_recv_time = bc_ms_now()`
abbrev pub heard : Option ℕ → ℕ → Server → Server
heard none now_ms s = s
heard (some slot) now_ms s = set_peer slot (λ p. record p { last_recv_time = now_ms }) s

-- A disconnection takes effect behind the loop.
abbrev pub settled : ℕ → ℕ → Bool × Server → Server
settled slot now_ms (pending, s) =
    if pending then handle_peer_disconnect slot now_ms (flush_slot slot s) else s

module _ (combat : Combat) where
  -- A message that is neither an ACK nor of the connection
  abbrev pub take_data : ℕ → TransportMsg → List ℕ → ℕ → Server → Server
  take_data slot msg payload now_ms s =
      if msg.kind == type_keepalive
      then keepalive slot payload now_ms s
      else if ltb 0 (length payload)
      then handle_game_message combat slot msg.kind msg.flags payload now_ms s
      else s

  -- A message of the loop; the flag is `disconnect_pending`.
  abbrev pub take_msg : ℕ → List ℕ → ℕ → TransportMsg → Bool × Server → Bool × Server
  take_msg slot bytes now_ms msg (pending, s) =
      if msg.kind == type_ack
      then (pending, take_ack slot msg.seq s)
      else let payload = payload_of msg bytes in
        let s1 = ack_below_32 slot msg.kind payload s in
        if msg.kind == type_disconnect || msg.kind == type_connect_ack
        then (true, s1)
        else if msg.kind == type_connect || msg.kind == type_connect_data
        then (pending, s1)
        else (pending, take_data slot msg payload now_ms (ack_game slot msg payload s1))

  abbrev pub take_msgs : ℕ → List ℕ → ℕ → List TransportMsg → Bool × Server → Bool × Server
  take_msgs slot bytes now_ms [] r = r
  take_msgs slot bytes now_ms (msg ∷ msgs) r =
      take_msgs slot bytes now_ms msgs (take_msg slot bytes now_ms msg r)

  abbrev pub process : ℕ → List ℕ → ℕ → List TransportMsg → Server → Server
  process slot bytes now_ms msgs s =
      settled slot now_ms (take_msgs slot bytes now_ms msgs (false, s))

  -- The packet of a peer that is known or not.
  abbrev pub take_packet : Addr → List ℕ → ℕ → Packet → Option ℕ → Server → Server
  take_packet from bytes now_ms pkt none s =
      if pkt.direction == dir_init then handle_connect from now_ms s else s
  take_packet from bytes now_ms pkt (some slot) s =
      if pkt.direction == dir_init && has_connect pkt.msgs
      then duplicate_connect from slot bytes pkt.msgs s
      else process slot bytes now_ms pkt.msgs s

  abbrev pub if_parsed : Addr → List ℕ → ℕ → Option Packet → Option ℕ → Server → Server
  if_parsed from bytes now_ms none found s = s
  if_parsed from bytes now_ms (some pkt) found s = take_packet from bytes now_ms pkt found s

  unfoldable pub handle_packet : Addr → List ℕ → ℕ → Server → Server
  handle_packet from datagram now_ms s =
      let bytes = alby_cipher_decrypt datagram in
      let found = peers_find from s.peers in
      if_parsed from bytes now_ms (parse_packet bytes (length bytes)) found (heard found now_ms s)
