-- ===== src/Dispatch/Session.antt =====
-- A server at work: datagrams from anywhere, in any order, and disconnections for want of an answer, with the
-- responses that src/server/server_dispatch.c has handed to the checksum handler for each slot.
pub mod Message
pub mod Safe
pub mod Others
use open_bc.Base.{
  ℕ, ◌+◌, Bool, true, false, ◌||◌, ◌&&◌, Option, none, some, List, [], ◌∷◌, ltb, ◌==◌,
  if◌then◌else◌, length,
}
use open_bc.Cipher.{alby_cipher_decrypt}
use open_bc.Handshake.Build.{op_checksum_resp}
use open_bc.Peers.{Addr, peers_find}
use open_bc.Transport.{
  TransportMsg, Packet, type_keepalive, type_ack, type_connect_ack, parse_packet,
}
use open_bc.Server.{Server}
use open_bc.Server.Connect.{type_connect}
use open_bc.Server.Leave.{handle_peer_disconnect}
use open_bc.Server.Phases.{Policy, view}
use open_bc.Server.Run.{Log, forgotten, noted, IsStart}
use open_bc.Dispatch.Game.{Combat, reassembled}
use open_bc.Dispatch.Packet.{
  dir_init, type_connect_data, type_disconnect, payload_of, ack_below_32, ack_game, take_msg,
  has_connect, heard, handle_packet,
}

-- A whole message that is a checksum response is noted.
abbrev pub log_whole : ℕ → Option (List ℕ) → Log → Log
log_whole slot none log = log
log_whole slot (some []) log = log
log_whole slot (some (opcode ∷ rest)) log =
    if opcode == op_checksum_resp then noted slot (opcode ∷ rest) log else log

abbrev pub log_game : ℕ → ℕ → ℕ → List ℕ → Server → Log → Log
log_game slot kind flags payload s log =
    if ltb (length payload) 1
    then log
    else log_whole slot (reassembled slot kind flags payload s).0 log

abbrev pub log_data : ℕ → TransportMsg → List ℕ → Server → Log → Log
log_data slot msg payload s log =
    if msg.kind == type_keepalive
    then log
    else if ltb 0 (length payload)
    then log_game slot msg.kind msg.flags payload s log
    else log

abbrev pub log_msg : ℕ → List ℕ → TransportMsg → Server → Log → Log
log_msg slot bytes msg s log =
    if msg.kind == type_ack
    then log
    else if msg.kind == type_disconnect || msg.kind == type_connect_ack
    then log
    else if msg.kind == type_connect || msg.kind == type_connect_data
    then log
    else log_data slot msg (payload_of msg bytes)
        (ack_game slot msg (payload_of msg bytes)
          (ack_below_32 slot msg.kind (payload_of msg bytes) s))
        log

module _ (combat : Combat) where
  abbrev pub log_msgs : ℕ → List ℕ → ℕ → List TransportMsg → Bool × Server → Log → Log
  log_msgs slot bytes now_ms [] r log = log
  log_msgs slot bytes now_ms (msg ∷ msgs) r log =
      log_msgs slot bytes now_ms msgs (take_msg combat slot bytes now_ms msg r)
        (log_msg slot bytes msg r.1 log)

  abbrev pub log_packet : List ℕ → ℕ → Packet → Option ℕ → Server → Log → Log
  log_packet bytes now_ms pkt none s log =
      if pkt.direction == dir_init then forgotten (view s) log else log
  log_packet bytes now_ms pkt (some slot) s log =
      if pkt.direction == dir_init && has_connect pkt.msgs
      then log
      else log_msgs slot bytes now_ms pkt.msgs (false, s) log

  abbrev pub log_parsed : List ℕ → ℕ → Option Packet → Option ℕ → Server → Log → Log
  log_parsed bytes now_ms none found s log = log
  log_parsed bytes now_ms (some pkt) found s log = log_packet bytes now_ms pkt found s log

  -- The log after a datagram
  abbrev pub log_datagram : Addr → List ℕ → ℕ → Server → Log → Log
  log_datagram a datagram now_ms s log =
      let bytes = alby_cipher_decrypt datagram in
      let found = peers_find a s.peers in
      log_parsed bytes now_ms (parse_packet bytes (length bytes)) found (heard found now_ms s) log

  pub data Session (c : Policy) : Server → Log → Type 0 where
    start : (s : Server) → IsStart c s → Session c s (λ _. [])
    packet :
        {s : Server} {log : Log}
        → Session c s log
        → (a : Addr) (datagram : List ℕ) (now_ms : ℕ)
        → Session c
            (handle_packet combat a datagram now_ms s)
            (log_datagram a datagram now_ms s log)
    drop_peer :
        {s : Server} {log : Log}
        → Session c s log
        → (slot now_ms : ℕ) → Session c (handle_peer_disconnect slot now_ms s) log
