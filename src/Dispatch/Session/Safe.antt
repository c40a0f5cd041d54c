-- ===== src/Dispatch/Session/Safe.antt =====
-- What a server at work keeps, whatever arrives: src/server/server_dispatch.c with server_handshake.c.
use open_bc.Base.{ℕ, Bool, true, false, ◌||◌, ◌&&◌, Option, none, some}
use open_bc.Base.{List, [], ◌∷◌, ltb, ◌==◌, length}
use open_bc.Cipher.{alby_cipher_decrypt}
use open_bc.Peers.{Addr, peers_find}
use open_bc.Transport.{
  TransportMsg, Packet, type_keepalive, type_ack, type_connect_ack, parse_packet,
}
use open_bc.Server.{Server, flush_slot}
use open_bc.Server.Connect.{type_connect}
use open_bc.Server.Phases.{Policy, Stays, flush_slot-Stays}
use open_bc.Server.Run.{Log, IsEarned}
use open_bc.Server.Run.Earned.{connect-IsEarned, leave-IsEarned, start-IsEarned}
use open_bc.Dispatch.Game.{Combat}
use open_bc.Dispatch.Packet.{
  dir_init, type_connect_data, type_disconnect, payload_of, take_ack, ack_below_32, ack_game,
  take_data, take_msg, take_msgs, settled, has_connect, heard, keepalive, duplicate_connect,
  take_packet, if_parsed, handle_packet,
}
use open_bc.Dispatch.Quiet.Wire.{
  take_ack-Stays, ack_below_32-Stays, ack_game-Stays, duplicate_connect-Stays, heard-Stays,
  keepalive-Stays,
}
use open_bc.Dispatch.Session.{
  log_data, log_msg, log_msgs, log_packet, log_parsed, log_datagram, Session, start, packet,
  drop_peer,
}
use open_bc.Dispatch.Session.Message.{by_branches, quiet, game-IsEarned}

module _ (c : Policy) (combat : Combat)
    (combat-Stays : (opcode slot : ℕ) (payload : List ℕ) (now_ms : ℕ)
      → Stays (combat opcode slot payload now_ms)) where
  data-IsEarned :
      (slot : ℕ) (msg : TransportMsg) (payload : List ℕ) (now_ms : ℕ) (s : Server) (log : Log)
      → IsEarned c s log
      → IsEarned c (take_data combat slot msg payload now_ms s) (log_data slot msg payload s log)
  data-IsEarned slot msg payload now_ms s log h =
      by_branches (IsEarned c) (msg.kind == type_keepalive)
        (λ _.
          quiet c s (keepalive slot payload now_ms s) log (keepalive-Stays slot payload now_ms s) h)
        (λ _.
          by_branches (IsEarned c) (ltb 0 (length payload))
            (λ _.
              game-IsEarned c combat combat-Stays slot msg.kind msg.flags payload now_ms s log h)
            (λ _. h))

  msg-IsEarned :
      (slot : ℕ) (bytes : List ℕ) (now_ms : ℕ) (msg : TransportMsg) (r : Bool × Server) (log : Log)
      → IsEarned c r.1 log
      → IsEarned c (take_msg combat slot bytes now_ms msg r).1 (log_msg slot bytes msg r.1 log)
  msg-IsEarned slot bytes now_ms msg (pending, s) log h =
      by_branches (λ (r : Bool × Server) (l : Log). IsEarned c r.1 l) (msg.kind == type_ack)
        (λ _. quiet c s (take_ack slot msg.seq s) log (take_ack-Stays slot msg.seq s) h)
        (λ _.
          by_branches (λ (r : Bool × Server) (l : Log). IsEarned c r.1 l)
            (msg.kind == type_disconnect || msg.kind == type_connect_ack) (λ _. acked)
            (λ _.
              by_branches (λ (r : Bool × Server) (l : Log). IsEarned c r.1 l)
                (msg.kind == type_connect || msg.kind == type_connect_data) (λ _. acked)
                (λ _. data-IsEarned slot msg payload now_ms (ack_game slot msg payload s1) log (
                  quiet c s1 (ack_game slot msg payload s1) log (ack_game-Stays slot msg payload s1)
                    acked))))
    where
      payload : List ℕ
      payload = payload_of msg bytes

      s1 : Server
      s1 = ack_below_32 slot msg.kind payload s

      acked : IsEarned c s1 log
      acked = quiet c s s1 log (ack_below_32-Stays slot msg.kind payload s) h

  msgs-IsEarned :
      (slot : ℕ) (bytes : List ℕ) (now_ms : ℕ) (msgs : List TransportMsg) (r : Bool × Server)
      (log : Log)
      → IsEarned c r.1 log
      → IsEarned c
          (take_msgs combat slot bytes now_ms msgs r).1
          (log_msgs combat slot bytes now_ms msgs r log)
  msgs-IsEarned slot bytes now_ms [] r log h = h
  msgs-IsEarned slot bytes now_ms (msg ∷ msgs) r log h =
      msgs-IsEarned slot bytes now_ms msgs (take_msg combat slot bytes now_ms msg r)
        (log_msg slot bytes msg r.1 log) (msg-IsEarned slot bytes now_ms msg r log h)

  settled-IsEarned :
      (slot now_ms : ℕ) (r : Bool × Server) (log : Log)
      → IsEarned c r.1 log
      → IsEarned c (settled slot now_ms r) log
  settled-IsEarned slot now_ms (true, s) log h =
      leave-IsEarned c (flush_slot slot s) log slot now_ms
        (quiet c s (flush_slot slot s) log (flush_slot-Stays slot s) h)
  settled-IsEarned slot now_ms (false, s) log h = h

  packet-IsEarned :
      (a : Addr) (bytes : List ℕ) (now_ms : ℕ) (pkt : Packet) (found : Option ℕ) (s : Server)
      (log : Log)
      → IsEarned c s log
      → IsEarned c
          (take_packet combat a bytes now_ms pkt found s)
          (log_packet combat bytes now_ms pkt found s log)
  packet-IsEarned a bytes now_ms pkt none s log h =
      by_branches (IsEarned c) (pkt.direction == dir_init)
        (λ _. connect-IsEarned c s log a now_ms h) (λ _. h)
  packet-IsEarned a bytes now_ms pkt (some slot) s log h =
      by_branches (IsEarned c) (pkt.direction == dir_init && has_connect pkt.msgs)
        (λ _.
          quiet c s (duplicate_connect a slot bytes pkt.msgs s) log
            (duplicate_connect-Stays a slot bytes pkt.msgs s) h)
        (λ _.
          settled-IsEarned slot now_ms (take_msgs combat slot bytes now_ms pkt.msgs (false, s))
            (log_msgs combat slot bytes now_ms pkt.msgs (false, s) log)
            (msgs-IsEarned slot bytes now_ms pkt.msgs (false, s) log h))

  parsed-IsEarned :
      (a : Addr) (bytes : List ℕ) (now_ms : ℕ) (o : Option Packet) (found : Option ℕ) (s : Server)
      (log : Log)
      → IsEarned c s log
      → IsEarned c
          (if_parsed combat a bytes now_ms o found s)
          (log_parsed combat bytes now_ms o found s log)
  parsed-IsEarned a bytes now_ms none found s log h = h
  parsed-IsEarned a bytes now_ms (some pkt) found s log h =
      packet-IsEarned a bytes now_ms pkt found s log h

  pub handle_packet-IsEarned :
      (a : Addr) (datagram : List ℕ) (now_ms : ℕ) (s : Server) (log : Log)
      → IsEarned c s log
      → IsEarned c
          (handle_packet combat a datagram now_ms s)
          (log_datagram combat a datagram now_ms s log)
  unfolding handle_packet
  handle_packet-IsEarned a datagram now_ms s log h =
      parsed-IsEarned a bytes now_ms (parse_packet bytes (length bytes)) found
        (heard found now_ms s) log
        (quiet c s (heard found now_ms s) log (heard-Stays found now_ms s) h)
    where
      bytes : List ℕ
      bytes = alby_cipher_decrypt datagram

      found : Option ℕ
      found = peers_find a s.peers

  -- Whatever datagrams arrive, from whomever and in whatever order, and whoever is dropped in between: a peer in
  -- the lobby or the game has, since its slot was last free, had its responses to all four rounds accepted and then
  -- given a well-formed final one, and a peer in round `n` exactly those to the rounds below. It is assumed that
  -- the handlers of ships and torpedoes leave the peers' states and the settings of the checks alone.
  pub Session-IsEarned : {s : Server} {log : Log} → Session combat c s log → IsEarned c s log
  Session-IsEarned (start s h) = start-IsEarned c s h
  Session-IsEarned (packet {s} {log} before a datagram now_ms) =
      handle_packet-IsEarned a datagram now_ms s log (Session-IsEarned before)
  Session-IsEarned (drop_peer {s} {log} before slot now_ms) =
      leave-IsEarned c s log slot now_ms (Session-IsEarned before)
