-- ===== src/Dispatch/Session/Others.antt =====
-- Whom a datagram does not concern: src/server/server_dispatch.c leaves other peers where they are.
use open_bc.Base.{
  ℕ, ◌≡◌, ◌≢◌, inl, inr, refl, ap, ◌∙◌, Bool, true, false, not, ◌||◌, ◌&&◌, Option, none, some,
  Option-cases,
}
use open_bc.Base.{List, [], ◌∷◌, ltb, ◌==◌, length, get_elem?, by_branch}
use open_bc.Cipher.{alby_cipher_decrypt}
use open_bc.Handshake.Build.{op_checksum_resp}
use open_bc.Messages.Parse.{parse_request_obj}
use open_bc.Peers.{Addr, Peer, empty, in_game, peers_find}
use open_bc.Sending.{has_entered}
use open_bc.Sending.Relay.{Phase, phase}
use open_bc.Transport.{
  TransportMsg, Packet, type_keepalive, type_ack, type_connect_ack, parse_packet,
}
use open_bc.Server.{Server, flush_slot, relay}
use open_bc.Server.Connect.{type_connect}
use open_bc.Server.Leave.{handle_peer_disconnect}
use open_bc.Server.Answer.{handle_checksum_response}
use open_bc.Server.Phases.{
  View, view, Stays, phase_of, get_elem?-phases, flush_slot-Stays, relay-Stays, tell_all-Stays,
}
use open_bc.Server.Moves.{moved, Stands, handle_peer_disconnect-either}
use open_bc.Server.Rounds.{judged, handle_checksum_response-moved, handle_checksum_response-missing}
use open_bc.Base.{get_elem?-set_other}
use open_bc.Dispatch.Game.{
  Combat, Case, chats, relays, absorbs, joins, teams, requests, fights, unhandled, case_of, play,
  gated, dispatch_whole, count_received, chat, relay_team, request_obj, reassembled, corrected,
  new_player_in_game, handle_game_message,
}
use open_bc.Dispatch.Packet.{
  dir_init, type_connect_data, type_disconnect, payload_of, take_ack, ack_below_32, ack_game,
  take_data, take_msg, take_msgs, settled, has_connect, heard, keepalive, duplicate_connect,
  if_parsed, handle_packet,
}
use open_bc.Dispatch.Quiet.Wire.{
  take_ack-Stays, ack_below_32-Stays, ack_game-Stays, duplicate_connect-Stays, heard-Stays,
  keepalive-Stays,
}
use open_bc.Dispatch.Quiet.Play.{reassembled-view, relay_team-Stays, request_obj-Stays}
use open_bc.Dispatch.Session.Message.{new_player-moved}

-- The state and round of slot `i`, if the table has it
abbrev pub phase_at : ℕ → Server → Option Phase
phase_at i s = get_elem? (view s).0 i

module _ (combat : Combat)
    (combat-Stays : (opcode slot : ℕ) (payload : List ℕ) (now_ms : ℕ)
      → Stays (combat opcode slot payload now_ms))
    (slot i : ℕ) (other : i ≢ slot) where
  same : (s s' : Server) → view s' ≡ view s → phase_at i s' ≡ phase_at i s
  same s s' e = ap (λ (v : View). get_elem? v.0 i) e

  elsewhere :
      (s s' : Server) (q : Phase) → view s' ≡ moved slot q (view s) → phase_at i s' ≡ phase_at i s
  elsewhere s s' q e =
      ap (λ (v : View). get_elem? v.0 i) e ∙ get_elem?-set_other (view s).0 slot i q other

  answer_elsewhere :
      (payload : List ℕ) (now_ms : ℕ) (s : Server)
      → phase_at i (handle_checksum_response slot payload now_ms s) ≡ phase_at i s
  answer_elsewhere payload now_ms s = elim (Option-cases (get_elem? (view s).0 slot)) [
    | inl missing ↦
        same s (handle_checksum_response slot payload now_ms s)
          (handle_checksum_response-missing slot payload now_ms s missing)
    | inr (q, at_q) ↦
        elsewhere s (handle_checksum_response slot payload now_ms s)
          (judged (view s).1 payload q.0 q.1)
          (handle_checksum_response-moved slot payload now_ms s q at_q)
  ]

  leave_elsewhere :
      (now_ms : ℕ) (s : Server) → phase_at i (handle_peer_disconnect slot now_ms s) ≡ phase_at i s
  leave_elsewhere now_ms s = elim (handle_peer_disconnect-either slot now_ms s) [
    | inl e ↦ same s (handle_peer_disconnect slot now_ms s) e
    | inr e ↦ elsewhere s (handle_peer_disconnect slot now_ms s) (empty, 0) e
  ]

  play_elsewhere :
      (k : Case) (opcode : ℕ) (payload : List ℕ) (now_ms : ℕ) (s : Server) (q : Phase)
      → Stands slot q (view s)
      → phase_at i (play combat k opcode slot payload now_ms s) ≡ phase_at i s
  play_elsewhere chats opcode payload now_ms s q at_q =
      same s (chat slot payload now_ms s)
        (tell_all-Stays now_ms (corrected slot payload) (length payload) s)
  play_elsewhere relays opcode payload now_ms s q at_q =
      same s (relay slot now_ms payload (length payload) s)
        (relay-Stays slot now_ms payload (length payload) s)
  play_elsewhere absorbs opcode payload now_ms s q at_q = refl
  play_elsewhere joins opcode payload now_ms s q at_q =
      elim (new_player-moved slot payload now_ms s q at_q) [
        | inl e ↦ same s (new_player_in_game slot payload now_ms s) e
        | inr e ↦ elsewhere s (new_player_in_game slot payload now_ms s) (in_game, q.1) e
      ]
  play_elsewhere teams opcode payload now_ms s q at_q =
      same s (relay_team slot payload now_ms s) (relay_team-Stays slot payload now_ms s)
  play_elsewhere requests opcode payload now_ms s q at_q =
      same s (request_obj slot (parse_request_obj payload) now_ms s)
        (request_obj-Stays slot (parse_request_obj payload) now_ms s)
  play_elsewhere fights opcode payload now_ms s q at_q =
      same s (combat opcode slot payload now_ms s) (combat-Stays opcode slot payload now_ms s)
  play_elsewhere unhandled opcode payload now_ms s q at_q = refl

  gated_elsewhere :
      (opcode : ℕ) (payload : List ℕ) (now_ms : ℕ) (s : Server) (o : Option Peer)
      → get_elem? s.peers.peers slot ≡ o
      → phase_at i (gated combat opcode slot payload now_ms o s) ≡ phase_at i s
  gated_elsewhere opcode payload now_ms s none e = refl
  gated_elsewhere opcode payload now_ms s (some p) e =
      by_branch (λ (s' : Server). phase_at i s' ≡ phase_at i s) (not (has_entered p.state))
        (λ _. refl)
        (λ _.
          play_elsewhere (case_of opcode) opcode payload now_ms s (phase p)
            (get_elem?-phases s.peers.peers slot ∙ ap phase_of e))

  whole_elsewhere :
      (now_ms : ℕ) (o : Option (List ℕ)) (s : Server)
      → phase_at i (dispatch_whole combat slot now_ms (o, s)) ≡ phase_at i s
  whole_elsewhere now_ms none s = refl
  whole_elsewhere now_ms (some []) s = refl
  whole_elsewhere now_ms (some (opcode ∷ rest)) s =
      by_branch (λ (s' : Server). phase_at i s' ≡ phase_at i s) (opcode == op_checksum_resp)
        (λ _. answer_elsewhere (opcode ∷ rest) now_ms (count_received opcode s))
        (λ _.
          gated_elsewhere opcode (opcode ∷ rest) now_ms (count_received opcode s)
            (get_elem? s.peers.peers slot) refl)

  game_elsewhere :
      (kind flags : ℕ) (payload : List ℕ) (now_ms : ℕ) (s : Server)
      → phase_at i (handle_game_message combat slot kind flags payload now_ms s) ≡ phase_at i s
  unfolding handle_game_message
  game_elsewhere kind flags payload now_ms s =
      by_branch (λ (s' : Server). phase_at i s' ≡ phase_at i s) (ltb (length payload) 1) (λ _. refl)
        (λ _.
          let r = reassembled slot kind flags payload s in
          whole_elsewhere now_ms r.0 r.1 ∙ same s r.1 (reassembled-view slot kind flags payload s))

  data_elsewhere :
      (msg : TransportMsg) (payload : List ℕ) (now_ms : ℕ) (s : Server)
      → phase_at i (take_data combat slot msg payload now_ms s) ≡ phase_at i s
  data_elsewhere msg payload now_ms s =
      by_branch (λ (s' : Server). phase_at i s' ≡ phase_at i s) (msg.kind == type_keepalive)
        (λ _. same s (keepalive slot payload now_ms s) (keepalive-Stays slot payload now_ms s))
        (λ _.
          by_branch (λ (s' : Server). phase_at i s' ≡ phase_at i s) (ltb 0 (length payload))
            (λ _. game_elsewhere msg.kind msg.flags payload now_ms s) (λ _. refl))

  msg_elsewhere :
      (bytes : List ℕ) (now_ms : ℕ) (msg : TransportMsg) (r : Bool × Server)
      → phase_at i (take_msg combat slot bytes now_ms msg r).1 ≡ phase_at i r.1
  msg_elsewhere bytes now_ms msg (pending, s) =
      by_branch (λ (r : Bool × Server). phase_at i r.1 ≡ phase_at i s) (msg.kind == type_ack)
        (λ _. same s (take_ack slot msg.seq s) (take_ack-Stays slot msg.seq s))
        (λ _.
          by_branch (λ (r : Bool × Server). phase_at i r.1 ≡ phase_at i s)
            (msg.kind == type_disconnect || msg.kind == type_connect_ack) (λ _. acked)
            (λ _.
              by_branch (λ (r : Bool × Server). phase_at i r.1 ≡ phase_at i s)
                (msg.kind == type_connect || msg.kind == type_connect_data) (λ _. acked)
                (λ _.
                  data_elsewhere msg payload now_ms (ack_game slot msg payload s1)
                  ∙ same s1 (ack_game slot msg payload s1) (ack_game-Stays slot msg payload s1)
                  ∙ acked)))
    where
      payload : List ℕ
      payload = payload_of msg bytes

      s1 : Server
      s1 = ack_below_32 slot msg.kind payload s

      acked : phase_at i s1 ≡ phase_at i s
      acked = same s s1 (ack_below_32-Stays slot msg.kind payload s)

  msgs_elsewhere :
      (bytes : List ℕ) (now_ms : ℕ) (msgs : List TransportMsg) (r : Bool × Server)
      → phase_at i (take_msgs combat slot bytes now_ms msgs r).1 ≡ phase_at i r.1
  msgs_elsewhere bytes now_ms [] r = refl
  msgs_elsewhere bytes now_ms (msg ∷ msgs) r =
      msgs_elsewhere bytes now_ms msgs (take_msg combat slot bytes now_ms msg r)
      ∙ msg_elsewhere bytes now_ms msg r

  settled_elsewhere :
      (now_ms : ℕ) (r : Bool × Server) → phase_at i (settled slot now_ms r) ≡ phase_at i r.1
  settled_elsewhere now_ms (true, s) =
      leave_elsewhere now_ms (flush_slot slot s)
      ∙ same s (flush_slot slot s) (flush_slot-Stays slot s)
  settled_elsewhere now_ms (false, s) = refl

  parsed_elsewhere :
      (a : Addr) (bytes : List ℕ) (now_ms : ℕ) (o : Option Packet) (s : Server)
      → phase_at i (if_parsed combat a bytes now_ms o (some slot) s) ≡ phase_at i s
  parsed_elsewhere a bytes now_ms none s = refl
  parsed_elsewhere a bytes now_ms (some pkt) s =
      by_branch (λ (s' : Server). phase_at i s' ≡ phase_at i s)
        (pkt.direction == dir_init && has_connect pkt.msgs)
        (λ _.
          same s (duplicate_connect a slot bytes pkt.msgs s)
            (duplicate_connect-Stays a slot bytes pkt.msgs s))
        (λ _.
          settled_elsewhere now_ms (take_msgs combat slot bytes now_ms pkt.msgs (false, s))
          ∙ msgs_elsewhere bytes now_ms pkt.msgs (false, s))

  -- Whatever a known peer sends, every other peer stays in its state and its round: nobody can be moved on, held back
  -- or thrown out by another's datagram. It is assumed that the handlers of ships and torpedoes leave the peers'
  -- states alone.
  pub handle_packet_elsewhere :
      (a : Addr) (datagram : List ℕ) (now_ms : ℕ) (s : Server)
      → peers_find a s.peers ≡ some slot
      → phase_at i (handle_packet combat a datagram now_ms s) ≡ phase_at i s
  unfolding handle_packet
  handle_packet_elsewhere a datagram now_ms s known =
      ap
        (λ (o : Option ℕ). phase_at i (
          if_parsed combat a bytes now_ms (parse_packet bytes (length bytes)) o (heard o now_ms s)))
        known
      ∙ parsed_elsewhere a bytes now_ms (parse_packet bytes (length bytes))
          (heard (some slot) now_ms s)
      ∙ same s (heard (some slot) now_ms s) (heard-Stays (some slot) now_ms s)
    where
      bytes : List ℕ
      bytes = alby_cipher_decrypt datagram
