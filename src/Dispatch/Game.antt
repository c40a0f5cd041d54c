-- ===== src/Dispatch/Game.antt =====
-- `handle_game_message` of src/server/server_dispatch.c. The cases of its switch that change a ship or a torpedo
-- are not modelled: they are `combat`, an argument. What is only logged is left out.
use open_bc.Base.{
  ℕ, suc, ◌+◌, ◌-◌, ◌*◌, ◌^◌, Bool, true, false, not, ◌&&◌, ◌||◌, Option, none, some, List, [], ◌∷◌,
}
use open_bc.Base.{
  ltb, leb, ◌==◌, if◌then◌else◌, length, take, get_elem?, get_or, set, replicate, u8, low, ◌>>>◌,
  ◌<<<◌,
}
use open_bc.Fragment.{Fragment, fragment_receive, fragment_reset}
use open_bc.Messages.Build.{build_obj_not_found}
use open_bc.Messages.Parse.{parse_request_obj}
use open_bc.Messages.Ids.{make_ship_id, object_id_to_slot}
use open_bc.Handshake.Build.{
  op_checksum_resp, build_mission_init, build_delete_player_ui, is_negative,
}
use open_bc.Peers.{Peer, PeerState, in_game, max_players}
use open_bc.Sending.{has_entered}
use open_bc.Transport.{type_reliable}
use open_bc.Server.{Server, set_peer, queue_to, flush_slot, if_built, relay, tell_all, next32}
use open_bc.Server.Leave.{game_slot}
use open_bc.Server.Enter.{queue_for}
use open_bc.Server.Answer.{handle_checksum_response}

-- `BC_RELIABLE_FLAG_FRAGMENT` is bit 5.
abbrev pub is_fragment : ℕ → ℕ → Bool
is_fragment kind flags = kind == type_reliable && low 1 (flags >>> 5) == 1

-- What `bc_fragment_receive` made of a fragment: the whole message, once it is complete.
abbrev pub collected : ℕ → Bool × Fragment → Server → Option (List ℕ) × Server
collected slot (true, f) s =
    (some (take f.buf_len f.buf), set_peer slot (λ p. record p { fragment = fragment_reset f }) s)
collected slot (false, f) s = (none, set_peer slot (λ p. record p { fragment = f }) s)

abbrev pub collect : ℕ → List ℕ → Option Peer → Server → Option (List ℕ) × Server
collect slot payload none s = (none, s)
collect slot payload (some p) s =
    collected slot (fragment_receive payload (length payload) p.fragment) s

-- The message that is dispatched, if it is complete.
abbrev pub reassembled : ℕ → ℕ → ℕ → List ℕ → Server → Option (List ℕ) × Server
reassembled slot kind flags payload s =
    if is_fragment kind flags
    then collect slot payload (get_elem? s.peers.peers slot) s
    else (some payload, s)

-- `stats[opcode]++`
abbrev pub counted_up : ℕ → List ℕ → List ℕ
counted_up opcode stats = set stats opcode (next32 (get_or stats opcode 0))

abbrev pub count_received : ℕ → Server → Server
count_received opcode s = record s { opcodes_recv = counted_up opcode s.opcodes_recv }

abbrev pub count_rejected : ℕ → Server → Server
count_rejected opcode s = record s { opcodes_rejected = counted_up opcode s.opcodes_rejected }

-- A sender other than the peer is corrected.
abbrev pub corrected : ℕ → List ℕ → List ℕ
corrected slot payload =
    if leb 2 (length payload) && not (get_or payload 1 0 == u8 (game_slot slot))
    then set payload 1 (u8 (game_slot slot))
    else payload

abbrev pub chat : ℕ → List ℕ → ℕ → Server → Server
chat slot payload now_ms = tell_all now_ms (corrected slot payload) (length payload)

-- `(i32)g_round_end_time` of an `f32` that is not negative, and 0 for any other; a value of 2 ^ 31 or more, whose
-- cast C does not define, gives no number that counts.
abbrev pub truncated : ℕ → ℕ → ℕ
truncated exponent mantissa =
    if ltb exponent 127
    then 0
    else if leb exponent 150
    then mantissa >>> (150 - exponent)
    else mantissa <<< (exponent - 150)

abbrev pub end_time : ℕ → ℕ
end_time bits =
    if is_negative bits || low 8 (bits >>> 23) == 255
    then 0
    else truncated (low 8 (bits >>> 23)) (low 23 bits + 2 ^ 23)

-- `BC_EVENT_NEW_PLAYER`
abbrev pub event_new_player : ℕ
event_new_player = 0x80_00f1

-- `BC_MISSION_INIT_PLAYER_LIMIT`
abbrev pub player_limit : ℕ
player_limit = 8

-- The message that adds the player of a slot to a client's list
abbrev pub new_player_packet : ℕ → Option ℕ × List ℕ
new_player_packet slot =
    build_delete_player_ui event_new_player 0 (make_ship_id (u8 (game_slot slot))) (u8 (slot + 1))
      (replicate 20 0) 20

abbrev pub is_in_game : PeerState → Bool
is_in_game in_game = true
is_in_game _ = false

-- The players that are in the game already, from slot `i` on.
abbrev pub tell_of_player : ℕ → ℕ → ℕ → Peer → Server → Server
tell_of_player slot now_ms i p s =
    if ltb 0 i && not (i == slot) && is_in_game p.state
    then if_built (new_player_packet i) (queue_for slot now_ms) s
    else s

abbrev pub tell_of_players : ℕ → ℕ → ℕ → List Peer → Server → Server
tell_of_players slot now_ms i [] s = s
tell_of_players slot now_ms i (p ∷ ps) s =
    tell_of_players slot now_ms (suc i) ps (tell_of_player slot now_ms i p s)

abbrev pub send_mission : ℕ → ℕ → Server → Server
send_mission slot now_ms s =
    if_built
      (build_mission_init s.system_index player_limit s.time_limit (end_time s.round_end_time)
        s.frag_limit (replicate 32 0) 32)
      (queue_for slot now_ms) s

-- The joining player's own entry goes to the player and to the others.
abbrev pub announce : ℕ → ℕ → Server → Server
announce slot now_ms s =
    if_built (new_player_packet slot)
      (λ payload len s'. relay slot now_ms payload len (queue_to slot payload len now_ms s')) s

abbrev pub new_player_in_game : ℕ → List ℕ → ℕ → Server → Server
new_player_in_game slot payload now_ms s =
    if ltb (length payload) 2
    then s
    else let s1 =
        relay slot now_ms payload (length payload)
          (set_peer slot (λ p. record p { state = in_game }) s) in
      let s2 = announce slot now_ms (send_mission slot now_ms s1) in
      flush_slot slot (tell_of_players slot now_ms 0 s2.peers.peers s2)

-- `payload[1..4]`, the lowest byte first
abbrev pub word_at_1 : List ℕ → ℕ
word_at_1 payload =
    get_or payload 1 0
    + get_or payload 2 0 * 2 ^ 8
    + get_or payload 3 0 * 2 ^ 16
    + get_or payload 4 0 * 2 ^ 24

-- A player from 2 to 9 is in the slot below, and joins team 0 or 1.
abbrev pub assign_team : ℕ → ℕ → Server → Server
assign_team player_id team_id s =
    if ltb 1 player_id && leb player_id max_players && ltb team_id 2
    then set_peer (player_id - 1)
        (λ p. record p { ship_team_id = if p.has_ship then team_id else p.ship_team_id })
        (record s { player_teams = set s.player_teams (player_id - 1) team_id })
    else s

abbrev pub relay_team : ℕ → List ℕ → ℕ → Server → Server
relay_team slot payload now_ms s =
    relay slot now_ms payload (length payload)
      (if leb 6 (length payload) then assign_team (word_at_1 payload) (get_or payload 5 0) s else s)

abbrev pub if_ship : ℕ → Option Peer → Option Peer
if_ship slot none = none
if_ship slot (some p) = if p.has_ship then some p else none

-- The peer whose ship has an identifier
abbrev pub owner_in : Option ℕ → Server → Option Peer
owner_in none s = none
owner_in (some slot) s =
    if leb max_players (slot + 1)
    then none
    else if_ship (slot + 1) (get_elem? s.peers.peers (slot + 1))

abbrev pub find_peer_by_object : ℕ → Server → Option Peer
find_peer_by_object object_id s = owner_in (object_id_to_slot object_id) s

abbrev pub not_found : ℕ → ℕ → ℕ → Server → Server
not_found slot object_id now_ms s =
    if_built (build_obj_not_found object_id (replicate 8 0) 8) (queue_for slot now_ms) s

abbrev pub send_object : ℕ → ℕ → ℕ → Option Peer → Server → Server
send_object slot object_id now_ms none s = not_found slot object_id now_ms s
send_object slot object_id now_ms (some owner) s =
    if ltb 0 owner.spawn_len
    then queue_to slot owner.spawn_payload owner.spawn_len now_ms s
    else not_found slot object_id now_ms s

abbrev pub request_obj : ℕ → Option ℕ → ℕ → Server → Server
request_obj slot none now_ms s = s
request_obj slot (some object_id) now_ms s =
    send_object slot object_id now_ms (find_peer_by_object object_id s) s

-- The cases of the switch
pub data Case : Type 0 where
  chats relays absorbs joins teams requests fights unhandled : Case

abbrev pub is_in : ℕ → List ℕ → Bool
is_in opcode [] = false
is_in opcode (c ∷ cs) = if opcode == c then true else is_in opcode cs

unfoldable pub case_of : ℕ → Case
case_of opcode =
    if is_in opcode (0x2c ∷ 0x2d ∷ [])
    then chats
    else if is_in opcode
        (0x06 ∷ 0x07 ∷ 0x08 ∷ 0x09 ∷ 0x0a ∷ 0x0b ∷ 0x0c ∷ 0x11 ∷ 0x1b ∷ 0x29 ∷ 0x14 ∷ [])
    then relays
    else if is_in opcode (0x0d ∷ 0x1f ∷ [])
    then absorbs
    else if opcode == 0x2a
    then joins
    else if opcode == 0x41
    then teams
    else if opcode == 0x1e
    then requests
    else if is_in opcode
        (0x0e ∷ 0x0f ∷ 0x10 ∷ 0x12 ∷ 0x19 ∷ 0x1a ∷ 0x1c ∷ 0x02 ∷ 0x03 ∷ 0x39 ∷ 0x13 ∷ 0x15 ∷ [])
    then fights
    else unhandled

-- The handlers of ships and torpedoes, by opcode, slot, payload and clock
abbrev pub Combat : Type 0
Combat = ℕ → ℕ → List ℕ → ℕ → Server → Server

module _ (combat : Combat) where
  abbrev pub play : Case → ℕ → ℕ → List ℕ → ℕ → Server → Server
  play chats opcode slot payload now_ms s = chat slot payload now_ms s
  play relays opcode slot payload now_ms s = relay slot now_ms payload (length payload) s
  play absorbs opcode slot payload now_ms s = s
  play joins opcode slot payload now_ms s = new_player_in_game slot payload now_ms s
  play teams opcode slot payload now_ms s = relay_team slot payload now_ms s
  play requests opcode slot payload now_ms s = request_obj slot (parse_request_obj payload) now_ms s
  play fights opcode slot payload now_ms s = combat opcode slot payload now_ms s
  play unhandled opcode slot payload now_ms s = count_rejected opcode s

  -- Messages of the game are taken from peers in the lobby or the game only.
  abbrev pub gated : ℕ → ℕ → List ℕ → ℕ → Option Peer → Server → Server
  gated opcode slot payload now_ms none s = s
  gated opcode slot payload now_ms (some p) s =
      if not (has_entered p.state)
      then count_rejected opcode s
      else play (case_of opcode) opcode slot payload now_ms s

  abbrev pub dispatch : ℕ → List ℕ → ℕ → Server → Server
  dispatch slot [] now_ms s = s
  dispatch slot (opcode ∷ rest) now_ms s =
      let s1 = count_received opcode s in
      if opcode == op_checksum_resp
      then handle_checksum_response slot (opcode ∷ rest) now_ms s1
      else gated opcode slot (opcode ∷ rest) now_ms (get_elem? s1.peers.peers slot) s1

  abbrev pub dispatch_whole : ℕ → ℕ → Option (List ℕ) × Server → Server
  dispatch_whole slot now_ms (none, s) = s
  dispatch_whole slot now_ms (some payload, s) = dispatch slot payload now_ms s

  unfoldable pub handle_game_message : ℕ → ℕ → ℕ → List ℕ → ℕ → Server → Server
  handle_game_message slot kind flags payload now_ms s =
      if ltb (length payload) 1
      then s
      else dispatch_whole slot now_ms (reassembled slot kind flags payload s)
