-- ===== src/Server/Leave.antt =====
-- `bc_handle_peer_disconnect` of server_handshake.c.
use open_bc.Base.{ℕ, ◌+◌, ◌-◌, Bool, ◌&&◌, Option, none, some, List, [], ◌∷◌, ◌++◌}
use open_bc.Base.{ltb, ◌==◌, if◌then◌else◌, get_elem?, set, replicate, u8}
use open_bc.Base.Text.{c_string}
use open_bc.Messages.Build.{build_destroy_obj}
use open_bc.Messages.Ids.{make_ship_id}
use open_bc.Handshake.Build.{build_delete_player_ui, build_delete_player_anim, is_negative}
use open_bc.Peers.{Peer, is_empty, minus_one, peers_remove}
use open_bc.Sending.{has_entered}
use open_bc.Server.{Server, PlayerRecord, master_statechanged, set_peer, if_built, relay, next32}
use open_bc.Server.Scores.{clear_ledger, store_reconnect_score}
use open_bc.Server.Limit.{record_disconnect_ip}

-- The score and team entries that outlive the peer.
abbrev pub preserve_scores : ℕ → Peer → Server → Server
preserve_scores slot p s = store_reconnect_score slot p (record s {
  player_scores = set s.player_scores slot p.score;
  player_kills = set s.player_kills slot p.kills;
  player_deaths = set s.player_deaths slot p.deaths;
  player_teams = if p.has_ship then set s.player_teams slot p.ship_team_id else s.player_teams;
})

abbrev pub is_open_record : ℕ → PlayerRecord → Bool
is_open_record connect_time r = r.disconnect_time == 0 && r.connect_time == connect_time

-- The first open record of the connection is closed.
abbrev pub close_record : ℕ → ℕ → List PlayerRecord → List PlayerRecord
close_record connect_time now_ms [] = []
close_record connect_time now_ms (r ∷ rs) =
    if is_open_record connect_time r
    then record r { disconnect_time = now_ms } ∷ rs
    else r ∷ close_record connect_time now_ms rs

abbrev pub note_disconnect : ℕ → Peer → ℕ → Server → Server
note_disconnect slot p now_ms s = record s {
  damage_ledger = clear_ledger slot s.damage_ledger;
  disconnects = next32 s.disconnects;
  players = close_record p.connect_time now_ms s.players;
}

abbrev pub game_slot : ℕ → ℕ
game_slot slot = if ltb 0 slot then slot - 1 else 0

-- The ship that is removed from the game, by its identifier or by the slot's.
abbrev pub ship_id : ℕ → Peer → ℕ
ship_id slot p = if is_negative p.object_id then make_ship_id (game_slot slot) else p.object_id

abbrev pub ui_ship_id : ℕ → Peer → ℕ
ui_ship_id slot p = if p.has_ship then p.ship_object_id else make_ship_id (u8 (game_slot slot))

-- `BC_EVENT_PLAYER_REMOVED`
abbrev pub event_player_removed : ℕ
event_player_removed = 0x6_0005

abbrev pub relay_destroy : ℕ → Peer → ℕ → Server → Server
relay_destroy slot p now_ms s =
    if p.has_ship
    then if_built (build_destroy_obj (ship_id slot p) (replicate 64 0) 64) (relay slot now_ms) s
    else s

abbrev pub relay_ui : ℕ → Peer → ℕ → Server → Server
relay_ui slot p now_ms s =
    if_built
      (build_delete_player_ui event_player_removed 0 (ui_ship_id slot p) (u8 (slot + 1))
        (replicate 64 0) 64)
      (relay slot now_ms) s

abbrev pub relay_anim : ℕ → Peer → ℕ → Server → Server
relay_anim slot p now_ms s =
    if_built (build_delete_player_anim (c_string p.name) (replicate 64 0) 64) (relay slot now_ms) s

abbrev pub tell_others : ℕ → Peer → ℕ → Server → Server
tell_others slot p now_ms s =
    if has_entered p.state
    then relay_anim slot p now_ms (relay_ui slot p now_ms (relay_destroy slot p now_ms s))
    else s

-- The end: the respawn fields, the address in the ring, the slot, the master servers.
abbrev pub take_leave : ℕ → Peer → ℕ → Server → Server
take_leave slot p now_ms s =
    let s1 = set_peer slot (λ q. record q { respawn_timer = 0; respawn_class = minus_one }) s in
    let s2 = record_disconnect_ip p.addr.ip now_ms s1 in
    record s2 {
      peers = peers_remove slot s2.peers;
      output = s2.output ++ (master_statechanged ∷ []);
    }

abbrev pub peer_leaves : ℕ → ℕ → Option Peer → Server → Server
peer_leaves slot now_ms none s = s
peer_leaves slot now_ms (some p) s =
    if is_empty p.state
    then s
    else take_leave slot p now_ms
        (tell_others slot p now_ms (note_disconnect slot p now_ms (preserve_scores slot p s)))

unfoldable pub handle_peer_disconnect : ℕ → ℕ → Server → Server
handle_peer_disconnect slot now_ms s = peer_leaves slot now_ms (get_elem? s.peers.peers slot) s
