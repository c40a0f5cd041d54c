-- ===== src/Server/Enter.antt =====
-- What a peer is sent when the checksums are done, `send_settings_and_gameinit` of server_handshake.c, and the
-- requests before it.
use open_bc.Base.{ℕ, suc, not, ◌&&◌, Option, some, List, [], ◌∷◌}
use open_bc.Base.{ltb, ◌==◌, if◌then◌else◌, replicate, u8, set}
use open_bc.Handshake.Build.{build_checksum_request, build_settings, build_gameinit}
use open_bc.Messages.Ids.{player_id_from_peer_slot, is_valid_player_id}
use open_bc.Peers.{Peer, lobby}
use open_bc.Sending.{has_entered}
use open_bc.Server.{Server, set_peer, queue_to, flush_slot, if_built}
use open_bc.Server.Scores.{score_message, team_message}
use open_bc.Server.Leave.{game_slot}

-- `bc_queue_reliable(slot, payload, len)`
abbrev pub queue_for : ℕ → ℕ → List ℕ → ℕ → Server → Server
queue_for slot now_ms payload len = queue_to slot payload len now_ms

unfoldable pub send_checksum_request : ℕ → ℕ → ℕ → Server → Server
send_checksum_request slot round now_ms s =
    if_built (build_checksum_request round (replicate 256 0) 256)
      (λ payload len s'. flush_slot slot (queue_to slot payload len now_ms s')) s

-- `BC_OP_UNKNOWN_28`
abbrev pub op_unknown_28 : ℕ
op_unknown_28 = 0x28

abbrev pub settings_packet : ℕ → Server → Option ℕ × List ℕ
settings_packet slot s =
    build_settings s.game_time s.collision_dmg s.friendly_fire (u8 (game_slot slot)) s.map_name
      (set (replicate 512 0) 0 op_unknown_28) 512

abbrev pub send_start : ℕ → ℕ → Server → Server
send_start slot now_ms s = if_built (build_gameinit (replicate 512 0) 512) (queue_for slot now_ms) (
    if_built (settings_packet slot s) (queue_for slot now_ms)
      (queue_to slot (op_unknown_28 ∷ []) 1 now_ms s))

-- The scores of the players in the lobby or the game, from slot `i` on.
abbrev pub send_score : ℕ → ℕ → ℕ → Peer → Server → Server
send_score slot now_ms i p s =
    if ltb 0 i && has_entered p.state && is_valid_player_id (player_id_from_peer_slot (some i))
    then if_built (score_message i s) (queue_for slot now_ms) s
    else s

abbrev pub send_scores : ℕ → ℕ → ℕ → List Peer → Server → Server
send_scores slot now_ms i [] s = s
send_scores slot now_ms i (p ∷ ps) s =
    send_scores slot now_ms (suc i) ps (send_score slot now_ms i p s)

abbrev pub send_team_scores : ℕ → ℕ → Server → Server
send_team_scores slot now_ms s =
    if s.team_mode
    then if_built (team_message 1 s) (queue_for slot now_ms)
        (if_built (team_message 0 s) (queue_for slot now_ms) s)
    else s

-- The cached spawn messages of the other players' ships
abbrev pub send_spawn : ℕ → ℕ → ℕ → Peer → Server → Server
send_spawn slot now_ms i p s =
    if ltb 0 i && not (i == slot) && has_entered p.state && p.has_ship && ltb 0 p.spawn_len
    then queue_to slot p.spawn_payload p.spawn_len now_ms s
    else s

abbrev pub send_spawns : ℕ → ℕ → ℕ → List Peer → Server → Server
send_spawns slot now_ms i [] s = s
send_spawns slot now_ms i (p ∷ ps) s =
    send_spawns slot now_ms (suc i) ps (send_spawn slot now_ms i p s)

-- The loops go through the table as it is when they begin: they change one peer's queues only.
unfoldable pub send_settings_and_gameinit : ℕ → ℕ → Server → Server
send_settings_and_gameinit slot now_ms s =
    let s1 = set_peer slot (λ p. record p { state = lobby }) (send_start slot now_ms s) in
    let s2 = send_team_scores slot now_ms (send_scores slot now_ms 0 s1.peers.peers s1) in
    flush_slot slot (send_spawns slot now_ms 0 s2.peers.peers s2)
