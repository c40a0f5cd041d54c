-- ===== src/Dispatch/Quiet/Play.antt =====
-- The messages of the game that move no peer, in src/server/server_dispatch.c.
use open_bc.Base.{
  ℕ, suc, ◌≡◌, refl, ◌∙◌, Bool, true, false, not, ◌&&◌, Option, none, some, List, [], ◌∷◌,
}
use open_bc.Base.{
  ◌-◌, if◌then◌else◌, length, get_elem?, get_or, set, ltb, leb, ◌==◌, by_branch, replicate,
}
use open_bc.Handshake.Build.{build_mission_init}
use open_bc.Messages.Build.{build_obj_not_found}
use open_bc.Fragment.{Fragment, fragment_receive, fragment_reset}
use open_bc.Peers.{Peer, max_players}
use open_bc.Server.{Server, queue_to, relay}
use open_bc.Server.Scores.{}
use open_bc.Server.Phases.{view, Stays, queue_to-Stays, if_built-Stays, relay-Stays}
use open_bc.Server.Moves.{queued-Stays}
use open_bc.Dispatch.Game.{
  collect, collected, reassembled, is_fragment, send_mission, announce, new_player_packet,
  tell_of_player, tell_of_players, player_limit, end_time, relay_team, assign_team, word_at_1,
  request_obj, send_object, not_found, find_peer_by_object, is_in_game,
}
use open_bc.Dispatch.Packet.{}
use open_bc.Dispatch.Quiet.Restore.{set_peer-Stays}

-- Fragments.
collected-view :
    (slot : ℕ) (r : Bool × Fragment) (s : Server) → view (collected slot r s).1 ≡ view s
collected-view slot (true, f) s =
    set_peer-Stays slot (λ p. record p { fragment = fragment_reset f }) (λ p. refl) s
collected-view slot (false, f) s =
    set_peer-Stays slot (λ p. record p { fragment = f }) (λ p. refl) s

collect-view :
    (slot : ℕ) (payload : List ℕ) (o : Option Peer) (s : Server)
    → view (collect slot payload o s).1 ≡ view s
collect-view slot payload none s = refl
collect-view slot payload (some p) s =
    collected-view slot (fragment_receive payload (length payload) p.fragment) s

pub reassembled-view :
    (slot kind flags : ℕ) (payload : List ℕ) (s : Server)
    → view (reassembled slot kind flags payload s).1 ≡ view s
reassembled-view slot kind flags payload s =
    by_branch (λ (r : Option (List ℕ) × Server). view r.1 ≡ view s) (is_fragment kind flags)
      (λ _. collect-view slot payload (get_elem? s.peers.peers slot) s) (λ _. refl)

-- The game's messages.
pub send_mission-Stays : (slot now_ms : ℕ) → Stays (send_mission slot now_ms)
send_mission-Stays slot now_ms s =
    queued-Stays slot now_ms
      (build_mission_init s.system_index player_limit s.time_limit (end_time s.round_end_time)
        s.frag_limit (replicate 32 0) 32)
      s

pub announce-Stays : (slot now_ms : ℕ) → Stays (announce slot now_ms)
announce-Stays slot now_ms =
    if_built-Stays (new_player_packet slot)
      (λ payload len s'. relay slot now_ms payload len (queue_to slot payload len now_ms s'))
      (λ payload len s.
        relay-Stays slot now_ms payload len (queue_to slot payload len now_ms s)
        ∙ queue_to-Stays slot payload len now_ms s)

pub tell_of_players-Stays :
    (slot now_ms i : ℕ) (ps : List Peer) → Stays (tell_of_players slot now_ms i ps)
tell_of_players-Stays slot now_ms i [] s = refl
tell_of_players-Stays slot now_ms i (p ∷ ps) s =
    tell_of_players-Stays slot now_ms (suc i) ps (tell_of_player slot now_ms i p s)
    ∙ by_branch (λ (s' : Server). view s' ≡ view s)
        (ltb 0 i && not (i == slot) && is_in_game p.state)
        (λ _. queued-Stays slot now_ms (new_player_packet i) s) (λ _. refl)

assign_team-Stays : (player_id team_id : ℕ) → Stays (assign_team player_id team_id)
assign_team-Stays player_id team_id s =
    by_branch (λ (s' : Server). view s' ≡ view s)
      (ltb 1 player_id && leb player_id max_players && ltb team_id 2)
      (λ _.
        set_peer-Stays (player_id - 1)
          (λ p. record p { ship_team_id = if p.has_ship then team_id else p.ship_team_id })
          (λ p. refl) (record s { player_teams = set s.player_teams (player_id - 1) team_id }))
      (λ _. refl)

pub relay_team-Stays :
    (slot : ℕ) (payload : List ℕ) (now_ms : ℕ) → Stays (relay_team slot payload now_ms)
relay_team-Stays slot payload now_ms s =
    relay-Stays slot now_ms payload (length payload)
      (if leb 6 (length payload) then assign_team (word_at_1 payload) (get_or payload 5 0) s else s)
    ∙ by_branch (λ (s' : Server). view s' ≡ view s) (leb 6 (length payload))
        (λ _. assign_team-Stays (word_at_1 payload) (get_or payload 5 0) s) (λ _. refl)

not_found-Stays : (slot object_id now_ms : ℕ) → Stays (not_found slot object_id now_ms)
not_found-Stays slot object_id now_ms =
    queued-Stays slot now_ms (build_obj_not_found object_id (replicate 8 0) 8)

send_object-Stays :
    (slot object_id now_ms : ℕ) (o : Option Peer) → Stays (send_object slot object_id now_ms o)
send_object-Stays slot object_id now_ms none s = not_found-Stays slot object_id now_ms s
send_object-Stays slot object_id now_ms (some owner) s =
    by_branch (λ (s' : Server). view s' ≡ view s) (ltb 0 owner.spawn_len)
      (λ _. queue_to-Stays slot owner.spawn_payload owner.spawn_len now_ms s)
      (λ _. not_found-Stays slot object_id now_ms s)

pub request_obj-Stays : (slot : ℕ) (o : Option ℕ) (now_ms : ℕ) → Stays (request_obj slot o now_ms)
request_obj-Stays slot none now_ms s = refl
request_obj-Stays slot (some object_id) now_ms s =
    send_object-Stays slot object_id now_ms (find_peer_by_object object_id s) s
