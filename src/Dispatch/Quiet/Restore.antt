-- ===== src/Dispatch/Quiet/Restore.antt =====
-- What gives a player's scores back in src/server/server_handshake.c moves no peer.
use open_bc.Base.{ℕ, ◌≡◌, refl, ◌∙◌, not, ◌&&◌, Option, none, some, List, []}
use open_bc.Base.{get_elem?, set, ◌==◌, by_branch}
use open_bc.Messages.Ids.{player_id_from_peer_slot, is_valid_player_id}
use open_bc.Peers.{Peer}
use open_bc.Sending.Relay.{phase}
use open_bc.Server.{Server, ReconnectScore, set_peer, if_built, tell_all}
use open_bc.Server.Scores.{
  try_restore_reconnect_score, restore_at, restore_entry, no_player, give_back, clear_old,
  slot_is_empty, tell_score, tell_team, tell_teams, score_message, team_message, forget,
  find_reconnect_score_by_name,
}
use open_bc.Server.Phases.{view, Stays, at_slot-Stays, if_built-Stays, tell_all-Stays}
use open_bc.Server.Seats.{clear_slot-Stays}
use open_bc.Dispatch.Game.{}
use open_bc.Dispatch.Packet.{}

-- A change of one peer that keeps its phase.
pub set_peer-Stays :
    (slot : ℕ) (f : Peer → Peer) → ((p : Peer) → phase (f p) ≡ phase p) → Stays (set_peer slot f)
set_peer-Stays slot f kept = at_slot-Stays slot (λ p. (f p, [])) kept

pub told-Stays : (now_ms : ℕ) (r : Option ℕ × List ℕ) → Stays (if_built r (tell_all now_ms))
told-Stays now_ms r = if_built-Stays r (tell_all now_ms) (tell_all-Stays now_ms)

-- Scores that come back.
clear_old-Stays : (slot old_slot : ℕ) → Stays (clear_old slot old_slot)
clear_old-Stays slot old_slot s =
    by_branch (λ (s' : Server). view s' ≡ view s)
      (not (no_player old_slot)
        && not (old_slot == slot)
        && slot_is_empty (get_elem? s.peers.peers old_slot))
      (λ _. clear_slot-Stays old_slot s) (λ _. refl)

give_back-Stays : (slot : ℕ) (r : ReconnectScore) → Stays (give_back slot r)
give_back-Stays slot r s =
    set_peer-Stays slot (λ p. record p { score = r.score; kills = r.kills; deaths = r.deaths })
      (λ p. refl)
      (record s {
        player_scores = set s.player_scores slot r.score;
        player_kills = set s.player_kills slot r.kills;
        player_deaths = set s.player_deaths slot r.deaths;
        player_teams = set s.player_teams slot r.team_id;
      })

tell_score-Stays : (slot now_ms : ℕ) → Stays (tell_score slot now_ms)
tell_score-Stays slot now_ms s =
    by_branch (λ (s' : Server). view s' ≡ view s)
      (is_valid_player_id (player_id_from_peer_slot (some slot)))
      (λ _. told-Stays now_ms (score_message slot s) s) (λ _. refl)

tell_teams-Stays : (now_ms : ℕ) → Stays (tell_teams now_ms)
tell_teams-Stays now_ms s =
    by_branch (λ (s' : Server). view s' ≡ view s) s.team_mode
      (λ _.
        told-Stays now_ms (team_message 1 (tell_team 0 now_ms s)) (tell_team 0 now_ms s)
        ∙ told-Stays now_ms (team_message 0 s) s)
      (λ _. refl)

restore_at-Stays : (slot now_ms : ℕ) (found : Option ℕ) → Stays (restore_at slot now_ms found)
restore_at-Stays slot now_ms none s = refl
restore_at-Stays slot now_ms (some idx) s = entry (get_elem? s.reconnect_scores idx)
  where
    entry : (o : Option ReconnectScore) → view (restore_entry slot idx now_ms o s) ≡ view s
    entry none = refl
    entry (some r) =
        tell_teams-Stays now_ms
          (tell_score slot now_ms (forget idx r (clear_old slot r.old_slot (give_back slot r s))))
        ∙ tell_score-Stays slot now_ms
            (forget idx r (clear_old slot r.old_slot (give_back slot r s)))
        ∙ clear_old-Stays slot r.old_slot (give_back slot r s)
        ∙ give_back-Stays slot r s

pub try_restore-Stays :
    (slot : ℕ) (name : List ℕ) (now_ms : ℕ) → Stays (try_restore_reconnect_score slot name now_ms)
unfolding try_restore_reconnect_score
try_restore-Stays slot name now_ms s =
    by_branch (λ (s' : Server). view s' ≡ view s) (no_player slot) (λ _. refl)
      (λ _. restore_at-Stays slot now_ms (find_reconnect_score_by_name name s) s)
