-- ===== src/Server/Scores.antt =====
-- Scores kept over a reconnect, at the top of server_handshake.c.
use open_bc.Base.{
  ℕ, suc, Bool, true, false, not, ◌&&◌, ◌||◌, Option, none, some, List, [], ◌∷◌, length,
}
use open_bc.Base.{leb, ◌==◌, if◌then◌else◌, get_elem?, get_or, set, replicate}
use open_bc.Base.Text.{c_string}
use open_bc.EventBus.{same_name}
use open_bc.Messages.Build.{build_score, build_score_init, build_team_score}
use open_bc.Messages.Ids.{player_id_from_peer_slot, is_valid_player_id}
use open_bc.Peers.{Peer, max_players, is_empty}
use open_bc.Server.{Server, ReconnectScore, LedgerEntry, team_none, set_peer, if_built, tell_all}

abbrev pub is_of : List ℕ → ReconnectScore → Bool
is_of name r = r.valid && same_name r.name name

abbrev pub first_index : (ReconnectScore → Bool) → ℕ → List ReconnectScore → Option ℕ
first_index test i [] = none
first_index test i (r ∷ rs) = if test r then some i else first_index test (suc i) rs

-- `none` is -1.
unfoldable pub find_reconnect_score_by_name : List ℕ → Server → Option ℕ
find_reconnect_score_by_name name s =
    if length name == 0 then none else first_index (is_of name) 0 s.reconnect_scores

abbrev pub or_else : Option ℕ → ℕ → ℕ
or_else none d = d
or_else (some i) d = i

unfoldable pub reserve_reconnect_score_slot : List ℕ → Server → ℕ
reserve_reconnect_score_slot name s =
    or_else (find_reconnect_score_by_name name s)
      (or_else (first_index (λ r. not r.valid) 0 s.reconnect_scores) 0)

abbrev pub no_player : ℕ → Bool
no_player slot = slot == 0 || leb max_players slot

-- The ledger without what a slot did and what was done to it.
abbrev pub clear_column : ℕ → List (List LedgerEntry) → List (List LedgerEntry)
clear_column slot [] = []
clear_column slot (row ∷ rows) = set row slot (0, 0) ∷ clear_column slot rows

abbrev pub clear_ledger : ℕ → List (List LedgerEntry) → List (List LedgerEntry)
clear_ledger slot ledger = clear_column slot (set ledger slot (replicate max_players (0, 0)))

unfoldable pub clear_slot_score_state : ℕ → Server → Server
clear_slot_score_state slot s = if no_player slot then s else record s {
  player_scores = set s.player_scores slot 0;
  player_kills = set s.player_kills slot 0;
  player_deaths = set s.player_deaths slot 0;
  player_teams = set s.player_teams slot team_none;
  damage_ledger = clear_ledger slot s.damage_ledger;
}

-- The entry that is kept of a peer; its team is the ship's where the player has none.
abbrev pub kept_score : ℕ → Peer → Server → ReconnectScore
kept_score slot p s = record {
  valid = true;
  name = c_string p.name;
  score = get_or s.player_scores slot 0;
  kills = get_or s.player_kills slot 0;
  deaths = get_or s.player_deaths slot 0;
  team_id =
      let team = get_or s.player_teams slot 0 in
      if team == team_none && p.has_ship then p.ship_team_id else team;
  old_slot = slot;
}

unfoldable pub store_reconnect_score : ℕ → Peer → Server → Server
store_reconnect_score slot p s =
    if no_player slot || length (c_string p.name) == 0 then s else record s {
      reconnect_scores =
          set s.reconnect_scores (reserve_reconnect_score_slot (c_string p.name) s)
            (kept_score slot p s);
    }

abbrev pub slot_is_empty : Option Peer → Bool
slot_is_empty none = false
slot_is_empty (some p) = is_empty p.state

-- The scores of a player come back into a slot, and the slot that they came from is cleared if it is empty.
abbrev pub give_back : ℕ → ReconnectScore → Server → Server
give_back slot r s =
    set_peer slot (λ p. record p { score = r.score; kills = r.kills; deaths = r.deaths })
      (record s {
        player_scores = set s.player_scores slot r.score;
        player_kills = set s.player_kills slot r.kills;
        player_deaths = set s.player_deaths slot r.deaths;
        player_teams = set s.player_teams slot r.team_id;
      })

abbrev pub clear_old : ℕ → ℕ → Server → Server
clear_old slot old_slot s =
    if not (no_player old_slot)
      && not (old_slot == slot)
      && slot_is_empty (get_elem? s.peers.peers old_slot)
    then clear_slot_score_state old_slot s
    else s

-- The score of a slot, as a message: with the team in team mode.
abbrev pub score_message : ℕ → Server → Option ℕ × List ℕ
score_message slot s =
    let player_id = player_id_from_peer_slot (some slot) in
    if s.team_mode
    then build_score_init player_id (get_or s.player_kills slot 0) (get_or s.player_deaths slot 0)
        (get_or s.player_scores slot 0) (get_or s.player_teams slot 0) (replicate 32 0) 32
    else build_score player_id (get_or s.player_kills slot 0) (get_or s.player_deaths slot 0)
        (get_or s.player_scores slot 0) (replicate 32 0) 32

abbrev pub team_message : ℕ → Server → Option ℕ × List ℕ
team_message team s =
    build_team_score team (get_or s.team_kills team 0) (get_or s.team_scores team 0)
      (replicate 16 0) 16

abbrev pub tell_score : ℕ → ℕ → Server → Server
tell_score slot now_ms s =
    if is_valid_player_id (player_id_from_peer_slot (some slot))
    then if_built (score_message slot s) (tell_all now_ms) s
    else s

abbrev pub tell_team : ℕ → ℕ → Server → Server
tell_team team now_ms s = if_built (team_message team s) (tell_all now_ms) s

abbrev pub tell_teams : ℕ → Server → Server
tell_teams now_ms s = if s.team_mode then tell_team 1 now_ms (tell_team 0 now_ms s) else s

abbrev pub forget : ℕ → ReconnectScore → Server → Server
forget idx r s = record s {
  reconnect_scores = set s.reconnect_scores idx (record r { valid = false });
}

abbrev pub restore_entry : ℕ → ℕ → ℕ → Option ReconnectScore → Server → Server
restore_entry slot idx now_ms none s = s
restore_entry slot idx now_ms (some r) s =
    tell_teams now_ms
      (tell_score slot now_ms (forget idx r (clear_old slot r.old_slot (give_back slot r s))))

abbrev pub restore_at : ℕ → ℕ → Option ℕ → Server → Server
restore_at slot now_ms none s = s
restore_at slot now_ms (some idx) s =
    restore_entry slot idx now_ms (get_elem? s.reconnect_scores idx) s

unfoldable pub try_restore_reconnect_score : ℕ → List ℕ → ℕ → Server → Server
try_restore_reconnect_score slot name now_ms s =
    if no_player slot then s else restore_at slot now_ms (find_reconnect_score_by_name name s) s
