-- ===== src/Server/Reconnect.antt =====
-- The scores of a player who leaves and comes back, src/server/server_handshake.c.
use open_bc.Base.{
  ℕ, ◌<◌, ◌≡◌, ◌≢◌, refl, ap, ◌∙◌, arith, Bool, true, false, not, ◌&&◌, ◌||◌, Option, some,
}
use open_bc.Base.{
  List, [], length, get_elem?, get_or, get_or-set_self, get_or-set_ne, set, ◌==◌, if◌then◌else◌,
  if_false, by_branch, ==_iff,
}
use open_bc.Base.Text.{c_string}
use open_bc.Peers.{Peer, max_players, minus_one, is_empty}
use open_bc.Server.{team_none, Server, ReconnectScore}
use open_bc.Server.Scores.{
  is_of, first_index, find_reconnect_score_by_name, reserve_reconnect_score_slot, no_player,
  kept_score, store_reconnect_score, give_back, clear_old, clear_slot_score_state, tell_score,
  forget, restore_entry, restore_at, try_restore_reconnect_score, slot_is_empty,
}
use open_bc.Server.Limit.{record_disconnect_ip}
use open_bc.Server.Leave.{
  preserve_scores, note_disconnect, tell_others, peer_leaves, handle_peer_disconnect,
}
use open_bc.Server.Kept.{get_elem?-written, same_name_refl, find_lem, stored}
use open_bc.Server.Blind.{tell_others-blind, tell_score-blind, tell_teams-blind, at_slot-blind}

-- A player's score, kills, deaths and team in the server's tables
abbrev pub Score : Type 0
Score = ℕ × ℕ × ℕ × ℕ

abbrev pub score_of : ℕ → Server → Score
score_of slot s = (
  get_or s.player_scores slot 0,
  get_or s.player_kills slot 0,
  get_or s.player_deaths slot 0,
  get_or s.player_teams slot 0,
)

-- The tables of scores have their nine entries.
pub record HasTables (s : Server) : Type 0 where
  pub scores : length s.player_scores ≡ max_players
  pub kills : length s.player_kills ≡ max_players
  pub deaths : length s.player_deaths ≡ max_players
  pub teams : length s.player_teams ≡ max_players

abbrev entry_score : ReconnectScore → Score
entry_score r = (r.score, r.kills, r.deaths, r.team_id)

give_back-score :
    (slot : ℕ) (r : ReconnectScore) (s : Server)
    → HasTables s
    → slot < max_players
    → score_of slot (give_back slot r s) ≡ entry_score r
give_back-score slot r s h small =
    at_slot-blind (score_of slot) (λ s mgr out. refl) slot
      (λ p. (record p { score = r.score; kills = r.kills; deaths = r.deaths }, []))
      (record s {
        player_scores = set s.player_scores slot r.score;
        player_kills = set s.player_kills slot r.kills;
        player_deaths = set s.player_deaths slot r.deaths;
        player_teams = set s.player_teams slot r.team_id;
      })
    ∙ (λ i. (
      get_or-set_self s.player_scores slot r.score 0 (omega (arith, h.scores)) i,
      get_or-set_self s.player_kills slot r.kills 0 (omega (arith, h.kills)) i,
      get_or-set_self s.player_deaths slot r.deaths 0 (omega (arith, h.deaths)) i,
      get_or-set_self s.player_teams slot r.team_id 0 (omega (arith, h.teams)) i,
    ))

clear_old-score :
    (slot old : ℕ) (s : Server) → score_of slot (clear_old slot old s) ≡ score_of slot s
unfolding clear_slot_score_state
clear_old-score slot old s =
    by_branch (λ (s' : Server). score_of slot s' ≡ score_of slot s)
      (not (no_player old) && not (old == slot) && slot_is_empty (get_elem? s.peers.peers old))
      (λ t.
        let other : old ≢ slot = λ e. other_slot (old == slot) ((==_iff old slot).1 e) t in
        by_branch (λ (s' : Server). score_of slot s' ≡ score_of slot s) (no_player old) (λ _. refl)
          (λ _ i. (
            get_or-set_ne s.player_scores old slot 0 0 other i,
            get_or-set_ne s.player_kills old slot 0 0 other i,
            get_or-set_ne s.player_deaths old slot 0 0 other i,
            get_or-set_ne s.player_teams old slot 255 0 other i,
          )))
      (λ _. refl)
  where
    other_slot :
        (same : Bool)
        → same ≡ true
        → (not (no_player old) && not same && slot_is_empty (get_elem? s.peers.peers old)) ≡ true
        → ⊥
    other_slot same e t = ground (arith, e, t)

restore_entry-score :
    (slot idx now_ms : ℕ) (r : ReconnectScore) (s : Server)
    → HasTables s
    → slot < max_players
    → score_of slot (restore_entry slot idx now_ms (some r) s) ≡ entry_score r
restore_entry-score slot idx now_ms r s h small =
    tell_teams-blind (score_of slot) (λ s mgr out. refl) now_ms (tell_score slot now_ms forgotten)
    ∙ tell_score-blind (score_of slot) (λ s mgr out. refl) slot now_ms forgotten
    ∙ clear_old-score slot r.old_slot (give_back slot r s)
    ∙ give_back-score slot r s h small
  where
    forgotten : Server
    forgotten = forget idx r (clear_old slot r.old_slot (give_back slot r s))

-- What a peer that leaves had
abbrev pub final_score : ℕ → Peer → Server → Score
final_score slot p s = (
  p.score,
  p.kills,
  p.deaths,
  if p.has_ship then p.ship_team_id else get_or s.player_teams slot 0,
)

abbrev noted_scores : ℕ → Peer → Server → Server
noted_scores slot p s = record s {
  player_scores = set s.player_scores slot p.score;
  player_kills = set s.player_kills slot p.kills;
  player_deaths = set s.player_deaths slot p.deaths;
  player_teams = if p.has_ship then set s.player_teams slot p.ship_team_id else s.player_teams;
}

abbrev entry : ℕ → Peer → Server → ReconnectScore
entry slot p s = kept_score slot p (noted_scores slot p s)

leaves_entry :
    (slot now_ms : ℕ) (p : Peer) (s : Server)
    → no_player slot ≡ false
    → get_elem? s.peers.peers slot ≡ some p
    → is_empty p.state ≡ false
    → (length (c_string p.name) == 0) ≡ false
    → (handle_peer_disconnect slot now_ms s).reconnect_scores
      ≡ set s.reconnect_scores (reserve_reconnect_score_slot (c_string p.name) s) (entry slot p s)
unfolding handle_peer_disconnect record_disconnect_ip store_reconnect_score
    reserve_reconnect_score_slot find_reconnect_score_by_name
leaves_entry slot now_ms p s player at_p occupied named =
    ap (λ (o : Option Peer). (peer_leaves slot now_ms o s).reconnect_scores) at_p
    ∙ ap (λ (s' : Server). s'.reconnect_scores) (if_false s occupied)
    ∙ at_slot-blind (λ s'. s'.reconnect_scores) (λ s' mgr out. refl) slot
        (λ q. (record q { respawn_timer = 0; respawn_class = minus_one }, []))
        (tell_others slot p now_ms noted)
    ∙ tell_others-blind (λ s'. s'.reconnect_scores) (λ s' mgr out. refl) slot p now_ms noted
    ∙ ap (λ (s' : Server). s'.reconnect_scores)
        (if_false (noted_scores slot p s) (λ i. player i || named i))
  where
    noted : Server
    noted = note_disconnect slot p now_ms (preserve_scores slot p s)

entry-score :
    (slot : ℕ) (p : Peer) (s : Server)
    → HasTables s
    → slot < max_players
    → entry_score (entry slot p s) ≡ final_score slot p s
entry-score slot p s h small = λ i. (
  get_or-set_self s.player_scores slot p.score 0 (omega (arith, h.scores)) i,
  get_or-set_self s.player_kills slot p.kills 0 (omega (arith, h.kills)) i,
  get_or-set_self s.player_deaths slot p.deaths 0 (omega (arith, h.deaths)) i,
  team p.has_ship i,
)
  where
    and_false : (b : Bool) → (b && false) ≡ false
    and_false true = refl
    and_false false = refl

    team :
        (ship : Bool)
        → (if get_or
                  (if ship then set s.player_teams slot p.ship_team_id else s.player_teams)
                  slot
                  0
                == team_none
              && ship
            then p.ship_team_id
            else get_or
                (if ship then set s.player_teams slot p.ship_team_id else s.player_teams)
                slot
                0)
          ≡ (if ship then p.ship_team_id else get_or s.player_teams slot 0)
    team true =
        by_branch (λ (n : ℕ). n ≡ p.ship_team_id) _ (λ _. refl)
          (λ _. get_or-set_self s.player_teams slot p.ship_team_id 0 (omega (arith, h.teams)))
    team false = if_false p.ship_team_id (and_false (get_or s.player_teams slot 0 == team_none))

-- A player of some name who has left and comes back under it, into whatever slot, gets back the score, kills, deaths
-- and team held on leaving, whatever happened in between, unless it changed the table of kept scores. The tables have
-- their nine entries.
pub scores_return :
    (slot now_ms new_slot later_ms : ℕ) (p : Peer) (s s' : Server)
    → HasTables s
    → length s.reconnect_scores ≡ max_players
    → HasTables s'
    → no_player slot ≡ false
    → no_player new_slot ≡ false
    → get_elem? s.peers.peers slot ≡ some p
    → is_empty p.state ≡ false
    → (length (c_string p.name) == 0) ≡ false
    → s'.reconnect_scores ≡ (handle_peer_disconnect slot now_ms s).reconnect_scores
    → score_of new_slot (try_restore_reconnect_score new_slot (c_string p.name) later_ms s')
      ≡ final_score slot p s
unfolding try_restore_reconnect_score
scores_return slot now_ms new_slot later_ms p s s' h kept h' player new_player at_p occupied named
      same =
    let (j, reserved, small, found) =
      stored (c_string p.name) s (entry slot p s) named (same_name_refl (c_string p.name))
        (omega (arith, kept)) in
    let table : s'.reconnect_scores ≡ set s.reconnect_scores j (entry slot p s) =
      same
      ∙ leaves_entry slot now_ms p s player at_p occupied named
      ∙ ap (λ k. set s.reconnect_scores k (entry slot p s)) reserved in
    ap (score_of new_slot) (if_false s' new_player)
    ∙ ap (λ (o : Option ℕ). score_of new_slot (restore_at new_slot later_ms o s'))
        (find_lem (c_string p.name) s' named
          ∙ ap (first_index (is_of (c_string p.name)) 0) table
          ∙ found)
    ∙ ap (λ (o : Option ReconnectScore). score_of new_slot (restore_entry new_slot j later_ms o s'))
        (ap (λ (l : List ReconnectScore). get_elem? l j) table
          ∙ get_elem?-written s.reconnect_scores j (entry slot p s) small)
    ∙ restore_entry-score new_slot j later_ms (entry slot p s) s' h' (ground (arith, new_player))
    ∙ entry-score slot p s h (ground (arith, player))
