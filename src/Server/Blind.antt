-- ===== src/Server/Blind.antt =====
-- What the messages to other peers in src/server/server_handshake.c leave alone.
use open_bc.Base.{ℕ, ◌+◌, ◌≡◌, refl, ◌∙◌, Option, none, some}
use open_bc.Base.{List, get_elem?, ltb, by_branch, u8, replicate}
use open_bc.Base.Text.{c_string}
use open_bc.Messages.Build.{build_destroy_obj}
use open_bc.Messages.Ids.{player_id_from_peer_slot, is_valid_player_id}
use open_bc.Handshake.Build.{build_delete_player_ui, build_delete_player_anim}
use open_bc.Peers.{Peer, PeerMgr}
use open_bc.Sending.{Datagram, has_entered}
use open_bc.Server.{Server, Output, if_built, relay, tell_all, at_slot, put_peer, changed}
use open_bc.Server.Scores.{tell_score, score_message, tell_team, tell_teams, team_message}
use open_bc.Server.Leave.{
  ship_id, ui_ship_id, event_player_removed, relay_destroy, relay_ui, tell_others,
}

-- What of a server neither the peers nor the output shows
module _ {X : Type 0} (look : Server → X)
    (blind : (s : Server) (mgr : PeerMgr) (out : List Output)
      → look (record s { peers = mgr; output = out }) ≡ look s) where
  if_built-blind :
      (r : Option ℕ × List ℕ) (act : List ℕ → ℕ → Server → Server)
      → ((payload : List ℕ) (len : ℕ) (s : Server) → look (act payload len s) ≡ look s)
      → (s : Server) → look (if_built r act s) ≡ look s
  if_built-blind (none, buf) act h s = refl
  if_built-blind (some len, buf) act h s =
      by_branch (λ (s' : Server). look s' ≡ look s) (ltb 0 len) (λ _. h buf len s) (λ _. refl)

  relay-blind :
      (slot now_ms : ℕ) (payload : List ℕ) (len : ℕ) (s : Server)
      → look (relay slot now_ms payload len s) ≡ look s
  unfolding relay
  relay-blind slot now_ms payload len s = blind s _ _

  tell_all-blind :
      (now_ms : ℕ) (payload : List ℕ) (len : ℕ) (s : Server)
      → look (tell_all now_ms payload len s) ≡ look s
  unfolding tell_all
  tell_all-blind now_ms payload len s = blind s _ _

  pub tell_others-blind :
      (slot : ℕ) (p : Peer) (now_ms : ℕ) (s : Server) → look (tell_others slot p now_ms s) ≡ look s
  tell_others-blind slot p now_ms s =
      by_branch (λ (s' : Server). look s' ≡ look s) (has_entered p.state)
        (λ _.
          if_built-blind (build_delete_player_anim (c_string p.name) (replicate 64 0) 64)
            (relay slot now_ms) (relay-blind slot now_ms)
            (relay_ui slot p now_ms (relay_destroy slot p now_ms s))
          ∙ if_built-blind
              (build_delete_player_ui event_player_removed 0 (ui_ship_id slot p) (u8 (slot + 1))
                (replicate 64 0) 64)
              (relay slot now_ms) (relay-blind slot now_ms) (relay_destroy slot p now_ms s)
          ∙ by_branch (λ (s' : Server). look s' ≡ look s) p.has_ship
              (λ _.
                if_built-blind (build_destroy_obj (ship_id slot p) (replicate 64 0) 64)
                  (relay slot now_ms) (relay-blind slot now_ms) s)
              (λ _. refl))
        (λ _. refl)

  pub tell_score-blind : (slot now_ms : ℕ) (s : Server) → look (tell_score slot now_ms s) ≡ look s
  tell_score-blind slot now_ms s =
      by_branch (λ (s' : Server). look s' ≡ look s)
        (is_valid_player_id (player_id_from_peer_slot (some slot)))
        (λ _. if_built-blind (score_message slot s) (tell_all now_ms) (tell_all-blind now_ms) s)
        (λ _. refl)

  pub tell_teams-blind : (now_ms : ℕ) (s : Server) → look (tell_teams now_ms s) ≡ look s
  tell_teams-blind now_ms s =
      by_branch (λ (s' : Server). look s' ≡ look s) s.team_mode
        (λ _.
          if_built-blind (team_message 1 (tell_team 0 now_ms s)) (tell_all now_ms)
            (tell_all-blind now_ms) (tell_team 0 now_ms s)
          ∙ if_built-blind (team_message 0 s) (tell_all now_ms) (tell_all-blind now_ms) s)
        (λ _. refl)

  pub at_slot-blind :
      (slot : ℕ) (f : Peer → Peer × List Datagram) (s : Server) → look (at_slot slot f s) ≡ look s
  unfolding at_slot
  at_slot-blind slot f s = found (get_elem? s.peers.peers slot)
    where
      found : (o : Option Peer) → look (put_peer slot s (changed f o)) ≡ look s
      found none = refl
      found (some p) = blind s _ _
