-- ===== src/Server/Looks.antt =====
-- What src/server/server_handshake.c does, when a peer leaves, to a view of the table that neither a peer's
-- queue nor its outbox changes.
use open_bc.Base.{ℕ, ◌+◌, ◌≡◌, refl, ap, ◌∙◌, true, false, ◌||◌, Option, none, some}
use open_bc.Base.{
  List, [], length, get_elem?, set, map, ltb, ◌==◌, if_false, by_branch, u8, replicate,
}
use open_bc.Base.Text.{c_string}
use open_bc.Messages.Build.{build_destroy_obj}
use open_bc.Handshake.Build.{build_delete_player_ui, build_delete_player_anim}
use open_bc.Outbox.{Outbox}
use open_bc.Peers.{Peer, is_empty, cleared, peers_remove, remove_at, minus_one}
use open_bc.Sending.{Datagram, tracked, has_entered, is_other, relay_to_others}
use open_bc.Sending.Relay.{Phase, phase, queue_from-look}
use open_bc.Server.{Server, put_peer, changed, at_slot, if_built, relay}
use open_bc.Server.Scores.{store_reconnect_score, no_player}
use open_bc.Server.Limit.{record_disconnect_ip}
use open_bc.Server.Leave.{
  preserve_scores, note_disconnect, ship_id, ui_ship_id, event_player_removed, relay_destroy,
  relay_ui, tell_others, peer_leaves, handle_peer_disconnect,
}
use open_bc.Server.Phases.{View, map-set, set-map_same, phase_of, get_elem?-phases, at_slot-Stays}
use open_bc.Server.Moves.{peer_of, tell_others-Stays}

abbrev pub looks : {X : Type 0} → (Peer → X) → Server → List X
looks look s = map look s.peers.peers

-- A change of one slot that the view does not show
pub at_slot-look :
    {X : Type 0} (look : Peer → X) (slot : ℕ) (f : Peer → Peer × List Datagram)
    → ((p : Peer) → look (f p).0 ≡ look p)
    → (s : Server) → looks look (at_slot slot f s) ≡ looks look s
unfolding at_slot
at_slot-look {X} look slot f kept s = found (get_elem? s.peers.peers slot) refl
  where
    found :
        (o : Option Peer)
        → get_elem? s.peers.peers slot ≡ o
        → looks look (put_peer slot s (changed f o)) ≡ looks look s
    found none e = refl
    found (some p) e =
        map-set look s.peers.peers slot (f p).0
        ∙ set-map_same look s.peers.peers slot p (look (f p).0) e (kept p)

store-look :
    {X : Type 0} (look : Peer → X) (slot : ℕ) (p : Peer) (s : Server)
    → looks look (store_reconnect_score slot p s) ≡ looks look s
unfolding store_reconnect_score
store-look look slot p s =
    by_branch (λ (s' : Server). looks look s' ≡ looks look s)
      (no_player slot || length (c_string p.name) == 0) (λ _. refl) (λ _. refl)

module _ {X : Type 0} (look : Peer → X)
    (tracked-look : (payload : List ℕ) (len now_ms : ℕ) (p : Peer)
      → look (tracked payload len now_ms p) ≡ look p)
    (outbox-look : (o : Outbox) (p : Peer) → look (record p { outbox = o }) ≡ look p) where
  relay-look :
      (slot now_ms : ℕ) (r : Option ℕ × List ℕ) (s : Server)
      → looks look (if_built r (relay slot now_ms) s) ≡ looks look s
  unfolding relay relay_to_others
  relay-look slot now_ms (none, buf) s = refl
  relay-look slot now_ms (some len, buf) s =
      by_branch (λ (s' : Server). looks look s' ≡ looks look s) (ltb 0 len)
        (λ _.
          queue_from-look look tracked-look outbox-look (is_other slot) true buf len now_ms 0
            s.peers.peers)
        (λ _. refl)

  tell_others-look :
      (slot : ℕ) (p : Peer) (now_ms : ℕ) (s : Server)
      → looks look (tell_others slot p now_ms s) ≡ looks look s
  tell_others-look slot p now_ms s =
      by_branch (λ (s' : Server). looks look s' ≡ looks look s) (has_entered p.state)
        (λ _.
          relay-look slot now_ms (build_delete_player_anim (c_string p.name) (replicate 64 0) 64)
            (relay_ui slot p now_ms (relay_destroy slot p now_ms s))
          ∙ relay-look slot now_ms
              (build_delete_player_ui event_player_removed 0 (ui_ship_id slot p) (u8 (slot + 1))
                (replicate 64 0) 64)
              (relay_destroy slot p now_ms s)
          ∙ by_branch (λ (s' : Server). looks look s' ≡ looks look s) p.has_ship
              (λ _.
                relay-look slot now_ms (build_destroy_obj (ship_id slot p) (replicate 64 0) 64) s)
              (λ _. refl))
        (λ _. refl)

  module _
      (respawn-look : (p : Peer)
        → look (record p { respawn_timer = 0; respawn_class = minus_one }) ≡ look p) where
    -- A peer that leaves: its slot is cleared, and the view shows no other change.
    pub handle_peer_disconnect-look :
        (slot now_ms : ℕ) (s : Server) (p : Peer)
        → get_elem? s.peers.peers slot ≡ some p
        → is_empty p.state ≡ false
        → looks look (handle_peer_disconnect slot now_ms s) ≡ set (looks look s) slot (look cleared)
    unfolding handle_peer_disconnect record_disconnect_ip peers_remove
    handle_peer_disconnect-look slot now_ms s p at_p occupied =
        ap (λ (o : Option Peer). looks look (peer_leaves slot now_ms o s)) at_p
        ∙ ap (looks look) (if_false s occupied)
        ∙ ap (λ (o : Option Peer). map look (remove_at slot o s1.peers).peers) found.1
        ∙ ap (λ mgr. map look mgr.peers)
            (if_false s1.peers (ap (λ (x : Phase). is_empty x.0) found.2 ∙ occupied))
        ∙ map-set look s1.peers.peers slot cleared
        ∙ ap (λ l. set l slot (look cleared)) same
      where
        noted : Server
        noted = note_disconnect slot p now_ms (preserve_scores slot p s)

        told : Server
        told = tell_others slot p now_ms noted

        reset : Peer → Peer × List Datagram
        reset q = (record q { respawn_timer = 0; respawn_class = minus_one }, [])

        s1 : Server
        s1 = at_slot slot reset told

        same : looks look s1 ≡ looks look s
        same =
            at_slot-look look slot reset respawn-look told
            ∙ tell_others-look slot p now_ms noted
            ∙ store-look look slot p _

        same_phases : looks phase s1 ≡ looks phase s
        same_phases =
            ap (λ (v : View). v.0)
              (at_slot-Stays slot reset (λ q. refl) told ∙ tell_others-Stays slot p now_ms noted)
            ∙ store-look phase slot p _

        found : (r : Peer) × (get_elem? s1.peers.peers slot ≡ some r) × (phase r ≡ phase p)
        found = peer_of slot (phase p) s1 (
            ap (λ (l : List Phase). get_elem? l slot) same_phases
            ∙ get_elem?-phases s.peers.peers slot
            ∙ ap phase_of at_p)
