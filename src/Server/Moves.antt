-- ===== src/Server/Moves.antt =====
-- Where each handler of server_handshake.c takes the peer of its slot.
use open_bc.Base.{ℕ, suc, ◌+◌, ◌≡◌, refl, sym, ap, ◌∙◌, false, ◌||◌, Option, none, some}
use open_bc.Base.{
  List, [], ◌∷◌, length, get_elem?, set, map, ◌==◌, if_true, if_false, by_branch, Bool-cases,
  Option-cases, ◌⊎◌, inl, inr, u8, replicate,
}
use open_bc.Base.Text.{c_string}
use open_bc.Messages.Build.{build_destroy_obj}
use open_bc.Handshake.Build.{build_delete_player_ui, build_delete_player_anim, build_gameinit}
use open_bc.Peers.{
  Peer, PeerMgr, empty, lobby, is_empty, cleared, peers_remove, remove_at, minus_one,
}
use open_bc.Sending.{has_entered}
use open_bc.Sending.Relay.{Phase, phase}
use open_bc.Server.{Server, set_peer, queue_to, if_built, relay}
use open_bc.Server.Scores.{store_reconnect_score, score_message, team_message, no_player}
use open_bc.Server.Limit.{record_disconnect_ip}
use open_bc.Server.Leave.{
  preserve_scores, note_disconnect, ship_id, ui_ship_id, event_player_removed, relay_destroy,
  relay_ui, tell_others, take_leave, peer_leaves, handle_peer_disconnect,
}
use open_bc.Server.Enter.{
  queue_for, settings_packet, send_start, send_score, send_scores, send_team_scores, send_spawn,
  send_spawns, send_settings_and_gameinit, op_unknown_28,
}
use open_bc.Server.Phases.{
  View, view, Stays, phase_of, map-set, get_elem?-phases, at_slot-view, at_slot-Stays,
  queue_to-Stays, flush_slot-Stays, if_built-Stays, relay-Stays,
}

-- The view with one slot's phase changed.
abbrev pub moved : ℕ → Phase → View → View
moved slot q (phases, policy) = (set phases slot q, policy)

-- Slot `slot` of the view is `q`.
abbrev pub Stands : ℕ → Phase → View → Type 0
Stands slot q v = get_elem? v.0 slot ≡ some q

pub peer_of :
    (slot : ℕ) (q : Phase) (s : Server)
    → Stands slot q (view s)
    → (p : Peer) × (get_elem? s.peers.peers slot ≡ some p) × (phase p ≡ q)
peer_of slot q s h = found (get_elem? s.peers.peers slot) refl
  where
    found :
        (o : Option Peer)
        → get_elem? s.peers.peers slot ≡ o
        → (p : Peer) × (get_elem? s.peers.peers slot ≡ some p) × (phase p ≡ q)
    found none e =
        let missing : none ≡ some q =
          sym (get_elem?-phases s.peers.peers slot ∙ ap phase_of e) ∙ h in
        absurd (cc missing)
    found (some p) e =
        let is : some (phase p) ≡ some q =
          sym (get_elem?-phases s.peers.peers slot ∙ ap phase_of e) ∙ h in
        (p, e, cc is)

pub missing_peer :
    (slot : ℕ) (s : Server) → get_elem? (view s).0 slot ≡ none → get_elem? s.peers.peers slot ≡ none
missing_peer slot s h = elim (Option-cases (get_elem? s.peers.peers slot)) [
  | inl e ↦ e
  | inr (p, e) ↦
      let no : some (phase p) ≡ none =
        sym (get_elem?-phases s.peers.peers slot ∙ ap phase_of e) ∙ h in
      absurd (cc no)
]

pub set_peer-moved :
    (slot : ℕ) (f : Peer → Peer) (s : Server) (q r : Phase)
    → Stands slot q (view s)
    → ((p : Peer) → phase p ≡ q → phase (f p) ≡ r)
    → view (set_peer slot f s) ≡ moved slot r (view s)
set_peer-moved slot f s q r h to =
    let found = peer_of slot q s h in
    at_slot-view slot (λ p. (f p, [])) s found.0 r found.1 (to found.0 found.2)

store-Stays : (slot : ℕ) (p : Peer) → Stays (store_reconnect_score slot p)
unfolding store_reconnect_score
store-Stays slot p s =
    by_branch (λ (s' : Server). view s' ≡ view s) (no_player slot || length (c_string p.name) == 0)
      (λ _. refl) (λ _. refl)

pub tell_others-Stays : (slot : ℕ) (p : Peer) (now_ms : ℕ) → Stays (tell_others slot p now_ms)
tell_others-Stays slot p now_ms s =
    by_branch (λ (s' : Server). view s' ≡ view s) (has_entered p.state)
      (λ _.
        if_built-Stays (build_delete_player_anim (c_string p.name) (replicate 64 0) 64)
          (relay slot now_ms) (relay-Stays slot now_ms)
          (relay_ui slot p now_ms (relay_destroy slot p now_ms s))
        ∙ if_built-Stays
            (build_delete_player_ui event_player_removed 0 (ui_ship_id slot p) (u8 (slot + 1))
              (replicate 64 0) 64)
            (relay slot now_ms) (relay-Stays slot now_ms) (relay_destroy slot p now_ms s)
        ∙ by_branch (λ (s' : Server). view s' ≡ view s) p.has_ship
            (λ _.
              if_built-Stays (build_destroy_obj (ship_id slot p) (replicate 64 0) 64)
                (relay slot now_ms) (relay-Stays slot now_ms) s)
            (λ _. refl))
      (λ _. refl)

-- The last step clears the slot.
take_leave-moved :
    (slot : ℕ) (p : Peer) (now_ms : ℕ) (s : Server) (q : Phase)
    → Stands slot q (view s)
    → is_empty q.0 ≡ false
    → view (take_leave slot p now_ms s) ≡ moved slot (empty, 0) (view s)
unfolding record_disconnect_ip peers_remove
take_leave-moved slot p now_ms s q h occupied =
    ap (λ (o : Option Peer). (map phase (remove_at slot o s1.peers).peers, (view s1).1)) found.1
    ∙ ap (λ (mgr : PeerMgr). (map phase mgr.peers, (view s1).1))
        (if_false s1.peers (ap (λ (x : Phase). is_empty x.0) found.2 ∙ occupied))
    ∙ ap (λ (l : List Phase). (l, (view s1).1)) (map-set phase s1.peers.peers slot cleared)
    ∙ ap (moved slot (empty, 0)) same
  where
    s1 : Server
    s1 = set_peer slot (λ q. record q { respawn_timer = 0; respawn_class = minus_one }) s

    same : view s1 ≡ view s
    same =
        at_slot-Stays slot (λ q. (record q { respawn_timer = 0; respawn_class = minus_one }, []))
          (λ q. refl) s

    found : (r : Peer) × (get_elem? s1.peers.peers slot ≡ some r) × (phase r ≡ q)
    found = peer_of slot q s1 (ap (λ (v : View). get_elem? v.0 slot) same ∙ h)

-- A peer that disconnects leaves its slot empty; the other slots stay where they were.
pub handle_peer_disconnect-moved :
    (slot now_ms : ℕ) (s : Server) (q : Phase)
    → Stands slot q (view s)
    → is_empty q.0 ≡ false
    → view (handle_peer_disconnect slot now_ms s) ≡ moved slot (empty, 0) (view s)
unfolding handle_peer_disconnect
handle_peer_disconnect-moved slot now_ms s q h occupied =
    ap (λ (o : Option Peer). view (peer_leaves slot now_ms o s)) found.1
    ∙ ap view (if_false s (ap (λ (x : Phase). is_empty x.0) found.2 ∙ occupied))
    ∙ take_leave-moved slot found.0 now_ms told q (ap (λ (v : View). get_elem? v.0 slot) same ∙ h)
        occupied
    ∙ ap (moved slot (empty, 0)) same
  where
    found : (p : Peer) × (get_elem? s.peers.peers slot ≡ some p) × (phase p ≡ q)
    found = peer_of slot q s h

    noted : Server
    noted = note_disconnect slot found.0 now_ms (preserve_scores slot found.0 s)

    told : Server
    told = tell_others slot found.0 now_ms noted

    same : view told ≡ view s
    same = tell_others-Stays slot found.0 now_ms noted ∙ store-Stays slot found.0 _

-- A slot out of the table or empty stays as it is.
pub handle_peer_disconnect-either :
    (slot now_ms : ℕ) (s : Server)
    → (view (handle_peer_disconnect slot now_ms s) ≡ view s)
      ⊎ (view (handle_peer_disconnect slot now_ms s) ≡ moved slot (empty, 0) (view s))
unfolding handle_peer_disconnect
handle_peer_disconnect-either slot now_ms s = elim (Option-cases (get_elem? (view s).0 slot)) [
  | inl missing ↦
      inl
        (ap (λ (o : Option Peer). view (peer_leaves slot now_ms o s)) (missing_peer slot s missing))
  | inr (q, h) ↦ elim (Bool-cases (is_empty q.0)) [
    | inl t ↦
        let (p, at_p, is) = peer_of slot q s h in
        inl (
          ap (λ (o : Option Peer). view (peer_leaves slot now_ms o s)) at_p
          ∙ ap view (if_true (leaves p) (ap (λ (x : Phase). is_empty x.0) is ∙ t)))
    | inr t ↦ inr (handle_peer_disconnect-moved slot now_ms s q h t)
  ]
]
  where
    leaves : Peer → Server
    leaves p =
        take_leave slot p now_ms
          (tell_others slot p now_ms (note_disconnect slot p now_ms (preserve_scores slot p s)))

-- What is sent at the start of the lobby moves nobody.
send_score-Stays : (slot now_ms i : ℕ) (p : Peer) → Stays (send_score slot now_ms i p)
send_score-Stays slot now_ms i p s =
    by_branch (λ (s' : Server). view s' ≡ view s) _
      (λ _.
        if_built-Stays (score_message i s) (queue_for slot now_ms)
          (λ payload len. queue_to-Stays slot payload len now_ms) s)
      (λ _. refl)

send_scores-Stays : (slot now_ms i : ℕ) (ps : List Peer) → Stays (send_scores slot now_ms i ps)
send_scores-Stays slot now_ms i [] s = refl
send_scores-Stays slot now_ms i (p ∷ ps) s =
    send_scores-Stays slot now_ms (suc i) ps (send_score slot now_ms i p s)
    ∙ send_score-Stays slot now_ms i p s

send_spawns-Stays : (slot now_ms i : ℕ) (ps : List Peer) → Stays (send_spawns slot now_ms i ps)
send_spawns-Stays slot now_ms i [] s = refl
send_spawns-Stays slot now_ms i (p ∷ ps) s =
    send_spawns-Stays slot now_ms (suc i) ps (send_spawn slot now_ms i p s)
    ∙ by_branch (λ (s' : Server). view s' ≡ view s) _
        (λ _. queue_to-Stays slot p.spawn_payload p.spawn_len now_ms s) (λ _. refl)

pub queued-Stays :
    (slot now_ms : ℕ) (r : Option ℕ × List ℕ) → Stays (if_built r (queue_for slot now_ms))
queued-Stays slot now_ms r =
    if_built-Stays r (queue_for slot now_ms) (λ payload len. queue_to-Stays slot payload len now_ms)

send_team_scores-Stays : (slot now_ms : ℕ) → Stays (send_team_scores slot now_ms)
send_team_scores-Stays slot now_ms s =
    by_branch (λ (s' : Server). view s' ≡ view s) s.team_mode
      (λ _.
        queued-Stays slot now_ms (team_message 1 s)
          (if_built (team_message 0 s) (queue_for slot now_ms) s)
        ∙ queued-Stays slot now_ms (team_message 0 s) s)
      (λ _. refl)

send_start-Stays : (slot now_ms : ℕ) → Stays (send_start slot now_ms)
send_start-Stays slot now_ms s =
    queued-Stays slot now_ms (build_gameinit (replicate 512 0) 512) _
    ∙ queued-Stays slot now_ms (settings_packet slot s)
        (queue_to slot (op_unknown_28 ∷ []) 1 now_ms s)
    ∙ queue_to-Stays slot (op_unknown_28 ∷ []) 1 now_ms s

pub send_settings-moved :
    (slot now_ms : ℕ) (s : Server) (q : Phase)
    → Stands slot q (view s)
    → view (send_settings_and_gameinit slot now_ms s) ≡ moved slot (lobby, q.1) (view s)
unfolding send_settings_and_gameinit
send_settings-moved slot now_ms s q h =
    flush_slot-Stays slot (send_spawns slot now_ms 0 s2.peers.peers s2)
    ∙ send_spawns-Stays slot now_ms 0 s2.peers.peers s2
    ∙ send_team_scores-Stays slot now_ms (send_scores slot now_ms 0 s1.peers.peers s1)
    ∙ send_scores-Stays slot now_ms 0 s1.peers.peers s1
    ∙ set_peer-moved slot (λ p. record p { state = lobby }) (send_start slot now_ms s) q
        (lobby, q.1) (ap (λ (v : View). get_elem? v.0 slot) (send_start-Stays slot now_ms s) ∙ h)
        (λ p e. ap (λ (x : Phase). (lobby, x.1)) e)
    ∙ ap (moved slot (lobby, q.1)) (send_start-Stays slot now_ms s)
  where
    s1 : Server
    s1 = set_peer slot (λ p. record p { state = lobby }) (send_start slot now_ms s)

    s2 : Server
    s2 = send_team_scores slot now_ms (send_scores slot now_ms 0 s1.peers.peers s1)
