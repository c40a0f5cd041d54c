-- ===== src/Server/Seats.antt =====
-- Where `bc_handle_connect` of server_handshake.c seats a peer.
use open_bc.Base.{
  ℕ, ◌+◌, ◌≡◌, ◌⊎◌, inl, inr, refl, sym, ap, ◌∙◌, Bool, true, not, Option, none, some,
}
use open_bc.Base.{
  List, [], ◌∷◌, ◌++◌, get_elem?, set, ltb, map, by_branch, replicate, get_elem?-append, set-append,
  set-set,
}
use open_bc.Base.Scan.{Outcome, Found, update_first, update_first-Outcome}
use open_bc.Handshake.Build.{build_bootplayer, build_checksum_request}
use open_bc.Peers.{
  Addr, Peer, PeerMgr, empty, checksumming, is_empty, connecting, checksumming_final, lobby,
  in_game, peers_find, peers_add, connected, seated,
}
use open_bc.Sending.{send_unreliable_direct}
use open_bc.Sending.Relay.{Phase, phase}
use open_bc.Server.{Server, put_out, set_peer, if_built, next32}
use open_bc.Server.Scores.{clear_slot_score_state, no_player}
use open_bc.Server.Limit.{connect_rate_limited}
use open_bc.Server.Connect.{
  boot_directly, boot_generic, boot_server_full, count_connection, first_request, greet, new_peer,
  seat, is_known, handle_connect,
}
use open_bc.Server.Phases.{
  View, view, Stays, phase_of, get_elem?-phases, at_slot-view, at_slot-Stays, map-set,
}
use open_bc.Server.Moves.{moved, Stands, peer_of}

-- A peer that was given the slot, which was empty.
pub record Seated (before after : View) : Type 0 where
  pub slot : ℕ
  pub old_round : ℕ
  pub was_empty : Stands slot (empty, old_round) before
  pub seated_at : after ≡ moved slot (checksumming, 0) before

boot_directly-Stays : (a : Addr) (reason : ℕ) → Stays (boot_directly a reason)
boot_directly-Stays a reason s = kept (build_bootplayer reason (replicate 4 0) 4)
  where
    kept :
        (r : Option ℕ × List ℕ)
        → view (if_built r (λ payload len s'. put_out (send_unreliable_direct a payload len) s') s)
          ≡ view s
    kept (none, buf) = refl
    kept (some len, buf) =
        by_branch (λ (s' : Server). view s' ≡ view s) (ltb 0 len) (λ _. refl) (λ _. refl)

pub clear_slot-Stays : (slot : ℕ) → Stays (clear_slot_score_state slot)
unfolding clear_slot_score_state
clear_slot-Stays slot s =
    by_branch (λ (s' : Server). view s' ≡ view s) (no_player slot) (λ _. refl) (λ _. refl)

first_request-phase :
    (r : Option ℕ × List ℕ) (slot now_ms : ℕ) (p : Peer)
    → phase (first_request r slot now_ms p).0 ≡ phase p
first_request-phase (none, payload) slot now_ms p = refl
first_request-phase (some len, payload) slot now_ms p =
    by_branch (λ (x : Peer × List ℕ). phase x.0 ≡ phase p) (ltb 0 len) (λ _. refl) (λ _. refl)

-- The slot that `bc_peers_add` finds, in the table before and after.
module _ (test : Peer → Bool) (change : Peer → Peer) where
  slot-Found :
      (ps : List Peer) (i : ℕ) (ps' : List Peer) (h : Found test change ps i ps')
      → get_elem? ps i ≡ some h.slot
  slot-Found ps i ps' h =
      ap (λ (l : List Peer). get_elem? l i) h.before
      ∙ ap (λ k. get_elem? (h.front ++ (h.slot ∷ h.back)) k) h.index
      ∙ get_elem?-append h.front h.slot h.back

  after-Found :
      (ps : List Peer) (i : ℕ) (ps' : List Peer) (h : Found test change ps i ps')
      → ps' ≡ set ps i (change h.slot)
  after-Found ps i ps' h =
      h.after
      ∙ sym (set-append h.front h.slot (change h.slot) h.back)
      ∙ ap (λ k. set (h.front ++ (h.slot ∷ h.back)) k (change h.slot)) (sym h.index)
      ∙ ap (λ (l : List Peer). set l i (change h.slot)) (sym h.before)

is_empty-empty : (q : Phase) → is_empty q.0 ≡ true → q ≡ (empty, q.1)
is_empty-empty (empty, r) h = refl
is_empty-empty (connecting, r) h = absurd (cc h)
is_empty-empty (checksumming, r) h = absurd (cc h)
is_empty-empty (checksumming_final, r) h = absurd (cc h)
is_empty-empty (lobby, r) h = absurd (cc h)
is_empty-empty (in_game, r) h = absurd (cc h)

-- The peer of the new slot, once it is greeted.
seat-moved :
    (a : Addr) (now_ms slot : ℕ) (mgr : PeerMgr) (s : Server) (p : Peer)
    → get_elem? mgr.peers slot ≡ some p
    → view (seat a now_ms (some slot, mgr) s)
      ≡ (set (map phase mgr.peers) slot (checksumming, 0), (view s).1)
seat-moved a now_ms slot mgr s p at_p =
    at_slot-view slot (greet a slot now_ms) s2 found.0 (checksumming, 0) found.1
      (first_request-phase (build_checksum_request 0 (replicate 256 0) 256) slot now_ms _)
    ∙ ap (moved slot (checksumming, 0)) same
  where
    s1 : Server
    s1 = set_peer slot (new_peer a now_ms) (clear_slot_score_state slot (record s { peers = mgr }))

    s2 : Server
    s2 = count_connection slot now_ms s1

    same : view s2 ≡ (map phase mgr.peers, (view s).1)
    same =
        at_slot-Stays slot (λ q. (new_peer a now_ms q, [])) (λ q. refl)
          (clear_slot_score_state slot (record s { peers = mgr }))
        ∙ clear_slot-Stays slot (record s { peers = mgr })

    found : (r : Peer) × (get_elem? s2.peers.peers slot ≡ some r) × (phase r ≡ phase p)
    found = peer_of slot (phase p) s2 (
        ap (λ (v : View). get_elem? v.0 slot) same
        ∙ get_elem?-phases mgr.peers slot
        ∙ ap phase_of at_p)

seat-Seated :
    (a : Addr) (now_ms : ℕ) (s : Server) (o : Option (ℕ × List Peer))
    → Outcome (λ p. is_empty p.state) (λ p. connected a) s.peers.peers o
    → (view (seat a now_ms (seated s.peers o) s) ≡ view s)
      ⊎ Seated (view s) (view (seat a now_ms (seated s.peers o) s))
seat-Seated a now_ms s none h =
    inl (boot_directly-Stays a boot_server_full (record s { boots_full = next32 s.boots_full }))
seat-Seated a now_ms s (some (i, ps)) h = inr (record {
  slot = i;
  old_round = h.slot.checksum_round;
  was_empty =
      get_elem?-phases s.peers.peers i
      ∙ ap phase_of (slot-Found (λ p. is_empty p.state) (λ p. connected a) s.peers.peers i ps h)
      ∙ ap some (is_empty-empty (phase h.slot) h.passes);
  seated_at =
      seat-moved a now_ms i (record { peers = ps; count = s.peers.count + 1 }) s (connected a)
        at_new
      ∙ ap (λ (l : List Peer). (set (map phase l) i (checksumming, 0), (view s).1)) after
      ∙ ap (λ (l : List Phase). (set l i (checksumming, 0), (view s).1))
          (map-set phase s.peers.peers i (connected a))
      ∙ ap (λ (l : List Phase). (l, (view s).1))
          (set-set (view s).0 i (phase (connected a)) (checksumming, 0));
})
  where
    after : ps ≡ set s.peers.peers i (connected a)
    after = after-Found (λ p. is_empty p.state) (λ p. connected a) s.peers.peers i ps h

    at_new : get_elem? ps i ≡ some (connected a)
    at_new =
        ap (λ (l : List Peer). get_elem? l i) h.after
        ∙ ap (λ k. get_elem? (h.front ++ (connected a ∷ h.back)) k) h.index
        ∙ get_elem?-append h.front (connected a) h.back

-- A connection request moves nobody, or seats a peer in a slot that was empty.
pub handle_connect-moved :
    (a : Addr) (now_ms : ℕ) (s : Server)
    → (view (handle_connect a now_ms s) ≡ view s)
      ⊎ Seated (view s) (view (handle_connect a now_ms s))
unfolding handle_connect peers_add
handle_connect-moved a now_ms s =
    by_branch Moves (is_known (peers_find a s.peers)) (λ _. inl refl)
      (λ _.
        by_branch Moves (connect_rate_limited a.ip now_ms s) (λ _. inl refl)
          (λ _.
            by_branch Moves (not s.accept_new_players)
              (λ _. inl (boot_directly-Stays a boot_generic s))
              (λ _.
                seat-Seated a now_ms s
                  (update_first (λ p. is_empty p.state) (λ p. connected a) s.peers.peers)
                  (update_first-Outcome (λ p. is_empty p.state) (λ p. connected a) s.peers.peers))))
  where
    Moves : Server → Type 0
    Moves s' = (view s' ≡ view s) ⊎ Seated (view s) (view s')
