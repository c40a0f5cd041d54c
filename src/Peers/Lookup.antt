-- ===== src/Peers/Lookup.antt =====
-- Finding a peer by its address, and seating a new one.
use open_bc.Base.{
  ℕ, ◌+◌, ◌<◌, ◌≡◌, refl, sym, ap, ◌∙◌, subst, arith, true, false, Option, none, some,
}
use open_bc.Base.{suc, All-split}
use open_bc.Base.{List, [], ◌∷◌, ◌++◌, length, length-append, if_true, if_false, All}
use open_bc.Base.Scan.{update_first, Outcome, update_first-Outcome, moved_on, tally}
use open_bc.Peers.{
  Addr, Peer, PeerMgr, is_empty, max_players, peers_find, peers_add, has_addr, addr_equal,
  connected, seated, index_of,
}
use open_bc.Peers.Inv.{IsValid, occupied}

-- Where no slot of `front` passes, the search goes on behind it.
search_behind :
    (a : Addr) (front : List Peer) (p : Peer) (back : List Peer)
    → All (λ q. has_addr a q ≡ false) front
    → has_addr a p ≡ true
    → index_of (update_first (has_addr a) (λ q. q) (front ++ (p ∷ back))) ≡ some (length front)
search_behind a front p back fails hit = ap index_of (behind front fails)
  where
    behind :
        (qs : List Peer)
        → All (λ q. has_addr a q ≡ false) qs
        → update_first (has_addr a) (λ q. q) (qs ++ (p ∷ back)) ≡ some (length qs, qs ++ (p ∷ back))
    behind [] f = if_true _ hit
    behind (q ∷ qs) f =
        let next : length qs + 1 ≡ suc (length qs) = omega arith in
        if_false _ f.0
        ∙ ap (moved_on q) (behind qs f.1)
        ∙ ap (λ n. some (n, q ∷ (qs ++ (p ∷ back)))) next

-- A search that finds nothing: no occupied slot has the address.
pub peers_find_unknown :
    (a : Addr) (mgr : PeerMgr) → peers_find a mgr ≡ none → All (λ p. has_addr a p ≡ false) mgr.peers
unfolding peers_find
peers_find_unknown a mgr e =
    after (update_first (has_addr a) (λ p. p) mgr.peers)
      (update_first-Outcome (has_addr a) (λ p. p) mgr.peers) e
  where
    after :
        (o : Option (ℕ × List Peer))
        → Outcome (has_addr a) (λ p. p) mgr.peers o
        → index_of o ≡ none
        → All (λ p. has_addr a p ≡ false) mgr.peers
    after none f e' = f.all_fail
    after (some (i, ps)) f e' = absurd (ground (arith, e'))

in_front :
    (a : Addr) (front back : List Peer)
    → All (λ p. has_addr a p ≡ false) (front ++ back)
    → All (λ p. has_addr a p ≡ false) front
in_front a front back h = (All-split _ front back h).0

same_addr : (a : Addr) → addr_equal a a ≡ true
unfolding addr_equal
same_addr a = ground arith

-- A full table.
all_occupied :
    (ps : List Peer) → All (λ p. is_empty p.state ≡ false) ps → tally occupied ps ≡ length ps
all_occupied [] f = refl
all_occupied (p ∷ ps) f = ground (arith, all_occupied ps f.1, f.0)

-- A peer whose address no slot has is seated in a table that is not full, and from then on it is found by
-- its address, in that slot.
pub peers_add-find :
    (a : Addr) (mgr : PeerMgr)
    → IsValid mgr
    → peers_find a mgr ≡ none
    → mgr.count < max_players
    → (i : ℕ) × ((peers_add a mgr).0 ≡ some i)
      × (i < max_players)
      × (peers_find a (peers_add a mgr).1 ≡ some i)
unfolding peers_add connected peers_find
peers_add-find a mgr h unknown free =
    after (update_first (λ p. is_empty p.state) (λ p. connected a) mgr.peers)
      (update_first-Outcome (λ p. is_empty p.state) (λ p. connected a) mgr.peers)
  where
    after :
        (o : Option (ℕ × List Peer))
        → Outcome (λ p. is_empty p.state) (λ p. connected a) mgr.peers o
        → (i : ℕ) × ((seated mgr o).0 ≡ some i)
          × (i < max_players)
          × (peers_find a (seated mgr o).1 ≡ some i)
    after none f = absurd (omega (arith, all_occupied mgr.peers f.all_fail, h.counts, h.slots))
    after (some (i, ps)) f = (
      i,
      refl,
      omega (arith, f.index, h.slots, ap length f.before, length-append f.front (f.slot ∷ f.back)),
      ap (λ qs. index_of (update_first (has_addr a) (λ q. q) qs)) f.after
          ∙ search_behind a f.front (connected a) f.back
              (in_front a f.front (f.slot ∷ f.back) (
                subst (All (λ p. has_addr a p ≡ false)) f.before
                  (peers_find_unknown a mgr unknown)))
              (same_addr a)
          ∙ ap some (sym f.index),
    )
