-- ===== src/Peers/Inv.antt =====
-- The count of the peer table against its occupied slots.
use open_bc.Base.{
  ℕ, zero, suc, ◌+◌, ◌≡◌, refl, ap, ◌∙◌, arith, Bool, false, Option, none, some, not,
}
use open_bc.Base.{List, [], ◌∷◌, length, length-append, by_branch, get_elem?, set, length-set}
use open_bc.Base.Scan.{update_first, Outcome, update_first-Outcome, tally, tally-append}
use open_bc.Peers.{
  Addr, Peer, PeerMgr, is_empty, max_players, peers_init, peers_add, peers_remove, connected,
  cleared, seated, remove_at,
}

abbrev pub occupied : Peer → Bool
occupied p = not (is_empty p.state)

pub record IsValid (mgr : PeerMgr) : Type 0 where
  pub slots : length mgr.peers ≡ max_players
  pub counts : mgr.count ≡ tally occupied mgr.peers

pub peers_init-IsValid : IsValid peers_init
unfolding peers_init
peers_init-IsValid = record { slots = refl; counts = refl }

-- An occupied slot that is cleared.
tally-set :
    (ps : List Peer) (i : ℕ) (p : Peer)
    → get_elem? ps i ≡ some p
    → is_empty p.state ≡ false
    → tally occupied (set ps i cleared) + 1 ≡ tally occupied ps
tally-set [] zero p e o = absurd (ground (arith, e))
tally-set [] (suc i) p e o = absurd (ground (arith, e))
tally-set (q ∷ ps) zero p e o =
    let same : is_empty q.state ≡ false = ap (λ r. is_empty_of r) e ∙ o in ground arith
  where
    is_empty_of : Option Peer → Bool
    is_empty_of none = false
    is_empty_of (some r) = is_empty r.state
tally-set (q ∷ ps) (suc i) p e o = omega (arith, tally-set ps i p e o)

-- A new peer takes an empty slot and is counted; a full table stays as it is.
pub peers_add-IsValid : (a : Addr) (mgr : PeerMgr) → IsValid mgr → IsValid (peers_add a mgr).1
unfolding peers_add connected
peers_add-IsValid a mgr h =
    after (update_first (λ p. is_empty p.state) (λ p. connected a) mgr.peers)
      (update_first-Outcome (λ p. is_empty p.state) (λ p. connected a) mgr.peers)
  where
    after :
        (o : Option (ℕ × List Peer))
        → Outcome (λ p. is_empty p.state) (λ p. connected a) mgr.peers o
        → IsValid (seated mgr o).1
    after none f = h
    after (some (i, ps)) f = record {
      slots = omega (
        arith,
        h.slots,
        ap length f.before,
        ap length f.after,
        length-append f.front (f.slot ∷ f.back),
        length-append f.front (connected a ∷ f.back),
      );
      counts = ground (
        arith,
        h.counts,
        f.passes,
        ap (tally occupied) f.before,
        ap (tally occupied) f.after,
        tally-append occupied f.front (f.slot ∷ f.back),
        tally-append occupied f.front (connected a ∷ f.back),
      );
    }

-- Removing a slot, occupied or not, in range or not, keeps the table valid.
pub peers_remove-IsValid :
    (slot : ℕ) (mgr : PeerMgr) → IsValid mgr → IsValid (peers_remove slot mgr)
unfolding peers_remove
peers_remove-IsValid slot mgr h = at_slot (get_elem? mgr.peers slot) refl
  where
    at_slot : (o : Option Peer) → get_elem? mgr.peers slot ≡ o → IsValid (remove_at slot o mgr)
    at_slot none e = h
    at_slot (some p) e =
        by_branch IsValid (is_empty p.state) (λ t. h)
          (λ t. record {
            slots = length-set mgr.peers slot cleared ∙ h.slots;
            counts = omega (arith, h.counts, tally-set mgr.peers slot p e t);
          })
