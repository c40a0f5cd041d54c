-- ===== src/Sending/Relay.antt =====
-- Whom a relayed message reaches, and what it leaves alone.
use open_bc.Base.{
  ℕ, zero, suc, ◌+◌, ◌≡◌, refl, ap, ◌∙◌, arith, Bool, true, false, not, Option, none, some,
}
use open_bc.Base.{
  ◌&&◌, ltb, lt→ltb, ◌==◌, List, [], ◌∷◌, ◌++◌, get_elem?, if◌then◌else◌, by_branch, map, replicate,
}
use open_bc.Outbox.{
  Outbox, max_packet_size, pending, flush_to_buf, datagram, add_reliable, add_unreliable,
}
use open_bc.Peers.{
  Peer, PeerMgr, PeerState, empty, connecting, checksumming, checksumming_final, lobby, in_game,
}
use open_bc.Sending.{
  Datagram, flush_peer, add_or_flush, tracked, with_outbox, queue_reliable, queue_unreliable, queue,
  queue_from, is_other, has_entered, relay_to_others,
}

-- A slot of a table after the loop: queued for where it is chosen, and otherwise as it was.
abbrev pub slot_after : (ℕ → Peer → Bool) → Bool → List ℕ → ℕ → ℕ → ℕ → Option Peer → Option Peer
slot_after chosen reliable payload len now_ms i none = none
slot_after chosen reliable payload len now_ms i (some p) =
    some (if chosen i p then (queue reliable payload len now_ms p).0 else p)

-- And the datagrams that it sends.
abbrev pub sent_by : (ℕ → Peer → Bool) → Bool → List ℕ → ℕ → ℕ → ℕ → List Peer → List Datagram
sent_by chosen reliable payload len now_ms i [] = []
sent_by chosen reliable payload len now_ms i (p ∷ ps) =
    (if chosen i p then (queue reliable payload len now_ms p).1 else [])
    ++ sent_by chosen reliable payload len now_ms (suc i) ps

module _ (chosen : ℕ → Peer → Bool) (reliable : Bool) (payload : List ℕ) (len now_ms : ℕ) where
  one_slot :
      (i : ℕ) (p : Peer)
      → (if chosen i p then queue reliable payload len now_ms p else (p, [])) ≡ (
        if chosen i p then (queue reliable payload len now_ms p).0 else p,
        if chosen i p then (queue reliable payload len now_ms p).1 else [],
      )
  one_slot i p = split (chosen i p)
    where
      split :
          (t : Bool)
          → (if t then queue reliable payload len now_ms p else (p, [])) ≡ (
            if t then (queue reliable payload len now_ms p).0 else p,
            if t then (queue reliable payload len now_ms p).1 else [],
          )
      split true = refl
      split false = refl

  pub queue_from-slot :
      (i j k : ℕ) (ps : List Peer)
      → k ≡ i + j
      → get_elem? (queue_from chosen reliable payload len now_ms i ps).0 j
        ≡ slot_after chosen reliable payload len now_ms k (get_elem? ps j)
  queue_from-slot i j k [] e = refl
  queue_from-slot i zero k (p ∷ ps) e =
      let same : i ≡ k = omega (arith, e) in
      ap (λ (r : Peer × List Datagram). some r.0) (one_slot i p)
      ∙ ap (λ (m : ℕ). slot_after chosen reliable payload len now_ms m (some p)) same
  queue_from-slot i (suc j) k (p ∷ ps) e = queue_from-slot (suc i) j k ps (omega (arith, e))

  pub queue_from-sent :
      (i : ℕ) (ps : List Peer)
      → (queue_from chosen reliable payload len now_ms i ps).1
        ≡ sent_by chosen reliable payload len now_ms i ps
  queue_from-sent i [] = refl
  queue_from-sent i (p ∷ ps) =
      (λ n. (one_slot i p n).1 ++ (queue_from chosen reliable payload len now_ms (suc i) ps).1)
      ∙ ap
          (λ (l : List Datagram).
            (if chosen i p then (queue reliable payload len now_ms p).1 else []) ++ l)
          (queue_from-sent (suc i) ps)

-- Who hears a relayed message: the players in the slots behind the server's own, but not the one that sent it.
abbrev pub hears : ℕ → ℕ → PeerState → Bool
hears sender_slot zero state = false
hears sender_slot (suc i) empty = false
hears sender_slot (suc i) connecting = false
hears sender_slot (suc i) checksumming = false
hears sender_slot (suc i) checksumming_final = false
hears sender_slot (suc i) lobby = not (suc i == sender_slot)
hears sender_slot (suc i) in_game = not (suc i == sender_slot)

abbrev pub told : Bool → List ℕ → ℕ → ℕ → Peer → Peer × List Datagram
told true payload len now_ms p = queue_reliable payload len now_ms p
told false payload len now_ms p = queue_unreliable payload len p

-- What stands in slot `i` afterwards.
abbrev pub having_heard : ℕ → Bool → List ℕ → ℕ → ℕ → ℕ → Option Peer → Option Peer
having_heard sender_slot reliable payload len now_ms i none = none
having_heard sender_slot reliable payload len now_ms i (some p) =
    some (if hears sender_slot i p.state then (told reliable payload len now_ms p).0 else p)

-- What is sent to the peers in the slots from `i` on.
abbrev pub sent_to : ℕ → Bool → List ℕ → ℕ → ℕ → ℕ → List Peer → List Datagram
sent_to sender_slot reliable payload len now_ms i [] = []
sent_to sender_slot reliable payload len now_ms i (p ∷ ps) =
    (if hears sender_slot i p.state then (told reliable payload len now_ms p).1 else [])
    ++ sent_to sender_slot reliable payload len now_ms (suc i) ps

is_other-hears :
    (sender_slot i : ℕ) (p : Peer) → is_other sender_slot i p ≡ hears sender_slot i p.state
is_other-hears sender_slot i p = by_state i p.state
  where
    stays_out : (b : Bool) → (b && false) ≡ false
    stays_out true = refl
    stays_out false = refl

    comes_in : (b : Bool) → (b && true) ≡ b
    comes_in true = refl
    comes_in false = refl

    player :
        (k : ℕ) → (ltb 0 (suc k) && not (suc k == sender_slot) && true) ≡ not (suc k == sender_slot)
    player k =
        comes_in _ ∙ ap (λ t. t && not (suc k == sender_slot)) (lt→ltb 0 (suc k) (omega arith))

    by_state :
        (k : ℕ) (state : PeerState)
        → (ltb 0 k && not (k == sender_slot) && has_entered state) ≡ hears sender_slot k state
    by_state zero state = refl
    by_state (suc k) empty = stays_out _
    by_state (suc k) connecting = stays_out _
    by_state (suc k) checksumming = stays_out _
    by_state (suc k) checksumming_final = stays_out _
    by_state (suc k) lobby = player k
    by_state (suc k) in_game = player k

module _ (sender_slot : ℕ) (reliable : Bool) (payload : List ℕ) (len now_ms : ℕ) where
  queue-told : (p : Peer) → queue reliable payload len now_ms p ≡ told reliable payload len now_ms p
  queue-told p = by_kind reliable
    where
      by_kind : (r : Bool) → queue r payload len now_ms p ≡ told r payload len now_ms p
      by_kind true = refl
      by_kind false = refl

  slot_after-having_heard :
      (i : ℕ) (o : Option Peer)
      → slot_after (is_other sender_slot) reliable payload len now_ms i o
        ≡ having_heard sender_slot reliable payload len now_ms i o
  slot_after-having_heard i none = refl
  slot_after-having_heard i (some p) =
      λ n. some (if is_other-hears sender_slot i p n then (queue-told p n).0 else p)

  sent_by-sent_to :
      (i : ℕ) (ps : List Peer)
      → sent_by (is_other sender_slot) reliable payload len now_ms i ps
        ≡ sent_to sender_slot reliable payload len now_ms i ps
  sent_by-sent_to i [] = refl
  sent_by-sent_to i (p ∷ ps) = λ n.
      (if is_other-hears sender_slot i p n then (queue-told p n).1 else [])
      ++ sent_by-sent_to (suc i) ps n

-- A relayed message is queued, once, as a reliable or an unreliable one, for every peer in a slot from 1 on, other
-- than the sender's, that is in the lobby or the game; every other slot is as it was, and so is the count; what is
-- sent is what these queues send, in the order of the slots.
pub relay_to_others_lem :
    (sender_slot : ℕ) (payload : List ℕ) (len : ℕ) (reliable : Bool) (now_ms : ℕ) (mgr : PeerMgr)
    → ((j : ℕ)
        → get_elem? (relay_to_others sender_slot payload len reliable now_ms mgr).0.peers j
          ≡ having_heard sender_slot reliable payload len now_ms j (get_elem? mgr.peers j))
      × ((relay_to_others sender_slot payload len reliable now_ms mgr).0.count ≡ mgr.count)
      × ((relay_to_others sender_slot payload len reliable now_ms mgr).1
          ≡ sent_to sender_slot reliable payload len now_ms 0 mgr.peers)
unfolding relay_to_others
relay_to_others_lem sender_slot payload len reliable now_ms mgr = (
  λ j.
      queue_from-slot (is_other sender_slot) reliable payload len now_ms 0 j j mgr.peers
        (omega arith)
      ∙ slot_after-having_heard sender_slot reliable payload len now_ms j (get_elem? mgr.peers j),
  refl,
  queue_from-sent (is_other sender_slot) reliable payload len now_ms 0 mgr.peers
      ∙ sent_by-sent_to sender_slot reliable payload len now_ms 0 mgr.peers,
)

-- A view of a peer that neither its sequence number and queue nor its outbox changes.
module _ {X : Type 0} (look : Peer → X)
    (tracked-look : (payload : List ℕ) (len now_ms : ℕ) (p : Peer)
      → look (tracked payload len now_ms p) ≡ look p)
    (outbox-look : (o : Outbox) (p : Peer) → look (record p { outbox = o }) ≡ look p) where
  pub flush_peer-look : (p : Peer) → look (flush_peer p).0 ≡ look p
  unfolding flush_peer
  flush_peer-look p =
      by_branch (λ (r : Peer × List Datagram). look r.0 ≡ look p) (not (pending p.outbox))
        {x = (p, [])} {y = with_outbox p sent} (λ _. refl) (λ _. outbox-look sent.1 p)
    where
      sent : Option (List ℕ) × Outbox
      sent = datagram (flush_to_buf (replicate max_packet_size 0) max_packet_size p.outbox)

  add_or_flush-look :
      (add : Outbox → Bool × Outbox) (p : Peer) → look (add_or_flush add p).0 ≡ look p
  add_or_flush-look add p =
      by_branch (λ (r : Peer × List Datagram). look r.0 ≡ look p) (add p.outbox).0
        (λ _. outbox-look (add p.outbox).1 p)
        (λ _. outbox-look (add (flush_peer p).0.outbox).1 (flush_peer p).0 ∙ flush_peer-look p)

  pub queue-look :
      (reliable : Bool) (payload : List ℕ) (len now_ms : ℕ) (p : Peer)
      → look (queue reliable payload len now_ms p).0 ≡ look p
  unfolding queue_reliable queue_unreliable
  queue-look true payload len now_ms p =
      add_or_flush-look (add_reliable payload len p.reliable_seq_out) (tracked payload len now_ms p)
      ∙ tracked-look payload len now_ms p
  queue-look false payload len now_ms p = add_or_flush-look (add_unreliable payload len) p

  pub queue_from-look :
      (chosen : ℕ → Peer → Bool) (reliable : Bool) (payload : List ℕ) (len now_ms i : ℕ)
      (ps : List Peer)
      → map look (queue_from chosen reliable payload len now_ms i ps).0 ≡ map look ps
  queue_from-look chosen reliable payload len now_ms i [] = refl
  queue_from-look chosen reliable payload len now_ms i (p ∷ ps) =
      λ n. here n ∷ queue_from-look chosen reliable payload len now_ms (suc i) ps n
    where
      here : look (if chosen i p then queue reliable payload len now_ms p else (p, [])).0 ≡ look p
      here =
          by_branch (λ (r : Peer × List Datagram). look r.0 ≡ look p) (chosen i p)
            (λ _. queue-look reliable payload len now_ms p) (λ _. refl)

-- How far a peer has come.
abbrev pub Phase : Type 0
Phase = PeerState × ℕ

abbrev pub phase : Peer → Phase
phase p = (p.state, p.checksum_round)

pub flush_peer-phase : (p : Peer) → phase (flush_peer p).0 ≡ phase p
flush_peer-phase = flush_peer-look phase (λ payload len now_ms p. refl) (λ o p. refl)

pub queue_reliable-phase :
    (payload : List ℕ) (len now_ms : ℕ) (p : Peer)
    → phase (queue_reliable payload len now_ms p).0 ≡ phase p
queue_reliable-phase = queue-look phase (λ payload len now_ms p. refl) (λ o p. refl) true

pub queue_from-phase :
    (chosen : ℕ → Peer → Bool) (reliable : Bool) (payload : List ℕ) (len now_ms i : ℕ)
    (ps : List Peer)
    → map phase (queue_from chosen reliable payload len now_ms i ps).0 ≡ map phase ps
queue_from-phase = queue_from-look phase (λ payload len now_ms p. refl) (λ o p. refl)
