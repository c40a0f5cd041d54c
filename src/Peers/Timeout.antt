-- ===== src/Peers/Timeout.antt =====
-- A sweep for peers that have been silent too long.
use open_bc.Base.{
  ℕ, suc, ◌+◌, ◌-◌, ◌≡◌, refl, sym, ap, ◌∙◌, subst, arith, Bool, false, some, inl, inr, Bool-cases,
  map,
}
use open_bc.Base.{
  List, [], ◌∷◌, ◌++◌, length, length-append, if◌then◌else◌, if_true, if_false, get_elem?,
  get_elem?-append, set-append,
}
use open_bc.Base.Scan.{tally}
use mathlib.Core.List.{append_assoc}
use open_bc.Peers.{
  Peer, PeerMgr, is_empty, peers_remove, peers_timeout, timeout_from, timeout_slot, timed_out,
  slot_timed_out, cleared, remove_at,
}
use open_bc.Peers.Inv.{IsValid, occupied}

-- What the sweep makes of a slot.
abbrev pub swept : ℕ → ℕ → Peer → Peer
swept now_ms timeout_ms p = if timed_out now_ms timeout_ms p then cleared else p

module _ (now_ms timeout_ms : ℕ) where
  abbrev stale : List Peer → ℕ
  stale = tally (timed_out now_ms timeout_ms)

  abbrev table : List Peer → ℕ → PeerMgr
  table ps c = record { peers = ps; count = c }

  sweep_slot :
      (front : List Peer) (p : Peer) (back : List Peer) (removed c : ℕ)
      → timeout_slot now_ms timeout_ms (length front) (removed, table (front ++ (p ∷ back)) c) ≡ (
        removed + (if timed_out now_ms timeout_ms p then 1 else 0),
        table
            (front ++ (swept now_ms timeout_ms p ∷ back))
            (c - (if timed_out now_ms timeout_ms p then 1 else 0)),
      )
  unfolding timeout_slot peers_remove
  sweep_slot front p back removed c = elim (Bool-cases (timed_out now_ms timeout_ms p)) [
    | inl late ↦
        let occupied : is_empty p.state ≡ false = ground (arith, late) in
        if_true _ (ap (slot_timed_out now_ms timeout_ms) at_front ∙ late)
        ∙ ap (λ o. (removed + 1, remove_at (length front) o (table (front ++ (p ∷ back)) c)))
            at_front
        ∙ ap (λ m. (removed + 1, m)) (if_false _ occupied)
        ∙ ap (λ ps. (removed + 1, table ps (c - 1))) (set-append front p cleared back)
        ∙ sym (ap result late)
    | inr fresh ↦
        let none_more : removed ≡ removed + 0 = omega arith in
        let none_less : c ≡ c - 0 = omega arith in
        if_false _ (ap (slot_timed_out now_ms timeout_ms) at_front ∙ fresh)
        ∙ (λ i. (none_more i, table (front ++ (p ∷ back)) (none_less i)))
        ∙ sym (ap result fresh)
  ]
    where
      at_front : get_elem? (front ++ (p ∷ back)) (length front) ≡ some p
      at_front = get_elem?-append front p back

      result : Bool → ℕ × PeerMgr
      result t = (
        removed + (if t then 1 else 0),
        table (front ++ ((if t then cleared else p) ∷ back)) (c - (if t then 1 else 0)),
      )

  sweep :
      (back front : List Peer) (removed c : ℕ)
      → timeout_from now_ms timeout_ms
          (length back)
          (length front)
          (removed, table (front ++ back) c)
        ≡ (
          removed + stale back,
          table (front ++ map (swept now_ms timeout_ms) back) (c - stale back),
        )
  unfolding timeout_from
  sweep [] front removed c =
      let none_more : removed ≡ removed + 0 = omega arith in
      let none_less : c ≡ c - 0 = omega arith in
      λ i. (none_more i, table (front ++ []) (none_less i))
  sweep (p ∷ back) front removed c =
      ap (timeout_from now_ms timeout_ms (length back) (length front + 1))
        (sweep_slot front p back removed c)
      ∙ (λ i.
          timeout_from now_ms timeout_ms (length back) (longer i)
            (removed + one, table (sym regroup i) (c - one)))
      ∙ sweep back (front ++ (swept now_ms timeout_ms p ∷ [])) (removed + one) (c - one)
      ∙ (λ i. (
        sum i,
        table
            (append_assoc front (swept now_ms timeout_ms p ∷ [])
              (map (swept now_ms timeout_ms) back) i)
            (difference i),
      ))
    where
      one : ℕ
      one = if timed_out now_ms timeout_ms p then 1 else 0

      longer : length front + 1 ≡ length (front ++ (swept now_ms timeout_ms p ∷ []))
      longer = omega (arith, length-append front (swept now_ms timeout_ms p ∷ []))

      regroup :
          (front ++ (swept now_ms timeout_ms p ∷ [])) ++ back
          ≡ front ++ (swept now_ms timeout_ms p ∷ back)
      regroup = append_assoc front (swept now_ms timeout_ms p ∷ []) back

      sum : removed + one + stale back ≡ removed + (one + stale back)
      sum = omega arith

      difference : c - one - stale back ≡ c - (one + stale back)
      difference = omega arith

-- A sweep of a valid table clears exactly the occupied slots whose peer was last heard of more than
-- `timeout_ms` ago, leaves every other slot as it is, answers their number, and takes it off the count.
pub peers_timeout_lem :
    (now_ms timeout_ms : ℕ) (mgr : PeerMgr)
    → IsValid mgr
    → peers_timeout now_ms timeout_ms mgr ≡ (
      tally (timed_out now_ms timeout_ms) mgr.peers,
      record {
        peers = map (swept now_ms timeout_ms) mgr.peers;
        count = mgr.count - tally (timed_out now_ms timeout_ms) mgr.peers;
      },
    )
unfolding peers_timeout
peers_timeout_lem now_ms timeout_ms mgr h =
    ap (λ n. timeout_from now_ms timeout_ms n 0 (0, mgr)) (sym h.slots)
    ∙ sweep now_ms timeout_ms mgr.peers [] 0 mgr.count
    ∙ (λ i. (
      from_zero i,
      record {
        peers = map (swept now_ms timeout_ms) mgr.peers;
        count = mgr.count - stale now_ms timeout_ms mgr.peers;
      },
    ))
  where
    from_zero :
        0 + tally (timed_out now_ms timeout_ms) mgr.peers
        ≡ tally (timed_out now_ms timeout_ms) mgr.peers
    from_zero = omega arith

length-map : (f : Peer → Peer) (ps : List Peer) → length (map f ps) ≡ length ps
length-map f [] = refl
length-map f (p ∷ ps) = ap suc (length-map f ps)

swept-tally :
    (now_ms timeout_ms : ℕ) (ps : List Peer)
    → tally occupied (map (swept now_ms timeout_ms) ps) + tally (timed_out now_ms timeout_ms) ps
      ≡ tally occupied ps
swept-tally now_ms timeout_ms [] = refl
swept-tally now_ms timeout_ms (p ∷ ps) = ground (arith, swept-tally now_ms timeout_ms ps)

-- So the table stays valid, and no peer that the sweep leaves has been silent too long.
pub peers_timeout-IsValid :
    (now_ms timeout_ms : ℕ) (mgr : PeerMgr)
    → IsValid mgr
    → IsValid (peers_timeout now_ms timeout_ms mgr).1
peers_timeout-IsValid now_ms timeout_ms mgr h =
    subst (λ r. IsValid r) (ap (λ r. r.1) (sym (peers_timeout_lem now_ms timeout_ms mgr h)))
      (record {
        slots = length-map (swept now_ms timeout_ms) mgr.peers ∙ h.slots;
        counts = omega (arith, h.counts, swept-tally now_ms timeout_ms mgr.peers);
      })
