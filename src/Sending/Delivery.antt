-- ===== src/Sending/Delivery.antt =====
-- What becomes of a message that is queued for a peer.
use open_bc.Base.{
  ℕ, ◌+◌, ◌≤◌, ◌≡◌, ◌⊎◌, inl, inr, refl, sym, ap, subst, ◌∙◌, arith, true, false, not, Option, none,
}
use open_bc.Base.{
  List, [], ◌∷◌, ◌++◌, length, All, IsByte, ltb, ◌==◌, if_true, if_false, Bool-cases,
}
use open_bc.Outbox.{Outbox, max_packet_size, flush, pending}
use open_bc.Outbox.Queue.{Holds, add, add-Holds, add_refuses}
use open_bc.Outbox.Delivery.{Receives, flush-Receives}
use open_bc.Transport.Wire.{Sent, reliable, wire, Sendable}
use open_bc.Transport.Packets.{wires}
use open_bc.Peers.{Peer}
use open_bc.Sending.{
  Datagram, with_outbox, flush_peer, added_last, add_or_flush, tracked, queue_reliable, to_peer,
}

-- What `bc_flush_peer` does is what `bc_outbox_flush` does.
flush_peer-eq-flush : (p : Peer) → flush_peer p ≡ with_outbox p (flush p.outbox)
unfolding flush_peer flush pending
flush_peer-eq-flush p = elim (Bool-cases (p.outbox.msg_count == 0)) [
  | inl idle ↦
      if_true {test = not (ltb 0 p.outbox.msg_count)} _ (ground (arith, idle))
      ∙ ap (λ (r : Option (List ℕ) × Outbox). with_outbox p r) (sym (if_true _ idle))
  | inr busy ↦
      if_false {test = not (ltb 0 p.outbox.msg_count)} (p, []) (ground (arith, busy))
      ∙ ap (λ (r : Option (List ℕ) × Outbox). with_outbox p r)
          (sym (if_false (none, p.outbox) busy))
]

-- A message handed to a peer whose outbox held `ms`: it stands behind them, or they were sent as one datagram
-- and it stands alone.
abbrev pub Passed : Peer → List Sent → Sent → Peer × List Datagram → Type 0
Passed p ms m (p', sent) =
    ((sent ≡ []) × Holds p'.outbox (ms ++ (m ∷ [])))
    ⊎ ((bytes : List ℕ) × (sent ≡ record { to_addr = p.addr; bytes = bytes } ∷ [])
        × Receives bytes ms
        × Holds p'.outbox (m ∷ []))

add_or_flush-Passed :
    (p : Peer) (ms : List Sent) (m : Sent)
    → Holds p.outbox ms
    → length (wire m) ≤ 255
    → All Sendable ms
    → All IsByte (wires ms)
    → Passed p ms m (add_or_flush (add m) p)
add_or_flush-Passed p ms m h short s bytes =
    elim (Bool-cases (ltb max_packet_size (p.outbox.pos + length (wire m)))) [
      | inr room ↦
          let done = add-Holds m p.outbox ms h (ground (arith, room), short) in
          subst (Passed p ms m)
            (sym (if_true {test = (add m p.outbox).0} (added_last (add m) (flush_peer p)) done.0))
            (inl (refl, done.1))
      | inl full ↦
          let refused : add m p.outbox ≡ (false, p.outbox) =
            add_refuses m p.outbox (λ fits. absurd (ground (arith, full, fits.0))) in
          subst (Passed p ms m)
            (sym (
              if_false {test = (add m p.outbox).0} (record p { outbox = (add m p.outbox).1 }, [])
                (ap (λ r. r.0) refused)
              ∙ ap (added_last (add m)) (flush_peer-eq-flush p)))
            (emptied ms h s bytes full)
    ]
  where
    emptied :
        (ms : List Sent)
        → Holds p.outbox ms
        → All Sendable ms
        → All IsByte (wires ms)
        → ltb max_packet_size (p.outbox.pos + length (wire m)) ≡ true
        → Passed p ms m (added_last (add m) (with_outbox p (flush p.outbox)))
    emptied [] h s bytes full = absurd (ground (arith, full, h.ends))
    emptied (first ∷ ms) h s bytes full =
        let out = flush-Receives p.outbox first ms h s bytes in
        let done = add-Holds m (flush p.outbox).1 [] out.3 (omega (arith, out.3.ends), short) in
        inr (out.0, ap (to_peer p) out.1, out.2, done.1)

-- A reliable message of at most 250 bytes is never dropped: it is put behind the messages in the peer's outbox,
-- or these are sent, in one datagram that its receiver reads, and the message stands alone in the outbox. The
-- messages in the outbox are ones that the parser reads and consist of bytes.
pub queue_reliable-Passed :
    (payload : List ℕ) (now_ms : ℕ) (p : Peer) (ms : List Sent)
    → Holds p.outbox ms
    → length payload ≤ 250
    → All Sendable ms
    → All IsByte (wires ms)
    → Passed p ms
        (reliable payload p.reliable_seq_out)
        (queue_reliable payload (length payload) now_ms p)
unfolding queue_reliable
queue_reliable-Passed payload now_ms p ms h short s bytes =
    add_or_flush-Passed (tracked payload (length payload) now_ms p) ms
      (reliable payload p.reliable_seq_out) h (omega (arith, short)) s bytes
