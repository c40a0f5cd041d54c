-- ===== src/MainLoop/Unsent.antt =====
-- Long reliable messages in src/server/server_send.c and src/server/main.c.
use open_bc.Base.{ℕ, ◌≤◌, ◌<◌, ◌≡◌, ap, ◌∙◌, arith, Bool, false, some}
use open_bc.Base.{List, [], ◌∷◌, length, if_false}
use mathlib.Core.List.{Perm}
use open_bc.Outbox.{Outbox, add_reliable}
use open_bc.Reliable.{Entry, queue_size, max_payload}
use open_bc.Reliable.Inv.{IsValid}
use open_bc.Reliable.Contents.{waiting, reliable_add-waiting}
use open_bc.Peers.{Addr, Peer}
use open_bc.Sending.{Datagram, flush_peer, tracked, add_or_flush, added_last, queue_reliable}
use open_bc.Transport.{build_reliable}
use open_bc.MainLoop.{resend_entry}

refused :
    (payload : List ℕ) (len seq : ℕ) (o : Outbox)
    → 250 < len
    → add_reliable payload len seq o ≡ (false, o)
unfolding add_reliable
refused payload len seq o long = ground arith

refused_twice :
    (add : Outbox → Bool × Outbox) (p : Peer)
    → ((o : Outbox) → add o ≡ (false, o))
    → add_or_flush add p ≡ flush_peer p
refused_twice add p never =
    if_false (record p { outbox = (add p.outbox).1 }, []) (ap (λ r. r.0) (never p.outbox))
    ∙ last (flush_peer p)
  where
    last : (r : Peer × List Datagram) → added_last add r ≡ r
    last (q, sent) = ap (λ (r : Bool × Outbox). (record q { outbox = r.1 }, sent)) (never q.outbox)

not_resent : (a : Addr) (e : Entry) → 250 < e.payload_len → resend_entry a (some e) ≡ []
unfolding build_reliable
not_resent a e long = ground arith

-- A reliable message of 251 to 512 bytes is kept in the peer's queue, so that it counts as sent, but it is never
-- sent: queueing it does to the outbox and the socket only what a flush does, and the loop that sends it again
-- sends nothing for an entry of such a length.
pub queue_reliable_long :
    (payload : List ℕ) (now_ms : ℕ) (p : Peer)
    → 250 < length payload
    → length payload ≤ max_payload
    → IsValid p.reliable_out
    → p.reliable_out.count < queue_size
    → (queue_reliable payload (length payload) now_ms p
        ≡ flush_peer (tracked payload (length payload) now_ms p))
      × Perm
          (waiting (tracked payload (length payload) now_ms p).reliable_out.entries)
          ((p.reliable_seq_out, payload) ∷ waiting p.reliable_out.entries)
      × ((a : Addr) (e : Entry) → e.payload_len ≡ length payload → resend_entry a (some e) ≡ [])
unfolding queue_reliable
queue_reliable_long payload now_ms p long short valid room = (
  refused_twice (add_reliable payload (length payload) p.reliable_seq_out)
      (tracked payload (length payload) now_ms p)
      (λ o. refused payload (length payload) p.reliable_seq_out o long),
  (reliable_add-waiting payload p.reliable_seq_out now_ms p.reliable_out valid short room).1,
  λ a e same. not_resent a e (omega (arith, same)),
)
