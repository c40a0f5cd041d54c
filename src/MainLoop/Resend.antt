-- ===== src/MainLoop/Resend.antt =====
-- The loop of src/server/main.c that sends overdue messages again comes to an end, and what it does.
use open_bc.Base.{
  ℕ, zero, suc, ◌+◌, ◌%◌, ◌^◌, ◌<◌, ◌≡◌, refl, sym, ap, ◌∙◌, subst, arith, false, Option, none,
  some,
}
use open_bc.Base.{List, [], ◌∷◌, ◌++◌, map, get_elem?, get_elem?-append, All, by_branch, if_false}
use open_bc.Base.{length}
use open_bc.Server.{Server}
use open_bc.Base.Scan.{
  tally-le, update_first, moved_on, Found, Outcome, update_first-Outcome, tally,
}
use mathlib.Core.List.{append-nil, append_assoc}
use open_bc.Peers.{Addr, Peer}
use open_bc.Reliable.{Entry, ReliableQueue, is_due, resent, retransmitted, check_retransmit}
use open_bc.MainLoop.{resend_to, Resending, resend_entry, sent_again, resend_on, resend}
use open_bc.MainLoop.Overdue.{
  refreshed, overdue, all_resent, not_due_again, refreshed_none, overdue_none, tally_none,
  same_table, sent_first, one_less,
}

module _ (now_ms : ℕ) (a : Addr) where
  sent_entry :
      (q : ReliableQueue) (i : ℕ) (es : List Entry)
      → (f : Found (is_due now_ms) (resent now_ms) q.entries i es)
      → resend_entry a (get_elem? es i) ≡ resend_entry a (some f.slot)
  sent_entry q i es f =
      (λ k. resend_entry a (get_elem? (f.after k) (f.index k)))
      ∙ ap (resend_entry a) (get_elem?-append f.front (resent now_ms f.slot) f.back)

  -- Sending one entry again leaves the same to be done.
  one_resent :
      (r : Resending) (i : ℕ) (es : List Entry)
      → Found (is_due now_ms) (resent now_ms) r.queue.entries i es
      → all_resent now_ms a (sent_again a r i (record r.queue { entries = es }))
        ≡ all_resent now_ms a r
  one_resent r i es f = λ k. record {
    queue = record r.queue { entries = table k };
    datagrams = sent k;
    retransmits = number k;
  }
    where
      rest : List Entry
      rest = f.front ++ (resent now_ms f.slot ∷ f.back)

      table : map (refreshed now_ms) es ≡ map (refreshed now_ms) r.queue.entries
      table =
          ap (map (refreshed now_ms)) f.after
          ∙ same_table now_ms a f.front f.back f.slot f.passes f.passed_over
          ∙ ap (map (refreshed now_ms)) (sym f.before)

      sent :
          (r.datagrams ++ resend_entry a (get_elem? es i)) ++ overdue now_ms a es
          ≡ r.datagrams ++ overdue now_ms a r.queue.entries
      sent =
          append_assoc r.datagrams (resend_entry a (get_elem? es i)) (overdue now_ms a es)
          ∙ (λ k. r.datagrams ++ (sent_entry r.queue i es f k ++ overdue now_ms a (f.after k)))
          ∙ ap (λ l. r.datagrams ++ l)
              (sym (sent_first now_ms a f.front f.back f.slot f.passes f.passed_over))
          ∙ ap (λ l. r.datagrams ++ overdue now_ms a l) (sym f.before)

      number :
          ((r.retransmits + 1) % 2 ^ 32 + tally (is_due now_ms) es) % 2 ^ 32
          ≡ (r.retransmits + tally (is_due now_ms) r.queue.entries) % 2 ^ 32
      number = omega (
        arith,
        one_less now_ms a f.front f.back f.slot f.passes f.passed_over,
        ap (tally (is_due now_ms)) f.after,
        ap (tally (is_due now_ms)) f.before,
      )

  all_refreshed : (es : List Entry) → All (λ e. is_due now_ms e ≡ false) (map (refreshed now_ms) es)
  all_refreshed [] = tt
  all_refreshed (e ∷ es) = (
    by_branch (λ (x : Entry). is_due now_ms x ≡ false) (is_due now_ms e)
        (λ _. not_due_again now_ms a e) (λ h. h),
    all_refreshed es,
  )

  none_found :
      (es : List Entry)
      → All (λ e. is_due now_ms e ≡ false) es
      → update_first (is_due now_ms) (resent now_ms) es ≡ none
  none_found [] h = refl
  none_found (e ∷ es) h =
      if_false (some (0, resent now_ms e ∷ es)) h.0 ∙ ap (moved_on e) (none_found es h.1)

  none_resent :
      (r : Resending)
      → r.retransmits < 2 ^ 32
      → All (λ e. is_due now_ms e ≡ false) r.queue.entries
      → r ≡ all_resent now_ms a r
  none_resent r small h = λ k. record {
    queue = record r.queue { entries = sym (refreshed_none now_ms a r.queue.entries h) k };
    datagrams =
        (sym (append-nil r.datagrams)
            ∙ ap (λ l. r.datagrams ++ l) (sym (overdue_none now_ms a r.queue.entries h)))
          k;
    retransmits = number k;
  }
    where
      number : r.retransmits ≡ (r.retransmits + tally (is_due now_ms) r.queue.entries) % 2 ^ 32
      number = omega (arith, tally_none now_ms a r.queue.entries h)

  resend-all :
      (fuel : ℕ) (r : Resending)
      → r.retransmits < 2 ^ 32
      → tally (is_due now_ms) r.queue.entries < fuel
      → resend fuel now_ms a r ≡ all_resent now_ms a r
  unfolding resend check_retransmit
  resend-all zero r small enough = absurd (omega (arith, enough))
  resend-all (suc fuel) r small enough =
      after (resend-all fuel) (update_first (is_due now_ms) (resent now_ms) r.queue.entries)
        (update_first-Outcome (is_due now_ms) (resent now_ms) r.queue.entries)
    where
      after :
          ((r' : Resending)
            → r'.retransmits < 2 ^ 32
            → tally (is_due now_ms) r'.queue.entries < fuel
            → resend fuel now_ms a r' ≡ all_resent now_ms a r')
          → (o : Option (ℕ × List Entry))
          → Outcome (is_due now_ms) (resent now_ms) r.queue.entries o
          → resend_on (resend fuel now_ms a) a r (retransmitted r.queue o) ≡ all_resent now_ms a r
      after ih none f = none_resent r small f.all_fail
      after ih (some (i, es)) f =
          ih (sent_again a r i (record r.queue { entries = es })) (omega arith) (
            omega (
              arith,
              one_less now_ms a f.front f.back f.slot f.passes f.passed_over,
              ap (tally (is_due now_ms)) f.after,
              ap (tally (is_due now_ms)) f.before,
              enough,
            ))
          ∙ one_resent r i es f

  pub resend_lem :
      (fuel : ℕ) (r : Resending)
      → r.retransmits < 2 ^ 32
      → tally (is_due now_ms) r.queue.entries < fuel
      → (resend fuel now_ms a r ≡ all_resent now_ms a r)
        × (check_retransmit now_ms (resend fuel now_ms a r).queue
            ≡ (none, (resend fuel now_ms a r).queue))
  unfolding check_retransmit
  resend_lem fuel r small enough = (
    all,
    subst
        (λ (r' : Resending).
          retransmitted r'.queue (update_first (is_due now_ms) (resent now_ms) r'.queue.entries)
          ≡ (none, r'.queue))
        (sym all)
        (ap (retransmitted (all_resent now_ms a r).queue)
          (none_found (map (refreshed now_ms) r.queue.entries) (all_refreshed r.queue.entries))),
  )
    where
      all : resend fuel now_ms a r ≡ all_resent now_ms a r
      all = resend-all fuel r small enough

-- The fuel that a peer's turn gives to the loop is enough.
pub resend_to_lem :
    (now_ms : ℕ) (p : Peer) (s : Server)
    → s.reliable_retransmits < 2 ^ 32
    → resend_to now_ms p s
      ≡ all_resent now_ms p.addr
          (record { queue = p.reliable_out; datagrams = []; retransmits = s.reliable_retransmits })
resend_to_lem now_ms p s small =
    (resend_lem now_ms p.addr (suc (length p.reliable_out.entries))
      (record { queue = p.reliable_out; datagrams = []; retransmits = s.reliable_retransmits })
      small (omega (arith, tally-le (is_due now_ms) p.reliable_out.entries))).0
