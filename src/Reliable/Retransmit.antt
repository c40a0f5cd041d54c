-- ===== src/Reliable/Retransmit.antt =====
-- Sending again and giving up.
use open_bc.Base.{
  ℕ, ◌≤◌, ◌≡◌, refl, sym, ap, ◌∙◌, subst, arith, true, Option, none, some, inl, inr, Bool-cases,
}
use open_bc.Base.{List, [], ◌∷◌, ◌++◌, Bool, if_false, ◌↔◌, ltb, if◌then◌else◌, by_branch}
use open_bc.Base.Scan.{update_first, Found, Outcome, update_first-Outcome}
use open_bc.Reliable.{Entry, ReliableQueue, max_retries, check_retransmit, check_timeout}
use open_bc.Reliable.{max_payload, reliable_add, is_free, filled_entry, added}
use open_bc.Reliable.{is_due, resent, retransmitted, gave_up, any_gave_up}

module _ (now_ms : ℕ) (q : ReliableQueue) where
  abbrev scanned : Option (ℕ × List Entry)
  scanned = update_first (is_due now_ms) (resent now_ms) q.entries

  outcome : Outcome (is_due now_ms) (resent now_ms) q.entries scanned
  outcome = update_first-Outcome (is_due now_ms) (resent now_ms) q.entries

-- Where the check returns a slot, its message is active and was last sent 2000 ms ago or more, no slot
-- before it is due, and only that slot changes: one retry more, sent now.
pub check_retransmit-Found :
    (now_ms i : ℕ) (q : ReliableQueue)
    → (check_retransmit now_ms q).0 ≡ some i
    → Found (is_due now_ms) (resent now_ms) q.entries i (check_retransmit now_ms q).1.entries
unfolding check_retransmit
check_retransmit-Found now_ms i q hit = after (scanned now_ms q) (outcome now_ms q) hit
  where
    after :
        (o : Option (ℕ × List Entry))
        → Outcome (is_due now_ms) (resent now_ms) q.entries o
        → (retransmitted q o).0 ≡ some i
        → Found (is_due now_ms) (resent now_ms) q.entries i (retransmitted q o).1.entries
    after none f e = absurd (ground (arith, e))
    after (some (k, es)) f e =
        let same : k ≡ i = ground (arith, e) in
        subst (λ j. Found (is_due now_ms) (resent now_ms) q.entries j es) same f

-- Some active message has a retry count of eight or more.
pub data SomeGaveUp : List Entry → Type 0 where
  here :
      {e : Entry} {es : List Entry}
      → e.active ≡ true
      → max_retries ≤ e.retries
      → SomeGaveUp (e ∷ es)
  there : {e : Entry} {es : List Entry} → SomeGaveUp es → SomeGaveUp (e ∷ es)

found_one : (es : List Entry) → any_gave_up es ≡ true → SomeGaveUp es
found_one [] h = absurd (ground (arith, h))
found_one (e ∷ es) h = elim (Bool-cases (gave_up e)) [
  | inl yes_it_did ↦ here (ground (arith, yes_it_did)) (ground (arith, yes_it_did))
  | inr no_it_did_not ↦ there (found_one es (sym (if_false _ no_it_did_not) ∙ h))
]

one_is_found : (es : List Entry) → SomeGaveUp es → any_gave_up es ≡ true
one_is_found [] h = elim h [ ]
one_is_found (e ∷ es) (here on many) = ground arith
one_is_found (e ∷ es) (there h) = ground (arith, one_is_found es h)

-- The queue has timed out exactly where some active message has a retry count of eight or more.
pub check_timeout_iff : (q : ReliableQueue) → (check_timeout q ≡ true) ↔ SomeGaveUp q.entries
unfolding check_timeout
check_timeout_iff q = (found_one q.entries, one_is_found q.entries)

same_verdict :
    (front back : List Entry) (e e' : Entry)
    → gave_up e ≡ gave_up e'
    → any_gave_up (front ++ (e ∷ back)) ≡ any_gave_up (front ++ (e' ∷ back))
same_verdict [] back e e' h = ap (λ t. if t then true else any_gave_up back) h
same_verdict (x ∷ front) back e e' h =
    ap (λ t. if gave_up x then true else t) (same_verdict front back e e' h)

-- A new message is no reason to give up.
pub reliable_add-check_timeout :
    (payload : List ℕ) (len seq now_ms : ℕ) (q : ReliableQueue)
    → check_timeout (reliable_add payload len seq now_ms q).1 ≡ check_timeout q
unfolding reliable_add check_timeout
reliable_add-check_timeout payload len seq now_ms q =
    by_branch (λ (r : Bool × ReliableQueue). check_timeout r.1 ≡ check_timeout q)
      (ltb max_payload len) (λ _. refl)
      (λ _.
        after (update_first is_free fill q.entries) (update_first-Outcome is_free fill q.entries))
  where
    fill : Entry → Entry
    fill = filled_entry payload len seq now_ms

    after :
        (o : Option (ℕ × List Entry))
        → Outcome is_free fill q.entries o
        → check_timeout (added q o).1 ≡ check_timeout q
    after none f = refl
    after (some (i, es)) f =
        ap any_gave_up f.after
        ∙ same_verdict f.front f.back (fill f.slot) f.slot (ground (arith, f.passes))
        ∙ ap any_gave_up (sym f.before)
