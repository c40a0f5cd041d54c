-- ===== src/MainLoop/Overdue.antt =====
-- The messages that src/server/main.c sends again, by the whole queue.
use open_bc.Base.{ℕ, suc, ◌+◌, ◌%◌, ◌^◌, ◌≡◌, refl, sym, ap, ◌∙◌, arith, true, false, some}
use open_bc.Base.{List, [], ◌∷◌, ◌++◌, map, All, if◌then◌else◌, if_true, if_false}
use open_bc.Base.Scan.{tally}
use open_bc.Base.Scan.{tally-append}
use mathlib.Core.List.{map-append, append_assoc}
use open_bc.Peers.{Addr}
use open_bc.Reliable.{Entry, is_due, resent}
use open_bc.Sending.{Datagram}
use open_bc.MainLoop.{Resending, resend_entry}

-- An entry after the loop: sent again where it was overdue.
abbrev pub refreshed : ℕ → Entry → Entry
refreshed now_ms e = if is_due now_ms e then resent now_ms e else e

-- The datagrams of the overdue entries, in their order
abbrev pub overdue : ℕ → Addr → List Entry → List Datagram
overdue now_ms a [] = []
overdue now_ms a (e ∷ es) =
    (if is_due now_ms e then resend_entry a (some e) else []) ++ overdue now_ms a es

abbrev pub all_resent : ℕ → Addr → Resending → Resending
all_resent now_ms a r = record {
  queue = record r.queue { entries = map (refreshed now_ms) r.queue.entries };
  datagrams = r.datagrams ++ overdue now_ms a r.queue.entries;
  retransmits = (r.retransmits + tally (is_due now_ms) r.queue.entries) % 2 ^ 32;
}

module _ (now_ms : ℕ) (a : Addr) where
  pub not_due_again : (e : Entry) → is_due now_ms (resent now_ms e) ≡ false
  not_due_again e = ground arith

  pub refreshed_none :
      (es : List Entry) → All (λ e. is_due now_ms e ≡ false) es → map (refreshed now_ms) es ≡ es
  refreshed_none [] h = refl
  refreshed_none (e ∷ es) h =
      λ i. if_false {A = Entry} (resent now_ms e) {y = e} h.0 i ∷ refreshed_none es h.1 i

  pub overdue_none :
      (es : List Entry) → All (λ e. is_due now_ms e ≡ false) es → overdue now_ms a es ≡ []
  overdue_none [] h = refl
  overdue_none (e ∷ es) h =
      ap (λ l. l ++ overdue now_ms a es)
        (if_false {A = List Datagram} (resend_entry a (some e)) h.0)
      ∙ overdue_none es h.1

  pub tally_none :
      (es : List Entry) → All (λ e. is_due now_ms e ≡ false) es → tally (is_due now_ms) es ≡ 0
  tally_none [] h = refl
  tally_none (e ∷ es) h = ground (arith, tally_none es h.1, h.0)

  overdue-append :
      (xs ys : List Entry)
      → overdue now_ms a (xs ++ ys) ≡ overdue now_ms a xs ++ overdue now_ms a ys
  overdue-append [] ys = refl
  overdue-append (e ∷ xs) ys =
      ap (λ l. (if is_due now_ms e then resend_entry a (some e) else []) ++ l)
        (overdue-append xs ys)
      ∙ sym (append_assoc (if is_due now_ms e then resend_entry a (some e) else []) _ _)

  -- A slot that was sent again is no longer overdue; the rest of the table is as it was.
  module _ (front back : List Entry) (e : Entry) (due : is_due now_ms e ≡ true)
      (passed_over : All (λ x. is_due now_ms x ≡ false) front) where
    pub same_table :
        map (refreshed now_ms) (front ++ (resent now_ms e ∷ back))
        ≡ map (refreshed now_ms) (front ++ (e ∷ back))
    same_table =
        map-append (refreshed now_ms) front (resent now_ms e ∷ back)
        ∙ ap (λ x. map (refreshed now_ms) front ++ (x ∷ map (refreshed now_ms) back))
            (if_false {A = Entry} (resent now_ms (resent now_ms e)) (not_due_again e)
              ∙ sym (if_true e due))
        ∙ sym (map-append (refreshed now_ms) front (e ∷ back))

    pub sent_first :
        overdue now_ms a (front ++ (e ∷ back))
        ≡ resend_entry a (some e) ++ overdue now_ms a (front ++ (resent now_ms e ∷ back))
    sent_first =
        overdue-append front (e ∷ back)
        ∙ ap (λ l. l ++ overdue now_ms a (e ∷ back)) (overdue_none front passed_over)
        ∙ ap (λ l. l ++ overdue now_ms a back) (if_true {A = List Datagram} [] due)
        ∙ ap (λ l. resend_entry a (some e) ++ l)
            (sym (
              overdue-append front (resent now_ms e ∷ back)
              ∙ ap (λ l. l ++ overdue now_ms a (resent now_ms e ∷ back))
                  (overdue_none front passed_over)
              ∙ ap (λ l. l ++ overdue now_ms a back)
                  (if_false {A = List Datagram} (resend_entry a (some e)) (not_due_again e))))

    pub one_less :
        tally (is_due now_ms) (front ++ (e ∷ back))
        ≡ suc (tally (is_due now_ms) (front ++ (resent now_ms e ∷ back)))
    one_less = ground (
      arith,
      tally-append (is_due now_ms) front (e ∷ back),
      tally-append (is_due now_ms) front (resent now_ms e ∷ back),
      due,
      not_due_again e,
    )
