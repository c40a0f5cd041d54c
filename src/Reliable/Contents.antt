-- ===== src/Reliable/Contents.antt =====
-- The queue as a collection of messages that wait for an ACK, and what a new message does to it.
use open_bc.Base.{
  ℕ, ◌≤◌, ◌<◌, ◌≡◌, refl, sym, ap, ◌∙◌, subst, arith, Bool, true, false, Option, none, some,
}
use open_bc.Base.{
  List, [], ◌∷◌, ◌++◌, length, ltb, if◌then◌else◌, if_false, All, All-split, take, take-copy_at,
  take_all,
}
use open_bc.Base.Scan.{update_first, Outcome, update_first-Outcome}
use mathlib.Core.List.{Perm, perm_middle}
use mathlib.Core.List.{append_assoc}
use open_bc.Reliable.{Entry, ReliableQueue, queue_size, max_payload, reliable_add}
use open_bc.Reliable.{is_free, filled_entry, added}
use open_bc.Reliable.Inv.{IsValid, active_entries}

-- A message that waits: its sequence number and its bytes.
abbrev pub Waiting : Type 0
Waiting = ℕ × List ℕ

abbrev pub message_of : Entry → Waiting
message_of e = (e.seq, take e.payload_len e.payload)

abbrev pub waiting : List Entry → List Waiting
waiting [] = []
waiting (e ∷ es) = (if e.active then message_of e ∷ [] else []) ++ waiting es

pub waiting-append : (xs ys : List Entry) → waiting (xs ++ ys) ≡ waiting xs ++ waiting ys
waiting-append [] ys = refl
waiting-append (e ∷ xs) ys =
    ap (λ l. (if e.active then message_of e ∷ [] else []) ++ l) (waiting-append xs ys)
    ∙ sym (append_assoc (if e.active then message_of e ∷ [] else []) (waiting xs) (waiting ys))

waiting_on :
    (e : Entry) (es : List Entry) → e.active ≡ true → waiting (e ∷ es) ≡ message_of e ∷ waiting es
waiting_on e es h = ap (λ t. (if t then message_of e ∷ [] else []) ++ waiting es) h

waiting_off : (e : Entry) (es : List Entry) → e.active ≡ false → waiting (e ∷ es) ≡ waiting es
waiting_off e es h = ap (λ t. (if t then message_of e ∷ [] else []) ++ waiting es) h

-- A full queue has sixteen active entries.
no_free : (es : List Entry) → All (λ e. is_free e ≡ false) es → active_entries es ≡ length es
no_free [] h = refl
no_free (e ∷ es) h = ground (arith, no_free es h.1, h.0)

-- A slot that turns from free to waiting, or back.
module _ (front back : List Entry) (off on : Entry) (is_off : off.active ≡ false)
    (is_on : on.active ≡ true) where
  without : waiting (front ++ (off ∷ back)) ≡ waiting front ++ waiting back
  without =
      waiting-append front (off ∷ back) ∙ ap (λ l. waiting front ++ l) (waiting_off off back is_off)

  with_one : Perm (waiting (front ++ (on ∷ back))) (message_of on ∷ waiting (front ++ (off ∷ back)))
  with_one =
      subst (λ l. Perm l (message_of on ∷ waiting (front ++ (off ∷ back))))
        (sym (
          waiting-append front (on ∷ back)
          ∙ ap (λ l. waiting front ++ l) (waiting_on on back is_on)))
        (subst (λ l. Perm (waiting front ++ (message_of on ∷ waiting back)) (message_of on ∷ l))
          (sym without) (perm_middle (waiting front) (waiting back)))

-- Adding a message of at most 512 bytes to a queue with a free slot succeeds, and the messages that wait
-- are those from before and this one, with its sequence number and bytes.
pub reliable_add-waiting :
    (payload : List ℕ) (seq now_ms : ℕ) (q : ReliableQueue)
    → IsValid q
    → length payload ≤ max_payload
    → q.count < queue_size
    → ((reliable_add payload (length payload) seq now_ms q).0 ≡ true)
      × Perm
          (waiting (reliable_add payload (length payload) seq now_ms q).1.entries)
          ((seq, payload) ∷ waiting q.entries)
unfolding reliable_add
reliable_add-waiting payload seq now_ms q h small free =
    subst Adds (sym (if_false _ fits))
      (after (update_first is_free fill q.entries) (update_first-Outcome is_free fill q.entries))
  where
    fill : Entry → Entry
    fill = filled_entry payload (length payload) seq now_ms

    Adds : Bool × ReliableQueue → Type 0
    Adds r = (r.0 ≡ true) × Perm (waiting r.1.entries) ((seq, payload) ∷ waiting q.entries)

    fits : ltb max_payload (length payload) ≡ false
    fits = ground arith

    after : (o : Option (ℕ × List Entry)) → Outcome is_free fill q.entries o → Adds (added q o)
    after none f = absurd (omega (arith, no_free q.entries f.all_fail, h.counts, h.slots))
    after (some (i, es)) f =
        let off : f.slot.active ≡ false = ground (arith, f.passes) in
        let slot_sized =
          (All-split _ f.front (f.slot ∷ f.back)
            (subst (All (λ e. length e.payload ≡ max_payload)) f.before h.storage)).1.0 in
        let kept : take (length payload) (fill f.slot).payload ≡ payload =
          take-copy_at f.slot.payload 0 (take (length payload) payload) (length payload)
            (sym (ap length (take_all payload)) ∙ omega arith) (omega (arith, slot_sized))
          ∙ take_all payload in
        (
          refl,
          coe 0 1 (k. Perm (waiting (sym f.after k)) ((seq, kept k) ∷ waiting (sym f.before k)))
              (with_one f.front f.back f.slot (fill f.slot) off refl),
        )
