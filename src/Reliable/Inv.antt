-- ===== src/Reliable/Inv.antt =====
-- The count of the reliable queue against its active entries.
use open_bc.Base.{ℕ, suc, ◌+◌, ◌≡◌, refl, sym, ap, ◌∙◌, subst, arith, Bool, Option, none, some}
use open_bc.Base.{zero, replicate, length-copy_at, All-split, All-append}
use open_bc.Reliable.{zero_entry}
use open_bc.Base.{List, ◌∷◌, length, length-append, ltb, by_branch, if◌then◌else◌, All}
use open_bc.Base.Scan.{update_first, Found, Outcome, update_first-Outcome, tally, tally-append}
use open_bc.Reliable.{
  Entry, ReliableQueue, queue_size, max_payload, reliable_init, reliable_add, reliable_ack,
  check_retransmit,
}
use open_bc.Reliable.{
  is_free, filled_entry, awaits, released, is_due, resent, added, acknowledged, retransmitted,
}

abbrev pub active_entries : List Entry → ℕ
active_entries = tally (λ e. e.active)

-- Sixteen slots, each with its 512 bytes, and their active ones counted.
pub record IsValid (q : ReliableQueue) : Type 0 where
  pub slots : length q.entries ≡ queue_size
  pub storage : All (λ e. length e.payload ≡ max_payload) q.entries
  pub counts : q.count ≡ active_entries q.entries

pub reliable_init-IsValid : IsValid reliable_init
unfolding reliable_init
reliable_init-IsValid = record { slots = refl; storage = all_sized queue_size; counts = refl }
  where
    all_sized : (n : ℕ) → All (λ e. length e.payload ≡ max_payload) (replicate n zero_entry)
    all_sized zero = tt
    all_sized (suc n) = (refl, all_sized n)

-- Changing the slot that a loop found.
module _ {test : Entry → Bool} {change : Entry → Entry} {es es' : List Entry} {i : ℕ}
    (f : Found test change es i es') where
  pub same_slots : length es' ≡ length es
  same_slots = omega (
    arith,
    ap length f.before,
    ap length f.after,
    length-append f.front (f.slot ∷ f.back),
    length-append f.front (change f.slot ∷ f.back),
  )

  pub one_changed :
      active_entries es' + (if f.slot.active then 1 else 0)
      ≡ active_entries es + (if (change f.slot).active then 1 else 0)
  one_changed = omega (
    arith,
    ap active_entries f.before,
    ap active_entries f.after,
    tally-append (λ e. e.active) f.front (f.slot ∷ f.back),
    tally-append (λ e. e.active) f.front (change f.slot ∷ f.back),
  )

  pub same_storage :
      ((e : Entry) → length (change e).payload ≡ length e.payload)
      → All (λ e. length e.payload ≡ max_payload) es
      → All (λ e. length e.payload ≡ max_payload) es'
  same_storage kept h =
      let parts =
        All-split _ f.front (f.slot ∷ f.back)
          (subst (All (λ e. length e.payload ≡ max_payload)) f.before h) in
      subst (All (λ e. length e.payload ≡ max_payload)) (sym f.after)
        (All-append _ f.front (change f.slot ∷ f.back) parts.0 (kept f.slot ∙ parts.1.0, parts.1.1))

-- Each of the three operations that change the queue keeps it valid, whatever it is given.
pub reliable_add-IsValid :
    (payload : List ℕ) (payload_len seq now_ms : ℕ) (q : ReliableQueue)
    → IsValid q
    → IsValid (reliable_add payload payload_len seq now_ms q).1
unfolding reliable_add
reliable_add-IsValid payload payload_len seq now_ms q h =
    by_branch Keeps (ltb max_payload payload_len) (λ t. h)
      (λ t.
        after (update_first is_free fill q.entries) (update_first-Outcome is_free fill q.entries))
  where
    Keeps : Bool × ReliableQueue → Type 0
    Keeps r = IsValid r.1

    fill : Entry → Entry
    fill = filled_entry payload payload_len seq now_ms

    after : (o : Option (ℕ × List Entry)) → Outcome is_free fill q.entries o → IsValid (added q o).1
    after none f = h
    after (some (i, es)) f = record {
      slots = same_slots f ∙ h.slots;
      storage = same_storage f (λ e. length-copy_at e.payload 0 _) h.storage;
      counts = ground (arith, one_changed f, f.passes, h.counts);
    }

pub reliable_ack-IsValid :
    (seq : ℕ) (q : ReliableQueue) → IsValid q → IsValid (reliable_ack seq q).1
unfolding reliable_ack
reliable_ack-IsValid seq q h =
    after (update_first (awaits seq) released q.entries)
      (update_first-Outcome (awaits seq) released q.entries)
  where
    after :
        (o : Option (ℕ × List Entry))
        → Outcome (awaits seq) released q.entries o
        → IsValid (acknowledged q o).1
    after none f = h
    after (some (i, es)) f = record {
      slots = same_slots f ∙ h.slots;
      storage = same_storage f (λ e. refl) h.storage;
      counts = ground (arith, one_changed f, f.passes, h.counts);
    }

pub check_retransmit-IsValid :
    (now_ms : ℕ) (q : ReliableQueue) → IsValid q → IsValid (check_retransmit now_ms q).1
unfolding check_retransmit
check_retransmit-IsValid now_ms q h =
    after (update_first (is_due now_ms) (resent now_ms) q.entries)
      (update_first-Outcome (is_due now_ms) (resent now_ms) q.entries)
  where
    after :
        (o : Option (ℕ × List Entry))
        → Outcome (is_due now_ms) (resent now_ms) q.entries o
        → IsValid (retransmitted q o).1
    after none f = h
    after (some (i, es)) f = record {
      slots = same_slots f ∙ h.slots;
      storage = same_storage f (λ e. refl) h.storage;
      counts = ground (arith, one_changed f, h.counts);
    }
