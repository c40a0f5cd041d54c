-- ===== src/Outbox/Queue.antt =====
-- An outbox seen as a queue of messages.
use open_bc.Base.{
  ℕ, ◌+◌, ◌≤◌, ◌≡◌, refl, sym, ap, subst, ◌∙◌, arith, Bool, true, false, if◌then◌else◌, ltb,
}
use open_bc.Base.{
  List, [], ◌∷◌, ◌++◌, length, length-append, take, set-eq-copy_at, copy_at, copy_at-append,
  length-copy_at, take-copy_at, take_of_append, by_branch, u8, low, ◌>>>◌,
}
use mathlib.Core.List.{append-nil, append_assoc}
use open_bc.Outbox.{Outbox, max_packet_size, push, push_payload, counted, if_room, if_short}
use open_bc.Outbox.{
  add_unreliable, add_reliable, add_ack, add_fragment_ack, add_keepalive, add_keepalive_data,
}
use open_bc.Transport.Wire.{
  Sent, unreliable, reliable, ack, fragment_ack, keepalive, keepalive_data, wire,
}
use open_bc.Transport.Packets.{wires, wires-append}

-- The operation that sends a message.
abbrev pub add : Sent → Outbox → Bool × Outbox
add (unreliable p) = add_unreliable p (length p)
add (reliable p seq) = add_reliable p (length p) seq
add (ack seq flags) = add_ack seq flags
add (fragment_ack seq i) = add_fragment_ack seq i
add keepalive = add_keepalive
add (keepalive_data p) = add_keepalive_data p (length p)

-- The outbox holds the messages `ms`: behind the two bytes of the header stand their bytes.
pub record Holds (o : Outbox) (ms : List Sent) : Type 0 where
  pub storage : length o.buf ≡ max_packet_size
  pub header : List ℕ
  pub header_size : length header ≡ 2
  pub stored : take o.pos o.buf ≡ header ++ wires ms
  pub ends : o.pos ≡ 2 + length (wires ms)
  pub inside : o.pos ≤ max_packet_size
  pub count : o.msg_count ≡ length ms

-- Storing several bytes.
abbrev store : List ℕ → Outbox → Outbox
store xs o = record o { buf = copy_at o.buf o.pos xs; pos = o.pos + length xs }

push-eq-store : (v : ℕ) (o : Outbox) → push v o ≡ store (v ∷ []) o
push-eq-store v o = λ i. record o { buf = set-eq-copy_at o.buf o.pos v i; pos = o.pos + 1 }

store-store : (xs ys : List ℕ) (o : Outbox) → store ys (store xs o) ≡ store (xs ++ ys) o
store-store xs ys o = λ i. record o {
  buf = copy_at-append o.buf o.pos xs ys (o.pos + length xs) refl i;
  pos = ends i;
}
  where
    ends : o.pos + length xs + length ys ≡ o.pos + length (xs ++ ys)
    ends = omega (arith, length-append xs ys)

abbrev pushes : List ℕ → Outbox → Outbox
pushes [] o = o
pushes (v ∷ vs) o = pushes vs (push v o)

pushes-store : (vs xs : List ℕ) (o : Outbox) → pushes vs (store xs o) ≡ store (xs ++ vs) o
pushes-store [] xs o = ap (λ l. store l o) (sym (append-nil xs))
pushes-store (v ∷ vs) xs o =
    ap (pushes vs) (push-eq-store v (store xs o) ∙ store-store xs (v ∷ []) o)
    ∙ pushes-store vs (xs ++ (v ∷ [])) o
    ∙ ap (λ l. store l o) (append_assoc xs (v ∷ []) vs)

pushes-eq-store : (v : ℕ) (vs : List ℕ) (o : Outbox) → pushes (v ∷ vs) o ≡ store (v ∷ vs) o
pushes-eq-store v vs o = ap (pushes vs) (push-eq-store v o) ∙ pushes-store vs (v ∷ []) o

payload-store :
    (p xs : List ℕ) (o : Outbox) → push_payload p (length p) (store xs o) ≡ store (xs ++ p) o
payload-store p xs o =
    ap
      (λ q. record o {
        buf = copy_at (store xs o).buf (o.pos + length xs) q;
        pos = o.pos + length xs + length p;
      })
      whole
    ∙ store-store xs p o
  where
    whole : take (length p) p ≡ p
    whole = ap (take (length p)) (sym (append-nil p)) ∙ take_of_append p [] _ refl

-- The message behind those that the outbox holds.
stored-Holds :
    {o : Outbox} {ms : List Sent} (m : Sent)
    → Holds o ms
    → o.pos + length (wire m) ≤ max_packet_size
    → Holds (counted (store (wire m) o)) (ms ++ (m ∷ []))
stored-Holds {o} {ms} m h room = record {
  storage = length-copy_at o.buf o.pos (wire m) ∙ h.storage;
  header = h.header;
  header_size = h.header_size;
  stored =
      take-copy_at o.buf o.pos (wire m) _ refl (omega (arith, h.storage))
      ∙ ap (λ l. l ++ wire m) h.stored
      ∙ append_assoc h.header (wires ms) (wire m)
      ∙ ap (λ l. h.header ++ l) (sym one_more);
  ends = omega (arith, h.ends, ap length one_more, length-append (wires ms) (wire m));
  inside = room;
  count = omega (arith, h.count, length-append ms (m ∷ []));
}
  where
    one_more : wires (ms ++ (m ∷ [])) ≡ wires ms ++ wire m
    one_more = wires-append ms (m ∷ []) ∙ ap (λ l. wires ms ++ l) (append-nil (wire m))

-- What every operation does: the message's bytes are stored where they fit, and else nothing changes.
abbrev stored_if : ℕ → Bool → Sent → Outbox → Bool × Outbox
stored_if size short m o =
    if ltb max_packet_size (o.pos + size)
    then (false, o)
    else if short
    then (false, o)
    else (true, counted (store (wire m) o))

abbrev pub Accepts : Sent → Outbox → Type 0
Accepts m o = (o.pos + length (wire m) ≤ max_packet_size) × (length (wire m) ≤ 255)

-- A message with a payload behind its header bytes.
with_payload :
    (size v : ℕ) (vs p : List ℕ) (m : Sent) (o : Outbox)
    → size ≡ length (wire m)
    → (v ∷ vs) ++ p ≡ wire m
    → if_short size o (counted (push_payload p (length p) (pushes (v ∷ vs) o)))
      ≡ stored_if (length (wire m)) (ltb 255 (length (wire m))) m o
with_payload size v vs p m o e w =
    ap (λ q. if_short size o (counted (push_payload p (length p) q))) (pushes-eq-store v vs o)
    ∙ ap (λ q. if_short size o (counted q)) (payload-store p (v ∷ vs) o ∙ ap (λ l. store l o) w)
    ∙ ap (λ n. stored_if n (ltb 255 n) m o) e

add-eq-stored_if :
    (m : Sent) (o : Outbox) → add m o ≡ stored_if (length (wire m)) (ltb 255 (length (wire m))) m o
unfolding add_unreliable add_reliable add_ack add_fragment_ack add_keepalive add_keepalive_data
add-eq-stored_if (unreliable p) o =
    with_payload (3 + length p) 0x32 (u8 (3 + length p) ∷ 0x00 ∷ []) p (unreliable p) o
      (omega arith) refl
add-eq-stored_if (reliable p seq) o =
    let counter : u8 (low 8 seq) ≡ low 8 seq = omega arith in
    with_payload (5 + length p) 0x32 (u8 (5 + length p) ∷ 0x80 ∷ u8 (low 8 seq) ∷ 0 ∷ []) p
      (reliable p seq) o (omega arith)
      (ap (λ c. 0x32 ∷ u8 (5 + length p) ∷ 0x80 ∷ c ∷ 0 ∷ p) counter)
add-eq-stored_if (ack seq flags) o =
    ap (λ q. if_room 4 o (counted q)) (pushes-eq-store 0x01 (u8 (seq >>> 8) ∷ 0x00 ∷ flags ∷ []) o)
add-eq-stored_if (fragment_ack seq k) o =
    ap (λ q. if_room 5 o (counted q))
      (pushes-eq-store 0x01 (u8 (seq >>> 8) ∷ 0x00 ∷ 0x01 ∷ k ∷ []) o)
add-eq-stored_if keepalive o =
    ap (λ q. if_room 2 o (counted q)) (pushes-eq-store 0x00 (0x02 ∷ []) o)
add-eq-stored_if (keepalive_data p) o =
    with_payload (2 + length p) 0x00 (u8 (2 + length p) ∷ []) p (keepalive_data p) o (omega arith)
      refl

-- A message of at most 255 bytes for which the packet has room is added behind the messages that the
-- outbox holds, whichever of the six operations sends it.
pub add-Holds :
    (m : Sent) (o : Outbox) (ms : List Sent)
    → Holds o ms
    → Accepts m o
    → ((add m o).0 ≡ true) × Holds (add m o).1 (ms ++ (m ∷ []))
add-Holds m o ms h (room, short) =
    let fits : ltb max_packet_size (o.pos + length (wire m)) ≡ false = ground arith in
    let one_byte : ltb 255 (length (wire m)) ≡ false = ground arith in
    let done : add m o ≡ (true, counted (store (wire m) o)) =
      add-eq-stored_if m o ∙ rw (fits, one_byte) refl in
    (
      ap (λ r. r.0) done,
      subst (λ r. Holds r (ms ++ (m ∷ []))) (ap (λ r. r.1) (sym done)) (stored-Holds m h room),
    )

-- Any other message is refused, and the outbox is unchanged.
pub add_refuses : (m : Sent) (o : Outbox) → ¬ Accepts m o → add m o ≡ (false, o)
add_refuses m o over =
    add-eq-stored_if m o
    ∙ by_branch (λ r. r ≡ (false, o)) (ltb max_packet_size (o.pos + length (wire m))) (λ t. refl)
        (λ t.
          by_branch (λ r. r ≡ (false, o)) (ltb 255 (length (wire m))) (λ u. refl)
            (λ u. absurd (over (ground arith, ground arith))))
