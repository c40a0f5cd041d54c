-- ===== src/Transport/Packets.antt =====
-- A whole packet of the server's messages, as the parser reads it.
use open_bc.Base.{
  ℕ, zero, suc, ◌+◌, ◌-◌, ◌≤◌, ◌<◌, ◌≡◌, refl, sym, ap, ◌∙◌, arith, Option, some, map, Bool, true,
  false,
}
use open_bc.Base.{
  List, [], ◌∷◌, ◌++◌, length, length-append, take, take-nil, drop, All, u8, ltb, ◌&&◌,
  if◌then◌else◌,
}
use open_bc.Base.{drop-drop, drop_of_append}
use native.Mathlib.Decide.{dec_lt}
use mathlib.Core.List.{append_assoc}
use open_bc.Transport.{
  TransportMsg, Packet, parse_msg, parse_msgs, parse_packet, followed_by, cons_msg, to_packet,
}
use open_bc.Transport.Wire.{
  Sent, wire, Sendable, received, view, placed, parse_msg-placed, view-placed,
}

abbrev pub wires : List Sent → List ℕ
wires [] = []
wires (m ∷ ms) = wire m ++ wires ms

pub wires-append : (ms ns : List Sent) → wires (ms ++ ns) ≡ wires ms ++ wires ns
wires-append [] ns = refl
wires-append (m ∷ ms) ns =
    ap (λ l. wire m ++ l) (wires-append ms ns) ∙ sym (append_assoc (wire m) (wires ms) (wires ns))

wire-nonempty : (m : Sent) → 0 < length (wire m)
wire-nonempty m = ground arith

module _ (bytes : List ℕ) (len : ℕ) where
  abbrev pub placed_all : ℕ → List Sent → List TransportMsg
  placed_all pos [] = []
  placed_all pos (m ∷ ms) = placed bytes len pos m ∷ placed_all (pos + length (wire m)) ms

  behind :
      (pos : ℕ) (m : Sent) (ms : List Sent) (rest : List ℕ)
      → drop pos bytes ≡ wires (m ∷ ms) ++ rest
      → drop (pos + length (wire m)) bytes ≡ wires ms ++ rest
  behind pos m ms rest e =
      sym (drop-drop pos (length (wire m)) bytes _ refl)
      ∙ ap (drop (length (wire m))) (e ∙ append_assoc (wire m) (wires ms) rest)
      ∙ drop_of_append (wire m) (wires ms ++ rest) _ refl

  parse_msgs-wires :
      (ms : List Sent) (count pos : ℕ) (rest : List ℕ)
      → All Sendable ms
      → drop pos bytes ≡ wires ms ++ rest
      → len ≡ pos + length (wires ms)
      → parse_msgs bytes len (length ms) count pos ≡ some (take (32 - count) (placed_all pos ms))
  unfolding parse_msgs
  parse_msgs-wires [] count pos rest s e size = ap some (sym (take-nil (32 - count)))
  parse_msgs-wires (m ∷ ms) count pos rest s e size = elim (dec_lt count 32) [
    | yes more ↦
        let tests : (ltb pos len && ltb count 32) ≡ true = ground (arith, wire-nonempty m, sizes) in
        let deeper : suc (32 - (count + 1)) ≡ 32 - count = omega arith in
        choose tests
        ∙ ap (λ r. followed_by r later)
            (parse_msg-placed bytes len pos m (wires ms ++ rest) s.0
              (e ∙ append_assoc (wire m) (wires ms) rest) (omega (arith, sizes)))
        ∙ ap (cons_msg (placed bytes len pos m)) (
            parse_msgs-wires ms (count + 1) (pos + length (wire m)) rest s.1
              (behind pos m ms rest e) (omega (arith, sizes)))
        ∙ ap (λ k. some (take k (placed_all pos (m ∷ ms)))) deeper
    | no full ↦
        let tests : (ltb pos len && ltb count 32) ≡ false = ground arith in
        let none_left : 0 ≡ 32 - count = omega arith in
        choose tests ∙ ap (λ k. some (take k (placed_all pos (m ∷ ms)))) none_left
  ]
    where
      sizes : len ≡ pos + length (wire m) + length (wires ms)
      sizes = omega (arith, length-append (wire m) (wires ms))

      later : ℕ → Option (List TransportMsg)
      later = parse_msgs bytes len (length ms) (count + 1)

      choose :
          {t t' : Bool}
          → t ≡ t'
          → (if t then followed_by (parse_msg bytes len pos) later else some [])
            ≡ (if t' then followed_by (parse_msg bytes len pos) later else some [])
      choose h = ap (λ t. if t then followed_by (parse_msg bytes len pos) later else some []) h

  view-placed_all :
      (ms : List Sent) (k pos : ℕ) (rest : List ℕ)
      → drop pos bytes ≡ wires ms ++ rest
      → map (view bytes) (take k (placed_all pos ms)) ≡ take k (map received ms)
  view-placed_all [] zero pos rest e = refl
  view-placed_all [] (suc k) pos rest e = refl
  view-placed_all (m ∷ ms) zero pos rest e = refl
  view-placed_all (m ∷ ms) (suc k) pos rest e = λ i.
      view-placed bytes len pos m (wires ms ++ rest) (e ∙ append_assoc (wire m) (wires ms) rest) i
      ∷ view-placed_all ms k (pos + length (wire m)) rest (behind pos m ms rest e) i

-- A packet as the server lays it out: the direction, the count, the messages.
abbrev pub packet : ℕ → List Sent → List ℕ
packet direction ms = direction ∷ u8 (length ms) ∷ wires ms

-- The parser over a packet of such messages, message by message.
pub parse_packet-placed :
    (direction : ℕ) (ms : List Sent) (rest : List ℕ)
    → All Sendable ms
    → length ms ≤ 255
    → parse_packet (packet direction ms ++ rest) (length (packet direction ms))
      ≡ some (record {
        direction = direction;
        msgs =
            take 32 (placed_all (packet direction ms ++ rest) (length (packet direction ms)) 2 ms);
      })
unfolding parse_packet
parse_packet-placed direction ms rest s few = rw long_enough (
    ap (λ n. to_packet direction (parse_msgs bytes len n 0 2)) count
    ∙ ap (to_packet direction) (parse_msgs-wires bytes len ms 0 2 rest s refl (omega arith)))
  where
    bytes : List ℕ
    bytes = packet direction ms ++ rest

    len : ℕ
    len = length (packet direction ms)

    long_enough : ltb (length (packet direction ms)) 2 ≡ false
    long_enough = ground arith

    count : u8 (length ms) ≡ length ms
    count = omega arith

-- The parser over a packet of at most 255 messages of the server's, each within its length limit and none of them
-- the ACK of a fragment: it accepts the packet, and the first 32 messages come out as they went in, with their
-- payloads; bytes behind the packet change nothing.
pub parse_packet-packet :
    (direction : ℕ) (ms : List Sent) (rest : List ℕ)
    → All Sendable ms
    → length ms ≤ 255
    → (p : Packet) × (parse_packet (packet direction ms ++ rest) (length (packet direction ms))
        ≡ some p)
      × (p.direction ≡ direction)
      × (map (view (packet direction ms ++ rest)) p.msgs ≡ take 32 (map received ms))
parse_packet-packet direction ms rest s few = (
  record { direction = direction; msgs = take 32 (placed_all bytes len 2 ms) },
  parse_packet-placed direction ms rest s few,
  refl,
  view-placed_all bytes len ms 32 2 rest refl,
)
  where
    bytes : List ℕ
    bytes = packet direction ms ++ rest

    len : ℕ
    len = length (packet direction ms)
