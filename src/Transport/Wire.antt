-- ===== src/Transport/Wire.antt =====
-- The messages that the server sends, as bytes on the wire and as what a receiver gets of them.
use open_bc.Base.{ℕ, ◌+◌, ◌≤◌, ◌<◌, ◌≡◌, refl, sym, ap, ◌∙◌, arith, Option, none, some}
use open_bc.Base.{
  List, [], ◌∷◌, ◌++◌, length, get_or, take, drop, low, u8, ◌<<<◌, ◌>>>◌, IsU16, bit_or, ◌*◌,
}
use open_bc.Base.{get_or-drop, drop-drop, take_of_append, drop_of_append}
use open_bc.Base.Bits.{or_fields}
use open_bc.Transport.{
  TransportMsg, parse_ack, parse_game, parse_framed, parse_generic, parse_msg, flags_len,
}

pub data Sent : Type 0 where
  unreliable : List ℕ → Sent
  reliable : List ℕ → ℕ → Sent
  ack : ℕ → ℕ → Sent
  fragment_ack : ℕ → ℕ → Sent
  keepalive : Sent
  keepalive_data : List ℕ → Sent

abbrev pub wire : Sent → List ℕ
wire (unreliable p) = 0x32 ∷ u8 (3 + length p) ∷ 0x00 ∷ p
wire (reliable p seq) = 0x32 ∷ u8 (5 + length p) ∷ 0x80 ∷ low 8 seq ∷ 0 ∷ p
wire (ack seq flags) = 0x01 ∷ u8 (seq >>> 8) ∷ 0x00 ∷ flags ∷ []
wire (fragment_ack seq i) = 0x01 ∷ u8 (seq >>> 8) ∷ 0x00 ∷ 0x01 ∷ i ∷ []
wire keepalive = 0x00 ∷ 0x02 ∷ []
wire (keepalive_data p) = 0x00 ∷ u8 (2 + length p) ∷ p

-- The length field is one byte; the parser has no case for the ACK of a fragment, whose fifth byte it
-- takes for the next message.
abbrev pub Sendable : Sent → Type 0
Sendable (unreliable p) = length p ≤ 252
Sendable (reliable p seq) = length p ≤ 250
Sendable (ack seq flags) = Unit
Sendable (fragment_ack seq i) = 1 < 1
Sendable keepalive = Unit
Sendable (keepalive_data p) = length p ≤ 253

-- A parsed message with its payload's bytes in place of the pointer.
pub record Received : Type 0 where
  pub kind : ℕ
  pub flags : ℕ
  pub seq : ℕ
  pub body : List ℕ

abbrev pub body_at : List ℕ → Option ℕ → ℕ → List ℕ
body_at bytes none size = []
body_at bytes (some offset) size = take size (drop offset bytes)

abbrev pub view : List ℕ → TransportMsg → Received
view bytes m = record {
  kind = m.kind;
  flags = m.flags;
  seq = m.seq;
  body = body_at bytes m.payload m.payload_len;
}

abbrev pub message : ℕ → ℕ → ℕ → List ℕ → Received
message kind flags seq body = record { kind = kind; flags = flags; seq = seq; body = body }

-- A reliable message comes back with its counter in the high byte of the sequence number, an ACK with
-- the counter that it answers.
abbrev pub received : Sent → Received
received (unreliable p) = message 0x32 0x00 0 p
received (reliable p seq) = message 0x32 0x80 (low 8 seq <<< 8) p
received (ack seq flags) = message 0x01 flags (u8 (seq >>> 8)) []
received (fragment_ack seq i) = message 0x01 0x01 (u8 (seq >>> 8)) []
received keepalive = message 0x00 0 0 []
received (keepalive_data p) = message 0x00 0 0 p

or-zero : (a : ℕ) → IsU16 a → bit_or a 0 ≡ a
or-zero a small = omega (arith, or_fields 16 0 a)

module _ (bytes : List ℕ) (len pos : ℕ) where
  -- The message that the parser makes of `m`.
  abbrev pub placed : Sent → TransportMsg
  placed (unreliable p) = record {
    kind = 0x32;
    flags = 0x00;
    seq = 0;
    payload = some (pos + 3);
    payload_len = length p;
  }
  placed (reliable p seq) = record {
    kind = 0x32;
    flags = 0x80;
    seq = low 8 seq <<< 8;
    payload = some (pos + 5);
    payload_len = length p;
  }
  placed (ack seq flags) = record {
    kind = 0x01;
    flags = flags;
    seq = u8 (seq >>> 8);
    payload = none;
    payload_len = 0;
  }
  placed (fragment_ack seq i) = record {
    kind = 0x01;
    flags = 0x01;
    seq = u8 (seq >>> 8);
    payload = none;
    payload_len = 0;
  }
  placed keepalive = record {
    kind = 0x00;
    flags = 0;
    seq = 0;
    payload = some (pos + 2);
    payload_len = 0;
  }
  placed (keepalive_data p) = record {
    kind = 0x00;
    flags = 0;
    seq = 0;
    payload = some (pos + 2);
    payload_len = length p;
  }

  ahead :
      (m : List ℕ) (rest : List ℕ) (i : ℕ)
      → drop pos bytes ≡ m ++ rest
      → get_or bytes (pos + i) 0 ≡ get_or (m ++ rest) i 0
  ahead m rest i e = sym (get_or-drop bytes pos i 0 _ refl) ∙ ap (λ l. get_or l i 0) e

  first_ahead :
      (m : List ℕ) (rest : List ℕ)
      → drop pos bytes ≡ m ++ rest
      → get_or bytes pos 0 ≡ get_or (m ++ rest) 0 0
  first_ahead m rest e =
      sym (get_or-drop bytes pos 0 0 pos (omega arith)) ∙ ap (λ l. get_or l 0 0) e

  -- The length field is read back.
  field :
      (total high : ℕ) → total < 256 → high < 256 → bit_or total (high <<< 8) ≡ total + high * 256
  field total high t h = omega (arith, or_fields 8 high total)

  pub parse_msg-placed :
      (m : Sent) (rest : List ℕ)
      → Sendable m
      → drop pos bytes ≡ wire m ++ rest
      → pos + length (wire m) ≤ len
      → parse_msg bytes len pos ≡ some (placed m, pos + length (wire m))
  unfolding parse_msg parse_ack parse_game parse_framed parse_generic
  parse_msg-placed (unreliable p) rest s e fits =
      let at = λ (i : ℕ). ahead (wire (unreliable p)) rest i e in
      let length_field : flags_len bytes pos ≡ 3 + length p + 0 * 256 =
        rw (at 1, at 2) (field (u8 (3 + length p)) 0 (omega arith) (omega arith) ∙ omega arith) in
      let total : low 13 (flags_len bytes pos) ≡ 3 + length p = omega (arith, length_field) in
      let high : u8 (flags_len bytes pos >>> 8) ≡ 0 = omega (arith, length_field) in
      ground (arith, first_ahead (wire (unreliable p)) rest e, total, high)
  parse_msg-placed (reliable p seq) rest s e fits =
      let at = λ (i : ℕ). ahead (wire (reliable p seq)) rest i e in
      let length_field : flags_len bytes pos ≡ 5 + length p + 0x80 * 256 =
        rw (at 1, at 2)
          (field (u8 (5 + length p)) 0x80 (omega arith) (omega arith) ∙ omega arith) in
      let total : low 13 (flags_len bytes pos) ≡ 5 + length p = omega (arith, length_field) in
      let high : u8 (flags_len bytes pos >>> 8) ≡ 0x80 = omega (arith, length_field) in
      let counter : bit_or (get_or bytes (pos + 3) 0 <<< 8) (get_or bytes (pos + 4) 0)
          ≡ low 8 seq <<< 8 =
        rw (at 3, at 4) (or-zero (low 8 seq <<< 8) (omega arith)) in
      ground (arith, first_ahead (wire (reliable p seq)) rest e, total, high, counter)
  parse_msg-placed (ack seq flags) rest s e fits =
      let at = λ (i : ℕ). ahead (wire (ack seq flags)) rest i e in
      ground (arith, first_ahead (wire (ack seq flags)) rest e, at 1, at 3)
  parse_msg-placed (fragment_ack seq i) rest s e fits = absurd (omega arith)
  parse_msg-placed keepalive rest s e fits =
      ground (arith, first_ahead (wire keepalive) rest e, ahead (wire keepalive) rest 1 e)
  parse_msg-placed (keepalive_data p) rest s e fits =
      let total : get_or bytes (pos + 1) 0 ≡ 2 + length p =
        omega (arith, ahead (wire (keepalive_data p)) rest 1 e) in
      ground (arith, first_ahead (wire (keepalive_data p)) rest e, total)

  payload_behind :
      (header p rest : List ℕ) (k : ℕ)
      → drop pos bytes ≡ header ++ (p ++ rest)
      → k ≡ pos + length header
      → take (length p) (drop k bytes) ≡ p
  payload_behind header p rest k e at =
      ap (take (length p)) (
        sym (drop-drop pos (length header) bytes k at)
        ∙ ap (drop (length header)) e
        ∙ drop_of_append header (p ++ rest) _ refl)
      ∙ take_of_append p rest _ refl

  -- A message that the server sends is received as it was sent.
  pub view-placed :
      (m : Sent) (rest : List ℕ)
      → drop pos bytes ≡ wire m ++ rest
      → view bytes (placed m) ≡ received m
  view-placed (unreliable p) rest e =
      ap (message 0x32 0x00 0)
        (payload_behind (0x32 ∷ u8 (3 + length p) ∷ 0x00 ∷ []) p rest (pos + 3) e refl)
  view-placed (reliable p seq) rest e = ap (message 0x32 0x80 (low 8 seq <<< 8)) (
      payload_behind (0x32 ∷ u8 (5 + length p) ∷ 0x80 ∷ low 8 seq ∷ 0 ∷ []) p rest (pos + 5) e refl)
  view-placed (ack seq flags) rest e = refl
  view-placed (fragment_ack seq i) rest e = refl
  view-placed keepalive rest e = refl
  view-placed (keepalive_data p) rest e =
      ap (message 0x00 0 0) (payload_behind (0x00 ∷ u8 (2 + length p) ∷ []) p rest (pos + 2) e refl)
