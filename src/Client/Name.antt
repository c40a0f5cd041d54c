-- ===== src/Client/Name.antt =====
-- The name that a client sends, from client_transport.c to server_dispatch.c.
use open_bc.Base.{
  ℕ, zero, suc, ◌+◌, ◌*◌, ◌≤◌, ◌<◌, ◌≡◌, refl, sym, ap, ◌∙◌, arith, Bool, true, false, ◌&&◌, Option,
  none, some, List, [], ◌∷◌, ◌++◌, All, IsByte,
}
use open_bc.Base.{
  copy_at, overwrite_all, length-append, length, take, drop, take_of_append, take_all, ◌==◌,
  if_false, get_elem?, get_or, low, ◌>>>◌, u8,
}
use mathlib.Core.List.{append-nil}
use open_bc.Base.Text.{c_string}
use open_bc.Cipher.{alby_cipher_encrypt}
use open_bc.Cipher.Inverse.{decrypt-encrypt}
use open_bc.Peers.{Addr, Peer, peers_find}
use open_bc.Transport.{Packet, dir_client, parse_packet}
use open_bc.Transport.Wire.{Sent, keepalive_data}
use open_bc.Transport.Packets.{packet, placed_all, parse_packet-placed}
use open_bc.Server.{Server}
use open_bc.Server.Looks.{at_slot-look}
use open_bc.Dispatch.Game.{Combat}
use open_bc.Dispatch.Packet.{
  dir_init, decoded_name, heard, if_parsed, handle_packet, keepalive, ack_below_32,
}
use open_bc.Dispatch.Names.{name_of, named_at, at_named, keepalive-named}
use open_bc.Client.{wide, keepalive_bytes, client_build_keepalive_name}

decoded_name-wide :
    (room : ℕ) (name rest : List ℕ)
    → length name ≤ room
    → All (λ c. 0 < c) name
    → decoded_name room (wide name ++ (0 ∷ 0 ∷ rest)) ≡ name
decoded_name-wide zero [] rest short h = refl
decoded_name-wide (suc room) [] rest short h = refl
decoded_name-wide zero (c ∷ name) rest short h = absurd (omega (arith, short))
decoded_name-wide (suc room) (c ∷ name) rest short h =
    let one : (c == 0 && 0 == 0) ≡ false = ground (arith, h.0) in
    if_false {test = c == 0 && 0 == 0} [] one
    ∙ ap (λ l. c ∷ l) (decoded_name-wide room name rest (omega (arith, short)) h.1)

length-wide : (name : List ℕ) → length (wide name) ≡ length name * 2
length-wide [] = omega arith
length-wide (c ∷ name) = omega (arith, length-wide name)

wide-IsByte : (name : List ℕ) → All IsByte name → All IsByte (wide name ++ (0 ∷ 0 ∷ []))
wide-IsByte [] h = (omega arith, (omega arith, tt))
wide-IsByte (c ∷ name) h = (h.0, (omega arith, wide-IsByte name h.1))

-- What stands behind the type and the length
abbrev payload : ℕ → ℕ → List ℕ → List ℕ
payload slot local_ip name =
    0x80
    ∷ 0x00
    ∷ 0x00
    ∷ slot
    ∷ low 8 local_ip
    ∷ low 8 (local_ip >>> 8)
    ∷ low 8 (local_ip >>> 16)
    ∷ low 8 (local_ip >>> 24)
    ∷ (wide name ++ (0x00 ∷ 0x00 ∷ []))

abbrev message_length : List ℕ → ℕ
message_length name = 2 + (1 + 2 + 1 + 4 + (length name * 2 + 2))

length-payload :
    (slot local_ip : ℕ) (name : List ℕ)
    → 2 + length (payload slot local_ip name) ≡ message_length name
length-payload slot local_ip name =
    omega (arith, length-append (wide name) (0 ∷ 0 ∷ []), length-wide name)

-- What the client lays out is a packet with one message.
bytes_lem :
    (slot local_ip : ℕ) (name : List ℕ)
    → keepalive_bytes (message_length name) slot local_ip name
      ≡ packet (u8 (dir_client + slot)) (keepalive_data (payload slot local_ip name) ∷ [])
bytes_lem slot local_ip name = λ i.
    u8 (dir_client + slot)
    ∷ 1
    ∷ 0x00
    ∷ u8 (sym (length-payload slot local_ip name) i)
    ∷ sym (append-nil (payload slot local_ip name)) i

module _ (combat : Combat) (from : Addr) (slot client_slot local_ip now_ms : ℕ)
    (name : List ℕ) where
  abbrev sent : List ℕ
  sent = keepalive_bytes (message_length name) client_slot local_ip name

  abbrev parsed : Packet
  parsed = record {
    direction = u8 (dir_client + client_slot);
    msgs = placed_all [] 0 2 (keepalive_data (payload client_slot local_ip name) ∷ []);
  }

  parse_packet-sent : length name ≤ 30 → parse_packet sent (length sent) ≡ some parsed
  parse_packet-sent short =
      ap (λ l. parse_packet l (length l)) (bytes_lem client_slot local_ip name)
      ∙ ap (λ l. parse_packet l (length p)) (sym (append-nil p))
      ∙ parse_packet-placed (u8 (dir_client + client_slot)) ms []
          (omega (arith, length-payload client_slot local_ip name, short), tt) (omega arith)
    where
      ms : List Sent
      ms = keepalive_data (payload client_slot local_ip name) ∷ []

      p : List ℕ
      p = packet (u8 (dir_client + client_slot)) ms

  and_false : (b : Bool) → (b && false) ≡ false
  and_false true = refl
  and_false false = refl

  -- The datagram at the server, whose peer has no name yet.
  sent_named :
      (p : Peer) (s : Server)
      → length name ≤ 30
      → All (λ c. 0 < c) name
      → All IsByte sent
      → peers_find from s.peers ≡ some slot
      → get_elem? s.peers.peers slot ≡ some p
      → get_or p.name 0 0 ≡ 0
      → length name < length p.name
      → (q : Peer) × (get_elem?
            (handle_packet combat from (alby_cipher_encrypt sent) now_ms s).peers.peers
            slot
          ≡ some q)
        × (c_string q.name ≡ name)
  unfolding handle_packet
  sent_named p s short chars small known at_p nameless fits =
      let (p1, at_p1, same) = named_at s1.peers.peers slot p.name (
        ap (λ (l : List (List ℕ)). get_elem? l slot)
          (at_slot-look name_of slot (λ q. (record q { last_recv_time = now_ms }, [])) (λ q. refl)
            s)
        ∙ at_named s.peers.peers slot p at_p) in
      let (q, at_q, its_name) =
        keepalive-named slot body now_ms name s1 p1 (omega arith) at_p1
          (ap (λ (l : List ℕ). get_or l 0 0) same ∙ nameless)
          (decoded_name-wide 30 name [] short chars) chars (omega (arith, fits, ap length same)) in
      (q, ap (λ (x : Server). get_elem? x.peers.peers slot) handled ∙ at_q, its_name)
    where
      s1 : Server
      s1 = heard (some slot) now_ms s

      body : List ℕ
      body = payload client_slot local_ip name

      handled :
          handle_packet combat from (alby_cipher_encrypt sent) now_ms s
          ≡ keepalive slot body now_ms (ack_below_32 slot 0 body s1)
      handled =
          (λ i.
            let bytes = decrypt-encrypt sent small i in
            if_parsed combat from bytes now_ms (parse_packet bytes (length bytes)) (known i)
              (heard (known i) now_ms s))
          ∙ ap (λ (o : Option Packet). if_parsed combat from sent now_ms o (some slot) s1)
              (parse_packet-sent short)
          ∙ if_false _ (and_false (u8 (dir_client + client_slot) == dir_init))
          ∙ ap (λ l. keepalive slot l now_ms (ack_below_32 slot 0 l s1)) (take_all body)

-- The name that a client sends in its keepalive is the name that the server then has for it: the client's builder,
-- in an array with room, makes a packet, and after the server has handled the encrypted packet, from the address of a
-- peer that has no name yet, that peer's name is the client's. The name is of at most 30 characters, each a byte other
-- than 0, the peer's array has room for it with its NUL, and the client's slot is a byte.
pub handle_packet-client_build :
    (combat : Combat) (from : Addr) (slot client_slot local_ip now_ms : ℕ) (name out : List ℕ)
    (size : ℕ) (p : Peer) (s : Server)
    → length name ≤ 30
    → All (λ c. 0 < c) name
    → All IsByte name
    → IsByte client_slot
    → length out ≡ size
    → 14 + length name * 2 ≤ size
    → peers_find from s.peers ≡ some slot
    → get_elem? s.peers.peers slot ≡ some p
    → get_or p.name 0 0 ≡ 0
    → length name < length p.name
    → (n : ℕ) × ((client_build_keepalive_name client_slot local_ip name out size).0 ≡ some n)
      × (q : Peer) × (get_elem?
            (handle_packet combat from
              (alby_cipher_encrypt
                (take n (client_build_keepalive_name client_slot local_ip name out size).1))
              now_ms
              s).peers.peers
            slot
          ≡ some q)
      × (c_string q.name ≡ name)
unfolding client_build_keepalive_name
handle_packet-client_build combat from slot client_slot local_ip now_ms name out size p s short
      chars small small_slot e fits known at_p nameless room =
    let (q, at_q, its_name) =
      sent_named combat from slot client_slot local_ip now_ms name p s short chars
        (
          omega arith,
          (
            omega arith,
            (
              omega arith,
              (
                omega arith,
                (
                  omega arith,
                  (
                    omega arith,
                    (
                      omega arith,
                      (
                        small_slot,
                        (
                          omega arith,
                          (omega arith, (omega arith, (omega arith, wide-IsByte name small))),
                        ),
                      ),
                    ),
                  ),
                ),
              ),
            ),
          ),
        )
        known at_p nameless room in
    (
      n,
      ap (λ (r : Option ℕ × List ℕ). r.0) made,
      q,
      ap
            (λ l.
              get_elem? (handle_packet combat from (alby_cipher_encrypt l) now_ms s).peers.peers
                slot)
            (ap (λ (r : Option ℕ × List ℕ). take n r.1) made
              ∙ ap (take n) (overwrite_all out bytes (omega (arith, whole, e, fits)))
              ∙ take_of_append bytes (drop (length bytes) out) n (sym whole))
          ∙ at_q,
      its_name,
    )
  where
    n : ℕ
    n = 2 + message_length name

    bytes : List ℕ
    bytes = keepalive_bytes (message_length name) client_slot local_ip name

    whole : length bytes ≡ n
    whole = omega (arith, length-append (wide name) (0 ∷ 0 ∷ []), length-wide name)

    made :
        client_build_keepalive_name client_slot local_ip name out size
        ≡ (some n, copy_at out 0 bytes)
    made = if_false (none, out) (ground (arith, fits, short))
