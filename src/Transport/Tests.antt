-- ===== src/Transport/Tests.antt =====
-- Packets through the transport's parser and builders.
use open_bc.Base.{
  ℕ, ◌≤◌, ◌≡◌, refl, arith, min, some, none, map, All, List, [], ◌∷◌, ◌++◌, length, get_or, take,
}
use open_bc.Transport.{Packet, parse_packet, parse_msgs, parse_msg, parse_generic, parse_ack}
use open_bc.Transport.Bounds.{Within, parse_packet-Within}
use open_bc.Transport.Wire.{Sent, reliable, ack, keepalive, received, view}
use open_bc.Transport.Packets.{packet, parse_packet-packet}

-- A keepalive with two bytes of data.
abbrev keepalive_input : List ℕ
keepalive_input = 0x02 ∷ 0x01 ∷ 0x00 ∷ 0x04 ∷ 0xaa ∷ 0xbb ∷ []

abbrev keepalive_packet : Packet
keepalive_packet = record {
  direction = 0x02;
  msgs = record { kind = 0x00; flags = 0; seq = 0; payload = some 4; payload_len = 2 } ∷ [];
}

keepalive_parses : parse_packet keepalive_input 6 ≡ some keepalive_packet
unfolding parse_packet parse_msgs parse_msg parse_generic
keepalive_parses = refl

-- A length that runs past the packet's end is refused.
overlong_refused : parse_packet (0x02 ∷ 0x01 ∷ 0x00 ∷ 0x05 ∷ 0xaa ∷ 0xbb ∷ []) 6 ≡ none
unfolding parse_packet parse_msgs parse_msg parse_generic
overlong_refused = refl

-- The ACK of fragment 7 has five bytes; the fifth is taken for a message of type 7, and the packet refused.
fragment_ack_misparsed :
    parse_packet (0x01 ∷ 0x02 ∷ 0x01 ∷ 0x09 ∷ 0x00 ∷ 0x01 ∷ 0x07 ∷ 0x00 ∷ 0x02 ∷ []) 9 ≡ none
unfolding parse_packet parse_msgs parse_msg parse_generic parse_ack
fragment_ack_misparsed = refl

parse_packet-Within_example :
    (2 ≤ 6)
    × (0x02 ≡ get_or keepalive_input 0 0)
    × (1 ≤ min (get_or keepalive_input 1 0) 32)
    × All (Within 6) keepalive_packet.msgs
parse_packet-Within_example =
    parse_packet-Within keepalive_input 6 keepalive_packet keepalive_parses

abbrev three_messages : List Sent
three_messages = reliable (0x2a ∷ []) 5 ∷ ack 0x300 0x80 ∷ keepalive ∷ []

parse_packet-packet_example :
    (p : Packet) × (parse_packet
        (packet 0x01 three_messages ++ (0xff ∷ []))
        (length (packet 0x01 three_messages))
      ≡ some p)
    × (p.direction ≡ 0x01)
    × (map (view (packet 0x01 three_messages ++ (0xff ∷ []))) p.msgs
        ≡ take 32 (map received three_messages))
parse_packet-packet_example =
    parse_packet-packet 0x01 three_messages (0xff ∷ []) (omega arith, (tt, (tt, tt))) (omega arith)
