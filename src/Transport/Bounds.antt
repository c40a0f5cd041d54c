-- ===== src/Transport/Bounds.antt =====
-- The parser's answer against the bounds of the packet.
use open_bc.Base.{ℕ, zero, suc, ◌+◌, ◌-◌, ◌≤◌, ◌<◌, ◌≡◌, refl, arith, Option, none, some}
use open_bc.Base.{u8, ◌>>>◌, subst}
use open_bc.Base.{List, length, get_or, ltb, ◌&&◌, ◌||◌, ◌==◌, not, low, min, All, by_branch}
use open_bc.Transport.{
  TransportMsg, Packet, Step, parse_ack, parse_game, parse_framed, parse_generic, parse_msg,
}
use open_bc.Transport.{flags_len, cons_msg, to_packet, followed_by, parse_msgs, parse_packet}

abbrev WithinAt : ℕ → Option ℕ → ℕ → Type 0
WithinAt len none size = size ≡ 0
WithinAt len (some offset) size = (2 < offset) × (offset + size ≤ len)

-- The payload's bytes, where there are any, lie behind the packet's header and before its end.
pub Within : ℕ → TransportMsg → Type 0
Within len m = WithinAt len m.payload m.payload_len

-- A step that answers does so inside the packet, and moves on by two bytes or more.
abbrev Advances : ℕ → ℕ → Step → Type 0
Advances len pos none = Unit
Advances len pos (some (m, next)) = Within len m × (pos + 2 ≤ next) × (next ≤ len)

module _ (bytes : List ℕ) (len pos : ℕ) (behind : 2 ≤ pos) where
  parse_ack-Advances : Advances len pos (parse_ack bytes len pos)
  unfolding parse_ack Within
  parse_ack-Advances =
      by_branch (Advances len pos) (ltb len (pos + 4)) (λ t. tt)
        (λ t. (refl, omega arith, ground arith))

  parse_framed-Advances :
      (flags total_len : ℕ)
      → 3 ≤ total_len
      → pos + total_len ≤ len
      → Advances len pos (parse_framed bytes pos flags total_len)
  unfolding parse_framed Within
  parse_framed-Advances flags total_len few fits =
      by_branch (Advances len pos) (not (ltb flags 0x80))
        (λ t.
          by_branch (Advances len pos) (ltb total_len 5) (λ u. tt)
            (λ u. ((omega arith, ground arith), omega arith, fits)))
        (λ t. ((omega arith, omega arith), omega arith, fits))

  parse_game-Advances : Advances len pos (parse_game bytes len pos)
  unfolding parse_game
  parse_game-Advances =
      by_branch (Advances len pos) (ltb len (pos + 3)) (λ t. tt)
        (λ t.
          by_branch (Advances len pos)
            (ltb (low 13 (flags_len bytes pos)) 3 || ltb len (pos + low 13 (flags_len bytes pos)))
            (λ u. tt)
            (λ u.
              parse_framed-Advances (u8 (flags_len bytes pos >>> 8)) (low 13 (flags_len bytes pos))
                (ground arith) (ground arith)))

  parse_generic-Advances : Advances len pos (parse_generic bytes len pos)
  unfolding parse_generic Within
  parse_generic-Advances =
      by_branch (Advances len pos) (ltb len (pos + 2)) (λ t. tt)
        (λ t.
          by_branch (Advances len pos)
            (ltb (get_or bytes (pos + 1) 0) 2 || ltb len (pos + get_or bytes (pos + 1) 0)) (λ u. tt)
            (λ u. ((omega arith, ground arith), ground arith, ground arith)))

  parse_msg-Advances : Advances len pos (parse_msg bytes len pos)
  unfolding parse_msg
  parse_msg-Advances =
      by_branch (Advances len pos) (get_or bytes pos 0 == 0x01) (λ t. parse_ack-Advances)
        (λ t.
          by_branch (Advances len pos) (get_or bytes pos 0 == 0x32) (λ u. parse_game-Advances)
            (λ u. parse_generic-Advances))

-- The messages lie inside the packet, and there are no more of them than `most`.
abbrev Parsed : ℕ → ℕ → Option (List TransportMsg) → Type 0
Parsed len most none = Unit
Parsed len most (some ms) = All (Within len) ms × (length ms ≤ most)

cons_msg-Parsed :
    (len most : ℕ) (m : TransportMsg) (o : Option (List TransportMsg))
    → Within len m
    → Parsed len most o
    → Parsed len (suc most) (cons_msg m o)
cons_msg-Parsed len most m none w p = tt
cons_msg-Parsed len most m (some ms) w p = ((w, p.0), omega (arith, p.1))

followed_by-Parsed :
    (len pos most : ℕ) (s : Step) (rest : ℕ → Option (List TransportMsg))
    → Advances len pos s
    → ((next : ℕ) → pos ≤ next → Parsed len most (rest next))
    → Parsed len (suc most) (followed_by s rest)
followed_by-Parsed len pos most none rest a later = tt
followed_by-Parsed len pos most (some (m, next)) rest a later =
    cons_msg-Parsed len most m (rest next) a.0 (later next (omega (arith, a.1)))

parse_msgs-Parsed :
    (bytes : List ℕ) (len announced count pos : ℕ)
    → 2 ≤ pos
    → Parsed len (min announced (32 - count)) (parse_msgs bytes len announced count pos)
unfolding parse_msgs
parse_msgs-Parsed bytes len zero count pos h = (tt, omega arith)
parse_msgs-Parsed bytes len (suc announced) count pos h =
    by_branch (Parsed len (min (suc announced) (32 - count))) (ltb pos len && ltb count 32)
      (λ t.
        let one_more : suc (min announced (32 - (count + 1))) ≡ min (suc announced) (32 - count) =
          ground arith in
        subst
          (λ k.
            Parsed len k
              (followed_by (parse_msg bytes len pos) (parse_msgs bytes len announced (count + 1))))
          one_more
          (followed_by-Parsed len pos _ (parse_msg bytes len pos) _
            (parse_msg-Advances bytes len pos h)
            (λ next up. parse_msgs-Parsed bytes len announced (count + 1) next (omega arith))))
      (λ t. (tt, omega arith))

abbrev Accepts : List ℕ → ℕ → Option Packet → Type 0
Accepts bytes len none = Unit
Accepts bytes len (some p) =
    (2 ≤ len)
    × (p.direction ≡ get_or bytes 0 0)
    × (length p.msgs ≤ min (get_or bytes 1 0) 32)
    × All (Within len) p.msgs

to_packet-Accepts :
    (bytes : List ℕ) (len : ℕ) (o : Option (List TransportMsg))
    → 2 ≤ len
    → Parsed len (min (get_or bytes 1 0) 32) o
    → Accepts bytes len (to_packet (get_or bytes 0 0) o)
to_packet-Accepts bytes len none few p = tt
to_packet-Accepts bytes len (some ms) few p = (few, refl, p.1, p.0)

-- Whatever bytes arrive: if the parser accepts a packet of `len` bytes, the packet has its two header
-- bytes, there are at most as many messages as its second byte announces and at most 32, and each
-- message's payload lies behind the header and ends within the packet.
pub parse_packet-Within :
    (bytes : List ℕ) (len : ℕ) (p : Packet)
    → parse_packet bytes len ≡ some p
    → (2 ≤ len)
      × (p.direction ≡ get_or bytes 0 0)
      × (length p.msgs ≤ min (get_or bytes 1 0) 32)
      × All (Within len) p.msgs
unfolding parse_packet
parse_packet-Within bytes len p e = subst (Accepts bytes len) e (
    by_branch (Accepts bytes len) (ltb len 2) (λ t. tt)
      (λ t.
        to_packet-Accepts bytes len _ (ground arith)
          (parse_msgs-Parsed bytes len (get_or bytes 1 0) 0 2 (omega arith))))
