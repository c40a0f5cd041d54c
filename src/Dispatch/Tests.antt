-- ===== src/Dispatch/Tests.antt =====
-- Datagrams at a server that has just started.
use open_bc.Base.{ℕ, ◌≡◌, refl, arith, replicate, some, true, false, List, [], ◌∷◌}
use open_bc.Cipher.{alby_cipher_encrypt}
use open_bc.Peers.{Addr, PeerMgr, addr_equal, peers_find, cleared, checksumming, lobby}
use open_bc.Server.{Server}
use open_bc.Server.Start.{start_state}
use open_bc.Server.Phases.{Policy}
use open_bc.Server.Run.{IsEarned}
use open_bc.Dispatch.Game.{Combat}
use open_bc.Dispatch.Packet.{handle_packet}
use open_bc.Dispatch.Session.{start, packet, log_datagram}
use open_bc.Dispatch.Session.Safe.{Session-IsEarned}
use open_bc.Dispatch.Session.Others.{phase_at, handle_packet_elsewhere}

abbrev settings : Policy
settings = (false, true, [])

abbrev visitor : Addr
visitor = record { ip = 0x0a00_0001; port = 22101 }

abbrev no_combat : Combat
no_combat opcode slot payload now_ms s = s

-- A request to connect
abbrev hello : List ℕ
hello = alby_cipher_encrypt (0xff ∷ 1 ∷ 0x03 ∷ 0x06 ∷ 0xc0 ∷ 0x00 ∷ 0x00 ∷ 0x02 ∷ [])

Session-IsEarned_here :
    IsEarned settings
      (handle_packet no_combat visitor hello 100 (start_state settings))
      (log_datagram no_combat visitor hello 100 (start_state settings) (λ _. []))
Session-IsEarned_here =
    Session-IsEarned settings no_combat (λ opcode slot payload now_ms s. refl)
      (packet (start (start_state settings) refl) visitor hello 100)

-- The visitor in slot 1 sends a response that is refused; the player in slot 2 stays.
abbrev table : PeerMgr
table = record {
  peers =
      record cleared { state = lobby }
      ∷ record cleared { state = checksumming; addr = visitor }
      ∷ record cleared { state = lobby }
      ∷ replicate 6 cleared;
  count = 3;
}

abbrev busy : Server
busy = record (start_state settings) { peers = table }

known : peers_find visitor table ≡ some 1
unfolding peers_find addr_equal
known = refl

abbrev bad_response : List ℕ
bad_response = alby_cipher_encrypt (0x02 ∷ 1 ∷ 0x32 ∷ 0x05 ∷ 0x00 ∷ 0x21 ∷ 0x00 ∷ [])

handle_packet_elsewhere_example :
    phase_at 2 (handle_packet no_combat visitor bad_response 100 busy) ≡ some (lobby, 0)
handle_packet_elsewhere_example =
    handle_packet_elsewhere no_combat (λ opcode slot payload now_ms s. refl) 1 2
      (λ e. omega (arith, e)) visitor bad_response 100 busy known
