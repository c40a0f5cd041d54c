-- ===== src/Client/Tests.antt =====
-- A client's messages at concrete inputs.
use open_bc.Base.{ℕ, ◌≡◌, refl, arith, some, true, false, get_elem?, [], ◌∷◌, take, replicate}
use open_bc.Handshake.Response.{checksum_response_parse}
use open_bc.Handshake.Response.Wire.{tree_bytes}
use open_bc.Handshake.Response.RoundTrip.{response}
use open_bc.Base.Text.{c_string}
use open_bc.Cipher.{alby_cipher_encrypt}
use open_bc.Peers.{Addr, Peer, lobby, cleared, peers_find, addr_equal}
use open_bc.Server.{Server}
use open_bc.Server.Start.{start_state}
use open_bc.Dispatch.Game.{Combat}
use open_bc.Dispatch.Packet.{handle_packet}
use open_bc.Manifest.{FileHash}
use open_bc.Client.{ClientSubdir, client_build_checksum_resp_recursive, client_build_keepalive_name}
use open_bc.Client.RoundTrip.{trees, parse-client_build}
use open_bc.Client.Name.{handle_packet-client_build}

abbrev app : FileHash
app = record { name_hash = 0x1234_5678; content_hash = 0xffff_ffff }

abbrev ships : ClientSubdir
ships = record { name_hash = 7; files = app ∷ app ∷ [] }

parse-client_build_example :
    (n : ℕ) × ((client_build_checksum_resp_recursive 0 5 6
        (app ∷ [])
        (ships ∷ [])
        (replicate 64 0)
        64).0
      ≡ some n)
    × (checksum_response_parse (
          take n
            (client_build_checksum_resp_recursive 0 5 6
              (app ∷ [])
              (ships ∷ [])
              (replicate 64 0)
              64).1)
        ≡ some (response 0 5 6 (app ∷ []) (trees (ships ∷ []))))
unfolding tree_bytes
parse-client_build_example =
    parse-client_build 0 5 6 (app ∷ []) (ships ∷ []) (replicate 64 0) 64 (omega arith) (omega arith)
      (omega arith) (omega arith) (omega arith) (omega arith) refl (omega arith) (omega arith)

abbrev no_combat : Combat
no_combat opcode slot payload now_ms s = s

abbrev address : Addr
address = record { ip = 0x0a00_0001; port = 22101 }

-- In the lobby, without a name.
abbrev visitor : Peer
visitor = record cleared { state = lobby; addr = address }

abbrev at_start : Server
at_start = start_state (false, true, [])

abbrev server : Server
server = record at_start {
  peers = record {
    peers = record cleared { state = lobby } ∷ visitor ∷ replicate 7 cleared;
    count = 2;
  };
}

visitor_found : peers_find address server.peers ≡ some 1
unfolding peers_find addr_equal
visitor_found = refl

handle_packet-client_build_example :
    (n : ℕ) × ((client_build_keepalive_name 0 0x7f00_0001 (0x41 ∷ 0x42 ∷ []) (replicate 32 0) 32).0
      ≡ some n)
    × (q : Peer) × (get_elem?
          (handle_packet no_combat address
            (alby_cipher_encrypt (
              take n
                (client_build_keepalive_name 0 0x7f00_0001
                  (0x41 ∷ 0x42 ∷ [])
                  (replicate 32 0)
                  32).1))
            500
            server).peers.peers
          1
        ≡ some q)
    × (c_string q.name ≡ 0x41 ∷ 0x42 ∷ [])
handle_packet-client_build_example =
    handle_packet-client_build no_combat address 1 0 0x7f00_0001 500 (0x41 ∷ 0x42 ∷ [])
      (replicate 32 0) 32 visitor server (omega arith) (omega arith) (omega arith) (omega arith)
      refl (omega arith) visitor_found refl refl (omega arith)
