-- ===== src/MainLoop/Tests.antt =====
-- The main loop at concrete servers.
use open_bc.Base.{ℕ, ◌≡◌, refl, arith, true, false, some, List, [], ◌∷◌, replicate}
use mathlib.Core.List.{Perm}
use open_bc.Cipher.{alby_cipher_encrypt}
use open_bc.Peers.{Addr, Peer, cleared, lobby}
use open_bc.Reliable.{Entry, zero_entry, reliable_init, check_timeout}
use open_bc.Reliable.Inv.{reliable_init-IsValid}
use open_bc.Reliable.Contents.{waiting}
use open_bc.Sending.{queue_reliable, flush_peer, tracked}
use open_bc.Server.{Server}
use open_bc.Server.Phases.{Policy}
use open_bc.Server.Run.{IsEarned}
use open_bc.Server.Start.{start_state}
use open_bc.MainLoop.{Rest, Arrival, Loop, Resending, resend_entry, check_peers, turn}
use open_bc.MainLoop.Rounds.{look_at}
use open_bc.MainLoop.Standing.{heard_of, nobody}
use open_bc.MainLoop.Silence.{check_peers_lem}
use open_bc.MainLoop.Unsent.{queue_reliable_long}
use open_bc.MainLoop.Earned.{IsQuiet, log_arrivals, start, next, Serving-IsEarned}

abbrev visitor : Addr
visitor = record { ip = 0x0a00_0001; port = 22101 }

-- One message is overdue at 5000 ms, one is not.
abbrev overdue_one : Resending
overdue_one = record {
  queue = record {
    entries =
        record zero_entry { active = true; seq = 1; send_time = 3000; payload_len = 4 }
        ∷ record zero_entry { active = true; seq = 2; send_time = 3001; payload_len = 4 }
        ∷ replicate 14 zero_entry;
    count = 2;
  };
  datagrams = [];
  retransmits = 0xffff_ffff;
}

-- A player who was last heard at 1000 ms
abbrev quiet_player : Peer
quiet_player = record cleared { state = lobby; addr = visitor; last_recv_time = 1000 }

abbrev waiting_server : Server
waiting_server = record (start_state (false, true, [])) {
  peers = record {
    peers = record cleared { state = lobby } ∷ quiet_player ∷ replicate 7 cleared;
    count = 2;
  };
}

check_peers_lem_example : look_at heard_of 1 (check_peers 31001 waiting_server) ≡ some nobody
unfolding check_timeout reliable_init
check_peers_lem_example =
    check_peers_lem 31001 1 waiting_server quiet_player (omega arith) (omega arith) refl

-- A turn in which a visitor asks to connect, with no ships and no queries.
abbrev no_rest : Rest
no_rest = record {
  advance_clock = λ elapsed s. s;
  master_tick = λ now_ms s. s;
  simulate = λ elapsed counter s. s;
  answer_query = λ a bytes s. s;
  combat = λ opcode slot payload now_ms s. s;
}

no_rest-IsQuiet : IsQuiet no_rest
no_rest-IsQuiet = record {
  advance_clock-Stays = λ elapsed s. refl;
  master_tick-Stays = λ now_ms s. refl;
  simulate-Stays = λ elapsed counter s. refl;
  answer_query-Stays = λ a bytes s. refl;
  combat-Stays = λ opcode slot payload now_ms s. refl;
}

abbrev settings : Policy
settings = (false, true, [])

abbrev first_loop : Loop
first_loop = record { server = start_state settings; last_tick = 0; tick_counter = 29 }

abbrev hello : List Arrival
hello =
    record {
      sender = visitor;
      bytes = alby_cipher_encrypt (0xff ∷ 1 ∷ 0x03 ∷ 0x06 ∷ 0xc0 ∷ 0x00 ∷ 0x00 ∷ 0x02 ∷ []);
      time = 20;
    }
    ∷ []

Serving-IsEarned_example :
    IsEarned settings
      (turn no_rest hello [] 40 first_loop).server
      (log_arrivals no_rest hello first_loop.server (λ _. []))
Serving-IsEarned_example =
    Serving-IsEarned settings no_rest no_rest-IsQuiet (next (start first_loop refl) hello [] 40)

abbrev long_message : List ℕ
long_message = replicate 251 0

queue_reliable_long_example :
    (queue_reliable long_message 251 100 quiet_player
      ≡ flush_peer (tracked long_message 251 100 quiet_player))
    × Perm
        (waiting (tracked long_message 251 100 quiet_player).reliable_out.entries)
        ((0, long_message) ∷ waiting quiet_player.reliable_out.entries)
    × ((a : Addr) (e : Entry) → e.payload_len ≡ 251 → resend_entry a (some e) ≡ [])
unfolding reliable_init
queue_reliable_long_example =
    queue_reliable_long long_message 100 quiet_player (omega arith) (omega arith)
      reliable_init-IsValid (omega arith)
