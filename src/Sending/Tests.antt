-- ===== src/Sending/Tests.antt =====
-- Messages queued for concrete peers.
use open_bc.Base.{ℕ, ◌≡◌, refl, arith, true, List, [], ◌∷◌, replicate, get_elem?}
use open_bc.Outbox.{Outbox, outbox_init}
use open_bc.Outbox.Queue.{Holds}
use open_bc.Outbox.Flush.{outbox_init-Holds}
use open_bc.Transport.Wire.{reliable}
use open_bc.Peers.{Peer, PeerMgr, zero_peer, lobby, checksumming, cleared}
use open_bc.Sending.{queue_reliable, relay_to_others}
use open_bc.Sending.Delivery.{Passed, queue_reliable-Passed}
use open_bc.Sending.Relay.{having_heard, sent_to, relay_to_others_lem}

abbrev fresh : Outbox
fresh = record { buf = replicate 512 0; pos = 2; msg_count = 0 }

fresh-Holds : Holds (outbox_init fresh) []
fresh-Holds = outbox_init-Holds fresh refl

abbrev visitor : Peer
visitor = record zero_peer {
  state = lobby;
  addr = record { ip = 7; port = 22101 };
  outbox = outbox_init fresh;
}

abbrev note : List ℕ
note = 0x2c ∷ 0x01 ∷ []

queue_reliable-Passed_example :
    Passed visitor [] (reliable note 0) (queue_reliable note 2 500 visitor)
queue_reliable-Passed_example =
    queue_reliable-Passed note 500 visitor [] fresh-Holds (omega arith) tt tt

-- The server, the sender, one more player, one who is still being checked.
abbrev table : PeerMgr
table = record {
  peers =
      record cleared { state = lobby }
      ∷ visitor
      ∷ visitor
      ∷ record visitor { state = checksumming }
      ∷ replicate 5 cleared;
  count = 4;
}

relay_to_others_lem_example :
    ((j : ℕ)
      → get_elem? (relay_to_others 1 note 2 true 500 table).0.peers j
        ≡ having_heard 1 true note 2 500 j (get_elem? table.peers j))
    × ((relay_to_others 1 note 2 true 500 table).0.count ≡ 4)
    × ((relay_to_others 1 note 2 true 500 table).1 ≡ sent_to 1 true note 2 500 0 table.peers)
relay_to_others_lem_example = relay_to_others_lem 1 note 2 true 500 table
