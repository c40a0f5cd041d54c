-- ===== src/Peers/Tests.antt =====
-- A peer table at work.
use open_bc.Base.{ℕ, ◌≡◌, ◌<◌, ◌-◌, refl, arith, none, some, map}
use open_bc.Base.Scan.{tally}
use open_bc.Peers.{
  Addr, PeerMgr, max_players, peers_init, peers_find, peers_add, peers_remove, peers_timeout,
  timed_out,
}
use open_bc.Peers.Inv.{IsValid}
use open_bc.Peers.Timeout.{swept, peers_timeout_lem}
use open_bc.Peers.Lookup.{peers_add-find}
use open_bc.Peers.Reach.{ReachableTable, start, add, remove, ReachableTable-IsValid}

abbrev client : Addr
client = record { ip = 0x0100_007f; port = 0x6556 }

abbrev lobby_of_one : PeerMgr
lobby_of_one = (peers_add client peers_init).1

abbrev joined : ReachableTable lobby_of_one
joined = add client start

ReachableTable-IsValid_example : IsValid (peers_remove 0 lobby_of_one)
ReachableTable-IsValid_example =
    ReachableTable-IsValid (peers_remove 0 lobby_of_one) (remove 0 joined)

peers_timeout_lem_example : peers_timeout 60000 30000 lobby_of_one ≡ (
  tally (timed_out 60000 30000) lobby_of_one.peers,
  record {
    peers = map (swept 60000 30000) lobby_of_one.peers;
    count = lobby_of_one.count - tally (timed_out 60000 30000) lobby_of_one.peers;
  },
)
peers_timeout_lem_example =
    peers_timeout_lem 60000 30000 lobby_of_one (ReachableTable-IsValid lobby_of_one joined)

nobody_known : peers_find client peers_init ≡ none
unfolding peers_find peers_init
nobody_known = refl

peers_add-find_example :
    (i : ℕ) × ((peers_add client peers_init).0 ≡ some i)
    × (i < max_players)
    × (peers_find client (peers_add client peers_init).1 ≡ some i)
peers_add-find_example =
    peers_add-find client peers_init (ReachableTable-IsValid peers_init start) nobody_known
      (unfold peers_init in omega arith)
