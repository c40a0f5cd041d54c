-- ===== src/Server/Start.antt =====
-- The server when it starts: the initial values of src/server/server_state.c, with the slot that src/server/main.c
-- takes for the server itself. The settings of the checks are the operator's.
use open_bc.Base.{true, false, [], ◌∷◌, replicate, copy_at}
use open_bc.Base.Text.{codes}
use open_bc.Peers.{Peer, cleared, lobby, max_players}
use open_bc.Server.{Server, ReconnectScore, ConnectAttempt, team_none}
use open_bc.Server.Limit.{rate_slots}
use open_bc.Server.Phases.{Policy}

abbrev pub no_attempt : ConnectAttempt
no_attempt = record { ip = 0; disconnect_ms = 0 }

abbrev pub no_score : ReconnectScore
no_score = record {
  valid = false;
  name = [];
  score = 0;
  kills = 0;
  deaths = 0;
  team_id = 0;
  old_slot = 0;
}

-- The server's own slot
abbrev pub dedi : Peer
dedi = record cleared {
  state = lobby;
  name = copy_at (replicate 32 0) 0 (codes "Dedicated Server");
}

abbrev pub start_state : Policy → Server
start_state (no_checksum, manifest_loaded, dirs) = record {
  peers = record { peers = dedi ∷ replicate 8 cleared; count = 1 };
  output = [];
  connect_history = replicate rate_slots no_attempt;
  connect_history_idx = 0;
  total_connections = 0;
  peak_players = 0;
  boots_full = 0;
  boots_checksum = 0;
  disconnects = 0;
  timeouts = 0;
  reliable_retransmits = 0;
  players = [];
  player_scores = replicate max_players 0;
  player_kills = replicate max_players 0;
  player_deaths = replicate max_players 0;
  player_teams = replicate max_players team_none;
  damage_ledger = replicate max_players (replicate max_players (0, 0));
  reconnect_scores = replicate max_players no_score;
  team_scores = 0 ∷ 0 ∷ [];
  team_kills = 0 ∷ 0 ∷ [];
  team_mode = false;
  accept_new_players = true;
  no_checksum = no_checksum;
  manifest_loaded = manifest_loaded;
  manifest_dirs = dirs;
  game_time = 0;
  collision_dmg = true;
  friendly_fire = false;
  map_name = codes "Multiplayer.Episode.Mission1.Mission1";
  system_index = 1;
  time_limit = 0xffff_ffff;
  frag_limit = 0xffff_ffff;
  round_end_time = 0xbf80_0000;
  opcodes_recv = replicate 256 0;
  opcodes_rejected = replicate 256 0;
}
