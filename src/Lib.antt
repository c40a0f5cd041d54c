-- ===== src/Lib.antt =====
-- OpenBC is a multiplayer server for the game Bridge Commander. It speaks the stock game's protocol
-- over UDP. This library models the parts of the server that decide what goes over the wire and
-- what is kept about it.
--
-- A datagram that arrives is deciphered (src/shared/protocol/cipher.c) and taken apart into
-- transport messages by bc_transport_parse (src/server/network/transport.c). The sender is looked
-- up in the peer table (src/server/network/peer.c). An ACK takes a message off that peer's reliable
-- queue (src/server/network/reliable.c); a fragment goes to the peer's reassembly buffer
-- (transport.c again); the payload of any other message starts with an opcode and is read by a
-- parser of src/shared/protocol/game_events.c over the stream buffer
-- (src/shared/protocol/buffer.c). What the server answers is built by
-- src/shared/protocol/game_builders.c over the same buffer, is kept in the reliable queue where it
-- has to arrive, and is gathered in the peer's outbox, which is flushed as one enciphered datagram.
-- Modules of the server hear of events through the event bus (src/server/event_bus.c).
--
-- - Base and its children: the shared names and the lemmas about them. Words has the casts and
-- shifts of include/openbc/types.h, Bits the laws of bitwise operations, Lists and Copies arrays
-- and memcpy, Scan the loops over a table of slots, Tests the Boolean tests and the conditional.
-- - Cipher: src/shared/protocol/cipher.c. cipher_reset, cipher_prng_step, cipher_key_schedule,
-- encrypt_payload, decrypt_payload and the two alby_cipher functions, under their names. The state
-- is CipherState.
-- - Buffer: bc_buf_init to bc_buf_remaining and the primitive writes and reads of
-- src/shared/protocol/buffer.c, without the prefix (Buffer.write_u8 is bc_buf_write_u8). Buffer.Seq
-- has the way callers chain them, Buffer.Script sequences of any writes and reads, booleans among
-- them.
-- - Transport: bc_transport_parse (parse_packet, with a function for each kind of message) and the
-- builders bc_transport_build_*. Transport.Wire has the messages of the server as bytes and as
-- received.
-- - Outbox: bc_outbox_*, under the names without bc_ (outbox_init, add_reliable, flush_to_buf and
-- so on).
-- - Fragment: bc_fragment_reset and bc_fragment_receive.
-- - Reliable: bc_reliable_* (reliable_init, reliable_add, reliable_ack, check_retransmit,
-- check_timeout).
-- - Peers: bc_peers_* and bc_addr_equal of src/server/network/net.c.
-- - Messages: Messages.Ids has the object identifiers and include/openbc/player_ids.h,
-- Messages.Build seventeen builders of game_builders.c, Messages.Parse seven parsers of
-- game_events.c.
-- - Manifest: the look-ups of src/shared/checksum/manifest.c in the list of files that clients must
-- have.
-- - Handshake: src/shared/protocol/handshake.c. Handshake.Build has the builders bc_*_build,
-- Handshake.Response the parser of checksum responses with its recursive parse_file_tree,
-- Handshake.Validate bc_checksum_response_validate.
-- - Sending: src/server/server_send.c, bc_queue_reliable, bc_queue_unreliable, bc_flush_peer,
-- bc_send_unreliable_direct, bc_relay_to_others and bc_send_to_all, without the prefix.
-- - Server: the state that src/server/server_handshake.c works on, as one record, and its handlers:
-- Server.Connect has bc_handle_connect, Server.Answer bc_handle_checksum_response, Server.Leave
-- bc_handle_peer_disconnect, Server.Enter what a peer is sent at the lobby, Server.Limit the limit
-- on rapid reconnects, Server.Scores the scores kept over a reconnect. Server.Start is the state at
-- the start, Server.Run puts the handlers together in any order.
-- - Dispatch: src/server/server_dispatch.c. Dispatch.Packet has bc_handle_packet, Dispatch.Game
-- handle_game_message with find_peer_by_object; the cases of its switch that change ships and
-- torpedoes are an argument, combat. Dispatch.Session is the server at work on datagrams.
-- - MainLoop: the loop of src/server/main.c as a function, turn, of the datagrams that arrived and
-- the clock: both sockets, and the tick with what it does every second, retransmissions and
-- timeouts (check_peers), keepalives and flushes. MainLoop.Earned is the loop at work from its
-- start on.
-- - Client: the builders and the parser of src/shared/protocol/client_transport.c, under their
-- names without bc_.
-- - EventBus: the registry of src/server/event_bus.c, obc_event_subscribe, obc_event_unsubscribe,
-- obc_event_bus_init and the flushes of deferred changes, and in EventBus.Fire obc_event_fire, with
-- what the handlers do as an argument; what this calls is in EventBus.Calls, what the bus lets the
-- handlers do in EventBus.Deferral.
-- - Checksum: file_hash of src/shared/checksum/file_hash.c, by which the server compares the files
-- of a client.
-- - NameHash: string_hash of src/shared/checksum/string_hash.c, with the tables of hash_tables.c.
--
-- Conventions. Integers are natural numbers and a cast writes out its remainder; a signed integer
-- is its bit pattern; where C subtracts from an unsigned number, the wrap is written out. An array
-- is a list, and a write past its end changes nothing in the model, so the theorems on bounds are
-- about the positions that the code computes. A function that returns bool or -1 beside a change of
-- state answers a pair or an Option. A plain float is the 32 bits that are stored. Clock values are
-- arguments; a handler that reads the clock several times gets one value. What is sent is an
-- output, in order, and the log is left out.
--
-- Bounds and fuel. Only parse_file_tree counts down: it takes the levels that BC_MAX_TREE_DEPTH
-- still allows, as the source counts its depth up. The loop over bc_reliable_check_retransmit
-- (MainLoop.resend) takes fuel, and MainLoop.resend_to gives it one round more than the queue has
-- entries, which is more than it has overdue ones (MainLoop.Resend). No other function takes fuel:
-- every loop recurses on the list it goes through, or on the number of turns that the C loop counts
-- (the message count of a packet, the free entries of the event table, the 64 places for an event's
-- handlers). Table sizes, the size of a packet and the sizes of payloads are the constants of the
-- headers in include/openbc.
--
-- Not modelled: the compressed floats of buffer.c and the messages that hold them, which need an
-- abstract arithmetic of floats; sockets, files, signals and the log; the configuration, which the
-- vendored src/toml/toml.c reads; the fields of a peer that only the game logic uses; the scan of
-- directories by a client, the JSON parser, the answers to GameSpy queries, the movement and combat
-- of ships, with the cases of the dispatch and the parts of the main loop that use it.
pub mod Base
pub mod Buffer
pub mod Checksum
pub mod Cipher
pub mod Client
pub mod Dispatch
pub mod EventBus
pub mod Fragment
pub mod Handshake
pub mod MainLoop
pub mod Manifest
pub mod Messages
pub mod NameHash
pub mod Outbox
pub mod Peers
pub mod Reliable
pub mod Sending
pub mod Server
pub mod Transport
