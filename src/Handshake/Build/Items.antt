-- ===== src/Handshake/Build/Items.antt =====
-- What a client reads from the server's handshake packets.
use open_bc.Base.{
  ℕ, ◌≤◌, ◌<◌, ◌^◌, ◌≡◌, sym, ap, ◌∙◌, arith, false, none, some, List, [], ◌∷◌, ◌++◌,
}
use open_bc.Base.{length, drop, take, ltb, leb, if_false, u8, u16, low, ◌>>>◌, All}
use open_bc.Buffer.{write_u8, write_u16, write_u32, write_bytes, write_bit}
use open_bc.Buffer.Seq.{Write, ◌⨟◌, build, parse}
use mathlib.Core.List.{append-nil}
use open_bc.Messages.Build.{store_whole}
use open_bc.Messages.Build.Writes.{whole}
use open_bc.Buffer.Script.{InRange, write_items, read_items}
use open_bc.Buffer.Script.Layout.{layout}
use open_bc.Buffer.Script.RoundTrip.{build-write_items, parse-build}
use open_bc.Handshake.Build.{
  checksum_round, rounds, final_round, write_request, is_negative, build_checksum_request,
  build_checksum_request_final, build_settings, build_gameinit, build_mission_init,
  build_ui_collision, build_bootplayer, build_delete_player_ui, build_delete_player_anim,
}
use open_bc.Handshake.Build.Packets.{
  Packet, checksum_request, checksum_request_final, settings, gameinit, mission_init, ui_collision,
  bootplayer, delete_player_ui, delete_player_anim, build_packet, items, IsBuildable,
}
use open_bc.Handshake.Build.Reader.{read_packet, parse-read_packet}
use open_bc.Handshake.Build.Chains.{last_write, request_chain, stored_script, short_texts, timed}

-- Every builder writes the fields of its packet.
build_packet-items :
    (p : Packet) (out : List ℕ) (size : ℕ)
    → IsBuildable p
    → All InRange (items p)
    → length out ≡ size
    → size < 2 ^ 63
    → length (layout 0 (items p)) ≤ size
    → build_packet p out size ≡ build (write_items (items p)) out size
unfolding build_checksum_request build_checksum_request_final build_settings build_gameinit
    build_mission_init build_ui_collision build_bootplayer build_delete_player_ui
    build_delete_player_anim write_items layout
build_packet-items (checksum_request round) out size known ok e small fits =
    if_false {test = leb rounds round} (none, out) (ground (arith, known))
    ∙ (λ i. build (write_request (same_round i) (checksum_round round)) out size)
    ∙ ap (λ (w : Write). build w out size)
        (request_chain round (checksum_round round) (short_texts round).0 (short_texts round).1)
  where
    same_round : u8 round ≡ round
    same_round = omega (arith, known)
build_packet-items checksum_request_final out size known ok e small fits =
    ap (λ (w : Write). build w out size)
      (request_chain 0xff final_round (omega arith) (omega arith))
build_packet-items (settings time collision friendly slot map_name) out size known ok e small fits =
    λ i.
      build
        (write_u8 0x00
          ⨟ write_u32 time
          ⨟ write_bit collision
          ⨟ write_bit friendly
          ⨟ write_u8 slot
          ⨟ write_u16 (same_len i)
          ⨟ write_bytes map_name (same_len i)
          ⨟ last_write (write_bit false) i)
        out size
  where
    same_len : u16 (length map_name) ≡ length map_name
    same_len = omega (arith, known)
build_packet-items gameinit out size known ok e small fits =
    if_false {test = ltb size 1} (none, out) (ground (arith, fits))
    ∙ stored_script (items gameinit) out size ok e small fits
build_packet-items (mission_init system players limit end_time frags) out size known ok e small
      fits =
    timed (is_negative limit) (is_negative frags) system players limit end_time frags out size
build_packet-items (ui_collision on) out size known ok e small fits =
    λ i. build (write_u8 0x16 ⨟ last_write (write_bit on) i) out size
build_packet-items (bootplayer reason) out size known ok e small fits =
    if_false {test = ltb size 2} (none, out) (ground (arith, fits))
    ∙ stored_script (items (bootplayer reason)) out size ok e small fits
build_packet-items (delete_player_ui event src tgt peer) out size known ok e small fits = λ i.
    build
      (write_u8 0x17
        ⨟ write_u32 0x866
        ⨟ write_u32 event
        ⨟ write_u32 src
        ⨟ write_u32 tgt
        ⨟ last_write (write_u8 peer) i)
      out size
build_packet-items (delete_player_anim []) out size known ok e small fits =
    absurd (omega (arith, known.0))
build_packet-items (delete_player_anim (c ∷ name)) out size known ok e small fits = λ i. stored i
  where
    header : List ℕ
    header = 0x18 ∷ low 8 (length (c ∷ name)) ∷ low 8 (length (c ∷ name) >>> 8) ∷ []

    bytes : header ++ (c ∷ name) ≡ layout 0 (items (delete_player_anim (c ∷ name)))
    bytes = ap (λ l. header ++ l) (sym (append-nil (c ∷ name)))

    stored :
        store_whole header (c ∷ name) (length (c ∷ name)) out size
        ≡ build (write_items (items (delete_player_anim (c ∷ name)))) out size
    stored =
        ap (store_whole header (c ∷ name) (length (c ∷ name)) out) (sym e)
        ∙ whole header (c ∷ name) out (omega (arith, e, small))
            (omega (arith, e, fits, ap length bytes))
        ∙ ap (λ (l : List ℕ). (some (length l), l ++ drop (length l) out)) bytes
        ∙ sym (build-write_items (items (delete_player_anim (c ∷ name))) out size ok e small fits)

-- What the server builds for the handshake, a client reads: where the arguments are in range and the array has
-- room, the builder returns the length of the packet, and a client that takes the kind of each next field from the
-- fields before it reads from that many bytes every field, in order, and finds the end. A time limit that is not
-- negative must not have the low byte 255, which stands for none.
pub parse-build_packet :
    (p : Packet) (out : List ℕ) (size : ℕ)
    → IsBuildable p
    → All InRange (items p)
    → length out ≡ size
    → size < 2 ^ 63
    → length (layout 0 (items p)) ≤ size
    → (n : ℕ) × ((build_packet p out size).0 ≡ some n)
      × (n ≤ size)
      × (parse read_packet (take n (build_packet p out size).1) ≡ some (items p))
parse-build_packet p out size known ok e small fits =
    let result = parse-build (items p) out size ok e small fits in
    let same = build_packet-items p out size known ok e small fits in
    (
      result.0,
      ap (λ r. r.0) same ∙ result.1,
      result.2,
      parse-read_packet p (take result.0 (build_packet p out size).1) known
          (ap (λ r. parse (read_items (items p)) (take result.0 r.1)) same ∙ result.3),
    )
