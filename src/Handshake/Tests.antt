-- ===== src/Handshake/Tests.antt =====
-- Handshake packets, a client's responses and their check.
use open_bc.Base.{
  ℕ, zero, suc, ◌≤◌, ◌<◌, ◌≡◌, refl, arith, true, false, none, some, [], ◌∷◌, ◌++◌, length, take,
  replicate, All, ◌^◌,
}
use open_bc.Buffer.Seq.{parse}
use open_bc.Buffer.Script.{InRange}
use open_bc.Buffer.Script.Layout.{layout}
use open_bc.Manifest.{FileHash, ManifestDir, find_by}
use open_bc.Handshake.Build.Packets.{Packet, settings, build_packet, items}
use open_bc.Handshake.Build.Reader.{read_packet}
use open_bc.Handshake.Build.Items.{parse-build_packet}
use open_bc.Handshake.Response.{ChecksumResp, checksum_response_parse}
use open_bc.Handshake.Response.Wire.{Tree, Subtrees, node, leaf, sub, tree_bytes, depth, Encodes}
use open_bc.Handshake.Response.RoundTrip.{response_bytes}
use open_bc.Handshake.Response.Depth.{response_bytes_refused}
use open_bc.Handshake.Validate.{
  ok, file_mismatch, checksum_response_validate, check_contents, check_present, check_subdirs,
  is_listed,
}
use open_bc.Handshake.Validate.Accepts.{Accepts}

-- The trace that the source quotes for the final request ends in a group with one boolean.
final_flag :
    layout 0 (items Packet.checksum_request_final)
    ≡ 0x20 ∷ 0xff ∷ 0x13 ∷ 0x00 ∷ b'S' ∷ b'c' ∷ b'r' ∷ b'i' ∷ b'p' ∷ b't' ∷ b's' ∷ b'/' ∷ b'M'
      ∷ b'u' ∷ b'l' ∷ b't' ∷ b'i' ∷ b'p' ∷ b'l' ∷ b'a' ∷ b'y' ∷ b'e' ∷ b'r' ∷ 0x05 ∷ 0x00 ∷ b'*'
      ∷ b'.' ∷ b'p' ∷ b'y' ∷ b'c' ∷ 0x21 ∷ []
unfolding layout
final_flag = refl

abbrev welcome : Packet
welcome = settings 0x4120_0000 true false 2 (b'M' ∷ b'1' ∷ [])

welcome-InRange : All InRange (items welcome)
welcome-InRange = omega arith

welcome_fits : length (layout 0 (items welcome)) ≤ 16
unfolding layout
welcome_fits = omega arith

parse-build_packet_example :
    (n : ℕ) × ((build_packet welcome (replicate 16 0) 16).0 ≡ some n)
    × (n ≤ 16)
    × (parse read_packet (take n (build_packet welcome (replicate 16 0) 16).1)
        ≡ some (items welcome))
parse-build_packet_example =
    parse-build_packet welcome (replicate 16 0) 16 (omega arith) welcome-InRange refl (omega arith)
      welcome_fits

abbrev file : ℕ → ℕ → FileHash
file name content = record { name_hash = name; content_hash = content }

abbrev hardpoints : Subtrees
hardpoints = sub 0x77 (node (file 0x10 0x11 ∷ []) leaf) leaf

-- A directory in a directory, eighteen levels in all.
nest : ℕ → Tree
nest zero = node [] leaf
nest (suc n) = node [] (sub 1 (nest n) leaf)

nest-Encodes : (n : ℕ) → Encodes (nest n)
unfolding nest Encodes
nest-Encodes zero = omega arith
nest-Encodes (suc n) = (omega arith, tt, omega arith, (omega arith, nest-Encodes n, tt))

below_top : Subtrees
below_top = sub 1 (nest 16) leaf

top-Encodes : Encodes (node [] below_top)
unfolding below_top Encodes
top-Encodes = (omega arith, tt, omega arith, (omega arith, nest-Encodes 16, tt))

top_deep : 17 < depth (node [] below_top)
unfolding below_top nest depth
top_deep = omega arith

top_short : length (response_bytes 2 0 0xdead (node [] below_top) ++ []) < 2 ^ 63
unfolding below_top nest tree_bytes
top_short = omega arith

response_bytes_refused_example :
    checksum_response_parse (response_bytes 2 0 0xdead (node [] below_top) ++ []) ≡ none
response_bytes_refused_example =
    response_bytes_refused 2 0 0xdead [] below_top [] (omega arith) (omega arith) top-Encodes
      top_deep top_short

abbrev ships : ManifestDir
ships = record {
  dir_name_hash = 0xdead;
  recursive = true;
  files = file 1 2 ∷ file 3 4 ∷ [];
  subdirs = record { name_hash = 0x77; files = file 0x10 0x11 ∷ [] } ∷ [];
}

-- With a file that the manifest does not name.
abbrev modded : ChecksumResp
modded = record {
  round_index = 2;
  ref_hash = 0;
  dir_hash = 0xdead;
  empty = false;
  files = file 3 4 ∷ file 9 9 ∷ file 1 2 ∷ [];
  subdirs = record { name_hash = 0x77; files = file 0x10 0x11 ∷ [] } ∷ [];
}

modded_passes : checksum_response_validate modded ships ≡ ok
unfolding checksum_response_validate check_contents check_present check_subdirs is_listed find_by
modded_passes = refl

changed_fails :
    checksum_response_validate (record modded { files = file 3 5 ∷ file 1 2 ∷ [] }) ships
    ≡ file_mismatch
unfolding checksum_response_validate check_contents check_present check_subdirs is_listed find_by
changed_fails = refl
