-- ===== src/Client.antt =====
-- The client's side of the protocol, src/shared/protocol/client_transport.c, from which test clients are built. The
-- builders answer as those of Transport do; what scans directories is left out. An array of `char` is the bytes
-- before its NUL.
pub mod RoundTrip
pub mod Name
mod Tests
use open_bc.Base.{
  ℕ, zero, suc, ◌+◌, ◌*◌, Bool, true, false, not, ◌||◌, Option, none, some, List, [], ◌∷◌, ◌++◌,
}
use open_bc.Base.{ltb, leb, ◌==◌, if◌then◌else◌, length, take, copy_at, u8, u16, low, ◌>>>◌}
use open_bc.Buffer.{write_u8, write_u16, write_u32, read_u8, read_u16, read_bytes, read_bit}
use open_bc.Buffer.Seq.{Write, ◌⨟◌, no_write, build, Read, ◌>>=◌, ◌>>◌, pure, guard, parse}
use open_bc.Handshake.Build.{op_checksum_req, op_checksum_resp}
use open_bc.Manifest.{FileHash}
use open_bc.Messages.Build.{Builder}
use open_bc.Server.Connect.{type_connect}
use open_bc.Dispatch.Packet.{dir_init}
use open_bc.Transport.{dir_client, type_keepalive, type_ack, type_reliable, filled}

unfoldable pub client_build_connect : ℕ → Builder
client_build_connect local_ip out out_size = if ltb out_size 10 then (none, out) else (
  some 10,
  copy_at out 0 (
      dir_init
      ∷ 1
      ∷ type_connect
      ∷ 8
      ∷ 0x01
      ∷ 0x00
      ∷ 0x00
      ∷ 0x00
      ∷ low 8 local_ip
      ∷ low 8 (local_ip >>> 8)
      ∷ []),
)

-- A name in UTF-16, without the NUL
abbrev pub wide : List ℕ → List ℕ
wide [] = []
wide (c ∷ name) = c ∷ 0x00 ∷ wide name

abbrev pub keepalive_bytes : ℕ → ℕ → ℕ → List ℕ → List ℕ
keepalive_bytes msg_len slot local_ip name =
    u8 (dir_client + slot)
    ∷ 1
    ∷ type_keepalive
    ∷ u8 msg_len
    ∷ 0x80
    ∷ 0x00
    ∷ 0x00
    ∷ slot
    ∷ low 8 local_ip
    ∷ low 8 (local_ip >>> 8)
    ∷ low 8 (local_ip >>> 16)
    ∷ low 8 (local_ip >>> 24)
    ∷ (wide name ++ (0x00 ∷ 0x00 ∷ []))

unfoldable pub client_build_keepalive_name : ℕ → ℕ → List ℕ → Builder
client_build_keepalive_name slot local_ip name out out_size =
    let name_bytes = length name * 2 + 2 in
    let payload_len = 1 + 2 + 1 + 4 + name_bytes in
    let msg_len = 2 + payload_len in
    let pkt_len = 2 + msg_len in
    if ltb out_size pkt_len || ltb 255 msg_len
    then (none, out)
    else (some pkt_len, copy_at out 0 (keepalive_bytes msg_len slot local_ip name))

unfoldable pub client_build_reliable : ℕ → List ℕ → ℕ → ℕ → Builder
client_build_reliable slot payload payload_len seq out out_size =
    let total_msg_len = 5 + payload_len in
    let pkt_len = 2 + total_msg_len in
    if ltb out_size pkt_len || ltb 255 total_msg_len then (none, out) else (
      some pkt_len,
      filled out
          (u8 (dir_client + slot)
            ∷ 1
            ∷ type_reliable
            ∷ u8 total_msg_len
            ∷ 0x80
            ∷ low 8 seq
            ∷ 0
            ∷ [])
          (take payload_len payload),
    )

unfoldable pub client_build_unreliable : ℕ → List ℕ → ℕ → Builder
client_build_unreliable slot payload payload_len out out_size =
    let total_msg_len = 3 + payload_len in
    let pkt_len = 2 + total_msg_len in
    if ltb out_size pkt_len || ltb 255 total_msg_len then (none, out) else (
      some pkt_len,
      filled out (u8 (dir_client + slot) ∷ 1 ∷ type_reliable ∷ u8 total_msg_len ∷ 0x00 ∷ [])
          (take payload_len payload),
    )

unfoldable pub client_build_ack : ℕ → ℕ → ℕ → Builder
client_build_ack slot seq flags out out_size = if ltb out_size 6 then (none, out) else (
  some 6,
  copy_at out 0 (u8 (dir_client + slot) ∷ 1 ∷ type_ack ∷ u8 (seq >>> 8) ∷ 0x00 ∷ flags ∷ []),
)

-- `bc_checksum_request_t`
pub record ChecksumRequest : Type 0 where
  pub round : ℕ
  pub directory : List ℕ
  pub file_filter : List ℕ
  pub recursive : Bool

-- A text behind its length, in an array of `size` bytes that keeps room for the NUL
abbrev pub read_counted : ℕ → Read (List ℕ)
read_counted size = read_u16 >>= λ len. guard (not (leb size len)) >> read_bytes len

abbrev pub read_checksum_request : Read ChecksumRequest
read_checksum_request = read_u8 >>= λ opcode.
    guard (opcode == op_checksum_req)
    >> (read_u8 >>= λ round. read_counted 64 >>= λ directory. read_counted 32 >>= λ file_filter.
        read_bit >>= λ recursive. pure (record {
          round = round;
          directory = directory;
          file_filter = file_filter;
          recursive = recursive;
        }))

unfoldable pub client_parse_checksum_request : List ℕ → Option ChecksumRequest
client_parse_checksum_request payload =
    if ltb (length payload) 2 then none else parse read_checksum_request payload

-- `bc_client_subdir_hash_t`
pub record ClientSubdir : Type 0 where
  pub name_hash : ℕ
  pub files : List FileHash

abbrev pub write_ref_hash : ℕ → ℕ → Write
write_ref_hash round ref_hash = if round == 0 then write_u32 ref_hash else no_write

abbrev pub write_entries : List FileHash → Write
write_entries [] = no_write
write_entries (f ∷ files) = write_u32 f.name_hash ⨟ write_u32 f.content_hash ⨟ write_entries files

-- The files of a directory behind their number
abbrev pub write_files : List FileHash → Write
write_files files = write_u16 (u16 (length files)) ⨟ write_entries files

abbrev pub write_names : List ClientSubdir → Write
write_names [] = no_write
write_names (d ∷ ds) = write_u32 d.name_hash ⨟ write_names ds

-- The subdirectories' trees, which have none of their own.
abbrev pub write_trees : List ClientSubdir → Write
write_trees [] = no_write
write_trees (d ∷ ds) = (write_files d.files ⨟ write_u8 0) ⨟ write_trees ds

unfoldable pub client_build_checksum_resp : ℕ → ℕ → ℕ → List FileHash → Builder
client_build_checksum_resp round ref_hash dir_hash files = build (
    write_u8 op_checksum_resp
    ⨟ write_u8 round
    ⨟ write_ref_hash round ref_hash
    ⨟ write_u32 dir_hash
    ⨟ write_files files
    ⨟ write_u8 0)

unfoldable pub client_build_checksum_resp_recursive :
    ℕ → ℕ → ℕ → List FileHash → List ClientSubdir → Builder
client_build_checksum_resp_recursive round ref_hash dir_hash files subdirs = build (
    write_u8 op_checksum_resp
    ⨟ write_u8 round
    ⨟ write_ref_hash round ref_hash
    ⨟ write_u32 dir_hash
    ⨟ write_files files
    ⨟ write_u8 (u8 (length subdirs))
    ⨟ write_names subdirs
    ⨟ write_trees subdirs)

unfoldable pub client_build_checksum_final : ℕ → Builder
client_build_checksum_final dir_hash =
    build
      (write_u8 op_checksum_resp ⨟ write_u8 0xff ⨟ write_u32 dir_hash ⨟ write_u16 0 ⨟ write_u8 0)
