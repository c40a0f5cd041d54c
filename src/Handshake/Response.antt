-- ===== src/Handshake/Response.antt =====
-- The parser of a client's checksum response in handshake.c. What it stores is its answer; on failure the
-- callers do not look at the structure, which is left out.
pub mod Wire
pub mod RoundTrip
pub mod Depth
use open_bc.Base.{
  ℕ, zero, suc, ◌+◌, Bool, true, false, not, ◌&&◌, Option, none, some, List, [], ◌∷◌, length, ltb,
  ◌==◌, if◌then◌else◌,
}
use open_bc.Buffer.{read_u8, read_u16, read_u32}
use open_bc.Buffer.Seq.{Read, ◌>>=◌, ◌>>◌, pure, fail, guard, parse}
use open_bc.Manifest.{FileHash}
use open_bc.Handshake.Build.{op_checksum_resp}

-- `BC_MAX_TREE_DEPTH`
abbrev pub max_tree_depth : ℕ
max_tree_depth = 16

-- `BC_CHECKSUM_MAX_RESP_FILES`
abbrev pub max_resp_files : ℕ
max_resp_files = 256

-- `BC_CHECKSUM_MAX_RESP_SUBDIRS`
abbrev pub max_resp_subdirs : ℕ
max_resp_subdirs = 8

-- `BC_CHECKSUM_MAX_SUB_FILES`
abbrev pub max_sub_files : ℕ
max_sub_files = 128

-- One of the `subdirs` of a response
pub record SubdirResp : Type 0 where
  pub name_hash : ℕ
  pub files : List FileHash

-- What `parse_file_tree` stores.
pub record FileTree : Type 0 where
  pub files : List FileHash
  pub subdirs : List SubdirResp

-- `files && fc > max_files`, where `limit` is `none` for a NULL `files`
abbrev pub exceeds : Option ℕ → ℕ → Bool
exceeds none count = false
exceeds (some max_files) count = ltb max_files count

abbrev pub read_file_hashes : ℕ → Read (List FileHash)
read_file_hashes zero = pure []
read_file_hashes (suc n) = read_u32 >>= λ nh. read_u32 >>= λ ch.
    read_file_hashes n >>= λ rest. pure (record { name_hash = nh; content_hash = ch } ∷ rest)

abbrev pub read_name_hashes : ℕ → Read (List ℕ)
read_name_hashes zero = pure []
read_name_hashes (suc n) = read_u32 >>= λ nh. read_name_hashes n >>= λ rest. pure (nh ∷ rest)

-- The trees of the names from the `i`-th on, each by `subtree` with its limit. `stored` says that `resp` is not
-- NULL; a tree that is not stored is read past.
abbrev pub read_subtrees : (Option ℕ → Read FileTree) → Bool → ℕ → List ℕ → Read (List SubdirResp)
read_subtrees subtree stored i [] = pure []
read_subtrees subtree stored i (nh ∷ names) =
    let rest = read_subtrees subtree stored (suc i) names in
    if stored && ltb i max_resp_subdirs
    then (subtree (some max_sub_files) >>= λ t.
        rest >>= λ others. pure (record { name_hash = nh; files = t.files } ∷ others))
    else (subtree none >>= λ t. rest)

-- `parse_file_tree`, with the levels that the depth limit still allows.
unfoldable pub parse_file_tree : ℕ → Bool → Option ℕ → Read FileTree
parse_file_tree zero stored limit = fail
parse_file_tree (suc levels) stored limit = read_u16 >>= λ fc.
    guard (not (exceeds limit fc))
    >> (read_file_hashes fc >>= λ files. read_u8 >>= λ sc. read_name_hashes sc >>= λ names.
        read_subtrees (parse_file_tree levels false) stored 0 names >>= λ subdirs.
        pure (record { files = files; subdirs = subdirs }))

-- `bc_checksum_resp_t`
pub record ChecksumResp : Type 0 where
  pub round_index : ℕ
  pub ref_hash : ℕ
  pub dir_hash : ℕ
  pub empty : Bool
  pub files : List FileHash
  pub subdirs : List SubdirResp

-- `ref_hash` is read in round 0 only.
abbrev pub read_ref_hash : ℕ → Read ℕ
read_ref_hash index = if index == 0 then read_u32 else pure 0

abbrev pub read_response : Read ChecksumResp
read_response = read_u8 >>= λ opcode.
    guard (opcode == op_checksum_resp)
    >> (read_u8 >>= λ index. read_ref_hash index >>= λ rh. read_u32 >>= λ dh.
        parse_file_tree (suc max_tree_depth) true (some max_resp_files) >>= λ tree. pure (record {
          round_index = index;
          ref_hash = rh;
          dir_hash = dh;
          empty = false;
          files = tree.files;
          subdirs = tree.subdirs;
        }))

unfoldable pub checksum_response_parse : List ℕ → Option ChecksumResp
checksum_response_parse payload =
    if ltb (length payload) 2 then none else parse read_response payload
