-- ===== src/Handshake/Validate.antt =====
-- The check of a parsed response against a directory of the manifest, `bc_checksum_response_validate` of
-- handshake.c.
pub mod Lookup
pub mod Files
pub mod Accepts
use open_bc.Base.{
  ℕ, Bool, true, false, not, Option, none, some, List, [], ◌∷◌, length, ltb, ◌==◌, if◌then◌else◌,
}
use open_bc.Manifest.{FileHash, ManifestSubdir, ManifestDir, file_name, subdir_name, find_by}
use open_bc.Handshake.Response.{SubdirResp, ChecksumResp}

-- `bc_checksum_result_t`
pub data ChecksumResult : Type 0 where
  ok empty_dir dir_mismatch file_missing file_mismatch parse_error : ChecksumResult

-- The rest of the checks is made where a check passed.
infixr 5 ◌&then◌
abbrev pub ◌&then◌ : ChecksumResult → ChecksumResult → ChecksumResult
ok &then rest = rest
empty_dir &then rest = empty_dir
dir_mismatch &then rest = dir_mismatch
file_missing &then rest = file_missing
file_mismatch &then rest = file_mismatch
parse_error &then rest = parse_error

-- A file that the manifest does not name is accepted.
abbrev pub content_check : FileHash → Option FileHash → ChecksumResult
content_check f none = ok
content_check f (some mf) = if f.content_hash == mf.content_hash then ok else file_mismatch

-- The files of a response against those of the manifest, `known`.
unfoldable pub check_contents : List FileHash → List FileHash → ChecksumResult
check_contents known [] = ok
check_contents known (f ∷ files) =
    content_check f (find_by file_name f.name_hash known) &then check_contents known files

-- The loop that sets `found`
unfoldable pub is_listed : {A : Type 0} → (A → ℕ) → ℕ → List A → Bool
is_listed name_of name_hash [] = false
is_listed name_of name_hash (x ∷ xs) =
    if name_of x == name_hash then true else is_listed name_of name_hash xs

-- Every entry of the manifest is in the response.
unfoldable pub check_present : {A B : Type 0} → (A → ℕ) → (B → ℕ) → List A → List B → ChecksumResult
check_present name_of resp_name [] listed = ok
check_present name_of resp_name (m ∷ known) listed =
    (if is_listed resp_name (name_of m) listed then ok else file_missing)
    &then check_present name_of resp_name known listed

abbrev pub resp_name : SubdirResp → ℕ
resp_name rs = rs.name_hash

abbrev pub check_files : List FileHash → List FileHash → ChecksumResult
check_files known files =
    check_contents known files &then check_present file_name file_name known files

abbrev pub subdir_check : SubdirResp → Option ManifestSubdir → ChecksumResult
subdir_check rs none = ok
subdir_check rs (some ms) = check_files ms.files rs.files

unfoldable pub check_subdirs : List ManifestSubdir → List SubdirResp → ChecksumResult
check_subdirs known [] = ok
check_subdirs known (rs ∷ subdirs) =
    subdir_check rs (find_by subdir_name rs.name_hash known) &then check_subdirs known subdirs

unfoldable pub checksum_response_validate : ChecksumResp → ManifestDir → ChecksumResult
checksum_response_validate resp dir =
    if resp.empty
    then (if ltb 0 (length dir.files) then file_missing else ok)
    else if not (resp.dir_hash == dir.dir_name_hash)
    then dir_mismatch
    else (check_files dir.files resp.files
        &then check_subdirs dir.subdirs resp.subdirs
        &then check_present subdir_name resp_name dir.subdirs resp.subdirs)
