-- ===== src/Handshake/Validate/Accepts.antt =====
-- Which responses the server accepts.
use open_bc.Base.{◌≡◌}
use open_bc.Manifest.{ManifestSubdir, ManifestDir, file_name, subdir_name}
use open_bc.Handshake.Response.{SubdirResp, ChecksumResp}
use open_bc.Handshake.Validate.{resp_name}
use open_bc.Handshake.Validate.Lookup.{Any, In, Distinct}
use open_bc.Handshake.Validate.Files.{Conforms}

-- The response is of this directory, and its files and the files of each subdirectory are those of the manifest.
pub record Accepts (dir : ManifestDir) (resp : ChecksumResp) : Type 0 where
  pub directory : resp.dir_hash ≡ dir.dir_name_hash
  pub files : Conforms dir.files resp.files
  pub present :
      (ms : ManifestSubdir)
      → In ms dir.subdirs
      → Any (λ rs. resp_name rs ≡ subdir_name ms) resp.subdirs
  pub subdirs :
      (ms : ManifestSubdir) (rs : SubdirResp)
      → In ms dir.subdirs
      → In rs resp.subdirs
      → resp_name rs ≡ subdir_name ms
      → Conforms ms.files rs.files

-- A manifest that names nothing twice.
pub record IsTidy (dir : ManifestDir) : Type 0 where
  pub files : Distinct file_name dir.files
  pub subdirs : Distinct subdir_name dir.subdirs
  pub each : (ms : ManifestSubdir) → In ms dir.subdirs → Distinct file_name ms.files
