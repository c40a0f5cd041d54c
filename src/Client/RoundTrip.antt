-- ===== src/Client/RoundTrip.antt =====
-- What the server (src/shared/protocol/handshake.c) reads in a response that a client (client_transport.c) builds.
use open_bc.Base.{ℕ, zero, suc, ◌^◌, ◌≤◌, ◌<◌, ◌≡◌, refl, sym, ap, ◌∙◌, subst, arith, Option, some}
use open_bc.Base.{
  List, [], ◌∷◌, ◌++◌, length, take, drop, take_of_append, ◌==◌, if◌then◌else◌, Bool-cases, inl,
  inr, All, IsU32, u8, u16,
}
use mathlib.Core.List.{append-nil}
use open_bc.Buffer.{write_u8, write_u16, write_u32}
use open_bc.Buffer.Writes.{le16, le32, write_u16-Stores}
use open_bc.Buffer.Seq.{◌⨟◌, build_lem, Writes, Stores-Writes, no_write-Writes, Writes-⨟}
use open_bc.Handshake.Build.{}
use open_bc.Handshake.Response.{checksum_response_parse}
use open_bc.Handshake.Response.Wire.{
  node, Subtrees, leaf, sub, names, file_bytes, name_bytes, tree_bytes, subtree_bytes, depth,
  depth_subs, IsWord, Encodes, EncodesAll,
}
use open_bc.Handshake.Response.RoundTrip.{response_bytes, response, FewFiles, parse-response_bytes}
use open_bc.Manifest.{FileHash}
use open_bc.Messages.Build.Writes.{byte_written, long_written}
use open_bc.Client.{
  ClientSubdir, write_ref_hash, write_entries, write_files, write_names, write_trees,
  client_build_checksum_resp_recursive,
}

ref_written :
    (round ref : ℕ) → Writes (write_ref_hash round ref) (if round == 0 then le32 ref else [])
ref_written round ref = elim (Bool-cases (round == 0)) [
  | inl first ↦ rw first (long_written ref)
  | inr later ↦ rw later no_write-Writes
]

entries_written : (fs : List FileHash) → Writes (write_entries fs) (file_bytes fs)
entries_written [] = no_write-Writes
entries_written (f ∷ fs) =
    Writes-⨟ (long_written f.name_hash)
      (Writes-⨟ (long_written f.content_hash) (entries_written fs))

files_written :
    (fs : List FileHash)
    → length fs < 2 ^ 16
    → Writes (write_files fs) (le16 (length fs) ++ file_bytes fs)
files_written fs short =
    let same : u16 (length fs) ≡ length fs = omega (arith, short) in
    Writes-⨟
      (subst (λ n. Writes (write_u16 n) (le16 (length fs))) (sym same)
        (Stores-Writes (write_u16-Stores (length fs))))
      (entries_written fs)

-- The client's subdirectories as trees
abbrev pub trees : List ClientSubdir → Subtrees
trees [] = leaf
trees (d ∷ ds) = sub d.name_hash (node d.files leaf) (trees ds)

names_written : (ds : List ClientSubdir) → Writes (write_names ds) (name_bytes (names (trees ds)))
names_written [] = no_write-Writes
names_written (d ∷ ds) = Writes-⨟ (long_written d.name_hash) (names_written ds)

-- What a client can scan: hashes of 32 bits, at most 128 files in a subdirectory.
abbrev pub IsScan : ClientSubdir → Type 0
IsScan d = IsU32 d.name_hash × All IsWord d.files × (length d.files ≤ 128)

trees_written :
    (ds : List ClientSubdir) → All IsScan ds → Writes (write_trees ds) (subtree_bytes (trees ds))
unfolding tree_bytes
trees_written [] h = no_write-Writes
trees_written (d ∷ ds) h =
    Writes-⨟ (Writes-⨟ (files_written d.files (omega (arith, h.0.2))) (byte_written 0))
      (trees_written ds h.1)

length-names : (ds : List ClientSubdir) → length (names (trees ds)) ≡ length ds
length-names [] = refl
length-names (d ∷ ds) = ap suc (length-names ds)

trees-EncodesAll : (ds : List ClientSubdir) → All IsScan ds → EncodesAll (trees ds)
unfolding Encodes
trees-EncodesAll [] h = tt
trees-EncodesAll (d ∷ ds) h =
    (h.0.0, (omega (arith, h.0.2), h.0.1, omega arith, tt), trees-EncodesAll ds h.1)

trees-FewFiles : (n : ℕ) (ds : List ClientSubdir) → All IsScan ds → FewFiles n (trees ds)
trees-FewFiles zero ds h = tt
trees-FewFiles (suc n) [] h = tt
trees-FewFiles (suc n) (d ∷ ds) h = (h.0.2, trees-FewFiles n ds h.1)

trees-depth : (ds : List ClientSubdir) → depth_subs (trees ds) ≤ 1
unfolding depth
trees-depth [] = omega arith
trees-depth (d ∷ ds) = omega (arith, trees-depth ds)

response_written :
    (round ref dir : ℕ) (files : List FileHash) (ds : List ClientSubdir)
    → length files < 2 ^ 16
    → length ds < 256
    → All IsScan ds
    → Writes
        (write_u8 0x21
          ⨟ write_u8 round
          ⨟ write_ref_hash round ref
          ⨟ write_u32 dir
          ⨟ write_files files
          ⨟ write_u8 (u8 (length ds))
          ⨟ write_names ds
          ⨟ write_trees ds)
        (response_bytes round ref dir (node files (trees ds)))
unfolding tree_bytes
response_written round ref dir files ds few_files few_dirs scan =
    let count : u8 (length ds) ≡ length (names (trees ds)) =
      omega (arith, few_dirs, length-names ds) in
    Writes-⨟ (byte_written 0x21) (
      Writes-⨟ (byte_written round) (
        Writes-⨟ (ref_written round ref) (
          Writes-⨟ (long_written dir) (
            Writes-⨟ (files_written files few_files) (
              Writes-⨟
                (subst (λ n. Writes (write_u8 (u8 (length ds))) (n ∷ [])) count
                  (byte_written (u8 (length ds))))
                (Writes-⨟ (names_written ds) (trees_written ds scan)))))))

-- What a client reports of its files arrives at the server: for hashes of 32 bits, at most 256 files in the
-- directory, at most eight subdirectories with at most 128 files each, and an array with room, the client's builder
-- returns a length, and from that many bytes the server's parser reads the round, the hashes, the files and every
-- subdirectory with its files.
pub parse-client_build :
    (round ref dir : ℕ) (files : List FileHash) (ds : List ClientSubdir) (out : List ℕ) (size : ℕ)
    → IsU32 ref
    → IsU32 dir
    → All IsWord files
    → length files ≤ 256
    → All IsScan ds
    → length ds ≤ 8
    → length out ≡ size
    → size < 2 ^ 63
    → length (response_bytes round ref dir (node files (trees ds))) ≤ size
    → (n : ℕ) × ((client_build_checksum_resp_recursive round ref dir files ds out size).0 ≡ some n)
      × (checksum_response_parse
            (take n (client_build_checksum_resp_recursive round ref dir files ds out size).1)
          ≡ some (response round ref dir files (trees ds)))
unfolding client_build_checksum_resp_recursive Encodes depth
parse-client_build round ref dir files ds out size href hdir hfiles few scan dirs e small fits = (
  length bytes,
  ap (λ (r : Option ℕ × List ℕ). r.0) made,
  ap (λ (r : Option ℕ × List ℕ). checksum_response_parse (take (length bytes) r.1)) made
      ∙ ap checksum_response_parse (
          take_of_append bytes (drop (length bytes) out) (length bytes) refl
          ∙ sym (append-nil bytes))
      ∙ parse-response_bytes round ref dir files (trees ds) [] href hdir
          (
            omega (arith, few),
            hfiles,
            omega (arith, dirs, length-names ds),
            trees-EncodesAll ds scan,
          )
          (omega (arith, trees-depth ds)) few (trees-FewFiles 8 ds scan)
          (subst (λ l. length l < 2 ^ 63) (sym (append-nil bytes)) (omega (arith, fits, small))),
)
  where
    bytes : List ℕ
    bytes = response_bytes round ref dir (node files (trees ds))

    made :
        client_build_checksum_resp_recursive round ref dir files ds out size
        ≡ (some (length bytes), bytes ++ drop (length bytes) out)
    made =
        build_lem out size
          (response_written round ref dir files ds (omega (arith, few)) (omega (arith, dirs)) scan)
          e small fits
