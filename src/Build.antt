-- ===== src/Build.antt =====
-- wrap/wrap.go and unwrap/unwrap.go: buildMWP behind mkfs, and the two consumers that open the hash
-- tree of its artifact: VerifyMWP and OpenVerity. A command is its list of arguments.
pub mod Reference
pub mod Accepted
use modelwrap.Prelude.{
  ℕ, ◌+◌, ◌*◌, ◌/◌, not, List, [], ◌∷◌, ◌++◌, Bytes, codes, ◌==◌, Option, Result, ok, err, ◌>>=◌,
  ◌>>◌, refuse_if, map_err, itoa, parse_uint, NumError, trim_space,
}
use modelwrap.Ref.{ArtifactRef, RefError, parse_ref, hash_offset_bytes}
use modelwrap.Verity.{
  Sha256, VerityParams, ParamsError, verity_salt, verity_params_for_artifact, veritysetup_args,
  verity_data_block_size, hex_encode,
}
use modelwrap.Disk.{File}
use modelwrap.Format.Superblock.{FormatError, VerityFormatParams}
use modelwrap.Format.Driver.{format_verity_hash_tree}

-- github.com/google/uuid: the text of the version 5 UUID of a name in the URL namespace, and `Parse`.
pub record Uuids : Type 0 where
  pub uuid_v5_url : Bytes → Bytes
  pub parse : Bytes → Option Bytes

pub data BuildError : Type 0 where
  unaligned_image : ℕ → BuildError
  format_failed : FormatError → BuildError

-- The offset of the hash area: the size, rounded up to a block.
abbrev pub hash_area : ℕ → ℕ
hash_area size = (size + 4095) / 4096 * 4096

-- What `FormatVerityHashTree` is asked for.
abbrev pub format_params : Sha256 → Uuids → Bytes → ℕ → ℕ → VerityFormatParams
format_params h u model workers offset = record {
  salt = verity_salt h model;
  uuid = u.uuid_v5_url (model ++ codes "-inner");
  data_blocks = offset / verity_data_block_size;
  hash_offset = offset;
  workers = workers;
}

-- `buildMWP` from the image that mkfs made: the file with its hash tree, and the artifact reference.
unfoldable pub build_mwp : Sha256 → Uuids → Bytes → ℕ → File → Result BuildError (File × Bytes)
build_mwp h u model workers image = do
  refuse_if (not (image.size == hash_area image.size)) (unaligned_image image.size)
  done ← map_err format_failed (
      format_verity_hash_tree h u.parse image
        (format_params h u model workers (hash_area image.size)))
  ok (
    done.1,
    hex_encode done.0
        ++ (b'_'
            ∷ (itoa (hash_area image.size) ++ (b'_' ∷ u.uuid_v5_url (model ++ codes "-inner")))),
  )

pub data VerifyError : Type 0 where
  bad_info : RefError → VerifyError
  bad_offset : RefError → VerifyError
  bad_hash_offset : Bytes → NumError → VerifyError
  bad_params : ParamsError → VerifyError

-- `parseInfoFile`, from the content of the file.
unfoldable pub parse_info_file : Bytes → Result VerifyError ArtifactRef
parse_info_file data_read = map_err bad_info (parse_ref (trim_space data_read))

-- The arguments of `veritysetup` in `VerifyMWP`, where the artifact exists.
unfoldable pub verify_mwp : Sha256 → Bytes → Bytes → Bytes → Result VerifyError (List Bytes)
verify_mwp h mwp_file info model = do
  ref ← parse_info_file info
  offset ← map_err bad_offset (hash_offset_bytes ref)
  params ← map_err bad_params (verity_params_for_artifact offset (verity_salt h model))
  ok (codes "verify" ∷ mwp_file ∷ mwp_file ∷ ref.root_hash ∷ veritysetup_args params)

-- The arguments of `veritysetup` in `OpenVerity`.
unfoldable pub open_verity : Bytes → Bytes → Bytes → Bytes → Bytes → Result VerifyError (List Bytes)
open_verity device name root_hash hash_offset salt = do
  offset ← map_err (bad_hash_offset hash_offset) (parse_uint hash_offset)
  params ← map_err bad_params (verity_params_for_artifact offset salt)
  ok (codes "open" ∷ device ∷ name ∷ device ∷ root_hash ∷ veritysetup_args params)
