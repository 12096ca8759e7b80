-- ===== src/Tests/Packing.antt =====
-- Examples for a run of Pack.
use modelwrap.Prelude.{
  ◌≡◌, ◌∙◌, refl, inl, true, false, List, [], ◌∷◌, Bytes, codes, ok, itoa, none, some, arith,
  Option,
}
use modelwrap.Ref.{to_string}
use modelwrap.Schema.{PackSchema}
use modelwrap.Disk.{File}
use modelwrap.Artifacts.{Dir, absent, file, Faults}
use modelwrap.Artifacts.Reuse.{check_existing_artifacts_iff}
use modelwrap.Build.{parse_info_file}
use modelwrap.Build.Reference.{trim_space-to_string}
use modelwrap.Pack.{Tools, Request, pack_locked, then_run}
use modelwrap.Pack.Kept.{IsKept, pack_locked-Keeps}
use modelwrap.Pack.Packed.{IsPacked}
use modelwrap.Pack.Again.{pack_locked_packed, pack_locked_again}
use modelwrap.Tests.Data.{
  first_byte, plain_cipher, one_uuid, sample_ref, sample_ref-IsValid, sample_ref-parsed, zeros,
}
use modelwrap.Tests.Files.{no_info, sidecar_of_whole}
use modelwrap.Tests.Payload.{one_key, no_table}
use modelwrap.Tests.Keys.{a_key_host}

abbrev pub tools : Tools
tools = record {
  sha256 = first_byte;
  uuids = one_uuid;
  xts = plain_cipher;
  hkdf = one_key;
  sgdisk = no_table;
  keys = a_key_host;
  num_cpu = 4;
  mkfs = λ s args. some (zeros 4096);
  veritysetup = λ args image. true;
  make_dirs = true;
  seed = true;
  download = true;
  clean_cache = true;
  lock = true;
}

abbrev no_faults : Faults
no_faults = record { stage = λ s. false; rename = λ s. false; recover = false }

abbrev pub schema_two : PackSchema
schema_two = record {
  id = 2;
  stable = true;
  erofs_utils = codes "1.8";
  mkfs_path = codes "/usr/bin/mkfs.erofs";
  mkfs_args = λ model image dir. image ∷ dir ∷ [];
  doc = [];
}

abbrev plain_request : Request
plain_request = record {
  model = codes "m@r1";
  model_dir = codes "/model";
  is_local_dir = true;
  encrypt = false;
  verify = false;
  key_file = [];
}

abbrev packed_dir : Dir
packed_dir = record {
  mpk_file = file (codes "image");
  info_file = file (to_string sample_ref);
  emwp_file = absent;
  emwp_info_file = absent;
  schema_file = file (itoa 2);
}

packed_dir-IsPacked : IsPacked 2 packed_dir
packed_dir-IsPacked = record {
  reused = (check_existing_artifacts_iff packed_dir 2).1 ((tt, tt, tt, tt), inl sidecar_of_whole);
  labelled = sidecar_of_whole;
}

sample_info_read : parse_info_file (to_string sample_ref) ≡ ok sample_ref
unfolding parse_info_file
sample_info_read =
    rw (trim_space-to_string sample_ref sample_ref-IsValid) (rw sample_ref-parsed refl)

packed_run :
    pack_locked tools no_faults [] schema_two plain_request packed_dir
    ≡ (packed_dir, ok (to_string sample_ref))
unfolding then_run
packed_run =
    pack_locked_packed tools no_faults [] schema_two plain_request packed_dir refl
      packed_dir-IsPacked
    ∙ rw sample_info_read refl

pack_locked-Keeps_example :
    IsKept packed_dir (pack_locked tools no_faults [] schema_two plain_request packed_dir).0
pack_locked-Keeps_example = pack_locked-Keeps tools no_faults [] schema_two plain_request packed_dir

-- A builder that always fails.
abbrev broken_mkfs : PackSchema → List Bytes → Option File
broken_mkfs s args = none

pack_locked_again_example :
    pack_locked (record tools { mkfs = broken_mkfs }) no_info [] schema_two plain_request packed_dir
    ≡ (packed_dir, ok (to_string sample_ref))
pack_locked_again_example =
    pack_locked_again tools no_faults no_info [] [] broken_mkfs schema_two plain_request packed_dir
      packed_dir (to_string sample_ref) (omega arith) (omega arith) refl packed_run
