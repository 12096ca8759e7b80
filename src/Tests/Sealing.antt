-- ===== src/Tests/Sealing.antt =====
-- Examples for a first run of Pack.
use modelwrap.Prelude.{
  ℕ, ◌≡◌, sym, ap, ◌∙◌, refl, true, false, Bool, ◌*◌, trim_left, trim_right, [], Bytes, codes, ok,
  err, Result, length, arith, beq, trim_space, replicate,
}
use modelwrap.Disk.{File, read_at, write_at}
use modelwrap.Disk.Tabulate.{tabulate, length-tabulate}
use modelwrap.Build.{build_mwp, BuildError}
use modelwrap.Build.Accepted.{IsImage, build_mwp-accepted}
use modelwrap.Format.Driver.{
  format_verity_hash_tree, check_params, write_superblock, tree_over, hash_levels, root_of,
}
use modelwrap.Format.Geometry.{level_blocks, level_offsets}
use modelwrap.Format.Superblock.{verity_superblock}
use modelwrap.Ref.{ArtifactRef, to_string}
use modelwrap.Artifacts.{check_existing_artifacts, read_schema_sidecar}
use modelwrap.Crypt.{pad_sector}
use modelwrap.Emwp.{derive_key, blank, total_sectors, verify_emwp}
use modelwrap.Key.{load_master_key, parse_master_key}
use modelwrap.Pack.{Request, pack_locked, bytes_of, file_of}
use modelwrap.Pack.Fresh.{calm, ref, mwp, published, verify_args, pack_locked-published}
use modelwrap.Pack.Sealed.{outer, IsSealable, sealed, sealed_dir, pack_locked-sealed}
use modelwrap.Tests.Files.{empty}
use modelwrap.Tests.Packing.{tools, schema_two}
use modelwrap.Tests.Keys.{a_key_host}
use modelwrap.Tests.Payload.{one_key}
use modelwrap.Verity.{verity_salt}
use modelwrap.Tests.Data.{first_byte, one_uuid, zeros, key_of_64}
use modelwrap.Tests.Hashing.{a_model, uuid_matches}

abbrev size_of : Result BuildError (File × Bytes) → ℕ
size_of (ok (f, r)) = f.size
size_of (err e) = 0

-- One block of zeros.
abbrev pub one_block : File
one_block = zeros 4096

abbrev pub one_block-IsImage : IsImage one_uuid a_model one_block
one_block-IsImage = record {
  clean = λ i h. refl;
  some_data = omega arith;
  aligned = refl;
  fits = omega arith;
  uuid_matches = uuid_matches;
  uuid_bytes = replicate 16 7;
  uuid_parses = refl;
}

built_size : size_of (build_mwp first_byte one_uuid a_model 4 one_block) ≡ 8192
unfolding build_mwp format_verity_hash_tree check_params write_superblock tree_over hash_levels
    read_at write_at verity_superblock level_blocks level_offsets root_of verity_salt tabulate
built_size = refl

abbrev pub a_request : Bool → Request
a_request encrypt = record {
  model = a_model;
  model_dir = codes "/model";
  is_local_dir = true;
  encrypt = encrypt;
  verify = true;
  key_file = codes "key";
}

pub nothing_there : check_existing_artifacts empty 2 ≡ ok false
unfolding check_existing_artifacts read_schema_sidecar
nothing_there = refl

pack_locked-published_example : pack_locked tools calm [] schema_two (a_request false) empty ≡ (
  published tools schema_two (a_request false) one_block one_block-IsImage refl empty,
  ok (to_string (ref tools schema_two (a_request false) one_block one_block-IsImage refl)),
)
pack_locked-published_example =
    pack_locked-published tools schema_two (a_request false) one_block one_block-IsImage refl empty
      nothing_there refl refl

abbrev artifact : Bytes
artifact = mwp tools schema_two (a_request true) one_block one_block-IsImage refl

artifact-length : length artifact ≡ 8192
unfolding bytes_of
artifact-length =
    let g =
      (build_mwp-accepted first_byte one_uuid a_model 4 one_block one_block-IsImage [] [] []) in
    length-tabulate g.0.size g.0.byte ∙ (ap size_of (sym g.1) ∙ built_size)

key_loaded : load_master_key a_key_host (codes "key") ≡ ok key_of_64
unfolding load_master_key parse_master_key trim_space trim_left trim_right beq
key_loaded = refl

abbrev a_dm_key : Bytes
a_dm_key = replicate 64 4

abbrev the_outer : ArtifactRef
the_outer = outer tools schema_two (a_request true) one_block one_block-IsImage refl

key_derived : derive_key one_key key_of_64 the_outer ≡ ok a_dm_key
unfolding derive_key
key_derived = refl

request-IsSealable :
    IsSealable tools schema_two (a_request true) one_block one_block-IsImage refl key_of_64 a_dm_key
request-IsSealable = record {
  loaded = key_loaded;
  outer_uuid = uuid_matches;
  derived = key_derived;
  key_length = refl;
  mwp_fits = omega (arith, artifact-length);
  table = record {
    disk = blank (total_sectors (length artifact) * 512);
    made = refl;
    clean = λ i h. refl;
    same_size = refl;
  };
  accepts = refl;
  accepts_recovered = refl;
}

abbrev the_image : File
the_image =
    sealed tools schema_two (a_request true) one_block one_block-IsImage refl key_of_64 a_dm_key
      request-IsSealable

pack_locked-sealed_example :
    (pack_locked tools calm [] schema_two (a_request true) empty ≡ (
      sealed_dir tools schema_two
          (a_request true)
          one_block
          one_block-IsImage
          refl
          key_of_64
          a_dm_key
          request-IsSealable
          empty,
      ok (to_string the_outer),
    ))
    × (verify_emwp tools.xts tools.sha256 tools.hkdf
          (file_of (bytes_of the_image))
          (codes ".emwp.verify")
          (to_string the_outer)
          key_of_64
          a_model
        ≡ ok (
          pad_sector artifact,
          verify_args tools schema_two
              (a_request true)
              one_block
              one_block-IsImage
              refl
              (codes ".emwp.verify"),
        ))
pack_locked-sealed_example =
    pack_locked-sealed tools schema_two (a_request true) one_block one_block-IsImage refl key_of_64
      a_dm_key request-IsSealable empty nothing_there refl
