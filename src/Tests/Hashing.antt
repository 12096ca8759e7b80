-- ===== src/Tests/Hashing.antt =====
-- Examples for the hash tree and for the artifact around it.
use modelwrap.Prelude.{
  ℕ, zero, suc, ◌+◌, ◌≡◌, ◌<◌, inl, refl, ◌∷◌, Bytes, codes, arith, replicate, ok, none, some, true,
  ap, ◌↔◌,
}
use modelwrap.Verity.{VerityParams, verity_salt, veritysetup_args}
use modelwrap.Disk.{File, IoError, IsFault, quiet, read_at, read_from, write_to}
use modelwrap.Ref.{ArtifactRef, matches, uuid_pattern, to_string, parse_ref}
use modelwrap.Format.Geometry.{ceil_div, task_of, task_count, level_fuel}
use modelwrap.Format.Level.{write_task, load_task, store_task, task_output}
use modelwrap.Format.Level.Share.{block_at}
use modelwrap.Format.Level.Kept.{IsLevel, Kept, hashed}
use modelwrap.Format.Level.Pool.{
  Pool, idle, stopped, claimed, loaded, assign, start, claim, stop, load, store, Reach, here, next,
}
use modelwrap.Format.Level.Pool.Hashed.{pool-hashed}
use modelwrap.Format.Superblock.{VerityFormatParams, superblock_byte}
use modelwrap.Format.Driver.{format_verity_hash_tree}
use modelwrap.Format.Driver.Merkle.{merkle_root}
use modelwrap.Format.Driver.Run.Format.{IsJob, IsElsewhere, format-root}
use modelwrap.Format.Driver.Device.{FormatRun}
use modelwrap.Format.Driver.Device.Outcome.{IsReported, format-IsReported}
use modelwrap.Format.Driver.Device.Quiet.{format_verity_hash_tree_iff}
use modelwrap.Build.{build_mwp, verify_mwp, open_verity}
use modelwrap.Build.Accepted.{IsImage, ref_of, opened_with, build_mwp-accepted}
use modelwrap.Tests.Data.{first_byte, one_uuid, sample_uuid, zeros}

abbrev pub two_blocks : File
two_blocks = zeros 8192

abbrev salt : Bytes
salt = replicate 32 9

abbrev one_level : IsLevel two_blocks 0 1 4096
one_level = record {
  clean = λ i h. refl;
  some_blocks = omega arith;
  few_blocks = omega arith;
  source_exists = omega arith;
  size_fits = omega arith;
  dst_fits = omega arith;
  apart = inl (omega arith);
}

-- The states of a run with one worker and one task.
abbrev after_claim : Pool
after_claim = record {
  next_task = 1;
  phase = assign (λ w. idle) 0 (claimed 0);
  file = two_blocks;
  first_err = none;
}

abbrev the_source : Bytes
the_source = block_at two_blocks 0 0

abbrev after_load : Pool
after_load = record after_claim {
  phase =
      assign after_claim.phase 0 (loaded 0 (task_output first_byte salt (task_of 1 0) the_source));
}

abbrev after_store : Pool
after_store = record after_load {
  phase = assign after_load.phase 0 idle;
  file =
      (store_task quiet two_blocks 4096 (task_of 1 0)
        (task_output first_byte salt (task_of 1 0) the_source)).0;
}

abbrev after_stop : Pool
after_stop = record after_store { next_task = 2; phase = assign after_store.phase 0 stopped }

one_task : task_count 1 ≡ 1
unfolding task_count ceil_div
one_task = refl

loads : load_task quiet two_blocks 0 (task_of 1 0) ≡ ok the_source
unfolding load_task read_from read_at task_of ceil_div
loads = refl

stores :
    store_task quiet two_blocks 4096
      (task_of 1 0)
      (task_output first_byte salt (task_of 1 0) the_source)
    ≡ (
      write_task two_blocks 4096
          (task_of 1 0)
          (task_output first_byte salt (task_of 1 0) the_source),
      none,
    )
unfolding store_task write_to write_task
stores = refl

the_run : Reach quiet first_byte salt 0 1 4096 1 (start two_blocks) after_stop
the_run =
    next
      (next
        (next (next here (claim (start two_blocks) 0 (omega arith) refl (omega (arith, one_task))))
          (load after_claim 0 0 the_source (omega arith) refl loads))
        (store after_load 0 0 _ (omega arith) refl (ap (λ r. r.1) stores)))
      (stop after_store 0 (omega arith) refl (omega (arith, one_task)))

all_stopped : (w : ℕ) → w < 1 → after_stop.phase w ≡ stopped
all_stopped zero h = refl
all_stopped (suc w) h = absurd (omega arith)

pool-hashed_example :
    Kept first_byte salt 0 1 4096 two_blocks one_level after_stop.file
    × ((e : IoError) → after_stop.first_err ≡ some e → IsFault quiet e)
    × (after_stop.first_err ≡ none → after_stop.file ≡ hashed first_byte salt 0 1 4096 two_blocks)
pool-hashed_example =
    pool-hashed quiet first_byte salt 0 1 4096 1 two_blocks one_level after_stop (omega arith)
      the_run all_stopped

abbrev a_job : VerityFormatParams
a_job = record { salt = salt; uuid = sample_uuid; data_blocks = 2; hash_offset = 8192; workers = 3 }

abbrev a_job-IsJob : IsJob one_uuid.parse two_blocks a_job
a_job-IsJob = record {
  clean = λ i h. refl;
  salt_fits = omega arith;
  some_data = omega arith;
  data_fits = omega arith;
  aligned = refl;
  behind = omega arith;
  offset_fits = omega arith;
  data_exists = omega arith;
  size_fits = omega arith;
  uuid_bytes = replicate 16 7;
  uuid_parses = refl;
}

format-root_example :
    (g : File) × (format_verity_hash_tree first_byte one_uuid.parse two_blocks a_job
      ≡ ok (merkle_root first_byte salt level_fuel 2 (block_at two_blocks 0), g))
    × ((i : ℕ)
        → IsElsewhere first_byte one_uuid.parse two_blocks a_job a_job-IsJob i
        → g.byte i ≡ two_blocks.byte i)
    × ((i : ℕ) → i < 4096 → g.byte (8192 + i) ≡ superblock_byte (replicate 16 7) a_job i)
format-root_example = format-root first_byte one_uuid.parse two_blocks a_job a_job-IsJob

abbrev pub a_model : Bytes
a_model = codes "org/model@v1"

pub uuid_matches : matches uuid_pattern sample_uuid ≡ true
unfolding matches
uuid_matches = refl

abbrev pub image-IsImage : IsImage one_uuid a_model two_blocks
image-IsImage = record {
  clean = λ i h. refl;
  some_data = omega arith;
  aligned = refl;
  fits = omega arith;
  uuid_matches = uuid_matches;
  uuid_bytes = replicate 16 7;
  uuid_parses = refl;
}

abbrev pub the_ref : ArtifactRef
the_ref = ref_of first_byte one_uuid a_model 3 two_blocks image-IsImage

abbrev pub the_params : VerityParams
the_params = opened_with first_byte one_uuid a_model 3 two_blocks image-IsImage

build_mwp-accepted_example :
    (g : File) × (build_mwp first_byte one_uuid a_model 3 two_blocks ≡ ok (g, to_string the_ref))
    × ((i : ℕ) → i < 8192 → g.byte i ≡ two_blocks.byte i)
    × (parse_ref (to_string the_ref) ≡ ok the_ref)
    × (verify_mwp first_byte (codes "a.mpk") (to_string the_ref) a_model
        ≡ ok (
            codes "verify"
            ∷ codes "a.mpk"
            ∷ codes "a.mpk"
            ∷ the_ref.root_hash
            ∷ veritysetup_args the_params))
    × (open_verity
          (codes "/dev/vdb")
          (codes "mpk")
          the_ref.root_hash
          the_ref.hash_offset
          (verity_salt first_byte a_model)
        ≡ ok (
            codes "open"
            ∷ codes "/dev/vdb"
            ∷ codes "mpk"
            ∷ codes "/dev/vdb"
            ∷ the_ref.root_hash
            ∷ veritysetup_args the_params))
build_mwp-accepted_example =
    build_mwp-accepted first_byte one_uuid a_model 3 two_blocks image-IsImage (codes "a.mpk")
      (codes "/dev/vdb") (codes "mpk")

abbrev a_root : Bytes
a_root = merkle_root first_byte salt level_fuel 2 (block_at two_blocks 0)

a_formatted :
    (g : File) × FormatRun quiet first_byte 4 one_uuid.parse a_job two_blocks g (ok a_root)
a_formatted =
    let (g, e, _, _) = format-root first_byte one_uuid.parse two_blocks a_job a_job-IsJob in
    (
      g,
      (format_verity_hash_tree_iff first_byte 4 (omega arith) one_uuid.parse a_job two_blocks
            a_job-IsJob a_root g).0
          e,
    )

format-IsReported_example :
    IsReported quiet first_byte 4
      (omega arith)
      one_uuid.parse
      a_job
      two_blocks
      a_job-IsJob
      a_formatted.0
      (ok a_root)
format-IsReported_example =
    format-IsReported quiet first_byte 4 (omega arith) one_uuid.parse a_job two_blocks a_job-IsJob
      a_formatted.1

abbrev a_file : File
a_file = a_formatted.0

format_verity_hash_tree_iff_example :
    (format_verity_hash_tree first_byte one_uuid.parse two_blocks a_job ≡ ok (a_root, a_file))
    ↔ FormatRun quiet first_byte 4 one_uuid.parse a_job two_blocks a_file (ok a_root)
format_verity_hash_tree_iff_example =
    format_verity_hash_tree_iff first_byte 4 (omega arith) one_uuid.parse a_job two_blocks
      a_job-IsJob a_root a_file
