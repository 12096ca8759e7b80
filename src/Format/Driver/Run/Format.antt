-- ===== src/Format/Driver/Run/Format.antt =====
-- FormatVerityHashTree as a whole: when it succeeds, and what it returns.
use modelwrap.Prelude.{
  ℕ, ◌+◌, ◌*◌, ◌%◌, ◌^◌, ◌≡◌, ◌≤◌, ◌<◌, ◌⊎◌, inl, refl, ap, ◌∙◌, Bytes, arith, length, Result, ok,
  ◌>>=◌, Option, some, u64_mod, map_err, ltb, false, get_or,
}
use modelwrap.Verity.{Sha256}
use modelwrap.Disk.{File, IoError, write_at, max_size}
use modelwrap.Disk.Laws.{IsClean, write_at-IsClean, write_at_byte, write_at_size}
use modelwrap.Disk.Tabulate.{tabulate, tabulate-ext, length-tabulate, get_or-tabulate}
use modelwrap.Format.Geometry.{level_fuel, level_blocks, level_offsets}
use modelwrap.Format.Geometry.Levels.{levels_end, levels_end_bounds}
use modelwrap.Format.Level.Share.{block_at}
use modelwrap.Format.Level.Kept.{window_out, window_in}
use modelwrap.Format.Superblock.{VerityFormatParams, verity_superblock, superblock_byte, read_error}
use modelwrap.Format.Driver.{
  check_params, hash_levels, root_of, write_superblock, tree_over, format_verity_hash_tree,
}
use modelwrap.Format.Driver.Merkle.{merkle_root, merkle_root-ext}
use modelwrap.Format.Driver.Run.Levels.{IsReady, levels_run, levels_run-Gives}

-- The formatter's job as buildMWP sets it: a data area of whole blocks within the limit, the hash
-- area behind it, a salt and a UUID that fit, and a file that holds the data.
pub record IsJob (parse_uuid : Bytes → Option Bytes) (f : File) (p : VerityFormatParams)
    : Type 0 where
  pub clean : IsClean f
  pub salt_fits : length p.salt ≤ 256
  pub some_data : 0 < p.data_blocks
  pub data_fits : p.data_blocks ≤ 2 ^ 50
  pub aligned : p.hash_offset % 4096 ≡ 0
  pub behind : p.data_blocks * 4096 ≤ p.hash_offset
  pub offset_fits : p.hash_offset ≤ 2 ^ 62
  pub data_exists : p.data_blocks * 4096 ≤ f.size
  pub size_fits : f.size < 2 ^ 63
  pub uuid_bytes : Bytes
  pub uuid_parses : parse_uuid p.uuid ≡ some uuid_bytes

module _ (h : Sha256) (parse_uuid : Bytes → Option Bytes) (f : File) (p : VerityFormatParams)
    (job : IsJob parse_uuid f p) where
  pub superblock : Bytes
  superblock = tabulate 4096 (superblock_byte job.uuid_bytes p)

  pub check_params_ok : check_params p ≡ ok tt
  unfolding check_params
  check_params_ok =
      let a = job.salt_fits in
      let b = job.some_data in
      let c = job.data_fits in let d = job.aligned in let e = job.behind in ground arith

  unfoldable pub with_superblock : File
  with_superblock = write_at f p.hash_offset superblock

  pub superblock_ok : verity_superblock parse_uuid p ≡ ok superblock
  unfolding verity_superblock superblock
  superblock_ok = rw (job.uuid_parses, verity_superblock)

  write_superblock_ok : write_superblock f p.hash_offset superblock ≡ ok with_superblock
  unfolding write_superblock with_superblock
  write_superblock_ok = let e = job.offset_fits in ground arith

  pub format_reduces :
      format_verity_hash_tree h parse_uuid f p
      ≡ map_err (λ _. read_error) (tree_over h p with_superblock)
  unfolding format_verity_hash_tree
  format_reduces =
      let a = job.data_exists in
      let b = job.data_fits in
      let large : ltb f.size (p.data_blocks * 4096 % u64_mod) ≡ false = ground arith in
      rw check_params_ok (rw superblock_ok (rw large (rw write_superblock_ok refl)))

  pub length-superblock : length superblock ≡ 4096
  unfolding superblock
  length-superblock = length-tabulate 4096 (superblock_byte job.uuid_bytes p)

  pub with_superblock_byte :
      (i : ℕ) → (i < p.hash_offset) ⊎ (p.hash_offset + 4096 ≤ i) → with_superblock.byte i ≡ f.byte i
  unfolding with_superblock
  with_superblock_byte i out =
      write_at_byte f p.hash_offset superblock i job.clean
      ∙ window_out p.hash_offset i (p.hash_offset + length superblock) _ _
          (omega (arith, length-superblock))

  with_superblock_size : with_superblock.size ≡ max_size f.size (p.hash_offset + 4096)
  unfolding with_superblock
  with_superblock_size =
      write_at_size f p.hash_offset superblock (omega (arith, length-superblock))
      ∙ ap (λ m. max_size f.size (p.hash_offset + m)) length-superblock

  pub with_superblock-IsReady :
      IsReady h p.salt level_fuel with_superblock 0 p.data_blocks (p.hash_offset + 4096)
  with_superblock-IsReady =
      let z = with_superblock_size in
      record {
        clean = unfold with_superblock in write_at-IsClean f p.hash_offset superblock job.clean;
        some_blocks = job.some_data;
        few_blocks = job.data_fits;
        enough_fuel = omega (arith, job.data_fits);
        source_exists = let e = job.data_exists in ground (arith, z);
        size_fits = ground (arith, z, job.size_fits, job.offset_fits);
        room = omega (arith, job.offset_fits, job.data_fits);
        apart = inl (omega (arith, job.behind));
      }

  with_superblock_inside :
      (i : ℕ)
      → i < 4096
      → with_superblock.byte (p.hash_offset + i) ≡ superblock_byte job.uuid_bytes p i
  unfolding with_superblock superblock
  with_superblock_inside i lt =
      write_at_byte f p.hash_offset superblock (p.hash_offset + i) job.clean
      ∙ window_in p.hash_offset (p.hash_offset + i) (p.hash_offset + length superblock) _ _
          (omega arith) (omega (arith, length-superblock))
      ∙ ap (λ k. get_or superblock k 0) (omega arith)
      ∙ get_or-tabulate 4096 (superblock_byte job.uuid_bytes p) i 0 lt

  -- The tree starts one block behind the superblock.
  pub end_after : p.hash_offset + 4096 ≤ levels_end level_fuel p.data_blocks (p.hash_offset + 4096)
  end_after =
      (levels_end_bounds level_fuel p.data_blocks (p.hash_offset + 4096) job.some_data job.data_fits
        (omega (arith, job.offset_fits, job.data_fits))).0

  -- The bytes that the formatter leaves alone.
  abbrev pub IsElsewhere : ℕ → Type 0
  IsElsewhere i =
      (i < p.hash_offset) ⊎ (levels_end level_fuel p.data_blocks (p.hash_offset + 4096) ≤ i)

  tree_over-ok :
      (g : File) × (tree_over h p with_superblock
        ≡ ok (merkle_root h p.salt level_fuel p.data_blocks (block_at with_superblock 0), g))
      × ((i : ℕ)
          → (i < p.hash_offset + 4096)
            ⊎ (levels_end level_fuel p.data_blocks (p.hash_offset + 4096) ≤ i)
          → g.byte i ≡ with_superblock.byte i)
  unfolding tree_over levels_run
  tree_over-ok =
      let n = p.data_blocks in
      let ws = with_superblock in
      let g =
        levels_run-Gives h p.salt level_fuel ws 0 n (p.hash_offset + 4096)
          with_superblock-IsReady in
      let finish : File × ℕ → Result IoError (Bytes × File) =
        λ done. root_of h p.salt done.0 done.1 >>= λ root. ok (root, done.0) in
      (
        g.file,
        ap
              (λ next.
                hash_levels h p.salt ws 0 n (level_offsets (level_blocks level_fuel n) next).0
                >>= finish)
              (omega (arith, job.offset_fits))
            ∙ ap (λ t. t >>= finish) g.returns
            ∙ ap (λ t. t >>= λ root. ok (root, g.file)) g.root,
        g.outside,
      )

  -- On a well-formed job (`IsJob`) the formatter succeeds. The root hash is the root of the digest
  -- tree over the data blocks of the file, no byte is changed but in the hash area, and the first
  -- block of that area holds the superblock.
  pub format-root :
      (g : File) × (format_verity_hash_tree h parse_uuid f p
        ≡ ok (merkle_root h p.salt level_fuel p.data_blocks (block_at f 0), g))
      × ((i : ℕ) → IsElsewhere i → g.byte i ≡ f.byte i)
      × ((i : ℕ) → i < 4096 → g.byte (p.hash_offset + i) ≡ superblock_byte job.uuid_bytes p i)
  format-root =
      let (g, e, same) = tree_over-ok in
      let blocks : (k : ℕ) → k < p.data_blocks → block_at with_superblock 0 k ≡ block_at f 0 k =
        λ k lt.
          tabulate-ext 4096 _ _
            (λ i hi. with_superblock_byte _ (inl (omega (arith, job.behind)))) in
      (
        g,
        format_reduces
            ∙ ap (map_err (λ _. read_error)) e
            ∙ ap (λ root. ok (root, g))
                (merkle_root-ext h p.salt level_fuel p.data_blocks _ _ job.some_data blocks),
        λ i out.
            same i (omega (arith, out, end_after))
            ∙ with_superblock_byte i (omega (arith, out, end_after)),
        λ i lt. same (p.hash_offset + i) (inl (omega arith)) ∙ with_superblock_inside i lt,
      )
