-- ===== src/Format/Driver/Device/Outcome.antt =====
-- What FormatVerityHashTree leaves and reports on a device that can fail.
use mathlib.Core.Path.{subst}
use modelwrap.Prelude.{
  ℕ, ◌+◌, ◌%◌, ◌≡◌, ◌<◌, refl, sym, ap, ◌∙◌, Bytes, take, length, length-take, ◌++◌, arith, Option,
  some, Result, ok, err, ◌>>=◌, ◌>>◌, bind_ok, map_err, u64_mod,
}
use modelwrap.Verity.{Sha256}
use modelwrap.Disk.{File, IoError, Device, IsFault, read_at, write_at, read_from, write_to}
use modelwrap.Disk.Laws.{
  write_at_byte, read_from_ok, read_from-IsFault, write_to_ok, write_to_failed,
}
use modelwrap.Format.Geometry.{level_fuel, level_blocks, level_offsets}
use modelwrap.Format.Level.Kept.{window_out}
use modelwrap.Format.Superblock.{VerityFormatParams, FormatError, verity_superblock, read_error}
use modelwrap.Format.Driver.{hash_levels, root_of, tree_over, format_verity_hash_tree}
use modelwrap.Format.Driver.Run.Levels.{levels_run, levels_run-Gives}
use modelwrap.Format.Driver.Run.Format.{
  IsJob, IsElsewhere, superblock, check_params_ok, superblock_ok, format_reduces, length-superblock,
  with_superblock, with_superblock_byte, with_superblock-IsReady, end_after,
}
use modelwrap.Format.Driver.Device.{
  DeviceError, refused, io_failed, worker_count, LevelsRun, before_open, placed, TreeRun, FormatRun,
  not_started, not_opened, no_stat, too_small, negative, no_superblock, no_level, no_root,
  not_synced, formatted,
}
use modelwrap.Format.Driver.Device.Levels.{Outcome, levels_outcome}

module _ (dev : Device) (h : Sha256) (procs : ℕ) (some_proc : 0 < procs)
    (parse_uuid : Bytes → Option Bytes) (p : VerityFormatParams) (f : File)
    (job : IsJob parse_uuid f p) where
  abbrev pub base : File
  base = with_superblock h parse_uuid f p job

  pub some_workers : 0 < worker_count procs p.workers
  some_workers = ground (arith, some_proc)

  pub prepared : before_open dev h procs parse_uuid p f ≡ ok (superblock h parse_uuid f p job)
  prepared =
      ap (λ r. r >> verity_superblock parse_uuid p) (check_params_ok h parse_uuid f p job)
      ∙ superblock_ok h parse_uuid f p job

  the_superblock :
      (sb : Bytes)
      → before_open dev h procs parse_uuid p f ≡ ok sb
      → sb ≡ superblock h parse_uuid f p job
  the_superblock sb e = cc (e, prepared)

  tree :
      (sb : Bytes) (g : File) (r : Result IoError ℕ)
      → TreeRun dev h procs parse_uuid p f sb g r
      → Outcome dev h p.salt
          (worker_count procs p.workers)
          some_workers
          level_fuel
          base
          0
          p.data_blocks
          (p.hash_offset + 4096)
          g
          r
  unfolding with_superblock
  tree sb g r (is_sb, _, _, written, run) =
      let is = write_to_ok dev f p.hash_offset sb written in
      let start : (write_to dev f p.hash_offset sb).0 ≡ base =
        is ∙ ap (write_at f p.hash_offset) (the_superblock sb is_sb) in
      let wraps : (p.hash_offset + 4096) % u64_mod ≡ p.hash_offset + 4096 =
        omega (arith, job.offset_fits) in
      levels_outcome dev h p.salt (worker_count procs p.workers) some_workers level_fuel base 0
        p.data_blocks (p.hash_offset + 4096) g r (with_superblock-IsReady h parse_uuid f p job)
        (subst
          (λ next.
            LevelsRun dev h p.salt (worker_count procs p.workers)
              (level_offsets (level_blocks level_fuel p.data_blocks) next).0 base 0 p.data_blocks g
              r)
          wraps
          (subst
            (λ k.
              LevelsRun dev h p.salt (worker_count procs p.workers)
                (placed dev h procs parse_uuid p f) k 0 p.data_blocks g r)
            start run))

  tree_outside :
      (sb : Bytes) (g : File) (r : Result IoError ℕ)
      → TreeRun dev h procs parse_uuid p f sb g r
      → (i : ℕ) → IsElsewhere h parse_uuid f p job i
      → g.byte i ≡ f.byte i
  tree_outside sb g r run i out =
      (tree sb g r run).outside i (omega (arith, out))
      ∙ with_superblock_byte h parse_uuid f p job i
          (omega (arith, out, end_after h parse_uuid f p job))

  superblock_outside :
      (sb : Bytes) (e : IoError)
      → before_open dev h procs parse_uuid p f ≡ ok sb
      → (write_to dev f p.hash_offset sb).1 ≡ some e
      → (i : ℕ) → IsElsewhere h parse_uuid f p job i
      → (write_to dev f p.hash_offset sb).0.byte i ≡ f.byte i
  superblock_outside sb e is_sb failed i out =
      let (k, _, left) = write_to_failed dev f p.hash_offset sb e failed in
      let size : length sb ≡ 4096 =
        ap length (the_superblock sb is_sb) ∙ length-superblock h parse_uuid f p job in
      ap (λ (x : File). x.byte i) left
      ∙ write_at_byte f p.hash_offset (take k sb) i job.clean
      ∙ window_out p.hash_offset i (p.hash_offset + length (take k sb)) _ _
          (omega (arith, out, size, length-take k sb, end_after h parse_uuid f p job))

  -- The top block is there.
  pub top_there :
      (sb : Bytes) (g : File) (src_off : ℕ)
      → TreeRun dev h procs parse_uuid p f sb g (ok src_off)
      → (top : Bytes) × (read_at g src_off 4096 ≡ ok top)
  unfolding root_of
  top_there sb g src_off run =
      let gives =
        levels_run-Gives h p.salt level_fuel base 0 p.data_blocks (p.hash_offset + 4096)
          (with_superblock-IsReady h parse_uuid f p job) in
      let (top, _, there) =
        bind_ok (λ top. ok (h.sum (p.salt ++ top))) (read_at gives.file gives.top 4096) _
          gives.root in
      let same = (tree sb g (ok src_off) run).same src_off refl in
      let two : ◌≡◌ {A = Result IoError (File × ℕ)} (ok (gives.file, gives.top)) (ok (g, src_off)) =
        sym gives.returns ∙ same in
      let files : gives.file ≡ g = cc two in
      let tops : gives.top ≡ src_off = cc two in
      (
        top,
        ap (λ x. read_at x src_off 4096) (sym files)
            ∙ (ap (λ x. read_at gives.file x 4096) (sym tops) ∙ there),
      )

  formatted_same :
      (sb : Bytes) (g : File) (src_off : ℕ) (top : Bytes)
      → TreeRun dev h procs parse_uuid p f sb g (ok src_off)
      → read_from dev g src_off 4096 ≡ ok top
      → format_verity_hash_tree h parse_uuid f p ≡ ok (h.sum (p.salt ++ top), g)
  unfolding tree_over levels_run root_of
  formatted_same sb g src_off top run read =
      let finish : File × ℕ → Result IoError (Bytes × File) =
        λ done. root_of h p.salt done.0 done.1 >>= λ root. ok (root, done.0) in
      format_reduces h parse_uuid f p job
      ∙ ap (map_err (λ _. read_error)) (
          ap
            (λ next.
              hash_levels h p.salt base 0 p.data_blocks
                (level_offsets (level_blocks level_fuel p.data_blocks) next).0
              >>= finish)
            (omega (arith, job.offset_fits))
          ∙ ap (λ t. t >>= finish) ((tree sb g (ok src_off) run).same src_off refl)
          ∙ ap (λ t. (t >>= λ b. ok (h.sum (p.salt ++ b))) >>= λ root. ok (root, g))
              (read_from_ok dev g src_off 4096 top read))

  -- What holds at a return.
  abbrev pub IsReported : File → Result DeviceError Bytes → Type 0
  IsReported g r =
      ((i : ℕ) → IsElsewhere h parse_uuid f p job i → g.byte i ≡ f.byte i)
      × ((root : Bytes) → r ≡ ok root → format_verity_hash_tree h parse_uuid f p ≡ ok (root, g))
      × ((e : IoError) → r ≡ err (io_failed e) → IsFault dev e)
      × ((e : FormatError) → r ≡ err (refused e) → ⊥)

  -- On a well-formed job (`IsJob`), with any number of workers in any interleaving and with calls that
  -- fail anywhere: at every return of FormatVerityHashTree no byte has changed but in the hash area. A
  -- root hash is returned only where the file is the one of a run without failures, and it is that run's
  -- root hash; an error of a read or write is a fault of the device; and the parameters are not refused.
  pub format-IsReported :
      {g : File} {r : Result DeviceError Bytes}
      → FormatRun dev h procs parse_uuid p f g r
      → IsReported g r
  format-IsReported (not_started e is) = absurd (cc (is, prepared))
  format-IsReported (not_opened sb is) = (λ i out. refl, λ root x. cc, λ e x. cc, λ e x. cc)
  format-IsReported (no_stat sb is) = (λ i out. refl, λ root x. cc, λ e x. cc, λ e x. cc)
  format-IsReported (too_small sb is small) =
      absurd (ground (arith, small, job.data_exists, job.data_fits))
  format-IsReported (negative sb is _ beyond) = absurd (omega (arith, beyond, job.offset_fits))
  format-IsReported (no_superblock sb e is _ _ failed) = (
    superblock_outside sb e is failed,
    λ root x. cc,
    λ x given.
        let (_, fault, _) = write_to_failed dev f p.hash_offset sb e failed in
        let one : e ≡ x = cc given in subst (IsFault dev) one fault,
    λ x given. cc,
  )
  format-IsReported (no_level sb g e run) = (
    tree_outside sb g (err e) run,
    λ root x. cc,
    λ x given. let one : e ≡ x = cc given in (tree sb g (err e) run).faulty x (ap err one),
    λ x given. cc,
  )
  format-IsReported (no_root sb g src_off e run failed) = (
    tree_outside sb g (ok src_off) run,
    λ root x. cc,
    λ x given.
        let one : e ≡ x = cc given in
        let (top, there) = top_there sb g src_off run in
        subst (IsFault dev) one (read_from-IsFault dev g src_off 4096 top e there failed),
    λ x given. cc,
  )
  format-IsReported (not_synced sb g src_off top run read) =
      (tree_outside sb g (ok src_off) run, λ root x. cc, λ e x. cc, λ e x. cc)
  format-IsReported (formatted sb g src_off top run read) = (
    tree_outside sb g (ok src_off) run,
    λ root given.
        let one : h.sum (p.salt ++ top) ≡ root = cc given in
        formatted_same sb g src_off top run read ∙ ap (λ x. ok (x, g)) one,
    λ e x. cc,
    λ e x. cc,
  )
