-- ===== src/Format/Driver/Device/Quiet.antt =====
-- FormatVerityHashTree on a device that does not fail.
use native.Mathlib.Decide.{dec_lt}
use mathlib.Core.Path.{subst}
use modelwrap.Prelude.{
  ℕ, zero, suc, ◌+◌, ◌%◌, ◌^◌, ◌≡◌, ◌≤◌, ◌<◌, ◌↔◌, inr, refl, sym, ◌∙◌, ◌++◌, Bytes, arith, Option,
  none, Result, ok, u64_mod,
}
use modelwrap.Verity.{Sha256}
use modelwrap.Disk.{File, quiet, read_from, write_to}
use modelwrap.Format.Geometry.{level_blocks, level_offsets, level_fuel}
use modelwrap.Format.Geometry.Tasks.{blocks_above}
use modelwrap.Format.Geometry.Levels.{level_blocks_step, level_blocks_done, levels_end}
use modelwrap.Format.Level.Kept.{IsLevel, hashed}
use modelwrap.Format.Level.Pool.Hashed.{pool-hashed}
use modelwrap.Format.Level.Pool.Progress.{all_stop}
use modelwrap.Format.Superblock.{VerityFormatParams}
use modelwrap.Format.Driver.{format_verity_hash_tree}
use modelwrap.Format.Driver.Run.Levels.{IsReady, spot, step_IsLevel, grown, grown-IsReady}
use modelwrap.Format.Driver.Run.Format.{IsJob, superblock, with_superblock, with_superblock-IsReady}
use modelwrap.Format.Driver.Device.{
  LevelRun, LevelsRun, level_workers, worker_count, TreeRun, FormatRun, formatted,
}
use modelwrap.Format.Driver.Device.Levels.{level_workers_some}
use modelwrap.Format.Driver.Device.Outcome.{prepared, some_workers, top_there, format-IsReported}

module _ (h : Sha256) (salt : Bytes) (workers : ℕ) (some_worker : 0 < workers) where
  level_run :
      (f : File) (src_off n dst_off : ℕ)
      → IsLevel f src_off n dst_off
      → LevelRun quiet h salt workers f src_off n dst_off (hashed h salt src_off n dst_off f) none
  level_run f src_off n dst_off lv =
      let some_of = level_workers_some quiet h salt workers some_worker f src_off n dst_off lv in
      let r = all_stop h salt src_off n dst_off (level_workers workers n) f lv some_of in
      let (_, _, left) =
        pool-hashed quiet h salt src_off n dst_off (level_workers workers n) f lv r.pool some_of
          r.run r.over in
      record {
        pool = r.pool;
        run = r.run;
        waited = r.over;
        leaves = left r.no_err;
        reports = r.no_err;
      }

  levels_done :
      (fuel : ℕ) (f : File) (src_off n next : ℕ)
      → n ≤ 1
      → LevelsRun quiet h salt workers
          (level_offsets (level_blocks fuel n) next).0
          f
          src_off
          n
          f
          (ok src_off)
  unfolding LevelsRun level_offsets
  levels_done fuel f src_off n next le =
      subst
        (λ bs. LevelsRun quiet h salt workers (level_offsets bs next).0 f src_off n f (ok src_off))
        (sym (level_blocks_done fuel n le)) (refl, refl)

  levels_more :
      (fuel : ℕ) (f : File) (src_off n next : ℕ) (more : 1 < n)
      (ready : IsReady h salt (suc fuel) f src_off n next) (g : File) (top : ℕ)
      → LevelsRun quiet h salt workers
          (level_offsets (level_blocks fuel (blocks_above n)) next).0
          (grown h salt fuel f src_off n next more ready)
          (spot h salt fuel f src_off n next more ready)
          (blocks_above n)
          g
          (ok top)
      → LevelsRun quiet h salt workers
          (level_offsets (level_blocks (suc fuel) n) next).0
          f
          src_off
          n
          g
          (ok top)
  unfolding LevelsRun level_offsets spot levels_end grown
  levels_more fuel f src_off n next more ready g top rest =
      subst (λ bs. LevelsRun quiet h salt workers (level_offsets bs next).0 f src_off n g (ok top))
        (sym (level_blocks_step fuel n more ready.few_blocks))
        (inr (
          grown h salt fuel f src_off n next more ready,
          level_run f src_off n (spot h salt fuel f src_off n next more ready)
              (step_IsLevel h salt fuel f src_off n next more ready),
          rest,
        ))

  levels_exist :
      (fuel : ℕ) (f : File) (src_off n next : ℕ)
      → IsReady h salt fuel f src_off n next
      → (g : File) × (top : ℕ) × LevelsRun quiet h salt workers
          (level_offsets (level_blocks fuel n) next).0
          f
          src_off
          n
          g
          (ok top)
  levels_exist zero f src_off n next ready = (
    f,
    src_off,
    levels_done zero f src_off n next (let e : n ≤ 128 ^ 0 = ready.enough_fuel in omega arith),
  )
  levels_exist (suc fuel) f src_off n next ready = elim (dec_lt 1 n) [
    | no done ↦ (f, src_off, levels_done (suc fuel) f src_off n next (omega arith))
    | yes more ↦
        let (g, top, rest) =
          levels_exist fuel (grown h salt fuel f src_off n next more ready)
            (spot h salt fuel f src_off n next more ready) (blocks_above n) next
            (grown-IsReady h salt fuel f src_off n next more ready) in
        (g, top, levels_more fuel f src_off n next more ready g top rest)
  ]

module _ (h : Sha256) (procs : ℕ) (some_proc : 0 < procs) (parse_uuid : Bytes → Option Bytes)
    (p : VerityFormatParams) (f : File) (job : IsJob parse_uuid f p) where
  tree_exists :
      (g : File) × (top : ℕ) × TreeRun quiet h procs parse_uuid p f
        (superblock h parse_uuid f p job)
        g
        (ok top)
  unfolding write_to with_superblock
  tree_exists =
      let wraps : (p.hash_offset + 4096) % u64_mod ≡ p.hash_offset + 4096 =
        omega (arith, job.offset_fits) in
      let (g, top, run) =
        levels_exist h p.salt (worker_count procs p.workers)
          (some_workers quiet h procs some_proc parse_uuid p f job) level_fuel
          (with_superblock h parse_uuid f p job) 0 p.data_blocks (p.hash_offset + 4096)
          (with_superblock-IsReady h parse_uuid f p job) in
      (
        g,
        top,
        (
          prepared quiet h procs some_proc parse_uuid p f job,
          ground (arith, job.data_exists, job.data_fits),
          omega (arith, job.offset_fits),
          refl,
          subst
              (λ next.
                LevelsRun quiet h p.salt (worker_count procs p.workers)
                  (level_offsets (level_blocks level_fuel p.data_blocks) next).0
                  (with_superblock h parse_uuid f p job) 0 p.data_blocks g (ok top))
              (sym wraps) run,
        ),
      )

  run_exists : (g : File) × (root : Bytes) × FormatRun quiet h procs parse_uuid p f g (ok root)
  unfolding read_from
  run_exists =
      let (g, top, run) = tree_exists in
      let sb = superblock h parse_uuid f p job in
      let (block, there) = top_there quiet h procs some_proc parse_uuid p f job sb g top run in
      (g, h.sum (p.salt ++ block), formatted sb g top block run there)

  -- On a well-formed job (`IsJob`) and a device that does not fail, with any number of workers: the
  -- formatter as a function returns a root hash and a file exactly where some run of the concurrent one,
  -- up to the return behind Sync, returns that root hash and leaves that file.
  pub format_verity_hash_tree_iff :
      (root : Bytes) (g : File)
      → (format_verity_hash_tree h parse_uuid f p ≡ ok (root, g))
        ↔ FormatRun quiet h procs parse_uuid p f g (ok root)
  format_verity_hash_tree_iff root g = (
    λ e.
        let (g', root', run) = run_exists in
        let same =
          (format-IsReported quiet h procs some_proc parse_uuid p f job run).1 root' refl in
        let two : ◌≡◌ {A = Result _ (Bytes × File)} (ok (root', g')) (ok (root, g)) =
          sym same ∙ e in
        let roots : root' ≡ root = cc two in
        let files : g' ≡ g = cc two in
        subst (λ x. FormatRun quiet h procs parse_uuid p f x (ok root)) files
          (subst (λ x. FormatRun quiet h procs parse_uuid p f g' (ok x)) roots run),
    λ run. (format-IsReported quiet h procs some_proc parse_uuid p f job run).1 root refl,
  )
