-- ===== src/Format/Driver/Device/Levels.antt =====
-- The loop over the levels on a device that can fail.
use native.Mathlib.Decide.{dec_lt}
use mathlib.Core.Path.{subst}
use modelwrap.Prelude.{
  ℕ, zero, suc, ◌≡◌, ◌≤◌, ◌<◌, ◌^◌, ◌⊎◌, inl, inr, refl, sym, ap, ◌∙◌, Bytes, arith, none, some,
  Option, Result, ok, err, ◌>>=◌,
}
use modelwrap.Verity.{Sha256}
use modelwrap.Disk.{File, IoError, Device, IsFault}
use modelwrap.Format.Geometry.{level_blocks, level_offsets, task_count}
use modelwrap.Format.Geometry.Tasks.{blocks_above, task_count_lem}
use modelwrap.Format.Geometry.Levels.{level_blocks_step, level_blocks_done, levels_end}
use modelwrap.Format.Level.Kept.{IsLevel, Kept, hashed}
use modelwrap.Format.Level.Pool.Hashed.{pool-hashed}
use modelwrap.Format.Level.Sequential.{verity_hash_level-hashed}
use modelwrap.Format.Driver.{hash_levels}
use modelwrap.Format.Driver.Run.Levels.{
  IsReady, levels_run, levels_run_step, spot, spot_bounds, end_is, step_IsLevel, grown,
  grown-IsReady, hashed_byte_out,
}
use modelwrap.Format.Driver.Device.{LevelRun, LevelsRun, level_workers}

module _ (dev : Device) (h : Sha256) (salt : Bytes) (workers : ℕ) (some_worker : 0 < workers) where
  -- What a run over the levels leaves: nothing has changed but in them; a success is the one of a single
  -- worker without failures; and an error is the device's fault.
  pub record Outcome (fuel : ℕ) (f : File) (src_off n next : ℕ) (g : File) (r : Result IoError ℕ)
      : Type 0 where
    pub outside : (i : ℕ) → (i < next) ⊎ (levels_end fuel n next ≤ i) → g.byte i ≡ f.byte i
    pub same : (top : ℕ) → r ≡ ok top → levels_run h salt fuel f src_off n next ≡ ok (g, top)
    pub faulty : (e : IoError) → r ≡ err e → IsFault dev e

  pub level_workers_some :
      (f : File) (src_off n dst_off : ℕ) → IsLevel f src_off n dst_off → 0 < level_workers workers n
  level_workers_some f src_off n dst_off lv =
      let count = task_count_lem n lv.few_blocks in
      let pos_tasks : 0 < task_count n = omega (arith, count, lv.some_blocks) in
      ground (arith, some_worker)

  -- One level.
  level_outcome :
      (f : File) (src_off n dst_off : ℕ) (g : File) (o : Option IoError)
      (lv : IsLevel f src_off n dst_off)
      → LevelRun dev h salt workers f src_off n dst_off g o
      → Kept h salt src_off n dst_off f lv g
        × ((e : IoError) → o ≡ some e → IsFault dev e)
        × (o ≡ none → g ≡ hashed h salt src_off n dst_off f)
  level_outcome f src_off n dst_off g o lv l =
      let (kept, faulty, all) =
        pool-hashed dev h salt src_off n dst_off (level_workers workers n) f lv l.pool
          (level_workers_some f src_off n dst_off lv) l.run l.waited in
      (
        subst (Kept h salt src_off n dst_off f lv) l.leaves kept,
        λ e is. faulty e (l.reports ∙ is),
        λ is. sym l.leaves ∙ all (l.reports ∙ is),
      )

  Outcome-done :
      (fuel : ℕ) (f : File) (src_off n next : ℕ) (g : File) (r : Result IoError ℕ)
      → n ≤ 1
      → LevelsRun dev h salt workers (level_offsets (level_blocks fuel n) next).0 f src_off n g r
      → Outcome fuel f src_off n next g r
  unfolding LevelsRun levels_run hash_levels level_offsets
  Outcome-done fuel f src_off n next g r le run =
      let (same_file, same_top) =
        subst (λ bs. LevelsRun dev h salt workers (level_offsets bs next).0 f src_off n g r)
          (level_blocks_done fuel n le) run in
      record {
        outside = λ i out. ap (λ (k : File). k.byte i) same_file;
        same = λ top e.
            let one : src_off ≡ top = cc (same_top, e) in
            ap (λ bs. hash_levels h salt f src_off n (level_offsets bs next).0)
              (level_blocks_done fuel n le)
            ∙ ap (λ t. ok (f, t)) one
            ∙ ap (λ k. ok (k, top)) (sym same_file);
        faulty = λ e is. cc (is, same_top);
      }

  module _ (fuel : ℕ) (f : File) (src_off n next : ℕ) (more : 1 < n)
      (ready : IsReady h salt (suc fuel) f src_off n next) where
    at : ℕ
    at = spot h salt fuel f src_off n next more ready

    -- The loop is cut off in this level.
    Outcome-failed :
        (g : File) (r : Result IoError ℕ) (e : IoError)
        → LevelRun dev h salt workers f src_off n at g (some e)
        → r ≡ err e
        → Outcome (suc fuel) f src_off n next g r
    unfolding at
    Outcome-failed g r e l is =
        let (kept, faulty, _) =
          level_outcome f src_off n at g (some e)
            (step_IsLevel h salt fuel f src_off n next more ready) l in
        let (lo, hi) = spot_bounds h salt fuel f src_off n next more ready in
        record {
          outside = λ i out.
              kept.outside i
                (omega (arith, out, lo, end_is h salt fuel f src_off n next more ready));
          same = λ top given. cc (is, given);
          faulty = λ x given. let one : e ≡ x = cc (is, given) in faulty x (ap some one);
        }

    -- The level is written, and the loop goes on.
    Outcome-step :
        (g : File) (r : Result IoError ℕ)
        → Outcome fuel (grown h salt fuel f src_off n next more ready) at (blocks_above n) next g r
        → Outcome (suc fuel) f src_off n next g r
    unfolding at grown spot
    Outcome-step g r rest =
        let (lo, hi) = spot_bounds h salt fuel f src_off n next more ready in
        record {
          outside = λ i out.
              rest.outside i
                (omega (arith, out, lo, end_is h salt fuel f src_off n next more ready))
              ∙ hashed_byte_out h salt f src_off n at i
                  (omega (arith, out, lo, end_is h salt fuel f src_off n next more ready));
          same = λ top is.
              levels_run_step h salt fuel f src_off n next more ready.few_blocks
              ∙ ap (λ t. t >>= λ f'. levels_run h salt fuel f' at (blocks_above n) next)
                  (verity_hash_level-hashed h salt src_off n at f
                    (step_IsLevel h salt fuel f src_off n next more ready))
              ∙ rest.same top is;
          faulty = rest.faulty;
        }

    -- The run of this level, and what comes behind it.
    split :
        (g : File) (r : Result IoError ℕ)
        → LevelsRun dev h salt workers
            (level_offsets (level_blocks (suc fuel) n) next).0
            f
            src_off
            n
            g
            r
        → ((e : IoError) × LevelRun dev h salt workers f src_off n at g (some e) × (r ≡ err e))
          ⊎ ((u : File) × LevelRun dev h salt workers f src_off n at u none
              × LevelsRun dev h salt workers
                  (level_offsets (level_blocks fuel (blocks_above n)) next).0
                  u
                  at
                  (blocks_above n)
                  g
                  r)
    unfolding LevelsRun level_offsets at spot levels_end
    split g r run =
        subst (λ bs. LevelsRun dev h salt workers (level_offsets bs next).0 f src_off n g r)
          (level_blocks_step fuel n more ready.few_blocks) run

    grown_after :
        (u : File)
        → LevelRun dev h salt workers f src_off n at u none
        → u ≡ grown h salt fuel f src_off n next more ready
    unfolding at grown spot
    grown_after u l =
        (level_outcome f src_off n at u none (step_IsLevel h salt fuel f src_off n next more ready)
            l).2
          refl

  pub levels_outcome :
      (fuel : ℕ) (f : File) (src_off n next : ℕ) (g : File) (r : Result IoError ℕ)
      → IsReady h salt fuel f src_off n next
      → LevelsRun dev h salt workers (level_offsets (level_blocks fuel n) next).0 f src_off n g r
      → Outcome fuel f src_off n next g r
  unfolding at
  levels_outcome zero f src_off n next g r ready run =
      Outcome-done zero f src_off n next g r
        (let e : n ≤ 128 ^ 0 = ready.enough_fuel in omega arith) run
  levels_outcome (suc fuel) f src_off n next g r ready run = elim (dec_lt 1 n) [
    | no done ↦ Outcome-done (suc fuel) f src_off n next g r (omega arith) run
    | yes more ↦ elim (split fuel f src_off n next more ready g r run) [
      | inl (e, l, is) ↦ Outcome-failed fuel f src_off n next more ready g r e l is
      | inr (u, l, rest) ↦ Outcome-step fuel f src_off n next more ready g r (
          levels_outcome fuel (grown h salt fuel f src_off n next more ready) _ (blocks_above n)
            next g r (grown-IsReady h salt fuel f src_off n next more ready)
            (subst
              (λ k.
                LevelsRun dev h salt workers
                  (level_offsets (level_blocks fuel (blocks_above n)) next).0 k
                  (at fuel f src_off n next more ready) (blocks_above n) g r)
              (grown_after fuel f src_off n next more ready u l) rest))
    ]
  ]
