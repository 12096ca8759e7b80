-- ===== src/Format/Level/Pool/Progress.antt =====
-- On a device that does not fail, the workers can finish a level.
use native.Mathlib.Decide.{ℕ_discrete}
use modelwrap.Prelude.{ℕ, zero, suc, ◌≡◌, ◌≤◌, ◌<◌, refl, ap, ◌∙◌, arith, ok, none, Bytes}
use modelwrap.Verity.{Sha256}
use modelwrap.Disk.{File, quiet, read_from, write_to}
use modelwrap.Format.Geometry.{task_of, task_count}
use modelwrap.Format.Level.{task_output, read_task, load_task, store_task}
use modelwrap.Format.Level.Kept.{IsLevel, Kept, source, read_task-Kept}
use modelwrap.Format.Level.Pool.{
  Pool, idle, stopped, claimed, loaded, assign, assign_self, assign_other, start, claim, stop, load,
  store, Reach, here, next,
}
use modelwrap.Format.Level.Pool.Upkeep.{Inv-start}
use modelwrap.Format.Level.Pool.Hashed.{Inv-Reach}

module _ (h : Sha256) (salt : Bytes) (src_off n dst_off workers : ℕ) (f₀ : File)
    (lv : IsLevel f₀ src_off n dst_off) (some_worker : 0 < workers) where
  -- A run behind which `t` tasks are handed out, and the workers from `k` on are idle.
  pub record Ready (t k : ℕ) : Type 0 where
    pub pool : Pool
    pub run : Reach quiet h salt src_off n dst_off workers (start f₀) pool
    pub no_err : pool.first_err ≡ none
    pub handed : t ≤ pool.next_task
    pub exact : k ≡ 0 → t ≡ pool.next_task
    pub over : (w : ℕ) → w < k → pool.phase w ≡ stopped
    pub free : (w : ℕ) → k ≤ w → pool.phase w ≡ idle

  Ready-start : Ready 0 0
  Ready-start = record {
    pool = start f₀;
    run = here;
    no_err = refl;
    handed = omega arith;
    exact = λ e. refl;
    over = λ w lt. absurd (omega arith);
    free = λ w le. refl;
  }

  loads :
      (f : File) (t : ℕ)
      → Kept h salt src_off n dst_off f₀ lv f
      → t < task_count n
      → load_task quiet f src_off (task_of n t) ≡ ok (source h salt src_off n dst_off f₀ lv t)
  unfolding load_task read_from read_task
  loads f t k ht = read_task-Kept h salt src_off n dst_off f₀ lv f t k ht

  stores :
      (f : File) (t : ℕ) (dst : Bytes) → (store_task quiet f dst_off (task_of n t) dst).1 ≡ none
  unfolding store_task write_to
  stores f t dst = refl

  -- The first worker does the next task.
  Ready-task : (t : ℕ) → t < task_count n → Ready t 0 → Ready (suc t) 0
  Ready-task t ht r =
      let s = r.pool in
      let t' = s.next_task in
      let same : t ≡ t' = r.exact refl in
      let s1 : Pool = record s { next_task = suc t'; phase = assign s.phase 0 (claimed t') } in
      let run1 = next r.run (claim s 0 some_worker (r.free 0 (omega arith)) (omega arith)) in
      let at1 : s1.phase 0 ≡ claimed t' = assign_self s.phase 0 (claimed t') in
      let kept =
        (Inv-Reach quiet h salt src_off n dst_off workers f₀ lv run1
          (Inv-start quiet h salt src_off n dst_off workers f₀ lv)).kept in
      let src = source h salt src_off n dst_off f₀ lv t' in
      let dst = task_output h salt (task_of n t') src in
      let s2 : Pool = record s1 { phase = assign s1.phase 0 (loaded t' dst) } in
      let run2 =
        next run1 (load s1 0 t' src some_worker at1 (loads s1.file t' kept (omega arith))) in
      let at2 : s2.phase 0 ≡ loaded t' dst = assign_self s1.phase 0 (loaded t' dst) in
      record {
        pool = record s2 {
          phase = assign s2.phase 0 idle;
          file = (store_task quiet s2.file dst_off (task_of n t') dst).0;
        };
        run = next run2 (store s2 0 t' dst some_worker at2 (stores s2.file t' dst));
        no_err = r.no_err;
        handed = omega arith;
        exact = λ e. omega arith;
        over = λ w lt. absurd (omega arith);
        free = λ w le. elim (ℕ_discrete w 0) [
          | yes e ↦ ap (assign s2.phase 0 idle) e ∙ assign_self s2.phase 0 idle
          | no ne ↦
              assign_other s2.phase 0 w idle ne
              ∙ assign_other s1.phase 0 w (loaded t' dst) ne
              ∙ assign_other s.phase 0 w (claimed t') ne
              ∙ r.free w le
        ];
      }

  Ready-tasks : (t : ℕ) → t ≤ task_count n → Ready t 0
  Ready-tasks zero le = Ready-start
  Ready-tasks (suc t) le = Ready-task t (omega arith) (Ready-tasks t (omega arith))

  -- Then one worker after the other stops.
  Ready-stopped : (k : ℕ) → k ≤ workers → Ready (task_count n) k
  Ready-stopped zero le = Ready-tasks (task_count n) (omega arith)
  Ready-stopped (suc k) le =
      let r = Ready-stopped k (omega arith) in
      let s = r.pool in
      record {
        pool = record s { next_task = suc s.next_task; phase = assign s.phase k stopped };
        run = next r.run (stop s k (omega arith) (r.free k (omega arith)) r.handed);
        no_err = r.no_err;
        handed = omega (arith, r.handed);
        exact = λ e. absurd (omega arith);
        over = λ w lt. elim (ℕ_discrete w k) [
          | yes e ↦ ap (assign s.phase k stopped) e ∙ assign_self s.phase k stopped
          | no ne ↦ assign_other s.phase k w stopped ne ∙ r.over w (omega arith)
        ];
        free =
            λ w below. assign_other s.phase k w stopped (λ e. omega arith) ∙ r.free w (omega arith);
      }

  pub all_stop : Ready (task_count n) workers
  all_stop = Ready-stopped workers (omega arith)
