-- ===== src/Format/Level/Faults.antt =====
-- The tasks of a level on a device that can fail: a read gives the source or an error, and a write that
-- stops has written a part of what belongs there.
use modelwrap.Prelude.{
  ℕ, ◌+◌, ◌*◌, ◌%◌, ◌≡◌, ◌≤◌, ◌<◌, sym, ◌∙◌, Bytes, arith, length, take, length-take, ok, err, none,
  some, u64_mod,
}
use mathlib.Core.Path.{subst}
use modelwrap.Verity.{Sha256}
use modelwrap.Disk.{File, IoError, Device, IsFault, write_at}
use modelwrap.Disk.Laws.{
  write_at_byte, write_at-IsClean, read_from_ok, read_from-IsFault, write_to_ok, write_to_failed,
}
use modelwrap.Format.Geometry.{task_of, task_count}
use modelwrap.Format.Geometry.Tasks.{blocks_above, task_of-IsShare}
use modelwrap.Format.Level.{read_task, write_task, load_task, store_task}
use modelwrap.Format.Level.Kept.{
  IsLevel, Kept, source, output, length-output, after, read_task-Kept, window_out,
}

module _ (h : Sha256) (salt : Bytes) (src_off n dst_off : ℕ) (f₀ : File)
    (lv : IsLevel f₀ src_off n dst_off) (dev : Device) where
  -- A write into the level.
  Kept-write :
      (f : File) (off : ℕ) (b : Bytes)
      → dst_off ≤ off
      → off + length b ≤ dst_off + blocks_above n * 4096
      → Kept h salt src_off n dst_off f₀ lv f
      → Kept h salt src_off n dst_off f₀ lv (write_at f off b)
  Kept-write f off b lo hi k = record {
    clean = write_at-IsClean f off b k.clean;
    not_shorter = unfold write_at in ground (arith, k.not_shorter);
    not_longer = unfold write_at in ground (arith, k.not_longer, hi);
    outside = λ i out.
        write_at_byte f off b i k.clean
        ∙ window_out off i (off + length b) _ _ (omega (arith, lo, hi, out))
        ∙ k.outside i out;
  }

  pub load_ok :
      (f : File) (t : ℕ) (src : Bytes)
      → Kept h salt src_off n dst_off f₀ lv f
      → t < task_count n
      → load_task dev f src_off (task_of n t) ≡ ok src
      → src ≡ source h salt src_off n dst_off f₀ lv t
  unfolding load_task read_task
  load_ok f t src k ht e =
      let all = read_task-Kept h salt src_off n dst_off f₀ lv f t k ht in
      let given = read_from_ok dev f _ _ src e in cc (all, given)

  pub load_failed :
      (f : File) (t : ℕ) (e : IoError)
      → Kept h salt src_off n dst_off f₀ lv f
      → t < task_count n
      → load_task dev f src_off (task_of n t) ≡ err e
      → IsFault dev e
  unfolding load_task read_task
  load_failed f t e k ht failed =
      read_from-IsFault dev f _ _ (source h salt src_off n dst_off f₀ lv t) e
        (read_task-Kept h salt src_off n dst_off f₀ lv f t k ht) failed

  pub store_ok :
      (f : File) (t : ℕ)
      → (store_task dev f dst_off (task_of n t) (output h salt src_off n dst_off f₀ lv t)).1 ≡ none
      → (store_task dev f dst_off (task_of n t) (output h salt src_off n dst_off f₀ lv t)).0
        ≡ after h salt src_off n dst_off f₀ lv t f
  unfolding store_task write_task
  store_ok f t e = write_to_ok dev f _ (output h salt src_off n dst_off f₀ lv t) e

  -- A write that fails keeps what is outside the level, and is the device's fault.
  pub store_failed :
      (f : File) (t : ℕ) (e : IoError)
      → Kept h salt src_off n dst_off f₀ lv f
      → t < task_count n
      → (store_task dev f dst_off (task_of n t) (output h salt src_off n dst_off f₀ lv t)).1
        ≡ some e
      → IsFault dev e
        × Kept h salt src_off n dst_off f₀ lv
            (store_task dev f dst_off (task_of n t) (output h salt src_off n dst_off f₀ lv t)).0
  unfolding store_task
  store_failed f t e k ht failed =
      let out = output h salt src_off n dst_off f₀ lv t in
      let s = task_of-IsShare n t lv.few_blocks ht in
      let (m, fault, left) = write_to_failed dev f _ out e failed in
      let spot : (dst_off + (task_of n t).dst_start * 4096) % u64_mod ≡ dst_off + t * 65536 =
        omega (arith, s.starts, s.dst_end, s.some_dst, lv.dst_fits) in
      let fits : length (take m out) ≤ (task_of n t).n_dst * 4096 =
        omega (arith, length-take m out, length-output h salt src_off n dst_off f₀ lv t ht) in
      (
        fault,
        subst (Kept h salt src_off n dst_off f₀ lv) (sym left) (
            Kept-write f _ (take m out) (omega (arith, spot)) (omega (arith, spot, fits, s.dst_end))
              k),
      )
