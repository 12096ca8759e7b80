-- ===== src/Format/Level/Sequential.antt =====
-- One worker that takes the tasks in order writes the level.
use modelwrap.Prelude.{ℕ, zero, suc, ◌+◌, ◌≡◌, ◌<◌, ap, Bytes, arith, ok}
use mathlib.Core.Path.{subst}
use native.Mathlib.Decide.{dec_lt}
use modelwrap.Verity.{Sha256}
use modelwrap.Disk.{File}
use modelwrap.Format.Geometry.{task_count}
use modelwrap.Format.Level.{run_tasks, verity_hash_level}
use modelwrap.Format.Level.Kept.{
  IsLevel, Kept, Done, Kept-start, hashed, read_task-Kept, Kept-after, Done-after, Done-after_self,
  hashed_of_Done, output, after,
}

module _ (h : Sha256) (salt : Bytes) (src_off n dst_off : ℕ) (f₀ : File)
    (lv : IsLevel f₀ src_off n dst_off) where
  Done-next :
      (f : File) (t : ℕ)
      → Kept h salt src_off n dst_off f₀ lv f
      → t < task_count n
      → ((u : ℕ) → u < t → Done h salt src_off n dst_off f₀ lv u f)
      → (u : ℕ) → u < suc t
      → Done h salt src_off n dst_off f₀ lv u (after h salt src_off n dst_off f₀ lv t f)
  Done-next f t k ht done u lt = elim (dec_lt u t) [
    | yes below ↦ Done-after h salt src_off n dst_off f₀ lv f t u k ht (omega arith) (done u below)
    | no at ↦
        subst
          (λ v. Done h salt src_off n dst_off f₀ lv v (after h salt src_off n dst_off f₀ lv t f))
          (omega arith) (Done-after_self h salt src_off n dst_off f₀ lv f t k ht)
  ]

  run_tasks-hashed :
      (rounds t : ℕ) (f : File)
      → t + rounds ≡ task_count n
      → Kept h salt src_off n dst_off f₀ lv f
      → ((u : ℕ) → u < t → Done h salt src_off n dst_off f₀ lv u f)
      → run_tasks h salt src_off n dst_off rounds t f ≡ ok (hashed h salt src_off n dst_off f₀)
  unfolding run_tasks output
  run_tasks-hashed zero t f e k done =
      ap ok (hashed_of_Done h salt src_off n dst_off f₀ lv f k (λ u lt. done u (omega arith)))
  run_tasks-hashed (suc rounds) t f e k done =
      let ht : t < task_count n = omega arith in
      rw (read_task-Kept h salt src_off n dst_off f₀ lv f t k ht) (
        run_tasks-hashed rounds (suc t) (after h salt src_off n dst_off f₀ lv t f) (omega arith)
          (Kept-after h salt src_off n dst_off f₀ lv f t k ht) (Done-next f t k ht done))

  -- Hashing a level within its bounds (`IsLevel`) does not fail, and leaves exactly the level:
  -- each byte of the destination is the digest byte or the padding that belongs there, and no
  -- other byte changes.
  pub verity_hash_level-hashed :
      verity_hash_level h salt src_off n dst_off f₀ ≡ ok (hashed h salt src_off n dst_off f₀)
  unfolding verity_hash_level
  verity_hash_level-hashed =
      run_tasks-hashed (task_count n) 0 f₀ (omega arith) (Kept-start h salt src_off n dst_off f₀ lv)
        (λ u lt. absurd (omega arith))
