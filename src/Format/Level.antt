-- ===== src/Format/Level.antt =====
-- verityHashLevel: one level of the tree, hashed by tasks that own disjoint ranges of hash blocks.
pub mod Share
pub mod Kept
pub mod Faults
pub mod Pool
pub mod Sequential
use modelwrap.Prelude.{
  ℕ, zero, suc, ◌+◌, ◌-◌, ◌*◌, ◌%◌, List, [], ◌∷◌, ◌++◌, Bytes, take, drop, replicate, Result, ok,
  Option, err, ◌>>=◌, u64_mod,
}
use modelwrap.Verity.{Sha256}
use modelwrap.Disk.{File, IoError, Device, read_at, write_at, read_from, write_to}
use modelwrap.Format.Geometry.{Task, task_of, task_count}

-- The inner loop: the salted digests of the first `n` blocks of `src`, one behind the other.
unfoldable pub digest_blocks : Sha256 → Bytes → ℕ → Bytes → Bytes
digest_blocks h salt zero src = []
digest_blocks h salt (suc n) src =
    h.sum (salt ++ take 4096 src) ++ digest_blocks h salt n (drop 4096 src)

-- The hash blocks of a task: the digests, with zeros up to the end of the last block.
unfoldable pub task_output : Sha256 → Bytes → Task → Bytes → Bytes
unfolding digest_blocks
task_output h salt k src =
    digest_blocks h salt k.n_src src ++ replicate (k.n_dst * 4096 - k.n_src * 32) 0

-- What a worker reads for a task, and where it writes.
unfoldable pub read_task : File → ℕ → Task → Result IoError Bytes
read_task f src_off k = read_at f ((src_off + k.src_start * 4096) % u64_mod) (k.n_src * 4096)

unfoldable pub write_task : File → ℕ → Task → Bytes → File
write_task f dst_off k dst = write_at f ((dst_off + k.dst_start * 4096) % u64_mod) dst

-- The same where the device may fail.
unfoldable pub load_task : Device → File → ℕ → Task → Result IoError Bytes
load_task dev f src_off k =
    read_from dev f ((src_off + k.src_start * 4096) % u64_mod) (k.n_src * 4096)

unfoldable pub store_task : Device → File → ℕ → Task → Bytes → File × Option IoError
store_task dev f dst_off k dst = write_to dev f ((dst_off + k.dst_start * 4096) % u64_mod) dst

-- The tasks from `t` on, by a single worker: `tasks` rounds are left.
unfoldable pub run_tasks : Sha256 → Bytes → ℕ → ℕ → ℕ → ℕ → ℕ → File → Result IoError File
unfolding task_output read_task write_task task_of
run_tasks h salt src_off src_blocks dst_off zero t f = ok f
run_tasks h salt src_off src_blocks dst_off (suc tasks) t f = do
  let k = task_of src_blocks t
  src ← read_task f src_off k
  run_tasks h salt src_off src_blocks dst_off tasks (suc t)
      (write_task f dst_off k (task_output h salt k src))

unfoldable pub verity_hash_level : Sha256 → Bytes → ℕ → ℕ → ℕ → File → Result IoError File
unfolding run_tasks task_count
verity_hash_level h salt src_off src_blocks dst_off f =
    run_tasks h salt src_off src_blocks dst_off (task_count src_blocks) 0 f
