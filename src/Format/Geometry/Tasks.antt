-- ===== src/Format/Geometry/Tasks.antt =====
-- The tasks of a level split its blocks without overlap, and nothing wraps around.
use modelwrap.Prelude.{ℕ, ◌+◌, ◌*◌, ◌/◌, ◌^◌, ◌≡◌, ◌≤◌, ◌<◌, min, arith}
use modelwrap.Format.Geometry.{ceil_div, task_count, task_of}

-- The largest data area in blocks, maxHashOffset / VerityDataBlockSize.
abbrev pub max_blocks : ℕ
max_blocks = 2 ^ 50

-- Blocks in the level above `n` blocks.
abbrev pub blocks_above : ℕ → ℕ
blocks_above n = (n + 127) / 128

pub ceil_div_digests : (n : ℕ) → n ≤ max_blocks → ceil_div n 128 ≡ blocks_above n
unfolding ceil_div
ceil_div_digests n h = omega arith

pub task_count_lem : (n : ℕ) → n ≤ max_blocks → task_count n ≡ (blocks_above n + 15) / 16
unfolding task_count
task_count_lem n h = omega arith

-- What a task covers, in whole numbers.
pub record IsShare (n t : ℕ) : Type 0 where
  pub starts : (task_of n t).dst_start ≡ t * 16
  pub reads_from : (task_of n t).src_start ≡ t * 2048
  pub some_dst : 0 < (task_of n t).n_dst
  pub some_src : 0 < (task_of n t).n_src
  pub dst_end : t * 16 + (task_of n t).n_dst ≡ min (t * 16 + 16) (blocks_above n)
  pub src_end : t * 2048 + (task_of n t).n_src ≡ min (t * 2048 + 2048) n
  pub src_fits : (task_of n t).n_src ≤ (task_of n t).n_dst * 128

-- Task `t` of a level over at most 2^50 blocks covers hash blocks from 16 t up to 16 more or the
-- last, reads the source blocks from 2048 t up to 2048 more or the last, and neither is empty: nothing
-- wraps around, and the digests fit the hash blocks.
pub task_of-IsShare : (n t : ℕ) → n ≤ max_blocks → t < task_count n → IsShare n t
unfolding task_of task_count
task_of-IsShare n t h lt = omega arith
