-- ===== src/Format/Geometry.antt =====
-- The sizes and places of the levels of a hash tree, with 64-bit arithmetic written out.
pub mod Tasks
pub mod Levels
use modelwrap.Prelude.{
  ℕ, zero, suc, ◌+◌, ◌-◌, ◌*◌, ◌/◌, ◌%◌, min, List, [], ◌∷◌, Bool, ltb, if◌then◌else◌, u64_mod,
}

abbrev pub verity_digest_size : ℕ
verity_digest_size = 32

-- VerityHashBlockSize / verityDigestSize
abbrev pub verity_digests_per_block : ℕ
verity_digests_per_block = 128

abbrev pub verity_task_hash_blocks : ℕ
verity_task_hash_blocks = 16

-- `(n + d - 1) / d` in uint64; no caller has n = d = 0.
unfoldable pub ceil_div : ℕ → ℕ → ℕ
ceil_div n d = ((n + d - 1) % u64_mod) / d

-- `for n := p.DataBlocks; n > 1; n = ceilDiv(n, 128)`: each round has a smaller `n`, and 64 rounds
-- are more than any uint64 needs.
unfoldable pub level_blocks : ℕ → ℕ → List ℕ
unfolding ceil_div
level_blocks zero n = []
level_blocks (suc fuel) n =
    let m = ceil_div n verity_digests_per_block in
    let rest = m ∷ level_blocks fuel m in if ltb 1 n then rest else []

abbrev pub level_fuel : ℕ
level_fuel = 64

-- `for i := len(levelBlocks) - 1; i >= 0; i--`: each level beside its offset, and the running `next`
-- behind the lowest level. The last level of the list is placed first.
unfoldable pub level_offsets : List ℕ → ℕ → List (ℕ × ℕ) × ℕ
level_offsets [] next = ([], next)
level_offsets (blocks ∷ rest) next =
    let (levels, here) = level_offsets rest next in
    ((blocks, here) ∷ levels, (here + blocks * 4096) % u64_mod)

-- What one worker computes from the number of its task.
pub record Task : Type 0 where
  pub dst_start : ℕ
  pub n_dst : ℕ
  pub src_start : ℕ
  pub n_src : ℕ

unfoldable pub task_count : ℕ → ℕ
unfolding ceil_div
task_count src_blocks =
    ceil_div (ceil_div src_blocks verity_digests_per_block) verity_task_hash_blocks

-- A difference in uint64.
abbrev pub sub64 : ℕ → ℕ → ℕ
sub64 a b = (a + u64_mod - b) % u64_mod

unfoldable pub task_of : ℕ → ℕ → Task
unfolding ceil_div
task_of src_blocks t =
    let dst_blocks = ceil_div src_blocks verity_digests_per_block in
    let dst_start = t * verity_task_hash_blocks % u64_mod in
    let n_dst = min verity_task_hash_blocks (sub64 dst_blocks dst_start) in
    let src_start = dst_start * verity_digests_per_block % u64_mod in
    record {
      dst_start = dst_start;
      n_dst = n_dst;
      src_start = src_start;
      n_src = min (n_dst * verity_digests_per_block % u64_mod) (sub64 src_blocks src_start);
    }
