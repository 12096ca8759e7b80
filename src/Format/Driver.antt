-- ===== src/Format/Driver.antt =====
-- FormatVerityHashTree: the guards, the superblock, the levels, and the root hash.
pub mod Merkle
pub mod Run
pub mod Device
use modelwrap.Prelude.{
  ℕ, zero, suc, ◌+◌, ◌-◌, ◌*◌, ◌/◌, ◌%◌, ◌^◌, Bool, not, List, [], ◌∷◌, ◌++◌, Bytes, length, ltb,
  leb, ◌==◌, Option, Result, ok, err, ◌>>=◌, ◌>>◌, refuse_if, map_err, u64_mod,
}
use modelwrap.Verity.{Sha256, max_hash_offset}
use modelwrap.Disk.{File, IoError, read_at, write_at}
use modelwrap.Format.Geometry.{level_blocks, level_offsets, level_fuel}
use modelwrap.Format.Level.{verity_hash_level}
use modelwrap.Format.Superblock.{
  VerityFormatParams, FormatError, salt_too_long, too_many_blocks, unaligned_hash_offset,
  empty_data, overlap, file_too_small, negative_offset, read_error, verity_superblock,
}

-- `for i := range levelBlocks`: hashes each level over the one below, and ends with the offset of
-- the top block.
unfoldable pub hash_levels :
    Sha256 → Bytes → File → ℕ → ℕ → List (ℕ × ℕ) → Result IoError (File × ℕ)
hash_levels h salt f src_off src_blocks [] = ok (f, src_off)
hash_levels h salt f src_off src_blocks ((blocks, offset) ∷ levels) = do
  f' ← verity_hash_level h salt src_off src_blocks offset f
  hash_levels h salt f' offset blocks levels

-- The root hash: the salted digest of the top block.
unfoldable pub root_of : Sha256 → Bytes → File → ℕ → Result IoError Bytes
root_of h salt f src_off = do top ← read_at f src_off 4096; ok (h.sum (salt ++ top))

-- The guards before the file is opened.
unfoldable pub check_params : VerityFormatParams → Result FormatError (Unit {0})
check_params p = do
  refuse_if (ltb 256 (length p.salt)) (salt_too_long (length p.salt))
  refuse_if (p.data_blocks == 0) empty_data
  refuse_if (ltb (max_hash_offset / 4096) p.data_blocks) (too_many_blocks p.data_blocks)
  refuse_if (not (p.hash_offset % 4096 == 0)) (unaligned_hash_offset p.hash_offset)
  refuse_if (ltb p.hash_offset (p.data_blocks * 4096 % u64_mod))
      (overlap p.hash_offset p.data_blocks)

-- The file with the superblock; an offset beyond int64 is negative there, and refused by WriteAt.
unfoldable pub write_superblock : File → ℕ → Bytes → Result FormatError File
write_superblock f hash_offset sb =
    refuse_if (leb (2 ^ 63) hash_offset) negative_offset >> ok (write_at f hash_offset sb)

unfoldable pub tree_over : Sha256 → VerityFormatParams → File → Result IoError (Bytes × File)
unfolding hash_levels root_of
tree_over h p f = do
  let levels =
      (level_offsets (level_blocks level_fuel p.data_blocks) ((p.hash_offset + 4096) % u64_mod)).0
  done ← hash_levels h p.salt f 0 p.data_blocks levels
  root ← root_of h p.salt done.0 done.1
  ok (root, done.0)

-- The root hash, and the file afterwards.
unfoldable pub format_verity_hash_tree :
    Sha256 → (Bytes → Option Bytes) → File → VerityFormatParams → Result FormatError (Bytes × File)
format_verity_hash_tree h parse_uuid f p = do
  check_params p
  sb ← verity_superblock parse_uuid p
  refuse_if (ltb f.size (p.data_blocks * 4096 % u64_mod)) (file_too_small f.size p.data_blocks)
  g ← write_superblock f p.hash_offset sb
  map_err (λ _. read_error) (tree_over h p g)
