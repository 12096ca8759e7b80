-- ===== src/Format/Superblock.antt =====
-- veritySuperblock: the on-disk superblock, little-endian, padded to a hash block.
use modelwrap.Prelude.{
  ℕ, zero, suc, ◌+◌, ◌-◌, ◌/◌, ◌%◌, ◌^◌, [], ◌∷◌, ◌++◌, Bytes, codes, length, get_or, ltb, leb,
  ◌&&◌, if◌then◌else◌, Option, none, some, Result, ok, err,
}
use modelwrap.Verity.{
  verity_format, verity_hash_algorithm, verity_data_block_size, verity_hash_block_size,
}
use modelwrap.Disk.Tabulate.{tabulate}

pub record VerityFormatParams : Type 0 where
  pub salt : Bytes
  pub uuid : Bytes
  pub data_blocks : ℕ
  pub hash_offset : ℕ
  pub workers : ℕ

pub data FormatError : Type 0 where
  salt_too_long too_many_blocks unaligned_hash_offset : ℕ → FormatError
  empty_data : FormatError
  overlap : ℕ → ℕ → FormatError
  bad_uuid : Bytes → FormatError
  file_too_small : ℕ → ℕ → FormatError
  negative_offset read_error : FormatError

-- `binary.LittleEndian.PutUint16` and its like, with the number of bytes.
abbrev pub le_bytes : ℕ → ℕ → Bytes
le_bytes zero v = []
le_bytes (suc n) v = v % 256 ∷ le_bytes n (v / 256)

-- `copy(sb[off:...], src)` on a buffer given by its bytes.
abbrev pub copy_at : ℕ → Bytes → (ℕ → ℕ) → ℕ → ℕ
copy_at off src buf i =
    if leb off i && ltb i (off + length src) then get_or src (i - off) 0 else buf i

unfoldable pub superblock_byte : Bytes → VerityFormatParams → ℕ → ℕ
superblock_byte u p = copy_at 88 p.salt (
    copy_at 80 (le_bytes 2 (length p.salt % 2 ^ 16)) (
      copy_at 72 (le_bytes 8 p.data_blocks) (
        copy_at 68 (le_bytes 4 verity_hash_block_size) (
          copy_at 64 (le_bytes 4 verity_data_block_size) (
            copy_at 32 verity_hash_algorithm (
              copy_at 16 u (
                copy_at 12 (le_bytes 4 verity_format) (
                  copy_at 8 (le_bytes 4 1)
                    (copy_at 0 (codes "verity" ++ (0 ∷ 0 ∷ [])) (λ i. 0))))))))))

-- `uuid.Parse` is a parameter: the 16 bytes of a UUID, or nothing.
unfoldable pub verity_superblock :
    (Bytes → Option Bytes) → VerityFormatParams → Result FormatError Bytes
unfolding superblock_byte
verity_superblock parse_uuid p = elim (parse_uuid p.uuid) [
  | none ↦ err (bad_uuid p.uuid)
  | some u ↦ ok (tabulate verity_hash_block_size (superblock_byte u p))
]
