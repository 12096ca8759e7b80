-- ===== src/Format/Driver/Device.antt =====
-- FormatVerityHashTree on a device whose calls can fail, with the goroutines of each level. What it can
-- do to a file is a relation, since the workers may run in any order.
pub mod Levels
pub mod Outcome
pub mod Quiet
use modelwrap.Prelude.{
  ℕ, ◌+◌, ◌*◌, ◌%◌, ◌^◌, ◌≡◌, ◌≤◌, ◌<◌, ◌⊎◌, Bool, true, false, List, [], ◌∷◌, ◌++◌, Bytes, ltb,
  ◌==◌, if◌then◌else◌, Option, none, some, Result, ok, err, ◌>>=◌, ◌>>◌, u64_mod,
}
use modelwrap.Verity.{Sha256}
use modelwrap.Disk.{File, IoError, Device, read_from, write_to}
use modelwrap.Format.Geometry.{level_blocks, level_offsets, level_fuel, task_count}
use modelwrap.Format.Level.Pool.{Pool, stopped, Reach, start}
use modelwrap.Format.Superblock.{
  VerityFormatParams, FormatError, file_too_small, negative_offset, verity_superblock,
}
use modelwrap.Format.Driver.{check_params}

pub data DeviceError : Type 0 where
  refused : FormatError → DeviceError
  open_failed stat_failed sync_failed : DeviceError
  io_failed : IoError → DeviceError

-- `workers <= 0` asks for GOMAXPROCS, and a level has no more workers than tasks.
abbrev pub worker_count : ℕ → ℕ → ℕ
worker_count procs workers = if workers == 0 then procs else workers

abbrev pub level_workers : ℕ → ℕ → ℕ
level_workers workers n = if ltb (task_count n) workers then task_count n else workers

module _ (dev : Device) (h : Sha256) (salt : Bytes) (workers : ℕ) where
  -- A run of verityHashLevel, up to the return behind `wg.Wait`.
  pub record LevelRun (f : File) (src_off n dst_off : ℕ) (g : File) (o : Option IoError)
      : Type 0 where
    pub pool : Pool
    pub run : Reach dev h salt src_off n dst_off (level_workers workers n) (start f) pool
    pub waited : (w : ℕ) → w < level_workers workers n → pool.phase w ≡ stopped
    pub leaves : pool.file ≡ g
    pub reports : pool.first_err ≡ o

  -- The loop over the levels, which returns at the first error; or the offset of the top block.
  unfoldable pub LevelsRun : List (ℕ × ℕ) → File → ℕ → ℕ → File → Result IoError ℕ → Type 0
  LevelsRun [] f src_off n g r = (g ≡ f) × (r ≡ ok src_off)
  LevelsRun ((blocks, offset) ∷ levels) f src_off n g r =
      ((e : IoError) × LevelRun f src_off n offset g (some e) × (r ≡ err e))
      ⊎ ((u : File) × LevelRun f src_off n offset u none × LevelsRun levels u offset blocks g r)

module _ (dev : Device) (h : Sha256) (procs : ℕ) (parse_uuid : Bytes → Option Bytes)
    (p : VerityFormatParams) (f : File) where
  -- What is refused before the file is opened; or the superblock.
  abbrev pub before_open : Result FormatError Bytes
  before_open = check_params p >> verity_superblock parse_uuid p

  abbrev pub data_end : ℕ
  data_end = p.data_blocks * 4096 % u64_mod

  abbrev pub placed : List (ℕ × ℕ)
  placed =
      (level_offsets (level_blocks level_fuel p.data_blocks) ((p.hash_offset + 4096) % u64_mod)).0

  -- The levels over a file with the superblock.
  abbrev pub TreeRun : Bytes → File → Result IoError ℕ → Type 0
  TreeRun sb g r =
      (before_open ≡ ok sb)
      × (ltb f.size data_end ≡ false)
      × (p.hash_offset < 2 ^ 63)
      × ((write_to dev f p.hash_offset sb).1 ≡ none)
      × LevelsRun dev h p.salt (worker_count procs p.workers) placed
          (write_to dev f p.hash_offset sb).0 0 p.data_blocks g r

  -- The file and the value or error at each return.
  pub data FormatRun : File → Result DeviceError Bytes → Type 0 where
    not_started : (e : FormatError) → before_open ≡ err e → FormatRun f (err (refused e))
    not_opened : (sb : Bytes) → before_open ≡ ok sb → FormatRun f (err open_failed)
    no_stat : (sb : Bytes) → before_open ≡ ok sb → FormatRun f (err stat_failed)
    too_small :
        (sb : Bytes)
        → before_open ≡ ok sb
        → ltb f.size data_end ≡ true
        → FormatRun f (err (refused (file_too_small f.size p.data_blocks)))
    negative :
        (sb : Bytes)
        → before_open ≡ ok sb
        → ltb f.size data_end ≡ false
        → 2 ^ 63 ≤ p.hash_offset
        → FormatRun f (err (refused negative_offset))
    no_superblock :
        (sb : Bytes) (e : IoError)
        → before_open ≡ ok sb
        → ltb f.size data_end ≡ false
        → p.hash_offset < 2 ^ 63
        → (write_to dev f p.hash_offset sb).1 ≡ some e
        → FormatRun (write_to dev f p.hash_offset sb).0 (err (io_failed e))
    no_level :
        (sb : Bytes) (g : File) (e : IoError)
        → TreeRun sb g (err e)
        → FormatRun g (err (io_failed e))
    no_root :
        (sb : Bytes) (g : File) (src_off : ℕ) (e : IoError)
        → TreeRun sb g (ok src_off)
        → read_from dev g src_off 4096 ≡ err e
        → FormatRun g (err (io_failed e))
    not_synced :
        (sb : Bytes) (g : File) (src_off : ℕ) (top : Bytes)
        → TreeRun sb g (ok src_off)
        → read_from dev g src_off 4096 ≡ ok top
        → FormatRun g (err sync_failed)
    formatted :
        (sb : Bytes) (g : File) (src_off : ℕ) (top : Bytes)
        → TreeRun sb g (ok src_off)
        → read_from dev g src_off 4096 ≡ ok top
        → FormatRun g (ok (h.sum (p.salt ++ top)))
