-- ===== src/Disk.antt =====
-- An open file as the program sees it through ReadAt, WriteAt and Stat: its size and its bytes, and the
-- device below it, whose reads and writes can fail. A read past the end of the file is an error, as in
-- Go.
pub mod Tabulate
pub mod Laws
use modelwrap.Prelude.{
  ℕ, ◌+◌, ◌-◌, ◌≤◌, ◌<◌, ◌≡◌, Bool, true, false, take, Option, none, some, ◌&&◌, ◌||◌, Bytes,
  length, get_or, Result, ok, err, ltb, leb, ◌==◌, if◌then◌else◌,
}
use modelwrap.Disk.Tabulate.{tabulate}

pub record File : Type 0 where
  pub size : ℕ
  pub byte : ℕ → ℕ

-- The offset at which the device failed is part of the error.
pub data IoError : Type 0 where
  eof : IoError
  read_fault write_fault : ℕ → IoError

-- Which reads fail, by their offset and length; and which writes stop with an error, behind how many
-- bytes.
pub record Device : Type 0 where
  pub read_fails : ℕ → ℕ → Bool
  pub write_stops : ℕ → ℕ → Option ℕ

-- An error for which the device has a reason.
abbrev pub IsFault : Device → IoError → Type 0
IsFault dev eof = ⊥
IsFault dev (read_fault off) = (n : ℕ) × (dev.read_fails off n ≡ true)
IsFault dev (write_fault off) = (n : ℕ) × (k : ℕ) × (dev.write_stops off n ≡ some k)

abbrev pub quiet : Device
quiet = record { read_fails = λ off n. false; write_stops = λ off n. none }

abbrev pub max_size : ℕ → ℕ → ℕ
max_size a b = if ltb a b then b else a

-- `f.ReadAt(buf, off)` with a buffer of `n` bytes.
unfoldable pub read_at : File → ℕ → ℕ → Result IoError Bytes
read_at f off n =
    if n == 0 || leb (off + n) f.size then ok (tabulate n (λ i. f.byte (off + i))) else err eof

-- `f.WriteAt(b, off)`; a gap behind the old end reads as zeros.
unfoldable pub write_at : File → ℕ → Bytes → File
write_at f off b = if length b == 0 then f else record {
  size = max_size f.size (off + length b);
  byte = λ i.
      if leb off i && ltb i (off + length b)
      then get_or b (i - off) 0
      else if ltb i f.size
      then f.byte i
      else 0;
}

-- The same calls where the device may fail.
unfoldable pub read_from : Device → File → ℕ → ℕ → Result IoError Bytes
read_from dev f off n = if dev.read_fails off n then err (read_fault off) else read_at f off n

unfoldable pub write_to : Device → File → ℕ → Bytes → File × Option IoError
write_to dev f off b = elim (dev.write_stops off (length b)) [
  | none ↦ (write_at f off b, none)
  | some k ↦ (write_at f off (take k b), some (write_fault off))
]
