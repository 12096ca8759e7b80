-- ===== src/Disk/Laws.antt =====
-- What a read gives and what a write leaves, byte by byte.
use mathlib.Core.Path.{fun_ext}
use modelwrap.Prelude.{
  ℕ, ◌+◌, ◌-◌, ◌≤◌, ◌<◌, ◌≡◌, ◌&&◌, Bytes, arith, length, get_or, ok, err, none, some, take,
  Bool-cases, Option-cases, inl, inr, Result, ltb, leb, if◌then◌else◌,
}
use mathlib.Core.Path.{subst}
use modelwrap.Disk.{
  File, IoError, read_fault, write_fault, Device, IsFault, read_at, write_at, read_from, write_to,
  max_size,
}
use modelwrap.Disk.Tabulate.{tabulate}

-- There is nothing behind the end of a file.
abbrev pub IsClean : File → Type 0
IsClean f = (i : ℕ) → f.size ≤ i → f.byte i ≡ 0

pub read_at_inside :
    (f : File) (off n : ℕ)
    → off + n ≤ f.size
    → read_at f off n ≡ ok (tabulate n (λ i. f.byte (off + i)))
unfolding read_at
read_at_inside f off n h = ground arith

pub write_at_byte :
    (f : File) (off : ℕ) (b : Bytes) (i : ℕ)
    → IsClean f
    → (write_at f off b).byte i
      ≡ (if leb off i && ltb i (off + length b) then get_or b (i - off) 0 else f.byte i)
unfolding write_at
write_at_byte f off b i clean = ground (arith, clean i)

pub write_at_size :
    (f : File) (off : ℕ) (b : Bytes)
    → 0 < length b
    → (write_at f off b).size ≡ max_size f.size (off + length b)
unfolding write_at
write_at_size f off b h = ground arith

pub write_at-IsClean : (f : File) (off : ℕ) (b : Bytes) → IsClean f → IsClean (write_at f off b)
unfolding write_at
write_at-IsClean f off b clean i h = ground (arith, clean i)

-- Two files with one size and the same bytes are one.
pub file_ext : (f g : File) → f.size ≡ g.size → ((i : ℕ) → f.byte i ≡ g.byte i) → f ≡ g
file_ext f g s b = λ i. record { size = s i; byte = fun_ext b i }

-- A read gives what is there, or an error of the device.
pub read_from_ok :
    (dev : Device) (f : File) (off n : ℕ) (b : Bytes)
    → read_from dev f off n ≡ ok b
    → read_at f off n ≡ ok b
unfolding read_from
read_from_ok dev f off n b h = ground arith

pub read_from-IsFault :
    (dev : Device) (f : File) (off n : ℕ) (b : Bytes) (e : IoError)
    → read_at f off n ≡ ok b
    → read_from dev f off n ≡ err e
    → IsFault dev e
unfolding read_from
read_from-IsFault dev f off n b e good h = elim (Bool-cases (dev.read_fails off n)) [
  | inl fails ↦
      let k : ◌≡◌ {A = Result IoError Bytes} (err (read_fault off)) (err e) = ground arith in
      let same : read_fault off ≡ e = cc k in subst (IsFault dev) same (n, fails)
  | inr reads ↦ absurd (ground (arith, good))
]

-- A write without an error is the whole write; with one it is a part of it, and the device's fault.
pub write_to_ok :
    (dev : Device) (f : File) (off : ℕ) (b : Bytes)
    → (write_to dev f off b).1 ≡ none
    → (write_to dev f off b).0 ≡ write_at f off b
unfolding write_to
write_to_ok dev f off b h = ground arith

pub write_to_failed :
    (dev : Device) (f : File) (off : ℕ) (b : Bytes) (e : IoError)
    → (write_to dev f off b).1 ≡ some e
    → (k : ℕ) × IsFault dev e × ((write_to dev f off b).0 ≡ write_at f off (take k b))
unfolding write_to
write_to_failed dev f off b e h = elim (Option-cases (dev.write_stops off (length b))) [
  | inl quiet_here ↦ absurd (ground arith)
  | inr (k, stops) ↦ (
    k,
    let r : some (write_fault off) ≡ some e = ground arith in
        let same : write_fault off ≡ e = cc r in subst (IsFault dev) same (length b, k, stops),
    ground arith,
  )
]
