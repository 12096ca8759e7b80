-- ===== src/Format/Level/Pool.antt =====
-- The goroutines of verityHashLevel: any number of workers, any interleaving of what they do. A
-- worker claims the next task by the atomic counter, reads its source, and writes its output. An error of the
-- device ends the worker, and the first one is kept.
pub mod Upkeep
pub mod Hashed
pub mod Progress
use modelwrap.Prelude.{
  ℕ, suc, ◌≡◌, ◌≢◌, ◌≤◌, ◌<◌, Bytes, arith, ok, err, Option, none, some, ◌==◌, if◌then◌else◌,
}
use modelwrap.Verity.{Sha256}
use modelwrap.Disk.{File, IoError, Device}
use modelwrap.Format.Geometry.{task_of, task_count}
use modelwrap.Format.Level.{task_output, load_task, store_task}

-- Where a worker stands in its loop.
pub data Phase : Type 0 where
  idle stopped : Phase
  claimed : ℕ → Phase
  loaded : ℕ → Bytes → Phase

pub record Pool : Type 0 where
  pub next_task : ℕ
  pub phase : ℕ → Phase
  pub file : File
  pub first_err : Option IoError

abbrev pub assign : (ℕ → Phase) → ℕ → Phase → ℕ → Phase
assign phase w p v = if v == w then p else phase v

-- `errOnce.Do`: the first error stays.
abbrev pub note_err : Option IoError → IoError → Option IoError
note_err none e = some e
note_err (some first) e = some first

module _ (dev : Device) (h : Sha256) (salt : Bytes) (src_off n dst_off workers : ℕ) where
  pub data Step : Pool → Pool → Type 0 where
    claim :
        (s : Pool) (w : ℕ)
        → w < workers
        → s.phase w ≡ idle
        → s.next_task < task_count n
        → Step s (record s {
          next_task = suc s.next_task;
          phase = assign s.phase w (claimed s.next_task);
        })
    stop :
        (s : Pool) (w : ℕ)
        → w < workers
        → s.phase w ≡ idle
        → task_count n ≤ s.next_task
        → Step s (record s { next_task = suc s.next_task; phase = assign s.phase w stopped })
    load :
        (s : Pool) (w t : ℕ) (src : Bytes)
        → w < workers
        → s.phase w ≡ claimed t
        → load_task dev s.file src_off (task_of n t) ≡ ok src
        → Step s (record s {
          phase = assign s.phase w (loaded t (task_output h salt (task_of n t) src));
        })
    load_error :
        (s : Pool) (w t : ℕ) (e : IoError)
        → w < workers
        → s.phase w ≡ claimed t
        → load_task dev s.file src_off (task_of n t) ≡ err e
        → Step s (record s { phase = assign s.phase w stopped; first_err = note_err s.first_err e })
    store :
        (s : Pool) (w t : ℕ) (dst : Bytes)
        → w < workers
        → s.phase w ≡ loaded t dst
        → (store_task dev s.file dst_off (task_of n t) dst).1 ≡ none
        → Step s (record s {
          phase = assign s.phase w idle;
          file = (store_task dev s.file dst_off (task_of n t) dst).0;
        })
    store_error :
        (s : Pool) (w t : ℕ) (dst : Bytes) (e : IoError)
        → w < workers
        → s.phase w ≡ loaded t dst
        → (store_task dev s.file dst_off (task_of n t) dst).1 ≡ some e
        → Step s (record s {
          phase = assign s.phase w stopped;
          file = (store_task dev s.file dst_off (task_of n t) dst).0;
          first_err = note_err s.first_err e;
        })

  pub data Reach (s : Pool) : Pool → Type 0 where
    here : Reach s s
    next : {t u : Pool} → Reach s t → Step t u → Reach s u

abbrev pub start : File → Pool
start f = record { next_task = 0; phase = λ w. idle; file = f; first_err = none }

pub assign_self : (phase : ℕ → Phase) (w : ℕ) (p : Phase) → assign phase w p w ≡ p
assign_self phase w p = ground arith

pub assign_other : (phase : ℕ → Phase) (w v : ℕ) (p : Phase) → v ≢ w → assign phase w p v ≡ phase v
assign_other phase w v p ne = ground arith
