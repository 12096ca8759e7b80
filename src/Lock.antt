-- ===== src/Lock.antt =====
-- wrap/wrap.go: acquireArtifactLock and its release, and the unlinking of the lock file by Delete,
-- as steps of any number of processes. An inode of the lock file is a number; a new file has a new
-- one. A wait for the lock is a step that is not taken yet.
pub mod Exclusion
pub mod Progress
use modelwrap.Prelude.{assign, ℕ, suc, ◌≡◌, ◌≢◌, Option, none, some, ◌==◌, if◌then◌else◌}

-- Where a process stands, and on which inode: its file is open, or locked but not yet compared with
-- the path; the lock is acquired; the path is unlinked and the lock not yet released.
pub data Phase : Type 0 where
  idle : Phase
  opened locked acquired unlinked : ℕ → Phase

pub record State : Type 0 where
  pub path : Option ℕ
  pub owner : ℕ → Option ℕ
  pub next_inode : ℕ
  pub phase : ℕ → Phase

pub data Step : State → State → Type 0 where
  -- `os.OpenFile` with O_CREATE, on a missing and on an existing file.
  create :
      (s : State) (w : ℕ)
      → s.phase w ≡ idle
      → s.path ≡ none
      → Step s (record s {
        path = some s.next_inode;
        next_inode = suc s.next_inode;
        phase = assign s.phase w (opened s.next_inode);
      })
  open_existing :
      (s : State) (w i : ℕ)
      → s.phase w ≡ idle
      → s.path ≡ some i
      → Step s (record s { phase = assign s.phase w (opened i) })
  -- `flock`, which succeeds where no one holds the lock.
  lock :
      (s : State) (w i : ℕ)
      → s.phase w ≡ opened i
      → s.owner i ≡ none
      → Step s (record s { owner = assign s.owner i (some w); phase = assign s.phase w (locked i) })
  -- `f.Close()` behind a failed `flock`.
  lock_failed :
      (s : State) (w i : ℕ)
      → s.phase w ≡ opened i
      → Step s (record s { phase = assign s.phase w idle })
  -- `os.SameFile(fi, pi)`
  same_file :
      (s : State) (w i : ℕ)
      → s.phase w ≡ locked i
      → s.path ≡ some i
      → Step s (record s { phase = assign s.phase w (acquired i) })
  -- `f.Close()` behind the comparison: a retry, or a failed `Stat`.
  close :
      (s : State) (w i : ℕ)
      → s.phase w ≡ locked i
      → Step s (record s { owner = assign s.owner i none; phase = assign s.phase w idle })
  release :
      (s : State) (w i : ℕ)
      → s.phase w ≡ acquired i
      → Step s (record s { owner = assign s.owner i none; phase = assign s.phase w idle })
  -- `os.Remove(base + ".lock")` in Delete, and the release behind it.
  unlink :
      (s : State) (w i : ℕ)
      → s.phase w ≡ acquired i
      → Step s (record s { path = none; phase = assign s.phase w (unlinked i) })
  release_unlinked :
      (s : State) (w i : ℕ)
      → s.phase w ≡ unlinked i
      → Step s (record s { owner = assign s.owner i none; phase = assign s.phase w idle })

pub data Reach (s : State) : State → Type 0 where
  here : Reach s s
  next : {t u : State} → Reach s t → Step t u → Reach s u

-- No process has started; there is a lock file or there is none.
abbrev pub start : Option ℕ → ℕ → State
start path next_inode = record {
  path = path;
  owner = λ i. none;
  next_inode = next_inode;
  phase = λ w. idle;
}
