-- ===== src/Shared.antt =====
-- Runs of Pack and Delete on one revision at the same time: wrap/wrap.go and wrap/delete.go on top of
-- the artifact lock. Each system call that changes a published file is a step of its own, and a process
-- can stop between any two.
pub mod Inv
pub mod Commit
pub mod Runs
pub mod Refines
pub mod Delivered
use modelwrap.Prelude.{
  ℕ, suc, assign, ◌≡◌, ◌<◌, ◌^◌, Bool, true, false, List, [], Bytes, itoa, get_elem?, Option, none,
  some, ok,
}
use modelwrap.Disk.{File}
use modelwrap.Lock
use modelwrap.Schema.{PackSchema}
use modelwrap.Artifacts.{
  Dir, absent, file, Faults, Suffix, mpk, info, emwp, emwp_info, schema, put, WrapError,
  check_existing_artifacts, backfill_schema_sidecar, write_staged, rename_mwp,
}
use modelwrap.Artifacts.Deletion.{removal_order, remove_one}
use modelwrap.Build.{build_mwp}
use modelwrap.Pack.{Tools, Request, bytes_of}

-- Where a process stands in its work under the lock: the check has found nothing; the sidecar is
-- published; the image is published; there is a complete set; so many files are removed.
pub data Job : Type 0 where
  unstarted : Job
  checked settled removing : ℕ → Job
  labelled imaged : ℕ → Bytes → Bytes → Job

pub record World : Type 0 where
  pub lock : Lock.State
  pub dir : Dir
  pub job : ℕ → Job

-- The work goes on behind a step without an error.
abbrev pub unless_failed : Option WrapError → Job → Job
unless_failed none next = next
unless_failed (some e) next = unstarted

-- Behind a change that may have failed.
abbrev pub behind : World → ℕ → Dir × Option WrapError → Job → World
behind s w r next = record s { dir = r.0; job = assign s.job w (unless_failed r.1 next) }

abbrev pub IsWorking : Job → Type 0
IsWorking unstarted = ⊥
IsWorking _ = Unit

module _ (t : Tools) where
  -- An image and a reference that buildMWP returns under a schema.
  pub record IsBuilt (id : ℕ) (mwp ref : Bytes) : Type 0 where
    pub under : PackSchema
    pub request : Request
    pub image : File
    pub built : File
    pub same_id : under.id ≡ id
    pub made : t.mkfs under (under.mkfs_args request.model [] request.model_dir) ≡ some image
    pub returned : build_mwp t.sha256 t.uuids request.model t.num_cpu image ≡ ok (built, ref)
    pub bytes : bytes_of built ≡ mwp

  pub data Step : World → World → Type 0 where
    -- A step of acquireArtifactLock, the release, or the unlinking, that takes the lock from no process
    -- at work.
    locking :
        (s : World) (l : Lock.State)
        → Lock.Step s.lock l
        → ((v : ℕ) → IsWorking (s.job v) → (i : ℕ) × (l.phase v ≡ Lock.acquired i))
        → Step s (record s { lock = l })
    -- A process dies at work; the system gives up its lock.
    crash :
        (s : World) (w i : ℕ)
        → s.lock.phase w ≡ Lock.acquired i
        → Step s (record s {
          lock = record s.lock {
            owner = assign s.lock.owner i none;
            phase = assign s.lock.phase w Lock.idle;
          };
          job = assign s.job w unstarted;
        })
    -- The work is done, or fails between two changes.
    finish : (s : World) (w : ℕ) → Step s (record s { job = assign s.job w unstarted })
    begin_build :
        (s : World) (w i id : ℕ)
        → s.lock.phase w ≡ Lock.acquired i
        → s.job w ≡ unstarted
        → 0 < id
        → id < 2 ^ 63
        → check_existing_artifacts s.dir id ≡ ok false
        → Step s (record s { job = assign s.job w (checked id) })
    reuse :
        (s : World) (w i id : ℕ) (f : Faults)
        → s.lock.phase w ≡ Lock.acquired i
        → s.job w ≡ unstarted
        → 0 < id
        → id < 2 ^ 63
        → check_existing_artifacts s.dir id ≡ ok true
        → Step s (behind s w (backfill_schema_sidecar f s.dir id) (settled id))
    -- The three changes of publishArtifacts.
    label :
        (s : World) (w i id : ℕ) (f : Faults) (mwp ref : Bytes)
        → s.lock.phase w ≡ Lock.acquired i
        → s.job w ≡ checked id
        → IsBuilt id mwp ref
        → Step s (behind s w (write_staged f s.dir schema (itoa id)) (labelled id mwp ref))
    place_image :
        (s : World) (w i id : ℕ) (f : Faults) (mwp ref : Bytes)
        → s.lock.phase w ≡ Lock.acquired i
        → s.job w ≡ labelled id mwp ref
        → Step s (behind s w (rename_mwp f mwp s.dir) (imaged id mwp ref))
    place_info :
        (s : World) (w i id : ℕ) (f : Faults) (mwp ref : Bytes)
        → s.lock.phase w ≡ Lock.acquired i
        → s.job w ≡ imaged id mwp ref
        → Step s (behind s w (write_staged f s.dir info ref) (settled id))
    -- The two changes of Pack for an encrypted artifact.
    place_emwp :
        (s : World) (w i id : ℕ) (b : Bytes)
        → s.lock.phase w ≡ Lock.acquired i
        → s.job w ≡ settled id
        → s.dir.emwp_file ≡ absent
        → Step s (record s { dir = put s.dir emwp (file b) })
    place_emwp_info :
        (s : World) (w i id : ℕ) (f : Faults) (text : Bytes)
        → s.lock.phase w ≡ Lock.acquired i
        → s.job w ≡ settled id
        → Step s (behind s w (write_staged f s.dir emwp_info text) (settled id))
    begin_delete :
        (s : World) (w i : ℕ)
        → s.lock.phase w ≡ Lock.acquired i
        → s.job w ≡ unstarted
        → Step s (record s { job = assign s.job w (removing 0) })
    -- The next removal of Delete, which goes on behind a failure; the info file can be removed.
    remove :
        (s : World) (w i k : ℕ) (suffix : Suffix) (fails : Suffix → Bool)
        → s.lock.phase w ≡ Lock.acquired i
        → s.job w ≡ removing k
        → get_elem? removal_order k ≡ some suffix
        → fails info ≡ false
        → Step s (record s {
          dir = (remove_one fails suffix (s.dir, [])).0;
          job = assign s.job w (removing (suc k));
        })

  pub data Reach (s : World) : World → Type 0 where
    here : Reach s s
    next : {u v : World} → Reach s u → Step u v → Reach s v

-- No process has started.
abbrev pub start : Option ℕ → ℕ → Dir → World
start path next_inode d = record {
  lock = Lock.start path next_inode;
  dir = d;
  job = λ w. unstarted;
}
