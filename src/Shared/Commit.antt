-- ===== src/Shared/Commit.antt =====
-- What is reused, whoever has worked on the directory.
use mathlib.Core.Path.{subst}
use native.Mathlib.Decide.{ℕ_discrete}
use modelwrap.Prelude.{
  ℕ, suc, assign, assign_self, assign_other, ◌≡◌, ◌≢◌, refl, sym, ap, ◌∙◌, [], true, Bytes, itoa,
  Option, none, ok, arith,
}
use modelwrap.Lock
use modelwrap.Lock.Exclusion.{acquired_unique}
use modelwrap.Artifacts.{
  Dir, file, emwp, emwp_info, put, WrapError, check_existing_artifacts, backfill_schema_sidecar,
  write_staged, rename_mwp, schema, info,
}
use modelwrap.Artifacts.Reuse.{check_existing_artifacts_iff}
use modelwrap.Artifacts.Deletion.{remove_one}
use modelwrap.Pack.{Tools}
use modelwrap.Pack.Kept.{none_found}
use modelwrap.Shared.{
  Job, unstarted, checked, settled, removing, labelled, imaged, World, IsWorking, IsBuilt,
  unless_failed, behind, Step, locking, crash, finish, begin_build, reuse, label, place_image,
  place_info, place_emwp, place_emwp_info, begin_delete, remove, Reach, here, next, start,
}
use modelwrap.Shared.Inv.{
  Consistent, Consistent-same, Expects, Fine, Fine-staged, Fine-label, Fine-image, Fine-info,
  Fine-reuse, Fine-remove,
}

module _ (t : Tools) (path : Option ℕ) (first_inode : ℕ) where
  record Good (s : World) : Type 0 where
    lock_run : Lock.Reach (Lock.start path first_inode) s.lock
    holders : (v : ℕ) → IsWorking (s.job v) → (i : ℕ) × (s.lock.phase v ≡ Lock.acquired i)
    consistent : Consistent t s.dir
    expected : (v : ℕ) → Expects t s.dir (s.job v)

  Expects-idle : (d : Dir) (j : Job) → (IsWorking j → ⊥) → Expects t d j
  Expects-idle d unstarted h = tt
  Expects-idle d (checked id) h = absurd (h tt)
  Expects-idle d (labelled id mwp ref) h = absurd (h tt)
  Expects-idle d (imaged id mwp ref) h = absurd (h tt)
  Expects-idle d (settled id) h = absurd (h tt)
  Expects-idle d (removing k) h = absurd (h tt)

  -- A change by the process that has the lock.
  Good-work :
      (s : World) (w i : ℕ) (d : Dir) (job : ℕ → Job)
      → s.lock.phase w ≡ Lock.acquired i
      → ((v : ℕ) → v ≢ w → job v ≡ s.job v)
      → Fine t d (job w)
      → Good s
      → Good (record s { dir = d; job = job })
  Good-work s w i d job at others (good, expects) g = record {
    lock_run = g.lock_run;
    holders = λ v works. elim (ℕ_discrete v w) [
      | yes same ↦ (i, ap s.lock.phase same ∙ at)
      | no ne ↦ g.holders v (subst IsWorking (others v ne) works)
    ];
    consistent = good;
    expected = λ v. elim (ℕ_discrete v w) [
      | yes same ↦ subst (λ u. Expects t d (job u)) (sym same) expects
      | no ne ↦ Expects-idle d (job v) λ works.
          let (j, at') = g.holders v (subst IsWorking (others v ne) works) in
          ne (acquired_unique path first_inode s.lock v w j i g.lock_run at' at).0
    ];
  }

  Good-behind :
      (s : World) (w i : ℕ) (r : Dir × Option WrapError) (to : Job)
      → s.lock.phase w ≡ Lock.acquired i
      → Fine t r.0 (unless_failed r.1 to)
      → Good s
      → Good (behind s w r to)
  Good-behind s w i r to at fine g =
      Good-work s w i r.0 (assign s.job w (unless_failed r.1 to)) at
        (λ v ne. assign_other s.job w v (unless_failed r.1 to) ne)
        (subst (Fine t r.0) (sym (assign_self s.job w (unless_failed r.1 to))) fine) g

  -- A step that changes only what a process is at.
  Good-job :
      (s : World) (w i : ℕ) (j : Job)
      → s.lock.phase w ≡ Lock.acquired i
      → Expects t s.dir j
      → Good s
      → Good (record s { job = assign s.job w j })
  Good-job s w i j at expects g =
      Good-work s w i s.dir (assign s.job w j) at (λ v ne. assign_other s.job w v j ne)
        (subst (Fine t s.dir) (sym (assign_self s.job w j)) (g.consistent, expects)) g

  -- Other locks, and no more work.
  Good-locking :
      (s : World) (l : Lock.State)
      → Lock.Step s.lock l
      → ((v : ℕ) → IsWorking (s.job v) → (i : ℕ) × (l.phase v ≡ Lock.acquired i))
      → Good s
      → Good (record s { lock = l })
  Good-locking s l step keep g = record {
    lock_run = Lock.next g.lock_run step;
    holders = keep;
    consistent = g.consistent;
    expected = g.expected;
  }

  Good-finish : (s : World) (w : ℕ) → Good s → Good (record s { job = assign s.job w unstarted })
  Good-finish s w g = record {
    lock_run = g.lock_run;
    holders = λ v works. elim (ℕ_discrete v w) [
      | yes same ↦ absurd (
          subst IsWorking (ap (assign s.job w unstarted) same ∙ assign_self s.job w unstarted)
            works)
      | no ne ↦ g.holders v (subst IsWorking (assign_other s.job w v unstarted ne) works)
    ];
    consistent = g.consistent;
    expected = λ v. elim (ℕ_discrete v w) [
      | yes same ↦
          subst (Expects t s.dir)
            (sym (ap (assign s.job w unstarted) same ∙ assign_self s.job w unstarted)) tt
      | no ne ↦ subst (Expects t s.dir) (sym (assign_other s.job w v unstarted ne)) (g.expected v)
    ];
  }

  Good-crash :
      (s : World) (w i : ℕ)
      → s.lock.phase w ≡ Lock.acquired i
      → Good s
      → Good (record s {
        lock = record s.lock {
          owner = assign s.lock.owner i none;
          phase = assign s.lock.phase w Lock.idle;
        };
        job = assign s.job w unstarted;
      })
  Good-crash s w i at g =
      let done : World = record s { job = assign s.job w unstarted } in
      let idle : Good done = Good-finish s w g in
      Good-locking done _ (Lock.release s.lock w i at)
        (λ v works. elim (ℕ_discrete v w) [
          | yes same ↦ absurd (
              subst IsWorking (ap (assign s.job w unstarted) same ∙ assign_self s.job w unstarted)
                works)
          | no ne ↦
              let (j, held) = idle.holders v works in
              (j, assign_other s.lock.phase w v Lock.idle ne ∙ held)
        ])
        idle

  now : (s : World) (w : ℕ) {j : Job} → Good s → s.job w ≡ j → Fine t s.dir j
  now s w g e = (g.consistent, subst (Expects t s.dir) e (g.expected w))

  Good-Step : {s u : World} → Step t s u → Good s → Good u
  Good-Step (locking s l step keep) g = Good-locking s l step keep g
  Good-Step (crash s w i at) g = Good-crash s w i at g
  Good-Step (finish s w) g = Good-finish s w g
  Good-Step (begin_build s w i id at free pos_id fits nothing) g =
      let (no_mpk, no_info, _, _) = none_found s.dir id nothing in
      Good-job s w i (checked id) at ((pos_id, fits), no_mpk, no_info) g
  Good-Step (reuse s w i id f at free pos_id fits found) g =
      Good-behind s w i (backfill_schema_sidecar f s.dir id) (settled id) at
        (Fine-reuse t f s.dir id (pos_id, fits) g.consistent found) g
  Good-Step (label s w i id f mwp ref at job built) g =
      Good-behind s w i (write_staged f s.dir schema (itoa id)) (labelled id mwp ref) at
        (Fine-label t f s.dir id mwp ref (now s w g job) built) g
  Good-Step (place_image s w i id f mwp ref at job) g =
      Good-behind s w i (rename_mwp f mwp s.dir) (imaged id mwp ref) at
        (Fine-image t f s.dir id mwp ref (now s w g job)) g
  Good-Step (place_info s w i id f mwp ref at job) g =
      Good-behind s w i (write_staged f s.dir info ref) (settled id) at
        (Fine-info t f s.dir id mwp ref (now s w g job)) g
  Good-Step (place_emwp s w i id b at job empty) g =
      Good-work s w i (put s.dir emwp (file b)) s.job at (λ v ne. refl)
        (
          Consistent-same t s.dir (put s.dir emwp (file b)) refl refl refl g.consistent,
          subst (Expects t (put s.dir emwp (file b))) (sym job) tt,
        )
        g
  Good-Step (place_emwp_info s w i id f text at job) g =
      Good-behind s w i (write_staged f s.dir emwp_info text) (settled id) at
        (Fine-staged t f s.dir emwp_info text (settled id) g.consistent (
          Consistent-same t s.dir (put s.dir emwp_info (file text)) refl refl refl g.consistent,
          tt,
        ))
        g
  Good-Step (begin_delete s w i at free) g =
      Good-job s w i (removing 0) at (λ late. absurd (omega arith)) g
  Good-Step (remove s w i k suffix fails at job listed removable) g =
      Good-work s w i (remove_one fails suffix (s.dir, [])).0 (assign s.job w (removing (suc k))) at
        (λ v ne. assign_other s.job w v (removing (suc k)) ne)
        (subst (Fine t (remove_one fails suffix (s.dir, [])).0)
          (sym (assign_self s.job w (removing (suc k))))
          (Fine-remove t fails s.dir k suffix (now s w g job) listed removable))
        g

  Good-Reach : {s u : World} → Good s → Reach t s u → Good u
  Good-Reach g here = g
  Good-Reach g (next run step) = Good-Step step (Good-Reach g run)

  Good-start : (d : Dir) → Consistent t d → Good (start path first_inode d)
  Good-start d good = record {
    lock_run = Lock.here;
    holders = λ v works. absurd works;
    consistent = good;
    expected = λ v. tt;
  }

-- Any number of runs of Pack and Delete on one revision, in any interleaving, with crashes between any
-- two changes and with writes, renames and removals that fail, except that a deletion can remove the
-- info file: from a directory in which a complete pair is one that was built under its schema, a request
-- whose check finds artifacts to reuse has before it the image and the reference that one run of
-- buildMWP returned, under the schema that it asks for.
pub reused-IsBuilt :
    (t : Tools) (path : Option ℕ) (first_inode : ℕ) (d : Dir) (s : World) (want : ℕ)
    → Consistent t d
    → Reach t (start path first_inode d) s
    → check_existing_artifacts s.dir want ≡ ok true
    → (mwp : Bytes) × (ref : Bytes) × IsBuilt t want mwp ref
      × (s.dir.mpk_file ≡ file mwp)
      × (s.dir.info_file ≡ file ref)
unfolding Consistent
reused-IsBuilt t path first_inode d s want good run found =
    let g = Good-Reach t path first_inode (Good-start t path first_inode d good) run in
    let (complete, records) = (check_existing_artifacts_iff s.dir want).0 found in
    g.consistent want complete.0 complete.1 records
