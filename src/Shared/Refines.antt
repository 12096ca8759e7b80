-- ===== src/Shared/Refines.antt =====
-- Pack under the lock, as a function, against the steps of a process that has the lock.
use modelwrap.Prelude.{
  ℕ, assign, assign_self, assign_other, ◌≡◌, ◌<◌, ◌^◌, refl, ap, ◌∙◌, Bool, true, false, [], Bytes,
  if◌then◌else◌, Option, none, some, Result, ok, err, map_err-ok, Bool-cases, inl, inr,
}
use modelwrap.Lock
use modelwrap.Ref.{ArtifactRef, to_string}
use modelwrap.Disk.{File}
use modelwrap.Schema.{PackSchema}
use modelwrap.Artifacts.{
  absent, failing, file, Entry, Faults, emwp, emwp_info, put, check_existing_artifacts,
  backfill_schema_sidecar, write_staged, rename_failed,
}
use modelwrap.Build.{build_mwp}
use modelwrap.Emwp.{EmwpError, encrypt_emwp}
use modelwrap.Pack.{
  Tools, Request, PackError, Action, mkfs_failed, stat_failed, wrap_failed, emwp_failed, step,
  on_emwp, pure, build_and_publish, ensure_mwp, place_emwp, ensure_emwp, verify_published,
  verify_emwp_published, pack_encrypted, pack_locked, outer_ref, bytes_of,
}
use modelwrap.Shared.{unstarted, checked, settled, World, Step, begin_build, reuse, place_emwp_info}
use modelwrap.Shared.Runs.{
  Runs, Runs-bind, Runs-read, Runs-stay, Runs-step, Runs-last, Runs-publish,
}

module _ (t : Tools) (w i : ℕ) (f : Faults) (crash_after : Bytes) (p : PackSchema)
    (q : Request) where
  -- The image behind a run of mkfs that did not fail.
  mkfs_made :
      (r : Option File) (image : File)
      → ◌≡◌ {A = Result PackError File}
          (elim r [ none ↦ err mkfs_failed | some f ↦ ok f ])
          (ok image)
      → r ≡ some image
  mkfs_made none image h = cc
  mkfs_made (some x) image h = cc

  -- buildMWP and publishArtifacts behind a check that has found nothing.
  Runs-build :
      (s : World)
      → s.lock.phase w ≡ Lock.acquired i
      → s.job w ≡ checked p.id
      → Runs t w (settled p.id) s (build_and_publish t f crash_after p q s.dir)
  unfolding build_and_publish
  Runs-build s at job = Runs-read t w (settled p.id) _ s _ λ staged h0.
      Runs-read t w (settled p.id) _ s _ λ image h1. Runs-read t w (settled p.id) _ s _ λ built h2.
        Runs-publish t w f crash_after s i p.id (bytes_of built.0) built.1 at job record {
          under = p;
          request = q;
          image = image;
          built = built.0;
          same_id = refl;
          made = mkfs_made (t.mkfs p (p.mkfs_args q.model [] q.model_dir)) image h1;
          returned =
              map_err-ok PackError.build_failed (build_mwp t.sha256 t.uuids q.model t.num_cpu image)
                h2;
          bytes = refl;
        }

  -- By the verdict of the check.
  Runs-decided :
      (reusable : Bool) (s : World)
      → s.lock.phase w ≡ Lock.acquired i
      → s.job w ≡ unstarted
      → 0 < p.id
      → p.id < 2 ^ 63
      → check_existing_artifacts s.dir p.id ≡ ok reusable
      → Runs t w (settled p.id) s (
          (if reusable
              then step (λ d. backfill_schema_sidecar f d p.id)
              else build_and_publish t f crash_after p q)
            s.dir)
  Runs-decided true s at free pos_id fits found =
      Runs-last t w (settled p.id) s (backfill_schema_sidecar f s.dir p.id)
        (reuse s w i p.id f at free pos_id fits found)
  Runs-decided false s at free pos_id fits nothing =
      let u : World = record s { job = assign s.job w (checked p.id) } in
      Runs-step t w (settled p.id) s u (build_and_publish t f crash_after p q s.dir)
        (begin_build s w i p.id at free pos_id fits nothing) refl
        (λ v ne. assign_other s.job w v (checked p.id) ne)
        (Runs-build u at (assign_self s.job w (checked p.id)))

  pub Runs-ensure :
      (s : World)
      → s.lock.phase w ≡ Lock.acquired i
      → s.job w ≡ unstarted
      → 0 < p.id
      → p.id < 2 ^ 63
      → Runs t w (settled p.id) s (ensure_mwp t f crash_after p q s.dir)
  unfolding ensure_mwp
  Runs-ensure s at free pos_id fits = Runs-read t w (settled p.id) _ s _ λ reusable h.
      Runs-decided reusable s at free pos_id fits
        (map_err-ok wrap_failed (check_existing_artifacts s.dir p.id) h)

  -- What only reads, where it is asked for.
  Runs-verify :
      (b : Bool) (s : World)
      → s.job w ≡ settled p.id
      → Runs t w
          (settled p.id)
          s
          ((if b then verify_published t f crash_after q else pure tt) s.dir)
  unfolding verify_published
  Runs-verify true s job = Runs-read t w (settled p.id) _ s _ λ text h.
      Runs-read t w (settled p.id) _ s _ λ r h.
        Runs-read t w (settled p.id) _ s _ λ image h.
          Runs-read t w (settled p.id) _ s _ λ args h. Runs-stay t w (settled p.id) s _ job
  Runs-verify false s job = Runs-stay t w (settled p.id) s (ok tt) job

  Runs-verify_emwp :
      (b : Bool) (s : World) (master_key : Bytes)
      → s.job w ≡ settled p.id
      → Runs t w
          (settled p.id)
          s
          ((if b then verify_emwp_published t f crash_after q master_key else pure tt) s.dir)
  unfolding verify_emwp_published
  Runs-verify_emwp true s master_key job = Runs-read t w (settled p.id) _ s _ λ text h.
      Runs-read t w (settled p.id) _ s _ λ r h. Runs-read t w (settled p.id) _ s _ λ image h.
        Runs-read t w (settled p.id) _ s _ λ dm_key h.
          Runs-read t w (settled p.id) _ s _ λ none_failed h.
            Runs-read t w (settled p.id) _ s _ λ done h. Runs-stay t w (settled p.id) s _ job
  Runs-verify_emwp false s master_key job = Runs-stay t w (settled p.id) s (ok tt) job

  -- The rename that puts the EMWP image in place.
  Runs-place :
      (img : Result EmwpError File) (s : World)
      → s.lock.phase w ≡ Lock.acquired i
      → s.job w ≡ settled p.id
      → s.dir.emwp_file ≡ absent
      → Runs t w (settled p.id) s (place_emwp t f crash_after img s.dir)
  Runs-place (err e) s at job empty = Runs-stay t w (settled p.id) s (err (emwp_failed e)) job
  Runs-place (ok img) s at job empty = elim (Bool-cases (f.rename emwp)) [
    | inl e ↦ rw e (Runs-stay t w (settled p.id) s (err (wrap_failed (rename_failed emwp))) job)
    | inr e ↦ rw e (
        let u : World = record s { dir = put s.dir emwp (file (bytes_of img)) } in
        Runs-step t w (settled p.id) s u (u.dir, ok tt)
          (Step.place_emwp s w i p.id (bytes_of img) at job empty) refl (λ v ne. refl)
          (Runs-stay t w (settled p.id) u (ok tt) job))
  ]

  Runs-on_emwp :
      (e : Entry) (s : World) (k : Action (Unit {0}))
      → s.job w ≡ settled p.id
      → (e ≡ absent → Runs t w (settled p.id) s (k s.dir))
      → Runs t w (settled p.id) s (on_emwp e k s.dir)
  Runs-on_emwp absent s k job rest = rest refl
  Runs-on_emwp failing s k job rest = Runs-stay t w (settled p.id) s (err stat_failed) job
  Runs-on_emwp (file b) s k job rest = Runs-stay t w (settled p.id) s (ok tt) job

  Runs-ensure_emwp :
      (r : ArtifactRef) (master_key : Bytes) (s : World)
      → s.lock.phase w ≡ Lock.acquired i
      → s.job w ≡ settled p.id
      → Runs t w (settled p.id) s (ensure_emwp t f crash_after r master_key s.dir)
  unfolding ensure_emwp
  Runs-ensure_emwp r master_key s at job = Runs-on_emwp s.dir.emwp_file s _ job λ empty.
      Runs-read t w (settled p.id) _ s _ λ mwp h. Runs-read t w (settled p.id) _ s _ λ staged h.
        Runs-place (encrypt_emwp t.xts t.hkdf t.uuids.uuid_v5_url t.sgdisk mwp r master_key) s at
          job empty

  Runs-encrypt :
      (r : ArtifactRef) (s : World)
      → s.lock.phase w ≡ Lock.acquired i
      → s.job w ≡ settled p.id
      → Runs t w (settled p.id) s (pack_encrypted t f crash_after q r s.dir)
  unfolding pack_encrypted
  Runs-encrypt r s at job =
      let out = outer_ref t f crash_after q r in
      Runs-read t w (settled p.id) _ s _ λ master_key h.
        Runs-bind t w (settled p.id) (settled p.id) _ s _ (Runs-ensure_emwp out master_key s at job)
          λ u a same job1.
            let at1 = ap (λ (l : Lock.State). l.phase w) same ∙ at in
            Runs-bind t w (settled p.id) (settled p.id) _ u _
              (Runs-last t w (settled p.id) u (write_staged f u.dir emwp_info (to_string out))
                (place_emwp_info u w i p.id f (to_string out) at1 job1))
              λ v b same2 job2.
                Runs-bind t w (settled p.id) (settled p.id) _ v _
                  (Runs-verify_emwp q.verify v master_key job2)
                  λ x c same3 job3. Runs-stay t w (settled p.id) x (ok (to_string out)) job3

  Runs-end :
      (b : Bool) (r : ArtifactRef) (s : World)
      → s.lock.phase w ≡ Lock.acquired i
      → s.job w ≡ settled p.id
      → Runs t w
          (settled p.id)
          s
          ((if b then pack_encrypted t f crash_after q r else pure (to_string r)) s.dir)
  Runs-end true r s at job = Runs-encrypt r s at job
  Runs-end false r s at job = Runs-stay t w (settled p.id) s (ok (to_string r)) job

  -- Pack under the lock, with any requests and failures, is a run of the steps of a process that has the
  -- lock and has not started: the steps lead to the directory that Pack leaves, whether it succeeds or
  -- fails anywhere; they change neither the lock nor what another process is at; and where Pack returns
  -- a reference, the process is behind the publication.
  pub pack_locked-Runs :
      (s : World)
      → s.lock.phase w ≡ Lock.acquired i
      → s.job w ≡ unstarted
      → 0 < p.id
      → p.id < 2 ^ 63
      → Runs t w (settled p.id) s (pack_locked t f crash_after p q s.dir)
  unfolding pack_locked
  pack_locked-Runs s at free pos_id fits =
      Runs-bind t w (settled p.id) (settled p.id) _ s _ (Runs-ensure s at free pos_id fits)
        λ u a same job1.
          Runs-bind t w (settled p.id) (settled p.id) _ u _ (Runs-verify q.verify u job1)
            λ v b same2 job2. Runs-read t w (settled p.id) _ v _ λ text h.
              Runs-read t w (settled p.id) _ v _ λ r h.
                Runs-end q.encrypt r v (ap (λ (l : Lock.State). l.phase w) (same2 ∙ same) ∙ at) job2
