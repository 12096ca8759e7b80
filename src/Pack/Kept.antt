-- ===== src/Pack/Kept.antt =====
-- What a run of Pack never changes: the artifacts that are there.
use modelwrap.Prelude.{
  ℕ, ◌≡◌, ◌⊎◌, inl, inr, refl, sym, ◌∙◌, true, false, Bool, List, Bytes, if◌then◌else◌, Option,
  none, some, Result, ok, err, arith, Bool-cases, Result-cases, itoa, map_err, map_err-ok,
}
use mathlib.Core.Path.{subst}
use modelwrap.Ref.{ArtifactRef, to_string}
use modelwrap.Schema.{PackSchema}
use modelwrap.Artifacts.{
  Suffix, put, schema, Dir, Entry, absent, failing, file, Faults, check_existing_artifacts,
  read_schema_sidecar, backfill_schema_sidecar, publish_artifacts, write_staged, emwp, emwp_info,
  WrapError,
}
use modelwrap.Emwp.{EmwpError}
use modelwrap.Disk.{File}
use modelwrap.Pack.{
  Tools, Request, PackError, Action, then_run, step, as_result, build_and_publish, verify_published,
  ensure_emwp, verify_emwp_published, pack_encrypted, ensure_mwp, pack_locked, place_emwp, on_emwp,
  outer_ref, pure, bytes_of, wrap_failed,
}

-- A file that was there is there with the same bytes.
abbrev pub EntryKept : Entry → Entry → Type 0
EntryKept before after = (b : Bytes) → before ≡ file b → after ≡ file b

-- No image, info file or EMWP image of `d` is gone or changed in `t`.
pub record IsKept (d t : Dir) : Type 0 where
  pub mpk : EntryKept d.mpk_file t.mpk_file
  pub info : EntryKept d.info_file t.info_file
  pub emwp : EntryKept d.emwp_file t.emwp_file

IsKept-refl : (d : Dir) → IsKept d d
IsKept-refl d = record { mpk = λ b e. e; info = λ b e. e; emwp = λ b e. e }

IsKept-trans : (a b c : Dir) → IsKept a b → IsKept b c → IsKept a c
IsKept-trans a b c h k = record {
  mpk = λ x e. k.mpk x (h.mpk x e);
  info = λ x e. k.info x (h.info x e);
  emwp = λ x e. k.emwp x (h.emwp x e);
}

-- A run keeps the artifacts, whether it fails or not.
abbrev pub Keeps : {A : Type 0} → Action A → Type 0
Keeps m = (d : Dir) → IsKept d (m d).0

then_run-Keeps :
    {A B : Type 0} (f : A → Action B) (d : Dir) (r : Dir × Result PackError A)
    → IsKept d r.0
    → ((a : A) → Keeps (f a))
    → IsKept d (then_run f r).0
unfolding then_run
then_run-Keeps f d (t, ok a) h k = IsKept-trans d t (f a t).0 h (k a t)
then_run-Keeps f d (t, err e) h k = h

-- Behind a step that only reads.
pub after_read :
    {A B : Type 0} (P : Dir → Type 0) (f : A → Action B) (d : Dir) (r : Result PackError A)
    → P d
    → ((a : A) → r ≡ ok a → P (f a d).0)
    → P (then_run f (d, r)).0
unfolding then_run
after_read P f d (ok a) h k = k a refl
after_read P f d (err e) h k = h

-- A step that reads.
read_only-Keeps : {A : Type 0} (r : Dir → Result PackError A) → Keeps (λ d. (d, r d))
read_only-Keeps r d = IsKept-refl d

as_result_dir : (r : Dir × Option WrapError) → (as_result r).0 ≡ r.0
as_result_dir (d, none) = refl
as_result_dir (d, some e) = refl

-- A staged write leaves the directory or puts the one file there.
write_staged-dir :
    (w : Faults) (d : Dir) (s : Suffix) (text : Bytes)
    → ((write_staged w d s text).0 ≡ d) ⊎ ((write_staged w d s text).0 ≡ put d s (file text))
unfolding write_staged
write_staged-dir w d s text = elim (Bool-cases (w.stage s)) [
  | inl e ↦ rw e (inl refl)
  | inr e ↦ elim (Bool-cases (w.rename s)) [
    | inl e' ↦ rw e (rw e' (inl refl))
    | inr e' ↦ rw e (rw e' (inr refl))
  ]
]

write_staged-IsKept :
    (w : Faults) (d : Dir) (s : Suffix) (text : Bytes)
    → IsKept d (put d s (file text))
    → IsKept d (write_staged w d s text).0
write_staged-IsKept w d s text h = elim (write_staged-dir w d s text) [
  | inl e ↦ subst (IsKept d) (sym e) (IsKept-refl d)
  | inr e ↦ subst (IsKept d) (sym e) h
]

as_result-IsKept : (d : Dir) (r : Dir × Option WrapError) → IsKept d r.0 → IsKept d (as_result r).0
as_result-IsKept d r h = subst (IsKept d) (sym (as_result_dir r)) h

write_info-IsKept :
    (w : Faults) (text : Bytes) (d : Dir) → IsKept d (write_staged w d emwp_info text).0
write_info-IsKept w text d =
    write_staged-IsKept w d emwp_info text
      (record { mpk = λ b e. e; info = λ b e. e; emwp = λ b e. e })

backfill-IsKept : (w : Faults) (d : Dir) (id : ℕ) → IsKept d (backfill_schema_sidecar w d id).0
unfolding backfill_schema_sidecar
backfill-IsKept w d id = elim (Result-cases (read_schema_sidecar d.schema_file)) [
  | inr (e, h) ↦ rw (h, backfill_schema_sidecar) (IsKept-refl d)
  | inl ((n, true), h) ↦ rw (h, backfill_schema_sidecar) (IsKept-refl d)
  | inl ((n, false), h) ↦
      rw (h, backfill_schema_sidecar)
        (write_staged-IsKept w d schema (itoa id)
          (record { mpk = λ b e. e; info = λ b e. e; emwp = λ b e. e }))
]

publish_emwp_file :
    (w : Faults) (crash_after : Bytes) (d : Dir) (id : ℕ) (mwp ref : Bytes)
    → (publish_artifacts w crash_after d id mwp ref).0.emwp_file ≡ d.emwp_file
unfolding publish_artifacts
publish_emwp_file w crash_after d id mwp ref = ground arith

-- Nothing of a set is there where the check says that nothing is to be reused.
pub none_found :
    (d : Dir) (want : ℕ)
    → check_existing_artifacts d want ≡ ok false
    → (d.mpk_file ≡ absent)
      × (d.info_file ≡ absent)
      × (d.emwp_file ≡ absent)
      × (d.emwp_info_file ≡ absent)
unfolding check_existing_artifacts
none_found d want h = ground arith

not_file : (e : Entry) (b : Bytes) → e ≡ absent → e ≡ file b → ⊥
not_file e b h g = cc

publish-IsKept :
    (w : Faults) (crash_after : Bytes) (d : Dir) (id : ℕ) (mwp ref : Bytes)
    → d.mpk_file ≡ absent
    → d.info_file ≡ absent
    → IsKept d (publish_artifacts w crash_after d id mwp ref).0
publish-IsKept w crash_after d id mwp ref no_mpk no_info = record {
  mpk = λ b e. absurd (not_file d.mpk_file b no_mpk e);
  info = λ b e. absurd (not_file d.info_file b no_info e);
  emwp = λ b e. publish_emwp_file w crash_after d id mwp ref ∙ e;
}

module _ (t : Tools) (w : Faults) (crash_after : Bytes) where
  build_and_publish-IsKept :
      (s : PackSchema) (q : Request) (d : Dir)
      → d.mpk_file ≡ absent
      → d.info_file ≡ absent
      → IsKept d (build_and_publish t w crash_after s q d).0
  unfolding build_and_publish
  build_and_publish-IsKept s q d no_mpk no_info =
      after_read {A = Unit {0}} (IsKept d) _ d _ (IsKept-refl d) λ _ _.
        after_read {A = File} (IsKept d) _ d _ (IsKept-refl d) λ image _.
          after_read {A = File × Bytes} (IsKept d) _ d _ (IsKept-refl d) λ built _.
            subst (IsKept d)
              (sym
                (as_result_dir (publish_artifacts w crash_after d s.id (bytes_of built.0) built.1)))
              (publish-IsKept w crash_after d s.id (bytes_of built.0) built.1 no_mpk no_info)

  ensure_mwp-Keeps : (s : PackSchema) (q : Request) → Keeps (ensure_mwp t w crash_after s q)
  unfolding ensure_mwp
  ensure_mwp-Keeps s q d =
      after_read (IsKept d) _ d (map_err wrap_failed (check_existing_artifacts d s.id))
        (IsKept-refl d)
        (λ reuse e. by_reuse reuse (map_err-ok wrap_failed (check_existing_artifacts d s.id) e))
    where
      by_reuse :
          (reuse : Bool)
          → check_existing_artifacts d s.id ≡ ok reuse
          → IsKept d
              ((if reuse
                  then step (λ x. backfill_schema_sidecar w x s.id)
                  else build_and_publish t w crash_after s q)
                d).0
      by_reuse true e =
          subst (IsKept d) (sym (as_result_dir (backfill_schema_sidecar w d s.id)))
            (backfill-IsKept w d s.id)
      by_reuse false e =
          let (no_mpk, no_info, _, _) = none_found d s.id e in
          build_and_publish-IsKept s q d no_mpk no_info

  place_emwp-IsKept :
      (r : Result EmwpError File) (d : Dir)
      → d.emwp_file ≡ absent
      → IsKept d (place_emwp t w crash_after r d).0
  place_emwp-IsKept (err e) d none_there = IsKept-refl d
  place_emwp-IsKept (ok img) d none_there = elim (Bool-cases (w.rename emwp)) [
    | inl e ↦ rw e (IsKept-refl d)
    | inr e ↦ rw e (record {
      mpk = λ b h. h;
      info = λ b h. h;
      emwp = λ b h. absurd (not_file d.emwp_file b none_there h);
    })
  ]

  on_emwp-IsKept :
      (e : Entry) (encrypt : Action (Unit {0})) (d : Dir)
      → (e ≡ absent → IsKept d (encrypt d).0)
      → IsKept d (on_emwp e encrypt d).0
  on_emwp-IsKept (file b) encrypt d h = IsKept-refl d
  on_emwp-IsKept failing encrypt d h = IsKept-refl d
  on_emwp-IsKept absent encrypt d h = h refl

  ensure_emwp-Keeps :
      (r : ArtifactRef) (master_key : Bytes) → Keeps (ensure_emwp t w crash_after r master_key)
  unfolding ensure_emwp
  ensure_emwp-Keeps r master_key d = on_emwp-IsKept d.emwp_file _ d λ none_there.
      after_read {A = Bytes} (IsKept d) _ d _ (IsKept-refl d) λ mwp _.
        after_read {A = Unit {0}} (IsKept d) _ d _ (IsKept-refl d)
          λ _ _. place_emwp-IsKept _ d none_there

  verify_emwp_published-Keeps :
      (q : Request) (master_key : Bytes)
      → Keeps (verify_emwp_published t w crash_after q master_key)
  unfolding verify_emwp_published
  verify_emwp_published-Keeps q master_key d =
      after_read {A = Bytes} (IsKept d) _ d _ (IsKept-refl d) λ text _.
        after_read {A = ArtifactRef} (IsKept d) _ d _ (IsKept-refl d) λ r _.
          after_read {A = Bytes} (IsKept d) _ d _ (IsKept-refl d) λ image _.
            after_read {A = Bytes} (IsKept d) _ d _ (IsKept-refl d) λ dm_key _.
              after_read {A = Unit {0}} (IsKept d) _ d _ (IsKept-refl d) λ none_failed _.
                after_read {A = Bytes × List Bytes} (IsKept d) _ d _ (IsKept-refl d)
                  λ done _. IsKept-refl d

  verify_published-Keeps : (q : Request) → Keeps (verify_published t w crash_after q)
  unfolding verify_published
  verify_published-Keeps q d = after_read {A = Bytes} (IsKept d) _ d _ (IsKept-refl d) λ text _.
      after_read {A = ArtifactRef} (IsKept d) _ d _ (IsKept-refl d) λ r _.
        after_read {A = Bytes} (IsKept d) _ d _ (IsKept-refl d) λ image _.
          after_read {A = List Bytes} (IsKept d) _ d _ (IsKept-refl d) λ args _. IsKept-refl d

  if-Keeps : (b : Bool) (m : Action (Unit {0})) → Keeps m → Keeps (if b then m else pure tt)
  if-Keeps true m k d = k d
  if-Keeps false m k d = IsKept-refl d

  pack_encrypted-Keeps :
      (q : Request) (r : ArtifactRef) → Keeps (pack_encrypted t w crash_after q r)
  unfolding pack_encrypted
  pack_encrypted-Keeps q r d =
      after_read {A = Bytes} (IsKept d) _ d _ (IsKept-refl d) λ master_key _.
        then_run-Keeps {A = Unit {0}} _ d
          (ensure_emwp t w crash_after (outer_ref t w crash_after q r) master_key d)
          (ensure_emwp-Keeps (outer_ref t w crash_after q r) master_key d)
          λ _ d'.
            then_run-Keeps {A = Unit {0}} _ d' _
              (as_result-IsKept d' _
                (write_info-IsKept w (to_string (outer_ref t w crash_after q r)) d'))
              λ _ d''.
                then_run-Keeps {A = Unit {0}} _ d'' _
                  (if-Keeps q.verify (verify_emwp_published t w crash_after q master_key)
                    (verify_emwp_published-Keeps q master_key) d'')
                  λ _ e. IsKept-refl e

  pub if_encrypt-Keeps :
      (b : Bool) (q : Request) (r : ArtifactRef)
      → Keeps (if b then pack_encrypted t w crash_after q r else pure (to_string r))
  if_encrypt-Keeps true q r d = pack_encrypted-Keeps q r d
  if_encrypt-Keeps false q r d = IsKept-refl d

  -- Pack under the lock, whatever it is asked for, whichever step fails and wherever it stops, leaves
  -- every image, info file and EMWP image that it found, with the bytes that it found.
  pub pack_locked-Keeps :
      (s : PackSchema) (q : Request) (d : Dir) → IsKept d (pack_locked t w crash_after s q d).0
  unfolding pack_locked
  pack_locked-Keeps s q d = then_run-Keeps {A = Unit {0}} _ d _ (ensure_mwp-Keeps s q d) λ _ d1.
      then_run-Keeps {A = Unit {0}} _ d1 _
        (if-Keeps q.verify (verify_published t w crash_after q) (verify_published-Keeps q) d1)
        λ _ d2. after_read {A = Bytes} (IsKept d2) _ d2 _ (IsKept-refl d2) λ text _.
          after_read {A = ArtifactRef} (IsKept d2) _ d2 _ (IsKept-refl d2)
            λ r _. if_encrypt-Keeps q.encrypt q r d2
