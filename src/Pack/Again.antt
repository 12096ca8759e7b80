-- ===== src/Pack/Again.antt =====
-- Pack a second time: what a successful run leaves satisfies the same request.
use modelwrap.Prelude.{
  ◌≡◌, ◌<◌, ◌^◌, refl, sym, ap, ◌∙◌, true, false, Bool, List, Bytes, if◌then◌else◌, Option, none,
  Result, ok, err, map_err-ok,
}
use mathlib.Core.Path.{subst}
use modelwrap.Ref.{ArtifactRef, to_string}
use modelwrap.Schema.{PackSchema}
use modelwrap.Artifacts.{
  Dir, Faults, check_existing_artifacts, backfill_schema_sidecar, publish_artifacts,
}
use modelwrap.Disk.{File}
use modelwrap.Pack.{
  Tools, Request, unreadable_info, verify_failed, PackError, Action, ◌>>=◌, ◌>>◌, then_run, step,
  lift, read, build_and_publish, verify_published, pack_encrypted, ensure_mwp, pack_locked, pure,
  bytes_of, wrap_failed,
}
use modelwrap.Build.{parse_info_file}
use modelwrap.Pack.Kept.{after_read}
use modelwrap.Pack.Packed.{
  IsPacked, then_run_ok, as_result_ok, read_ok, backfill-IsPacked, publish-IsPacked,
}

then_run_dir :
    {A B : Type 0} (f : A → Action B) (d : Dir) (r : Dir × Result PackError A)
    → r.0 ≡ d
    → ((a : A) → (f a d).0 ≡ d)
    → (then_run f r).0 ≡ d
unfolding then_run
then_run_dir f d (x, ok a) e h = ap (λ z. (f a z).0) e ∙ h a
then_run_dir f d (x, err y) e h = e

module _ (t : Tools) (w : Faults) (crash_after : Bytes) where
  publish_ok :
      (s : PackSchema) (q : Request) (d u : Dir) (x : Unit {0})
      → build_and_publish t w crash_after s q d ≡ (u, ok x)
      → (mwp : Bytes) × (ref : Bytes) × (publish_artifacts w crash_after d s.id mwp ref ≡ (u, none))
  unfolding build_and_publish
  publish_ok s q d u x h =
      let (d1, _, e1, h1) = then_run_ok {A = Unit {0}} _ _ u x h in
      let (d2, image, e2, h2) = then_run_ok {A = File} _ _ u x h1 in
      let (d3, built, e3, h3) = then_run_ok {A = File × Bytes} _ _ u x h2 in
      let same : d ≡ d3 = ap (λ p. p.0) e1 ∙ (ap (λ p. p.0) e2 ∙ ap (λ p. p.0) e3) in
      (
        bytes_of built.0,
        built.1,
        ap (λ k. publish_artifacts w crash_after k s.id (bytes_of built.0) built.1) same
            ∙ as_result_ok _ u x h3,
      )

  -- The first step of a successful run leaves a packed directory.
  pub ensure_mwp-IsPacked :
      (s : PackSchema) (q : Request) (d u : Dir) (x : Unit {0})
      → 0 < s.id
      → s.id < 2 ^ 63
      → ensure_mwp t w crash_after s q d ≡ (u, ok x)
      → IsPacked s.id u
  unfolding ensure_mwp
  ensure_mwp-IsPacked s q d u x pos_id fits h =
      let (d1, reuse, e1, h1) = then_run_ok {A = Bool} _ _ u x h in
      let (same, found) = read_ok d d1 _ reuse e1 in
      by_reuse reuse (map_err-ok wrap_failed (check_existing_artifacts d s.id) found) (
        ap
          (λ k.
            (if reuse
                then step (λ z. backfill_schema_sidecar w z s.id)
                else build_and_publish t w crash_after s q)
              k)
          same
        ∙ h1)
    where
      by_reuse :
          (reuse : Bool)
          → check_existing_artifacts d s.id ≡ ok reuse
          → (if reuse
                then step (λ z. backfill_schema_sidecar w z s.id)
                else build_and_publish t w crash_after s q)
              d
            ≡ (u, ok x)
          → IsPacked s.id u
      by_reuse true found e = backfill-IsPacked s.id pos_id fits w d u found (as_result_ok _ u x e)
      by_reuse false found e =
          let (mwp, ref, published) = publish_ok s q d u x e in
          publish-IsPacked s.id pos_id fits w crash_after d u mwp ref found published

  -- On a packed directory it does nothing.
  ensure_mwp_packed :
      (s : PackSchema) (q : Request) (d : Dir)
      → IsPacked s.id d
      → ensure_mwp t w crash_after s q d ≡ (d, ok tt)
  unfolding ensure_mwp then_run backfill_schema_sidecar
  ensure_mwp_packed s q d packed =
      rw packed.reused (rw (packed.labelled, backfill_schema_sidecar) refl)

  -- What follows the first step of a run, where it encrypts or does not.
  abbrev pub behind : Bool → Request → Action Bytes
  behind encrypting q = do
    if q.verify then verify_published t w crash_after q else pure tt
    text ← read unreadable_info (λ d. d.info_file)
    r ← lift verify_failed (parse_info_file text)
    if encrypting then pack_encrypted t w crash_after q r else pure (to_string r)

  behind-pack_locked :
      (s : PackSchema) (q : Request) (d : Dir)
      → pack_locked t w crash_after s q d
        ≡ then_run (λ _. behind q.encrypt q) (ensure_mwp t w crash_after s q d)
  unfolding pack_locked
  behind-pack_locked s q d = refl

  pub verify_dir :
      (b : Bool) (q : Request) (d : Dir)
      → ((if b then verify_published t w crash_after q else pure tt) d).0 ≡ d
  unfolding verify_published
  verify_dir false q d = refl
  verify_dir true q d =
      after_read {A = Bytes} (λ x. x ≡ d) _ d _ refl
        λ text _.
          after_read {A = ArtifactRef} (λ x. x ≡ d) _ d _ refl
            λ r _.
              after_read {A = Bytes} (λ x. x ≡ d) _ d _ refl
                λ image _. after_read {A = List Bytes} (λ x. x ≡ d) _ d _ refl λ args _. refl

  -- Without encryption it only reads.
  behind_dir : (q : Request) (d : Dir) → (behind false q d).0 ≡ d
  behind_dir q d = then_run_dir {A = Unit {0}} _ d _ (verify_dir q.verify q d) λ _.
      after_read {A = Bytes} (λ x. x ≡ d) _ d _ refl
        λ text _. after_read {A = ArtifactRef} (λ x. x ≡ d) _ d _ refl λ r _. refl

  -- A run without encryption on a packed directory.
  pub pack_locked_packed :
      (s : PackSchema) (q : Request) (d : Dir)
      → q.encrypt ≡ false
      → IsPacked s.id d
      → pack_locked t w crash_after s q d ≡ behind false q d
  unfolding then_run
  pack_locked_packed s q d plain packed =
      behind-pack_locked s q d
      ∙ (ap (then_run (λ _. behind q.encrypt q)) (ensure_mwp_packed s q d packed)
          ∙ ap (λ b. behind b q d) plain)

-- The builder, the faults and the crash of a run have no part in what follows.
behind_same :
    (t : Tools) (w w' : Faults) (crash crash' : Bytes)
    (mkfs : PackSchema → List Bytes → Option File) (q : Request) (d : Dir)
    → behind t w crash false q d ≡ behind (record t { mkfs = mkfs }) w' crash' false q d
unfolding verify_published
behind_same t w w' crash crash' mkfs q d = refl

-- A run of Pack under the lock, without encryption and for a positive schema id that fits an int, that
-- succeeded leaves a directory on which the same request, with any `mkfs.erofs`, in a run in which any
-- write may fail, succeeds with the same reference and changes nothing.
pub pack_locked_again :
    (t : Tools) (w w' : Faults) (crash crash' : Bytes)
    (mkfs : PackSchema → List Bytes → Option File) (s : PackSchema) (q : Request) (d u : Dir)
    (ref : Bytes)
    → 0 < s.id
    → s.id < 2 ^ 63
    → q.encrypt ≡ false
    → pack_locked t w crash s q d ≡ (u, ok ref)
    → pack_locked (record t { mkfs = mkfs }) w' crash' s q u ≡ (u, ok ref)
pack_locked_again t w w' crash crash' mkfs s q d u ref pos_id fits plain h =
    let (d1, x, e1, h1) =
      then_run_ok {A = Unit {0}} _ _ u ref (sym (behind-pack_locked t w crash s q d) ∙ h) in
    let rest : behind t w crash false q d1 ≡ (u, ok ref) =
      sym (ap (λ b. behind t w crash b q d1) plain) ∙ h1 in
    let same : d1 ≡ u = sym (behind_dir t w crash q d1) ∙ ap (λ p. p.0) rest in
    let packed : IsPacked s.id u =
      subst (IsPacked s.id) same (ensure_mwp-IsPacked t w crash s q d d1 x pos_id fits e1) in
    pack_locked_packed (record t { mkfs = mkfs }) w' crash' s q u plain packed
    ∙ (sym (behind_same t w w' crash crash' mkfs q u)
        ∙ (ap (behind t w crash false q) (sym same) ∙ rest))
