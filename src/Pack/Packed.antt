-- ===== src/Pack/Packed.antt =====
-- What Pack leaves where it has found or published the artifacts of a schema.
use modelwrap.Prelude.{
  ℕ, ◌≡◌, ◌<◌, ◌^◌, inl, inr, refl, sym, ap, ◌∙◌, true, false, Bool, Bytes, Option, none, some,
  Result, ok, err, arith, itoa,
}
use mathlib.Core.Path.{subst}
use modelwrap.Artifacts.{
  put, schema, Dir, file, Faults, check_existing_artifacts, read_schema_sidecar,
  backfill_schema_sidecar, publish_artifacts, write_staged, WrapError,
}
use modelwrap.Artifacts.Reuse.{IsReadable, check_existing_artifacts_iff}
use modelwrap.Artifacts.Publish.{read_schema_sidecar-itoa, publish-files}
use modelwrap.Pack.{PackError, Action, then_run, as_result}
use modelwrap.Pack.Kept.{none_found}

-- The directory satisfies a request for the schema, by a sidecar of its own.
pub record IsPacked (id : ℕ) (d : Dir) : Type 0 where
  pub reused : check_existing_artifacts d id ≡ ok true
  pub labelled : read_schema_sidecar d.schema_file ≡ ok (id, true)

-- A successful bind, taken apart.
pub then_run_ok :
    {A B : Type 0} (f : A → Action B) (r : Dir × Result PackError A) (u : Dir) (b : B)
    → then_run f r ≡ (u, ok b)
    → (d : Dir) × (a : A) × (r ≡ (d, ok a)) × (f a d ≡ (u, ok b))
unfolding then_run
then_run_ok f (d, ok a) u b h = (d, a, refl, h)
then_run_ok f (d, err e) u b h = cc

pub as_result_ok :
    (r : Dir × Option WrapError) (u : Dir) (x : Unit {0}) → as_result r ≡ (u, ok x) → r ≡ (u, none)
as_result_ok (d, none) u x h = ap (λ p. (p.0, none)) h
as_result_ok (d, some e) u x h = cc

-- A step that reads gives its own directory.
pub read_ok :
    {A : Type 0} (d u : Dir) (r : Result PackError A) (a : A)
    → ◌≡◌ {A = Dir × Result PackError A} (d, r) (u, ok a)
    → (d ≡ u) × (r ≡ ok a)
read_ok d u r a h = (ap (λ p. p.0) h, ap (λ p. p.1) h)

module _ (id : ℕ) (pos_id : 0 < id) (fits : id < 2 ^ 63) where
  IsPacked-labelled :
      (d : Dir)
      → check_existing_artifacts d id ≡ ok true
      → IsPacked id (put d schema (file (itoa id)))
  IsPacked-labelled d found =
      let own = read_schema_sidecar-itoa id pos_id fits in
      let (complete, _) = (check_existing_artifacts_iff d id).0 found in
      record {
        reused =
            (check_existing_artifacts_iff (put d schema (file (itoa id))) id).1 (complete, inl own);
        labelled = own;
      }

  write_staged_ok :
      (w : Faults) (d u : Dir) (text : Bytes)
      → write_staged w d schema text ≡ (u, none)
      → u ≡ put d schema (file text)
  unfolding write_staged
  write_staged_ok w d u text h = ground arith

  backfill_labelled :
      (w : Faults) (d : Dir) (n : ℕ)
      → read_schema_sidecar d.schema_file ≡ ok (n, true)
      → backfill_schema_sidecar w d id ≡ (d, none)
  unfolding backfill_schema_sidecar
  backfill_labelled w d n at = rw (at, backfill_schema_sidecar) refl

  backfill_unlabelled :
      (w : Faults) (d : Dir) (n : ℕ)
      → read_schema_sidecar d.schema_file ≡ ok (n, false)
      → backfill_schema_sidecar w d id ≡ write_staged w d schema (itoa id)
  unfolding backfill_schema_sidecar
  backfill_unlabelled w d n at = rw (at, backfill_schema_sidecar) refl

  own_label :
      (d : Dir) (n : ℕ)
      → check_existing_artifacts d id ≡ ok true
      → read_schema_sidecar d.schema_file ≡ ok (n, true)
      → read_schema_sidecar d.schema_file ≡ ok (id, true)
  own_label d n found at = elim ((check_existing_artifacts_iff d id).0 found).1 [
    | inl e ↦ e
    | inr (e, one) ↦ cc (e, at)
  ]

  pub backfill-IsPacked :
      (w : Faults) (d u : Dir)
      → check_existing_artifacts d id ≡ ok true
      → backfill_schema_sidecar w d id ≡ (u, none)
      → IsPacked id u
  unfolding backfill_schema_sidecar
  backfill-IsPacked w d u found h = by_sidecar (read_schema_sidecar d.schema_file) refl h
    where
      by_sidecar :
          (r : Result WrapError (ℕ × Bool))
          → read_schema_sidecar d.schema_file ≡ r
          → backfill_schema_sidecar w d id ≡ (u, none)
          → IsPacked id u
      by_sidecar (err e) at g = ground arith
      by_sidecar (ok (n, true)) at g =
          let same : d ≡ u = ap (λ p. p.0) (sym (backfill_labelled w d n at) ∙ g) in
          subst (IsPacked id) same (record { reused = found; labelled = own_label d n found at })
      by_sidecar (ok (n, false)) at g =
          let e : u ≡ put d schema (file (itoa id)) =
            write_staged_ok w d u (itoa id) (sym (backfill_unlabelled w d n at) ∙ g) in
          subst (IsPacked id) (sym e) (IsPacked-labelled d found)

  pub publish-IsPacked :
      (w : Faults) (crash_after : Bytes) (d u : Dir) (mwp ref : Bytes)
      → check_existing_artifacts d id ≡ ok false
      → publish_artifacts w crash_after d id mwp ref ≡ (u, none)
      → IsPacked id u
  publish-IsPacked w crash_after d u mwp ref nothing h =
      let (no_mpk, no_info, no_emwp, no_emwp_info) = none_found d id nothing in
      let own = read_schema_sidecar-itoa id pos_id fits in
      let e =
        publish-files w crash_after d id mwp ref pos_id fits no_mpk no_info (ap (λ p. p.1) h) in
      let t : Dir = record d {
        mpk_file = file mwp;
        info_file = file ref;
        schema_file = file (itoa id);
      } in
      subst (IsPacked id) (sym e ∙ ap (λ p. p.0) h) (record {
        reused = (check_existing_artifacts_iff t id).1 (
          (tt, tt, subst IsReadable (sym no_emwp) tt, subst IsReadable (sym no_emwp_info) tt),
          inl own,
        );
        labelled = own;
      })
