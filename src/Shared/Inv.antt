-- ===== src/Shared/Inv.antt =====
-- What holds of the directory and of the processes at work on it.
use mathlib.Core.Path.{subst}
use modelwrap.Prelude.{
  ℕ, zero, suc, ◌≡◌, ◌<◌, ◌≤◌, ◌^◌, ◌⊎◌, inl, inr, refl, sym, ap, ◌∙◌, Bool, Bool-cases, true,
  false, [], Bytes, itoa, get_elem?, Option, none, some, ok, arith, Result-cases,
}
use modelwrap.Artifacts.{
  Dir, absent, file, Faults, Suffix, mpk, info, emwp, emwp_info, schema, put,
  check_existing_artifacts, backfill_schema_sidecar, write_staged, rename_mwp, read_schema_sidecar,
}
use modelwrap.Artifacts.Reuse.{IsFile, Records, check_existing_artifacts_iff}
use modelwrap.Artifacts.Publish.{read_schema_sidecar-itoa, recorded}
use modelwrap.Artifacts.Deletion.{removal_order, remove_one}
use modelwrap.Pack.{Tools}
use modelwrap.Shared.{
  Job, unstarted, checked, settled, removing, labelled, imaged, IsBuilt, unless_failed,
}

-- The places of the removals.
abbrev place : Suffix → ℕ
place emwp_info = 0
place emwp = 1
place info = 2
place mpk = 3
place schema = 4

abbrev place_or : ℕ → Option Suffix → ℕ
place_or d none = d
place_or d (some s) = place s

place_is : (k : ℕ) (s : Suffix) → get_elem? removal_order k ≡ some s → place s ≡ k
place_is zero s e = ap (place_or 0) (sym e)
place_is (suc zero) s e = ap (place_or 1) (sym e)
place_is (suc (suc zero)) s e = ap (place_or 2) (sym e)
place_is (suc (suc (suc zero))) s e = ap (place_or 3) (sym e)
place_is (suc (suc (suc (suc zero)))) s e = ap (place_or 4) (sym e)
place_is (suc (suc (suc (suc (suc k))))) s e = cc

module _ (t : Tools) where
  -- A complete pair is one that was built under the schema on record.
  unfoldable pub Consistent : Dir → Type 0
  Consistent d =
      (want : ℕ)
      → IsFile d.mpk_file
      → IsFile d.info_file
      → Records d want
      → (mwp : Bytes) × (ref : Bytes) × IsBuilt t want mwp ref
        × (d.mpk_file ≡ file mwp)
        × (d.info_file ≡ file ref)

  abbrev pub IdFits : ℕ → Type 0
  IdFits id = (0 < id) × (id < 2 ^ 63)

  -- What a process at work can rely on.
  abbrev pub Expects : Dir → Job → Type 0
  Expects d unstarted = Unit
  Expects d (checked id) = IdFits id × (d.mpk_file ≡ absent) × (d.info_file ≡ absent)
  Expects d (labelled id mwp ref) =
      IdFits id
      × IsBuilt t id mwp ref
      × (d.mpk_file ≡ absent)
      × (d.info_file ≡ absent)
      × (d.schema_file ≡ file (itoa id))
  Expects d (imaged id mwp ref) =
      IdFits id
      × IsBuilt t id mwp ref
      × (d.mpk_file ≡ file mwp)
      × (d.info_file ≡ absent)
      × (d.schema_file ≡ file (itoa id))
  Expects d (settled id) = Unit
  Expects d (removing k) = 3 ≤ k → d.info_file ≡ absent

  pub Consistent-no_info : (d : Dir) → d.info_file ≡ absent → Consistent d
  unfolding Consistent
  Consistent-no_info d e want m i r = absurd (subst IsFile e i)

  -- Of the three files it says all.
  pub Consistent-same :
      (d u : Dir)
      → u.mpk_file ≡ d.mpk_file
      → u.info_file ≡ d.info_file
      → u.schema_file ≡ d.schema_file
      → Consistent d
      → Consistent u
  unfolding Consistent
  Consistent-same d u em ei es h want m i r =
      let (mwp, ref, built, am, ai) = h want (subst IsFile em m) (subst IsFile ei i) (
        subst
          (λ e.
            (read_schema_sidecar e ≡ ok (want, true))
            ⊎ ((read_schema_sidecar e ≡ ok (0, false)) × (want ≡ 1)))
          es r) in
      (mwp, ref, built, em ∙ am, ei ∙ ai)

  -- A pair with its sidecar.
  Consistent-labelled :
      (d : Dir) (id : ℕ) (mwp ref : Bytes)
      → IdFits id
      → IsBuilt t id mwp ref
      → d.mpk_file ≡ file mwp
      → d.info_file ≡ file ref
      → d.schema_file ≡ file (itoa id)
      → Consistent d
  unfolding Consistent
  Consistent-labelled d id mwp ref (pos_id, fits) built em ei es want m i r =
      let own : read_schema_sidecar d.schema_file ≡ ok (id, true) =
        ap read_schema_sidecar es ∙ read_schema_sidecar-itoa id pos_id fits in
      (
        mwp,
        ref,
        subst (λ k. IsBuilt t k mwp ref) (sym (recorded want d.schema_file id own r)) built,
        em,
        ei,
      )

  -- A change of the directory, and the job behind it, that are all right.
  abbrev pub Fine : Dir → Job → Type 0
  Fine d j = Consistent d × Expects d j

  -- A staged write and what is expected behind it.
  pub Fine-staged :
      (f : Faults) (d : Dir) (s : Suffix) (text : Bytes) (j : Job)
      → Consistent d
      → Fine (put d s (file text)) j
      → let r = write_staged f d s text in Fine r.0 (unless_failed r.1 j)
  unfolding write_staged
  Fine-staged f d s text j old new = elim (Bool-cases (f.stage s)) [
    | inl e ↦ rw e (old, tt)
    | inr e ↦ elim (Bool-cases (f.rename s)) [
      | inl e' ↦ rw e (rw e' (old, tt))
      | inr e' ↦ rw e (rw e' new)
    ]
  ]

  pub Fine-label :
      (f : Faults) (d : Dir) (id : ℕ) (mwp ref : Bytes)
      → Fine d (checked id)
      → IsBuilt t id mwp ref
      → let r = write_staged f d schema (itoa id) in
        Fine r.0 (unless_failed r.1 (labelled id mwp ref))
  Fine-label f d id mwp ref (good, (ids, no_mpk, no_info)) built =
      Fine-staged f d schema (itoa id) (labelled id mwp ref) good (
        Consistent-no_info (put d schema (file (itoa id))) no_info,
        (ids, built, no_mpk, no_info, refl),
      )

  pub Fine-image :
      (f : Faults) (d : Dir) (id : ℕ) (mwp ref : Bytes)
      → Fine d (labelled id mwp ref)
      → let r = rename_mwp f mwp d in Fine r.0 (unless_failed r.1 (imaged id mwp ref))
  Fine-image f d id mwp ref (good, (ids, built, no_mpk, no_info, label)) =
      elim (Bool-cases (f.rename mpk)) [
        | inl e ↦ rw e (good, tt)
        | inr e ↦
            rw e (
              Consistent-no_info (put d mpk (file mwp)) no_info,
              (ids, built, refl, no_info, label),
            )
      ]

  pub Fine-info :
      (f : Faults) (d : Dir) (id : ℕ) (mwp ref : Bytes)
      → Fine d (imaged id mwp ref)
      → let r = write_staged f d info ref in Fine r.0 (unless_failed r.1 (settled id))
  Fine-info f d id mwp ref (good, (ids, built, image, no_info, label)) =
      Fine-staged f d info ref (settled id) good
        (Consistent-labelled (put d info (file ref)) id mwp ref ids built image refl label, tt)

  pub Fine-reuse :
      (f : Faults) (d : Dir) (id : ℕ)
      → IdFits id
      → Consistent d
      → check_existing_artifacts d id ≡ ok true
      → let r = backfill_schema_sidecar f d id in Fine r.0 (unless_failed r.1 (settled id))
  unfolding backfill_schema_sidecar Consistent
  Fine-reuse f d id ids good found = elim (Result-cases (read_schema_sidecar d.schema_file)) [
    | inr (e, h) ↦ rw (h, backfill_schema_sidecar) (good, tt)
    | inl ((n, true), h) ↦ rw (h, backfill_schema_sidecar) (good, tt)
    | inl ((n, false), h) ↦
        let (complete, records) = (check_existing_artifacts_iff d id).0 found in
        let (mwp, ref, built, em, ei) = good id complete.0 complete.1 records in
        rw (h, backfill_schema_sidecar)
          (Fine-staged f d schema (itoa id) (settled id) good (
            Consistent-labelled (put d schema (file (itoa id))) id mwp ref ids built em ei refl,
            tt,
          ))
  ]

  remove_one-cases :
      (fails : Suffix → Bool) (d : Dir) (s : Suffix)
      → ((remove_one fails s (d, [])).0 ≡ d) ⊎ ((remove_one fails s (d, [])).0 ≡ put d s absent)
  remove_one-cases fails d s = ground arith

  info_removed :
      (fails : Suffix → Bool) (d : Dir)
      → fails info ≡ false
      → (remove_one fails info (d, [])).0.info_file ≡ absent
  info_removed fails d h = ground arith

  Fine-remove_first :
      (fails : Suffix → Bool) (d : Dir) (k : ℕ) (s : Suffix)
      → suc k < 3
      → Consistent d
      → Consistent (put d s absent)
      → Fine (remove_one fails s (d, [])).0 (removing (suc k))
  Fine-remove_first fails d k s early good better = elim (remove_one-cases fails d s) [
    | inl e ↦ (subst Consistent (sym e) good, λ late. absurd (omega arith))
    | inr e ↦ (subst Consistent (sym e) better, λ late. absurd (omega arith))
  ]

  Fine-remove_late :
      (fails : Suffix → Bool) (d : Dir) (k : ℕ) (s : Suffix)
      → d.info_file ≡ absent
      → (put d s absent).info_file ≡ absent
      → Fine (remove_one fails s (d, [])).0 (removing (suc k))
  Fine-remove_late fails d k s before after =
      let gone : (remove_one fails s (d, [])).0.info_file ≡ absent =
        elim (remove_one-cases fails d s) [
          | inl e ↦ ap (λ (x : Dir). x.info_file) e ∙ before
          | inr e ↦ ap (λ (x : Dir). x.info_file) e ∙ after
        ] in
      (Consistent-no_info (remove_one fails s (d, [])).0 gone, λ _. gone)

  pub Fine-remove :
      (fails : Suffix → Bool) (d : Dir) (k : ℕ) (s : Suffix)
      → Fine d (removing k)
      → get_elem? removal_order k ≡ some s
      → fails info ≡ false
      → Fine (remove_one fails s (d, [])).0 (removing (suc k))
  Fine-remove fails d k emwp_info (good, order) at removable =
      Fine-remove_first fails d k emwp_info (omega (arith, place_is k emwp_info at)) good
        (Consistent-same d (put d emwp_info absent) refl refl refl good)
  Fine-remove fails d k emwp (good, order) at removable =
      Fine-remove_first fails d k emwp (omega (arith, place_is k emwp at)) good
        (Consistent-same d (put d emwp absent) refl refl refl good)
  Fine-remove fails d k info (good, order) at removable =
      let gone = info_removed fails d removable in
      (Consistent-no_info (remove_one fails info (d, [])).0 gone, λ _. gone)
  Fine-remove fails d k mpk (good, order) at removable =
      let gone = order (omega (arith, place_is k mpk at)) in
      Fine-remove_late fails d k mpk gone gone
  Fine-remove fails d k schema (good, order) at removable =
      let gone = order (omega (arith, place_is k schema at)) in
      Fine-remove_late fails d k schema gone gone
