-- ===== src/Artifacts/Reuse.antt =====
-- When existing artifacts satisfy a request.
use modelwrap.Prelude.{
  ℕ, zero, suc, ◌≡◌, ◌↔◌, ◌⊎◌, inl, inr, sym, ap, ◌∙◌, Bool, true, false, Bytes, arith, Result, ok,
  err, Result-cases, if◌then◌else◌, NumError, ℤ, pos, negsuc,
}
use modelwrap.Artifacts.{
  Dir, Entry, absent, failing, file, check_existing_artifacts, read_schema_sidecar, WrapError,
  positive_id,
}

abbrev pub IsFile : Entry → Type 0
IsFile absent = ⊥
IsFile failing = ⊥
IsFile (file b) = Unit

abbrev pub IsReadable : Entry → Type 0
IsReadable absent = Unit
IsReadable failing = ⊥
IsReadable (file b) = Unit

-- The pair that makes a set complete, with nothing that cannot be examined.
abbrev pub IsComplete : Dir → Type 0
IsComplete d =
    IsFile d.mpk_file × IsFile d.info_file × IsReadable d.emwp_file × IsReadable d.emwp_info_file

-- The schema that a directory records: the sidecar's, or 1 where there is no sidecar.
abbrev pub Records : Dir → ℕ → Type 0
Records d id =
    (read_schema_sidecar d.schema_file ≡ ok (id, true))
    ⊎ ((read_schema_sidecar d.schema_file ≡ ok (0, false)) × (id ≡ 1))

positive_id-present :
    (text : Bytes) (r : Result NumError ℤ) (id : ℕ) (there : Bool)
    → positive_id text r ≡ ok (id, there)
    → there ≡ true
positive_id-present text (ok (pos (suc n))) id there h = sym (ap flag h)
  where
    flag : Result WrapError (ℕ × Bool) → Bool
    flag (ok (n, b)) = b
    flag (err e) = true
positive_id-present text (ok (pos zero)) id there h = cc
positive_id-present text (ok (negsuc n)) id there h = cc
positive_id-present text (err e) id there h = cc

-- Without a sidecar the id is 0.
sidecar_absent : (e : Entry) (id : ℕ) → read_schema_sidecar e ≡ ok (id, false) → id ≡ 0
unfolding read_schema_sidecar
sidecar_absent absent id h = ground arith
sidecar_absent failing id h = cc
sidecar_absent (file text) id h = cc (positive_id-present text _ id false h)

IsComplete-of_reuse :
    (d : Dir) (want : ℕ) → check_existing_artifacts d want ≡ ok true → IsComplete d
unfolding check_existing_artifacts
IsComplete-of_reuse d want h = ground arith

sidecar_of_reuse :
    (d : Dir) (want : ℕ)
    → check_existing_artifacts d want ≡ ok true
    → (id : ℕ) × (there : Bool) × (read_schema_sidecar d.schema_file ≡ ok (id, there))
      × ((if there then id else 1) ≡ want)
unfolding check_existing_artifacts
sidecar_of_reuse d want h = elim (Result-cases (read_schema_sidecar d.schema_file)) [
  | inl ((id, there), e) ↦ (id, there, e, ground arith)
  | inr (_, e) ↦ absurd (ground arith)
]

Records-of_reuse : (d : Dir) (want : ℕ) → check_existing_artifacts d want ≡ ok true → Records d want
Records-of_reuse d want h = let (id, there, e, g) = sidecar_of_reuse d want h in go id there e g
  where
    go :
        (id : ℕ) (there : Bool)
        → read_schema_sidecar d.schema_file ≡ ok (id, there)
        → (if there then id else 1) ≡ want
        → Records d want
    go id true e g = inl (e ∙ ap (λ n. ok (n, true)) g)
    go id false e g = inr (e ∙ ap (λ n. ok (n, false)) (sidecar_absent _ id e), sym g)

reuse_of_complete :
    (d : Dir) (want : ℕ) → IsComplete d → Records d want → check_existing_artifacts d want ≡ ok true
unfolding check_existing_artifacts
reuse_of_complete d want c r = ground arith

-- Artifacts are reused exactly when the image and the info file are there, nothing fails to be
-- examined, and the schema on record is the one that is wanted.
pub check_existing_artifacts_iff :
    (d : Dir) (want : ℕ)
    → (check_existing_artifacts d want ≡ ok true) ↔ (IsComplete d × Records d want)
check_existing_artifacts_iff d want = (
  (λ h. (IsComplete-of_reuse d want h, Records-of_reuse d want h)),
  λ (c, r). reuse_of_complete d want c r,
)

-- Without any of the four files nothing is reused and nothing is refused, unless the sidecar cannot
-- be read.
pub check_existing_artifacts-empty :
    (d : Dir) (want : ℕ) {s : ℕ × Bool}
    → d.mpk_file ≡ absent
    → d.info_file ≡ absent
    → d.emwp_file ≡ absent
    → d.emwp_info_file ≡ absent
    → read_schema_sidecar d.schema_file ≡ ok s
    → check_existing_artifacts d want ≡ ok false
unfolding check_existing_artifacts
check_existing_artifacts-empty d want a b c e h = ground arith
