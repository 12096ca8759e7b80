-- ===== src/Artifacts/Publish.antt =====
-- What a publish leaves, completed or not.
use modelwrap.Prelude.{
  ℕ, zero, suc, ◌<◌, ◌^◌, ◌≡◌, ◌≢◌, ◌↔◌, ◌⊎◌, inl, inr, refl, sym, ap, ◌∙◌, true, false, [], ◌∷◌,
  ◌++◌, Bytes, arith, ok, itoa, trim_space, pos, Option, none, some, IsDigit, All, Option-cases,
  parse_uint, parse_uint-itoa, itoa-IsDigit, itoa-ne-nil, atoi, atoi-digits, trim_space_graphic,
  is_graphic,
}
use mathlib.Core.Path.{subst}
use modelwrap.Artifacts.{
  Dir, Entry, absent, file, check_existing_artifacts, read_schema_sidecar, WrapError, Faults,
  publish_artifacts,
}
use modelwrap.Artifacts.Reuse.{IsFile, IsReadable, check_existing_artifacts_iff}

-- A text of digits has a last one.
last-IsDigit :
    (c : ℕ) (s : Bytes)
    → All IsDigit (c ∷ s)
    → (t : Bytes) × (b : ℕ) × (c ∷ s ≡ t ++ b ∷ []) × IsDigit b
last-IsDigit c [] h = ([], c, refl, h.0)
last-IsDigit c (d ∷ s) h =
    let (t, b, e, hb) = last-IsDigit d s h.1 in (c ∷ t, b, ap (λ r. c ∷ r) e, hb)

graphic_digit : (c : ℕ) → IsDigit c → is_graphic c ≡ true
graphic_digit c h = ground arith

trim_space-digits : (s : Bytes) → s ≢ [] → All IsDigit s → trim_space s ≡ s
trim_space-digits [] ne h = absurd (ne refl)
trim_space-digits (c ∷ s) ne h =
    let (t, b, e, hb) = last-IsDigit c s h in
    trim_space_graphic c s b t e (graphic_digit c h.0) (graphic_digit b hb)

atoi-parse_uint :
    (s : Bytes) (n : ℕ)
    → s ≢ []
    → All IsDigit s
    → n < 2 ^ 63
    → parse_uint s ≡ ok n
    → atoi s ≡ ok (pos n)
atoi-parse_uint [] n ne h lt e = absurd (ne refl)
atoi-parse_uint (c ∷ s) n ne h lt e = atoi-digits c s n h.0 lt e

-- The sidecar that the packer writes is read back.
pub read_schema_sidecar-itoa :
    (id : ℕ) → 0 < id → id < 2 ^ 63 → read_schema_sidecar (file (itoa id)) ≡ ok (id, true)
unfolding read_schema_sidecar
read_schema_sidecar-itoa (suc n) pos_id fits =
    let s = itoa (suc n) in
    rw (trim_space-digits s (itoa-ne-nil (suc n)) (itoa-IsDigit (suc n))) (
      rw (
        atoi-parse_uint s (suc n) (itoa-ne-nil (suc n)) (itoa-IsDigit (suc n)) fits
          (parse_uint-itoa (suc n) (omega arith))))
read_schema_sidecar-itoa zero pos_id fits = absurd (omega arith)

-- A sidecar records one schema.
pub recorded :
    (want : ℕ) (e : Entry) (id : ℕ)
    → read_schema_sidecar e ≡ ok (id, true)
    → (read_schema_sidecar e ≡ ok (want, true))
      ⊎ ((read_schema_sidecar e ≡ ok (0, false)) × (want ≡ 1))
    → want ≡ id
recorded want e id own r = ground arith

module _ (w : Faults) (crash_after : Bytes) (d : Dir) (schema_id : ℕ) (mwp ref : Bytes)
    (pos_id : 0 < schema_id) (fits : schema_id < 2 ^ 63) (no_mpk : d.mpk_file ≡ absent)
    (no_info : d.info_file ≡ absent) where
  abbrev after : Dir × Option WrapError
  after = publish_artifacts w crash_after d schema_id mwp ref

  reused_iff :
      (want : ℕ)
      → IsReadable d.emwp_file
      → IsReadable d.emwp_info_file
      → (check_existing_artifacts
            (record d {
              mpk_file = file mwp;
              info_file = file ref;
              schema_file = file (itoa schema_id);
            })
            want
          ≡ ok true)
        ↔ (want ≡ schema_id)
  reused_iff want he hx =
      let t : Dir = record d {
        mpk_file = file mwp;
        info_file = file ref;
        schema_file = file (itoa schema_id);
      } in
      let own = read_schema_sidecar-itoa schema_id pos_id fits in
      (
        (λ r.
            recorded want t.schema_file schema_id own
              ((check_existing_artifacts_iff t want).0 r).1),
        λ e.
            (check_existing_artifacts_iff t want).1
              ((tt, tt, he, hx), inl (own ∙ ap (λ n. ok (n, true)) (sym e))),
      )

  info_of_failed : {e : WrapError} → after.1 ≡ some e → after.0.info_file ≡ absent
  unfolding publish_artifacts
  info_of_failed h = ground arith

  -- A publish that reports no error has left exactly these bytes.
  pub publish-files :
      after.1 ≡ none
      → after.0 ≡ record d {
        mpk_file = file mwp;
        info_file = file ref;
        schema_file = file (itoa schema_id);
      }
  unfolding publish_artifacts
  publish-files h = ground arith

  -- A publish under a positive schema id that fits an int, where there are no image and no info
  -- file and the EMWP files can be examined: when it reports an error, wherever it stopped, it
  -- leaves no set that any request reuses. When it reports none, it leaves the image and the
  -- reference that it was given, and they are reused for exactly the schema under which they were
  -- packed.
  pub publish-commit :
      (want : ℕ)
      → IsReadable d.emwp_file
      → IsReadable d.emwp_info_file
      → ((after.1 ≢ none) × (check_existing_artifacts after.0 want ≢ ok true))
        ⊎ ((after.1 ≡ none)
            × (after.0.mpk_file ≡ file mwp)
            × (after.0.info_file ≡ file ref)
            × ((check_existing_artifacts after.0 want ≡ ok true) ↔ (want ≡ schema_id)))
  publish-commit want he hx = elim (Option-cases after.1) [
    | inl done ↦
        let e = publish-files done in
        inr (
          done,
          ap (λ (t : Dir). t.mpk_file) e,
          ap (λ (t : Dir). t.info_file) e,
          subst (λ t. (check_existing_artifacts t want ≡ ok true) ↔ (want ≡ schema_id)) (sym e)
              (reused_iff want he hx),
        )
    | inr (e, failed) ↦ inl (
      (λ none_left. cc (none_left, failed)),
      λ r.
          subst IsFile (info_of_failed failed)
            ((check_existing_artifacts_iff after.0 want).0 r).0.1,
    )
  ]
