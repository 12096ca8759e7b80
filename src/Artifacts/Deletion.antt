-- ===== src/Artifacts/Deletion.antt =====
-- wrap/delete.go: the removal of the published files, interrupted or with failures.
use mathlib.Core.Path.{subst}
use modelwrap.Prelude.{
  ℕ, zero, suc, ◌<◌, ◌≡◌, ◌↔◌, ◌⊎◌, inl, inr, refl, sym, ap, ◌∙◌, Bool, true, false, List, [], ◌∷◌,
  ◌++◌, arith, take, ok, if◌then◌else◌,
}
use modelwrap.Artifacts.{
  Dir, Entry, absent, failing, file, entry, put, Suffix, mpk, info, emwp, emwp_info, schema,
  check_existing_artifacts, read_schema_sidecar,
}
use modelwrap.Artifacts.Publish.{recorded}
use modelwrap.Artifacts.Reuse.{
  IsFile, IsReadable, IsComplete, Records, check_existing_artifacts_iff,
}

-- The order of removal. The five fixed *.tmp names that follow in the list of `Delete` are not among
-- the published files, and are left out.
abbrev pub removal_order : List Suffix
removal_order = emwp_info ∷ emwp ∷ info ∷ mpk ∷ schema ∷ []

abbrev is_absent : Entry → Bool
is_absent absent = true
is_absent failing = false
is_absent (file b) = false

-- `os.Remove(base + suffix)`; a missing file is no error, and a failure leaves the file.
abbrev pub remove_one : (Suffix → Bool) → Suffix → Dir × List Suffix → Dir × List Suffix
remove_one fails suffix (d, errs) =
    if is_absent (entry d suffix)
    then (d, errs)
    else if fails suffix
    then (d, errs ++ (suffix ∷ []))
    else (put d suffix absent, errs)

-- The loop of `Delete` over the published suffixes: it goes on behind a failure.
unfoldable pub remove_suffixes :
    (Suffix → Bool) → List Suffix → Dir × List Suffix → Dir × List Suffix
remove_suffixes fails [] s = s
remove_suffixes fails (suffix ∷ rest) s = remove_suffixes fails rest (remove_one fails suffix s)

-- What is left of an entry.
abbrev left : (Suffix → Bool) → Suffix → Entry → Entry
left fails suffix e = if fails suffix then e else absent

remove_one-left :
    (fails : Suffix → Bool) (s : Suffix) (t : Dir × List Suffix)
    → (remove_one fails s t).0 ≡ put t.0 s (left fails s (entry t.0 s))
remove_one-left fails mpk (d, errs) = ground arith
remove_one-left fails info (d, errs) = ground arith
remove_one-left fails emwp (d, errs) = ground arith
remove_one-left fails emwp_info (d, errs) = ground arith
remove_one-left fails schema (d, errs) = ground arith

-- The directory behind the removals.
left_after : (Suffix → Bool) → List Suffix → Dir → Dir
left_after fails [] d = d
left_after fails (s ∷ rest) d = left_after fails rest (put d s (left fails s (entry d s)))

remove_suffixes-left :
    (fails : Suffix → Bool) (l : List Suffix) (t : Dir × List Suffix)
    → (remove_suffixes fails l t).0 ≡ left_after fails l t.0
unfolding remove_suffixes left_after
remove_suffixes-left fails [] t = refl
remove_suffixes-left fails (s ∷ rest) t =
    remove_suffixes-left fails rest (remove_one fails s t)
    ∙ ap (left_after fails rest) (remove_one-left fails s t)

remove_suffixes-all :
    (fails : Suffix → Bool) (d : Dir)
    → (remove_suffixes fails removal_order (d, [])).0 ≡ record {
      mpk_file = left fails mpk d.mpk_file;
      info_file = left fails info d.info_file;
      emwp_file = left fails emwp d.emwp_file;
      emwp_info_file = left fails emwp_info d.emwp_info_file;
      schema_file = left fails schema d.schema_file;
    }
unfolding left_after
remove_suffixes-all fails d = remove_suffixes-left fails removal_order (d, [])

IsReadable-left :
    (fails : Suffix → Bool) (s : Suffix) (e : Entry) → IsReadable e → IsReadable (left fails s e)
IsReadable-left fails s e h = ground arith

put-info : (s : Suffix) (d : Dir) → d.info_file ≡ absent → (put d s absent).info_file ≡ absent
put-info mpk d h = h
put-info info d h = refl
put-info emwp d h = h
put-info emwp_info d h = h
put-info schema d h = h

left_after-info :
    (l : List Suffix) (d : Dir)
    → d.info_file ≡ absent
    → (left_after (λ _. false) l d).info_file ≡ absent
unfolding left_after
left_after-info [] d h = h
left_after-info (s ∷ rest) d h = left_after-info rest (put d s absent) (put-info s d h)

-- The three entries of two equal directories.
same_entries :
    (t u : Dir)
    → t ≡ u
    → (t.mpk_file ≡ u.mpk_file) × (t.info_file ≡ u.info_file) × (t.schema_file ≡ u.schema_file)
same_entries t u e = (
  ap (λ (x : Dir). x.mpk_file) e,
  ap (λ (x : Dir). x.info_file) e,
  ap (λ (x : Dir). x.schema_file) e,
)

-- A deletion that is cut off behind any number of removals leaves no set that a request reuses,
-- unless it had not reached the info file: the image, the info file and the sidecar are then as
-- they were.
pub remove_suffixes-interrupted :
    (k : ℕ) (d : Dir) (want : ℕ)
    → let t = (remove_suffixes (λ _. false) (take k removal_order) (d, [])).0 in
      check_existing_artifacts t want ≡ ok true
      → (k < 3)
        × (t.mpk_file ≡ d.mpk_file)
        × (t.info_file ≡ d.info_file)
        × (t.schema_file ≡ d.schema_file)
unfolding left_after
remove_suffixes-interrupted zero d want h =
    let (a, b, c) =
      same_entries _ _ (remove_suffixes-left (λ _. false) (take 0 removal_order) (d, [])) in
    (omega arith, a, b, c)
remove_suffixes-interrupted (suc zero) d want h =
    let (a, b, c) =
      same_entries _ _ (remove_suffixes-left (λ _. false) (take 1 removal_order) (d, [])) in
    (omega arith, a, b, c)
remove_suffixes-interrupted (suc (suc zero)) d want h =
    let (a, b, c) =
      same_entries _ _ (remove_suffixes-left (λ _. false) (take 2 removal_order) (d, [])) in
    (omega arith, a, b, c)
remove_suffixes-interrupted (suc (suc (suc k))) d want h =
    let l = take (suc (suc (suc k))) removal_order in
    let gone =
      ap (λ (t : Dir). t.info_file) (remove_suffixes-left (λ _. false) l (d, []))
      ∙ left_after-info (take k (mpk ∷ schema ∷ []))
          (record d { emwp_info_file = absent; emwp_file = absent; info_file = absent }) refl in
    absurd (subst IsFile gone ((check_existing_artifacts_iff _ want).0 h).0.1)

is_left :
    (fails : Suffix → Bool) (s : Suffix) (e : Entry) → IsFile (left fails s e) → fails s ≡ true
is_left fails s e h = ground arith

left_is :
    (fails : Suffix → Bool) (s : Suffix) (e : Entry)
    → IsFile e
    → fails s ≡ true
    → IsFile (left fails s e)
left_is fails s e h f = ground arith

-- The schema on record where the sidecar stays (`true`) or goes.
abbrev RecordsIn : Entry → ℕ → Type 0
RecordsIn e id =
    (read_schema_sidecar e ≡ ok (id, true)) ⊎ ((read_schema_sidecar e ≡ ok (0, false)) × (id ≡ 1))

left_schema :
    (stays : Bool) (e : Entry) (id want : ℕ)
    → read_schema_sidecar e ≡ ok (id, true)
    → RecordsIn (if stays then e else absent) want
    → want ≡ (if stays then id else 1)
unfolding read_schema_sidecar
left_schema true e id want own r = recorded want e id own r
left_schema false e id want own r = ground arith

schema_left :
    (stays : Bool) (e : Entry) (id want : ℕ)
    → read_schema_sidecar e ≡ ok (id, true)
    → want ≡ (if stays then id else 1)
    → RecordsIn (if stays then e else absent) want
unfolding read_schema_sidecar
schema_left true e id want own r = inl (own ∙ ap (λ n. ok (n, true)) (sym r))
schema_left false e id want own r = inr (refl, r)

module _ (fails : Suffix → Bool) (d : Dir) (id : ℕ) (complete : IsComplete d)
    (own : read_schema_sidecar d.schema_file ≡ ok (id, true)) where
  abbrev rest : Dir
  rest = (remove_suffixes fails removal_order (d, [])).0

  abbrev what_is_left : Dir
  what_is_left = record {
    mpk_file = left fails mpk d.mpk_file;
    info_file = left fails info d.info_file;
    emwp_file = left fails emwp d.emwp_file;
    emwp_info_file = left fails emwp_info d.emwp_info_file;
    schema_file = left fails schema d.schema_file;
  }

  -- When what is left of the files is reused.
  Survives : ℕ → Type 0
  Survives want =
      (fails info ≡ true) × (fails mpk ≡ true) × (want ≡ (if fails schema then id else 1))

  Survives-of : (want : ℕ) → IsComplete what_is_left × Records what_is_left want → Survives want
  unfolding Survives
  Survives-of want (c, r) = (
    is_left fails info d.info_file c.1,
    is_left fails mpk d.mpk_file c.0,
    left_schema (fails schema) d.schema_file id want own r,
  )

  of_Survives : (want : ℕ) → Survives want → IsComplete what_is_left × Records what_is_left want
  unfolding Survives
  of_Survives want (i, m, e) = (
    (
      left_is fails mpk d.mpk_file complete.0 m,
      left_is fails info d.info_file complete.1 i,
      IsReadable-left fails emwp d.emwp_file complete.2,
      IsReadable-left fails emwp_info d.emwp_info_file complete.3,
    ),
    schema_left (fails schema) d.schema_file id want own e,
  )

  -- The loop goes on behind a removal that fails. Where the set was complete and its sidecar
  -- recorded a schema, what is left of it is reused exactly when the removals of both the image
  -- and the info file failed and the wanted schema is the recorded one or, if the sidecar was
  -- removed all the same, schema 1.
  pub remove_suffixes-failing :
      (want : ℕ)
      → (check_existing_artifacts rest want ≡ ok true)
        ↔ ((fails info ≡ true) × (fails mpk ≡ true) × (want ≡ (if fails schema then id else 1)))
  unfolding Survives
  remove_suffixes-failing want =
      let e = remove_suffixes-all fails d in
      (
        (λ r. Survives-of want (
            (check_existing_artifacts_iff what_is_left want).0
              (subst (λ t. check_existing_artifacts t want ≡ ok true) e r))),
        λ s.
            subst (λ t. check_existing_artifacts t want ≡ ok true) (sym e)
              ((check_existing_artifacts_iff what_is_left want).1 (of_Survives want s)),
      )
