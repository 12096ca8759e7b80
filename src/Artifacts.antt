-- ===== src/Artifacts.antt =====
-- wrap/wrap.go: the published files of one revision, when they may be reused, and how they are
-- published. An operation is a function of the directory; the temporary file of a staged write is
-- the content that its rename puts in place.
pub mod Reuse
pub mod Publish
pub mod Deletion
use modelwrap.Prelude.{
  ℕ, zero, suc, ◌≡◌, Bool, true, false, not, ◌&&◌, ◌||◌, List, [], ◌∷◌, ◌++◌, Bytes, codes,
  trim_space, atoi, itoa, ℤ, pos, negsuc, NumError, Option, none, some, Result, ok, err, ◌>>=◌,
  ◌>>◌, refuse_if, map_err, ltb, ◌==◌, beq, if◌then◌else◌,
}

-- base + ".mpk", ".info", ".emwp", ".emwp.info", ".schema"
pub data Suffix : Type 0 where
  mpk info emwp emwp_info schema : Suffix

-- What `os.Stat` and `os.ReadFile` find under a name; `failing` is any error but "not exist".
pub data Entry : Type 0 where
  absent failing : Entry
  file : Bytes → Entry

pub record Dir : Type 0 where
  pub mpk_file : Entry
  pub info_file : Entry
  pub emwp_file : Entry
  pub emwp_info_file : Entry
  pub schema_file : Entry

abbrev pub entry : Dir → Suffix → Entry
entry d mpk = d.mpk_file
entry d info = d.info_file
entry d emwp = d.emwp_file
entry d emwp_info = d.emwp_info_file
entry d schema = d.schema_file

abbrev pub put : Dir → Suffix → Entry → Dir
put d mpk e = record d { mpk_file = e }
put d info e = record d { info_file = e }
put d emwp e = record d { emwp_file = e }
put d emwp_info e = record d { emwp_info_file = e }
put d schema e = record d { schema_file = e }

pub data WrapError : Type 0 where
  stat_failed : Suffix → WrapError
  sidecar_failed : WrapError
  invalid_sidecar : Bytes → WrapError
  partial_set : List Suffix → List Suffix → WrapError
  schema_mismatch : ℕ → ℕ → WrapError
  stage_failed rename_failed : Suffix → WrapError
  injected_crash : Bytes → WrapError

-- The variables of the loop over the four suffixes.
pub record Scan : Type 0 where
  pub found : List Suffix
  pub missing : List Suffix
  pub complete : Bool

abbrev pub is_needed : Suffix → Bool
is_needed mpk = true
is_needed info = true
is_needed emwp = false
is_needed emwp_info = false
is_needed schema = false

-- One round: `os.Stat(base + suffix)`.
abbrev pub scan_one : Suffix → Entry → Scan → Result WrapError Scan
scan_one suffix (file b) s = ok (record s { found = s.found ++ (suffix ∷ []) })
scan_one suffix failing s = err (stat_failed suffix)
scan_one suffix absent s = ok (
    if is_needed suffix
    then record s { complete = false; missing = s.missing ++ (suffix ∷ []) }
    else s)

unfoldable pub scan_suffixes : Dir → List Suffix → Scan → Result WrapError Scan
scan_suffixes d [] s = ok s
scan_suffixes d (suffix ∷ rest) s = scan_one suffix (entry d suffix) s >>= scan_suffixes d rest

abbrev pub positive_id : Bytes → Result NumError ℤ → Result WrapError (ℕ × Bool)
positive_id text (ok (pos (suc n))) = ok (suc n, true)
positive_id text (ok (pos zero)) = err (invalid_sidecar text)
positive_id text (ok (negsuc n)) = err (invalid_sidecar text)
positive_id text (err e) = err (invalid_sidecar text)

-- The id in a sidecar, and whether there is one.
unfoldable pub read_schema_sidecar : Entry → Result WrapError (ℕ × Bool)
read_schema_sidecar absent = ok (0, false)
read_schema_sidecar failing = err sidecar_failed
read_schema_sidecar (file text) = positive_id text (atoi (trim_space text))

-- The verdict behind the loop and the sidecar.
unfoldable pub judge : ℕ → Scan → ℕ × Bool → Result WrapError Bool
judge want s (id, sidecar_present) =
    let got = if sidecar_present then id else 1 in
    elim s.found [
      | [] ↦ ok false
      | first ∷ rest ↦
          if not s.complete
          then err (partial_set s.found s.missing)
          else if not (got == want)
          then err (schema_mismatch got want)
          else ok true
    ]

unfoldable pub check_existing_artifacts : Dir → ℕ → Result WrapError Bool
unfolding scan_suffixes judge
check_existing_artifacts d want = do
  s ←
      scan_suffixes d (mpk ∷ info ∷ emwp ∷ emwp_info ∷ [])
        (record { found = []; missing = []; complete = true })
  sidecar ← read_schema_sidecar d.schema_file
  judge want s sidecar

-- Which operations on the file system fail in a run.
pub record Faults : Type 0 where
  pub stage : Suffix → Bool
  pub rename : Suffix → Bool
  -- The temporary file of the recovered plaintext is not made, written or synced.
  pub recover : Bool

-- `writeStaged`: a failure at any of its steps leaves the published name as it was.
unfoldable pub write_staged : Faults → Dir → Suffix → Bytes → Dir × Option WrapError
write_staged w d suffix text =
    if w.stage suffix
    then (d, some (stage_failed suffix))
    else if w.rename suffix
    then (d, some (rename_failed suffix))
    else (put d suffix (file text), none)

unfoldable pub backfill_schema_sidecar : Faults → Dir → ℕ → Dir × Option WrapError
unfolding write_staged
backfill_schema_sidecar w d id = elim (read_schema_sidecar d.schema_file) [
  | err e ↦ (d, some e)
  | ok (_, sidecar_present) ↦
      if sidecar_present then (d, none) else write_staged w d schema (itoa id)
]

-- What follows a step that may have failed.
abbrev pub and_then :
    Dir × Option WrapError → (Dir → Dir × Option WrapError) → Dir × Option WrapError
and_then (d, some e) next = (d, some e)
and_then (d, none) next = next d

-- `testCrashAfter(step)`, where the variable of the environment is `crash_after`.
abbrev pub test_crash_after : Bytes → Bytes → Dir → Dir × Option WrapError
test_crash_after crash_after step d =
    (d, (if beq crash_after step then some (injected_crash step) else none))

abbrev pub rename_mwp : Faults → Bytes → Dir → Dir × Option WrapError
rename_mwp w mwp d =
    if w.rename mpk then (d, some (rename_failed mpk)) else (put d mpk (file mwp), none)

-- `publishArtifacts`: the sidecar, the image, and the info file last.
unfoldable pub publish_artifacts : Faults → Bytes → Dir → ℕ → Bytes → Bytes → Dir × Option WrapError
unfolding write_staged
publish_artifacts w crash_after d schema_id mwp ref =
    and_then (write_staged w d schema (itoa schema_id)) λ d1.
      and_then (test_crash_after crash_after (codes ".schema") d1) λ d2.
        and_then (rename_mwp w mwp d2) λ d3.
          and_then (test_crash_after crash_after (codes ".mpk") d3) λ d4. write_staged w d4 info ref
