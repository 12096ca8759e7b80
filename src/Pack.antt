-- ===== src/Pack.antt =====
-- wrap/wrap.go: Pack, over the directory of one revision. What is not the repository's own code runs
-- as a field of `Tools`; what another process does before the lock is taken is the directory that the
-- first check sees.
pub mod Resolve
pub mod Kept
pub mod Packed
pub mod Again
pub mod Fresh
pub mod Sealed
pub mod Driver
use modelwrap.Prelude.{
  ℕ, zero, suc, true, false, not, ◌||◌, Bool, List, [], ◌∷◌, ◌++◌, Bytes, codes, length, get_or,
  if◌then◌else◌, Option, none, some, Result, ok, err, map_err, ℤ, pos, negsuc, trim_space,
}
use modelwrap.Ref.{ArtifactRef, to_string}
use modelwrap.Verity.{Sha256}
use modelwrap.Disk.{File}
use modelwrap.Disk.Tabulate.{tabulate}
use modelwrap.Crypt.{Xts}
use modelwrap.Schema.{
  PackSchema, SchemaError, unknown_schema, default_schema, pack_schemas, schema_by_id,
}
use modelwrap.Artifacts.{
  Dir, Entry, absent, failing, file, Suffix, mpk, info, emwp, emwp_info, schema, put, WrapError,
  Faults, stage_failed, rename_failed, check_existing_artifacts, backfill_schema_sidecar,
  publish_artifacts, write_staged,
}
use modelwrap.Build.{Uuids, BuildError, VerifyError, build_mwp, parse_info_file, verify_mwp}
use modelwrap.Emwp.{Hkdf, Sgdisk, EmwpError, derive_key, encrypt_emwp, verify_emwp}
use modelwrap.Key.{KeyHost, KeyError, load_master_key}

-- The programs and packages that a run uses, and what they do in it.
pub record Tools : Type 1 where
  pub sha256 : Sha256
  pub uuids : Uuids
  pub xts : Xts
  pub hkdf : Hkdf
  pub sgdisk : Sgdisk
  pub keys : KeyHost
  pub num_cpu : ℕ
  -- `mkfs.erofs` of a schema, with its arguments but for the image's name.
  pub mkfs : PackSchema → List Bytes → Option File
  -- `veritysetup verify` on the bytes of an artifact.
  pub veritysetup : List Bytes → Bytes → Bool
  -- MkdirAll, the seeding, the download and the removal of its cache, and the lock.
  pub make_dirs : Bool
  pub seed : Bool
  pub download : Bool
  pub clean_cache : Bool
  pub lock : Bool

-- The parts of Options that matter behind resolveModel.
pub record Request : Type 0 where
  pub model : Bytes
  pub model_dir : Bytes
  pub is_local_dir : Bool
  pub encrypt : Bool
  pub verify : Bool
  pub key_file : Bytes

pub data PackError : Type 0 where
  bad_schema : SchemaError → PackError
  negative_schema mkdir_failed seed_failed download_failed clean_failed lock_failed : PackError
  wrap_failed : WrapError → PackError
  mkfs_failed : PackError
  build_failed : BuildError → PackError
  unreadable_info missing_mpk verification_failed stat_failed recover_failed : PackError
  verify_failed : VerifyError → PackError
  key_failed : KeyError → PackError
  emwp_failed : EmwpError → PackError

-- A run's effect on the directory, and its value or error.
abbrev pub Action : Type 0 → Type 0
Action A = Dir → Dir × Result PackError A

abbrev pub pure : {A : Type 0} → A → Action A
pure a d = (d, ok a)

infixl 5 ◌>>=◌ ◌>>◌
unfoldable pub then_run :
    {A B : Type 0} → (A → Action B) → Dir × Result PackError A → Dir × Result PackError B
then_run f (d, ok a) = f a d
then_run f (d, err e) = (d, err e)

abbrev pub ◌>>=◌ : {A B : Type 0} → Action A → (A → Action B) → Action B
◌>>=◌ m f d = then_run f (m d)

abbrev pub ◌>>◌ : {B : Type 0} → Action (Unit {0}) → Action B → Action B
m >> k = m >>= λ _. k

abbrev pub lift : {E A : Type 0} → (E → PackError) → Result E A → Action A
lift f r d = (d, map_err f r)

abbrev pub require : Bool → PackError → Action (Unit {0})
require test e d = (d, (if test then ok tt else err e))

abbrev pub as_result : Dir × Option WrapError → Dir × Result PackError (Unit {0})
as_result (d, none) = (d, ok tt)
as_result (d, some e) = (d, err (wrap_failed e))

abbrev pub step : (Dir → Dir × Option WrapError) → Action (Unit {0})
step f d = as_result (f d)

-- `os.ReadFile`
abbrev pub content : PackError → Entry → Result PackError Bytes
content e absent = err e
content e failing = err e
content e (file b) = ok b

abbrev pub read : PackError → (Dir → Entry) → Action Bytes
read e which d = (d, content e (which d))

-- By what stands under the name of the EMWP image.
abbrev pub on_emwp : Entry → Action (Unit {0}) → Action (Unit {0})
on_emwp (file b) encrypt = pure tt
on_emwp failing encrypt = λ d. (d, err stat_failed)
on_emwp absent encrypt = encrypt

-- The bytes of a file, and a file of bytes.
unfoldable pub bytes_of : File → Bytes
bytes_of f = tabulate f.size f.byte

abbrev pub file_of : Bytes → File
file_of b = record { size = length b; byte = λ i. get_or b i 0 }

-- `SchemaByID` with the default for 0; no registered id is negative.
abbrev pub schema_of : Tools → ℤ → Result PackError PackSchema
schema_of t (pos zero) =
    map_err bad_schema (schema_by_id (pack_schemas t.uuids.uuid_v5_url t.num_cpu) default_schema)
schema_of t (pos (suc n)) =
    map_err bad_schema (schema_by_id (pack_schemas t.uuids.uuid_v5_url t.num_cpu) (suc n))
schema_of t (negsuc n) = err negative_schema

module _ (t : Tools) (w : Faults) (crash_after : Bytes) where
  -- `buildMWP` and `publishArtifacts`
  unfoldable pub build_and_publish : PackSchema → Request → Action (Unit {0})
  build_and_publish s q = do
    _ ← require (not (w.stage mpk)) (wrap_failed (stage_failed mpk))
    image ← (λ d. (
      d,
      elim (t.mkfs s (s.mkfs_args q.model [] q.model_dir)) [
        | none ↦ err mkfs_failed
        | some f ↦ ok f
      ],
    ))
    built ← lift build_failed (build_mwp t.sha256 t.uuids q.model t.num_cpu image)
    step (λ d. publish_artifacts w crash_after d s.id (bytes_of built.0) built.1)

  -- `VerifyMWP` of the published files.
  unfoldable pub verify_published : Request → Action (Unit {0})
  verify_published q = do
    text ← read unreadable_info (λ d. d.info_file)
    _ ← lift verify_failed (parse_info_file text)
    image ← read missing_mpk (λ d. d.mpk_file)
    args ← lift verify_failed (verify_mwp t.sha256 (codes ".mpk") text q.model)
    require (t.veritysetup args image) verification_failed

  -- The rename at the end of encryptEMWP.
  abbrev pub place_emwp : Result EmwpError File → Action (Unit {0})
  place_emwp (err e) d = (d, err (emwp_failed e))
  place_emwp (ok img) d = as_result (
      if w.rename emwp
      then (d, some (rename_failed emwp))
      else (put d emwp (file (bytes_of img)), none))

  -- `os.Stat(emwpFile)`, and the encryption where there is no such file.
  unfoldable pub ensure_emwp : ArtifactRef → Bytes → Action (Unit {0})
  ensure_emwp r master_key d =
      on_emwp d.emwp_file
        (read missing_mpk (λ d'. d'.mpk_file) >>= λ mwp.
          require (not (w.stage emwp)) (wrap_failed (stage_failed emwp))
          >> place_emwp (encrypt_emwp t.xts t.hkdf t.uuids.uuid_v5_url t.sgdisk mwp r master_key))
        d

  -- `VerifyEMWP`: the recovered plaintext goes through veritysetup.
  unfoldable pub verify_emwp_published : Request → Bytes → Action (Unit {0})
  verify_emwp_published q master_key = do
    text ← read unreadable_info (λ d. d.emwp_info_file)
    r ← lift verify_failed (parse_info_file text)
    image ← read missing_mpk (λ d. d.emwp_file)
    _ ← lift emwp_failed (derive_key t.hkdf master_key r)
    require (not w.recover) recover_failed
    done ← lift emwp_failed (
        verify_emwp t.xts t.sha256 t.hkdf (file_of image) (codes ".emwp.verify") text master_key
          q.model)
    require (t.veritysetup done.1 done.0) verification_failed

  abbrev pub outer_ref : Request → ArtifactRef → ArtifactRef
  outer_ref q r = record r { uuid = t.uuids.uuid_v5_url (q.model ++ codes "-emwp-outer") }

  -- The part of Pack behind `if !opts.Encrypt`.
  unfoldable pub pack_encrypted : Request → ArtifactRef → Action Bytes
  unfolding ensure_emwp verify_emwp_published
  pack_encrypted q r = do
    master_key ← lift key_failed (load_master_key t.keys q.key_file)
    ensure_emwp (outer_ref q r) master_key
    step (λ d. write_staged w d emwp_info (to_string (outer_ref q r)))
    if q.verify then verify_emwp_published q master_key else pure tt
    pure (to_string (outer_ref q r))

  -- The artifacts of the schema are there: found, or built.
  unfoldable pub ensure_mwp : PackSchema → Request → Action (Unit {0})
  unfolding build_and_publish
  ensure_mwp s q = do
    reuse ← (λ d. (d, map_err wrap_failed (check_existing_artifacts d s.id)))
    if reuse then step (λ d. backfill_schema_sidecar w d s.id) else build_and_publish s q

  -- Pack under the artifact lock.
  unfoldable pub pack_locked : PackSchema → Request → Action Bytes
  unfolding ensure_mwp verify_published pack_encrypted
  pack_locked s q = do
    ensure_mwp s q
    if q.verify then verify_published q else pure tt
    text ← read unreadable_info (λ d. d.info_file)
    r ← lift verify_failed (parse_info_file text)
    if q.encrypt then pack_encrypted q r else pure (to_string r)

  -- Pack behind resolveModel; `before` is the directory of the check before the download.
  unfoldable pub pack_revision : Dir → PackSchema → Request → Action Bytes
  unfolding pack_locked
  pack_revision before s q = do
    _ ← lift wrap_failed (check_existing_artifacts before s.id)
    require (q.is_local_dir || t.seed) seed_failed
    require (q.is_local_dir || t.download) download_failed
    require (q.is_local_dir || t.clean_cache) clean_failed
    require t.make_dirs mkdir_failed
    require t.lock lock_failed
    pack_locked s q
