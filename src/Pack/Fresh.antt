-- ===== src/Pack/Fresh.antt =====
-- A run of Pack where there is nothing yet and nothing fails: what it leaves, and what it prints.
use modelwrap.Prelude.{
  ℕ, ◌≡◌, refl, true, false, List, [], ◌∷◌, Bytes, codes, beq, itoa, if◌then◌else◌, none, some, ok,
  Bool,
}
use modelwrap.Ref.{ArtifactRef, to_string}
use modelwrap.Ref.RoundTrip.{parse_ref_iff}
use modelwrap.Verity.{veritysetup_args}
use modelwrap.Disk.{File}
use modelwrap.Schema.{PackSchema}
use modelwrap.Artifacts.{
  Dir, file, Faults, check_existing_artifacts, publish_artifacts, write_staged,
}
use modelwrap.Build.{build_mwp, verify_mwp, parse_info_file}
use modelwrap.Build.Reference.{trim_space-to_string}
use modelwrap.Build.Accepted.{IsImage, ref_of, ref_of-IsValid, opened_with, build_mwp-accepted}
use modelwrap.Pack.{
  Tools, Request, then_run, build_and_publish, verify_published, ensure_mwp, pack_locked, bytes_of,
  pure,
}

-- No call on the file system fails.
abbrev pub calm : Faults
calm = record { stage = λ s. false; rename = λ s. false; recover = false }

module _ (t : Tools) (s : PackSchema) (q : Request) (image : File)
    (fine : IsImage t.uuids q.model image)
    (made : t.mkfs s (s.mkfs_args q.model [] q.model_dir) ≡ some image) where
  abbrev pub ref : ArtifactRef
  ref = ref_of t.sha256 t.uuids q.model t.num_cpu image fine

  -- The file that buildMWP leaves.
  abbrev built : File
  built = (build_mwp-accepted t.sha256 t.uuids q.model t.num_cpu image fine [] [] []).0

  abbrev pub mwp : Bytes
  mwp = bytes_of built

  built_is : build_mwp t.sha256 t.uuids q.model t.num_cpu image ≡ ok (built, to_string ref)
  built_is = (build_mwp-accepted t.sha256 t.uuids q.model t.num_cpu image fine [] [] []).1

  abbrev pub published : Dir → Dir
  published d = record d {
    mpk_file = file mwp;
    info_file = file (to_string ref);
    schema_file = file (itoa s.id);
  }

  publish_calm :
      (d : Dir) (id : ℕ) (m r : Bytes)
      → publish_artifacts calm [] d id m r
        ≡ (record d { mpk_file = file m; info_file = file r; schema_file = file (itoa id) }, none)
  unfolding publish_artifacts write_staged beq
  publish_calm d id m r = refl

  build_and_publish-calm : (d : Dir) → build_and_publish t calm [] s q d ≡ (published d, ok tt)
  unfolding build_and_publish then_run
  build_and_publish-calm d =
      rw made (rw built_is (rw (publish_calm d s.id mwp (to_string ref)) refl))

  pub ensure_mwp-calm :
      (d : Dir)
      → check_existing_artifacts d s.id ≡ ok false
      → ensure_mwp t calm [] s q d ≡ (published d, ok tt)
  unfolding ensure_mwp then_run
  ensure_mwp-calm d nothing = rw nothing (build_and_publish-calm d)

  pub ref-parsed : parse_info_file (to_string ref) ≡ ok ref
  unfolding parse_info_file
  ref-parsed =
      let valid = ref_of-IsValid t.sha256 t.uuids q.model t.num_cpu image fine in
      rw (trim_space-to_string ref valid) (rw ((parse_ref_iff (to_string ref) ref).1 (valid, refl)))

  -- The arguments of veritysetup for a file.
  abbrev pub verify_args : Bytes → List Bytes
  verify_args name =
      codes "verify"
      ∷ name
      ∷ name
      ∷ ref.root_hash
      ∷ veritysetup_args (opened_with t.sha256 t.uuids q.model t.num_cpu image fine)

  pub ref-verified :
      (name : Bytes) → verify_mwp t.sha256 name (to_string ref) q.model ≡ ok (verify_args name)
  ref-verified name =
      (build_mwp-accepted t.sha256 t.uuids q.model t.num_cpu image fine name [] []).4

  verify_published-calm :
      (d : Dir)
      → t.veritysetup (verify_args (codes ".mpk")) mwp ≡ true
      → d.info_file ≡ file (to_string ref)
      → d.mpk_file ≡ file mwp
      → verify_published t calm [] q d ≡ (d, ok tt)
  unfolding verify_published then_run
  verify_published-calm d accepts is_info is_mpk =
      rw is_info (rw ref-parsed (rw is_mpk (rw (ref-verified (codes ".mpk")) (rw accepts refl))))

  pub if-calm :
      (b : Bool) (d : Dir)
      → t.veritysetup (verify_args (codes ".mpk")) mwp ≡ true
      → (if b then verify_published t calm [] q else pure tt) (published d) ≡ (published d, ok tt)
  if-calm true d accepts = verify_published-calm (published d) accepts refl refl
  if-calm false d accepts = refl

  -- Where there is none of the four files, the image that mkfs makes is well-formed, veritysetup
  -- accepts the artifact, and no call on the file system fails: Pack without encryption leaves the
  -- artifact of buildMWP, its reference and the sidecar, nothing else is changed, and it returns the
  -- reference.
  pub pack_locked-published :
      (d : Dir)
      → check_existing_artifacts d s.id ≡ ok false
      → t.veritysetup (verify_args (codes ".mpk")) mwp ≡ true
      → q.encrypt ≡ false
      → pack_locked t calm [] s q d ≡ (published d, ok (to_string ref))
  unfolding pack_locked then_run
  pack_locked-published d nothing accepts plain =
      rw (ensure_mwp-calm d nothing)
        (rw (if-calm q.verify d accepts) (rw ref-parsed (rw plain refl)))
