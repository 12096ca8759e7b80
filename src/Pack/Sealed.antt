-- ===== src/Pack/Sealed.antt =====
-- The same with encryption: the EMWP image that is left, and what is recovered from it.
use mathlib.Core.Path.{subst, fun_ext}
use modelwrap.Prelude.{
  ℕ, zero, suc, ◌≡◌, ◌<◌, ◌≤◌, ◌^◌, refl, sym, ap, ◌∙◌, inr, true, false, [], ◌∷◌, Bytes, codes,
  if◌then◌else◌, some, Result, ok, Bool, length, get_or, arith,
}
use native.Mathlib.Decide.{dec_lt}
use modelwrap.Ref.{ArtifactRef, to_string, matches, uuid_pattern, hash_offset_bytes}
use modelwrap.Ref.Grammar.{IsValid}
use modelwrap.Ref.RoundTrip.{parse_ref_iff}
use modelwrap.Disk.{File}
use modelwrap.Disk.Laws.{IsClean}
use modelwrap.Disk.Tabulate.{tabulate, length-tabulate, get_or-tabulate}
use modelwrap.Crypt.{pad_sector}
use modelwrap.Schema.{PackSchema}
use modelwrap.Artifacts.{Dir, absent, file, emwp, put, check_existing_artifacts, write_staged}
use modelwrap.Build.{verify_mwp, parse_info_file}
use modelwrap.Build.Reference.{trim_space-to_string}
use modelwrap.Build.Accepted.{IsImage, ref_of-IsValid}
use modelwrap.Emwp.{derive_key, encrypt_emwp, verify_emwp}
use modelwrap.Emwp.Inverse.{IsTable, decrypt_payload-encrypt_emwp, verify_emwp-encrypt_emwp}
use modelwrap.Key.{load_master_key}
use modelwrap.Pack.{
  Tools, Request, then_run, ensure_emwp, verify_emwp_published, pack_locked, pack_encrypted,
  outer_ref, bytes_of, file_of, pure,
}
use modelwrap.Pack.Kept.{none_found}
use modelwrap.Pack.Fresh.{
  ensure_mwp-calm, if-calm, calm, ref, mwp, published, ref-parsed, ref-verified, verify_args,
}

ok-injective : {A E : Type 0} (a b : A) → ◌≡◌ {A = Result E A} (ok a) (ok b) → a ≡ b
ok-injective a b h = cc

get_or-beyond : (b : Bytes) (i : ℕ) → length b ≤ i → get_or b i 0 ≡ 0
get_or-beyond [] i h = refl
get_or-beyond (x ∷ b) zero h = absurd (omega arith)
get_or-beyond (x ∷ b) (suc i) h = get_or-beyond b i (omega arith)

File-ext :
    {m n : ℕ} {f g : ℕ → ℕ}
    → m ≡ n
    → f ≡ g
    → ◌≡◌ {A = File} (record { size = m; byte = f }) (record { size = n; byte = g })
File-ext e h = cc

-- The bytes of a file are the file.
file_of-bytes_of : (f : File) → IsClean f → file_of (bytes_of f) ≡ f
unfolding bytes_of
file_of-bytes_of f clean = File-ext (length-tabulate f.size f.byte) (
    fun_ext λ i. elim (dec_lt i f.size) [
      | yes lt ↦ get_or-tabulate f.size f.byte i 0 lt
      | no ge ↦
          get_or-beyond (tabulate f.size f.byte) i (omega (arith, length-tabulate f.size f.byte))
          ∙ sym (clean i (omega arith))
    ])

module _ (t : Tools) (s : PackSchema) (q : Request) (image : File)
    (fine : IsImage t.uuids q.model image)
    (made : t.mkfs s (s.mkfs_args q.model [] q.model_dir) ≡ some image) where
  abbrev inner : ArtifactRef
  inner = ref t s q image fine made

  abbrev pub outer : ArtifactRef
  outer = outer_ref t calm [] q inner

  abbrev artifact : Bytes
  artifact = mwp t s q image fine made

  -- What encryption with verification asks of a run: a key that is found and derived, a table that
  -- sgdisk makes, and a veritysetup that accepts the artifact and what is recovered from the image.
  pub record IsSealable (master_key dm_key : Bytes) : Type 0 where
    pub loaded : load_master_key t.keys q.key_file ≡ ok master_key
    pub outer_uuid : matches uuid_pattern outer.uuid ≡ true
    pub derived : derive_key t.hkdf master_key outer ≡ ok dm_key
    pub key_length : length dm_key ≡ 64
    pub mwp_fits : length artifact < 2 ^ 62
    pub table : IsTable t.uuids.uuid_v5_url t.sgdisk artifact outer
    pub accepts : t.veritysetup (verify_args t s q image fine made (codes ".mpk")) artifact ≡ true
    pub accepts_recovered :
        t.veritysetup
          (verify_args t s q image fine made (codes ".emwp.verify"))
          (pad_sector artifact)
        ≡ true

  module _ (master_key dm_key : Bytes) (can : IsSealable master_key dm_key) where
    outer-IsValid : IsValid outer
    outer-IsValid =
        let (root, offset, _) = ref_of-IsValid t.sha256 t.uuids q.model t.num_cpu image fine in
        (root, offset, can.outer_uuid)

    pub outer-parsed : parse_info_file (to_string outer) ≡ ok outer
    unfolding parse_info_file
    outer-parsed =
        rw (trim_space-to_string outer outer-IsValid)
          (rw ((parse_ref_iff (to_string outer) outer).1 (outer-IsValid, refl)))

    -- VerifyMWP does not look at the UUID.
    outer-inner :
        (name : Bytes)
        → verify_mwp t.sha256 name (to_string outer) q.model
          ≡ verify_mwp t.sha256 name (to_string inner) q.model
    unfolding verify_mwp hash_offset_bytes
    outer-inner name = rw outer-parsed (rw (ref-parsed t s q image fine made) refl)

    pub outer-verified :
        (name : Bytes)
        → verify_mwp t.sha256 name (to_string outer) q.model
          ≡ ok (verify_args t s q image fine made name)
    outer-verified name = outer-inner name ∙ ref-verified t s q image fine made name

    abbrev sealing_parts :
        (img : File) × (encrypt_emwp t.xts t.hkdf t.uuids.uuid_v5_url t.sgdisk artifact outer
            master_key
          ≡ ok img)
        × (verify_emwp t.xts t.sha256 t.hkdf img
              (codes ".emwp.verify")
              (to_string outer)
              master_key
              q.model
            ≡ ok (pad_sector artifact, verify_args t s q image fine made (codes ".emwp.verify")))
    sealing_parts =
        verify_emwp-encrypt_emwp t.xts t.hkdf t.uuids.uuid_v5_url t.sgdisk artifact master_key outer
          can.table t.sha256 dm_key (codes ".emwp.verify") (to_string outer) q.model
          (verify_args t s q image fine made (codes ".emwp.verify")) outer-parsed can.derived
          can.key_length can.mwp_fits (outer-verified (codes ".emwp.verify"))

    -- The EMWP image.
    abbrev pub sealed : File
    sealed = sealing_parts.0

    sealed-IsClean : IsClean sealed
    sealed-IsClean i beyond =
        let (img, is, size, _, _, outside) =
          decrypt_payload-encrypt_emwp t.xts t.hkdf t.uuids.uuid_v5_url t.sgdisk artifact master_key
            outer can.table dm_key can.derived can.key_length can.mwp_fits in
        let same : img ≡ sealed = ok-injective img sealed (sym is ∙ sealing_parts.1) in
        let far : img.size ≤ i = subst (λ f. f.size ≤ i) (sym same) beyond in
        ap (λ (f : File). f.byte i) (sym same)
        ∙ (outside i (inr (omega (arith, can.table.same_size, size, far)))
            ∙ can.table.clean i (omega (arith, size, far)))

    abbrev pub sealed_dir : Dir → Dir
    sealed_dir d = record (published t s q image fine made d) {
      emwp_file = file (bytes_of sealed);
      emwp_info_file = file (to_string outer);
    }

    ensure_emwp-calm :
        (d : Dir)
        → d.mpk_file ≡ file artifact
        → d.emwp_file ≡ absent
        → ensure_emwp t calm [] outer master_key d ≡ (put d emwp (file (bytes_of sealed)), ok tt)
    unfolding ensure_emwp then_run
    ensure_emwp-calm d is_mpk no_emwp = rw no_emwp (rw is_mpk (rw sealing_parts.1 refl))

    verify_emwp-calm :
        (d : Dir)
        → d.emwp_file ≡ file (bytes_of sealed)
        → d.emwp_info_file ≡ file (to_string outer)
        → verify_emwp_published t calm [] q master_key d ≡ (d, ok tt)
    unfolding verify_emwp_published then_run
    verify_emwp-calm d is_emwp is_info = rw is_info (
        rw outer-parsed (
          rw is_emwp (
            rw can.derived (
              rw (file_of-bytes_of sealed sealed-IsClean)
                (rw sealing_parts.2 (rw can.accepts_recovered refl))))))

    if-sealed :
        (b : Bool) (d : Dir)
        → (if b then verify_emwp_published t calm [] q master_key else pure tt) (sealed_dir d)
          ≡ (sealed_dir d, ok tt)
    if-sealed true d = verify_emwp-calm (sealed_dir d) refl refl
    if-sealed false d = refl

    pack_encrypted-calm :
        (d : Dir)
        → d.emwp_file ≡ absent
        → pack_encrypted t calm [] q inner (published t s q image fine made d)
          ≡ (sealed_dir d, ok (to_string outer))
    unfolding pack_encrypted then_run write_staged
    pack_encrypted-calm d no_emwp = rw can.loaded (
        rw (ensure_emwp-calm (published t s q image fine made d) refl no_emwp)
          (rw (if-sealed q.verify d) refl))

    -- Where there is none of the four files, the image that mkfs makes is well-formed, a master key of
    -- the right kind is found, sgdisk and veritysetup do their part (`IsSealable`), and no call on the
    -- file system fails: Pack with encryption, verifying or not, leaves the artifact of buildMWP, its
    -- reference, the sidecar, the EMWP image and the outer reference, and returns the outer reference.
    -- From the image that it leaves, VerifyEMWP recovers the padded artifact under the same master key,
    -- and gives the arguments for veritysetup that belong to the model and the inner reference.
    pub pack_locked-sealed :
        (d : Dir)
        → check_existing_artifacts d s.id ≡ ok false
        → q.encrypt ≡ true
        → (pack_locked t calm [] s q d ≡ (sealed_dir d, ok (to_string outer)))
          × (verify_emwp t.xts t.sha256 t.hkdf
                (file_of (bytes_of sealed))
                (codes ".emwp.verify")
                (to_string outer)
                master_key
                q.model
              ≡ ok (pad_sector artifact, verify_args t s q image fine made (codes ".emwp.verify")))
    unfolding pack_locked then_run
    pack_locked-sealed d nothing encrypting =
        let (_, _, no_emwp, _) = none_found d s.id nothing in
        (
          rw (ensure_mwp-calm t s q image fine made d nothing) (
              rw (if-calm t s q image fine made q.verify d can.accepts) (
                rw (ref-parsed t s q image fine made) (
                  ap
                    (λ b.
                      (if b then pack_encrypted t calm [] q inner else pure (to_string inner))
                        (published t s q image fine made d))
                    encrypting
                  ∙ pack_encrypted-calm d no_emwp))),
          ap
                (λ f.
                  verify_emwp t.xts t.sha256 t.hkdf f (codes ".emwp.verify") (to_string outer)
                    master_key q.model)
                (file_of-bytes_of sealed sealed-IsClean)
              ∙ sealing_parts.2,
        )
