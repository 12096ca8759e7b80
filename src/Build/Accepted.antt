-- ===== src/Build/Accepted.antt =====
-- What buildMWP makes is what VerifyMWP and OpenVerity open.
use modelwrap.Prelude.{
  ℕ, zero, suc, ◌+◌, ◌/◌, ◌%◌, ◌^◌, ◌≡◌, ◌≤◌, ◌<◌, inl, inr, refl, sym, ap, ◌∙◌, true, ◌∷◌, ◌++◌,
  Bytes, codes, arith, length, ok, some, itoa, itoa-IsDigit, itoa-ne-nil, parse_uint,
  parse_uint-itoa, All, ltb, Bool-cases, ==_refl,
}
use mathlib.Core.Path.{subst}
use modelwrap.Ref.{ArtifactRef, parse_ref, to_string, matches, uuid_pattern, hash_offset_bytes}
use modelwrap.Ref.Grammar.{IsValid, hash_offset_digits}
use modelwrap.Ref.RoundTrip.{parse_ref_iff}
use modelwrap.Verity.{
  Sha256, VerityParams, verity_salt, verity_params_for_artifact, veritysetup_args, hex_encode,
}
use modelwrap.Verity.Params.{verity_params_iff}
use modelwrap.Disk.{File}
use modelwrap.Disk.Laws.{IsClean}
use modelwrap.Format.Geometry.{level_fuel}
use modelwrap.Format.Geometry.Tasks.{blocks_above}
use modelwrap.Format.Level.Share.{block_at}
use modelwrap.Format.Driver.Merkle.{merkle_root, parent_block}
use modelwrap.Format.Driver.Run.Format.{IsJob, format-root}
use modelwrap.Build.{
  Uuids, hash_area, format_params, build_mwp, parse_info_file, verify_mwp, open_verity,
}
use modelwrap.Build.Reference.{trim_space-to_string, hex_encode-matches}

-- Every root is a digest.
merkle_root-sum :
    (h : Sha256) (salt : Bytes) (fuel n : ℕ) (block : ℕ → Bytes)
    → (s : Bytes) × (merkle_root h salt fuel n block ≡ h.sum s)
unfolding merkle_root
merkle_root-sum h salt zero n block = (salt ++ block 0, refl)
merkle_root-sum h salt (suc fuel) n block = elim (Bool-cases (ltb 1 n)) [
  | inl more ↦
      let (s, e) = merkle_root-sum h salt fuel (blocks_above n) (parent_block h salt block n) in
      (s, rw more e)
  | inr done ↦ (salt ++ block 0, rw done)
]

-- An image as mkfs makes it, and a UUID of the standard form for the model.
pub record IsImage (u : Uuids) (model : Bytes) (image : File) : Type 0 where
  pub clean : IsClean image
  pub some_data : 0 < image.size
  pub aligned : image.size % 4096 ≡ 0
  pub fits : image.size ≤ 2 ^ 62
  pub uuid_matches : matches uuid_pattern (u.uuid_v5_url (model ++ codes "-inner")) ≡ true
  pub uuid_bytes : Bytes
  pub uuid_parses : u.parse (u.uuid_v5_url (model ++ codes "-inner")) ≡ some uuid_bytes

module _ (h : Sha256) (u : Uuids) (model : Bytes) (workers : ℕ) (image : File)
    (fine : IsImage u model image) where
  abbrev inner_root : Bytes
  inner_root = merkle_root h (verity_salt h model) level_fuel (image.size / 4096) (block_at image 0)

  -- The reference that is printed.
  abbrev pub ref_of : ArtifactRef
  ref_of = record {
    root_hash = hex_encode inner_root;
    hash_offset = itoa image.size;
    uuid = u.uuid_v5_url (model ++ codes "-inner");
  }

  -- The parameters with which the tree is opened.
  abbrev pub opened_with : VerityParams
  opened_with = record {
    salt = verity_salt h model;
    data_blocks = image.size / 4096;
    hash_tree_offset = image.size + 4096;
  }

  pub ref_of-IsValid : IsValid ref_of
  ref_of-IsValid =
      let (s, e) =
        merkle_root-sum h (verity_salt h model) level_fuel (image.size / 4096) (block_at image 0) in
      (
        hex_encode-matches 32 inner_root (ap length e ∙ h.length-sum s)
            (subst (All (λ b. b < 256)) (sym e) (h.sum-AreBytes s)),
        (hash_offset_digits (itoa image.size)).1 (itoa-ne-nil image.size, itoa-IsDigit image.size),
        fine.uuid_matches,
      )

  parsed : parse_ref (to_string ref_of) ≡ ok ref_of
  parsed = (parse_ref_iff (to_string ref_of) ref_of).1 (ref_of-IsValid, refl)

  area_is : hash_area image.size ≡ image.size
  area_is = omega (arith, fine.aligned)

  offset_parsed : parse_uint (itoa image.size) ≡ ok image.size
  offset_parsed = parse_uint-itoa image.size (omega (arith, fine.fits))

  params_derived : verity_params_for_artifact image.size (verity_salt h model) ≡ ok opened_with
  params_derived = (verity_params_iff image.size (verity_salt h model) opened_with).1 (
    (unfold verity_salt in h.length-sum model),
    fine.some_data,
    fine.fits,
    omega (arith, fine.aligned),
    refl,
    refl,
  )

  job : IsJob u.parse image (format_params h u model workers image.size)
  job = record {
    clean = fine.clean;
    salt_fits = unfold verity_salt in omega (arith, h.length-sum model);
    some_data = omega (arith, fine.some_data, fine.aligned);
    data_fits = omega (arith, fine.fits);
    aligned = fine.aligned;
    behind = omega arith;
    offset_fits = fine.fits;
    data_exists = omega arith;
    size_fits = omega (arith, fine.fits);
    uuid_bytes = fine.uuid_bytes;
    uuid_parses = fine.uuid_parses;
  }

  built :
      (g : File) × (build_mwp h u model workers image ≡ ok (g, to_string ref_of))
      × ((i : ℕ) → i < image.size → g.byte i ≡ image.byte i)
  unfolding build_mwp to_string
  built =
      let (g, e, same, _) =
        format-root h u.parse image (format_params h u model workers image.size) job in
      (g, rw area_is (rw (==_refl image.size) (rw e)), λ i lt. same i (inl lt))

  verified :
      (mwp_file : Bytes)
      → verify_mwp h mwp_file (to_string ref_of) model
        ≡ ok (
            codes "verify"
            ∷ mwp_file
            ∷ mwp_file
            ∷ hex_encode inner_root
            ∷ veritysetup_args opened_with)
  unfolding verify_mwp parse_info_file hash_offset_bytes
  verified mwp_file =
      rw (trim_space-to_string ref_of ref_of-IsValid)
        (rw parsed (rw offset_parsed (rw params_derived refl)))

  opened :
      (device name : Bytes)
      → open_verity device name ref_of.root_hash ref_of.hash_offset (verity_salt h model)
        ≡ ok (
            codes "open"
            ∷ device
            ∷ name
            ∷ device
            ∷ hex_encode inner_root
            ∷ veritysetup_args opened_with)
  unfolding open_verity
  opened device name = rw offset_parsed (rw params_derived refl)

  -- From a non-empty image of whole blocks up to 2^62 bytes, and a UUID of the standard form for
  -- the model, buildMWP makes a file that still starts with the image, and the text of a
  -- reference. ParseRef reads that reference back, its root hash is the digest tree's over the
  -- image, and both consumers open it with one and the same set of parameters: the image's number
  -- of blocks, the tree one block behind the image, and the salt of the model.
  pub build_mwp-accepted :
      (mwp_file device name : Bytes)
      → (g : File) × (build_mwp h u model workers image ≡ ok (g, to_string ref_of))
        × ((i : ℕ) → i < image.size → g.byte i ≡ image.byte i)
        × (parse_ref (to_string ref_of) ≡ ok ref_of)
        × (verify_mwp h mwp_file (to_string ref_of) model
            ≡ ok (
                codes "verify"
                ∷ mwp_file
                ∷ mwp_file
                ∷ ref_of.root_hash
                ∷ veritysetup_args opened_with))
        × (open_verity device name ref_of.root_hash ref_of.hash_offset (verity_salt h model)
            ≡ ok (
                codes "open"
                ∷ device
                ∷ name
                ∷ device
                ∷ ref_of.root_hash
                ∷ veritysetup_args opened_with))
  build_mwp-accepted mwp_file device name =
      let (g, e, same) = built in (g, e, same, parsed, verified mwp_file, opened device name)
