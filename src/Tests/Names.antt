-- ===== src/Tests/Names.antt =====
-- Examples for references, parameters and model identities.
use modelwrap.Prelude.{
  ◌+◌, ◌*◌, ◌^◌, ◌≡◌, ◌↔◌, ◌<◌, ◌≤◌, refl, Bytes, codes, ok, length, replicate, Lacks, ◌∷◌, ◌++◌,
  true, false, contains_any, contains, has_prefix, has_byte, beq, split,
}
use modelwrap.Ref.{parse_ref, to_string}
use modelwrap.Ref.Grammar.{IsValid}
use modelwrap.Ref.RoundTrip.{parse_ref_iff}
use modelwrap.Ref.Identity.{artifact_id-injective}
use modelwrap.Verity.{VerityParams, verity_params_for_artifact}
use modelwrap.Verity.Params.{verity_params_iff}
use modelwrap.Model.{
  validate_pinned_model, any_bad_segment, split_pinned_model, is_staged_leftover, staged_name,
}
use modelwrap.Model.Staged.{
  IsValidModel, is_plain_suffix, staged_name_owner, published-not-leftover,
}
use modelwrap.Model.Pinned.{split_pinned_model_iff}
use modelwrap.Tests.Data.{sample_ref, sample_ref-parsed}

parse_ref_iff_example :
    (parse_ref (codes "x_4096_y") ≡ ok sample_ref)
    ↔ (IsValid sample_ref × (to_string sample_ref ≡ codes "x_4096_y"))
parse_ref_iff_example = parse_ref_iff (codes "x_4096_y") sample_ref

artifact_id-injective_example :
    (sample_ref.root_hash ≡ sample_ref.root_hash) × (sample_ref.uuid ≡ sample_ref.uuid)
artifact_id-injective_example =
    artifact_id-injective (to_string sample_ref) (to_string sample_ref) sample_ref sample_ref
      sample_ref-parsed sample_ref-parsed refl

abbrev sample_salt : Bytes
sample_salt = replicate 32 9

abbrev sample_params : VerityParams
sample_params = record { salt = sample_salt; data_blocks = 2; hash_tree_offset = 12288 }

verity_params_iff_example : (verity_params_for_artifact 8192 sample_salt ≡ ok sample_params) ↔ (
    (length sample_salt ≡ 32)
    × (0 < 8192)
    × (8192 ≤ 2 ^ 62)
    × (2 * 4096 ≡ 8192)
    × (12288 ≡ 8192 + 4096)
    × (sample_salt ≡ sample_salt))
verity_params_iff_example = verity_params_iff 8192 sample_salt sample_params

abbrev sample_name : Bytes
sample_name = codes "org/model"

sample-IsValidModel : IsValidModel sample_name (codes "v1")
unfolding validate_pinned_model contains_any contains has_byte beq split any_bad_segment
sample-IsValidModel = refl

at-IsValidModel : IsValidModel (codes "a@b") (codes "v1")
unfolding validate_pinned_model contains_any contains has_byte beq split any_bad_segment
at-IsValidModel = refl

staged_name_owner_example :
    (is_staged_leftover (staged_name (codes "v1") (codes ".mpk") (codes "123")) (codes "v1") ≡ true)
    ↔ (codes "v1" ≡ codes "v1")
staged_name_owner_example =
    staged_name_owner sample_name (codes "v1") (codes "a@b") (codes "v1") (codes "mpk")
      (codes "123") sample-IsValidModel at-IsValidModel

mpk-is_plain_suffix : is_plain_suffix (codes ".mpk") ≡ true
unfolding contains has_prefix
mpk-is_plain_suffix = refl

published-not-leftover_example : is_staged_leftover (codes "v1" ++ codes ".mpk") (codes "v") ≡ false
published-not-leftover_example =
    published-not-leftover sample_name (codes "v1") (codes "v") (codes ".mpk") sample-IsValidModel
      mpk-is_plain_suffix

split_pinned_model_iff_example :
    (split_pinned_model (codes "a@b" ++ (b'@' ∷ codes "v1")) ≡ ok (codes "a@b", codes "v1"))
    ↔ Lacks b'@' (codes "a@b")
split_pinned_model_iff_example = split_pinned_model_iff (codes "a@b") (codes "v1") at-IsValidModel
