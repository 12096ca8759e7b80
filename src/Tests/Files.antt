-- ===== src/Tests/Files.antt =====
-- Examples for the published files.
use modelwrap.Prelude.{
  ℕ, ◌≡◌, ◌≢◌, ◌↔◌, ◌⊎◌, refl, codes, arith, ok, itoa, true, false, [], none, Bool,
}
use modelwrap.Artifacts.{
  Dir, absent, file, Faults, Suffix, mpk, info, emwp, emwp_info, schema, check_existing_artifacts,
  publish_artifacts, read_schema_sidecar,
}
use modelwrap.Artifacts.Reuse.{IsComplete, Records, check_existing_artifacts_iff}
use modelwrap.Artifacts.Publish.{publish-commit, read_schema_sidecar-itoa}
use modelwrap.Artifacts.Deletion.{removal_order, remove_suffixes, remove_suffixes-failing}

abbrev pub empty : Dir
empty = record {
  mpk_file = absent;
  info_file = absent;
  emwp_file = absent;
  emwp_info_file = absent;
  schema_file = absent;
}

abbrev whole : Dir
whole = record {
  mpk_file = file (codes "image");
  info_file = file (codes "ref");
  emwp_file = absent;
  emwp_info_file = absent;
  schema_file = file (itoa 2);
}

-- The info file cannot be staged.
abbrev pub no_info : Faults
no_info = record {
  stage = λ s. elim s [ info ↦ true | _ ↦ false ];
  rename = λ s. false;
  recover = false;
}

abbrev left_behind : Dir
left_behind = (publish_artifacts no_info [] empty 2 (codes "image") (codes "ref")).0

publish-commit_example :
    (((publish_artifacts no_info [] empty 2 (codes "image") (codes "ref")).1 ≢ none)
      × (check_existing_artifacts left_behind 2 ≢ ok true))
    ⊎ (((publish_artifacts no_info [] empty 2 (codes "image") (codes "ref")).1 ≡ none)
        × (left_behind.mpk_file ≡ file (codes "image"))
        × (left_behind.info_file ≡ file (codes "ref"))
        × ((check_existing_artifacts left_behind 2 ≡ ok true) ↔ (◌≡◌ {A = ℕ} 2 2)))
publish-commit_example =
    publish-commit no_info [] empty 2 (codes "image") (codes "ref") (omega arith) (omega arith) refl
      refl 2 tt tt

check_existing_artifacts_iff_example :
    (check_existing_artifacts whole 2 ≡ ok true) ↔ (IsComplete whole × Records whole 2)
check_existing_artifacts_iff_example = check_existing_artifacts_iff whole 2

pub sidecar_of_whole : read_schema_sidecar (file (itoa 2)) ≡ ok (2, true)
sidecar_of_whole = read_schema_sidecar-itoa 2 (omega arith) (omega arith)

-- The image and the info file stay, and the sidecar goes.
abbrev pair_stays : Suffix → Bool
pair_stays mpk = true
pair_stays info = true
pair_stays emwp = false
pair_stays emwp_info = false
pair_stays schema = false

remove_suffixes-failing_example :
    (check_existing_artifacts (remove_suffixes pair_stays removal_order (whole, [])).0 1 ≡ ok true)
    ↔ ((true ≡ true) × (true ≡ true) × (◌≡◌ {A = ℕ} 1 1))
remove_suffixes-failing_example =
    remove_suffixes-failing pair_stays whole 2 (tt, tt, tt, tt) sidecar_of_whole 1
