-- ===== src/Tests/Schemas.antt =====
-- Examples for the registry of pack schemas.
use modelwrap.Prelude.{ℕ, ◌≡◌, Bytes, List, [], ◌∷◌, true}
use modelwrap.Schema.{PackSchema, schema_ids}
use modelwrap.Schema.Registry.{exchange, IsAscending, occurrences, schema_ids-Reordered}

abbrev name_itself : Bytes → Bytes
name_itself name = name

abbrev first_two : PackSchema → PackSchema → List PackSchema
first_two a b = a ∷ b ∷ []

abbrev schema_of : ℕ → PackSchema
schema_of id = record {
  id = id;
  stable = true;
  erofs_utils = [];
  mkfs_path = [];
  mkfs_args = λ model img_file model_dir. [];
  doc = [];
}

schema_ids-Reordered_example :
    IsAscending (schema_ids (first_two (schema_of 2) (schema_of 1)))
    × ((n : ℕ)
        → occurrences n (schema_ids (first_two (schema_of 2) (schema_of 1)))
          ≡ occurrences n (2 ∷ 1 ∷ []))
    × (schema_ids (first_two (schema_of 2) (schema_of 1))
        ≡ schema_ids (first_two (schema_of 1) (schema_of 2)))
schema_ids-Reordered_example =
    schema_ids-Reordered (first_two (schema_of 2) (schema_of 1))
      (first_two (schema_of 1) (schema_of 2)) (exchange (schema_of 2) (schema_of 1) [])
