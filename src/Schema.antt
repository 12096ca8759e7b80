-- ===== src/Schema.antt =====
-- schema.go: the registry of pack schemas, the lookup in it, and the arguments of mkfs.erofs.
pub mod Registry
use modelwrap.Prelude.{
  ℕ, ◌≡◌, Bool, true, false, List, [], ◌∷◌, ◌++◌, map, Bytes, codes, itoa, Result, ok, err, leb,
  ◌==◌, if◌then◌else◌,
}

pub record PackSchema : Type 0 where
  pub id : ℕ
  pub stable : Bool
  pub erofs_utils : Bytes
  pub mkfs_path : Bytes
  pub mkfs_args : Bytes → Bytes → Bytes → List Bytes
  pub doc : Bytes

abbrev pub default_schema : ℕ
default_schema = 1

pub data SchemaError : Type 0 where
  unknown_schema : ℕ → List ℕ → SchemaError

-- `slices.Sort`: any sort of numbers gives this list.
unfoldable pub insert : ℕ → List ℕ → List ℕ
insert n [] = n ∷ []
insert n (m ∷ rest) = let behind = insert n rest in if leb n m then n ∷ m ∷ rest else m ∷ behind

unfoldable pub sort : List ℕ → List ℕ
unfolding insert
sort [] = []
sort (n ∷ rest) = insert n (sort rest)

-- `uuid_v5_url` is UUIDv5URL, and `num_cpu` is runtime.NumCPU().
module _ (uuid_v5_url : Bytes → Bytes) (num_cpu : ℕ) where
  abbrev inner_uuid_flag : Bytes → Bytes
  inner_uuid_flag model = codes "-U" ++ uuid_v5_url (model ++ codes "-inner")

  unfoldable pub mkfs_args_1 : Bytes → Bytes → Bytes → List Bytes
  mkfs_args_1 model img_file model_dir =
      codes "--all-root" ∷ codes "-T0" ∷ inner_uuid_flag model ∷ img_file ∷ model_dir ∷ []

  unfoldable pub mkfs_args_2 : Bytes → Bytes → Bytes → List Bytes
  mkfs_args_2 model img_file model_dir =
      codes "--all-root"
      ∷ codes "-T0"
      ∷ inner_uuid_flag model
      ∷ codes "-b4096"
      ∷ (codes "--workers=" ++ itoa num_cpu)
      ∷ img_file
      ∷ model_dir
      ∷ []

  -- The map's values; a map has no order, and its keys are the ids.
  abbrev pub pack_schemas : List PackSchema
  pack_schemas =
      record {
        id = 1;
        stable = true;
        erofs_utils = codes "1.5-1";
        mkfs_path = codes "/opt/modelwrap/schemas/v1/mkfs.erofs";
        mkfs_args = mkfs_args_1;
        doc = codes "alphabetical layout, single-threaded mkfs";
      }
      ∷ record {
        id = 2;
        stable = true;
        erofs_utils = codes "1.8.6-1";
        mkfs_path = codes "/opt/modelwrap/schemas/v2/mkfs.erofs";
        mkfs_args = mkfs_args_2;
        doc = codes "schema 1 layout, multithreaded mkfs";
      }
      ∷ []

-- `SchemaIDs` of a registry whose values are ranged over in the order of the list.
unfoldable pub schema_ids : List PackSchema → List ℕ
unfolding sort
schema_ids schemas = sort (map (λ (s : PackSchema). s.id) schemas)

abbrev lookup : ℕ → List PackSchema → Result (Unit {0}) PackSchema
lookup id [] = err tt
lookup id (s ∷ rest) = let found = lookup id rest in if s.id == id then ok s else found

unfoldable pub schema_by_id : List PackSchema → ℕ → Result SchemaError PackSchema
schema_by_id schemas id = elim (lookup id schemas) [
  | ok s ↦ ok s
  | err _ ↦ err (unknown_schema id (schema_ids schemas))
]
