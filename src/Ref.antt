-- ===== src/Ref.antt =====
-- modelwrap.go: artifact references, the identity in them, and the keys derived from it.
pub mod Grammar
pub mod RoundTrip
pub mod Identity
use modelwrap.Prelude.{
  ℕ, ◌≡◌, Bool, true, false, not, ◌&&◌, ◌||◌, List, [], ◌∷◌, ◌++◌, Bytes, codes, split, leb, ◌==◌,
  replicate, Result, ok, err, ◌>>=◌, ◌>>◌, refuse_if, map_err, length, parse_uint, NumError,
  trim_space, has_prefix, if◌then◌else◌, drop,
}

-- The parsed form of rootHash_hashOffset_uuid.
pub record ArtifactRef : Type 0 where
  pub root_hash : Bytes
  pub hash_offset : Bytes
  pub uuid : Bytes

pub data RefError : Type 0 where
  bad_shape : RefError
  bad_root_hash bad_hash_offset bad_uuid : Bytes → RefError
  bad_offset : Bytes → NumError → RefError

-- [a-f0-9]
abbrev pub is_hex : ℕ → Bool
is_hex c = (leb b'a' c && leb c b'f') || (leb b'0' c && leb c b'9')

abbrev is_dash : ℕ → Bool
is_dash c = c == b'-'

-- A sequence of character classes, anchored at both ends.
unfoldable pub matches : List (ℕ → Bool) → Bytes → Bool
matches [] [] = true
matches [] (c ∷ s) = false
matches (p ∷ ps) [] = false
matches (p ∷ ps) (c ∷ s) = p c && matches ps s

abbrev hexes : ℕ → List (ℕ → Bool)
hexes n = replicate n is_hex

-- ^[a-f0-9]{64}$
abbrev pub root_hash_pattern : List (ℕ → Bool)
root_hash_pattern = hexes 64

-- ^[a-f0-9]{8}-[a-f0-9]{4}-[a-f0-9]{4}-[a-f0-9]{4}-[a-f0-9]{12}$
abbrev pub uuid_pattern : List (ℕ → Bool)
uuid_pattern =
    hexes 8
    ++ (is_dash
        ∷ (hexes 4 ++ (is_dash ∷ (hexes 4 ++ (is_dash ∷ (hexes 4 ++ (is_dash ∷ hexes 12)))))))

unfoldable pub all_digits : Bytes → Bool
all_digits [] = true
all_digits (c ∷ s) = (leb b'0' c && leb c b'9') && all_digits s

-- ^[0-9]+$
unfoldable pub matches_hash_offset : Bytes → Bool
unfolding all_digits
matches_hash_offset [] = false
matches_hash_offset (c ∷ s) = all_digits (c ∷ s)

-- The three checks of `ParseRef` behind the split.
pub check_ref : ArtifactRef → Result RefError ArtifactRef
check_ref r = do
  refuse_if (not (matches root_hash_pattern r.root_hash)) (bad_root_hash r.root_hash)
  refuse_if (not (matches_hash_offset r.hash_offset)) (bad_hash_offset r.hash_offset)
  refuse_if (not (matches uuid_pattern r.uuid)) (bad_uuid r.uuid)
  ok r

-- `len(parts) != 3`
pub parse_parts : List Bytes → Result RefError ArtifactRef
parse_parts (a ∷ b ∷ c ∷ []) = check_ref (record { root_hash = a; hash_offset = b; uuid = c })
parse_parts _ = err bad_shape

unfoldable pub parse_ref : Bytes → Result RefError ArtifactRef
unfolding check_ref parse_parts
parse_ref ref = parse_parts (split ref b'_')

-- `(*ArtifactRef).String`
unfoldable pub to_string : ArtifactRef → Bytes
to_string r = r.root_hash ++ (b'_' ∷ (r.hash_offset ++ (b'_' ∷ r.uuid)))

-- `(*ArtifactRef).ArtifactID`
unfoldable pub artifact_id : ArtifactRef → Bytes
artifact_id r = r.root_hash ++ (b'_' ∷ r.uuid)

-- `(*ArtifactRef).HashOffsetBytes`
unfoldable pub hash_offset_bytes : ArtifactRef → Result RefError ℕ
hash_offset_bytes r = map_err (bad_offset r.hash_offset) (parse_uint r.hash_offset)
