-- ===== src/Verity.antt =====
-- verity.go: the parameters with which a consumer opens a hash tree. The parameters are fixed or
-- derived from the attested reference; nothing is read from the artifact.
pub mod Params
use modelwrap.Prelude.{
  ℕ, ◌+◌, ◌*◌, ◌/◌, ◌%◌, ◌^◌, ◌≡◌, Bool, not, ◌||◌, List, [], ◌∷◌, ◌++◌, map, Bytes, codes, length,
  ltb, ◌==◌, if◌then◌else◌, Result, ok, err, ◌>>=◌, ◌>>◌, refuse_if, u64_mod, itoa, All, ◌<◌,
}

abbrev pub verity_format : ℕ
verity_format = 1

abbrev pub verity_data_block_size : ℕ
verity_data_block_size = 4096

abbrev pub verity_hash_block_size : ℕ
verity_hash_block_size = 4096

abbrev pub verity_salt_bytes : ℕ
verity_salt_bytes = 32

abbrev pub verity_hash_algorithm : Bytes
verity_hash_algorithm = codes "sha256"

abbrev pub max_hash_offset : ℕ
max_hash_offset = 2 ^ 62

-- crypto/sha256: a function of the bytes written to the hash, with digests of 32 bytes.
pub record Sha256 : Type 0 where
  pub sum : Bytes → Bytes
  pub length-sum : (s : Bytes) → length (sum s) ≡ 32
  pub sum-AreBytes : (s : Bytes) → All (λ b. b < 256) (sum s)

unfoldable pub verity_salt : Sha256 → Bytes → Bytes
verity_salt h model = h.sum model

pub record VerityParams : Type 0 where
  pub salt : Bytes
  pub data_blocks : ℕ
  pub hash_tree_offset : ℕ

pub data ParamsError : Type 0 where
  bad_salt bad_offset offset_too_large : ℕ → ParamsError

unfoldable pub verity_params_for_artifact : ℕ → Bytes → Result ParamsError VerityParams
verity_params_for_artifact hash_offset salt = do
  refuse_if (not (length salt == verity_salt_bytes)) (bad_salt (length salt))
  refuse_if (hash_offset == 0 || not (hash_offset % verity_data_block_size == 0))
      (bad_offset hash_offset)
  refuse_if (ltb max_hash_offset hash_offset) (offset_too_large hash_offset)
  ok (record {
    salt = salt;
    data_blocks = hash_offset / verity_data_block_size;
    hash_tree_offset = (hash_offset + verity_hash_block_size) % u64_mod;
  })

abbrev pub hex_digit : ℕ → ℕ
hex_digit n = if ltb n 10 then b'0' + n else 87 + n

-- `hex.EncodeToString`
unfoldable pub hex_encode : Bytes → Bytes
hex_encode [] = []
hex_encode (c ∷ s) = hex_digit (c / 16) ∷ hex_digit (c % 16) ∷ hex_encode s

unfoldable pub veritysetup_args : VerityParams → List Bytes
unfolding hex_encode
veritysetup_args p =
    codes "--no-superblock"
    ∷ (codes "--format=" ++ itoa verity_format)
    ∷ (codes "--hash=" ++ verity_hash_algorithm)
    ∷ (codes "--data-block-size=" ++ itoa verity_data_block_size)
    ∷ (codes "--hash-block-size=" ++ itoa verity_hash_block_size)
    ∷ (codes "--data-blocks=" ++ itoa p.data_blocks)
    ∷ (codes "--hash-offset=" ++ itoa p.hash_tree_offset)
    ∷ (codes "--salt=" ++ hex_encode p.salt)
    ∷ []
