-- ===== src/Key.antt =====
-- The master key: ParseMasterKey of modelwrap.go and loadMasterKey of wrap/wrap.go.
pub mod Sources
use modelwrap.Prelude.{
  ℕ, not, List, [], ◌∷◌, Bytes, codes, length, ◌==◌, beq, if◌then◌else◌, Option, none, some, Result,
  ok, err, ◌>>=◌, ◌>>◌, refuse_if, map_err, trim_space,
}

pub data KeyError : Type 0 where
  not_base64 no_key : KeyError
  bad_key_length : ℕ → KeyError
  unreadable_key_file : Bytes → KeyError

-- Where a key may come from: strict standard base64, the environment, and the files.
pub record KeyHost : Type 0 where
  pub decode : Bytes → Option Bytes
  pub getenv : Bytes → Bytes
  pub read_file : Bytes → Option Bytes

unfoldable pub parse_master_key : (Bytes → Option Bytes) → Bytes → Result KeyError Bytes
parse_master_key decode encoded = elim (decode (trim_space encoded)) [
  | none ↦ err not_base64
  | some key ↦ refuse_if (not (length key == 64)) (bad_key_length (length key)) >> ok key
]

-- The file that is named by the option, or else by the environment.
abbrev pub key_file_name : KeyHost → Bytes → Bytes
key_file_name h [] = h.getenv (codes "PRIVATE_MODEL_KEY_FILE")
key_file_name h (c ∷ s) = c ∷ s

-- The encoded key: from the file if one is named, else from the environment.
abbrev pub encoded_key : KeyHost → Bytes → Result KeyError Bytes
encoded_key h [] = ok (h.getenv (codes "PRIVATE_MODEL_KEY_B64"))
encoded_key h (c ∷ s) = elim (h.read_file (c ∷ s)) [
  | none ↦ err (unreadable_key_file (c ∷ s))
  | some text ↦ ok text
]

unfoldable pub load_master_key : KeyHost → Bytes → Result KeyError Bytes
unfolding parse_master_key
load_master_key h key_file = do
  encoded ← encoded_key h (key_file_name h key_file)
  refuse_if (beq (trim_space encoded) []) no_key
  parse_master_key h.decode encoded
