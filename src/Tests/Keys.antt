-- ===== src/Tests/Keys.antt =====
-- Examples for the master key and the identity of what is packed.
use modelwrap.Prelude.{
  ℕ, Lacks, ◌≡◌, ◌≢◌, ◌↔◌, refl, true, false, [], ◌∷◌, ◌++◌, Bytes, codes, length, some, ok, err,
  pos, cut, trim_space, split, contains, contains_any, has_byte, has_prefix, beq,
}
use modelwrap.Cli.{Options}
use modelwrap.Key.{KeyHost, load_master_key}
use modelwrap.Key.Sources.{IsKeyText, load_master_key_iff}
use modelwrap.Model.{validate_pinned_model, any_bad_segment, bad_segment, split_pinned_model}
use modelwrap.Model.Staged.{IsValidModel}
use modelwrap.Pack.Resolve.{ModelHost, resolve_model, identify}
use modelwrap.Pack.Resolve.Gate.{resolve_model-deletable}
use modelwrap.Pack.Resolve.Hub.{model_url, resolve_hf_revision, no_head_commit}
use modelwrap.Seed.Paths.{path_escape}
use modelwrap.Tests.Data.{key_of_64}

-- Every text decodes to the same key; there is one key file.
abbrev pub a_key_host : KeyHost
a_key_host = record {
  decode = λ s. some key_of_64;
  getenv = λ name. [];
  read_file = λ name. some (codes "a2V5");
}

load_master_key_iff_example : (load_master_key a_key_host (codes "key") ≡ ok key_of_64) ↔ (
    (encoded : Bytes) × IsKeyText a_key_host (codes "key") encoded
    × (trim_space encoded ≢ [])
    × (a_key_host.decode (trim_space encoded) ≡ some key_of_64)
    × (length key_of_64 ≡ 64))
load_master_key_iff_example = load_master_key_iff a_key_host (codes "key") key_of_64

abbrev a_hub : ModelHost
a_hub = record {
  hub_revision = λ name. some (codes "r9");
  is_dir = λ path. true;
  abs = λ path. some path;
  hash_dir = λ path. some (codes "h");
  join = λ a b c. a ++ (b'/' ∷ (b ++ (b'/' ∷ c)));
}

abbrev a_request : Options
a_request = record {
  model = codes "m@r1";
  model_dir = [];
  cache_dir = codes "c";
  output_dir = codes "o";
  schema = pos 0;
  encrypt = false;
  verify = false;
  key_file = [];
  hf_token = [];
}

request_resolved : resolve_model a_hub a_request ≡ ok (codes "m", codes "r1", codes "c/m/r1")
unfolding resolve_model identify cut validate_pinned_model any_bad_segment bad_segment split
    contains contains_any has_byte has_prefix beq
request_resolved = refl

resolve_model-deletable_example :
    IsValidModel (codes "m") (codes "r1")
    × ((split_pinned_model (codes "m" ++ (b'@' ∷ codes "r1")) ≡ ok (codes "m", codes "r1"))
        ↔ Lacks b'@' (codes "m"))
    × ((c d : ℕ) (s t : Bytes)
        → cut (codes "m@r1") b'@' ≡ (c ∷ s, d ∷ t, true)
        → split_pinned_model (codes "m@r1") ≡ ok (codes "m", codes "r1"))
resolve_model-deletable_example =
    resolve_model-deletable a_hub a_request (codes "m") (codes "r1") (codes "c/m/r1")
      request_resolved

-- A space in the name is escaped, the slash is not.
escaped_url : model_url (codes "o/a b") ≡ codes "https://huggingface.co/api/models/o/a%20b"
unfolding path_escape split has_byte
escaped_url = refl

head_resolved :
    resolve_hf_revision
      (λ url token. some (record { is_ok = true; sha = some (codes "f00") }))
      (codes "o/m")
      []
    ≡ ok (codes "f00")
unfolding resolve_hf_revision
head_resolved = refl

empty_head_refused :
    resolve_hf_revision
      (λ url token. some (record { is_ok = true; sha = some [] }))
      (codes "o/m")
      []
    ≡ err no_head_commit
unfolding resolve_hf_revision
empty_head_refused = refl
