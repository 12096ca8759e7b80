-- ===== src/Pack/Resolve.antt =====
-- resolveModel: the identity of what is packed.
pub mod Gate
pub mod Hub
use modelwrap.Prelude.{
  ℕ, true, false, not, Bool, List, [], ◌∷◌, ◌++◌, Bytes, codes, beq, ◌==◌, if◌then◌else◌, Option,
  none, some, Result, ok, err, ◌>>=◌, ◌>>◌, refuse_if, map_err, cut, split,
}
use modelwrap.Cli.{Options}
use modelwrap.Cli.Args.{is_set}
use modelwrap.Model.{ModelError, validate_pinned_model}

-- What resolveModel asks of the Hub, the file system and the hash of a directory.
pub record ModelHost : Type 0 where
  pub hub_revision : Bytes → Option Bytes
  pub is_dir : Bytes → Bool
  pub abs : Bytes → Option Bytes
  pub hash_dir : Bytes → Option Bytes
  -- `filepath.Join` of three parts.
  pub join : Bytes → Bytes → Bytes → Bytes

pub data ResolveError : Type 0 where
  no_model no_revision no_absolute_path hash_failed : ResolveError
  not_a_dir : Bytes → ResolveError
  invalid_model : ModelError → ResolveError

-- The last of the parts, if it is not empty.
abbrev pub last_part : List Bytes → Bytes → Bytes
last_part [] seen = seen
last_part (part ∷ rest) seen = last_part rest (if is_set part then part else seen)

-- `filepath.Base`: the last part of the path that is not empty.
abbrev pub base_name : Bytes → Bytes
base_name [] = codes "."
base_name (c ∷ s) = last_part (split (c ∷ s) b'/') (codes "/")

abbrev pub or_fail {ℓ} : {A : Type ℓ} → ResolveError → Option A → Result ResolveError A
or_fail e none = err e
or_fail e (some a) = ok a

-- The name of a local directory without one.
abbrev pub local_name : ModelHost → Bytes → Bytes → Result ResolveError Bytes
local_name h dir (c ∷ s) = ok (c ∷ s)
local_name h dir [] = do
  abs ← or_fail no_absolute_path (h.abs dir)
  ok (if beq (base_name abs) (codes "/") then codes "model" else base_name abs)

abbrev pub given_or : Bytes → Result ResolveError Bytes → Result ResolveError Bytes
given_or (c ∷ s) other = ok (c ∷ s)
given_or [] other = other

-- The identity and the directory, before they are validated.
unfoldable pub identify :
    ModelHost → Options → Bytes → Bytes → Result ResolveError (Bytes × Bytes × Bytes)
identify h o name revision =
    if not (is_set o.model_dir)
    then (do
      refuse_if (not (is_set name)) no_model
      r ← given_or revision (or_fail no_revision (h.hub_revision name))
      ok (name, r, h.join o.cache_dir name r))
    else (do
      refuse_if (not (h.is_dir o.model_dir)) (not_a_dir o.model_dir)
      n ← local_name h o.model_dir name
      r ← given_or revision (or_fail hash_failed (h.hash_dir o.model_dir))
      ok (n, r, o.model_dir))

-- `resolveModel`
unfoldable pub resolve_model : ModelHost → Options → Result ResolveError (Bytes × Bytes × Bytes)
unfolding identify
resolve_model h o = do
  found ← identify h o (cut o.model b'@').0 (cut o.model b'@').1
  _ ← map_err invalid_model (validate_pinned_model found.0 found.1)
  ok found
