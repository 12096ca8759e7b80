-- ===== src/Pack/Resolve/Hub.antt =====
-- What resolveModel and Pack ask of the Hub: resolveHFRevision and downloadModel.
use modelwrap.Prelude.{
  Bool, not, List, [], ◌∷◌, ◌++◌, map, Bytes, codes, split, if◌then◌else◌, Option, none, some,
  Result, ok, err, ◌>>=◌, ◌>>◌, refuse_if,
}
use modelwrap.Cli.Args.{is_set}
use modelwrap.Seed.Paths.{path_escape}
use modelwrap.Seed.Listing.{join_segments}
use modelwrap.Pack.Resolve.{ModelHost}

-- A response: whether its status is 200, and the field "sha" of its body, where the body is read.
pub record HubResponse : Type 0 where
  pub is_ok : Bool
  pub sha : Option Bytes

pub data HubError : Type 0 where
  no_response bad_status bad_body no_head_commit : HubError

-- Each part of the model's name is escaped by itself.
abbrev pub model_url : Bytes → Bytes
model_url model =
    codes "https://huggingface.co/api/models/" ++ join_segments (map path_escape (split model b'/'))

abbrev pub or_error : {A : Type 0} → HubError → Option A → Result HubError A
or_error e none = err e
or_error e (some a) = ok a

-- `resolveHFRevision`; `get` sends a request for a URL, with the token where there is one.
unfoldable pub resolve_hf_revision :
    (Bytes → Bytes → Option HubResponse) → Bytes → Bytes → Result HubError Bytes
resolve_hf_revision get model token = do
  response ← or_error no_response (get (model_url model) token)
  refuse_if (not response.is_ok) bad_status
  sha ← or_error bad_body response.sha
  refuse_if (not (is_set sha)) no_head_commit
  ok sha

abbrev pub found : {A : Type 0} → Result HubError A → Option A
found (ok a) = some a
found (err e) = none

-- The host of resolveModel that asks the Hub in this way.
abbrev pub with_hub : (Bytes → Bytes → Option HubResponse) → Bytes → ModelHost → ModelHost
with_hub get token h = record h {
  hub_revision = λ model. found (resolve_hf_revision get model token);
}

-- The arguments of `hf` in downloadModel, and what it adds to its environment.
abbrev pub download_args : Bytes → Bytes → Bytes → List Bytes
download_args name revision dir =
    codes "download" ∷ name ∷ codes "--revision" ∷ revision ∷ codes "--local-dir" ∷ dir ∷ []

abbrev pub download_env : Bytes → List Bytes
download_env token = if is_set token then (codes "HF_TOKEN=" ++ token) ∷ [] else []
