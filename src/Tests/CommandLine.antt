-- ===== src/Tests/CommandLine.antt =====
-- Examples for the command line and the launcher.
use modelwrap.Prelude.{
  ℕ, ◌≡◌, refl, inr, true, false, Bool, [], ◌∷◌, ◌++◌, List, Bytes, codes, beq, if◌then◌else◌, some,
  ok, pos,
}
use modelwrap.Cli.{CliOptions, Env}
use modelwrap.Cli.Int.{parse_int_base0}
use modelwrap.Cli.Flags.{parse_flags, flag_of, see, cut_value}
use modelwrap.Cli.Args.{parse_args, is_set}
use modelwrap.Cli.Launcher.{Host, container_args, main_outcome, run_docker, run_pack, exit}
use modelwrap.Cli.Checked.{parse_args-IsChecked, IsChecked}
use modelwrap.Cli.Forward.{IsContainer, IsArgument, container_options}
use modelwrap.Cli.Volumes.{
  IsHostDir, by_default, nothing, mounted, IsKeyFile, from_environment, exported, volumes_and_env,
}
use modelwrap.Cli.Handover.{launch-handover, launch-delete_refused}

abbrev no_env : Env
no_env name = []

abbrev a_name : Bytes
a_name = codes "org/m@r1"

abbrev pack_args : List Bytes
pack_args = codes "--encrypt" ∷ codes "--schema" ∷ codes "2" ∷ a_name ∷ []

abbrev an_image : Bytes
an_image = codes "packer"

abbrev asked : Bool → Bool → ℕ → CliOptions
asked delete encrypt schema = record {
  options = record {
    model = a_name;
    model_dir = [];
    cache_dir = [];
    output_dir = [];
    schema = pos schema;
    encrypt = encrypt;
    verify = false;
    key_file = [];
    hf_token = [];
  };
  image = an_image;
  is_local = false;
  delete = delete;
}

pack_parsed : parse_args no_env an_image pack_args ≡ ok (asked false true 2)
unfolding parse_args parse_flags flag_of see cut_value parse_int_base0 beq
pack_parsed = refl

parse_args-IsChecked_example : IsChecked no_env pack_args (asked false true 2)
parse_args-IsChecked_example =
    parse_args-IsChecked no_env an_image pack_args (asked false true 2) pack_parsed

abbrev container_env : Env
container_env name =
    if beq name (codes "MODELWRAP_IN_CONTAINER")
    then codes "1"
    else if beq name (codes "CACHE_DIR")
    then codes "/cache"
    else if beq name (codes "OUTPUT_DIR")
    then codes "/output"
    else []

-- A host on which paths are absolute behind "/w/" and directories can be made.
abbrev host_of : Env → Host
host_of env = record { getenv = env; abs = λ p. some (codes "/w/" ++ p); can_make_dir = λ p. true }

container_env-IsContainer : IsContainer [] (host_of container_env)
unfolding beq
container_env-IsContainer = record {
  no_model = refl;
  no_model_dir = refl;
  cache = refl;
  output = refl;
  no_verify = refl;
  no_encryption = refl;
  no_schema = refl;
  no_image = refl;
  token = refl;
  in_container = refl;
}

output_made : (env : Env) → IsHostDir (host_of env) (codes "output") [] (codes "/w/output")
output_made env = by_default (codes "/w/output") refl refl

cache_made : (env : Env) → IsHostDir (host_of env) (codes "cache") [] (codes "/w/cache")
cache_made env = by_default (codes "/w/cache") refl refl

a_name-IsArgument : IsArgument a_name
unfolding see cut_value flag_of beq
a_name-IsArgument = inr refl

not_in_container :
    beq ((host_of no_env).getenv (codes "MODELWRAP_IN_CONTAINER")) (codes "1") ≡ false
unfolding beq
not_in_container = refl

launch-handover_example :
    (main_outcome (host_of no_env) an_image pack_args
      ≡ run_docker (
          codes "run"
          ∷ codes "--rm"
          ∷ codes "-v"
          ∷ codes "/w/output:/output"
          ∷ codes "-v"
          ∷ codes "/w/cache:/cache"
          ∷ an_image
          ∷ container_args (asked false true 2) []))
    × (main_outcome (host_of container_env) (codes "inner") (container_args (asked false true 2) [])
        ≡ run_pack (container_options (asked false true 2) (codes "inner") []).options)
unfolding exported beq
launch-handover_example =
    launch-handover (host_of no_env) (host_of container_env) an_image (codes "inner") pack_args
      (asked false true 2) (codes "/w/output") (codes "/w/cache") [] [] [] [] [] pack_parsed
      a_name-IsArgument refl not_in_container (output_made no_env) (cache_made no_env) nothing
      (from_environment []) nothing container_env-IsContainer (λ e. refl)

-- An environment that names a key file.
abbrev keyed_env : Env
keyed_env name = if beq name (codes "PRIVATE_MODEL_KEY_FILE") then codes "key" else []

abbrev delete_args : List Bytes
delete_args = codes "--delete" ∷ a_name ∷ []

delete_parsed : parse_args keyed_env an_image delete_args ≡ ok (asked true false 0)
unfolding parse_args parse_flags flag_of see cut_value parse_int_base0 beq
delete_parsed = refl

key_named : is_set (keyed_env (codes "PRIVATE_MODEL_KEY_FILE")) ≡ true
unfolding beq
key_named = refl

keyed_outside :
    beq ((host_of keyed_env).getenv (codes "MODELWRAP_IN_CONTAINER")) (codes "1") ≡ false
unfolding beq
keyed_outside = refl

key-IsKeyFile : IsKeyFile [] (keyed_env (codes "PRIVATE_MODEL_KEY_FILE")) (codes "key")
unfolding beq
key-IsKeyFile = from_environment (codes "key")

keyed_env-IsContainer :
    IsContainer
      (exported keyed_env (codes "HF_TOKEN") (
        volumes_and_env keyed_env
          (codes "/w/output")
          (codes "/w/cache")
          []
          (codes "-v" ∷ codes "/w/key:/run/modelwrap-key:ro" ∷ [])))
      (host_of container_env)
unfolding exported beq
keyed_env-IsContainer = container_env-IsContainer

launch-delete_refused_example :
    (main_outcome (host_of keyed_env) an_image delete_args
      ≡ run_docker (
          codes "run"
          ∷ codes "--rm"
          ∷ (volumes_and_env keyed_env
                (codes "/w/output")
                (codes "/w/cache")
                []
                (codes "-v" ∷ codes "/w/key:/run/modelwrap-key:ro" ∷ [])
              ++ (an_image ∷ container_args (asked true false 0) (codes "key")))))
    × (main_outcome
          (host_of container_env)
          (codes "inner")
          (container_args (asked true false 0) (codes "key"))
        ≡ exit 2)
launch-delete_refused_example =
    launch-delete_refused (host_of keyed_env) (host_of container_env) an_image (codes "inner")
      delete_args (asked true false 0) (codes "/w/output") (codes "/w/cache") [] (codes "key")
      (codes "/run/modelwrap-key") [] (codes "-v" ∷ codes "/w/key:/run/modelwrap-key:ro" ∷ [])
      delete_parsed a_name-IsArgument refl keyed_outside (output_made keyed_env)
      (cache_made keyed_env) nothing key-IsKeyFile (mounted b'k' (codes "ey") (codes "/w/key") refl)
      keyed_env-IsContainer refl key_named
