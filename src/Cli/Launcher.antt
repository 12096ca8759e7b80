-- ===== src/Cli/Launcher.antt =====
-- launcher.go, and the choice that main makes. What runs is data: the arguments of docker, or the
-- options with which the packer is called.
use modelwrap.Prelude.{
  ℕ, zero, suc, Bool, true, false, not, ◌||◌, List, [], ◌∷◌, ◌++◌, Bytes, codes, beq, if◌then◌else◌,
  Option, none, some, Result, ok, err, ◌>>=◌, ◌>>◌, refuse_if, ℤ, pos, negsuc, itoa,
}
use modelwrap.Cli.{Options, CliOptions, CliError, Env, help}
use modelwrap.Cli.Args.{parse_args, is_set, or_else}

abbrev pub container_model_dir : Bytes
container_model_dir = codes "/model"

abbrev pub container_key_file : Bytes
container_key_file = codes "/run/modelwrap-key"

abbrev pub container_cache_dir : Bytes
container_cache_dir = codes "/cache"

abbrev pub container_output : Bytes
container_output = codes "/output"

abbrev pub passthrough_env : List Bytes
passthrough_env = codes "HF_TOKEN" ∷ codes "PRIVATE_MODEL_KEY_B64" ∷ []

-- The host: `filepath.Abs` and `os.MkdirAll`, which may fail.
pub record Host : Type 0 where
  pub getenv : Env
  pub abs : Bytes → Option Bytes
  pub can_make_dir : Bytes → Bool

pub data LaunchError : Type 0 where
  no_absolute_path cannot_make_dir : Bytes → LaunchError

abbrev pub absolute : Host → Bytes → Result LaunchError Bytes
absolute h path = elim (h.abs path) [ none ↦ err (no_absolute_path path) | some p ↦ ok p ]

abbrev pub host_dir : Host → Bytes → Bytes → Result LaunchError Bytes
host_dir h path fallback = do
  abs ← absolute h (or_else path fallback)
  refuse_if (not (h.can_make_dir abs)) (cannot_make_dir abs)
  ok abs

-- `-v` with a host path, where there is one.
abbrev pub mount_of : Host → Bytes → Bytes → Result LaunchError (List Bytes)
mount_of h path target =
    if not (is_set path)
    then ok []
    else (absolute h path >>= λ abs.
        ok (codes "-v" ∷ (abs ++ (b':' ∷ (target ++ codes ":ro"))) ∷ []))

abbrev pub passed_env : Env → List Bytes → List Bytes
passed_env getenv [] = []
passed_env getenv (name ∷ rest) =
    let more = passed_env getenv rest in
    if is_set (getenv name) then codes "-e" ∷ name ∷ more else more

abbrev pub when : Bool → List Bytes → List Bytes
when test args = if test then args else []

-- `strconv.Itoa`
abbrev pub itoa_int : ℤ → Bytes
itoa_int (pos n) = itoa n
itoa_int (negsuc n) = b'-' ∷ itoa (suc n)

abbrev pub is_zero : ℤ → Bool
is_zero (pos zero) = true
is_zero (pos (suc n)) = false
is_zero (negsuc n) = false

-- The arguments behind the image: those of the CLI in the container.
unfoldable pub container_args : CliOptions → Bytes → List Bytes
container_args o key_file =
    when o.delete (codes "--delete" ∷ [])
    ++ (when (is_set o.options.model_dir) (codes "--model-dir" ∷ container_model_dir ∷ [])
        ++ (when (is_set key_file) (codes "--key-file" ∷ container_key_file ∷ [])
            ++ (when o.options.encrypt (codes "--encrypt" ∷ [])
                ++ (when o.options.verify (codes "--verify" ∷ [])
                    ++ (when (not (is_zero o.options.schema))
                          (codes "--schema" ∷ itoa_int o.options.schema ∷ [])
                        ++ when (is_set o.options.model) (o.options.model ∷ []))))))

-- The key file of the launch: the option's, or the environment's.
abbrev pub key_file_of : Env → CliOptions → Bytes
key_file_of getenv o = or_else o.options.key_file (getenv (codes "PRIVATE_MODEL_KEY_FILE"))

-- The arguments before the image.
unfoldable pub docker_flags : Host → CliOptions → Result LaunchError (List Bytes)
docker_flags h o = do
  output ← host_dir h o.options.output_dir (codes "output")
  cache ← host_dir h o.options.cache_dir (codes "cache")
  model_mount ← mount_of h o.options.model_dir container_model_dir
  key_mount ← mount_of h (key_file_of h.getenv o) container_key_file
  ok (
      codes "run"
      ∷ codes "--rm"
      ∷ codes "-v"
      ∷ (output ++ (b':' ∷ container_output))
      ∷ codes "-v"
      ∷ (cache ++ (b':' ∷ container_cache_dir))
      ∷ (model_mount ++ (key_mount ++ passed_env h.getenv passthrough_env)))

-- `dockerRunArgs`
unfoldable pub docker_run_args : Host → CliOptions → Result LaunchError (List Bytes)
unfolding container_args
docker_run_args h o = docker_flags h o >>= λ flags.
    ok (flags ++ (o.image ∷ container_args o (key_file_of h.getenv o)))

pub data Outcome : Type 0 where
  exit : ℕ → Outcome
  run_delete : Bytes → Bytes → Bytes → Outcome
  run_pack : Options → Outcome
  run_docker : List Bytes → Outcome

abbrev pub docker_or_exit : Result LaunchError (List Bytes) → Outcome
docker_or_exit (err e) = exit 1
docker_or_exit (ok args) = run_docker args

-- The launch, with the exit code of docker left to docker.
abbrev pub launch : Host → CliOptions → Outcome
launch h o = docker_or_exit (docker_run_args h o)

-- The packer's call.
abbrev pub run_packer : CliOptions → Outcome
run_packer o =
    if o.delete
    then run_delete o.options.model o.options.cache_dir o.options.output_dir
    else run_pack o.options

abbrev pub exit_code : CliError → ℕ
exit_code e = elim e [ help ↦ 0 | _ ↦ 2 ]

-- The packer's call, or the launch.
abbrev pub run_options : Host → CliOptions → Outcome
run_options h o =
    if o.is_local || beq (h.getenv (codes "MODELWRAP_IN_CONTAINER")) (codes "1")
    then run_packer o
    else launch h o

abbrev pub act : Host → Result CliError CliOptions → Outcome
act h (err e) = exit (exit_code e)
act h (ok o) = run_options h o

-- `main`
unfoldable pub main_outcome : Host → Bytes → List Bytes → Outcome
unfolding docker_run_args
main_outcome h image args = act h (parse_args h.getenv image args)
