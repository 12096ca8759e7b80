-- ===== src/Cli/Volumes.antt =====
-- The arguments of docker, written out: what is mounted where, and which variables are passed on.
use modelwrap.Prelude.{
  ◌≡◌, inl, inr, refl, ◌∙◌, true, false, ◌&&◌, List, [], ◌∷◌, ◌++◌, Bytes, codes, beq,
  if◌then◌else◌, some, ok, Bool-cases,
}
use modelwrap.Cli.{CliOptions, Env}
use modelwrap.Cli.Args.{is_set, or_else}
use modelwrap.Cli.Launcher.{
  Host, absolute, host_dir, mount_of, passed_env, passthrough_env, key_file_of, docker_flags,
  container_model_dir, container_key_file,
}

-- The directory on the host behind an option, which has been made.
pub data IsHostDir (h : Host) (fallback : Bytes) : Bytes → Bytes → Type 0 where
  by_default :
      (abs : Bytes)
      → h.abs fallback ≡ some abs
      → h.can_make_dir abs ≡ true
      → IsHostDir h fallback [] abs
  given :
      (c : _) (s abs : Bytes)
      → h.abs (c ∷ s) ≡ some abs
      → h.can_make_dir abs ≡ true
      → IsHostDir h fallback (c ∷ s) abs

-- A path of the host that is mounted for reading: the path inside, and the arguments of docker.
pub data IsMounted (h : Host) (target : Bytes) : Bytes → Bytes → List Bytes → Type 0 where
  nothing : IsMounted h target [] [] []
  mounted :
      (c : _) (s abs : Bytes)
      → h.abs (c ∷ s) ≡ some abs
      → IsMounted h target
          (c ∷ s)
          target
          (codes "-v" ∷ (abs ++ (codes ":" ++ (target ++ codes ":ro"))) ∷ [])

-- The key file: the option's, and the environment's where there is no option.
pub data IsKeyFile : Bytes → Bytes → Bytes → Type 0 where
  from_option : (c : _) (s env : Bytes) → IsKeyFile (c ∷ s) env (c ∷ s)
  from_environment : (env : Bytes) → IsKeyFile [] env env

-- `-e NAME`, where the variable is set.
abbrev pub passed : Env → Bytes → List Bytes
passed getenv name = if is_set (getenv name) then codes "-e" ∷ name ∷ [] else []

-- What docker's options give a variable in the container: `-e NAME` hands on the value that docker
-- was started with.
unfoldable pub exported : Env → Bytes → List Bytes → Bytes
exported getenv name (flag ∷ value ∷ rest) =
    if beq flag (codes "-e") && beq value name then getenv name else exported getenv name rest
exported getenv name (flag ∷ []) = []
exported getenv name [] = []

-- The options of `docker run` behind --rm.
abbrev pub volumes_and_env : Env → Bytes → Bytes → List Bytes → List Bytes → List Bytes
volumes_and_env getenv out cache model_volume key_volume =
    codes "-v"
    ∷ (out ++ codes ":/output")
    ∷ codes "-v"
    ∷ (cache ++ codes ":/cache")
    ∷ (model_volume
        ++ (key_volume
            ++ (passed getenv (codes "HF_TOKEN") ++ passed getenv (codes "PRIVATE_MODEL_KEY_B64"))))

exported-mounted :
    (h : Host) (getenv : Env) (name target path inside : Bytes) (args rest : List Bytes)
    → IsMounted h target path inside args
    → exported getenv name (args ++ rest) ≡ exported getenv name rest
unfolding exported beq
exported-mounted h getenv name target path inside args rest nothing = refl
exported-mounted h getenv name target path inside args rest (mounted c s abs e) = refl

exported-other :
    (getenv : Env) (name : Bytes)
    → beq name (codes "HF_TOKEN") ≡ false
    → exported getenv (codes "HF_TOKEN") (passed getenv name) ≡ []
unfolding exported beq
exported-other getenv name other = elim (Bool-cases (is_set (getenv name))) [
  | inl e ↦ rw e (rw other refl)
  | inr e ↦ rw e refl
]

unset_is : (s : Bytes) → is_set s ≡ false → s ≡ []
unset_is [] h = refl
unset_is (c ∷ s) h = cc

exported-passed :
    (getenv : Env)
    → exported getenv
        (codes "HF_TOKEN")
        (passed getenv (codes "HF_TOKEN") ++ passed getenv (codes "PRIVATE_MODEL_KEY_B64"))
      ≡ getenv (codes "HF_TOKEN")
unfolding exported beq
exported-passed getenv = elim (Bool-cases (is_set (getenv (codes "HF_TOKEN")))) [
  | inl e ↦ rw e refl
  | inr e ↦ rw e (
      rw (unset_is (getenv (codes "HF_TOKEN")) e)
        (exported-other getenv (codes "PRIVATE_MODEL_KEY_B64") refl))
]

-- The token reaches the container.
pub exported-token :
    (h : Host) (out cache model_dir model_inside key key_inside : Bytes)
    (model_volume key_volume : List Bytes)
    → IsMounted h (codes "/model") model_dir model_inside model_volume
    → IsMounted h (codes "/run/modelwrap-key") key key_inside key_volume
    → exported h.getenv
        (codes "HF_TOKEN")
        (volumes_and_env h.getenv out cache model_volume key_volume)
      ≡ h.getenv (codes "HF_TOKEN")
unfolding exported beq
exported-token h out cache model_dir model_inside key key_inside model_volume key_volume m k =
    exported-mounted h h.getenv (codes "HF_TOKEN") (codes "/model") model_dir model_inside
      model_volume _ m
    ∙ exported-mounted h h.getenv (codes "HF_TOKEN") (codes "/run/modelwrap-key") key key_inside
        key_volume _ k
    ∙ exported-passed h.getenv

absolute-found : (h : Host) (path abs : Bytes) → h.abs path ≡ some abs → absolute h path ≡ ok abs
absolute-found h path abs e = rw (e, absolute) refl

host_dir-IsHostDir :
    (h : Host) (fallback path abs : Bytes)
    → IsHostDir h fallback path abs
    → host_dir h path fallback ≡ ok abs
host_dir-IsHostDir h fallback path abs (by_default found e made) =
    rw (absolute-found h fallback found e) (rw made refl)
host_dir-IsHostDir h fallback path abs (given c s found e made) =
    rw (absolute-found h (c ∷ s) found e) (rw made refl)

mount_of-IsMounted :
    (h : Host) (target path inside : Bytes) (args : List Bytes)
    → IsMounted h target path inside args
    → mount_of h path target ≡ ok args
mount_of-IsMounted h target path inside args nothing = refl
mount_of-IsMounted h target path inside args (mounted c s abs e) =
    rw (absolute-found h (c ∷ s) abs e) refl

or_else-IsKeyFile : (option env key : Bytes) → IsKeyFile option env key → or_else option env ≡ key
or_else-IsKeyFile option env key (from_option c s e) = refl
or_else-IsKeyFile option env key (from_environment e) = refl

pub key_file_of-IsKeyFile :
    (getenv : Env) (o : CliOptions) (key : Bytes)
    → IsKeyFile o.options.key_file (getenv (codes "PRIVATE_MODEL_KEY_FILE")) key
    → key_file_of getenv o ≡ key
key_file_of-IsKeyFile getenv o key is =
    or_else-IsKeyFile o.options.key_file (getenv (codes "PRIVATE_MODEL_KEY_FILE")) key is

passed_env-passed :
    (getenv : Env)
    → passed_env getenv passthrough_env
      ≡ passed getenv (codes "HF_TOKEN") ++ passed getenv (codes "PRIVATE_MODEL_KEY_B64")
passed_env-passed getenv = elim (Bool-cases (is_set (getenv (codes "HF_TOKEN")))) [
  | inl e ↦ rw e refl
  | inr e ↦ rw e refl
]

pub docker_flags-volumes_and_env :
    (h : Host) (o : CliOptions) (out cache model_inside key key_inside : Bytes)
    (model_volume key_volume : List Bytes)
    → IsHostDir h (codes "output") o.options.output_dir out
    → IsHostDir h (codes "cache") o.options.cache_dir cache
    → IsMounted h (codes "/model") o.options.model_dir model_inside model_volume
    → IsKeyFile o.options.key_file (h.getenv (codes "PRIVATE_MODEL_KEY_FILE")) key
    → IsMounted h (codes "/run/modelwrap-key") key key_inside key_volume
    → docker_flags h o
      ≡ ok (codes "run" ∷ codes "--rm" ∷ volumes_and_env h.getenv out cache model_volume key_volume)
unfolding docker_flags
docker_flags-volumes_and_env h o out cache model_inside key key_inside model_volume key_volume ho hc
      hm is hk =
    rw (host_dir-IsHostDir h (codes "output") o.options.output_dir out ho) (
      rw (host_dir-IsHostDir h (codes "cache") o.options.cache_dir cache hc) (
        rw
          (mount_of-IsMounted h container_model_dir o.options.model_dir model_inside model_volume
            hm)
          (rw (key_file_of-IsKeyFile h.getenv o key is) (
            rw (mount_of-IsMounted h container_key_file key key_inside key_volume hk)
              (rw (passed_env-passed h.getenv) refl)))))
