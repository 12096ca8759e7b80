-- ===== src/Cli/Handover.antt =====
-- A launch on the host, from the command line there to the packer's call in the container.
use modelwrap.Prelude.{
  ℕ, ◌≡◌, inl, inr, refl, sym, ap, ◌∙◌, true, false, ◌&&◌, ◌||◌, List, [], ◌∷◌, ◌++◌, Bytes, codes,
  beq, beq_refl, if◌then◌else◌, ok, ◌>>=◌, ◌>>◌, refuse_if, arith, Bool-cases,
}
use modelwrap.Cli.{CliOptions, invalid_delete_options}
use modelwrap.Cli.Args.{parse_args, is_set, or_else, bad_delete}
use modelwrap.Cli.Launcher.{
  Host, docker_run_args, container_args, container_cache_dir, container_output, key_file_of,
  main_outcome, run_delete, run_pack, run_docker, exit, launch, act, run_packer, docker_or_exit,
}
use modelwrap.Cli.Checked.{parse_args-ok}
use modelwrap.Cli.Token.{parse_args-token}
use modelwrap.Cli.Volumes.{
  IsHostDir, IsMounted, nothing, mounted, IsKeyFile, passed, exported, volumes_and_env,
  exported-token, docker_flags-volumes_and_env, key_file_of-IsKeyFile,
}
use mathlib.Core.Path.{subst}
use modelwrap.Cli.Forward.{
  IsContainer, IsArgument, container_options, path_in, checked, parse_args-container_args,
}

is_set-path_in : (host : Bytes) (c : ℕ) (s : Bytes) → is_set (path_in host (c ∷ s)) ≡ is_set host
is_set-path_in [] c s = refl
is_set-path_in (d ∷ t) c s = refl

-- The paths in the container are there exactly when those on the host are.
bad_delete-forwarded :
    (o : CliOptions) (image key_file : Bytes)
    → bad_delete (container_options o image key_file) ≡ (
        o.delete
        && (is_set o.options.model_dir || o.options.encrypt || o.options.verify || is_set key_file))
bad_delete-forwarded o image key_file =
    rw (is_set-path_in o.options.model_dir b'/' (codes "model"))
      (rw (is_set-path_in key_file b'/' (codes "run/modelwrap-key")) refl)

no_key_file :
    (o : CliOptions) (from_env : Bytes)
    → bad_delete o ≡ false
    → (o.delete ≡ true → from_env ≡ [])
    → (o.delete
        && (is_set o.options.model_dir
            || o.options.encrypt
            || o.options.verify
            || is_set (or_else o.options.key_file from_env)))
      ≡ false
no_key_file o from_env good no_key = elim (Bool-cases o.delete) [
  | inl e ↦ rw (no_key e) (ground (arith, e, good))
  | inr e ↦ rw e refl
]

key_file_named :
    (o : CliOptions) (from_env : Bytes)
    → o.delete ≡ true
    → is_set from_env ≡ true
    → (o.delete
        && (is_set o.options.model_dir
            || o.options.encrypt
            || o.options.verify
            || is_set (or_else o.options.key_file from_env)))
      ≡ true
key_file_named o from_env delete named = ground (arith, delete, named)

path_in-IsMounted :
    (h : Host) (target path inside : Bytes) (args : List Bytes)
    → IsMounted h target path inside args
    → path_in path target ≡ inside
path_in-IsMounted h target path inside args nothing = refl
path_in-IsMounted h target path inside args (mounted c s abs e) = refl

-- The options of an accepted command line, and a host on which docker can be started.
module _ (h c : Host) (image inner_image : Bytes) (args : List Bytes) (o : CliOptions)
    (out cache model_inside key key_inside : Bytes) (model_volume key_volume : List Bytes)
    (accepted : parse_args h.getenv image args ≡ ok o) (arg : IsArgument o.options.model)
    (outside : o.is_local ≡ false)
    (host_side : beq (h.getenv (codes "MODELWRAP_IN_CONTAINER")) (codes "1") ≡ false)
    (output_made : IsHostDir h (codes "output") o.options.output_dir out)
    (cache_made : IsHostDir h (codes "cache") o.options.cache_dir cache)
    (model_mounted : IsMounted h (codes "/model") o.options.model_dir model_inside model_volume)
    (key_named : IsKeyFile o.options.key_file (h.getenv (codes "PRIVATE_MODEL_KEY_FILE")) key)
    (key_mounted : IsMounted h (codes "/run/modelwrap-key") key key_inside key_volume)
    (is : IsContainer
      (exported h.getenv
        (codes "HF_TOKEN")
        (volumes_and_env h.getenv out cache model_volume key_volume))
      c) where
  abbrev inner_options : CliOptions
  inner_options = container_options o inner_image key

  token_is :
      exported h.getenv
        (codes "HF_TOKEN")
        (volumes_and_env h.getenv out cache model_volume key_volume)
      ≡ o.options.hf_token
  token_is =
      exported-token h out cache o.options.model_dir model_inside key key_inside model_volume
        key_volume model_mounted key_mounted
      ∙ sym (parse_args-token h.getenv image args o accepted)

  inner_parsed : parse_args c.getenv inner_image (container_args o key) ≡ checked inner_options
  inner_parsed =
      let ((n, e, fits, _), _) = parse_args-ok h.getenv image args o accepted in
      parse_args-container_args o inner_image key n e fits c
        (subst (λ t. IsContainer t c) token_is is) arg

  inner_good :
      (o.delete ≡ true → h.getenv (codes "PRIVATE_MODEL_KEY_FILE") ≡ [])
      → bad_delete inner_options ≡ false
  inner_good no_key =
      let (_, good) = parse_args-ok h.getenv image args o accepted in
      bad_delete-forwarded o inner_image key
      ∙ ap
          (λ k.
            o.delete
            && (is_set o.options.model_dir || o.options.encrypt || o.options.verify || is_set k))
          (sym (key_file_of-IsKeyFile h.getenv o key key_named))
      ∙ no_key_file o (h.getenv (codes "PRIVATE_MODEL_KEY_FILE")) good no_key

  inner_run :
      bad_delete inner_options ≡ false
      → main_outcome c inner_image (container_args o key) ≡ (
          if o.delete
          then run_delete o.options.model container_cache_dir container_output
          else run_pack inner_options.options)
  unfolding main_outcome
  inner_run good =
      ap (act c)
        (inner_parsed ∙ ap (λ b. refuse_if b invalid_delete_options >> ok inner_options) good)
      ∙ ap (λ v. if beq v (codes "1") then run_packer inner_options else launch c inner_options)
          is.in_container
      ∙ ap (λ b. if b then run_packer inner_options else launch c inner_options)
          (beq_refl (codes "1"))

  docker_run :
      main_outcome h image args
      ≡ run_docker (
          codes "run"
          ∷ codes "--rm"
          ∷ (volumes_and_env h.getenv out cache model_volume key_volume
              ++ (o.image ∷ container_args o key)))
  unfolding main_outcome docker_run_args
  docker_run =
      ap (act h) accepted
      ∙ ap
          (λ b.
            if b || beq (h.getenv (codes "MODELWRAP_IN_CONTAINER")) (codes "1")
            then run_packer o
            else launch h o)
          outside
      ∙ ap (λ b. if b then run_packer o else launch h o) host_side
      ∙ ap docker_or_exit (
          ap (λ r. r >>= λ f. ok (f ++ (o.image ∷ container_args o (key_file_of h.getenv o))))
            (docker_flags-volumes_and_env h o out cache model_inside key key_inside model_volume
              key_volume output_made cache_made model_mounted key_named key_mounted)
          ∙ ap
              (λ k. ok (
                codes "run"
                ∷ codes "--rm"
                ∷ (volumes_and_env h.getenv out cache model_volume key_volume
                    ++ (o.image ∷ container_args o k))))
              (key_file_of-IsKeyFile h.getenv o key key_named))

  forwarded_is : inner_options.options ≡ record {
    model = o.options.model;
    model_dir = model_inside;
    cache_dir = codes "/cache";
    output_dir = codes "/output";
    schema = o.options.schema;
    encrypt = o.options.encrypt;
    verify = o.options.verify;
    key_file = key_inside;
    hf_token = h.getenv (codes "HF_TOKEN");
  }
  forwarded_is =
      rw
        (path_in-IsMounted h (codes "/model") o.options.model_dir model_inside model_volume
          model_mounted)
        (rw (path_in-IsMounted h (codes "/run/modelwrap-key") key key_inside key_volume key_mounted)
          (rw (parse_args-token h.getenv image args o accepted) refl))

  -- Where the host accepts the command line as a launch, its model is no flag, the directories and
  -- paths are found and made, a deletion has no key file in the environment, and the container has
  -- the image's variables and the token that docker's options give it: docker is run with the
  -- host's output and cache directories at /output and /cache, the model directory and the key file
  -- (the option before the environment) read-only at /model and /run/modelwrap-key where they are
  -- named, HF_TOKEN and PRIVATE_MODEL_KEY_B64 passed on by name where they are set, and the image;
  -- and behind the image come arguments with which the packer in the container is called for the
  -- same model, schema, encryption and verification, on those paths, with the host's token.
  pub launch-handover :
      (o.delete ≡ true → h.getenv (codes "PRIVATE_MODEL_KEY_FILE") ≡ [])
      → (main_outcome h image args
          ≡ run_docker (
              codes "run"
              ∷ codes "--rm"
              ∷ codes "-v"
              ∷ (out ++ codes ":/output")
              ∷ codes "-v"
              ∷ (cache ++ codes ":/cache")
              ∷ ((model_volume
                    ++ (key_volume
                        ++ (passed h.getenv (codes "HF_TOKEN")
                            ++ passed h.getenv (codes "PRIVATE_MODEL_KEY_B64"))))
                  ++ (o.image ∷ container_args o key))))
        × (main_outcome c inner_image (container_args o key) ≡ (
            if o.delete
            then run_delete o.options.model (codes "/cache") (codes "/output")
            else run_pack (record {
              model = o.options.model;
              model_dir = model_inside;
              cache_dir = codes "/cache";
              output_dir = codes "/output";
              schema = o.options.schema;
              encrypt = o.options.encrypt;
              verify = o.options.verify;
              key_file = key_inside;
              hf_token = h.getenv (codes "HF_TOKEN");
            })))
  launch-handover no_key = (
    docker_run,
    inner_run (inner_good no_key)
        ∙ ap
            (λ p.
              if o.delete
              then run_delete o.options.model (codes "/cache") (codes "/output")
              else run_pack p)
            forwarded_is,
  )

  -- A launched deletion whose host names a key file in the environment: where the command line is
  -- accepted on the host, its model is no flag, docker can be started there, and the container has
  -- the image's variables and the token that docker's options give it, docker is run, and the
  -- command in the container refuses its arguments with exit code 2.
  pub launch-delete_refused :
      o.delete ≡ true
      → is_set (h.getenv (codes "PRIVATE_MODEL_KEY_FILE")) ≡ true
      → (main_outcome h image args
          ≡ run_docker (
              codes "run"
              ∷ codes "--rm"
              ∷ (volumes_and_env h.getenv out cache model_volume key_volume
                  ++ (o.image ∷ container_args o key))))
        × (main_outcome c inner_image (container_args o key) ≡ exit 2)
  unfolding main_outcome
  launch-delete_refused delete named = (
    docker_run,
    ap (act c) (
        inner_parsed
        ∙ ap (λ b. refuse_if b invalid_delete_options >> ok inner_options)
            (bad_delete-forwarded o inner_image key
              ∙ ap
                  (λ k.
                    o.delete
                    && (is_set o.options.model_dir
                        || o.options.encrypt
                        || o.options.verify
                        || is_set k))
                  (sym (key_file_of-IsKeyFile h.getenv o key key_named))
              ∙ key_file_named o (h.getenv (codes "PRIVATE_MODEL_KEY_FILE")) delete named)),
  )
