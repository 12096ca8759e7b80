-- ===== src/Cli/Args.antt =====
-- parseArgs
use modelwrap.Prelude.{
  zero, suc, Bool, true, false, not, ◌&&◌, ◌||◌, List, [], ◌∷◌, Bytes, codes, beq, if◌then◌else◌,
  none, Result, ok, err, ◌>>=◌, ◌>>◌, refuse_if, ℤ, pos, negsuc, NumError, atoi,
}
use modelwrap.Cli.{
  CliOptions, CliError, Env, invalid_schema_env, invalid_schema_flag, unexpected_arguments,
  invalid_delete_options,
}
use modelwrap.Cli.Flags.{Parsed, parse_flags, set_schema}

abbrev pub default_image : Bytes
default_image = codes "ghcr.io/tinfoilsh/modelwrap:latest"

abbrev pub is_positive : ℤ → Bool
is_positive (pos zero) = false
is_positive (pos (suc n)) = true
is_positive (negsuc n) = false

abbrev pub is_set : Bytes → Bool
is_set [] = false
is_set (c ∷ s) = true

abbrev pub or_else : Bytes → Bytes → Bytes
or_else s fallback = if is_set s then s else fallback

-- The options from the environment, before MODELWRAP_SCHEMA. `image` is the build's default image.
abbrev pub env_options : Env → Bytes → CliOptions
env_options getenv image = record {
  options = record {
    model = getenv (codes "MODEL");
    model_dir = getenv (codes "MODEL_DIR");
    cache_dir = getenv (codes "CACHE_DIR");
    output_dir = getenv (codes "OUTPUT_DIR");
    schema = pos 0;
    encrypt = beq (getenv (codes "ENCRYPTION")) (codes "1");
    verify = beq (getenv (codes "VERIFY")) (codes "1");
    key_file = [];
    hf_token = getenv (codes "HF_TOKEN");
  };
  image = or_else (getenv (codes "MODELWRAP_IMAGE")) image;
  is_local = false;
  delete = false;
}

abbrev pub select_schema : Result NumError ℤ → CliOptions → Result CliError CliOptions
select_schema (err e) o = err invalid_schema_env
select_schema (ok n) o = if is_positive n then ok (set_schema n o) else err invalid_schema_env

-- MODELWRAP_SCHEMA
abbrev pub env_schema : Bytes → CliOptions → Result CliError CliOptions
env_schema [] o = ok o
env_schema (c ∷ s) o = select_schema (atoi (c ∷ s)) o

-- The positional argument.
abbrev pub take_model : List Bytes → CliOptions → Result CliError CliOptions
take_model [] o = ok o
take_model (model ∷ []) o = ok (record o { options = record o.options { model = model } })
take_model (a ∷ b ∷ rest) o = err unexpected_arguments

abbrev pub bad_delete : CliOptions → Bool
bad_delete o =
    o.delete
    && (is_set o.options.model_dir
        || o.options.encrypt
        || o.options.verify
        || is_set o.options.key_file)

abbrev pub after_flags : Parsed × List Bytes → Result CliError CliOptions
after_flags (p, rest) = do
  refuse_if (p.schema_flag_set && not (is_positive p.opts.options.schema)) invalid_schema_flag
  o ← take_model rest p.opts
  refuse_if (bad_delete o) invalid_delete_options
  ok o

-- `parseArgs`
unfoldable pub parse_args : Env → Bytes → List Bytes → Result CliError CliOptions
parse_args getenv image args = do
  o ← env_schema (getenv (codes "MODELWRAP_SCHEMA")) (env_options getenv image)
  done ← parse_flags args none (record { opts = o; schema_flag_set = false })
  after_flags done
