-- ===== src/Cli.antt =====
-- cmd/modelwrap: the command line, on the host and in the packer container.
pub mod Int
pub mod Flags
pub mod Args
pub mod Launcher
pub mod Kept
pub mod Token
pub mod Checked
pub mod Forward
pub mod Volumes
pub mod Handover
use modelwrap.Prelude.{ℕ, Bool, Bytes, ℤ, NumError}

-- wrap.Options
pub record Options : Type 0 where
  pub model : Bytes
  pub model_dir : Bytes
  pub cache_dir : Bytes
  pub output_dir : Bytes
  pub schema : ℤ
  pub encrypt : Bool
  pub verify : Bool
  pub key_file : Bytes
  pub hf_token : Bytes

pub record CliOptions : Type 0 where
  pub options : Options
  pub image : Bytes
  pub is_local : Bool
  pub delete : Bool

pub data CliError : Type 0 where
  help invalid_schema_env invalid_schema_flag unexpected_arguments invalid_delete_options : CliError
  flag_needs_argument : CliError
  bad_flag_syntax undefined_flag : Bytes → CliError
  bad_bool : Bytes → CliError
  bad_value : Bytes → NumError → CliError

-- `os.Getenv`: an unset variable reads as the empty text.
abbrev pub Env : Type 0
Env = Bytes → Bytes
