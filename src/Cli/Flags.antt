-- ===== src/Cli/Flags.antt =====
-- The flags of parseArgs, and `FlagSet.Parse` of the package `flag` over them.
use modelwrap.Prelude.{
  Bool, true, false, not, ◌||◌, List, [], ◌∷◌, Bytes, codes, beq, ◌==◌, if◌then◌else◌, Option, none,
  some, Result, ok, err, ◌>>=◌, map_err, ℤ, NumError,
}
use modelwrap.Cli.{
  CliOptions, CliError, help, bad_flag_syntax, undefined_flag, flag_needs_argument, bad_bool,
  bad_value,
}
use modelwrap.Cli.Int.{parse_int_base0}

pub data BoolFlag : Type 0 where
  delete_flag verify_flag encrypt_flag local_flag : BoolFlag

pub data ValueFlag : Type 0 where
  model_dir_flag key_file_flag output_flag cache_flag image_flag schema_flag : ValueFlag

pub data Flag : Type 0 where
  bool_flag : BoolFlag → Flag
  value_flag : ValueFlag → Flag

-- The flag set's `formal` map.
unfoldable pub flag_of : Bytes → Option Flag
flag_of name =
    if beq name (codes "model-dir")
    then some (value_flag model_dir_flag)
    else if beq name (codes "key-file")
    then some (value_flag key_file_flag)
    else if beq name (codes "output")
    then some (value_flag output_flag)
    else if beq name (codes "cache")
    then some (value_flag cache_flag)
    else if beq name (codes "image")
    then some (value_flag image_flag)
    else if beq name (codes "schema")
    then some (value_flag schema_flag)
    else if beq name (codes "delete")
    then some (bool_flag delete_flag)
    else if beq name (codes "verify")
    then some (bool_flag verify_flag)
    else if beq name (codes "encrypt")
    then some (bool_flag encrypt_flag)
    else if beq name (codes "local")
    then some (bool_flag local_flag)
    else none

abbrev pub set_bool : BoolFlag → Bool → CliOptions → CliOptions
set_bool delete_flag b o = record o { delete = b }
set_bool verify_flag b o = record o { options = record o.options { verify = b } }
set_bool encrypt_flag b o = record o { options = record o.options { encrypt = b } }
set_bool local_flag b o = record o { is_local = b }

abbrev pub set_schema : ℤ → CliOptions → CliOptions
set_schema n o = record o { options = record o.options { schema = n } }

abbrev pub set_value : ValueFlag → Bytes → CliOptions → Result NumError CliOptions
set_value model_dir_flag v o = ok (record o { options = record o.options { model_dir = v } })
set_value key_file_flag v o = ok (record o { options = record o.options { key_file = v } })
set_value output_flag v o = ok (record o { options = record o.options { output_dir = v } })
set_value cache_flag v o = ok (record o { options = record o.options { cache_dir = v } })
set_value image_flag v o = ok (record o { image = v })
set_value schema_flag v o = parse_int_base0 v >>= λ n. ok (set_schema n o)

abbrev pub is_schema_flag : ValueFlag → Bool
is_schema_flag model_dir_flag = false
is_schema_flag key_file_flag = false
is_schema_flag output_flag = false
is_schema_flag cache_flag = false
is_schema_flag image_flag = false
is_schema_flag schema_flag = true

-- `strconv.ParseBool`
unfoldable pub parse_bool : Bytes → Option Bool
parse_bool s =
    if beq s (codes "1")
      || beq s (codes "t")
      || beq s (codes "T")
      || beq s (codes "TRUE")
      || beq s (codes "true")
      || beq s (codes "True")
    then some true
    else if beq s (codes "0")
        || beq s (codes "f")
        || beq s (codes "F")
        || beq s (codes "FALSE")
        || beq s (codes "false")
        || beq s (codes "False")
    then some false
    else none

-- The name of a flag, and the text behind the first "=" that is not its first byte.
unfoldable pub cut_value : Bytes → Bytes × Option Bytes
cut_value [] = ([], none)
cut_value (c ∷ s) = elim (c == b'=') [
  | true ↦ ([], some s)
  | false ↦ let (name, value) = cut_value s in (c ∷ name, value)
]

-- What `parseOne` sees in an argument.
pub data Seen : Type 0 where
  positional terminator bad_syntax : Seen
  named : Bytes → Option Bytes → Seen

abbrev pub seen_name : Bytes → Seen
seen_name [] = bad_syntax
seen_name (c ∷ s) =
    if (c == b'-') || (c == b'=')
    then bad_syntax
    else (let (name, value) = cut_value s in named (c ∷ name) value)

unfoldable pub see : Bytes → Seen
unfolding cut_value
see [] = positional
see (c ∷ []) = positional
see (c ∷ d ∷ []) =
    if not (c == b'-') then positional else if d == b'-' then terminator else seen_name (d ∷ [])
see (c ∷ d ∷ e ∷ s) =
    if not (c == b'-')
    then positional
    else if d == b'-'
    then seen_name (e ∷ s)
    else seen_name (d ∷ e ∷ s)

-- The options so far, and whether `--schema` was among the flags.
pub record Parsed : Type 0 where
  pub opts : CliOptions
  pub schema_flag_set : Bool

abbrev pub apply_value : ValueFlag → Bytes → Parsed → Result CliError Parsed
apply_value f v p = map_err (bad_value v) (set_value f v p.opts) >>= λ o.
    ok (record { opts = o; schema_flag_set = p.schema_flag_set || is_schema_flag f })

abbrev pub apply_bool : BoolFlag → Option Bytes → Parsed → Result CliError Parsed
apply_bool f none p = ok (record p { opts = set_bool f true p.opts })
apply_bool f (some v) p = elim (parse_bool v) [
  | none ↦ err (bad_bool v)
  | some b ↦ ok (record p { opts = set_bool f b p.opts })
]

abbrev pub no_such_flag : Bytes → CliError
no_such_flag name =
    if beq name (codes "help") || beq name (codes "h") then help else undefined_flag name

-- A named flag: `again` goes on with the arguments behind it, and `wait` takes the next one as the
-- flag's value.
abbrev pub on_flag :
    (Parsed → Result CliError (Parsed × List Bytes))
    → (ValueFlag → Result CliError (Parsed × List Bytes))
    → Parsed
    → Bytes
    → Option Bytes
    → Option Flag
    → Result CliError (Parsed × List Bytes)
on_flag again wait p name value none = err (no_such_flag name)
on_flag again wait p name value (some (bool_flag f)) = apply_bool f value p >>= again
on_flag again wait p name (some v) (some (value_flag f)) = apply_value f v p >>= again
on_flag again wait p name none (some (value_flag f)) = wait f

-- `parseOne`
abbrev pub on_seen :
    (Parsed → Result CliError (Parsed × List Bytes))
    → (ValueFlag → Result CliError (Parsed × List Bytes))
    → Parsed
    → Bytes
    → List Bytes
    → Seen
    → Result CliError (Parsed × List Bytes)
on_seen again wait p arg rest positional = ok (p, arg ∷ rest)
on_seen again wait p arg rest terminator = ok (p, rest)
on_seen again wait p arg rest bad_syntax = err (bad_flag_syntax arg)
on_seen again wait p arg rest (named name value) = on_flag again wait p name value (flag_of name)

-- `FlagSet.Parse`: the options, and the arguments that are left. The second argument is the flag
-- whose value comes next.
unfoldable pub parse_flags :
    List Bytes → Option ValueFlag → Parsed → Result CliError (Parsed × List Bytes)
unfolding flag_of parse_bool see
parse_flags [] none p = ok (p, [])
parse_flags [] (some f) p = err flag_needs_argument
parse_flags (v ∷ rest) (some f) p = apply_value f v p >>= parse_flags rest none
parse_flags (arg ∷ rest) none p =
    on_seen (parse_flags rest none) (λ f. parse_flags rest (some f) p) p arg rest (see arg)
