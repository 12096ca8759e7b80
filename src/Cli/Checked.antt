-- ===== src/Cli/Checked.antt =====
-- What parseArgs guarantees of the options that it returns.
use modelwrap.Prelude.{
  Bool-cases, ℕ, zero, suc, ◌≡◌, ◌<◌, ◌^◌, ◌⊎◌, inl, inr, refl, sym, Bool, true, false, not, ◌&&◌,
  List, [], ◌∷◌, Bytes, codes, Option, none, some, Result, ok, err, ◌>>=◌, refuse_if, bind_ok,
  refuse_if_ok, atoi-fits, ℤ, pos, negsuc, NumError, arith, atoi, Result-cases,
}
use mathlib.Core.Path.{subst}
use modelwrap.Cli.{CliOptions, Env, invalid_schema_flag, invalid_delete_options}
use modelwrap.Cli.Int.{parse_int_base0, parse_uint_base0, signed_base0}
use modelwrap.Cli.Flags.{
  set_schema, Parsed, BoolFlag, ValueFlag, parse_flags, apply_bool, apply_value, set_bool,
  model_dir_flag, key_file_flag, output_flag, cache_flag, image_flag, schema_flag, delete_flag,
  verify_flag, encrypt_flag, local_flag,
}
use modelwrap.Cli.Kept.{parse_flags-Keeps, parse_flags-explicit, IsSchemaGiven}
use modelwrap.Cli.Args.{
  is_set, parse_args, after_flags, take_model, env_options, env_schema, select_schema, bad_delete,
  is_positive,
}

-- An int64 that is not negative.
abbrev pub IsNatural : ℤ → Type 0
IsNatural (pos n) = n < 2 ^ 63
IsNatural (negsuc n) = ⊥

abbrev pub IsInt : ℤ → Type 0
IsInt (pos n) = n < 2 ^ 63
IsInt (negsuc n) = n < 2 ^ 63

signed_base0-IsInt : (negative : Bool) (n : ℕ) (z : ℤ) → signed_base0 negative n ≡ ok z → IsInt z
signed_base0-IsInt true zero z h = ground arith
signed_base0-IsInt true (suc n) z h = ground arith
signed_base0-IsInt false n z h = ground arith

IsInt-bind :
    (negative : Bool) (r : Result NumError ℕ) (z : ℤ)
    → (r >>= signed_base0 negative) ≡ ok z
    → IsInt z
IsInt-bind negative r z h =
    let (n, e, _) = bind_ok (signed_base0 negative) r z h in signed_base0-IsInt negative n z e

parse_int_base0-IsInt : (s : Bytes) (z : ℤ) → parse_int_base0 s ≡ ok z → IsInt z
unfolding parse_int_base0
parse_int_base0-IsInt [] z h = cc
parse_int_base0-IsInt (c ∷ s) z h = ground (
  arith,
  IsInt-bind false (parse_uint_base0 s) z,
  IsInt-bind true (parse_uint_base0 s) z,
  IsInt-bind false (parse_uint_base0 (c ∷ s)) z,
)

-- The schema of the environment: a natural int, and positive where the variable is set.
abbrev IsFromEnv : Bytes → ℤ → Type 0
IsFromEnv v z = IsNatural z × ((v ≡ []) ⊎ (is_positive z ≡ true))

-- The schema is an int, and the environment's unless the flag has set it.
abbrev Keeps : Bytes → Parsed → Type 0
Keeps env p =
    IsInt p.opts.options.schema × ((p.schema_flag_set ≡ true) ⊎ IsFromEnv env p.opts.options.schema)

pub ok_injective {ℓ κ} :
    {E : Type ℓ} {A : Type κ} (a b : A) → ◌≡◌ {A = Result E A} (ok a) (ok b) → a ≡ b
ok_injective a b h = cc

set_bool-schema :
    (f : BoolFlag) (b : Bool) (o : CliOptions) → (set_bool f b o).options.schema ≡ o.options.schema
set_bool-schema delete_flag b o = refl
set_bool-schema verify_flag b o = refl
set_bool-schema encrypt_flag b o = refl
set_bool-schema local_flag b o = refl

apply_bool-Keeps :
    (env : Bytes) (f : BoolFlag) (value : Option Bytes) (p q : Parsed)
    → Keeps env p
    → apply_bool f value p ≡ ok q
    → Keeps env q
apply_bool-Keeps env f none p q k h = ground (arith, set_bool-schema f true p.opts)
apply_bool-Keeps env f (some v) p q k h =
    ground (arith, set_bool-schema f true p.opts, set_bool-schema f false p.opts)

apply_value-Keeps :
    (env : Bytes) (f : ValueFlag) (v : Bytes) (p q : Parsed)
    → Keeps env p
    → apply_value f v p ≡ ok q
    → Keeps env q
apply_value-Keeps env model_dir_flag v p q k h = ground arith
apply_value-Keeps env key_file_flag v p q k h = ground arith
apply_value-Keeps env output_flag v p q k h = ground arith
apply_value-Keeps env cache_flag v p q k h = ground arith
apply_value-Keeps env image_flag v p q k h = ground arith
apply_value-Keeps env schema_flag v p q k h = elim (Result-cases (parse_int_base0 v)) [
  | inl (z, e) ↦ ground (arith, parse_int_base0-IsInt v z e)
  | inr (_, e) ↦ absurd (ground arith)
]

take_model-schema :
    (rest : List Bytes) (p o : CliOptions)
    → take_model rest p ≡ ok o
    → o.options.schema ≡ p.options.schema
take_model-schema [] p o h = ground arith
take_model-schema (m ∷ []) p o h = ground arith
take_model-schema (a ∷ b ∷ rest) p o h = cc

-- The schema is an int and positive, or absent on the command line and in the environment.
abbrev IsSchemaOf : Bytes → List Bytes → ℤ → Type 0
IsSchemaOf env args z =
    (n : ℕ) × (z ≡ pos n)
    × (n < 2 ^ 63)
    × ((0 < n) ⊎ ((n ≡ 0) × (env ≡ []) × (¬ IsSchemaGiven args)))

-- A deletion has no other option with it.
abbrev IsPlainDeletion : CliOptions → Type 0
IsPlainDeletion o =
    (o.delete ≡ false)
    ⊎ ((o.options.model_dir ≡ [])
        × (o.options.encrypt ≡ false)
        × (o.options.verify ≡ false)
        × (o.options.key_file ≡ []))

-- Options that the launcher may forward.
abbrev pub IsChecked : Env → List Bytes → CliOptions → Type 0
IsChecked getenv args o =
    IsSchemaOf (getenv (codes "MODELWRAP_SCHEMA")) args o.options.schema × IsPlainDeletion o

is_set-empty : (s : Bytes) → is_set s ≡ false → s ≡ []
is_set-empty [] h = refl
is_set-empty (c ∷ s) h = cc

bad_delete-plain : (o : CliOptions) → bad_delete o ≡ false → IsPlainDeletion o
bad_delete-plain o h = elim (Bool-cases o.delete) [
  | inl e ↦ inr (
    is_set-empty o.options.model_dir (ground (arith, e, h)),
    ground (arith, e, h),
    ground (arith, e, h),
    is_set-empty o.options.key_file (ground (arith, e, h)),
  )
  | inr e ↦ inl e
]

positive_is :
    (env : Bytes) (args : List Bytes) (z : ℤ)
    → IsInt z
    → is_positive z ≡ true
    → IsSchemaOf env args z
positive_is env args (pos zero) i e = cc
positive_is env args (pos (suc n)) i e = (suc n, refl, i, inl (omega arith))
positive_is env args (negsuc n) i e = cc

natural_is :
    (env : Bytes) (args : List Bytes) (z : ℤ)
    → IsNatural z
    → env ≡ []
    → (¬ IsSchemaGiven args)
    → IsSchemaOf env args z
natural_is env args (pos zero) h e free = (zero, refl, h, inr (refl, e, free))
natural_is env args (pos (suc n)) h e free = (suc n, refl, h, inl (omega arith))
natural_is env args (negsuc n) h e free = absurd h

schema_behind :
    (env : Bytes) (args : List Bytes) (set : Bool) (z : ℤ)
    → (IsSchemaGiven args → set ≡ true)
    → IsInt z
    → (set ≡ true) ⊎ IsFromEnv env z
    → (set && not (is_positive z)) ≡ false
    → IsSchemaOf env args z
schema_behind env args true z given i k h = positive_is env args z i (ground (arith, h))
schema_behind env args false z given i (inl e) h = cc
schema_behind env args false z given i (inr (n, inl e)) h =
    natural_is env args z n e (λ g. let set = given g in cc)
schema_behind env args false z given i (inr (n, inr e)) h = positive_is env args z i e

-- What the steps behind the flags refuse.
after_flags-ok :
    (env : Bytes) (args : List Bytes) (p : Parsed) (rest : List Bytes) (o : CliOptions)
    → (IsSchemaGiven args → p.schema_flag_set ≡ true)
    → Keeps env p
    → after_flags (p, rest) ≡ ok o
    → IsSchemaOf env args o.options.schema × (bad_delete o ≡ false)
after_flags-ok env args p rest o given k h =
    let (_, h1, schema_ok) =
      bind_ok _
        (refuse_if (p.schema_flag_set && not (is_positive p.opts.options.schema))
          invalid_schema_flag)
        o h in
    let (o1, h2, taken) = bind_ok _ (take_model rest p.opts) o h1 in
    let (_, h3, delete_ok) = bind_ok _ (refuse_if (bad_delete o1) invalid_delete_options) o h2 in
    let same : o1 ≡ o = ok_injective o1 o h3 in
    let schema : IsSchemaOf env args p.opts.options.schema =
      schema_behind env args p.schema_flag_set p.opts.options.schema given k.0 k.1
        (refuse_if_ok _ _ _ schema_ok) in
    subst (λ (t : CliOptions). IsSchemaOf env args t.options.schema × (bad_delete t ≡ false)) same
      (
        subst (IsSchemaOf env args) (sym (take_model-schema rest p.opts o1 taken)) schema,
        refuse_if_ok _ _ _ delete_ok,
      )

select_schema-IsFromEnv :
    (s : Bytes) (r : Result NumError ℤ) (p o : CliOptions)
    → atoi s ≡ r
    → select_schema r p ≡ ok o
    → IsFromEnv s o.options.schema
select_schema-IsFromEnv s (ok (pos zero)) p o e h = cc
select_schema-IsFromEnv s (ok (pos (suc n))) p o e h =
    subst (λ (t : CliOptions). IsFromEnv s t.options.schema)
      (ok_injective (set_schema (pos (suc n)) p) o h) (atoi-fits s (suc n) e, inr refl)
select_schema-IsFromEnv s (ok (negsuc n)) p o e h = cc
select_schema-IsFromEnv s (err x) p o e h = cc

env_schema-IsFromEnv :
    (v : Bytes) (p o : CliOptions)
    → IsNatural p.options.schema
    → env_schema v p ≡ ok o
    → IsFromEnv v o.options.schema
env_schema-IsFromEnv [] p o k h =
    subst (λ (t : CliOptions). IsFromEnv [] t.options.schema) (ok_injective p o h) (k, inl refl)
env_schema-IsFromEnv (c ∷ s) p o k h = select_schema-IsFromEnv (c ∷ s) (atoi (c ∷ s)) p o refl h

IsInt-of_natural : (z : ℤ) → IsNatural z → IsInt z
IsInt-of_natural (pos n) h = h
IsInt-of_natural (negsuc n) h = absurd h

pub parse_args-ok :
    (getenv : Env) (image : Bytes) (args : List Bytes) (o : CliOptions)
    → parse_args getenv image args ≡ ok o
    → IsSchemaOf (getenv (codes "MODELWRAP_SCHEMA")) args o.options.schema × (bad_delete o ≡ false)
unfolding parse_args
parse_args-ok getenv image args o h =
    let env = getenv (codes "MODELWRAP_SCHEMA") in
    let (o1, h1, from_env) = bind_ok _ (env_schema env (env_options getenv image)) o h in
    let start : Parsed = record { opts = o1; schema_flag_set = false } in
    let (done, h2, parsed) = bind_ok after_flags (parse_flags args none start) o h1 in
    let of_env = env_schema-IsFromEnv env (env_options getenv image) o1 (omega arith) from_env in
    after_flags-ok env args done.0 done.1 o
      (λ given. parse_flags-explicit args start done given parsed)
      (parse_flags-Keeps (Keeps env) (apply_bool-Keeps env) (apply_value-Keeps env) args none start
        (IsInt-of_natural o1.options.schema of_env.0, inr of_env) done parsed)
      h2

-- The options that parseArgs returns without an error: their schema is an int; it is positive, or it
-- is 0 where MODELWRAP_SCHEMA is empty and the command line gives --schema no value of its own,
-- behind whatever flags that are written with two dashes, a value being the next argument. With a
-- deletion there is no model directory, no encryption, no verification and no key file.
pub parse_args-IsChecked :
    (getenv : Env) (image : Bytes) (args : List Bytes) (o : CliOptions)
    → parse_args getenv image args ≡ ok o
    → IsChecked getenv args o
parse_args-IsChecked getenv image args o h =
    let (schema, plain) = parse_args-ok getenv image args o h in (schema, bad_delete-plain o plain)
