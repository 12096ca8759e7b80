-- ===== src/Cli/Token.antt =====
-- The token of the options is the environment's.
use modelwrap.Prelude.{
  not, ◌&&◌, ◌≡◌, inl, inr, refl, sym, ap, ◌∙◌, Bool, true, false, List, [], ◌∷◌, Bytes, codes,
  Option, none, some, Result, ok, err, bind_ok, refuse_if, arith, Result-cases, ℤ, NumError, pos,
  negsuc, zero, suc, atoi,
}
use modelwrap.Cli.{CliOptions, Env, invalid_schema_flag, invalid_delete_options}
use modelwrap.Cli.Int.{parse_int_base0}
use modelwrap.Cli.Flags.{
  Parsed, BoolFlag, ValueFlag, parse_flags, apply_bool, apply_value, set_bool, model_dir_flag,
  key_file_flag, output_flag, cache_flag, image_flag, schema_flag, delete_flag, verify_flag,
  encrypt_flag, local_flag,
}
use modelwrap.Cli.Kept.{parse_flags-Keeps}
use modelwrap.Cli.Checked.{ok_injective}
use modelwrap.Cli.Args.{
  parse_args, after_flags, take_model, env_options, env_schema, select_schema, bad_delete,
  is_positive,
}

-- No flag changes the token.
abbrev HasToken : Bytes → Parsed → Type 0
HasToken t p = p.opts.options.hf_token ≡ t

set_bool-token :
    (f : BoolFlag) (b : Bool) (p : Parsed)
    → (set_bool f b p.opts).options.hf_token ≡ p.opts.options.hf_token
set_bool-token delete_flag b p = refl
set_bool-token verify_flag b p = refl
set_bool-token encrypt_flag b p = refl
set_bool-token local_flag b p = refl

apply_bool-HasToken :
    (t : Bytes) (f : BoolFlag) (value : Option Bytes) (p q : Parsed)
    → HasToken t p
    → apply_bool f value p ≡ ok q
    → HasToken t q
apply_bool-HasToken t f none p q k h = ground (arith, set_bool-token f true p)
apply_bool-HasToken t f (some v) p q k h =
    ground (arith, set_bool-token f true p, set_bool-token f false p)

apply_value-HasToken :
    (t : Bytes) (f : ValueFlag) (v : Bytes) (p q : Parsed)
    → HasToken t p
    → apply_value f v p ≡ ok q
    → HasToken t q
apply_value-HasToken t model_dir_flag v p q k h = ground arith
apply_value-HasToken t key_file_flag v p q k h = ground arith
apply_value-HasToken t output_flag v p q k h = ground arith
apply_value-HasToken t cache_flag v p q k h = ground arith
apply_value-HasToken t image_flag v p q k h = ground arith
apply_value-HasToken t schema_flag v p q k h = elim (Result-cases (parse_int_base0 v)) [
  | inl (z, e) ↦ ground arith
  | inr (_, e) ↦ absurd (ground arith)
]

parse_flags-token :
    (args : List Bytes) (p : Parsed) (done : Parsed × List Bytes)
    → parse_flags args none p ≡ ok done
    → done.0.opts.options.hf_token ≡ p.opts.options.hf_token
parse_flags-token args p done h =
    parse_flags-Keeps (HasToken p.opts.options.hf_token)
      (apply_bool-HasToken p.opts.options.hf_token) (apply_value-HasToken p.opts.options.hf_token)
      args none p refl done h

select_schema-token :
    (r : Result NumError ℤ) (p o : CliOptions)
    → select_schema r p ≡ ok o
    → o.options.hf_token ≡ p.options.hf_token
select_schema-token (ok (pos zero)) p o h = cc
select_schema-token (ok (pos (suc n))) p o h = ground arith
select_schema-token (ok (negsuc n)) p o h = cc
select_schema-token (err x) p o h = cc

env_schema-token :
    (v : Bytes) (p o : CliOptions) → env_schema v p ≡ ok o → o.options.hf_token ≡ p.options.hf_token
env_schema-token [] p o h = ground arith
env_schema-token (c ∷ s) p o h = select_schema-token (atoi (c ∷ s)) p o h

take_model-token :
    (rest : List Bytes) (p o : CliOptions)
    → take_model rest p ≡ ok o
    → o.options.hf_token ≡ p.options.hf_token
take_model-token [] p o h = ground arith
take_model-token (m ∷ []) p o h = ground arith
take_model-token (a ∷ b ∷ rest) p o h = cc

after_flags-token :
    (p : Parsed) (rest : List Bytes) (o : CliOptions)
    → after_flags (p, rest) ≡ ok o
    → o.options.hf_token ≡ p.opts.options.hf_token
after_flags-token p rest o h =
    let (_, h1, _) =
      bind_ok _
        (refuse_if (p.schema_flag_set && not (is_positive p.opts.options.schema))
          invalid_schema_flag)
        o h in
    let (o1, h2, taken) = bind_ok _ (take_model rest p.opts) o h1 in
    let (_, h3, _) = bind_ok _ (refuse_if (bad_delete o1) invalid_delete_options) o h2 in
    let same : o1 ≡ o = ok_injective o1 o h3 in
    ap (λ (t : CliOptions). t.options.hf_token) (sym same) ∙ take_model-token rest p.opts o1 taken

pub parse_args-token :
    (getenv : Env) (image : Bytes) (args : List Bytes) (o : CliOptions)
    → parse_args getenv image args ≡ ok o
    → o.options.hf_token ≡ getenv (codes "HF_TOKEN")
unfolding parse_args
parse_args-token getenv image args o h =
    let env = getenv (codes "MODELWRAP_SCHEMA") in
    let (o1, h1, from_env) = bind_ok _ (env_schema env (env_options getenv image)) o h in
    let start : Parsed = record { opts = o1; schema_flag_set = false } in
    let (done, h2, parsed) = bind_ok after_flags (parse_flags args none start) o h1 in
    after_flags-token done.0 done.1 o h2
    ∙ parse_flags-token args start done parsed
    ∙ env_schema-token env (env_options getenv image) o1 from_env
