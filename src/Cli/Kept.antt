-- ===== src/Cli/Kept.antt =====
-- The loop of the flag package: what every single flag keeps is kept by the loop.
use modelwrap.Prelude.{
  ◌≡◌, inl, inr, true, List, [], ◌∷◌, Bytes, Option, none, some, Result, ok, ◌>>=◌, bind_ok, arith,
  Result-cases, refl, sym, ◌∙◌, codes, beq,
}
use modelwrap.Cli.{CliError}
use modelwrap.Cli.Int.{parse_int_base0}
use modelwrap.Cli.Flags.{
  on_seen, on_flag, Parsed, Flag, BoolFlag, ValueFlag, bool_flag, value_flag, parse_flags,
  apply_bool, apply_value, flag_of, see, positional, terminator, bad_syntax, named, Seen, cut_value,
  model_dir_flag, key_file_flag, output_flag, cache_flag, image_flag, schema_flag,
}

module _ (Keeps : Parsed → Type 0)
    (after_bool : (f : BoolFlag) (value : Option Bytes) (p q : Parsed)
      → Keeps p
      → apply_bool f value p ≡ ok q
      → Keeps q)
    (after_value : (f : ValueFlag) (v : Bytes) (p q : Parsed)
      → Keeps p
      → apply_value f v p ≡ ok q
      → Keeps q) where
  -- What holds of every result that a continuation returns.
  abbrev Returns : Result CliError (Parsed × List Bytes) → Type 0
  Returns r = (done : Parsed × List Bytes) → r ≡ ok done → Keeps done.0

  on_flag-Keeps :
      (again : Parsed → Result CliError (Parsed × List Bytes))
      (wait : ValueFlag → Result CliError (Parsed × List Bytes)) (p : Parsed) (name : Bytes)
      (value : Option Bytes) (flag : Option Flag)
      → ((q : Parsed) → Keeps q → Returns (again q))
      → ((f : ValueFlag) → Returns (wait f))
      → Keeps p
      → Returns (on_flag again wait p name value flag)
  on_flag-Keeps again wait p name value none ha hw k done h = cc
  on_flag-Keeps again wait p name value (some (bool_flag f)) ha hw k done h =
      let (q, e, a) = bind_ok again (apply_bool f value p) done h in
      ha q (after_bool f value p q k a) done e
  on_flag-Keeps again wait p name (some v) (some (value_flag f)) ha hw k done h =
      let (q, e, a) = bind_ok again (apply_value f v p) done h in
      ha q (after_value f v p q k a) done e
  on_flag-Keeps again wait p name none (some (value_flag f)) ha hw k done h = hw f done h

  on_seen-Keeps :
      (again : Parsed → Result CliError (Parsed × List Bytes))
      (wait : ValueFlag → Result CliError (Parsed × List Bytes)) (p : Parsed) (arg : Bytes)
      (rest : List Bytes) (seen : Seen)
      → ((q : Parsed) → Keeps q → Returns (again q))
      → ((f : ValueFlag) → Returns (wait f))
      → Keeps p
      → Returns (on_seen again wait p arg rest seen)
  on_seen-Keeps again wait p arg rest positional ha hw k done h = ground arith
  on_seen-Keeps again wait p arg rest terminator ha hw k done h = ground arith
  on_seen-Keeps again wait p arg rest bad_syntax ha hw k done h = cc
  on_seen-Keeps again wait p arg rest (named name value) ha hw k done h =
      on_flag-Keeps again wait p name value (flag_of name) ha hw k done h

  pub parse_flags-Keeps :
      (args : List Bytes) (pending : Option ValueFlag) (p : Parsed)
      → Keeps p
      → Returns (parse_flags args pending p)
  unfolding parse_flags
  parse_flags-Keeps [] none p k done h = ground arith
  parse_flags-Keeps [] (some f) p k done h = cc
  parse_flags-Keeps (v ∷ rest) (some f) p k done h =
      let (q, e, a) = bind_ok (parse_flags rest none) (apply_value f v p) done h in
      parse_flags-Keeps rest none q (after_value f v p q k a) done e
  parse_flags-Keeps (arg ∷ rest) none p k done h =
      on_seen-Keeps (parse_flags rest none) (λ f. parse_flags rest (some f) p) p arg rest (see arg)
        (λ q. parse_flags-Keeps rest none q) (λ f. parse_flags-Keeps rest (some f) p k) k done h

-- That --schema was given is not forgotten.
abbrev IsExplicit : Parsed → Type 0
IsExplicit p = p.schema_flag_set ≡ true

apply_bool-IsExplicit :
    (f : BoolFlag) (value : Option Bytes) (p q : Parsed)
    → IsExplicit p
    → apply_bool f value p ≡ ok q
    → IsExplicit q
apply_bool-IsExplicit f none p q k h = ground arith
apply_bool-IsExplicit f (some v) p q k h = ground arith

apply_schema-IsExplicit :
    (v : Bytes) (p q : Parsed) → apply_value schema_flag v p ≡ ok q → IsExplicit q
apply_schema-IsExplicit v p q h = elim (Result-cases (parse_int_base0 v)) [
  | inl (z, e) ↦ ground arith
  | inr (_, e) ↦ absurd (ground arith)
]

apply_value-IsExplicit :
    (f : ValueFlag) (v : Bytes) (p q : Parsed)
    → IsExplicit p
    → apply_value f v p ≡ ok q
    → IsExplicit q
apply_value-IsExplicit model_dir_flag v p q k h = ground arith
apply_value-IsExplicit key_file_flag v p q k h = ground arith
apply_value-IsExplicit output_flag v p q k h = ground arith
apply_value-IsExplicit cache_flag v p q k h = ground arith
apply_value-IsExplicit image_flag v p q k h = ground arith
apply_value-IsExplicit schema_flag v p q k h = apply_schema-IsExplicit v p q h

-- A flag without a value, as the command line writes it.
pub data IsSwitch : Bytes → Type 0 where
  delete_switch : IsSwitch (codes "--delete")
  verify_switch : IsSwitch (codes "--verify")
  encrypt_switch : IsSwitch (codes "--encrypt")
  local_switch : IsSwitch (codes "--local")

-- A flag with a value behind it, other than --schema.
pub data IsValued : Bytes → Type 0 where
  model_dir_valued : IsValued (codes "--model-dir")
  key_file_valued : IsValued (codes "--key-file")
  output_valued : IsValued (codes "--output")
  cache_valued : IsValued (codes "--cache")
  image_valued : IsValued (codes "--image")

-- A command line on which --schema is given a value, behind other flags.
pub data IsSchemaGiven : List Bytes → Type 0 where
  here : (v : Bytes) (rest : List Bytes) → IsSchemaGiven (codes "--schema" ∷ v ∷ rest)
  behind_switch :
      (s : Bytes) (rest : List Bytes) → IsSwitch s → IsSchemaGiven rest → IsSchemaGiven (s ∷ rest)
  behind_valued :
      (f v : Bytes) (rest : List Bytes)
      → IsValued f
      → IsSchemaGiven rest
      → IsSchemaGiven (f ∷ v ∷ rest)

parse_flags-switch :
    (s : Bytes) (rest : List Bytes) (p : Parsed)
    → IsSwitch s
    → (q : Parsed) × (parse_flags (s ∷ rest) none p ≡ parse_flags rest none q)
unfolding parse_flags see cut_value flag_of beq
parse_flags-switch s rest p delete_switch = (_, refl)
parse_flags-switch s rest p verify_switch = (_, refl)
parse_flags-switch s rest p encrypt_switch = (_, refl)
parse_flags-switch s rest p local_switch = (_, refl)

parse_flags-valued :
    (f v : Bytes) (rest : List Bytes) (p : Parsed)
    → IsValued f
    → (q : Parsed) × (parse_flags (f ∷ v ∷ rest) none p ≡ parse_flags rest none q)
unfolding parse_flags see cut_value flag_of beq
parse_flags-valued f v rest p model_dir_valued = (_, refl)
parse_flags-valued f v rest p key_file_valued = (_, refl)
parse_flags-valued f v rest p output_valued = (_, refl)
parse_flags-valued f v rest p cache_valued = (_, refl)
parse_flags-valued f v rest p image_valued = (_, refl)

parse_flags-schema_value :
    (v : Bytes) (rest : List Bytes) (p : Parsed)
    → parse_flags (codes "--schema" ∷ v ∷ rest) none p
      ≡ (apply_value schema_flag v p >>= parse_flags rest none)
unfolding parse_flags see cut_value flag_of beq
parse_flags-schema_value v rest p = refl

pub parse_flags-explicit :
    (args : List Bytes) (p : Parsed) (done : Parsed × List Bytes)
    → IsSchemaGiven args
    → parse_flags args none p ≡ ok done
    → done.0.schema_flag_set ≡ true
parse_flags-explicit args p done (here v rest) h =
    let (q, e, a) =
      bind_ok (parse_flags rest none) (apply_value schema_flag v p) done
        (sym (parse_flags-schema_value v rest p) ∙ h) in
    parse_flags-Keeps IsExplicit apply_bool-IsExplicit apply_value-IsExplicit rest none q
      (apply_schema-IsExplicit v p q a) done e
parse_flags-explicit args p done (behind_switch s rest is given) h =
    let (q, same) = parse_flags-switch s rest p is in
    parse_flags-explicit rest q done given (sym same ∙ h)
parse_flags-explicit args p done (behind_valued f v rest is given) h =
    let (q, same) = parse_flags-valued f v rest p is in
    parse_flags-explicit rest q done given (sym same ∙ h)
