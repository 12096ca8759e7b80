-- ===== src/Cli/Forward.antt =====
-- The launcher against the command line of the container: what the host was asked to do is what the
-- packer in the container is called with.
use modelwrap.Prelude.{
  ℕ, zero, suc, ◌≡◌, ◌<◌, ◌^◌, ◌⊎◌, inl, inr, refl, sym, ap, ◌∙◌, Bool, true, false, not, ◌&&◌,
  List, [], ◌∷◌, ◌++◌, Bytes, codes, beq, if◌then◌else◌, none, Result, ok, ◌>>=◌, ◌>>◌, refuse_if,
  ℤ, pos, arith,
}
use modelwrap.Cli.{CliOptions, CliError, invalid_delete_options}
use modelwrap.Cli.Int.{parse_int_base0-itoa}
use modelwrap.Cli.Flags.{Parsed, parse_flags, flag_of, see, cut_value, positional}
use modelwrap.Cli.Args.{
  is_positive, parse_args, after_flags, take_model, env_options, is_set, bad_delete,
}
use modelwrap.Cli.Launcher.{
  Host, container_args, container_model_dir, container_key_file, container_cache_dir,
  container_output, when, is_zero, itoa_int,
}

-- The environment of the container: the variables that the image sets, and the token.
pub record IsContainer (hf_token : Bytes) (c : Host) : Type 0 where
  pub no_model : c.getenv (codes "MODEL") ≡ []
  pub no_model_dir : c.getenv (codes "MODEL_DIR") ≡ []
  pub cache : c.getenv (codes "CACHE_DIR") ≡ codes "/cache"
  pub output : c.getenv (codes "OUTPUT_DIR") ≡ codes "/output"
  pub no_verify : c.getenv (codes "VERIFY") ≡ []
  pub no_encryption : c.getenv (codes "ENCRYPTION") ≡ []
  pub no_schema : c.getenv (codes "MODELWRAP_SCHEMA") ≡ []
  pub no_image : c.getenv (codes "MODELWRAP_IMAGE") ≡ []
  pub token : c.getenv (codes "HF_TOKEN") ≡ hf_token
  pub in_container : c.getenv (codes "MODELWRAP_IN_CONTAINER") ≡ codes "1"

-- A path in the container, where the host had one.
abbrev pub path_in : Bytes → Bytes → Bytes
path_in host target = if is_set host then target else []

abbrev state : Bytes → Bytes → Bool → Bytes → Bytes → Bool → Bool → ℤ → Bool → Parsed
state hf_token image d m k e v n f = record {
  opts = record {
    options = record {
      model = [];
      model_dir = m;
      cache_dir = container_cache_dir;
      output_dir = container_output;
      schema = n;
      encrypt = e;
      verify = v;
      key_file = k;
      hf_token = hf_token;
    };
    image = image;
    is_local = false;
    delete = d;
  };
  schema_flag_set = f;
}

module _ (hf_token image : Bytes) (rest : List Bytes) where
  parse_flags-delete :
      (d : Bool)
      → parse_flags
          (when d (codes "--delete" ∷ []) ++ rest)
          none
          (state hf_token image false [] [] false false (pos 0) false)
        ≡ parse_flags rest none (state hf_token image d [] [] false false (pos 0) false)
  unfolding parse_flags flag_of see cut_value beq
  parse_flags-delete true = refl
  parse_flags-delete false = refl

  parse_flags-model_dir :
      (host : Bytes) (d : Bool)
      → parse_flags
          (when (is_set host) (codes "--model-dir" ∷ container_model_dir ∷ []) ++ rest)
          none
          (state hf_token image d [] [] false false (pos 0) false)
        ≡ parse_flags rest none
            (state hf_token image d (path_in host container_model_dir) [] false false (pos 0) false)
  unfolding parse_flags flag_of see cut_value beq
  parse_flags-model_dir [] d = refl
  parse_flags-model_dir (c ∷ s) d = refl

  parse_flags-key_file :
      (host m : Bytes) (d : Bool)
      → parse_flags
          (when (is_set host) (codes "--key-file" ∷ container_key_file ∷ []) ++ rest)
          none
          (state hf_token image d m [] false false (pos 0) false)
        ≡ parse_flags rest none
            (state hf_token image d m (path_in host container_key_file) false false (pos 0) false)
  unfolding parse_flags flag_of see cut_value beq
  parse_flags-key_file [] m d = refl
  parse_flags-key_file (c ∷ s) m d = refl

  parse_flags-encrypt :
      (e : Bool) (m k : Bytes) (d : Bool)
      → parse_flags
          (when e (codes "--encrypt" ∷ []) ++ rest)
          none
          (state hf_token image d m k false false (pos 0) false)
        ≡ parse_flags rest none (state hf_token image d m k e false (pos 0) false)
  unfolding parse_flags flag_of see cut_value beq
  parse_flags-encrypt true m k d = refl
  parse_flags-encrypt false m k d = refl

  parse_flags-verify :
      (v : Bool) (m k : Bytes) (d e : Bool)
      → parse_flags
          (when v (codes "--verify" ∷ []) ++ rest)
          none
          (state hf_token image d m k e false (pos 0) false)
        ≡ parse_flags rest none (state hf_token image d m k e v (pos 0) false)
  unfolding parse_flags flag_of see cut_value beq
  parse_flags-verify true m k d e = refl
  parse_flags-verify false m k d e = refl

  parse_flags-schema :
      (n : ℕ) (m k : Bytes) (d e v : Bool)
      → n < 2 ^ 63
      → parse_flags
          (when (not (is_zero (pos n))) (codes "--schema" ∷ itoa_int (pos n) ∷ []) ++ rest)
          none
          (state hf_token image d m k e v (pos 0) false)
        ≡ parse_flags rest none (state hf_token image d m k e v (pos n) (not (is_zero (pos n))))
  unfolding parse_flags flag_of see cut_value beq
  parse_flags-schema zero m k d e v fits = refl
  parse_flags-schema (suc n) m k d e v fits =
      rw (parse_int_base0-itoa (suc n) (omega arith) fits) refl

-- The model argument is no flag.
abbrev pub IsArgument : Bytes → Type 0
IsArgument model = (model ≡ []) ⊎ (see model ≡ positional)

-- The packer's options in the container.
abbrev pub container_options : CliOptions → Bytes → Bytes → CliOptions
container_options o image key_file = record {
  options = record {
    model = o.options.model;
    model_dir = path_in o.options.model_dir container_model_dir;
    cache_dir = container_cache_dir;
    output_dir = container_output;
    schema = o.options.schema;
    encrypt = o.options.encrypt;
    verify = o.options.verify;
    key_file = path_in key_file container_key_file;
    hf_token = o.options.hf_token;
  };
  image = image;
  is_local = false;
  delete = o.delete;
}

abbrev model_args : Bytes → List Bytes
model_args model = when (is_set model) (model ∷ [])

-- Behind the flags only the model is left.
parse_flags-model :
    (model : Bytes) (p : Parsed)
    → IsArgument model
    → parse_flags (model_args model) none p ≡ ok (p, model_args model)
unfolding parse_flags
parse_flags-model [] p h = refl
parse_flags-model (c ∷ s) p (inl e) = cc
parse_flags-model (c ∷ s) p (inr e) = rw (e, parse_flags) refl

zero_or_positive : (n : ℕ) → (not (is_zero (pos n)) && not (is_positive (pos n))) ≡ false
zero_or_positive zero = refl
zero_or_positive (suc n) = refl

take_model-args :
    (model : Bytes) (o : CliOptions)
    → o.options.model ≡ []
    → take_model (model_args model) o
      ≡ ok (record o { options = record o.options { model = model } })
take_model-args [] o e = rw (← e) refl
take_model-args (c ∷ s) o e = refl

-- The last check of parseArgs.
abbrev pub checked : CliOptions → Result CliError CliOptions
checked o = refuse_if (bad_delete o) invalid_delete_options >> ok o

env_options-container :
    (hf_token image : Bytes) (c : Host)
    → IsContainer hf_token c
    → env_options c.getenv image ≡ (state hf_token image false [] [] false false (pos 0) false).opts
unfolding beq
env_options-container hf_token image c is = rw is.no_model (
    rw is.no_model_dir (
      rw is.cache
        (rw is.output (rw is.no_verify (rw is.no_encryption (rw is.no_image (rw is.token refl)))))))

module _ (o : CliOptions) (image key_file : Bytes) (n : ℕ) (id : o.options.schema ≡ pos n)
    (fits : n < 2 ^ 63) where
  abbrev seen : Parsed
  seen =
      state o.options.hf_token image o.delete (path_in o.options.model_dir container_model_dir)
        (path_in key_file container_key_file) o.options.encrypt o.options.verify (pos n)
        (not (is_zero (pos n)))

  parse_flags-container_args :
      IsArgument o.options.model
      → parse_flags
          (container_args o key_file)
          none
          (state o.options.hf_token image false [] [] false false (pos 0) false)
        ≡ ok (seen, model_args o.options.model)
  unfolding container_args
  parse_flags-container_args arg =
      let t = o.options.hf_token in
      let m = path_in o.options.model_dir container_model_dir in
      let k = path_in key_file container_key_file in
      parse_flags-delete t image _ o.delete
      ∙ parse_flags-model_dir t image _ o.options.model_dir o.delete
      ∙ parse_flags-key_file t image _ key_file m o.delete
      ∙ parse_flags-encrypt t image _ o.options.encrypt m k o.delete
      ∙ parse_flags-verify t image _ o.options.verify m k o.delete o.options.encrypt
      ∙ ap
          (λ z.
            parse_flags
              (when (not (is_zero z)) (codes "--schema" ∷ itoa_int z ∷ [])
                ++ model_args o.options.model)
              none (state t image o.delete m k o.options.encrypt o.options.verify (pos 0) false))
          id
      ∙ parse_flags-schema t image _ n m k o.delete o.options.encrypt o.options.verify fits
      ∙ parse_flags-model o.options.model seen arg

  abbrev forwarded : CliOptions
  forwarded = container_options o image key_file

  forwarded_is :
      record seen.opts { options = record seen.opts.options { model = o.options.model } }
      ≡ forwarded
  forwarded_is =
      ap
        (λ z. record seen.opts {
          options = record seen.opts.options { model = o.options.model; schema = z };
        })
        (sym id)

  after_flags-seen : after_flags (seen, model_args o.options.model) ≡ checked forwarded
  after_flags-seen =
      rw (zero_or_positive n)
        (rw (take_model-args o.options.model seen.opts refl) (ap checked (forwarded_is)))

  -- What the container's command line gives.
  pub parse_args-container_args :
      (c : Host)
      → IsContainer o.options.hf_token c
      → IsArgument o.options.model
      → parse_args c.getenv image (container_args o key_file) ≡ checked forwarded
  unfolding parse_args
  parse_args-container_args c is arg =
      let start : Parsed = state o.options.hf_token image false [] [] false false (pos 0) false in
      rw is.no_schema (
        ap
          (λ t.
            parse_flags (container_args o key_file) none
              (record { opts = t; schema_flag_set = false })
            >>= after_flags)
          (env_options-container o.options.hf_token image c is)
        ∙ ap (λ r. r >>= after_flags) (parse_flags-container_args arg)
        ∙ after_flags-seen)
