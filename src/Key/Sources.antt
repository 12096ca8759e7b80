-- ===== src/Key/Sources.antt =====
-- What a loaded master key is.
use modelwrap.Prelude.{
  beq-ne, ◌≡◌, ◌≢◌, ◌↔◌, refl, sym, ap, ◌∙◌, [], ◌∷◌, codes, Bytes, length, beq, beq_iff, Option,
  some, ok, bind_ok, refuse_if, refuse_if_ok, trim_space, arith, Option-cases, inl, inr,
}
use mathlib.Core.Path.{subst}
use modelwrap.Key.{KeyHost, no_key, key_file_name, encoded_key, load_master_key, parse_master_key}

parse_master_key_iff :
    (decode : Bytes → Option Bytes) (encoded key : Bytes)
    → (parse_master_key decode encoded ≡ ok key)
      ↔ ((decode (trim_space encoded) ≡ some key) × (length key ≡ 64))
unfolding parse_master_key
parse_master_key_iff decode encoded key = elim (Option-cases (decode (trim_space encoded))) [
  | inl e ↦ rw e ((λ h. cc), λ h. cc)
  | inr (k, e) ↦ rw e ((λ h. ground arith), λ h. ground arith)
]

-- The text of the key: of the file that the option names; without the option, of the file that the
-- environment names; and if no file is named, of the environment.
pub data IsKeyText (h : KeyHost) (key_file text : Bytes) : Type 0 where
  from_option : key_file ≢ [] → h.read_file key_file ≡ some text → IsKeyText h key_file text
  from_named_file :
      key_file ≡ []
      → h.getenv (codes "PRIVATE_MODEL_KEY_FILE") ≢ []
      → h.read_file (h.getenv (codes "PRIVATE_MODEL_KEY_FILE")) ≡ some text
      → IsKeyText h key_file text
  from_env :
      key_file ≡ []
      → h.getenv (codes "PRIVATE_MODEL_KEY_FILE") ≡ []
      → h.getenv (codes "PRIVATE_MODEL_KEY_B64") ≡ text
      → IsKeyText h key_file text

-- What encodedKey gives, by the name of the file.
abbrev Given : KeyHost → Bytes → Bytes → Type 0
Given h [] text = h.getenv (codes "PRIVATE_MODEL_KEY_B64") ≡ text
Given h (c ∷ s) text = h.read_file (c ∷ s) ≡ some text

encoded_key_iff :
    (h : KeyHost) (name text : Bytes) → (encoded_key h name ≡ ok text) ↔ Given h name text
encoded_key_iff h [] text = ((λ e. cc e), λ e. ap ok e)
encoded_key_iff h (c ∷ s) text = elim (Option-cases (h.read_file (c ∷ s))) [
  | inl e ↦ rw e ((λ g. cc), λ g. cc)
  | inr (t, e) ↦ rw e ((λ g. cc), λ g. cc)
]

Given-file :
    (h : KeyHost) (name text : Bytes) → name ≢ [] → h.read_file name ≡ some text → Given h name text
Given-file h [] text ne r = absurd (ne refl)
Given-file h (c ∷ s) text ne r = r

IsKeyText-unnamed :
    (h : KeyHost) (name text : Bytes)
    → h.getenv (codes "PRIVATE_MODEL_KEY_FILE") ≡ name
    → Given h name text
    → IsKeyText h [] text
IsKeyText-unnamed h [] text e g = from_env refl e g
IsKeyText-unnamed h (c ∷ s) text e g =
    from_named_file refl (λ none_named. cc (e, none_named)) (ap h.read_file e ∙ g)

IsKeyText-Given :
    (h : KeyHost) (key_file text : Bytes)
    → Given h (key_file_name h key_file) text
    → IsKeyText h key_file text
IsKeyText-Given h [] text g = IsKeyText-unnamed h _ text refl g
IsKeyText-Given h (c ∷ s) text g = from_option (λ e. cc) g

Given-IsKeyText :
    (h : KeyHost) (key_file text : Bytes)
    → IsKeyText h key_file text
    → Given h (key_file_name h key_file) text
Given-IsKeyText h [] text (from_option ne r) = absurd (ne refl)
Given-IsKeyText h (c ∷ s) text (from_option ne r) = r
Given-IsKeyText h [] text (from_named_file e ne r) = Given-file h _ text ne r
Given-IsKeyText h (c ∷ s) text (from_named_file e ne r) = cc
Given-IsKeyText h [] text (from_env e none_named r) = subst (λ n. Given h n text) (sym none_named) r
Given-IsKeyText h (c ∷ s) text (from_env e none_named r) = cc

-- The key that is loaded is the 64 bytes that the trimmed text decodes to, where the text
-- (`IsKeyText`) is that of the file that the option names, without the option of the file that
-- PRIVATE_MODEL_KEY_FILE names, and if no file is named that of PRIVATE_MODEL_KEY_B64, and is not
-- blank. There is no other key.
pub load_master_key_iff :
    (h : KeyHost) (key_file key : Bytes)
    → (load_master_key h key_file ≡ ok key) ↔ (
        (encoded : Bytes) × IsKeyText h key_file encoded
        × (trim_space encoded ≢ [])
        × (h.decode (trim_space encoded) ≡ some key)
        × (length key ≡ 64))
unfolding load_master_key
load_master_key_iff h key_file key = (
  (λ g.
      let (encoded, rest, e) = bind_ok _ (encoded_key h (key_file_name h key_file)) key g in
      let (_, parsed, filled) =
        bind_ok _ (refuse_if (beq (trim_space encoded) []) no_key) key rest in
      let (d, l) = (parse_master_key_iff h.decode encoded key).0 parsed in
      let given = refuse_if_ok _ _ _ filled in
      (
        encoded,
        IsKeyText-Given h key_file encoded
            ((encoded_key_iff h (key_file_name h key_file) encoded).0 e),
        (λ blank. cc (given, (beq_iff (trim_space encoded) []).1 blank)),
        d,
        l,
      )),
  λ (encoded, text, ne, d, l).
      let e =
        (encoded_key_iff h (key_file_name h key_file) encoded).1
          (Given-IsKeyText h key_file encoded text) in
      rw e (
        rw (beq-ne (trim_space encoded) [] ne)
          ((parse_master_key_iff h.decode encoded key).1 (d, l))),
)
