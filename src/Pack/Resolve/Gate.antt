-- ===== src/Pack/Resolve/Gate.antt =====
-- The identities that are packed are those that can be deleted.
use modelwrap.Prelude.{
  ℕ, ◌↔◌, ◌++◌, Lacks, ◌≡◌, refl, sym, ap, ◌∙◌, Bool, true, ◌∷◌, Bytes, beq, Result, ok, map_err,
  map_err-ok, bind_ok, cut, arith,
}
use mathlib.Core.Path.{subst}
use modelwrap.Cli.{Options}
use modelwrap.Model.{validate_pinned_model, split_pinned_model}
use modelwrap.Model.Staged.{IsValidModel}
use modelwrap.Model.Pinned.{split_pinned_model_iff}
use modelwrap.Pack.Resolve.{ModelHost, identify, resolve_model, invalid_model}

ok_injective {ℓ κ} :
    {E : Type ℓ} {A : Type κ} (a b : A) → ◌≡◌ {A = Result E A} (ok a) (ok b) → a ≡ b
ok_injective a b h = cc

unit_is : (u : Unit {0}) → u ≡ tt
unit_is u = refl

-- Names and revisions that are given are taken as they are.
identify-given :
    (h : ModelHost) (o : Options) (c d : ℕ) (s t : Bytes) (found : Bytes × Bytes × Bytes)
    → identify h o (c ∷ s) (d ∷ t) ≡ ok found
    → (found.0 ≡ c ∷ s) × (found.1 ≡ d ∷ t)
unfolding identify
identify-given h o c d s t found e = ground arith

resolve_model-parts :
    (h : ModelHost) (o : Options) (found : Bytes × Bytes × Bytes)
    → resolve_model h o ≡ ok found
    → (identify h o (cut o.model b'@').0 (cut o.model b'@').1 ≡ ok found)
      × IsValidModel found.0 found.1
unfolding resolve_model
resolve_model-parts h o found e =
    let (f, rest, identified) =
      bind_ok _ (identify h o (cut o.model b'@').0 (cut o.model b'@').1) found e in
    let (u, last, valid) =
      bind_ok _ (map_err invalid_model (validate_pinned_model f.0 f.1)) found rest in
    let same : f ≡ found = ok_injective f found last in
    (
      identified ∙ ap ok same,
      subst (λ g. IsValidModel g.0 g.1) same
          (map_err-ok invalid_model (validate_pinned_model f.0 f.1) valid),
    )

split-given :
    (model : Bytes) (c d : ℕ) (s t : Bytes)
    → cut model b'@' ≡ (c ∷ s, d ∷ t, true)
    → IsValidModel (c ∷ s) (d ∷ t)
    → split_pinned_model model ≡ ok (c ∷ s, d ∷ t)
unfolding split_pinned_model beq
split-given model c d s t e v = rw e (rw v refl)

-- Where the text has a name and a revision, both are taken from it.
resolve_model-given :
    (h : ModelHost) (o : Options) (name revision dir : Bytes) (c d : ℕ) (s t : Bytes)
    → resolve_model h o ≡ ok (name, revision, dir)
    → cut o.model b'@' ≡ (c ∷ s, d ∷ t, true)
    → split_pinned_model o.model ≡ ok (name, revision)
resolve_model-given h o name revision dir c d s t e parts =
    let (identified, valid) = resolve_model-parts h o (name, revision, dir) e in
    let same =
      identify-given h o c d s t (name, revision, dir)
        (ap (λ (p : Bytes × Bytes × Bool). identify h o p.0 p.1) (sym parts) ∙ identified) in
    split-given o.model c d s t parts (
      ap (λ n. validate_pinned_model n (d ∷ t)) (sym same.0)
      ∙ ap (validate_pinned_model name) (sym same.1)
      ∙ valid)
    ∙ ap (λ n. ok (n, d ∷ t)) (sym same.0)
    ∙ ap (λ r. ok (name, r)) (sym same.1)

-- Whatever is packed, with a revision that was given, the head commit of the Hub or the hash of a
-- local directory, has passed the gate of --delete, and --delete of name@revision addresses it exactly
-- when the name holds no '@'. Where it was asked for by a text with a name and a revision, --delete of
-- that text addresses it in any case.
pub resolve_model-deletable :
    (h : ModelHost) (o : Options) (name revision dir : Bytes)
    → resolve_model h o ≡ ok (name, revision, dir)
    → IsValidModel name revision
      × ((split_pinned_model (name ++ (b'@' ∷ revision)) ≡ ok (name, revision)) ↔ Lacks b'@' name)
      × ((c d : ℕ) (s t : Bytes)
          → cut o.model b'@' ≡ (c ∷ s, d ∷ t, true)
          → split_pinned_model o.model ≡ ok (name, revision))
resolve_model-deletable h o name revision dir e =
    let (_, valid) = resolve_model-parts h o (name, revision, dir) e in
    (
      valid,
      split_pinned_model_iff name revision valid,
      λ c d s t parts. resolve_model-given h o name revision dir c d s t e parts,
    )
