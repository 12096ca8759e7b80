-- ===== src/Model/Pinned.antt =====
-- The identity `name@revision` as one text, and as the pair that the packer works with.
use modelwrap.Prelude.{
  ◌≡◌, ◌↔◌, refl, ap, true, false, [], ◌∷◌, ◌++◌, Bytes, arith, beq, cut, cut_first, cut_found,
  Lacks, split, ok,
}
use mathlib.Core.Path.{subst}
use modelwrap.Model.{validate_pinned_model, split_pinned_model}
use modelwrap.Model.Staged.{IsValidModel}

name_filled : (name revision : Bytes) → IsValidModel name revision → beq name [] ≡ false
unfolding validate_pinned_model beq split
name_filled [] revision h = absurd (ground arith)
name_filled (c ∷ name) revision h = refl

revision_filled : (name revision : Bytes) → IsValidModel name revision → beq revision [] ≡ false
unfolding validate_pinned_model
revision_filled name revision h = ground arith

split_ok :
    (model : Bytes) (pair : Bytes × Bytes)
    → split_pinned_model model ≡ ok pair
    → ((cut model b'@').2 ≡ true) × (((cut model b'@').0, (cut model b'@').1) ≡ pair)
unfolding split_pinned_model
split_ok model pair h = ground arith

-- An identity that passes the gate is read back from its text by `--delete` as the same pair exactly
-- when its name holds no '@'.
pub split_pinned_model_iff :
    (name revision : Bytes)
    → IsValidModel name revision
    → (split_pinned_model (name ++ (b'@' ∷ revision)) ≡ ok (name, revision)) ↔ Lacks b'@' name
unfolding split_pinned_model
split_pinned_model_iff name revision v = (
  (λ h.
      let (found, e) = split_ok (name ++ (b'@' ∷ revision)) (name, revision) h in
      subst (Lacks b'@') (ap (λ (p : Bytes × Bytes). p.0) e)
        (cut_found (name ++ (b'@' ∷ revision)) b'@' found).0),
  λ h.
      rw (cut_first name revision b'@' h)
        (rw (name_filled name revision v) (rw (revision_filled name revision v) (rw v))),
)
