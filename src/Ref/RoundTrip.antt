-- ===== src/Ref/RoundTrip.antt =====
-- `ParseRef` against `String`.
use modelwrap.Prelude.{
  ◌≡◌, ◌↔◌, refl, sym, ap, ◌∙◌, List, [], ◌∷◌, ◌++◌, Bytes, arith, ok, split, join-split,
  split_first, split_last, append-nil,
}
use mathlib.Core.Path.{subst}
use modelwrap.Ref.{ArtifactRef, check_ref, parse_parts, parse_ref, to_string}
use modelwrap.Ref.Grammar.{IsValid, root_hash-Lacks, uuid-Lacks, hash_offset-Lacks}

check_ref_iff : (r q : ArtifactRef) → (check_ref r ≡ ok q) ↔ (IsValid r × (r ≡ q))
unfolding check_ref
check_ref_iff r q = ((λ h. ground arith), λ h. ground arith)

-- The parts of a reference, as `ParseRef` names them.
abbrev parts_of : ArtifactRef → List Bytes
parts_of r = r.root_hash ∷ r.hash_offset ∷ r.uuid ∷ []

parse_parts_ok :
    (ps : List Bytes) (r : ArtifactRef) → parse_parts ps ≡ ok r → IsValid r × (ps ≡ parts_of r)
unfolding parse_parts
parse_parts_ok [] r h = cc
parse_parts_ok (a ∷ []) r h = cc
parse_parts_ok (a ∷ b ∷ []) r h = cc
parse_parts_ok (a ∷ b ∷ c ∷ []) r h =
    let q : ArtifactRef = record { root_hash = a; hash_offset = b; uuid = c } in
    let (v, e) = (check_ref_iff q r).0 h in
    subst (λ t. IsValid t × (parts_of q ≡ parts_of t)) e (v, refl)
parse_parts_ok (a ∷ b ∷ c ∷ d ∷ ps) r h = cc

split-to_string : (r : ArtifactRef) → IsValid r → split (to_string r) b'_' ≡ parts_of r
unfolding to_string
split-to_string r (hr, ho, hu) = rw (split_first r.root_hash _ b'_' (root_hash-Lacks _ hr)) (
    rw (split_first r.hash_offset _ b'_' (hash_offset-Lacks _ ho))
      (rw (split_last r.uuid b'_' (uuid-Lacks _ hu))))

-- `ParseRef` returns `r` on exactly one text: the one that `String` prints for `r`, when the three
-- fields of `r` match their patterns. No other text is accepted.
pub parse_ref_iff :
    (s : Bytes) (r : ArtifactRef) → (parse_ref s ≡ ok r) ↔ (IsValid r × (to_string r ≡ s))
unfolding parse_ref to_string
parse_ref_iff s r = (
  (λ h.
      let (v, e) = parse_parts_ok (split s b'_') r h in
      (
        v,
        ap (λ u. r.root_hash ++ (b'_' ∷ (r.hash_offset ++ (b'_' ∷ u)))) (sym (append-nil r.uuid))
            ∙ join-split s b'_' r.root_hash (r.hash_offset ∷ r.uuid ∷ []) e,
      )),
  λ (v, e). rw (← e) (ap parse_parts (split-to_string r v) ∙ (check_ref_iff r r).1 (v, refl)),
)
