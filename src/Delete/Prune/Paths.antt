-- ===== src/Delete/Prune/Paths.antt =====
-- Lists of paths.
use modelwrap.Prelude.{
  ◌≡◌, ◌<◌, refl, sym, ◌∙◌, ◌⊎◌, inl, inr, true, false, List, [], ◌∷◌, length, Bytes, beq, beq_iff,
  Bool-cases, arith,
}
use modelwrap.Delete.Prune.{path_eq, has_path, has_child, without_path}

pub path_eq_ok : (p q : List Bytes) → path_eq p q ≡ true → p ≡ q
unfolding path_eq
path_eq_ok [] [] h = refl
path_eq_ok [] (n ∷ q) h = cc
path_eq_ok (m ∷ p) [] h = cc
path_eq_ok (m ∷ p) (n ∷ q) h =
    let one : beq m n ≡ true = ground arith in
    let two : path_eq p q ≡ true = ground arith in
    let heads = (beq_iff m n).0 one in let tails = path_eq_ok p q two in cc (heads, tails)

pub path_eq_longer : (p q : List Bytes) → length p < length q → path_eq p q ≡ false
unfolding path_eq
path_eq_longer [] [] h = absurd (omega arith)
path_eq_longer [] (n ∷ q) h = refl
path_eq_longer (m ∷ p) [] h = absurd (omega arith)
path_eq_longer (m ∷ p) (n ∷ q) h = let e = path_eq_longer p q (omega arith) in ground (arith, e)

pub has_child-without :
    (d p : List Bytes) (tree : List (List Bytes))
    → has_child d tree ≡ false
    → has_child d (without_path p tree) ≡ false
unfolding has_child without_path
has_child-without d p [] h = refl
has_child-without d p (q ∷ rest) h =
    let e = has_child-without d p rest (ground arith) in ground (arith, e)

pub has_path-without :
    (p q : List Bytes) (tree : List (List Bytes))
    → has_path q tree ≡ true
    → (q ≡ p) ⊎ (has_path q (without_path p tree) ≡ true)
unfolding has_path without_path
has_path-without p q [] h = cc
has_path-without p q (x ∷ rest) h = elim (Bool-cases (path_eq q x)) [
  | inl here ↦ elim (Bool-cases (path_eq p x)) [
    | inl gone ↦ inl (path_eq_ok q x here ∙ sym (path_eq_ok p x gone))
    | inr stays ↦ inr (ground (arith, here, stays))
  ]
  | inr there ↦ elim (has_path-without p q rest (ground (arith, there))) [
    | inl e ↦ inl e
    | inr kept ↦ inr (ground (arith, kept))
  ]
]

pub has_path-created :
    (p q : List Bytes) (tree : List (List Bytes))
    → has_path q tree ≡ false
    → has_path q (without_path p tree) ≡ false
unfolding has_path without_path
has_path-created p q [] h = refl
has_path-created p q (x ∷ rest) h =
    let e = has_path-created p q rest (ground arith) in ground (arith, e)

pub path_eq_refl : (p : List Bytes) → path_eq p p ≡ true
unfolding path_eq
path_eq_refl [] = refl
path_eq_refl (m ∷ p) =
    let e = (beq_iff m m).1 refl in let r = path_eq_refl p in ground (arith, e, r)
