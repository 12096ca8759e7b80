-- ===== src/Delete/Exact.antt =====
-- Exactly what Delete removes.
use modelwrap.Prelude.{
  ◌≡◌, ◌≢◌, inl, inr, refl, sym, ap, ◌∙◌, Bool, true, false, not, ◌&&◌, ◌||◌, List, [], ◌∷◌, ◌++◌,
  Bytes, codes, length, ltb, has_prefix, beq, beq_iff, Bool-cases, &&_split, arith,
}
use modelwrap.Model.{is_staged_leftover}
use modelwrap.Delete.{
  has_name, without, Removal, remove_name, remove_names, suffixed, lock_name, leftovers,
  remove_leftovers, delete_names,
}

-- The names of a revision's files, one by one.
abbrev pub is_published : Bytes → Bytes → Bool
is_published revision n =
    beq n (revision ++ codes ".mpk")
    || beq n (revision ++ codes ".info")
    || beq n (revision ++ codes ".schema")
    || beq n (revision ++ codes ".emwp")
    || beq n (revision ++ codes ".emwp.info")

-- What older packers could leave.
abbrev pub is_old_temporary : Bytes → Bytes → Bool
is_old_temporary revision n =
    beq n (revision ++ codes ".mpk.tmp")
    || beq n (revision ++ codes ".info.tmp")
    || beq n (revision ++ codes ".emwp.tmp")
    || beq n (revision ++ codes ".emwp.info.tmp")
    || beq n (revision ++ codes ".emwp.verify.tmp")

abbrev pub is_staged : Bytes → Bytes → Bool
is_staged revision n =
    has_prefix n (revision ++ codes "..staged.")
    && ltb (length (revision ++ codes "..staged.")) (length n)

has_name-suffixed :
    (revision n : Bytes)
    → has_name n (suffixed revision) ≡ (is_published revision n || is_old_temporary revision n)
has_name-suffixed revision n = ground arith

-- The names of a revision that are looked for, and all its names.
abbrev pub is_removable : Bool → Bytes → Bytes → Bool
is_removable can_list revision n =
    (is_published revision n || is_old_temporary revision n)
    || ((can_list && is_staged revision n) || beq n (revision ++ codes ".lock"))

abbrev pub is_owned : Bytes → Bytes → Bool
is_owned = is_removable true

-- The names that the code looks for are those.
looked_for :
    (can_list : Bool) (revision m : Bytes)
    → (has_name m (suffixed revision)
        || ((can_list && is_staged_leftover m revision) || beq m (lock_name revision)))
      ≡ is_removable can_list revision m
unfolding is_staged_leftover
looked_for can_list revision m =
    ap (λ b. b || ((can_list && is_staged_leftover m revision) || beq m (lock_name revision)))
      (has_name-suffixed revision m)

has_name-without :
    (n m : Bytes) (names : List Bytes)
    → has_name m (without n names) ≡ (has_name m names && not (beq m n))
has_name-without n m [] = refl
has_name-without n m (x ∷ rest) = elim (Bool-cases (beq x n)) [
  | inl same ↦
      let e : beq m x ≡ beq m n = ap (beq m) ((beq_iff x n).0 same) in
      ground (arith, same, e, has_name-without n m rest)
  | inr differs ↦ elim (Bool-cases (beq m x)) [
    | inl own ↦
        let e : beq m n ≡ false = ap (λ k. beq k n) ((beq_iff m x).0 own) ∙ differs in
        ground (arith, differs, own, e)
    | inr other ↦ ground (arith, differs, other, has_name-without n m rest)
  ]
]

pub has_name-remove_name :
    (stuck : Bytes → Bool) (n m : Bytes) (r : Removal)
    → has_name m (remove_name stuck n r).names ≡ (has_name m r.names && (not (beq m n) || stuck m))
unfolding remove_name
has_name-remove_name stuck n m r = elim (Bool-cases (beq m n)) [
  | inl same ↦
      let at : has_name n r.names ≡ has_name m r.names =
        ap (λ k. has_name k r.names) (sym ((beq_iff m n).0 same)) in
      let is : stuck n ≡ stuck m = ap stuck (sym ((beq_iff m n).0 same)) in
      ground (arith, same, at, is, has_name-without n m r.names)
  | inr differs ↦ ground (arith, differs, has_name-without n m r.names)
]

has_name-remove_names :
    (stuck : Bytes → Bool) (m : Bytes) (ns : List Bytes) (r : Removal)
    → has_name m (remove_names stuck ns r).names
      ≡ (has_name m r.names && (not (has_name m ns) || stuck m))
unfolding remove_names
has_name-remove_names stuck m [] r = ground arith
has_name-remove_names stuck m (n ∷ rest) r = ground (
  arith,
  has_name-remove_names stuck m rest (remove_name stuck n r),
  has_name-remove_name stuck n m r,
)

has_name-leftovers :
    (revision m : Bytes) (names : List Bytes)
    → has_name m (leftovers revision names) ≡ (has_name m names && is_staged_leftover m revision)
unfolding leftovers
has_name-leftovers revision m [] = refl
has_name-leftovers revision m (x ∷ rest) = elim (Bool-cases (beq m x)) [
  | inl same ↦
      let e : is_staged_leftover m revision ≡ is_staged_leftover x revision =
        ap (λ k. is_staged_leftover k revision) ((beq_iff m x).0 same) in
      ground (arith, same, e, has_name-leftovers revision m rest)
  | inr differs ↦ ground (arith, differs, has_name-leftovers revision m rest)
]

has_name-remove_leftovers :
    (stuck : Bytes → Bool) (can_list : Bool) (revision m : Bytes) (r : Removal)
    → has_name m (remove_leftovers stuck can_list revision r).names
      ≡ (has_name m r.names && (not (can_list && is_staged_leftover m revision) || stuck m))
unfolding remove_leftovers
has_name-remove_leftovers stuck true revision m r = ground (
  arith,
  has_name-remove_names stuck m (leftovers revision r.names) r,
  has_name-leftovers revision m r.names,
)
has_name-remove_leftovers stuck false revision m r = ground arith

-- The three rounds as one.
rounds :
    (here suffix leftover lock stuck : Bool) {first second last : Bool}
    → first ≡ (here && (not suffix || stuck))
    → second ≡ (first && (not leftover || stuck))
    → last ≡ (second && (not lock || stuck))
    → last ≡ (here && (not (suffix || (leftover || lock)) || stuck))
rounds here suffix leftover lock stuck e1 e2 e3 = ground arith

-- Delete leaves, among the names in the directory of the model's artifacts, exactly those that are
-- not the revision's (its published files, their old temporary names, its staged leftovers if the
-- directory can be listed, and its lock), and those of its own that the file system refuses to remove.
pub delete_names-has_name :
    (stuck : Bytes → Bool) (can_list : Bool) (revision : Bytes) (names : List Bytes) (m : Bytes)
    → has_name m (delete_names stuck can_list revision names).names
      ≡ (has_name m names && (not (is_removable can_list revision m) || stuck m))
unfolding delete_names
delete_names-has_name stuck can_list revision names m =
    let first : Removal =
      remove_names stuck (suffixed revision) (record { names = names; errs = [] }) in
    let second : Removal = remove_leftovers stuck can_list revision first in
    rounds (has_name m names) (has_name m (suffixed revision))
      (can_list && is_staged_leftover m revision) (beq m (lock_name revision)) (stuck m)
      (has_name-remove_names stuck m (suffixed revision) (record { names = names; errs = [] }))
      (has_name-remove_leftovers stuck can_list revision m first)
      (has_name-remove_name stuck (lock_name revision) m second)
    ∙ ap (λ b. has_name m names && (not b || stuck m)) (looked_for can_list revision m)

append-ne-nil : (xs : List Bytes) (x : Bytes) → (xs ++ (x ∷ [])) ≢ []
append-ne-nil [] x e = cc
append-ne-nil (y ∷ ys) x e = cc

remove_name_stuck :
    (stuck : Bytes → Bool) (n : Bytes) (r : Removal)
    → (has_name n r.names && stuck n) ≡ true
    → (remove_name stuck n r).errs ≡ r.errs ++ (n ∷ [])
unfolding remove_name
remove_name_stuck stuck n r fails = ground (arith, fails)

-- A removal without an error has removed.
remove_name-gone :
    (stuck : Bytes → Bool) (n m : Bytes) (r : Removal)
    → (remove_name stuck n r).errs ≡ []
    → (r.errs ≡ []) × ((has_name m (remove_name stuck n r).names && beq m n) ≡ false)
unfolding remove_name
remove_name-gone stuck n m r h = elim (Bool-cases (has_name n r.names && stuck n)) [
  | inl fails ↦ absurd (append-ne-nil r.errs n (sym (remove_name_stuck stuck n r fails) ∙ h))
  | inr works ↦ (ground (arith, works), ground (arith, works, has_name-without n m r.names))
]

remove_names-gone :
    (stuck : Bytes → Bool) (m : Bytes) (ns : List Bytes) (r : Removal)
    → (remove_names stuck ns r).errs ≡ []
    → (r.errs ≡ []) × ((has_name m (remove_names stuck ns r).names && has_name m ns) ≡ false)
unfolding remove_names
remove_names-gone stuck m [] r h = (h, ground arith)
remove_names-gone stuck m (n ∷ rest) r h =
    let (before, gone) = remove_names-gone stuck m rest (remove_name stuck n r) h in
    let (start, removed) = remove_name-gone stuck n m r before in
    (
      start,
      ground (arith, gone, removed, has_name-remove_names stuck m rest (remove_name stuck n r)),
    )

remove_leftovers-gone :
    (stuck : Bytes → Bool) (can_list : Bool) (revision m : Bytes) (r : Removal)
    → (remove_leftovers stuck can_list revision r).errs ≡ []
    → (r.errs ≡ [])
      × (can_list ≡ true)
      × ((has_name m (remove_leftovers stuck can_list revision r).names
            && is_staged_leftover m revision)
          ≡ false)
unfolding remove_leftovers
remove_leftovers-gone stuck true revision m r h =
    let (before, gone) = remove_names-gone stuck m (leftovers revision r.names) r h in
    (
      before,
      refl,
      ground (
        arith,
        gone,
        has_name-leftovers revision m r.names,
        has_name-remove_names stuck m (leftovers revision r.names) r,
      ),
    )
remove_leftovers-gone stuck false revision m r h = absurd (append-ne-nil r.errs (codes ".") h)

-- The three rounds as one, where none reports an error.
rounds-gone :
    (suffix leftover lock : Bool) {first second last : Bool}
    → (first && suffix) ≡ false
    → (second && leftover) ≡ false
    → (second ≡ true → first ≡ true)
    → (last ≡ true → second ≡ true)
    → (last && lock) ≡ false
    → (suffix || (leftover || lock)) ≡ true
    → last ≡ false
rounds-gone suffix leftover lock {last} g1 g2 s2 s3 g3 own = ground arith

-- Where no error is reported, the directory was listed and none of the revision's names is left.
pub delete_names-gone :
    (stuck : Bytes → Bool) (can_list : Bool) (revision : Bytes) (names : List Bytes) (m : Bytes)
    → (delete_names stuck can_list revision names).errs ≡ []
    → (can_list ≡ true)
      × (is_owned revision m ≡ true
          → has_name m (delete_names stuck can_list revision names).names ≡ false)
unfolding delete_names
delete_names-gone stuck can_list revision names m fine =
    let first : Removal =
      remove_names stuck (suffixed revision) (record { names = names; errs = [] }) in
    let second : Removal = remove_leftovers stuck can_list revision first in
    let (fine2, g3) = remove_name-gone stuck (lock_name revision) m second fine in
    let (fine1, listed, g2) = remove_leftovers-gone stuck can_list revision m first fine2 in
    let (_, g1) =
      remove_names-gone stuck m (suffixed revision) (record { names = names; errs = [] }) fine1 in
    let e2 = has_name-remove_leftovers stuck can_list revision m first in
    let e4 = has_name-remove_name stuck (lock_name revision) m second in
    (
      listed,
      λ own.
          rounds-gone (has_name m (suffixed revision)) (is_staged_leftover m revision)
            (beq m (lock_name revision)) g1 g2 (λ h. (&&_split _ _ (sym e2 ∙ h)).0)
            (λ h. (&&_split _ _ (sym e4 ∙ h)).0) g3 (looked_for true revision m ∙ own),
    )
