-- ===== src/Delete/Prune/Empty.antt =====
-- What pruneEmptyParents removes, and how far it goes.
use mathlib.Core.Path.{subst}
use modelwrap.Prelude.{
  ◌≡◌, refl, sym, ap, ◌∙◌, inl, inr, Bool, true, false, List, [], ◌∷◌, ◌++◌, length, length-append,
  Bytes, Bool-cases, some, arith,
}
use modelwrap.Delete.Prune.{
  path_eq, has_path, has_child, without_path, can_remove, prune_empty_parents,
}
use modelwrap.Delete.Prune.Paths.{
  path_eq_longer, path_eq_refl, has_child-without, has_path-without, has_path-created,
}

at_stop :
    (stuck : List Bytes → Bool) (s stop : List Bytes) (tree : List (List Bytes))
    → stop ≡ s
    → prune_empty_parents stuck (some stop) s tree ≡ tree
unfolding prune_empty_parents
at_stop stuck [] stop tree e = refl
at_stop stuck (n ∷ up) stop tree e =
    let same : path_eq stop (n ∷ up) ≡ true = ap (path_eq stop) (sym e) ∙ path_eq_refl stop in
    rw same

module _ (stuck : List Bytes → Bool) (stop : List Bytes) where
  -- The loop from a directory below `stop`, with the parts between them.
  abbrev pub pruned : List Bytes → List (List Bytes) → List (List Bytes)
  pruned segments tree = prune_empty_parents stuck (some stop) (segments ++ stop) tree

  not_stop : (n : Bytes) (rest : List Bytes) → path_eq stop (n ∷ (rest ++ stop)) ≡ false
  not_stop n rest =
      path_eq_longer stop (n ∷ (rest ++ stop)) (omega (arith, length-append rest stop))

  pruned_stays :
      (n : Bytes) (rest : List Bytes) (tree : List (List Bytes))
      → can_remove stuck (n ∷ (rest ++ stop)) tree ≡ false
      → pruned (n ∷ rest) tree ≡ tree
  unfolding prune_empty_parents
  pruned_stays n rest tree h = rw (not_stop n rest) (rw h refl)

  pruned_removed :
      (n : Bytes) (rest : List Bytes) (tree : List (List Bytes))
      → can_remove stuck (n ∷ (rest ++ stop)) tree ≡ true
      → pruned (n ∷ rest) tree ≡ pruned rest (without_path (n ∷ (rest ++ stop)) tree)
  unfolding prune_empty_parents
  pruned_removed n rest tree h = rw (not_stop n rest) (rw h refl)

  -- What is kept of everything by a removal is kept by all of them.
  pruned_keeps :
      (P : List (List Bytes) → Type 0)
      → ((p : List Bytes) (tree : List (List Bytes)) → P tree → P (without_path p tree))
      → (segments : List Bytes) (tree : List (List Bytes)) → P tree
      → P (pruned segments tree)
  pruned_keeps P keeps [] tree h = subst P (sym (at_stop stuck stop stop tree refl)) h
  pruned_keeps P keeps (n ∷ rest) tree h =
      elim (Bool-cases (can_remove stuck (n ∷ (rest ++ stop)) tree)) [
        | inl removed ↦
            subst P (sym (pruned_removed n rest tree removed))
              (pruned_keeps P keeps rest _ (keeps (n ∷ (rest ++ stop)) tree h))
        | inr stays ↦ subst P (sym (pruned_stays n rest tree stays)) h
      ]

  no_child_after :
      (d : List Bytes) (segments : List Bytes) (tree : List (List Bytes))
      → has_child d tree ≡ false
      → has_child d (pruned segments tree) ≡ false
  no_child_after d segments tree =
      pruned_keeps (λ t. has_child d t ≡ false) (λ p t h. has_child-without d p t h) segments tree

  nothing_new :
      (q : List Bytes) (segments : List Bytes) (tree : List (List Bytes))
      → has_path q tree ≡ false
      → has_path q (pruned segments tree) ≡ false
  nothing_new q segments tree =
      pruned_keeps (λ t. has_path q t ≡ false) (λ p t h. has_path-created p q t h) segments tree

  -- The loop has removed `q`: it is on the way from the directory up to, but not, `stop`.
  removed_between :
      (segments : List Bytes) (tree : List (List Bytes)) (q : List Bytes)
      → has_path q tree ≡ true
      → has_path q (pruned segments tree) ≡ false
      → (a : List Bytes) × (n : Bytes) × (b : List Bytes) × (segments ≡ a ++ (n ∷ b))
        × (q ≡ n ∷ (b ++ stop))
        × (has_child q (pruned segments tree) ≡ false)
  removed_between [] tree q was gone =
      let kept = at_stop stuck stop stop tree refl in absurd (cc (was, gone, kept))
  removed_between (n ∷ rest) tree q was gone =
      let dir = n ∷ (rest ++ stop) in
      elim (Bool-cases (can_remove stuck dir tree)) [
        | inr stays ↦ let kept = pruned_stays n rest tree stays in absurd (cc (was, gone, kept))
        | inl removed ↦
            let on = pruned_removed n rest tree removed in
            elim (has_path-without dir q tree was) [
              | inl same ↦
                  let empty : has_child dir tree ≡ false = ground arith in
                  (
                    [],
                    n,
                    rest,
                    refl,
                    same,
                    subst (λ d. has_child d (pruned (n ∷ rest) tree) ≡ false) (sym same)
                        (no_child_after dir (n ∷ rest) tree empty),
                  )
              | inr later ↦
                  let (a, m, b, parts, is, empty) =
                    removed_between rest (without_path dir tree) q later
                      (ap (has_path q) (sym on) ∙ gone) in
                  (n ∷ a, m, b, ap (λ x. n ∷ x) parts, is, ap (has_child q) on ∙ empty)
            ]
      ]

  has_path-without_self :
      (p : List Bytes) (tree : List (List Bytes)) → has_path p (without_path p tree) ≡ false
  unfolding has_path without_path
  has_path-without_self p [] = refl
  has_path-without_self p (q ∷ rest) = let e = has_path-without_self p rest in ground (arith, e)

  -- The directory itself is gone, or cannot be removed.
  innermost :
      (n : Bytes) (rest : List Bytes) (tree : List (List Bytes))
      → can_remove stuck (n ∷ (rest ++ stop)) (pruned (n ∷ rest) tree) ≡ false
  innermost n rest tree =
      let dir = n ∷ (rest ++ stop) in
      elim (Bool-cases (can_remove stuck dir tree)) [
        | inr stays ↦ ap (can_remove stuck dir) (pruned_stays n rest tree stays) ∙ stays
        | inl removed ↦
            let gone =
              ap (has_path dir) (pruned_removed n rest tree removed)
              ∙ nothing_new dir rest (without_path dir tree) (has_path-without_self dir tree) in
            ground (arith, gone)
      ]

  -- A parent is looked at once a directory in it is removed.
  outward :
      (a : List Bytes) (n m : Bytes) (b : List Bytes) (tree : List (List Bytes))
      → has_path (n ∷ (m ∷ (b ++ stop))) tree ≡ true
      → has_path (n ∷ (m ∷ (b ++ stop))) (pruned (a ++ (n ∷ (m ∷ b))) tree) ≡ false
      → can_remove stuck (m ∷ (b ++ stop)) (pruned (a ++ (n ∷ (m ∷ b))) tree) ≡ false
  outward [] n m b tree was gone =
      elim (Bool-cases (can_remove stuck (n ∷ (m ∷ (b ++ stop))) tree)) [
        | inr stays ↦ let kept = pruned_stays n (m ∷ b) tree stays in absurd (cc (was, gone, kept))
        | inl removed ↦
            ap (can_remove stuck (m ∷ (b ++ stop))) (pruned_removed n (m ∷ b) tree removed)
            ∙ innermost m b (without_path (n ∷ (m ∷ (b ++ stop))) tree)
      ]
  outward (x ∷ a) n m b tree was gone =
      let segments = a ++ (n ∷ (m ∷ b)) in
      let dir = x ∷ (segments ++ stop) in
      elim (Bool-cases (can_remove stuck dir tree)) [
        | inr stays ↦ let kept = pruned_stays x segments tree stays in absurd (cc (was, gone, kept))
        | inl removed ↦
            let on = pruned_removed x segments tree removed in
            elim (has_path-without dir (n ∷ (m ∷ (b ++ stop))) tree was) [
              | inl same ↦ absurd (
                  omega (
                    arith,
                    ap length same,
                    length-append segments stop,
                    length-append a (n ∷ (m ∷ b)),
                    length-append b stop,
                  ))
              | inr later ↦
                  ap (can_remove stuck (m ∷ (b ++ stop))) on
                  ∙ outward a n m b (without_path dir tree) later
                      (ap (has_path (n ∷ (m ∷ (b ++ stop)))) (sym on) ∙ gone)
            ]
      ]

-- What the loop leaves of `tree`, from the directory `n ∷ rest` below `stop`.
pub record IsPruned (stuck : List Bytes → Bool) (stop : List Bytes) (n : Bytes) (rest : List Bytes)
    (tree left : List (List Bytes)) : Type 0 where
  pub nothing_new : (q : List Bytes) → has_path q tree ≡ false → has_path q left ≡ false
  pub only_empty :
      (q : List Bytes)
      → has_path q tree ≡ true
      → has_path q left ≡ false
      → (a : List Bytes) × (m : Bytes) × (b : List Bytes) × ((n ∷ rest) ≡ a ++ (m ∷ b))
        × (q ≡ m ∷ (b ++ stop))
        × (has_child q left ≡ false)
  pub innermost : can_remove stuck (n ∷ (rest ++ stop)) left ≡ false
  pub outward :
      (a : List Bytes) (m k : Bytes) (b : List Bytes)
      → (n ∷ rest) ≡ a ++ (m ∷ (k ∷ b))
      → has_path (m ∷ (k ∷ (b ++ stop))) tree ≡ true
      → has_path (m ∷ (k ∷ (b ++ stop))) left ≡ false
      → can_remove stuck (k ∷ (b ++ stop)) left ≡ false

-- From a directory below `stop`, whichever removals the system refuses: nothing is created; what is
-- removed is a directory between the two, `stop` itself excluded, and nothing is left in it; the
-- directory itself is gone or cannot be removed; and behind each directory that is removed its parent is
-- gone or cannot be removed, unless that is `stop`.
pub prune_empty_parents-IsPruned :
    (stuck : List Bytes → Bool) (stop : List Bytes) (n : Bytes) (rest : List Bytes)
    (tree : List (List Bytes))
    → IsPruned stuck stop n rest tree
        (prune_empty_parents stuck (some stop) (n ∷ (rest ++ stop)) tree)
prune_empty_parents-IsPruned stuck stop n rest tree = record {
  nothing_new = λ q. nothing_new stuck stop q (n ∷ rest) tree;
  only_empty = removed_between stuck stop (n ∷ rest) tree;
  innermost = innermost stuck stop n rest tree;
  outward = λ a m k b parts was gone.
      ap (λ s. can_remove stuck (k ∷ (b ++ stop)) (pruned stuck stop s tree)) parts
      ∙ outward stuck stop a m k b tree was (
          ap (λ s. has_path (m ∷ (k ∷ (b ++ stop))) (pruned stuck stop s tree)) (sym parts) ∙ gone);
}
