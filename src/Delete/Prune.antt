-- ===== src/Delete/Prune.antt =====
-- pruneEmptyParents: the directories that a deletion has left empty. A path is what `filepath.Clean`
-- leaves of it, as its parts with the last one first; the empty path is "." or "/", and `stop` is none
-- where it begins elsewhere than the directory ("." against "/").
pub mod Paths
pub mod Empty
use modelwrap.Prelude.{
  ◌≡◌, ◌≢◌, ◌<◌, ◌≤◌, ◌+◌, refl, sym, ap, ◌∙◌, ◌⊎◌, inl, inr, Bool, true, false, not, ◌&&◌, ◌||◌,
  List, [], ◌∷◌, ◌++◌, length, length-append, Bytes, beq, beq_iff, Bool-cases, if◌then◌else◌,
  Option, none, some, arith,
}

unfoldable pub path_eq : List Bytes → List Bytes → Bool
path_eq [] [] = true
path_eq [] (n ∷ q) = false
path_eq (m ∷ p) [] = false
path_eq (m ∷ p) (n ∷ q) = beq m n && path_eq p q

-- The files and directories that there are.
unfoldable pub has_path : List Bytes → List (List Bytes) → Bool
unfolding path_eq
has_path p [] = false
has_path p (q ∷ rest) = path_eq p q || has_path p rest

abbrev pub is_child : List Bytes → List Bytes → Bool
is_child dir [] = false
is_child dir (n ∷ up) = path_eq dir up

unfoldable pub has_child : List Bytes → List (List Bytes) → Bool
unfolding path_eq
has_child dir [] = false
has_child dir (q ∷ rest) = is_child dir q || has_child dir rest

unfoldable pub without_path : List Bytes → List (List Bytes) → List (List Bytes)
unfolding path_eq
without_path p [] = []
without_path p (q ∷ rest) = let kept = without_path p rest in if path_eq p q then kept else q ∷ kept

abbrev pub is_stop : Option (List Bytes) → List Bytes → Bool
is_stop none dir = false
is_stop (some stop) dir = path_eq stop dir

-- `os.Remove` of a directory: there is one, there is nothing in it, and the system does not refuse.
abbrev pub can_remove : (List Bytes → Bool) → List Bytes → List (List Bytes) → Bool
can_remove stuck dir tree = has_path dir tree && (not (has_child dir tree) && not (stuck dir))

unfoldable pub prune_empty_parents :
    (List Bytes → Bool) → Option (List Bytes) → List Bytes → List (List Bytes) → List (List Bytes)
unfolding has_path has_child without_path
prune_empty_parents stuck stop [] tree = tree
prune_empty_parents stuck stop (n ∷ up) tree =
    let rest = prune_empty_parents stuck stop up (without_path (n ∷ up) tree) in
    if is_stop stop (n ∷ up) then tree else if can_remove stuck (n ∷ up) tree then rest else tree
