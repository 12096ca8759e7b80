-- ===== src/Delete.antt =====
-- wrap/delete.go: Delete behind splitPinnedModel and the lock, over the names in the directory of the
-- model's artifacts. A name is removed unless the file system refuses to remove it.
pub mod Exact
pub mod Whole
pub mod Prune
use modelwrap.Prelude.{
  Bool, true, false, not, ◌&&◌, ◌||◌, List, [], ◌∷◌, ◌++◌, map, Bytes, codes, beq, has_prefix,
  if◌then◌else◌, Option, none, some, Result, ok, err,
}
use modelwrap.Model.{ModelError, split_pinned_model, is_staged_leftover}

abbrev pub has_name : Bytes → List Bytes → Bool
has_name n [] = false
has_name n (m ∷ rest) = beq n m || has_name n rest

abbrev pub without : Bytes → List Bytes → List Bytes
without n [] = []
without n (m ∷ rest) = let kept = without n rest in if beq m n then kept else m ∷ kept

-- The names in the directory, and those whose removal failed.
pub record Removal : Type 0 where
  pub names : List Bytes
  pub errs : List Bytes

-- `os.Remove`, with a missing file allowed.
unfoldable pub remove_name : (Bytes → Bool) → Bytes → Removal → Removal
remove_name stuck n r =
    if has_name n r.names && stuck n
    then record r { errs = r.errs ++ (n ∷ []) }
    else record r { names = without n r.names }

unfoldable pub remove_names : (Bytes → Bool) → List Bytes → Removal → Removal
remove_names stuck [] r = r
remove_names stuck (n ∷ rest) r = remove_names stuck rest (remove_name stuck n r)

abbrev pub removed_suffixes : List Bytes
removed_suffixes =
    codes ".emwp.info"
    ∷ codes ".emwp"
    ∷ codes ".info"
    ∷ codes ".mpk"
    ∷ codes ".schema"
    ∷ codes ".mpk.tmp"
    ∷ codes ".info.tmp"
    ∷ codes ".emwp.tmp"
    ∷ codes ".emwp.info.tmp"
    ∷ codes ".emwp.verify.tmp"
    ∷ []

abbrev pub suffixed : Bytes → List Bytes
suffixed revision = map (λ s. revision ++ s) removed_suffixes

abbrev pub lock_name : Bytes → Bytes
lock_name revision = revision ++ codes ".lock"

unfoldable pub leftovers : Bytes → List Bytes → List Bytes
leftovers revision [] = []
leftovers revision (n ∷ rest) =
    let more = leftovers revision rest in if is_staged_leftover n revision then n ∷ more else more

-- The loop over the listing of the directory, as it is read then, or the error of the reading.
unfoldable pub remove_leftovers : (Bytes → Bool) → Bool → Bytes → Removal → Removal
unfolding leftovers
remove_leftovers stuck true revision r = remove_names stuck (leftovers revision r.names) r
remove_leftovers stuck false revision r = record r { errs = r.errs ++ (codes "." ∷ []) }

-- Everything between taking the lock and giving it up, but for the cache.
unfoldable pub delete_names : (Bytes → Bool) → Bool → Bytes → List Bytes → Removal
unfolding remove_names
delete_names stuck can_list revision names = remove_name stuck (lock_name revision) (
    remove_leftovers stuck can_list revision
      (remove_names stuck (suffixed revision) (record { names = names; errs = [] })))

-- The models, by name and revision: the names in the directory of the artifacts of a model, and whether
-- a revision's downloaded files are there.
pub record Store : Type 0 where
  pub names : Bytes → List Bytes
  pub cached : Bytes → Bytes → Bool

-- What the file system refuses to remove, and whether its other calls work.
pub record DeleteFaults : Type 0 where
  pub stuck : Bytes → Bool
  pub make_dir : Bool
  pub lock : Bool
  pub list : Bool
  -- The cache cannot be removed.
  pub cache : Bool

pub data DeleteError : Type 0 where
  bad_model : ModelError → DeleteError
  no_dir no_lock : DeleteError
  -- `errors.Join`
  not_removed : List Bytes → Bool → DeleteError

abbrev pub put_names : Store → Bytes → List Bytes → Store
put_names s model names = record s { names = λ k. if beq k model then names else s.names k }

-- The directory of a revision's cache, below the cache directory.
abbrev pub cache_path : Bytes → Bytes → Bytes
cache_path model revision = model ++ (b'/' ∷ revision)

abbrev pub is_at_or_below : Bytes → Bytes → Bool
is_at_or_below dir path = beq path dir || has_prefix path (dir ++ (b'/' ∷ []))

-- `os.RemoveAll` of the revision's cache, which leaves everything or nothing at that path and below it.
abbrev pub drop_cache : Bool → Bytes → Bytes → Store → Store
drop_cache true model revision s = s
drop_cache false model revision s = record s {
  cached = λ k r. not (is_at_or_below (cache_path model revision) (cache_path k r)) && s.cached k r;
}

abbrev pub joined_errors : List Bytes → Bool → Option DeleteError
joined_errors [] false = none
joined_errors [] true = some (not_removed [] true)
joined_errors (n ∷ rest) cache = some (not_removed (n ∷ rest) cache)

-- Delete with the lock held.
unfoldable pub delete_locked : DeleteFaults → Bytes → Bytes → Store → Store × Option DeleteError
unfolding delete_names
delete_locked w model revision s =
    let r = delete_names w.stuck w.list revision (s.names model) in
    (drop_cache w.cache model revision (put_names s model r.names), joined_errors r.errs w.cache)

abbrev pub delete_split :
    DeleteFaults → Store → Result ModelError (Bytes × Bytes) → Store × Option DeleteError
delete_split w s (err e) = (s, some (bad_model e))
delete_split w s (ok (model, revision)) =
    if not w.make_dir
    then (s, some no_dir)
    else if not w.lock
    then (s, some no_lock)
    else delete_locked w model revision s

-- `Delete`; the pruning of empty directories behind it is `prune_empty_parents`.
unfoldable pub delete : DeleteFaults → Bytes → Store → Store × Option DeleteError
unfolding delete_locked
delete w model s = delete_split w s (split_pinned_model model)
