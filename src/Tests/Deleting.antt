-- ===== src/Tests/Deleting.antt =====
-- Examples for the deletion of a revision.
use modelwrap.Prelude.{◌≡◌, true, false, not, ◌&&◌, ◌||◌, Bool, List, [], ◌∷◌, Bytes, codes, beq}
use modelwrap.Delete.{has_name, delete_names, Store, DeleteFaults, delete}
use modelwrap.Delete.Exact.{is_removable, delete_names-has_name}
use modelwrap.Delete.Prune.{path_eq, has_path, has_child, without_path, prune_empty_parents}
use modelwrap.Delete.Prune.Empty.{IsPruned, prune_empty_parents-IsPruned}

abbrev nothing_stuck : Bytes → Bool
nothing_stuck n = false

abbrev some_names : List Bytes
some_names = codes "r1.mpk" ∷ codes "r1.info" ∷ codes "r2.mpk" ∷ codes "r1.lock" ∷ []

delete_names-has_name_example :
    has_name (codes "r2.mpk") (delete_names nothing_stuck true (codes "r1") some_names).names ≡ (
      has_name (codes "r2.mpk") some_names
      && (not (is_removable true (codes "r1") (codes "r2.mpk")) || false))
delete_names-has_name_example =
    delete_names-has_name nothing_stuck true (codes "r1") some_names (codes "r2.mpk")

abbrev a_store : Store
a_store = record { names = λ model. some_names; cached = λ model revision. true }

abbrev all_works : DeleteFaults
all_works = record {
  stuck = nothing_stuck;
  make_dir = true;
  lock = true;
  list = true;
  cache = false;
}

abbrev left_store : Store
left_store = (delete all_works (codes "m@r1") a_store).0

-- "out/org/model" with another model beside it.
abbrev two_models : List (List Bytes)
two_models =
    (codes "out" ∷ [])
    ∷ (codes "org" ∷ codes "out" ∷ [])
    ∷ (codes "model" ∷ codes "org" ∷ codes "out" ∷ [])
    ∷ (codes "other" ∷ codes "org" ∷ codes "out" ∷ [])
    ∷ []

prune_empty_parents-IsPruned_example :
    IsPruned
      (λ d. false)
      (codes "out" ∷ [])
      (codes "model")
      (codes "org" ∷ [])
      two_models
      ((codes "out" ∷ [])
        ∷ (codes "org" ∷ codes "out" ∷ [])
        ∷ (codes "other" ∷ codes "org" ∷ codes "out" ∷ [])
        ∷ [])
unfolding prune_empty_parents has_path has_child without_path path_eq beq
prune_empty_parents-IsPruned_example =
    prune_empty_parents-IsPruned (λ d. false) (codes "out" ∷ []) (codes "model") (codes "org" ∷ [])
      two_models
