-- ===== src/Delete/Whole.antt =====
-- What a deletion without an error leaves of all models.
use modelwrap.Prelude.{◌≡◌, ◌≢◌, ◌⊎◌, ◌++◌, true, false, ◌∷◌, Bytes}
use modelwrap.Delete.{has_name, Store, cache_path}
use modelwrap.Delete.Exact.{is_owned}

-- A path that is another or lies below it.
abbrev pub IsUnder : Bytes → Bytes → Type 0
IsUnder dir path = (path ≡ dir) ⊎ ((rest : Bytes) × (path ≡ dir ++ (b'/' ∷ rest)))

pub record IsDeleted (model revision : Bytes) (s t : Store) : Type 0 where
  -- None of the revision's names, all of the others.
  pub gone : (m : Bytes) → is_owned revision m ≡ true → has_name m (t.names model) ≡ false
  pub kept :
      (m : Bytes)
      → is_owned revision m ≡ false
      → has_name m (t.names model) ≡ has_name m (s.names model)
  pub elsewhere : (k : Bytes) → k ≢ model → t.names k ≡ s.names k
  -- The caches at and below the revision's path, and the others.
  pub uncached :
      (k r : Bytes) → IsUnder (cache_path model revision) (cache_path k r) → t.cached k r ≡ false
  pub caches :
      (k r : Bytes)
      → (IsUnder (cache_path model revision) (cache_path k r) → ⊥)
      → t.cached k r ≡ s.cached k r
