-- ===== src/Seed/Driver.antt =====
-- seedFromPreviousRevisions of wrap/seed.go, and the report at the end of seedFiles.
use modelwrap.Prelude.{
  ℕ, zero, suc, ◌+◌, Bool, false, ◌||◌, List, [], ◌∷◌, Bytes, beq, if◌then◌else◌, length, Option,
  none, some, Result, ok, err,
}
use modelwrap.Seed.{LfsFile, RevDir, ReadDir, Probe, sibling_revision_dirs, probe_download_mode}
use modelwrap.Seed.Listing.{Hub, list_lfs_files}
use modelwrap.Seed.Workers.{Pool}

abbrev pub is_linked : Option Bytes → ℕ
is_linked none = 0
is_linked (some c) = 1

-- How many of the first `n` files were linked.
abbrev pub linked_count : ℕ → (ℕ → Option Bytes) → ℕ
linked_count zero results = 0
linked_count (suc n) results = linked_count n results + is_linked (results n)

abbrev pub is_from : Bytes → Option Bytes → Bool
is_from c none = false
is_from c (some d) = beq c d

abbrev pub is_used : ℕ → (ℕ → Option Bytes) → Bytes → Bool
is_used zero results c = false
is_used (suc n) results c = is_used n results c || is_from c (results n)

abbrev pub used_sources : ℕ → (ℕ → Option Bytes) → List Bytes → List Bytes
used_sources n results [] = []
used_sources n results (c ∷ rest) =
    let more = used_sources n results rest in if is_used n results c then c ∷ more else more

pub data SeedError : Type 0 where
  unverified_left : SeedError

-- The end of seedFiles: how many files were linked, and from which siblings; but for their sizes.
unfoldable pub seed_report : List LfsFile → List Bytes → Pool → Result SeedError (ℕ × List Bytes)
seed_report files siblings s =
    if s.first_err
    then err unverified_left
    else ok (linked_count (length files) s.results, used_sources (length files) s.results siblings)

-- What the seeding is given, and the state in which the workers for a mode, files and siblings end.
pub record SeedHost : Type 0 where
  pub own_name : Bytes
  pub parent : ReadDir
  pub sort : List RevDir → List RevDir
  pub probe : Probe
  pub hub : Hub
  pub workers_end : ℕ → List LfsFile → List Bytes → Pool

abbrev pub skipped : Result SeedError (ℕ × List Bytes)
skipped = ok (0, [])

abbrev pub on_files {ℓ} :
    {E : Type ℓ}
    → Result E (List LfsFile)
    → (List LfsFile → Result SeedError (ℕ × List Bytes))
    → Result SeedError (ℕ × List Bytes)
on_files (err e) k = skipped
on_files (ok files) k = k files

abbrev pub on_mode {ℓ} :
    {E : Type ℓ}
    → Result E ℕ
    → (ℕ → Result SeedError (ℕ × List Bytes))
    → Result SeedError (ℕ × List Bytes)
on_mode (err e) k = skipped
on_mode (ok mode) k = k mode

abbrev pub on_siblings :
    Option (List Bytes)
    → (List Bytes → Result SeedError (ℕ × List Bytes))
    → Result SeedError (ℕ × List Bytes)
on_siblings none k = skipped
on_siblings (some []) k = skipped
on_siblings (some (c ∷ rest)) k = k (c ∷ rest)

-- What is linked, or the one error.
unfoldable pub seed_from_previous_revisions :
    SeedHost → Bytes → Bytes → Result SeedError (ℕ × List Bytes)
seed_from_previous_revisions h name revision =
    on_siblings (sibling_revision_dirs h.sort h.own_name h.parent) (λ siblings.
      on_mode (probe_download_mode h.probe) (λ mode.
        on_files (list_lfs_files h.hub name revision)
          (λ files. seed_report files siblings (h.workers_end mode files siblings))))
