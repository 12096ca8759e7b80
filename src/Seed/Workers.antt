-- ===== src/Seed/Workers.antt =====
-- The goroutines of seedFiles: any number of workers, any interleaving of what they do, with other
-- processes that give the paths of the siblings other files at any time. A path below a
-- revision is what `filepath.Join` makes of a file's path.
use modelwrap.Prelude.{
  assign, ℕ, suc, ◌≡◌, ◌≤◌, true, false, Bool, List, [], ◌∷◌, Bytes, beq, get_elem?, length, ltb,
  Option, none, some, if◌then◌else◌,
}
use modelwrap.Verity.{Sha256}
use modelwrap.Seed.Paths.{clean}
use modelwrap.Seed.{LfsFile, Inode, fits, seed_target_valid}

-- Where a worker stands in its loop, with the index and the file it claimed, and, in the loop over the
-- siblings, with those that are left: `linking` has seen a fitting candidate, `linked` has the link and
-- has not verified it, `refused` has a link that is not valid.
pub data Phase : Type 0 where
  idle stopped : Phase
  claimed : ℕ → LfsFile → Phase
  looking : ℕ → LfsFile → List Bytes → Phase
  linking linked refused : ℕ → LfsFile → Bytes → List Bytes → Phase

pub record Pool : Type 0 where
  pub next : ℕ
  pub phase : ℕ → Phase
  -- The file at a path below a sibling, and at a path below the model's directory.
  pub candidate : Bytes → Bytes → Option Inode
  pub target : Bytes → Option Inode
  -- The sibling from which each file was linked.
  pub results : ℕ → Option Bytes
  pub first_err : Bool

abbrev pub place : (Bytes → Option Inode) → Bytes → Option Inode → Bytes → Option Inode
place f p i q = if beq q p then i else f q

module _ (h : Sha256) (mode : ℕ) (files : List LfsFile) (siblings : List Bytes) where
  pub data Step : Pool → Pool → Type 0 where
    claim :
        (s : Pool) (w : ℕ) (f : LfsFile)
        → s.phase w ≡ idle
        → get_elem? files s.next ≡ some f
        → Step s (record s { next = suc s.next; phase = assign s.phase w (claimed s.next f) })
    stop :
        (s : Pool) (w : ℕ)
        → s.phase w ≡ idle
        → length files ≤ s.next
        → Step s (record s { next = suc s.next; phase = assign s.phase w stopped })
    -- Lstat of the target, which finds a file, or fails.
    present :
        (s : Pool) (w t : ℕ) (f : LfsFile) (i : Inode)
        → s.phase w ≡ claimed t f
        → s.target (clean f.path) ≡ some i
        → Step s (record s { phase = assign s.phase w idle })
    not_present :
        (s : Pool) (w t : ℕ) (f : LfsFile)
        → s.phase w ≡ claimed t f
        → Step s (record s { phase = assign s.phase w (looking t f siblings) })
    -- The siblings are exhausted.
    give_up :
        (s : Pool) (w t : ℕ) (f : LfsFile)
        → s.phase w ≡ looking t f []
        → Step s (record s { phase = assign s.phase w idle })
    -- Lstat of the candidate finds a file with another mode or size.
    unfit :
        (s : Pool) (w t : ℕ) (f : LfsFile) (c : Bytes) (rest : List Bytes) (i : Inode)
        → s.phase w ≡ looking t f (c ∷ rest)
        → s.candidate c (clean f.path) ≡ some i
        → fits mode f i ≡ false
        → Step s (record s { phase = assign s.phase w (looking t f rest) })
    -- Lstat of the candidate, or MkdirAll for the target, fails.
    pass_over :
        (s : Pool) (w t : ℕ) (f : LfsFile) (c : Bytes) (rest : List Bytes)
        → s.phase w ≡ looking t f (c ∷ rest)
        → Step s (record s { phase = assign s.phase w (looking t f rest) })
    fit :
        (s : Pool) (w t : ℕ) (f : LfsFile) (c : Bytes) (rest : List Bytes) (i : Inode)
        → s.phase w ≡ looking t f (c ∷ rest)
        → s.candidate c (clean f.path) ≡ some i
        → fits mode f i ≡ true
        → Step s (record s { phase = assign s.phase w (linking t f c rest) })
    -- `os.Link`, of what is at the candidate's path now; an existing target makes it fail.
    link :
        (s : Pool) (w t : ℕ) (f : LfsFile) (c : Bytes) (rest : List Bytes) (i : Inode)
        → s.phase w ≡ linking t f c rest
        → s.candidate c (clean f.path) ≡ some i
        → s.target (clean f.path) ≡ none
        → Step s (record s {
          phase = assign s.phase w (linked t f c rest);
          target = place s.target (clean f.path) (some i);
        })
    link_failed :
        (s : Pool) (w t : ℕ) (f : LfsFile) (c : Bytes) (rest : List Bytes)
        → s.phase w ≡ linking t f c rest
        → Step s (record s { phase = assign s.phase w (looking t f rest) })
    accept :
        (s : Pool) (w t : ℕ) (f : LfsFile) (c : Bytes) (rest : List Bytes)
        → s.phase w ≡ linked t f c rest
        → seed_target_valid h mode f (s.target (clean f.path)) true ≡ true
        → Step s (record s { phase = assign s.phase w idle; results = assign s.results t (some c) })
    -- seedTargetValid is false: of what the target is, or as Lstat or the reading fails.
    refuse :
        (s : Pool) (w t : ℕ) (f : LfsFile) (c : Bytes) (rest : List Bytes) (found readable : Bool)
        → s.phase w ≡ linked t f c rest
        → seed_target_valid h mode f (if found then s.target (clean f.path) else none) readable
          ≡ false
        → Step s (record s { phase = assign s.phase w (refused t f c rest) })
    remove :
        (s : Pool) (w t : ℕ) (f : LfsFile) (c : Bytes) (rest : List Bytes)
        → s.phase w ≡ refused t f c rest
        → Step s (record s {
          phase = assign s.phase w (looking t f rest);
          target = place s.target (clean f.path) none;
        })
    remove_failed :
        (s : Pool) (w t : ℕ) (f : LfsFile) (c : Bytes) (rest : List Bytes)
        → s.phase w ≡ refused t f c rest
        → Step s (record s { phase = assign s.phase w stopped; first_err = true })
    -- Another process changes what is below the siblings.
    replace :
        (s : Pool) (candidate : Bytes → Bytes → Option Inode)
        → Step s (record s { candidate = candidate })

  pub data Reach (s : Pool) : Pool → Type 0 where
    here : Reach s s
    next : {t u : Pool} → Reach s t → Step t u → Reach s u

-- Before the first claim, with a number of workers.
abbrev pub start : ℕ → (Bytes → Bytes → Option Inode) → (Bytes → Option Inode) → Pool
start workers candidate target = record {
  next = 0;
  phase = λ w. if ltb w workers then idle else stopped;
  candidate = candidate;
  target = target;
  results = λ t. none;
  first_err = false;
}
