-- ===== src/Seed.antt =====
-- wrap/seed.go: the hardlinking of files that an earlier revision of the model already has.
pub mod Paths
pub mod Listing
pub mod Workers
pub mod Upkeep
pub mod Verified
pub mod Ends
pub mod Driver
use modelwrap.Prelude.{
  ◌+◌, ℕ, zero, Bool, true, false, not, ◌&&◌, ◌||◌, ◌==◌, ltb, List, [], ◌∷◌, ◌++◌, Bytes, codes,
  beq, if◌then◌else◌, Option, none, some, Result, ok, err, ◌>>=◌, ◌>>◌, refuse_if, ℤ, pos, negsuc,
  map,
}
use modelwrap.Verity.{Sha256, hex_encode}

pub record LfsFile : Type 0 where
  pub path : Bytes
  pub sha256 : Bytes
  pub size : ℤ

-- A file that a path can lead to: what Lstat says of it, and its bytes. Nothing writes to it; a path
-- is given another file by a rename.
pub record Inode : Type 0 where
  pub mode : ℕ
  pub size : ℕ
  pub content : Bytes

abbrev pub is_size : ℕ → ℤ → Bool
is_size n (pos m) = n == m
is_size n (negsuc m) = false

-- `fi.Mode() == mode && fi.Size() == file.Size`
abbrev pub fits : ℕ → LfsFile → Inode → Bool
fits mode f i = (i.mode == mode) && is_size i.size f.size

abbrev lower : ℕ → ℕ
lower c = if not (ltb c b'A') && ltb c 91 then c + 32 else c

-- `strings.ToLower`, of ASCII letters.
abbrev pub to_lower : Bytes → Bytes
to_lower = map lower

abbrev pub has_sum : Sha256 → LfsFile → Bytes → Bool
has_sum h f content = beq (hex_encode (h.sum content)) (to_lower f.sha256)

-- `seedTargetValid`, by what Lstat finds and whether the file can be read.
unfoldable pub seed_target_valid : Sha256 → ℕ → LfsFile → Option Inode → Bool → Bool
seed_target_valid h mode f none readable = false
seed_target_valid h mode f (some i) readable = fits mode f i && (readable && has_sum h f i.content)

pub record DirEntry : Type 0 where
  pub name : Bytes
  pub is_dir : Bool
  pub mod_time : Option ℕ

pub record RevDir : Type 0 where
  pub name : Bytes
  pub mod_time : ℕ

-- What `os.ReadDir` gives: the entries, nothing where the directory is missing, or an error.
pub data ReadDir : Type 0 where
  entries : List DirEntry → ReadDir
  missing failed : ReadDir

abbrev pub with_time : Bytes → Option ℕ → List RevDir → List RevDir
with_time name none rest = rest
with_time name (some m) rest = record { name = name; mod_time = m } ∷ rest

abbrev pub revision_dirs : Bytes → List DirEntry → List RevDir
revision_dirs own [] = []
revision_dirs own (e ∷ rest) =
    let more = revision_dirs own rest in
    if not e.is_dir || beq e.name own then more else with_time e.name e.mod_time more

-- `siblingRevisionDirs`, with names in place of the paths they are joined to; `sort` is
-- `slices.SortFunc` by the later time first.
unfoldable pub sibling_revision_dirs :
    (List RevDir → List RevDir) → Bytes → ReadDir → Option (List Bytes)
sibling_revision_dirs sort own (entries es) = some (map (λ d. d.name) (sort (revision_dirs own es)))
sibling_revision_dirs sort own missing = some []
sibling_revision_dirs sort own failed = none

-- `probeDownloadMode`, by what its calls return: MkdirAll, Remove with a missing file allowed, and the
-- mode of the created file.
pub record Probe : Type 0 where
  pub make_dir : Bool
  pub remove_old : Bool
  pub create : Bool
  pub stat : Option ℕ

pub data ProbeError : Type 0 where
  no_dir not_removed not_created not_read : ProbeError

unfoldable pub probe_download_mode : Probe → Result ProbeError ℕ
probe_download_mode p = do
  refuse_if (not p.make_dir) no_dir
  refuse_if (not p.remove_old) not_removed
  refuse_if (not p.create) not_created
  elim p.stat [ none ↦ err not_read | some m ↦ ok m ]
