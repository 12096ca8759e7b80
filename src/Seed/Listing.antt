-- ===== src/Seed/Listing.antt =====
-- listLFSFiles and nextPageURL of wrap/seed.go. What the Hub answers is a parameter: the status, the
-- decoding of the page within its size limit, and the request itself are one result.
use modelwrap.Prelude.{
  ℕ, zero, suc, ◌≤◌, ◌≡◌, ◌↔◌, sym, ap, ◌∙◌, arith, Bool, true, false, ◌&&◌, List, [], ◌∷◌, ◌++◌,
  append-nil, append_assoc, map, Bytes, codes, beq, contains, cut, split, trim_space, if◌then◌else◌,
  Option, none, some, Result, ok, err, ◌>>=◌, bind_ok, ℤ, has_byte,
}
use mathlib.Core.Path.{subst}
use modelwrap.Seed.{LfsFile}
use modelwrap.Seed.Paths.{is_local_path, path_escape}

abbrev pub hf_api_base : Bytes
hf_api_base = codes "https://huggingface.co/api"

abbrev pub tree_max_pages : ℕ
tree_max_pages = 10000

pub record TreeEntry : Type 0 where
  pub kind : Bytes
  pub path : Bytes
  -- The object's id and size, for a file that LFS tracks.
  pub lfs : Option (Bytes × ℤ)

pub record Page : Type 0 where
  pub entries : List TreeEntry
  -- The fields of the Link header.
  pub links : List Bytes

pub data ListError : Type 0 where
  request_failed bad_status bad_page too_many_pages : ListError

pub record Hub : Type 0 where
  pub get : Bytes → Result ListError Page

abbrev pub trim_left_set : Bytes → Bytes → Bytes
trim_left_set chars [] = []
trim_left_set chars (c ∷ s) =
    let rest = trim_left_set chars s in if has_byte c chars then rest else (c ∷ s)

abbrev pub keep_unless : Bool → ℕ → Bytes → Bytes
keep_unless drop c [] = if drop then [] else (c ∷ [])
keep_unless drop c (d ∷ s) = c ∷ d ∷ s

abbrev pub trim_right_set : Bytes → Bytes → Bytes
trim_right_set chars [] = []
trim_right_set chars (c ∷ s) = keep_unless (has_byte c chars) c (trim_right_set chars s)

-- `strings.Trim`
abbrev pub trim : Bytes → Bytes → Bytes
trim chars s = trim_right_set chars (trim_left_set chars s)

-- The target of a link with rel="next".
abbrev pub next_target : Bytes × Bytes × Bool → Option Bytes
next_target (target, params, found) =
    if found && contains params (codes "rel=\"next\"")
    then some (trim (codes "<>") (trim_space target))
    else none

abbrev pub first_or : Option Bytes → Option Bytes → Option Bytes
first_or (some u) other = some u
first_or none other = other

abbrev pub next_of_links : List Bytes → Option Bytes
next_of_links [] = none
next_of_links (link ∷ rest) = first_or (next_target (cut link b';')) (next_of_links rest)

abbrev pub next_of_fields : List Bytes → Option Bytes
next_of_fields [] = none
next_of_fields (field ∷ rest) = first_or (next_of_links (split field b',')) (next_of_fields rest)

abbrev pub or_empty : Option Bytes → Bytes
or_empty none = []
or_empty (some u) = u

unfoldable pub next_page_url : List Bytes → Bytes
next_page_url fields = or_empty (next_of_fields fields)

abbrev pub as_file : Bool → TreeEntry → List LfsFile → List LfsFile
as_file false e rest = rest
as_file true e rest = elim e.lfs [
  | none ↦ rest
  | some (oid, size) ↦ record { path = e.path; sha256 = oid; size = size } ∷ rest
]

-- The files of a page that are listed.
unfoldable pub wanted : List TreeEntry → List LfsFile
wanted [] = []
wanted (e ∷ rest) = as_file (beq e.kind (codes "file") && is_local_path e.path) e (wanted rest)

-- The loop, with the number of pages that may still be asked for.
unfoldable pub list_pages : Hub → ℕ → Bytes → List LfsFile → Result ListError (List LfsFile)
unfolding wanted next_page_url
list_pages hub left [] files = ok files
list_pages hub zero (c ∷ u) files = err too_many_pages
list_pages hub (suc left) (c ∷ u) files = hub.get (c ∷ u) >>= λ page.
    list_pages hub left (next_page_url page.links) (files ++ wanted page.entries)

abbrev pub join_segments : List Bytes → Bytes
join_segments [] = []
join_segments (x ∷ []) = x
join_segments (x ∷ (y ∷ rest)) = x ++ (b'/' ∷ join_segments (y ∷ rest))

unfoldable pub tree_url : Bytes → Bytes → Bytes
unfolding path_escape
tree_url name revision =
    hf_api_base
    ++ (codes "/models/"
        ++ (join_segments (map path_escape (split name b'/'))
            ++ (codes "/tree/" ++ (path_escape revision ++ codes "?recursive=true"))))

unfoldable pub list_lfs_files : Hub → Bytes → Bytes → Result ListError (List LfsFile)
unfolding list_pages tree_url
list_lfs_files hub name revision = list_pages hub tree_max_pages (tree_url name revision) []

-- The files of the pages from an address on, to the one that names no next.
pub data Pages (hub : Hub) : Bytes → ℕ → List LfsFile → Type 0 where
  no_more : Pages hub [] 0 []
  one_more :
      {c : ℕ} {u : Bytes} {n : ℕ} {rest : List LfsFile} (page : Page)
      → hub.get (c ∷ u) ≡ ok page
      → Pages hub (next_page_url page.links) n rest
      → Pages hub (c ∷ u) (suc n) (wanted page.entries ++ rest)

-- What a run of the loop has listed, in terms of the pages.
Listed : Hub → ℕ → Bytes → List LfsFile → List LfsFile → Type 0
Listed hub left u files out =
    (n : ℕ) × (rest : List LfsFile) × (n ≤ left) × Pages hub u n rest × (out ≡ files ++ rest)

list_pages-Listed :
    (hub : Hub) (left : ℕ) (u : Bytes) (files out : List LfsFile)
    → list_pages hub left u files ≡ ok out
    → Listed hub left u files out
unfolding list_pages Listed
list_pages-Listed hub left [] files out e = (0, [], omega arith, no_more, cc (append-nil files, e))
list_pages-Listed hub zero (c ∷ u) files out e = cc
list_pages-Listed hub (suc left) (c ∷ u) files out e =
    let (page, more, got) =
      bind_ok
        (λ page. list_pages hub left (next_page_url page.links) (files ++ wanted page.entries))
        (hub.get (c ∷ u)) out e in
    let (n, rest, le, pages, eq) =
      list_pages-Listed hub left (next_page_url page.links) (files ++ wanted page.entries) out
        more in
    (
      suc n,
      wanted page.entries ++ rest,
      omega arith,
      one_more page got pages,
      eq ∙ append_assoc files (wanted page.entries) rest,
    )

Listed-list_pages :
    (hub : Hub) {u : Bytes} {n : ℕ} {rest : List LfsFile} (left : ℕ) (files : List LfsFile)
    → Pages hub u n rest
    → n ≤ left
    → list_pages hub left u files ≡ ok (files ++ rest)
unfolding list_pages
Listed-list_pages hub left files no_more le = ap ok (sym (append-nil files))
Listed-list_pages hub zero files (one_more page got more) le = absurd (omega arith)
Listed-list_pages hub (suc left) files (one_more {c} {u} {n} {rest} page got more) le = rw got (
    Listed-list_pages hub left (files ++ wanted page.entries) more (omega arith)
    ∙ ap ok (append_assoc files (wanted page.entries) rest))

-- listLFSFiles, for every Hub, returns a list of files exactly when the pages from the first address
-- on, each linked from the one before, end after at most 10000 of them and could all be fetched; the
-- list is then the wanted files of all pages, in their order.
pub list_lfs_files_iff :
    (hub : Hub) (name revision : Bytes) (files : List LfsFile)
    → (list_lfs_files hub name revision ≡ ok files)
      ↔ ((n : ℕ) × (n ≤ tree_max_pages) × Pages hub (tree_url name revision) n files)
unfolding list_lfs_files Listed
list_lfs_files_iff hub name revision files = (
  λ e.
      let (n, rest, le, pages, eq) =
        list_pages-Listed hub tree_max_pages (tree_url name revision) [] files e in
      (n, le, subst (Pages hub (tree_url name revision) n) (sym eq) pages),
  λ (n, le, pages). Listed-list_pages hub tree_max_pages [] pages le,
)
