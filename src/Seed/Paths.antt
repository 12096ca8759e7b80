-- ===== src/Seed/Paths.antt =====
-- What wrap/seed.go uses of the packages `filepath` and `url`: relative paths with slashes.
use modelwrap.Prelude.{
  ℕ, zero, suc, ◌+◌, ◌/◌, ◌%◌, Bool, true, false, not, ◌&&◌, ◌||◌, ◌==◌, leb, ltb, List, [], ◌∷◌,
  ◌++◌, Bytes, codes, beq, has_byte, if◌then◌else◌, split,
}

abbrev pub is_here : Bytes → Bool
is_here part = beq part [] || beq part (codes ".")

-- The parts never lead out of the directory where they start, `depth` levels below it.
unfoldable pub stays : ℕ → List Bytes → Bool
stays depth [] = true
stays zero (part ∷ rest) =
    let same = stays zero rest in
    let deeper = stays 1 rest in
    if is_here part then same else not (beq part (codes "..")) && deeper
stays (suc depth) (part ∷ rest) =
    let same = stays (suc depth) rest in
    let higher = stays depth rest in
    let deeper = stays (suc (suc depth)) rest in
    if is_here part then same else if beq part (codes "..") then higher else deeper

-- `filepath.IsLocal`
unfoldable pub is_local_path : Bytes → Bool
unfolding stays
is_local_path [] = false
is_local_path (c ∷ s) = not (c == b'/') && stays 0 (split (c ∷ s) b'/')

abbrev pub pop : List Bytes → List Bytes
pop [] = []
pop (part ∷ rest) = rest

-- The parts of a path without "." and "..", last first.
unfoldable pub clean_parts : List Bytes → List Bytes → List Bytes
clean_parts stack [] = stack
clean_parts stack (part ∷ rest) =
    clean_parts
      (if is_here part then stack else if beq part (codes "..") then pop stack else (part ∷ stack))
      rest

abbrev pub join_parts : List Bytes → Bytes → Bytes
join_parts [] tail = tail
join_parts (part ∷ rest) tail = join_parts rest (part ++ (b'/' ∷ tail))

abbrev pub joined : List Bytes → Bytes
joined [] = []
joined (last ∷ rest) = join_parts rest last

-- What `filepath.Join` adds to a directory for a local path.
unfoldable pub clean : Bytes → Bytes
unfolding clean_parts
clean path = joined (clean_parts [] (split path b'/'))

abbrev upper_hex : ℕ → ℕ
upper_hex n = if ltb n 10 then b'0' + n else 55 + n

abbrev is_plain : ℕ → Bool
is_plain c =
    (leb b'a' c && leb c b'z')
    || ((leb b'A' c && leb c b'Z')
        || ((leb b'0' c && leb c b'9') || has_byte c (codes "-_.~$&+=:@")))

-- `url.PathEscape`
unfoldable pub path_escape : Bytes → Bytes
path_escape [] = []
path_escape (c ∷ s) =
    let rest = path_escape s in
    if is_plain c then c ∷ rest else b'%' ∷ upper_hex (c / 16) ∷ upper_hex (c % 16) ∷ rest
