-- ===== src/Ref/Grammar.antt =====
-- What the three patterns of a reference accept.
use modelwrap.Prelude.{
  ℕ, ◌≡◌, ◌≢◌, ◌↔◌, refl, Bool, true, ◌&&◌, List, [], ◌∷◌, Bytes, arith, length, All, Lacks,
  IsDigit, &&_split, not,
}
use modelwrap.Ref.{
  ArtifactRef, matches, root_hash_pattern, uuid_pattern, all_digits, matches_hash_offset,
}

-- A reference whose three fields match their patterns.
abbrev pub IsValid : ArtifactRef → Type 0
IsValid r =
    (matches root_hash_pattern r.root_hash ≡ true)
    × (matches_hash_offset r.hash_offset ≡ true)
    × (matches uuid_pattern r.uuid ≡ true)

-- No class of the pattern holds the byte.
rejects : ℕ → List (ℕ → Bool) → Bool
rejects bad [] = true
rejects bad (p ∷ ps) = not (p bad) && rejects bad ps

matches-Lacks :
    (bad : ℕ) (ps : List (ℕ → Bool)) (s : Bytes)
    → rejects bad ps ≡ true
    → matches ps s ≡ true
    → Lacks bad s
unfolding matches rejects
matches-Lacks bad [] [] h m = tt
matches-Lacks bad [] (c ∷ s) h m = cc
matches-Lacks bad (p ∷ ps) [] h m = cc
matches-Lacks bad (p ∷ ps) (c ∷ s) h m =
    let (no_bad, rest) = &&_split (not (p bad)) (rejects bad ps) h in
    let (here, there) = &&_split (p c) (matches ps s) m in
    ((λ e. cc (e, here, no_bad)), matches-Lacks bad ps s rest there)

pub matches-length : (ps : List (ℕ → Bool)) (s : Bytes) → matches ps s ≡ true → length s ≡ length ps
unfolding matches
matches-length [] [] m = refl
matches-length [] (c ∷ s) m = cc
matches-length (p ∷ ps) [] m = cc
matches-length (p ∷ ps) (c ∷ s) m = ground (arith, matches-length ps s)

all_digits_iff : (s : Bytes) → (all_digits s ≡ true) ↔ All IsDigit s
unfolding all_digits
all_digits_iff [] = ground arith
all_digits_iff (c ∷ s) = ground (arith, all_digits_iff s)

pub hash_offset_digits : (s : Bytes) → (matches_hash_offset s ≡ true) ↔ ((s ≢ []) × All IsDigit s)
unfolding matches_hash_offset
hash_offset_digits [] = ((λ h. cc), λ h. absurd (h.0 refl))
hash_offset_digits (c ∷ s) =
    ((λ h. ((cc), (all_digits_iff (c ∷ s)).0 h)), λ h. (all_digits_iff (c ∷ s)).1 h.1)

pub root_hash-Lacks : (s : Bytes) → matches root_hash_pattern s ≡ true → Lacks b'_' s
unfolding rejects
root_hash-Lacks s = matches-Lacks b'_' root_hash_pattern s refl

pub uuid-Lacks : (s : Bytes) → matches uuid_pattern s ≡ true → Lacks b'_' s
unfolding rejects
uuid-Lacks s = matches-Lacks b'_' uuid_pattern s refl

digits-Lacks : (s : Bytes) → All IsDigit s → Lacks b'_' s
digits-Lacks [] h = tt
digits-Lacks (c ∷ s) h = ((omega arith), digits-Lacks s h.1)

pub hash_offset-Lacks : (s : Bytes) → matches_hash_offset s ≡ true → Lacks b'_' s
hash_offset-Lacks s h = digits-Lacks s ((hash_offset_digits s).0 h).1
