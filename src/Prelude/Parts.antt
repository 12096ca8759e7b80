-- ===== src/Prelude/Parts.antt =====
-- Laws of `split` and `cut`.
use Prim.Native.Nat.{ℕ}
use mathlib.Core.Path.{◌≡◌, refl}
use mathlib.Core.Bool.{true}
use mathlib.Core.List.{List, [], ◌∷◌, ◌++◌}
use native.Mathlib.Omega.{arith}
use modelwrap.Prelude.Text.{Bytes, split_parts, split, cut, Lacks}

-- The parts, each but the first behind a separator.
abbrev pub join_rest : List Bytes → ℕ → Bytes
join_rest [] sep = []
join_rest (p ∷ ps) sep = sep ∷ (p ++ join_rest ps sep)

split_parts-join :
    (s : Bytes) (sep : ℕ) → (split_parts s sep).0 ++ join_rest (split_parts s sep).1 sep ≡ s
unfolding split_parts
split_parts-join [] sep = refl
split_parts-join (c ∷ s) sep = ground (arith, split_parts-join s sep)

-- Joining the parts gives the text back.
pub join-split :
    (s : Bytes) (sep : ℕ) (p : Bytes) (ps : List Bytes)
    → split s sep ≡ p ∷ ps
    → p ++ join_rest ps sep ≡ s
unfolding split
join-split s sep p ps h = ground (arith, split_parts-join s sep)

split_parts_last : (p : Bytes) (sep : ℕ) → Lacks sep p → split_parts p sep ≡ (p, [])
unfolding split_parts
split_parts_last [] sep h = refl
split_parts_last (c ∷ p) sep h = ground (arith, split_parts_last p sep h.1)

split_parts_first :
    (p rest : Bytes) (sep : ℕ)
    → Lacks sep p
    → split_parts (p ++ sep ∷ rest) sep ≡ (p, split rest sep)
unfolding split_parts split
split_parts_first [] rest sep h = ground arith
split_parts_first (c ∷ p) rest sep h = ground (arith, split_parts_first p rest sep h.1)

pub split_last : (p : Bytes) (sep : ℕ) → Lacks sep p → split p sep ≡ p ∷ []
unfolding split
split_last p sep h = rw (split_parts_last p sep h)

pub split_first :
    (p rest : Bytes) (sep : ℕ) → Lacks sep p → split (p ++ sep ∷ rest) sep ≡ p ∷ split rest sep
unfolding split
split_first p rest sep h = rw (split_parts_first p rest sep h)

-- The part before the first separator lacks it, and what was cut is the text.
pub cut_found :
    (s : Bytes) (sep : ℕ)
    → (cut s sep).2 ≡ true
    → Lacks sep (cut s sep).0 × ((cut s sep).0 ++ sep ∷ (cut s sep).1 ≡ s)
unfolding cut
cut_found [] sep h = cc
cut_found (c ∷ s) sep h = ground (arith, cut_found s sep)

pub cut_first :
    (p rest : Bytes) (sep : ℕ) → Lacks sep p → cut (p ++ sep ∷ rest) sep ≡ (p, rest, true)
unfolding cut
cut_first [] rest sep h = ground arith
cut_first (c ∷ p) rest sep h = ground (arith, cut_first p rest sep h.1)
