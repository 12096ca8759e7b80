-- ===== src/Prelude/Text.antt =====
-- Go strings as lists of bytes, and the functions of the packages `strings` and `bytes` that the
-- program calls.
use Prim.Native.Char.{code}
use Prim.Native.Nat.{ℕ}
use Prim.Native.String.{String}
use mathlib.Core.Path.{◌≡◌, refl}
use mathlib.Core.Logic.{◌≢◌, ◌↔◌, inl, inr}
use mathlib.Core.Bool.{Bool, true, false, ◌&&◌, ◌||◌}
use mathlib.Core.List.{List, [], ◌∷◌}
use native.Mathlib.Omega.{arith}
use modelwrap.Prelude.Tests.{◌==◌, if◌then◌else◌, Bool-cases}
use modelwrap.Prelude.Lists.{All}

abbrev pub Bytes : Type 0
Bytes = List ℕ

-- The bytes of an ASCII literal.
abbrev pub codes : String → Bytes
codes String.[] = []
codes (String.◌∷◌ c s) = code c ∷ codes s

unfoldable pub beq : Bytes → Bytes → Bool
beq [] [] = true
beq [] (d ∷ t) = false
beq (c ∷ s) [] = false
beq (c ∷ s) (d ∷ t) = c == d && beq s t

pub beq_iff : (s t : Bytes) → (beq s t ≡ true) ↔ (s ≡ t)
unfolding beq
beq_iff [] [] = ground arith
beq_iff [] (d ∷ t) = ground arith
beq_iff (c ∷ s) [] = ground arith
beq_iff (c ∷ s) (d ∷ t) = ground (arith, beq_iff s t)

pub beq_refl : (s : Bytes) → beq s s ≡ true
beq_refl s = (beq_iff s s).1 refl

pub beq-ne : (s t : Bytes) → s ≢ t → beq s t ≡ false
beq-ne s t ne = elim (Bool-cases (beq s t)) [ inl e ↦ absurd (ne ((beq_iff s t).0 e)) | inr e ↦ e ]

-- `strings.HasPrefix(s, prefix)`
unfoldable pub has_prefix : Bytes → Bytes → Bool
has_prefix s [] = true
has_prefix [] (d ∷ p) = false
has_prefix (c ∷ s) (d ∷ p) = c == d && has_prefix s p

-- `strings.Contains(s, sub)`
unfoldable pub contains : Bytes → Bytes → Bool
unfolding has_prefix
contains [] sub = has_prefix [] sub
contains (c ∷ s) sub = has_prefix (c ∷ s) sub || contains s sub

-- `bytes.IndexByte(s, c) >= 0`
unfoldable pub has_byte : ℕ → Bytes → Bool
has_byte c [] = false
has_byte c (d ∷ s) = d == c || has_byte c s

-- `strings.ContainsAny(s, chars)`
unfoldable pub contains_any : Bytes → Bytes → Bool
unfolding has_byte
contains_any [] chars = false
contains_any (c ∷ s) chars = has_byte c chars || contains_any s chars

-- `strings.Split(s, string(sep))`: the part before the first separator, and the other parts.
unfoldable pub split_parts : Bytes → ℕ → Bytes × List Bytes
split_parts [] sep = ([], [])
split_parts (c ∷ s) sep =
    let (part, rest) = split_parts s sep in if c == sep then ([], part ∷ rest) else (c ∷ part, rest)

unfoldable pub split : Bytes → ℕ → List Bytes
unfolding split_parts
split s sep = let (part, rest) = split_parts s sep in part ∷ rest

-- `strings.Cut(s, string(sep))`: before, after, found.
unfoldable pub cut : Bytes → ℕ → Bytes × Bytes × Bool
cut [] sep = ([], [], false)
cut (c ∷ s) sep =
    let (before, after, found) = cut s sep in
    if c == sep then ([], s, true) else (c ∷ before, after, found)

abbrev pub Lacks : ℕ → Bytes → Type 0
Lacks b = All (λ c. c ≢ b)

pub has_byte-false : (b : ℕ) (s : Bytes) → (has_byte b s ≡ false) ↔ Lacks b s
unfolding has_byte
has_byte-false b [] = ground arith
has_byte-false b (c ∷ s) = ground (arith, has_byte-false b s)
