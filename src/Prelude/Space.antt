-- ===== src/Prelude/Space.antt =====
-- `strings.TrimSpace`: the runes for which `unicode.IsSpace` holds, by their UTF-8 bytes.
use Prim.Native.Nat.{ℕ, zero, suc}
use mathlib.Core.Path.{◌≡◌, refl, sym, ap, ◌∙◌}
use mathlib.Core.Bool.{Bool, true, false, ◌&&◌, ◌||◌}
use mathlib.Core.Option.{Option, none, some}
use mathlib.Core.List.{[], ◌∷◌, ◌++◌, reverse, reverse-append, reverse-reverse}
use native.Mathlib.Omega.{arith}
use modelwrap.Prelude.Tests.{◌==◌, ltb, leb, if◌then◌else◌}
use modelwrap.Prelude.Lists.{length}
use modelwrap.Prelude.Text.{Bytes}

-- '\t', '\n', '\v', '\f', '\r', ' '
abbrev pub is_ascii_space : ℕ → Bool
is_ascii_space c = (leb 9 c && leb c 13) || c == 32

-- U+0085, U+00A0
abbrev is_space2 : ℕ → ℕ → Bool
is_space2 a b = a == 0xc2 && (b == 0x85 || b == 0xa0)

-- U+1680, U+2000 to U+200A, U+2028, U+2029, U+202F, U+205F, U+3000
abbrev is_space3 : ℕ → ℕ → ℕ → Bool
is_space3 a b c =
    (a == 0xe1 && b == 0x9a && c == 0x80)
    || (a == 0xe2
        && b == 0x80
        && ((leb 0x80 c && leb c 0x8a) || c == 0xa8 || c == 0xa9 || c == 0xaf))
    || (a == 0xe2 && b == 0x81 && c == 0x9f)
    || (a == 0xe3 && b == 0x80 && c == 0x80)

-- The text behind one leading space.
abbrev after_space3 : (ℕ → ℕ → ℕ → Bool) → Bytes → Option Bytes
after_space3 test (a ∷ b ∷ c ∷ s) = if test a b c then some s else none
after_space3 test _ = none

abbrev after_space2 : (ℕ → ℕ → Bool) → (ℕ → ℕ → ℕ → Bool) → Bytes → Option Bytes
after_space2 test test3 (a ∷ b ∷ s) = if test a b then some s else after_space3 test3 (a ∷ b ∷ s)
after_space2 test test3 _ = none

after_space : (ℕ → ℕ → Bool) → (ℕ → ℕ → ℕ → Bool) → Bytes → Option Bytes
after_space test test3 [] = none
after_space test test3 (a ∷ s) =
    if is_ascii_space a then some s else after_space2 test test3 (a ∷ s)

-- Each round drops one space, so the length is enough fuel.
drop_spaces : (ℕ → ℕ → Bool) → (ℕ → ℕ → ℕ → Bool) → ℕ → Bytes → Bytes
unfolding after_space
drop_spaces test test3 zero s = s
drop_spaces test test3 (suc n) s = elim (after_space test test3 s) [
  | none ↦ s
  | some rest ↦ drop_spaces test test3 n rest
]

unfoldable pub trim_left : Bytes → Bytes
unfolding drop_spaces
trim_left s = drop_spaces is_space2 is_space3 (length s) s

backwards : Bytes → Bytes
backwards s = reverse s

abbrev back2 : ℕ → ℕ → Bool
back2 b a = is_space2 a b

abbrev back3 : ℕ → ℕ → ℕ → Bool
back3 c b a = is_space3 a b c

-- From the right: the same runes, their bytes read backwards.
unfoldable pub trim_right : Bytes → Bytes
unfolding drop_spaces backwards
trim_right s = backwards (drop_spaces back2 back3 (length s) (backwards s))

unfoldable pub trim_space : Bytes → Bytes
trim_space s = trim_right (trim_left s)

-- A printable ASCII byte.
abbrev pub is_graphic : ℕ → Bool
is_graphic c = ltb 32 c && ltb c 127

module _ (test : ℕ → ℕ → Bool) (test3 : ℕ → ℕ → ℕ → Bool) where
  after_space2_graphic :
      (a : ℕ) (s : Bytes)
      → ((b : ℕ) → test a b ≡ false)
      → ((b c : ℕ) → test3 a b c ≡ false)
      → after_space2 test test3 (a ∷ s) ≡ none
  after_space2_graphic a [] h h3 = refl
  after_space2_graphic a (b ∷ []) h h3 = rw (h b)
  after_space2_graphic a (b ∷ c ∷ s) h h3 = rw (h b) (rw (h3 b c))

  drop_spaces_graphic :
      (n a : ℕ) (s : Bytes)
      → is_graphic a ≡ true
      → ((b : ℕ) → test a b ≡ false)
      → ((b c : ℕ) → test3 a b c ≡ false)
      → drop_spaces test test3 n (a ∷ s) ≡ a ∷ s
  unfolding drop_spaces
  drop_spaces_graphic zero a s g h h3 = refl
  drop_spaces_graphic (suc n) a s g h h3 =
      let plain : is_ascii_space a ≡ false = ground arith in
      rw (plain, drop_spaces) (rw (after_space2_graphic a s h h3))

backwards_snoc : (t : Bytes) (b : ℕ) → backwards (t ++ b ∷ []) ≡ b ∷ backwards t
unfolding backwards
backwards_snoc t b = reverse-append t (b ∷ [])

backwards_twice : (t : Bytes) → backwards (backwards t) ≡ t
unfolding backwards
backwards_twice t = reverse-reverse t

trim_left_graphic : (a : ℕ) (s : Bytes) → is_graphic a ≡ true → trim_left (a ∷ s) ≡ a ∷ s
unfolding trim_left
trim_left_graphic a s g =
    drop_spaces_graphic is_space2 is_space3 (length (a ∷ s)) a s g (λ c. ground arith)
      (λ c d. ground arith)

trim_right_graphic :
    (t : Bytes) (b : ℕ) → is_graphic b ≡ true → trim_right (t ++ b ∷ []) ≡ t ++ b ∷ []
unfolding trim_right
trim_right_graphic t b g =
    ap (λ r. backwards (drop_spaces back2 back3 (length (t ++ b ∷ [])) r)) (backwards_snoc t b)
    ∙ ap backwards (
        drop_spaces_graphic back2 back3 (length (t ++ b ∷ [])) b (backwards t) g (λ c. ground arith)
          (λ c d. ground arith))
    ∙ ap backwards (sym (backwards_snoc t b))
    ∙ backwards_twice _

-- A text between two graphic bytes is left alone.
pub trim_space_graphic :
    (a : ℕ) (s : Bytes) (b : ℕ) (t : Bytes)
    → a ∷ s ≡ t ++ b ∷ []
    → is_graphic a ≡ true
    → is_graphic b ≡ true
    → trim_space (a ∷ s) ≡ a ∷ s
unfolding trim_space
trim_space_graphic a s b t e ga gb =
    rw (trim_left_graphic a s ga) (rw e (trim_right_graphic t b gb))

pub trim_space-nil : trim_space [] ≡ []
unfolding trim_left trim_right trim_space
trim_space-nil = refl
