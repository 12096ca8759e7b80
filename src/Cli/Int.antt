-- ===== src/Cli/Int.antt =====
-- `strconv.ParseInt(s, 0, 64)`, with which the package `flag` reads an integer: prefixes for the base,
-- and underscores between digits.
use modelwrap.Prelude.{
  ℕ, zero, suc, ◌+◌, ◌-◌, ◌*◌, ◌/◌, ◌%◌, ◌^◌, ◌≡◌, ◌≤◌, ◌<◌, refl, sym, ap, ◌∙◌, Bool, true, false,
  not, ◌&&◌, ◌||◌, [], ◌∷◌, Bytes, arith, ltb, leb, ◌==◌, if◌then◌else◌, Option, none, some, Result,
  ok, err, ◌>>=◌, ℤ, pos, negsuc, NumError, syntax, range, u64_mod, All, IsDigit, value,
  value-grows, itoa, itoa-leading, itoa-IsDigit, value-itoa,
}
use mathlib.Core.Path.{subst}

-- `c | ('x' - 'X')`
abbrev pub lower : ℕ → ℕ
lower c = if c / 32 % 2 == 0 then c + 32 else c

-- The value of a digit in the largest base.
abbrev pub digit_value : ℕ → Option ℕ
digit_value c =
    if leb b'0' c && leb c b'9'
    then some (c - b'0')
    else if leb b'a' (lower c) && leb (lower c) b'z'
    then some (lower c - b'a' + 10)
    else none

-- One digit of the loop: the new number, or an error.
abbrev pub scan_digit : ℕ → ℕ → ℕ → Result NumError ℕ
scan_digit base acc c = elim (digit_value c) [
  | none ↦ err syntax
  | some d ↦
      let next = (acc * base + d) % u64_mod in
      if leb base d
      then err syntax
      else if leb ((2 ^ 64 - 1) / base + 1) acc
      then err range
      else if ltb next (acc * base)
      then err range
      else ok next
]

-- The loop of `ParseUint`; the flag tells whether there was an underscore.
unfoldable pub scan_base : ℕ → ℕ → Bool → Bytes → Result NumError (ℕ × Bool)
scan_base base acc underscores [] = ok (acc, underscores)
scan_base base acc underscores (c ∷ s) = elim (c == b'_') [
  | true ↦ scan_base base acc true s
  | false ↦ scan_digit base acc c >>= λ next. scan_base base next underscores s
]

-- The base and the digits behind its prefix.
abbrev pub split_base : Bytes → ℕ × Bytes
split_base [] = (10, [])
split_base (c ∷ []) = if c == b'0' then (8, []) else (10, c ∷ [])
split_base (c ∷ p ∷ []) = if c == b'0' then (8, p ∷ []) else (10, c ∷ p ∷ [])
split_base (c ∷ p ∷ d ∷ s) =
    if not (c == b'0')
    then (10, c ∷ p ∷ d ∷ s)
    else if lower p == b'b'
    then (2, d ∷ s)
    else if lower p == b'o'
    then (8, d ∷ s)
    else if lower p == b'x'
    then (16, d ∷ s)
    else (8, p ∷ d ∷ s)

-- The character before: the start, a digit, an underscore, or another one.
pub data Before : Type 0 where
  at_start digit underscore other : Before

abbrev pub is_digit_mark : Bool → ℕ → Bool
is_digit_mark hex c =
    (leb b'0' c && leb c b'9') || (hex && leb b'a' (lower c) && leb (lower c) b'f')

-- The loop of `underscoreOK`.
unfoldable pub underscore_loop : Bool → Before → Bytes → Bool
underscore_loop hex underscore [] = false
underscore_loop hex at_start [] = true
underscore_loop hex digit [] = true
underscore_loop hex other [] = true
underscore_loop hex before (c ∷ s) = elim (is_digit_mark hex c) [
  | true ↦ underscore_loop hex digit s
  | false ↦ elim (c == b'_') [
    | true ↦ elim before [ digit ↦ underscore_loop hex underscore s | _ ↦ false ]
    | false ↦ elim before [ underscore ↦ false | _ ↦ underscore_loop hex other s ]
  ]
]

-- `underscoreOK` on a text with no sign, which is all that reaches it here.
abbrev pub underscore_ok : Bytes → Bool
underscore_ok [] = underscore_loop false at_start []
underscore_ok (c ∷ []) = underscore_loop false at_start (c ∷ [])
underscore_ok (c ∷ p ∷ s) =
    if (c == b'0') && ((lower p == b'b') || (lower p == b'o') || (lower p == b'x'))
    then underscore_loop (lower p == b'x') digit s
    else underscore_loop false at_start (c ∷ p ∷ s)

-- `ParseUint(s, 0, 64)`
unfoldable pub parse_uint_base0 : Bytes → Result NumError ℕ
unfolding scan_base underscore_loop
parse_uint_base0 [] = err syntax
parse_uint_base0 (c ∷ s) =
    let (base, body) = split_base (c ∷ s) in
    scan_base base 0 false body >>= λ r.
    if r.1 && not (underscore_ok (c ∷ s)) then err syntax else ok r.0

abbrev pub signed_base0 : Bool → ℕ → Result NumError ℤ
signed_base0 negative n =
    if negative
    then (if ltb (2 ^ 63) n then err range else ok (elim n [ zero ↦ pos 0 | suc k ↦ negsuc k ]))
    else (if leb (2 ^ 63) n then err range else ok (pos n))

unfoldable pub parse_int_base0 : Bytes → Result NumError ℤ
unfolding parse_uint_base0
parse_int_base0 [] = err syntax
parse_int_base0 (c ∷ s) =
    if c == b'+'
    then parse_uint_base0 s >>= signed_base0 false
    else if c == b'-'
    then parse_uint_base0 s >>= signed_base0 true
    else parse_uint_base0 (c ∷ s) >>= signed_base0 false

scan_base-digits :
    (acc : ℕ) (s : Bytes)
    → All IsDigit s
    → value acc s < u64_mod
    → scan_base 10 acc false s ≡ ok (value acc s, false)
unfolding scan_base
scan_base-digits acc [] h fits = refl
scan_base-digits acc (c ∷ s) h fits =
    let here = h.0 in
    let more = value-grows (acc * 10 + (c - b'0')) s in
    ground (arith, here, more, scan_base-digits (acc * 10 + (c - b'0')) s h.1)

split_base-decimal : (c : ℕ) (s : Bytes) → b'1' ≤ c → split_base (c ∷ s) ≡ (10, c ∷ s)
split_base-decimal c [] lo = ground arith
split_base-decimal c (p ∷ []) lo = ground arith
split_base-decimal c (p ∷ d ∷ s) lo = ground arith

parse_int_base0-decimal :
    (c : ℕ) (s : Bytes)
    → b'1' ≤ c
    → c ≤ b'9'
    → All IsDigit (c ∷ s)
    → value 0 (c ∷ s) < 2 ^ 63
    → parse_int_base0 (c ∷ s) ≡ ok (pos (value 0 (c ∷ s)))
unfolding parse_int_base0
parse_int_base0-decimal c s lo hi h fits =
    let minus : (c == b'-') ≡ false = ground arith in
    let plus : (c == b'+') ≡ false = ground arith in
    let small : leb (2 ^ 63) (value 0 (c ∷ s)) ≡ false = ground arith in
    rw plus (
      rw minus (
        rw (split_base-decimal c s lo)
          (rw (scan_base-digits 0 (c ∷ s) h (omega arith)) (rw small refl))))

-- An id that the launcher prints is read back.
pub parse_int_base0-itoa : (n : ℕ) → 0 < n → n < 2 ^ 63 → parse_int_base0 (itoa n) ≡ ok (pos n)
parse_int_base0-itoa n pos_n fits =
    let (c, s, e, lo, hi) = itoa-leading n pos_n in
    let v : value 0 (c ∷ s) ≡ n = sym (ap (value 0) e) ∙ value-itoa n in
    ap parse_int_base0 e
    ∙ parse_int_base0-decimal c s lo hi (subst (All IsDigit) e (itoa-IsDigit n)) (omega (arith, v))
    ∙ ap (λ k. ok (pos k)) v
