-- ===== src/Prelude/Decimal.antt =====
-- `strconv.ParseUint(s, 10, 64)`, `strconv.Atoi`, and the decimal print of `strconv.Itoa` and `%d`.
use Prim.Native.Nat.{ℕ, zero, suc, ◌+◌, ◌-◌, ◌*◌, ◌/◌, ◌%◌, ◌^◌, ◌≤◌, ◌<◌}
use mathlib.Core.Path.{sym, ◌≡◌, refl}
use mathlib.Core.Logic.{◌≢◌, ◌↔◌}
use mathlib.Core.Bool.{Bool, true, false, not, ◌&&◌}
use mathlib.Core.List.{[], ◌∷◌, cons-ne-nil}
use native.Mathlib.Decide.{dec_lt}
use native.Mathlib.Omega.{arith}
use modelwrap.Prelude.Tests.{◌==◌, ltb, leb, if◌then◌else◌}
use modelwrap.Prelude.Lists.{All}
use modelwrap.Prelude.Results.{Result, ok, err, ◌>>=◌, bind_ok}
use modelwrap.Prelude.Text.{Bytes, codes}

abbrev pub u64_mod : ℕ
u64_mod = 2 ^ 64

pub data NumError : Type 0 where
  syntax range : NumError

abbrev pub is_digit : ℕ → Bool
is_digit c = leb b'0' c && leb c b'9'

abbrev pub IsDigit : ℕ → Type 0
IsDigit c = (b'0' ≤ c) × (c ≤ b'9')

-- The number that digits spell behind `n`.
abbrev pub value : ℕ → Bytes → ℕ
value n [] = n
value n (c ∷ s) = value (n * 10 + (c - b'0')) s

-- The loop of `ParseUint`: 1844674407370955162 is its cutoff, maxUint64/10 + 1.
scan : ℕ → Bytes → Result NumError ℕ
scan acc [] = ok acc
scan acc (c ∷ s) =
    let next = (acc * 10 + (c - b'0')) % u64_mod in
    let rest = scan next s in
    if not (is_digit c)
    then err syntax
    else if leb 1844674407370955162 acc
    then err range
    else if ltb next (acc * 10)
    then err range
    else rest

unfoldable pub parse_uint : Bytes → Result NumError ℕ
unfolding scan
parse_uint [] = err syntax
parse_uint (c ∷ s) = scan 0 (c ∷ s)

-- The loop that writes digits, the last one first; each round divides by ten.
digits : ℕ → ℕ → Bytes → Bytes
digits zero n out = out
digits (suc fuel) n out =
    let more = digits fuel (n / 10) ((b'0' + n % 10) ∷ out) in if n == 0 then out else more

unfoldable pub itoa : ℕ → Bytes
unfolding digits
itoa n = if n == 0 then b'0' ∷ [] else digits n n []

pub value-grows : (acc : ℕ) (s : Bytes) → acc ≤ value acc s
value-grows acc [] = omega arith
value-grows acc (c ∷ s) = omega (arith, value-grows (acc * 10 + (c - b'0')) s)

-- What the loop returns from a number that fits.
scan_iff :
    (v acc : ℕ) (s : Bytes)
    → acc < u64_mod
    → (scan acc s ≡ ok v) ↔ (All IsDigit s × (value acc s ≡ v) × (v < u64_mod))
unfolding scan
scan_iff v acc [] fits = ground arith
scan_iff v acc (c ∷ s) fits =
    let acc' = acc * 10 + (c - b'0') in ground (arith, scan_iff v acc' s, value-grows acc' s)

-- `ParseUint` accepts one digit or more whose value fits, and returns that value.
pub parse_uint_iff :
    (s : Bytes) (v : ℕ)
    → (parse_uint s ≡ ok v) ↔ ((s ≢ []) × All IsDigit s × (v ≡ value 0 s) × (v < u64_mod))
unfolding parse_uint
parse_uint_iff [] v = ((λ h. cc), λ h. absurd (h.0 refl))
parse_uint_iff (c ∷ s) v =
    let loop = scan_iff v 0 (c ∷ s) (omega arith) in
    (
      (λ h. let (d, e, f) = loop.0 h in (cons-ne-nil c s, d, sym e, f)),
      λ (_, d, e, f). loop.1 (d, sym e, f),
    )

value-digits : (fuel n : ℕ) (out : Bytes) → n ≤ fuel → value 0 (digits fuel n out) ≡ value n out
unfolding digits
value-digits zero n out h = let e : 0 ≡ n = omega arith in rw e
value-digits (suc fuel) n out h = ground (arith, value-digits fuel (n / 10) ((b'0' + n % 10) ∷ out))

digits-IsDigit : (fuel n : ℕ) (out : Bytes) → All IsDigit out → All IsDigit (digits fuel n out)
unfolding digits
digits-IsDigit zero n out h = h
digits-IsDigit (suc fuel) n out h =
    ground (arith, digits-IsDigit fuel (n / 10) ((b'0' + n % 10) ∷ out))

digits-ne-nil : (fuel n : ℕ) (out : Bytes) → out ≢ [] → digits fuel n out ≢ []
unfolding digits
digits-ne-nil zero n out h = h
digits-ne-nil (suc fuel) n out h =
    ground (arith, digits-ne-nil fuel (n / 10) ((b'0' + n % 10) ∷ out) (cons-ne-nil _ _))

pub value-itoa : (n : ℕ) → value 0 (itoa n) ≡ n
unfolding itoa
value-itoa n = ground (arith, value-digits n n [])

pub itoa-IsDigit : (n : ℕ) → All IsDigit (itoa n)
unfolding itoa
itoa-IsDigit n = ground (arith, digits-IsDigit n n [] tt)

pub itoa-ne-nil : (n : ℕ) → itoa n ≢ []
unfolding itoa
itoa-ne-nil zero = cons-ne-nil _ _
itoa-ne-nil (suc n) =
    ground (arith, digits-ne-nil n (suc n / 10) ((b'0' + suc n % 10) ∷ []) (cons-ne-nil _ _))

pub parse_uint-itoa : (n : ℕ) → n < u64_mod → parse_uint (itoa n) ≡ ok n
parse_uint-itoa n h = (parse_uint_iff (itoa n) n).1 (
  itoa-ne-nil n,
  itoa-IsDigit n,
  (let e : n ≡ value 0 (itoa n) = omega (arith, value-itoa n) in e),
  h,
)

digits-zero : (fuel : ℕ) (out : Bytes) → digits fuel 0 out ≡ out
unfolding digits
digits-zero zero out = refl
digits-zero (suc fuel) out = refl

digits-leading :
    (fuel n : ℕ) (out : Bytes)
    → 0 < n
    → n ≤ fuel
    → (c : ℕ) × (s : Bytes) × (digits fuel n out ≡ c ∷ s) × (b'1' ≤ c) × (c ≤ b'9')
unfolding digits
digits-leading zero n out pos_n enough = absurd (omega arith)
digits-leading (suc fuel) n out pos_n enough = elim (dec_lt 0 (n / 10)) [
  | yes more ↦
      let (c, s, e, lo, hi) =
        digits-leading fuel (n / 10) ((b'0' + n % 10) ∷ out) more (omega arith) in
      let filled : (n == 0) ≡ false = ground arith in (c, s, rw filled e, lo, hi)
  | no last ↦
      let filled : (n == 0) ≡ false = ground arith in
      let gone : n / 10 ≡ 0 = omega arith in
      (
        b'0' + n % 10,
        out,
        rw filled (rw gone (digits-zero fuel ((b'0' + n % 10) ∷ out))),
        omega arith,
        omega arith,
      )
]

-- A positive number is printed without a leading zero.
pub itoa-leading :
    (n : ℕ) → 0 < n → (c : ℕ) × (s : Bytes) × (itoa n ≡ c ∷ s) × (b'1' ≤ c) × (c ≤ b'9')
unfolding itoa
itoa-leading n pos_n =
    let (c, s, e, lo, hi) = digits-leading n n [] pos_n (omega arith) in
    let filled : (n == 0) ≡ false = ground arith in (c, s, rw filled e, lo, hi)

itoa_example : itoa 18014398509481984 ≡ codes "18014398509481984"
unfolding itoa
itoa_example = refl

-- `negsuc n` is -(n + 1).
pub data ℤ : Type 0 where
  pos : ℕ → ℤ
  negsuc : ℕ → ℤ

abbrev negate : ℕ → ℤ
negate zero = pos 0
negate (suc n) = negsuc n

-- A magnitude as an int64.
abbrev signed : Bool → ℕ → Result NumError ℤ
signed negative n =
    if negative
    then (if leb n (2 ^ 63) then ok (negate n) else err range)
    else (if ltb n (2 ^ 63) then ok (pos n) else err range)

magnitude : Bool → Bytes → Result NumError ℤ
magnitude negative s = parse_uint s >>= signed negative

-- `strconv.Atoi`: an optional sign before the digits.
unfoldable pub atoi : Bytes → Result NumError ℤ
unfolding magnitude
atoi [] = err syntax
atoi (c ∷ s) =
    if c == b'-'
    then magnitude true s
    else if c == b'+'
    then magnitude false s
    else magnitude false (c ∷ s)

pub atoi-digits :
    (c : ℕ) (s : Bytes) (n : ℕ)
    → IsDigit c
    → n < 2 ^ 63
    → parse_uint (c ∷ s) ≡ ok n
    → atoi (c ∷ s) ≡ ok (pos n)
unfolding atoi
atoi-digits c s n hc hn e =
    let plus : (c == b'+') ≡ false = ground arith in
    let minus : (c == b'-') ≡ false = ground arith in
    let fits : ltb n (2 ^ 63) ≡ true = ground arith in rw minus (rw plus (rw e (rw fits)))

signed-fits : (negative : Bool) (m n : ℕ) → signed negative m ≡ ok (pos n) → n < 2 ^ 63
signed-fits true zero n h = ground arith
signed-fits true (suc m) n h = ground arith
signed-fits false m n h = ground arith

magnitude-fits :
    (negative : Bool) (s : Bytes) (n : ℕ) → magnitude negative s ≡ ok (pos n) → n < 2 ^ 63
unfolding magnitude
magnitude-fits negative s n h =
    let (m, e, _) = bind_ok (signed negative) (parse_uint s) (pos n) h in signed-fits negative m n e

-- What `Atoi` returns is an int.
pub atoi-fits : (s : Bytes) (n : ℕ) → atoi s ≡ ok (pos n) → n < 2 ^ 63
unfolding atoi
atoi-fits [] n h = cc
atoi-fits (c ∷ s) n h =
    ground
      (arith, magnitude-fits true s n, magnitude-fits false s n, magnitude-fits false (c ∷ s) n)
