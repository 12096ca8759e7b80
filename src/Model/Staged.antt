-- ===== src/Model/Staged.antt =====
-- Staged names belong to one revision.
use modelwrap.Prelude.{
  ℕ, ◌≡◌, ◌↔◌, refl, sym, ap, ◌∙◌, Bool, true, false, ◌&&◌, [], ◌∷◌, ◌++◌, Bytes, codes, arith,
  has_prefix, contains, ok, length-append, append_assoc, get_or, drop, &&_split, lt→ltb, not,
  Bool-cases, inl, inr,
}
use mathlib.Core.Path.{subst, ap₂}
use modelwrap.Model.{dotdot, validate_pinned_model, staged_prefix, is_staged_leftover, staged_name}

-- The revision passed the gate with some name.
abbrev pub IsValidModel : Bytes → Bytes → Type 0
IsValidModel name revision = validate_pinned_model name revision ≡ ok tt

abbrev LacksDotdot : Bytes → Type 0
LacksDotdot s = contains s dotdot ≡ false

IsValidModel-LacksDotdot :
    (name revision : Bytes) → IsValidModel name revision → LacksDotdot revision
unfolding validate_pinned_model
IsValidModel-LacksDotdot name revision h = ground arith

has_prefix_split : (s p : Bytes) → has_prefix s p ≡ true → (t : Bytes) × (s ≡ p ++ t)
unfolding has_prefix
has_prefix_split s [] h = (s, refl)
has_prefix_split [] (d ∷ p) h = cc
has_prefix_split (c ∷ s) (d ∷ p) h =
    let (t, e) = has_prefix_split s p (ground arith) in (t, ground (arith, e))

has_prefix-append : (p t : Bytes) → has_prefix (p ++ t) p ≡ true
unfolding has_prefix
has_prefix-append [] t = refl
has_prefix-append (c ∷ p) t = ground (arith, has_prefix-append p t)

tail-LacksDotdot : (c : ℕ) (s : Bytes) → LacksDotdot (c ∷ s) → LacksDotdot s
unfolding contains
tail-LacksDotdot c s h = ground arith

two_dots : (c d : ℕ) (s : Bytes) → LacksDotdot (c ∷ d ∷ s) → b'.' ≡ c → b'.' ≡ d → ⊥
unfolding contains has_prefix
two_dots c d s h ec ed = ground arith

-- What stands behind the revision in a staged name.
abbrev staged_tail : Bytes → Bytes
staged_tail x = codes "..staged." ++ x

abbrev char : ℕ → Bytes → ℕ
char i s = get_or s i 0

-- Where the revisions lack "..", the first ".." of a staged name ends its revision, or stands one
-- byte before that end, and then "staged." does not follow it.
owner :
    (r q x y : Bytes)
    → LacksDotdot r
    → LacksDotdot q
    → r ++ staged_tail x ≡ q ++ staged_tail y
    → r ≡ q
owner [] [] x y hr hq e = refl
owner [] (d ∷ []) x y hr hq e = absurd (omega (arith, ap (char 2) e))
owner [] (d ∷ d' ∷ q) x y hr hq e = absurd (two_dots d d' q hq (ap (char 0) e) (ap (char 1) e))
owner (c ∷ []) [] x y hr hq e = absurd (omega (arith, ap (char 2) e))
owner (c ∷ c' ∷ r) [] x y hr hq e =
    absurd (two_dots c c' r hr (sym (ap (char 0) e)) (sym (ap (char 1) e)))
owner (c ∷ r) (d ∷ q) x y hr hq e =
    ap₂ ◌∷◌ (ap (char 0) e)
      (owner r q x y (tail-LacksDotdot c r hr) (tail-LacksDotdot d q hq) (ap (drop 1) e))

leftover_shape :
    (name revision : Bytes)
    → is_staged_leftover name revision ≡ true
    → (x : Bytes) × (name ≡ revision ++ staged_tail x)
unfolding is_staged_leftover
leftover_shape name revision h =
    let (x, e) = has_prefix_split name (staged_prefix revision) (&&_split _ _ h).0 in
    (x, e ∙ append_assoc revision (codes "..staged.") x)

-- No file is a staged leftover of two revisions that pass the gate.
pub staged_leftover_unique :
    (name n r m q : Bytes)
    → IsValidModel n r
    → IsValidModel m q
    → is_staged_leftover name r ≡ true
    → is_staged_leftover name q ≡ true
    → r ≡ q
staged_leftover_unique name n r m q vr vq hr hq =
    let (x, ex) = leftover_shape name r hr in
    let (y, ey) = leftover_shape name q hq in
    owner r q x y (IsValidModel-LacksDotdot n r vr) (IsValidModel-LacksDotdot m q vq) (sym ex ∙ ey)

staged_name-tail :
    (revision suffix rand : Bytes)
    → staged_name revision (b'.' ∷ suffix) rand
      ≡ staged_prefix revision ++ (suffix ++ (b'.' ∷ rand))
unfolding staged_name
staged_name-tail revision suffix rand =
    sym (append_assoc revision (codes "..staged.") (suffix ++ (b'.' ∷ rand)))

staged_name-leftover :
    (revision suffix rand : Bytes)
    → is_staged_leftover (staged_name revision (b'.' ∷ suffix) rand) revision ≡ true
unfolding is_staged_leftover
staged_name-leftover revision suffix rand =
    let p = staged_prefix revision in
    let t = suffix ++ (b'.' ∷ rand) in
    rw (staged_name-tail revision suffix rand) (
      rw (has_prefix-append p t)
        (lt→ltb _ _ (omega (arith, length-append p t, length-append suffix (b'.' ∷ rand)))))

-- A staged file with a dotted suffix is a leftover of the revision that it was made for, and of no
-- other revision that passes the gate.
pub staged_name_owner :
    (n r m q suffix rand : Bytes)
    → IsValidModel n r
    → IsValidModel m q
    → (is_staged_leftover (staged_name r (b'.' ∷ suffix) rand) q ≡ true) ↔ (r ≡ q)
staged_name_owner n r m q suffix rand vr vq = (
  (λ h. staged_leftover_unique _ n r m q vr vq (staged_name-leftover r suffix rand) h),
  λ e.
      subst (λ t. is_staged_leftover (staged_name r (b'.' ∷ suffix) rand) t ≡ true) e
        (staged_name-leftover r suffix rand),
)

-- A suffix of a published file: no ".." in it, and it does not go on like a staged name.
abbrev pub is_plain_suffix : Bytes → Bool
is_plain_suffix suffix = not (contains suffix dotdot) && not (has_prefix suffix (codes ".staged."))

contains_inside : (r t : Bytes) → contains (r ++ (codes ".." ++ t)) dotdot ≡ true
unfolding contains has_prefix
contains_inside [] t = refl
contains_inside (c ∷ r) t = ground (arith, contains_inside r t)

plain_suffix_lem :
    (suffix : Bytes)
    → is_plain_suffix suffix ≡ true
    → (contains suffix dotdot ≡ false) × (has_prefix suffix (codes ".staged.") ≡ false)
plain_suffix_lem suffix h = ground arith

plain_apart :
    (r q suffix y : Bytes)
    → LacksDotdot r
    → is_plain_suffix suffix ≡ true
    → r ++ suffix ≡ q ++ staged_tail y
    → ⊥
plain_apart [] q suffix y hr hs e =
    cc ((plain_suffix_lem suffix hs).0, contains_inside q (codes "staged." ++ y))
plain_apart (c ∷ r) (d ∷ q) suffix y hr hs e =
    plain_apart r q suffix y (tail-LacksDotdot c r hr) hs (ap (drop 1) e)
plain_apart (c ∷ []) [] suffix y hr hs e =
    cc ((plain_suffix_lem suffix hs).1, has_prefix-append (codes ".staged.") y)
plain_apart (c ∷ c' ∷ r) [] suffix y hr hs e =
    two_dots c c' r hr (sym (ap (char 0) e)) (sym (ap (char 1) e))

-- Deleting the staged leftovers of a revision touches no published file of any revision that passes
-- the gate.
pub published-not-leftover :
    (n r q suffix : Bytes)
    → IsValidModel n r
    → is_plain_suffix suffix ≡ true
    → is_staged_leftover (r ++ suffix) q ≡ false
published-not-leftover n r q suffix vr hs = elim (Bool-cases (is_staged_leftover (r ++ suffix) q)) [
  | inl h ↦
      let (y, e) = leftover_shape _ q h in
      absurd (plain_apart r q suffix y (IsValidModel-LacksDotdot n r vr) hs e)
  | inr h ↦ h
]
