-- ===== src/Crypt/Sectors.antt =====
-- Sector by sector: where a buffer is cut does not matter, and no two sectors share an IV.
use modelwrap.Prelude.{
  ℕ, zero, suc, ◌+◌, ◌*◌, ◌/◌, ◌%◌, ◌^◌, ◌≡◌, ◌<◌, refl, sym, ap, ◌∙◌, Bool, true, false, [], ◌∷◌,
  ◌++◌, Bytes, arith, length, take, drop, length-append, append_assoc, u64_mod, length-take,
  length-drop, take-append_left, drop-append_left,
}
use mathlib.Core.Path.{ap₂}
use modelwrap.Crypt.{Xts, sector_iv, transform_from, transform, cipher_sector}

-- Two sectors below 2^61 never share an IV.
pub sector_iv-injective :
    (base_unit i j : ℕ)
    → base_unit + i < 2 ^ 61
    → base_unit + j < 2 ^ 61
    → sector_iv base_unit i ≡ sector_iv base_unit j
    → i ≡ j
unfolding sector_iv
sector_iv-injective base_unit i j hi hj e = omega arith

sector_iv-shift :
    (base_unit m i : ℕ) → sector_iv ((base_unit + m) % u64_mod) i ≡ sector_iv base_unit (m + i)
unfolding sector_iv
sector_iv-shift base_unit m i = omega arith

length-cipher_sector :
    (x : Xts) (c : x.Cipher) (decrypt : Bool) (s : Bytes) (iv : ℕ)
    → length s ≡ 4096
    → length (cipher_sector x c decrypt s iv) ≡ 4096
length-cipher_sector x c true s iv h = x.length-decrypt c s iv h
length-cipher_sector x c false s iv h = x.length-encrypt c s iv h

pub length-first : (n : ℕ) (buf : Bytes) → length buf ≡ suc n * 4096 → length (take 4096 buf) ≡ 4096
length-first n buf h = omega (arith, length-take 4096 buf)

pub length-others :
    (n : ℕ) (buf : Bytes) → length buf ≡ suc n * 4096 → length (drop 4096 buf) ≡ n * 4096
length-others n buf h = omega (arith, length-drop 4096 buf)

module _ (x : Xts) (c : x.Cipher) (decrypt : Bool) where
  -- The first sector, done.
  abbrev front : ℕ → ℕ → Bytes → Bytes
  front base_unit i buf = cipher_sector x c decrypt (take 4096 buf) (sector_iv base_unit i)

  pub transform_from-suc :
      (base_unit n i : ℕ) (buf : Bytes)
      → transform_from x c decrypt base_unit (suc n) i buf
        ≡ front base_unit i buf ++ transform_from x c decrypt base_unit n (suc i) (drop 4096 buf)
  unfolding transform_from
  transform_from-suc base_unit n i buf = refl

  pub transform_from-zero :
      (base_unit i : ℕ) (buf : Bytes) → transform_from x c decrypt base_unit zero i buf ≡ []
  unfolding transform_from
  transform_from-zero base_unit i buf = refl

  pub length-transform_from :
      (base_unit n i : ℕ) (buf : Bytes)
      → length buf ≡ n * 4096
      → length (transform_from x c decrypt base_unit n i buf) ≡ n * 4096
  length-transform_from base_unit zero i buf h = ap length (transform_from-zero base_unit i buf)
  length-transform_from base_unit (suc n) i buf h =
      let rest = transform_from x c decrypt base_unit n (suc i) (drop 4096 buf) in
      ap length (transform_from-suc base_unit n i buf)
      ∙ length-append (front base_unit i buf) rest
      ∙ omega (
        arith,
        length-transform_from base_unit n (suc i) (drop 4096 buf) (length-others n buf h),
        length-cipher_sector x c decrypt (take 4096 buf) (sector_iv base_unit i)
            (length-first n buf h),
      )

  -- A later part of the volume, counted from its own first sector.
  transform_from-shift :
      (base_unit m n i j : ℕ) (buf : Bytes)
      → m + i ≡ j
      → transform_from x c decrypt ((base_unit + m) % u64_mod) n i buf
        ≡ transform_from x c decrypt base_unit n j buf
  transform_from-shift base_unit m zero i j buf e = unfold transform_from in refl
  transform_from-shift base_unit m (suc n) i j buf e =
      transform_from-suc ((base_unit + m) % u64_mod) n i buf
      ∙ ap₂ ◌++◌
          (ap (cipher_sector x c decrypt (take 4096 buf))
            (sector_iv-shift base_unit m i ∙ ap (sector_iv base_unit) e))
          (transform_from-shift base_unit m n (suc i) (suc j) (drop 4096 buf) (omega arith))
      ∙ sym (transform_from-suc base_unit n j buf)

  -- Two aligned parts one behind the other.
  transform_from-append :
      (base_unit m n k i j : ℕ) (a b : Bytes)
      → length a ≡ m * 4096
      → m + n ≡ k
      → i + m ≡ j
      → transform_from x c decrypt base_unit k i (a ++ b)
        ≡ transform_from x c decrypt base_unit m i a ++ transform_from x c decrypt base_unit n j b
  transform_from-append base_unit zero n k i j [] b h ek ej =
      ap₂ (λ r s. transform_from x c decrypt base_unit r s b) (omega arith) (omega arith)
      ∙ ap (λ s. s ++ transform_from x c decrypt base_unit n j b)
          (sym (transform_from-zero base_unit i []))
  transform_from-append base_unit zero n k i j (d ∷ a) b h ek ej = absurd (omega arith)
  transform_from-append base_unit (suc m) n zero i j a b h ek ej = absurd (omega arith)
  transform_from-append base_unit (suc m) n (suc k) i j a b h ek ej =
      let one = front base_unit i a in
      let two = transform_from x c decrypt base_unit m (suc i) (drop 4096 a) in
      let three = transform_from x c decrypt base_unit n j b in
      transform_from-suc base_unit k i (a ++ b)
      ∙ ap₂
          (λ s t.
            cipher_sector x c decrypt s (sector_iv base_unit i)
            ++ transform_from x c decrypt base_unit k (suc i) t)
          (take-append_left a b 4096 (omega arith)) (drop-append_left a b 4096 (omega arith))
      ∙ ap (λ t. one ++ t)
          (transform_from-append base_unit m n k (suc i) j (drop 4096 a) b (length-others m a h)
            (omega arith) (omega arith))
      ∙ sym (append_assoc one two three)
      ∙ ap (λ s. s ++ three) (sym (transform_from-suc base_unit m i a))

  -- Where an aligned buffer is cut does not matter, if the base unit moves on with the cut.
  pub transform-append :
      (base_unit : ℕ) (a b : Bytes)
      → length a % 4096 ≡ 0
      → transform x c (a ++ b) base_unit decrypt
        ≡ transform x c a base_unit decrypt
          ++ transform x c b ((base_unit + length a / 4096) % u64_mod) decrypt
  unfolding transform
  transform-append base_unit a b ha =
      let m = length a / 4096 in
      let n = length b / 4096 in
      transform_from-append base_unit m n (length (a ++ b) / 4096) 0 m a b (omega arith)
        (omega (arith, length-append a b)) (omega arith)
      ∙ ap (λ t. transform_from x c decrypt base_unit m 0 a ++ t)
          (sym (transform_from-shift base_unit m n 0 m b (omega arith)))

  pub length-transform :
      (base_unit : ℕ) (buf : Bytes)
      → length buf % 4096 ≡ 0
      → length (transform x c buf base_unit decrypt) ≡ length buf
  unfolding transform
  length-transform base_unit buf h =
      length-transform_from base_unit (length buf / 4096) 0 buf (omega arith) ∙ omega arith
