-- ===== src/Build/Reference.antt =====
-- The reference that buildMWP prints is one that ParseRef reads, and TrimSpace leaves it alone.
use modelwrap.Prelude.{
  ℕ, zero, suc, ◌+◌, ◌/◌, ◌%◌, ◌≡◌, ◌<◌, refl, ap, Bool, true, List, [], ◌∷◌, ◌++◌, Bytes, arith,
  length, All, All-append, IsDigit, trim_space, trim_space_graphic, trim_space-nil, is_graphic,
  replicate, ◌==◌, &&_split,
}
use modelwrap.Ref.{ArtifactRef, matches, is_hex, root_hash_pattern, uuid_pattern, to_string}
use modelwrap.Ref.Grammar.{IsValid, hash_offset_digits}
use modelwrap.Verity.{hex_encode, hex_digit}

abbrev Graphic : ℕ → Type 0
Graphic c = is_graphic c ≡ true

-- Each class of the pattern holds graphic bytes only.
abbrev AreGraphic : List (ℕ → Bool) → Type 0
AreGraphic [] = Unit
AreGraphic (p ∷ ps) = ((c : ℕ) → p c ≡ true → Graphic c) × AreGraphic ps

hex-Graphic : (c : ℕ) → is_hex c ≡ true → Graphic c
hex-Graphic c h = ground arith

dash-Graphic : (c : ℕ) → (c == b'-') ≡ true → Graphic c
dash-Graphic c h = ground arith

hexes_graphic :
    (n : ℕ) (ps : List (ℕ → Bool)) → AreGraphic ps → AreGraphic (replicate n is_hex ++ ps)
hexes_graphic zero ps h = h
hexes_graphic (suc n) ps h = (hex-Graphic, hexes_graphic n ps h)

matches-Graphic :
    (ps : List (ℕ → Bool)) (s : Bytes) → AreGraphic ps → matches ps s ≡ true → All Graphic s
unfolding matches
matches-Graphic ps [] g h = tt
matches-Graphic [] (c ∷ s) g h = cc
matches-Graphic (p ∷ ps) (c ∷ s) g h =
    let (here, there) = &&_split (p c) (matches ps s) h in
    (g.0 c here, matches-Graphic ps s g.1 there)

uuid_graphic : AreGraphic uuid_pattern
uuid_graphic =
    let hex = hex-Graphic in
    let dash = dash-Graphic in
    (
      hex,
      (
        hex,
        (
          hex,
          (
            hex,
            (
              hex,
              (
                hex,
                (
                  hex,
                  (
                    hex,
                    (
                      dash,
                      (
                        hex,
                        (
                          hex,
                          (
                            hex,
                            (
                              hex,
                              (
                                dash,
                                (
                                  hex,
                                  (
                                    hex,
                                    (
                                      hex,
                                      (
                                        hex,
                                        (
                                          dash,
                                          (
                                            hex,
                                            (
                                              hex,
                                              (
                                                hex,
                                                (
                                                  hex,
                                                  (
                                                    dash,
                                                    (
                                                      hex,
                                                      (
                                                        hex,
                                                        (
                                                          hex,
                                                          (
                                                            hex,
                                                            (
                                                            hex,
                                                            (
                                                            hex,
                                                            (
                                                            hex,
                                                            (hex, (hex, (hex, (hex, (hex, tt))))),
                                                            ),
                                                            ),
                                                            ),
                                                          ),
                                                        ),
                                                      ),
                                                    ),
                                                  ),
                                                ),
                                              ),
                                            ),
                                          ),
                                        ),
                                      ),
                                    ),
                                  ),
                                ),
                              ),
                            ),
                          ),
                        ),
                      ),
                    ),
                  ),
                ),
              ),
            ),
          ),
        ),
      ),
    )

root_graphic : AreGraphic root_hash_pattern
root_graphic = hexes_graphic 64 [] tt

digits-Graphic : (s : Bytes) → All IsDigit s → All Graphic s
digits-Graphic [] h = tt
digits-Graphic (c ∷ s) h = ((let d = h.0 in ground arith), digits-Graphic s h.1)

under-Graphic : Graphic b'_'
under-Graphic = refl

to_string-Graphic : (r : ArtifactRef) → IsValid r → All Graphic (to_string r)
unfolding to_string
to_string-Graphic r (a, b, c) =
    All-append Graphic r.root_hash _ (matches-Graphic root_hash_pattern _ root_graphic a) (
      under-Graphic,
      All-append Graphic r.hash_offset _ (digits-Graphic _ ((hash_offset_digits _).0 b).1)
          (under-Graphic, matches-Graphic uuid_pattern _ uuid_graphic c),
    )

-- A text that is not empty has a last byte.
last-Graphic :
    (c : ℕ) (s : Bytes)
    → All Graphic (c ∷ s)
    → (t : Bytes) × (b : ℕ) × (c ∷ s ≡ t ++ b ∷ []) × Graphic b
last-Graphic c [] h = ([], c, refl, h.0)
last-Graphic c (d ∷ s) h =
    let (t, b, e, g) = last-Graphic d s h.1 in (c ∷ t, b, ap (λ r. c ∷ r) e, g)

pub trim_space-Graphic : (s : Bytes) → All Graphic s → trim_space s ≡ s
trim_space-Graphic [] h = trim_space-nil
trim_space-Graphic (c ∷ s) h =
    let (t, b, e, g) = last-Graphic c s h in trim_space_graphic c s b t e h.0 g

pub trim_space-to_string : (r : ArtifactRef) → IsValid r → trim_space (to_string r) ≡ to_string r
trim_space-to_string r v = trim_space-Graphic (to_string r) (to_string-Graphic r v)

hex_digit-is_hex : (n : ℕ) → n < 16 → is_hex (hex_digit n) ≡ true
hex_digit-is_hex n h = ground arith

pub hex_encode-matches :
    (n : ℕ) (s : Bytes)
    → length s ≡ n
    → All (λ b. b < 256) s
    → matches (replicate (n + n) is_hex) (hex_encode s) ≡ true
unfolding hex_encode matches
hex_encode-matches zero [] l h = refl
hex_encode-matches zero (c ∷ s) l h = absurd (omega (arith, l))
hex_encode-matches (suc n) [] l h = absurd (omega (arith, l))
hex_encode-matches (suc n) (c ∷ s) l h =
    let twice : suc n + suc n ≡ suc (suc (n + n)) = omega arith in
    let here = h.0 in
    rw twice (
      rw (hex_digit-is_hex (c / 16) (omega arith)) (
        rw (hex_digit-is_hex (c % 16) (omega arith))
          (hex_encode-matches n s (omega (arith, l)) h.1)))
