-- ===== src/Crypt/Streaming.antt =====
-- The stream against the whole buffer: chunks, padding and errors.
use mathlib.Core.Path.{ap₂}
use native.Mathlib.Decide.{dec_lt}
use native.Mathlib.Nat.{suc-mul}
use modelwrap.Prelude.{
  ℕ, zero, suc, ◌+◌, ◌-◌, ◌*◌, ◌/◌, ◌%◌, ◌≡◌, ◌≤◌, ◌<◌, refl, sym, ap, ◌∙◌, Bool, true, false, [],
  ◌∷◌, ◌++◌, Bytes, arith, length, take, drop, length-append, append_assoc, append-nil,
  length-replicate, length-take, length-drop, take-all, take-append-drop, Option, none, some,
  u64_mod, ◌==◌, ltb, lt→ltb, le→ltb, replicate, not, ◌&&◌, Bool-cases, inl, inr,
}
use modelwrap.Crypt.{
  Xts, StreamEnd, int64, stream_next, at_eof, SourceEnd, Round, finished, going, pad_sector,
  transform, stream_round, stream_loop,
}
use modelwrap.Crypt.Sectors.{transform-append}

pub length-pad_sector : (s : Bytes) → length (pad_sector s) ≡ (length s + 4095) / 4096 * 4096
unfolding pad_sector
length-pad_sector s = elim (Bool-cases (length s % 4096 == 0)) [
  | inl whole ↦ rw whole (ground arith)
  | inr part ↦ rw part (
      let gap = 4096 - length s % 4096 in
      ground (arith, length-append s (replicate gap 0), length-replicate {A = ℕ} gap 0))
]

pub pad_sector_aligned : (s : Bytes) → length s % 4096 ≡ 0 → pad_sector s ≡ s
unfolding pad_sector
pad_sector_aligned s h = ground arith

pad_sector-append : (a b : Bytes) → length a % 4096 ≡ 0 → pad_sector (a ++ b) ≡ a ++ pad_sector b
unfolding pad_sector
pad_sector-append a b h =
    let e : length (a ++ b) % 4096 ≡ length b % 4096 = omega (arith, length-append a b) in
    rw e (elim (Bool-cases (length b % 4096 == 0)) [
      | inl whole ↦ rw whole
      | inr part ↦ rw part (append_assoc a b _)
    ])

module _ (x : Xts) (c : x.Cipher) (decrypt : Bool) where
  -- An input that the stream does not refuse: any to encrypt, whole sectors to decrypt.
  abbrev pub Accepted : Bytes → Type 0
  Accepted s = (decrypt && not (length s % 4096 == 0)) ≡ false

  round_empty :
      (base_unit written : ℕ) (out : Bytes)
      → stream_round x c decrypt at_eof true [] none base_unit out written
        ≡ finished (record { output = out; written = int64 written; error = none })
  unfolding stream_round
  round_empty base_unit written out = refl

  round_short :
      (buf : Bytes) (base_unit written : ℕ) (out : Bytes)
      → 0 < length buf
      → Accepted buf
      → stream_round x c decrypt at_eof true buf none base_unit out written
        ≡ finished (record {
          output = out ++ transform x c (pad_sector buf) base_unit decrypt;
          written = int64 ((written + length (pad_sector buf)) % u64_mod);
          error = none;
        })
  unfolding stream_round
  round_short buf base_unit written out pos h =
      let filled : (length buf == 0) ≡ false = ground arith in rw filled (rw h)

  round_full :
      (source_end : SourceEnd) (buf : Bytes) (base_unit written : ℕ) (out : Bytes)
      → 0 < length buf
      → length buf % 4096 ≡ 0
      → stream_round x c decrypt source_end false buf none base_unit out written
        ≡ going none
            ((base_unit + length buf / 4096) % u64_mod)
            (out ++ transform x c buf base_unit decrypt)
            ((written + length buf) % u64_mod)
  unfolding stream_round
  round_full source_end buf base_unit written out pos whole =
      let filled : (length buf == 0) ≡ false = ground arith in
      let accepted : Accepted buf = ground arith in
      rw filled (rw accepted (rw (pad_sector_aligned buf whole)))

  -- What the loop returns when nothing fails.
  abbrev good : ℕ → Bytes → Bytes → ℕ → StreamEnd
  good base_unit src out written = record {
    output = out ++ transform x c (pad_sector src) base_unit decrypt;
    written = int64 (written + length (pad_sector src));
    error = none;
  }

  pub stream_loop_step :
      (chunk fuel base_unit written : ℕ) (source_end : SourceEnd) (src out : Bytes) (r : Round)
      → stream_round x c decrypt source_end
          (ltb (length src) chunk)
          (take chunk src)
          none
          base_unit
          out
          written
        ≡ r
      → stream_loop x chunk c decrypt source_end (suc fuel) src none base_unit out written
        ≡ stream_next (stream_loop x chunk c decrypt source_end fuel (drop chunk src)) r
  unfolding stream_loop
  stream_loop_step chunk fuel base_unit written source_end src out r e =
      ap (stream_next (stream_loop x chunk c decrypt source_end fuel (drop chunk src))) e

  end_path :
      {o o' : Bytes} {w w' : ℕ}
      → o ≡ o'
      → w ≡ w'
      → ◌≡◌ {A = Option StreamEnd}
          (some (record { output = o; written = int64 w; error = none }))
          (some (record { output = o'; written = int64 w'; error = none }))
  end_path p q = λ i. some (record { output = p i; written = int64 (q i); error = none })

  transform_nil : (base_unit : ℕ) → transform x c [] base_unit decrypt ≡ []
  unfolding transform
  transform_nil base_unit = refl

  loop_short :
      (chunk fuel base_unit written : ℕ) (src out : Bytes)
      → length src < chunk
      → Accepted src
      → written + length (pad_sector src) < u64_mod
      → stream_loop x chunk c decrypt at_eof (suc fuel) src none base_unit out written
        ≡ some (good base_unit src out written)
  loop_short chunk fuel base_unit written [] out lt h fits =
      let empty : pad_sector [] ≡ [] = pad_sector_aligned [] refl in
      stream_loop_step chunk fuel base_unit written at_eof [] out _ (
        ap₂ (λ b t. stream_round x c decrypt at_eof b t none base_unit out written)
          (lt→ltb 0 chunk lt) (take-all chunk [] (omega arith))
        ∙ round_empty base_unit written out)
      ∙ end_path
          (sym (append-nil out)
            ∙ ap (λ t. out ++ t)
                (sym (ap (λ s. transform x c s base_unit decrypt) empty ∙ transform_nil base_unit)))
          (omega (arith, ap length empty))
  loop_short chunk fuel base_unit written (d ∷ s) out lt h fits =
      stream_loop_step chunk fuel base_unit written at_eof (d ∷ s) out _ (
        ap₂ (λ b t. stream_round x c decrypt at_eof b t none base_unit out written)
          (lt→ltb (length (d ∷ s)) chunk lt) (take-all chunk (d ∷ s) (omega arith))
        ∙ round_short (d ∷ s) base_unit written out (omega arith) h)
      ∙ end_path refl (omega arith)

  pub loop_full :
      (chunk fuel base_unit written : ℕ) (source_end : SourceEnd) (src out : Bytes)
      → chunk ≤ length src
      → 0 < chunk
      → chunk % 4096 ≡ 0
      → stream_loop x chunk c decrypt source_end (suc fuel) src none base_unit out written
        ≡ stream_loop x chunk c decrypt source_end fuel
            (drop chunk src)
            none
            ((base_unit + chunk / 4096) % u64_mod)
            (out ++ transform x c (take chunk src) base_unit decrypt)
            ((written + chunk) % u64_mod)
  loop_full chunk fuel base_unit written source_end src out le pos whole =
      let l : length (take chunk src) ≡ chunk = omega (arith, length-take chunk src) in
      stream_loop_step chunk fuel base_unit written source_end src out _ (
        ap (λ b. stream_round x c decrypt source_end b (take chunk src) none base_unit out written)
          (le→ltb (length src) chunk le)
        ∙ round_full source_end (take chunk src) base_unit written out (omega (arith, l))
            (omega (arith, l)))
      ∙ ap₂
          (λ m n.
            stream_loop x chunk c decrypt source_end fuel (drop chunk src) none
              ((base_unit + m / 4096) % u64_mod)
              (out ++ transform x c (take chunk src) base_unit decrypt) ((written + n) % u64_mod))
          l l

  good_full :
      (chunk base_unit written : ℕ) (src out : Bytes)
      → chunk ≤ length src
      → chunk % 4096 ≡ 0
      → written + length (pad_sector src) < u64_mod
      → ◌≡◌ {A = Option StreamEnd}
          (some (
            good
              ((base_unit + chunk / 4096) % u64_mod)
              (drop chunk src)
              (out ++ transform x c (take chunk src) base_unit decrypt)
              ((written + chunk) % u64_mod)))
          (some (good base_unit src out written))
  good_full chunk base_unit written src out le whole fits =
      let a = take chunk src in
      let b = drop chunk src in
      let l : length a ≡ chunk = omega (arith, length-take chunk src) in
      let aligned : length a % 4096 ≡ 0 = omega (arith, l) in
      let padded : pad_sector src ≡ a ++ pad_sector b =
        ap pad_sector (sym (take-append-drop chunk src)) ∙ pad_sector-append a b aligned in
      let size = ap length padded ∙ length-append a (pad_sector b) in
      end_path
        (append_assoc out (transform x c a base_unit decrypt) _
          ∙ ap (λ t. out ++ t)
              (ap
                  (λ m.
                    transform x c a base_unit decrypt
                    ++ transform x c (pad_sector b) ((base_unit + m / 4096) % u64_mod) decrypt)
                  (sym l)
                ∙ sym (transform-append x c decrypt base_unit a (pad_sector b) aligned)
                ∙ ap (λ s. transform x c s base_unit decrypt) (sym padded)))
        (omega (arith, size, l))

  -- The loop gives what the transform of the whole padded source gives, whatever the chunk size.
  pub stream_loop-transform :
      (sectors fuel base_unit written : ℕ) (src out : Bytes)
      → 0 < sectors
      → length src < fuel * (sectors * 4096)
      → Accepted src
      → written + length (pad_sector src) < u64_mod
      → stream_loop x (sectors * 4096) c decrypt at_eof fuel src none base_unit out written
        ≡ some (good base_unit src out written)
  stream_loop-transform sectors zero base_unit written src out pos enough h fits =
      absurd (omega arith)
  stream_loop-transform sectors (suc fuel) base_unit written src out pos enough h fits =
      let chunk = sectors * 4096 in
      elim (dec_lt (length src) chunk) [
        | yes short ↦ loop_short chunk fuel base_unit written src out short h fits
        | no long ↦
            let size = length-pad_sector src in
            let rest = length-pad_sector (drop chunk src) in
            let l = length-drop chunk src in
            loop_full chunk fuel base_unit written at_eof src out (omega arith) (omega arith)
              (omega arith)
            ∙ stream_loop-transform sectors fuel _ _ (drop chunk src) _ pos
                (omega (arith, l, suc-mul fuel chunk))
                (let same : length (drop chunk src) % 4096 ≡ length src % 4096 = omega (arith, l) in
                  rw same h)
                (omega (arith, l, rest, size))
            ∙ good_full chunk base_unit written src out (omega arith) (omega arith) fits
      ]
