-- ===== src/Crypt/Inverse.antt =====
-- Decrypt undoes Encrypt.
use mathlib.Core.Path.{ap₂}
use modelwrap.Prelude.{
  ℕ, zero, suc, ◌*◌, ◌/◌, ◌%◌, ◌≡◌, ap, ◌∙◌, Bool, true, false, [], ◌∷◌, ◌++◌, Bytes, arith, length,
  take, drop, take-append, drop-append, take-append-drop, ok, ◌==◌, some,
}
use modelwrap.Crypt.{Xts, sector_iv, transform_from, transform, new_cipher, in_memory}
use modelwrap.Crypt.Sectors.{
  transform_from-suc, transform_from-zero, length-transform_from, length-transform, length-first,
  length-others,
}

pub new_cipher_ok :
    (x : Xts) (key : Bytes) (c : x.Cipher)
    → length key ≡ 64
    → x.new_cipher key ≡ some c
    → new_cipher x key ≡ ok c
unfolding new_cipher
new_cipher_ok x key c hk hc =
    let right : (length key == 64) ≡ true = ground arith in rw right (rw (hc, new_cipher))

module _ (x : Xts) (c : x.Cipher) where
  decrypt-encrypt_from :
      (base_unit n i : ℕ) (buf : Bytes)
      → length buf ≡ n * 4096
      → transform_from x c true base_unit n i (transform_from x c false base_unit n i buf) ≡ buf
  decrypt-encrypt_from base_unit zero i [] h = transform_from-zero x c true base_unit i _
  decrypt-encrypt_from base_unit zero i (d ∷ buf) h = absurd (omega arith)
  decrypt-encrypt_from base_unit (suc n) i buf h =
      let iv = sector_iv base_unit i in
      let one = x.encrypt c (take 4096 buf) iv in
      let two = transform_from x c false base_unit n (suc i) (drop 4096 buf) in
      let l = x.length-encrypt c (take 4096 buf) iv (length-first n buf h) in
      ap (transform_from x c true base_unit (suc n) i)
        (transform_from-suc x c false base_unit n i buf)
      ∙ transform_from-suc x c true base_unit n i (one ++ two)
      ∙ ap₂ (λ s t. x.decrypt c s iv ++ transform_from x c true base_unit n (suc i) t)
          (take-append one two 4096 l) (drop-append one two 4096 l)
      ∙ ap₂ ◌++◌ (x.decrypt-encrypt c (take 4096 buf) iv (length-first n buf h))
          (decrypt-encrypt_from base_unit n (suc i) (drop 4096 buf) (length-others n buf h))
      ∙ take-append-drop 4096 buf

  pub decrypt-encrypt :
      (base_unit : ℕ) (buf : Bytes)
      → length buf % 4096 ≡ 0
      → transform x c (transform x c buf base_unit false) base_unit true ≡ buf
  unfolding transform
  decrypt-encrypt base_unit buf h =
      let n = length buf / 4096 in
      ap (λ k. transform_from x c true base_unit k 0 (transform_from x c false base_unit n 0 buf))
        (omega (arith, length-transform_from x c false base_unit n 0 buf (omega arith)))
      ∙ decrypt-encrypt_from base_unit n 0 buf (omega arith)

module _ (x : Xts) where
  pub in_memory_ok :
      (key buf : Bytes) (decrypt : Bool) (c : x.Cipher)
      → length key ≡ 64
      → length buf % 4096 ≡ 0
      → x.new_cipher key ≡ some c
      → in_memory x key buf decrypt ≡ ok (transform x c buf 0 decrypt)
  unfolding in_memory
  in_memory_ok key buf decrypt c hk hb hc =
      let aligned : (length buf % 4096 == 0) ≡ true = ground arith in
      rw aligned (rw (new_cipher_ok x key c hk hc))

  -- With a key of 64 bytes, every sector-aligned buffer is encrypted to one of its length, and the
  -- decryption of that gives the buffer back.
  pub in_memory-inverse :
      (key buf : Bytes)
      → length key ≡ 64
      → length buf % 4096 ≡ 0
      → (sealed : Bytes) × (in_memory x key buf false ≡ ok sealed)
        × (length sealed ≡ length buf)
        × (in_memory x key sealed true ≡ ok buf)
  in_memory-inverse key buf hk hb =
      let (c, hc) = x.takes_key key hk in
      let l = length-transform x c false 0 buf hb in
      (
        transform x c buf 0 false,
        in_memory_ok key buf false c hk hb hc,
        l,
        in_memory_ok key (transform x c buf 0 false) true c hk (omega (arith, l)) hc
            ∙ ap ok (decrypt-encrypt x c 0 buf hb),
      )

  -- A key of any other length, or data that is not aligned, is refused.
  pub in_memory-refuses :
      (key buf out : Bytes) (decrypt : Bool)
      → in_memory x key buf decrypt ≡ ok out
      → (length key ≡ 64) × (length buf % 4096 ≡ 0)
  unfolding in_memory new_cipher
  in_memory-refuses key buf out decrypt h = ground arith
