-- ===== src/Crypt/Files.antt =====
-- EncryptStream and DecryptStream as the packer calls them, on whole files.
use mathlib.Core.Path.{ap₂}
use native.Mathlib.Decide.{dec_lt}
use native.Mathlib.Nat.{suc-mul}
use modelwrap.Prelude.{
  ℕ, zero, suc, ◌+◌, ◌*◌, ◌/◌, ◌%◌, ◌^◌, ◌≡◌, ◌<◌, ◌≤◌, ltb, Option, pos, refl, sym, ap, ◌∙◌, Bool,
  true, false, [], ◌++◌, Bytes, arith, length, take, drop, ◌≢◌, none, some, Result, ok, u64_mod,
  ◌==◌, lt→ltb, take-all, length-drop, not, ◌&&◌,
}
use modelwrap.Crypt.{
  Xts, StreamEnd, Round, int64, stream_next, going, at_eof, at_unexpected_eof, at_error, SourceEnd,
  finished, pad_sector, transform, in_memory, stream_round, stream_loop, stream, read_failed,
  unaligned_ciphertext, CryptError,
}
use modelwrap.Crypt.Sectors.{length-transform}
use modelwrap.Crypt.Inverse.{new_cipher_ok, in_memory_ok, decrypt-encrypt}
use modelwrap.Crypt.Streaming.{
  stream_loop-transform, stream_loop_step, loop_full, length-pad_sector, pad_sector_aligned,
}

-- The return of a stream that has written all of `out`.
abbrev pub all_written : Bytes → StreamEnd
all_written out = record { output = out; written = pos (length out); error = none }

ok_injective : {a b : Bytes} → ◌≡◌ {A = Result CryptError Bytes} (ok a) (ok b) → a ≡ b
ok_injective h = cc

module _ (x : Xts) where
  stream-loop :
      (key : Bytes) (decrypt : Bool) (source_end : SourceEnd) (src : Bytes) (c : x.Cipher)
      → length key ≡ 64
      → x.new_cipher key ≡ some c
      → stream x key decrypt source_end src none
        ≡ stream_loop x
            (1024 * 4096)
            c
            decrypt
            source_end
            (suc (length src / (1024 * 4096)))
            src
            none
            0
            []
            0
  unfolding stream
  stream-loop key decrypt source_end src c hk hc = rw (new_cipher_ok x key c hk hc, stream)

  -- With a key of 64 bytes, on a source of at most 2^63 - 4096 bytes that ends without an error (and
  -- is aligned, to be decrypted), the stream writes what the in-memory routine gives for the padded
  -- input, and reports its length.
  pub stream-in_memory :
      (key src : Bytes) (decrypt : Bool)
      → length key ≡ 64
      → (decrypt && not (length src % 4096 == 0)) ≡ false
      → length src + 4096 ≤ 2 ^ 63
      → (out : Bytes) × (stream x key decrypt at_eof src none ≡ some (all_written out))
        × (in_memory x key (pad_sector src) decrypt ≡ ok out)
  stream-in_memory key src decrypt hk h fits =
      let (c, hc) = x.takes_key key hk in
      let size = length-pad_sector src in
      let l = length-transform x c decrypt 0 (pad_sector src) (omega (arith, size)) in
      (
        transform x c (pad_sector src) 0 decrypt,
        stream-loop key decrypt at_eof src c hk hc
            ∙ stream_loop-transform x c decrypt 1024 (suc (length src / (1024 * 4096))) 0 0 src []
                (omega arith) (omega arith) h (omega (arith, size))
            ∙ ap
                (λ n. some (record {
                  output = transform x c (pad_sector src) 0 decrypt;
                  written = n;
                  error = none;
                }))
                (ground (arith, l, size, fits)),
        in_memory_ok x key (pad_sector src) decrypt c hk (omega (arith, size)) hc,
      )

  -- With a key of 64 bytes, encrypting a file below 2^62 bytes as a stream writes whole sectors,
  -- and decrypting what was written gives the file back, padded with zeros to a whole sector, and
  -- the file itself if it was aligned.
  pub stream-inverse :
      (key src : Bytes)
      → length key ≡ 64
      → length src < 2 ^ 62
      → (sealed : Bytes) × (stream x key false at_eof src none ≡ some (all_written sealed))
        × (length sealed ≡ (length src + 4095) / 4096 * 4096)
        × (stream x key true at_eof sealed none ≡ some (all_written (pad_sector src)))
        × (length src % 4096 ≡ 0 → pad_sector src ≡ src)
  stream-inverse key src hk fits =
      let (c, hc) = x.takes_key key hk in
      let size = length-pad_sector src in
      let (sealed, out, mem) = stream-in_memory key src false hk refl (omega arith) in
      let plain = pad_sector src in
      let sealed_is : transform x c plain 0 false ≡ sealed =
        ok_injective (sym (in_memory_ok x key plain false c hk (omega (arith, size)) hc) ∙ mem) in
      let l : length sealed ≡ length plain =
        sym (ap length sealed_is) ∙ length-transform x c false 0 plain (omega (arith, size)) in
      let (back, out', mem') =
        stream-in_memory key sealed true hk (ground (arith, l, size)) (omega (arith, l, size)) in
      let back_is : back ≡ plain = ok_injective (
        sym mem'
        ∙ ap (λ s. in_memory x key s true) (pad_sector_aligned sealed (omega (arith, l, size)))
        ∙ ap (λ s. in_memory x key s true) (sym sealed_is)
        ∙ in_memory_ok x key (transform x c plain 0 false) true c hk
            (omega (arith, l, size, ap length sealed_is)) hc
        ∙ ap ok (decrypt-encrypt x c 0 plain (omega (arith, size)))) in
      (
        sealed,
        out,
        l ∙ size,
        out' ∙ ap (λ s. some (all_written s)) back_is,
        λ h. pad_sector_aligned src h,
      )

  round_unaligned :
      (c : x.Cipher) (buf out : Bytes) (b w tail : ℕ)
      → length buf % 4096 ≡ tail
      → tail ≢ 0
      → stream_round x c true at_eof true buf none b out w
        ≡ finished
            (record { output = out; written = int64 w; error = some (unaligned_ciphertext tail) })
  unfolding stream_round
  round_unaligned c buf out b w tail ht odd =
      let filled : (length buf == 0) ≡ false = ground arith in
      let partial : (length buf % 4096 == 0) ≡ false = ground arith in
      rw filled (rw partial (rw ht))

  round_read_failed :
      (c : x.Cipher) (decrypt : Bool) (buf out : Bytes) (b w : ℕ)
      → stream_round x c decrypt at_error true buf none b out w
        ≡ finished (record { output = out; written = int64 w; error = some read_failed })
  unfolding stream_round
  round_read_failed c decrypt buf out b w = refl

  -- A stream of full chunks whose end is refused: the error of the last round is returned.
  loop_refused :
      (sectors fuel base_unit written : ℕ) (c : x.Cipher) (decrypt : Bool) (source_end : SourceEnd)
      (e : CryptError) (tail : ℕ)
      → 0 < sectors
      → ((buf out : Bytes) (b w : ℕ)
          → length buf % 4096 ≡ tail
          → length buf < sectors * 4096
          → stream_round x c decrypt source_end true buf none b out w
            ≡ finished (record { output = out; written = int64 w; error = some e }))
      → (src out : Bytes) → length src % 4096 ≡ tail
      → length src < fuel * (sectors * 4096)
      → (end : StreamEnd) × (stream_loop x
            (sectors * 4096)
            c
            decrypt
            source_end
            fuel
            src
            none
            base_unit
            out
            written
          ≡ some end)
        × (end.error ≡ some e)
  loop_refused sectors zero base_unit written c decrypt source_end e tail some_sectors last src out
        ht enough =
      absurd (omega arith)
  loop_refused sectors (suc fuel) base_unit written c decrypt source_end e tail some_sectors last
        src out ht enough =
      let chunk = sectors * 4096 in
      elim (dec_lt (length src) chunk) [
        | yes short ↦ (
          record { output = out; written = int64 written; error = some e },
          stream_loop_step x c decrypt chunk fuel base_unit written source_end src out _ (
              ap₂ (λ b t. stream_round x c decrypt source_end b t none base_unit out written)
                (lt→ltb (length src) chunk short) (take-all chunk src (omega arith))
              ∙ last src out base_unit written ht short),
          refl,
        )
        | no long ↦
            let l = length-drop chunk src in
            let (end, returns, failed) =
              loop_refused sectors fuel ((base_unit + chunk / 4096) % u64_mod)
                ((written + chunk) % u64_mod) c decrypt source_end e tail some_sectors last
                (drop chunk src) (out ++ transform x c (take chunk src) base_unit decrypt)
                (omega (arith, l)) (omega (arith, l, suc-mul fuel chunk)) in
            (
              end,
              loop_full x c decrypt chunk fuel base_unit written source_end src out (omega arith)
                    (omega arith) (omega arith)
                  ∙ returns,
              failed,
            )
      ]

  -- With a key of 64 bytes and a writer that does not fail, a ciphertext with a partial sector at
  -- its end is refused with the size of that part.
  pub decrypt_stream-unaligned :
      (key src : Bytes)
      → length key ≡ 64
      → length src % 4096 ≢ 0
      → (end : StreamEnd) × (stream x key true at_eof src none ≡ some end)
        × (end.error ≡ some (unaligned_ciphertext (length src % 4096)))
  decrypt_stream-unaligned key src hk odd =
      let (c, hc) = x.takes_key key hk in
      let (end, e, failed) =
        loop_refused 1024 (suc (length src / (1024 * 4096))) 0 0 c true at_eof
          (unaligned_ciphertext (length src % 4096)) (length src % 4096) (omega arith)
          (λ buf out b w ht lt. round_unaligned c buf out b w (length src % 4096) ht odd) src []
          refl (omega arith) in
      (end, stream-loop key true at_eof src c hk hc ∙ e, failed)

  stream_next-ext :
      (f g : Option ℕ → ℕ → Bytes → ℕ → Option StreamEnd) (r : Round)
      → ((writes : Option ℕ) (b : ℕ) (out : Bytes) (w : ℕ) → f writes b out w ≡ g writes b out w)
      → stream_next f r ≡ stream_next g r
  stream_next-ext f g (finished e) h = refl
  stream_next-ext f g (going writes b out w) h = h writes b out w

  loop_unexpected_eof :
      (chunk fuel : ℕ) (c : x.Cipher) (decrypt : Bool) (src : Bytes) (writes : Option ℕ) (b : ℕ)
      (out : Bytes) (w : ℕ)
      → stream_loop x chunk c decrypt at_unexpected_eof fuel src writes b out w
        ≡ stream_loop x chunk c decrypt at_eof fuel src writes b out w
  unfolding stream_loop stream_round
  loop_unexpected_eof chunk zero c decrypt src writes b out w = refl
  loop_unexpected_eof chunk (suc fuel) c decrypt src writes b out w =
      stream_next-ext _ _
        (stream_round x c decrypt at_eof (ltb (length src) chunk) (take chunk src) writes b out w)
        (loop_unexpected_eof chunk fuel c decrypt (drop chunk src))

  -- With a key of 64 bytes and a writer that does not fail, a source that fails with an error other
  -- than io.ErrUnexpectedEOF is reported as failed, whatever it held. One that fails with
  -- io.ErrUnexpectedEOF is treated as one that ends: the result is the same.
  pub stream-read_failed :
      (key src : Bytes) (decrypt : Bool)
      → length key ≡ 64
      → (end : StreamEnd) × (stream x key decrypt at_error src none ≡ some end)
        × (end.error ≡ some read_failed)
        × (stream x key decrypt at_unexpected_eof src none ≡ stream x key decrypt at_eof src none)
  stream-read_failed key src decrypt hk =
      let (c, hc) = x.takes_key key hk in
      let (end, e, failed) =
        loop_refused 1024 (suc (length src / (1024 * 4096))) 0 0 c decrypt at_error read_failed
          (length src % 4096) (omega arith)
          (λ buf out b w ht lt. round_read_failed c decrypt buf out b w) src [] refl
          (omega arith) in
      (
        end,
        stream-loop key decrypt at_error src c hk hc ∙ e,
        failed,
        stream-loop key decrypt at_unexpected_eof src c hk hc
            ∙ loop_unexpected_eof (1024 * 4096) (suc (length src / (1024 * 4096))) c decrypt src
                none 0 [] 0
            ∙ sym (stream-loop key decrypt at_eof src c hk hc),
      )
