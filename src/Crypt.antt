-- ===== src/Crypt.antt =====
-- crypt/crypt.go: the dm-crypt encryption of the payload, in memory and as a stream.
pub mod Sectors
pub mod Inverse
pub mod Streaming
pub mod Files
use modelwrap.Prelude.{
  ℕ, zero, suc, ◌+◌, ◌-◌, ◌*◌, ◌/◌, ◌%◌, ◌^◌, ◌≡◌, Bool, true, false, not, List, [], ◌∷◌, ◌++◌,
  Bytes, length, take, drop, replicate, Option, none, some, Result, ok, err, ◌>>=◌, ◌>>◌, refuse_if,
  ltb, ◌==◌, ◌&&◌, if◌then◌else◌, u64_mod, ℤ, pos, negsuc,
}

-- golang.org/x/crypto/xts over AES, for the keys of 64 bytes and the data units of 4096 bytes with
-- which it is called.
pub record Xts : Type 1 where
  pub Cipher : Type 0
  pub new_cipher : Bytes → Option Cipher
  pub encrypt : Cipher → Bytes → ℕ → Bytes
  pub decrypt : Cipher → Bytes → ℕ → Bytes
  pub takes_key : (key : Bytes) → length key ≡ 64 → (c : Cipher) × (new_cipher key ≡ some c)
  pub length-encrypt :
      (c : Cipher) (s : Bytes) (iv : ℕ) → length s ≡ 4096 → length (encrypt c s iv) ≡ 4096
  pub length-decrypt :
      (c : Cipher) (s : Bytes) (iv : ℕ) → length s ≡ 4096 → length (decrypt c s iv) ≡ 4096
  pub decrypt-encrypt :
      (c : Cipher) (s : Bytes) (iv : ℕ) → length s ≡ 4096 → decrypt c (encrypt c s iv) iv ≡ s

abbrev pub emwp_key_bytes : ℕ
emwp_key_bytes = 64

abbrev pub sector_size : ℕ
sector_size = 4096

-- SectorSize / 512
abbrev pub iv_sector_ratio : ℕ
iv_sector_ratio = 8

abbrev pub stream_chunk_bytes : ℕ
stream_chunk_bytes = 1024 * 4096

pub data CryptError : Type 0 where
  bad_key_size unaligned_data unaligned_ciphertext : ℕ → CryptError
  cipher_refused read_failed write_failed : CryptError

-- The IV of sector `i` of a buffer that starts at sector `base_unit` of the volume.
unfoldable pub sector_iv : ℕ → ℕ → ℕ
sector_iv base_unit i = (base_unit + i) % u64_mod * iv_sector_ratio % u64_mod

-- Where a read ends: at the end of the source, by an error that is io.ErrUnexpectedEOF, or by another.
pub data SourceEnd : Type 0 where
  at_eof at_unexpected_eof at_error : SourceEnd

-- What `stream` returns, beside what it wrote to `dst`.
pub record StreamEnd : Type 0 where
  pub output : Bytes
  pub written : ℤ
  pub error : Option CryptError

-- The int64 with these 64 bits.
abbrev pub int64 : ℕ → ℤ
int64 n = if ltb n (2 ^ 63) then pos n else negsuc (u64_mod - 1 - n)

-- The buffer up to a whole sector; the rest of the last sector is cleared.
unfoldable pub pad_sector : Bytes → Bytes
pad_sector buf =
    if length buf % sector_size == 0
    then buf
    else buf ++ replicate (sector_size - length buf % sector_size) 0

-- `dst.Write`, where the writer takes that many more writes, or any number.
abbrev pub take_write : Option ℕ → Option (Option ℕ)
take_write none = some none
take_write (some zero) = none
take_write (some (suc k)) = some (some k)

abbrev pub is_error : SourceEnd → Bool
is_error at_eof = false
is_error at_unexpected_eof = false
is_error at_error = true

-- A round returns, or goes on with other values of the loop's variables.
pub data Round : Type 0 where
  finished : StreamEnd → Round
  going : Option ℕ → ℕ → Bytes → ℕ → Round

-- What follows a round: the return, or the next round.
abbrev pub stream_next : (Option ℕ → ℕ → Bytes → ℕ → Option StreamEnd) → Round → Option StreamEnd
stream_next next (finished e) = some e
stream_next next (going writes base_unit out written) = next writes base_unit out written

module _ (x : Xts) where
  abbrev pub cipher_sector : x.Cipher → Bool → Bytes → ℕ → Bytes
  cipher_sector c true s iv = x.decrypt c s iv
  cipher_sector c false s iv = x.encrypt c s iv

  unfoldable pub new_cipher : Bytes → Result CryptError x.Cipher
  new_cipher key =
      refuse_if (not (length key == emwp_key_bytes)) (bad_key_size (length key))
      >> elim (x.new_cipher key) [ none ↦ err cipher_refused | some c ↦ ok c ]

  -- `n` sectors of `buf`, the first of which is sector `i` of the buffer.
  unfoldable pub transform_from : x.Cipher → Bool → ℕ → ℕ → ℕ → Bytes → Bytes
  transform_from c decrypt base_unit zero i buf = []
  transform_from c decrypt base_unit (suc n) i buf =
      cipher_sector c decrypt (take sector_size buf) (sector_iv base_unit i)
      ++ transform_from c decrypt base_unit n (suc i) (drop sector_size buf)

  -- `transform` on a sector-aligned buffer; all its callers pass one.
  unfoldable pub transform : x.Cipher → Bytes → ℕ → Bool → Bytes
  unfolding transform_from
  transform c buf base_unit decrypt =
      transform_from c decrypt base_unit (length buf / sector_size) 0 buf

  -- `Encrypt` and `Decrypt`.
  unfoldable pub in_memory : Bytes → Bytes → Bool → Result CryptError Bytes
  in_memory key data_in decrypt = do
    refuse_if (not (length data_in % sector_size == 0)) (unaligned_data (length data_in))
    c ← new_cipher key
    ok (transform c data_in 0 decrypt)

  -- One round of the loop of `stream`, on the part of the buffer that `io.ReadFull` filled.
  -- `written` is the 64 bits of the counter. `short` tells that the source ended before the buffer was full.
  unfoldable pub stream_round :
      x.Cipher → Bool → SourceEnd → Bool → Bytes → Option ℕ → ℕ → Bytes → ℕ → Round
  unfolding transform
  stream_round c decrypt source_end short buf writes base_unit out written =
      let full = pad_sector buf in
      let out' = out ++ transform c full base_unit decrypt in
      let written' = (written + length full) % u64_mod in
      let base_unit' = (base_unit + length full / sector_size) % u64_mod in
      if short && is_error source_end
      then finished (record { output = out; written = int64 written; error = some read_failed })
      else if length buf == 0
      then (if short
          then finished (record { output = out; written = int64 written; error = none })
          else going writes base_unit out written)
      else if decrypt && not (length buf % sector_size == 0)
      then finished (record {
        output = out;
        written = int64 written;
        error = some (unaligned_ciphertext (length buf % sector_size));
      })
      else elim (take_write writes) [
        | none ↦
            finished (record { output = out; written = int64 written; error = some write_failed })
        | some writes' ↦
            if short
            then finished (record { output = out'; written = int64 written'; error = none })
            else going writes' base_unit' out' written'
      ]

  -- The loop of `stream`: the source holds `src` and then ends. `chunk` is the size of the buffer.
  unfoldable pub stream_loop :
      ℕ → x.Cipher → Bool → SourceEnd → ℕ → Bytes → Option ℕ → ℕ → Bytes → ℕ → Option StreamEnd
  unfolding stream_round
  stream_loop chunk c decrypt source_end zero src writes base_unit out written = none
  stream_loop chunk c decrypt source_end (suc fuel) src writes base_unit out written =
      stream_next (stream_loop chunk c decrypt source_end fuel (drop chunk src)) (
        stream_round c decrypt source_end (ltb (length src) chunk) (take chunk src) writes base_unit
          out written)

  -- Each round but the last takes a whole chunk from the source: one round more is enough.
  unfoldable pub stream : Bytes → Bool → SourceEnd → Bytes → Option ℕ → Option StreamEnd
  stream key decrypt source_end src writes = elim (new_cipher key) [
    | err e ↦ some (record { output = []; written = pos 0; error = some e })
    | ok c ↦
        stream_loop stream_chunk_bytes c decrypt source_end (suc (length src / stream_chunk_bytes))
          src writes 0 [] 0
  ]
