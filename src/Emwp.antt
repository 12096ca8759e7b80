-- ===== src/Emwp.antt =====
-- modelwrap.go, DeriveKey, and wrap/wrap.go, encryptEMWP, encryptPayload, VerifyEMWP and
-- decryptPayload: the GPT image around the encrypted payload. An operation takes the bytes of its
-- input and returns the file that it leaves; a device that fails is not modelled.
pub mod Inverse
use modelwrap.Prelude.{
  ℕ, true, false, ◌+◌, ◌-◌, ◌*◌, ◌/◌, not, List, [], ◌∷◌, ◌++◌, Bytes, codes, length, ltb, ◌==◌,
  if◌then◌else◌, Option, none, some, Result, ok, err, ◌>>=◌, ◌>>◌, refuse_if, map_err,
}
use modelwrap.Ref.{ArtifactRef, artifact_id}
use modelwrap.Disk.{File, write_at}
use modelwrap.Disk.Tabulate.{tabulate}
use modelwrap.Crypt.{Xts, StreamEnd, CryptError, at_eof, stream}
use modelwrap.Verity.{Sha256}
use modelwrap.Build.{VerifyError, parse_info_file, verify_mwp}

abbrev pub emwp_master_key_bytes : ℕ
emwp_master_key_bytes = 64

abbrev pub gpt_sector_size : ℕ
gpt_sector_size = 512

abbrev pub emwp_partition_start_sector : ℕ
emwp_partition_start_sector = 2048

abbrev pub emwp_gpt_trailing_sectors : ℕ
emwp_gpt_trailing_sectors = 40

-- crypto/hkdf over SHA-256: `Key(secret, salt, info, keyLength)`.
pub record Hkdf : Type 0 where
  pub key : Bytes → Bytes → Bytes → ℕ → Option Bytes

-- sgdisk: a new partition table with one partition from a first to a last sector, of a disk and a
-- partition GUID, or a failure.
pub record Sgdisk : Type 0 where
  pub run : Bytes → Bytes → ℕ → ℕ → File → Option File

pub data EmwpError : Type 0 where
  bad_master_key : ℕ → EmwpError
  hkdf_failed sgdisk_failed : EmwpError
  crypt_failed : CryptError → EmwpError
  verify_failed : VerifyError → EmwpError

-- `DeriveKey`
unfoldable pub derive_key : Hkdf → Bytes → ArtifactRef → Result EmwpError Bytes
derive_key k master_key ref = do
  refuse_if (not (length master_key == emwp_master_key_bytes)) (bad_master_key (length master_key))
  elim (k.key master_key (artifact_id ref) (codes "tinfoil/emwp/dm-crypt-key/v1") 64) [
    | none ↦ err hkdf_failed
    | some key ↦ ok key
  ]

-- What a call of the stream leaves in its writer, or the error that it returns.
abbrev pub stream_output : StreamEnd → Result EmwpError Bytes
stream_output e = elim e.error [ none ↦ ok e.output | some failed ↦ err (crypt_failed failed) ]

-- The stream always ends; the first clause is never taken.
abbrev pub stream_result : Option StreamEnd → Result EmwpError Bytes
stream_result none = ok []
stream_result (some e) = stream_output e

-- The image's layout, by the size of the payload.
abbrev pub encrypted_size : ℕ → ℕ
encrypted_size size = (size + 4096 - 1) / 4096 * 4096

abbrev pub end_sector : ℕ → ℕ
end_sector size = emwp_partition_start_sector + encrypted_size size / gpt_sector_size - 1

abbrev pub total_sectors : ℕ → ℕ
total_sectors size = end_sector size + 1 + emwp_gpt_trailing_sectors

abbrev pub part_offset : ℕ
part_offset = emwp_partition_start_sector * gpt_sector_size

-- `os.Truncate` of the empty staged file.
abbrev pub blank : ℕ → File
blank size = record { size = size; byte = λ _. 0 }

-- The bytes of an `io.SectionReader`: up to `n` from `off`, as far as the file goes.
unfoldable pub section : File → ℕ → ℕ → Bytes
section f off n =
    let there = f.size - off in tabulate (if ltb there n then there else n) (λ i. f.byte (off + i))

module _ (x : Xts) where
  -- `encryptPayload`: the writes of the stream follow one another from the partition's start.
  unfoldable pub encrypt_payload : File → Bytes → Bytes → Result EmwpError File
  encrypt_payload img mwp dm_key = do
    sealed ← stream_result (stream x dm_key false at_eof mwp none)
    ok (write_at img part_offset sealed)

  -- `encryptEMWP` of the bytes of an MWP file: the image that is renamed into place.
  unfoldable pub encrypt_emwp :
      Hkdf → (Bytes → Bytes) → Sgdisk → Bytes → ArtifactRef → Bytes → Result EmwpError File
  encrypt_emwp k uuid_v5_url sgdisk mwp ref master_key = do
    dm_key ← derive_key k master_key ref
    elim (sgdisk.run (uuid_v5_url (ref.root_hash ++ codes "-emwp-disk")) ref.uuid
        emwp_partition_start_sector (end_sector (length mwp))
        (blank (total_sectors (length mwp) * gpt_sector_size))) [
          | none ↦ err sgdisk_failed
          | some img ↦ encrypt_payload img mwp dm_key
        ]

  -- `decryptPayload`: the plaintext file. A section of negative size reads on to the end of the file.
  unfoldable pub decrypt_payload : File → ℕ → Bytes → Result EmwpError Bytes
  unfolding section
  decrypt_payload img emwp_size dm_key =
      let part_size =
        if ltb emwp_size (part_offset + emwp_gpt_trailing_sectors * gpt_sector_size)
        then img.size - part_offset
        else emwp_size - part_offset - emwp_gpt_trailing_sectors * gpt_sector_size in
      stream_result (stream x dm_key true at_eof (section img part_offset part_size) none)

  -- `VerifyEMWP`: the plaintext that it recovers, and the arguments with which it is verified.
  unfoldable pub verify_emwp :
      Sha256 → Hkdf → File → Bytes → Bytes → Bytes → Bytes → Result EmwpError (Bytes × List Bytes)
  verify_emwp h k img plain_file info master_key model = do
    ref ← map_err verify_failed (parse_info_file info)
    dm_key ← derive_key k master_key ref
    plain ← decrypt_payload img img.size dm_key
    args ← map_err verify_failed (verify_mwp h plain_file info model)
    ok (plain, args)
