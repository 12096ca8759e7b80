-- ===== src/Tests/Payload.antt =====
-- Examples for the encrypted payload and the image around it.
use modelwrap.Prelude.{
  List, ◌∷◌, codes, ℕ, ◌+◌, ◌*◌, ◌≡◌, ◌≤◌, ◌<◌, ◌⊎◌, refl, [], Bytes, arith, length, replicate, ok,
  none, some, true, false,
}
use modelwrap.Disk.{File}
use modelwrap.Crypt.{
  in_memory, stream, pad_sector, at_eof, at_unexpected_eof, at_error, StreamEnd, read_failed,
}
use modelwrap.Crypt.Files.{all_written, stream-in_memory, stream-inverse, stream-read_failed}
use modelwrap.Emwp.{
  verify_emwp, Hkdf, Sgdisk, derive_key, end_sector, total_sectors, part_offset, blank,
  encrypt_emwp, decrypt_payload,
}
use modelwrap.Emwp.Inverse.{verify_emwp-encrypt_emwp, IsTable, decrypt_payload-encrypt_emwp}
use modelwrap.Ref.{to_string}
use modelwrap.Ref.RoundTrip.{parse_ref_iff}
use modelwrap.Verity.{veritysetup_args}
use modelwrap.Build.{parse_info_file, verify_mwp}
use modelwrap.Build.Reference.{trim_space-to_string}
use modelwrap.Build.Accepted.{ref_of-IsValid, build_mwp-accepted}
use modelwrap.Tests.Data.{plain_cipher, key_of_64, sample_ref, first_byte, one_uuid}
use modelwrap.Tests.Hashing.{a_model, two_blocks, image-IsImage, the_ref, the_params}

abbrev ten_bytes : Bytes
ten_bytes = replicate 10 5

stream-in_memory_example :
    (out : Bytes) × (stream plain_cipher key_of_64 false at_eof ten_bytes none
      ≡ some (all_written out))
    × (in_memory plain_cipher key_of_64 (pad_sector ten_bytes) false ≡ ok out)
stream-in_memory_example =
    stream-in_memory plain_cipher key_of_64 ten_bytes false refl refl (omega arith)

stream-inverse_example :
    (sealed : Bytes) × (stream plain_cipher key_of_64 false at_eof ten_bytes none
      ≡ some (all_written sealed))
    × (length sealed ≡ 4096)
    × (stream plain_cipher key_of_64 true at_eof sealed none
        ≡ some (all_written (pad_sector ten_bytes)))
    × (◌≡◌ {A = ℕ} 10 0 → pad_sector ten_bytes ≡ ten_bytes)
stream-inverse_example = stream-inverse plain_cipher key_of_64 ten_bytes refl (omega arith)

stream-read_failed_example :
    (end : StreamEnd) × (stream plain_cipher key_of_64 false at_error ten_bytes none ≡ some end)
    × (end.error ≡ some read_failed)
    × (stream plain_cipher key_of_64 false at_unexpected_eof ten_bytes none
        ≡ stream plain_cipher key_of_64 false at_eof ten_bytes none)
stream-read_failed_example = stream-read_failed plain_cipher key_of_64 ten_bytes false refl

abbrev pub one_key : Hkdf
one_key = record { key = λ secret with_salt for_use n. some (replicate n 4) }

abbrev pub no_table : Sgdisk
no_table = record { run = λ disk part first last f. some f }

abbrev same_uuid : Bytes → Bytes
same_uuid name = name

abbrev table-IsTable : IsTable same_uuid no_table ten_bytes sample_ref
table-IsTable = record {
  disk = blank (total_sectors 10 * 512);
  made = refl;
  clean = λ i h. refl;
  same_size = refl;
}

abbrev dm_key : Bytes
dm_key = replicate 64 4

key_derived : derive_key one_key key_of_64 sample_ref ≡ ok dm_key
unfolding derive_key
key_derived = refl

decrypt_payload-encrypt_emwp_example :
    (img : File) × (encrypt_emwp plain_cipher one_key same_uuid no_table ten_bytes sample_ref
        key_of_64
      ≡ ok img)
    × (img.size ≡ total_sectors 10 * 512)
    × (decrypt_payload plain_cipher img img.size dm_key ≡ ok (pad_sector ten_bytes))
    × (◌≡◌ {A = ℕ} 10 0 → pad_sector ten_bytes ≡ ten_bytes)
    × ((i : ℕ) → (i < part_offset) ⊎ ((end_sector 10 + 1) * 512 ≤ i) → ◌≡◌ {A = ℕ} (img.byte i) 0)
decrypt_payload-encrypt_emwp_example =
    decrypt_payload-encrypt_emwp plain_cipher one_key same_uuid no_table ten_bytes key_of_64
      sample_ref table-IsTable dm_key key_derived refl (omega arith)

the_info_read : parse_info_file (to_string the_ref) ≡ ok the_ref
unfolding parse_info_file
the_info_read =
    rw
      (trim_space-to_string the_ref
        (ref_of-IsValid first_byte one_uuid a_model 3 two_blocks image-IsImage))
      (rw (
        (parse_ref_iff (to_string the_ref) the_ref).1
          (ref_of-IsValid first_byte one_uuid a_model 3 two_blocks image-IsImage, refl)))

abbrev the_args : List Bytes
the_args =
    codes "verify" ∷ codes "plain" ∷ codes "plain" ∷ the_ref.root_hash ∷ veritysetup_args the_params

the_ref-verified : verify_mwp first_byte (codes "plain") (to_string the_ref) a_model ≡ ok the_args
the_ref-verified =
    (build_mwp-accepted first_byte one_uuid a_model 3 two_blocks image-IsImage (codes "plain") []
      []).4

abbrev the_table : IsTable same_uuid no_table ten_bytes the_ref
the_table = record {
  disk = blank (total_sectors 10 * 512);
  made = refl;
  clean = λ i h. refl;
  same_size = refl;
}

the_key_derived : derive_key one_key key_of_64 the_ref ≡ ok dm_key
unfolding derive_key
the_key_derived = refl

verify_emwp-encrypt_emwp_example :
    (img : File) × (encrypt_emwp plain_cipher one_key same_uuid no_table ten_bytes the_ref key_of_64
      ≡ ok img)
    × (verify_emwp plain_cipher first_byte one_key img
          (codes "plain")
          (to_string the_ref)
          key_of_64
          a_model
        ≡ ok (pad_sector ten_bytes, the_args))
verify_emwp-encrypt_emwp_example =
    verify_emwp-encrypt_emwp plain_cipher one_key same_uuid no_table ten_bytes key_of_64 the_ref
      the_table first_byte dm_key (codes "plain") (to_string the_ref) a_model the_args the_info_read
      the_key_derived refl (omega arith) the_ref-verified
