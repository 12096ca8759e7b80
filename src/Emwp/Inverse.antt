-- ===== src/Emwp/Inverse.antt =====
-- VerifyEMWP recovers the MWP file that encryptEMWP was given.
use modelwrap.Prelude.{
  if◌then◌else◌, ltb, le→ltb, ◌-◌, ◌*◌, ◌+◌, ℕ, true, ◌%◌, ◌^◌, ◌≡◌, ◌≤◌, ◌<◌, ◌⊎◌, refl, sym, ap,
  ◌∙◌, Bytes, codes, arith, length, get_or, ◌++◌, none, some, ok, List,
}
use modelwrap.Ref.{ArtifactRef}
use modelwrap.Disk.{File, write_at}
use modelwrap.Disk.Laws.{IsClean, write_at_byte}
use modelwrap.Disk.Tabulate.{tabulate, tabulate-ext, tabulate-get_or}
use modelwrap.Format.Level.Kept.{window_in, window_out}
use modelwrap.Crypt.{Xts, at_eof, stream, pad_sector}
use modelwrap.Crypt.Files.{stream-inverse}
use modelwrap.Emwp.{
  Hkdf, Sgdisk, derive_key, end_sector, total_sectors, part_offset, blank, encrypt_payload,
  encrypt_emwp, section, decrypt_payload, stream_result, verify_emwp,
}
use modelwrap.Verity.{Sha256}
use modelwrap.Build.{parse_info_file, verify_mwp}

-- A written piece of a file is read back.
write_inside :
    (f : File) (off : ℕ) (b : Bytes) → off + length b ≤ f.size → (write_at f off b).size ≡ f.size
unfolding write_at
write_inside f off b fits = ground arith

part_size_is :
    (size n : ℕ)
    → size ≡ part_offset + n + 40 * 512
    → (if ltb size (part_offset + 40 * 512)
        then size - part_offset
        else size - part_offset - 40 * 512)
      ≡ n
part_size_is size n h =
    rw (le→ltb size (part_offset + 40 * 512) (omega (arith, h))) (omega (arith, h))

section_inside :
    (f : File) (off n : ℕ) → off + n ≤ f.size → section f off n ≡ tabulate n (λ i. f.byte (off + i))
unfolding section
section_inside f off n fits = ap (λ m. tabulate m (λ i. f.byte (off + i))) (ground arith)

section-write_at :
    (f : File) (off : ℕ) (b : Bytes)
    → IsClean f
    → off + length b ≤ f.size
    → section (write_at f off b) off (length b) ≡ b
section-write_at f off b clean fits =
    section_inside (write_at f off b) off (length b) (omega (arith, write_inside f off b fits))
    ∙ tabulate-ext (length b) _ _ (λ i lt.
      write_at_byte f off b (off + i) clean
      ∙ window_in off (off + i) (off + length b) _ _ (omega arith) (omega arith)
      ∙ ap (λ k. get_or b k 0) (omega arith))
    ∙ sym (tabulate-get_or (length b) b 0 refl)

-- What the packer asks sgdisk for, and a disk of the same size that it makes.
pub record IsTable (uuid_v5_url : Bytes → Bytes) (s : Sgdisk) (mwp : Bytes) (ref : ArtifactRef)
    : Type 0 where
  pub disk : File
  pub made :
      s.run
        (uuid_v5_url (ref.root_hash ++ codes "-emwp-disk"))
        ref.uuid
        2048
        (end_sector (length mwp))
        (blank (total_sectors (length mwp) * 512))
      ≡ some disk
  pub clean : IsClean disk
  pub same_size : disk.size ≡ total_sectors (length mwp) * 512

module _ (x : Xts) (k : Hkdf) (uuid_v5_url : Bytes → Bytes) (s : Sgdisk) (mwp master_key : Bytes)
    (ref : ArtifactRef) (table : IsTable uuid_v5_url s mwp ref) where
  -- Where sgdisk makes a disk of the size that it was given and HKDF gives 64 bytes: an MWP file
  -- below 2^62 bytes that is encrypted and decrypted under one derived key comes back, padded to a
  -- whole sector, or itself when it was aligned. The image has the size of the disk, and the bytes
  -- before the partition and behind it are as sgdisk left them.
  pub decrypt_payload-encrypt_emwp :
      (dm_key : Bytes)
      → derive_key k master_key ref ≡ ok dm_key
      → length dm_key ≡ 64
      → length mwp < 2 ^ 62
      → (img : File) × (encrypt_emwp x k uuid_v5_url s mwp ref master_key ≡ ok img)
        × (img.size ≡ table.disk.size)
        × (decrypt_payload x img img.size dm_key ≡ ok (pad_sector mwp))
        × (length mwp % 4096 ≡ 0 → pad_sector mwp ≡ mwp)
        × ((i : ℕ)
            → (i < part_offset) ⊎ ((end_sector (length mwp) + 1) * 512 ≤ i)
            → img.byte i ≡ table.disk.byte i)
  unfolding encrypt_emwp encrypt_payload decrypt_payload
  decrypt_payload-encrypt_emwp dm_key derived hk fits =
      let (sealed, out, size, back, aligned) = stream-inverse x dm_key mwp hk fits in
      let same = table.same_size in
      let room : part_offset + length sealed ≤ table.disk.size = omega (arith, size, same) in
      let img = write_at table.disk part_offset sealed in
      let img_size = write_inside table.disk part_offset sealed room in
      (
        img,
        rw derived (rw table.made (rw out refl)),
        img_size,
        ap (λ n. stream_result (stream x dm_key true at_eof (section img part_offset n) none))
              (part_size_is img.size (length sealed) (omega (arith, size, same, img_size)))
            ∙ ap (λ b. stream_result (stream x dm_key true at_eof b none))
                (section-write_at table.disk part_offset sealed table.clean room)
            ∙ ap stream_result back,
        aligned,
        λ i o.
            write_at_byte table.disk part_offset sealed i table.clean
            ∙ window_out part_offset i (part_offset + length sealed) _ _ (omega (arith, size, o)),
      )

  -- Where sgdisk makes a disk of the size that it was given, HKDF gives 64 bytes, the info file
  -- reads as the reference and VerifyMWP accepts it: encryptEMWP succeeds on an MWP file below
  -- 2^62 bytes, and VerifyEMWP recovers from its image the padded MWP file and verifies it with
  -- the arguments of VerifyMWP.
  pub verify_emwp-encrypt_emwp :
      (h : Sha256) (dm_key plain_file info model : Bytes) (args : List Bytes)
      → parse_info_file info ≡ ok ref
      → derive_key k master_key ref ≡ ok dm_key
      → length dm_key ≡ 64
      → length mwp < 2 ^ 62
      → verify_mwp h plain_file info model ≡ ok args
      → (img : File) × (encrypt_emwp x k uuid_v5_url s mwp ref master_key ≡ ok img)
        × (verify_emwp x h k img plain_file info master_key model ≡ ok (pad_sector mwp, args))
  unfolding verify_emwp
  verify_emwp-encrypt_emwp h dm_key plain_file info model args read derived hk fits verified =
      let (img, made, _, plain, _, _) = decrypt_payload-encrypt_emwp dm_key derived hk fits in
      (img, made, rw read (rw derived (rw plain (rw verified refl))))
