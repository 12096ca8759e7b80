-- ===== src/Tests/Sharing.antt =====
-- An example for runs of Pack that share a directory: one process gets the lock and publishes.
use modelwrap.Prelude.{assign, ◌≡◌, refl, inl, [], Bytes, itoa, ok, none, arith, true, false}
use modelwrap.Ref.{to_string}
use modelwrap.Lock
use modelwrap.Artifacts.{
  Dir, file, write_staged, rename_mwp, check_existing_artifacts, schema, info,
}
use modelwrap.Artifacts.Reuse.{check_existing_artifacts_iff}
use modelwrap.Build.Accepted.{build_mwp-accepted}
use modelwrap.Pack.Fresh.{calm, mwp, ref, published, pack_locked-published}
use modelwrap.Ref.{ArtifactRef}
use modelwrap.Build.{parse_info_file}
use modelwrap.Pack.{pack_locked}
use modelwrap.Shared.Runs.{Runs}
use modelwrap.Shared.Refines.{pack_locked-Runs}
use modelwrap.Shared.Delivered.{reported, pack_locked-IsBuilt}
use modelwrap.Shared.{
  checked, settled, labelled, imaged, World, IsBuilt, behind, locking, begin_build, label,
  place_image, place_info, Reach, here, next, start,
}
use modelwrap.Shared.Inv.{Consistent-no_info}
use modelwrap.Shared.Commit.{reused-IsBuilt}
use modelwrap.Tests.Data.{first_byte, one_uuid}
use modelwrap.Tests.Files.{empty, sidecar_of_whole}
use modelwrap.Tests.Hashing.{a_model}
use modelwrap.Tests.Packing.{tools, schema_two}
use modelwrap.Tests.Sealing.{a_request, one_block, one_block-IsImage, nothing_there}
use modelwrap.Tests.Locking.{after_create, after_lock, after_compare}

abbrev image_bytes : Bytes
image_bytes = mwp tools schema_two (a_request false) one_block one_block-IsImage refl

abbrev info_text : Bytes
info_text = to_string (ref tools schema_two (a_request false) one_block one_block-IsImage refl)

image-IsBuilt : IsBuilt tools 2 image_bytes info_text
image-IsBuilt =
    let b = build_mwp-accepted first_byte one_uuid a_model 4 one_block one_block-IsImage [] [] [] in
    record {
      under = schema_two;
      request = a_request false;
      image = one_block;
      built = b.0;
      same_id = refl;
      made = refl;
      returned = b.1;
      bytes = refl;
    }

abbrev at_start : World
at_start = start none 7 empty

abbrev at_open : World
at_open = record at_start { lock = after_create }

abbrev at_lock : World
at_lock = record at_start { lock = after_lock }

abbrev at_compare : World
at_compare = record at_start { lock = after_compare }

abbrev at_check : World
at_check = record at_compare { job = assign at_compare.job 2 (checked 2) }

abbrev at_label : World
at_label =
    behind at_check 2 (write_staged calm at_check.dir schema (itoa 2))
      (labelled 2 image_bytes info_text)

abbrev at_image : World
at_image =
    behind at_label 2 (rename_mwp calm image_bytes at_label.dir) (imaged 2 image_bytes info_text)

abbrev at_info : World
at_info = behind at_image 2 (write_staged calm at_image.dir info info_text) (settled 2)

to_lock : Reach tools at_start at_compare
to_lock =
    next
      (next
        (next here (
          locking at_start after_create (Lock.create (Lock.start none 7) 2 refl refl)
            (λ v h. absurd h)))
        (locking at_open after_lock (Lock.lock after_create 2 7 refl refl) (λ v h. absurd h)))
      (locking at_lock after_compare (Lock.same_file after_lock 2 7 refl refl) (λ v h. absurd h))

the_run : Reach tools at_start at_info
unfolding write_staged
the_run =
    next
      (next
        (next
          (next to_lock
            (begin_build at_compare 2 7 2 refl refl (omega arith) (omega arith) nothing_there))
          (label at_check 2 7 2 calm image_bytes info_text refl refl image-IsBuilt))
        (place_image at_label 2 7 2 calm image_bytes info_text refl refl))
      (place_info at_image 2 7 2 calm image_bytes info_text refl refl)

published_reused : check_existing_artifacts at_info.dir 2 ≡ ok true
unfolding write_staged
published_reused =
    (check_existing_artifacts_iff at_info.dir 2).1 ((tt, tt, tt, tt), inl sidecar_of_whole)

reused-IsBuilt_example :
    (m : Bytes) × (r : Bytes) × IsBuilt tools 2 m r
    × (at_info.dir.mpk_file ≡ file m)
    × (at_info.dir.info_file ≡ file r)
reused-IsBuilt_example =
    reused-IsBuilt tools none 7 empty at_info 2 (Consistent-no_info tools empty refl) the_run
      published_reused

pack_locked-Runs_example :
    Runs tools 2
      (settled 2)
      at_compare
      (pack_locked tools calm [] schema_two (a_request false) at_compare.dir)
pack_locked-Runs_example =
    pack_locked-Runs tools 2 7 calm [] schema_two (a_request false) at_compare refl refl
      (omega arith) (omega arith)

abbrev left : Dir
left = published tools schema_two (a_request false) one_block one_block-IsImage refl empty

pack_locked-IsBuilt_example :
    (m : Bytes) × (x : Bytes) × (r : ArtifactRef) × IsBuilt tools 2 m x
    × (left.mpk_file ≡ file m)
    × (left.info_file ≡ file x)
    × (parse_info_file x ≡ ok r)
    × (info_text ≡ reported tools calm [] (a_request false) false r)
pack_locked-IsBuilt_example =
    pack_locked-IsBuilt tools none 7 empty at_compare 2 7 calm [] schema_two (a_request false) left
      info_text (Consistent-no_info tools empty refl) to_lock refl refl (omega arith) (omega arith)
      (pack_locked-published tools schema_two (a_request false) one_block one_block-IsImage refl
        empty nothing_there refl refl)
