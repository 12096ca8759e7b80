-- ===== src/Tests/Seeding.antt =====
-- Examples for the seeding from earlier revisions.
use modelwrap.Prelude.{
  assign, ℕ, ◌≡◌, ◌≢◌, ◌≤◌, ◌↔◌, ◌+◌, ◌*◌, refl, true, List, [], ◌∷◌, Bytes, codes, beq, ok, none,
  some, pos, arith, Option, split,
}
use modelwrap.Verity.{hex_encode}
use modelwrap.Seed.{LfsFile, Inode, seed_target_valid}
use modelwrap.Seed.Paths.{clean, clean_parts}
use modelwrap.Seed.Listing.{
  Hub, list_lfs_files, tree_url, tree_max_pages, Pages, list_lfs_files_iff,
}
use modelwrap.Seed.Workers.{
  Pool, Reach, here, next, start, claim, stop, not_present, fit, link, accept, place, idle, stopped,
  claimed, looking, linking, linked,
}
use modelwrap.Seed.Verified.{IsSeeded, seed_files-IsSeeded}
use modelwrap.Seed.Ends.{CanStep, Run, workers_end}
use modelwrap.Tests.Data.{first_byte}

abbrev weights_name : Bytes
weights_name = codes "w.bin"

abbrev wanted_file : LfsFile
wanted_file = record {
  path = weights_name;
  sha256 = hex_encode (first_byte.sum (5 ∷ []));
  size = pos 1;
}

abbrev old_copy : Inode
old_copy = record { mode = 420; size = 1; content = 5 ∷ [] }

abbrev one_file : List LfsFile
one_file = wanted_file ∷ []

abbrev one_sibling : List Bytes
one_sibling = codes "r0" ∷ []

abbrev everywhere : Bytes → Bytes → Option Inode
everywhere sibling path = some old_copy

abbrev nowhere : Bytes → Option Inode
nowhere path = none

-- The states of one worker that links the file and stops.
abbrev at_start : Pool
at_start = start 1 everywhere nowhere

abbrev at_claim : Pool
at_claim = record at_start { next = 1; phase = assign at_start.phase 0 (claimed 0 wanted_file) }

abbrev at_look : Pool
at_look = record at_claim { phase = assign at_claim.phase 0 (looking 0 wanted_file one_sibling) }

abbrev at_fit : Pool
at_fit = record at_look { phase = assign at_look.phase 0 (linking 0 wanted_file (codes "r0") []) }

abbrev at_link : Pool
at_link = record at_fit {
  phase = assign at_fit.phase 0 (linked 0 wanted_file (codes "r0") []);
  target = place at_fit.target (clean weights_name) (some old_copy);
}

abbrev at_accept : Pool
at_accept = record at_link {
  phase = assign at_link.phase 0 idle;
  results = assign at_link.results 0 (some (codes "r0"));
}

abbrev at_stop : Pool
at_stop = record at_accept { next = 2; phase = assign at_accept.phase 0 stopped }

copy_valid :
    seed_target_valid first_byte 420 wanted_file (at_link.target (clean weights_name)) true ≡ true
unfolding seed_target_valid hex_encode beq clean clean_parts split
copy_valid = refl

the_run : Reach first_byte 420 one_file one_sibling at_start at_stop
the_run =
    next
      (next
        (next
          (next
            (next (next here (claim at_start 0 wanted_file refl refl))
              (not_present at_claim 0 0 wanted_file refl))
            (fit at_look 0 0 wanted_file (codes "r0") [] old_copy refl refl refl))
          (link at_fit 0 0 wanted_file (codes "r0") [] old_copy refl refl refl))
        (accept at_link 0 0 wanted_file (codes "r0") [] refl copy_valid))
      (stop at_accept 0 refl (omega arith))

all_stopped : (w : ℕ) → at_stop.phase w ≡ stopped
all_stopped w = ground arith

seed_files-IsSeeded_example : IsSeeded first_byte 420 one_file one_sibling nowhere at_stop
seed_files-IsSeeded_example =
    seed_files-IsSeeded first_byte 420 one_file one_sibling nowhere 1 everywhere at_stop the_run
      all_stopped refl

counted-Run : Run first_byte 420 one_file one_sibling 1 at_start 2 at_look
counted-Run =
    Run.next (Run.next Run.here (claim at_start 0 wanted_file refl refl))
      (not_present at_claim 0 0 wanted_file refl)

workers_end_example :
    (2 ≤ 1 * (4 * 1 + 3) + 1)
    × ((w : ℕ) → at_look.phase w ≢ stopped → CanStep first_byte 420 one_file one_sibling 1 at_look)
workers_end_example =
    workers_end first_byte 420 one_file one_sibling 1 everywhere nowhere 2 at_look counted-Run

-- Every page links to itself.
abbrev endless : Hub
endless = record {
  get = λ url. ok (record { entries = []; links = codes "<https://hub/next>; rel=\"next\"" ∷ [] });
}

list_lfs_files_iff_example :
    (list_lfs_files endless (codes "m") (codes "r1") ≡ ok [])
    ↔ ((n : ℕ) × (n ≤ tree_max_pages) × Pages endless (tree_url (codes "m") (codes "r1")) n [])
list_lfs_files_iff_example = list_lfs_files_iff endless (codes "m") (codes "r1") []
