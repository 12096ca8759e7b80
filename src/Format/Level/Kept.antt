-- ===== src/Format/Level/Kept.antt =====
-- What stays true of the file while the tasks of a level run, in whatever order they finish.
use modelwrap.Prelude.{
  ℕ, ◌+◌, ◌-◌, ◌*◌, ◌/◌, ◌%◌, ◌^◌, ◌≡◌, ◌≤◌, ◌<◌, ◌⊎◌, inl, inr, refl, ap, ◌∙◌, Bytes, arith,
  length, get_or, ltb, leb, ◌&&◌, if◌then◌else◌, ok, u64_mod, Bool, Bool-cases,
}
use modelwrap.Verity.{Sha256}
use modelwrap.Disk.{File, read_at, write_at, max_size}
use modelwrap.Disk.Laws.{
  IsClean, read_at_inside, write_at_byte, write_at_size, write_at-IsClean, file_ext,
}
use modelwrap.Disk.Tabulate.{tabulate, tabulate-ext}
use modelwrap.Format.Geometry.{task_of, task_count}
use modelwrap.Format.Geometry.Tasks.{max_blocks, blocks_above, task_of-IsShare, task_count_lem}
use modelwrap.Format.Level.{task_output, read_task, write_task}
use modelwrap.Format.Level.Share.{block_at, level_byte, length-task_output, task_output_byte}

-- A level over `n` blocks at `src_off`, to be written at `dst_off`: the source exists, and the two
-- areas do not overlap.
pub record IsLevel (f : File) (src_off n dst_off : ℕ) : Type 0 where
  pub clean : IsClean f
  pub some_blocks : 0 < n
  pub few_blocks : n ≤ max_blocks
  pub source_exists : src_off + n * 4096 ≤ f.size
  pub size_fits : f.size < 2 ^ 63
  pub dst_fits : dst_off + blocks_above n * 4096 < 2 ^ 63
  pub apart : (src_off + n * 4096 ≤ dst_off) ⊎ (dst_off + blocks_above n * 4096 ≤ src_off)

pub window_in : (a i b x y : ℕ) → a ≤ i → i < b → (if leb a i && ltb i b then x else y) ≡ x
window_in a i b x y le lt = ground arith

pub window_out : (a i b x y : ℕ) → (i < a) ⊎ (b ≤ i) → (if leb a i && ltb i b then x else y) ≡ y
window_out a i b x y h = ground arith

module _ (h : Sha256) (salt : Bytes) (src_off n dst_off : ℕ) where
  abbrev dst_end : ℕ
  dst_end = dst_off + blocks_above n * 4096

  -- Byte `j` of the level over the blocks of `f`.
  abbrev pub expected : File → ℕ → ℕ
  expected f j = level_byte h salt (block_at f src_off) n j

  -- The file with the whole level written.
  unfoldable pub hashed : File → File
  hashed f = record {
    size = max_size f.size dst_end;
    byte = λ i. if leb dst_off i && ltb i dst_end then expected f (i - dst_off) else f.byte i;
  }

  module _ (f₀ : File) (lv : IsLevel f₀ src_off n dst_off) where
    -- The file has grown by parts of the level only, and nothing else in it has changed.
    pub record Kept (f : File) : Type 0 where
      pub clean : IsClean f
      pub not_shorter : f₀.size ≤ f.size
      pub not_longer : f.size ≤ max_size f₀.size dst_end
      pub outside : (i : ℕ) → (i < dst_off) ⊎ (dst_end ≤ i) → f.byte i ≡ f₀.byte i

    -- Task `t` has written its part.
    pub record Done (t : ℕ) (f : File) : Type 0 where
      pub reached : dst_off + t * 65536 + (task_of n t).n_dst * 4096 ≤ f.size
      pub written :
          (j : ℕ)
          → j < (task_of n t).n_dst * 4096
          → f.byte (dst_off + t * 65536 + j) ≡ expected f₀ (t * 65536 + j)

    pub Kept-start : Kept f₀
    Kept-start = record {
      clean = lv.clean;
      not_shorter = omega arith;
      not_longer = ground arith;
      outside = λ i _. refl;
    }

    -- The source of a task, as it stood at the start.
    pub source : ℕ → Bytes
    source t = tabulate ((task_of n t).n_src * 4096) (λ i. f₀.byte (src_off + t * 2048 * 4096 + i))

    unfoldable pub output : ℕ → Bytes
    output t = task_output h salt (task_of n t) (source t)

    -- A worker reads the source of its task as it stood at the start.
    pub read_task-Kept :
        (f : File) (t : ℕ)
        → Kept f
        → t < task_count n
        → read_task f src_off (task_of n t) ≡ ok (source t)
    unfolding read_task source
    read_task-Kept f t k ht =
        let s = task_of-IsShare n t lv.few_blocks ht in
        let e : (src_off + (task_of n t).src_start * 4096) % u64_mod ≡ src_off + t * 2048 * 4096 =
          omega (arith, s.reads_from, s.src_end, s.some_src, lv.size_fits, lv.source_exists) in
        ap (λ off. read_at f off ((task_of n t).n_src * 4096)) e
        ∙ read_at_inside f _ _ (omega (arith, s.src_end, lv.source_exists, k.not_shorter))
        ∙ ap ok (tabulate-ext _ _ _ (λ i lt. k.outside _ (omega (arith, s.src_end, lv.apart))))

    write_task_at :
        (f : File) (t : ℕ)
        → t < task_count n
        → write_task f dst_off (task_of n t) (output t)
          ≡ write_at f (dst_off + t * 65536) (output t)
    unfolding write_task
    write_task_at f t ht =
        let s = task_of-IsShare n t lv.few_blocks ht in
        ap (λ off. write_at f off (output t))
          (omega (arith, s.starts, s.dst_end, s.some_dst, lv.dst_fits))

    pub length-output : (t : ℕ) → t < task_count n → length (output t) ≡ (task_of n t).n_dst * 4096
    unfolding output
    length-output t ht = length-task_output h salt n t (source t) lv.few_blocks ht

    output_byte :
        (t j : ℕ)
        → t < task_count n
        → j < (task_of n t).n_dst * 4096
        → get_or (output t) j 0 ≡ expected f₀ (t * 65536 + j)
    unfolding output source
    output_byte t j ht hj = task_output_byte h salt f₀ src_off n t j lv.few_blocks ht hj

    -- The part of the level that task `t` owns.
    abbrev in_part : ℕ → ℕ → Bool
    in_part t i =
        leb (dst_off + t * 65536) i && ltb i (dst_off + t * 65536 + (task_of n t).n_dst * 4096)

    abbrev pub after : ℕ → File → File
    after t f = write_task f dst_off (task_of n t) (output t)

    -- A byte after a write is the one that belongs there, or the one before.
    after_byte :
        (f : File) (t i : ℕ)
        → Kept f
        → t < task_count n
        → ((after t f).byte i ≡ (if in_part t i then expected f₀ (i - dst_off) else f.byte i))
    after_byte f t i k ht =
        let here = dst_off + t * 65536 in
        let l = length-output t ht in
        ap (λ (g : File). g.byte i) (write_task_at f t ht)
        ∙ write_at_byte f here (output t) i k.clean
        ∙ ap
            (λ m.
              if leb here i && ltb i (here + m) then get_or (output t) (i - here) 0 else f.byte i)
            l
        ∙ elim (Bool-cases (in_part t i)) [
          | inl in_part ↦ rw in_part (
              output_byte t (i - here) ht (ground arith)
              ∙ ap (expected f₀) (
                  let le : here ≤ i = ground arith in
                  let e : t * 65536 + (i - here) ≡ i - dst_off = omega arith in e))
          | inr not_in_part ↦ rw not_in_part
        ]

    after_size :
        (f : File) (t : ℕ)
        → t < task_count n
        → (after t f).size ≡ max_size f.size (dst_off + t * 65536 + (task_of n t).n_dst * 4096)
    after_size f t ht =
        let s = task_of-IsShare n t lv.few_blocks ht in
        let l = length-output t ht in
        ap (λ (g : File). g.size) (write_task_at f t ht)
        ∙ write_at_size f (dst_off + t * 65536) (output t) (omega (arith, l, s.some_dst))
        ∙ ap (λ m. max_size f.size (dst_off + t * 65536 + m)) l

    pub Kept-after : (f : File) (t : ℕ) → Kept f → t < task_count n → Kept (after t f)
    Kept-after f t k ht =
        let s = task_of-IsShare n t lv.few_blocks ht in
        let z = after_size f t ht in
        record {
          clean = rw (write_task_at f t ht) (write_at-IsClean f _ _ k.clean);
          not_shorter = ground (arith, z, k.not_shorter);
          not_longer = ground (arith, z, k.not_longer, s.dst_end);
          outside = λ i out.
              after_byte f t i k ht
              ∙ window_out _ i _ _ _ (omega (arith, s.dst_end, s.some_dst))
              ∙ k.outside i out;
        }

    pub Done-after_self : (f : File) (t : ℕ) → Kept f → t < task_count n → Done t (after t f)
    Done-after_self f t k ht = record {
      reached = ground (arith, after_size f t ht);
      written = λ j lt.
          after_byte f t (dst_off + t * 65536 + j) k ht
          ∙ window_in (dst_off + t * 65536) (dst_off + t * 65536 + j)
              (dst_off + t * 65536 + (task_of n t).n_dst * 4096)
              (expected f₀ (dst_off + t * 65536 + j - dst_off)) (f.byte (dst_off + t * 65536 + j))
              (omega arith) (omega arith)
          ∙ ap (expected f₀) (omega arith);
    }

    pub Done-after :
        (f : File) (t u : ℕ)
        → Kept f
        → t < task_count n
        → u < task_count n
        → Done u f
        → Done u (after t f)
    Done-after f t u k ht hu d = record {
      reached = ground (arith, after_size f t ht, d.reached);
      written = λ j lt.
          after_byte f t (dst_off + u * 65536 + j) k ht
          ∙ elim (Bool-cases (in_part t (dst_off + u * 65536 + j))) [
            | inl here ↦ rw here (ap (expected f₀) (omega arith))
            | inr there ↦ rw there (d.written j lt)
          ];
    }

    byte_of_Done :
        (f : File) (i : ℕ)
        → ((t : ℕ) → t < task_count n → Done t f)
        → dst_off ≤ i
        → i < dst_end
        → f.byte i ≡ expected f₀ (i - dst_off)
    byte_of_Done f i all le lt =
        let t = (i - dst_off) / 65536 in
        let j = (i - dst_off) % 65536 in
        let count = task_count_lem n lv.few_blocks in
        let ht : t < task_count n = omega (arith, count) in
        let s = task_of-IsShare n t lv.few_blocks ht in
        ap f.byte (omega arith)
        ∙ (all t ht).written j (omega (arith, s.dst_end))
        ∙ ap (expected f₀) (omega arith)

    -- Once every task has written its part, the file holds the level and nothing else is new.
    pub hashed_of_Done :
        (f : File) → Kept f → ((t : ℕ) → t < task_count n → Done t f) → f ≡ hashed f₀
    unfolding hashed
    hashed_of_Done f k all =
        let count = task_count_lem n lv.few_blocks in
        let last = blocks_above n - 1 in
        let d = all (last / 16) (omega (arith, count, lv.some_blocks)) in
        let s =
          task_of-IsShare n (last / 16) lv.few_blocks (omega (arith, count, lv.some_blocks)) in
        let reached : dst_end ≤ f.size = omega (arith, d.reached, s.dst_end, lv.some_blocks) in
        file_ext f (hashed f₀) (ground (arith, k.not_shorter, k.not_longer)) (λ i.
          elim (Bool-cases (leb dst_off i && ltb i dst_end)) [
            | inl inside ↦ rw inside (byte_of_Done f i all (ground arith) (ground arith))
            | inr out ↦ rw out (k.outside i (ground arith))
          ])
