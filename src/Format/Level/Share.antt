-- ===== src/Format/Level/Share.antt =====
-- What one task reads and writes, against the digest that belongs at each byte of the level.
use mathlib.Core.Path.{ap₂}
use native.Mathlib.Decide.{dec_lt}
use modelwrap.Prelude.{
  ℕ, zero, suc, ◌+◌, ◌-◌, ◌*◌, ◌/◌, ◌%◌, ◌≡◌, ◌≤◌, ◌<◌, refl, sym, ap, ◌∙◌, ◌++◌, Bytes, arith,
  length, get_or, take, drop, replicate, length-append, length-replicate, take-append, drop-append,
  lt→ltb, le→ltb, ltb, if◌then◌else◌,
}
use modelwrap.Verity.{Sha256}
use modelwrap.Disk.{File}
use modelwrap.Disk.Tabulate.{
  tabulate, length-tabulate, tabulate-ext, tabulate-add, get_or-append_left, get_or-append_right,
}
use modelwrap.Format.Geometry.{task_of, task_count}
use modelwrap.Format.Geometry.Tasks.{max_blocks, task_of-IsShare}
use modelwrap.Format.Level.{digest_blocks, task_output}

-- Block `k` of the source at `src_off`.
abbrev pub block_at : File → ℕ → ℕ → Bytes
block_at f src_off k = tabulate 4096 (λ i. f.byte (src_off + k * 4096 + i))

module _ (h : Sha256) (salt : Bytes) where
  -- Byte `j` of a level over `n` blocks: the digest of block j / 32, or padding.
  abbrev pub level_byte : (ℕ → Bytes) → ℕ → ℕ → ℕ
  level_byte block n j =
      if ltb (j / 32) n then get_or (h.sum (salt ++ block (j / 32))) (j % 32) 0 else 0

  length-digest_blocks : (n : ℕ) (src : Bytes) → length (digest_blocks h salt n src) ≡ n * 32
  unfolding digest_blocks
  length-digest_blocks zero src = refl
  length-digest_blocks (suc n) src =
      let a = h.length-sum (salt ++ take 4096 src) in
      let b =
        length-append (h.sum (salt ++ take 4096 src)) (digest_blocks h salt n (drop 4096 src)) in
      omega (arith, a, b, length-digest_blocks n (drop 4096 src))

  -- The first block of a source, and the others.
  digest_blocks_step :
      (n : ℕ) (byte : ℕ → ℕ)
      → digest_blocks h salt (suc n) (tabulate (suc n * 4096) byte)
        ≡ h.sum (salt ++ tabulate 4096 byte)
          ++ digest_blocks h salt n (tabulate (n * 4096) (λ i. byte (4096 + i)))
  unfolding digest_blocks
  digest_blocks_step n byte =
      let front = tabulate 4096 byte in
      let back = tabulate (n * 4096) (λ i. byte (4096 + i)) in
      let e : tabulate (suc n * 4096) byte ≡ front ++ back =
        ap (λ k. tabulate k byte) (omega arith) ∙ tabulate-add 4096 (n * 4096) byte in
      let l = length-tabulate 4096 byte in
      ap (λ s. h.sum (salt ++ take 4096 s) ++ digest_blocks h salt n (drop 4096 s)) e
      ∙ ap (λ s. h.sum (salt ++ s) ++ digest_blocks h salt n (drop 4096 (front ++ back)))
          (take-append front back 4096 l)
      ∙ ap (λ s. h.sum (salt ++ front) ++ digest_blocks h salt n s) (drop-append front back 4096 l)

  -- The digest of block `b` of a source, at its byte `r`.
  digest_byte : (ℕ → ℕ) → ℕ → ℕ → ℕ
  digest_byte byte b r = get_or (h.sum (salt ++ tabulate 4096 (λ i. byte (b * 4096 + i)))) r 0

  digest_byte_zero :
      (byte : ℕ → ℕ) (r : ℕ)
      → get_or (h.sum (salt ++ tabulate 4096 byte)) r 0 ≡ digest_byte byte 0 r
  unfolding digest_byte
  digest_byte_zero byte r =
      ap (λ s. get_or (h.sum (salt ++ s)) r 0)
        (tabulate-ext 4096 byte (λ i. byte (0 * 4096 + i)) (λ i _. ap byte (omega arith)))

  digest_byte-suc :
      (byte : ℕ → ℕ) (b r : ℕ) → digest_byte (λ i. byte (4096 + i)) b r ≡ digest_byte byte (suc b) r
  unfolding digest_byte
  digest_byte-suc byte b r =
      ap (λ s. get_or (h.sum (salt ++ s)) r 0)
        (tabulate-ext 4096 (λ i. byte (4096 + (b * 4096 + i))) (λ i. byte (suc b * 4096 + i))
          (λ i _. ap byte (omega arith)))

  get_or-digest_blocks :
      (n : ℕ) (byte : ℕ → ℕ) (j : ℕ)
      → j < n * 32
      → get_or (digest_blocks h salt n (tabulate (n * 4096) byte)) j 0
        ≡ digest_byte byte (j / 32) (j % 32)
  get_or-digest_blocks zero byte j lt = absurd (omega arith)
  get_or-digest_blocks (suc n) byte j lt =
      let head = h.sum (salt ++ tabulate 4096 byte) in
      let rest = digest_blocks h salt n (tabulate (n * 4096) (λ i. byte (4096 + i))) in
      let l = h.length-sum (salt ++ tabulate 4096 byte) in
      ap (λ s. get_or s j 0) (digest_blocks_step n byte) ∙ elim (dec_lt j 32) [
        | yes low ↦
            get_or-append_left head rest j 0 (omega (arith, l))
            ∙ digest_byte_zero byte j
            ∙ ap₂ (digest_byte byte) (omega arith) (omega arith)
        | no high ↦
            get_or-append_right head rest j 0 (omega (arith, l))
            ∙ ap (λ k. get_or rest k 0) (omega (arith, l))
            ∙ get_or-digest_blocks n (λ i. byte (4096 + i)) (j - 32) (omega arith)
            ∙ digest_byte-suc byte ((j - 32) / 32) ((j - 32) % 32)
            ∙ ap₂ (digest_byte byte) (omega arith) (omega arith)
      ]

  get_or-replicate : (n i : ℕ) → get_or (replicate {A = ℕ} n 0) i 0 ≡ 0
  get_or-replicate zero i = refl
  get_or-replicate (suc n) zero = refl
  get_or-replicate (suc n) (suc i) = get_or-replicate n i

  pub length-task_output :
      (n t : ℕ) (src : Bytes)
      → n ≤ max_blocks
      → t < task_count n
      → length (task_output h salt (task_of n t) src) ≡ (task_of n t).n_dst * 4096
  unfolding task_output
  length-task_output n t src hn ht =
      let k = task_of n t in
      let s = task_of-IsShare n t hn ht in
      omega (
        arith,
        s.src_fits,
        length-digest_blocks k.n_src src,
        length-replicate {A = ℕ} (k.n_dst * 4096 - k.n_src * 32) 0,
        length-append (digest_blocks h salt k.n_src src)
            (replicate (k.n_dst * 4096 - k.n_src * 32) 0),
      )

  level_byte_in :
      (block : ℕ → Bytes) (n q b r : ℕ)
      → q / 32 ≡ b
      → q % 32 ≡ r
      → b < n
      → level_byte block n q ≡ get_or (h.sum (salt ++ block b)) r 0
  level_byte_in block n q b r eb er lt = rw eb (rw er (rw (lt→ltb b n lt)))

  level_byte_out : (block : ℕ → Bytes) (n q : ℕ) → n ≤ q / 32 → level_byte block n q ≡ 0
  level_byte_out block n q le = rw (le→ltb (q / 32) n le)

  -- The bytes that a task makes are those of its part of the level.
  pub task_output_byte :
      (f : File) (src_off n t j : ℕ)
      → n ≤ max_blocks
      → t < task_count n
      → j < (task_of n t).n_dst * 4096
      → get_or
          (task_output h salt
            (task_of n t)
            (tabulate ((task_of n t).n_src * 4096) (λ i. f.byte (src_off + t * 2048 * 4096 + i))))
          j
          0
        ≡ level_byte (block_at f src_off) n (t * 65536 + j)
  unfolding task_output digest_byte
  task_output_byte f src_off n t j hn ht hj =
      let k = task_of n t in
      let s = task_of-IsShare n t hn ht in
      let byte : ℕ → ℕ = λ i. f.byte (src_off + t * 2048 * 4096 + i) in
      let made = digest_blocks h salt k.n_src (tabulate (k.n_src * 4096) byte) in
      let pad = replicate {A = ℕ} (k.n_dst * 4096 - k.n_src * 32) 0 in
      let l = length-digest_blocks k.n_src (tabulate (k.n_src * 4096) byte) in
      elim (dec_lt j (k.n_src * 32)) [
        | yes low ↦
            get_or-append_left made pad j 0 (omega (arith, l))
            ∙ get_or-digest_blocks k.n_src byte j low
            ∙ ap (λ s. get_or (h.sum (salt ++ s)) (j % 32) 0)
                (tabulate-ext 4096 (λ i. byte (j / 32 * 4096 + i))
                  (λ i. f.byte (src_off + (t * 2048 + j / 32) * 4096 + i))
                  (λ i _. ap f.byte (omega arith)))
            ∙ sym (
                level_byte_in (block_at f src_off) n (t * 65536 + j) (t * 2048 + j / 32) (j % 32)
                  (omega arith) (omega arith) (omega (arith, s.src_end)))
        | no high ↦
            get_or-append_right made pad j 0 (omega (arith, l))
            ∙ get_or-replicate (k.n_dst * 4096 - k.n_src * 32) (j - length made)
            ∙ sym (
                level_byte_out (block_at f src_off) n (t * 65536 + j)
                  (omega (arith, s.src_end, s.dst_end)))
      ]
