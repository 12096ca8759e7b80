-- ===== src/Format/Driver/Merkle.antt =====
-- The specification of a root hash: a tree of digests over numbered blocks, with no file.
use mathlib.Core.Path.{fun_ext}
use modelwrap.Prelude.{
  ℕ, zero, suc, ◌+◌, ◌*◌, ◌/◌, ◌%◌, ◌≡◌, ◌≤◌, ◌<◌, refl, ap, Bytes, ◌++◌, ltb, lt→ltb, le→ltb,
  get_or, if◌then◌else◌, Bool-cases, inl, inr, ltb→lt,
}
use modelwrap.Verity.{Sha256}
use modelwrap.Disk.Tabulate.{tabulate, tabulate-ext}
use modelwrap.Format.Geometry.Tasks.{blocks_above}
use modelwrap.Format.Level.Share.{level_byte}

module _ (h : Sha256) (salt : Bytes) where
  -- Block `k` of the level above `n` blocks: 128 digests, or fewer and zeros.
  unfoldable pub parent_block : (ℕ → Bytes) → ℕ → ℕ → Bytes
  parent_block block n k = tabulate 4096 (λ i. level_byte h salt block n (k * 4096 + i))

  -- The salted digest of the single block that is left when there are no more levels.
  unfoldable pub merkle_root : ℕ → ℕ → (ℕ → Bytes) → Bytes
  merkle_root zero n block = h.sum (salt ++ block 0)
  merkle_root (suc fuel) n block =
      let above = merkle_root fuel (blocks_above n) (parent_block block n) in
      if ltb 1 n then above else h.sum (salt ++ block 0)

  pub merkle_root_step :
      (fuel n : ℕ) (block : ℕ → Bytes)
      → 1 < n
      → merkle_root (suc fuel) n block ≡ merkle_root fuel (blocks_above n) (parent_block block n)
  unfolding merkle_root
  merkle_root_step fuel n block lt = rw (lt→ltb 1 n lt)

  pub merkle_root_done :
      (fuel n : ℕ) (block : ℕ → Bytes) → n ≤ 1 → merkle_root fuel n block ≡ h.sum (salt ++ block 0)
  unfolding merkle_root
  merkle_root_done zero n block le = refl
  merkle_root_done (suc fuel) n block le = rw (le→ltb 1 n le)

  level_byte-ext :
      (a b : ℕ → Bytes) (n j : ℕ)
      → ((k : ℕ) → k < n → a k ≡ b k)
      → level_byte h salt a n j ≡ level_byte h salt b n j
  level_byte-ext a b n j e = elim (Bool-cases (ltb (j / 32) n)) [
    | inl inside ↦
        rw inside (ap (λ s. get_or (h.sum (salt ++ s)) (j % 32) 0) (e (j / 32) (ltb→lt _ _ inside)))
    | inr out ↦ rw out
  ]

  pub parent_block-ext :
      (a b : ℕ → Bytes) (n k : ℕ)
      → ((k : ℕ) → k < n → a k ≡ b k)
      → parent_block a n k ≡ parent_block b n k
  unfolding parent_block
  parent_block-ext a b n k e = tabulate-ext 4096 _ _ (λ i _. level_byte-ext a b n (k * 4096 + i) e)

  -- The root depends on the first `n` blocks only.
  pub merkle_root-ext :
      (fuel n : ℕ) (a b : ℕ → Bytes)
      → 0 < n
      → ((k : ℕ) → k < n → a k ≡ b k)
      → merkle_root fuel n a ≡ merkle_root fuel n b
  unfolding merkle_root
  merkle_root-ext zero n a b pos e = ap (λ s. h.sum (salt ++ s)) (e 0 pos)
  merkle_root-ext (suc fuel) n a b pos e = elim (Bool-cases (ltb 1 n)) [
    | inl more ↦
        rw more (ap (merkle_root fuel (blocks_above n)) (fun_ext (λ k. parent_block-ext a b n k e)))
    | inr done ↦ rw done (ap (λ s. h.sum (salt ++ s)) (e 0 pos))
  ]
