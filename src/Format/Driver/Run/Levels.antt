-- ===== src/Format/Driver/Run/Levels.antt =====
-- The loop over the levels, from any level on.
use native.Mathlib.Decide.{dec_lt}
use modelwrap.Prelude.{
  ℕ, zero, suc, ◌+◌, ◌*◌, ◌%◌, ◌^◌, ◌≡◌, ◌≤◌, ◌<◌, ◌⊎◌, inr, refl, sym, ap, ◌∙◌, Bytes, arith, ◌++◌,
  Result, ok, ◌>>=◌, u64_mod,
}
use modelwrap.Verity.{Sha256}
use modelwrap.Disk.{File, IoError, max_size}
use modelwrap.Disk.Laws.{IsClean, read_at_inside}
use modelwrap.Disk.Tabulate.{tabulate-ext}
use modelwrap.Format.Geometry.{level_blocks, level_offsets}
use modelwrap.Format.Geometry.Tasks.{max_blocks, blocks_above}
use modelwrap.Format.Geometry.Levels.{
  level_blocks_step, level_blocks_done, levels_end, levels_end_step, levels_end_bounds,
  blocks_above-le-pow,
}
use modelwrap.Format.Level.{verity_hash_level}
use modelwrap.Format.Level.Share.{block_at}
use modelwrap.Format.Level.Kept.{IsLevel, hashed, expected, window_in, window_out}
use modelwrap.Format.Level.Sequential.{verity_hash_level-hashed}
use modelwrap.Format.Driver.{hash_levels, root_of}
use modelwrap.Format.Driver.Merkle.{
  parent_block, merkle_root, merkle_root_step, merkle_root_done, merkle_root-ext,
}

module _ (h : Sha256) (salt : Bytes) where
  -- `n` blocks at `src_off`, and room for the levels above them from `next` on.
  pub record IsReady (fuel : ℕ) (f : File) (src_off n next : ℕ) : Type 0 where
    pub clean : IsClean f
    pub some_blocks : 0 < n
    pub few_blocks : n ≤ max_blocks
    pub enough_fuel : n ≤ 128 ^ fuel
    pub source_exists : src_off + n * 4096 ≤ f.size
    pub size_fits : f.size < 2 ^ 63
    pub room : next + n * 2048 < 2 ^ 63
    pub apart : (src_off + n * 4096 ≤ next) ⊎ (levels_end fuel n next ≤ src_off)

  -- What the loop has to give: the root, and every byte outside the levels as it was.
  pub record Gives (fuel : ℕ) (f : File) (src_off n next : ℕ) (r : Result IoError (File × ℕ))
      : Type 0 where
    pub file : File
    pub top : ℕ
    pub returns : r ≡ ok (file, top)
    pub root : root_of h salt file top ≡ ok (merkle_root h salt fuel n (block_at f src_off))
    pub outside : (i : ℕ) → (i < next) ⊎ (levels_end fuel n next ≤ i) → file.byte i ≡ f.byte i

  unfoldable pub levels_run : ℕ → File → ℕ → ℕ → ℕ → Result IoError (File × ℕ)
  levels_run fuel f src_off n next =
      hash_levels h salt f src_off n (level_offsets (level_blocks fuel n) next).0

  hashed_byte_in :
      (f : File) (src_off n dst_off k i : ℕ)
      → k < blocks_above n
      → i < 4096
      → (hashed h salt src_off n dst_off f).byte (dst_off + k * 4096 + i)
        ≡ expected h salt src_off n dst_off f (k * 4096 + i)
  unfolding hashed
  hashed_byte_in f src_off n dst_off k i hk hi =
      window_in dst_off (dst_off + k * 4096 + i) (dst_off + blocks_above n * 4096) _ _ (omega arith)
        (omega arith)
      ∙ ap (expected h salt src_off n dst_off f) (omega arith)

  pub hashed_byte_out :
      (f : File) (src_off n dst_off i : ℕ)
      → (i < dst_off) ⊎ (dst_off + blocks_above n * 4096 ≤ i)
      → (hashed h salt src_off n dst_off f).byte i ≡ f.byte i
  unfolding hashed
  hashed_byte_out f src_off n dst_off i out =
      window_out dst_off i (dst_off + blocks_above n * 4096) _ _ out

  hashed_size :
      (f : File) (src_off n dst_off : ℕ)
      → (hashed h salt src_off n dst_off f).size ≡ max_size f.size (dst_off + blocks_above n * 4096)
  unfolding hashed
  hashed_size f src_off n dst_off = refl

  -- The blocks of the new level are those of the specification.
  block_at-hashed :
      (f : File) (src_off n dst_off k : ℕ)
      → k < blocks_above n
      → block_at (hashed h salt src_off n dst_off f) dst_off k
        ≡ parent_block h salt (block_at f src_off) n k
  unfolding parent_block
  block_at-hashed f src_off n dst_off k hk =
      tabulate-ext 4096 _ _ (λ i hi. hashed_byte_in f src_off n dst_off k i hk hi)

  pub levels_run_step :
      (fuel : ℕ) (f : File) (src_off n next : ℕ)
      → 1 < n
      → n ≤ max_blocks
      → levels_run (suc fuel) f src_off n next ≡ (
          verity_hash_level h salt src_off n (levels_end fuel (blocks_above n) next) f >>= λ g.
          levels_run fuel g (levels_end fuel (blocks_above n) next) (blocks_above n) next)
  unfolding levels_run hash_levels level_offsets levels_end
  levels_run_step fuel f src_off n next lt le =
      ap (λ bs. hash_levels h salt f src_off n (level_offsets bs next).0)
        (level_blocks_step fuel n lt le)

  Gives-done :
      (fuel : ℕ) (f : File) (src_off n next : ℕ)
      → n ≤ 1
      → IsReady fuel f src_off n next
      → Gives fuel f src_off n next (levels_run fuel f src_off n next)
  unfolding levels_run hash_levels level_offsets root_of
  Gives-done fuel f src_off n next le r = record {
    file = f;
    top = src_off;
    returns =
        ap (λ bs. hash_levels h salt f src_off n (level_offsets bs next).0)
          (level_blocks_done fuel n le);
    root =
        ap (λ t. t >>= λ top. ok (h.sum (salt ++ top)))
          (read_at_inside f src_off 4096 (omega (arith, r.source_exists, r.some_blocks)))
        ∙ ap (λ s. ok (h.sum (salt ++ s))) (tabulate-ext 4096 _ _ (λ i _. ap f.byte (omega arith)))
        ∙ ap ok (sym (merkle_root_done h salt fuel n (block_at f src_off) le));
    outside = λ i _. refl;
  }

  module _ (fuel : ℕ) (f : File) (src_off n next : ℕ) (more : 1 < n)
      (r : IsReady (suc fuel) f src_off n next) where
    -- The offset of this level.
    unfoldable pub spot : ℕ
    spot = levels_end fuel (blocks_above n) next

    pub spot_bounds : (next ≤ spot) × (spot ≤ next + blocks_above n * 2048)
    unfolding spot
    spot_bounds =
        levels_end_bounds fuel (blocks_above n) next (omega (arith, more))
          (omega (arith, r.few_blocks)) (omega (arith, r.room, more))

    pub end_is : levels_end (suc fuel) n next ≡ spot + blocks_above n * 4096
    unfolding spot
    end_is =
        levels_end_step fuel n next more r.few_blocks
        ∙ (let (lo, hi) = spot_bounds in
            let e : (levels_end fuel (blocks_above n) next + blocks_above n * 4096) % u64_mod
                ≡ levels_end fuel (blocks_above n) next + blocks_above n * 4096 =
              omega (arith, lo, hi, r.room, more) in
            e)

    end_fits : spot + blocks_above n * 4096 ≤ next + n * 2048
    end_fits = omega (
      arith,
      end_is,
      more,
      levels_end_bounds (suc fuel) n next r.some_blocks r.few_blocks (omega (arith, r.room)),
    )

    pub step_IsLevel : IsLevel f src_off n spot
    step_IsLevel =
        let (lo, hi) = spot_bounds in
        record {
          clean = r.clean;
          some_blocks = r.some_blocks;
          few_blocks = r.few_blocks;
          source_exists = r.source_exists;
          size_fits = r.size_fits;
          dst_fits = omega (arith, end_fits, r.room);
          apart = omega (arith, lo, r.apart, end_is);
        }

    unfoldable pub grown : File
    grown = hashed h salt src_off n spot f

    pub grown-IsReady : IsReady fuel grown spot (blocks_above n) next
    unfolding grown
    grown-IsReady =
        let (lo, hi) = spot_bounds in
        let z = hashed_size f src_off n spot in
        let lv = step_IsLevel in
        record {
          clean = λ i le.
              hashed_byte_out f src_off n spot i (ground (arith, z))
              ∙ r.clean i (ground (arith, z));
          some_blocks = omega (arith, more);
          few_blocks = omega (arith, r.few_blocks);
          enough_fuel = blocks_above-le-pow fuel n r.enough_fuel;
          source_exists = ground (arith, z);
          size_fits = ground (arith, z, r.size_fits, lv.dst_fits);
          room = omega (arith, r.room, more);
          apart = inr (unfold spot in omega arith);
        }

    Gives-step :
        Gives fuel grown spot
          (blocks_above n)
          next
          (levels_run fuel grown spot (blocks_above n) next)
        → Gives (suc fuel) f src_off n next (levels_run (suc fuel) f src_off n next)
    unfolding grown spot
    Gives-step g =
        let (lo, hi) = spot_bounds in
        record {
          file = g.file;
          top = g.top;
          returns =
              levels_run_step fuel f src_off n next more r.few_blocks
              ∙ ap (λ t. t >>= λ f'. levels_run fuel f' spot (blocks_above n) next)
                  (verity_hash_level-hashed h salt src_off n spot f step_IsLevel)
              ∙ g.returns;
          root =
              g.root
              ∙ ap ok (
                  merkle_root-ext h salt fuel (blocks_above n) _ _ (omega (arith, more))
                    (λ k hk. block_at-hashed f src_off n spot k hk))
              ∙ ap ok (sym (merkle_root_step h salt fuel n (block_at f src_off) more));
          outside = λ i out.
              g.outside i (omega (arith, end_is, lo))
              ∙ hashed_byte_out f src_off n spot i (omega (arith, end_is, lo));
        }

  -- The loop ends with the root of the tree over the blocks at `src_off`.
  pub levels_run-Gives :
      (fuel : ℕ) (f : File) (src_off n next : ℕ)
      → IsReady fuel f src_off n next
      → Gives fuel f src_off n next (levels_run fuel f src_off n next)
  levels_run-Gives zero f src_off n next r =
      Gives-done zero f src_off n next (let e : n ≤ 128 ^ 0 = r.enough_fuel in omega arith) r
  levels_run-Gives (suc fuel) f src_off n next r = elim (dec_lt 1 n) [
    | yes more ↦ Gives-step fuel f src_off n next more r (
        levels_run-Gives fuel _ _ (blocks_above n) next
          (grown-IsReady fuel f src_off n next more r))
    | no done ↦ Gives-done (suc fuel) f src_off n next (omega arith) r
  ]
