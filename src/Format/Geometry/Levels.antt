-- ===== src/Format/Geometry/Levels.antt =====
-- The levels shrink to a single block, and lie one behind the other, the top level first.
use modelwrap.Prelude.{
  ℕ, zero, suc, ◌+◌, ◌*◌, ◌%◌, ◌^◌, ◌≡◌, ◌≤◌, ◌<◌, refl, ap, [], ◌∷◌, arith, u64_mod, lt→ltb,
  le→ltb,
}
use native.Mathlib.Decide.{dec_lt}
use native.Mathlib.Nat.{pow-suc}
use modelwrap.Format.Geometry.{level_blocks, level_offsets}
use modelwrap.Format.Geometry.Tasks.{max_blocks, blocks_above, ceil_div_digests}

pub level_blocks_step :
    (fuel n : ℕ)
    → 1 < n
    → n ≤ max_blocks
    → level_blocks (suc fuel) n ≡ blocks_above n ∷ level_blocks fuel (blocks_above n)
unfolding level_blocks
level_blocks_step fuel n h le =
    rw (lt→ltb 1 n h) (ap (λ m. m ∷ level_blocks fuel m) (ceil_div_digests n le))

pub level_blocks_done : (fuel n : ℕ) → n ≤ 1 → level_blocks fuel n ≡ []
unfolding level_blocks
level_blocks_done zero n h = refl
level_blocks_done (suc fuel) n h = rw (le→ltb 1 n h)

-- Where the levels above `n` blocks end, when they start at `next`.
unfoldable pub levels_end : ℕ → ℕ → ℕ → ℕ
levels_end fuel n next = (level_offsets (level_blocks fuel n) next).1

pub levels_end_step :
    (fuel n next : ℕ)
    → 1 < n
    → n ≤ max_blocks
    → levels_end (suc fuel) n next
      ≡ (levels_end fuel (blocks_above n) next + blocks_above n * 4096) % u64_mod
unfolding levels_end level_offsets
levels_end_step fuel n next h le =
    ap (λ bs. (level_offsets bs next).1) (level_blocks_step fuel n h le)

pub levels_end_done : (fuel n next : ℕ) → n ≤ 1 → levels_end fuel n next ≡ next
unfolding levels_end level_offsets
levels_end_done fuel n next h = ap (λ bs. (level_offsets bs next).1) (level_blocks_done fuel n h)

levels_end-zero : (n next : ℕ) → levels_end zero n next ≡ next
unfolding levels_end level_offsets level_blocks
levels_end-zero n next = refl

-- The levels take at most half the room of the blocks below them, so nothing wraps around.
pub levels_end_bounds :
    (fuel n next : ℕ)
    → 0 < n
    → n ≤ max_blocks
    → next + n * 2048 < u64_mod
    → (next ≤ levels_end fuel n next) × (levels_end fuel n next ≤ next + n * 2048)
levels_end_bounds zero n next pos le fits = omega (arith, levels_end-zero n next)
levels_end_bounds (suc fuel) n next pos le fits = elim (dec_lt 1 n) [
  | yes more ↦
      let (lo, hi) =
        levels_end_bounds fuel (blocks_above n) next (omega arith) (omega arith) (omega arith) in
      let step = levels_end_step fuel n next more le in
      elim (dec_lt 128 n) [
        | yes many ↦ omega (arith, step)
        | no few ↦ omega (arith, step, levels_end_done fuel (blocks_above n) next (omega arith))
      ]
  | no done ↦ omega (arith, levels_end_done (suc fuel) n next (omega arith))
]

-- Each level above has room for 128 times fewer blocks.
pub blocks_above-le-pow : (fuel n : ℕ) → n ≤ 128 ^ suc fuel → blocks_above n ≤ 128 ^ fuel
blocks_above-le-pow fuel n h = omega (arith, pow-suc 128 fuel)
