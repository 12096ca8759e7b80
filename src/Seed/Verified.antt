-- ===== src/Seed/Verified.antt =====
-- What the workers leave below the model's directory, in every interleaving.
use modelwrap.Prelude.{
  ℕ, suc, ◌≡◌, ◌⊎◌, inl, inr, refl, sym, ap, false, List, Bytes, get_elem?, Option, none, some,
  arith,
}
use mathlib.Core.Path.{subst}
use modelwrap.Verity.{Sha256}
use modelwrap.Seed.Paths.{clean}
use modelwrap.Seed.{LfsFile, Inode, seed_target_valid}
use modelwrap.Seed.Workers.{
  idle, stopped, claimed, looking, linking, refused, Pool, Step, claim, stop, present, not_present,
  give_up, unfit, pass_over, fit, link, link_failed, accept, refuse, remove, remove_failed, replace,
  Reach, here, next, start,
}
use modelwrap.Seed.Upkeep.{
  IsCopy, held, Tracked, seed_target_valid-IsCopy, IsSeed, IsSettled, Inv, Inv-quiet,
}
use modelwrap.Seed.Upkeep.Moves.{Inv-link, Inv-accept, Inv-remove, Inv-remove_failed, Inv-replace}

module _ (h : Sha256) (mode : ℕ) (files : List LfsFile) (siblings : List Bytes)
    (initial : Bytes → Option Inode) where
  Inv-Step :
      {s u : Pool}
      → Step h mode files siblings s u
      → (Inv h mode files siblings initial) s
      → (Inv h mode files siblings initial) u
  unfolding seed_target_valid
  Inv-Step (claim s w f p at) inv =
      (Inv-quiet h mode files siblings initial) s w (suc s.next) (claimed s.next f)
        (ap (held) (sym p)) at inv
  Inv-Step (stop s w p le) inv =
      (Inv-quiet h mode files siblings initial) s w (suc s.next) stopped (ap (held) (sym p)) tt inv
  Inv-Step (present s w t f i p e) inv =
      (Inv-quiet h mode files siblings initial) s w s.next idle (ap (held) (sym p)) tt inv
  Inv-Step (not_present s w t f p) inv =
      (Inv-quiet h mode files siblings initial) s w s.next (looking t f siblings)
        (ap (held) (sym p)) (subst (Tracked files) p (inv.tracked w)) inv
  Inv-Step (give_up s w t f p) inv =
      (Inv-quiet h mode files siblings initial) s w s.next idle (ap (held) (sym p)) tt inv
  Inv-Step (unfit s w t f c rest i p e misfit) inv =
      (Inv-quiet h mode files siblings initial) s w s.next (looking t f rest) (ap (held) (sym p))
        (subst (Tracked files) p (inv.tracked w)) inv
  Inv-Step (pass_over s w t f c rest p) inv =
      (Inv-quiet h mode files siblings initial) s w s.next (looking t f rest) (ap (held) (sym p))
        (subst (Tracked files) p (inv.tracked w)) inv
  Inv-Step (fit s w t f c rest i p e fitting) inv =
      (Inv-quiet h mode files siblings initial) s w s.next (linking t f c rest) (ap (held) (sym p))
        (subst (Tracked files) p (inv.tracked w)) inv
  Inv-Step (link s w t f c rest i p e empty) inv =
      (Inv-link h mode files siblings initial) s w t f c rest i
        (subst (Tracked files) p (inv.tracked w)) (ap (held) p) empty inv
  Inv-Step (link_failed s w t f c rest p) inv =
      (Inv-quiet h mode files siblings initial) s w s.next (looking t f rest) (ap (held) (sym p))
        (subst (Tracked files) p (inv.tracked w)) inv
  Inv-Step (accept s w t f c rest p valid) inv =
      let (i, found, copied) = seed_target_valid-IsCopy h mode f (s.target (clean f.path)) valid in
      (Inv-accept h mode files siblings initial) s w t f c i (ap (held) p)
        (subst (Tracked files) p (inv.tracked w)) found copied inv
  Inv-Step (refuse s w t f c rest found readable p invalid) inv =
      (Inv-quiet h mode files siblings initial) s w s.next (refused t f c rest) (ap (held) (sym p))
        (subst (Tracked files) p (inv.tracked w)) inv
  Inv-Step (remove s w t f c rest p) inv =
      (Inv-remove h mode files siblings initial) s w (looking t f rest) (clean f.path)
        (subst (Tracked files) p (inv.tracked w)) refl (ap (held) p) inv
  Inv-Step (remove_failed s w t f c rest p) inv =
      (Inv-remove_failed h mode files siblings initial) s w inv
  Inv-Step (replace s candidate) inv = (Inv-replace h mode files siblings initial) s candidate inv

  Inv-Reach :
      {s u : Pool}
      → (Inv h mode files siblings initial) s
      → Reach h mode files siblings s u
      → (Inv h mode files siblings initial) u
  Inv-Reach inv here = inv
  Inv-Reach inv (next r step) = Inv-Step step (Inv-Reach inv r)

  held-start :
      (workers w : ℕ) (candidate : Bytes → Bytes → Option Inode)
      → held ((start workers candidate initial).phase w) ≡ none
  held-start workers w candidate = ground arith

  Inv-start :
      (workers : ℕ) (candidate : Bytes → Bytes → Option Inode)
      → (Inv h mode files siblings initial) (start workers candidate initial)
  Inv-start workers candidate = record {
    tracked = λ w. ground arith;
    kept = λ p i e. e;
    fresh = λ w p e. cc (held-start workers w candidate, e);
    there = λ w p e. cc (held-start workers w candidate, e);
    unique = λ w v p e e'. cc (held-start workers w candidate, e);
    accounted = λ p i e. inl e;
    settled = λ t c e. cc;
  }

  -- What seedFiles leaves: the files that were there, and beside them only seeds; each reported file is
  -- one of them.
  pub record IsSeeded (s : Pool) : Type 0 where
    pub untouched : (p : Bytes) (i : Inode) → initial p ≡ some i → s.target p ≡ some i
    pub only_seeds :
        (p : Bytes) (i : Inode)
        → s.target p ≡ some i
        → (initial p ≡ some i) ⊎ (IsSeed h mode files siblings initial) p i
    pub reported :
        (t : ℕ) (c : Bytes)
        → s.results t ≡ some c
        → (f : LfsFile) × (i : Inode) × (get_elem? files t ≡ some f)
          × (s.target (clean f.path) ≡ some i)
          × IsCopy h mode f i

  -- In every interleaving of the workers of seedFiles with each other and with processes that replace
  -- files below the siblings: when all workers have stopped and no error is noted, the files that were
  -- below the model's directory are there unchanged, every other file there has the probed mode and the
  -- size and the SHA-256 sum of a wanted file and stands at that file's path, and each file reported as
  -- linked is there.
  pub seed_files-IsSeeded :
      (workers : ℕ) (candidate : Bytes → Bytes → Option Inode) (s : Pool)
      → Reach h mode files siblings (start workers candidate initial) s
      → ((w : ℕ) → s.phase w ≡ stopped)
      → s.first_err ≡ false
      → IsSeeded s
  seed_files-IsSeeded workers candidate s run all_stopped fine =
      let inv : (Inv h mode files siblings initial) s =
        Inv-Reach (Inv-start workers candidate) run in
      record {
        untouched = inv.kept;
        only_seeds = λ p i e. elim (inv.accounted p i e) [
          | inl a ↦ inl a
          | inr (inl a) ↦ inr a
          | inr (inr (inl (w, a))) ↦ cc (ap (held) (all_stopped w), a)
          | inr (inr (inr a)) ↦ cc
        ];
        reported = λ t c e.
            let k : (IsSettled h mode files siblings initial) s t = inv.settled t c e in
            (k.file, k.node, k.at_index, k.there, k.copy);
      }
