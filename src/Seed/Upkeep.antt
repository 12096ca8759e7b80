-- ===== src/Seed/Upkeep.antt =====
-- What stays true below the model's directory while the workers run.
pub mod Moves
use native.Mathlib.Decide.{ℕ_discrete}
use modelwrap.Prelude.{
  assign_other, assign, ℕ, suc, ◌≡◌, ◌≢◌, ◌⊎◌, inl, inr, refl, sym, ap, ◌∙◌, true, false,
  Bool-cases, Option-cases, List, Bytes, beq, beq_iff, beq_refl, get_elem?, Option, none, some,
  ◌==◌, ==_iff, &&_split, arith, pos, negsuc, ℤ,
}
use mathlib.Core.Path.{subst}
use modelwrap.Verity.{Sha256, hex_encode}
use modelwrap.Seed.Paths.{clean}
use modelwrap.Seed.{LfsFile, Inode, fits, is_size, seed_target_valid, to_lower, has_sum}
use modelwrap.Seed.Workers.{
  Phase, idle, stopped, claimed, looking, linking, linked, refused, Pool, place, Step, claim, stop,
  present, not_present, give_up, unfit, pass_over, fit, link, link_failed, accept, refuse, remove,
  remove_failed, replace, Reach, here, next, start,
}

-- The file has the mode, the size and the content that is wanted.
pub record IsCopy (h : Sha256) (mode : ℕ) (f : LfsFile) (i : Inode) : Type 0 where
  pub same_mode : i.mode ≡ mode
  pub same_size : pos i.size ≡ f.size
  pub same_sum : hex_encode (h.sum i.content) ≡ to_lower f.sha256

-- The path that a worker has linked and not yet decided on.
abbrev pub held : Phase → Option Bytes
held idle = none
held stopped = none
held (claimed t f) = none
held (looking t f rest) = none
held (linking t f c rest) = none
held (linked t f c rest) = some (clean f.path)
held (refused t f c rest) = some (clean f.path)

-- A worker's file is the one of its index.
abbrev pub Tracked : List LfsFile → Phase → Type 0
Tracked files idle = Unit
Tracked files stopped = Unit
Tracked files (claimed t f) = get_elem? files t ≡ some f
Tracked files (looking t f rest) = get_elem? files t ≡ some f
Tracked files (linking t f c rest) = get_elem? files t ≡ some f
Tracked files (linked t f c rest) = get_elem? files t ≡ some f
Tracked files (refused t f c rest) = get_elem? files t ≡ some f

pub is_size-eq : (n : ℕ) (z : ℤ) → is_size n z ≡ true → pos n ≡ z
is_size-eq n (pos m) e = ap pos ((==_iff n m).0 e)
is_size-eq n (negsuc m) e = cc

pub seed_target_valid-IsCopy :
    (h : Sha256) (mode : ℕ) (f : LfsFile) (o : Option Inode)
    → seed_target_valid h mode f o true ≡ true
    → (i : Inode) × (o ≡ some i) × IsCopy h mode f i
unfolding seed_target_valid
seed_target_valid-IsCopy h mode f none e = cc
seed_target_valid-IsCopy h mode f (some i) e =
    let (fitting, summed) = &&_split (fits mode f i) (has_sum h f i.content) e in
    let (moded, sized) = &&_split (i.mode == mode) (is_size i.size f.size) fitting in
    (
      i,
      refl,
      record {
        same_mode = (==_iff i.mode mode).0 moded;
        same_size = is_size-eq i.size f.size sized;
        same_sum = (beq_iff (hex_encode (h.sum i.content)) (to_lower f.sha256)).0 summed;
      },
    )

pub place_self : (m : Bytes → Option Inode) (p : Bytes) (o : Option Inode) → place m p o p ≡ o
place_self m p o = rw (beq_refl p) refl

pub place_other :
    (m : Bytes → Option Inode) (p q : Bytes) (o : Option Inode) → q ≢ p → place m p o q ≡ m q
place_other m p q o ne = elim (Bool-cases (beq q p)) [
  | inl e ↦ absurd (ne ((beq_iff q p).0 e))
  | inr e ↦ rw e refl
]

module _ (h : Sha256) (mode : ℕ) (files : List LfsFile) (siblings : List Bytes)
    (initial : Bytes → Option Inode) where
  -- A copy of a wanted file, at the path where it is wanted.
  pub record IsSeed (p : Bytes) (i : Inode) : Type 0 where
    pub index : ℕ
    pub lfs_file : LfsFile
    pub at_index : get_elem? files index ≡ some lfs_file
    pub at_path : clean lfs_file.path ≡ p
    pub copy : IsCopy h mode lfs_file i

  abbrev pub Accounted : Pool → Bytes → Inode → Type 0
  Accounted s p i =
      (initial p ≡ some i)
      ⊎ (IsSeed p i ⊎ (((w : ℕ) × (held (s.phase w) ≡ some p)) ⊎ (s.first_err ≡ true)))

  -- The file at an index is a seed, and no worker is about to remove it.
  pub record IsSettled (s : Pool) (t : ℕ) : Type 0 where
    pub file : LfsFile
    pub node : Inode
    pub at_index : get_elem? files t ≡ some file
    pub there : s.target (clean file.path) ≡ some node
    pub copy : IsCopy h mode file node
    pub free : (w : ℕ) → held (s.phase w) ≢ some (clean file.path)

  pub record Inv (s : Pool) : Type 0 where
    pub tracked : (w : ℕ) → Tracked files (s.phase w)
    pub kept : (p : Bytes) (i : Inode) → initial p ≡ some i → s.target p ≡ some i
    pub fresh : (w : ℕ) (p : Bytes) → held (s.phase w) ≡ some p → initial p ≡ none
    pub there :
        (w : ℕ) (p : Bytes) → held (s.phase w) ≡ some p → (i : Inode) × (s.target p ≡ some i)
    pub unique :
        (w v : ℕ) (p : Bytes) → held (s.phase w) ≡ some p → held (s.phase v) ≡ some p → w ≡ v
    pub accounted : (p : Bytes) (i : Inode) → s.target p ≡ some i → Accounted s p i
    pub settled : (t : ℕ) (c : Bytes) → s.results t ≡ some c → IsSettled s t

  -- Behind a step that neither links, removes nor records.
  pub Inv-quiet :
      (s : Pool) (w n : ℕ) (v : Phase)
      → held v ≡ held (s.phase w)
      → Tracked files v
      → Inv s
      → Inv (record s { next = n; phase = assign s.phase w v })
  Inv-quiet s w n v same track inv =
      let after : ℕ → Phase = assign s.phase w v in
      let held_same : (u : ℕ) → held (after u) ≡ held (s.phase u) =
        λ u. elim (ℕ_discrete u w) [ yes e ↦ ground arith | no ne ↦ ground arith ] in
      record {
        tracked = λ u. elim (ℕ_discrete u w) [
          | yes e ↦ ground arith
          | no ne ↦ ground (arith, inv.tracked u)
        ];
        kept = inv.kept;
        fresh = λ u p e. inv.fresh u p (sym (held_same u) ∙ e);
        there = λ u p e. inv.there u p (sym (held_same u) ∙ e);
        unique = λ u u' p e e'. inv.unique u u' p (sym (held_same u) ∙ e) (sym (held_same u') ∙ e');
        accounted = λ p i e. elim (inv.accounted p i e) [
          | inl a ↦ inl a
          | inr (inl a) ↦ inr (inl a)
          | inr (inr (inl (u, a))) ↦ inr (inr (inl (u, held_same u ∙ a)))
          | inr (inr (inr a)) ↦ inr (inr (inr a))
        ];
        settled = λ t c e.
            let k : IsSettled s t = inv.settled t c e in
            record {
              file = k.file;
              node = k.node;
              at_index = k.at_index;
              there = k.there;
              copy = k.copy;
              free = λ u a. k.free u (sym (held_same u) ∙ a);
            };
      }

  -- What a worker holds behind its own step, and what the others hold.
  pub held-assign :
      (s : Pool) (w u : ℕ) (v : Phase) (p : Bytes)
      → held (assign s.phase w v u) ≡ some p
      → ((u ≡ w) × (held v ≡ some p)) ⊎ ((u ≢ w) × (held (s.phase u) ≡ some p))
  held-assign s w u v p e = elim (ℕ_discrete u w) [
    | yes same ↦ inl (same, ground arith)
    | no ne ↦ inr (ne, ground arith)
  ]

  pub held-assign_other :
      (s : Pool) (w u : ℕ) (v : Phase) → u ≢ w → held (assign s.phase w v u) ≡ held (s.phase u)
  held-assign_other s w u v ne = ground arith

  pub held-assign_self : (s : Pool) (w : ℕ) (v : Phase) → held (assign s.phase w v w) ≡ held v
  held-assign_self s w v = ground arith

  pub Tracked-assign :
      (s : Pool) (w : ℕ) (v : Phase)
      → Tracked files v
      → ((u : ℕ) → Tracked files (s.phase u))
      → (u : ℕ) → Tracked files (assign s.phase w v u)
  Tracked-assign s w v own all u = elim (ℕ_discrete u w) [
    | yes e ↦ ground arith
    | no ne ↦ ground (arith, all u)
  ]
