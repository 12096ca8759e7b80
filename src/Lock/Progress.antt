-- ===== src/Lock/Progress.antt =====
-- The artifact lock can always be had again: whoever owns it can give it up.
use mathlib.Core.Path.{subst}
use native.Mathlib.Decide.{ℕ_discrete}
use modelwrap.Prelude.{
  assign_other, assign_self, assign, ℕ, suc, ◌≡◌, ◌≢◌, refl, sym, ap, ◌∙◌, Option, none, some,
  Option-cases, inl, inr,
}
use modelwrap.Lock.{
  Phase, idle, opened, locked, acquired, unlinked, State, Step, create, open_existing, lock,
  lock_failed, same_file, close, release, unlink, release_unlinked, Reach, here, next, start,
}

-- A process in this phase has the lock on inode `i`.
abbrev Holding : ℕ → Phase → Type 0
Holding i idle = ⊥
Holding i (opened j) = ⊥
Holding i (locked j) = j ≡ i
Holding i (acquired j) = j ≡ i
Holding i (unlinked j) = j ≡ i

-- An owner of a lock is a process that has it.
Owning : State → Type 0
Owning s = (i v : ℕ) → s.owner i ≡ some v → Holding i (s.phase v)

-- Behind a step that leaves the owners and after which `w` still has what it had.
Owning-kept :
    (s : State) (w n : ℕ) (path : Option ℕ) (p : Phase)
    → ((i : ℕ) → Holding i (s.phase w) → Holding i p)
    → Owning s
    → Owning (record s { path = path; next_inode = n; phase = assign s.phase w p })
unfolding Owning
Owning-kept s w n path p still own i v e = elim (ℕ_discrete v w) [
  | yes same ↦
      subst (Holding i) (sym (ap (assign s.phase w p) same ∙ assign_self s.phase w p))
        (still i (subst (λ u. Holding i (s.phase u)) same (own i v e)))
  | no ne ↦ subst (Holding i) (sym (assign_other s.phase w v p ne)) (own i v e)
]

Owning-given_up :
    (s : State) (w i : ℕ)
    → ((j : ℕ) → Holding j (s.phase w) → i ≡ j)
    → Owning s
    → Owning (record s { owner = assign s.owner i none; phase = assign s.phase w idle })
unfolding Owning
Owning-given_up s w i only own j v e = elim (ℕ_discrete j i) [
  | yes same ↦ cc (e, ap (assign s.owner i none) same, assign_self s.owner i none)
  | no ne ↦
      let had : s.owner j ≡ some v = sym (assign_other s.owner i j none ne) ∙ e in
      let not_w : v ≢ w =
        λ same. ne (sym (only j (subst (λ u. Holding j (s.phase u)) same (own j v had)))) in
      subst (Holding j) (sym (assign_other s.phase w v idle not_w)) (own j v had)
]

Owning-lock :
    (s : State) (w i : ℕ)
    → s.phase w ≡ opened i
    → Owning s
    → Owning (record s { owner = assign s.owner i (some w); phase = assign s.phase w (locked i) })
unfolding Owning
Owning-lock s w i p own j v e = elim (ℕ_discrete j i) [
  | yes same ↦
      let at : some w ≡ some v =
        sym (assign_self s.owner i (some w)) ∙ (ap (assign s.owner i (some w)) (sym same) ∙ e) in
      subst (Holding j)
        (sym
          (ap (assign s.phase w (locked i)) (owner_is v w at) ∙ assign_self s.phase w (locked i)))
        (sym same)
  | no ne ↦
      let had : s.owner j ≡ some v = sym (assign_other s.owner i j (some w) ne) ∙ e in
      let not_w : v ≢ w = λ same. subst (Holding j) (ap s.phase same ∙ p) (own j v had) in
      subst (Holding j) (sym (assign_other s.phase w v (locked i) not_w)) (own j v had)
]
  where
    owner_is : (a b : ℕ) → ◌≡◌ {A = Option ℕ} (some b) (some a) → a ≡ b
    owner_is a b h = cc

Owning-Step : {s t : State} → Step s t → Owning s → Owning t
Owning-Step (create s w p empty) own =
    Owning-kept s w (suc s.next_inode) (some s.next_inode) (opened s.next_inode)
      (λ i h. subst (Holding i) p h) own
Owning-Step (open_existing s w i p e) own =
    Owning-kept s w s.next_inode s.path (opened i) (λ j h. subst (Holding j) p h) own
Owning-Step (lock s w i p free) own = Owning-lock s w i p own
Owning-Step (lock_failed s w i p) own =
    Owning-kept s w s.next_inode s.path idle (λ j h. subst (Holding j) p h) own
Owning-Step (same_file s w i p e) own =
    Owning-kept s w s.next_inode s.path (acquired i) (λ j h. subst (Holding j) p h) own
Owning-Step (close s w i p) own = Owning-given_up s w i (λ j h. subst (Holding j) p h) own
Owning-Step (release s w i p) own = Owning-given_up s w i (λ j h. subst (Holding j) p h) own
Owning-Step (unlink s w i p) own =
    Owning-kept s w s.next_inode none (unlinked i) (λ j h. subst (Holding j) p h) own
Owning-Step (release_unlinked s w i p) own =
    Owning-given_up s w i (λ j h. subst (Holding j) p h) own

Owning-Reach : {s t : State} → Owning s → Reach s t → Owning t
Owning-Reach own here = own
Owning-Reach own (next r step) = Owning-Step step (Owning-Reach own r)

Owning-start : (path : Option ℕ) (n : ℕ) → Owning (start path n)
unfolding Owning
Owning-start path n i v e = cc

Reach-trans : {r s t : State} → Reach r s → Reach s t → Reach r t
Reach-trans first here = first
Reach-trans first (next rest step) = next (Reach-trans first rest) step

abbrev given_up : State → ℕ → ℕ → State
given_up s v i = record s { owner = assign s.owner i none; phase = assign s.phase v idle }

Step-given_up :
    (s : State) (v i : ℕ) (p : Phase) → s.phase v ≡ p → Holding i p → Step s (given_up s v i)
Step-given_up s v i idle e h = absurd h
Step-given_up s v i (opened j) e h = absurd h
Step-given_up s v i (locked j) e h = close s v i (e ∙ ap locked h)
Step-given_up s v i (acquired j) e h = release s v i (e ∙ ap acquired h)
Step-given_up s v i (unlinked j) e h = release_unlinked s v i (e ∙ ap unlinked h)

-- The states behind `s` in which `w` has the lock.
abbrev pub CanAcquire : State → ℕ → Type 0
CanAcquire s w = (t : State) × (i : ℕ) × Reach s t × (t.phase w ≡ acquired i) × (t.path ≡ some i)

CanAcquire-free :
    (s : State) (w i : ℕ)
    → s.phase w ≡ opened i
    → s.path ≡ some i
    → s.owner i ≡ none
    → CanAcquire s w
CanAcquire-free s w i at path free =
    let t : State = record s {
      owner = assign s.owner i (some w);
      phase = assign s.phase w (locked i);
    } in
    (
      record t { phase = assign t.phase w (acquired i) },
      i,
      next (next here (lock s w i at free))
          (same_file t w i (assign_self s.phase w (locked i)) path),
      assign_self t.phase w (acquired i),
      path,
    )

CanAcquire-opened :
    (s : State) (w i : ℕ) → s.phase w ≡ opened i → s.path ≡ some i → Owning s → CanAcquire s w
unfolding Owning
CanAcquire-opened s w i at path own = elim (Option-cases (s.owner i)) [
  | inl free ↦ CanAcquire-free s w i at path free
  | inr (v, owned) ↦
      let held = own i v owned in
      let not_v : w ≢ v = λ same. subst (Holding i) (ap s.phase (sym same) ∙ at) held in
      let t : State = given_up s v i in
      let (u, j, run, acquires, there) =
        CanAcquire-free t w i (assign_other s.phase v w idle not_v ∙ at) path
          (assign_self s.owner i none) in
      (
        u,
        j,
        Reach-trans (next here (Step-given_up s v i (s.phase v) refl held)) run,
        acquires,
        there,
      )
]

CanAcquire-idle : (s : State) (w : ℕ) → s.phase w ≡ idle → Owning s → CanAcquire s w
CanAcquire-idle s w p own = elim (Option-cases s.path) [
  | inl missing ↦
      let step = create s w p missing in
      let (u, j, run, acquires, there) =
        CanAcquire-opened _ w s.next_inode (assign_self s.phase w (opened s.next_inode)) refl
          (Owning-Step step own) in
      (u, j, Reach-trans (next here step) run, acquires, there)
  | inr (i, path) ↦
      let step = open_existing s w i p path in
      let (u, j, run, acquires, there) =
        CanAcquire-opened _ w i (assign_self s.phase w (opened i)) path (Owning-Step step own) in
      (u, j, Reach-trans (next here step) run, acquires, there)
]

-- From whatever state any number of processes have brought the artifact lock to, with deletions of its
-- file in between, there are steps after which a process that has not started has acquired the lock, on
-- the inode that is then at the path.
pub acquired_reachable :
    (path : Option ℕ) (n : ℕ) (s : State) (w : ℕ)
    → Reach (start path n) s
    → s.phase w ≡ idle
    → CanAcquire s w
acquired_reachable path n s w run waiting =
    CanAcquire-idle s w waiting (Owning-Reach (Owning-start path n) run)
