-- ===== src/Lock/Exclusion.antt =====
-- One process at a time holds the lock of a revision, through deletions of the lock file.
use mathlib.Core.Path.{subst}
use native.Mathlib.Decide.{ℕ_discrete}
use modelwrap.Prelude.{
  assign_other, assign_self, assign, ℕ, suc, ◌≡◌, ◌≢◌, sym, ap, ◌∙◌, Option, none, some,
}
use modelwrap.Lock.{
  Phase, idle, opened, locked, acquired, unlinked, State, Step, create, open_existing, lock,
  lock_failed, same_file, close, release, unlink, release_unlinked, Reach, here, next, start,
}

-- What the phase of process `w` says of the lock.
abbrev Holds : State → ℕ → Phase → Type 0
Holds s w idle = Unit
Holds s w (opened i) = Unit
Holds s w (locked i) = s.owner i ≡ some w
Holds s w (acquired i) = (s.owner i ≡ some w) × (s.path ≡ some i)
Holds s w (unlinked i) = s.owner i ≡ some w

abbrev Inv : State → Type 0
Inv s = (w : ℕ) → Holds s w (s.phase w)

-- The phase of a process still holds where its locks stay and the path stays on them.
Holds-keep :
    (s t : State) (v : ℕ) (p : Phase)
    → ((i : ℕ) → s.owner i ≡ some v → t.owner i ≡ some v)
    → ((i : ℕ) → s.owner i ≡ some v → s.path ≡ some i → t.path ≡ some i)
    → Holds s v p
    → Holds t v p
Holds-keep s t v idle o q h = tt
Holds-keep s t v (opened i) o q h = tt
Holds-keep s t v (locked i) o q h = o i h
Holds-keep s t v (acquired i) o q h = (o i h.0, q i h.0 h.1)
Holds-keep s t v (unlinked i) o q h = o i h

-- A step of process `w` alone, with what it must leave to the others.
Inv-step :
    (s : State) (w : ℕ) (p : Phase) (path : Option ℕ) (owner : ℕ → Option ℕ) (next_inode : ℕ)
    → let t : State = record {
      path = path;
      owner = owner;
      next_inode = next_inode;
      phase = assign s.phase w p;
    } in
      Holds t w p
      → ((v i : ℕ) → v ≢ w → s.owner i ≡ some v → owner i ≡ some v)
      → ((v i : ℕ) → v ≢ w → s.owner i ≡ some v → s.path ≡ some i → path ≡ some i)
      → Inv s
      → Inv t
Inv-step s w p path owner next_inode own o q inv v =
    let t : State = record {
      path = path;
      owner = owner;
      next_inode = next_inode;
      phase = assign s.phase w p;
    } in
    elim (ℕ_discrete v w) [
      | yes same ↦
          subst (λ u. Holds t u (t.phase u)) (sym same)
            (subst (Holds t w) (sym (assign_self s.phase w p)) own)
      | no ne ↦
          subst (Holds t v) (sym (assign_other s.phase w v p ne))
            (Holds-keep s t v (s.phase v) (λ i. o v i ne) (λ i. q v i ne) (inv v))
    ]

some-injective_lem : (a b : ℕ) → ◌≡◌ {A = Option ℕ} (some a) (some b) → a ≡ b
some-injective_lem a b h = cc

-- Giving up a lock leaves the locks of the others.
given_up :
    (s : State) (w i v j : ℕ)
    → s.owner i ≡ some w
    → v ≢ w
    → s.owner j ≡ some v
    → assign s.owner i none j ≡ some v
given_up s w i v j own ne h =
    assign_other s.owner i j none (λ e. ne (some-injective_lem v w (sym h ∙ ap s.owner e ∙ own)))
    ∙ h

Inv-Step : {s t : State} → Step s t → Inv s → Inv t
Inv-Step (create s w p empty) inv =
    Inv-step s w (opened s.next_inode) (some s.next_inode) s.owner (suc s.next_inode) tt
      (λ v j ne h. h) (λ v j ne h e. cc) inv
Inv-Step (open_existing s w i p e) inv =
    Inv-step s w (opened i) s.path s.owner s.next_inode tt (λ v j ne h. h) (λ v j ne h e. e) inv
Inv-Step (lock s w i p free) inv =
    Inv-step s w (locked i) s.path (assign s.owner i (some w)) s.next_inode
      (assign_self s.owner i (some w))
      (λ v j ne h. assign_other s.owner i j (some w) (λ e. cc (e, h, free)) ∙ h) (λ v j ne h e. e)
      inv
Inv-Step (lock_failed s w i p) inv =
    Inv-step s w idle s.path s.owner s.next_inode tt (λ v j ne h. h) (λ v j ne h e. e) inv
Inv-Step (same_file s w i p e) inv =
    Inv-step s w (acquired i) s.path s.owner s.next_inode (subst (Holds s w) p (inv w), e)
      (λ v j ne h. h) (λ v j ne h e. e) inv
Inv-Step (close s w i p) inv =
    let own : s.owner i ≡ some w = subst (Holds s w) p (inv w) in
    Inv-step s w idle s.path (assign s.owner i none) s.next_inode tt
      (λ v j ne h. given_up s w i v j own ne h) (λ v j ne h e. e) inv
Inv-Step (release s w i p) inv =
    let own : Holds s w (acquired i) = subst (Holds s w) p (inv w) in
    Inv-step s w idle s.path (assign s.owner i none) s.next_inode tt
      (λ v j ne h. given_up s w i v j own.0 ne h) (λ v j ne h e. e) inv
Inv-Step (unlink s w i p) inv =
    let own : Holds s w (acquired i) = subst (Holds s w) p (inv w) in
    Inv-step s w (unlinked i) none s.owner s.next_inode own.0 (λ v j ne h. h)
      (λ v j ne h e. absurd (
        ne (
          some-injective_lem v w
            (sym h ∙ ap s.owner (some-injective_lem j i (sym e ∙ own.1)) ∙ own.0))))
      inv
Inv-Step (release_unlinked s w i p) inv =
    let own : s.owner i ≡ some w = subst (Holds s w) p (inv w) in
    Inv-step s w idle s.path (assign s.owner i none) s.next_inode tt
      (λ v j ne h. given_up s w i v j own ne h) (λ v j ne h e. e) inv

Inv-Reach : {s t : State} → Reach s t → Inv s → Inv t
Inv-Reach here inv = inv
Inv-Reach (next r st) inv = Inv-Step st (Inv-Reach r inv)

-- However the processes are scheduled, and whichever of them unlink the lock file, at most one at a
-- time has acquired the lock and not yet unlinked its file, and it has the file that is at the path.
pub acquired_unique :
    (path : Option ℕ) (next_inode : ℕ) (s : State) (v w i j : ℕ)
    → Reach (start path next_inode) s
    → s.phase v ≡ acquired i
    → s.phase w ≡ acquired j
    → (v ≡ w) × (s.path ≡ some i)
acquired_unique path next_inode s v w i j r hv hw =
    let inv = Inv-Reach r (λ w. tt) in
    let a : Holds s v (acquired i) = subst (Holds s v) hv (inv v) in
    let b : Holds s w (acquired j) = subst (Holds s w) hw (inv w) in
    let same = some-injective_lem i j (sym a.1 ∙ b.1) in
    (some-injective_lem v w (sym a.0 ∙ ap s.owner same ∙ b.0), a.1)
