-- ===== src/Format/Level/Pool/Upkeep.antt =====
-- What stays true while the workers of a level run.
use mathlib.Core.Path.{subst}
use native.Mathlib.Decide.{ℕ_discrete}
use modelwrap.Prelude.{ℕ, ◌≡◌, ◌≤◌, ◌<◌, ◌⊎◌, inr, sym, ap, ◌∙◌, Bytes, arith, Option, none, some}
use modelwrap.Verity.{Sha256}
use modelwrap.Disk.{File, IoError, Device, IsFault}
use modelwrap.Format.Geometry.{task_count}
use modelwrap.Format.Level.Kept.{IsLevel, Kept, Done, Kept-start, output}
use modelwrap.Format.Level.Pool.{
  Phase, idle, stopped, claimed, loaded, Pool, assign, assign_self, assign_other, note_err, start,
}

module _ (dev : Device) (h : Sha256) (salt : Bytes) (src_off n dst_off workers : ℕ) (f₀ : File)
    (lv : IsLevel f₀ src_off n dst_off) where
  abbrev pub Holds : ℕ → Phase → Type 0
  Holds next_task idle = Unit
  Holds next_task stopped = Unit
  Holds next_task (claimed t) = (t < task_count n) × (t < next_task)
  Holds next_task (loaded t dst) =
      (t < task_count n) × (t < next_task) × (dst ≡ output h salt src_off n dst_off f₀ lv t)

  pub Holds-mono : (a b : ℕ) (p : Phase) → a ≤ b → Holds a p → Holds b p
  Holds-mono a b idle le hp = tt
  Holds-mono a b stopped le hp = tt
  Holds-mono a b (claimed t) le hp = omega arith
  Holds-mono a b (loaded t dst) le hp = (hp.0, omega arith, hp.2)

  pub Holds-assign :
      (a b : ℕ) (phase : ℕ → Phase) (w : ℕ) (p : Phase)
      → a ≤ b
      → ((v : ℕ) → Holds a (phase v))
      → Holds b p
      → (v : ℕ) → Holds b (assign phase w p v)
  Holds-assign a b phase w p le all hp v = elim (ℕ_discrete v w) [
    | yes e ↦ rw e (rw (assign_self phase w p) hp)
    | no ne ↦ rw (assign_other phase w v p ne) (Holds-mono a b (phase v) le (all v))
  ]

  -- Some worker still has task `t` in hand.
  abbrev pub Carries : ℕ → Phase → Type 0
  Carries t idle = ⊥
  Carries t stopped = ⊥
  Carries t (claimed u) = t ≡ u
  Carries t (loaded u dst) = t ≡ u

  abbrev pub HeldBy : ℕ → (ℕ → Phase) → Type 0
  HeldBy t phase = (w : ℕ) × (w < workers) × Carries t (phase w)

  -- When one worker moves on, what another carries stays in hand.
  pub HeldBy-assign :
      (R : Type 0) (t : ℕ) (phase : ℕ → Phase) (w : ℕ) (p : Phase)
      → HeldBy t phase
      → (Carries t (phase w) → R ⊎ HeldBy t (assign phase w p))
      → R ⊎ HeldBy t (assign phase w p)
  HeldBy-assign R t phase w p (v, in_pool, c) own = elim (ℕ_discrete v w) [
    | yes e ↦ own (subst (λ u. Carries t (phase u)) e c)
    | no ne ↦ inr (v, in_pool, rw (assign_other phase w v p ne) c)
  ]

  -- An error is the device's fault, and without one every task is done or in hand, and a worker has
  -- stopped for want of tasks.
  pub record Inv (s : Pool) : Type 0 where
    pub kept : Kept h salt src_off n dst_off f₀ lv s.file
    pub faulty : (e : IoError) → s.first_err ≡ some e → IsFault dev e
    pub phases : (w : ℕ) → Holds s.next_task (s.phase w)
    pub over : s.first_err ≡ none → (w : ℕ) → s.phase w ≡ stopped → task_count n ≤ s.next_task
    pub handed_out :
        s.first_err ≡ none
        → (t : ℕ) → t < s.next_task
        → t < task_count n
        → Done h salt src_off n dst_off f₀ lv t s.file ⊎ HeldBy t s.phase

  pub Inv-start : Inv (start f₀)
  Inv-start = record {
    kept = Kept-start h salt src_off n dst_off f₀ lv;
    faulty = λ e h. cc;
    phases = λ w. tt;
    over = λ _ w h. cc;
    handed_out = λ _ t lt _. absurd (omega arith);
  }

  pub carried : (t : ℕ) (p q : Phase) → p ≡ q → Carries t p → Carries t q
  carried t p q e = subst (Carries t) e

  -- Who has stopped, when one worker moves on.
  pub over-assign :
      (a b : ℕ) (phase : ℕ → Phase) (w : ℕ) (p : Phase)
      → a ≤ b
      → (p ≡ stopped → task_count n ≤ b)
      → ((v : ℕ) → phase v ≡ stopped → task_count n ≤ a)
      → (v : ℕ) → assign phase w p v ≡ stopped
      → task_count n ≤ b
  over-assign a b phase w p le own all v e = elim (ℕ_discrete v w) [
    | yes same ↦ own (sym (assign_self phase w p) ∙ (sym (ap (assign phase w p) same) ∙ e))
    | no ne ↦ let below = all v (sym (assign_other phase w v p ne) ∙ e) in omega arith
  ]

  pub note_err-some : (o : Option IoError) (e : IoError) → note_err o e ≡ none → ⊥
  note_err-some none e h = cc
  note_err-some (some x) e h = cc

  pub note_err-IsFault :
      (o : Option IoError) (e : IoError)
      → ((x : IoError) → o ≡ some x → IsFault dev x)
      → IsFault dev e
      → (x : IoError) → note_err o e ≡ some x
      → IsFault dev x
  note_err-IsFault none e old new x h = let same : e ≡ x = cc h in subst (IsFault dev) same new
  note_err-IsFault (some y) e old new x h = old x h
