-- ===== src/Seed/Ends.antt =====
-- seedFiles ends: how often its workers can step.
use native.Mathlib.Decide.{ℕ_discrete, dec_lt}
use modelwrap.Prelude.{
  assign_other, assign_self, assign, ℕ, zero, suc, ◌+◌, ◌*◌, ◌-◌, ◌≡◌, ◌≢◌, ◌≤◌, ◌<◌, inl, inr,
  refl, sym, ap, ◌∙◌, true, Bool-cases, List, [], ◌∷◌, Bytes, get_elem?, length, Option, none, some,
  arith, Option-cases,
}
use mathlib.Core.Path.{subst}
use modelwrap.Verity.{Sha256}
use modelwrap.Seed.Paths.{clean}
use modelwrap.Seed.{LfsFile, Inode, seed_target_valid}
use modelwrap.Seed.Workers.{
  Phase, idle, stopped, claimed, looking, linking, linked, refused, Pool, Step, claim, stop,
  present, not_present, give_up, unfit, pass_over, fit, link, link_failed, accept, refuse, remove,
  remove_failed, replace, start,
}

-- The steps that a worker can still take for its file, with `m` siblings.
abbrev weight : ℕ → Phase → ℕ
weight m stopped = 0
weight m idle = 1
weight m (claimed t f) = 4 * m + 3
weight m (looking t f rest) = 4 * length rest + 2
weight m (linking t f c rest) = 4 * length rest + 5
weight m (linked t f c rest) = 4 * length rest + 4
weight m (refused t f c rest) = 4 * length rest + 3

-- Of the first `k` workers.
abbrev weights : ℕ → ℕ → (ℕ → Phase) → ℕ
weights m zero phase = 0
weights m (suc k) phase = weights m k phase + weight m (phase k)

weights-assign_above :
    (m k w : ℕ) (phase : ℕ → Phase) (v : Phase)
    → k ≤ w
    → weights m k (assign phase w v) ≡ weights m k phase
weights-assign_above m zero w phase v le = refl
weights-assign_above m (suc k) w phase v le =
    rw (weights-assign_above m k w phase v (omega arith), assign_other phase w k v (omega arith))
      refl

weights-assign :
    (m k w : ℕ) (phase : ℕ → Phase) (v : Phase)
    → w < k
    → weights m k (assign phase w v) + weight m (phase w) ≡ weights m k phase + weight m v
weights-assign m zero w phase v lt = omega arith
weights-assign m (suc k) w phase v lt = elim (ℕ_discrete k w) [
  | yes same ↦
      let above : weights m k (assign phase w v) ≡ weights m k phase =
        weights-assign_above m k w phase v (omega arith) in
      let last : assign phase w v k ≡ v = ap (assign phase w v) same ∙ assign_self phase w v in
      rw last (rw above (rw same (omega arith)))
  | no ne ↦
      let below : weights m k (assign phase w v) + weight m (phase w)
          ≡ weights m k phase + weight m v =
        weights-assign m k w phase v (omega arith) in
      let last : assign phase w v k ≡ phase k = assign_other phase w k v ne in rw last (omega arith)
]

get_elem?-none : (fs : List LfsFile) (t : ℕ) → t < length fs → get_elem? fs t ≢ none
get_elem?-none [] t lt e = omega arith
get_elem?-none (x ∷ fs) zero lt e = cc
get_elem?-none (x ∷ fs) (suc t) lt e = get_elem?-none fs t (omega arith) e

suc_times : (a k : ℕ) → a * k + k ≡ suc a * k
suc_times a k = omega arith

module _ (h : Sha256) (mode : ℕ) (files : List LfsFile) (siblings : List Bytes) (workers : ℕ) where
  abbrev measure : ℕ → (ℕ → Phase) → ℕ
  measure n phase =
      (length files - n) * (4 * length siblings + 3) + weights (length siblings) workers phase

  -- There are no other workers.
  abbrev Confined : (ℕ → Phase) → Type 0
  Confined phase = (w : ℕ) → workers ≤ w → phase w ≡ stopped

  -- One for a step of a worker, nothing for a step of another process.
  abbrev pub work : {s u : Pool} → Step h mode files siblings s u → ℕ
  work (replace s c) = 0
  work _ = 1

  Confined-assign :
      (phase : ℕ → Phase) (w : ℕ) (v : Phase)
      → Confined phase
      → phase w ≢ stopped
      → Confined (assign phase w v)
  Confined-assign phase w v only running u le =
      assign_other phase w u v (λ same. running (only w (subst (λ k. workers ≤ k) same le)))
      ∙ only u le

  -- A worker's step lowers the measure, when it lowers the worker's share of it.
  lowered :
      (n n' w : ℕ) (phase : ℕ → Phase) (old v : Phase)
      → Confined phase
      → phase w ≡ old
      → old ≢ stopped
      → (length files - n') * (4 * length siblings + 3) + weight (length siblings) v
        < (length files - n) * (4 * length siblings + 3) + weight (length siblings) old
      → Confined (assign phase w v) × (measure n' (assign phase w v) < measure n phase)
  lowered n n' w phase old v only at running less = elim (dec_lt w workers) [
    | yes lt ↦
        let sum : weights (length siblings) workers (assign phase w v)
              + weight (length siblings) old
            ≡ weights (length siblings) workers phase + weight (length siblings) v =
          ap
            (λ p. weights (length siblings) workers (assign phase w v) + weight (length siblings) p)
            (sym at)
          ∙ weights-assign (length siblings) workers w phase v lt in
        (Confined-assign phase w v only (λ e. running (sym at ∙ e)), omega arith)
    | no ge ↦ absurd (running (sym at ∙ only w (omega arith)))
  ]

  -- The same, of a step that claims nothing.
  moved :
      (s : Pool) (w : ℕ) (old v : Phase)
      → Confined s.phase
      → s.phase w ≡ old
      → old ≢ stopped
      → weight (length siblings) v < weight (length siblings) old
      → Confined (assign s.phase w v)
        × (measure s.next (assign s.phase w v) + 1 ≤ measure s.next s.phase)
  moved s w old v only at running less =
      let low = lowered s.next s.next w s.phase old v only at running (omega arith) in
      (low.0, omega arith)

  one_claim : (n k : ℕ) → n < length files → (length files - suc n) * k + k ≡ (length files - n) * k
  one_claim n k lt =
      let left : length files - n ≡ suc (length files - suc n) = omega arith in
      rw left (suc_times (length files - suc n) k)

  present_index :
      (t : ℕ) (f : LfsFile) (fs : List LfsFile) → get_elem? fs t ≡ some f → t < length fs
  present_index t f [] e = cc
  present_index zero f (x ∷ fs) e = omega arith
  present_index (suc t) f (x ∷ fs) e = let lt = present_index t f fs e in omega arith

  -- In a run: what is confined, and how many steps the workers have taken.
  pub data Run (s : Pool) : ℕ → Pool → Type 0 where
    here : Run s 0 s
    next :
        {n : ℕ} {t u : Pool}
        → Run s n t
        → (step : Step h mode files siblings t u) → Run s (work step + n) u

  abbrev Goes : Pool → Pool → ℕ → Type 0
  Goes s u n = Confined u.phase × (measure u.next u.phase + n ≤ measure s.next s.phase)

  Step-Goes :
      {s u : Pool} (step : Step h mode files siblings s u) → Confined s.phase → Goes s u (work step)
  Step-Goes (claim s w f p at) only =
      let lt : s.next < length files = present_index s.next f files at in
      let eq = one_claim s.next (4 * length siblings + 3) lt in
      let low =
        lowered s.next (suc s.next) w s.phase idle (claimed s.next f) only p (λ e. cc)
          (omega arith) in
      (low.0, omega arith)
  Step-Goes (stop s w p le) only =
      let left : length files - suc s.next ≡ length files - s.next = omega arith in
      let low =
        lowered s.next (suc s.next) w s.phase idle stopped only p (λ e. cc)
          (rw left (omega arith)) in
      (low.0, omega arith)
  Step-Goes (present s w t f i p e) only =
      moved s w (claimed t f) idle only p (λ e. cc) (omega arith)
  Step-Goes (not_present s w t f p) only =
      moved s w (claimed t f) (looking t f siblings) only p (λ e. cc) (omega arith)
  Step-Goes (give_up s w t f p) only =
      moved s w (looking t f []) idle only p (λ e. cc) (omega arith)
  Step-Goes (unfit s w t f c rest i p e misfit) only =
      moved s w (looking t f (c ∷ rest)) (looking t f rest) only p (λ e. cc) (omega arith)
  Step-Goes (pass_over s w t f c rest p) only =
      moved s w (looking t f (c ∷ rest)) (looking t f rest) only p (λ e. cc) (omega arith)
  Step-Goes (fit s w t f c rest i p e fitting) only =
      moved s w (looking t f (c ∷ rest)) (linking t f c rest) only p (λ e. cc) (omega arith)
  Step-Goes (link s w t f c rest i p e empty) only =
      moved s w (linking t f c rest) (linked t f c rest) only p (λ e. cc) (omega arith)
  Step-Goes (link_failed s w t f c rest p) only =
      moved s w (linking t f c rest) (looking t f rest) only p (λ e. cc) (omega arith)
  Step-Goes (accept s w t f c rest p valid) only =
      moved s w (linked t f c rest) idle only p (λ e. cc) (omega arith)
  Step-Goes (refuse s w t f c rest found readable p invalid) only =
      moved s w (linked t f c rest) (refused t f c rest) only p (λ e. cc) (omega arith)
  Step-Goes (remove s w t f c rest p) only =
      moved s w (refused t f c rest) (looking t f rest) only p (λ e. cc) (omega arith)
  Step-Goes (remove_failed s w t f c rest p) only =
      moved s w (refused t f c rest) stopped only p (λ e. cc) (omega arith)
  Step-Goes (replace s candidate) only = (only, omega arith)

  Run-Goes : {s : Pool} {n : ℕ} {u : Pool} → Confined s.phase → Run s n u → Goes s u n
  Run-Goes only here = (only, omega arith)
  Run-Goes only (next r step) =
      let before = Run-Goes only r in let after = Step-Goes step before.0 in (after.0, omega arith)

  -- A worker that has not stopped can step.
  abbrev pub CanStep : Pool → Type 0
  CanStep s = (u : Pool) × (step : Step h mode files siblings s u) × (work step ≡ 1)

  CanStep-idle : (s : Pool) (w : ℕ) → s.phase w ≡ idle → CanStep s
  CanStep-idle s w p = elim (dec_lt s.next (length files)) [
    | yes lt ↦ elim (Option-cases (get_elem? files s.next)) [
      | inl none_there ↦ absurd (get_elem?-none files s.next lt none_there)
      | inr (f, at) ↦ (_, claim s w f p at, refl)
    ]
    | no ge ↦ (_, stop s w p (omega arith), refl)
  ]

  CanStep-running : (s : Pool) (w : ℕ) (v : Phase) → s.phase w ≡ v → v ≢ stopped → CanStep s
  CanStep-running s w idle p ne = CanStep-idle s w p
  CanStep-running s w stopped p ne = absurd (ne refl)
  CanStep-running s w (claimed t f) p ne = (_, not_present s w t f p, refl)
  CanStep-running s w (looking t f []) p ne = (_, give_up s w t f p, refl)
  CanStep-running s w (looking t f (c ∷ rest)) p ne = (_, pass_over s w t f c rest p, refl)
  CanStep-running s w (linking t f c rest) p ne = (_, link_failed s w t f c rest p, refl)
  CanStep-running s w (linked t f c rest) p ne =
      elim (Bool-cases (seed_target_valid h mode f (s.target (clean f.path)) true)) [
        | inl valid ↦ (_, accept s w t f c rest p valid, refl)
        | inr invalid ↦ (_, refuse s w t f c rest true true p invalid, refl)
      ]
  CanStep-running s w (refused t f c rest) p ne = (_, remove s w t f c rest p, refl)

  weights-start :
      (k : ℕ) (candidate : Bytes → Bytes → Option Inode) (target : Bytes → Option Inode)
      → k ≤ workers
      → weights (length siblings) k (start workers candidate target).phase ≡ k
  weights-start zero candidate target le = refl
  weights-start (suc k) candidate target le =
      let below = weights-start k candidate target (omega arith) in
      let first : weight (length siblings) ((start workers candidate target).phase k) ≡ 1 =
        ground arith in
      omega arith

  -- Whatever the workers of seedFiles find and whatever other processes do in between, the workers take
  -- no more steps than 4 for each file and each sibling, 3 more for each file, and one for each worker;
  -- and as long as a worker has not stopped, a worker can step.
  pub workers_end :
      (candidate : Bytes → Bytes → Option Inode) (target : Bytes → Option Inode) (n : ℕ) (s : Pool)
      → Run (start workers candidate target) n s
      → (n ≤ length files * (4 * length siblings + 3) + workers)
        × ((w : ℕ) → s.phase w ≢ stopped → CanStep s)
  workers_end candidate target n s run =
      let goes = Run-Goes (λ w le. ground arith) run in
      let all : length files - 0 ≡ length files = omega arith in
      let bound : measure s.next s.phase + n
          ≤ length files * (4 * length siblings + 3)
            + weights (length siblings) workers (start workers candidate target).phase =
        subst
          (λ k.
            measure s.next s.phase + n
            ≤ k * (4 * length siblings + 3)
              + weights (length siblings) workers (start workers candidate target).phase)
          all goes.1 in
      let first = weights-start workers candidate target (omega arith) in
      (omega arith, λ w ne. CanStep-running s w (s.phase w) refl ne)
