-- ===== src/Format/Level/Pool/Hashed.antt =====
-- Any number of workers in any interleaving, on a device that can fail: the file behind a level.
use mathlib.Core.Path.{subst}
use native.Mathlib.Decide.{dec_lt}
use modelwrap.Prelude.{ℕ, suc, ◌≡◌, ◌≤◌, ◌<◌, inl, inr, sym, ap, ◌∙◌, Bytes, arith, ok, none, some}
use modelwrap.Verity.{Sha256}
use modelwrap.Disk.{File, IoError, Device, IsFault}
use modelwrap.Format.Geometry.{task_of, task_count}
use modelwrap.Format.Level.{task_output, load_task, store_task}
use modelwrap.Format.Level.Kept.{
  IsLevel, Kept, Done, hashed, Kept-after, Done-after, Done-after_self, hashed_of_Done, output,
  after,
}
use modelwrap.Format.Level.Faults.{load_ok, load_failed, store_ok, store_failed}
use modelwrap.Format.Level.Pool.{
  idle, stopped, claimed, loaded, Pool, assign, assign_self, note_err, Step, claim, stop, load,
  load_error, store, store_error, Reach, here, next, start,
}
use modelwrap.Format.Level.Pool.Upkeep.{
  Holds, Holds-assign, HeldBy-assign, Inv, Inv-start, carried, over-assign, note_err-some,
  note_err-IsFault,
}

module _ (dev : Device) (h : Sha256) (salt : Bytes) (src_off n dst_off workers : ℕ) (f₀ : File)
    (lv : IsLevel f₀ src_off n dst_off) where
  Inv-claim :
      (s : Pool) (w : ℕ)
      → w < workers
      → s.phase w ≡ idle
      → s.next_task < task_count n
      → (Inv dev h salt src_off n dst_off workers f₀ lv) s
      → (Inv dev h salt src_off n dst_off workers f₀ lv)
          (record s { next_task = suc s.next_task; phase = assign s.phase w (claimed s.next_task) })
  Inv-claim s w hw p lt inv = record {
    kept = inv.kept;
    faulty = inv.faulty;
    over = λ clean.
        (over-assign dev h salt src_off n dst_off workers f₀ lv) s.next_task (suc s.next_task)
          s.phase w (claimed s.next_task) (omega arith) (λ e. cc) (inv.over clean);
    phases =
        (Holds-assign dev h salt src_off n dst_off workers f₀ lv) s.next_task (suc s.next_task)
          s.phase w (claimed s.next_task) (omega arith) inv.phases (omega arith);
    handed_out = λ clean t below ht. elim (dec_lt t s.next_task) [
      | yes old ↦ elim (inv.handed_out clean t old ht) [
        | inl d ↦ inl d
        | inr held ↦
            (HeldBy-assign dev h salt src_off n dst_off workers f₀ lv) _ t s.phase w _ held
              (λ c. absurd ((carried dev h salt src_off n dst_off workers f₀ lv) t _ _ p c))
      ]
      | no new ↦ inr (w, hw, rw (assign_self s.phase w (claimed s.next_task)) (omega arith))
    ];
  }

  Inv-stop :
      (s : Pool) (w : ℕ)
      → s.phase w ≡ idle
      → task_count n ≤ s.next_task
      → (Inv dev h salt src_off n dst_off workers f₀ lv) s
      → (Inv dev h salt src_off n dst_off workers f₀ lv)
          (record s { next_task = suc s.next_task; phase = assign s.phase w stopped })
  Inv-stop s w p le inv = record {
    kept = inv.kept;
    faulty = inv.faulty;
    over = λ clean.
        (over-assign dev h salt src_off n dst_off workers f₀ lv) s.next_task (suc s.next_task)
          s.phase w stopped (omega arith) (λ e. omega arith) (inv.over clean);
    phases =
        (Holds-assign dev h salt src_off n dst_off workers f₀ lv) s.next_task (suc s.next_task)
          s.phase w stopped (omega arith) inv.phases tt;
    handed_out = λ clean t below ht. elim (inv.handed_out clean t (omega arith) ht) [
      | inl d ↦ inl d
      | inr held ↦
          (HeldBy-assign dev h salt src_off n dst_off workers f₀ lv) _ t s.phase w _ held
            (λ c. absurd ((carried dev h salt src_off n dst_off workers f₀ lv) t _ _ p c))
    ];
  }

  Inv-load :
      (s : Pool) (w t : ℕ) (src : Bytes)
      → w < workers
      → s.phase w ≡ claimed t
      → load_task dev s.file src_off (task_of n t) ≡ ok src
      → (Inv dev h salt src_off n dst_off workers f₀ lv) s
      → (Inv dev h salt src_off n dst_off workers f₀ lv)
          (record s { phase = assign s.phase w (loaded t (task_output h salt (task_of n t) src)) })
  unfolding output
  Inv-load s w t src hw p r inv =
      let here =
        subst ((Holds dev h salt src_off n dst_off workers f₀ lv) s.next_task) p (inv.phases w) in
      record {
        kept = inv.kept;
        faulty = inv.faulty;
        over = λ clean.
            (over-assign dev h salt src_off n dst_off workers f₀ lv) s.next_task s.next_task s.phase
              w _ (omega arith) (λ e. cc) (inv.over clean);
        phases =
            (Holds-assign dev h salt src_off n dst_off workers f₀ lv) s.next_task s.next_task
              s.phase w _ (omega arith) inv.phases
              (
                here.0,
                here.1,
                ap (task_output h salt (task_of n t))
                    (load_ok h salt src_off n dst_off f₀ lv dev s.file t src inv.kept here.0 r),
              );
        handed_out = λ clean u below hu. elim (inv.handed_out clean u below hu) [
          | inl d ↦ inl d
          | inr held ↦
              (HeldBy-assign dev h salt src_off n dst_off workers f₀ lv) _ u s.phase w _ held (λ c.
                inr (
                  w,
                  hw,
                  rw (assign_self s.phase w _)
                      ((carried dev h salt src_off n dst_off workers f₀ lv) u _ _ p c),
                ))
        ];
      }

  -- A worker that ends with an error.
  Inv-failed :
      (s : Pool) (w : ℕ) (f : File) (e : IoError)
      → Kept h salt src_off n dst_off f₀ lv f
      → IsFault dev e
      → (Inv dev h salt src_off n dst_off workers f₀ lv) s
      → (Inv dev h salt src_off n dst_off workers f₀ lv) (record s {
        phase = assign s.phase w stopped;
        file = f;
        first_err = note_err s.first_err e;
      })
  Inv-failed s w f e kept fault inv = record {
    kept = kept;
    faulty =
        (note_err-IsFault dev h salt src_off n dst_off workers f₀ lv) s.first_err e inv.faulty
          fault;
    over = λ clean.
        absurd ((note_err-some dev h salt src_off n dst_off workers f₀ lv) s.first_err e clean);
    phases =
        (Holds-assign dev h salt src_off n dst_off workers f₀ lv) s.next_task s.next_task s.phase w
          stopped (omega arith) inv.phases tt;
    handed_out = λ clean.
        absurd ((note_err-some dev h salt src_off n dst_off workers f₀ lv) s.first_err e clean);
  }

  Inv-store :
      (s : Pool) (w t : ℕ) (dst : Bytes)
      → s.phase w ≡ loaded t dst
      → (store_task dev s.file dst_off (task_of n t) dst).1 ≡ none
      → (Inv dev h salt src_off n dst_off workers f₀ lv) s
      → (Inv dev h salt src_off n dst_off workers f₀ lv) (record s {
        phase = assign s.phase w idle;
        file = (store_task dev s.file dst_off (task_of n t) dst).0;
      })
  Inv-store s w t dst p done inv =
      let here =
        subst ((Holds dev h salt src_off n dst_off workers f₀ lv) s.next_task) p (inv.phases w) in
      let own = output h salt src_off n dst_off f₀ lv t in
      let left : (store_task dev s.file dst_off (task_of n t) dst).0
          ≡ after h salt src_off n dst_off f₀ lv t s.file =
        ap (λ b. (store_task dev s.file dst_off (task_of n t) b).0) here.2
        ∙ store_ok h salt src_off n dst_off f₀ lv dev s.file t
            (sym (ap (λ b. (store_task dev s.file dst_off (task_of n t) b).1) here.2) ∙ done) in
      rw left (record {
        kept = Kept-after h salt src_off n dst_off f₀ lv s.file t inv.kept here.0;
        faulty = inv.faulty;
        over = λ clean.
            (over-assign dev h salt src_off n dst_off workers f₀ lv) s.next_task s.next_task s.phase
              w idle (omega arith) (λ e. cc) (inv.over clean);
        phases =
            (Holds-assign dev h salt src_off n dst_off workers f₀ lv) s.next_task s.next_task
              s.phase w idle (omega arith) inv.phases tt;
        handed_out = λ clean u below hu. elim (inv.handed_out clean u below hu) [
          | inl d ↦ inl (Done-after h salt src_off n dst_off f₀ lv s.file t u inv.kept here.0 hu d)
          | inr held ↦
              (HeldBy-assign dev h salt src_off n dst_off workers f₀ lv) _ u s.phase w _ held (λ c.
                inl (
                  subst
                    (λ v.
                      Done h salt src_off n dst_off f₀ lv v
                        (after h salt src_off n dst_off f₀ lv t s.file))
                    (sym ((carried dev h salt src_off n dst_off workers f₀ lv) u _ _ p c))
                    (Done-after_self h salt src_off n dst_off f₀ lv s.file t inv.kept here.0)))
        ];
      })

  Inv-store_error :
      (s : Pool) (w t : ℕ) (dst : Bytes) (e : IoError)
      → s.phase w ≡ loaded t dst
      → (store_task dev s.file dst_off (task_of n t) dst).1 ≡ some e
      → (Inv dev h salt src_off n dst_off workers f₀ lv) s
      → (Inv dev h salt src_off n dst_off workers f₀ lv) (record s {
        phase = assign s.phase w stopped;
        file = (store_task dev s.file dst_off (task_of n t) dst).0;
        first_err = note_err s.first_err e;
      })
  Inv-store_error s w t dst e p failed inv =
      let here =
        subst ((Holds dev h salt src_off n dst_off workers f₀ lv) s.next_task) p (inv.phases w) in
      let (fault, kept) =
        store_failed h salt src_off n dst_off f₀ lv dev s.file t e inv.kept here.0
          (sym (ap (λ b. (store_task dev s.file dst_off (task_of n t) b).1) here.2) ∙ failed) in
      Inv-failed s w (store_task dev s.file dst_off (task_of n t) dst).0 e
        (subst
          (λ b.
            Kept h salt src_off n dst_off f₀ lv (store_task dev s.file dst_off (task_of n t) b).0)
          (sym here.2) kept)
        fault inv

  Inv-Step :
      {s t : Pool}
      → Step dev h salt src_off n dst_off workers s t
      → (Inv dev h salt src_off n dst_off workers f₀ lv) s
      → (Inv dev h salt src_off n dst_off workers f₀ lv) t
  Inv-Step (claim s w hw p lt) inv = Inv-claim s w hw p lt inv
  Inv-Step (stop s w hw p le) inv = Inv-stop s w p le inv
  Inv-Step (load s w t src hw p r) inv = Inv-load s w t src hw p r inv
  Inv-Step (load_error s w t e hw p r) inv =
      let here =
        subst ((Holds dev h salt src_off n dst_off workers f₀ lv) s.next_task) p (inv.phases w) in
      Inv-failed s w s.file e inv.kept
        (load_failed h salt src_off n dst_off f₀ lv dev s.file t e inv.kept here.0 r) inv
  Inv-Step (store s w t dst hw p done) inv = Inv-store s w t dst p done inv
  Inv-Step (store_error s w t dst e hw p failed) inv = Inv-store_error s w t dst e p failed inv

  pub Inv-Reach :
      {s t : Pool}
      → Reach dev h salt src_off n dst_off workers s t
      → (Inv dev h salt src_off n dst_off workers f₀ lv) s
      → (Inv dev h salt src_off n dst_off workers f₀ lv) t
  Inv-Reach here inv = inv
  Inv-Reach (next r st) inv = Inv-Step st (Inv-Reach r inv)

  -- On a level within its bounds (`IsLevel`), with one worker or more, on any device: however the
  -- workers are scheduled, when all of them have stopped, the file has changed nowhere but in the level
  -- (`Kept`); an error that is reported is a fault of the device; and where none is reported, the file
  -- is the one that a single worker leaves on a device that does not fail, in which the level is written.
  pub pool-hashed :
      (s : Pool)
      → 0 < workers
      → Reach dev h salt src_off n dst_off workers (start f₀) s
      → ((w : ℕ) → w < workers → s.phase w ≡ stopped)
      → Kept h salt src_off n dst_off f₀ lv s.file
        × ((e : IoError) → s.first_err ≡ some e → IsFault dev e)
        × (s.first_err ≡ none → s.file ≡ hashed h salt src_off n dst_off f₀)
  pool-hashed s some_worker r all =
      let inv = Inv-Reach r (Inv-start dev h salt src_off n dst_off workers f₀ lv) in
      (
        inv.kept,
        inv.faulty,
        λ clean. hashed_of_Done h salt src_off n dst_off f₀ lv s.file inv.kept (λ t ht.
            let over = inv.over clean 0 (all 0 some_worker) in
            elim (inv.handed_out clean t (omega arith) ht) [
              | inl d ↦ d
              | inr (w, hw, c) ↦
                  absurd ((carried dev h salt src_off n dst_off workers f₀ lv) t _ _ (all w hw) c)
            ]),
      )
