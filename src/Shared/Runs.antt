-- ===== src/Shared/Runs.antt =====
-- The run of Pack as a function against the steps of a process that has the lock.
use modelwrap.Prelude.{
  ℕ, assign_self, assign_other, ◌≡◌, ◌≢◌, refl, ap, ◌∙◌, Bool, true, false, Bytes, codes, beq, itoa,
  if◌then◌else◌, Option, none, some, Result, ok, err,
}
use modelwrap.Lock
use modelwrap.Artifacts.{
  Dir, Faults, info, schema, WrapError, write_staged, rename_mwp, and_then, publish_artifacts,
}
use modelwrap.Pack.{Tools, PackError, Action, then_run, step, as_result, wrap_failed}
use modelwrap.Shared.{
  Job, checked, settled, labelled, imaged, World, IsBuilt, behind, unstarted, Step, label,
  place_image, place_info, Reach, here, next,
}

module _ (t : Tools) (w : ℕ) where
  -- Steps that lead to what an action of process `w` returns. The lock and what the others are at stay
  -- as they were; behind a value the process is at `j`.
  pub record Runs {A : Type 0} (j : Job) (s : World) (r : Dir × Result PackError A) : Type 0 where
    pub to : World
    pub run : Reach t s to
    pub at_dir : to.dir ≡ r.0
    pub same_lock : to.lock ≡ s.lock
    pub others : (v : ℕ) → v ≢ w → to.job v ≡ s.job v
    pub arrived : (a : A) → r.1 ≡ ok a → to.job w ≡ j

  pub Reach-trans : {r s u : World} → Reach t r s → Reach t s u → Reach t r u
  Reach-trans first here = first
  Reach-trans first (next rest step) = next (Reach-trans first rest) step

  pub Runs-none :
      {A : Type 0} (j : Job) (s : World) (x : Result PackError A)
      → ((a : A) → x ≡ ok a → s.job w ≡ j)
      → Runs j s (s.dir, x)
  Runs-none j s x arrived = record {
    to = s;
    run = here;
    at_dir = refl;
    same_lock = refl;
    others = λ v ne. refl;
    arrived = arrived;
  }

  pub Runs-step :
      {A : Type 0} (j : Job) (s u : World) (r : Dir × Result PackError A)
      → Step t s u
      → u.lock ≡ s.lock
      → ((v : ℕ) → v ≢ w → u.job v ≡ s.job v)
      → Runs j u r
      → Runs j s r
  Runs-step j s u r first same others rest = record {
    to = rest.to;
    run = Reach-trans (next here first) rest.run;
    at_dir = rest.at_dir;
    same_lock = rest.same_lock ∙ same;
    others = λ v ne. rest.others v ne ∙ others v ne;
    arrived = rest.arrived;
  }

  -- One action behind another.
  pub Runs-bind :
      {A B : Type 0} (mid j : Job) (f : A → Action B) (s : World) (r : Dir × Result PackError A)
      → Runs mid s r
      → ((u : World) (a : A) → u.lock ≡ s.lock → u.job w ≡ mid → Runs j u (f a u.dir))
      → Runs j s (then_run f r)
  unfolding then_run
  Runs-bind mid j f s (d, err e) first rest = record {
    to = first.to;
    run = first.run;
    at_dir = first.at_dir;
    same_lock = first.same_lock;
    others = first.others;
    arrived = λ b h. cc;
  }
  Runs-bind mid j f s (d, ok a) first rest =
      let more = rest first.to a first.same_lock (first.arrived a refl) in
      record {
        to = more.to;
        run = Reach-trans first.run more.run;
        at_dir = more.at_dir ∙ ap (λ k. (f a k).0) first.at_dir;
        same_lock = more.same_lock ∙ first.same_lock;
        others = λ v ne. more.others v ne ∙ first.others v ne;
        arrived = λ b h. more.arrived b (ap (λ k. (f a k).1) first.at_dir ∙ h);
      }

  -- Behind what only reads.
  pub Runs-read :
      {A B : Type 0} (j : Job) (f : A → Action B) (s : World) (x : Result PackError A)
      → ((a : A) → x ≡ ok a → Runs j s (f a s.dir))
      → Runs j s (then_run f (s.dir, x))
  unfolding then_run
  Runs-read j f s (err e) rest = Runs-none j s (err e) (λ b h. cc)
  Runs-read j f s (ok a) rest = rest a refl

  pub Runs-stay :
      {A : Type 0} (j : Job) (s : World) (x : Result PackError A)
      → s.job w ≡ j
      → Runs j s (s.dir, x)
  Runs-stay j s x job = Runs-none j s x (λ a h. job)

  -- A change, and what follows where it did not fail.
  pub Runs-change :
      (mid j : Job) (s : World) (r : Dir × Option WrapError) (k : Dir → Dir × Option WrapError)
      → Step t s (behind s w r mid)
      → ((behind s w r mid).job w ≡ mid → Runs j (behind s w r mid) (as_result (k r.0)))
      → Runs j s (as_result (and_then r k))
  Runs-change mid j s (d, some e) k first rest =
      Runs-step j s (behind s w (d, some e) mid) (as_result (d, some e)) first refl
        (λ v ne. assign_other s.job w v unstarted ne)
        (Runs-none j (behind s w (d, some e) mid) (err (wrap_failed e)) (λ a h. cc))
  Runs-change mid j s (d, none) k first rest =
      Runs-step j s (behind s w (d, none) mid) (as_result (k d)) first refl
        (λ v ne. assign_other s.job w v mid ne) (rest (assign_self s.job w mid))

  pub Runs-last :
      (j : Job) (s : World) (r : Dir × Option WrapError)
      → Step t s (behind s w r j)
      → Runs j s (as_result r)
  Runs-last j s (d, some e) last =
      Runs-step j s (behind s w (d, some e) j) (d, err (wrap_failed e)) last refl
        (λ v ne. assign_other s.job w v unstarted ne)
        (Runs-none j (behind s w (d, some e) j) (err (wrap_failed e)) (λ a h. cc))
  Runs-last j s (d, none) last =
      Runs-step j s (behind s w (d, none) j) (d, ok tt) last refl
        (λ v ne. assign_other s.job w v j ne)
        (Runs-stay j (behind s w (d, none) j) (ok tt) (assign_self s.job w j))

  -- The crash that a test can ask for.
  Runs-injected :
      (b : Bool) (e : WrapError) (j : Job) (s : World) (k : Dir → Dir × Option WrapError)
      → Runs j s (as_result (k s.dir))
      → Runs j s (as_result (and_then (s.dir, (if b then some e else none)) k))
  Runs-injected true e j s k rest = Runs-none j s (err (wrap_failed e)) (λ a h. cc)
  Runs-injected false e j s k rest = rest

  -- publishArtifacts behind a check that has found nothing.
  pub Runs-publish :
      (f : Faults) (crash_after : Bytes) (s : World) (i id : ℕ) (mwp ref : Bytes)
      → s.lock.phase w ≡ Lock.acquired i
      → s.job w ≡ checked id
      → IsBuilt t id mwp ref
      → Runs (settled id) s (as_result (publish_artifacts f crash_after s.dir id mwp ref))
  unfolding publish_artifacts
  Runs-publish f crash_after s i id mwp ref at job built =
      Runs-change (labelled id mwp ref) (settled id) s (write_staged f s.dir schema (itoa id)) _
        (label s w i id f mwp ref at job built)
        λ job1.
          let s1 = behind s w (write_staged f s.dir schema (itoa id)) (labelled id mwp ref) in
          Runs-injected (beq crash_after (codes ".schema")) _ (settled id) s1 _ (
            Runs-change (imaged id mwp ref) (settled id) s1 (rename_mwp f mwp s1.dir) _
              (place_image s1 w i id f mwp ref at job1)
              λ job2.
                let s2 = behind s1 w (rename_mwp f mwp s1.dir) (imaged id mwp ref) in
                Runs-injected (beq crash_after (codes ".mpk")) _ (settled id) s2 _ (
                  Runs-last (settled id) s2 (write_staged f s2.dir info ref)
                    (place_info s2 w i id f mwp ref at job2)))
