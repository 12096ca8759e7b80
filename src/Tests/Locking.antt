-- ===== src/Tests/Locking.antt =====
-- An example for the artifact lock.
use modelwrap.Prelude.{assign, ℕ, ◌≡◌, refl, none, some}
use modelwrap.Lock.{
  State, idle, opened, locked, acquired, create, lock, same_file, Reach, here, next, start,
}
use modelwrap.Lock.Exclusion.{acquired_unique}
use modelwrap.Lock.Progress.{CanAcquire, acquired_reachable}

abbrev pub after_create : State
after_create = record {
  path = some 7;
  owner = λ i. none;
  next_inode = 8;
  phase = assign (λ w. idle) 2 (opened 7);
}

abbrev pub after_lock : State
after_lock = record after_create {
  owner = assign after_create.owner 7 (some 2);
  phase = assign after_create.phase 2 (locked 7);
}

abbrev pub after_compare : State
after_compare = record after_lock { phase = assign after_lock.phase 2 (acquired 7) }

the_run : Reach (start none 7) after_compare
the_run =
    next (next (next here (create (start none 7) 2 refl refl)) (lock after_create 2 7 refl refl))
      (same_file after_lock 2 7 refl refl)

acquired_unique_example : (◌≡◌ {A = ℕ} 2 2) × (after_compare.path ≡ some 7)
acquired_unique_example = acquired_unique none 7 after_compare 2 2 7 7 the_run refl refl

-- Another process gets the lock behind the one that has it.
acquired_reachable_example : CanAcquire after_compare 5
acquired_reachable_example = acquired_reachable none 7 after_compare 5 the_run refl
