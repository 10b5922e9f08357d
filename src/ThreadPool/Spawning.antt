-- ===== src/ThreadPool/Spawning.antt =====
-- The callers of lib/thread_pool.cpp and the idle threads: spawn, join, detach and the destructor.
use lfz.Prelude.{ℕ, ◌≡◌, refl, Bool, true, false, List, [], ◌∷◌, if-cases, Option, none, some}
use lfz.ThreadPool.{
  Pool, Worker, Phase, starting, waiting, ended, running, new_worker, put_worker,
  get_or_create_thread, spawn, join, joined, detach, close, is_task,
}
use lfz.ThreadPool.Run.{
  System, Step, starts, wakes, finishes, spawns, joins, returns, detaches, closes,
}
use lfz.ThreadPool.Run.{here, next, Reach, after_spawn, after_join}
use lfz.ThreadPool.Listed.{IsListed, runs-IsListed}
use lfz.ThreadPool.Idle.{
  put_worker_self, SoundAt, IsParked, IsGood, put_worker-IsSound, put_worker-elsewhere,
  update-IsGood, start-IsGood, wake-IsGood, finish-IsGood,
}

given-SoundAt : (at : Phase) (f : ℕ) → IsParked at → SoundAt at (some f) true
given-SoundAt starting f h = absurd h
given-SoundAt waiting f h = refl
given-SoundAt ended f h = tt
given-SoundAt (running g) f h = absurd h

-- By the members of the pool.
spawn-IsGood :
    (threads : ℕ) (worker : ℕ → Worker) (idle : List ℕ) (quits : Bool) (task f : ℕ) (runs : Bool)
    → IsGood (record { threads_ = threads; worker = worker; idle_ = idle; quit_ = quits })
    → IsGood
        (spawn task f runs
          (record { threads_ = threads; worker = worker; idle_ = idle; quit_ = quits })).1
unfolding spawn get_or_create_thread
spawn-IsGood threads worker idle true task f runs g = g
spawn-IsGood threads worker [] false task f false g = g
spawn-IsGood threads worker [] false task f true g = record {
  sound =
      put_worker-IsSound threads _ _ (rw (put_worker_self threads new_worker worker) refl)
        (put_worker-IsSound threads new_worker worker tt g.sound);
  idle = tt;
  distinct = tt;
}
spawn-IsGood threads worker (i ∷ idle) false task f runs g =
    let parked = (g.idle.0).0 in
    record {
      sound = put_worker-IsSound i _ worker (given-SoundAt (worker i).phase f parked) g.sound;
      idle = put_worker-elsewhere i _ worker idle g.distinct.0 g.idle.1;
      distinct = g.distinct.1;
    }

-- A change of what neither the loop nor the next function looks at.
kept-IsGood :
    (p : Pool) (i : ℕ) (w : Worker)
    → w.phase ≡ (p.worker i).phase
    → w.f_ ≡ (p.worker i).f_
    → w.signalled ≡ (p.worker i).signalled
    → IsGood p
    → IsGood (record p { worker = put_worker i w p.worker })
kept-IsGood p i w at f signalled g =
    update-IsGood p i w (rw (at, f, signalled) (g.sound i)) (rw (at, f) (λ h. h)) g

join-IsGood : (p : Pool) (i task : ℕ) → IsGood p → IsGood (join i task p).1
unfolding join
join-IsGood p i task g =
    if-cases {A = Bool × Pool} (λ r. IsGood r.1) (is_task task (p.worker i).task_)
      (
        true,
        record p { worker = put_worker i (record (p.worker i) { task_waiting_ = true }) p.worker },
      )
      (false, p)
      (λ e. kept-IsGood p i (record (p.worker i) { task_waiting_ = true }) refl refl refl g)
      (λ e. g)

detach-IsGood : (p : Pool) (i task : ℕ) → IsGood p → IsGood (detach i task p)
unfolding detach
detach-IsGood p i task g =
    if-cases IsGood (is_task task (p.worker i).task_)
      (record p { worker = put_worker i (record (p.worker i) { task_ = none }) p.worker }) p
      (λ e. kept-IsGood p i (record (p.worker i) { task_ = none }) refl refl refl g) (λ e. g)

closed-SoundAt :
    (at : Phase) (f : Option ℕ) (signalled : Bool) → SoundAt at f signalled → SoundAt at f true
closed-SoundAt starting none signalled h = tt
closed-SoundAt starting (some g) signalled h = refl
closed-SoundAt waiting none signalled h = tt
closed-SoundAt waiting (some g) signalled h = refl
closed-SoundAt ended f signalled h = h
closed-SoundAt (running g) f signalled h = h

close-IsGood : (p : Pool) → IsGood p → IsGood (close p)
unfolding close
close-IsGood p g = record {
  sound = λ i. closed-SoundAt (p.worker i).phase (p.worker i).f_ (p.worker i).signalled (g.sound i);
  idle = g.idle;
  distinct = g.distinct;
}

Step-IsGood : {s t : System} → Step s t → IsGood s.pool → IsGood t.pool
unfolding after_spawn after_join joined
Step-IsGood {s} (starts i known at) g = start-IsGood s.pool i at g
Step-IsGood {s} (wakes i at signalled) g = wake-IsGood s.pool i g
Step-IsGood {s} (finishes i f at) g = finish-IsGood s.pool i f at g
Step-IsGood {s} (spawns f runs) g =
    spawn-IsGood s.pool.threads_ s.pool.worker s.pool.idle_ s.pool.quit_ s.next_task f runs g
Step-IsGood {s} (joins i task) g =
    if-cases {A = System} (λ t. IsGood t.pool) (join i task s.pool).0 _ _
      (λ e. join-IsGood s.pool i task g) (λ e. g)
Step-IsGood {s} (returns i task before after at signalled) g =
    kept-IsGood s.pool i (record (s.pool.worker i) { task_signalled = false }) refl refl refl g
Step-IsGood {s} (detaches i task) g = detach-IsGood s.pool i task g
Step-IsGood {s} closes g = close-IsGood s.pool g

runs_sound : {s : System} → Reach s → IsGood s.pool
runs_sound here = record { sound = λ i. tt; idle = tt; distinct = tt }
runs_sound (next r st) = Step-IsGood st (runs_sound r)

-- In every run of the pool and its callers, a thread that runs a function has it, one that has yet to
-- run its function has been signalled, each thread in idle_ is there once, has no function and waits
-- or has ended, and every thread of the pool without a function is in idle_.
pub runs-IsGood : {s : System} → Reach s → IsGood s.pool × IsListed s.pool
runs-IsGood r = (runs_sound r, runs-IsListed r)
