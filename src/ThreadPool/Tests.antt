-- ===== src/ThreadPool/Tests.antt =====
-- A run of the thread pool in which one join takes the signal for another.
use lfz.Prelude.{◌≡◌, refl, true, [], ◌∷◌, some, arith}
use lfz.ThreadPool.{
  start_thread, wake, finish, joined, spawn, get_or_create_thread, enter, wake_worker,
  finish_worker, join,
}
use lfz.ThreadPool.Run.{
  System, start, Reach, here, next, starts, wakes, finishes, spawns, joins, returns,
}
use lfz.ThreadPool.Run.{after_spawn, after_join, call_of}
use lfz.ThreadPool.Idle.{IsGood}
use lfz.ThreadPool.Listed.{IsListed}
use lfz.ThreadPool.Spawning.{runs-IsGood}

-- Function 7 is spawned, the thread calls it, and a caller waits for it.
abbrev spawned : System
spawned = after_spawn 7 true start

abbrev started : System
started = record spawned { pool = start_thread 0 spawned.pool }

abbrev calling : System
calling = record started { pool = wake 0 started.pool; called = call_of (some 7) started.called }

abbrev awaited : System
awaited = after_join 0 0 calling

-- The function returns; before the caller goes on, function 8 is spawned on the thread, and joined.
abbrev finished : System
finished = record awaited { pool = finish 0 awaited.pool }

abbrev again : System
again = after_join 0 1 (after_spawn 8 true finished)

abbrev stolen : System
stolen = record again {
  pool = joined 0 again.pool;
  joining = (0, 0) ∷ [];
  returned = 1 ∷ again.returned;
}

stolen_run : Reach stolen
unfolding after_spawn after_join start_thread wake finish spawn get_or_create_thread enter
    wake_worker finish_worker join
stolen_run =
    next
      (next
        (next
          (next
            (next
              (next (next (next here (spawns 7 true)) (starts 0 (omega arith) refl))
                (wakes 0 refl refl))
              (joins 0 0))
            (finishes 0 7 refl))
          (spawns 8 true))
        (joins 0 1))
      (returns 0 1 [] ((0, 0) ∷ []) refl refl)

-- The join of the second task has returned, and its function has not been called.
stolen_outcome : (stolen.returned ≡ 1 ∷ []) × (stolen.called ≡ 7 ∷ [])
unfolding after_spawn after_join start_thread wake finish spawn get_or_create_thread enter
    wake_worker finish_worker join
stolen_outcome = (refl, refl)

runs-IsGood_example : IsGood stolen.pool × IsListed stolen.pool
runs-IsGood_example = runs-IsGood stolen_run
