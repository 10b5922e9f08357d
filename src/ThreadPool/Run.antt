-- ===== src/ThreadPool/Run.antt =====
-- Runs of lib/thread_pool.cpp: the threads of a pool and the callers, in any order.
use lfz.Prelude.{
  ℕ, suc, ◌≡◌, ◌<◌, Bool, true, List, [], ◌∷◌, ◌++◌, if◌then◌else◌, Option, none, some,
}
use lfz.ThreadPool.{
  Pool, starting, waiting, running, empty_pool, start_thread, wake, finish, spawn, join, joined,
  detach, close,
}

-- The pool, the next address of a task, the functions that were called, the joins that wait, by thread and
-- task, and the tasks whose join has returned.
pub record System : Type 0 where
  pub pool : Pool
  pub next_task : ℕ
  pub called : List ℕ
  pub joining : List (ℕ × ℕ)
  pub returned : List ℕ

abbrev pub start : System
start = record { pool = empty_pool; next_task = 0; called = []; joining = []; returned = [] }

unfoldable pub after_spawn : ℕ → Bool → System → System
after_spawn f runs s = record s {
  pool = (spawn s.next_task f runs s.pool).1;
  next_task = suc s.next_task;
}

unfoldable pub after_join : ℕ → ℕ → System → System
after_join i task s =
    if (join i task s.pool).0
    then record s { pool = (join i task s.pool).1; joining = (i, task) ∷ s.joining }
    else record s { returned = task ∷ s.returned }

abbrev pub call_of : Option ℕ → List ℕ → List ℕ
call_of none called = called
call_of (some g) called = g ∷ called

pub data Step (s : System) : System → Type 0 where
  starts :
      (i : ℕ)
      → i < s.pool.threads_
      → (s.pool.worker i).phase ≡ starting
      → Step s (record s { pool = start_thread i s.pool })
  wakes :
      (i : ℕ)
      → (s.pool.worker i).phase ≡ waiting
      → (s.pool.worker i).signalled ≡ true
      → Step s (record s { pool = wake i s.pool; called = call_of (s.pool.worker i).f_ s.called })
  finishes :
      (i g : ℕ) → (s.pool.worker i).phase ≡ running g → Step s (record s { pool = finish i s.pool })
  spawns : (f : ℕ) (runs : Bool) → Step s (after_spawn f runs s)
  joins : (i task : ℕ) → Step s (after_join i task s)
  returns :
      (i task : ℕ) (before after : List (ℕ × ℕ))
      → s.joining ≡ before ++ ((i, task) ∷ after)
      → (s.pool.worker i).task_signalled ≡ true
      → Step s (record s {
        pool = joined i s.pool;
        joining = before ++ after;
        returned = task ∷ s.returned;
      })
  detaches : (i task : ℕ) → Step s (record s { pool = detach i task s.pool })
  closes : Step s (record s { pool = close s.pool })

pub data Steps (s : System) : System → Type 0 where
  here : Steps s s
  next : {t u : System} → Steps s t → Step t u → Steps s u

abbrev pub Reach : System → Type 0
Reach = Steps start
