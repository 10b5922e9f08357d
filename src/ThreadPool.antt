-- ===== src/ThreadPool.antt =====
-- lib/thread_pool.cpp: the critical sections of thread_pool, of its threads and of async_task, each up to
-- where it gives the mutex of the pool away. Threads, tasks and functions are numbers; 0 is the first of
-- the threads.
pub mod Run
pub mod Idle
pub mod Listed
pub mod Spawning
mod Tests
use lfz.Prelude.{
  ℕ, suc, ◌+◌, Bool, true, false, not, List, [], ◌∷◌, ◌==◌, if◌then◌else◌, Option, none, some,
}

-- Where a thread is in `entry`: in front of the loop, in thread_cond_.wait, in a function, or at the end.
pub data Phase : Type 0 where
  starting waiting ended : Phase
  running : ℕ → Phase

-- `pooled_thread_impl`, with the flags of its two conditions.
pub record Worker : Type 0 where
  pub phase : Phase
  pub task_ : Option ℕ
  pub f_ : Option ℕ
  pub signalled : Bool
  pub task_signalled : Bool
  pub task_waiting_ : Bool
  pub quit_ : Bool

abbrev pub new_worker : Worker
new_worker = record {
  phase = starting;
  task_ = none;
  f_ = none;
  signalled = false;
  task_signalled = false;
  task_waiting_ = false;
  quit_ = false;
}

-- `idle_` has its last thread first. `threads_` counts the threads, which `worker` gives by number.
pub record Pool : Type 0 where
  pub threads_ : ℕ
  pub worker : ℕ → Worker
  pub idle_ : List ℕ
  pub quit_ : Bool

abbrev pub empty_pool : Pool
empty_pool = record { threads_ = 0; worker = λ i. new_worker; idle_ = []; quit_ = false }

abbrev pub put_worker : ℕ → Worker → (ℕ → Worker) → ℕ → Worker
put_worker i w worker j = if j == i then w else worker j

-- The head of the loop in `entry`.
unfoldable pub enter : Worker → Worker
enter w = record w { phase = if w.quit_ then ended else waiting }

unfoldable pub start_thread : ℕ → Pool → Pool
start_thread i p = record p { worker = put_worker i (enter (p.worker i)) p.worker }

-- thread_cond_.wait returns, and the function is called where there is one.
unfoldable pub wake_worker : Worker → Worker
wake_worker w = elim w.f_ [
  | none ↦ enter (record w { signalled = false })
  | some g ↦ record w { signalled = false; phase = running g }
]

unfoldable pub wake : ℕ → Pool → Pool
wake i p = record p { worker = put_worker i (wake_worker (p.worker i)) p.worker }

-- Behind the function.
unfoldable pub finish_worker : Worker → Worker
finish_worker w = enter (record w {
  task_ = none;
  f_ = none;
  task_waiting_ = false;
  task_signalled = if w.task_waiting_ then true else w.task_signalled;
})

unfoldable pub finish : ℕ → Pool → Pool
finish i p = record p {
  worker = put_worker i (finish_worker (p.worker i)) p.worker;
  idle_ = i ∷ p.idle_;
}

-- `get_or_create_thread`, where a new thread runs or does not.
unfoldable pub get_or_create_thread : Bool → Pool → Option (ℕ × Pool)
get_or_create_thread runs p = if p.quit_ then none else elim p.idle_ [
  | i ∷ idle ↦ some (i, record p { idle_ = idle })
  | [] ↦
      if runs
      then some (
        p.threads_,
        record p { threads_ = suc p.threads_; worker = put_worker p.threads_ new_worker p.worker },
      )
      else none
]

abbrev pub give : ℕ → ℕ → Worker → Worker
give task f w = record w { task_ = some task; f_ = some f; signalled = true }

-- The handle is the thread of the task, with the address of the new task.
unfoldable pub spawn : ℕ → ℕ → Bool → Pool → Option ℕ × Pool
spawn task f runs p = elim (get_or_create_thread runs p) [
  | none ↦ (none, p)
  | some (i, q) ↦ (some i, record q { worker = put_worker i (give task f (q.worker i)) q.worker })
]

abbrev pub is_task : ℕ → Option ℕ → Bool
is_task task none = false
is_task task (some t) = t == task

-- `join` up to its wait; whether it waits.
unfoldable pub join : ℕ → ℕ → Pool → Bool × Pool
join i task p =
    if is_task task (p.worker i).task_
    then (
      true,
      record p { worker = put_worker i (record (p.worker i) { task_waiting_ = true }) p.worker },
    )
    else (false, p)

-- task_cond_.wait returns.
unfoldable pub joined : ℕ → Pool → Pool
joined i p = record p {
  worker = put_worker i (record (p.worker i) { task_signalled = false }) p.worker;
}

unfoldable pub detach : ℕ → ℕ → Pool → Pool
detach i task p =
    if is_task task (p.worker i).task_
    then record p { worker = put_worker i (record (p.worker i) { task_ = none }) p.worker }
    else p

-- The destructor of the pool, up to where it waits for its threads.
unfoldable pub close : Pool → Pool
close p = record p {
  quit_ = true;
  worker = λ i. record (p.worker i) { quit_ = true; signalled = true };
}
