-- ===== src/ThreadPool/Listed.antt =====
-- The threads of lib/thread_pool.cpp that have no function, which pool.idle_ lists in every run.
use lfz.Prelude.{
  ℕ, ◌≡◌, ◌<◌, refl, arith, Bool, true, false, List, [], ◌∷◌, ◌==◌, elem, if-cases, Bool-cases, inl,
  inr, none, Option-cases,
}
use lfz.ThreadPool.{
  Pool, Worker, put_worker, enter, start_thread, wake_worker, wake, finish_worker, finish,
  get_or_create_thread, spawn, join, joined, detach, close, is_task,
}
use lfz.ThreadPool.Run.{
  System, Step, starts, wakes, finishes, spawns, joins, returns, detaches, closes,
}
use lfz.ThreadPool.Run.{here, next, Reach, after_spawn, after_join}

-- Each thread of the pool without a function can be taken from `idle_`.
abbrev pub IsListed : Pool → Type 0
IsListed p = (i : ℕ) → i < p.threads_ → (p.worker i).f_ ≡ none → elem i p.idle_ ≡ true

-- A new state of one thread, with the function that it had.
kept-IsListed :
    (p : Pool) (i : ℕ) (w : Worker)
    → w.f_ ≡ (p.worker i).f_
    → IsListed p
    → IsListed (record p { worker = put_worker i w p.worker })
kept-IsListed p i w same h j below =
    if-cases (λ v. v.f_ ≡ none → elem j p.idle_ ≡ true) (j == i) w (p.worker j)
      (λ e f. let at : j ≡ i = ground (arith, e) in h j below (cc (at, same, f)))
      (λ e f. h j below f)

wake_worker_keeps : (w : Worker) → (wake_worker w).f_ ≡ w.f_
unfolding wake_worker enter
wake_worker_keeps w = elim (Option-cases w.f_) [
  | inl e ↦ rw (e, wake_worker) e
  | inr (g, e) ↦ rw (e, wake_worker) e
]

finish-IsListed : (p : Pool) (i : ℕ) → IsListed p → IsListed (finish i p)
unfolding finish elem
finish-IsListed p i h j below =
    if-cases (λ v. v.f_ ≡ none → elem j (i ∷ p.idle_) ≡ true) (j == i) (finish_worker (p.worker i))
      (p.worker j) (λ e f. ground (arith, e)) (λ e f. ground (arith, h j below f))

-- By the members of the pool.
spawn-IsListed :
    (threads : ℕ) (worker : ℕ → Worker) (idle : List ℕ) (quits : Bool) (task f : ℕ) (runs : Bool)
    → IsListed (record { threads_ = threads; worker = worker; idle_ = idle; quit_ = quits })
    → IsListed
        (spawn task f runs
          (record { threads_ = threads; worker = worker; idle_ = idle; quit_ = quits })).1
unfolding spawn get_or_create_thread elem
spawn-IsListed threads worker idle true task f runs h = h
spawn-IsListed threads worker [] false task f false h = h
spawn-IsListed threads worker [] false task f true h = λ j below. elim (Bool-cases (j == threads)) [
  | inl e ↦ rw e (λ given. cc given)
  | inr e ↦ rw e (h j (ground (arith, e, below)))
]
spawn-IsListed threads worker (i ∷ idle) false task f runs h = λ j below.
    elim (Bool-cases (j == i)) [
      | inl e ↦ rw e (λ given. cc given)
      | inr e ↦ rw e (λ given. ground (arith, e, h j below given))
    ]

Step-IsListed : {s t : System} → Step s t → IsListed s.pool → IsListed t.pool
unfolding after_spawn after_join joined join detach close start_thread enter wake
Step-IsListed {s} (starts i known at) h = kept-IsListed s.pool i (enter (s.pool.worker i)) refl h
Step-IsListed {s} (wakes i at signalled) h =
    kept-IsListed s.pool i (wake_worker (s.pool.worker i)) (wake_worker_keeps (s.pool.worker i)) h
Step-IsListed {s} (finishes i f at) h = finish-IsListed s.pool i h
Step-IsListed {s} (spawns f runs) h =
    spawn-IsListed s.pool.threads_ s.pool.worker s.pool.idle_ s.pool.quit_ s.next_task f runs h
Step-IsListed {s} (joins i task) h = elim (Bool-cases (is_task task (s.pool.worker i).task_)) [
  | inl e ↦
      rw (e, after_join)
        (kept-IsListed s.pool i (record (s.pool.worker i) { task_waiting_ = true }) refl h)
  | inr e ↦ rw (e, after_join) h
]
Step-IsListed {s} (returns i task before after at signalled) h =
    kept-IsListed s.pool i (record (s.pool.worker i) { task_signalled = false }) refl h
Step-IsListed {s} (detaches i task) h =
    if-cases IsListed (is_task task (s.pool.worker i).task_)
      (record s.pool {
        worker = put_worker i (record (s.pool.worker i) { task_ = none }) s.pool.worker;
      })
      s.pool (λ e. kept-IsListed s.pool i (record (s.pool.worker i) { task_ = none }) refl h)
      (λ e. h)
Step-IsListed {s} closes h = h

pub runs-IsListed : {s : System} → Reach s → IsListed s.pool
runs-IsListed here = λ i below given. ground (arith, below)
runs-IsListed (next r st) = Step-IsListed st (runs-IsListed r)
