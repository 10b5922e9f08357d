-- ===== src/ThreadPool/Idle.antt =====
-- The threads of lib/thread_pool.cpp in every run: their functions, and which of them are idle.
use lfz.Prelude.{
  ℕ, ◌≡◌, refl, sym, arith, Bool, true, false, List, [], ◌∷◌, ◌==◌, if-cases, Bool-cases, inl, inr,
  Option, none, some, Option-cases, All,
}
use mathlib.Core.Path.{subst, subst⁻¹}
use lfz.ThreadPool.{
  Pool, Worker, Phase, starting, waiting, ended, running, put_worker, enter, start_thread,
  wake_worker, wake, finish_worker, finish,
}

abbrev pub Signalled : Option ℕ → Bool → Type 0
Signalled none signalled = Unit
Signalled (some g) signalled = signalled ≡ true

-- A thread has the function that it runs; one that has yet to run its function has been signalled.
abbrev pub SoundAt : Phase → Option ℕ → Bool → Type 0
SoundAt starting f signalled = Signalled f signalled
SoundAt waiting f signalled = Signalled f signalled
SoundAt ended f signalled = Unit
SoundAt (running g) f signalled = f ≡ some g

abbrev pub IsSound : Worker → Type 0
IsSound w = SoundAt w.phase w.f_ w.signalled

abbrev pub IsParked : Phase → Type 0
IsParked starting = ⊥
IsParked waiting = Unit
IsParked ended = Unit
IsParked (running g) = ⊥

-- A thread without a function, in its wait or at its end.
abbrev pub IsIdle : Worker → Type 0
IsIdle w = IsParked w.phase × (w.f_ ≡ none)

abbrev pub Lacking : ℕ → List ℕ → Type 0
Lacking i = All (λ j. (j == i) ≡ false)

abbrev pub Distinct : List ℕ → Type 0
Distinct [] = Unit
Distinct (i ∷ s) = Lacking i s × Distinct s

-- All threads are sound, and each that is in `idle_` is there once and idle.
pub record IsGood (p : Pool) : Type 0 where
  pub sound : (i : ℕ) → IsSound (p.worker i)
  pub idle : All (λ i. IsIdle (p.worker i)) p.idle_
  pub distinct : Distinct p.idle_

pub put_worker-IsSound :
    (i : ℕ) (w : Worker) (worker : ℕ → Worker)
    → IsSound w
    → ((j : ℕ) → IsSound (worker j))
    → (j : ℕ) → IsSound (put_worker i w worker j)
put_worker-IsSound i w worker h all j = if-cases IsSound (j == i) w (worker j) (λ e. h) (λ e. all j)

-- A new state of one thread, which stays idle where it was.
put_worker-IsIdle :
    (i : ℕ) (w : Worker) (worker : ℕ → Worker) (s : List ℕ)
    → (IsIdle (worker i) → IsIdle w)
    → All (λ j. IsIdle (worker j)) s
    → All (λ j. IsIdle (put_worker i w worker j)) s
put_worker-IsIdle i w worker [] h all = tt
put_worker-IsIdle i w worker (j ∷ s) h (hj, all) = (
  if-cases IsIdle (j == i) w (worker j)
      (λ e. h (subst (λ k. IsIdle (worker k)) (ground (arith, e)) hj)) (λ e. hj),
  put_worker-IsIdle i w worker s h all,
)

pub put_worker-elsewhere :
    (i : ℕ) (w : Worker) (worker : ℕ → Worker) (s : List ℕ)
    → Lacking i s
    → All (λ j. IsIdle (worker j)) s
    → All (λ j. IsIdle (put_worker i w worker j)) s
put_worker-elsewhere i w worker [] h all = tt
put_worker-elsewhere i w worker (j ∷ s) (other, h) (hj, all) =
    (rw other hj, put_worker-elsewhere i w worker s h all)

pub update-IsGood :
    (p : Pool) (i : ℕ) (w : Worker)
    → IsSound w
    → (IsIdle (p.worker i) → IsIdle w)
    → IsGood p
    → IsGood (record p { worker = put_worker i w p.worker })
update-IsGood p i w h keeps g = record {
  sound = put_worker-IsSound i w p.worker h g.sound;
  idle = put_worker-IsIdle i w p.worker p.idle_ keeps g.idle;
  distinct = g.distinct;
}

-- The head of the loop, from a thread without a function or one that is signalled.
enter-IsSound : (w : Worker) → Signalled w.f_ w.signalled → IsSound (enter w)
unfolding enter
enter-IsSound w h =
    if-cases (λ at. SoundAt at w.f_ w.signalled) w.quit_ ended waiting (λ e. tt) (λ e. h)

enter-IsIdle : (w : Worker) → w.f_ ≡ none → IsIdle (enter w)
unfolding enter
enter-IsIdle w h = (if-cases IsParked w.quit_ ended waiting (λ e. tt) (λ e. tt), h)

unparked : (w : Worker) (at : Phase) → w.phase ≡ at → ¬ IsParked at → ¬ IsIdle w
unparked w at e busy (parked, none_given) = busy (subst IsParked e parked)

pub start-IsGood :
    (p : Pool) (i : ℕ) → (p.worker i).phase ≡ starting → IsGood p → IsGood (start_thread i p)
unfolding start_thread
start-IsGood p i e g =
    let w = p.worker i in
    update-IsGood p i (enter w)
      (enter-IsSound w (subst (λ at. SoundAt at w.f_ w.signalled) e (g.sound i)))
      (λ idle. absurd (unparked w starting e (λ x. x) idle)) g

wake_worker-IsSound : (w : Worker) → IsSound (wake_worker w)
unfolding wake_worker
wake_worker-IsSound w = elim (Option-cases w.f_) [
  | inl e ↦
      rw (e, wake_worker)
        (enter-IsSound (record w { signalled = false }) (subst⁻¹ (λ f. Signalled f false) e tt))
  | inr (g, e) ↦ rw (e, wake_worker) e
]

wake_worker-IsIdle : (w : Worker) → IsIdle w → IsIdle (wake_worker w)
unfolding wake_worker
wake_worker-IsIdle w (parked, e) =
    rw (e, wake_worker) (enter-IsIdle (record w { signalled = false }) e)

pub wake-IsGood : (p : Pool) (i : ℕ) → IsGood p → IsGood (wake i p)
unfolding wake
wake-IsGood p i g =
    update-IsGood p i (wake_worker (p.worker i)) (wake_worker-IsSound (p.worker i))
      (wake_worker-IsIdle (p.worker i)) g

finish_worker-IsIdle : (w : Worker) → IsIdle (finish_worker w)
unfolding finish_worker
finish_worker-IsIdle w = enter-IsIdle _ refl

parked-SoundAt : (at : Phase) (signalled : Bool) → IsParked at → SoundAt at none signalled
parked-SoundAt starting signalled h = absurd h
parked-SoundAt waiting signalled h = tt
parked-SoundAt ended signalled h = tt
parked-SoundAt (running g) signalled h = absurd h

IsIdle-IsSound : (w : Worker) → IsIdle w → IsSound w
IsIdle-IsSound w (parked, e) =
    subst⁻¹ (λ f. SoundAt w.phase f w.signalled) e (parked-SoundAt w.phase w.signalled parked)

-- A thread that is not parked is in no list of idle ones.
busy-Lacking :
    (worker : ℕ → Worker) (i : ℕ) (s : List ℕ)
    → ¬ IsIdle (worker i)
    → All (λ j. IsIdle (worker j)) s
    → Lacking i s
busy-Lacking worker i [] busy all = tt
busy-Lacking worker i (j ∷ s) busy (hj, all) = (
  elim (Bool-cases (j == i)) [
    | inl e ↦ absurd (busy (subst (λ k. IsIdle (worker k)) (ground (arith, e)) hj))
    | inr e ↦ e
  ],
  busy-Lacking worker i s busy all,
)

pub put_worker_self : (i : ℕ) (w : Worker) (worker : ℕ → Worker) → put_worker i w worker i ≡ w
put_worker_self i w worker = let same : (i == i) ≡ true = ground arith in rw same refl

pub finish-IsGood :
    (p : Pool) (i g : ℕ) → (p.worker i).phase ≡ running g → IsGood p → IsGood (finish i p)
unfolding finish
finish-IsGood p i f e g =
    let w = finish_worker (p.worker i) in
    let idle = finish_worker-IsIdle (p.worker i) in
    let absent =
      busy-Lacking p.worker i p.idle_ (unparked (p.worker i) (running f) e (λ x. x)) g.idle in
    record {
      sound = put_worker-IsSound i w p.worker (IsIdle-IsSound w idle) g.sound;
      idle = (
        subst IsIdle (sym (put_worker_self i w p.worker)) idle,
        put_worker-elsewhere i w p.worker p.idle_ absent g.idle,
      );
      distinct = (absent, g.distinct);
    }
