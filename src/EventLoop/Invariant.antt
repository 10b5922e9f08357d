-- ===== src/EventLoop/Invariant.antt =====
-- What holds of the members of the event loop between two critical sections.
use lfz.Prelude.{ℕ, suc, ◌≤◌, ◌<◌, ◌^◌, ◌≡◌, refl, arith, Bool, true, List, [], ◌∷◌, ◌++◌}
use lfz.Prelude.{All, All-append, All-map, is_empty, elem, ◌==◌, if◌then◌else◌}
use lfz.Prelude.{Bool-cases, inl, inr}
use lfz.EventLoop.{Filter, filter_queue, next_id}
use lfz.EventLoop.Run.{IsAllowed}
use lfz.EventLoop.{Timer, Event, Loop, empty_loop, send_event, remove_handler, filter_events}
use lfz.EventLoop.{add_timer, stop_timer, process_event, finish, stop, join}
use lfz.EventLoop.{with_timers, erase_id, erase_timers, has_id}
use lfz.EventLoop.{is_earlier, process_queue}
use lfz.EventLoop.Timers.{IsLiveEvent, IsLiveTimer, occurs, occurs-append, occurs-above}
use lfz.EventLoop.Timers.{All-erase_id, All-erase_timers}
use lfz.EventLoop.Timers.{occurs-erase_id, occurs-erase_timers}
use lfz.EventLoop.Timers.{erase_events-IsLiveEvent, erase_timers-IsLiveTimer}
use lfz.EventLoop.Scanning.{Due, IsTimed, Due-earlier, is_earlier-true, is_earlier-false}

-- An identifier that was given out.
abbrev pub IsGiven : ℕ → Timer → Type 0
IsGiven next t = (0 < t.id_) × (t.id_ ≤ next)

-- The timers: no handler of theirs is being removed; `deadline_` is no later than any of them, and
-- empty with no timer; their identifiers were given out, each once.
pub record AreTimers (removing : List ℕ) (next deadline : ℕ) (timers : List Timer) : Type 0 where
  pub live : All (IsLiveTimer removing) timers
  pub due : Due deadline timers
  pub none_due : is_empty timers ≡ true → deadline ≡ 0
  pub given : All (IsGiven next) timers
  pub unique : (i : ℕ) → occurs i timers ≤ 1

pub record IsSafe (l : Loop) : Type 0 where
  -- No queued event is for a handler that is being removed.
  pub live_events : All (IsLiveEvent l.removing_) l.pending_events_
  pub timers : AreTimers l.removing_ l.next_timer_id_ l.deadline_ l.timers_

pub timed : (d : ℕ) (s : List Timer) → Due d s → All IsTimed s
timed d s = All-map _ _ s (λ t h. omega arith)

pub empty_loop-IsSafe : IsSafe empty_loop
unfolding occurs
empty_loop-IsSafe = record {
  live_events = tt;
  timers = record {
    live = tt;
    due = tt;
    none_due = λ e. refl;
    given = tt;
    unique = λ i. omega arith;
  };
}

pub send_event-IsSafe : (h e : ℕ) (l : Loop) → IsSafe l → IsSafe (send_event h e l)
unfolding send_event
send_event-IsSafe h e l safe = elim (Bool-cases (elem h l.removing_)) [
  | inl removed ↦ rw removed safe
  | inr live ↦ rw live (record {
    live_events = All-append _ l.pending_events_ _ safe.live_events (live, tt);
    timers = safe.timers;
  })
]

filter_queue-IsLiveEvent :
    (f : Filter) (removing : List ℕ) (n : ℕ) (s : List Event)
    → IsAllowed f removing n s
    → All (IsLiveEvent removing) (filter_queue f n s)
unfolding filter_queue
filter_queue-IsLiveEvent f removing n [] h = tt
filter_queue-IsLiveEvent f removing n (e ∷ s) (h, hs) = elim (Bool-cases (f n e).0) [
  | inl k ↦ rw k (filter_queue-IsLiveEvent f removing (suc n) s hs)
  | inr k ↦ rw k ((h k).1, filter_queue-IsLiveEvent f removing (suc n) s hs)
]

pub filter_events-IsSafe :
    (f : Filter) (l : Loop)
    → IsAllowed f l.removing_ 0 l.pending_events_
    → IsSafe l
    → IsSafe (filter_events f l)
unfolding filter_events
filter_events-IsSafe f l allowed safe = record {
  live_events = filter_queue-IsLiveEvent f l.removing_ 0 l.pending_events_ allowed;
  timers = safe.timers;
}

-- Fewer timers, with `deadline_` emptied where none is left.
fewer :
    (removing : List ℕ) (l : Loop) (timers : List Timer)
    → All (IsLiveTimer removing) timers
    → Due l.deadline_ timers
    → All (IsGiven l.next_timer_id_) timers
    → ((i : ℕ) → occurs i timers ≤ 1)
    → AreTimers removing l.next_timer_id_ (with_timers timers l).deadline_ timers
unfolding with_timers
fewer removing l [] live due given unique = record {
  live = live;
  due = due;
  none_due = λ e. refl;
  given = given;
  unique = unique;
}
fewer removing l (t ∷ s) live due given unique = record {
  live = live;
  due = due;
  none_due = λ e. cc e;
  given = given;
  unique = unique;
}

pub remove_handler-IsSafe : (h : ℕ) (l : Loop) → IsSafe l → IsSafe (remove_handler h l)
unfolding remove_handler with_timers
remove_handler-IsSafe h l safe =
    let kept = safe.timers in
    record {
      live_events = erase_events-IsLiveEvent h l.removing_ l.pending_events_ safe.live_events;
      timers =
          unfold with_timers in
          fewer (h ∷ l.removing_) l (erase_timers h l.timers_)
            (erase_timers-IsLiveTimer h l.removing_ l.timers_ kept.live)
            (All-erase_timers _ h l.timers_ kept.due) (All-erase_timers _ h l.timers_ kept.given)
            (λ i. omega (arith, occurs-erase_timers i h l.timers_, kept.unique i));
    }

pub stop_timer-IsSafe : (id : ℕ) (l : Loop) → IsSafe l → IsSafe (stop_timer id l)
unfolding stop_timer
stop_timer-IsSafe id l safe = elim (Bool-cases (id == 0)) [
  | inl unset ↦ rw unset safe
  | inr given ↦ elim (Bool-cases (has_id id l.timers_)) [
    | inr missing ↦ rw (given, missing) safe
    | inl found ↦ rw (given, found) (stopped safe.timers)
  ]
]
  where
    stopped :
        AreTimers l.removing_ l.next_timer_id_ l.deadline_ l.timers_
        → IsSafe (with_timers (erase_id id l.timers_) l)
    stopped kept = record {
      live_events = unfold with_timers in safe.live_events;
      timers =
          unfold with_timers in
          fewer l.removing_ l (erase_id id l.timers_) (All-erase_id _ id l.timers_ kept.live)
            (All-erase_id _ id l.timers_ kept.due) (All-erase_id _ id l.timers_ kept.given)
            (λ i. omega (arith, occurs-erase_id i id l.timers_, kept.unique i));
    }

pub not_empty : (s : List Timer) (t : Timer) (u : List Timer) → is_empty (s ++ (t ∷ u)) ≡ true → ⊥
not_empty [] t u h = cc h
not_empty (v ∷ s) t u h = cc h

-- One timer more, behind the others, with `deadline_` moved forward where it is earlier.
one_more :
    (removing : List ℕ) (next deadline : ℕ) (timers : List Timer) (t : Timer)
    → AreTimers removing next deadline timers
    → IsLiveTimer removing t
    → t.id_ ≡ suc next
    → 0 < t.deadline_
    → AreTimers removing
        (suc next)
        (if is_earlier deadline t.deadline_ then t.deadline_ else deadline)
        (timers ++ (t ∷ []))
unfolding occurs
one_more removing next deadline timers t kept live new pos = record {
  live = All-append _ timers _ kept.live (live, tt);
  due = due;
  none_due = λ e. absurd (not_empty timers t [] e);
  given =
      All-append _ timers _ (All-map _ _ timers (λ u h. omega arith) kept.given) (omega arith, tt);
  unique = unique;
}
  where
    due :
        Due (if is_earlier deadline t.deadline_ then t.deadline_ else deadline) (timers ++ (t ∷ []))
    due = elim (Bool-cases (is_earlier deadline t.deadline_)) [
      | inl e ↦ rw e (
          All-append _ timers _
            (Due-earlier deadline t.deadline_ timers pos (is_earlier-true _ _ e) kept.due)
            (omega arith, tt))
      | inr e ↦ rw e (All-append _ timers _ kept.due (is_earlier-false _ _ e, tt))
    ]

    unique : (i : ℕ) → occurs i (timers ++ (t ∷ [])) ≤ 1
    unique i = elim (Bool-cases (t.id_ == i)) [
      | inl e ↦ rw (occurs-append i timers (t ∷ [])) (
          ground (
            arith,
            occurs-above i next timers (ground arith)
                (All-map _ _ timers (λ u h. omega arith) kept.given),
          ))
      | inr e ↦ rw (occurs-append i timers (t ∷ [])) (ground (arith, kept.unique i))
    ]

pub next_id-suc : (id : ℕ) → suc id < 2 ^ 64 → next_id id ≡ suc id
unfolding next_id
next_id-suc id h = omega (arith, h)

pub add_timer-IsSafe :
    (now h interval : ℕ) (one_shot : Bool) (l : Loop)
    → 0 < now
    → suc l.next_timer_id_ < 2 ^ 64
    → IsSafe l
    → IsSafe (add_timer now h interval one_shot l).1
unfolding add_timer
add_timer-IsSafe now h interval one_shot l pos few safe = elim (Bool-cases (elem h l.removing_)) [
  | inl removed ↦ rw removed safe
  | inr live ↦
      rw (live, next_id-suc l.next_timer_id_ few)
        (record {
          live_events = safe.live_events;
          timers =
              one_more l.removing_ l.next_timer_id_ l.deadline_ l.timers_ _ safe.timers live refl
                (omega arith);
        })
]

pub process_event-IsSafe : (l : Loop) → IsSafe l → IsSafe (process_event l).1
unfolding process_event
process_event-IsSafe l safe = queue l.pending_events_ safe.live_events
  where
    queue : (s : List Event) → All (IsLiveEvent l.removing_) s → IsSafe (process_queue s l).1
    queue [] h = unfold process_queue in safe
    queue (e ∷ s) (he, hs) =
        unfold process_queue in record { live_events = hs; timers = safe.timers }

pub finish-IsSafe : (l : Loop) → IsSafe l → IsSafe (finish l)
unfolding finish
finish-IsSafe l safe = record { live_events = safe.live_events; timers = safe.timers }

pub stop-IsSafe : (l : Loop) → IsSafe l → IsSafe (stop l)
unfolding stop
stop-IsSafe l safe = record { live_events = safe.live_events; timers = safe.timers }

pub join-IsSafe : (l : Loop) → IsSafe l → IsSafe (join l)
unfolding join occurs
join-IsSafe l safe = record {
  live_events = tt;
  timers = record {
    live = tt;
    due = tt;
    none_due = λ e. refl;
    given = tt;
    unique = λ i. omega arith;
  };
}
