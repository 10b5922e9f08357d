-- ===== src/EventLoop/Idle.antt =====
-- What the thread of the event loop may sleep over.
use lfz.Prelude.{ℕ, ◌≤◌, ◌<◌, ◌≡◌, ◌⊎◌, refl, arith, Bool, true, false, List, [], ◌∷◌}
use lfz.Prelude.{is_empty, elem, ◌==◌, Bool-cases, inl, inr}
use lfz.EventLoop.{Timer, Event, Loop}
use lfz.EventLoop.{send_event, remove_handler, filter_events, add_timer, stop_timer, with_timers}
use lfz.EventLoop.{Filter, filter_queue}
use lfz.EventLoop.{erase_events, is_earlier, erase_id, erase_timers}

-- A thread that sleeps until `d` has been signalled, or has nothing to do before `d`.
abbrev pub HasNoWork : ℕ → Loop → Type 0
HasNoWork d l =
    (l.signalled_ ≡ true)
    ⊎ ((l.pending_events_ ≡ [])
        × (l.quit_ ≡ false)
        × ((l.deadline_ ≡ 0) ⊎ ((0 < d) × (d ≤ l.deadline_))))

pub send_event-HasNoWork : (h e d : ℕ) (l : Loop) → HasNoWork d l → HasNoWork d (send_event h e l)
unfolding send_event
send_event-HasNoWork h e d l (inl signal) = ground (arith, signal)
send_event-HasNoWork h e d l (inr (empty, running, due)) =
    let first : is_empty l.pending_events_ ≡ true = rw empty refl in
    elim (Bool-cases (elem h l.removing_)) [
      | inl removed ↦ rw removed (inr (empty, running, due))
      | inr live ↦ rw live (inl (rw first refl))
    ]

erase_events-nil : (f : Event → Bool) (s : List Event) → s ≡ [] → erase_events f s ≡ []
unfolding erase_events
erase_events-nil f s e = rw e

with_timers-HasNoWork :
    (d : ℕ) (timers : List Timer) (l : Loop) → HasNoWork d l → HasNoWork d (with_timers timers l)
unfolding with_timers
with_timers-HasNoWork d timers l h = ground (arith, h)

pub stop_timer-HasNoWork : (id d : ℕ) (l : Loop) → HasNoWork d l → HasNoWork d (stop_timer id l)
unfolding stop_timer
stop_timer-HasNoWork id d l h =
    ground (arith, h, with_timers-HasNoWork d (erase_id id l.timers_) l h)

pub filter_events-HasNoWork :
    (f : Filter) (d : ℕ) (l : Loop) → HasNoWork d l → HasNoWork d (filter_events f l)
unfolding filter_events filter_queue
filter_events-HasNoWork f d l (inl signal) = inl signal
filter_events-HasNoWork f d l (inr (empty, running, due)) = inr (rw empty refl, running, due)

erase_handler-HasNoWork :
    (h d : ℕ) (removing : List ℕ) (l : Loop)
    → HasNoWork d l
    → HasNoWork d (record l {
      pending_events_ = erase_events (λ e. e.handler == h) l.pending_events_;
      removing_ = removing;
    })
erase_handler-HasNoWork h d removing l (inl signal) = inl signal
erase_handler-HasNoWork h d removing l (inr (empty, running, due)) =
    inr (erase_events-nil (λ e. e.handler == h) l.pending_events_ empty, running, due)

pub remove_handler-HasNoWork :
    (h d : ℕ) (l : Loop) → HasNoWork d l → HasNoWork d (remove_handler h l)
unfolding remove_handler
remove_handler-HasNoWork h d l w =
    with_timers-HasNoWork d (erase_timers h l.timers_) _
      (erase_handler-HasNoWork h d (h ∷ l.removing_) l w)

pub add_timer-HasNoWork :
    (now h interval : ℕ) (one_shot : Bool) (d : ℕ) (l : Loop)
    → HasNoWork d l
    → HasNoWork d (add_timer now h interval one_shot l).1
unfolding add_timer is_earlier
add_timer-HasNoWork now h interval one_shot d l w = ground (arith, w)
