-- ===== src/EventLoop/Removed.antt =====
-- Handlers that are being removed, and the calls of the event loop.
use lfz.Prelude.{ℕ, ◌≡◌, refl, false, List, []}
use lfz.Prelude.{◌∷◌, All, elem, Option, if-cases}
use lfz.Prelude.{none, some}
use mathlib.Core.Path.{subst, subst⁻¹}
use lfz.EventLoop.{Timer, Event, Loop, process_timers, process_event, process_queue}
use lfz.EventLoop.Timers.{IsLiveEvent}
use lfz.EventLoop.Invariant.{IsSafe}
use lfz.EventLoop.Run.{Turn, ends, goes_on, calls_timer, calls_event, waits, turn, turn_timer}
use lfz.EventLoop.Run.{turn_event, turn_wait, System}
use lfz.EventLoop.Run.{Reach}
use lfz.EventLoop.Firing.{process_timers-Calls, Calls}
use lfz.Prelude.{All-split}
use lfz.EventLoop.Timers.{IsLiveTimer}
use lfz.EventLoop.Safety.{Reach-IsGood}
use lfz.EventLoop.Turns.{process_timers-queue}

-- The handler that a turn calls is not being removed.
abbrev pub CallsLive : List ℕ → Turn → Type 0
CallsLive removing (calls_event e) = elem e.handler removing ≡ false
CallsLive removing (calls_timer t) = elem t.handler_ removing ≡ false
CallsLive removing ends = Unit
CallsLive removing goes_on = Unit
CallsLive removing (waits d) = Unit

timer_live :
    (now : ℕ) (l : Loop) (o : Option Timer)
    → IsSafe l
    → Calls now l.timers_ o
    → (t : Timer) → o ≡ some t
    → IsLiveTimer l.removing_ t
timer_live now l none safe h t e = cc e
timer_live now l (some u) safe (before, after, split, past) t e =
    let live = subst (All (IsLiveTimer l.removing_)) split safe.timers.live in
    let same : u ≡ t = cc e in
    subst (IsLiveTimer l.removing_) same (All-split _ before (u ∷ after) live).1.0

turn_wait-CallsLive : (removing : List ℕ) (l : Loop) → CallsLive removing (turn_wait l).0
unfolding turn_wait
turn_wait-CallsLive removing l =
    if-cases {A = Turn × Loop} (λ r. CallsLive removing r.0) l.signalled_ _ _ (λ e. tt) (λ e. tt)

turn_event-CallsLive :
    (removing : List ℕ) (l : Loop) (s : List Event)
    → All (IsLiveEvent removing) s
    → CallsLive removing (turn_event (process_queue s l)).0
unfolding turn_event process_queue
turn_event-CallsLive removing l [] h = turn_wait-CallsLive removing l
turn_event-CallsLive removing l (e ∷ s) h = h.0

turn_timer-CallsLive :
    (removing : List ℕ) (r : Option Timer × Loop)
    → ((t : Timer) → r.0 ≡ some t → IsLiveTimer removing t)
    → All (IsLiveEvent removing) r.1.pending_events_
    → CallsLive removing (turn_timer r).0
unfolding turn_timer process_event
turn_timer-CallsLive removing (some t, l) h live = h t refl
turn_timer-CallsLive removing (none, l) h live =
    turn_event-CallsLive removing l l.pending_events_ live

turn-CallsLive : (now : ℕ) (l : Loop) → IsSafe l → CallsLive l.removing_ (turn now l).0
unfolding turn
turn-CallsLive now l safe =
    if-cases {A = Turn × Loop} (λ r. CallsLive l.removing_ r.0) l.quit_ _ _ (λ e. tt)
      (λ e.
        turn_timer-CallsLive l.removing_ (process_timers now l)
          (timer_live now l (process_timers now l).0 safe (process_timers-Calls now l safe))
          (subst⁻¹ (All (IsLiveEvent l.removing_)) (process_timers-queue now l).0 safe.live_events))

-- In every run, no handler is called once remove_handler has marked it, where the filters of
-- filter_events in the run send no event to a handler that has been marked and leave the events that
-- they keep the objects that they were, and fewer than 2 ^ 64 timers are added.
pub removed_not_called :
    {s : System} (now : ℕ) → Reach s → CallsLive s.loop.removing_ (turn now s.loop).0
removed_not_called {s} now r = turn-CallsLive now s.loop (Reach-IsGood r).safe
