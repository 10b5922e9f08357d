-- ===== src/EventLoop/Stopped.antt =====
-- Timers that were stopped.
use lfz.Prelude.{ℕ, ◌+◌, ◌≤◌, ◌<◌, ◌≡◌, ◌≢◌, refl, ap, ◌∙◌, arith, List, []}
use lfz.Prelude.{◌∷◌, Option, if-cases}
use lfz.Prelude.{none, some}
use mathlib.Core.Path.{subst}
use lfz.EventLoop.{Timer, Event, Loop, process_timers, process_event, process_queue}
use lfz.EventLoop.{send_event, filter_events, stop_timer}
use lfz.EventLoop.{finish, stop, join}
use lfz.EventLoop.Invariant.{IsSafe}
use lfz.EventLoop.Run.{Turn, ends, goes_on, calls_timer, calls_event, waits, turn, turn_timer}
use lfz.EventLoop.Run.{turn_event, turn_wait, System}
use lfz.EventLoop.Run.{after_turn, after_send, IsFree, Step, Steps, Reach, here, next}
use lfz.EventLoop.Run.{
  turns, returns, wakes, times_out, sends, removes, filters, adds, cancels, quits, joins,
}
use lfz.EventLoop.Firing.{process_timers-Calls, Calls}
use lfz.EventLoop.Safety.{IsGood, Reach-IsGood, Step-IsGood}
use lfz.EventLoop.Firing.{Calls, process_timers-Calls}
use lfz.EventLoop.Timers.{occurs, occurs-append}
use lfz.EventLoop.Gone.{
  IsGone, stop_timer-IsGone, stop_timer-keeps_IsGone, add_timer-IsGone, remove_handler-IsGone,
}
use lfz.EventLoop.Gone.{process_timers-IsGone}

turn_event-timers :
    (l : Loop) (s : List Event)
    → ((turn_event (process_queue s l)).1.timers_ ≡ l.timers_)
      × ((turn_event (process_queue s l)).1.next_timer_id_ ≡ l.next_timer_id_)
unfolding turn_event process_queue turn_wait
turn_event-timers l [] = ground arith
turn_event-timers l (e ∷ s) = (refl, refl)

turn_timer-IsGone : (id : ℕ) (r : Option Timer × Loop) → IsGone id r.1 → IsGone id (turn_timer r).1
unfolding turn_timer process_event
turn_timer-IsGone id (some t, l) gone = gone
turn_timer-IsGone id (none, l) (gone, given) =
    let (timers, ids) = turn_event-timers l l.pending_events_ in
    (ap (occurs id) timers ∙ gone, omega (arith, ids))

turn-IsGone : (id now : ℕ) (l : Loop) → IsSafe l → IsGone id l → IsGone id (turn now l).1
unfolding turn
turn-IsGone id now l safe gone =
    if-cases {A = Turn × Loop} (λ r. IsGone id r.1) l.quit_ _ _ (λ e. gone)
      (λ e. turn_timer-IsGone id (process_timers now l) (process_timers-IsGone id now l safe gone))

after_turn-IsGone :
    (id : ℕ) (r : Turn × Loop) (s : System) → IsGone id r.1 → IsGone id (after_turn r s).loop
unfolding after_turn
after_turn-IsGone id (ends, l) s gone = gone
after_turn-IsGone id (goes_on, l) s gone = gone
after_turn-IsGone id (calls_timer t, l) s gone = gone
after_turn-IsGone id (calls_event e, l) s gone = gone
after_turn-IsGone id (waits d, l) s gone = gone

send_event-timers :
    (h e : ℕ) (l : Loop)
    → ((send_event h e l).timers_ ≡ l.timers_)
      × ((send_event h e l).next_timer_id_ ≡ l.next_timer_id_)
unfolding send_event
send_event-timers h e l = ground arith

Step-IsGone : {s t : System} (id : ℕ) → IsGood s → Step s t → IsGone id s.loop → IsGone id t.loop
Step-IsGone {s} id good (turns now at) gone =
    after_turn-IsGone id (turn now s.loop) s (turn-IsGone id now s.loop good.safe gone)
Step-IsGone id good (returns at) gone = unfold finish in gone
Step-IsGone id good (wakes d at signal) gone = gone
Step-IsGone id good (times_out d at limit) gone = gone
Step-IsGone {s} id good (sends h e free) (gone, given) =
    let (timers, ids) = send_event-timers h e s.loop in
    unfold after_send in (ap (occurs id) timers ∙ gone, omega (arith, ids))
Step-IsGone {s} id good (removes h free) gone = remove_handler-IsGone id h s.loop gone
Step-IsGone id good (filters f allowed free) gone = unfold filter_events in gone
Step-IsGone {s} id good (adds now h interval one_shot pos few free) gone =
    add_timer-IsGone id now h interval one_shot s.loop few gone
Step-IsGone {s} id good (cancels other free) gone = stop_timer-keeps_IsGone id other s.loop gone
Step-IsGone id good (quits free) gone = unfold stop in gone
Step-IsGone id good (joins at) (gone, given) = unfold join occurs in (refl, given)

-- A turn calls no timer with this identifier.
abbrev pub NotCalled : ℕ → Turn → Type 0
NotCalled id (calls_timer t) = t.id_ ≢ id
NotCalled id ends = Unit
NotCalled id goes_on = Unit
NotCalled id (calls_event e) = Unit
NotCalled id (waits d) = Unit

gone_before :
    (id now : ℕ) (timers : List Timer) (o : Option Timer)
    → occurs id timers ≡ 0
    → Calls now timers o
    → (t : Timer) → o ≡ some t
    → t.id_ ≢ id
unfolding occurs
gone_before id now timers none gone h t e = cc e
gone_before id now timers (some u) gone (before, after, split, past) t e =
    let same : u ≡ t = cc e in
    let count : occurs id timers ≡ occurs id before + occurs id (u ∷ after) =
      rw split (occurs-append id before (u ∷ after)) in
    subst (λ v. v.id_ ≢ id) same (λ k. absurd (ground (arith, count, gone, k)))

turn_event-NotCalled :
    (id : ℕ) (l : Loop) (s : List Event) → NotCalled id (turn_event (process_queue s l)).0
unfolding turn_event process_queue turn_wait
turn_event-NotCalled id l [] =
    if-cases {A = Turn × Loop} (λ r. NotCalled id r.0) l.signalled_ _ _ (λ e. tt) (λ e. tt)
turn_event-NotCalled id l (e ∷ s) = tt

turn_timer-NotCalled :
    (id : ℕ) (r : Option Timer × Loop)
    → ((t : Timer) → r.0 ≡ some t → t.id_ ≢ id)
    → NotCalled id (turn_timer r).0
unfolding turn_timer process_event
turn_timer-NotCalled id (some t, l) h = h t refl
turn_timer-NotCalled id (none, l) h = turn_event-NotCalled id l l.pending_events_

turn-NotCalled : (id now : ℕ) (l : Loop) → IsSafe l → IsGone id l → NotCalled id (turn now l).0
unfolding turn
turn-NotCalled id now l safe (gone, given) =
    if-cases {A = Turn × Loop} (λ r. NotCalled id r.0) l.quit_ _ _ (λ e. tt)
      (λ e. turn_timer-NotCalled id (process_timers now l) (
        gone_before id now l.timers_ (process_timers now l).0 gone
          (process_timers-Calls now l safe)))

Steps-IsGone :
    {s t : System} (id : ℕ) → IsGood s → IsGone id s.loop → Steps s t → IsGood t × IsGone id t.loop
Steps-IsGone id good gone here = (good, gone)
Steps-IsGone id good gone (next r st) =
    let (good', gone') = Steps-IsGone id good gone r in
    (Step-IsGood st good', Step-IsGone id good' st gone')

-- Behind stop_timer of an identifier that was given out, no turn in any further run calls a timer with
-- it, where fewer than 2 ^ 64 timers are added in all, so that next_timer_id_ does not wrap, and the
-- filters of filter_events are as for the events: they send none to a handler that is being removed
-- and keep the objects.
pub stopped-NotCalled :
    {s t : System} (id now : ℕ)
    → Reach s
    → 0 < id
    → id ≤ s.loop.next_timer_id_
    → IsFree s.phase
    → Steps (record s { loop = stop_timer id s.loop }) t
    → NotCalled id (turn now t.loop).0
stopped-NotCalled {s} {t} id now r pos given free later =
    let good = Reach-IsGood r in
    let (good', gone) =
      Steps-IsGone id (Step-IsGood (cancels id free) good)
        (stop_timer-IsGone id s.loop good.safe pos given) later in
    turn-NotCalled id now t.loop good'.safe gone
