-- ===== src/EventLoop/Run.antt =====
-- The thread of the event loop, `entry`, among the other threads that call the loop.
use lfz.Prelude.{
  ℕ, suc, ◌<◌, ◌^◌, ◌≡◌, Bool, true, false, List, [], ◌∷◌, ◌++◌, Option, none, some, if◌then◌else◌,
  elem,
}
use lfz.EventLoop.{
  Timer, Event, Loop, empty_loop, process_timers, process_event, finish, send_event,
}
use lfz.EventLoop.{Filter, remove_handler, filter_events, add_timer, stop_timer, stop, join}

-- What one round of `while (!quit_)` comes to, up to the next place where it gives `sync_` away: the
-- loop ends, calls a handler, waits until a point in time (0 without limit), or does not wait since
-- the condition was signalled.
pub data Turn : Type 0 where
  ends goes_on : Turn
  calls_timer : Timer → Turn
  calls_event : Event → Turn
  waits : ℕ → Turn

-- `cond_.wait`, up to its sleep.
unfoldable pub turn_wait : Loop → Turn × Loop
turn_wait l =
    if l.signalled_ then (goes_on, record l { signalled_ = false }) else (waits l.deadline_, l)

unfoldable pub turn_event : Option Event × Loop → Turn × Loop
turn_event (some e, l) = (calls_event e, l)
turn_event (none, l) = turn_wait l

unfoldable pub turn_timer : Option Timer × Loop → Turn × Loop
turn_timer (some t, l) = (calls_timer t, l)
turn_timer (none, l) = turn_event (process_event l)

unfoldable pub turn : ℕ → Loop → Turn × Loop
turn now l = if l.quit_ then (ends, l) else turn_timer (process_timers now l)

-- The identity of an event, by which `delete` and the handlers know it.
abbrev pub objects : List Event → List ℕ
objects [] = []
objects (e ∷ s) = e.event ∷ objects s

-- Where the thread of the loop is: it has the mutex, a handler runs, it sleeps until a point in time,
-- or it has ended.
pub data Phase : Type 0 where
  locked calling ended : Phase
  asleep : ℕ → Phase

-- The loop, its thread, and what was queued and handed to handlers so far.
pub record System : Type 0 where
  pub loop : Loop
  pub phase : Phase
  pub queued : List Event
  pub delivered : List Event

abbrev pub start : System
start = record { loop = empty_loop; phase = locked; queued = []; delivered = [] }

unfoldable pub after_turn : Turn × Loop → System → System
after_turn (ends, l) s = record s { loop = l; phase = ended }
after_turn (goes_on, l) s = record s { loop = l }
after_turn (calls_timer t, l) s = record s { loop = l; phase = calling }
after_turn (calls_event e, l) s = record s {
  loop = l;
  phase = calling;
  delivered = s.delivered ++ (e ∷ []);
}
after_turn (waits d, l) s = record s { loop = l; phase = asleep d }

unfoldable pub after_send : ℕ → ℕ → System → System
after_send h e s = record s {
  loop = send_event h e s.loop;
  queued =
      if elem h s.loop.removing_
      then s.queued
      else s.queued ++ (record { handler = h; event = e } ∷ []);
}

-- The other threads and the handlers get the mutex where the thread of the loop has not got it.
abbrev pub IsFree : Phase → Type 0
IsFree locked = ⊥
IsFree calling = Unit
IsFree ended = Unit
IsFree (asleep d) = Unit

-- What a filter does to the entries that it leaves in the queue: an event stays the object that it was, and
-- no entry is for a handler that is being removed.
abbrev pub IsAllowed : Filter → List ℕ → ℕ → List Event → Type 0
IsAllowed f removing n [] = Unit
IsAllowed f removing n (e ∷ s) =
    ((f n e).0 ≡ false → ((f n e).1.event ≡ e.event) × (elem (f n e).1.handler removing ≡ false))
    × IsAllowed f removing (suc n) s

-- The steps of the threads. Filters are allowed ones, and fewer than 2 ^ 64 identifiers of timers are given
-- out. A wait ends with the signal, or where it has a limit, at any time.
pub data Step (s : System) : System → Type 0 where
  turns : (now : ℕ) → s.phase ≡ locked → Step s (after_turn (turn now s.loop) s)
  returns : s.phase ≡ calling → Step s (record s { loop = finish s.loop; phase = locked })
  wakes :
      (d : ℕ)
      → s.phase ≡ asleep d
      → s.loop.signalled_ ≡ true
      → Step s (record s { loop = record s.loop { signalled_ = false }; phase = locked })
  times_out : (d : ℕ) → s.phase ≡ asleep d → 0 < d → Step s (record s { phase = locked })
  sends : (h e : ℕ) → IsFree s.phase → Step s (after_send h e s)
  removes : (h : ℕ) → IsFree s.phase → Step s (record s { loop = remove_handler h s.loop })
  filters :
      (f : Filter)
      → IsAllowed f s.loop.removing_ 0 s.loop.pending_events_
      → IsFree s.phase
      → Step s (record s { loop = filter_events f s.loop })
  adds :
      (now h interval : ℕ) (one_shot : Bool)
      → 0 < now
      → suc s.loop.next_timer_id_ < 2 ^ 64
      → IsFree s.phase
      → Step s (record s { loop = (add_timer now h interval one_shot s.loop).1 })
  cancels : (id : ℕ) → IsFree s.phase → Step s (record s { loop = stop_timer id s.loop })
  quits : IsFree s.phase → Step s (record s { loop = stop s.loop })
  joins : s.phase ≡ ended → Step s (record s { loop = join s.loop })

-- Runs.
pub data Steps (s : System) : System → Type 0 where
  here : Steps s s
  next : {t u : System} → Steps s t → Step t u → Steps s u

abbrev pub Reach : System → Type 0
Reach = Steps start
