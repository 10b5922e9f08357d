-- ===== src/EventLoop/Turns.antt =====
-- One round of `entry`: the queue, and the invariant.
use lfz.Prelude.{ℕ, ◌≤◌, ◌<◌, ◌≡◌, ◌⊎◌, refl, sym, ◌∙◌, arith, false, List, []}
use lfz.Prelude.{◌∷◌, ◌==◌, Option, Bool-cases, if-cases, inl, inr}
use lfz.Prelude.{none, some, ltb}
use lfz.EventLoop.{Timer, Event, Loop, process_timers, process_event, process_queue, process_scan}
use lfz.EventLoop.{fire}
use lfz.EventLoop.{Scan, not_yet, expired, scan}
use lfz.EventLoop.Invariant
use lfz.EventLoop.Invariant.{IsSafe}
use lfz.EventLoop.Firing.{process_timers-IsSafe}
use lfz.EventLoop.Run.{Turn, ends, goes_on, calls_timer, calls_event, waits, turn, turn_timer}
use lfz.EventLoop.Run.{turn_event, turn_wait}
use lfz.EventLoop.Idle.{HasNoWork}

-- What a turn does to the queue, and when it lets the thread sleep.
abbrev pub Turned : Loop → Turn × Loop → Type 0
Turned l (ends, l') = l'.pending_events_ ≡ l.pending_events_
Turned l (goes_on, l') = l'.pending_events_ ≡ l.pending_events_
Turned l (calls_timer t, l') = l'.pending_events_ ≡ l.pending_events_
Turned l (calls_event e, l') = l.pending_events_ ≡ e ∷ l'.pending_events_
Turned l (waits d, l') = (l'.pending_events_ ≡ l.pending_events_) × HasNoWork d l'

-- `process_timers` leaves the queue and `quit_` alone.
pub process_timers-queue :
    (now : ℕ) (l : Loop)
    → ((process_timers now l).1.pending_events_ ≡ l.pending_events_)
      × ((process_timers now l).1.quit_ ≡ l.quit_)
unfolding process_timers process_scan fire
process_timers-queue now l = elim (Bool-cases (l.deadline_ == 0)) [
  | inl e ↦ rw e (refl, refl)
  | inr e ↦ elim (Bool-cases (ltb now l.deadline_)) [
    | inl f ↦ rw (e, f) (refl, refl)
    | inr f ↦ rw (e, f) (found (scan now 0 [] l.timers_))
  ]
]
  where
    found :
        (r : Scan)
        → ((process_scan now r l).1.pending_events_ ≡ l.pending_events_)
          × ((process_scan now r l).1.quit_ ≡ l.quit_)
    found (not_yet d) = (refl, refl)
    found (expired before t after d) = ground arith

zero_or : (d : ℕ) → (d ≡ 0) ⊎ ((0 < d) × (d ≤ d))
zero_or d = ground arith

turn_wait-Turned : (l : Loop) → l.pending_events_ ≡ [] → l.quit_ ≡ false → Turned l (turn_wait l)
unfolding turn_wait
turn_wait-Turned l empty running =
    if-cases (Turned l) l.signalled_ _ _ (λ e. refl)
      (λ e. (refl, inr (empty, running, zero_or l.deadline_)))

turn_event-Turned :
    (l : Loop) (s : List Event)
    → l.pending_events_ ≡ s
    → l.quit_ ≡ false
    → Turned l (turn_event (process_queue s l))
unfolding turn_event process_queue
turn_event-Turned l [] e running = turn_wait-Turned l e running
turn_event-Turned l (e ∷ s) same running = same

-- Between loops with the same queue.
Turned-same :
    (l l1 : Loop) (r : Turn × Loop)
    → l1.pending_events_ ≡ l.pending_events_
    → Turned l1 r
    → Turned l r
Turned-same l l1 (ends, l') e h = h ∙ e
Turned-same l l1 (goes_on, l') e h = h ∙ e
Turned-same l l1 (calls_timer t, l') e h = h ∙ e
Turned-same l l1 (calls_event v, l') e h = sym e ∙ h
Turned-same l l1 (waits d, l') e (h, work) = (h ∙ e, work)

turn_timer-Turned :
    (l : Loop) (r : Option Timer × Loop)
    → r.1.pending_events_ ≡ l.pending_events_
    → r.1.quit_ ≡ false
    → Turned l (turn_timer r)
unfolding turn_timer process_event
turn_timer-Turned l (some t, l1) e running = e
turn_timer-Turned l (none, l1) e running =
    Turned-same l l1 _ e (turn_event-Turned l1 l1.pending_events_ refl running)

pub turn-Turned : (now : ℕ) (l : Loop) → Turned l (turn now l)
unfolding turn
turn-Turned now l =
    let (queue, quit) = process_timers-queue now l in
    if-cases (Turned l) l.quit_ _ _ (λ e. refl)
      (λ e. turn_timer-Turned l (process_timers now l) queue (quit ∙ e))

turn_wait-IsSafe : (l : Loop) → IsSafe l → IsSafe (turn_wait l).1
unfolding turn_wait
turn_wait-IsSafe l h =
    if-cases {A = Turn × Loop} (λ r. IsSafe r.1) l.signalled_ _ _
      (λ e. record { live_events = h.live_events; timers = h.timers }) (λ e. h)

turn_event-IsSafe : (r : Option Event × Loop) → IsSafe r.1 → IsSafe (turn_event r).1
unfolding turn_event
turn_event-IsSafe (some e, l) h = h
turn_event-IsSafe (none, l) h = turn_wait-IsSafe l h

turn_timer-IsSafe : (r : Option Timer × Loop) → IsSafe r.1 → IsSafe (turn_timer r).1
unfolding turn_timer
turn_timer-IsSafe (some t, l) h = h
turn_timer-IsSafe (none, l) h =
    turn_event-IsSafe (process_event l) (Invariant.process_event-IsSafe l h)

pub turn-IsSafe : (now : ℕ) (l : Loop) → IsSafe l → IsSafe (turn now l).1
unfolding turn
turn-IsSafe now l h =
    if-cases {A = Turn × Loop} (λ r. IsSafe r.1) l.quit_ _ _ (λ e. h)
      (λ e. turn_timer-IsSafe (process_timers now l) (process_timers-IsSafe now l h))
