-- ===== src/EventLoop/Tests.antt =====
-- The theorems on the event loop at a concrete run.
use lfz.Prelude.{◌≡◌, ◌⊎◌, refl, arith, true, false, [], ◌∷◌, elem}
use mathlib.Core.Option
use lfz.EventLoop.{
  Event, Loop, empty_loop, send_event, next_id, add_timer, stop_timer, process_timers,
}
use lfz.EventLoop.{process_event, process_queue}
use lfz.EventLoop.{is_earlier}
use lfz.EventLoop.Invariant.{IsSafe, empty_loop-IsSafe, add_timer-IsSafe}
use lfz.EventLoop.Firing.{Calls, process_timers-Calls}
use lfz.EventLoop.Run.{
  System, start, turn, turn_timer, turn_event, turn_wait, after_turn, after_send,
}
use lfz.EventLoop.Run.{locked, calling, asleep, Reach, here, next}
use lfz.EventLoop.{filter_events, filter_queue}
use lfz.EventLoop.Run.{filters, turns, sends, wakes, adds}
use lfz.EventLoop.Order.{Within}
use lfz.EventLoop.Safety.{IsAtRest, delivered_in_order, asleep-HasNoWork}
use lfz.EventLoop.Removed.{CallsLive, removed_not_called}
use lfz.EventLoop.Stopped.{NotCalled, stopped-NotCalled}

-- The thread waits, another one sends event 9 to handler 7, the thread wakes up and calls the handler;
-- meanwhile a timer is added.
abbrev sent : Event
sent = record { handler = 7; event = 9 }

abbrev waiting : System
waiting = record start { phase = asleep 0 }

abbrev signalled : System
signalled = record waiting {
  loop = record empty_loop { pending_events_ = sent ∷ []; signalled_ = true };
  queued = sent ∷ [];
}

abbrev woken : System
woken = record signalled {
  loop = record empty_loop { pending_events_ = sent ∷ [] };
  phase = locked;
}

abbrev serving : System
serving = record woken {
  loop = record empty_loop { active_handler_ = Option.some 7 };
  phase = calling;
  delivered = sent ∷ [];
}

to_waiting : Reach waiting
unfolding turn turn_timer turn_event turn_wait after_turn process_timers process_event process_queue
to_waiting = next here (turns 5 refl)

to_signalled : Reach signalled
unfolding after_send send_event elem
to_signalled = next to_waiting (sends 7 9 tt)

to_woken : Reach woken
to_woken = next to_signalled (wakes 0 refl refl)

to_serving : Reach serving
unfolding turn turn_timer turn_event turn_wait after_turn process_timers process_event process_queue
to_serving = next to_woken (turns 6 refl)

delivered_in_order_example : Within (9 ∷ []) (9 ∷ [])
delivered_in_order_example = delivered_in_order to_serving

asleep-HasNoWork_example : (signalled.loop.signalled_ ≡ true) ⊎ IsAtRest 0 signalled.loop
asleep-HasNoWork_example = asleep-HasNoWork 0 to_signalled refl

-- A filter sends the event to handler 8 instead, as a socket does when its handler changes.
abbrev retargeted : System
retargeted = record signalled {
  loop = record signalled.loop { pending_events_ = record { handler = 8; event = 9 } ∷ [] };
}

to_retargeted : Reach retargeted
unfolding filter_events filter_queue elem
to_retargeted =
    next to_signalled
      (filters (λ n e. (false, record e { handler = 8 })) ((λ k. (refl, refl)), tt) tt)

removed_not_called_example : CallsLive retargeted.loop.removing_ (turn 6 retargeted.loop).0
removed_not_called_example = removed_not_called 6 to_retargeted

-- A timer that is due at 150.
abbrev with_timer : Loop
with_timer = record empty_loop {
  timers_ = record { handler_ = 1; id_ = 1; deadline_ = 150; interval_ = 0 } ∷ [];
  deadline_ = 150;
  next_timer_id_ = 1;
  signalled_ = true;
}

with_timer-IsSafe : IsSafe with_timer
unfolding add_timer next_id is_earlier elem
with_timer-IsSafe =
    add_timer-IsSafe 100 1 50 true empty_loop (omega arith) (omega arith) empty_loop-IsSafe

process_timers-Calls_example : Calls 160 with_timer.timers_ (process_timers 160 with_timer).0
process_timers-Calls_example = process_timers-Calls 160 with_timer with_timer-IsSafe

abbrev timed : System
timed = record serving { loop = record with_timer { active_handler_ = Option.some 7 } }

to_timed : Reach timed
unfolding add_timer next_id is_earlier elem
to_timed = next to_serving (adds 100 1 50 true (omega arith) (omega arith) tt)

stopped-NotCalled_example : NotCalled 1 (turn 200 (stop_timer 1 timed.loop)).0
stopped-NotCalled_example = stopped-NotCalled 1 200 to_timed (omega arith) (omega arith) tt here
