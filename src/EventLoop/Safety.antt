-- ===== src/EventLoop/Safety.antt =====
-- What holds of the event loop in every run of the threads.
use lfz.Prelude.{ℕ, ◌≤◌, ◌<◌, ◌≡◌, ◌⊎◌, refl, sym, arith, Bool, true, false, List, [], All, All-map}
use lfz.Prelude.{◌∷◌, ◌++◌, elem, ◌==◌, Bool-cases, inl, inr}
use lfz.Prelude.{append-nil, append_assoc}
use mathlib.Core.Path.{subst, subst⁻¹}
use lfz.EventLoop.{Timer, Loop}
use lfz.EventLoop.{send_event, remove_handler, filter_events, add_timer, stop_timer, with_timers}
use lfz.EventLoop.{finish, stop, join}
use lfz.EventLoop.Invariant
use lfz.EventLoop.Invariant.{IsSafe}
use lfz.EventLoop.Scanning.{Due}
use lfz.EventLoop.Run.{Turn, ends, goes_on, calls_timer, calls_event, waits, turn}
use lfz.EventLoop.Run.{objects, locked, asleep, System, start}
use lfz.EventLoop.Run.{after_turn, after_send, Step, Reach, here, next}
use lfz.EventLoop.Run.{
  turns, returns, wakes, times_out, sends, removes, filters, adds, cancels, quits, joins,
}
use lfz.EventLoop.Order.{filter_queue-Within, objects-append}
use lfz.EventLoop.Order.{Within, done, Within-append, Within-append_same, Within-trans, Within-refl}
use lfz.EventLoop.Order.{erase_events-Within, Within-front}
use lfz.EventLoop.Idle.{
  HasNoWork, send_event-HasNoWork, stop_timer-HasNoWork, filter_events-HasNoWork,
}
use lfz.EventLoop.Idle.{remove_handler-HasNoWork, add_timer-HasNoWork}
use lfz.EventLoop.Turns.{Turned, turn-Turned, turn-IsSafe}

-- The loop is well-formed, what was delivered and what is queued was queued in that order, and its
-- thread does not sleep over work.
pub record IsGood (s : System) : Type 0 where
  pub safe : IsSafe s.loop
  pub ordered : Within (objects s.delivered ++ objects s.loop.pending_events_) (objects s.queued)
  pub awake : (d : ℕ) → s.phase ≡ asleep d → HasNoWork d s.loop

after_turn-IsGood :
    (s : System) (r : Turn × Loop)
    → s.phase ≡ locked
    → IsGood s
    → IsSafe r.1
    → Turned s.loop r
    → IsGood (after_turn r s)
unfolding after_turn
after_turn-IsGood s (ends, l) at good safe e = record {
  safe = safe;
  ordered =
      subst (λ q. Within (objects s.delivered ++ objects q) (objects s.queued)) (sym e)
        good.ordered;
  awake = λ d k. cc k;
}
after_turn-IsGood s (goes_on, l) at good safe e = record {
  safe = safe;
  ordered =
      subst (λ q. Within (objects s.delivered ++ objects q) (objects s.queued)) (sym e)
        good.ordered;
  awake = λ d k. cc (at, k);
}
after_turn-IsGood s (calls_timer t, l) at good safe e = record {
  safe = safe;
  ordered =
      subst (λ q. Within (objects s.delivered ++ objects q) (objects s.queued)) (sym e)
        good.ordered;
  awake = λ d k. cc k;
}
after_turn-IsGood s (calls_event v, l) at good safe e = record {
  safe = safe;
  ordered =
      rw
        (
          objects-append s.delivered (v ∷ []),
          append_assoc (objects s.delivered) (v.event ∷ []) (objects l.pending_events_),
        )
        (subst (λ q. Within (objects s.delivered ++ objects q) (objects s.queued)) e good.ordered);
  awake = λ d k. cc k;
}
after_turn-IsGood s (waits d, l) at good safe (e, work) = record {
  safe = safe;
  ordered =
      subst (λ q. Within (objects s.delivered ++ objects q) (objects s.queued)) (sym e)
        good.ordered;
  awake = λ d' k. let same : d ≡ d' = cc k in subst (λ n. HasNoWork n l) same work;
}

after_send-IsGood : (h e : ℕ) (s : System) → IsGood s → IsGood (after_send h e s)
unfolding after_send
after_send-IsGood h e s good = record {
  safe = Invariant.send_event-IsSafe h e s.loop good.safe;
  ordered = elim (Bool-cases (elem h s.loop.removing_)) [
    | inl removed ↦ unfold send_event in rw removed good.ordered
    | inr live ↦
        unfold send_event in
        rw
          (
            live,
            objects-append s.queued (record { handler = h; event = e } ∷ []),
            objects-append s.loop.pending_events_ (record { handler = h; event = e } ∷ []),
            ← append_assoc (objects s.delivered) (objects s.loop.pending_events_) (e ∷ []),
          )
          (Within-append_same _ good.ordered)
  ];
  awake = λ d k. send_event-HasNoWork h e d s.loop (good.awake d k);
}

-- A step of another thread that only takes events out of the queue.
quieter :
    (s : System) (l : Loop)
    → IsGood s
    → IsSafe l
    → Within (objects l.pending_events_) (objects s.loop.pending_events_)
    → ((d : ℕ) → HasNoWork d s.loop → HasNoWork d l)
    → IsGood (record s { loop = l })
quieter s l good safe fewer still = record {
  safe = safe;
  ordered = Within-trans (Within-append (objects s.delivered) fewer) good.ordered;
  awake = λ d k. still d (good.awake d k);
}

add_timer-queue :
    (now h interval : ℕ) (one_shot : Bool) (l : Loop)
    → (add_timer now h interval one_shot l).1.pending_events_ ≡ l.pending_events_
unfolding add_timer
add_timer-queue now h interval one_shot l = ground arith

stop_timer-queue : (id : ℕ) (l : Loop) → (stop_timer id l).pending_events_ ≡ l.pending_events_
unfolding stop_timer with_timers
stop_timer-queue id l = ground arith

pub Step-IsGood : {s t : System} → Step s t → IsGood s → IsGood t
Step-IsGood {s} (turns now at) good =
    after_turn-IsGood s (turn now s.loop) at good (turn-IsSafe now s.loop good.safe)
      (turn-Turned now s.loop)
Step-IsGood {s} (returns at) good = record {
  safe = Invariant.finish-IsSafe s.loop good.safe;
  ordered = unfold finish in good.ordered;
  awake = λ d k. cc k;
}
Step-IsGood (wakes d at signal) good = record {
  safe = record { live_events = good.safe.live_events; timers = good.safe.timers };
  ordered = good.ordered;
  awake = λ d k. cc k;
}
Step-IsGood (times_out d at limit) good = record {
  safe = good.safe;
  ordered = good.ordered;
  awake = λ d k. cc k;
}
Step-IsGood {s} (sends h e free) good = after_send-IsGood h e s good
Step-IsGood {s} (removes h free) good =
    quieter s _ good (Invariant.remove_handler-IsSafe h s.loop good.safe)
      (unfold remove_handler with_timers in
        erase_events-Within (λ e. e.handler == h) s.loop.pending_events_)
      (λ d. remove_handler-HasNoWork h d s.loop)
Step-IsGood {s} (filters f allowed free) good =
    quieter s _ good (Invariant.filter_events-IsSafe f s.loop allowed good.safe)
      (unfold filter_events in
        filter_queue-Within f s.loop.removing_ 0 s.loop.pending_events_ allowed)
      (λ d. filter_events-HasNoWork f d s.loop)
Step-IsGood {s} (adds now h interval one_shot pos few free) good =
    quieter s _ good (Invariant.add_timer-IsSafe now h interval one_shot s.loop pos few good.safe)
      (subst⁻¹ (λ q. Within (objects q) (objects s.loop.pending_events_))
        (add_timer-queue now h interval one_shot s.loop) (Within-refl _))
      (λ d. add_timer-HasNoWork now h interval one_shot d s.loop)
Step-IsGood {s} (cancels id free) good =
    quieter s _ good (Invariant.stop_timer-IsSafe id s.loop good.safe)
      (subst⁻¹ (λ q. Within (objects q) (objects s.loop.pending_events_))
        (stop_timer-queue id s.loop) (Within-refl _))
      (λ d. stop_timer-HasNoWork id d s.loop)
Step-IsGood {s} (quits free) good =
    quieter s _ good (Invariant.stop-IsSafe s.loop good.safe)
      (unfold stop in Within-refl (objects s.loop.pending_events_)) (λ d w. unfold stop in inl refl)
Step-IsGood {s} (joins at) good = record {
  safe = Invariant.join-IsSafe s.loop good.safe;
  ordered =
      unfold join in
      rw (append-nil (objects s.delivered))
        (Within-front (objects s.delivered) _ (objects s.queued) good.ordered);
  awake = λ d k. cc (at, k);
}

empty-IsGood : IsGood start
empty-IsGood = record { safe = Invariant.empty_loop-IsSafe; ordered = done; awake = λ d k. cc k }

pub Reach-IsGood : {s : System} → Reach s → IsGood s
Reach-IsGood here = empty-IsGood
Reach-IsGood (next r st) = Step-IsGood st (Reach-IsGood r)

-- In every run, the events that were handed to handlers, and behind them those that are queued, are
-- objects that were queued, in the order in which they were queued, and each once at most. The filters
-- of filter_events in the run may remove entries and send others to another handler that is not being
-- removed; each event that they keep stays the object that it was. Fewer than 2 ^ 64 timers are added
-- in the run.
pub delivered_in_order :
    {s : System}
    → Reach s
    → Within (objects s.delivered ++ objects s.loop.pending_events_) (objects s.queued)
delivered_in_order r = (Reach-IsGood r).ordered

-- No event, no request to quit, and no timer, or each of them due at `d` at the earliest.
abbrev pub IsAtRest : ℕ → Loop → Type 0
IsAtRest d l =
    (l.pending_events_ ≡ [])
    × (l.quit_ ≡ false)
    × ((l.timers_ ≡ []) ⊎ ((0 < d) × All (λ t. d ≤ t.deadline_) l.timers_))

no_timers : (deadline : ℕ) (timers : List Timer) → Due deadline timers → deadline ≡ 0 → timers ≡ []
no_timers deadline [] due e = refl
no_timers deadline (t ∷ s) (h, due) e = absurd (omega (arith, h, e))

HasNoWork-IsAtRest :
    (d : ℕ) (l : Loop) → IsSafe l → HasNoWork d l → (l.signalled_ ≡ true) ⊎ IsAtRest d l
HasNoWork-IsAtRest d l safe (inl signal) = inl signal
HasNoWork-IsAtRest d l safe (inr (empty, running, inl none_due)) =
    inr (empty, running, inl (no_timers l.deadline_ l.timers_ safe.timers.due none_due))
HasNoWork-IsAtRest d l safe (inr (empty, running, inr (limit, before))) =
    inr (empty, running, inr (limit, All-map _ _ l.timers_ (λ t h. omega arith) safe.timers.due))

-- In every run, where the thread of the loop sleeps until d, or without limit where d is 0: it has
-- been signalled, or no event is queued, there is no request to quit, and there is no timer, or there
-- is a limit and each timer is due at d at the earliest. Fewer than 2 ^ 64 timers are added in the
-- run, and the filters of filter_events send no event to a handler that is being removed and keep the
-- objects.
pub asleep-HasNoWork :
    {s : System} (d : ℕ)
    → Reach s
    → s.phase ≡ asleep d
    → (s.loop.signalled_ ≡ true) ⊎ IsAtRest d s.loop
asleep-HasNoWork {s} d r k =
    let good = Reach-IsGood r in HasNoWork-IsAtRest d s.loop good.safe (good.awake d k)
