-- ===== src/EventLoop.antt =====
-- lib/event_loop.cpp and the class `condition` of lib/mutex.cpp: what each critical section of the
-- event loop does to the members that `sync_` guards. Handlers and events are numbers; a point in
-- time is a number of milliseconds, 0 is the empty clock, and intervals are not negative.
pub mod Timers
pub mod Scanning
pub mod Invariant
pub mod Firing
pub mod Run
pub mod Order
pub mod Idle
pub mod Turns
pub mod Safety
pub mod Removed
pub mod Gone
pub mod Stopped
mod Tests
use lfz.Prelude.{
  ℕ, suc, ◌+◌, ◌-◌, ◌^◌, ◌%◌, Bool, true, false, not, ◌&&◌, ◌||◌, List, [], ◌∷◌, ◌++◌, ltb, leb,
}
use lfz.Prelude.{◌==◌, if◌then◌else◌, is_empty, elem, Option, none, some}

pub record Timer : Type 0 where
  pub handler_ : ℕ
  pub id_ : ℕ
  pub deadline_ : ℕ
  pub interval_ : ℕ

-- An entry of `Events`.
pub record Event : Type 0 where
  pub handler : ℕ
  pub event : ℕ

-- `removing_` lists the handlers whose flag is set; `signalled_` is the flag of `cond_`.
pub record Loop : Type 0 where
  pub pending_events_ : List Event
  pub timers_ : List Timer
  pub deadline_ : ℕ
  pub next_timer_id_ : ℕ
  pub active_handler_ : Option ℕ
  pub quit_ : Bool
  pub signalled_ : Bool
  pub removing_ : List ℕ

abbrev pub empty_loop : Loop
empty_loop = record {
  pending_events_ = [];
  timers_ = [];
  deadline_ = 0;
  next_timer_id_ = 0;
  active_handler_ = none;
  quit_ = false;
  signalled_ = false;
  removing_ = [];
}

unfoldable pub send_event : ℕ → ℕ → Loop → Loop
send_event h e l = if elem h l.removing_ then l else record l {
  pending_events_ = l.pending_events_ ++ (record { handler = h; event = e } ∷ []);
  signalled_ = if is_empty l.pending_events_ then true else l.signalled_;
}

-- `erase(remove_if(...))` of the queue.
unfoldable pub erase_events : (Event → Bool) → List Event → List Event
erase_events remove [] = []
erase_events remove (e ∷ s) =
    let rest = erase_events remove s in if remove e then rest else e ∷ rest

unfoldable pub erase_timers : ℕ → List Timer → List Timer
erase_timers h [] = []
erase_timers h (t ∷ s) = let rest = erase_timers h s in if t.handler_ == h then rest else t ∷ rest

-- `deadline_ = monotonic_clock()` where no timer is left.
unfoldable pub with_timers : List Timer → Loop → Loop
with_timers timers l = record l {
  timers_ = timers;
  deadline_ = if is_empty timers then 0 else l.deadline_;
}

-- `remove_handler` up to its wait for the handler to return.
unfoldable pub remove_handler : ℕ → Loop → Loop
remove_handler h l = with_timers (erase_timers h l.timers_) (record l {
  pending_events_ = erase_events (λ e. e.handler == h) l.pending_events_;
  removing_ = h ∷ l.removing_;
})

-- What a filter answers to its call of this number, and what it makes of the entry.
abbrev pub Filter : Type 0
Filter = ℕ → Event → Bool × Event

-- `erase(remove_if(...))` with the filter, which is called once for each entry, from the front on.
unfoldable pub filter_queue : Filter → ℕ → List Event → List Event
filter_queue filter n [] = []
filter_queue filter n (e ∷ s) =
    let rest = filter_queue filter (suc n) s in
    if (filter n e).0 then rest else (filter n e).1 ∷ rest

unfoldable pub filter_events : Filter → Loop → Loop
filter_events filter l = record l { pending_events_ = filter_queue filter 0 l.pending_events_ }

-- `!deadline_ || t < deadline_`.
unfoldable pub is_earlier : ℕ → ℕ → Bool
is_earlier deadline t = deadline == 0 || ltb t deadline

-- `++next_timer_id_`, of 64 bits.
unfoldable pub next_id : ℕ → ℕ
next_id id = suc id % 2 ^ 64

-- The identifier, 0 for a handler that is being removed; `now` is the time at the call.
unfoldable pub add_timer : ℕ → ℕ → ℕ → Bool → Loop → ℕ × Loop
add_timer now h interval one_shot l = if elem h l.removing_ then (0, l) else (
  next_id l.next_timer_id_,
  record l {
    next_timer_id_ = next_id l.next_timer_id_;
    timers_ =
        l.timers_
        ++ (record {
          handler_ = h;
          id_ = next_id l.next_timer_id_;
          deadline_ = now + interval;
          interval_ = if one_shot then 0 else interval;
        }
            ∷ []);
    deadline_ = if is_earlier l.deadline_ (now + interval) then now + interval else l.deadline_;
    signalled_ = if is_earlier l.deadline_ (now + interval) then true else l.signalled_;
  },
)

unfoldable pub last : Timer → List Timer → Timer
last t [] = t
last t (u ∷ s) = last u s

unfoldable pub all_but_last : Timer → List Timer → List Timer
all_but_last t [] = []
all_but_last t (u ∷ s) = t ∷ all_but_last u s

-- What is left of an element and the ones behind it, when the last takes its place.
unfoldable pub swap_out : List Timer → List Timer
unfolding last all_but_last
swap_out [] = []
swap_out (t ∷ s) = last t s ∷ all_but_last t s

unfoldable pub erase_id : ℕ → List Timer → List Timer
erase_id id [] = []
erase_id id (t ∷ s) = if t.id_ == id then swap_out s else t ∷ erase_id id s

-- Whether the loop of `stop_timer` finds the timer.
unfoldable pub has_id : ℕ → List Timer → Bool
has_id id [] = false
has_id id (t ∷ s) = t.id_ == id || has_id id s

unfoldable pub stop_timer : ℕ → Loop → Loop
stop_timer id l =
    if id == 0 then l else if has_id id l.timers_ then with_timers (erase_id id l.timers_) l else l

-- The timers before the first expired one, it, those behind it, and `deadline_` then; or no expired
-- timer.
pub data Scan : Type 0 where
  not_yet : ℕ → Scan
  expired : List Timer → Timer → List Timer → ℕ → Scan

unfoldable pub scan : ℕ → ℕ → List Timer → List Timer → Scan
scan now deadline before [] = not_yet deadline
scan now deadline before (t ∷ s) = elim (is_earlier deadline t.deadline_) [
  | true ↦ elim (leb t.deadline_ now) [
    | true ↦ expired before t s deadline
    | false ↦ scan now t.deadline_ (before ++ (t ∷ [])) s
  ]
  | false ↦ scan now deadline (before ++ (t ∷ [])) s
]

-- The loop over the timers behind the expired one.
unfoldable pub earliest : ℕ → List Timer → ℕ
earliest deadline [] = deadline
earliest deadline (t ∷ s) =
    earliest (if is_earlier deadline t.deadline_ then t.deadline_ else deadline) s

unfoldable pub fire : ℕ → List Timer → Timer → List Timer → ℕ → Loop → Loop
fire now before t after deadline l =
    if t.interval_ == 0
    then record l {
      timers_ = before ++ swap_out after;
      deadline_ = earliest deadline after;
      active_handler_ = some t.handler_;
    }
    else record l {
      timers_ = before ++ (record t { deadline_ = now + t.interval_ } ∷ after);
      deadline_ =
          if is_earlier (earliest deadline after) (now + t.interval_)
          then now + t.interval_
          else earliest deadline after;
      active_handler_ = some t.handler_;
    }

-- Up to the call of the handler: the timer that is called, if any.
unfoldable pub process_scan : ℕ → Scan → Loop → Option Timer × Loop
process_scan now (not_yet deadline) l = (none, record l { deadline_ = deadline })
process_scan now (expired before t after deadline) l = (some t, fire now before t after deadline l)

unfoldable pub process_timers : ℕ → Loop → Option Timer × Loop
process_timers now l =
    if l.deadline_ == 0
    then (none, l)
    else if ltb now l.deadline_
    then (none, l)
    else process_scan now (scan now 0 [] l.timers_) l

-- Up to the call of the handler: the event that is handed over, if any.
unfoldable pub process_queue : List Event → Loop → Option Event × Loop
process_queue [] l = (none, l)
process_queue (e ∷ s) l =
    (some e, record l { pending_events_ = s; active_handler_ = some e.handler })

unfoldable pub process_event : Loop → Option Event × Loop
process_event l = process_queue l.pending_events_ l

-- Behind the call of the handler.
unfoldable pub finish : Loop → Loop
finish l = record l { active_handler_ = none }

-- The two critical sections of `stop`.
unfoldable pub stop : Loop → Loop
stop l = record l { quit_ = true; signalled_ = true }

unfoldable pub join : Loop → Loop
join l = record l { pending_events_ = []; timers_ = []; deadline_ = 0 }
