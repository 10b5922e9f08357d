-- ===== src/EventLoop/Gone.antt =====
-- The operations of the event loop bring no stopped timer back.
use lfz.Prelude.{ℕ, suc, ◌+◌, ◌^◌, ◌≤◌, ◌<◌, ◌≡◌, arith, Bool, List, []}
use lfz.Prelude.{◌∷◌, ◌++◌, elem, ◌==◌, Option, if-cases}
use lfz.Prelude.{ltb}
use lfz.EventLoop.{Timer, Loop, process_timers, process_scan}
use lfz.EventLoop.{remove_handler, add_timer, stop_timer, with_timers, fire}
use lfz.EventLoop.{Scan, not_yet, expired, scan, has_id, erase_id, erase_timers}
use lfz.EventLoop.Invariant.{IsSafe, next_id-suc}
use lfz.EventLoop.Timers.{
  occurs, occurs-append, occurs-erase_timers, occurs-erase_id, occurs-swap_out,
}
use lfz.EventLoop.{swap_out}
use lfz.EventLoop.Scanning.{Scanned}
use lfz.EventLoop.Firing.{scanned, occurs-behind, occurs-moved}
use lfz.EventLoop.Timers.{erase_id-occurs, has_id-occurs}

-- A timer with this identifier is not there, and none will get it again.
abbrev pub IsGone : ℕ → Loop → Type 0
IsGone id l = (occurs id l.timers_ ≡ 0) × (id ≤ l.next_timer_id_)

pub stop_timer-IsGone :
    (id : ℕ) (l : Loop) → IsSafe l → 0 < id → id ≤ l.next_timer_id_ → IsGone id (stop_timer id l)
unfolding stop_timer with_timers
stop_timer-IsGone id l safe pos given =
    ground (arith, erase_id-occurs id l.timers_ (safe.timers.unique id), has_id-occurs id l.timers_)

-- The identifiers that the timers lose, and no other, are gone.
fewer_left :
    (id n : ℕ) (timers timers' : List Timer)
    → occurs id timers' ≤ occurs id timers
    → (occurs id timers ≡ 0) × (id ≤ n)
    → (occurs id timers' ≡ 0) × (id ≤ n)
fewer_left id n timers timers' fewer (gone, given) = (omega arith, given)

pub add_timer-IsGone :
    (id now h interval : ℕ) (one_shot : Bool) (l : Loop)
    → suc l.next_timer_id_ < 2 ^ 64
    → IsGone id l
    → IsGone id (add_timer now h interval one_shot l).1
unfolding add_timer occurs
add_timer-IsGone id now h interval one_shot l few (gone, given) =
    if-cases {A = ℕ × Loop} (λ r. IsGone id r.1) (elem h l.removing_) _ _ (λ e. (gone, given))
      (λ e.
        let next = next_id-suc l.next_timer_id_ few in
        (rw (occurs-append id l.timers_ _, next) (ground arith), omega (arith, next)))

pub remove_handler-IsGone : (id h : ℕ) (l : Loop) → IsGone id l → IsGone id (remove_handler h l)
unfolding remove_handler with_timers
remove_handler-IsGone id h l =
    fewer_left id l.next_timer_id_ l.timers_ (erase_timers h l.timers_)
      (occurs-erase_timers id h l.timers_)

pub stop_timer-keeps_IsGone :
    (id other : ℕ) (l : Loop) → IsGone id l → IsGone id (stop_timer other l)
unfolding stop_timer with_timers
stop_timer-keeps_IsGone id other l gone =
    if-cases (IsGone id) (other == 0) _ _ (λ e. gone)
      (λ e.
        if-cases (IsGone id) (has_id other l.timers_) _ _
          (λ f.
            fewer_left id l.next_timer_id_ l.timers_ (erase_id other l.timers_)
              (occurs-erase_id id other l.timers_) gone)
          (λ f. gone))

fire-IsGone :
    (id now d : ℕ) (before after : List Timer) (t : Timer) (l : Loop)
    → l.timers_ ≡ before ++ (t ∷ after)
    → IsGone id l
    → IsGone id (fire now before t after d l)
unfolding fire
fire-IsGone id now d before after t l split gone =
    let whole : occurs id l.timers_ ≡ occurs id before + occurs id (t ∷ after) =
      rw split (occurs-append id before (t ∷ after)) in
    if-cases (IsGone id) (t.interval_ == 0) _ _
      (λ e.
        fewer_left id l.next_timer_id_ l.timers_ (before ++ swap_out after)
          (omega (
            arith,
            whole,
            occurs-append id before (swap_out after),
            occurs-swap_out id after,
            occurs-behind id t after,
          ))
          gone)
      (λ e.
        fewer_left id l.next_timer_id_ l.timers_
          (before ++ (record t { deadline_ = now + t.interval_ } ∷ after))
          (omega (
            arith,
            whole,
            occurs-append id before (record t { deadline_ = now + t.interval_ } ∷ after),
            occurs-moved id t (now + t.interval_) after,
          ))
          gone)

process_scan-IsGone :
    (id now : ℕ) (l : Loop) (r : Scan)
    → Scanned now l.timers_ r
    → IsGone id l
    → IsGone id (process_scan now r l).1
unfolding process_scan
process_scan-IsGone id now l (not_yet d) h gone = gone
process_scan-IsGone id now l (expired before t after d) (split, due, unset, past) gone =
    fire-IsGone id now d before after t l split gone

pub process_timers-IsGone :
    (id now : ℕ) (l : Loop) → IsSafe l → IsGone id l → IsGone id (process_timers now l).1
unfolding process_timers
process_timers-IsGone id now l safe gone =
    if-cases {A = Option Timer × Loop} (λ r. IsGone id r.1) (l.deadline_ == 0) _ _ (λ e. gone)
      (λ e.
        if-cases {A = Option Timer × Loop} (λ r. IsGone id r.1) (ltb now l.deadline_) _ _
          (λ f. gone)
          (λ f. process_scan-IsGone id now l (scan now 0 [] l.timers_) (scanned now l safe) gone))
