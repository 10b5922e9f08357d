-- ===== src/EventLoop/Timers.antt =====
-- Lists of timers and of events under the removals of lib/event_loop.cpp.
use lfz.Prelude.{ℕ, ◌+◌, ◌≤◌, ◌<◌, ◌≡◌, refl, arith, Bool, true, false, List, [], ◌∷◌, ◌++◌, All}
use lfz.Prelude.{elem, ◌==◌}
use lfz.EventLoop.{Timer, Event, last, all_but_last, swap_out, erase_id, has_id, erase_timers}
use lfz.EventLoop.{erase_events}

module _ (P : Timer → Type 0) where
  All-last : (t : Timer) (s : List Timer) → P t → All P s → P (last t s)
  unfolding last
  All-last t [] h hs = h
  All-last t (u ∷ s) h (hu, hs) = All-last u s hu hs

  All-all_but_last : (t : Timer) (s : List Timer) → P t → All P s → All P (all_but_last t s)
  unfolding all_but_last
  All-all_but_last t [] h hs = tt
  All-all_but_last t (u ∷ s) h (hu, hs) = (h, All-all_but_last u s hu hs)

  pub All-swap_out : (s : List Timer) → All P s → All P (swap_out s)
  unfolding swap_out
  All-swap_out [] h = tt
  All-swap_out (t ∷ s) (h, hs) = (All-last t s h hs, All-all_but_last t s h hs)

  pub All-erase_id : (id : ℕ) (s : List Timer) → All P s → All P (erase_id id s)
  unfolding erase_id
  All-erase_id id [] h = tt
  All-erase_id id (t ∷ s) (h, hs) = ground (arith, All-swap_out s hs, All-erase_id id s hs)

  pub All-erase_timers : (h : ℕ) (s : List Timer) → All P s → All P (erase_timers h s)
  unfolding erase_timers
  All-erase_timers h [] hs = tt
  All-erase_timers h (t ∷ s) (ht, hs) = ground (arith, All-erase_timers h s hs)

pub All-erase_events :
    (P : Event → Type 0) (remove : Event → Bool) (s : List Event)
    → All P s
    → All P (erase_events remove s)
unfolding erase_events
All-erase_events P remove [] h = tt
All-erase_events P remove (e ∷ s) (h, hs) = ground (arith, All-erase_events P remove s hs)

-- Nothing of a removed handler is left, and what is left is of no handler that was removed before.
abbrev pub IsLiveEvent : List ℕ → Event → Type 0
IsLiveEvent removing e = elem e.handler removing ≡ false

abbrev pub IsLiveTimer : List ℕ → Timer → Type 0
IsLiveTimer removing t = elem t.handler_ removing ≡ false

pub erase_events-IsLiveEvent :
    (h : ℕ) (removing : List ℕ) (s : List Event)
    → All (IsLiveEvent removing) s
    → All (IsLiveEvent (h ∷ removing)) (erase_events (λ e. e.handler == h) s)
unfolding erase_events elem
erase_events-IsLiveEvent h removing [] hs = tt
erase_events-IsLiveEvent h removing (e ∷ s) (he, hs) =
    ground (arith, erase_events-IsLiveEvent h removing s hs)

pub erase_timers-IsLiveTimer :
    (h : ℕ) (removing : List ℕ) (s : List Timer)
    → All (IsLiveTimer removing) s
    → All (IsLiveTimer (h ∷ removing)) (erase_timers h s)
unfolding erase_timers elem
erase_timers-IsLiveTimer h removing [] hs = tt
erase_timers-IsLiveTimer h removing (t ∷ s) (ht, hs) =
    ground (arith, erase_timers-IsLiveTimer h removing s hs)

-- How often an identifier occurs.
abbrev one_if : Bool → ℕ
one_if true = 1
one_if false = 0

unfoldable pub occurs : ℕ → List Timer → ℕ
occurs i [] = 0
occurs i (t ∷ s) = one_if (t.id_ == i) + occurs i s

module _ (i : ℕ) where
  pub occurs-append : (s u : List Timer) → occurs i (s ++ u) ≡ occurs i s + occurs i u
  unfolding occurs
  occurs-append [] u = omega arith
  occurs-append (t ∷ s) u = omega (arith, occurs-append s u)

  occurs-last :
      (t : Timer) (s : List Timer)
      → one_if ((last t s).id_ == i) + occurs i (all_but_last t s)
        ≡ one_if (t.id_ == i) + occurs i s
  unfolding occurs last all_but_last
  occurs-last t [] = omega arith
  occurs-last t (u ∷ s) = omega (arith, occurs-last u s)

  pub occurs-swap_out : (s : List Timer) → occurs i (swap_out s) ≡ occurs i s
  unfolding occurs swap_out
  occurs-swap_out [] = refl
  occurs-swap_out (t ∷ s) = occurs-last t s

  pub occurs-erase_timers : (h : ℕ) (s : List Timer) → occurs i (erase_timers h s) ≤ occurs i s
  unfolding occurs erase_timers
  occurs-erase_timers h [] = omega arith
  occurs-erase_timers h (t ∷ s) = ground (arith, occurs-erase_timers h s)

  pub occurs-erase_id : (id : ℕ) (s : List Timer) → occurs i (erase_id id s) ≤ occurs i s
  unfolding occurs erase_id
  occurs-erase_id id [] = omega arith
  occurs-erase_id id (t ∷ s) = ground (arith, occurs-swap_out s, occurs-erase_id id s)

  -- An identifier above all is new.
  pub occurs-above : (n : ℕ) (s : List Timer) → n < i → All (λ t. t.id_ ≤ n) s → occurs i s ≡ 0
  unfolding occurs
  occurs-above n [] h hs = refl
  occurs-above n (t ∷ s) h (ht, hs) = ground (arith, occurs-above n s h hs)

pub erase_id-occurs : (id : ℕ) (s : List Timer) → occurs id s ≤ 1 → occurs id (erase_id id s) ≡ 0
unfolding occurs erase_id
erase_id-occurs id [] h = refl
erase_id-occurs id (t ∷ s) h = ground (arith, occurs-swap_out id s, erase_id-occurs id s)

pub has_id-occurs : (id : ℕ) (s : List Timer) → has_id id s ≡ false → occurs id s ≡ 0
unfolding occurs has_id
has_id-occurs id [] h = refl
has_id-occurs id (t ∷ s) h = ground (arith, has_id-occurs id s)
