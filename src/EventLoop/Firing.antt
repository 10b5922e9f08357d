-- ===== src/EventLoop/Firing.antt =====
-- `process_timers`: which timer it calls, and the timers behind it.
use lfz.Prelude.{ℕ, ◌+◌, ◌≤◌, ◌<◌, ◌≡◌, refl, arith, true, List, [], ◌∷◌, ◌++◌}
use lfz.Prelude.{All, All-append, All-split, All-map, is_empty, ◌==◌, if◌then◌else◌, Option}
use lfz.Prelude.{Bool-cases, inl, inr, none, some, ltb, ==_iff}
use mathlib.Core.Path.{subst}
use lfz.EventLoop.{Timer, Loop, process_timers, fire, swap_out, earliest, is_earlier}
use lfz.EventLoop.{process_scan, scan, not_yet, expired, Scan}
use lfz.EventLoop.Timers.{IsLiveTimer, occurs, occurs-append, All-swap_out}
use lfz.EventLoop.Timers.{occurs-swap_out}
use lfz.EventLoop.Scanning.{Due, IsTimed, Later, Scanned, scan-Scanned, earliest-Due, Due-earlier}
use lfz.EventLoop.Scanning.{is_earlier-true, is_earlier-false}
use lfz.EventLoop.Invariant.{IsSafe, AreTimers, IsGiven, timed, not_empty}

last_one :
    (d : ℕ) (before after : List Timer)
    → (is_empty before ≡ true → d ≡ 0)
    → is_empty (before ++ swap_out after) ≡ true
    → earliest d after ≡ 0
unfolding swap_out earliest
last_one d [] [] unset e = unset refl
last_one d [] (u ∷ s) unset e = cc e
last_one d (u ∷ s) after unset e = cc e

All-update :
    (P : Timer → Type 0) (before after : List Timer) (t u : Timer)
    → (P t → P u)
    → All P (before ++ (t ∷ after))
    → All P (before ++ (u ∷ after))
All-update P before after t u f h =
    let (hb, rest) = All-split P before (t ∷ after) h in
    All-append P before (u ∷ after) hb (f rest.0, rest.1)

pub occurs-behind : (i : ℕ) (t : Timer) (s : List Timer) → occurs i s ≤ occurs i (t ∷ s)
unfolding occurs
occurs-behind i t s = omega arith

pub occurs-moved :
    (i : ℕ) (t : Timer) (d : ℕ) (s : List Timer)
    → occurs i (record t { deadline_ = d } ∷ s) ≡ occurs i (t ∷ s)
unfolding occurs
occurs-moved i t d s = refl

module _ (removing : List ℕ) (next d0 d now : ℕ) (before after : List Timer) (t : Timer)
    (kept : AreTimers removing next d0 (before ++ (t ∷ after))) (due : Due d before)
    (unset : is_empty before ≡ true → d ≡ 0) where
  -- A fired timer that is not repeated.
  one_shot : AreTimers removing next (earliest d after) (before ++ swap_out after)
  one_shot = record {
    live = replaced (IsLiveTimer removing) kept.live;
    due =
        let (first, behind) = earliest-Due d before after timed_after due in
        All-append _ before _ first (All-swap_out _ after behind);
    none_due = last_one d before after unset;
    given = replaced (IsGiven next) kept.given;
    unique = λ i. fewer i;
  }
    where
      replaced :
          (P : Timer → Type 0) → All P (before ++ (t ∷ after)) → All P (before ++ swap_out after)
      replaced P h =
          let (hb, rest) = All-split P before (t ∷ after) h in
          All-append P before (swap_out after) hb (All-swap_out P after rest.1)

      timed_after : All IsTimed after
      timed_after = (All-split IsTimed before (t ∷ after) (timed d0 _ kept.due)).1.1

      fewer : (i : ℕ) → occurs i (before ++ swap_out after) ≤ 1
      fewer i = omega (
        arith,
        occurs-append i before (swap_out after),
        occurs-append i before (t ∷ after),
        occurs-swap_out i after,
        occurs-behind i t after,
        kept.unique i,
      )

  -- A fired timer that is repeated.
  again :
      0 < now
      → AreTimers removing next
          (if is_earlier (earliest d after) (now + t.interval_)
            then now + t.interval_
            else earliest d after)
          (before ++ (record t { deadline_ = now + t.interval_ } ∷ after))
  again pos = record {
    live = All-update (IsLiveTimer removing) before after t _ (λ h. h) kept.live;
    due = moved;
    none_due = λ e. absurd (not_empty before _ after e);
    given = All-update (IsGiven next) before after t _ (λ h. h) kept.given;
    unique = λ i. omega (
      arith,
      occurs-append i before (record t { deadline_ = now + t.interval_ } ∷ after),
      occurs-append i before (t ∷ after),
      occurs-moved i t (now + t.interval_) after,
      kept.unique i,
    );
  }
    where
      both : Due (earliest d after) before × Due (earliest d after) after
      both =
          earliest-Due d before after
            (All-split IsTimed before (t ∷ after) (timed d0 _ kept.due)).1.1 due

      moved :
          Due
            (if is_earlier (earliest d after) (now + t.interval_)
              then now + t.interval_
              else earliest d after)
            (before ++ (record t { deadline_ = now + t.interval_ } ∷ after))
      moved = elim (Bool-cases (is_earlier (earliest d after) (now + t.interval_))) [
        | inl e ↦
            let less = is_earlier-true _ _ e in
            rw e (
              All-append _ before _
                (Due-earlier (earliest d after) (now + t.interval_) before (omega arith) less
                  both.0)
                (
                  (omega arith, omega arith),
                  Due-earlier (earliest d after) (now + t.interval_) after (omega arith) less
                      both.1,
                ))
        | inr e ↦ rw e (All-append _ before _ both.0 (is_earlier-false _ _ e, both.1))
      ]

fire-IsSafe :
    (now d : ℕ) (l : Loop) (before after : List Timer) (t : Timer)
    → IsSafe l
    → l.timers_ ≡ before ++ (t ∷ after)
    → Due d before
    → (is_empty before ≡ true → d ≡ 0)
    → 0 < now
    → IsSafe (fire now before t after d l)
unfolding fire
fire-IsSafe now d l before after t safe split due unset pos =
    let kept = subst (AreTimers l.removing_ l.next_timer_id_ l.deadline_) split safe.timers in
    elim (Bool-cases (t.interval_ == 0)) [
      | inl e ↦ rw e (record {
        live_events = safe.live_events;
        timers =
            one_shot l.removing_ l.next_timer_id_ l.deadline_ d now before after t kept due unset;
      })
      | inr e ↦ rw e (record {
        live_events = safe.live_events;
        timers =
            again l.removing_ l.next_timer_id_ l.deadline_ d now before after t kept due unset pos;
      })
    ]

found-IsSafe :
    (now : ℕ) (l : Loop) (r : Scan)
    → IsSafe l
    → 0 < now
    → Scanned now l.timers_ r
    → IsSafe (process_scan now r l).1
unfolding process_scan
found-IsSafe now l (not_yet d) safe pos (due, unset, later) = record {
  live_events = safe.live_events;
  timers = record {
    live = safe.timers.live;
    due = due;
    none_due = unset;
    given = safe.timers.given;
    unique = safe.timers.unique;
  };
}
found-IsSafe now l (expired before t after d) safe pos (split, due, unset, past) =
    fire-IsSafe now d l before after t safe split due unset pos

pub scanned : (now : ℕ) (l : Loop) → IsSafe l → Scanned now l.timers_ (scan now 0 [] l.timers_)
scanned now l safe =
    scan-Scanned now 0 [] l.timers_ (timed _ _ safe.timers.due) tt (λ k. refl) tt (inl refl)

pub process_timers-IsSafe : (now : ℕ) (l : Loop) → IsSafe l → IsSafe (process_timers now l).1
unfolding process_timers
process_timers-IsSafe now l safe = elim (Bool-cases (l.deadline_ == 0)) [
  | inl e ↦ rw e safe
  | inr e ↦ elim (Bool-cases (ltb now l.deadline_)) [
    | inl f ↦ rw (e, f) safe
    | inr f ↦
        rw (e, f)
          (found-IsSafe now l (scan now 0 [] l.timers_) safe (ground (arith, e, f))
            (scanned now l safe))
  ]
]

-- What `process_timers` calls: an expired timer; or nothing, and then no timer has expired.
abbrev pub Calls : ℕ → List Timer → Option Timer → Type 0
Calls now timers none = All (Later now) timers
Calls now timers (some t) =
    (before : List Timer) × (after : List Timer) × (timers ≡ before ++ (t ∷ after))
    × (t.deadline_ ≤ now)

found-Calls :
    (now : ℕ) (l : Loop) (r : Scan)
    → Scanned now l.timers_ r
    → Calls now l.timers_ (process_scan now r l).0
unfolding process_scan
found-Calls now l (not_yet d) (due, unset, later) = later
found-Calls now l (expired before t after d) (split, due, unset, past) =
    (before, after, split, past)

no_timers : (s : List Timer) → Due 0 s → (now : ℕ) → All (Later now) s
no_timers [] h now = tt
no_timers (t ∷ s) (ht, hs) now = absurd (omega (arith, ht))

-- `process_timers` calls a timer that has expired where there is one, and none where there is none.
pub process_timers-Calls :
    (now : ℕ) (l : Loop) → IsSafe l → Calls now l.timers_ (process_timers now l).0
unfolding process_timers
process_timers-Calls now l safe = elim (Bool-cases (l.deadline_ == 0)) [
  | inl e ↦
      rw e
        (no_timers l.timers_ (subst (λ d. Due d l.timers_) ((==_iff _ _).0 e) safe.timers.due) now)
  | inr e ↦ elim (Bool-cases (ltb now l.deadline_)) [
    | inl f ↦ rw (e, f) (All-map _ _ l.timers_ (λ t h. ground (arith, f, h)) safe.timers.due)
    | inr f ↦ rw (e, f) (found-Calls now l (scan now 0 [] l.timers_) (scanned now l safe))
  ]
]
