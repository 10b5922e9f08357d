-- ===== src/EventLoop/Scanning.antt =====
-- The loops of `process_timers`: which timer is found, and what `deadline_` is then.
use lfz.Prelude.{ℕ, ◌≤◌, ◌<◌, ◌≡◌, ◌⊎◌, inl, inr, refl, arith, true, false, List, [], ◌∷◌, ◌++◌}
use lfz.Prelude.{All, All-append, All-map, is_empty, append-nil, append_assoc, Bool-cases, leb}
use lfz.Prelude.{leb→le}
use mathlib.Core.Path.{subst}
use lfz.EventLoop.{Timer, Scan, not_yet, expired, scan, is_earlier, earliest}

-- `deadline_` is set, and no timer is due before it.
abbrev pub Due : ℕ → List Timer → Type 0
Due deadline = All (λ t. (0 < deadline) × (deadline ≤ t.deadline_))

abbrev pub IsTimed : Timer → Type 0
IsTimed t = 0 < t.deadline_

abbrev pub Later : ℕ → Timer → Type 0
Later now t = now < t.deadline_

-- What `scan` finds in the timers.
abbrev pub Scanned : ℕ → List Timer → Scan → Type 0
Scanned now timers (not_yet deadline) =
    Due deadline timers × (is_empty timers ≡ true → deadline ≡ 0) × All (Later now) timers
Scanned now timers (expired before t after deadline) =
    (timers ≡ before ++ (t ∷ after))
    × Due deadline before
    × (is_empty before ≡ true → deadline ≡ 0)
    × (t.deadline_ ≤ now)

pub Due-earlier : (d e : ℕ) (s : List Timer) → 0 < e → (d ≡ 0) ⊎ (e ≤ d) → Due d s → Due e s
Due-earlier d e s h less = All-map _ _ s (λ t hd. ground arith)

pub is_earlier-true : (d e : ℕ) → is_earlier d e ≡ true → (d ≡ 0) ⊎ (e ≤ d)
unfolding is_earlier
is_earlier-true d e h = ground arith

pub is_earlier-false : (d e : ℕ) → is_earlier d e ≡ false → (0 < d) × (d ≤ e)
unfolding is_earlier
is_earlier-false d e h = ground arith

nonempty : (s : List Timer) (t : Timer) → is_empty (s ++ (t ∷ [])) ≡ true → ⊥
nonempty [] t h = cc h
nonempty (u ∷ s) t h = cc h

not_earlier :
    (now d : ℕ) (t : Timer) → (d ≡ 0) ⊎ (now < d) → is_earlier d t.deadline_ ≡ false → Later now t
not_earlier now d t late e = ground (arith, is_earlier-false d t.deadline_ e, late)

pub scan-Scanned :
    (now deadline : ℕ) (before s : List Timer)
    → All IsTimed s
    → Due deadline before
    → (is_empty before ≡ true → deadline ≡ 0)
    → All (Later now) before
    → (deadline ≡ 0) ⊎ (now < deadline)
    → Scanned now (before ++ s) (scan now deadline before s)
unfolding scan
scan-Scanned now deadline before [] timed due empty later late =
    rw (append-nil before) (due, empty, later)
scan-Scanned now deadline before (t ∷ s) (ht, timed) due empty later late =
    elim (Bool-cases (is_earlier deadline t.deadline_)) [
      | inl e ↦ elim (Bool-cases (leb t.deadline_ now)) [
        | inl f ↦ rw (e, f, scan) (refl, due, empty, leb→le _ _ f)
        | inr f ↦
            rw (e, f, scan)
              (moved _ (
                scan-Scanned now t.deadline_ (before ++ (t ∷ [])) s timed
                  (All-append _ before (t ∷ [])
                    (Due-earlier deadline t.deadline_ before ht (is_earlier-true _ _ e) due)
                    ((ht, omega arith), tt))
                  (λ k. absurd (nonempty before t k))
                  (All-append (Later now) before (t ∷ []) later (ground (arith, f), tt))
                  (inr (ground (arith, f)))))
      ]
      | inr e ↦
          rw (e, scan)
            (moved _ (
              scan-Scanned now deadline (before ++ (t ∷ [])) s timed
                (All-append _ before (t ∷ []) due (is_earlier-false _ _ e, tt))
                (λ k. absurd (nonempty before t k))
                (All-append (Later now) before (t ∷ []) later
                  (not_earlier now deadline t late e, tt))
                late))
    ]
  where
    moved :
        (r : Scan) → Scanned now ((before ++ (t ∷ [])) ++ s) r → Scanned now (before ++ (t ∷ s)) r
    moved r h = subst (λ ts. Scanned now ts r) (append_assoc before (t ∷ []) s) h

earliest_lem :
    (d : ℕ) (s : List Timer)
    → All IsTimed s
    → (0 < d → (0 < earliest d s) × (earliest d s ≤ d)) × Due (earliest d s) s
unfolding earliest is_earlier
earliest_lem d [] h = ((λ p. omega arith), tt)
earliest_lem d (t ∷ s) (ht, hs) = ground (arith, earliest_lem t.deadline_ s hs, earliest_lem d s hs)

-- `deadline_` behind the loop over the timers behind the expired one.
pub earliest-Due :
    (d : ℕ) (before after : List Timer)
    → All IsTimed after
    → Due d before
    → Due (earliest d after) before × Due (earliest d after) after
earliest-Due d before after timed due =
    let (less, behind) = earliest_lem d after timed in
    (All-map _ _ before (λ t h. ground (arith, less h.0)) due, behind)
