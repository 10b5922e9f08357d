-- ===== src/EventLoop/Order.antt =====
-- Events are delivered in the order in which they were queued, each once at most.
use lfz.Prelude.{ℕ, suc, ◌≡◌, refl, ap, Bool, List, [], ◌∷◌, ◌++◌, Bool-cases, inl, inr}
use lfz.EventLoop.{Event, erase_events, Filter, filter_queue}
use lfz.EventLoop.Run.{objects, IsAllowed}

-- The first list comes of the second by leaving elements out.
pub data Within : List ℕ → List ℕ → Type 0 where
  done : Within [] []
  keep : {e : ℕ} {s t : List ℕ} → Within s t → Within (e ∷ s) (e ∷ t)
  skip : {e : ℕ} {s t : List ℕ} → Within s t → Within s (e ∷ t)

pub Within-refl : (s : List ℕ) → Within s s
Within-refl [] = done
Within-refl (e ∷ s) = keep (Within-refl s)

pub Within-trans : {s t u : List ℕ} → Within s t → Within t u → Within s u
Within-trans p done = p
Within-trans p (skip q) = skip (Within-trans p q)
Within-trans (keep p) (keep q) = keep (Within-trans p q)
Within-trans (skip p) (keep q) = skip (Within-trans p q)

pub Within-append : (s : List ℕ) {t u : List ℕ} → Within t u → Within (s ++ t) (s ++ u)
Within-append [] p = p
Within-append (e ∷ s) p = keep (Within-append s p)

pub Within-append_same : {s t : List ℕ} (u : List ℕ) → Within s t → Within (s ++ u) (t ++ u)
Within-append_same u done = Within-refl u
Within-append_same u (keep p) = keep (Within-append_same u p)
Within-append_same u (skip p) = skip (Within-append_same u p)

pub objects-append : (s t : List Event) → objects (s ++ t) ≡ objects s ++ objects t
objects-append [] t = refl
objects-append (e ∷ s) t = ap (e.event ∷◌) (objects-append s t)

pub erase_events-Within :
    (f : Event → Bool) (s : List Event) → Within (objects (erase_events f s)) (objects s)
unfolding erase_events
erase_events-Within f [] = done
erase_events-Within f (e ∷ s) = elim (Bool-cases (f e)) [
  | inl h ↦ rw h (skip (erase_events-Within f s))
  | inr h ↦ rw h (keep (erase_events-Within f s))
]

-- A filter that leaves the objects what they are.
pub filter_queue-Within :
    (f : Filter) (removing : List ℕ) (n : ℕ) (s : List Event)
    → IsAllowed f removing n s
    → Within (objects (filter_queue f n s)) (objects s)
unfolding filter_queue
filter_queue-Within f removing n [] h = done
filter_queue-Within f removing n (e ∷ s) (h, hs) = elim (Bool-cases (f n e).0) [
  | inl k ↦ rw k (skip (filter_queue-Within f removing (suc n) s hs))
  | inr k ↦ rw (k, (h k).0) (keep (filter_queue-Within f removing (suc n) s hs))
]

Within-nil : (s : List ℕ) → Within [] s
Within-nil [] = done
Within-nil (e ∷ s) = skip (Within-nil s)

Within-start : (s t : List ℕ) → Within s (s ++ t)
Within-start [] t = Within-nil t
Within-start (e ∷ s) t = keep (Within-start s t)

pub Within-front : (s t u : List ℕ) → Within (s ++ t) u → Within s u
Within-front s t u p = Within-trans (Within-start s t) p
