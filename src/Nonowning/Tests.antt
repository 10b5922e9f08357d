-- ===== src/Nonowning/Tests.antt =====
-- The refinement at a concrete block and calls.
use lfz.Prelude.{◌≡◌, refl, arith, List, [], ◌∷◌, codes}
use lfz.Memory.{ok, load, store}
use lfz.Nonowning.{NonowningBuffer, append, put, get, compact, consume, resize}
use lfz.Nonowning.Inv.{IsValid}
use lfz.Nonowning.Refine.{Call, appends, consumes, resizes, call, run, Outcome, view, run-Outcome}

abbrev block : NonowningBuffer
block = record { memory_ = codes "abcd"; capacity_ = 4; size_ = 3; start_ = 1 }

block-IsValid : IsValid block
block-IsValid = omega arith

abbrev calls : List Call
calls = consumes 2 ∷ appends (codes "xyz") ∷ resizes 1 ∷ []

-- The bytes are moved to the front of the block before the append.
calls-run : view (run calls block) ≡ ok (codes "d")
unfolding run call consume append put get compact resize load store
calls-run = refl

run-Outcome_example : Outcome 4 calls (codes "bcd") (view (run calls block))
run-Outcome_example = run-Outcome calls block block-IsValid
