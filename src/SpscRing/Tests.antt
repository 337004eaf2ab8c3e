-- ===== src/SpscRing/Tests.antt =====
-- spsc_ring.hpp: the refinement at a ring of four slots that wraps.
use full_duplex_radio.Prelude.{ℕ, ◌^◌, ◌≡◌, arith, List, [], ◌∷◌}
use full_duplex_radio.SpscRing.{new}
use full_duplex_radio.SpscRing.Refine.{
  Call, call_push, call_push_bulk, call_pop, call_pop_bulk, call_discard, call_reset, run,
  run_queue, run_refines,
}

abbrev calls : List (Call ℕ)
calls =
    call_push 1
    ∷ call_push_bulk (2 ∷ 3 ∷ 4 ∷ 5 ∷ 6 ∷ [])
    ∷ call_pop
    ∷ call_push_bulk (7 ∷ 8 ∷ [])
    ∷ call_pop_bulk 3
    ∷ call_discard 5
    ∷ call_reset
    ∷ []

run_refines_example : run (2 ^ 2) 0 (new (2 ^ 2) 0) calls ≡ run_queue (2 ^ 2) [] calls
run_refines_example = run_refines 2 0 calls (omega arith)
