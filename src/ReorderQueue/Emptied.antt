-- ===== src/ReorderQueue/Emptied.antt =====
-- reorder_queue.cpp, `resync` and `reset`: what is left of a queue that was emptied.
use full_duplex_radio.Prelude.{
  ℕ, zero, suc, ◌^◌, ◌<◌, ◌≡◌, refl, sym, ◌∙◌, List, [], ◌∷◌, arith, get_or, replicate,
}
use full_duplex_radio.ReorderQueue.{Slot, Queue, empty_slot, vacate, vacate_all, resync, reset, new}
use full_duplex_radio.ReorderQueue.Slots.{count_occupied, length-vacate_all, count-vacate_all}
use full_duplex_radio.ReorderQueue.Valid.{IsValid, SlotOk, vacant_ok}

get_or-vacate_all :
    (ss : List Slot) (i : ℕ) → get_or (vacate_all ss) i empty_slot ≡ vacate (get_or ss i empty_slot)
unfolding vacate_all
get_or-vacate_all [] i = refl
get_or-vacate_all (s ∷ ss) zero = refl
get_or-vacate_all (s ∷ ss) (suc i) = get_or-vacate_all ss i

vacated_ok :
    {q : Queue} (c h i : ℕ)
    → IsValid q
    → i < 64
    → SlotOk c h i (get_or (vacate_all q.slots) i empty_slot)
vacated_ok {q} c h i v hi =
    rw (get_or-vacate_all q.slots i) (vacant_ok c h i _ (v.slots_ok i hi).storage refl)

empty_occupied : (n : ℕ) → count_occupied (replicate n empty_slot) ≡ 0
unfolding count_occupied
empty_occupied zero = refl
empty_occupied (suc n) = omega (arith, empty_occupied n)

get_or-empty : (n i : ℕ) → get_or (replicate n empty_slot) i empty_slot ≡ empty_slot
get_or-empty zero i = refl
get_or-empty (suc n) zero = refl
get_or-empty (suc n) (suc i) = get_or-empty n i

-- A queue that has just been made is well formed.
pub new-IsValid : IsValid new
new-IsValid = record {
  slot_count = refl;
  cursor_in = omega arith;
  highest_in = omega arith;
  held_eq = sym (empty_occupied 64);
  idle = λ e. refl;
  slots_ok = λ i hi. rw (get_or-empty 64 i) (vacant_ok 0 0 i empty_slot refl refl);
}

pub reset-IsValid : {q : Queue} → IsValid q → IsValid (reset q)
unfolding reset
reset-IsValid {q} v = record {
  slot_count = length-vacate_all q.slots ∙ v.slot_count;
  cursor_in = omega arith;
  highest_in = omega arith;
  held_eq = sym (count-vacate_all q.slots);
  idle = λ e. refl;
  slots_ok = λ i hi. vacated_ok 0 0 i v hi;
}

pub resync-IsValid : {q : Queue} (s : ℕ) → s < 2 ^ 32 → IsValid q → IsValid (resync q s)
unfolding resync
resync-IsValid {q} s hs v = record {
  slot_count = length-vacate_all q.slots ∙ v.slot_count;
  cursor_in = hs;
  highest_in = hs;
  held_eq = sym (count-vacate_all q.slots);
  idle = λ e. refl;
  slots_ok = λ i hi. vacated_ok s s i v hi;
}
