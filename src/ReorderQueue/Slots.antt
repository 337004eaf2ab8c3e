-- ===== src/ReorderQueue/Slots.antt =====
-- reorder_queue.cpp: reads and writes of the slot array, and how many slots are occupied.
use full_duplex_radio.Prelude.{
  ℕ, zero, suc, ◌+◌, ◌%◌, ◌≤◌, ◌<◌, ◌≡◌, refl, ap, List, [], ◌∷◌, arith, length, get_or, set, true,
  ◌==◌, if◌then◌else◌, bit_and_ones, Bool-cases, inl, inr,
}
use full_duplex_radio.ReorderQueue.{Slot, index, empty_slot, vacate_all}

pub index_lem : (s : ℕ) → index s ≡ s % 64
unfolding index
index_lem s = bit_and_ones 6 s

-- A read behind a write, in `if` form.
pub get_or-set :
    (ss : List Slot) (i j : ℕ) (v x : Slot)
    → i < length ss
    → get_or (set ss i v) j x ≡ (if i == j then v else get_or ss j x)
get_or-set [] i j v x h = absurd (omega arith)
get_or-set (y ∷ ss) zero zero v x h = refl
get_or-set (y ∷ ss) zero (suc j) v x h = ground arith
get_or-set (y ∷ ss) (suc i) zero v x h = ground arith
get_or-set (y ∷ ss) (suc i) (suc j) v x h = ground (arith, get_or-set ss i j v x)

abbrev pub occ : Slot → ℕ
occ s = if s.occupied then 1 else 0

unfoldable pub count_occupied : List Slot → ℕ
count_occupied [] = 0
count_occupied (s ∷ ss) = occ s + count_occupied ss

pub count_occupied-le : (ss : List Slot) → count_occupied ss ≤ length ss
unfolding count_occupied
count_occupied-le [] = omega arith
count_occupied-le (s ∷ ss) = ground (arith, count_occupied-le ss)

pub count_occupied-set :
    (ss : List Slot) (i : ℕ) (v x : Slot)
    → i < length ss
    → count_occupied (set ss i v) + occ (get_or ss i x) ≡ count_occupied ss + occ v
unfolding count_occupied
count_occupied-set [] i v x h = absurd (omega arith)
count_occupied-set (y ∷ ss) zero v x h = omega arith
count_occupied-set (y ∷ ss) (suc i) v x h = omega (arith, count_occupied-set ss i v x)

-- An occupied slot is counted, and where the count is not 0 there is one.
pub count_occupied_pos :
    (ss : List Slot) (i : ℕ) → (get_or ss i empty_slot).occupied ≡ true → 0 < count_occupied ss
unfolding count_occupied
count_occupied_pos [] i h = cc
count_occupied_pos (y ∷ ss) zero h = ground arith
count_occupied_pos (y ∷ ss) (suc i) h = omega (arith, count_occupied_pos ss i h)

pub some_occupied :
    (ss : List Slot)
    → 0 < count_occupied ss
    → (i : ℕ) × (i < length ss) × ((get_or ss i empty_slot).occupied ≡ true)
unfolding count_occupied
some_occupied [] h = elim h [ ]
some_occupied (y ∷ ss) h = elim (Bool-cases y.occupied) [
  | inl e ↦ (0, omega arith, e)
  | inr e ↦ let (i, below, o) = some_occupied ss (ground arith) in (suc i, omega arith, o)
]

pub length-vacate_all : (ss : List Slot) → length (vacate_all ss) ≡ length ss
unfolding vacate_all
length-vacate_all [] = refl
length-vacate_all (s ∷ ss) = ap suc (length-vacate_all ss)

pub count-vacate_all : (ss : List Slot) → count_occupied (vacate_all ss) ≡ 0
unfolding vacate_all count_occupied
count-vacate_all [] = refl
count-vacate_all (s ∷ ss) = omega (arith, count-vacate_all ss)
