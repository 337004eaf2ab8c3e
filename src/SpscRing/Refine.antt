-- ===== src/SpscRing/Refine.antt =====
-- spsc_ring.hpp: every operation, and every sequence of them, against the bounded queue.
use full_duplex_radio.Prelude.{
  ℕ, zero, suc, ◌+◌, ◌-◌, ◌*◌, ◌%◌, ◌^◌, ◌<◌, min, ◌≡◌, refl, sym, ap, ap₂, subst, ◌∙◌, arith, List,
  [], ◌∷◌, ◌++◌, length, get_or, take, drop, Bool, true, false, ◌==◌, ==_iff, if_either, Option,
  some, Bool-cases, inl, inr, bit_and_ones, pow2_pos,
}
use Prim.Native.Nat.{◌∣◌}
use native.Mathlib.Nat.{
  pow-suc, pow-le-pow_right, mod-mod_of_dvd, dvd-mul_right, suc-add, zero-add, mul_assoc,
}
use full_duplex_radio.SpscRing.{
  Ring, new, used, push, pop, push_bulk, pop_bulk, discard, reset, add_size_t,
}
use full_duplex_radio.SpscRing.Bulk.{push_bulk_lem}
use full_duplex_radio.SpscRing.BulkOut.{pop_bulk_lem}
use full_duplex_radio.SpscRing.Fifo.{
  IsCapacity, Corresponds, push_back, pop_front, new-Corresponds, stored-Corresponds,
  moved-Corresponds,
}

module _ {A : Type 0} (capacity : ℕ) (default : A) (c : IsCapacity capacity) where
  -- `push` appends, and refuses exactly when the queue is at its capacity.
  push_lem :
      (r : Ring A) (xs : List A) (v : A)
      → Corresponds capacity default r xs
      → Corresponds capacity default (push capacity default r v).0 (push_back capacity xs v).0
        × ((push capacity default r v).1 ≡ (push_back capacity xs v).1)
  unfolding push
  push_lem r xs v k = elim (Bool-cases (length xs == capacity)) [
    | inl full ↦
        let full' : (used r == capacity) ≡ true = ap (λ n. n == capacity) k.count ∙ full in
        rw (full, full')
          (
            record {
              slot_count = k.slot_count;
              read_in = k.read_in;
              write_in = k.write_in;
              count = k.count;
              room = k.room;
              at = k.at;
            },
            refl,
          )
    | inr free ↦
        let free' : (used r == capacity) ≡ false = ap (λ n. n == capacity) k.count ∙ free in
        rw (free, free')
          (stored-Corresponds capacity default c r xs v k (ground (arith, free, k.room)), refl)
  ]

  pop_lem :
      (r : Ring A) (xs : List A)
      → Corresponds capacity default r xs
      → Corresponds capacity default (pop capacity default r).0 (pop_front xs).0
        × ((pop capacity default r).1 ≡ (pop_front xs).1)
  unfolding pop
  pop_lem r [] k =
      let empty : (r.read == r.write) ≡ true = ground (arith, k.count, k.read_in, k.write_in) in
      rw empty (k, refl)
  pop_lem r (x ∷ xs) k =
      let more : (r.read == r.write) ≡ false = ground (arith, k.count, k.read_in, k.write_in) in
      rw more (
        moved-Corresponds capacity default c r (x ∷ xs) 1 k (omega arith),
        ap some (
            ap (λ p. get_or r.slots p default)
              (c.mask r.read ∙ ap (λ p. p % capacity) (omega arith))
            ∙ k.at 0 (omega arith)),
      )

  discard_lem :
      (r : Ring A) (xs : List A) (n : ℕ)
      → Corresponds capacity default r xs
      → Corresponds capacity default (discard capacity default r n).0 (drop (min n (length xs)) xs)
        × ((discard capacity default r n).1 ≡ min n (length xs))
  unfolding discard
  discard_lem r xs n k =
      let same : min n (used r) ≡ min n (length xs) = ap (min n) k.count in
      (
        if_either (λ (r' : Ring A). Corresponds capacity default r' (drop (min n (length xs)) xs))
            (min n (used r) == 0)
            (λ e.
              let none_dropped : min n (length xs) ≡ 0 =
                sym same ∙ (==_iff (min n (used r)) 0).0 e in
              subst (λ m. Corresponds capacity default r (drop m xs)) (sym none_dropped) k)
            (λ e.
              subst
                (λ m.
                  Corresponds capacity default (record r { read = add_size_t r.read m })
                    (drop (min n (length xs)) xs))
                (sym same)
                (moved-Corresponds capacity default c r xs (min n (length xs)) k (omega arith))),
        same,
      )

  reset_lem :
      (r : Ring A) (xs : List A)
      → Corresponds capacity default r xs
      → Corresponds capacity default (reset capacity default r) []
  unfolding reset
  reset_lem r xs k = record {
    slot_count = k.slot_count;
    read_in = omega arith;
    write_in = omega arith;
    count = refl;
    room = omega arith;
    at = λ i h. absurd (omega arith);
  }

-- The calls on a ring, and what they return.
pub data Call (A : Type 0) : Type 0 where
  call_push : A → Call A
  call_push_bulk : List A → Call A
  call_pop : Call A
  call_pop_bulk : ℕ → Call A
  call_discard : ℕ → Call A
  call_reset : Call A

pub data Answer (A : Type 0) : Type 0 where
  pushed : Bool → Answer A
  pushed_bulk : ℕ → Answer A
  popped : Option A → Answer A
  popped_bulk : List A → Answer A
  discarded : ℕ → Answer A
  was_reset : Answer A

module _ {A : Type 0} (capacity : ℕ) (default : A) where
  unfoldable pub perform : Ring A → Call A → Ring A × Answer A
  perform r (call_push v) = ((push capacity default r v).0, pushed (push capacity default r v).1)
  perform r (call_push_bulk source) =
      ((push_bulk capacity default r source).0, pushed_bulk (push_bulk capacity default r source).1)
  perform r (call_pop_bulk n) =
      ((pop_bulk capacity default r n).0, popped_bulk (pop_bulk capacity default r n).1)
  perform r call_pop = ((pop capacity default r).0, popped (pop capacity default r).1)
  perform r (call_discard n) =
      ((discard capacity default r n).0, discarded (discard capacity default r n).1)
  perform r call_reset = (reset capacity default r, was_reset)

  -- The answers of a ring.
  unfoldable pub run : Ring A → List (Call A) → List (Answer A)
  unfolding perform
  run r [] = []
  run r (call ∷ calls) = (perform r call).1 ∷ run (perform r call).0 calls

-- A queue of at most `capacity` elements under the same calls.
abbrev pub serve_queue : {A : Type 0} → ℕ → List A → Call A → List A × Answer A
serve_queue capacity xs (call_push v) =
    ((push_back capacity xs v).0, pushed (push_back capacity xs v).1)
serve_queue capacity xs (call_push_bulk source) =
    let n = min (length source) (capacity - length xs) in (xs ++ take n source, pushed_bulk n)
serve_queue capacity xs (call_pop_bulk count) =
    let n = min count (length xs) in (drop n xs, popped_bulk (take n xs))
serve_queue capacity xs call_pop = ((pop_front xs).0, popped (pop_front xs).1)
serve_queue capacity xs (call_discard n) =
    (drop (min n (length xs)) xs, discarded (min n (length xs)))
serve_queue capacity xs call_reset = ([], was_reset)

abbrev pub run_queue : {A : Type 0} → ℕ → List A → List (Call A) → List (Answer A)
run_queue capacity xs [] = []
run_queue capacity xs (call ∷ calls) =
    (serve_queue capacity xs call).1 ∷ run_queue capacity (serve_queue capacity xs call).0 calls

module _ {A : Type 0} (capacity : ℕ) (default : A) (c : IsCapacity capacity) where
  perform-Corresponds :
      (r : Ring A) (xs : List A) (call : Call A)
      → Corresponds capacity default r xs
      → Corresponds capacity default
          (perform capacity default r call).0
          (serve_queue capacity xs call).0
        × ((perform capacity default r call).1 ≡ (serve_queue capacity xs call).1)
  unfolding perform
  perform-Corresponds r xs (call_push v) k =
      let h = push_lem capacity default c r xs v k in (h.0, ap pushed h.1)
  perform-Corresponds r xs (call_push_bulk source) k =
      let h = push_bulk_lem capacity default c r xs source k in (h.0, ap pushed_bulk h.1)
  perform-Corresponds r xs (call_pop_bulk n) k =
      let h = pop_bulk_lem capacity default c r xs n k in (h.0, ap popped_bulk h.1)
  perform-Corresponds r xs call_pop k =
      let h = pop_lem capacity default c r xs k in (h.0, ap popped h.1)
  perform-Corresponds r xs (call_discard n) k =
      let h = discard_lem capacity default c r xs n k in (h.0, ap discarded h.1)
  perform-Corresponds r xs call_reset k = (reset_lem capacity default c r xs k, refl)

  run-Corresponds :
      (calls : List (Call A)) (r : Ring A) (xs : List A)
      → Corresponds capacity default r xs
      → run capacity default r calls ≡ run_queue capacity xs calls
  unfolding run
  run-Corresponds [] r xs k = refl
  run-Corresponds (call ∷ calls) r xs k =
      let h = perform-Corresponds r xs call k in
      ap₂ (λ a l. a ∷ l) h.1
        (run-Corresponds calls (perform capacity default r call).0 (serve_queue capacity xs call).0
          h.0)

power_split : (j k : ℕ) → 2 ^ (j + k) ≡ 2 ^ k * 2 ^ j
power_split zero k = rw (zero-add k) (omega arith)
power_split (suc j) k =
    let rest = power_split j k in
    rw (suc-add, pow-suc, pow-suc) (omega (arith, rest, mul_assoc (2 ^ k) (2 ^ j) 2))

-- The powers of two below 2^64 are capacities.
pub power-IsCapacity : (k : ℕ) → k < 64 → IsCapacity (2 ^ k)
power-IsCapacity k h = record {
  some_room = pow2_pos k;
  in_range = omega (arith, pow-le-pow_right {n = 2} (omega arith) {i = k} {j = 63} (omega arith));
  mask = bit_and_ones k;
  fold = λ i.
      let parts : 64 ≡ 64 - k + k = omega arith in
      let whole : 2 ^ 64 ≡ 2 ^ k * 2 ^ (64 - k) = ap (λ n. 2 ^ n) parts ∙ power_split (64 - k) k in
      mod-mod_of_dvd (2 ^ k) i
        (subst (λ n. 2 ^ k ∣ n) (sym whole) (dvd-mul_right (2 ^ k) (2 ^ (64 - k))));
}

-- A new ring of a power of two below 2^64 slots answers every sequence of pushes, pops, bulk
-- pushes and pops, discards and resets as a queue of at most that many elements does, also where the
-- indices wrap.
pub run_refines :
    {A : Type 0} (k : ℕ) (default : A) (calls : List (Call A))
    → k < 64
    → run (2 ^ k) default (new (2 ^ k) default) calls ≡ run_queue (2 ^ k) [] calls
run_refines k default calls h =
    let c = power-IsCapacity k h in
    run-Corresponds (2 ^ k) default c calls (new (2 ^ k) default) []
      (new-Corresponds (2 ^ k) default c)
