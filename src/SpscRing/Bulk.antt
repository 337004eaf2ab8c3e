-- ===== src/SpscRing/Bulk.antt =====
-- spsc_ring.hpp: `push_bulk` appends to the queue.
use full_duplex_radio.Prelude.{
  ℕ, suc, ◌+◌, ◌-◌, ◌%◌, ◌^◌, ◌≤◌, min, ◌≡◌, sym, ap, subst, ◌∙◌, arith, List, [], ◌∷◌, ◌++◌,
  append-nil, append_assoc, length, set, take, length-append, length-take, ltb, ◌==◌, if_either,
}
use full_duplex_radio.SpscRing.{Ring, used, masked, push_bulk, copy_in, add_size_t, count_overflow}
use full_duplex_radio.SpscRing.Fifo.{IsCapacity, Corresponds, stored-Corresponds}
use full_duplex_radio.SpscRing.Copies.{fill_from, copy_in_lem}

module _ {A : Type 0} (capacity : ℕ) (default : A) (c : IsCapacity capacity) where
  filled-Corresponds :
      (ys : List A) (r : Ring A) (xs : List A) (w : ℕ)
      → Corresponds capacity default r xs
      → length xs + length ys ≤ capacity
      → w % 2 ^ 64 ≡ r.write
      → Corresponds capacity default
          (record r { slots = fill_from capacity r.slots w ys; write = (w + length ys) % 2 ^ 64 })
          (xs ++ ys)
  filled-Corresponds [] r xs w k h e =
      let same : r.write ≡ (w + 0) % 2 ^ 64 = omega (arith, e) in
      subst (λ l. Corresponds capacity default (record r { write = (w + 0) % 2 ^ 64 }) l)
        (sym (append-nil xs))
        (subst (λ n. Corresponds capacity default (record r { write = n }) xs) same k)
  filled-Corresponds (y ∷ ys) r xs w k h e =
      let place : masked capacity default r.write ≡ w % capacity =
        c.mask r.write ∙ ap (λ n. n % capacity) (sym e) ∙ c.fold w in
      let one = stored-Corresponds capacity default c r xs y k (omega arith) in
      let stored =
        subst
          (λ p.
            Corresponds capacity default
              (record r { slots = set r.slots p y; write = add_size_t r.write 1 }) (xs ++ y ∷ []))
          place one in
      let slots' = fill_from capacity (set r.slots (w % capacity) y) (w + 1) ys in
      let rest =
        filled-Corresponds ys
          (record r { slots = set r.slots (w % capacity) y; write = add_size_t r.write 1 })
          (xs ++ y ∷ []) (w + 1) stored (omega (arith, length-append xs (y ∷ [])))
          (omega (arith, e)) in
      let there : (w + 1 + length ys) % 2 ^ 64 ≡ (w + suc (length ys)) % 2 ^ 64 = omega arith in
      subst
        (λ n. Corresponds capacity default (record r { slots = slots'; write = n }) (xs ++ y ∷ ys))
        there
        (subst
          (λ l.
            Corresponds capacity default
              (record r { slots = slots'; write = (w + 1 + length ys) % 2 ^ 64 }) l)
          (append_assoc xs (y ∷ []) ys) rest)

  overflow-Corresponds :
      (r : Ring A) (xs : List A)
      → Corresponds capacity default r xs
      → Corresponds capacity default (count_overflow r) xs
  overflow-Corresponds r xs k = record {
    slot_count = k.slot_count;
    read_in = k.read_in;
    write_in = k.write_in;
    count = k.count;
    room = k.room;
    at = k.at;
  }

  nothing_lem :
      (r : Ring A) (xs source : List A) (n : ℕ)
      → n ≡ 0
      → Corresponds capacity default r xs
      → Corresponds capacity default r (xs ++ take n source)
  nothing_lem r xs source n e k =
      subst (λ m. Corresponds capacity default r (xs ++ take m source)) (sym e)
        (subst (Corresponds capacity default r) (sym (append-nil xs)) k)

  -- The ring after the two copies of `push_bulk`.
  filled_lem :
      (r : Ring A) (xs source : List A)
      → Corresponds capacity default r xs
      → (taken : ℕ) → taken ≡ min (length source) (capacity - length xs)
      → Corresponds capacity default
          (record r {
            slots =
                copy_in capacity default r.slots
                  (masked capacity default r.write)
                  (take taken source);
            write = add_size_t r.write taken;
          })
          (xs ++ take (min (length source) (capacity - length xs)) source)
  filled_lem r xs source k taken e =
      let ys = take taken source in
      let size : length ys ≡ taken = omega (arith, e, length-take taken source) in
      let slots_eq : fill_from capacity r.slots r.write ys
          ≡ copy_in capacity default r.slots (masked capacity default r.write) ys =
        sym (
          ap (λ p. copy_in capacity default r.slots p ys) (c.mask r.write)
          ∙ copy_in_lem capacity default ys r.slots r.write c.some_room (omega (arith, size, e))) in
      let base =
        filled-Corresponds ys r xs r.write k (omega (arith, size, e, k.room))
          (omega (arith, k.write_in)) in
      subst
        (λ n.
          Corresponds capacity default
            (record r {
              slots = copy_in capacity default r.slots (masked capacity default r.write) ys;
              write = add_size_t r.write taken;
            })
            (xs ++ take n source))
        e
        (subst
          (λ m.
            Corresponds capacity default
              (record r {
                slots = copy_in capacity default r.slots (masked capacity default r.write) ys;
                write = add_size_t r.write m;
              })
              (xs ++ ys))
          size
          (subst
            (λ l.
              Corresponds capacity default
                (record r { slots = l; write = add_size_t r.write (length ys) }) (xs ++ ys))
            slots_eq base))

  -- `push_bulk` appends as many elements as there is room for, and returns their number.
  pub push_bulk_lem :
      (r : Ring A) (xs source : List A)
      → Corresponds capacity default r xs
      → let n = min (length source) (capacity - length xs) in
        Corresponds capacity default (push_bulk capacity default r source).0 (xs ++ take n source)
        × ((push_bulk capacity default r source).1 ≡ n)
  unfolding push_bulk
  push_bulk_lem r xs source k =
      let n = min (length source) (capacity - length xs) in
      let free_slots = (capacity + 2 ^ 64 - used r) % 2 ^ 64 in
      let taken = min (length source) free_slots in
      let free_eq : free_slots ≡ capacity - length xs =
        omega (arith, k.count, k.room, c.in_range) in
      let taken_eq : taken ≡ n = ap (min (length source)) free_eq in
      let Right =
        λ (p : Ring A × ℕ). Corresponds capacity default p.0 (xs ++ take n source) × (p.1 ≡ n) in
      let filled = record r {
        slots =
            copy_in capacity default r.slots (masked capacity default r.write) (take taken source);
        write = add_size_t r.write taken;
      } in
      let right = filled_lem r xs source k taken taken_eq in
      if_either Right (length source == 0)
        (λ e.
          let zero_n : n ≡ 0 = ground (arith, e) in
          (nothing_lem r xs source n zero_n k, sym zero_n))
        (λ _.
          if_either Right (free_slots == 0)
            (λ e.
              let zero_n : n ≡ 0 = ground (arith, e, free_eq) in
              (
                nothing_lem (count_overflow r) xs source n zero_n (overflow-Corresponds r xs k),
                sym zero_n,
              ))
            (λ _. (
              if_either (λ (r' : Ring A). Corresponds capacity default r' (xs ++ take n source))
                  (ltb taken (length source))
                  (λ _. overflow-Corresponds filled (xs ++ take n source) right) (λ _. right),
              taken_eq,
            )))
