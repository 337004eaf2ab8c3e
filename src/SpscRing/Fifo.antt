-- ===== src/SpscRing/Fifo.antt =====
-- spsc_ring.hpp: the ring refines a bounded queue. The abstract view is the list of the elements
-- between the two indices, oldest first.
use full_duplex_radio.Prelude.{
  ℕ, bit_and, ◌+◌, ◌-◌, ◌%◌, ◌^◌, ◌≤◌, ◌<◌, ◌≡◌, refl, sym, ap, ◌∙◌, arith, List, [], ◌∷◌, ◌++◌,
  length, get_or, set, drop, get_or-drop, length-set, length-append, length-drop, length-replicate,
  dec_lt, Bool, true, false, ◌==◌, if◌then◌else◌, Option, none, some,
}
use native.Mathlib.Nat.{mod-lt, add-mod}
use full_duplex_radio.Prelude.Places.{
  mod_apart, get_or-append, get_or-append_last, get_or-set_self, get_or-set_other,
}
use full_duplex_radio.SpscRing.{Ring, new, used, masked, add_size_t}

-- The capacity is a power of two below 2^64: a mask is a remainder, and the wrap of a size_t does
-- not show in it.
pub record IsCapacity (capacity : ℕ) : Type 0 where
  pub some_room : 0 < capacity
  pub in_range : capacity < 2 ^ 64
  pub mask : (i : ℕ) → bit_and i (capacity - 1) ≡ i % capacity
  pub fold : (i : ℕ) → i % 2 ^ 64 % capacity ≡ i % capacity

module _ {A : Type 0} (capacity : ℕ) (default : A) where
  -- The ring holds the elements of the list, oldest first.
  pub record Corresponds (r : Ring A) (xs : List A) : Type 0 where
    pub slot_count : length r.slots ≡ capacity
    pub read_in : r.read < 2 ^ 64
    pub write_in : r.write < 2 ^ 64
    pub count : used r ≡ length xs
    pub room : length xs ≤ capacity
    pub at :
        (i : ℕ)
        → i < length xs
        → get_or r.slots ((r.read + i) % capacity) default ≡ get_or xs i default

-- A bounded queue: what a push, a pop and a discard do to the list, and what they return.
abbrev pub push_back : {A : Type 0} → ℕ → List A → A → List A × Bool
push_back capacity xs v = if length xs == capacity then (xs, false) else (xs ++ v ∷ [], true)

abbrev pub pop_front : {A : Type 0} → List A → List A × Option A
pop_front [] = ([], none)
pop_front (x ∷ xs) = (xs, some x)

module _ {A : Type 0} (capacity : ℕ) (default : A) (c : IsCapacity capacity) where
  pub new-Corresponds : Corresponds capacity default (new capacity default) []
  new-Corresponds = record {
    slot_count = length-replicate capacity default;
    read_in = omega arith;
    write_in = omega arith;
    count = refl;
    room = omega arith;
    at = λ i h. absurd (omega arith);
  }

  -- Where the producer writes next.
  write_place :
      (r : Ring A) (xs : List A)
      → Corresponds capacity default r xs
      → masked capacity default r.write ≡ (r.read + length xs) % capacity
  write_place r xs k =
      let here : (r.read + length xs) % 2 ^ 64 ≡ r.write =
        omega (arith, k.count, k.read_in, k.write_in) in
      c.mask r.write ∙ ap (λ w. w % capacity) (sym here) ∙ c.fold (r.read + length xs)

  pub stored-Corresponds :
      (r : Ring A) (xs : List A) (v : A)
      → Corresponds capacity default r xs
      → length xs < capacity
      → Corresponds capacity default
          (record r {
            slots = set r.slots (masked capacity default r.write) v;
            write = add_size_t r.write 1;
          })
          (xs ++ v ∷ [])
  stored-Corresponds r xs v k h = record {
    slot_count = length-set r.slots (masked capacity default r.write) v ∙ k.slot_count;
    read_in = k.read_in;
    write_in = omega arith;
    count = omega (arith, k.count, k.read_in, k.write_in, c.in_range, length-append xs (v ∷ []));
    room = omega (arith, length-append xs (v ∷ []));
    at = λ i hi. elim (dec_lt i (length xs)) [
      | yes old ↦
          get_or-set_other r.slots (masked capacity default r.write) ((r.read + i) % capacity) v
            default
            (λ e.
              mod_apart (r.read + i) (length xs - i) capacity (omega arith) (omega arith)
                (e ∙ write_place r xs k ∙ ap (λ p. p % capacity) (omega arith)))
          ∙ k.at i old
          ∙ sym (get_or-append xs v i default old)
      | no last ↦
          let here : i ≡ length xs = omega (arith, length-append xs (v ∷ [])) in
          ap
            (λ j.
              get_or (set r.slots (masked capacity default r.write) v) ((r.read + j) % capacity)
                default)
            here
          ∙ ap (λ p. get_or (set r.slots (masked capacity default r.write) v) p default)
              (sym (write_place r xs k))
          ∙ get_or-set_self r.slots (masked capacity default r.write) v default
              (omega (arith, k.slot_count, c.mask r.write, mod-lt r.write c.some_room))
          ∙ sym (get_or-append_last xs v default)
          ∙ ap (λ j. get_or (xs ++ v ∷ []) j default) (sym here)
    ];
  }

  wrap_place : (a i : ℕ) → (a % 2 ^ 64 + i) % capacity ≡ (a + i) % capacity
  wrap_place a i =
      add-mod (a % 2 ^ 64) i capacity
      ∙ ap (λ x. (x + i % capacity) % capacity) (c.fold a)
      ∙ sym (add-mod a i capacity)

  -- The consumer moves on by `n` elements.
  pub moved-Corresponds :
      (r : Ring A) (xs : List A) (n : ℕ)
      → Corresponds capacity default r xs
      → n ≤ length xs
      → Corresponds capacity default (record r { read = add_size_t r.read n }) (drop n xs)
  moved-Corresponds r xs n k h = record {
    slot_count = k.slot_count;
    read_in = omega arith;
    write_in = k.write_in;
    count = omega (arith, k.count, k.read_in, k.write_in, k.room, c.in_range, length-drop n xs);
    room = omega (arith, k.room, length-drop n xs);
    at = λ i hi.
        ap (λ p. get_or r.slots p default)
          (wrap_place (r.read + n) i ∙ ap (λ p. p % capacity) (omega arith))
        ∙ k.at (n + i) (omega (arith, length-drop n xs))
        ∙ sym (get_or-drop n i xs default);
  }
