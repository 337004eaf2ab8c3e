-- ===== src/SpscRing/BulkOut.antt =====
-- spsc_ring.hpp: `pop_bulk`, whose two copies around the end of the storage are single reads.
use full_duplex_radio.Prelude.{
  ℕ, zero, suc, ◌+◌, ◌-◌, ◌%◌, ◌≤◌, ◌<◌, min, ◌≡◌, refl, sym, ap, ap₂, subst, ◌∙◌, arith, List, [],
  ◌∷◌, ◌++◌, append-nil, length, get_or, take, drop, ltb, ◌||◌, ◌==◌, if_either, Bool-cases, inl,
  inr,
}
use native.Mathlib.Nat.{suc-add, add-zero, mod-lt}
use full_duplex_radio.SpscRing.{Ring, used, pop_bulk, copy_out, add_size_t}
use full_duplex_radio.SpscRing.Copies.{next_place}
use full_duplex_radio.SpscRing.Fifo.{IsCapacity, Corresponds, moved-Corresponds}

module _ {A : Type 0} (capacity : ℕ) (default : A) where
  -- The elements read one by one at the places from the index `w` on.
  abbrev gather : List A → ℕ → ℕ → List A
  gather slots w zero = []
  gather slots w (suc n) = get_or slots (w % capacity) default ∷ gather slots (w + 1) n

  drop_cons :
      (p : ℕ) (slots : List A)
      → p < length slots
      → drop p slots ≡ get_or slots p default ∷ drop (p + 1) slots
  drop_cons p [] h = absurd (omega arith)
  drop_cons zero (x ∷ slots) h = refl
  drop_cons (suc p) (x ∷ slots) h = rw suc-add (drop_cons p slots (omega arith))

  copy_out_zero : (slots : List A) (p : ℕ) → copy_out capacity default slots p 0 ≡ []
  unfolding copy_out
  copy_out_zero slots p =
      let front : min 0 (capacity - p) ≡ 0 = omega arith in
      ap (λ m. take m (drop p slots) ++ take (0 - m) slots) front

  copy_out_step :
      (slots : List A) (p n : ℕ)
      → p + 1 < capacity
      → p < length slots
      → copy_out capacity default slots p (suc n)
        ≡ get_or slots p default ∷ copy_out capacity default slots (p + 1) n
  unfolding copy_out
  copy_out_step slots p n h h' =
      let f = min n (capacity - (p + 1)) in
      let front : min (suc n) (capacity - p) ≡ suc f = omega arith in
      let back : suc n - suc f ≡ n - f = omega arith in
      ap (λ m. take m (drop p slots) ++ take (suc n - m) slots) front
      ∙ ap₂ (λ l m. take (suc f) l ++ take m slots) (drop_cons p slots h') back

  copy_out_edge :
      (slots : List A) (p n : ℕ)
      → p + 1 ≡ capacity
      → p < length slots
      → n ≤ capacity
      → copy_out capacity default slots p (suc n)
        ≡ get_or slots p default ∷ copy_out capacity default slots 0 n
  unfolding copy_out
  copy_out_edge slots p n h h' fits =
      let front : min (suc n) (capacity - p) ≡ 1 = omega arith in
      let whole : min n (capacity - 0) ≡ n = omega arith in
      let rest : suc n - 1 ≡ n = omega arith in
      let nothing : n - n ≡ 0 = omega arith in
      ap (λ m. take m (drop p slots) ++ take (suc n - m) slots) front
      ∙ ap₂ (λ l m. take 1 l ++ take m slots) (drop_cons p slots h') rest
      ∙ ap (λ l. get_or slots p default ∷ l)
          (sym (
            ap (λ m. take m slots ++ take (n - m) slots) whole
            ∙ ap (λ m. take n slots ++ take m slots) nothing
            ∙ append-nil (take n slots)))

  -- The two copies are single reads.
  copy_out_lem :
      (n : ℕ) (slots : List A) (w : ℕ)
      → 0 < capacity
      → length slots ≡ capacity
      → n ≤ capacity
      → copy_out capacity default slots (w % capacity) n ≡ gather slots w n
  copy_out_lem zero slots w h len fits = copy_out_zero slots (w % capacity)
  copy_out_lem (suc n) slots w h len fits =
      let rest = copy_out_lem n slots (w + 1) h len (omega arith) in
      let below : w % capacity < capacity = mod-lt w h in
      let next = next_place w capacity h in
      elim (Bool-cases (ltb (w % capacity + 1) capacity)) [
        | inl inside ↦
            let at_next : w % capacity + 1 ≡ (w + 1) % capacity = sym (next ∙ rw inside refl) in
            copy_out_step slots (w % capacity) n (ground (arith, inside))
              (omega (arith, len, below))
            ∙ ap (λ l. get_or slots (w % capacity) default ∷ l)
                (ap (λ p. copy_out capacity default slots p n) at_next ∙ rest)
        | inr edge ↦
            let at_start : 0 ≡ (w + 1) % capacity = sym (next ∙ rw edge refl) in
            copy_out_edge slots (w % capacity) n (ground (arith, edge, below))
              (omega (arith, len, below)) (omega arith)
            ∙ ap (λ l. get_or slots (w % capacity) default ∷ l)
                (ap (λ p. copy_out capacity default slots p n) at_start ∙ rest)
      ]

  gather-take :
      (n : ℕ) (slots xs : List A) (w : ℕ)
      → n ≤ length xs
      → ((i : ℕ) → i < length xs → get_or slots ((w + i) % capacity) default ≡ get_or xs i default)
      → gather slots w n ≡ take n xs
  gather-take zero slots xs w h at = refl
  gather-take (suc n) slots [] w h at = absurd (omega arith)
  gather-take (suc n) slots (x ∷ xs) w h at =
      ap₂ (λ a l. a ∷ l)
        (ap (λ p. get_or slots p default) (ap (λ p. p % capacity) (sym (add-zero w)))
          ∙ at 0 (omega arith))
        (gather-take n slots xs (w + 1) (omega arith) (λ i hi.
          let place : w + 1 + i ≡ w + suc i = omega arith in
          ap (λ p. get_or slots (p % capacity) default) place ∙ at (suc i) (omega arith)))

module _ {A : Type 0} (capacity : ℕ) (default : A) (c : IsCapacity capacity) where
  -- `pop_bulk` takes as many of the elements as are asked for and there, oldest first.
  pub pop_bulk_lem :
      (r : Ring A) (xs : List A) (count : ℕ)
      → Corresponds capacity default r xs
      → let n = min count (length xs) in
        Corresponds capacity default (pop_bulk capacity default r count).0 (drop n xs)
        × ((pop_bulk capacity default r count).1 ≡ take n xs)
  unfolding pop_bulk
  pop_bulk_lem r xs count k =
      let n = min count (length xs) in
      let Right =
        λ (p : Ring A × List A). Corresponds capacity default p.0 (drop n xs) × (p.1 ≡ take n xs) in
      let same : min count (used r) ≡ n = ap (min count) k.count in
      if_either Right (count == 0 || used r == 0)
        (λ e.
          let zero_n : n ≡ 0 = ground (arith, e, k.count) in
          (
            subst (λ m. Corresponds capacity default r (drop m xs)) (sym zero_n) k,
            ap (λ m. take m xs) (sym zero_n),
          ))
        (λ _. (
          subst
              (λ m.
                Corresponds capacity default (record r { read = add_size_t r.read m }) (drop n xs))
              (sym same) (moved-Corresponds capacity default c r xs n k (omega arith)),
          ap₂ (λ p m. copy_out capacity default r.slots p m) (c.mask r.read) same
              ∙ copy_out_lem capacity default n r.slots r.read c.some_room k.slot_count
                  (omega (arith, k.room))
              ∙ gather-take capacity default n r.slots xs r.read (omega arith) k.at,
        ))
