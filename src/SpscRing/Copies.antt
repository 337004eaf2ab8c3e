-- ===== src/SpscRing/Copies.antt =====
-- spsc_ring.hpp: the two copies of `push_bulk` around the end of the storage are single steps.
use full_duplex_radio.Prelude.{
  ℕ, zero, suc, ◌+◌, ◌-◌, ◌%◌, ◌≤◌, ◌<◌, min, ◌≡◌, refl, sym, ap, ap₂, ◌∙◌, arith, List, [], ◌∷◌,
  length, set, take, drop, take-nil, drop-nil, take_all, copy_at, ltb, if◌then◌else◌, Bool-cases,
  inl, inr,
}
use native.Mathlib.Nat.{suc-add, mod-lt, mod-eq_of_lt, mod_self, mod-add-mod}
use full_duplex_radio.SpscRing.{copy_in}

-- The next place of the storage.
pub next_place : (w c : ℕ) → 0 < c → (w + 1) % c ≡ (if ltb (w % c + 1) c then w % c + 1 else 0)
next_place w c h = elim (Bool-cases (ltb (w % c + 1) c)) [
  | inl fits ↦ rw fits (sym (mod-add-mod w c 1) ∙ mod-eq_of_lt (ground (arith, fits)))
  | inr over ↦
      let below : w % c < c = mod-lt w h in
      let edge : w % c + 1 ≡ c = ground (arith, over, below) in
      rw over (sym (mod-add-mod w c 1) ∙ ap (λ n. n % c) edge ∙ mod_self c)
]

module _ {A : Type 0} where
  copy_at-set :
      (d : List A) (p : ℕ) (y : A) (ys : List A)
      → copy_at d p (y ∷ ys) ≡ copy_at (set d p y) (p + 1) ys
  copy_at-set [] p y ys = refl
  copy_at-set (x ∷ d) zero y ys = refl
  copy_at-set (x ∷ d) (suc p) y ys = rw suc-add (ap (λ l. x ∷ l) (copy_at-set d p y ys))

  copy_at-nil : (d : List A) (p : ℕ) → copy_at d p [] ≡ d
  copy_at-nil [] p = refl
  copy_at-nil (x ∷ d) zero = refl
  copy_at-nil (x ∷ d) (suc p) = ap (λ l. x ∷ l) (copy_at-nil d p)

  drop_all : (xs : List A) → drop (length xs) xs ≡ []
  drop_all [] = refl
  drop_all (x ∷ xs) = drop_all xs

  -- The elements put one by one at the places from the index `w` on.
  abbrev pub fill_from : ℕ → List A → ℕ → List A → List A
  fill_from c slots w [] = slots
  fill_from c slots w (y ∷ ys) = fill_from c (set slots (w % c) y) (w + 1) ys

module _ {A : Type 0} (capacity : ℕ) (default : A) where
  copy_in_nil : (slots : List A) (p : ℕ) → copy_in capacity default slots p [] ≡ slots
  unfolding copy_in
  copy_in_nil slots p =
      let m = min 0 (capacity - p) in
      ap₂ (λ a b. copy_at (copy_at slots p a) 0 b) (take-nil m) (drop-nil m)
      ∙ copy_at-nil (copy_at slots p []) 0
      ∙ copy_at-nil slots p

  copy_in_step :
      (slots : List A) (p : ℕ) (y : A) (ys : List A)
      → p + 1 < capacity
      → copy_in capacity default slots p (y ∷ ys)
        ≡ copy_in capacity default (set slots p y) (p + 1) ys
  unfolding copy_in
  copy_in_step slots p y ys h =
      let f = min (length ys) (capacity - (p + 1)) in
      let front : min (suc (length ys)) (capacity - p) ≡ suc f = omega arith in
      ap (λ m. copy_at (copy_at slots p (take m (y ∷ ys))) 0 (drop m (y ∷ ys))) front
      ∙ ap (λ d. copy_at d 0 (drop f ys)) (copy_at-set slots p y (take f ys))

  copy_in_edge :
      (slots : List A) (p : ℕ) (y : A) (ys : List A)
      → p + 1 ≡ capacity
      → length ys ≤ capacity
      → copy_in capacity default slots p (y ∷ ys) ≡ copy_in capacity default (set slots p y) 0 ys
  unfolding copy_in
  copy_in_edge slots p y ys h fits =
      let front : min (suc (length ys)) (capacity - p) ≡ 1 = omega arith in
      let whole : min (length ys) (capacity - 0) ≡ length ys = omega arith in
      ap (λ m. copy_at (copy_at slots p (take m (y ∷ ys))) 0 (drop m (y ∷ ys))) front
      ∙ ap (λ d. copy_at d 0 ys) (copy_at-set slots p y [] ∙ copy_at-nil (set slots p y) (p + 1))
      ∙ sym (
          ap (λ m. copy_at (copy_at (set slots p y) 0 (take m ys)) 0 (drop m ys)) whole
          ∙ ap₂ (λ a b. copy_at (copy_at (set slots p y) 0 a) 0 b) (take_all ys) (drop_all ys)
          ∙ copy_at-nil (copy_at (set slots p y) 0 ys) 0)

  -- The two copies are single steps.
  pub copy_in_lem :
      (ys slots : List A) (w : ℕ)
      → 0 < capacity
      → length ys ≤ capacity
      → copy_in capacity default slots (w % capacity) ys ≡ fill_from capacity slots w ys
  copy_in_lem [] slots w h fits = copy_in_nil slots (w % capacity)
  copy_in_lem (y ∷ ys) slots w h fits =
      let rest = copy_in_lem ys (set slots (w % capacity) y) (w + 1) h (omega arith) in
      let below : w % capacity < capacity = mod-lt w h in
      let next = next_place w capacity h in
      elim (Bool-cases (ltb (w % capacity + 1) capacity)) [
        | inl inside ↦
            let at_next : w % capacity + 1 ≡ (w + 1) % capacity = sym (next ∙ rw inside refl) in
            copy_in_step slots (w % capacity) y ys (ground (arith, inside))
            ∙ ap (λ p. copy_in capacity default (set slots (w % capacity) y) p ys) at_next
            ∙ rest
        | inr edge ↦
            let at_start : 0 ≡ (w + 1) % capacity = sym (next ∙ rw edge refl) in
            copy_in_edge slots (w % capacity) y ys (ground (arith, edge, below)) (omega arith)
            ∙ ap (λ p. copy_in capacity default (set slots (w % capacity) y) p ys) at_start
            ∙ rest
      ]
