-- ===== src/Prelude/Lists.antt =====
-- Lists measured and indexed by native numbers, under the library's names.
use Prim.Native.Nat.{ℕ, zero, suc, ◌+◌, ◌-◌, ◌≤◌, ◌<◌, min}
use mathlib.Core.Path.{◌≡◌, refl, ap, sym, ◌∙◌}
use native.Mathlib.Nat.{suc-add, zero-add, add-zero}
use mathlib.Core.Logic.{◌≢◌}
use mathlib.Core.List.{List, [], ◌∷◌, ◌++◌, map}
use mathlib.Core.Option.{Option, none, some}
use native.Mathlib.Omega.{arith}

module _ {ℓ} {A : Type ℓ} where
  abbrev pub length : List A → ℕ
  length [] = 0
  length (x ∷ xs) = suc (length xs)

  abbrev pub get_elem? : List A → ℕ → Option A
  get_elem? [] i = none
  get_elem? (x ∷ xs) zero = some x
  get_elem? (x ∷ xs) (suc i) = get_elem? xs i

  -- A write out of bounds changes nothing.
  abbrev pub set : List A → ℕ → A → List A
  set [] i v = []
  set (x ∷ xs) zero v = v ∷ xs
  set (x ∷ xs) (suc i) v = x ∷ set xs i v

  pub length-append : (xs ys : List A) → length (xs ++ ys) ≡ length xs + length ys
  length-append [] ys = omega arith
  length-append (x ∷ xs) ys = omega (arith, length-append xs ys)

module _ {ℓ} {A : Type ℓ} where
  pub length-set : (xs : List A) (i : ℕ) (v : A) → length (set xs i v) ≡ length xs
  length-set [] i v = refl
  length-set (x ∷ xs) zero v = refl
  length-set (x ∷ xs) (suc i) v = ap suc (length-set xs i v)

  pub get_elem?-set_self :
      (xs : List A) (i : ℕ) (v : A) → i < length xs → get_elem? (set xs i v) i ≡ some v
  get_elem?-set_self [] i v h = elim h [ ]
  get_elem?-set_self (x ∷ xs) zero v h = refl
  get_elem?-set_self (x ∷ xs) (suc i) v h = get_elem?-set_self xs i v (omega arith)

  pub get_elem?-set_ne :
      (xs : List A) {i j : ℕ} (v : A) → i ≢ j → get_elem? (set xs i v) j ≡ get_elem? xs j
  get_elem?-set_ne [] v h = refl
  get_elem?-set_ne (x ∷ xs) {i = zero} {j = zero} v h = absurd (h refl)
  get_elem?-set_ne (x ∷ xs) {i = zero} {j = suc j} v h = refl
  get_elem?-set_ne (x ∷ xs) {i = suc i} {j = zero} v h = refl
  get_elem?-set_ne (x ∷ xs) {i = suc i} {j = suc j} v h = get_elem?-set_ne xs v (λ e. h (ap suc e))

module _ {ℓ} {A : Type ℓ} where
  abbrev pub get_or : List A → ℕ → A → A
  get_or [] i d = d
  get_or (x ∷ xs) zero d = x
  get_or (x ∷ xs) (suc i) d = get_or xs i d

  abbrev pub take : ℕ → List A → List A
  take zero xs = []
  take (suc n) [] = []
  take (suc n) (x ∷ xs) = x ∷ take n xs

  abbrev pub drop : ℕ → List A → List A
  drop zero xs = xs
  drop (suc n) [] = []
  drop (suc n) (x ∷ xs) = drop n xs

  abbrev pub replicate : ℕ → A → List A
  replicate zero a = []
  replicate (suc n) a = a ∷ replicate n a

  pub take-append-drop : (n : ℕ) (xs : List A) → take n xs ++ drop n xs ≡ xs
  take-append-drop zero xs = refl
  take-append-drop (suc n) [] = refl
  take-append-drop (suc n) (x ∷ xs) = rw (take-append-drop n xs)

  pub length-take : (n : ℕ) (xs : List A) → length (take n xs) ≡ min n (length xs)
  length-take zero xs = omega arith
  length-take (suc n) [] = omega arith
  length-take (suc n) (x ∷ xs) = omega (arith, length-take n xs)

  pub length-drop : (n : ℕ) (xs : List A) → length (drop n xs) ≡ length xs - n
  length-drop zero xs = omega arith
  length-drop (suc n) [] = omega arith
  length-drop (suc n) (x ∷ xs) = omega (arith, length-drop n xs)

  pub length-replicate : (n : ℕ) (a : A) → length (replicate n a) ≡ n
  length-replicate zero a = refl
  length-replicate (suc n) a = ap suc (length-replicate n a)

  pub length-map {κ} : {B : Type κ} (xs : List A) (f : A → B) → length (map f xs) ≡ length xs
  length-map [] f = refl
  length-map (x ∷ xs) f = ap suc (length-map xs f)

module _ {ℓ} {A : Type ℓ} where
  pub drop-nil : (n : ℕ) → drop {A = A} n [] ≡ []
  drop-nil zero = refl
  drop-nil (suc n) = refl

  pub take-nil : (n : ℕ) → take {A = A} n [] ≡ []
  take-nil zero = refl
  take-nil (suc n) = refl

  -- An access at `p + k` is an access at `k` behind the first `p` elements.
  pub get_or-drop : (p k : ℕ) (d : List A) (x : A) → get_or (drop p d) k x ≡ get_or d (p + k) x
  get_or-drop zero k d x = ap (λ j. get_or d j x) (sym (zero-add k))
  get_or-drop (suc p) k [] x = refl
  get_or-drop (suc p) k (y ∷ d) x = rw suc-add (get_or-drop p k d x)

  pub get_or-drop_zero : (p : ℕ) (d : List A) (x : A) → get_or (drop p d) 0 x ≡ get_or d p x
  get_or-drop_zero p d x = get_or-drop p 0 d x ∙ ap (λ j. get_or d j x) (add-zero p)

  pub drop-set : (p k : ℕ) (d : List A) (v : A) → drop p (set d (p + k) v) ≡ set (drop p d) k v
  drop-set zero k d v = ap (λ j. set d j v) (zero-add k)
  drop-set (suc p) k [] v = refl
  drop-set (suc p) k (y ∷ d) v = rw suc-add (drop-set p k d v)

  pub take-set : (p k : ℕ) (d : List A) (v : A) → take p (set d (p + k) v) ≡ take p d
  take-set zero k d v = refl
  take-set (suc p) k [] v = refl
  take-set (suc p) k (y ∷ d) v = rw suc-add (ap (λ l. y ∷ l) (take-set p k d v))

  pub drop-set_zero : (p : ℕ) (d : List A) (v : A) → drop p (set d p v) ≡ set (drop p d) 0 v
  drop-set_zero p d v = ap (λ j. drop p (set d j v)) (sym (add-zero p)) ∙ drop-set p 0 d v

  pub take-set_zero : (p : ℕ) (d : List A) (v : A) → take p (set d p v) ≡ take p d
  take-set_zero p d v = ap (λ j. take p (set d j v)) (sym (add-zero p)) ∙ take-set p 0 d v

  pub drop-drop : (p q : ℕ) (d : List A) → drop q (drop p d) ≡ drop (p + q) d
  drop-drop zero q d = ap (λ j. drop j d) (sym (zero-add q))
  drop-drop (suc p) q [] = drop-nil q ∙ sym (drop-nil (suc p + q))
  drop-drop (suc p) q (y ∷ d) = rw suc-add (drop-drop p q d)

  -- A `std::copy_n` or `std::memcpy` of `src` to offset `p`.
  abbrev pub copy_at : List A → ℕ → List A → List A
  copy_at [] p src = []
  copy_at (x ∷ d) zero [] = x ∷ d
  copy_at (x ∷ d) zero (y ∷ src) = y ∷ copy_at d zero src
  copy_at (x ∷ d) (suc p) src = x ∷ copy_at d p src

  pub copy_at_start :
      (d src : List A) → length src ≤ length d → copy_at d 0 src ≡ src ++ drop (length src) d
  copy_at_start [] [] h = refl
  copy_at_start [] (y ∷ src) h = absurd (omega arith)
  copy_at_start (x ∷ d) [] h = refl
  copy_at_start (x ∷ d) (y ∷ src) h = ap (λ l. y ∷ l) (copy_at_start d src (omega arith))

  pub take-append_length : (xs ys : List A) → take (length xs) (xs ++ ys) ≡ xs
  take-append_length [] ys = refl
  take-append_length (x ∷ xs) ys = ap (λ l. x ∷ l) (take-append_length xs ys)

  pub drop-append_length : (xs ys : List A) → drop (length xs) (xs ++ ys) ≡ ys
  drop-append_length [] ys = refl
  drop-append_length (x ∷ xs) ys = drop-append_length xs ys

  pub take_all : (xs : List A) → take (length xs) xs ≡ xs
  take_all [] = refl
  take_all (x ∷ xs) = ap (λ l. x ∷ l) (take_all xs)

abbrev pub All {ℓ κ} : {A : Type ℓ} → (A → Type κ) → List A → Type κ
All P [] = Unit
All P (x ∷ xs) = P x × All P xs

module _ {ℓ} {A : Type ℓ} where
  pub get_or-take : (q i : ℕ) (d : List A) (x : A) → i < q → get_or (take q d) i x ≡ get_or d i x
  get_or-take zero i d x h = elim h [ ]
  get_or-take (suc q) i [] x h = refl
  get_or-take (suc q) zero (y ∷ d) x h = refl
  get_or-take (suc q) (suc i) (y ∷ d) x h = get_or-take q i d x (omega arith)

module _ {ℓ} {A : Type ℓ} where
  pub length-copy_at : (d src : List A) → length (copy_at d 0 src) ≡ length d
  length-copy_at [] src = refl
  length-copy_at (x ∷ d) [] = refl
  length-copy_at (x ∷ d) (y ∷ src) = ap suc (length-copy_at d src)
