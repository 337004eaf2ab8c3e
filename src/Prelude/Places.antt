-- ===== src/Prelude/Places.antt =====
-- Places of a ring of slots: numbers modulo its size, and reads behind writes and at the end of a list.
use Prim.Native.Nat.{ℕ, zero, suc, ◌+◌, ◌-◌, ◌%◌, ◌≤◌, ◌<◌}
use mathlib.Core.Path.{◌≡◌, refl, ap, ◌∙◌}
use mathlib.Core.Logic.{◌≢◌, inl, inr}
use mathlib.Core.List.{List, [], ◌∷◌, ◌++◌}
use native.Mathlib.Omega.{arith}
use native.Mathlib.Nat.{mod-lt, mod-eq_of_lt, mod-eq-sub-mod, add-mod}
use full_duplex_radio.Prelude.Tests.{ltb, Bool-cases}
use full_duplex_radio.Prelude.Lists.{length, get_or, set}

-- Two numbers less than `c` apart differ modulo `c`.
pub mod_apart : (a d c : ℕ) → 0 < d → d < c → a % c ≢ (a + d) % c
mod_apart a d c h h' e =
    let r = a % c in
    let below : r < c = mod-lt a (omega arith) in
    let small : d % c ≡ d = mod-eq_of_lt h' in
    let sum : (a + d) % c ≡ (r + d) % c = add-mod a d c ∙ ap (λ x. (r + x) % c) small in
    elim (Bool-cases (ltb (r + d) c)) [
      | inl fits ↦
          let same : (r + d) % c ≡ r + d = mod-eq_of_lt (ground (arith, fits)) in
          omega (arith, e, sum, same)
      | inr over ↦
          let past : c ≤ r + d = ground (arith, over) in
          let same : (r + d) % c ≡ r + d - c =
            mod-eq-sub-mod past ∙ mod-eq_of_lt (omega (arith, below)) in
          omega (arith, e, sum, same, past)
    ]

module _ {A : Type 0} where
  pub get_or-append :
      (xs : List A) (v : A) (i : ℕ) (d : A)
      → i < length xs
      → get_or (xs ++ v ∷ []) i d ≡ get_or xs i d
  get_or-append [] v i d h = absurd (omega arith)
  get_or-append (x ∷ xs) v zero d h = refl
  get_or-append (x ∷ xs) v (suc i) d h = get_or-append xs v i d (omega arith)

  pub get_or-append_last : (xs : List A) (v d : A) → get_or (xs ++ v ∷ []) (length xs) d ≡ v
  get_or-append_last [] v d = refl
  get_or-append_last (x ∷ xs) v d = get_or-append_last xs v d

module _ {A : Type 0} where
  pub get_or-set_self :
      (xs : List A) (i : ℕ) (v d : A) → i < length xs → get_or (set xs i v) i d ≡ v
  get_or-set_self [] i v d h = absurd (omega arith)
  get_or-set_self (x ∷ xs) zero v d h = refl
  get_or-set_self (x ∷ xs) (suc i) v d h = get_or-set_self xs i v d (omega arith)

  pub get_or-set_other :
      (xs : List A) (i j : ℕ) (v d : A) → j ≢ i → get_or (set xs i v) j d ≡ get_or xs j d
  get_or-set_other [] i j v d h = refl
  get_or-set_other (x ∷ xs) zero zero v d h = absurd (h refl)
  get_or-set_other (x ∷ xs) zero (suc j) v d h = refl
  get_or-set_other (x ∷ xs) (suc i) zero v d h = refl
  get_or-set_other (x ∷ xs) (suc i) (suc j) v d h = get_or-set_other xs i j v d (λ e. h (ap suc e))
