-- ===== src/SeqTracker/Span.antt =====
-- seq_tracker.cpp: which arrivals `expected` and `lost` are about, read off the stream itself.
use full_duplex_radio.Prelude.{
  ℕ, ◌-◌, ◌≡◌, ◌∙◌, refl, ap, ap₂, arith, List, [], ◌∷◌, Bool, true, false, ◌||◌, min, max, leb,
  ltb, ◌==◌, if◌then◌else◌, Bool-cases, inl, inr, ==_iff,
}
use full_duplex_radio.SeqTracker.{window_size}
use full_duplex_radio.SeqTracker.Ideal.{IdealTracker, IsValid, ideal_observe, ideal_observe-IsValid}
use full_duplex_radio.SeqTracker.Simulation.{ideal_all}

-- Of the arrivals after `high`, those less than a full window behind the highest before them.
unfoldable pub in_time : ℕ → List ℕ → List ℕ
in_time high [] = []
in_time high (n ∷ ns) =
    let rest = in_time (max high n) ns in if leb window_size (high - n) then rest else n ∷ rest

unfoldable pub highest_of : ℕ → List ℕ → ℕ
highest_of n [] = n
highest_of n (m ∷ ms) = highest_of (max n m) ms

unfoldable pub lowest_of : ℕ → List ℕ → ℕ
lowest_of n [] = n
lowest_of n (m ∷ ms) = lowest_of (min n m) ms

unfoldable pub contains : List ℕ → ℕ → Bool
contains [] m = false
contains (n ∷ ns) m = m == n || contains ns m

-- What an arrival does to the span and to the numbers seen.
record Step (i : IdealTracker) (n : ℕ) (i' : IdealTracker) : Type 0 where
  high_eq : i'.high ≡ max i.high n
  base_eq : i'.base ≡ (if leb window_size (i.high - n) then i.base else min i.base n)
  seen_eq :
      (m : ℕ) → i'.seen m ≡ (if leb window_size (i.high - n) then i.seen m else m == n || i.seen m)

again : (seen : ℕ → Bool) (n m : ℕ) → seen n ≡ true → seen m ≡ (m == n || seen m)
again seen n m h = elim (Bool-cases (m == n)) [
  | inl e ↦ rw e (ap seen ((==_iff m n).0 e) ∙ h)
  | inr e ↦ rw e refl
]

ideal_observe-Step : (i : IdealTracker) (n : ℕ) → IsValid i → Step i n (ideal_observe i n).0
unfolding ideal_observe
ideal_observe-Step i n v = elim (Bool-cases (ltb i.high n)) [
  | inl up ↦ record {
    high_eq = ground arith;
    base_eq = ground (arith, v.ordered);
    seen_eq = λ m. ground arith;
  }
  | inr not_up ↦ elim (Bool-cases (i.seen n)) [
    | inl old ↦ record {
      high_eq = ground arith;
      base_eq = ground (arith, v.in_span n old);
      seen_eq = λ m. ground (arith, again i.seen n m old);
    }
    | inr new ↦ record {
      high_eq = ground arith;
      base_eq = ground (arith, v.top_seen);
      seen_eq = λ m. ground (arith, v.top_seen);
    }
  ]
]

swap_or : (a b c : Bool) → (a || (b || c)) ≡ ((b || a) || c)
swap_or a b c = ground arith

-- Whatever arrives, the ideal tracker's span reaches from the lowest arrival in time to the highest
-- arrival, and it has seen the arrivals in time and no other number.
pub record Spans (i : IdealTracker) (ns : List ℕ) (i' : IdealTracker) : Type 0 where
  pub high_eq : i'.high ≡ highest_of i.high ns
  pub base_eq : i'.base ≡ lowest_of i.base (in_time i.high ns)
  pub seen_eq : (m : ℕ) → i'.seen m ≡ (contains (in_time i.high ns) m || i.seen m)

module _ (i : IdealTracker) (n : ℕ) (ns : List ℕ) (i1 f : IdealTracker) (s : Step i n i1)
    (r : Spans i1 ns f) where
  later-Spans : Spans i (n ∷ ns) f
  unfolding highest_of lowest_of in_time contains
  later-Spans = record {
    high_eq = r.high_eq ∙ ap (λ h. highest_of h ns) s.high_eq;
    base_eq = elim (Bool-cases (leb window_size (i.high - n))) [
      | inl old ↦
          rw old (
            r.base_eq ∙ ap₂ (λ b h. lowest_of b (in_time h ns)) (s.base_eq ∙ rw old refl) s.high_eq)
      | inr new ↦
          rw new (
            r.base_eq ∙ ap₂ (λ b h. lowest_of b (in_time h ns)) (s.base_eq ∙ rw new refl) s.high_eq)
    ];
    seen_eq = λ m.
        let later = contains (in_time (max i.high n) ns) m in
        let e : f.seen m ≡ (later || i1.seen m) =
          r.seen_eq m ∙ ap (λ h. contains (in_time h ns) m || i1.seen m) s.high_eq in
        elim (Bool-cases (leb window_size (i.high - n))) [
          | inl old ↦
              (let same : i1.seen m ≡ i.seen m = s.seen_eq m ∙ rw old refl in
                rw old (e ∙ ap (λ b. later || b) same))
          | inr new ↦
              (let more : i1.seen m ≡ (m == n || i.seen m) = s.seen_eq m ∙ rw new refl in
                rw new (e ∙ ap (λ b. later || b) more ∙ swap_or later (m == n) (i.seen m)))
        ];
  }

pub ideal_all-Spans : (i : IdealTracker) (ns : List ℕ) → IsValid i → Spans i ns (ideal_all i ns).0
unfolding ideal_all highest_of lowest_of in_time contains
ideal_all-Spans i [] v = record { high_eq = refl; base_eq = refl; seen_eq = λ m. refl }
ideal_all-Spans i (n ∷ ns) v =
    later-Spans i n ns (ideal_observe i n).0 _ (ideal_observe-Step i n v)
      (ideal_all-Spans (ideal_observe i n).0 ns (ideal_observe-IsValid i n v))
