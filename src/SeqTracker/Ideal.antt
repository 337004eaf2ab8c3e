-- ===== src/SeqTracker/Ideal.antt =====
-- What the tracker promises: the same classification over sequence numbers that never wrap, by a
-- tracker that remembers every arrival. The bitmap code is compared with it in `Refine`.
use full_duplex_radio.Prelude.{
  ℕ, zero, suc, ◌+◌, ◌-◌, ◌≤◌, ◌<◌, ◌≡◌, arith, Bool, true, false, ◌||◌, ltb, leb, ◌==◌,
  if◌then◌else◌, Bool-cases, ltb→lt, inl, inr, ap,
}
use native.Mathlib.Nat.{zero-add, suc-add}
use full_duplex_radio.SeqTracker.{Verdict, in_order, reordered, duplicate, too_old, window_size}

pub record IdealTracker : Type 0 where
  pub base : ℕ
  pub high : ℕ
  pub seen : ℕ → Bool
  pub received : ℕ
  pub duplicates : ℕ
  pub reorders : ℕ
  pub too_olds : ℕ

abbrev pub with_seen : ℕ → (ℕ → Bool) → ℕ → Bool
with_seen n seen m = m == n || seen m

unfoldable pub ideal_first : ℕ → IdealTracker
ideal_first n = record {
  base = n;
  high = n;
  seen = λ m. m == n;
  received = 1;
  duplicates = 0;
  reorders = 0;
  too_olds = 0;
}

-- Ahead of everything: in order. Seen before: a duplicate. A full window behind or more: too old
-- to say. Otherwise it fills a gap, or comes before the first packet and moves the base back.
unfoldable pub ideal_observe : IdealTracker → ℕ → IdealTracker × Verdict
ideal_observe i n =
    if ltb i.high n
    then (record i { high = n; seen = with_seen n i.seen; received = i.received + 1 }, in_order)
    else (if n == i.high
        then (record i { duplicates = i.duplicates + 1 }, duplicate)
        else (if leb window_size (i.high - n)
            then (record i { too_olds = i.too_olds + 1 }, too_old)
            else (if i.seen n then (record i { duplicates = i.duplicates + 1 }, duplicate) else (
              record i {
                base = if ltb n i.base then n else i.base;
                seen = with_seen n i.seen;
                received = i.received + 1;
                reorders = i.reorders + 1;
              },
              reordered,
            ))))

-- How many of the numbers below `k` satisfy `f`.
unfoldable pub count : (ℕ → Bool) → ℕ → ℕ
count f zero = 0
count f (suc k) = if f k then suc (count f k) else count f k

-- Every number seen lies in the span, the top of the span was seen, and `received` is how many.
pub record IsValid (i : IdealTracker) : Type 0 where
  pub ordered : i.base ≤ i.high
  pub top_seen : i.seen i.high ≡ true
  pub in_span : (m : ℕ) → i.seen m ≡ true → (i.base ≤ m) × (m ≤ i.high)
  pub counted : i.received ≡ count i.seen (suc i.high)

count-with_seen :
    (seen : ℕ → Bool) (n k : ℕ)
    → seen n ≡ false
    → count (with_seen n seen) k ≡ (if ltb n k then suc (count seen k) else count seen k)
unfolding count
count-with_seen seen n zero h = ground arith
count-with_seen seen n (suc k) h = ground (arith, count-with_seen seen n k h)

count-le : (f : ℕ → Bool) (k : ℕ) → count f k ≤ k
unfolding count
count-le f zero = omega arith
count-le f (suc k) = ground (arith, count-le f k)

-- Where nothing satisfies `f` from `k` on, the count does not grow.
count_extend :
    (f : ℕ → Bool) (k j : ℕ) → ((m : ℕ) → k ≤ m → f m ≡ false) → count f (j + k) ≡ count f k
unfolding count
count_extend f k zero none = ap (count f) (zero-add k)
count_extend f k (suc j) none =
    rw suc-add (rw (none (j + k) (omega arith)) (count_extend f k j none))

count_self : (n k : ℕ) → count (λ m. m == n) k ≡ (if ltb n k then 1 else 0)
unfolding count
count_self n zero = ground arith
count_self n (suc k) = ground (arith, count_self n k)

pub unseen_above : {i : IdealTracker} → IsValid i → (m : ℕ) → i.high < m → i.seen m ≡ false
unseen_above {i} v m h = elim (Bool-cases (i.seen m)) [
  | inl e ↦ absurd (omega (arith, v.in_span m e))
  | inr e ↦ e
]

pub ideal_first-IsValid : (n : ℕ) → IsValid (ideal_first n)
unfolding ideal_first
ideal_first-IsValid n = record {
  ordered = omega arith;
  top_seen = ground arith;
  in_span = λ m h. ground arith;
  counted = ground (arith, count_self n (suc n));
}

-- The count after one more arrival that had not been seen.
count_arrival :
    {i : IdealTracker} (n : ℕ)
    → IsValid i
    → i.seen n ≡ false
    → i.high < n
    → suc i.received ≡ count (with_seen n i.seen) (suc n)
count_arrival {i} n v new up =
    let e : n - i.high + suc i.high ≡ suc n = omega arith in
    ground (
      arith,
      v.counted,
      count-with_seen i.seen n (suc n) new,
      rw e at
          (count_extend i.seen (suc i.high) (n - i.high) (λ m h. unseen_above v m (omega arith))),
    )

in_order-IsValid :
    (i : IdealTracker) (n : ℕ)
    → IsValid i
    → i.high < n
    → IsValid (record i { high = n; seen = with_seen n i.seen; received = i.received + 1 })
in_order-IsValid i n v up = record {
  ordered = omega (arith, v.ordered);
  top_seen = ground arith;
  in_span = λ m h. ground (arith, v.in_span m, v.ordered);
  counted = omega (arith, count_arrival n v (unseen_above v n up) up);
}

filled-IsValid :
    (i : IdealTracker) (n : ℕ)
    → IsValid i
    → n < i.high
    → i.seen n ≡ false
    → IsValid (record i {
      base = if ltb n i.base then n else i.base;
      seen = with_seen n i.seen;
      received = i.received + 1;
      reorders = i.reorders + 1;
    })
filled-IsValid i n v down new = record {
  ordered = ground (arith, v.ordered);
  top_seen = ground (arith, v.top_seen);
  in_span = λ m h. ground (arith, v.in_span m, v.ordered);
  counted = ground (arith, v.counted, count-with_seen i.seen n (suc i.high) new);
}

-- Counting a duplicate or an arrival that is too old changes nothing else.
same_span-IsValid :
    (i : IdealTracker) (d o : ℕ) → IsValid i → IsValid (record i { duplicates = d; too_olds = o })
same_span-IsValid i d o v = record {
  ordered = v.ordered;
  top_seen = v.top_seen;
  in_span = v.in_span;
  counted = v.counted;
}

pub ideal_observe-IsValid : (i : IdealTracker) (n : ℕ) → IsValid i → IsValid (ideal_observe i n).0
unfolding ideal_observe
ideal_observe-IsValid i n v = elim (Bool-cases (ltb i.high n)) [
  | inl up ↦ rw up (in_order-IsValid i n v (ltb→lt i.high n up))
  | inr not_up ↦ elim (Bool-cases (n == i.high)) [
    | inl top ↦ rw (not_up, top) (same_span-IsValid i (i.duplicates + 1) i.too_olds v)
    | inr not_top ↦ elim (Bool-cases (leb window_size (i.high - n))) [
      | inl old ↦ rw (not_up, not_top, old) (same_span-IsValid i i.duplicates (i.too_olds + 1) v)
      | inr recent ↦ elim (Bool-cases (i.seen n)) [
        | inl again ↦
            rw (not_up, not_top, recent, again)
              (same_span-IsValid i (i.duplicates + 1) i.too_olds v)
        | inr new ↦
            let down : n < i.high = ground arith in
            rw (not_up, not_top, recent, new) (filled-IsValid i n v down new)
      ]
    ]
  ]
]
