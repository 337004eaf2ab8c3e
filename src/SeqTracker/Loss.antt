-- ===== src/SeqTracker/Loss.antt =====
-- seq_tracker.cpp: a whole stream, and what `expected` and `lost` report of it.
use full_duplex_radio.Prelude.{
  ℕ, zero, suc, ◌+◌, ◌-◌, ◌%◌, ◌^◌, ◌≤◌, ◌<◌, ◌≡◌, refl, ap, List, [], ◌∷◌, arith, Bool, false,
  if◌then◌else◌, Bool-cases, inl, inr, map, All, ap₂, fun_ext, ◌∙◌, ◌==◌, ◌||◌,
}
use native.Mathlib.Nat.{zero-add, suc-add}
use full_duplex_radio.Serial.{distance}
use full_duplex_radio.SeqTracker.{Tracker, first, observe, new, expected, lost}
use full_duplex_radio.SeqTracker.Ideal.{
  IdealTracker, IsValid, ideal_first, ideal_observe, ideal_observe-IsValid, ideal_first-IsValid,
  count,
}
use full_duplex_radio.SeqTracker.Window.{wire, distance-wire}
use full_duplex_radio.SeqTracker.Refine.{Refines, observe_first-Refines}
use full_duplex_radio.SeqTracker.Simulation.{observe_refines, observe_all, ideal_all}
use full_duplex_radio.SeqTracker.Span.{in_time, highest_of, lowest_of, contains, ideal_all-Spans}

-- Numbers of one stream: within 2^31 above `lo`.
abbrev pub InStream : ℕ → ℕ → Type 0
InStream lo n = (lo ≤ n) × (n < lo + 2 ^ 31)

pub record Corresponds (lo : ℕ) (t : Tracker) (i : IdealTracker) : Type 0 where
  pub refines : Refines t i
  pub valid : IsValid i
  above_lo : lo ≤ i.base
  below_hi : i.high < lo + 2 ^ 31

span-ideal_observe :
    (lo : ℕ) (i : IdealTracker) (n : ℕ)
    → InStream lo n
    → lo ≤ i.base
    → i.high < lo + 2 ^ 31
    → let i' = (ideal_observe i n).0 in (lo ≤ i'.base) × (i'.high < lo + 2 ^ 31)
unfolding ideal_observe
span-ideal_observe lo i n h a b = ground arith

observe-Corresponds :
    (lo : ℕ) (t : Tracker) (i : IdealTracker) (n : ℕ)
    → InStream lo n
    → Corresponds lo t i
    → ((observe t (wire n)).1 ≡ (ideal_observe i n).1)
      × Corresponds lo (observe t (wire n)).0 (ideal_observe i n).0
observe-Corresponds lo t i n h c =
    let (same, next) =
      observe_refines n c.refines c.valid (omega (arith, c.above_lo)) (omega (arith, c.below_hi)) in
    let (low, high) = span-ideal_observe lo i n h c.above_lo c.below_hi in
    (
      same,
      record {
        refines = next;
        valid = ideal_observe-IsValid i n c.valid;
        above_lo = low;
        below_hi = high;
      },
    )

observe_all-Corresponds :
    (lo : ℕ) (t : Tracker) (i : IdealTracker) (ns : List ℕ)
    → All (InStream lo) ns
    → Corresponds lo t i
    → ((observe_all t (map wire ns)).1 ≡ (ideal_all i ns).1)
      × Corresponds lo (observe_all t (map wire ns)).0 (ideal_all i ns).0
unfolding observe_all ideal_all
observe_all-Corresponds lo t i [] h c = (refl, c)
observe_all-Corresponds lo t i (n ∷ ns) (hn, h) c =
    let (same, next) = observe-Corresponds lo t i n hn c in
    let (rest, end) =
      observe_all-Corresponds lo (observe t (wire n)).0 (ideal_observe i n).0 ns h next in
    (ap₂ ◌∷◌ same rest, end)

pub first-Corresponds :
    (lo n : ℕ) → InStream lo n → Corresponds lo (observe new (wire n)).0 (ideal_first n)
unfolding ideal_first
first-Corresponds lo n h = record {
  refines = observe_first-Refines n;
  valid = ideal_first-IsValid n;
  above_lo = h.0;
  below_hi = h.1;
}

verdict_first : (s : ℕ) → (observe new s).1 ≡ first
unfolding observe
verdict_first s = refl

-- On a stream whose numbers span less than 2^31, in any order and with any repetitions, the wire
-- tracker gives every packet the verdict that the tracker without wrap and without forgetting
-- gives it.
pub stream_classified :
    (lo n : ℕ) (ns : List ℕ)
    → InStream lo n
    → All (InStream lo) ns
    → (observe_all new (map wire (n ∷ ns))).1 ≡ first ∷ (ideal_all (ideal_first n) ns).1
unfolding observe_all
stream_classified lo n ns h hs =
    ap₂ ◌∷◌ (verdict_first (wire n))
      (observe_all-Corresponds lo (observe new (wire n)).0 (ideal_first n) ns hs
        (first-Corresponds lo n h)).0

-- How many of the `k` numbers from `b` on were not seen.
unfoldable pub missing : (ℕ → Bool) → ℕ → ℕ → ℕ
missing seen b zero = 0
missing seen b (suc k) = if seen (k + b) then missing seen b k else suc (missing seen b k)

count-zero : (f : ℕ → Bool) (b : ℕ) → ((m : ℕ) → m < b → f m ≡ false) → count f b ≡ 0
unfolding count
count-zero f zero h = refl
count-zero f (suc b) h = rw (h b (omega arith)) (count-zero f b (λ m l. h m (omega arith)))

missing-add-count : (f : ℕ → Bool) (b k : ℕ) → missing f b k + count f (k + b) ≡ k + count f b
unfolding missing count
missing-add-count f b zero = ap (λ j. 0 + count f j) (zero-add b)
missing-add-count f b (suc k) = rw suc-add (ground (arith, missing-add-count f b k))

unseen_below : {i : IdealTracker} → IsValid i → (m : ℕ) → m < i.base → i.seen m ≡ false
unseen_below {i} v m h = elim (Bool-cases (i.seen m)) [
  | inl e ↦ absurd (omega (arith, v.in_span m e))
  | inr e ↦ e
]

or_comm : (a b : Bool) → (a || b) ≡ (b || a)
or_comm a b = ground arith

module _ {t : Tracker} {i : IdealTracker} (r : Refines t i) (v : IsValid i) where
  expected_lem : expected t ≡ i.high + 1 - i.base
  unfolding expected
  expected_lem =
      rw (r.running, r.base_eq, r.highest_eq)
        (ground (arith, distance-wire i.base i.high, v.ordered, r.span_in))

  span_counts : missing i.seen i.base (i.high + 1 - i.base) + i.received ≡ i.high + 1 - i.base
  span_counts =
      let e : i.high + 1 - i.base + i.base ≡ suc i.high = omega (arith, v.ordered) in
      omega (
        arith,
        rw e at (missing-add-count i.seen i.base (i.high + 1 - i.base)),
        count-zero i.seen i.base (unseen_below v),
        v.counted,
      )

  lost_lem : lost t ≡ missing i.seen i.base (i.high + 1 - i.base)
  unfolding lost
  lost_lem = ground (arith, expected_lem, span_counts, r.received_eq, r.span_in, v.ordered)

-- After a stream whose numbers span less than 2^31, in any order and with any repetitions, `expected`
-- is the length of the span from the lowest arrival in time to the highest arrival, and `lost` is
-- exactly how many numbers of that span are not among the arrivals in time: an arrival is in time
-- unless it is 1024 or more behind the highest one before it.
pub stream_lost :
    (lo n : ℕ) (ns : List ℕ)
    → InStream lo n
    → All (InStream lo) ns
    → let t = (observe_all new (map wire (n ∷ ns))).0 in
      let timely = in_time n ns in
      let low = lowest_of n timely in
      let span = highest_of n ns + 1 - low in
      (expected t ≡ span) × (lost t ≡ missing (contains (n ∷ timely)) low span)
unfolding observe_all contains ideal_first
stream_lost lo n ns h hs =
    let c =
      (observe_all-Corresponds lo (observe new (wire n)).0 (ideal_first n) ns hs
        (first-Corresponds lo n h)).1 in
    let s = ideal_all-Spans (ideal_first n) ns (ideal_first-IsValid n) in
    let seen = fun_ext (λ m. s.seen_eq m ∙ or_comm (contains (in_time n ns) m) (m == n)) in
    let span = ap₂ (λ high base. high + 1 - base) s.high_eq s.base_eq in
    (
      expected_lem c.refines c.valid ∙ span,
      lost_lem c.refines c.valid
          ∙ ap₂
              (λ f b.
                missing f b (
                  (ideal_all (ideal_first n) ns).0.high
                  + 1
                  - (ideal_all (ideal_first n) ns).0.base))
              seen s.base_eq
          ∙ ap (missing (contains (n ∷ in_time n ns)) (lowest_of n (in_time n ns))) span,
    )

-- Where two steps ahead, each below 2^31, together reach 2^31, the span reads as negative, so
-- `expected` is 0 although three packets have arrived: the branch that the code calls unreachable.
pub expected_far :
    (s a b : ℕ)
    → s < 2 ^ 32
    → 0 < a
    → a < 2 ^ 31
    → 0 < b
    → b < 2 ^ 31
    → 2 ^ 31 ≤ a + b
    → let t1 = (observe new s).0 in
      let t2 = (observe t1 ((s + a) % 2 ^ 32)).0 in
      let t3 = (observe t2 ((s + a + b) % 2 ^ 32)).0 in (expected t3 ≡ 0) × (t3.received ≡ 3)
unfolding observe expected distance
expected_far s a b hs h0 ha h1 hb far = ground arith
