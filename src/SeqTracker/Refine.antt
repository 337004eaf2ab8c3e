-- ===== src/SeqTracker/Refine.antt =====
-- seq_tracker.cpp: the tracker over 32-bit wire numbers refines the ideal one over numbers that
-- never wrap.
use full_duplex_radio.Prelude.{
  ℕ, ◌+◌, ◌-◌, ◌%◌, ◌^◌, ◌≤◌, ◌<◌, ◌≡◌, refl, ◌∙◌, List, arith, length, Bool, true, false, ltb, leb,
  ◌==◌, if◌then◌else◌, ℕ_discrete,
}
use full_duplex_radio.Prelude.Int.{pos, negsuc}
use full_duplex_radio.Serial.{distance, precedes}
use full_duplex_radio.SeqTracker.{
  Tracker, in_order, reordered, duplicate, too_old, observe, new, test_bit, set_bit,
  clear_range_exclusive, blank, window_size, word_count, slot, inc64,
}
use full_duplex_radio.SeqTracker.Bitmap.{test-set_bit, test-blank, length-set_bit}
use full_duplex_radio.SeqTracker.Ideal.{IdealTracker, IsValid, ideal_first, with_seen, unseen_above}
use full_duplex_radio.SeqTracker.Window.{wire, distance-wire, length-clear_range, test-clear_range}

-- The bits of the window that ends at `high` are what was seen.
abbrev pub Remembers : List ℕ → ℕ → (ℕ → Bool) → Type 0
Remembers ws high seen = (m : ℕ) → m ≤ high → high < m + window_size → test_bit ws (wire m) ≡ seen m

pub record Refines (t : Tracker) (i : IdealTracker) : Type 0 where
  pub running : t.started ≡ true
  pub words_len : length t.words ≡ word_count
  pub highest_eq : t.highest ≡ wire i.high
  pub base_eq : t.base ≡ wire i.base
  pub span_in : i.high < i.base + 2 ^ 31
  pub bits : Remembers t.words i.high i.seen
  pub received_eq : t.received ≡ i.received % 2 ^ 64
  pub duplicates_eq : t.duplicates ≡ i.duplicates % 2 ^ 64
  pub reorders_eq : t.reorders ≡ i.reorders % 2 ^ 64
  pub too_olds_eq : t.too_olds ≡ i.too_olds % 2 ^ 64

same_slot :
    (a b : ℕ)
    → a < b + window_size
    → b < a + window_size
    → (slot (wire a) == slot (wire b)) ≡ (b == a)
same_slot a b h k = ground arith

pub Remembers-set_bit :
    (ws : List ℕ) (seen : ℕ → Bool) (high n m : ℕ)
    → length ws ≡ word_count
    → n ≤ high
    → m ≤ high
    → high < n + window_size
    → high < m + window_size
    → test_bit ws (wire m) ≡ seen m
    → test_bit (set_bit ws (wire n)) (wire m) ≡ with_seen n seen m
Remembers-set_bit ws seen high n m len hn hm kn km e =
    test-set_bit ws (wire n) (wire m) len ∙ rw (same_slot n m (omega arith) (omega arith), e)

-- The first packet of a stream puts the tracker in the state of an ideal one that has seen that
-- packet alone, whatever the counters of duplicates, reorders and old packets were not: 0.
pub observe_first-Refines : (n : ℕ) → Refines (observe new (wire n)).0 (ideal_first n)
unfolding observe ideal_first
observe_first-Refines n = record {
  running = refl;
  words_len = length-set_bit blank (wire n);
  highest_eq = refl;
  base_eq = refl;
  span_in = omega arith;
  bits = λ m h k.
      test-set_bit blank (wire n) (wire m) refl
      ∙ rw (test-blank (wire m), same_slot n m (omega arith) (omega arith)) (ground arith);
  received_eq = refl;
  duplicates_eq = refl;
  reorders_eq = refl;
  too_olds_eq = refl;
}

module _ {t : Tracker} {i : IdealTracker} (n : ℕ) (r : Refines t i) (v : IsValid i)
    (below : n < i.base + 2 ^ 31) (above : i.high < n + 2 ^ 31) where
  ahead_lem :
      distance t.highest (wire n)
      ≡ (if leb i.high n then pos (n - i.high) else negsuc (i.high - n - 1))
  ahead_lem = rw r.highest_eq (distance-wire i.high n (omega (arith, v.ordered)) above)

  pub base_lem : n < i.high → i.high < n + window_size → precedes (wire n) t.base ≡ ltb n i.base
  unfolding precedes
  base_lem h k = rw r.base_eq (ground (arith, distance-wire n i.base, v.ordered, r.span_in))

  pub in_order_bits :
      i.high < n
      → Remembers
          (set_bit (clear_range_exclusive t.words t.highest (wire n)) (wire n))
          n
          (with_seen n i.seen)
  in_order_bits up m hm km =
      let kept = test-clear_range t.words i.high n m r.words_len up (omega (arith, v.ordered)) in
      rw r.highest_eq (
        test-set_bit (clear_range_exclusive t.words (wire i.high) (wire n)) (wire n) (wire m)
          (length-clear_range t.words (wire i.high) (wire n) r.words_len)
        ∙ rw (same_slot n m (omega arith) (omega arith)) (elim (ℕ_discrete m n) [
          | yes e ↦ ground arith
          | no ne ↦ ground (
            arith,
            kept (omega arith) km,
            λ (h : m ≤ i.high). r.bits m h (omega arith),
            λ (h : i.high < m). unseen_above v m h,
          )
        ]))

  -- What `observe` does in each of its cases, by where the number lies.
  pub observe_up :
      i.high < n
      → observe t (wire n) ≡ (
        record t {
          words = set_bit (clear_range_exclusive t.words t.highest (wire n)) (wire n);
          highest = wire n;
          received = inc64 t.received;
        },
        in_order,
      )
  unfolding observe
  observe_up up = ground (arith, ahead_lem, r.running)

  pub observe_top :
      n ≡ i.high → observe t (wire n) ≡ (record t { duplicates = inc64 t.duplicates }, duplicate)
  unfolding observe
  observe_top e = ground (arith, ahead_lem, r.running)

  pub observe_old :
      n + window_size ≤ i.high
      → observe t (wire n) ≡ (record t { too_olds = inc64 t.too_olds }, too_old)
  unfolding observe
  observe_old old = ground (arith, ahead_lem, r.running)

  pub observe_again :
      n < i.high
      → i.high < n + window_size
      → i.seen n ≡ true
      → observe t (wire n) ≡ (record t { duplicates = inc64 t.duplicates }, duplicate)
  unfolding observe
  observe_again down recent again = ground (arith, ahead_lem, r.running, r.bits n)

  pub observe_fill :
      n < i.high
      → i.high < n + window_size
      → i.seen n ≡ false
      → observe t (wire n) ≡ (
        record t {
          words = set_bit t.words (wire n);
          received = inc64 t.received;
          reorders = inc64 t.reorders;
          base = if ltb n i.base then wire n else t.base;
        },
        reordered,
      )
  unfolding observe
  observe_fill down recent new = ground (arith, ahead_lem, r.running, r.bits n, base_lem)
