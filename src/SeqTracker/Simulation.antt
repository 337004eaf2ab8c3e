-- ===== src/SeqTracker/Simulation.antt =====
-- seq_tracker.cpp: one arrival, and a whole stream of them, classified as the ideal tracker does.
use full_duplex_radio.Prelude.{
  ℕ, ◌+◌, ◌-◌, ◌^◌, ◌<◌, ◌≡◌, refl, ◌∙◌, List, [], ◌∷◌, arith, false, ltb, leb, ◌==◌, if◌then◌else◌,
  Bool-cases, inl, inr, ltb→lt,
}
use full_duplex_radio.SeqTracker.{
  Tracker, Verdict, in_order, reordered, observe, new, window_size, inc64,
}
use full_duplex_radio.SeqTracker.Bitmap.{length-set_bit}
use full_duplex_radio.SeqTracker.Ideal.{IdealTracker, IsValid, ideal_observe, with_seen}
use full_duplex_radio.SeqTracker.Window.{wire, length-clear_range}
use full_duplex_radio.SeqTracker.Refine.{
  Refines, Remembers-set_bit, observe_up, observe_top, observe_old, observe_again, observe_fill,
  in_order_bits,
}

-- The verdicts agree, and the states correspond again.
abbrev pub Agree : Tracker × Verdict → IdealTracker × Verdict → Type 0
Agree (t, v) (i, w) = (v ≡ w) × Refines t i

module _ {t : Tracker} {i : IdealTracker} (n : ℕ) (r : Refines t i) (v : IsValid i)
    (below : n < i.base + 2 ^ 31) (above : i.high < n + 2 ^ 31) where
  raised_mark :
      i.high < n
      → Agree
          (observe t (wire n))
          (record i { high = n; seen = with_seen n i.seen; received = i.received + 1 }, in_order)
  raised_mark up = rw (observe_up n r v below above up) (
    refl,
    record {
      running = r.running;
      words_len =
          length-set_bit _ (wire n) ∙ length-clear_range t.words t.highest (wire n) r.words_len;
      highest_eq = refl;
      base_eq = r.base_eq;
      span_in = below;
      bits = in_order_bits n r v below above up;
      received_eq = omega (arith, r.received_eq);
      duplicates_eq = r.duplicates_eq;
      reorders_eq = r.reorders_eq;
      too_olds_eq = r.too_olds_eq;
    },
  )

  counted_duplicate :
      Refines
        (record t { duplicates = inc64 t.duplicates })
        (record i { duplicates = i.duplicates + 1 })
  counted_duplicate = record {
    running = r.running;
    words_len = r.words_len;
    highest_eq = r.highest_eq;
    base_eq = r.base_eq;
    span_in = r.span_in;
    bits = r.bits;
    received_eq = r.received_eq;
    duplicates_eq = omega (arith, r.duplicates_eq);
    reorders_eq = r.reorders_eq;
    too_olds_eq = r.too_olds_eq;
  }

  counted_old :
      Refines (record t { too_olds = inc64 t.too_olds }) (record i { too_olds = i.too_olds + 1 })
  counted_old = record {
    running = r.running;
    words_len = r.words_len;
    highest_eq = r.highest_eq;
    base_eq = r.base_eq;
    span_in = r.span_in;
    bits = r.bits;
    received_eq = r.received_eq;
    duplicates_eq = r.duplicates_eq;
    reorders_eq = r.reorders_eq;
    too_olds_eq = omega (arith, r.too_olds_eq);
  }

  filled_gap :
      n < i.high
      → i.high < n + window_size
      → i.seen n ≡ false
      → Agree (observe t (wire n)) (
        record i {
          base = if ltb n i.base then n else i.base;
          seen = with_seen n i.seen;
          received = i.received + 1;
          reorders = i.reorders + 1;
        },
        reordered,
      )
  filled_gap down recent new = rw (observe_fill n r v below above down recent new) (
    refl,
    record {
      running = r.running;
      words_len = length-set_bit t.words (wire n) ∙ r.words_len;
      highest_eq = r.highest_eq;
      base_eq = ground (arith, r.base_eq);
      span_in = ground (arith, r.span_in);
      bits = λ m hm km.
          Remembers-set_bit t.words i.seen i.high n m r.words_len (omega arith) hm recent km
            (r.bits m hm km);
      received_eq = omega (arith, r.received_eq);
      duplicates_eq = r.duplicates_eq;
      reorders_eq = omega (arith, r.reorders_eq);
      too_olds_eq = r.too_olds_eq;
    },
  )

  -- A tracker in the state of an ideal one classifies the wire form of any number within 2^31 of
  -- the span as the ideal tracker classifies the number, and is again in its state.
  pub observe_refines : Agree (observe t (wire n)) (ideal_observe i n)
  unfolding ideal_observe
  observe_refines = elim (Bool-cases (ltb i.high n)) [
    | inl up ↦ rw up (raised_mark (ltb→lt i.high n up))
    | inr not_up ↦ elim (Bool-cases (n == i.high)) [
      | inl top ↦
          rw (not_up, top)
            (rw (observe_top n r v below above (ground arith)) (refl, counted_duplicate))
      | inr not_top ↦ elim (Bool-cases (leb window_size (i.high - n))) [
        | inl old ↦
            rw (not_up, not_top, old)
              (rw (observe_old n r v below above (ground arith)) (refl, counted_old))
        | inr recent ↦ elim (Bool-cases (i.seen n)) [
          | inl again ↦
              rw (not_up, not_top, recent, again)
                (rw (observe_again n r v below above (ground arith) (ground arith) again)
                  (refl, counted_duplicate))
          | inr new ↦
              rw (not_up, not_top, recent, new) (filled_gap (ground arith) (ground arith) new)
        ]
      ]
    ]
  ]

-- The arrivals of a stream, in order, and their verdicts.
unfoldable pub observe_all : Tracker → List ℕ → Tracker × List Verdict
observe_all t [] = (t, [])
observe_all t (s ∷ ss) =
    let (t', v) = observe t s in let (t'', vs) = observe_all t' ss in (t'', v ∷ vs)

unfoldable pub ideal_all : IdealTracker → List ℕ → IdealTracker × List Verdict
ideal_all i [] = (i, [])
ideal_all i (n ∷ ns) =
    let (i', v) = ideal_observe i n in let (i'', vs) = ideal_all i' ns in (i'', v ∷ vs)
