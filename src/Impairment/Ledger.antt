-- ===== src/Impairment/Ledger.antt =====
-- impairment.cpp: the counters of the engine against the decisions that it returned.
use full_duplex_radio.Prelude.{ℕ, ◌≡◌, refl, sym, ap, ◌∙◌, arith, Bool, true, false, not, if_either}
use full_duplex_radio.Floats.{Floats}
use full_duplex_radio.Impairment.{
  Engine, Counters, Verdict, forward, drop_independent, drop_burst, drop_rate_limit, Decision,
  new_decision, inc64,
}
use full_duplex_radio.Impairment.Draw.{
  next_unit, next_bits, draw_delay, rate_limit_allows, advance_burst_state,
}
use full_duplex_radio.Impairment.Decide.{
  with_counters, chance, maybe_reorder, maybe_duplicate, let_through, decide_outside_burst, decide,
}
use full_duplex_radio.Impairment.Frame.{
  Keeps, keeps_then, draw_delay-KeepsAll, rate_limit_allows-KeepsAll, chance-KeepsAll,
}

-- The counters that a decision calls for, from those before the packet.
abbrev pub note_reorder : Bool → Counters → Counters
note_reorder true c = record c { reordered = inc64 c.reordered }
note_reorder false c = c

abbrev pub note_duplicate : Bool → Counters → Counters
note_duplicate true c = record c { duplicated = inc64 c.duplicated }
note_duplicate false c = c

abbrev pub note_verdict : Verdict → Counters → Counters
note_verdict forward c = record c { forwarded = inc64 c.forwarded }
note_verdict drop_independent c = record c { dropped_independent = inc64 c.dropped_independent }
note_verdict drop_burst c = record c { dropped_burst = inc64 c.dropped_burst }
note_verdict drop_rate_limit c = record c { dropped_rate_limit = inc64 c.dropped_rate_limit }

-- The engine `e'` and the decision `d` are what a call leaves: the counters of `e`, but for the
-- number of bursts, have gone on as `d` says.
abbrev pub noted : Decision → Counters → Counters
noted d c = note_verdict d.verdict (note_duplicate d.duplicate (note_reorder d.reorder_applied c))

noted_lem :
    (d : Decision) (v : Verdict) (b : Bool) (c : Counters)
    → d.verdict ≡ v
    → d.reorder_applied ≡ b
    → noted d c ≡ note_verdict v (note_duplicate d.duplicate (note_reorder b c))
noted_lem d v b c hv hb = rw (hv, hb) refl

abbrev pub tally : Decision → Counters → ℕ → Counters
tally d c bursts = noted d (record c { considered = inc64 c.considered; bursts_entered = bursts })

module _ {F : Type 0} (fl : Floats F) where
  -- Changing the counters keeps the rest.
  of_rest : (e f : Engine F) {c : Counters} → Keeps e f → Keeps e (with_counters fl f c)
  of_rest e f k = record {
    config_eq = k.config_eq;
    seed_eq = k.seed_eq;
    good_eq = k.good_eq;
    bad_eq = k.bad_eq;
  }

  maybe_reorder_lem :
      (e : Engine F) (d : Decision)
      → d.reorder_applied ≡ false
      → let r = maybe_reorder fl (e, d) in
        Keeps e r.0
        × (r.0.counters ≡ note_reorder r.1.reorder_applied e.counters)
        × (r.1.verdict ≡ d.verdict)
        × (r.1.duplicate ≡ d.duplicate)
  unfolding maybe_reorder
  maybe_reorder_lem e d h =
      let k = chance-KeepsAll fl e e.config.reorder_percent in
      if_either
        (λ (r : Engine F × Decision).
          Keeps e r.0
          × (r.0.counters ≡ note_reorder r.1.reorder_applied e.counters)
          × (r.1.verdict ≡ d.verdict)
          × (r.1.duplicate ≡ d.duplicate))
        (chance fl e e.config.reorder_percent).1
        (λ _. (of_rest e _ k.rest, ap (note_reorder true) k.counters_eq, refl, refl))
        (λ _. rw h (k.rest, k.counters_eq, refl, refl))

  same : (e : Engine F) → Keeps e e
  same e = record { config_eq = refl; seed_eq = refl; good_eq = refl; bad_eq = refl }

  both : (e f g : Engine F) → Keeps e f → Keeps f g → Keeps e g
  both e f g h k = record {
    config_eq = k.config_eq ∙ h.config_eq;
    seed_eq = k.seed_eq ∙ h.seed_eq;
    good_eq = k.good_eq ∙ h.good_eq;
    bad_eq = k.bad_eq ∙ h.bad_eq;
  }

  maybe_duplicate_lem :
      (e : Engine F) (d : Decision)
      → d.duplicate ≡ false
      → let r = maybe_duplicate fl (e, d) in
        Keeps e r.0
        × (r.0.counters ≡ note_duplicate r.1.duplicate e.counters)
        × (r.1.verdict ≡ d.verdict)
        × (r.1.reorder_applied ≡ d.reorder_applied)
  unfolding maybe_duplicate
  maybe_duplicate_lem e d h =
      let k = chance-KeepsAll fl e e.config.duplicate_percent in
      let drawn = (chance fl e e.config.duplicate_percent).0 in
      let l = keeps_then fl e drawn (draw_delay fl drawn).0 k (draw_delay-KeepsAll fl drawn) in
      if_either
        (λ (r : Engine F × Decision).
          Keeps e r.0
          × (r.0.counters ≡ note_duplicate r.1.duplicate e.counters)
          × (r.1.verdict ≡ d.verdict)
          × (r.1.reorder_applied ≡ d.reorder_applied))
        (chance fl e e.config.duplicate_percent).1
        (λ _. (of_rest e _ l.rest, ap (note_duplicate true) l.counters_eq, refl, refl))
        (λ _. rw h (k.rest, k.counters_eq, refl, refl))

  -- The engine kept what is set for good, and the counters went on as the decision says.
  abbrev pub Noted : Engine F → Engine F × Decision → Type 0
  Noted e r = Keeps e r.0 × (r.0.counters ≡ noted r.1 e.counters)

  let_through-Noted : (e : Engine F) → Noted e (let_through fl e)
  unfolding let_through
  let_through-Noted e =
      let drawn = draw_delay fl e in
      let k = draw_delay-KeepsAll fl e in
      let d = record new_decision { delay_us = drawn.1 } in
      let r = maybe_reorder fl (drawn.0, d) in
      let (k1, c1, v1, d1) = maybe_reorder_lem drawn.0 d refl in
      let s = maybe_duplicate fl r in
      let (k2, c2, v2, r2) = maybe_duplicate_lem r.0 r.1 d1 in
      (
        of_rest e s.0 (both e drawn.0 s.0 k.rest (both drawn.0 r.0 s.0 k1 k2)),
        ap (note_verdict forward) (
              c2
              ∙ ap (note_duplicate s.1.duplicate)
                  (c1 ∙ ap (note_reorder r.1.reorder_applied) k.counters_eq))
            ∙ sym (noted_lem s.1 forward r.1.reorder_applied e.counters (v2 ∙ v1) r2),
      )

  decide_outside_burst-Noted :
      (e : Engine F) (packet_bytes now_us : ℕ)
      → Noted e (decide_outside_burst fl e packet_bytes now_us)
  unfolding decide_outside_burst
  decide_outside_burst-Noted e packet_bytes now_us =
      let loss = chance fl e e.config.loss_percent in
      let k = chance-KeepsAll fl e e.config.loss_percent in
      let allowed = rate_limit_allows fl loss.0 packet_bytes now_us in
      let l =
        keeps_then fl e loss.0 allowed.0 k
          (rate_limit_allows-KeepsAll fl loss.0 packet_bytes now_us) in
      let (through, counted) = let_through-Noted allowed.0 in
      if_either (Noted e) loss.1
        (λ _. (of_rest e loss.0 k.rest, ap (note_verdict drop_independent) k.counters_eq))
        (λ _.
          if_either (Noted e) (not allowed.1)
            (λ _. (of_rest e allowed.0 l.rest, ap (note_verdict drop_rate_limit) l.counters_eq))
            (λ _. (
              both e allowed.0 _ l.rest through,
              counted ∙ ap (noted (let_through fl allowed.0).1) l.counters_eq,
            )))

  advance_burst_state_lem :
      (e : Engine F)
      → let e' = advance_burst_state fl e in
        Keeps e e'
        × (e'.counters ≡ record e.counters { bursts_entered = e'.counters.bursts_entered })
  unfolding advance_burst_state next_unit next_bits
  advance_burst_state_lem e = (
    record {
      config_eq = ground arith;
      seed_eq = ground arith;
      good_eq = ground arith;
      bad_eq = ground arith;
    },
    ground arith,
  )

  abbrev pub begun : Engine F → Engine F
  begun e = with_counters fl e (record e.counters { considered = inc64 e.counters.considered })

  -- Every call of `decide` counts the packet as considered, counts it once under the verdict that
  -- it returns, counts a reordering and a duplicate exactly where it returns them, and leaves the
  -- other counters but that of the bursts, the configuration, the seed and the probabilities of the
  -- chain as they were.
  pub decide-Tallied :
      (e : Engine F) (packet_bytes now_us : ℕ)
      → let r = decide fl e packet_bytes now_us in
        Keeps e r.0
        × (r.0.counters
            ≡ tally r.1 e.counters (advance_burst_state fl (begun e)).counters.bursts_entered)
  unfolding decide
  decide-Tallied e packet_bytes now_us =
      let moved = advance_burst_state fl (begun e) in
      let (k, c) = advance_burst_state_lem (begun e) in
      let (l, n) = decide_outside_burst-Noted moved packet_bytes now_us in
      let Right = λ (r : Engine F × Decision).
        Keeps e r.0 × (r.0.counters ≡ tally r.1 e.counters moved.counters.bursts_entered) in
      if_either Right moved.in_burst
        (λ _. (
          of_rest e moved (both e (begun e) moved (of_rest e e (same e)) k),
          ap (note_verdict drop_burst) c,
        ))
        (λ _. (
          both e moved _ (both e (begun e) moved (of_rest e e (same e)) k) l,
          n ∙ ap (noted (decide_outside_burst fl moved packet_bytes now_us).1) c,
        ))
