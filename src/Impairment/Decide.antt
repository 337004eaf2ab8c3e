-- ===== src/Impairment/Decide.antt =====
-- impairment.cpp, `decide`: what becomes of a packet.
use full_duplex_radio.Prelude.{ℕ, List, [], ◌∷◌, Bool, true, false, not, if◌then◌else◌}
use full_duplex_radio.Floats.{Floats}
use full_duplex_radio.Impairment.{
  Engine, Counters, Verdict, drop_independent, drop_burst, drop_rate_limit, Decision, new_decision,
  inc64, add64,
}
use full_duplex_radio.Impairment.Draw.{
  next_unit, draw_delay, rate_limit_allows, advance_burst_state,
}

module _ {F : Type 0} (fl : Floats F) where
  abbrev pub with_counters : Engine F → Counters → Engine F
  with_counters e c = record e { counters = c }

  -- percent > 0 && next_unit() * 100 < percent, which draws only where the percentage is positive.
  unfoldable pub chance : Engine F → F → Engine F × Bool
  unfolding next_unit
  chance e percent =
      let r = next_unit fl e in
      if fl.lt (fl.decimal 0 0) percent
      then (r.0, fl.lt (fl.mul r.1 (fl.decimal 100 0)) percent)
      else (e, false)

  -- The reordering of a packet that goes through.
  unfoldable pub maybe_reorder : Engine F × Decision → Engine F × Decision
  maybe_reorder (e, d) =
      let r = chance e e.config.reorder_percent in
      if r.1
      then (
        with_counters r.0 (record r.0.counters { reordered = inc64 r.0.counters.reordered }),
        record d { delay_us = add64 d.delay_us e.config.reorder_extra_us; reorder_applied = true },
      )
      else (r.0, d)

  -- The second copy of a packet that goes through.
  unfoldable pub maybe_duplicate : Engine F × Decision → Engine F × Decision
  maybe_duplicate (e, d) =
      let r = chance e e.config.duplicate_percent in
      let copy = draw_delay fl r.0 in
      if r.1
      then (
        with_counters copy.0
            (record copy.0.counters { duplicated = inc64 copy.0.counters.duplicated }),
        record d { duplicate = true; duplicate_delay_us = copy.1 },
      )
      else (r.0, d)

  -- `decide` from the drawing of the delay on.
  unfoldable pub let_through : Engine F → Engine F × Decision
  let_through e =
      let drawn = draw_delay fl e in
      let r =
        maybe_duplicate (maybe_reorder (drawn.0, record new_decision { delay_us = drawn.1 })) in
      (with_counters r.0 (record r.0.counters { forwarded = inc64 r.0.counters.forwarded }), r.1)

  abbrev pub dropped : Verdict → Decision
  dropped v = record new_decision { verdict = v }

  -- `decide` from the independent loss on.
  unfoldable pub decide_outside_burst : Engine F → ℕ → ℕ → Engine F × Decision
  decide_outside_burst e packet_bytes now_us =
      let loss = chance e e.config.loss_percent in
      let allowed = rate_limit_allows fl loss.0 packet_bytes now_us in
      if loss.1
      then (
        with_counters loss.0 (record loss.0.counters {
          dropped_independent = inc64 loss.0.counters.dropped_independent;
        }),
        dropped drop_independent,
      )
      else (if not allowed.1
          then (
            with_counters allowed.0 (record allowed.0.counters {
              dropped_rate_limit = inc64 allowed.0.counters.dropped_rate_limit;
            }),
            dropped drop_rate_limit,
          )
          else let_through allowed.0)

  unfoldable pub decide : Engine F → ℕ → ℕ → Engine F × Decision
  decide e packet_bytes now_us =
      let counted =
        with_counters e (record e.counters { considered = inc64 e.counters.considered }) in
      let moved = advance_burst_state fl counted in
      if moved.in_burst
      then (
        with_counters moved
            (record moved.counters { dropped_burst = inc64 moved.counters.dropped_burst }),
        dropped drop_burst,
      )
      else decide_outside_burst moved packet_bytes now_us

  -- The packets of a run, each with its size and its time: the engine, and what became of each.
  unfoldable pub decide_all : Engine F → List (ℕ × ℕ) → Engine F × List Decision
  decide_all e [] = (e, [])
  decide_all e ((packet_bytes, now_us) ∷ more) =
      let r = decide e packet_bytes now_us in
      let rest = decide_all r.0 more in (rest.0, r.1 ∷ rest.1)
