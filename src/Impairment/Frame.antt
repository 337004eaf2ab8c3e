-- ===== src/Impairment/Frame.antt =====
-- impairment.cpp: what the draws leave alone.
use full_duplex_radio.Prelude.{ℕ, ◌≡◌, refl, ◌∙◌, arith, Bool, ◌||◌, ◌==◌, if_either}
use full_duplex_radio.Floats.{Floats}
use full_duplex_radio.Impairment.{Engine, JitterShape, none, uniform, normal, pareto}
use full_duplex_radio.Impairment.Draw.{
  next_bits, next_unit, next_normal, draw_offset, draw_jitter, draw_delay, rate_limit_allows,
  refill, is_none, total_delay,
}
use full_duplex_radio.Impairment.Decide.{chance}

-- What the constructor sets for good: the configuration, the seed and the chain.
pub record Keeps {F : Type 0} (e e' : Engine F) : Type 0 where
  pub config_eq : e'.config ≡ e.config
  pub seed_eq : e'.seed ≡ e.seed
  pub good_eq : e'.p_good_to_bad ≡ e.p_good_to_bad
  pub bad_eq : e'.p_bad_to_good ≡ e.p_bad_to_good

-- A draw keeps the counters too.
pub record KeepsAll {F : Type 0} (e e' : Engine F) : Type 0 where
  pub rest : Keeps e e'
  pub counters_eq : e'.counters ≡ e.counters

module _ {F : Type 0} (fl : Floats F) where
  keeps_same : (e : Engine F) → KeepsAll e e
  keeps_same e = record {
    rest = record { config_eq = refl; seed_eq = refl; good_eq = refl; bad_eq = refl };
    counters_eq = refl;
  }

  pub keeps_then : (e f g : Engine F) → KeepsAll e f → KeepsAll f g → KeepsAll e g
  keeps_then e f g h k = record {
    rest = record {
      config_eq = k.rest.config_eq ∙ h.rest.config_eq;
      seed_eq = k.rest.seed_eq ∙ h.rest.seed_eq;
      good_eq = k.rest.good_eq ∙ h.rest.good_eq;
      bad_eq = k.rest.bad_eq ∙ h.rest.bad_eq;
    };
    counters_eq = k.counters_eq ∙ h.counters_eq;
  }

  pub next_unit-KeepsAll : (e : Engine F) → KeepsAll e (next_unit fl e).0
  unfolding next_unit next_bits
  next_unit-KeepsAll e = record {
    rest = record { config_eq = refl; seed_eq = refl; good_eq = refl; bad_eq = refl };
    counters_eq = refl;
  }

  next_normal-KeepsAll : (e : Engine F) → KeepsAll e (next_normal fl e).0
  unfolding next_normal next_unit next_bits
  next_normal-KeepsAll e = record {
    rest = record {
      config_eq = ground arith;
      seed_eq = ground arith;
      good_eq = ground arith;
      bad_eq = ground arith;
    };
    counters_eq = ground arith;
  }

  draw_offset-KeepsAll :
      (shape : JitterShape) (scale : F) (e : Engine F) → KeepsAll e (draw_offset fl shape scale e).0
  unfolding draw_offset
  draw_offset-KeepsAll none scale e = keeps_same e
  draw_offset-KeepsAll uniform scale e = next_unit-KeepsAll e
  draw_offset-KeepsAll normal scale e = next_normal-KeepsAll e
  draw_offset-KeepsAll pareto scale e = next_unit-KeepsAll e

  pub draw_delay-KeepsAll : (e : Engine F) → KeepsAll e (draw_delay fl e).0
  unfolding draw_delay draw_jitter
  draw_delay-KeepsAll e =
      let drawn = draw_offset-KeepsAll e.config.jitter_shape (fl.of_u64 e.config.jitter_us) e in
      let Right = λ (r : Engine F × ℕ). KeepsAll e r.0 in
      if_either Right (e.config.jitter_us == 0 || is_none e.config.jitter_shape) (λ _. keeps_same e)
        (λ _.
          if_either Right
            (fl.le
              (total_delay fl e
                (draw_offset fl e.config.jitter_shape (fl.of_u64 e.config.jitter_us) e).1)
              (fl.decimal 0 0))
            (λ _. drawn) (λ _. drawn))

  pub rate_limit_allows-KeepsAll :
      (e : Engine F) (bytes now_us : ℕ) → KeepsAll e (rate_limit_allows fl e bytes now_us).0
  unfolding rate_limit_allows refill
  rate_limit_allows-KeepsAll e bytes now_us = record {
    rest = record {
      config_eq = ground arith;
      seed_eq = ground arith;
      good_eq = ground arith;
      bad_eq = ground arith;
    };
    counters_eq = ground arith;
  }

  pub chance-KeepsAll : (e : Engine F) (percent : F) → KeepsAll e (chance fl e percent).0
  unfolding chance
  chance-KeepsAll e percent =
      if_either (λ (r : Engine F × Bool). KeepsAll e r.0) (fl.lt (fl.decimal 0 0) percent)
        (λ _. next_unit-KeepsAll e) (λ _. keeps_same e)
