-- ===== src/Impairment.antt =====
-- core/include/radio/impairment.hpp and core/src/sim/impairment.cpp: the network that the host tools
-- simulate. The generator of random bits is exact; doubles and <cmath> are a parameter. An operation
-- that draws returns the engine beside what it draws. The counters are uint64_t and wrap.
pub mod Draw
pub mod Frame
pub mod Decide
pub mod Ledger
pub mod Replay
pub mod Delay
mod Tests
use full_duplex_radio.Prelude.{
  ℕ, ◌+◌, ◌*◌, ◌/◌, ◌%◌, ◌^◌, bit_xor, Bool, true, false, not, ◌&&◌, ◌==◌, if◌then◌else◌,
}
use full_duplex_radio.Floats.{Floats}

pub data JitterShape : Type 0 where
  none uniform normal pareto : JitterShape

-- `struct Impairment`.
pub record Impairment (F : Type 0) : Type 0 where
  pub base_delay_us : ℕ
  pub jitter_us : ℕ
  pub jitter_shape : JitterShape
  pub loss_percent : F
  pub burst_loss_percent : F
  pub burst_mean_length : F
  pub duplicate_percent : F
  pub reorder_percent : F
  pub reorder_extra_us : ℕ
  pub rate_bps : ℕ
  pub bucket_bytes : ℕ

pub data Verdict : Type 0 where
  forward drop_independent drop_burst drop_rate_limit : Verdict

pub record Decision : Type 0 where
  pub verdict : Verdict
  pub delay_us : ℕ
  pub duplicate : Bool
  pub duplicate_delay_us : ℕ
  pub reorder_applied : Bool

-- `Decision{}`.
abbrev pub new_decision : Decision
new_decision = record {
  verdict = forward;
  delay_us = 0;
  duplicate = false;
  duplicate_delay_us = 0;
  reorder_applied = false;
}

pub record Counters : Type 0 where
  pub considered : ℕ
  pub forwarded : ℕ
  pub dropped_independent : ℕ
  pub dropped_burst : ℕ
  pub dropped_rate_limit : ℕ
  pub duplicated : ℕ
  pub reordered : ℕ
  pub bursts_entered : ℕ

-- `Counters{}`.
abbrev pub no_counters : Counters
no_counters = record {
  considered = 0;
  forwarded = 0;
  dropped_independent = 0;
  dropped_burst = 0;
  dropped_rate_limit = 0;
  duplicated = 0;
  reordered = 0;
  bursts_entered = 0;
}

-- `ImpairmentEngine`.
pub record Engine (F : Type 0) : Type 0 where
  pub config : Impairment F
  pub seed : ℕ
  pub state : ℕ
  pub p_good_to_bad : F
  pub p_bad_to_good : F
  pub in_burst : Bool
  pub spare_normal : F
  pub has_spare_normal : Bool
  pub bucket_tokens : F
  pub bucket_updated_us : ℕ
  pub bucket_started : Bool
  pub counters : Counters

abbrev pub inc64 : ℕ → ℕ
inc64 n = (n + 1) % 2 ^ 64

abbrev pub add64 : ℕ → ℕ → ℕ
add64 a b = (a + b) % 2 ^ 64

-- (z ^ (z >> k)) * m.
abbrev pub scramble : ℕ → ℕ → ℕ → ℕ
scramble z k m = bit_xor z (z / 2 ^ k) * m % 2 ^ 64

-- The next state, and the bits.
unfoldable pub splitmix64 : ℕ → ℕ × ℕ
splitmix64 state =
    let next = add64 state 0x9E3779B97F4A7C15 in
    let z = scramble (scramble next 30 0xBF58476D1CE4E5B9) 27 0x94D049BB133111EB in
    (next, bit_xor z (z / 2 ^ 31))

module _ {F : Type 0} (fl : Floats F) where
  -- `Impairment{}`.
  abbrev pub no_impairment : Impairment F
  no_impairment = record {
    base_delay_us = 0;
    jitter_us = 0;
    jitter_shape = none;
    loss_percent = fl.decimal 0 0;
    burst_loss_percent = fl.decimal 0 0;
    burst_mean_length = fl.decimal 4 0;
    duplicate_percent = fl.decimal 0 0;
    reorder_percent = fl.decimal 0 0;
    reorder_extra_us = 15000;
    rate_bps = 0;
    bucket_bytes = 65536;
  }

  unfoldable pub clamp_percent : F → F
  clamp_percent value =
      if fl.lt value (fl.decimal 0 0)
      then fl.decimal 0 0
      else (if fl.lt (fl.decimal 100 0) value then fl.decimal 100 0 else value)

  -- The configuration that the constructor keeps.
  unfoldable pub clamped : Impairment F → Impairment F
  unfolding clamp_percent
  clamped c = record c {
    loss_percent = clamp_percent c.loss_percent;
    burst_loss_percent = clamp_percent c.burst_loss_percent;
    duplicate_percent = clamp_percent c.duplicate_percent;
    reorder_percent = clamp_percent c.reorder_percent;
    burst_mean_length =
        if fl.lt c.burst_mean_length (fl.decimal 1 0) then fl.decimal 1 0 else c.burst_mean_length;
  }

  -- p(good -> bad) and p(bad -> good) of the chain.
  unfoldable pub transitions : Impairment F → F × F
  transitions c =
      let loss_fraction = fl.div c.burst_loss_percent (fl.decimal 100 0) in
      let one = fl.decimal 1 0 in
      let p_bad_to_good = fl.div one c.burst_mean_length in
      if fl.lt (fl.decimal 0 0) loss_fraction && fl.lt loss_fraction one
      then (fl.div (fl.mul loss_fraction p_bad_to_good) (fl.sub one loss_fraction), p_bad_to_good)
      else (if fl.le one loss_fraction
          then (one, fl.decimal 0 0)
          else (fl.decimal 0 0, fl.decimal 0 0))

  unfoldable pub reset : Engine F → Engine F
  reset e = record e {
    state = e.seed;
    in_burst = false;
    has_spare_normal = false;
    spare_normal = fl.decimal 0 0;
    bucket_tokens = fl.of_u64 e.config.bucket_bytes;
    bucket_updated_us = 0;
    bucket_started = false;
    counters = no_counters;
  }

  -- `ImpairmentEngine{}`.
  abbrev pub blank : Engine F
  blank = record {
    config = no_impairment;
    seed = 0;
    state = 0;
    p_good_to_bad = fl.decimal 0 0;
    p_bad_to_good = fl.decimal 0 0;
    in_burst = false;
    spare_normal = fl.decimal 0 0;
    has_spare_normal = false;
    bucket_tokens = fl.decimal 0 0;
    bucket_updated_us = 0;
    bucket_started = false;
    counters = no_counters;
  }

  -- The two-argument constructor.
  unfoldable pub make : Impairment F → ℕ → Engine F
  unfolding clamped transitions reset
  make config seed =
      let p = transitions (clamped config) in
      reset (record blank {
        config = clamped config;
        seed = seed;
        p_good_to_bad = p.0;
        p_bad_to_good = p.1;
      })

  unfoldable pub dropped_total : Engine F → ℕ
  dropped_total e =
      add64 (add64 e.counters.dropped_independent e.counters.dropped_burst)
        e.counters.dropped_rate_limit

  unfoldable pub measured_loss_fraction : Engine F → F
  unfolding dropped_total
  measured_loss_fraction e =
      if e.counters.considered == 0
      then fl.decimal 0 0
      else fl.div (fl.of_u64 (dropped_total e)) (fl.of_u64 e.counters.considered)
