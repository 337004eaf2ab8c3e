-- ===== src/Pacer.antt =====
-- core/include/radio/pacer.hpp and core/src/net/pacer.cpp: the departure clock.
-- `Micros` is a uint64_t, so the arithmetic is modulo 2^64.
pub mod Laws
mod Tests
use full_duplex_radio.Prelude.{
  ℕ, ◌+◌, ◌-◌, ◌*◌, ◌%◌, ◌^◌, Bool, true, false, not, ◌&&◌, ◌||◌, ltb, leb, ◌==◌, if◌then◌else◌,
}

pub record Pacer : Type 0 where
  pub interval : ℕ
  pub max_catchup : ℕ
  pub next : ℕ
  pub resyncs : ℕ
  pub departures : ℕ
  pub started : Bool

abbrev pub add64 : ℕ → ℕ → ℕ
add64 a b = (a + b) % 2 ^ 64

-- `Pacer{}`.
abbrev pub blank : Pacer
blank = record {
  interval = 0;
  max_catchup = 0;
  next = 0;
  resyncs = 0;
  departures = 0;
  started = false;
}

-- The two-argument constructor.
unfoldable pub make : ℕ → ℕ → Pacer
make interval_us max_catchup_us = record blank {
  interval = interval_us;
  max_catchup = if not (max_catchup_us == 0) then max_catchup_us else interval_us * 2 % 2 ^ 64;
}

unfoldable pub start : Pacer → ℕ → Pacer
start p now_us = record p { next = now_us; started = true }

unfoldable pub reset : Pacer → Pacer
reset p = record blank { interval = p.interval; max_catchup = p.max_catchup }

-- The subtraction runs only where `now_us < next`.
unfoldable pub delay_until_due_us : Pacer → ℕ → ℕ
delay_until_due_us p now_us = if not p.started || leb p.next now_us then 0 else p.next - now_us

unfoldable pub due : Pacer → ℕ → Bool
due p now_us = p.started && leb p.next now_us

-- The resynchronisation at the end of `advance`.
unfoldable pub catch_up : Pacer → ℕ → Pacer
catch_up p now_us =
    if ltb p.next now_us && ltb p.max_catchup (now_us - p.next)
    then record p { next = now_us; resyncs = add64 p.resyncs 1 }
    else p

unfoldable pub advance : Pacer → ℕ → Pacer
unfolding start catch_up
advance p now_us =
    let q = if not p.started then start p now_us else p in
    catch_up (record q { departures = add64 q.departures 1; next = add64 q.next q.interval }) now_us
