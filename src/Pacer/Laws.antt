-- ===== src/Pacer/Laws.antt =====
-- pacer.cpp: departures keep to the grid, and a stall is not paid back in a burst.
use full_duplex_radio.Prelude.{
  ℕ, ◌+◌, ◌*◌, ◌^◌, ◌≤◌, ◌<◌, ◌≡◌, List, [], ◌∷◌, arith, true, leb, if◌then◌else◌, length,
}
use full_duplex_radio.Pacer.{Pacer, advance}

-- After `advance` of a started pacer the next departure is never more than the catch-up allowance
-- in the past.
pub advance_backlog :
    (p : Pacer) (now : ℕ) → p.started ≡ true → now ≤ (advance p now).next + p.max_catchup
unfolding advance
advance_backlog p now on = ground arith

-- On a started pacer, a departure that is served within the allowance of the next one moves the
-- schedule by exactly one interval, and a later one restarts the schedule at the time of serving,
-- while the schedule stays below 2^64.
pub advance_next :
    (p : Pacer) (now : ℕ)
    → p.started ≡ true
    → p.next + p.interval < 2 ^ 64
    → (advance p now).next
      ≡ (if leb now (p.next + p.interval + p.max_catchup) then p.next + p.interval else now)
unfolding advance
advance_next p now on fits = ground arith

-- Serving the departures at the given times, in order.
unfoldable pub serve : Pacer → List ℕ → Pacer
serve p [] = p
serve p (t ∷ ts) = serve (advance p t) ts

-- Each departure of a series is served within the allowance of its successor's time.
abbrev pub OnTime : ℕ → ℕ → ℕ → List ℕ → Type 0
OnTime next interval slack [] = Unit {0}
OnTime next interval slack (t ∷ ts) =
    (t ≤ next + interval + slack) × OnTime (next + interval) interval slack ts

advance_keeps :
    (p : Pacer) (now : ℕ)
    → p.started ≡ true
    → ((advance p now).started ≡ true)
      × ((advance p now).interval ≡ p.interval)
      × ((advance p now).max_catchup ≡ p.max_catchup)
unfolding advance
advance_keeps p now on = (ground arith, ground arith, ground arith)

-- However irregular the times at which the departures of a started pacer are served, as long as
-- each is within the allowance and the schedule stays below 2^64, the schedule after `n` of them is
-- exactly `n` intervals on: the error does not add up.
pub serve_grid :
    (p : Pacer) (ts : List ℕ)
    → p.started ≡ true
    → p.next + length ts * p.interval < 2 ^ 64
    → OnTime p.next p.interval p.max_catchup ts
    → (serve p ts).next ≡ p.next + length ts * p.interval
unfolding serve
serve_grid p [] on fits h = omega arith
serve_grid p (t ∷ ts) on fits (ht, hts) =
    let k = advance_keeps p t on in
    let e : (advance p t).next ≡ p.next + p.interval =
      ground (arith, advance_next p t on (grind arith)) in
    let fits' : (advance p t).next + length ts * (advance p t).interval < 2 ^ 64 =
      rw e (rw k.1 (omega arith)) in
    let h : OnTime (advance p t).next (advance p t).interval (advance p t).max_catchup ts =
      rw e (rw k.1 (rw k.2 hts)) in
    let rec = serve_grid (advance p t) ts k.0 fits' h in rw rec (rw e (rw k.1 (omega arith)))
