-- ===== src/ClockSync/Best.antt =====
-- clock_sync.cpp, `best`: the sample of least rtt among those of the window.
use full_duplex_radio.Prelude.{◌≡◌, List, [], ◌∷◌, arith, true, All, not, if◌then◌else◌, ◌||◌}
use full_duplex_radio.Prelude.Int.{◌≤ℤ◌, ltb_ℤ}
use full_duplex_radio.ClockSync.{Sample, ClockSync, best, best_loop, no_sample}

-- Of two samples, the one that `best_loop` goes on with.
abbrev better : Sample → Sample → Sample
better winner c =
    if not c.valid
    then winner
    else (if not winner.valid || ltb_ℤ c.rtt_us winner.rtt_us then c else winner)

-- `s` loses no comparison with `w`.
abbrev pub Beats : Sample → Sample → Type 0
Beats w s = s.valid ≡ true → (w.valid ≡ true) × (w.rtt_us ≤ℤ s.rtt_us)

Beats-trans : (a b c : Sample) → Beats a b → Beats b c → Beats a c
Beats-trans a b c h k v = ((h (k v).0).0, omega (arith, (h (k v).0).1, (k v).1))

better_left : (w c : Sample) → Beats (better w c) w
better_left w c v = ground arith

better_right : (w c : Sample) → Beats (better w c) c
better_right w c v = ground arith

best_loop-Beats : (w : Sample) (cs : List Sample) → Beats (best_loop w cs) w
unfolding best_loop
best_loop-Beats w [] = λ h. (h, omega arith)
best_loop-Beats w (c ∷ cs) =
    Beats-trans (best_loop (better w c) cs) (better w c) w (best_loop-Beats (better w c) cs)
      (better_left w c)

best_loop-All : (w : Sample) (cs : List Sample) → All (Beats (best_loop w cs)) cs
unfolding best_loop
best_loop-All w [] = tt
best_loop-All w (c ∷ cs) = (
  Beats-trans (best_loop (better w c) cs) (better w c) c (best_loop-Beats (better w c) cs)
      (better_right w c),
  best_loop-All (better w c) cs,
)

-- Every valid sample of the window has an rtt of at least that of `best`, which is then valid.
pub best_lem : (c : ClockSync) → All (Beats (best c)) c.window
unfolding best
best_lem c = best_loop-All no_sample c.window
