-- ===== src/ClockSync/Exchange.antt =====
-- clock_sync.cpp, `observe` and the translations: what an exchange over two one-way delays gives.
use full_duplex_radio.Prelude.{
  ℕ, ◌+◌, ◌*◌, ◌/◌, ◌^◌, ◌≤◌, ◌<◌, ◌≡◌, arith, true, ltb, refl, if◌then◌else◌, ◌%◌,
}
use full_duplex_radio.Prelude.Int.{ℤ, pos, negsuc, ◌+ℤ◌, ◌-ℤ◌, ◌≤ℤ◌, pos_part, neg_part, int_laws}
use full_duplex_radio.ClockSync.{
  Sample, ClockSync, observe, sample_of, is_impossible, keep, to_int64, half_ℤ, rtt_of, offset_of,
  max_plausible_rtt_us, no_sample,
}

to_int64_lem : (w : ℕ) → w < 2 ^ 63 → to_int64 w ≡ pos w
unfolding to_int64
to_int64_lem w h = ground arith

half_parts :
    (a : ℤ)
    → (2 * pos_part (half_ℤ a) ≤ pos_part a)
      × (pos_part a ≤ 2 * pos_part (half_ℤ a) + 1)
      × (2 * neg_part (half_ℤ a) ≤ neg_part a)
      × (neg_part a ≤ 2 * neg_part (half_ℤ a) + 1)
unfolding half_ℤ
half_parts (pos n) = ground arith
half_parts (negsuc n) = ground arith

-- An exchange over a way there of `d1` and a way back of `d2`, with a peer clock that is `ahead` and
-- `behind` of the own one, is measured exactly: the rtt is the sum of the delays.
pub rtt_exact :
    (t1 t2 t3 t4 d1 d2 ahead behind : ℕ)
    → t1 < 2 ^ 63
    → t2 < 2 ^ 63
    → t3 < 2 ^ 63
    → t4 < 2 ^ 63
    → t2 + behind ≡ t1 + d1 + ahead
    → t4 + ahead ≡ t3 + d2 + behind
    → rtt_of t1 t2 t3 t4 ≡ pos (d1 + d2)
rtt_exact t1 t2 t3 t4 d1 d2 ahead behind h1 h2 h3 h4 e f =
    rw (to_int64_lem t1 h1)
      (rw (to_int64_lem t2 h2) (rw (to_int64_lem t3 h3) (rw (to_int64_lem t4 h4) (omega int_laws))))

-- The sample of an exchange over a way there of `d1` and a way back of `d2`, by a peer clock that
-- reads `ahead` - `behind` more than the own one: it is accepted exactly when the rtt is plausible.
is_impossible_lem :
    (t1 t2 t3 t4 d1 d2 ahead behind : ℕ)
    → t1 < 2 ^ 63
    → t2 < 2 ^ 63
    → t3 < 2 ^ 63
    → t4 < 2 ^ 63
    → t2 ≤ t3
    → t2 + behind ≡ t1 + d1 + ahead
    → t4 + ahead ≡ t3 + d2 + behind
    → is_impossible t1 t2 t3 t4 ≡ ltb max_plausible_rtt_us (d1 + d2)
unfolding is_impossible
is_impossible_lem t1 t2 t3 t4 d1 d2 ahead behind h1 h2 h3 h4 le e f =
    rw (rtt_exact t1 t2 t3 t4 d1 d2 ahead behind h1 h2 h3 h4 e f) (
      rw (to_int64_lem t1 h1) (
        rw (to_int64_lem t2 h2) (rw (to_int64_lem t3 h3) (rw (to_int64_lem t4 h4) (ground arith)))))

-- The offset that is computed from an exchange over a way there of `d1` and a way back of `d2`, at
-- timestamps below 2^63, is off by at most half of the rtt, rounded up, in either direction.
pub offset_error :
    (t1 t2 t3 t4 d1 d2 ahead behind : ℕ)
    → t1 < 2 ^ 63
    → t2 < 2 ^ 63
    → t3 < 2 ^ 63
    → t4 < 2 ^ 63
    → t2 + behind ≡ t1 + d1 + ahead
    → t4 + ahead ≡ t3 + d2 + behind
    → (offset_of t1 t2 t3 t4 ≤ℤ (pos ahead -ℤ pos behind) +ℤ pos ((d1 + d2 + 1) / 2))
      × (pos ahead -ℤ pos behind ≤ℤ offset_of t1 t2 t3 t4 +ℤ pos ((d1 + d2 + 1) / 2))
offset_error t1 t2 t3 t4 d1 d2 ahead behind h1 h2 h3 h4 e f = rw (to_int64_lem t1 h1) (
    rw (to_int64_lem t2 h2) (
      rw (to_int64_lem t3 h3) (
        rw (to_int64_lem t4 h4) (
          let x = (pos t2 -ℤ pos t1) +ℤ (pos t3 -ℤ pos t4) in
          let (a, b, c, d) = half_parts x in (omega int_laws, omega int_laws)))))

-- An exchange over a way there of `d1` and a way back of `d2`, at timestamps below 2^63 and with a
-- peer that replies no earlier than it received, is kept with `d1 + d2` as its rtt if that is
-- plausible; otherwise it is counted as rejected and leaves everything else as it was.
pub observe-delays :
    (c : ClockSync) (t1 t2 t3 t4 d1 d2 ahead behind : ℕ)
    → t1 < 2 ^ 63
    → t2 < 2 ^ 63
    → t3 < 2 ^ 63
    → t4 < 2 ^ 63
    → t2 ≤ t3
    → t2 + behind ≡ t1 + d1 + ahead
    → t4 + ahead ≡ t3 + d2 + behind
    → observe c t1 t2 t3 t4 ≡ (
        let s : Sample = record {
          rtt_us = pos (d1 + d2);
          offset_us = offset_of t1 t2 t3 t4;
          local_time_us = t4;
          valid = true;
        } in
        if ltb max_plausible_rtt_us (d1 + d2)
        then (record c { rejected = (c.rejected + 1) % 2 ^ 64 }, no_sample)
        else (keep c s, s))
unfolding observe sample_of
observe-delays c t1 t2 t3 t4 d1 d2 ahead behind h1 h2 h3 h4 le e f =
    rw (is_impossible_lem t1 t2 t3 t4 d1 d2 ahead behind h1 h2 h3 h4 le e f)
      (rw (rtt_exact t1 t2 t3 t4 d1 d2 ahead behind h1 h2 h3 h4 e f) refl)
