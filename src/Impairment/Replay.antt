-- ===== src/Impairment/Replay.antt =====
-- impairment.cpp: what a run of `decide` counts, and that `reset` rewinds the engine after it.
use full_duplex_radio.Prelude.{
  ℕ, suc, ◌+◌, ◌-◌, ◌%◌, ◌^◌, ◌<◌, ◌≤◌, ◌≡◌, refl, ap, ◌∙◌, arith, List, [], ◌∷◌, length,
}
use full_duplex_radio.Floats.{Floats}
use full_duplex_radio.Impairment.{
  Engine, Impairment, Counters, Verdict, forward, Decision, inc64, add64, make, reset,
  dropped_total,
}
use full_duplex_radio.Impairment.Decide.{decide, decide_all}
use full_duplex_radio.Impairment.Frame.{Keeps}
use full_duplex_radio.Impairment.Ledger.{tally, decide-Tallied}

-- 1 for a packet that goes through, and 0 for one that is dropped.
abbrev pub one_if_forward : Verdict → ℕ
one_if_forward forward = 1
one_if_forward _ = 0

unfoldable pub count_forwarded : List Decision → ℕ
count_forwarded [] = 0
count_forwarded (d ∷ ds) = one_if_forward d.verdict + count_forwarded ds

abbrev total_of : Counters → ℕ
total_of c = add64 (add64 c.dropped_independent c.dropped_burst) c.dropped_rate_limit

record IsU64 (c : Counters) : Type 0 where
  considered_in : c.considered < 2 ^ 64
  forwarded_in : c.forwarded < 2 ^ 64

tally-considered :
    (d : Decision) (c : Counters) (n : ℕ) → (tally d c n).considered ≡ inc64 c.considered
tally-considered d c n = ground arith

tally-forwarded :
    (d : Decision) (c : Counters) (n : ℕ)
    → c.forwarded < 2 ^ 64
    → (tally d c n).forwarded ≡ (c.forwarded + one_if_forward d.verdict) % 2 ^ 64
tally-forwarded d c n h = ground arith

tally-total_of :
    (d : Decision) (c : Counters) (n : ℕ)
    → total_of (tally d c n) ≡ (total_of c + (1 - one_if_forward d.verdict)) % 2 ^ 64
tally-total_of d c n = ground arith

one_if_forward_le : (v : Verdict) → one_if_forward v ≤ 1
one_if_forward_le v = ground arith

count_forwarded_le : (ds : List Decision) → count_forwarded ds < suc (length ds)
unfolding count_forwarded
count_forwarded_le [] = omega arith
count_forwarded_le (d ∷ ds) = ground (arith, count_forwarded_le ds)

module _ {F : Type 0} (fl : Floats F) where
  length-decide_all : (e : Engine F) (ps : List (ℕ × ℕ)) → length (decide_all fl e ps).1 ≡ length ps
  unfolding decide_all
  length-decide_all e [] = refl
  length-decide_all e (p ∷ ps) = ap suc (length-decide_all (decide fl e p.0 p.1).0 ps)

  decide_all-counters :
      (e : Engine F) (ps : List (ℕ × ℕ))
      → IsU64 e.counters
      → let r = decide_all fl e ps in
        (r.0.counters.considered ≡ (e.counters.considered + length ps) % 2 ^ 64)
        × (r.0.counters.forwarded ≡ (e.counters.forwarded + count_forwarded r.1) % 2 ^ 64)
        × (total_of r.0.counters
            ≡ (total_of e.counters + (length ps - count_forwarded r.1)) % 2 ^ 64)
  unfolding decide_all count_forwarded
  decide_all-counters e [] h =
      (omega (arith, h.considered_in), omega (arith, h.forwarded_in), omega arith)
  decide_all-counters e (p ∷ ps) h =
      let r = decide fl e p.0 p.1 in
      let (_, c) = decide-Tallied fl e p.0 p.1 in
      let seen = ap (λ (k : Counters). k.considered) c ∙ tally-considered r.1 e.counters _ in
      let through =
        ap (λ (k : Counters). k.forwarded) c ∙ tally-forwarded r.1 e.counters _ h.forwarded_in in
      let lost = ap total_of c ∙ tally-total_of r.1 e.counters _ in
      let rest =
        decide_all-counters r.0 ps
          (record { considered_in = omega (arith, seen); forwarded_in = omega (arith, through) }) in
      let most = count_forwarded_le (decide_all fl r.0 ps).1 in
      let size = length-decide_all r.0 ps in
      let one = one_if_forward_le r.1.verdict in
      (
        omega (arith, seen, rest.0),
        omega (arith, through, rest.1),
        omega (arith, lost, rest.2, most, size, one),
      )

  decide_all-Keeps : (e : Engine F) (ps : List (ℕ × ℕ)) → Keeps e (decide_all fl e ps).0
  unfolding decide_all
  decide_all-Keeps e [] = record { config_eq = refl; seed_eq = refl; good_eq = refl; bad_eq = refl }
  decide_all-Keeps e (p ∷ ps) =
      let (k, _) = decide-Tallied fl e p.0 p.1 in
      let l = decide_all-Keeps (decide fl e p.0 p.1).0 ps in
      record {
        config_eq = l.config_eq ∙ k.config_eq;
        seed_eq = l.seed_eq ∙ k.seed_eq;
        good_eq = l.good_eq ∙ k.good_eq;
        bad_eq = l.bad_eq ∙ k.bad_eq;
      }

  -- After any run of packets through a new engine the considered, forwarded and dropped counters
  -- are, modulo 2^64, the number of packets, the number of decisions that forward, and the number
  -- of those that drop: each packet is either forwarded or dropped.
  pub decide_all_counts :
      (config : Impairment F) (seed : ℕ) (ps : List (ℕ × ℕ))
      → let r = decide_all fl (make fl config seed) ps in
        (r.0.counters.considered ≡ length ps % 2 ^ 64)
        × (r.0.counters.forwarded ≡ count_forwarded r.1 % 2 ^ 64)
        × (dropped_total fl r.0 ≡ (length ps - count_forwarded r.1) % 2 ^ 64)
        × (count_forwarded r.1 ≤ length ps)
  unfolding make reset dropped_total
  decide_all_counts config seed ps =
      let e = make fl config seed in
      let (a, b, c) =
        decide_all-counters e ps
          (record { considered_in = omega arith; forwarded_in = omega arith }) in
      let most = count_forwarded_le (decide_all fl e ps).1 in
      (
        omega (arith, a),
        omega (arith, b),
        omega (arith, c),
        omega (arith, most, length-decide_all e ps),
      )

  -- `reset` takes an engine that has been through any run of packets back to exactly the state in
  -- which it was made, the generator included, so that every later run repeats itself.
  pub reset-decide_all :
      (config : Impairment F) (seed : ℕ) (ps : List (ℕ × ℕ))
      → reset fl (decide_all fl (make fl config seed) ps).0 ≡ make fl config seed
  unfolding reset make
  reset-decide_all config seed ps =
      let k = decide_all-Keeps (make fl config seed) ps in
      rw (k.config_eq, k.seed_eq, k.good_eq, k.bad_eq) refl
