-- ===== src/Session/Chunks.antt =====
-- session.cpp: the loop of `on_playout` against a reference that serves one sample at a time.
use full_duplex_radio.Prelude.{
  ℕ, zero, suc, ◌+◌, ◌-◌, ◌≤◌, ◌<◌, ◌≡◌, min, refl, sym, ap, ◌∙◌, arith, List, [], ◌∷◌, ◌++◌, take,
  drop, length, get_or, leb, ◌==◌, if_either,
}
use native.Mathlib.Nat.{zero-add, suc-add, add-zero}
use full_duplex_radio.Prelude.Int.{ℤ, pos}
use full_duplex_radio.Clock.{samples_per_frame}
use full_duplex_radio.OpusCodec.{DecoderLibrary}
use full_duplex_radio.OpusCodec.Contract.{Contract}
use full_duplex_radio.JitterBuffer.Frame.{IsSized, pull-Contained}
use full_duplex_radio.Session.{Platform}
use full_duplex_radio.Session.Playout.{Player, refill, fill_loop, fill}

take-drop_step :
    (n u : ℕ) (l : List ℤ) (d : ℤ)
    → u < length l
    → take (suc n) (drop u l) ≡ get_or l u d ∷ take n (drop (u + 1) l)
take-drop_step n u [] d h = absurd (omega arith)
take-drop_step n zero (x ∷ l) d h = refl
take-drop_step n (suc u) (x ∷ l) d h = rw suc-add (take-drop_step n u l d (omega (arith, h)))

module _ {K A S : Type 0} (platform : Platform K A) (lib : DecoderLibrary S) where
  abbrev used_up : Player K S → ℕ → Player K S
  used_up p n = record p { playout_used = p.playout_used + n }

  -- One sample: the next frame is decoded when the last one has been served.
  unfoldable pub next_sample : Player K S → Player K S × ℤ
  next_sample p =
      let q = refill platform lib p in (used_up q 1, get_or q.playout q.playout_used (pos 0))

  unfoldable pub samples : ℕ → Player K S → Player K S × List ℤ
  samples zero p = (p, [])
  samples (suc n) p =
      let first = next_sample p in let rest = samples n first.0 in (rest.0, first.1 ∷ rest.1)

  samples-append :
      (m n : ℕ) (p : Player K S)
      → samples (m + n) p
        ≡ ((samples n (samples m p).0).0, (samples m p).1 ++ (samples n (samples m p).0).1)
  unfolding samples
  samples-append zero n p = rw zero-add refl
  samples-append (suc m) n p = rw (suc-add, samples-append m n (next_sample p).0) refl

  -- Inside of a frame no decode is needed.
  refill_not_due : (p : Player K S) → p.playout_used < samples_per_frame → refill platform lib p ≡ p
  unfolding refill
  refill_not_due p h = ground arith

  -- The samples of one piece.
  samples_piece :
      (n : ℕ) (p : Player K S)
      → p.playout_used + n ≤ samples_per_frame
      → length p.playout ≡ samples_per_frame
      → samples n p ≡ (used_up p n, take n (drop p.playout_used p.playout))
  unfolding samples next_sample
  samples_piece zero p h e =
      ap (λ u. (record p { playout_used = u }, [])) (sym (add-zero p.playout_used))
  samples_piece (suc n) p h e =
      let step = take-drop_step n p.playout_used p.playout (pos 0) (omega (arith, h, e)) in
      let rest = samples_piece n (used_up p 1) (omega (arith, h)) e in
      let place : p.playout_used + 1 + n ≡ p.playout_used + suc n = omega arith in
      rw (refill_not_due p (omega (arith, h)), rest, step)
        (ap
          (λ u. (
            record p { playout_used = u },
            get_or p.playout p.playout_used (pos 0) ∷ take n (drop (p.playout_used + 1) p.playout),
          ))
          place)

  samples_round :
      (n m : ℕ) (p : Player K S)
      → p.playout_used + n ≤ samples_per_frame
      → length p.playout ≡ samples_per_frame
      → samples (n + m) p ≡ (
        (samples m (used_up p n)).0,
        take n (drop p.playout_used p.playout) ++ (samples m (used_up p n)).1,
      )
  samples_round n m p h e = samples-append n m p ∙ rw (samples_piece n p h e) refl

module _ {K A S : Type 0} (platform : Platform K A) (lib : DecoderLibrary S) (channels : S → ℕ)
    (k : Contract lib channels) where
  -- The staging holds one frame, and the jitter buffer writes frames of its own size.
  pub record IsReady (p : Player K S) : Type 0 where
    pub sized : IsSized lib channels p.jitter
    pub staged : length p.playout ≡ samples_per_frame
    pub used_in : p.playout_used ≤ samples_per_frame

  refill-IsReady :
      (p : Player K S)
      → IsReady p
      → IsReady (refill platform lib p) × ((refill platform lib p).playout_used < samples_per_frame)
  unfolding refill
  refill-IsReady p r =
      let now = (platform.now_us (platform.now_us p.world).0).1 in
      let (s, w) = pull-Contained lib channels k p.jitter p.playout now r.sized in
      if_either (λ (q : Player K S). IsReady q × (q.playout_used < samples_per_frame))
        (leb samples_per_frame p.playout_used)
        (λ _. (record { sized = s; staged = w.0 ∙ r.staged; used_in = omega arith }, omega arith))
        (λ e. (r, ground (arith, e)))

  samples-IsReady : (n : ℕ) (p : Player K S) → IsReady p → IsReady (samples platform lib n p).0
  unfolding samples next_sample
  samples-IsReady zero p r = r
  samples-IsReady (suc n) p r =
      let (q, h) = refill-IsReady p r in
      samples-IsReady n _
        (record { sized = q.sized; staged = q.staged; used_in = omega (arith, h) })

  length-samples : (n : ℕ) (p : Player K S) → length (samples platform lib n p).1 ≡ n
  unfolding samples
  length-samples zero p = refl
  length-samples (suc n) p = ap suc (length-samples n _)

  -- A refill that is due does not change which samples follow.
  samples_refilled :
      (n : ℕ) (p : Player K S)
      → (refill platform lib p).playout_used < samples_per_frame
      → samples platform lib (suc n) p ≡ samples platform lib (suc n) (refill platform lib p)
  unfolding samples next_sample
  samples_refilled n p h = rw (refill_not_due platform lib (refill platform lib p) h) refl

  fill_loop-samples :
      (fuel remaining : ℕ) (p : Player K S)
      → remaining ≤ fuel
      → IsReady p
      → fill_loop platform lib fuel remaining p ≡ samples platform lib remaining p
  unfolding fill_loop samples
  fill_loop-samples zero zero p h r = refl
  fill_loop-samples zero (suc rem) p h r = absurd (omega arith)
  fill_loop-samples (suc fuel) zero p h r = refl
  fill_loop-samples (suc fuel) (suc rem) p h r =
      let q = refill platform lib p in
      let (ready, below) = refill-IsReady p r in
      let n = min (suc rem) (samples_per_frame - q.playout_used) in
      let rest =
        fill_loop-samples fuel (suc rem - n) (used_up platform lib q n) (omega (arith, below))
          (record { sized = ready.sized; staged = ready.staged; used_in = omega (arith, below) }) in
      let all : suc rem ≡ n + (suc rem - n) = omega arith in
      let right =
        samples_refilled rem p below
        ∙ ap (λ j. samples platform lib j q) all
        ∙ samples_round platform lib n (suc rem - n) q (omega (arith, below)) ready.staged in
      if_either (λ (x : Player K S × List ℤ). x ≡ samples platform lib (suc rem) p) (suc rem == 0)
        (λ e. absurd (ground (arith, e))) (λ _. rw rest (sym right))

  -- The callback's loop, which copies whole pieces of a frame, writes what one decodes and serves
  -- sample by sample, and leaves the same state, for any number of samples asked for, under the
  -- contract of the decoder, from a staging of one frame of 960 samples of which no more than these
  -- are used up, and a jitter buffer whose sizes are right.
  pub fill-samples :
      (frames : ℕ) (p : Player K S)
      → IsReady p
      → fill platform lib frames p ≡ samples platform lib frames p
  unfolding fill
  fill-samples frames p r = fill_loop-samples frames frames p (omega arith) r

  -- However the device divides its requests, it gets the same samples: a request for m and then one
  -- for n leave the state and, one after the other, the samples of a request for m + n, and a
  -- request for m gives exactly m samples, under the contract of the decoder, from a staging of one
  -- frame of 960 samples, when no packet comes in between.
  pub fill_split :
      (m n : ℕ) (p : Player K S)
      → IsReady p
      → let first = fill platform lib m p in
        let second = fill platform lib n first.0 in
        (fill platform lib (m + n) p ≡ (second.0, first.1 ++ second.1)) × (length first.1 ≡ m)
  fill_split m n p r =
      let one = fill-samples m p r in
      let two = fill-samples n (samples platform lib m p).0 (samples-IsReady m p r) in
      rw (one, two)
        (fill-samples (m + n) p r ∙ samples-append platform lib m n p, length-samples m p)
