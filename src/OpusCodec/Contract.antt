-- ===== src/OpusCodec/Contract.antt =====
-- opus_codec.cpp: where a decode path writes. What libopus promises about its decoder is a record of
-- hypotheses: a state knows its number of channels, and a decode writes no more than the frame asked
-- for has samples.
use full_duplex_radio.Prelude.{
  ℕ, zero, suc, ◌*◌, ◌^◌, ◌≤◌, ◌<◌, ◌≡◌, refl, subst, ◌∙◌, arith, List, [], ◌∷◌, length, drop,
  copy_at, length-copy_at, Bool, true, false, not, ltb, ◌==◌, if_either, Option, none, some,
}
use full_duplex_radio.Prelude.Int.{ℤ, pos, eq_ℤ, ltb_ℤ}
use full_duplex_radio.ReorderQueue.Consume.{to_size}
use full_duplex_radio.OpusCodec.{
  DecoderLibrary, DecoderConfig, Decoder, Decoded, Source, packet, concealment, forward_correction,
  Result, needed, report, run_from, reset_from, run_decode, decode, conceal, recover_previous,
  reset_state,
}

-- The two buffers have the same length and agree from the sample `n` on.
abbrev pub Within : ℕ → List ℤ → List ℤ → Type 0
Within n before after = (length after ≡ length before) × (drop n after ≡ drop n before)

pub Within-refl : (n : ℕ) (a : List ℤ) → Within n a a
Within-refl n a = (refl, refl)

pub Within-trans : (n : ℕ) (a b c : List ℤ) → Within n a b → Within n b c → Within n a c
Within-trans n a b c (e1, e2) (f1, f2) = (f1 ∙ e1, f2 ∙ e2)

drop-copy_at : (n : ℕ) (d src : List ℤ) → length src ≤ n → drop n (copy_at d 0 src) ≡ drop n d
drop-copy_at n [] src h = refl
drop-copy_at n (x ∷ d) [] h = refl
drop-copy_at zero (x ∷ d) (y ∷ src) h = absurd (omega arith)
drop-copy_at (suc n) (x ∷ d) (y ∷ src) h = drop-copy_at n d src (omega arith)

pub copy_at-Within : (n : ℕ) (d src : List ℤ) → length src ≤ n → Within n d (copy_at d 0 src)
copy_at-Within n d src h = (length-copy_at d src, drop-copy_at n d src h)

module _ {S : Type 0} (lib : DecoderLibrary S) (channels : S → ℕ) where
  -- `opus_decoder_create`, `opus_decode` and `OPUS_RESET_STATE`, as libopus documents them.
  pub record Contract : Type 0 where
    pub create_keeps :
        (rate : ℕ) (c : ℤ) (s : S) → (lib.create rate c).0 ≡ some s → channels s ≡ to_size c
    pub decode_keeps :
        (s : S) (bytes : Option (List ℕ)) (n : ℕ) (fec : Bool)
        → channels (lib.decode s bytes n fec).0 ≡ channels s
    pub decode_writes :
        (s : S) (bytes : Option (List ℕ)) (n : ℕ) (fec : Bool)
        → length (lib.decode s bytes n fec).2 ≤ n * channels s
    pub reset_keeps : (s : S) → channels (lib.reset s).0 ≡ channels s

  -- A state was created for the channels of the configuration, and its frame is a size_t of samples.
  abbrev pub StateFits : Option S → DecoderConfig → Type 0
  StateFits none c = Unit
  StateFits (some s) c =
      (channels s ≡ to_size c.channels) × (c.frame_samples * to_size c.channels < 2 ^ 64)

  abbrev pub Fits : Decoder S → Type 0
  Fits d = StateFits d.state d.config

  -- A decode path keeps the configuration and writes inside the frame.
  pub record InFrame (d : Decoder S) (pcm : List ℤ) (r : Decoded lib) : Type 0 where
    pub fits : Fits r.0
    pub config_eq : r.0.config ≡ d.config
    pub within : Within (needed d.config) pcm r.1

module _ {S : Type 0} (lib : DecoderLibrary S) (channels : S → ℕ) (k : Contract lib channels) where
  report-InFrame :
      (d : Decoder S) (s : S) (bytes : Option (List ℕ)) (pcm : List ℤ) (fec : Bool)
      (source : Source)
      → StateFits lib channels (some s) d.config
      → InFrame lib channels d pcm
          (report lib d pcm source (lib.decode s bytes d.config.frame_samples fec))
  unfolding report
  report-InFrame d s bytes pcm fec source (same, small) =
      let out = lib.decode s bytes d.config.frame_samples fec in
      let keeps : channels out.0 ≡ to_size d.config.channels =
        k.decode_keeps s bytes d.config.frame_samples fec ∙ same in
      let bound : length out.2 ≤ d.config.frame_samples * to_size d.config.channels =
        subst (λ c. length out.2 ≤ d.config.frame_samples * c) same
          (k.decode_writes s bytes d.config.frame_samples fec) in
      let ok : Within (needed d.config) pcm (copy_at pcm 0 out.2) =
        copy_at-Within (needed d.config) pcm out.2 (omega arith) in
      if_either (InFrame lib channels d pcm) (ltb_ℤ out.1 (pos 0))
        (λ _. record { fits = (keeps, small); config_eq = refl; within = ok })
        (λ _. record { fits = (keeps, small); config_eq = refl; within = ok })

  untouched :
      (d : Decoder S) (pcm : List ℤ) (r : Result)
      → Fits lib channels d
      → InFrame lib channels d pcm (d, pcm, r)
  untouched d pcm r fits = record { fits = fits; config_eq = refl; within = (refl, refl) }

  run_from-InFrame :
      (o : Option S) (d : Decoder S) (bytes : Option (List ℕ)) (pcm : List ℤ) (fec : Bool)
      (source : Source)
      → StateFits lib channels o d.config
      → Fits lib channels d
      → InFrame lib channels d pcm (run_from lib o d bytes pcm fec source)
  unfolding run_from
  run_from-InFrame none d bytes pcm fec source here fits = untouched d pcm _ fits
  run_from-InFrame (some s) d bytes pcm fec source here fits =
      if_either (InFrame lib channels d pcm) (ltb (length pcm) (needed d.config))
        (λ _. untouched d pcm _ fits) (λ _. report-InFrame d s bytes pcm fec source here)

  run_decode-InFrame :
      (d : Decoder S) (bytes : Option (List ℕ)) (pcm : List ℤ) (fec : Bool) (source : Source)
      → Fits lib channels d
      → InFrame lib channels d pcm (run_decode lib d bytes pcm fec source)
  unfolding run_decode
  run_decode-InFrame d bytes pcm fec source fits =
      run_from-InFrame d.state d bytes pcm fec source fits fits

  pub decode-InFrame :
      (d : Decoder S) (bytes : List ℕ) (pcm : List ℤ)
      → Fits lib channels d
      → InFrame lib channels d pcm (decode lib d bytes pcm)
  unfolding decode
  decode-InFrame d bytes pcm fits =
      if_either (InFrame lib channels d pcm) (length bytes == 0) (λ _. untouched d pcm _ fits)
        (λ _. run_decode-InFrame d (some bytes) pcm false packet fits)

  pub conceal-InFrame :
      (d : Decoder S) (pcm : List ℤ)
      → Fits lib channels d
      → InFrame lib channels d pcm (conceal lib d pcm)
  unfolding conceal
  conceal-InFrame d pcm fits = run_decode-InFrame d none pcm false concealment fits

  pub recover_previous-InFrame :
      (d : Decoder S) (bytes : List ℕ) (pcm : List ℤ)
      → Fits lib channels d
      → InFrame lib channels d pcm (recover_previous lib d bytes pcm)
  unfolding recover_previous
  recover_previous-InFrame d bytes pcm fits =
      if_either (InFrame lib channels d pcm) (length bytes == 0) (λ _. untouched d pcm _ fits)
        (λ _. run_decode-InFrame d (some bytes) pcm true forward_correction fits)

  reset_from-Fits :
      (o : Option S) (d : Decoder S)
      → StateFits lib channels o d.config
      → Fits lib channels d
      → Fits lib channels (reset_from lib o d).0 × ((reset_from lib o d).0.config ≡ d.config)
  unfolding reset_from
  reset_from-Fits none d here fits = (fits, refl)
  reset_from-Fits (some s) d (same, small) fits =
      let Kept = λ (r : Decoder S × Bool). Fits lib channels r.0 × (r.0.config ≡ d.config) in
      if_either Kept (not (eq_ℤ (lib.reset s).1 (pos 0)))
        (λ _. ((k.reset_keeps s ∙ same, small), refl))
        (λ _. ((k.reset_keeps s ∙ same, small), refl))

  pub reset_state-Fits :
      (d : Decoder S)
      → Fits lib channels d
      → Fits lib channels (reset_state lib d).0 × ((reset_state lib d).0.config ≡ d.config)
  unfolding reset_state
  reset_state-Fits d fits = reset_from-Fits d.state d fits fits
