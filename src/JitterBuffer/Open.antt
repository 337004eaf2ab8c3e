-- ===== src/JitterBuffer/Open.antt =====
-- jitter_buffer.cpp, `open`: it succeeds exactly when the decoder does, and sizes the frame to it.
use full_duplex_radio.Prelude.{
  ℕ, ◌*◌, ◌/◌, ◌%◌, ◌^◌, ◌≤◌, ◌<◌, ◌≡◌, ◌⊎◌, refl, sym, ap, subst, ◌∙◌, arith, Bool, true, false,
  not, ◌&&◌, ◌||◌, ◌==◌, if_either, Option, none, some, inl, inr,
}
use full_duplex_radio.Prelude.Int.{ℤ, pos, negsuc, eq_ℤ}
use native.Mathlib.Nat.{mul-le-mul}
use full_duplex_radio.Clock.{us_to_samples}
use full_duplex_radio.ReorderQueue.Consume.{to_size}
use full_duplex_radio.OpusCodec.{
  DecoderLibrary, DecoderConfig, Decoder, needed, is_open, accept, open_decoder,
  is_valid_frame_samples,
}
use full_duplex_radio.OpusCodec.Contract.{Contract, StateFits}
use full_duplex_radio.OpusCodec.Frames.{Lasts, lasts_lem, samples_bound, frame_us_bounds}
use full_duplex_radio.JitterBuffer.{Config, JitterBuffer, close_buffer, size_frames, open_buffer}
use full_duplex_radio.JitterBuffer.Frame.{IsSized}

double_negation : (b : Bool) → not b ≡ false → b ≡ true
double_negation true h = refl
double_negation false h = absurd (cc h)

not_zero : (a b : ℕ) → 0 < a → 0 < b → (a == 0 || b == 0) ≡ false
not_zero a b h h' = ground arith

negation : (b : Bool) → not b ≡ true → b ≡ false
negation true h = absurd (cc h)
negation false h = refl

module _ {S : Type 0} (lib : DecoderLibrary S) where
  -- An open decoder for the configuration.
  pub record OpenFor (c : DecoderConfig) (r : Decoder S × Bool) : Type 0 where
    pub on : r.1 ≡ true
    pub config_eq : r.0.config ≡ c
    pub state : S
    pub state_eq : r.0.state ≡ some state
    pub created : (lib.create c.rate_hz c.channels).0 ≡ some state
    pub few_channels : to_size c.channels ≤ 2
    pub valid : is_valid_frame_samples c.rate_hz c.frame_samples ≡ true

  -- What an attempt to open a decoder gives: a closed one and a failure, or an open one.
  abbrev pub Opened : DecoderConfig → Decoder S × Bool → Type 0
  Opened c r = ((r.1 ≡ false) × (is_open r.0 ≡ false)) ⊎ OpenFor c r

  accept-Opened :
      (d : Decoder S) (c : DecoderConfig) (made : Option S × ℤ)
      → lib.create c.rate_hz c.channels ≡ made
      → to_size c.channels ≤ 2
      → is_valid_frame_samples c.rate_hz c.frame_samples ≡ true
      → Opened c (accept lib d c made)
  unfolding accept
  accept-Opened d c (none, e) eq ch v = inl (refl, refl)
  accept-Opened d c (some s, e) eq ch v =
      if_either (Opened c) (not (eq_ℤ e (pos 0))) (λ _. inl (refl, refl))
        (λ _. inr (record {
          on = refl;
          config_eq = refl;
          state = s;
          state_eq = refl;
          created = ap (λ m. m.0) eq;
          few_channels = ch;
          valid = v;
        }))

  one_or_two : (c : ℤ) → (not (eq_ℤ c (pos 1)) && not (eq_ℤ c (pos 2))) ≡ false → to_size c ≤ 2
  one_or_two (pos n) h = ground arith
  one_or_two (negsuc n) h = ground arith

  pub open_decoder-Opened : (d : Decoder S) (c : DecoderConfig) → Opened c (open_decoder lib d c)
  unfolding open_decoder
  open_decoder-Opened d c =
      if_either (Opened c) (not (eq_ℤ c.channels (pos 1)) && not (eq_ℤ c.channels (pos 2)))
        (λ _. inl (refl, refl))
        (λ few.
          if_either (Opened c) (not (is_valid_frame_samples c.rate_hz c.frame_samples))
            (λ _. inl (refl, refl))
            (λ v.
              accept-Opened d c (lib.create c.rate_hz c.channels) refl (one_or_two c.channels few)
                (double_negation _ v)))

  is_open-Opened : (c : DecoderConfig) (r : Decoder S × Bool) → Opened c r → is_open r.0 ≡ r.1
  is_open-Opened c r (inl (off, shut)) = shut ∙ sym off
  is_open-Opened c r (inr o) =
      ap (λ s. is_open (record { state = s; config = c; last_error = pos 0 })) o.state_eq ∙ sym o.on

  is_valid_frame_samples-Opened :
      (c : DecoderConfig) (r : Decoder S × Bool)
      → Opened c r
      → r.1 ≡ true
      → is_valid_frame_samples c.rate_hz c.frame_samples ≡ true
  is_valid_frame_samples-Opened c r (inl (off, shut)) on = absurd (cc (off, on))
  is_valid_frame_samples-Opened c r (inr o) on = o.valid

  module _ (jb : JitterBuffer S) (config : Config) (h : config.decoder.rate_hz < 2 ^ 32)
      (k : Lasts config.decoder.rate_hz config.decoder.frame_samples) where
    sized_bounds :
        (1250 ≤ (size_frames lib jb config).frame_us)
        × ((size_frames lib jb config).frame_us ≤ 60000)
    unfolding size_frames
    sized_bounds =
        let c = config.decoder in
        let b = frame_us_bounds c.rate_hz c.frame_samples k in
        let us : c.frame_samples * 1000000 % 2 ^ 64 / c.rate_hz
            ≡ c.frame_samples * 1000000 / c.rate_hz =
          ap (λ n. n / c.rate_hz) (omega (arith, samples_bound c.rate_hz c.frame_samples h k)) in
        (omega (arith, us, b.0), omega (arith, us, b.1))

    sized_ts :
        (size_frames lib jb config).frame_ts
        ≡ us_to_samples (size_frames lib jb config).frame_us % 2 ^ 32
    unfolding size_frames
    sized_ts = refl

    ts_of : (us : ℕ) → 1250 ≤ us → us ≤ 60000 → 0 < us_to_samples us % 2 ^ 32
    unfolding us_to_samples
    ts_of us h0 h1 = omega arith

    -- What `open` derives from an accepted configuration is not zero.
    sized_lem :
        ((size_frames lib jb config).frame_us == 0 || (size_frames lib jb config).frame_ts == 0)
        ≡ false
    sized_lem =
        not_zero (size_frames lib jb config).frame_us (size_frames lib jb config).frame_ts
          (omega (arith, sized_bounds.0))
          (omega (
            arith,
            sized_ts,
            ts_of (size_frames lib jb config).frame_us sized_bounds.0 sized_bounds.1,
          ))

  closed_us : (jb : JitterBuffer S) → (close_buffer lib jb).frame_us ≡ 20000
  unfolding close_buffer
  closed_us jb = refl

  -- For a 32-bit rate, `open` succeeds exactly when the decoder opens: the check for a zero duration
  -- never fires. The decoder is open exactly then, and on every path a frame lasts 1.25 to 60
  -- milliseconds.
  pub open_buffer_lem :
      (jb : JitterBuffer S) (config : Config)
      → config.decoder.rate_hz < 2 ^ 32
      → let (jb', done) = open_buffer lib jb config in
        (done ≡ (open_decoder lib (close_buffer lib jb).decoder config.decoder).1)
        × (is_open jb'.decoder ≡ done)
        × (1250 ≤ jb'.frame_us)
        × (jb'.frame_us ≤ 60000)
  unfolding open_buffer
  open_buffer_lem jb config h =
      let closed = close_buffer lib jb in
      let opened = open_decoder lib closed.decoder config.decoder in
      let sized = size_frames lib (record closed { decoder = opened.0 }) config in
      let result = open_decoder-Opened closed.decoder config.decoder in
      let Right = λ (r : JitterBuffer S × Bool).
        (r.1 ≡ opened.1)
        × (is_open r.0.decoder ≡ r.1)
        × (1250 ≤ r.0.frame_us)
        × (r.0.frame_us ≤ 60000) in
      if_either Right (not opened.1)
        (λ e. (
          sym (negation _ e),
          is_open-Opened config.decoder opened result ∙ negation _ e,
          omega (arith, closed_us jb),
          omega (arith, closed_us jb),
        ))
        (λ e.
          let k =
            lasts_lem config.decoder.rate_hz config.decoder.frame_samples h
              (is_valid_frame_samples-Opened config.decoder opened result (double_negation _ e)) in
          if_either Right (sized.frame_us == 0 || sized.frame_ts == 0)
            (λ z. absurd (cc (z, sized_lem (record closed { decoder = opened.0 }) config h k)))
            (λ _. (
              sym (double_negation _ e),
              is_open-Opened config.decoder opened result ∙ double_negation _ e,
              (sized_bounds (record closed { decoder = opened.0 }) config h k).0,
              (sized_bounds (record closed { decoder = opened.0 }) config h k).1,
            )))

module _ {S : Type 0} (lib : DecoderLibrary S) (channels : S → ℕ) (k : Contract lib channels) where
  -- The decoder has a state with the channels asked for, and a frame is what it asks room for.
  pub record IsOpenFor (config : Config) (jb : JitterBuffer S) : Type 0 where
    pub state : S
    pub state_eq : jb.decoder.state ≡ some state
    pub channels_eq : channels state ≡ to_size config.decoder.channels
    pub config_eq : jb.decoder.config ≡ config.decoder
    pub frame_eq : jb.frame_pcm ≡ config.decoder.frame_samples * to_size config.decoder.channels
    pub room : jb.frame_pcm ≤ 2 ^ 30

  OpenFor-IsOpenFor :
      (jb : JitterBuffer S) (config : Config) (r : Decoder S × Bool)
      → OpenFor lib config.decoder r
      → config.decoder.rate_hz < 2 ^ 32
      → IsOpenFor config (size_frames lib (record jb { decoder = r.0 }) config)
  unfolding size_frames
  OpenFor-IsOpenFor jb config r o h =
      let c = config.decoder in
      let small =
        samples_bound c.rate_hz c.frame_samples h (lasts_lem c.rate_hz c.frame_samples h o.valid) in
      let few : c.frame_samples ≤ 536870912 = omega (arith, small) in
      let room : c.frame_samples * to_size c.channels ≤ 536870912 * 2 =
        mul-le-mul few o.few_channels in
      record {
        state = o.state;
        state_eq = o.state_eq;
        channels_eq = k.create_keeps c.rate_hz c.channels o.state o.created;
        config_eq = o.config_eq;
        frame_eq = omega (arith, room);
        room = omega (arith, room);
      }

  -- After a successful `open` at a 32-bit rate, under the contract of the decoder, the decoder is
  -- open: it has a state with as many channels as the configuration asks for, and that
  -- configuration. A frame of the buffer has the configuration's samples for each of its channels,
  -- without a wrap, and at most 2^30.
  pub open_buffer-IsOpenFor :
      (jb : JitterBuffer S) (config : Config)
      → config.decoder.rate_hz < 2 ^ 32
      → (open_buffer lib jb config).1 ≡ true
      → IsOpenFor config (open_buffer lib jb config).0
  unfolding open_buffer
  open_buffer-IsOpenFor jb config h =
      let closed = close_buffer lib jb in
      let opened = open_decoder lib closed.decoder config.decoder in
      let sized = size_frames lib (record closed { decoder = opened.0 }) config in
      let Right = λ (r : JitterBuffer S × Bool). r.1 ≡ true → IsOpenFor config r.0 in
      if_either Right (not opened.1) (λ _ t. absurd (cc t))
        (λ e.
          if_either Right (sized.frame_us == 0 || sized.frame_ts == 0) (λ _ t. absurd (cc t))
            (λ _ _. elim (open_decoder-Opened lib closed.decoder config.decoder) [
              | inl (off, _) ↦ absurd (cc (off, e))
              | inr o ↦ OpenFor-IsOpenFor closed config opened o h
            ]))

  -- Such a buffer has the sizes that `pull` keeps.
  pub IsOpenFor-IsSized :
      (jb : JitterBuffer S) (config : Config) → IsOpenFor config jb → IsSized lib channels jb
  IsOpenFor-IsSized jb config o =
      let c = config.decoder in
      let fits : StateFits lib channels (some o.state) c =
        (o.channels_eq, omega (arith, o.frame_eq, o.room)) in
      (
        subst (λ s. StateFits lib channels s jb.decoder.config) (sym o.state_eq)
            (subst (λ c'. StateFits lib channels (some o.state) c') (sym o.config_eq) fits),
        omega (arith, o.frame_eq, o.room) ∙ ap needed (sym o.config_eq),
      )
