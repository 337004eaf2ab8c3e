-- ===== src/Session/Numbering.antt =====
-- session.cpp: the numbering of the packets of a talkspurt, as the receiver's parser reads it.
use full_duplex_radio.Prelude.{
  ℕ, ◌+◌, ◌*◌, ◌^◌, ◌≤◌, ◌<◌, ◌≡◌, refl, ◌∙◌, arith, List, [], ◌∷◌, ◌++◌, take, drop, length,
  length-take, length-drop, length-copy_at, length-append, Bool, true, false, not, ◌⊎◌, inl, inr,
  Option-cases, ◌%◌, if_either, ◌==◌, dec_lt,
}
use full_duplex_radio.Prelude.Int.{ℤ, pos, eq_ℤ, ltb_ℤ}
use full_duplex_radio.Serial.{u32_mod, add32}
use full_duplex_radio.Clock.{samples_per_frame}
use full_duplex_radio.Proto.{MediaHeader, parse_media, good, encode_media, max_datagram}
use full_duplex_radio.Proto.Encode.{encode_media_fits, encode_media_refuses}
use full_duplex_radio.Proto.RoundTrip.{parse-encode_media}
use full_duplex_radio.ReorderQueue.Consume.{to_size}
use full_duplex_radio.OpusCodec.Encoder.{EncoderLibrary, Encoder, Result, encode, report}
use full_duplex_radio.Session.{Platform, max_payload}
use full_duplex_radio.Session.Transmit.{
  Sender, Work, next_header, timed_encode, hand_over, build, count_encode_failed,
}

-- The datagram is a media packet with this header and some payload.
abbrev pub Carries : ℕ → MediaHeader → List ℕ → Type 0
Carries oob header d =
    (payload : List ℕ) × (parse_media oob d ≡ good (record { header = header; payload = payload }))

-- The datagrams are packets of one stream with the same flags, numbered one by one from the given
-- sequence number and timed 960 samples apart from the given timestamp.
abbrev pub IsNumbered : ℕ → ℕ → ℕ → ℕ → ℕ → List (List ℕ) → Type 0
IsNumbered oob flags stream sequence timestamp [] = Unit {0}
IsNumbered oob flags stream sequence timestamp (d ∷ ds) =
    Carries oob
      (record { flags = flags; stream_id = stream; sequence = sequence; timestamp = timestamp }) d
    × IsNumbered oob flags stream (add32 sequence 1) (add32 timestamp samples_per_frame) ds

-- What the talkspurt is, but for its numbers.
pub record SameStream {A E : Type 0} (s s' : Sender A E) : Type 0 where
  pub stream_eq : s'.stream_id ≡ s.stream_id
  pub fec_eq : s'.fec ≡ s.fec
  pub open_eq : s'.talkspurt_open ≡ s.talkspurt_open
  pub transmitting_eq : s'.transmitting ≡ s.transmitting

module _ {K A E : Type 0} where
  -- The local buffers have their sizes, and the numbers are uint32_t values.
  pub record IsFit (w : Work K A E) : Type 0 where
    pub payload_size : length w.payload ≡ max_payload
    pub datagram_size : length w.datagram ≡ max_datagram
    pub stream_in : w.sender.stream_id < u32_mod
    pub sequence_in : w.sender.sequence < u32_mod
    pub timestamp_in : w.sender.timestamp < u32_mod

  -- The encoder and the socket leave the numbers, and the sizes of the buffers.
  pub record Keeps (w w' : Work K A E) : Type 0 where
    pub stream : SameStream w.sender w'.sender
    pub sequence_eq : w'.sender.sequence ≡ w.sender.sequence
    pub timestamp_eq : w'.sender.timestamp ≡ w.sender.timestamp
    pub payload_eq : length w'.payload ≡ length w.payload
    pub datagram_eq : length w'.datagram ≡ length w.datagram

-- `encode_media` refuses, or the packet has a payload and fits.
encode_media_cases :
    (h : MediaHeader) (p out : List ℕ)
    → length p < 2 ^ 63
    → (encode_media h p out ≡ (out, 0))
      ⊎ ((0 < length p) × (16 + length p ≤ max_datagram) × (16 + length p ≤ length out))
encode_media_cases h p out small = elim (dec_lt 0 (length p)) [
  | no e ↦ inl (encode_media_refuses h p out small (inl (omega arith)))
  | yes some_bytes ↦ elim (dec_lt max_datagram (16 + length p)) [
    | yes large ↦ inl (encode_media_refuses h p out small (inr (inl large)))
    | no in_limit ↦ elim (dec_lt (length out) (16 + length p)) [
      | yes short ↦ inl (encode_media_refuses h p out small (inr (inr short)))
      | no in_room ↦ inr (some_bytes, omega arith, omega arith)
    ]
  ]
]

length-encode_media :
    (h : MediaHeader) (p out : List ℕ)
    → length p < 2 ^ 63
    → length (encode_media h p out).0 ≡ length out
length-encode_media h p out small = elim (encode_media_cases h p out small) [
  | inl e ↦ rw e refl
  | inr (some_bytes, in_limit, in_room) ↦
      rw (encode_media_fits h p out some_bytes in_limit in_room)
        (omega (arith, length-append p (drop (16 + length p) out), length-drop (16 + length p) out))
]

module _ {K A E : Type 0} (platform : Platform K A) (lib : EncoderLibrary E) (oob : ℕ) where
  length-report :
      (e : Encoder E) (out : List ℕ) (r : E × ℤ × List ℕ)
      → length (report lib e out r).1 ≡ length out
  unfolding report
  length-report e out (s, count, written) =
      if_either (λ (r : Encoder E × List ℕ × Result). length r.1 ≡ length out) (ltb_ℤ count (pos 0))
        (λ _. length-copy_at out written) (λ _. length-copy_at out written)

  length-encode :
      (e : Encoder E) (pcm : List ℤ) (out : List ℕ) → length (encode lib e pcm out).1 ≡ length out
  unfolding encode
  length-encode e pcm out = elim (Option-cases e.state) [
    | inl h ↦ rw h refl
    | inr (s, h) ↦ rw h (
        if_either (λ (r : Encoder E × List ℕ × Result). length r.1 ≡ length out)
          (not (length pcm == e.config.frame_samples * to_size e.config.channels % 2 ^ 64))
          (λ _. refl)
          (λ _.
            if_either (λ (r : Encoder E × List ℕ × Result). length r.1 ≡ length out)
              (length out == 0) (λ _. refl)
              (λ _. length-report e out (lib.encode s pcm e.config.frame_samples (length out)))))
  ]

  pub timed_encode-Keeps :
      (w : Work K A E) (frame : List ℤ)
      → let t = timed_encode platform lib w frame in Keeps w t.0 × (t.0.handed ≡ w.handed)
  unfolding timed_encode
  timed_encode-Keeps w frame = (
    record {
      stream = record { stream_eq = refl; fec_eq = refl; open_eq = refl; transmitting_eq = refl };
      sequence_eq = refl;
      timestamp_eq = refl;
      payload_eq = length-encode w.sender.encoder frame w.payload;
      datagram_eq = refl;
    },
    refl,
  )

  pub count_encode_failed-Keeps : (w : Work K A E) → Keeps w (count_encode_failed w)
  count_encode_failed-Keeps w = record {
    stream = record { stream_eq = refl; fec_eq = refl; open_eq = refl; transmitting_eq = refl };
    sequence_eq = refl;
    timestamp_eq = refl;
    payload_eq = refl;
    datagram_eq = refl;
  }

  hand_over-Keeps :
      (w : Work K A E) (n : ℕ)
      → let w' = hand_over platform lib w n in
        Keeps w w' × (w'.handed ≡ w.handed ++ take n w.datagram ∷ [])
  unfolding hand_over
  hand_over-Keeps w n = (
    record {
      stream = record {
        stream_eq = ground arith;
        fec_eq = ground arith;
        open_eq = ground arith;
        transmitting_eq = ground arith;
      };
      sequence_eq = ground arith;
      timestamp_eq = ground arith;
      payload_eq = refl;
      datagram_eq = refl;
    },
    refl,
  )

  -- The datagram buffer after `encode_media`.
  written-Keeps :
      (w : Work K A E) (h : MediaHeader) (n : ℕ)
      → IsFit w
      → Keeps w (record w { datagram = (encode_media h (take n w.payload) w.datagram).0 })
  written-Keeps w h n fit = record {
    stream = record { stream_eq = refl; fec_eq = refl; open_eq = refl; transmitting_eq = refl };
    sequence_eq = refl;
    timestamp_eq = refl;
    payload_eq = refl;
    datagram_eq =
        length-encode_media h (take n w.payload) w.datagram
          (omega (arith, length-take n w.payload, fit.payload_size));
  }

  pub Keeps-trans : (u v w : Work K A E) → Keeps u v → Keeps v w → Keeps u w
  Keeps-trans u v w h k = record {
    stream = record {
      stream_eq = k.stream.stream_eq ∙ h.stream.stream_eq;
      fec_eq = k.stream.fec_eq ∙ h.stream.fec_eq;
      open_eq = k.stream.open_eq ∙ h.stream.open_eq;
      transmitting_eq = k.stream.transmitting_eq ∙ h.stream.transmitting_eq;
    };
    sequence_eq = k.sequence_eq ∙ h.sequence_eq;
    timestamp_eq = k.timestamp_eq ∙ h.timestamp_eq;
    payload_eq = k.payload_eq ∙ h.payload_eq;
    datagram_eq = k.datagram_eq ∙ h.datagram_eq;
  }

  -- What `build` leaves: one datagram more, which carries the header, or none.
  abbrev pub Built : Work K A E → ℕ → Work K A E × Bool → Type 0
  Built w flags (w', true) =
      Keeps w w'
      × ((d : List ℕ) × (w'.handed ≡ w.handed ++ d ∷ [])
          × Carries oob (next_header w.sender flags) d)
  Built w flags (w', false) = Keeps w w' × (w'.handed ≡ w.handed)

  pub build-Built :
      (w : Work K A E) (result : Result) (flags : ℕ)
      → IsFit w
      → flags < 16
      → Built w flags (build platform lib (w, result) flags)
  unfolding build
  build-Built w result flags fit small =
      let p = take result.bytes w.payload in
      let h = next_header w.sender flags in
      let m = encode_media h p w.datagram in
      let u = record w { datagram = m.0 } in
      let k = written-Keeps w h result.bytes fit in
      let size : length p ≤ max_payload =
        omega (arith, length-take result.bytes w.payload, fit.payload_size) in
      if_either (Built w flags) (not (eq_ℤ result.error (pos 0)))
        (λ _. (count_encode_failed-Keeps w, refl))
        (λ _.
          if_either (Built w flags) (m.1 == 0)
            (λ _. (Keeps-trans w u _ k (count_encode_failed-Keeps u), refl))
            (λ some_written. elim (encode_media_cases h p w.datagram (omega (arith, size))) [
              | inl e ↦ absurd (ground (arith, e, some_written))
              | inr (some_bytes, in_limit, in_room) ↦
                  (let (_, parsed, _) =
                      parse-encode_media oob h p w.datagram
                        (record {
                          flags_in = small;
                          stream_in = fit.stream_in;
                          sequence_in = fit.sequence_in;
                          timestamp_in = fit.timestamp_in;
                        })
                        some_bytes in_limit in_room in
                    let (l, e) = hand_over-Keeps u m.1 in
                    (Keeps-trans w u _ k l, (take m.1 m.0, e, (p, parsed))))
            ]))
