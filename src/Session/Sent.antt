-- ===== src/Session/Sent.antt =====
-- session.cpp: what one frame of a talkspurt leaves, and that such frames compose.
use full_duplex_radio.Prelude.{
  ℕ, ◌+◌, ◌*◌, ◌<◌, ◌≡◌, refl, sym, ap, subst, ◌∙◌, arith, List, [], ◌∷◌, ◌++◌, append-nil,
  append_assoc, length, length-append, Bool, true, false, if◌then◌else◌,
}
use full_duplex_radio.Prelude.Int.{ℤ}
use full_duplex_radio.Serial.{u32_mod, add32}
use full_duplex_radio.Clock.{samples_per_frame}
use full_duplex_radio.OpusCodec.Encoder.{EncoderLibrary}
use full_duplex_radio.Session.{Platform}
use full_duplex_radio.Session.Transmit.{
  Work, with_sender, fec_bits, start_flag, step_on, timed_encode, build, send_frame,
}
use full_duplex_radio.Session.Numbering.{
  IsNumbered, IsFit, Keeps, SameStream, Built, build-Built, timed_encode-Keeps,
}

-- The same numbering from equal starts.
renumber :
    (oob flags : ℕ) {i j q r t u : ℕ} (ds : List (List ℕ))
    → i ≡ j
    → q ≡ r
    → t ≡ u
    → IsNumbered oob flags i q t ds
    → IsNumbered oob flags j r u ds
renumber oob flags {i} {j} {q} {r} {t} {u} ds ei eq et n =
    subst (λ x. IsNumbered oob flags x r u ds) ei
      (subst (λ x. IsNumbered oob flags i x u ds) eq
        (subst (λ x. IsNumbered oob flags i q x ds) et n))

module _ {K A E : Type 0} (platform : Platform K A) (lib : EncoderLibrary E) (oob : ℕ) where
  -- `w'` follows from `w` by datagrams that carry on its numbering, and stands behind them.
  abbrev pub Follows : Work K A E → ℕ → Work K A E → Type 0
  Follows w flags w' =
      (ds : List (List ℕ)) × (w'.handed ≡ w.handed ++ ds)
      × IsNumbered oob flags w.sender.stream_id w.sender.sequence w.sender.timestamp ds
      × (w'.sender.sequence ≡ add32 w.sender.sequence (length ds))
      × (w'.sender.timestamp ≡ add32 w.sender.timestamp (samples_per_frame * length ds))

  pub kept-IsFit : (w w' : Work K A E) → Keeps w w' → IsFit w → IsFit w'
  kept-IsFit w w' k f = record {
    payload_size = k.payload_eq ∙ f.payload_size;
    datagram_size = k.datagram_eq ∙ f.datagram_size;
    stream_in = omega (arith, k.stream.stream_eq, f.stream_in);
    sequence_in = omega (arith, k.sequence_eq, f.sequence_in);
    timestamp_in = omega (arith, k.timestamp_eq, f.timestamp_in);
  }

  -- The end of `send_frame`.
  abbrev settled : Work K A E × Bool → Work K A E
  settled built = if built.1 then with_sender built.0 (step_on built.0.sender) else built.0

  -- What a frame leaves: the talkspurt as it was but for its numbers, and a datagram or none.
  abbrev pub Sent : Work K A E → ℕ → Work K A E → Type 0
  Sent w flags w' = IsFit w' × SameStream w.sender w'.sender × Follows w flags w'

  pub settled-Sent :
      (w : Work K A E) (flags : ℕ) (built : Work K A E × Bool)
      → IsFit w
      → Built platform lib oob w flags built
      → Sent w flags (settled built)
  settled-Sent w flags (w', true) f (k, (d, e, c)) =
      let g = kept-IsFit w w' k f in
      (
        record {
          payload_size = g.payload_size;
          datagram_size = g.datagram_size;
          stream_in = g.stream_in;
          sequence_in = omega arith;
          timestamp_in = omega arith;
        },
        record {
          stream_eq = k.stream.stream_eq;
          fec_eq = k.stream.fec_eq;
          open_eq = k.stream.open_eq;
          transmitting_eq = k.stream.transmitting_eq;
        },
        (
          d ∷ [],
          e,
          (c, tt),
          ap (λ n. add32 n 1) k.sequence_eq,
          ap (λ n. add32 n samples_per_frame) k.timestamp_eq,
        ),
      )
  settled-Sent w flags (w', false) f (k, e) = (
    kept-IsFit w w' k f,
    k.stream,
    (
      [],
      e ∙ sym (append-nil w.handed),
      tt,
      omega (arith, k.sequence_eq, f.sequence_in),
      omega (arith, k.timestamp_eq, f.timestamp_in),
    ),
  )

  -- `Follows` from a state with the same numbers and datagrams.
  pub Sent-from :
      (w u w' : Work K A E) (flags : ℕ)
      → Keeps w u
      → u.handed ≡ w.handed
      → Sent u flags w'
      → Sent w flags w'
  Sent-from w u w' flags k e (f, same, (ds, h, n, q, t)) = (
    f,
    record {
      stream_eq = same.stream_eq ∙ k.stream.stream_eq;
      fec_eq = same.fec_eq ∙ k.stream.fec_eq;
      open_eq = same.open_eq ∙ k.stream.open_eq;
      transmitting_eq = same.transmitting_eq ∙ k.stream.transmitting_eq;
    },
    (
      ds,
      h ∙ ap (λ l. l ++ ds) e,
      renumber oob flags ds k.stream.stream_eq k.sequence_eq k.timestamp_eq n,
      q ∙ ap (λ i. add32 i (length ds)) k.sequence_eq,
      t ∙ ap (λ i. add32 i (samples_per_frame * length ds)) k.timestamp_eq,
    ),
  )

  pub send_frame-Sent :
      (w : Work K A E) (frame : List ℤ) (first : Bool)
      → IsFit w
      → Sent w
          ((if first then start_flag else 0) + fec_bits w.sender)
          (send_frame platform lib w frame first)
  unfolding send_frame
  send_frame-Sent w frame first f =
      let flags = (if first then start_flag else 0) + fec_bits w.sender in
      let timed = timed_encode platform lib w frame in
      let (k, e) = timed_encode-Keeps platform lib oob w frame in
      let g = kept-IsFit w timed.0 k f in
      let built = build platform lib timed flags in
      Sent-from w timed.0 _ flags k e (
        settled-Sent timed.0 flags built g
          (build-Built platform lib oob timed.0 timed.1 flags g (ground arith)))

  IsNumbered-append :
      (flags stream sequence timestamp : ℕ) (ds es : List (List ℕ))
      → sequence < u32_mod
      → timestamp < u32_mod
      → IsNumbered oob flags stream sequence timestamp ds
      → IsNumbered oob flags stream
          (add32 sequence (length ds))
          (add32 timestamp (samples_per_frame * length ds))
          es
      → IsNumbered oob flags stream sequence timestamp (ds ++ es)
  IsNumbered-append flags stream q t [] es hq ht n m =
      renumber oob flags es refl (omega (arith, hq)) (omega (arith, ht)) m
  IsNumbered-append flags stream q t (d ∷ ds) es hq ht (c, n) m =
      let q1 = add32 q 1 in
      let t1 = add32 t samples_per_frame in
      (
        c,
        IsNumbered-append flags stream q1 t1 ds es (omega arith) (omega arith) n
            (renumber oob flags es refl (omega arith) (omega arith) m),
      )

  pub Sent-trans :
      (u v w : Work K A E) (flags : ℕ) → IsFit u → Sent u flags v → Sent v flags w → Sent u flags w
  Sent-trans u v w flags f (g, same, (ds, h, n, q, t)) (f', same', (es, h', n', q', t')) = (
    f',
    record {
      stream_eq = same'.stream_eq ∙ same.stream_eq;
      fec_eq = same'.fec_eq ∙ same.fec_eq;
      open_eq = same'.open_eq ∙ same.open_eq;
      transmitting_eq = same'.transmitting_eq ∙ same.transmitting_eq;
    },
    (
      ds ++ es,
      h' ∙ ap (λ l. l ++ es) h ∙ append_assoc u.handed ds es,
      IsNumbered-append flags u.sender.stream_id u.sender.sequence u.sender.timestamp ds es
          f.sequence_in f.timestamp_in n (renumber oob flags es same.stream_eq q t n'),
      omega (arith, q, q', length-append ds es),
      omega (arith, t, t', length-append ds es),
    ),
  )
