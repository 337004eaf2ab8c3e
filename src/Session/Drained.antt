-- ===== src/Session/Drained.antt =====
-- session.cpp: the loop of `receive_available` ends when the socket is empty.
use full_duplex_radio.Prelude.{
  ℕ, zero, suc, ◌≤◌, ◌<◌, ◌≡◌, refl, arith, List, not, ◌==◌, if_either, some, Option-cases, inl,
  inr, copy_at, replicate, take, ◌+◌,
}
use full_duplex_radio.Proto.{
  MediaPacket, ControlPacket, accepted, peek_type, parse_control, parse_media, ping, pong, audio,
  control_header_size, pong_body_size,
}
use full_duplex_radio.Prober.{encode_pong_for}
use full_duplex_radio.Floats.{Floats}
use full_duplex_radio.Session.{Platform, Received, inc64}
use full_duplex_radio.Session.Receive.{
  Receiver, follow_stream, observe_media, take_media, dispatch, receive, receive_available,
  answer_ping,
}

-- How many datagrams are waiting: a receive takes one, finds none only where there is none, and
-- neither the clock nor a send brings one.
pub record Pending {K A : Type 0} (platform : Platform K A) (pending : K → ℕ) : Type 0 where
  pub takes :
      (w : K) (d : Received A)
      → (platform.recv_from w).1 ≡ some d
      → pending (platform.recv_from w).0 < pending w
  pub now_keeps : (w : K) → pending (platform.now_us w).0 ≤ pending w
  pub send_keeps :
      (w : K) (to : A) (bytes : List ℕ) → pending (platform.send_to w to bytes).0 ≤ pending w

module _ {K A F : Type 0} (platform : Platform K A) (fl : Floats F) (oob : ℕ) (pending : K → ℕ)
    (k : Pending platform pending) where
  abbrev Fewer : ℕ → Receiver K A F → Type 0
  Fewer n r = pending r.world ≤ n

  answer_ping-Fewer :
      (r : Receiver K A F) (packet : ControlPacket) (from : A) (t2 : ℕ)
      → Fewer (pending r.world) (answer_ping platform fl oob r packet from t2)
  unfolding answer_ping
  answer_ping-Fewer r packet from t2 =
      let w1 = (platform.now_us r.world).0 in
      let encoded =
        encode_pong_for packet t2 (platform.now_us r.world).1
          (replicate (control_header_size + pong_body_size) 0) in
      let bytes = take encoded.1 encoded.0 in
      let sent : pending (platform.send_to w1 from bytes).0 ≤ pending r.world =
        omega (arith, k.now_keeps r.world, k.send_keeps w1 from bytes) in
      if_either (Fewer (pending r.world)) (encoded.1 == 0) (λ _. k.now_keeps r.world) (λ _. sent)

  take_media-Fewer :
      (r : Receiver K A F) (packet : MediaPacket) (size arrival_us : ℕ)
      → Fewer (pending r.world) (take_media platform fl oob r packet size arrival_us)
  unfolding take_media observe_media follow_stream
  take_media-Fewer r packet size arrival_us = ground arith

  dispatch-Fewer :
      (r : Receiver K A F) (view : List ℕ) (from : A) (arrival_us : ℕ)
      → Fewer (pending r.world) (dispatch platform fl oob r view from arrival_us)
  unfolding dispatch
  dispatch-Fewer r view from arrival_us =
      let Right = Fewer (pending r.world) in
      let kind = peek_type oob view in
      let control = parse_control oob view in
      let media = parse_media oob view in
      if_either Right (not (accepted kind.reject)) (λ _. omega arith)
        (λ _.
          if_either Right (kind.value == pong)
            (λ _.
              if_either Right (not (accepted control.reject)) (λ _. omega arith) (λ _. omega arith))
            (λ _.
              if_either Right (kind.value == ping)
                (λ _.
                  if_either Right (not (accepted control.reject)) (λ _. omega arith)
                    (λ _. answer_ping-Fewer r control.value from arrival_us))
                (λ _.
                  if_either Right (not (kind.value == audio)) (λ _. omega arith)
                    (λ _.
                      if_either Right (not (accepted media.reject)) (λ _. omega arith)
                        (λ _. take_media-Fewer r media.value _ arrival_us)))))

  -- With more fuel than datagrams are waiting, the loop ends with a result: it stops when the socket
  -- is empty.
  pub receive_available_returns :
      (fuel : ℕ) (r : Receiver K A F)
      → pending r.world < fuel
      → (r' : Receiver K A F) × (receive_available platform fl oob fuel r ≡ some r')
  unfolding receive_available receive
  receive_available_returns zero r h = absurd (omega arith)
  receive_available_returns (suc fuel) r h = elim (Option-cases (platform.recv_from r.world).1) [
    | inl e ↦ rw (e, receive_available) (_, refl)
    | inr (d, e) ↦
        (let got = platform.recv_from r.world in
          let r1 = record r { world = got.0 } in
          let kept =
            dispatch-Fewer
              (record r1 {
                scratch = copy_at r1.scratch 0 d.bytes;
                datagrams_received = inc64 r1.datagrams_received;
              })
              d.bytes d.from d.arrival_us in
          let next =
            receive_available_returns fuel (receive platform fl oob r1 d)
              (omega (arith, kept, k.takes r.world d e, h)) in
          rw (e, receive_available) next)
  ]
