-- ===== src/Prober/Tests.antt =====
-- The ledger of the prober over a probe that is sent, one that times out, and a stray reply.
use full_duplex_radio.Prelude.{refl, List, [], ◌∷◌, replicate}
use full_duplex_radio.Proto.{ControlPacket}
use full_duplex_radio.Prober.{default_config, new, count_outstanding}
use full_duplex_radio.Prober.Ledger.{
  Call, start_call, due_probe_call, on_pong_call, expire_call, run, run-IsBalanced, IsBalanced,
}

abbrev stray : ControlPacket
stray = record {
  header = record { type = 17; flags = 0; request_id = 9; send_time_us = 5 };
  body = [];
}

abbrev calls : List Call
calls =
    start_call default_config 0
    ∷ due_probe_call 0 (replicate 16 0)
    ∷ on_pong_call stray 50
    ∷ due_probe_call 200000 (replicate 16 0)
    ∷ expire_call 1000001
    ∷ []

new-IsBalanced : IsBalanced new
unfolding count_outstanding
new-IsBalanced = refl

run-IsBalanced_example : IsBalanced (run 0 calls new)
run-IsBalanced_example = run-IsBalanced 0 calls new new-IsBalanced
