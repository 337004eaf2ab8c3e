-- ===== src/Pacer/Tests.antt =====
-- The theorems on the departure clock at a pacer of 20 ms.
use full_duplex_radio.Prelude.{ℕ, ◌≡◌, ◌*◌, ◌+◌, arith, refl, [], ◌∷◌, length, true}
use full_duplex_radio.Pacer.{Pacer, make, start}
use full_duplex_radio.Pacer.Laws.{serve, serve_grid}

abbrev running : Pacer
running = record {
  interval = 20000;
  max_catchup = 40000;
  next = 1000;
  resyncs = 0;
  departures = 0;
  started = true;
}

made_running : start (make 20000 0) 1000 ≡ running
unfolding start make
made_running = refl

serve_grid_example :
    (serve running (1500 ∷ 60000 ∷ 41001 ∷ [])).next
    ≡ running.next + length {A = ℕ} (1500 ∷ 60000 ∷ 41001 ∷ []) * running.interval
serve_grid_example =
    serve_grid running (1500 ∷ 60000 ∷ 41001 ∷ []) refl (omega arith)
      (omega arith, (omega arith, (omega arith, tt)))
