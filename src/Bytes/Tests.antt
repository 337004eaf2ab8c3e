-- ===== src/Bytes/Tests.antt =====
-- The store and load theorems on small buffers.
use full_duplex_radio.Prelude.{◌≡◌, refl, [], ◌∷◌}
use full_duplex_radio.Bytes.{store_be32}

network_order : store_be32 (9 ∷ 0 ∷ 0 ∷ 0 ∷ 0 ∷ 9 ∷ []) 1 0x01020304 ≡ 9 ∷ 1 ∷ 2 ∷ 3 ∷ 4 ∷ 9 ∷ []
unfolding store_be32
network_order = refl
