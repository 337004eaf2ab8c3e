-- ===== src/ReorderQueue/Delivery.antt =====
-- reorder_queue.cpp: a frame that the queue holds is delivered when the cursor gets to it.
use full_duplex_radio.Prelude.{ℕ, zero, suc, ◌^◌, ◌<◌, ◌≡◌, refl, ◌∙◌, arith, true, some, subst}
use full_duplex_radio.Serial.{sub32}
use full_duplex_radio.ReorderQueue.{Queue, Frame, delivered}
use full_duplex_radio.ReorderQueue.Consume.{peek, peek_next, advance}
use full_duplex_radio.ReorderQueue.Valid.{IsValid}
use full_duplex_radio.ReorderQueue.Advance.{peek-advance, advance-IsValid, advance_on}

-- `advance`, called `n` times.
unfoldable pub advances : ℕ → Queue → Queue
advances zero q = q
advances (suc n) q = advances n (advance q).0

at_cursor :
    {q : Queue} (s : ℕ) (f : Frame)
    → IsValid q
    → q.started ≡ true
    → s ≡ q.cursor
    → s < 2 ^ 32
    → peek q s ≡ some f
    → (peek_next q ≡ some f) × ((advance q).1 ≡ delivered)
unfolding peek_next
at_cursor {q} s f v on e hs shown =
    let here : peek q q.cursor ≡ some f = subst (λ c. peek q c ≡ some f) e shown in
    (here, (peek-advance s v on hs).0 ∙ rw here refl)

advance_towards :
    {q : Queue} (n s : ℕ) (f : Frame)
    → IsValid q
    → q.started ≡ true
    → s < 2 ^ 32
    → sub32 s q.cursor ≡ suc n
    → peek q s ≡ some f
    → (sub32 s (advance q).0.cursor ≡ n) × (peek (advance q).0 s ≡ some f)
advance_towards {q} n s f v on hs near shown =
    let step = peek-advance s v on hs in
    (omega (arith, step.1, v.cursor_in), step.2 ∙ ground (arith, shown, v.cursor_in))

-- In a valid and started queue a frame that `peek` shows, `n` positions ahead of the cursor, is at
-- the cursor after `n` calls of `advance`, and the next call delivers.
pub delivered_in_turn :
    {q : Queue} (n s : ℕ) (f : Frame)
    → IsValid q
    → q.started ≡ true
    → s < 2 ^ 32
    → sub32 s q.cursor ≡ n
    → peek q s ≡ some f
    → let q' = advances n q in (peek_next q' ≡ some f) × ((advance q').1 ≡ delivered)
unfolding advances
delivered_in_turn {q} zero s f v on hs near shown =
    at_cursor {q = q} s f v on (omega (arith, near, v.cursor_in)) hs shown
delivered_in_turn {q} (suc n) s f v on hs near shown =
    let next = advance_towards n s f v on hs near shown in
    delivered_in_turn {q = (advance q).0} n s f (advance-IsValid v) (advance_on v on) hs next.0
      next.1
