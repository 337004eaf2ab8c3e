-- ===== src/ReorderQueue/Consume.antt =====
-- core/src/audio/reorder_queue.cpp, the consumer's side: looking at frames, stepping and jumping the
-- cursor, and dropping what has expired.
use full_duplex_radio.Prelude.{
  ℕ, zero, suc, ◌+◌, ◌-◌, ◌%◌, ◌^◌, min, List, [], ◌∷◌, set, take, Bool, false, not, ◌&&◌, ◌||◌,
  ltb, ◌==◌, if◌then◌else◌, Option, none, some,
}
use full_duplex_radio.Prelude.Int.{ℤ, pos, negsuc, ltb_ℤ, leb_ℤ, pos_part}
use full_duplex_radio.Serial.{add32, distance}
use full_duplex_radio.ReorderQueue.{
  Queue, Slot, Frame, Step, delivered, gap, capacity, index, slot_of, holds, vacate, inc64, dec64,
}

-- `none` when it returns false and leaves `out` untouched.
unfoldable pub peek : Queue → ℕ → Option Frame
peek q sequence =
    let offset = distance q.cursor sequence in
    let slot = slot_of q.slots sequence in
    if not q.started
    then none
    else (if ltb_ℤ offset (pos 0) || leb_ℤ (pos capacity) offset
        then none
        else (if not (holds slot sequence)
            then none
            else some (record { info = slot.info; payload = take slot.size slot.bytes })))

unfoldable pub peek_next : Queue → Option Frame
unfolding peek
peek_next q = peek q q.cursor

unfoldable pub has_next : Queue → Bool
has_next q = if not q.started then false else holds (slot_of q.slots q.cursor) q.cursor

unfoldable pub step_once : Queue → Queue × Step
step_once q =
    let slot = slot_of q.slots q.cursor in
    if holds slot q.cursor
    then (
      record q {
        slots = set q.slots (index q.cursor) (vacate slot);
        held = dec64 q.held;
        cursor = add32 q.cursor 1;
      },
      delivered,
    )
    else (record q { cursor = add32 q.cursor 1 }, gap)

-- Counting one step: `advance` after `step_once`.
abbrev pub count_step : Queue × Step → Queue × Step
count_step (q, delivered) = (record q { deliveries = inc64 q.deliveries }, delivered)
count_step (q, gap) = (record q { gaps = inc64 q.gaps }, gap)

unfoldable pub advance : Queue → Queue × Step
advance q =
    if not q.started then (record q { gaps = inc64 q.gaps }, gap) else count_step (step_once q)

-- One round of the loop of `skip_to`.
unfoldable pub skip_step : Queue → Queue
skip_step q =
    let slot = slot_of q.slots q.cursor in
    if holds slot q.cursor
    then record q {
      slots = set q.slots (index q.cursor) (vacate slot);
      held = dec64 q.held;
      discarded = inc64 q.discarded;
      cursor = add32 q.cursor 1;
    }
    else record q { cursor = add32 q.cursor 1 }

unfoldable pub skip_loop : ℕ → Queue → Queue
skip_loop zero q = q
skip_loop (suc n) q = skip_loop n (skip_step q)

unfoldable pub skip_to : Queue → ℕ → Queue × ℕ
skip_to q sequence =
    let offset = distance q.cursor sequence in
    let frames = pos_part offset in
    let q' = skip_loop (min frames capacity) q in
    if not q.started
    then (q, 0)
    else (if leb_ℤ offset (pos 0)
        then (q, 0)
        else (record q' { gaps = (q'.gaps + frames) % 2 ^ 64; cursor = sequence }, frames))

-- The loop of `drop_expired` over the slots, with `held`, `expired` and the count it returns.
unfoldable pub drop_loop : ℕ → List Slot → ℕ → ℕ → ℕ → List Slot × ℕ × ℕ × ℕ
drop_loop now [] held expired dropped = ([], held, expired, dropped)
drop_loop now (s ∷ ss) held expired dropped =
    let gone = s.occupied && ltb s.info.deadline_us now in
    let (ss', h, e, d) =
      drop_loop now ss (if gone then dec64 held else held) (if gone then inc64 expired else expired)
        (if gone then dropped + 1 else dropped) in
    ((if gone then vacate s else s) ∷ ss', h, e, d)

unfoldable pub drop_expired : Queue → ℕ → Queue × ℕ
unfolding drop_loop
drop_expired q now =
    let (slots, held, expired, dropped) = drop_loop now q.slots q.held q.expired 0 in
    (record q { slots = slots; held = held; expired = expired }, dropped)

-- static_cast<std::size_t> of an int32_t.
abbrev pub to_size : ℤ → ℕ
to_size (pos n) = n
to_size (negsuc n) = 2 ^ 64 - 1 - n

unfoldable pub depth : Queue → ℕ
depth q = let d = distance q.cursor q.highest in if q.held == 0 then 0 else (to_size d + 1) % 2 ^ 64
