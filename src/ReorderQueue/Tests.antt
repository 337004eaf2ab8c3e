-- ===== src/ReorderQueue/Tests.antt =====
-- The theorems on the reorder queue at a queue that has taken one frame next to the wrap.
use full_duplex_radio.Prelude.{
  ◌≡◌, ◌^◌, ◌+◌, ◌&&◌, ◌==◌, ◌-◌, ◌<◌, arith, refl, [], ◌∷◌, ℕ, ltb, if◌then◌else◌, some, none,
  true,
}
use full_duplex_radio.Serial.{sub32, add32, distance, precedes}
use full_duplex_radio.Proto.{MediaHeader}
use full_duplex_radio.ReorderQueue.{
  Queue, FrameInfo, new, insert, store, index, oversized, delivered, gap, slot_of,
}
use full_duplex_radio.ReorderQueue.Consume.{peek, peek_next, advance, skip_to, drop_expired}
use full_duplex_radio.ReorderQueue.Valid.{IsValid}
use full_duplex_radio.ReorderQueue.Arrivals.{insert-IsValid, offset_verdict}
use full_duplex_radio.ReorderQueue.Window.{is_some, is_accepted, verdict-insert, peek-insert}
use full_duplex_radio.ReorderQueue.Advance.{peek-advance}
use full_duplex_radio.ReorderQueue.Run.{
  call_start, call_insert, call_advance, call_skip_to, call_drop_expired, call_resync, call_reset,
  run, run-IsValid,
}
use full_duplex_radio.ReorderQueue.Delivery.{advances, delivered_in_turn}
use full_duplex_radio.ReorderQueue.Skip.{peek-skip_to}
use full_duplex_radio.ReorderQueue.Emptied.{new-IsValid}
use full_duplex_radio.ReorderQueue.Expiry.{peek-drop_expired, unexpired}

abbrev header_of : ℕ → MediaHeader
header_of n = record { flags = 0; stream_id = 7; sequence = n; timestamp = 960 }

abbrev frame_info : ℕ → FrameInfo
frame_info n = record { header = header_of n; arrival_us = 10; deadline_us = 500 }

abbrev top : ℕ
top = 2 ^ 32 - 1

-- The queue after one arrival.
abbrev one_held : Queue
one_held = (insert new (frame_info top) (1 ∷ 2 ∷ []) 20).0

one_held-IsValid : IsValid one_held
one_held-IsValid = insert-IsValid (frame_info top) (1 ∷ 2 ∷ []) 20 new-IsValid (omega arith)

one_held_started : one_held.started ≡ true
unfolding insert store index distance precedes
one_held_started = refl

verdict-insert_example : (insert one_held (frame_info 2) (3 ∷ []) 30).1 ≡ (
    if ltb 512 1
    then oversized
    else offset_verdict (sub32 2 one_held.cursor) (ltb 500 30) (is_some (peek one_held 2)))
verdict-insert_example =
    verdict-insert {q = one_held} (frame_info 2) (3 ∷ []) 30 one_held-IsValid one_held_started
      (omega arith)

peek-insert_example :
    (let (q', verdict) = insert one_held (frame_info 2) (3 ∷ []) 30 in
      peek q' 2 ≡ (
        if is_accepted verdict && 2 == 2
        then some (record { info = frame_info 2; payload = 3 ∷ [] })
        else peek one_held 2))
peek-insert_example =
    peek-insert {q = one_held} (frame_info 2) (3 ∷ []) 30 one_held-IsValid one_held_started
      (omega arith) 2 (omega arith)

peek-advance_example :
    (let (q', step) = advance one_held in
      (step ≡ (if is_some (peek one_held one_held.cursor) then delivered else gap))
      × (q'.cursor ≡ add32 one_held.cursor 1)
      × (peek q' 2 ≡ (if 2 == one_held.cursor then none else peek one_held 2)))
peek-advance_example = peek-advance {q = one_held} 2 one_held-IsValid one_held_started (omega arith)

one_held_near : (0 < sub32 2 one_held.cursor) × (sub32 2 one_held.cursor < 2 ^ 31)
unfolding insert store index distance precedes
one_held_near = (omega arith, omega arith)

peek-skip_to_example :
    (let (q', n) = skip_to one_held 2 in
      (n ≡ sub32 2 one_held.cursor)
      × (q'.cursor ≡ 2)
      × IsValid q'
      × (peek q' 2 ≡ (if ltb (sub32 2 one_held.cursor) n then none else peek one_held 2)))
peek-skip_to_example =
    peek-skip_to {q = one_held} 2 2 one_held-IsValid one_held_started (omega arith) (omega arith)
      one_held_near.0 one_held_near.1

peek-drop_expired_example :
    (let (q', dropped) = drop_expired one_held 501 in
      (peek q' top ≡ unexpired 501 (peek one_held top))
      × (dropped + q'.held ≡ one_held.held)
      × (q'.cursor ≡ one_held.cursor)
      × IsValid q')
peek-drop_expired_example = peek-drop_expired {q = one_held} 501 top one_held-IsValid (omega arith)

one_held_slot : (sub32 top one_held.cursor < 64) × ((slot_of one_held.slots top).occupied ≡ true)
unfolding insert store index distance precedes
one_held_slot = (omega arith, refl)

run-IsValid_example : IsValid (
    run one_held (
      call_insert (frame_info 70) (4 ∷ []) 30
      ∷ call_advance
      ∷ call_skip_to 5
      ∷ call_drop_expired 400
      ∷ call_resync 9
      ∷ call_start 3
      ∷ call_reset
      ∷ []))
run-IsValid_example =
    run-IsValid
      (call_insert (frame_info 70) (4 ∷ []) 30
        ∷ call_advance
        ∷ call_skip_to 5
        ∷ call_drop_expired 400
        ∷ call_resync 9
        ∷ call_start 3
        ∷ call_reset
        ∷ [])
      {q = one_held}
      (omega arith, (tt, (omega arith, (tt, (omega arith, (omega arith, (tt, tt)))))))
      one_held-IsValid

-- The queue after a second arrival, two positions behind the wrap.
abbrev two_held : Queue
two_held = (insert one_held (frame_info 2) (3 ∷ []) 30).0

two_held-IsValid : IsValid two_held
two_held-IsValid =
    insert-IsValid {q = one_held} (frame_info 2) (3 ∷ []) 30 one_held-IsValid (omega arith)

two_held_shows :
    (two_held.started ≡ true)
    × (sub32 2 two_held.cursor ≡ 3)
    × (peek two_held 2 ≡ some (record { info = frame_info 2; payload = 3 ∷ [] }))
unfolding insert store index distance precedes peek
two_held_shows = (refl, refl, refl)

delivered_in_turn_example :
    let q' = advances 3 two_held in
    (peek_next q' ≡ some (record { info = frame_info 2; payload = 3 ∷ [] }))
    × ((advance q').1 ≡ delivered)
delivered_in_turn_example =
    delivered_in_turn {q = two_held} 3 2 (record { info = frame_info 2; payload = 3 ∷ [] })
      two_held-IsValid two_held_shows.0 (omega arith) two_held_shows.1 two_held_shows.2
