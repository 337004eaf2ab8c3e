-- ===== src/ReorderQueue/Window.antt =====
-- reorder_queue.cpp: the queue as the frames that `peek` shows, and how `insert` changes them.
use full_duplex_radio.Prelude.{
  ℕ, ◌%◌, ◌^◌, ◌≤◌, ◌<◌, ◌≡◌, ◌≢◌, refl, ap, ◌∙◌, List, arith, length, set, take, drop, Bool, true,
  false, ◌&&◌, ltb, ◌==◌, if◌then◌else◌, inl, inr, ◌⊎◌, Option, none, some, copy_at_start,
  take-append_length,
}
use full_duplex_radio.Serial.{sub32, distance}
use full_duplex_radio.ReorderQueue.{
  Slot, Queue, Frame, FrameInfo, Insert, accepted, duplicate, late, too_old, too_far_ahead,
  oversized, slot_of, store, classify, start, insert, fill, index, empty_slot,
}
use full_duplex_radio.ReorderQueue.Slots.{index_lem, get_or-set}
use full_duplex_radio.ReorderQueue.Consume.{peek}
use full_duplex_radio.ReorderQueue.Valid.{IsValid, occupied_same}
use full_duplex_radio.ReorderQueue.Arrivals.{offset_verdict, verdict-insert_slot, insert-IsValid}

abbrev pub is_some {ℓ} : {A : Type ℓ} → Option A → Bool
is_some none = false
is_some (some _) = true

abbrev pub frame_of : Slot → Frame
frame_of s = record { info = s.info; payload = take s.size s.bytes }

-- In a valid queue the sequence check of `peek` decides nothing: an occupied slot in the window is
-- the frame that was asked for.
pub peek_lem :
    {q : Queue} (s : ℕ)
    → IsValid q
    → s < 2 ^ 32
    → peek q s ≡ (
        if q.started && (ltb (sub32 s q.cursor) 64 && (slot_of q.slots s).occupied)
        then some (frame_of (slot_of q.slots s))
        else none)
unfolding peek distance
peek_lem {q} s v hs = ground (arith, occupied_same s v hs, v.cursor_in)

-- The verdict of `insert`, on a valid and started queue and for a 32-bit number: by the window and the deadline, and for a
-- frame that could still be played, by whether the queue already shows that number.
pub verdict-insert :
    {q : Queue} (info : FrameInfo) (payload : List ℕ) (now : ℕ)
    → IsValid q
    → q.started ≡ true
    → info.header.sequence < 2 ^ 32
    → (insert q info payload now).1 ≡ (
        if ltb 512 (length payload)
        then oversized
        else offset_verdict
            (sub32 info.header.sequence q.cursor)
            (ltb info.deadline_us now)
            (is_some (peek q info.header.sequence)))
verdict-insert {q} info payload now v on hs = ground (
  arith,
  verdict-insert_slot q info payload now on v.cursor_in hs,
  peek_lem info.header.sequence v hs,
)

-- What a filled slot shows is the frame that was stored.
frame_of-fill :
    (s : Slot) (info : FrameInfo) (payload : List ℕ)
    → length s.bytes ≡ 512
    → length payload ≤ 512
    → frame_of (fill s info payload) ≡ record { info = info; payload = payload }
frame_of-fill s info payload len fits =
    ap (λ l. record { info = info; payload = l })
      (let e : length payload % 2 ^ 16 ≡ length payload = omega arith in
        rw (e, copy_at_start s.bytes payload (omega arith))
          (take-append_length payload (drop (length payload) s.bytes)))

-- `insert` leaves the cursor of a started queue alone, and touches the slots only to accept.
insert_slots :
    (q : Queue) (info : FrameInfo) (payload : List ℕ) (now : ℕ)
    → q.started ≡ true
    → let (q', v) = insert q info payload now in
      (q'.started ≡ true)
      × (q'.cursor ≡ q.cursor)
      × (v ≢ accepted → q'.slots ≡ q.slots)
      × (v ≡ accepted
          → (q'.slots
              ≡ set q.slots
                  (index info.header.sequence)
                  (fill (slot_of q.slots info.header.sequence) info payload))
            × (length payload ≤ 512))
unfolding insert classify store start
insert_slots q info payload now on =
    (ground arith, ground arith, λ h. ground arith, λ h. ground arith)

same_index :
    (c a s : ℕ)
    → c < 2 ^ 32
    → a < 2 ^ 32
    → s < 2 ^ 32
    → sub32 a c < 64
    → sub32 s c < 64
    → (index a == index s) ≡ (s == a)
same_index c a s hc ha hs na ns = ground (arith, index_lem a, index_lem s)

module _ {q : Queue} (info : FrameInfo) (payload : List ℕ) (now : ℕ) (v : IsValid q)
    (on : q.started ≡ true) (range : info.header.sequence < 2 ^ 32) (s : ℕ) (hs : s < 2 ^ 32) where
  peek_refused :
      (insert q info payload now).1 ≢ accepted → peek (insert q info payload now).0 s ≡ peek q s
  peek_refused h =
      let e = insert_slots q info payload now on in
      ground (
        arith,
        peek_lem s (insert-IsValid info payload now v range) hs,
        peek_lem s v hs,
        e.0,
        e.1,
        e.2 h,
      )

  near_of_accepted :
      (insert q info payload now).1 ≡ accepted → sub32 info.header.sequence q.cursor < 64
  near_of_accepted h = ground (arith, verdict-insert info payload now v on range)

  slot_after :
      (insert q info payload now).1 ≡ accepted
      → sub32 s q.cursor < 64
      → slot_of (insert q info payload now).0.slots s ≡ (
          if s == info.header.sequence
          then fill (slot_of q.slots info.header.sequence) info payload
          else slot_of q.slots s)
  slot_after h near = rw ((insert_slots q info payload now on).3 h).0 (
      get_or-set q.slots (index info.header.sequence) (index s)
        (fill (slot_of q.slots info.header.sequence) info payload) empty_slot
        (omega (arith, index_lem info.header.sequence, v.slot_count))
      ∙ rw (
          same_index q.cursor info.header.sequence s v.cursor_in range hs (near_of_accepted h)
            near))

  peek_accepted :
      (insert q info payload now).1 ≡ accepted
      → peek (insert q info payload now).0 s ≡ (
          if s == info.header.sequence
          then some (record { info = info; payload = payload })
          else peek q s)
  peek_accepted h =
      let e = insert_slots q info payload now on in
      let old = slot_of q.slots info.header.sequence in
      ground (
        arith,
        peek_lem s (insert-IsValid info payload now v range) hs,
        peek_lem s v hs,
        e.0,
        e.1,
        near_of_accepted h,
        slot_after h,
        frame_of-fill old info payload
            (v.slots_ok (index info.header.sequence)
              (omega (arith, index_lem info.header.sequence))).storage
            (e.3 h).1,
      )

abbrev pub is_accepted : Insert → Bool
is_accepted accepted = true
is_accepted _ = false

accepted-cases : (v : Insert) → (v ≡ accepted) ⊎ (v ≢ accepted)
accepted-cases accepted = inl refl
accepted-cases duplicate = inr (λ e. cc)
accepted-cases late = inr (λ e. cc)
accepted-cases too_old = inr (λ e. cc)
accepted-cases too_far_ahead = inr (λ e. cc)
accepted-cases oversized = inr (λ e. cc)

not_accepted : (v : Insert) → v ≢ accepted → is_accepted v ≡ false
not_accepted accepted h = absurd (h refl)
not_accepted _ h = refl

-- After `insert` on a valid and started queue, `peek` shows the new frame, with its bytes, under
-- its number if the verdict is `accepted`, and under every other number what it showed before; on
-- every other verdict nothing that `peek` shows has changed.
pub peek-insert :
    {q : Queue} (info : FrameInfo) (payload : List ℕ) (now : ℕ)
    → IsValid q
    → q.started ≡ true
    → info.header.sequence < 2 ^ 32
    → (s : ℕ) → s < 2 ^ 32
    → let (q', verdict) = insert q info payload now in
      peek q' s ≡ (
        if is_accepted verdict && s == info.header.sequence
        then some (record { info = info; payload = payload })
        else peek q s)
peek-insert {q} info payload now v on range s hs =
    elim (accepted-cases (insert q info payload now).1) [
      | inl e ↦ rw e (peek_accepted info payload now v on range s hs e)
      | inr ne ↦ rw (not_accepted _ ne) (peek_refused info payload now v on range s hs ne)
    ]
