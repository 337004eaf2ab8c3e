-- ===== src/JitterBuffer/Resync.antt =====
-- jitter_buffer.cpp, `push`: a packet beyond the window puts the timeline on itself.
use full_duplex_radio.Prelude.{
  ℕ, ◌+◌, ◌^◌, ◌≤◌, ◌<◌, ◌≡◌, refl, sym, ap, ◌∙◌, arith, List, length, true, false, none, some,
}
use full_duplex_radio.Prelude.Int.{pos}
use full_duplex_radio.Clock.{samples_to_us}
use full_duplex_radio.Serial.{distance}
use full_duplex_radio.Proto.{MediaPacket}
use full_duplex_radio.ReorderQueue.{
  Queue, Frame, FrameInfo, Insert, too_far_ahead, start, insert, resync, slot_of, index, empty_slot,
}
use full_duplex_radio.ReorderQueue
use full_duplex_radio.ReorderQueue.Consume.{peek, peek_next}
use full_duplex_radio.ReorderQueue.Valid.{IsValid, unoccupied}
use full_duplex_radio.ReorderQueue.Window.{verdict-insert, peek-insert, peek_lem}
use full_duplex_radio.ReorderQueue.Started.{insert_cursor}
use full_duplex_radio.ReorderQueue.Emptied.{resync-IsValid}
use full_duplex_radio.OpusCodec.{DecoderLibrary}
use full_duplex_radio.JitterBuffer.{JitterBuffer, anchor, deadline_of, next_deadline_us}
use full_duplex_radio.JitterBuffer.Push.{resynced, restart, resynchronise, frame_info, with_queue}
use full_duplex_radio.JitterBuffer.Valid.{IsSound, insert-IsSound, restart-IsSound}

resync_same :
    (q : Queue) (a : ℕ)
    → ((resync q a).cursor ≡ a) × ((resync q a).started ≡ true) × ((resync q a).held ≡ 0)
unfolding resync
resync_same q a = (refl, refl, refl)

-- A queue just resynchronised shows nothing.
resync_empty :
    (q : Queue) (a s : ℕ) → IsValid q → a < 2 ^ 32 → s < 2 ^ 32 → peek (resync q a) s ≡ none
resync_empty q a s v ha hs =
    let same = resync_same q a in
    let ok = resync-IsValid a ha v in
    ground (arith, peek_lem s ok hs, unoccupied ok same.2 (index s))

distance_self : (a : ℕ) → distance a a ≡ pos 0
unfolding distance
distance_self a = ground arith

-- The timestamp of the anchor is due the target delay after the arrival.
deadline_of-anchor :
    {S : Type 0} (jb : JitterBuffer S) (timestamp arrival_us : ℕ)
    → arrival_us + jb.config.target_delay_us < 2 ^ 64
    → deadline_of (anchor jb timestamp arrival_us) timestamp
      ≡ arrival_us + jb.config.target_delay_us
unfolding deadline_of anchor samples_to_us
deadline_of-anchor jb timestamp arrival_us fits = rw (distance_self timestamp) (omega arith)

-- The frame with the number of the cursor, in time, is accepted by an empty queue, and is next.
first_accepted :
    (q : Queue) (info : FrameInfo) (payload : List ℕ) (now : ℕ)
    → IsValid q
    → q.started ≡ true
    → info.header.sequence ≡ q.cursor
    → peek q info.header.sequence ≡ none
    → now ≤ info.deadline_us
    → length payload ≤ 512
    → ((insert q info payload now).1 ≡ ReorderQueue.accepted)
      × (peek (insert q info payload now).0 info.header.sequence
          ≡ some (record { info = info; payload = payload }))
first_accepted q info payload now v on e empty due fits =
    let range : info.header.sequence < 2 ^ 32 = omega (arith, v.cursor_in) in
    let taken : (insert q info payload now).1 ≡ ReorderQueue.accepted =
      ground (arith, verdict-insert info payload now v on range, v.cursor_in) in
    (
      taken,
      peek-insert info payload now v on range info.header.sequence range ∙ rw taken (ground arith),
    )

module _ {S : Type 0} where
  -- The timeline after a resynchronisation: it stands on the packet, which is next and due the target
  -- delay after its arrival.
  pub record StandsOn (packet : MediaPacket) (arrival_us : ℕ) (jb : JitterBuffer S) : Type 0 where
    pub sound : IsSound jb
    pub cursor_eq : jb.queue.cursor ≡ packet.header.sequence
    pub playout_eq : jb.playout_ts ≡ packet.header.timestamp
    pub due_eq : next_deadline_us jb ≡ arrival_us + jb.config.target_delay_us
    pub next_eq :
        peek_next jb.queue
        ≡ some (record {
          info = record {
            header = packet.header;
            arrival_us = arrival_us;
            deadline_us = arrival_us + jb.config.target_delay_us;
          };
          payload = packet.payload;
        })

module _ {S : Type 0} (lib : DecoderLibrary S) where
  module _ (jb : JitterBuffer S) (packet : MediaPacket) (arrival_us : ℕ) (v : IsSound jb)
      (range : packet.header.sequence < 2 ^ 32) (fits : length packet.payload ≤ 512)
      (time : arrival_us + jb.config.target_delay_us < 2 ^ 64) where
    -- The timeline restarted at the packet, before it is inserted.
    abbrev restarted : JitterBuffer S
    restarted = restart lib (record jb { has_end = false }) packet.header arrival_us

    abbrev info : FrameInfo
    info = frame_info restarted packet.header arrival_us

    restarted_due :
        deadline_of restarted packet.header.timestamp ≡ arrival_us + jb.config.target_delay_us
    unfolding restart deadline_of anchor
    restarted_due = deadline_of-anchor jb packet.header.timestamp arrival_us time

    restarted-IsSound : IsSound restarted × (restarted.anchored ≡ true)
    restarted-IsSound =
        restart-IsSound lib (record jb { has_end = false }) packet.header arrival_us range v

    restarted_queue : restarted.queue ≡ resync jb.queue packet.header.sequence
    unfolding restart anchor
    restarted_queue = refl

    restarted_first :
        ((insert restarted.queue info packet.payload arrival_us).1 ≡ ReorderQueue.accepted)
        × (peek (insert restarted.queue info packet.payload arrival_us).0 packet.header.sequence
            ≡ some (record { info = info; payload = packet.payload }))
    restarted_first =
        let same = resync_same jb.queue packet.header.sequence in
        first_accepted restarted.queue info packet.payload arrival_us restarted-IsSound.0.0
          (ap (λ q. q.started) restarted_queue ∙ same.1)
          (sym (ap (λ q. q.cursor) restarted_queue ∙ same.0))
          (ap (λ q. peek q packet.header.sequence) restarted_queue
            ∙ resync_empty jb.queue packet.header.sequence packet.header.sequence v.0 range range)
          (omega (arith, restarted_due)) fits

    -- The buffer that resynchronisation leaves.
    abbrev inserted : JitterBuffer S
    inserted = with_queue restarted (insert restarted.queue info packet.payload arrival_us).0

    inserted_cursor : inserted.queue.cursor ≡ packet.header.sequence
    unfolding restart resync anchor
    inserted_cursor = insert_cursor restarted.queue info packet.payload arrival_us refl

    inserted_due : next_deadline_us inserted ≡ arrival_us + jb.config.target_delay_us
    unfolding next_deadline_us restart deadline_of anchor
    inserted_due = restarted_due

    inserted_next :
        peek_next inserted.queue
        ≡ some (record {
          info = record {
            header = packet.header;
            arrival_us = arrival_us;
            deadline_us = arrival_us + jb.config.target_delay_us;
          };
          payload = packet.payload;
        })
    unfolding peek_next
    inserted_next =
        ap (peek inserted.queue) inserted_cursor
        ∙ restarted_first.1
        ∙ ap
            (λ d. some (record {
              info = record { header = packet.header; arrival_us = arrival_us; deadline_us = d };
              payload = packet.payload;
            }))
            restarted_due

    inserted_stands : StandsOn packet arrival_us inserted
    unfolding restart anchor
    inserted_stands = record {
      sound =
          insert-IsSound restarted info packet.payload arrival_us range restarted-IsSound.1
            restarted-IsSound.0;
      cursor_eq = inserted_cursor;
      playout_eq = refl;
      due_eq = inserted_due;
      next_eq = inserted_next;
    }

    pub resynchronise_lem :
        let (jb', o) = resynchronise lib jb packet arrival_us in
        (o ≡ resynced) × StandsOn packet arrival_us jb'
    unfolding resynchronise
    resynchronise_lem = (rw (restarted_first.0) refl, inserted_stands)
