-- ===== src/ReorderQueue/Arrivals.antt =====
-- reorder_queue.cpp: `insert` keeps the invariant, and what its verdict is in each case.
use full_duplex_radio.Prelude.{
  ℕ, ◌-◌, ◌^◌, ◌≤◌, ◌<◌, ◌≡◌, List, arith, length, Bool, true, ltb, leb, if◌then◌else◌, Bool-cases,
  inl, inr,
}
use full_duplex_radio.Serial.{sub32, distance}
use full_duplex_radio.ReorderQueue.{
  Queue, FrameInfo, Insert, accepted, duplicate, late, too_old, too_far_ahead, oversized, slot_of,
  start, store, classify, insert, inc64,
}
use full_duplex_radio.ReorderQueue.Valid.{IsValid, recount, start-IsValid, store_free, new_highest}

store-IsValid :
    {q : Queue} (info : FrameInfo) (payload : List ℕ)
    → IsValid q
    → q.started ≡ true
    → info.header.sequence < 2 ^ 32
    → sub32 info.header.sequence q.cursor < 64
    → length payload ≤ 512
    → IsValid (store q info payload).0
unfolding store new_highest
store-IsValid {q} info payload v on range near fits =
    elim (Bool-cases (slot_of q.slots info.header.sequence).occupied) [
      | inl taken ↦ simp taken (
          recount q q.accepts (inc64 q.duplicates) q.lates q.too_olds q.too_far_aheads q.oversizes
            q.expired q.discarded q.deliveries q.gaps q.resyncs v)
      | inr free ↦ simp free (store_free info payload v on range near fits free)
    ]

-- `classify` by the wrapped offset of the sequence number from the cursor.
classify_lem :
    (q : Queue) (info : FrameInfo) (payload : List ℕ) (now : ℕ)
    → info.header.sequence < 2 ^ 32
    → q.cursor < 2 ^ 32
    → classify q info payload now ≡ (
        let offset = sub32 info.header.sequence q.cursor in
        if leb (2 ^ 31) offset
        then (if ltb (2 ^ 32 - 64) offset
            then (record q { lates = inc64 q.lates }, late)
            else (record q { too_olds = inc64 q.too_olds }, too_old))
        else (if leb 64 offset
            then (record q { too_far_aheads = inc64 q.too_far_aheads }, too_far_ahead)
            else (if ltb info.deadline_us now
                then (record q { lates = inc64 q.lates }, late)
                else store q info payload)))
unfolding classify distance
classify_lem q info payload now hs hc = ground arith

classify-IsValid :
    {q : Queue} (info : FrameInfo) (payload : List ℕ) (now : ℕ)
    → IsValid q
    → q.started ≡ true
    → info.header.sequence < 2 ^ 32
    → length payload ≤ 512
    → IsValid (classify q info payload now).0
classify-IsValid {q} info payload now v on range fits =
    rw (classify_lem q info payload now range v.cursor_in)
      (elim (Bool-cases (leb (2 ^ 31) (sub32 info.header.sequence q.cursor))) [
        | inl behind ↦ elim (Bool-cases (ltb (2 ^ 32 - 64) (sub32 info.header.sequence q.cursor))) [
          | inl near ↦ rw (behind, near) counted_late
          | inr far ↦
              rw (behind, far)
                (recount q q.accepts q.duplicates q.lates (inc64 q.too_olds) q.too_far_aheads
                  q.oversizes q.expired q.discarded q.deliveries q.gaps q.resyncs v)
        ]
        | inr ahead ↦ elim (Bool-cases (leb 64 (sub32 info.header.sequence q.cursor))) [
          | inl far ↦
              rw (ahead, far)
                (recount q q.accepts q.duplicates q.lates q.too_olds (inc64 q.too_far_aheads)
                  q.oversizes q.expired q.discarded q.deliveries q.gaps q.resyncs v)
          | inr near ↦ elim (Bool-cases (ltb info.deadline_us now)) [
            | inl overdue ↦ rw (ahead, near, overdue) counted_late
            | inr in_time ↦
                rw (ahead, near, in_time)
                  (store-IsValid info payload v on range (ground arith) fits)
          ]
        ]
      ])
  where
    counted_late : IsValid (record q { lates = inc64 q.lates })
    counted_late =
        recount q q.accepts q.duplicates (inc64 q.lates) q.too_olds q.too_far_aheads q.oversizes
          q.expired q.discarded q.deliveries q.gaps q.resyncs v

started_start : (q : Queue) (s : ℕ) → (start q s).started ≡ true
unfolding start
started_start q s = ground arith

-- `insert` keeps the invariant, for any frame with a 32-bit sequence number and at any time.
pub insert-IsValid :
    {q : Queue} (info : FrameInfo) (payload : List ℕ) (now : ℕ)
    → IsValid q
    → info.header.sequence < 2 ^ 32
    → IsValid (insert q info payload now).0
unfolding insert
insert-IsValid {q} info payload now v range = elim (Bool-cases (ltb 512 (length payload))) [
  | inl big ↦ simp big (
      recount q q.accepts q.duplicates q.lates q.too_olds q.too_far_aheads (inc64 q.oversizes)
        q.expired q.discarded q.deliveries q.gaps q.resyncs v)
  | inr fits ↦ simp fits (
      classify-IsValid info payload now (start-IsValid info.header.sequence range v)
        (started_start q info.header.sequence) range (ground arith))
]

-- The verdict by the wrapped offset: within 64 behind it is late, further behind too old; 64 or
-- more ahead it is too far; in the window it is late after its deadline, else a duplicate or new.
abbrev pub offset_verdict : ℕ → Bool → Bool → Insert
offset_verdict offset overdue taken =
    if leb (2 ^ 31) offset
    then (if ltb (2 ^ 32 - 64) offset then late else too_old)
    else (if leb 64 offset
        then too_far_ahead
        else (if overdue then late else (if taken then duplicate else accepted)))

pub verdict-insert_slot :
    (q : Queue) (info : FrameInfo) (payload : List ℕ) (now : ℕ)
    → q.started ≡ true
    → q.cursor < 2 ^ 32
    → info.header.sequence < 2 ^ 32
    → (insert q info payload now).1 ≡ (
        if ltb 512 (length payload)
        then oversized
        else offset_verdict
            (sub32 info.header.sequence q.cursor)
            (ltb info.deadline_us now)
            (slot_of q.slots info.header.sequence).occupied)
unfolding insert classify store distance start
verdict-insert_slot q info payload now on hc hs = ground arith
