-- ===== src/ReorderQueue/Started.antt =====
-- reorder_queue.cpp: no operation but `reset` stops a queue that has started.
use full_duplex_radio.Prelude.{
  ℕ, zero, suc, min, ◌≡◌, refl, ◌∙◌, arith, List, length, ap, Bool, true, not, ltb, if_either,
}
use full_duplex_radio.Prelude.Int.{pos, negsuc, leb_ℤ, ltb_ℤ, pos_part}
use full_duplex_radio.Serial.{distance}
use full_duplex_radio.ReorderQueue.{
  Queue, FrameInfo, Insert, Step, delivered, gap, start, store, classify, insert, slot_of, holds,
}
use full_duplex_radio.ReorderQueue.Consume.{
  advance, step_once, count_step, skip_loop, skip_step, skip_to,
}

count_step_started : (r : Queue × Step) → (count_step r).0.started ≡ r.0.started
count_step_started (q, delivered) = refl
count_step_started (q, gap) = refl

step_once_started : (q : Queue) → (step_once q).0.started ≡ q.started
unfolding step_once
step_once_started q =
    if_either (λ (r : Queue × Step). r.0.started ≡ q.started)
      (holds (slot_of q.slots q.cursor) q.cursor) (λ _. refl) (λ _. refl)

pub advance_started : (q : Queue) → (advance q).0.started ≡ q.started
unfolding advance
advance_started q =
    if_either (λ (r : Queue × Step). r.0.started ≡ q.started) (not q.started) (λ _. refl)
      (λ _. count_step_started (step_once q) ∙ step_once_started q)

skip_loop_started : (n : ℕ) (q : Queue) → (skip_loop n q).started ≡ q.started
unfolding skip_loop skip_step
skip_loop_started zero q = refl
skip_loop_started (suc n) q =
    skip_loop_started n (skip_step q)
    ∙ if_either (λ (r : Queue). r.started ≡ q.started) (holds (slot_of q.slots q.cursor) q.cursor)
        (λ _. refl) (λ _. refl)

pub skip_to_started : (q : Queue) (a : ℕ) → (skip_to q a).0.started ≡ q.started
unfolding skip_to
skip_to_started q a =
    if_either (λ (r : Queue × ℕ). r.0.started ≡ q.started) (not q.started) (λ _. refl)
      (λ _.
        if_either (λ (r : Queue × ℕ). r.0.started ≡ q.started) (leb_ℤ (distance q.cursor a) (pos 0))
          (λ _. refl) (λ _. skip_loop_started (min (pos_part (distance q.cursor a)) 64) q))

pub start_started : (q : Queue) (s : ℕ) → (start q s).started ≡ true
unfolding start
start_started q s = ground arith

-- What an insertion into a started queue leaves alone.
abbrev fixed : Queue → Bool × ℕ
fixed q = (q.started, q.cursor)

fixed-store :
    (q : Queue) (info : FrameInfo) (payload : List ℕ) → fixed (store q info payload).0 ≡ fixed q
unfolding store
fixed-store q info payload =
    if_either (λ (r : Queue × Insert). fixed r.0 ≡ fixed q)
      (slot_of q.slots info.header.sequence).occupied (λ _. refl) (λ _. refl)

fixed-classify :
    (q : Queue) (info : FrameInfo) (payload : List ℕ) (now : ℕ)
    → fixed (classify q info payload now).0 ≡ fixed q
unfolding classify
fixed-classify q info payload now =
    let offset = distance q.cursor info.header.sequence in
    let Same = λ (r : Queue × Insert). fixed r.0 ≡ fixed q in
    if_either Same (ltb_ℤ offset (pos 0))
      (λ _. if_either Same (ltb_ℤ (negsuc 63) offset) (λ _. refl) (λ _. refl))
      (λ _.
        if_either Same (leb_ℤ (pos 64) offset) (λ _. refl)
          (λ _.
            if_either Same (ltb info.deadline_us now) (λ _. refl)
              (λ _. fixed-store q info payload)))

start_same : (q : Queue) (s : ℕ) → q.started ≡ true → start q s ≡ q
unfolding start
start_same q s on = simp on

fixed-insert :
    (q : Queue) (info : FrameInfo) (payload : List ℕ) (now : ℕ)
    → q.started ≡ true
    → fixed (insert q info payload now).0 ≡ fixed q
unfolding insert
fixed-insert q info payload now on =
    if_either (λ (r : Queue × Insert). fixed r.0 ≡ fixed q) (ltb 512 (length payload)) (λ _. refl)
      (λ _.
        fixed-classify (start q info.header.sequence) info payload now
        ∙ ap fixed (start_same q info.header.sequence on))

pub insert_started :
    (q : Queue) (info : FrameInfo) (payload : List ℕ) (now : ℕ)
    → q.started ≡ true
    → (insert q info payload now).0.started ≡ true
insert_started q info payload now on = ap (λ c. c.0) (fixed-insert q info payload now on) ∙ on

pub insert_cursor :
    (q : Queue) (info : FrameInfo) (payload : List ℕ) (now : ℕ)
    → q.started ≡ true
    → (insert q info payload now).0.cursor ≡ q.cursor
insert_cursor q info payload now on = ap (λ c. c.1) (fixed-insert q info payload now on)
