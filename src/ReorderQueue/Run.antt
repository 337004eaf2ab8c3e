-- ===== src/ReorderQueue/Run.antt =====
-- reorder_queue.cpp: every operation of the queue as a call, and every sequence of calls.
use full_duplex_radio.Prelude.{
  ℕ, ◌^◌, ◌≤◌, ◌<◌, ◌≡◌, ◌⊎◌, arith, List, [], ◌∷◌, All, true, false, dec_lt, Bool-cases, inl, inr,
}
use full_duplex_radio.Serial.{sub32, distance}
use full_duplex_radio.ReorderQueue.{Queue, FrameInfo, start, resync, reset, insert}
use full_duplex_radio.ReorderQueue.Consume.{advance, skip_to, drop_expired}
use full_duplex_radio.ReorderQueue.Valid.{IsValid, start-IsValid}
use full_duplex_radio.ReorderQueue.Arrivals.{insert-IsValid}
use full_duplex_radio.ReorderQueue.Advance.{advance-IsValid}
use full_duplex_radio.ReorderQueue.Skip.{peek-skip_to}
use full_duplex_radio.ReorderQueue.Emptied.{reset-IsValid, resync-IsValid}
use full_duplex_radio.ReorderQueue.Expiry.{drop_expired-IsValid}

skip_to_idle : (q : Queue) (a : ℕ) → q.started ≡ false → skip_to q a ≡ (q, 0)
unfolding skip_to
skip_to_idle q a off = ground arith

-- A target that is not ahead moves nothing.
skip_to_behind :
    (q : Queue) (a : ℕ)
    → q.started ≡ true
    → (sub32 a q.cursor ≡ 0) ⊎ (2 ^ 31 ≤ sub32 a q.cursor)
    → skip_to q a ≡ (q, 0)
unfolding skip_to distance
skip_to_behind q a on h = ground arith

pub skip_to-IsValid : {q : Queue} (a : ℕ) → a < 2 ^ 32 → IsValid q → IsValid (skip_to q a).0
skip_to-IsValid {q} a ha v = elim (Bool-cases q.started) [
  | inr off ↦ rw (skip_to_idle q a off) v
  | inl on ↦ elim (dec_lt 0 (sub32 a q.cursor)) [
    | no still ↦ rw (skip_to_behind q a on (inl (omega arith))) v
    | yes ahead ↦ elim (dec_lt (sub32 a q.cursor) (2 ^ 31)) [
      | no far ↦ rw (skip_to_behind q a on (inr (omega arith))) v
      | yes near ↦ (peek-skip_to {q = q} a a v on ha ha ahead near).2
    ]
  ]
]

-- The calls that change the queue.
pub data Call : Type 0 where
  call_start : ℕ → Call
  call_insert : FrameInfo → List ℕ → ℕ → Call
  call_advance : Call
  call_skip_to : ℕ → Call
  call_drop_expired : ℕ → Call
  call_resync : ℕ → Call
  call_reset : Call

unfoldable pub perform : Queue → Call → Queue
perform q (call_start s) = start q s
perform q (call_insert info payload now) = (insert q info payload now).0
perform q call_advance = (advance q).0
perform q (call_skip_to s) = (skip_to q s).0
perform q (call_drop_expired now) = (drop_expired q now).0
perform q (call_resync s) = resync q s
perform q call_reset = reset q

unfoldable pub run : Queue → List Call → Queue
unfolding perform
run q [] = q
run q (c ∷ cs) = run (perform q c) cs

-- The sequence numbers of a call are uint32_t.
abbrev pub InRange : Call → Type 0
InRange (call_start s) = s < 2 ^ 32
InRange (call_insert info payload now) = info.header.sequence < 2 ^ 32
InRange call_advance = Unit
InRange (call_skip_to s) = s < 2 ^ 32
InRange (call_drop_expired now) = Unit
InRange (call_resync s) = s < 2 ^ 32
InRange call_reset = Unit

perform-IsValid : {q : Queue} (c : Call) → InRange c → IsValid q → IsValid (perform q c)
unfolding perform
perform-IsValid (call_start s) h v = start-IsValid s h v
perform-IsValid (call_insert info payload now) h v = insert-IsValid info payload now v h
perform-IsValid call_advance h v = advance-IsValid v
perform-IsValid (call_skip_to s) h v = skip_to-IsValid s h v
perform-IsValid (call_drop_expired now) h v = drop_expired-IsValid now v
perform-IsValid (call_resync s) h v = resync-IsValid s h v
perform-IsValid call_reset h v = reset-IsValid v

-- From a valid queue every sequence of calls, in any order and with any 32-bit sequence numbers,
-- ends in a valid queue.
pub run-IsValid : (cs : List Call) {q : Queue} → All InRange cs → IsValid q → IsValid (run q cs)
unfolding run
run-IsValid [] h v = v
run-IsValid (c ∷ cs) {q} (h, hs) v = run-IsValid cs hs (perform-IsValid {q = q} c h v)
