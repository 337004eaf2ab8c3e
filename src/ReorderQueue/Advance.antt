-- ===== src/ReorderQueue/Advance.antt =====
-- reorder_queue.cpp: `advance`, `skip_to`, and every sequence of calls.
use full_duplex_radio.Prelude.{
  ℕ, zero, suc, ◌+◌, ◌%◌, ◌^◌, ◌≤◌, ◌<◌, ◌≡◌, refl, ◌∙◌, arith, true, false, ltb, ◌==◌,
  if◌then◌else◌, Bool-cases, inl, inr, none,
}
use full_duplex_radio.Serial.{sub32, add32, distance}
use full_duplex_radio.ReorderQueue.{Queue, Step, delivered, gap, inc64}
use full_duplex_radio.ReorderQueue.Consume.{
  peek, step_once, advance, count_step, skip_step, skip_loop, skip_to,
}
use full_duplex_radio.ReorderQueue.Valid.{IsValid, recount}
use full_duplex_radio.ReorderQueue.Window.{is_some}
use full_duplex_radio.ReorderQueue.Playout.{
  step_once-IsValid, skip_step-IsValid, peek-step_once, step_state, holds_cursor,
}

-- Counting a step changes nothing that `peek` reads.
count_step_same :
    (r : Queue × Step)
    → ((count_step r).0.slots ≡ r.0.slots)
      × ((count_step r).0.cursor ≡ r.0.cursor)
      × ((count_step r).0.started ≡ r.0.started)
      × ((count_step r).1 ≡ r.1)
count_step_same (q, delivered) = (refl, refl, refl, refl)
count_step_same (q, gap) = (refl, refl, refl, refl)

count_step-IsValid : (r : Queue × Step) → IsValid r.0 → IsValid (count_step r).0
count_step-IsValid (q, delivered) v =
    recount q q.accepts q.duplicates q.lates q.too_olds q.too_far_aheads q.oversizes q.expired
      q.discarded (inc64 q.deliveries) q.gaps q.resyncs v
count_step-IsValid (q, gap) v =
    recount q q.accepts q.duplicates q.lates q.too_olds q.too_far_aheads q.oversizes q.expired
      q.discarded q.deliveries (inc64 q.gaps) q.resyncs v

-- `peek` reads the slots, the cursor and `started` alone.
pub peek_same :
    (a b : Queue) (s : ℕ)
    → a.slots ≡ b.slots
    → a.cursor ≡ b.cursor
    → a.started ≡ b.started
    → peek a s ≡ peek b s
unfolding peek
peek_same a b s e1 e2 e3 = rw (e1, e2, e3)

advance_started : (q : Queue) → q.started ≡ true → advance q ≡ count_step (step_once q)
unfolding advance
advance_started q on = simp on

advance_idle : (q : Queue) → q.started ≡ false → advance q ≡ (record q { gaps = inc64 q.gaps }, gap)
unfolding advance
advance_idle q off = simp off

-- `advance` keeps the invariant.
pub advance-IsValid : {q : Queue} → IsValid q → IsValid (advance q).0
advance-IsValid {q} v = elim (Bool-cases q.started) [
  | inl on ↦ rw (advance_started q on) (count_step-IsValid (step_once q) (step_once-IsValid v on))
  | inr off ↦ rw (advance_idle q off) (
      recount q q.accepts q.duplicates q.lates q.too_olds q.too_far_aheads q.oversizes q.expired
        q.discarded q.deliveries (inc64 q.gaps) q.resyncs v)
]

-- A queue that has started stays so.
pub advance_on : {q : Queue} → IsValid q → q.started ≡ true → (advance q).0.started ≡ true
advance_on {q} v on =
    rw (advance_started q on) ((count_step_same (step_once q)).2 ∙ (step_state v on).0)

-- `advance` on a valid and started queue delivers exactly when `peek` shows a frame at the cursor.
-- It moves the cursor on by one; that frame is gone for good and every other frame is as before.
pub peek-advance :
    {q : Queue} (s : ℕ)
    → IsValid q
    → q.started ≡ true
    → s < 2 ^ 32
    → let (q', step) = advance q in
      (step ≡ (if is_some (peek q q.cursor) then delivered else gap))
      × (q'.cursor ≡ add32 q.cursor 1)
      × (peek q' s ≡ (if s == q.cursor then none else peek q s))
peek-advance {q} s v on hs = rw (advance_started q on) (
    let same = count_step_same (step_once q) in
    let stepped = step_state v on in
    (
      same.3 ∙ stepped.2 ∙ rw (holds_cursor v on),
      same.1 ∙ stepped.1,
      peek_same _ (step_once q).0 s same.0 same.1 same.2 ∙ peek-step_once v on s hs,
    ))

-- A round of `skip_to` moves the queue as `step_once` does.
skip_step_same :
    (q : Queue)
    → ((skip_step q).slots ≡ (step_once q).0.slots)
      × ((skip_step q).cursor ≡ (step_once q).0.cursor)
      × ((skip_step q).started ≡ (step_once q).0.started)
unfolding skip_step step_once
skip_step_same q = (ground arith, ground arith, ground arith)

pub record Skipped (q q' : Queue) (n : ℕ) : Type 0 where
  pub valid : IsValid q'
  pub on : q'.started ≡ true
  pub cursor_eq : q'.cursor ≡ add32 q.cursor n
  pub shown :
      (s : ℕ) → s < 2 ^ 32 → peek q' s ≡ (if ltb (sub32 s q.cursor) n then none else peek q s)

pub skip_loop-Skipped :
    (n : ℕ) {q : Queue} → n ≤ 64 → IsValid q → q.started ≡ true → Skipped q (skip_loop n q) n
unfolding skip_loop
skip_loop-Skipped zero {q} h v on = record {
  valid = v;
  on = on;
  cursor_eq = omega (arith, v.cursor_in);
  shown = λ s hs. ground arith;
}
skip_loop-Skipped (suc n) {q} h v on =
    let same = skip_step_same q in
    let stepped = step_state v on in
    let rest =
      skip_loop-Skipped n {q = skip_step q} (omega arith) (skip_step-IsValid v on)
        (same.2 ∙ stepped.0) in
    record {
      valid = rest.valid;
      on = rest.on;
      cursor_eq = omega (arith, rest.cursor_eq, same.1, stepped.1);
      shown = λ s hs. ground (
        arith,
        rest.shown s hs,
        same.1,
        stepped.1,
        peek_same (skip_step q) (step_once q).0 s same.0 same.1 same.2,
        peek-step_once v on s hs,
        v.cursor_in,
      );
    }

module _ {q : Queue} (a : ℕ) (v : IsValid q) (on : q.started ≡ true) (ha : a < 2 ^ 32) where
  -- A jump of at most one window ends where the loop ends.
  pub skip_near :
      0 < sub32 a q.cursor
      → sub32 a q.cursor ≤ 64
      → let q' = skip_loop (sub32 a q.cursor) q in
        skip_to q a
        ≡ (record q' { gaps = (q'.gaps + sub32 a q.cursor) % 2 ^ 64; cursor = a }, sub32 a q.cursor)
  unfolding skip_to distance
  skip_near h0 h1 = ground arith

  -- A longer one has passed every slot of the window.
  pub skip_far :
      64 < sub32 a q.cursor
      → sub32 a q.cursor < 2 ^ 31
      → let q' = skip_loop 64 q in
        skip_to q a
        ≡ (record q' { gaps = (q'.gaps + sub32 a q.cursor) % 2 ^ 64; cursor = a }, sub32 a q.cursor)
  unfolding skip_to distance
  skip_far h0 h1 = ground arith
