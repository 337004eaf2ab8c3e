-- ===== src/ReorderQueue/Playout.antt =====
-- reorder_queue.cpp: stepping the cursor keeps the invariant, delivers what `peek` shows and
-- never goes back.
use full_duplex_radio.Prelude.{
  ℕ, ◌^◌, ◌<◌, ◌≡◌, ◌≢◌, sym, ◌∙◌, List, arith, get_or, set, true, false, ◌&&◌, ◌==◌, if◌then◌else◌,
  length-set, ℕ_discrete, Bool-cases, inl, inr, none, subst,
}
use full_duplex_radio.Serial.{add32}
use full_duplex_radio.ReorderQueue.{
  Slot, Queue, delivered, gap, slot_of, inc64, dec64, index, empty_slot, holds, vacate,
}
use full_duplex_radio.ReorderQueue.Slots.{
  index_lem, get_or-set, count_occupied-set, count_occupied-le, count_occupied_pos,
}
use full_duplex_radio.ReorderQueue.Consume.{peek, step_once, skip_step}
use full_duplex_radio.ReorderQueue.Valid.{IsValid, SlotOk, occupied_same, set_ok, recount}
use full_duplex_radio.ReorderQueue.Window.{peek_lem, is_some}

-- The slot array after the frame at the cursor, if there is one, has been taken.
abbrev pub taken : Queue → List Slot
taken q = set q.slots (index q.cursor) (vacate (slot_of q.slots q.cursor))

-- A slot that does not hold the frame at the cursor stays in order as the cursor moves on.
ok_next :
    (c h i : ℕ) (s : Slot)
    → c < 2 ^ 32
    → h < 2 ^ 32
    → SlotOk c h i s
    → (s.occupied ≡ true → s.info.header.sequence ≢ c)
    → SlotOk (add32 c 1) h i s
ok_next c h i s hc hh ok ne = record {
  storage = ok.storage;
  in_range = ok.in_range;
  own_index = ok.own_index;
  not_above = λ o. omega (arith, ne o, ok.in_range o, ok.not_above o, ok.in_window o);
  in_window = λ o. omega (arith, ne o, ok.in_range o, ok.not_above o, ok.in_window o);
  size_in = ok.size_in;
}

module _ {q : Queue} (v : IsValid q) (on : q.started ≡ true) where
  other_ne :
      (i : ℕ)
      → i < 64
      → i ≢ index q.cursor
      → (get_or q.slots i empty_slot).occupied ≡ true
      → (get_or q.slots i empty_slot).info.header.sequence ≢ q.cursor
  other_ne i hi ne o e = ne (omega (arith, (v.slots_ok i hi).own_index o, index_lem q.cursor, e))

  taken-IsValid :
      (slot_of q.slots q.cursor).occupied ≡ true
      → IsValid (record q { slots = taken q; held = dec64 q.held; cursor = add32 q.cursor 1 })
  taken-IsValid o = record {
    slot_count = length-set q.slots _ _ ∙ v.slot_count;
    cursor_in = omega arith;
    highest_in = v.highest_in;
    held_eq = ground (
      arith,
      v.held_eq,
      v.slot_count,
      index_lem q.cursor,
      count_occupied-le q.slots,
      count_occupied_pos q.slots (index q.cursor),
      count_occupied-set q.slots (index q.cursor) (vacate (slot_of q.slots q.cursor)) empty_slot,
    );
    idle = λ off. cc;
    slots_ok =
        set_ok q.slots (add32 q.cursor 1) q.highest (index q.cursor) _ v.slot_count
          (omega (arith, index_lem q.cursor))
          (record {
            storage = (v.slots_ok (index q.cursor) (omega (arith, index_lem q.cursor))).storage;
            in_range = λ o. cc;
            own_index = λ o. cc;
            not_above = λ o. cc;
            in_window = λ o. cc;
            size_in = λ o. cc;
          })
          (λ i hi ne.
            ok_next q.cursor q.highest i (get_or q.slots i empty_slot) v.cursor_in v.highest_in
              (v.slots_ok i hi) (other_ne i hi ne));
  }

  passed-IsValid :
      holds (slot_of q.slots q.cursor) q.cursor ≡ false
      → IsValid (record q { cursor = add32 q.cursor 1 })
  passed-IsValid h = record {
    slot_count = v.slot_count;
    cursor_in = omega arith;
    highest_in = v.highest_in;
    held_eq = v.held_eq;
    idle = v.idle;
    slots_ok = λ i hi.
        ok_next q.cursor q.highest i (get_or q.slots i empty_slot) v.cursor_in v.highest_in
          (v.slots_ok i hi)
          (elim (ℕ_discrete i (index q.cursor)) [
            | yes e ↦
                subst
                  (λ k.
                    (get_or q.slots k empty_slot).occupied ≡ true
                    → (get_or q.slots k empty_slot).info.header.sequence ≢ q.cursor)
                  (sym e) (λ o. ground arith)
            | no ne ↦ other_ne i hi ne
          ]);
  }

  pub holds_cursor : holds (slot_of q.slots q.cursor) q.cursor ≡ is_some (peek q q.cursor)
  holds_cursor =
      ground
        (arith, peek_lem q.cursor v v.cursor_in, occupied_same q.cursor v v.cursor_in, v.cursor_in)

  pub step_once-IsValid : IsValid (step_once q).0
  unfolding step_once
  step_once-IsValid = elim (Bool-cases (holds (slot_of q.slots q.cursor) q.cursor)) [
    | inl h ↦ simp h (taken-IsValid (ground arith))
    | inr h ↦ simp h (passed-IsValid h)
  ]

  pub skip_step-IsValid : IsValid (skip_step q)
  unfolding skip_step
  skip_step-IsValid = elim (Bool-cases (holds (slot_of q.slots q.cursor) q.cursor)) [
    | inl h ↦ simp h (
        recount _ q.accepts q.duplicates q.lates q.too_olds q.too_far_aheads q.oversizes q.expired
          (inc64 q.discarded) q.deliveries q.gaps q.resyncs (taken-IsValid (ground arith)))
    | inr h ↦ simp h (passed-IsValid h)
  ]

  -- What a slot holds after a step.
  slot_stepped :
      (s : ℕ)
      → s < 2 ^ 32
      → slot_of (step_once q).0.slots s ≡ (
          if holds (slot_of q.slots q.cursor) q.cursor && index q.cursor == index s
          then vacate (slot_of q.slots q.cursor)
          else slot_of q.slots s)
  unfolding step_once
  slot_stepped s hs = ground (
    arith,
    get_or-set q.slots (index q.cursor) (index s) (vacate (slot_of q.slots q.cursor)) empty_slot,
    index_lem q.cursor,
    v.slot_count,
  )

  pub step_state :
      ((step_once q).0.started ≡ true)
      × ((step_once q).0.cursor ≡ add32 q.cursor 1)
      × ((step_once q).1 ≡ (if holds (slot_of q.slots q.cursor) q.cursor then delivered else gap))
  unfolding step_once
  step_state = (ground arith, ground arith, ground arith)

  pub peek-step_once :
      (s : ℕ) → s < 2 ^ 32 → peek (step_once q).0 s ≡ (if s == q.cursor then none else peek q s)
  peek-step_once s hs = ground (
    arith,
    peek_lem s step_once-IsValid hs,
    peek_lem s v hs,
    occupied_same s v hs,
    occupied_same q.cursor v v.cursor_in,
    slot_stepped s hs,
    step_state,
    index_lem s,
    index_lem q.cursor,
    v.cursor_in,
  )
