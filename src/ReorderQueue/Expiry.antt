-- ===== src/ReorderQueue/Expiry.antt =====
-- reorder_queue.cpp, `drop_expired`: what it drops and what it keeps.
use full_duplex_radio.Prelude.{
  ℕ, zero, suc, ◌+◌, ◌^◌, ◌≤◌, ◌<◌, ◌≡◌, refl, ap, ◌∙◌, List, [], ◌∷◌, arith, length, get_or, Bool,
  Option, none, some, ◌&&◌, ltb, if◌then◌else◌, Bool-cases, inl, inr,
}
use full_duplex_radio.ReorderQueue.{
  Slot, Queue, Frame, empty_slot, vacate, inc64, dec64, slot_of, index,
}
use full_duplex_radio.ReorderQueue.Slots.{count_occupied, count_occupied-le}
use full_duplex_radio.ReorderQueue.Consume.{peek, drop_loop, drop_expired}
use full_duplex_radio.ReorderQueue.Valid.{IsValid, SlotOk, vacant_ok}
use full_duplex_radio.ReorderQueue.Window.{peek_lem, frame_of}
use full_duplex_radio.Serial.{sub32}

abbrev is_expired : ℕ → Slot → Bool
is_expired now s = s.occupied && ltb s.info.deadline_us now

-- What the loop leaves of one slot.
abbrev expire_slot : ℕ → Slot → Slot
expire_slot now s = if is_expired now s then vacate s else s

drop_loop_slots :
    (now : ℕ) (ss : List Slot) (held expired dropped : ℕ)
    → (length (drop_loop now ss held expired dropped).0 ≡ length ss)
      × ((i : ℕ)
          → get_or (drop_loop now ss held expired dropped).0 i empty_slot
            ≡ expire_slot now (get_or ss i empty_slot))
unfolding drop_loop
drop_loop_slots now [] held expired dropped = (refl, λ i. refl)
drop_loop_slots now (s ∷ ss) held expired dropped =
    let rest =
      drop_loop_slots now ss (if is_expired now s then dec64 held else held)
        (if is_expired now s then inc64 expired else expired)
        (if is_expired now s then dropped + 1 else dropped) in
    (ap suc rest.0, at _ rest.1)
  where
    at :
        (r : List Slot)
        → ((i : ℕ) → get_or r i empty_slot ≡ expire_slot now (get_or ss i empty_slot))
        → (i : ℕ)
        → get_or (expire_slot now s ∷ r) i empty_slot
          ≡ expire_slot now (get_or (s ∷ ss) i empty_slot)
    at r h zero = refl
    at r h (suc i) = h i

-- The loop counts down `held` once for every slot that it vacates.
drop_loop_held :
    (now : ℕ) (ss : List Slot) (held expired dropped : ℕ)
    → count_occupied ss ≤ held
    → held < 2 ^ 64
    → let (ss', h, e, d) = drop_loop now ss held expired dropped in
      (h + count_occupied ss ≡ held + count_occupied ss')
      × (d + count_occupied ss' ≡ dropped + count_occupied ss)
unfolding drop_loop count_occupied
drop_loop_held now [] held expired dropped le lt = (omega arith, omega arith)
drop_loop_held now (s ∷ ss) held expired dropped le lt = elim (Bool-cases (is_expired now s)) [
  | inl gone ↦ simp gone (
      let k =
        drop_loop_held now ss (dec64 held) (inc64 expired) (dropped + 1) (ground arith)
          (omega arith) in
      (ground arith, ground arith))
  | inr kept ↦ simp kept (
      let k = drop_loop_held now ss held expired dropped (omega arith) lt in
      (ground arith, ground arith))
]

expire_slot_ok : (now c h i : ℕ) (s : Slot) → SlotOk c h i s → SlotOk c h i (expire_slot now s)
expire_slot_ok now c h i s ok = elim (Bool-cases (is_expired now s)) [
  | inl gone ↦ rw gone (vacant_ok c h i (vacate s) ok.storage refl)
  | inr kept ↦ rw kept ok
]

module _ {q : Queue} (now : ℕ) (v : IsValid q) where
  expired_held :
      let (q', d) = drop_expired q now in
      (q'.held ≡ count_occupied q'.slots) × (d + q'.held ≡ q.held)
  unfolding drop_expired
  expired_held =
      let small = count_occupied-le q.slots in
      let k =
        drop_loop_held now q.slots q.held q.expired 0 (omega (arith, v.held_eq))
          (omega (arith, v.held_eq, v.slot_count)) in
      (omega (arith, v.held_eq, k.0), omega (arith, v.held_eq, k.0, k.1))

  pub drop_expired-IsValid : IsValid (drop_expired q now).0
  unfolding drop_expired
  drop_expired-IsValid =
      let k = drop_loop_slots now q.slots q.held q.expired 0 in
      record {
        slot_count = k.0 ∙ v.slot_count;
        cursor_in = v.cursor_in;
        highest_in = v.highest_in;
        held_eq = expired_held.0;
        idle = λ e. omega (arith, v.idle e, expired_held.1);
        slots_ok = λ i hi. rw (k.1 i) (expire_slot_ok now q.cursor q.highest i _ (v.slots_ok i hi));
      }

  expired_slot_of :
      (s : ℕ) → slot_of (drop_expired q now).0.slots s ≡ expire_slot now (slot_of q.slots s)
  unfolding drop_expired
  expired_slot_of s = (drop_loop_slots now q.slots q.held q.expired 0).1 (index s)

-- The frame, unless its deadline has passed.
abbrev pub unexpired : ℕ → Option Frame → Option Frame
unexpired now none = none
unexpired now (some f) = if ltb f.info.deadline_us now then none else some f

expired_same :
    (q : Queue) (now : ℕ)
    → ((drop_expired q now).0.cursor ≡ q.cursor) × ((drop_expired q now).0.started ≡ q.started)
unfolding drop_expired
expired_same q now = (refl, refl)

shown_slot :
    (now : ℕ) (on near : Bool) (x : Slot)
    → (if on && (near && (expire_slot now x).occupied)
        then some (frame_of (expire_slot now x))
        else none)
      ≡ unexpired now (if on && (near && x.occupied) then some (frame_of x) else none)
shown_slot now on near x = elim (Bool-cases (is_expired now x)) [
  | inl gone ↦ ground arith
  | inr kept ↦ ground arith
]

-- `drop_expired` on a valid queue leaves exactly the frames whose deadline has not passed, where
-- they were, and returns how many fewer are held; the queue stays valid.
pub peek-drop_expired :
    {q : Queue} (now s : ℕ)
    → IsValid q
    → s < 2 ^ 32
    → let (q', dropped) = drop_expired q now in
      (peek q' s ≡ unexpired now (peek q s))
      × (dropped + q'.held ≡ q.held)
      × (q'.cursor ≡ q.cursor)
      × IsValid q'
peek-drop_expired {q} now s v hs = (
  peek_lem s (drop_expired-IsValid now v) hs
      ∙ rw
          (expired_slot_of now v s, peek_lem s v hs, (expired_same q now).0, (expired_same q now).1)
          (shown_slot now q.started (ltb (sub32 s q.cursor) 64) (slot_of q.slots s)),
  (expired_held now v).1,
  (expired_same q now).0,
  drop_expired-IsValid now v,
)
