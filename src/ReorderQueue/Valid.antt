-- ===== src/ReorderQueue/Valid.antt =====
-- reorder_queue.cpp: the invariant of the queue, and that every operation keeps it.
use full_duplex_radio.Prelude.{
  ℕ, ◌%◌, ◌^◌, ◌≤◌, ◌<◌, ◌≡◌, ◌≢◌, sym, ◌∙◌, List, arith, length, get_or, set, true, false, ◌||◌,
  ◌==◌, if◌then◌else◌, length-set, length-copy_at, ℕ_discrete, Bool-cases, inl, inr, subst,
}
use full_duplex_radio.Serial.{sub32, precedes}
use full_duplex_radio.ReorderQueue.{
  Slot, Queue, FrameInfo, index, slot_of, empty_slot, new, start, fill, inc64,
}
use full_duplex_radio.ReorderQueue.Slots.{
  index_lem, get_or-set, count_occupied, count_occupied-set, count_occupied_pos, some_occupied,
  count_occupied-le,
}

-- An occupied slot `i` holds a frame of the 64-wide window from the cursor `c` on, at its own
-- index, and no further ahead than `h`.
pub record SlotOk (c h i : ℕ) (s : Slot) : Type 0 where
  pub storage : length s.bytes ≡ 512
  pub in_range : s.occupied ≡ true → s.info.header.sequence < 2 ^ 32
  pub own_index : s.occupied ≡ true → s.info.header.sequence % 64 ≡ i
  pub not_above : s.occupied ≡ true → sub32 s.info.header.sequence c ≤ sub32 h c
  pub in_window : s.occupied ≡ true → sub32 h c < 64
  pub size_in : s.occupied ≡ true → s.size ≤ 512

pub record IsValid (q : Queue) : Type 0 where
  pub slot_count : length q.slots ≡ 64
  pub cursor_in : q.cursor < 2 ^ 32
  pub highest_in : q.highest < 2 ^ 32
  pub held_eq : q.held ≡ count_occupied q.slots
  pub idle : q.started ≡ false → q.held ≡ 0
  pub slots_ok : (i : ℕ) → i < 64 → SlotOk q.cursor q.highest i (get_or q.slots i empty_slot)

-- What a `set` leaves in each slot.
pub set_ok :
    (ss : List Slot) (c h j : ℕ) (v : Slot)
    → length ss ≡ 64
    → j < 64
    → SlotOk c h j v
    → ((i : ℕ) → i < 64 → i ≢ j → SlotOk c h i (get_or ss i empty_slot))
    → (i : ℕ) → i < 64
    → SlotOk c h i (get_or (set ss j v) i empty_slot)
set_ok ss c h j v len hj new old i hi = elim (ℕ_discrete j i) [
  | yes e ↦
      rw (get_or-set ss j i v empty_slot (omega arith))
        (let t : (j == i) ≡ true = ground arith in rw t (subst (λ k. SlotOk c h k v) e new))
  | no ne ↦
      rw (get_or-set ss j i v empty_slot (omega arith))
        (let t : (j == i) ≡ false = ground arith in rw t (old i hi (λ e. ne (sym e))))
]

-- The occupied slot at the index of a number in the window holds that very number: two numbers
-- share a slot only if they differ by a multiple of 64.
pub occupied_same :
    {q : Queue} (s : ℕ)
    → IsValid q
    → s < 2 ^ 32
    → sub32 s q.cursor < 64
    → (slot_of q.slots s).occupied ≡ true
    → (slot_of q.slots s).info.header.sequence ≡ s
occupied_same {q} s v hs near o =
    let ok = v.slots_ok (index s) (omega (arith, index_lem s)) in
    omega (
      arith,
      index_lem s,
      ok.in_range o,
      ok.own_index o,
      ok.not_above o,
      ok.in_window o,
      v.cursor_in,
    )

pub vacant_ok : (c h i : ℕ) (s : Slot) → length s.bytes ≡ 512 → s.occupied ≡ false → SlotOk c h i s
vacant_ok c h i s len e = record {
  storage = len;
  in_range = λ o. cc;
  own_index = λ o. cc;
  not_above = λ o. cc;
  in_window = λ o. cc;
  size_in = λ o. cc;
}

pub unoccupied :
    {q : Queue} → IsValid q → q.held ≡ 0 → (i : ℕ) → (get_or q.slots i empty_slot).occupied ≡ false
unoccupied {q} v e i = elim (Bool-cases (get_or q.slots i empty_slot).occupied) [
  | inl o ↦ absurd (omega (arith, v.held_eq, count_occupied_pos q.slots i o))
  | inr n ↦ n
]

-- Where something is held, `highest` is in the window.
pub highest_in_window : {q : Queue} → IsValid q → q.held ≢ 0 → sub32 q.highest q.cursor < 64
highest_in_window {q} v ne =
    let (i, below, o) = some_occupied q.slots (omega (arith, v.held_eq)) in
    (v.slots_ok i (omega (arith, v.slot_count))).in_window o

-- The counters do not matter to the invariant.
pub recount :
    (q : Queue) (a d l o f z e i v g r : ℕ)
    → IsValid q
    → IsValid (record q {
      accepts = a;
      duplicates = d;
      lates = l;
      too_olds = o;
      too_far_aheads = f;
      oversizes = z;
      expired = e;
      discarded = i;
      deliveries = v;
      gaps = g;
      resyncs = r;
    })
recount q a d l o f z e i v g r ok = record {
  slot_count = ok.slot_count;
  cursor_in = ok.cursor_in;
  highest_in = ok.highest_in;
  held_eq = ok.held_eq;
  idle = ok.idle;
  slots_ok = ok.slots_ok;
}

pub start-IsValid : {q : Queue} (s : ℕ) → s < 2 ^ 32 → IsValid q → IsValid (start q s)
unfolding start
start-IsValid {q} s hs v = elim (Bool-cases q.started) [
  | inl on ↦ simp on v
  | inr off ↦ simp off (record {
    slot_count = v.slot_count;
    cursor_in = hs;
    highest_in = hs;
    held_eq = v.held_eq;
    idle = λ e. cc;
    slots_ok = λ i hi. vacant_ok s s i _ (v.slots_ok i hi).storage (unoccupied v (v.idle off) i);
  })
]

-- The mark that `insert` moves up: never below a frame that is held.
unfoldable pub new_highest : Queue → ℕ → ℕ
new_highest q a = if q.held == 0 || precedes q.highest a then a else q.highest

module _ {q : Queue} (info : FrameInfo) (payload : List ℕ) (v : IsValid q) (on : q.started ≡ true)
    (range : info.header.sequence < 2 ^ 32) (near : sub32 info.header.sequence q.cursor < 64)
    (fits : length payload ≤ 512) where
  new_highest_bounds :
      (new_highest q info.header.sequence < 2 ^ 32)
      × (sub32 (new_highest q info.header.sequence) q.cursor < 64)
      × (sub32 info.header.sequence q.cursor ≤ sub32 (new_highest q info.header.sequence) q.cursor)
      × (q.held ≢ 0
          → sub32 q.highest q.cursor ≤ sub32 (new_highest q info.header.sequence) q.cursor)
  unfolding new_highest precedes
  new_highest_bounds = elim (ℕ_discrete q.held 0) [
    | yes e ↦ ground arith
    | no ne ↦ ground (arith, highest_in_window v ne, v.cursor_in, v.highest_in)
  ]

  store_slots :
      (i : ℕ)
      → i < 64
      → SlotOk q.cursor (new_highest q info.header.sequence) i (
          get_or
            (set q.slots
              (index info.header.sequence)
              (fill (slot_of q.slots info.header.sequence) info payload))
            i
            empty_slot)
  store_slots =
      set_ok q.slots q.cursor (new_highest q info.header.sequence) (index info.header.sequence)
        (fill (slot_of q.slots info.header.sequence) info payload) v.slot_count
        (omega (arith, index_lem info.header.sequence))
        (record {
          storage =
              length-copy_at (slot_of q.slots info.header.sequence).bytes payload ∙ old_storage;
          in_range = λ o. range;
          own_index = λ o. sym (index_lem info.header.sequence);
          not_above = λ o. new_highest_bounds.2;
          in_window = λ o. new_highest_bounds.1;
          size_in = λ o. omega arith;
        })
        (λ i hi ne.
          let ok = v.slots_ok i hi in
          record {
            storage = ok.storage;
            in_range = ok.in_range;
            own_index = ok.own_index;
            not_above = λ o. omega (
              arith,
              ok.not_above o,
              new_highest_bounds.3
                  (λ e. absurd (omega (arith, v.held_eq, count_occupied_pos q.slots i o))),
            );
            in_window = λ o. new_highest_bounds.1;
            size_in = ok.size_in;
          })
    where
      old_storage : length (slot_of q.slots info.header.sequence).bytes ≡ 512
      old_storage =
          (v.slots_ok (index info.header.sequence)
            (omega (arith, index_lem info.header.sequence))).storage

  pub store_free :
      (slot_of q.slots info.header.sequence).occupied ≡ false
      → IsValid (record q {
        slots =
            set q.slots
              (index info.header.sequence)
              (fill (slot_of q.slots info.header.sequence) info payload);
        highest = new_highest q info.header.sequence;
        held = inc64 q.held;
        accepts = inc64 q.accepts;
      })
  store_free free = record {
    slot_count = length-set q.slots _ _ ∙ v.slot_count;
    cursor_in = v.cursor_in;
    highest_in = new_highest_bounds.0;
    held_eq = ground (
      arith,
      v.held_eq,
      v.slot_count,
      index_lem info.header.sequence,
      count_occupied-le q.slots,
      count_occupied-set q.slots (index info.header.sequence)
          (fill (slot_of q.slots info.header.sequence) info payload) empty_slot,
    );
    idle = λ off. cc;
    slots_ok = store_slots;
  }
