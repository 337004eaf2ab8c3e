-- ===== src/ReorderQueue/Skip.antt =====
-- reorder_queue.cpp: what is left in the queue after `skip_to`, near and far.
use full_duplex_radio.Prelude.{
  ℕ, ◌+◌, ◌%◌, ◌^◌, ◌<◌, ◌≡◌, refl, sym, ◌∙◌, arith, get_or, true, false, ltb, if◌then◌else◌,
  dec_lt, Bool-cases, inl, inr, none, subst,
}
use full_duplex_radio.Serial.{sub32}
use full_duplex_radio.ReorderQueue.{Queue, slot_of, index, empty_slot}
use full_duplex_radio.ReorderQueue.Valid.{IsValid, recount, vacant_ok}
use full_duplex_radio.ReorderQueue.Slots.{index_lem}
use full_duplex_radio.ReorderQueue.Consume.{peek, skip_loop, skip_to}
use full_duplex_radio.ReorderQueue.Window.{peek_lem}
use full_duplex_radio.ReorderQueue.Advance.{
  peek_same, Skipped, skip_loop-Skipped, skip_near, skip_far,
}

-- A full window of rounds leaves no slot occupied.
emptied :
    {q q' : Queue}
    → IsValid q
    → Skipped q q' 64
    → (i : ℕ) → i < 64
    → (get_or q'.slots i empty_slot).occupied ≡ false
emptied {q} {q'} v k i hi = elim (Bool-cases (get_or q'.slots i empty_slot).occupied) [
  | inr e ↦ e
  | inl o ↦
      let s = (get_or q'.slots i empty_slot).info.header.sequence in
      let ok = k.valid.slots_ok i hi in
      let here : index s ≡ i = omega (arith, index_lem s, ok.own_index o) in
      let held : (slot_of q'.slots s).occupied ≡ true =
        subst (λ j. (get_or q'.slots j empty_slot).occupied ≡ true) (sym here) o in
      ground (
        arith,
        held,
        ok.in_range o,
        ok.not_above o,
        ok.in_window o,
        k.on,
        k.shown s (ok.in_range o),
        peek_lem s v (ok.in_range o),
        peek_lem s k.valid (ok.in_range o),
      )
]

emptied-IsValid :
    {q' : Queue} (a g : ℕ)
    → IsValid q'
    → q'.started ≡ true
    → a < 2 ^ 32
    → ((i : ℕ) → i < 64 → (get_or q'.slots i empty_slot).occupied ≡ false)
    → IsValid (record q' { gaps = g; cursor = a })
emptied-IsValid {q'} a g v on ha e = record {
  slot_count = v.slot_count;
  cursor_in = ha;
  highest_in = v.highest_in;
  held_eq = v.held_eq;
  idle = λ off. cc;
  slots_ok = λ i hi. vacant_ok a q'.highest i _ (v.slots_ok i hi).storage (e i hi);
}

-- A jump ahead on a valid and started queue lands on its target and returns the number of
-- positions jumped. Every frame before the target is gone, every frame from it on is kept, and the
-- queue stays valid, also where the jump is wider than the window.
pub peek-skip_to :
    {q : Queue} (a s : ℕ)
    → IsValid q
    → q.started ≡ true
    → a < 2 ^ 32
    → s < 2 ^ 32
    → 0 < sub32 a q.cursor
    → sub32 a q.cursor < 2 ^ 31
    → let (q', n) = skip_to q a in
      (n ≡ sub32 a q.cursor)
      × (q'.cursor ≡ a)
      × IsValid q'
      × (peek q' s ≡ (if ltb (sub32 s q.cursor) n then none else peek q s))
peek-skip_to {q} a s v on ha hs h0 h1 = elim (dec_lt 64 (sub32 a q.cursor)) [
  | no near ↦
      let n = sub32 a q.cursor in
      let k = skip_loop-Skipped n (omega arith) v on in
      let r = skip_loop n q in
      let target : r.cursor ≡ a = omega (arith, k.cursor_eq, v.cursor_in) in
      let g = (r.gaps + n) % 2 ^ 64 in
      rw (skip_near a v on ha h0 (omega arith)) (
        refl,
        refl,
        subst (λ c. IsValid (record r { gaps = g; cursor = c })) target
            (recount r r.accepts r.duplicates r.lates r.too_olds r.too_far_aheads r.oversizes
              r.expired r.discarded r.deliveries g r.resyncs k.valid),
        peek_same (record r { gaps = g; cursor = a }) r s refl (sym target) refl ∙ k.shown s hs,
      )
  | yes far ↦
      let n = sub32 a q.cursor in
      let k = skip_loop-Skipped 64 (omega arith) v on in
      let r = skip_loop 64 q in
      let g = (r.gaps + n) % 2 ^ 64 in
      let empty = emptied v k in
      let valid = emptied-IsValid a g k.valid k.on ha empty in
      rw (skip_far a v on ha far h1) (
        refl,
        refl,
        valid,
        ground (
          arith,
          peek_lem s valid hs,
          peek_lem s v hs,
          empty (index s) (omega (arith, index_lem s)),
        ),
      )
]
