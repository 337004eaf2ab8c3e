-- ===== src/Trace/Recent.antt =====
-- trace.hpp, trace.cpp: the buffer holds the last records, oldest first.
use full_duplex_radio.Prelude.{
  ℕ, ◌+◌, ◌-◌, ◌%◌, ◌^◌, ◌≤◌, ◌<◌, min, ◌≡◌, refl, sym, ap, ap₂, ◌∙◌, arith, List, [], ◌∷◌, ◌++◌,
  append-nil, append_assoc, length, length-set, length-append, length-replicate, get_or, set,
  Bool-cases, ltb, ◌==◌, if◌then◌else◌, dec_lt, inl, inr, subst,
}
use native.Mathlib.Nat.{mod-lt, mod-add-mod, add-mod_right}
use full_duplex_radio.Prelude.Places.{
  mod_apart, get_or-append, get_or-append_last, get_or-set_self, get_or-set_other,
}
use full_duplex_radio.Trace.{
  TraceRecord, TraceBuffer, blank, make, add_record, size, overwritten, item,
}

-- A buffer of `c` slots into which the records have been written.
record Holds (c : ℕ) (b : TraceBuffer) (rs : List TraceRecord) : Type 0 where
  slot_count : length b.slots ≡ c
  written_eq : b.written ≡ length rs
  at :
      (j : ℕ) → j < length rs → length rs ≤ j + c → get_or b.slots (j % c) blank ≡ get_or rs j blank

-- Writing records one after another.
unfoldable pub add_all : TraceBuffer → List TraceRecord → TraceBuffer
add_all b [] = b
add_all b (r ∷ rs) = add_all (add_record b r) rs

add_record-Holds :
    (c : ℕ) (b : TraceBuffer) (rs : List TraceRecord) (r : TraceRecord)
    → 0 < c
    → length rs + 1 < 2 ^ 64
    → Holds c b rs
    → Holds c (add_record b r) (rs ++ r ∷ [])
unfolding add_record
add_record-Holds c b rs r h small k =
    let place : b.written % length b.slots ≡ length rs % c =
      ap₂ (λ w n. w % n) k.written_eq k.slot_count in
    record {
      slot_count = length-set b.slots (b.written % length b.slots) r ∙ k.slot_count;
      written_eq = omega (arith, k.written_eq, length-append rs (r ∷ []));
      at = λ j hj recent. elim (dec_lt j (length rs)) [
        | yes old ↦
            get_or-set_other b.slots (b.written % length b.slots) (j % c) r blank (λ e.
              mod_apart j (length rs - j) c (omega arith)
                (omega (arith, recent, length-append rs (r ∷ [])))
                (e ∙ place ∙ ap (λ n. n % c) (omega arith)))
            ∙ k.at j old (omega (arith, recent, length-append rs (r ∷ [])))
            ∙ sym (get_or-append rs r j blank old)
        | no last ↦
            let here : j ≡ length rs = omega (arith, length-append rs (r ∷ [])) in
            ap (λ n. get_or (set b.slots (b.written % length b.slots) r) n blank)
              (ap (λ n. n % c) here ∙ sym place)
            ∙ get_or-set_self b.slots (b.written % length b.slots) r blank
                (omega (arith, place, k.slot_count, mod-lt (length rs) h))
            ∙ sym (get_or-append_last rs r blank)
            ∙ ap (λ n. get_or (rs ++ r ∷ []) n blank) (sym here)
      ];
    }

add_all-Holds :
    (c : ℕ) (b : TraceBuffer) (old rs : List TraceRecord)
    → 0 < c
    → length old + length rs < 2 ^ 64
    → Holds c b old
    → Holds c (add_all b rs) (old ++ rs)
unfolding add_all
add_all-Holds c b old [] h small k = subst (Holds c b) (sym (append-nil old)) k
add_all-Holds c b old (r ∷ rs) h small k =
    subst (Holds c (add_all (add_record b r) rs)) (append_assoc old (r ∷ []) rs) (
      add_all-Holds c (add_record b r) (old ++ r ∷ []) rs h
        (omega (arith, length-append old (r ∷ []))) (add_record-Holds c b old r h (omega arith) k))

-- The number of slots that the constructor makes.
abbrev pub slots_of : ℕ → ℕ
slots_of capacity = if capacity == 0 then 1 else capacity

make-Holds : (capacity : ℕ) → Holds (slots_of capacity) (make capacity) []
unfolding make
make-Holds capacity = record {
  slot_count = length-replicate (slots_of capacity) blank;
  written_eq = refl;
  at = λ j h recent. absurd (omega arith);
}

-- The place of the item `i` after `w` records: it is that of the record `w - min w c + i`.
place_of :
    (c w i : ℕ)
    → 0 < c
    → c ≤ 2 ^ 63
    → w < 2 ^ 64
    → i < min w c
    → ((if ltb w c then 0 else w % c) + i) % 2 ^ 64 % c ≡ (w - min w c + i) % c
place_of c w i h few small hi = elim (Bool-cases (ltb w c)) [
  | inl less ↦
      let lt : w < c = ground (arith, less) in
      let same : (0 + i) % 2 ^ 64 ≡ w - min w c + i = omega arith in rw less (ap (λ n. n % c) same)
  | inr more ↦
      let le : c ≤ w = ground (arith, more) in
      let inside : (w % c + i) % 2 ^ 64 ≡ w % c + i = omega (arith, mod-lt w h) in
      let ahead : w + i ≡ w - min w c + i + c = omega arith in
      rw more (
        ap (λ n. n % c) inside
        ∙ mod-add-mod w c i
        ∙ ap (λ n. n % c) ahead
        ∙ add-mod_right (w - min w c + i) c)
]

module _ (c : ℕ) (b : TraceBuffer) (rs : List TraceRecord) (h : 0 < c) (k : Holds c b rs)
    (few : c ≤ 2 ^ 63) (small : length rs < 2 ^ 64) where
  size_lem : size b ≡ min (length rs) c
  unfolding size
  size_lem = ground (arith, k.written_eq, k.slot_count)

  overwritten_lem : overwritten b ≡ length rs - c
  unfolding overwritten
  overwritten_lem = ground (arith, k.written_eq, k.slot_count)

  -- Where the item `i` stands.
  item_place :
      (i : ℕ)
      → i < min (length rs) c
      → ((if ltb b.written (length b.slots) then 0 else b.written % length b.slots) + i)
          % 2 ^ 64
          % length b.slots
        ≡ (length rs - min (length rs) c + i) % c
  item_place i hi = rw (k.written_eq, k.slot_count) (place_of c (length rs) i h few small hi)

  item_lem :
      (i : ℕ)
      → i < min (length rs) c
      → item b i ≡ get_or rs (length rs - min (length rs) c + i) blank
  unfolding item
  item_lem i hi =
      ap (λ p. get_or b.slots p blank) (item_place i hi)
      ∙ k.at (length rs - min (length rs) c + i) (omega arith) (omega arith)

-- After records have been written to a new buffer, fewer than 2^64 and into at most 2^63 slots, it
-- holds the last of them, as many as there are slots, oldest first; the others count as overwritten.
pub add_all_recent :
    (capacity : ℕ) (rs : List TraceRecord) (i : ℕ)
    → capacity ≤ 2 ^ 63
    → length rs < 2 ^ 64
    → i < min (length rs) (slots_of capacity)
    → let b = add_all (make capacity) rs in
      let kept = min (length rs) (slots_of capacity) in
      (size b ≡ kept)
      × (overwritten b ≡ length rs - slots_of capacity)
      × (item b i ≡ get_or rs (length rs - kept + i) blank)
add_all_recent capacity rs i few small hi =
    let c = slots_of capacity in
    let some : 0 < c = ground arith in
    let bound : c ≤ 2 ^ 63 = ground arith in
    let k =
      add_all-Holds c (make capacity) [] rs some (omega (arith, small)) (make-Holds capacity) in
    (
      size_lem c (add_all (make capacity) rs) rs some k bound small,
      overwritten_lem c (add_all (make capacity) rs) rs some k bound small,
      item_lem c (add_all (make capacity) rs) rs some k bound small i hi,
    )
