-- ===== src/SpscRing.antt =====
-- core/include/radio/spsc_ring.hpp: the ring between the audio thread and the rest. The operations
-- are modelled one at a time, each with the indices that it loads; how the memory orders let two
-- threads interleave them is not modelled. `capacity` is the template parameter, a power of two.
pub mod Fifo
pub mod Copies
pub mod Bulk
pub mod BulkOut
pub mod Refine
mod Tests
use full_duplex_radio.Prelude.{
  ℕ, ◌+◌, ◌-◌, ◌%◌, ◌^◌, min, bit_and, List, [], ◌++◌, ◌||◌, get_or, set, take, drop, replicate,
  length, copy_at, Bool, true, false, ltb, ◌==◌, if◌then◌else◌, Option, none, some,
}

-- The two indices are size_t and wrap; `default` is `T{}`.
pub record Ring (A : Type 0) : Type 0 where
  pub write : ℕ
  pub read : ℕ
  pub overflows : ℕ
  pub slots : List A

abbrev pub add_size_t : ℕ → ℕ → ℕ
add_size_t a b = (a + b) % 2 ^ 64

-- write - read.
abbrev pub used : {A : Type 0} → Ring A → ℕ
used r = (r.write + 2 ^ 64 - r.read) % 2 ^ 64

abbrev pub count_overflow : {A : Type 0} → Ring A → Ring A
count_overflow r = record r { overflows = add_size_t r.overflows 1 }

module _ {A : Type 0} (capacity : ℕ) (default : A) where
  abbrev pub new : Ring A
  new = record { write = 0; read = 0; overflows = 0; slots = replicate capacity default }

  abbrev pub masked : ℕ → ℕ
  masked i = bit_and i (capacity - 1)

  unfoldable pub push : Ring A → A → Ring A × Bool
  push r value = if used r == capacity then (count_overflow r, false) else (
    record r { slots = set r.slots (masked r.write) value; write = add_size_t r.write 1 },
    true,
  )

  -- Writes `xs` from the offset on, and what does not fit from the start on.
  unfoldable pub copy_in : List A → ℕ → List A → List A
  copy_in slots offset xs =
      let front = min (length xs) (capacity - offset) in
      copy_at (copy_at slots offset (take front xs)) 0 (drop front xs)

  unfoldable pub push_bulk : Ring A → List A → Ring A × ℕ
  unfolding copy_in
  push_bulk r source =
      let free_slots = (capacity + 2 ^ 64 - used r) % 2 ^ 64 in
      let taken = min (length source) free_slots in
      let filled = record r {
        slots = copy_in r.slots (masked r.write) (take taken source);
        write = add_size_t r.write taken;
      } in
      if length source == 0
      then (r, 0)
      else (if free_slots == 0
          then (count_overflow r, 0)
          else ((if ltb taken (length source) then count_overflow filled else filled), taken))

  -- `none` when it returns false and leaves `out` untouched.
  unfoldable pub pop : Ring A → Ring A × Option A
  pop r =
      if r.read == r.write
      then (r, none)
      else (record r { read = add_size_t r.read 1 }, some (get_or r.slots (masked r.read) default))

  -- What `pop_bulk` copies out.
  unfoldable pub copy_out : List A → ℕ → ℕ → List A
  copy_out slots offset n =
      let front = min n (capacity - offset) in
      take front (drop offset slots) ++ take (n - front) slots

  unfoldable pub pop_bulk : Ring A → ℕ → Ring A × List A
  unfolding copy_out
  pop_bulk r count =
      let taken = min count (used r) in
      if count == 0 || used r == 0
      then (r, [])
      else (record r { read = add_size_t r.read taken }, copy_out r.slots (masked r.read) taken)

  unfoldable pub discard : Ring A → ℕ → Ring A × ℕ
  discard r count =
      let dropped = min count (used r) in
      ((if dropped == 0 then r else record r { read = add_size_t r.read dropped }), dropped)

  unfoldable pub empty : Ring A → Bool
  empty r = used r == 0

  unfoldable pub full : Ring A → Bool
  full r = used r == capacity

  -- The slots keep what they held.
  unfoldable pub reset : Ring A → Ring A
  reset r = record r { write = 0; read = 0; overflows = 0 }
