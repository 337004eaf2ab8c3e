-- ===== src/ReorderQueue.antt =====
-- core/include/radio/reorder_queue.hpp and core/src/audio/reorder_queue.cpp: the reorder queue.
-- `slots` is the std::array of 64 slots, each with 512 bytes of storage; the counters are uint64_t
-- and wrap, and so does the size_t `held`.
pub mod Consume
pub mod Slots
pub mod Valid
pub mod Arrivals
pub mod Window
pub mod Playout
pub mod Advance
pub mod Skip
pub mod Emptied
pub mod Expiry
pub mod Run
pub mod Started
pub mod Delivery
mod Tests
use full_duplex_radio.Prelude.{
  ℕ, zero, suc, ◌+◌, ◌-◌, ◌*◌, ◌/◌, ◌%◌, ◌^◌, min, bit_and, List, [], ◌∷◌, get_or, set, replicate,
  length, take, copy_at, Bool, true, false, not, ◌&&◌, ◌||◌, ltb, leb, ◌==◌, if◌then◌else◌, Option,
}
use full_duplex_radio.Prelude.Int.{ℤ, pos, negsuc, ltb_ℤ, leb_ℤ, pos_part, ◌+ℤ◌}
use full_duplex_radio.Serial.{add32, distance, precedes}
use full_duplex_radio.Proto.{MediaHeader, empty_media_packet}

abbrev pub capacity : ℕ
capacity = 64

abbrev pub max_frame_payload : ℕ
max_frame_payload = 512

pub record FrameInfo : Type 0 where
  pub header : MediaHeader
  pub arrival_us : ℕ
  pub deadline_us : ℕ

pub record Frame : Type 0 where
  pub info : FrameInfo
  pub payload : List ℕ

pub record Slot : Type 0 where
  pub info : FrameInfo
  pub size : ℕ
  pub occupied : Bool
  pub bytes : List ℕ

pub data Insert : Type 0 where
  accepted duplicate late too_old too_far_ahead oversized : Insert

pub data Step : Type 0 where
  delivered gap : Step

pub record Queue : Type 0 where
  pub slots : List Slot
  pub cursor : ℕ
  pub highest : ℕ
  pub held : ℕ
  pub started : Bool
  pub accepts : ℕ
  pub duplicates : ℕ
  pub lates : ℕ
  pub too_olds : ℕ
  pub too_far_aheads : ℕ
  pub oversizes : ℕ
  pub expired : ℕ
  pub discarded : ℕ
  pub deliveries : ℕ
  pub gaps : ℕ
  pub resyncs : ℕ

abbrev pub inc64 : ℕ → ℕ
inc64 n = (n + 1) % 2 ^ 64

abbrev pub dec64 : ℕ → ℕ
dec64 n = (n + 2 ^ 64 - 1) % 2 ^ 64

abbrev pub empty_slot : Slot
empty_slot = record {
  info = record { header = empty_media_packet.header; arrival_us = 0; deadline_us = 0 };
  size = 0;
  occupied = false;
  bytes = replicate max_frame_payload 0;
}

-- A default-constructed queue.
abbrev pub new : Queue
new = record {
  slots = replicate capacity empty_slot;
  cursor = 0;
  highest = 0;
  held = 0;
  started = false;
  accepts = 0;
  duplicates = 0;
  lates = 0;
  too_olds = 0;
  too_far_aheads = 0;
  oversizes = 0;
  expired = 0;
  discarded = 0;
  deliveries = 0;
  gaps = 0;
  resyncs = 0;
}

unfoldable pub index : ℕ → ℕ
index sequence = bit_and sequence (capacity - 1)

-- `slots_[index(sequence)]`. No index is out of range: `index` is below 64.
abbrev pub slot_of : List Slot → ℕ → Slot
slot_of slots sequence = get_or slots (index sequence) empty_slot

abbrev pub vacate : Slot → Slot
vacate s = record s { occupied = false }

-- `for (Slot& s : slots_) s.occupied = false;`
unfoldable pub vacate_all : List Slot → List Slot
vacate_all [] = []
vacate_all (s ∷ ss) = vacate s ∷ vacate_all ss

unfoldable pub start : Queue → ℕ → Queue
start q first_sequence =
    if q.started
    then q
    else record q { cursor = first_sequence; highest = first_sequence; started = true }

unfoldable pub resync : Queue → ℕ → Queue
resync q sequence = record q {
  slots = vacate_all q.slots;
  held = 0;
  cursor = sequence;
  highest = sequence;
  started = true;
  resyncs = inc64 q.resyncs;
}

unfoldable pub reset : Queue → Queue
reset q = record new { slots = vacate_all q.slots }

-- Whether a slot holds the frame of that sequence number.
abbrev pub holds : Slot → ℕ → Bool
holds s sequence = s.occupied && s.info.header.sequence == sequence

abbrev pub fill : Slot → FrameInfo → List ℕ → Slot
fill s info payload = record {
  info = info;
  size = length payload % 2 ^ 16;
  occupied = true;
  bytes = copy_at s.bytes 0 payload;
}

-- `insert` from the slot lookup on, for a frame in the window that is in time.
unfoldable pub store : Queue → FrameInfo → List ℕ → Queue × Insert
store q info payload =
    let sequence = info.header.sequence in
    let slot = slot_of q.slots sequence in
    if slot.occupied then (record q { duplicates = inc64 q.duplicates }, duplicate) else (
      record q {
        slots = set q.slots (index sequence) (fill slot info payload);
        highest = if q.held == 0 || precedes q.highest sequence then sequence else q.highest;
        held = inc64 q.held;
        accepts = inc64 q.accepts;
      },
      accepted,
    )

-- `insert` once the queue has started.
unfoldable pub classify : Queue → FrameInfo → List ℕ → ℕ → Queue × Insert
classify q info payload now =
    let offset = distance q.cursor info.header.sequence in
    if ltb_ℤ offset (pos 0)
    then (if ltb_ℤ (negsuc (capacity - 1)) offset
        then (record q { lates = inc64 q.lates }, late)
        else (record q { too_olds = inc64 q.too_olds }, too_old))
    else (if leb_ℤ (pos capacity) offset
        then (record q { too_far_aheads = inc64 q.too_far_aheads }, too_far_ahead)
        else (if ltb info.deadline_us now
            then (record q { lates = inc64 q.lates }, late)
            else store q info payload))

unfoldable pub insert : Queue → FrameInfo → List ℕ → ℕ → Queue × Insert
unfolding classify start
insert q info payload now =
    if ltb max_frame_payload (length payload)
    then (record q { oversizes = inc64 q.oversizes }, oversized)
    else classify (start q info.header.sequence) info payload now
