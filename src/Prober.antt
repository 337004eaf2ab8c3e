-- ===== src/Prober.antt =====
-- core/include/radio/prober.hpp and core/src/net/prober.cpp: the probes on a schedule, the table of
-- those that are unanswered, and what became of each. A pointer into the table is an index.
pub mod Ledger
mod Tests
use full_duplex_radio.Prelude.{
  ℕ, zero, suc, ◌+◌, ◌-◌, ◌%◌, ◌^◌, List, [], ◌∷◌, get_or, set, replicate, drop, Bool, true, false,
  not, ◌&&◌, ◌||◌, ltb, leb, ◌==◌, if◌then◌else◌, Option, none, some,
}
use full_duplex_radio.Prelude.Int.{ℤ, pos}
use full_duplex_radio.Pacer.{Pacer, make, due, advance}
use full_duplex_radio.Pacer
use full_duplex_radio.ClockSync.{ClockSync, observe}
use full_duplex_radio.ClockSync
use full_duplex_radio.Proto.{
  ControlHeader, ControlPacket, PongBody, accepted, parse_pong_body, encode_control,
  encode_pong_body, pong_body_size, ping, pong,
}

abbrev pub max_outstanding : ℕ
max_outstanding = 8

pub record Config : Type 0 where
  pub interval_us : ℕ
  pub timeout_us : ℕ

-- `Config{}`.
abbrev pub default_config : Config
default_config = record { interval_us = 200000; timeout_us = 1000000 }

pub record Stats : Type 0 where
  pub sent : ℕ
  pub replied : ℕ
  pub timed_out : ℕ
  pub stale : ℕ
  pub bad_echo : ℕ
  pub impossible : ℕ
  pub malformed : ℕ
  pub withdrawn : ℕ

-- `Stats{}`.
abbrev pub no_stats : Stats
no_stats = record {
  sent = 0;
  replied = 0;
  timed_out = 0;
  stale = 0;
  bad_echo = 0;
  impossible = 0;
  malformed = 0;
  withdrawn = 0;
}

pub record Slot : Type 0 where
  pub request_id : ℕ
  pub sent_us : ℕ
  pub outstanding : Bool

-- `Slot{}`.
abbrev pub free_slot : Slot
free_slot = record { request_id = 0; sent_us = 0; outstanding = false }

-- What `due_probe` produced.
pub record Probe : Type 0 where
  pub length : ℕ
  pub request_id : ℕ

abbrev pub no_probe : Probe
no_probe = record { length = 0; request_id = 0 }

unfoldable pub ready : Probe → Bool
ready p = not (p.length == 0)

pub record Prober : Type 0 where
  pub config : Config
  pub slots : List Slot
  pub next_request_id : ℕ
  pub pacer : Pacer
  pub sync : ClockSync
  pub stats : Stats
  pub last_reply_us : ℕ
  pub last_rtt_us : ℤ
  pub started : Bool

abbrev pub inc64 : ℕ → ℕ
inc64 n = (n + 1) % 2 ^ 64

abbrev pub dec64 : ℕ → ℕ
dec64 n = (n + 2 ^ 64 - 1) % 2 ^ 64

-- `Prober{}`.
abbrev pub new : Prober
new = record {
  config = default_config;
  slots = replicate max_outstanding free_slot;
  next_request_id = 1;
  pacer = Pacer.blank;
  sync = ClockSync.new;
  stats = no_stats;
  last_reply_us = 0;
  last_rtt_us = pos 0;
  started = false;
}

unfoldable pub reset : Prober → Prober
reset p = record p {
  slots = replicate max_outstanding free_slot;
  next_request_id = 1;
  pacer = Pacer.reset p.pacer;
  sync = ClockSync.reset p.sync;
  stats = no_stats;
  last_reply_us = 0;
  last_rtt_us = pos 0;
  started = false;
}

unfoldable pub start : Prober → Config → ℕ → Prober
unfolding reset
start p config now = record (reset (record p { config = config })) {
  pacer = Pacer.start (make config.interval_us 0) now;
  started = true;
}

-- The index of the first slot that passes, counted from `i`.
unfoldable pub first_slot : (Slot → Bool) → List Slot → Option ℕ
first_slot test [] = none
first_slot test (s ∷ ss) =
    let rest = first_slot test ss in
    if test s then some 0 else elim rest [ none ↦ none | some i ↦ some (suc i) ]

abbrev pub matches : ℕ → Slot → Bool
matches request_id s = s.outstanding && (s.request_id == request_id)

abbrev pub is_free : Slot → Bool
is_free s = not s.outstanding

unfoldable pub find : Prober → ℕ → Option ℕ
find p request_id = first_slot (matches request_id) p.slots

unfoldable pub count_outstanding : List Slot → ℕ
count_outstanding [] = 0
count_outstanding (s ∷ ss) =
    let rest = count_outstanding ss in if s.outstanding then suc rest else rest

unfoldable pub outstanding : Prober → ℕ
outstanding p = count_outstanding p.slots

-- slot->outstanding = false.
abbrev pub release : List Slot → ℕ → List Slot
release slots i = set slots i (record (get_or slots i free_slot) { outstanding = false })

-- The header of the probe that is due at `now`.
abbrev pub ping_header : Prober → ℕ → ControlHeader
ping_header p now = record {
  type = ping;
  flags = 0;
  request_id = p.next_request_id;
  send_time_us = now;
}

-- What `due_probe` does to the prober once the probe has been written.
unfoldable pub register : Prober → ℕ → ℕ → Prober
register p i now = record p {
  slots =
      set p.slots i (record { request_id = p.next_request_id; sent_us = now; outstanding = true });
  pacer = advance p.pacer now;
  stats = record p.stats { sent = inc64 p.stats.sent };
  next_request_id = (p.next_request_id + 1) % 2 ^ 32;
}

-- The prober, the buffer and the probe.
unfoldable pub due_probe : Prober → ℕ → List ℕ → Prober × (List ℕ × Probe)
due_probe p now out =
    let encoded = encode_control (ping_header p now) [] out in
    if not p.started || not (due p.pacer now)
    then (p, (out, no_probe))
    else elim (first_slot is_free p.slots) [
      | none ↦ (record p { pacer = advance p.pacer now }, (out, no_probe))
      | some i ↦
          (if encoded.1 == 0 then (p, (encoded.0, no_probe)) else (
            register p i now,
            (encoded.0, record { length = encoded.1; request_id = p.next_request_id }),
          ))
    ]

unfoldable pub withdraw : Prober → ℕ → Prober
unfolding find
withdraw p request_id = elim (find p request_id) [
  | none ↦ p
  | some i ↦ record p {
    slots = release p.slots i;
    stats = record p.stats { withdrawn = inc64 p.stats.withdrawn; sent = dec64 p.stats.sent };
  }
]

-- The comparison of the echoed t1 with the one that was sent.
abbrev pub check_echo : Stats → ℕ → Slot → Stats
check_echo stats orig_t1 slot =
    if not (orig_t1 == slot.sent_us)
    then record stats { bad_echo = inc64 stats.bad_echo }
    else stats

-- The end of `on_pong`, with what the clock estimate made of the exchange.
unfoldable pub settle : Prober → ClockSync × ClockSync.Sample → ℕ → Prober
settle p (sync, sample) t4 =
    if not sample.valid
    then record p { sync = sync; stats = record p.stats { impossible = inc64 p.stats.impossible } }
    else record p {
      sync = sync;
      stats = record p.stats { replied = inc64 p.stats.replied };
      last_reply_us = t4;
      last_rtt_us = sample.rtt_us;
    }

-- `on_pong` for a reply that is matched by slot `i` and whose body is well formed.
unfoldable pub pair : Prober → ℕ → ControlPacket → PongBody → ℕ → Prober
unfolding settle
pair p i packet body t4 =
    let slot = get_or p.slots i free_slot in
    settle (record p { slots = release p.slots i; stats = check_echo p.stats body.orig_t1 slot })
      (observe p.sync slot.sent_us body.recv_t2 packet.header.send_time_us t4) t4

-- `oob` is what a read past the end of the body would give.
module _ (oob : ℕ) where
  unfoldable pub on_pong : Prober → ControlPacket → ℕ → Prober
  unfolding find pair
  on_pong p packet t4 =
      let body = parse_pong_body oob packet.body in
      elim (find p packet.header.request_id) [
        | none ↦ record p { stats = record p.stats { stale = inc64 p.stats.stale } }
        | some i ↦
            (if not (accepted body.reject)
              then record p {
                slots = release p.slots i;
                stats = record p.stats { malformed = inc64 p.stats.malformed };
              }
              else pair p i packet body.value t4)
      ]

-- The test of `expire`.
abbrev pub is_overdue : ℕ → ℕ → Slot → Bool
is_overdue timeout_us now s = s.outstanding && leb s.sent_us now && leb timeout_us (now - s.sent_us)

-- The loop of `expire`: the slots, and the timeout count from the given one.
unfoldable pub expire_loop : ℕ → ℕ → List Slot → ℕ → List Slot × ℕ
expire_loop timeout_us now [] timed_out = ([], timed_out)
expire_loop timeout_us now (s ∷ ss) timed_out =
    let overdue = is_overdue timeout_us now s in
    let rest = expire_loop timeout_us now ss (if overdue then inc64 timed_out else timed_out) in
    ((if overdue then record s { outstanding = false } else s) ∷ rest.0, rest.1)

unfoldable pub expire : Prober → ℕ → Prober
expire p now =
    let r = expire_loop p.config.timeout_us now p.slots p.stats.timed_out in
    record p { slots = r.0; stats = record p.stats { timed_out = r.1 } }

-- The PONG owed for a PING: the buffer and the length.
unfoldable pub encode_pong_for : ControlPacket → ℕ → ℕ → List ℕ → List ℕ × ℕ
encode_pong_for ping_packet t2 t3 out =
    let encoded =
      encode_pong_body (record { orig_t1 = ping_packet.header.send_time_us; recv_t2 = t2 })
        (replicate pong_body_size 0) in
    if encoded.1 == 0
    then (out, 0)
    else encode_control
        (record {
          type = pong;
          flags = 0;
          request_id = ping_packet.header.request_id;
          send_time_us = t3;
        })
        encoded.0 out
