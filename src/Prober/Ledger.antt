-- ===== src/Prober/Ledger.antt =====
-- prober.cpp: what became of the probes that were sent.
use full_duplex_radio.Prelude.{
  ℕ, zero, suc, ◌+◌, ◌%◌, ◌^◌, ◌≡◌, ◌<◌, refl, List, [], ◌∷◌, get_or, set, replicate, Bool, true,
  some, Option-cases, Bool-cases, inl, inr, arith, length,
}
use full_duplex_radio.Proto.{ControlPacket, parse_pong_body, PongBody}
use full_duplex_radio.Prober.{
  Prober, Config, Slot, free_slot, reset, start, first_slot, matches, is_free, find,
  count_outstanding, release, register, due_probe, withdraw, settle, pair, on_pong, is_overdue,
  expire_loop, expire, max_outstanding, inc64,
}

-- Every probe that was sent and not withdrawn has been answered, has timed out, was given up as
-- impossible or malformed, or is outstanding: the counters are read modulo 2^64, as they are kept.
abbrev pub IsBalanced : Prober → Type 0
IsBalanced p =
    p.stats.sent
    ≡ (p.stats.replied
        + p.stats.timed_out
        + p.stats.impossible
        + p.stats.malformed
        + count_outstanding p.slots)
      % 2 ^ 64

first_slot_lem :
    (test : Slot → Bool) (slots : List Slot) (i : ℕ)
    → first_slot test slots ≡ some i
    → (i < length slots) × (test (get_or slots i free_slot) ≡ true)
unfolding first_slot
first_slot_lem test [] i h = ground arith
first_slot_lem test (s ∷ ss) zero h = elim (Option-cases (first_slot test ss)) [
  | inl e ↦ ground arith
  | inr (j, e) ↦ ground arith
]
first_slot_lem test (s ∷ ss) (suc i) h = elim (Option-cases (first_slot test ss)) [
  | inl e ↦ ground arith
  | inr (j, e) ↦ ground (arith, first_slot_lem test ss j e)
]

count-set_busy :
    (slots : List Slot) (i : ℕ) (s : Slot)
    → i < length slots
    → is_free (get_or slots i free_slot) ≡ true
    → s.outstanding ≡ true
    → count_outstanding (set slots i s) ≡ suc (count_outstanding slots)
unfolding count_outstanding
count-set_busy [] i s h f o = elim h [ ]
count-set_busy (x ∷ xs) zero s h f o = ground arith
count-set_busy (x ∷ xs) (suc i) s h f o = ground (arith, count-set_busy xs i s (omega arith) f o)

count-release :
    (slots : List Slot) (i : ℕ)
    → i < length slots
    → (get_or slots i free_slot).outstanding ≡ true
    → suc (count_outstanding (release slots i)) ≡ count_outstanding slots
unfolding count_outstanding
count-release [] i h f = elim h [ ]
count-release (x ∷ xs) zero h f = ground arith
count-release (x ∷ xs) (suc i) h f = ground (arith, count-release xs i (omega arith) f)

count_free : (n : ℕ) → count_outstanding (replicate n free_slot) ≡ 0
unfolding count_outstanding
count_free zero = refl
count_free (suc n) = count_free n

reset-IsBalanced : (p : Prober) → IsBalanced (reset p)
unfolding reset
reset-IsBalanced p = ground (arith, count_free max_outstanding)

start-IsBalanced : (p : Prober) (config : Config) (now : ℕ) → IsBalanced (start p config now)
unfolding start
start-IsBalanced p config now = reset-IsBalanced (record p { config = config })

register-IsBalanced :
    (p : Prober) (i now : ℕ)
    → i < length p.slots
    → is_free (get_or p.slots i free_slot) ≡ true
    → IsBalanced p
    → IsBalanced (register p i now)
unfolding register
register-IsBalanced p i now h f b =
    let s : Slot = record { request_id = p.next_request_id; sent_us = now; outstanding = true } in
    let c = count-set_busy p.slots i s h f refl in omega arith

due_probe-IsBalanced :
    (p : Prober) (now : ℕ) (out : List ℕ) → IsBalanced p → IsBalanced (due_probe p now out).0
unfolding due_probe
due_probe-IsBalanced p now out b = elim (Option-cases (first_slot is_free p.slots)) [
  | inl e ↦ ground arith
  | inr (i, e) ↦
      (let (h, f) = first_slot_lem is_free p.slots i e in
        let r = register-IsBalanced p i now h f b in ground arith)
]

-- The slot that `find` answers with is in the table, and it is outstanding.
find_lem :
    (p : Prober) (request_id i : ℕ)
    → find p request_id ≡ some i
    → suc (count_outstanding (release p.slots i)) ≡ count_outstanding p.slots
unfolding find
find_lem p request_id i e =
    let (h, f) = first_slot_lem (matches request_id) p.slots i e in
    count-release p.slots i h (ground arith)

withdraw-IsBalanced :
    (p : Prober) (request_id : ℕ) → IsBalanced p → IsBalanced (withdraw p request_id)
unfolding withdraw
withdraw-IsBalanced p request_id b = elim (Option-cases (find p request_id)) [
  | inl e ↦ ground arith
  | inr (i, e) ↦ (let c = find_lem p request_id i e in ground arith)
]

pair-IsBalanced :
    (p : Prober) (i : ℕ) (packet : ControlPacket) (body : PongBody) (t4 : ℕ)
    → suc (count_outstanding (release p.slots i)) ≡ count_outstanding p.slots
    → IsBalanced p
    → IsBalanced (pair p i packet body t4)
unfolding pair settle
pair-IsBalanced p i packet body t4 c b = ground arith

on_pong-IsBalanced :
    (oob : ℕ) (p : Prober) (packet : ControlPacket) (t4 : ℕ)
    → IsBalanced p
    → IsBalanced (on_pong oob p packet t4)
unfolding on_pong
on_pong-IsBalanced oob p packet t4 b = elim (Option-cases (find p packet.header.request_id)) [
  | inl e ↦ ground arith
  | inr (i, e) ↦
      (let c = find_lem p packet.header.request_id i e in
        let r = pair-IsBalanced p i packet (parse_pong_body oob packet.body).value t4 c b in
        ground arith)
]

expire_loop_lem :
    (timeout_us now : ℕ) (slots : List Slot) (timed_out : ℕ)
    → (let r = expire_loop timeout_us now slots timed_out in
        (r.1 + count_outstanding r.0) % 2 ^ 64 ≡ (timed_out + count_outstanding slots) % 2 ^ 64)
unfolding expire_loop count_outstanding
expire_loop_lem timeout_us now [] timed_out = refl
expire_loop_lem timeout_us now (s ∷ ss) timed_out =
    let k = expire_loop_lem timeout_us now ss in
    elim (Bool-cases (is_overdue timeout_us now s)) [
      | inl o ↦ ground (arith, k (inc64 timed_out))
      | inr o ↦ ground (arith, k timed_out)
    ]

expire-IsBalanced : (p : Prober) (now : ℕ) → IsBalanced p → IsBalanced (expire p now)
unfolding expire
expire-IsBalanced p now b =
    omega (arith, expire_loop_lem p.config.timeout_us now p.slots p.stats.timed_out)

-- A call on the prober, with its arguments.
pub data Call : Type 0 where
  reset_call : Call
  start_call : Config → ℕ → Call
  due_probe_call : ℕ → List ℕ → Call
  withdraw_call : ℕ → Call
  on_pong_call : ControlPacket → ℕ → Call
  expire_call : ℕ → Call

unfoldable pub run : ℕ → List Call → Prober → Prober
run oob [] p = p
run oob (reset_call ∷ cs) p = run oob cs (reset p)
run oob (start_call config now ∷ cs) p = run oob cs (start p config now)
run oob (due_probe_call now out ∷ cs) p = run oob cs (due_probe p now out).0
run oob (withdraw_call id ∷ cs) p = run oob cs (withdraw p id)
run oob (on_pong_call packet t4 ∷ cs) p = run oob cs (on_pong oob p packet t4)
run oob (expire_call now ∷ cs) p = run oob cs (expire p now)

-- After any calls in any order, the probes that were sent and not withdrawn are, modulo 2^64, those
-- that were answered, timed out or were given up, and those that are outstanding.
pub run-IsBalanced :
    (oob : ℕ) (cs : List Call) (p : Prober) → IsBalanced p → IsBalanced (run oob cs p)
unfolding run
run-IsBalanced oob [] p b = b
run-IsBalanced oob (reset_call ∷ cs) p b = run-IsBalanced oob cs (reset p) (reset-IsBalanced p)
run-IsBalanced oob (start_call config now ∷ cs) p b =
    run-IsBalanced oob cs (start p config now) (start-IsBalanced p config now)
run-IsBalanced oob (due_probe_call now out ∷ cs) p b =
    run-IsBalanced oob cs (due_probe p now out).0 (due_probe-IsBalanced p now out b)
run-IsBalanced oob (withdraw_call id ∷ cs) p b =
    run-IsBalanced oob cs (withdraw p id) (withdraw-IsBalanced p id b)
run-IsBalanced oob (on_pong_call packet t4 ∷ cs) p b =
    run-IsBalanced oob cs (on_pong oob p packet t4) (on_pong-IsBalanced oob p packet t4 b)
run-IsBalanced oob (expire_call now ∷ cs) p b =
    run-IsBalanced oob cs (expire p now) (expire-IsBalanced p now b)
