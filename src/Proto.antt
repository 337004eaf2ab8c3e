-- ===== src/Proto.antt =====
-- core/include/radio/proto.hpp and core/src/proto/proto.cpp: the wire format.
-- A `ByteView` is the list of its bytes. An encoder returns the buffer as it leaves it and the
-- number of bytes written. The asserts of the encoders, which a release build drops, are
-- hypotheses of the theorems. A `Type` is the uint8_t that the enum is stored as, since a cast
-- can give it any value.
pub mod Bounds
pub mod Control
pub mod Encode
pub mod Parse
pub mod RoundTrip
mod Tests
use full_duplex_radio.Prelude.{
  ℕ, ◌+◌, ◌-◌, ◌*◌, ◌/◌, ◌%◌, ◌^◌, ◌<◌, ◌≤◌, ◌≡◌, bit_and, List, [], ◌∷◌, get_or, set, drop, length,
  Bool, true, false, not, ◌&&◌, ◌||◌, ltb, leb, ◌==◌, if◌then◌else◌, copy_at, All,
}
use full_duplex_radio.Bytes.{
  IsByte, load_be16, load_be32, load_be64, store_be16, store_be32, store_be64,
}

abbrev pub version : ℕ
version = 1

abbrev pub max_datagram : ℕ
max_datagram = 1200

abbrev pub prefix_size : ℕ
prefix_size = 4

abbrev pub media_header_size : ℕ
media_header_size = 16

abbrev pub control_header_size : ℕ
control_header_size = 16

abbrev pub pong_body_size : ℕ
pong_body_size = 16

-- The enumerators of `Type` that the code names one by one.
abbrev pub audio : ℕ
audio = 0x01

abbrev pub ping : ℕ
ping = 0x02

abbrev pub pong : ℕ
pong = 0x03

unfoldable pub is_assigned : ℕ → Bool
is_assigned t =
    t == audio
    || t == ping
    || t == pong
    || t == 0x10
    || t == 0x11
    || t == 0x12
    || t == 0x30
    || t == 0x31
    || t == 0x40

unfoldable pub is_media : ℕ → Bool
is_media t = t == audio

-- `~kAssignedMask`, as the 32-bit pattern that integral promotion gives it.
abbrev pub reserved_mask : ℕ
reserved_mask = 2 ^ 32 - 1 - 0x000F

pub record MediaHeader : Type 0 where
  pub flags : ℕ
  pub stream_id : ℕ
  pub sequence : ℕ
  pub timestamp : ℕ

unfoldable pub talkspurt_start : MediaHeader → Bool
talkspurt_start h = not (bit_and h.flags 0x0001 == 0)

unfoldable pub talkspurt_end : MediaHeader → Bool
talkspurt_end h = not (bit_and h.flags 0x0002 == 0)

pub record MediaPacket : Type 0 where
  pub header : MediaHeader
  pub payload : List ℕ

pub record ControlHeader : Type 0 where
  pub type : ℕ
  pub flags : ℕ
  pub request_id : ℕ
  pub send_time_us : ℕ

pub record ControlPacket : Type 0 where
  pub header : ControlHeader
  pub body : List ℕ

pub record PongBody : Type 0 where
  pub orig_t1 : ℕ
  pub recv_t2 : ℕ

pub data Reject : Type 0 where
  none too_short bad_version unknown_type reserved_flag bad_length : Reject

-- `reject == Reject::None`.
abbrev pub accepted : Reject → Bool
accepted none = true
accepted _ = false

-- `Parsed<T>`: on a failure `value` is `T{}`.
pub record Parsed (A : Type 0) : Type 0 where
  pub reject : Reject
  pub value : A

abbrev pub empty_media_packet : MediaPacket
empty_media_packet = record {
  header = record { flags = 0; stream_id = 0; sequence = 0; timestamp = 0 };
  payload = [];
}

abbrev pub empty_control_packet : ControlPacket
empty_control_packet = record {
  header = record { type = 0; flags = 0; request_id = 0; send_time_us = 0 };
  body = [];
}

abbrev pub empty_pong_body : PongBody
empty_pong_body = record { orig_t1 = 0; recv_t2 = 0 }

abbrev pub fail : {A : Type 0} → A → Reject → Parsed A
fail default r = record { reject = r; value = default }

abbrev pub good : {A : Type 0} → A → Parsed A
good v = record { reject = none; value = v }

-- `Prefix` of proto.cpp.
pub record Prefix : Type 0 where
  pub reject : Reject
  pub type : ℕ

-- `oob` is what a read past the end of the datagram would give.
module _ (oob : ℕ) where
  unfoldable pub validate_prefix : List ℕ → Prefix
  validate_prefix d =
      if ltb (length d) prefix_size
      then record { reject = too_short; type = 0 }
      else (if not (get_or d 0 oob == version)
          then record { reject = bad_version; type = 0 }
          else (let type = get_or d 1 oob in
              if not (is_assigned type)
              then record { reject = unknown_type; type = 0 }
              else record { reject = none; type = type }))

  unfoldable pub peek_type : List ℕ → Parsed ℕ
  peek_type d =
      let p = validate_prefix d in if not (accepted p.reject) then fail 0 p.reject else good p.type

  -- The header fields and the payload of `parse_media`, read once the checks have passed.
  unfoldable pub read_media : List ℕ → ℕ → MediaPacket
  read_media d flags = record {
    header = record {
      flags = flags;
      stream_id = load_be32 oob d 4;
      sequence = load_be32 oob d 8;
      timestamp = load_be32 oob d 12;
    };
    payload = drop media_header_size d;
  }

  unfoldable pub parse_media : List ℕ → Parsed MediaPacket
  unfolding read_media
  parse_media d =
      let p = validate_prefix d in
      let flags = load_be16 oob d 2 in
      if not (accepted p.reject)
      then fail empty_media_packet p.reject
      else (if not (is_media p.type)
          then fail empty_media_packet unknown_type
          else (if not (bit_and flags reserved_mask == 0)
              then fail empty_media_packet reserved_flag
              else (if leb (length d) media_header_size || ltb max_datagram (length d)
                  then fail empty_media_packet bad_length
                  else good (read_media d flags))))

  unfoldable pub read_control : List ℕ → ℕ → ControlPacket
  read_control d type = record {
    header = record {
      type = type;
      flags = 0;
      request_id = load_be32 oob d 4;
      send_time_us = load_be64 oob d 8;
    };
    body = drop control_header_size d;
  }

  unfoldable pub parse_control : List ℕ → Parsed ControlPacket
  unfolding read_control
  parse_control d =
      let p = validate_prefix d in
      if not (accepted p.reject)
      then fail empty_control_packet p.reject
      else (if is_media p.type
          then fail empty_control_packet unknown_type
          else (if not (load_be16 oob d 2 == 0)
              then fail empty_control_packet reserved_flag
              else (if ltb (length d) control_header_size || ltb max_datagram (length d)
                  then fail empty_control_packet bad_length
                  else good (read_control d p.type))))

  unfoldable pub parse_pong_body : List ℕ → Parsed PongBody
  parse_pong_body body =
      if not (length body == pong_body_size)
      then fail empty_pong_body bad_length
      else good (record { orig_t1 = load_be64 oob body 0; recv_t2 = load_be64 oob body 8 })

-- What `encode_media` writes once the sizes are known to fit.
unfoldable pub write_media : MediaHeader → List ℕ → List ℕ → List ℕ
write_media header payload out =
    copy_at
      (store_be32
        (store_be32
          (store_be32 (store_be16 (set (set out 0 version) 1 audio) 2 header.flags) 4
            header.stream_id)
          8 header.sequence)
        12 header.timestamp)
      16 payload

-- `size_t` addition; the constants make the wrap unreachable for any buffer in memory.
abbrev pub add_size : ℕ → ℕ → ℕ
add_size a b = (a + b) % 2 ^ 64

unfoldable pub encode_media : MediaHeader → List ℕ → List ℕ → List ℕ × ℕ
unfolding write_media
encode_media header payload out =
    let total = add_size media_header_size (length payload) in
    if length payload == 0 || ltb (length out) total || ltb max_datagram total
    then (out, 0)
    else (write_media header payload out, total)

unfoldable pub write_control : ControlHeader → List ℕ → List ℕ → List ℕ
write_control header body out =
    copy_at
      (store_be64
        (store_be32 (store_be16 (set (set out 0 version) 1 header.type) 2 header.flags) 4
          header.request_id)
        8 header.send_time_us)
      16 body

unfoldable pub encode_control : ControlHeader → List ℕ → List ℕ → List ℕ × ℕ
unfolding write_control
encode_control header body out =
    let total = add_size control_header_size (length body) in
    if ltb (length out) total || ltb max_datagram total
    then (out, 0)
    else (write_control header body out, total)

unfoldable pub encode_pong_body : PongBody → List ℕ → List ℕ × ℕ
encode_pong_body body out =
    if ltb (length out) pong_body_size
    then (out, 0)
    else (store_be64 (store_be64 out 0 body.orig_t1) 8 body.recv_t2, pong_body_size)
