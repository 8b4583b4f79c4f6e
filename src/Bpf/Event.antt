-- ===== src/Bpf/Event.antt =====
-- pkg/bpf/event.go: the accounting event, and its decoding from the bytes that the BPF program
-- sends.
pub mod Layout
pub mod Decode
mod Tests
use conntracct.Prelude.{
  ℕ, zero, suc, ◌+◌, ◌-◌, ◌*◌, Bool, true, false, ◌&&◌, ◌||◌, List, [], ◌∷◌, ◌++◌, Option, none,
  some, length, get_or, slice, take, drop, replicate, ◌==◌, if◌then◌else◌, Go, ok, panic, waits,
  leb,
}

-- A byte slice holds numbers below 256.
abbrev pub Bytes : Type 0
Bytes = List ℕ

-- The byte order of the machine, which a read through `unsafe.Pointer` follows.
pub data Endian : Type 0 where
  little big : Endian

-- `net.IP` is a byte slice.
pub record Event : Type 0 where
  pub start : ℕ
  pub timestamp : ℕ
  pub connection_id : ℕ
  pub connmark : ℕ
  pub src_addr : Bytes
  pub dst_addr : Bytes
  pub packets_orig : ℕ
  pub bytes_orig : ℕ
  pub packets_ret : ℕ
  pub bytes_ret : ℕ
  pub src_port : ℕ
  pub dst_port : ℕ
  pub net_ns : ℕ
  pub proto : ℕ

-- `var ae Event`.
abbrev pub zero_event : Event
zero_event = record {
  start = 0;
  timestamp = 0;
  connection_id = 0;
  connmark = 0;
  src_addr = [];
  dst_addr = [];
  packets_orig = 0;
  bytes_orig = 0;
  packets_ret = 0;
  bytes_ret = 0;
  src_port = 0;
  dst_port = 0;
  net_ns = 0;
  proto = 0;
}

abbrev pub event_length : ℕ
event_length = 104

pub data EventError : Type 0 where
  incorrect_length : ℕ → EventError

-- The value of bytes, the lowest first.
pub le_value : Bytes → ℕ
le_value [] = 0
le_value (x ∷ xs) = x + 256 * le_value xs

-- `binary.BigEndian`: the value of bytes, the highest first, after what is read already.
pub be_value : ℕ → Bytes → ℕ
be_value acc [] = acc
be_value acc (x ∷ xs) = be_value (256 * acc + x) xs

pub native_value : Endian → Bytes → ℕ
unfolding le_value be_value
native_value little xs = le_value xs
native_value big xs = be_value 0 xs

-- The loop of `isIPv4`, over the slice from its fifth byte.
all_zero : Bytes → Bool
all_zero [] = true
all_zero (v ∷ vs) = let rest = all_zero vs in if v == 0 then rest else false

-- `isIPv4`, where `s[4:]` panics on a slice of fewer than four bytes.
pub is_ipv4 : Bytes → Go Bool
unfolding all_zero
is_ipv4 s = if leb 4 (length s) then ok (all_zero (drop 4 s)) else panic

-- The test of an address that is decoded, whose slice has 16 bytes.
abbrev passes : Go Bool → Bool
passes (ok b) = b
passes panic = false
passes waits = false

-- `net.IPv4`: an IPv4 address in its 16-byte form.
abbrev pub ipv4_prefix : Bytes
ipv4_prefix = 0 ∷ 0 ∷ 0 ∷ 0 ∷ 0 ∷ 0 ∷ 0 ∷ 0 ∷ 0 ∷ 0 ∷ 255 ∷ 255 ∷ []

-- The address that starts at offset `at`.
decode_addr : Bytes → ℕ → Bytes
unfolding is_ipv4
decode_addr b at =
    if passes (is_ipv4 (slice b at (at + 16)))
    then ipv4_prefix ++ (byte at ∷ byte (at + 1) ∷ byte (at + 2) ∷ byte (at + 3) ∷ [])
    else slice b at (at + 16)
  where
    byte : ℕ → ℕ
    byte i = get_or b i 0

abbrev has_ports : ℕ → Bool
has_ports p = p == 6 || p == 17

-- What `UnmarshalBinary` writes to the event once the length is right. The ports keep their
-- values unless the protocol is TCP or UDP.
decode_fields : Endian → Event → Bytes → Event
unfolding native_value decode_addr
decode_fields en e b = record {
  start = native_value en (slice b 0 8);
  timestamp = native_value en (slice b 8 16);
  connection_id = native_value en (slice b 16 20);
  connmark = native_value en (slice b 20 24);
  src_addr = decode_addr b 24;
  dst_addr = decode_addr b 40;
  packets_orig = native_value en (slice b 56 64);
  bytes_orig = native_value en (slice b 64 72);
  packets_ret = native_value en (slice b 72 80);
  bytes_ret = native_value en (slice b 80 88);
  src_port = if has_ports (get_or b 96 0) then be_value 0 (slice b 88 90) else e.src_port;
  dst_port = if has_ports (get_or b 96 0) then be_value 0 (slice b 90 92) else e.dst_port;
  net_ns = native_value en (slice b 92 96);
  proto = get_or b 96 0;
}

-- The method changes its receiver, so it returns the event with the error.
pub unmarshal_binary : Endian → Event → Bytes → Event × Option EventError
unfolding decode_fields
unmarshal_binary en e b =
    if length b == event_length
    then (decode_fields en e b, none)
    else (e, some (incorrect_length (length b)))
