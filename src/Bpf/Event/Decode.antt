-- ===== src/Bpf/Event/Decode.antt =====
-- `UnmarshalBinary` against the layout of the struct.
use conntracct.Prelude.{
  ok, ℕ, ◌^◌, ◌<◌, ◌≡◌, ◌≢◌, refl, ap, ◌∙◌, ◌↔◌, true, ◌&&◌, ◌||◌, [], none, some, length, arith,
  ◌==◌, ==_iff, if◌then◌else◌, Bool-cases, inl, inr,
}
use conntracct.Bpf.Event.{
  Event, Bytes, Endian, little, big, incorrect_length, be_value, native_value, all_zero, is_ipv4,
  decode_addr, decode_fields, has_ports, unmarshal_binary,
}
use conntracct.Bpf.Event.Layout.{
  InetAddr, AcctEvent, FitsAddr, Fits, le_bytes, be_bytes, native_bytes, addr_bytes, encode, ip_of,
  event_of, le_value_64, le_value_32, be_value_64, be_value_32, be_value_16,
}

all_zero-be_bytes :
    (w : ℕ) (rest : Bytes) → w < 2 ^ 32 → all_zero (be_bytes 4 w rest) ≡ (w == 0 && all_zero rest)
unfolding all_zero be_bytes
all_zero-be_bytes w rest h = ground arith

native_value_64 : (en : Endian) (v : ℕ) → v < 2 ^ 64 → native_value en (native_bytes en 8 v []) ≡ v
unfolding native_value native_bytes
native_value_64 little v h = le_value_64 v h
native_value_64 big v h = be_value_64 v h

native_value_32 : (en : Endian) (v : ℕ) → v < 2 ^ 32 → native_value en (native_bytes en 4 v []) ≡ v
unfolding native_value native_bytes
native_value_32 little v h = le_value_32 v h
native_value_32 big v h = be_value_32 v h

is_ipv4_lem :
    (a : InetAddr)
    → FitsAddr a
    → is_ipv4 (addr_bytes a []) ≡ ok (a.w1 == 0 && (a.w2 == 0 && (a.w3 == 0 && true)))
unfolding is_ipv4 addr_bytes be_bytes
is_ipv4_lem a f = ap ok (
    all_zero-be_bytes a.w1 (be_bytes 4 a.w2 (be_bytes 4 a.w3 [])) f.w1
    ∙ ap (λ z. a.w1 == 0 && z)
        (all_zero-be_bytes a.w2 (be_bytes 4 a.w3 []) f.w2
          ∙ ap (λ z. a.w2 == 0 && z) (all_zero-be_bytes a.w3 [] f.w3)))

decode_addr_lem : (a : InetAddr) → FitsAddr a → decode_addr (addr_bytes a []) 0 ≡ ip_of a
unfolding decode_addr addr_bytes be_bytes ip_of
decode_addr_lem a f = ground (arith, is_ipv4_lem a f)

ports_lem :
    (p v q : ℕ)
    → v < 2 ^ 16
    → (if has_ports p then be_value 0 (be_bytes 2 v []) else q)
      ≡ (if p == 6 || p == 17 then v else q)
ports_lem p v q h = ap (λ k. if p == 6 || p == 17 then k else q) (be_value_16 v h)

decode_fields-encode :
    (en : Endian) (e : Event) (r : AcctEvent) (pad : ℕ → ℕ)
    → Fits r
    → decode_fields en e (encode en r pad) ≡ event_of e r
unfolding decode_fields encode native_bytes addr_bytes le_bytes be_bytes event_of decode_addr ip_of
decode_fields-encode little e r pad f = λ i. record {
  start = native_value_64 little r.start f.start i;
  timestamp = native_value_64 little r.ts f.ts i;
  connection_id = native_value_32 little r.cid f.cid i;
  connmark = native_value_32 little r.connmark f.connmark i;
  src_addr = decode_addr_lem r.srcaddr f.srcaddr i;
  dst_addr = decode_addr_lem r.dstaddr f.dstaddr i;
  packets_orig = native_value_64 little r.packets_orig f.packets_orig i;
  bytes_orig = native_value_64 little r.bytes_orig f.bytes_orig i;
  packets_ret = native_value_64 little r.packets_ret f.packets_ret i;
  bytes_ret = native_value_64 little r.bytes_ret f.bytes_ret i;
  src_port = ports_lem r.proto r.srcport e.src_port f.srcport i;
  dst_port = ports_lem r.proto r.dstport e.dst_port f.dstport i;
  net_ns = native_value_32 little r.netns f.netns i;
  proto = r.proto;
}
decode_fields-encode big e r pad f = λ i. record {
  start = native_value_64 big r.start f.start i;
  timestamp = native_value_64 big r.ts f.ts i;
  connection_id = native_value_32 big r.cid f.cid i;
  connmark = native_value_32 big r.connmark f.connmark i;
  src_addr = decode_addr_lem r.srcaddr f.srcaddr i;
  dst_addr = decode_addr_lem r.dstaddr f.dstaddr i;
  packets_orig = native_value_64 big r.packets_orig f.packets_orig i;
  bytes_orig = native_value_64 big r.bytes_orig f.bytes_orig i;
  packets_ret = native_value_64 big r.packets_ret f.packets_ret i;
  bytes_ret = native_value_64 big r.bytes_ret f.bytes_ret i;
  src_port = ports_lem r.proto r.srcport e.src_port f.srcport i;
  dst_port = ports_lem r.proto r.dstport e.dst_port f.dstport i;
  net_ns = native_value_32 big r.netns f.netns i;
  proto = r.proto;
}

length-encode : (en : Endian) (r : AcctEvent) (pad : ℕ → ℕ) → length (encode en r pad) ≡ 104
unfolding encode native_bytes addr_bytes le_bytes be_bytes
length-encode little r pad = refl
length-encode big r pad = refl

-- Decoding the bytes of any struct whose fields fit their C types, whatever its padding and in
-- either byte order, reports no error and gives the event that the struct stands for: every number
-- as it was, each address as an IPv4 one exactly if its last three words are zero, and the ports
-- for TCP and UDP only, where any other protocol leaves the receiver's ports as they were.
pub unmarshal_binary-encode :
    (en : Endian) (e : Event) (r : AcctEvent) (pad : ℕ → ℕ)
    → Fits r
    → unmarshal_binary en e (encode en r pad) ≡ (event_of e r, none)
unfolding unmarshal_binary
unmarshal_binary-encode en e r pad f =
    rw (length-encode en r pad, decode_fields-encode en e r pad f)

-- The decoder reports an error exactly on a slice that is not 104 bytes long, whatever it
-- holds; an error names the length found, and leaves the event as it was.
pub unmarshal_binary_error :
    (en : Endian) (e : Event) (b : Bytes)
    → (((unmarshal_binary en e b).1 ≡ none) ↔ (length b ≡ 104))
      × (length b ≢ 104 → unmarshal_binary en e b ≡ (e, some (incorrect_length (length b))))
unfolding unmarshal_binary
unmarshal_binary_error en e b = elim (Bool-cases (length b == 104)) [
  | inl t ↦ rw t ((λ _. (==_iff _ _).0 t, λ _. refl), λ n. absurd (n ((==_iff _ _).0 t)))
  | inr t ↦ rw t ((λ n. cc, λ l. cc (t, (==_iff _ _).1 l)), λ _. refl)
]
