-- ===== src/Bpf/Event/Layout.antt =====
-- The struct that the BPF program sends, `struct acct_event_t` of bpf/acct.c, as bytes: the
-- independent description that the decoder is held to.
use conntracct.Prelude.{
  ℕ, zero, suc, ◌+◌, ◌*◌, ◌/◌, ◌%◌, ◌^◌, ◌<◌, ◌≡◌, ◌&&◌, ◌||◌, ◌∙◌, ap, [], ◌∷◌, ◌++◌, arith, ◌==◌,
  if◌then◌else◌,
}
use conntracct.Bpf.Event.{Event, Bytes, Endian, little, big, le_value, be_value, ipv4_prefix}

-- `union nf_inet_addr`: four 32-bit words in network order. An IPv4 address fills the first.
pub record InetAddr : Type 0 where
  pub w0 : ℕ
  pub w1 : ℕ
  pub w2 : ℕ
  pub w3 : ℕ

pub record AcctEvent : Type 0 where
  pub start : ℕ
  pub ts : ℕ
  pub cid : ℕ
  pub connmark : ℕ
  pub srcaddr : InetAddr
  pub dstaddr : InetAddr
  pub packets_orig : ℕ
  pub bytes_orig : ℕ
  pub packets_ret : ℕ
  pub bytes_ret : ℕ
  pub srcport : ℕ  -- in network order on the wire
  pub dstport : ℕ  -- in network order on the wire
  pub netns : ℕ
  pub proto : ℕ

-- The lowest byte first.
unfoldable pub le_bytes : ℕ → ℕ → Bytes
le_bytes zero v = []
le_bytes (suc w) v = v % 256 ∷ le_bytes w (v / 256)

-- The highest byte first, before bytes that are written already.
unfoldable pub be_bytes : ℕ → ℕ → Bytes → Bytes
be_bytes zero v rest = rest
be_bytes (suc w) v rest = be_bytes w (v / 256) (v % 256 ∷ rest)

unfoldable pub native_bytes : Endian → ℕ → ℕ → Bytes → Bytes
unfolding le_bytes be_bytes
native_bytes little w v rest = le_bytes w v ++ rest
native_bytes big w v rest = be_bytes w v rest

unfoldable pub addr_bytes : InetAddr → Bytes → Bytes
unfolding be_bytes
addr_bytes a rest = be_bytes 4 a.w0 (be_bytes 4 a.w1 (be_bytes 4 a.w2 (be_bytes 4 a.w3 rest)))

-- The struct ends in seven bytes of padding.
unfoldable pub encode : Endian → AcctEvent → (ℕ → ℕ) → Bytes
unfolding native_bytes addr_bytes be_bytes
encode en r pad = native_bytes en 8 r.start (
    native_bytes en 8 r.ts (
      native_bytes en 4 r.cid (
        native_bytes en 4 r.connmark (
          addr_bytes r.srcaddr (
            addr_bytes r.dstaddr (
              native_bytes en 8 r.packets_orig (
                native_bytes en 8 r.bytes_orig (
                  native_bytes en 8 r.packets_ret (
                    native_bytes en 8 r.bytes_ret (
                      be_bytes 2 r.srcport (
                        be_bytes 2 r.dstport (
                          native_bytes en 4 r.netns (
                            r.proto
                            ∷ pad 0
                            ∷ pad 1
                            ∷ pad 2
                            ∷ pad 3
                            ∷ pad 4
                            ∷ pad 5
                            ∷ pad 6
                            ∷ [])))))))))))))

-- Every field fits the width of its C type.
pub record FitsAddr (a : InetAddr) : Type 0 where
  pub w0 : a.w0 < 2 ^ 32
  pub w1 : a.w1 < 2 ^ 32
  pub w2 : a.w2 < 2 ^ 32
  pub w3 : a.w3 < 2 ^ 32

pub record Fits (r : AcctEvent) : Type 0 where
  pub start : r.start < 2 ^ 64
  pub ts : r.ts < 2 ^ 64
  pub cid : r.cid < 2 ^ 32
  pub connmark : r.connmark < 2 ^ 32
  pub srcaddr : FitsAddr r.srcaddr
  pub dstaddr : FitsAddr r.dstaddr
  pub packets_orig : r.packets_orig < 2 ^ 64
  pub bytes_orig : r.bytes_orig < 2 ^ 64
  pub packets_ret : r.packets_ret < 2 ^ 64
  pub bytes_ret : r.bytes_ret < 2 ^ 64
  pub srcport : r.srcport < 2 ^ 16
  pub dstport : r.dstport < 2 ^ 16
  pub netns : r.netns < 2 ^ 32
  pub proto : r.proto < 2 ^ 8

-- The `net.IP` of an address: an IPv4 one, whose last three words are zero, in its mapped form.
unfoldable pub ip_of : InetAddr → Bytes
unfolding addr_bytes be_bytes
ip_of a =
    if a.w1 == 0 && (a.w2 == 0 && a.w3 == 0)
    then ipv4_prefix ++ be_bytes 4 a.w0 []
    else addr_bytes a []

-- What w bytes can hold.
abbrev InBytes : ℕ → ℕ → Type 0
InBytes zero v = v ≡ 0
InBytes (suc w) v = InBytes w (v / 256)

le_value-le_bytes : (w v : ℕ) → InBytes w v → le_value (le_bytes w v) ≡ v
unfolding le_value le_bytes
le_value-le_bytes zero v h = omega arith
le_value-le_bytes (suc w) v h = omega (arith, le_value-le_bytes w (v / 256) h)

-- Reading what `be_bytes` writes gives the number, and then the bytes that follow are read.
be_value-be_bytes :
    (w v : ℕ) (rest : Bytes) → InBytes w v → be_value 0 (be_bytes w v rest) ≡ be_value v rest
unfolding be_value be_bytes
be_value-be_bytes zero v rest h = ap (λ k. be_value k rest) (sym_zero v h)
  where
    sym_zero : (k : ℕ) → k ≡ 0 → 0 ≡ k
    sym_zero k e = omega arith
be_value-be_bytes (suc w) v rest h =
    be_value-be_bytes w (v / 256) (v % 256 ∷ rest) h ∙ ap (λ k. be_value k rest) (split v)
  where
    split : (k : ℕ) → 256 * (k / 256) + k % 256 ≡ k
    split k = omega arith

pub le_value_64 : (v : ℕ) → v < 2 ^ 64 → le_value (le_bytes 8 v) ≡ v
le_value_64 v h = le_value-le_bytes 8 v (omega arith)

pub le_value_32 : (v : ℕ) → v < 2 ^ 32 → le_value (le_bytes 4 v) ≡ v
le_value_32 v h = le_value-le_bytes 4 v (omega arith)

pub be_value_64 : (v : ℕ) → v < 2 ^ 64 → be_value 0 (be_bytes 8 v []) ≡ v
unfolding be_value
be_value_64 v h = be_value-be_bytes 8 v [] (omega arith)

pub be_value_32 : (v : ℕ) → v < 2 ^ 32 → be_value 0 (be_bytes 4 v []) ≡ v
unfolding be_value
be_value_32 v h = be_value-be_bytes 4 v [] (omega arith)

pub be_value_16 : (v : ℕ) → v < 2 ^ 16 → be_value 0 (be_bytes 2 v []) ≡ v
unfolding be_value
be_value_16 v h = be_value-be_bytes 2 v [] (omega arith)

-- The event that the struct stands for. A receiver keeps its ports if the protocol has none.
unfoldable pub event_of : Event → AcctEvent → Event
unfolding ip_of
event_of e r = record {
  start = r.start;
  timestamp = r.ts;
  connection_id = r.cid;
  connmark = r.connmark;
  src_addr = ip_of r.srcaddr;
  dst_addr = ip_of r.dstaddr;
  packets_orig = r.packets_orig;
  bytes_orig = r.bytes_orig;
  packets_ret = r.packets_ret;
  bytes_ret = r.bytes_ret;
  src_port = if r.proto == 6 || r.proto == 17 then r.srcport else e.src_port;
  dst_port = if r.proto == 6 || r.proto == 17 then r.dstport else e.dst_port;
  net_ns = r.netns;
  proto = r.proto;
}
