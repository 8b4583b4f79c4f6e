-- ===== src/Bpf/Event/Tests.antt =====
-- Runs of the decoder, and the theorems about it at concrete events.
use conntracct.Prelude.{panic, ◌≡◌, refl, [], ◌∷◌, none, arith}
use conntracct.Bpf.Event.{little, big, zero_event, is_ipv4, unmarshal_binary}
use conntracct.Bpf.Event.Layout.{InetAddr, AcctEvent, encode, event_of, ip_of}
use conntracct.Bpf.Event.Decode.{unmarshal_binary-encode}

abbrev v4 : InetAddr
v4 = record { w0 = 0x0a00_0001; w1 = 0; w2 = 0; w3 = 0 }

abbrev v6 : InetAddr
v6 = record { w0 = 0x2001_0db8; w1 = 0; w2 = 0; w3 = 1 }

abbrev dns_flow : AcctEvent
dns_flow = record {
  start = 1_546_300_800_000_000_000;
  ts = 77;
  cid = 0xffff_0000;
  connmark = 3;
  srcaddr = v4;
  dstaddr = v6;
  packets_orig = 2;
  bytes_orig = 120;
  packets_ret = 1;
  bytes_ret = 90;
  srcport = 40_000;
  dstport = 53;
  netns = 4_026_531_992;
  proto = 17;
}

dns_flow_decodes :
    (unmarshal_binary little zero_event (encode little dns_flow (λ i. i))).0.dst_port ≡ 53
unfolding unmarshal_binary encode
dns_flow_decodes = refl

v4_mapped : ip_of v4 ≡ 0 ∷ 0 ∷ 0 ∷ 0 ∷ 0 ∷ 0 ∷ 0 ∷ 0 ∷ 0 ∷ 0 ∷ 255 ∷ 255 ∷ 10 ∷ 0 ∷ 0 ∷ 1 ∷ []
unfolding ip_of
v4_mapped = refl

unmarshal_binary-encode_example :
    unmarshal_binary big zero_event (encode big dns_flow (λ i. 7))
    ≡ (event_of zero_event dns_flow, none)
unmarshal_binary-encode_example =
    unmarshal_binary-encode big zero_event dns_flow (λ i. 7) (omega arith)

-- A slice that is too short makes the test panic.
is_ipv4-short : is_ipv4 (127 ∷ 0 ∷ []) ≡ panic
unfolding is_ipv4
is_ipv4-short = refl
