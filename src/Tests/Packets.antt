-- ===== src/Tests/Packets.antt =====
-- A packet of 60 bytes from 192.168.103.19:100 to 192.168.103.18:200, its reply, and a session.
use freepacket.Base.{
  ℕ, ◌+◌, ◌%◌, ◌<◌, ◌≡◌, refl, List, [], ◌∷◌, some, none, arith, replicate, min, max,
}
use freepacket.Memory.{load8, htons, htonl}
use freepacket.Config.{SimConfig}
use freepacket.Generator.{fill_payload, generator_tcp_packet}
use freepacket.Generator.Payload.{fill_payload_hangs}
use freepacket.Generator.RoundTrip.{
  IsTcpFrame, IsAdvanced, generator_tcp_packet-IsTcpFrame, make_flow_item_tcp-frame,
}
use freepacket.Parser.{Packet, FlowItem, make_flow_item_tcp, hash_index}
use freepacket.Parser.Direction.{IsReply, SameKey, reply-SameKey}

abbrev pub config : SimConfig
config = record {
  protocol = 6;
  srcmac = 0x10 ∷ 0xbf ∷ 0x48 ∷ 0xd7 ∷ 0x9c ∷ 0xf8 ∷ [];
  dstmac = 0x10 ∷ 0xbf ∷ 0x48 ∷ 0xd7 ∷ 0x98 ∷ 0x3c ∷ [];
  saddr_min = 0xc0a86713;
  daddr_min = 0xc0a86712;
  saddr_cur = 0xc0a86713;
  daddr_cur = 0xc0a86712;
  saddr_max = 0xc0a86713;
  daddr_max = 0xc0a86712;
  sport_min = 100;
  dport_min = 200;
  sport_cur = 100;
  dport_cur = 200;
  sport_max = 104;
  dport_max = 200;
  speed = 5000;
  pkt_data = some (97 ∷ 98 ∷ 10 ∷ []);
  pktlen = 60;
  period = 200;
  link_name = none;
  packet_generator_mode = 0;
  generator_nums = 1;
  parser_nums = 1;
  manager_nums = 1;
  generator_pool_size = 100000;
  parser_queue_length = 50000;
  parser_pool_size = 100000;
  manager_queue_length = 50000;
  manager_pool_size = 50000;
  manager_hash_length = 1173;
  manager_buffer_size = 65536;
  pipe_depth = 5;
  screen_display = 1;
  speed_mode = 0;
  mhz = 2000;
  destory_time = 3;
}

abbrev blank : List ℕ
blank = replicate 62 0

generator_tcp_packet-IsTcpFrame_example :
    (r : List ℕ × SimConfig) × (generator_tcp_packet 61 blank config ≡ some r)
    × IsAdvanced config r.1
    × IsTcpFrame r.0 r.1.saddr_cur r.1.daddr_cur r.1.sport_cur r.1.dport_cur
    × ((k : ℕ) → k < 6 → load8 r.0 (56 + k) ≡ load8 (97 ∷ 98 ∷ 10 ∷ []) (k % 3))
generator_tcp_packet-IsTcpFrame_example =
    generator_tcp_packet-IsTcpFrame 61 blank (97 ∷ 98 ∷ 10 ∷ []) config refl (omega arith)
      (omega arith) (omega arith) (omega arith) refl (omega arith)

fill_payload_hangs_example : fill_payload 1000 blank 56 [] 6 ≡ none
fill_payload_hangs_example = fill_payload_hangs 1000 blank 56 6 (omega arith) (omega arith)

-- The headers with the given addresses and ports, and "hello!".
abbrev pub frame_of : ℕ → ℕ → ℕ → ℕ → List ℕ
frame_of src dst sport dport =
    0 ∷ 0 ∷ 0x10 ∷ 0xbf ∷ 0x48 ∷ 0xd7 ∷ 0x98 ∷ 0x3c ∷ 0x10 ∷ 0xbf ∷ 0x48 ∷ 0xd7 ∷ 0x9c ∷ 0xf8 ∷ 8
    ∷ 0 ∷ 0x45 ∷ 0 ∷ 0 ∷ 44 ∷ 0 ∷ 0 ∷ 0 ∷ 0 ∷ 64 ∷ 6 ∷ 0 ∷ 0 ∷ 192 ∷ 168 ∷ 103 ∷ src ∷ 192 ∷ 168
    ∷ 103 ∷ dst ∷ 0 ∷ sport ∷ 0 ∷ dport ∷ 0 ∷ 0 ∷ 0 ∷ 0 ∷ 0 ∷ 0 ∷ 0 ∷ 0 ∷ 0x50 ∷ 0 ∷ 0 ∷ 0 ∷ 0 ∷ 0
    ∷ 0 ∷ 0 ∷ 104 ∷ 101 ∷ 108 ∷ 108 ∷ 111 ∷ 33 ∷ []

frame_IsTcpFrame : IsTcpFrame (frame_of 19 18 100 200) 0xc0a86713 0xc0a86712 100 200
unfolding htons htonl
frame_IsTcpFrame = record {
  proto_at = refl;
  ihl_at = refl;
  protocol_at = refl;
  saddr_at = refl;
  daddr_at = refl;
  source_at = refl;
  dest_at = refl;
  doff_at = refl;
}

abbrev packet : Packet
packet = record { address = 1; bytes = frame_of 19 18 100 200; length = 60; pool = 1 }

abbrev reply : Packet
reply = record { address = 2; bytes = frame_of 18 19 200 100; length = 60; pool = 1 }

abbrev flow : FlowItem
flow = record {
  address = 12;
  upper_ip = 0;
  lower_ip = 0;
  upper_port = 0;
  lower_port = 0;
  protocol = 0;
  packet = packet;
  payload = 0;
  payload_len = 0;
  pool = 2;
}

make_flow_item_tcp-frame_example : make_flow_item_tcp flow packet ≡ record {
  address = 12;
  upper_ip = max (htonl 0xc0a86713) (htonl 0xc0a86712);
  lower_ip = min (htonl 0xc0a86713) (htonl 0xc0a86712);
  upper_port = max (htons 100) (htons 200);
  lower_port = min (htons 100) (htons 200);
  protocol = 6;
  packet = packet;
  payload = 56;
  payload_len = 6;
  pool = 2;
}
make_flow_item_tcp-frame_example =
    make_flow_item_tcp-frame flow packet 0xc0a86713 0xc0a86712 100 200 frame_IsTcpFrame
      (omega arith) (omega arith)

reply_lem : IsReply packet reply
reply_lem = record { same_protocol = refl; saddr = refl; daddr = refl; source = refl; dest = refl }

reply-SameKey_example :
    SameKey (make_flow_item_tcp flow reply) (make_flow_item_tcp flow packet)
    × (hash_index (make_flow_item_tcp flow reply) 4 ≡ hash_index (make_flow_item_tcp flow packet) 4)
reply-SameKey_example = reply-SameKey flow flow packet reply 4 reply_lem
