-- ===== src/Parser.antt =====
-- packet_parser.c: the hash of a flow, and the flow item that is read out of a packet. A packet
-- and the pools are named by numbers; `data` is what `packet->data` points to, and pointers into
-- it are offsets.
pub mod Direction
pub mod Loop
pub mod Distribute
pub mod Round
pub mod Start
use freepacket.Base.{
  ℕ, ◌+◌, ◌-◌, ◌*◌, ◌/◌, ◌%◌, List, u32, sub32, leb, if◌then◌else◌, bit_xor, ◌<<<◌, ◌>>>◌,
}
use freepacket.Memory.{load8, load16, load32}

-- `packet_t`
pub record Packet : Type 0 where
  pub address : ℕ
  pub bytes : List ℕ
  pub length : ℕ
  pub pool : ℕ

-- `flow_item_t`, by the address of the item; `payload` is an offset into `packet->data`.
pub record FlowItem : Type 0 where
  pub address : ℕ
  pub upper_ip : ℕ
  pub lower_ip : ℕ
  pub upper_port : ℕ
  pub lower_port : ℕ
  pub protocol : ℕ
  pub packet : Packet
  pub payload : ℕ
  pub payload_len : ℕ
  pub pool : ℕ

-- `make_hash`, and the macro `MAKE_HASH` with the same text.
unfoldable pub make_hash : ℕ → ℕ → ℕ → ℕ → ℕ → ℕ
make_hash f1 f2 f3 f4 size =
    let v1 = bit_xor f1 f2 in
    let v2 = bit_xor f3 f4 in
    let h1 = u32 (v1 <<< 8) in
    let h2 = bit_xor h1 (v1 >>> 4) in
    let h3 = bit_xor h2 (v1 >>> 12) in
    let h4 = bit_xor h3 (v1 >>> 16) in
    let h5 = bit_xor h4 (u32 (v2 <<< 6)) in
    let h6 = bit_xor h5 (u32 (v2 <<< 10)) in
    let h7 = bit_xor h6 (u32 (v2 <<< 14)) in bit_xor h7 (v2 >>> 7) % size

-- `hash_index`: the manager that gets the flow, of `numbers`.
unfoldable pub hash_index : FlowItem → ℕ → ℕ
hash_index flow numbers =
    make_hash flow.lower_ip flow.upper_ip flow.lower_port flow.upper_port numbers

-- `sizeof(struct ethhdr)` and `PAY_LEN`
abbrev pub eth_hdr_len : ℕ
eth_hdr_len = 14

abbrev pub pay_len : ℕ
pay_len = 2

-- `packet->data + PAY_LEN + eth_hdr_len`, where the IP header starts.
abbrev pub ip_hdr : ℕ
ip_hdr = 16

-- The first four bits of the IP header count words of four bytes.
abbrev pub ihl_bytes : List ℕ → ℕ
ihl_bytes buf = load8 buf ip_hdr % 16 * 4

-- `make_flow_item_tcp(flow, packet, len)`; `flow->pool` stays.
unfoldable pub make_flow_item_tcp : FlowItem → Packet → FlowItem
make_flow_item_tcp flow packet =
    let buf = packet.bytes in
    let ihl = ihl_bytes buf in
    let tcp = ip_hdr + ihl in
    let tcp_len = load8 buf (tcp + 12) / 16 * 4 in
    let header_len = eth_hdr_len + ihl + tcp_len + pay_len in
    let saddr = load32 buf (ip_hdr + 12) in
    let daddr = load32 buf (ip_hdr + 16) in
    let source = load16 buf tcp in
    let dest = load16 buf (tcp + 2) in
    record {
      address = flow.address;
      upper_ip = if leb daddr saddr then saddr else daddr;
      lower_ip = if leb daddr saddr then daddr else saddr;
      upper_port = if leb dest source then source else dest;
      lower_port = if leb dest source then dest else source;
      protocol = load8 buf (ip_hdr + 9);
      packet = packet;
      payload = header_len;
      payload_len = u32 (sub32 packet.length header_len + pay_len);
      pool = flow.pool;
    }

-- `make_flow_item_udp(flow, packet, header_len)`
unfoldable pub make_flow_item_udp : FlowItem → Packet → ℕ → FlowItem
make_flow_item_udp flow packet header_len =
    let buf = packet.bytes in
    let udp = ip_hdr + ihl_bytes buf in
    let saddr = load32 buf (ip_hdr + 12) in
    let daddr = load32 buf (ip_hdr + 16) in
    let source = load16 buf udp in
    let dest = load16 buf (udp + 2) in
    record {
      address = flow.address;
      upper_ip = if leb daddr saddr then saddr else daddr;
      lower_ip = if leb daddr saddr then daddr else saddr;
      upper_port = if leb dest source then source else dest;
      lower_port = if leb dest source then dest else source;
      protocol = load8 buf (ip_hdr + 9);
      packet = packet;
      payload = header_len;
      payload_len = u32 (sub32 packet.length header_len + pay_len);
      pool = flow.pool;
    }
