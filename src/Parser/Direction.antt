-- ===== src/Parser/Direction.antt =====
-- The key and the hash of a flow in packet_parser.c, for the two directions of a connection.
use native.Mathlib.Nat.{mod-lt}
use freepacket.Base.{ℕ, ◌+◌, ◌<◌, ◌≡◌, arith, leb, if◌then◌else◌}
use freepacket.Memory.{load8, load16, load32}
use freepacket.Parser.{
  Packet, FlowItem, make_hash, hash_index, make_flow_item_tcp, ip_hdr, ihl_bytes,
}

-- The hash picks one of the managers.
pub hash_index-lt :
    (flow : FlowItem) (numbers : ℕ) → 0 < numbers → hash_index flow numbers < numbers
unfolding hash_index make_hash
hash_index-lt flow numbers h = mod-lt _ h

-- The packet `q` is a packet of the same connection as `p`, the other way.
pub record IsReply (p q : Packet) : Type 0 where
  pub same_protocol : load8 q.bytes (ip_hdr + 9) ≡ load8 p.bytes (ip_hdr + 9)
  pub saddr : load32 q.bytes (ip_hdr + 12) ≡ load32 p.bytes (ip_hdr + 16)
  pub daddr : load32 q.bytes (ip_hdr + 16) ≡ load32 p.bytes (ip_hdr + 12)
  pub source :
      load16 q.bytes (ip_hdr + ihl_bytes q.bytes) ≡ load16 p.bytes (ip_hdr + ihl_bytes p.bytes + 2)
  pub dest :
      load16 q.bytes (ip_hdr + ihl_bytes q.bytes + 2) ≡ load16 p.bytes (ip_hdr + ihl_bytes p.bytes)

-- The five fields by which flows and sessions are compared.
pub record SameKey (f g : FlowItem) : Type 0 where
  pub upper_ip : f.upper_ip ≡ g.upper_ip
  pub lower_ip : f.lower_ip ≡ g.lower_ip
  pub upper_port : f.upper_port ≡ g.upper_port
  pub lower_port : f.lower_port ≡ g.lower_port
  pub protocol : f.protocol ≡ g.protocol

-- The larger and the smaller of two values do not depend on their order.
upper_comm : (a b c d : ℕ) → c ≡ b → d ≡ a → (if leb d c then c else d) ≡ (if leb b a then a else b)
upper_comm a b c d p q = ground arith

lower_comm : (a b c d : ℕ) → c ≡ b → d ≡ a → (if leb d c then d else c) ≡ (if leb b a then b else a)
lower_comm a b c d p q = ground arith

hash_index_congr :
    (f g : FlowItem) (numbers : ℕ) → SameKey f g → hash_index f numbers ≡ hash_index g numbers
unfolding hash_index
hash_index_congr f g numbers k = rw (k.upper_ip, k.lower_ip, k.upper_port, k.lower_port)

-- The flow items of a TCP packet and of a packet of the same connection the other way have the
-- same key, so they go to the same manager.
pub reply-SameKey :
    (f g : FlowItem) (p q : Packet) (numbers : ℕ)
    → IsReply p q
    → SameKey (make_flow_item_tcp g q) (make_flow_item_tcp f p)
      × (hash_index (make_flow_item_tcp g q) numbers ≡ hash_index (make_flow_item_tcp f p) numbers)
unfolding make_flow_item_tcp
reply-SameKey f g p q numbers r = (same, hash_index_congr _ _ numbers same)
  where
    same : SameKey (make_flow_item_tcp g q) (make_flow_item_tcp f p)
    same = record {
      upper_ip = upper_comm _ _ _ _ r.saddr r.daddr;
      lower_ip = lower_comm _ _ _ _ r.saddr r.daddr;
      upper_port = upper_comm _ _ _ _ r.source r.dest;
      lower_port = lower_comm _ _ _ _ r.source r.dest;
      protocol = r.same_protocol;
    }
