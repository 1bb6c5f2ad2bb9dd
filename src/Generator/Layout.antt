-- ===== src/Generator/Layout.antt =====
-- The bytes of a generated packet.
use freepacket.Base.{
  ℕ, ◌/◌, ◌%◌, ◌^◌, ◌≤◌, ◌<◌, ◌≡◌, List, refl, ◌∙◌, inl, arith, length, length-take,
}
use freepacket.Memory.{load8, load16, load32, store32, bytes32, htons, htonl}
use native.Mathlib.Nat.{mod-eq_of_lt}
use freepacket.Memory.Frame.{
  frame, length-write, load32-write_out, load32-store, htons-lt, htonl-lt,
}
use freepacket.Generator.{
  pop_transmission_tcp, pop_iplayer_tcp, pop_datalink, tcp_idx, ip_idx, pay_len, next_srcport,
  next_dstport, next_srcip, next_dstip,
}
use freepacket.Config.{SimConfig}

-- What `pop_transmission_tcp` leaves in the buffer.
pub record IsTcpHeader (buf out : List ℕ) (source dest : ℕ) : Type 0 where
  pub same_length : length out ≡ length buf
  pub source_at : load16 out 36 ≡ htons source
  pub dest_at : load16 out 38 ≡ htons dest
  pub doff_at : load8 out 48 / 16 ≡ 5
  pub before : (j : ℕ) → j < 36 → load8 out j ≡ load8 buf j
  pub after : (j : ℕ) → 49 ≤ j → load8 out j ≡ load8 buf j

pub tcp_header :
    (buf : List ℕ) (c : SimConfig)
    → 56 ≤ length buf
    → let (out, c') = pop_transmission_tcp buf tcp_idx c in
      IsTcpHeader buf out c'.sport_cur c'.dport_cur
unfolding pop_transmission_tcp
tcp_header buf c room = record {
  same_length = omega frame;
  source_at = omega (frame, htons-lt (next_srcport c).sport_cur);
  dest_at = omega (frame, htons-lt (next_dstport (next_srcport c)).dport_cur);
  doff_at = omega frame;
  before = λ j h. omega frame;
  after = λ j h. omega frame;
}

-- The last two stores of the IP header, and loads of what they stored.
module _ (buf : List ℕ) (v w : ℕ) (room : 36 ≤ length buf) where
  pub address_low : load32 (store32 (store32 buf 28 v) 32 w) 28 ≡ v % 2 ^ 32
  address_low =
      load32-write_out (bytes32 w) (store32 buf 28 v) 32 28 (inl (omega arith))
      ∙ load32-store buf 28 v (omega arith)

  pub address_high : load32 (store32 (store32 buf 28 v) 32 w) 32 ≡ w % 2 ^ 32
  address_high =
      load32-store (store32 buf 28 v) 32 w (omega (arith, length-write (bytes32 v) buf 28))

-- What `pop_iplayer_tcp` leaves in the buffer.
pub record IsIpHeader (buf out : List ℕ) (saddr daddr : ℕ) : Type 0 where
  pub same_length : length out ≡ length buf
  pub ihl_at : load8 out 16 ≡ 0x45
  pub protocol_at : load8 out 25 ≡ 6
  pub saddr_at : load32 out 28 ≡ htonl saddr
  pub daddr_at : load32 out 32 ≡ htonl daddr
  pub after : (j : ℕ) → 36 ≤ j → load8 out j ≡ load8 buf j

pub ip_header :
    (buf : List ℕ) (c : SimConfig)
    → 56 ≤ length buf
    → let (out, c') = pop_iplayer_tcp buf ip_idx c in IsIpHeader buf out c'.saddr_cur c'.daddr_cur
unfolding pop_iplayer_tcp
ip_header buf c room = record {
  same_length = omega frame;
  ihl_at = omega frame;
  protocol_at = omega frame;
  saddr_at = address_low _ _ _ (omega frame) ∙ mod-eq_of_lt (htonl-lt (next_srcip c).saddr_cur);
  daddr_at =
      address_high _ _ _ (omega frame)
      ∙ mod-eq_of_lt (htonl-lt (next_dstip (next_srcip c)).daddr_cur);
  after = λ j h. omega frame;
}

-- What `pop_datalink` leaves in the buffer: the Ethernet type, and all that follows.
pub record IsEtherHeader (buf out : List ℕ) : Type 0 where
  pub same_length : length out ≡ length buf
  pub proto_at : load16 out 14 ≡ htons 0x0800
  pub after : (j : ℕ) → 16 ≤ j → load8 out j ≡ load8 buf j

pub ether_header :
    (buf : List ℕ) (c : SimConfig)
    → 56 ≤ length buf
    → IsEtherHeader buf (pop_datalink buf pay_len c)
unfolding pop_datalink
ether_header buf c room =
    let dst = length-take 6 c.dstmac in
    let src = length-take 6 c.srcmac in
    record {
      same_length = omega frame;
      proto_at = omega (frame, htons-lt 0x0800);
      after = λ j h. omega (frame, dst, src);
    }

pub ip_header-ports :
    (buf : List ℕ) (c : SimConfig)
    → let (out, c') = pop_iplayer_tcp buf ip_idx c in
      (c'.sport_cur ≡ c.sport_cur) × (c'.dport_cur ≡ c.dport_cur)
unfolding pop_iplayer_tcp
ip_header-ports buf c = (refl, refl)
