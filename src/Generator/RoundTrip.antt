-- ===== src/Generator/RoundTrip.antt =====
-- A generated packet, read back by the parser.
use freepacket.Base.{
  ℕ, ◌+◌, ◌-◌, ◌*◌, ◌/◌, ◌%◌, ◌^◌, ◌≤◌, ◌<◌, ◌≡◌, refl, ap, ◌∙◌, inl, inr, ◌⊎◌, ◌≢◌, eq→==, ◌==◌,
  ==_iff, Bool-cases, List, some, arith, length, sub32, u32, leb, if◌then◌else◌, min, max,
}
use freepacket.Memory.{load8, load16, load32, htons, htonl}
use freepacket.Config.{SimConfig}
use freepacket.Generator.{
  fill_payload, pop_payload, pop_transmission_tcp, pop_iplayer_tcp, pop_datalink,
  generator_tcp_packet, advance, tcp_idx, ip_idx, pay_len,
}
use freepacket.Generator.Payload.{fill_payload-IsFilled}
use freepacket.Generator.Layout.{tcp_header, ip_header, ether_header, ip_header-ports}
use freepacket.Parser.{Packet, FlowItem, make_flow_item_tcp}

-- An Ethernet frame, from offset 2 on, with a TCP segment from `saddr:source` to `daddr:dest`
-- and no options in either header.
pub record IsTcpFrame (buf : List ℕ) (saddr daddr source dest : ℕ) : Type 0 where
  pub proto_at : load16 buf 14 ≡ htons 0x0800
  pub ihl_at : load8 buf 16 ≡ 0x45
  pub protocol_at : load8 buf 25 ≡ 6
  pub saddr_at : load32 buf 28 ≡ htonl saddr
  pub daddr_at : load32 buf 32 ≡ htonl daddr
  pub source_at : load16 buf 36 ≡ htons source
  pub dest_at : load16 buf 38 ≡ htons dest
  pub doff_at : load8 buf 48 / 16 ≡ 5

-- The headers over a filled payload, as `generator_tcp_packet` adds them.
abbrev finish : List ℕ → SimConfig → List ℕ × SimConfig
finish buf c =
    let (b₂, c₂) = pop_transmission_tcp buf tcp_idx c in
    let (b₃, c₃) = pop_iplayer_tcp b₂ ip_idx c₂ in (pop_datalink b₃ pay_len c₃, c₃)

headers :
    (buf : List ℕ) (c : SimConfig)
    → 56 ≤ length buf
    → let (out, c₃) = finish buf c in
      (length out ≡ length buf)
      × ((j : ℕ) → 56 ≤ j → load8 out j ≡ load8 buf j)
      × IsTcpFrame out c₃.saddr_cur c₃.daddr_cur c₃.sport_cur c₃.dport_cur
headers buf c room =
    let (b₂, c₂) = pop_transmission_tcp buf tcp_idx c in
    let (b₃, c₃) = pop_iplayer_tcp b₂ ip_idx c₂ in
    let (sport, dport) = ip_header-ports b₂ c₂ in
    let t = tcp_header buf c room in
    let i = ip_header b₂ c₂ (omega (arith, t.same_length)) in
    let e = ether_header b₃ c₃ (omega (arith, t.same_length, i.same_length)) in
    (
      omega (arith, t.same_length, i.same_length, e.same_length),
      λ j h. e.after j (omega arith) ∙ i.after j (omega arith) ∙ t.after j (omega arith),
      record {
        proto_at = e.proto_at;
        ihl_at = omega (arith, e.after, i.ihl_at);
        protocol_at = omega (arith, e.after, i.protocol_at);
        saddr_at = omega (arith, e.after, i.saddr_at);
        daddr_at = omega (arith, e.after, i.daddr_at);
        source_at = rw sport (omega (arith, e.after, i.after, t.source_at));
        dest_at = rw dport (omega (arith, e.after, i.after, t.dest_at));
        doff_at = omega (arith, e.after, i.after, t.doff_at);
      },
    )

pop_payload-run :
    (fuel : ℕ) (buf : List ℕ) (off : ℕ) (text : List ℕ) (c : SimConfig) (out : List ℕ)
    → c.pkt_data ≡ some text
    → fill_payload fuel buf off text (sub32 c.pktlen 54) ≡ some out
    → pop_payload fuel buf off c ≡ some out
unfolding pop_payload
pop_payload-run fuel buf off text c out has_text run = rw has_text run

generator_tcp_packet-run :
    (fuel : ℕ) (buf : List ℕ) (c : SimConfig) (b₁ : List ℕ)
    → pop_payload fuel buf 56 c ≡ some b₁
    → generator_tcp_packet fuel buf c ≡ some (finish b₁ c)
unfolding generator_tcp_packet
generator_tcp_packet-run fuel buf c b₁ run = rw (run, generator_tcp_packet)

-- The settings that the threads go by.
abbrev pub thread_nums : SimConfig → ℕ × ℕ
thread_nums c = (c.generator_nums, c.parser_nums)

-- The cursors are all that the headers change of the configuration.
finish_config :
    (buf : List ℕ) (c : SimConfig)
    → let (out, c') = finish buf c in
      (c'.pkt_data ≡ c.pkt_data) × (c'.pktlen ≡ c.pktlen) × (thread_nums c' ≡ thread_nums c)
unfolding pop_transmission_tcp pop_iplayer_tcp
finish_config buf c = (refl, refl, refl)

-- One step through the range `lo … hi`: from its end to its start, and else one up, in 32 bits.
abbrev pub IsNext : ℕ → ℕ → ℕ → ℕ → Type 0
IsNext lo hi cur next = ((cur ≡ hi) × (next ≡ lo)) ⊎ ((cur ≢ hi) × (next ≡ (cur + 1) % 2 ^ 32))

-- Every cursor has made one step through its range.
pub record IsAdvanced (c c' : SimConfig) : Type 0 where
  pub saddr : IsNext c.saddr_min c.saddr_max c.saddr_cur c'.saddr_cur
  pub daddr : IsNext c.daddr_min c.daddr_max c.daddr_cur c'.daddr_cur
  pub sport : IsNext c.sport_min c.sport_max c.sport_cur c'.sport_cur
  pub dport : IsNext c.dport_min c.dport_max c.dport_cur c'.dport_cur

pub advance-IsNext : (lo hi cur : ℕ) → IsNext lo hi cur (advance lo hi cur)
unfolding advance
advance-IsNext lo hi cur = elim (Bool-cases (cur == hi)) [
  | inl last ↦ inl ((==_iff cur hi).0 last, rw last refl)
  | inr other ↦ inr (λ same. absurd (ground (arith, eq→== _ _ same)), rw other refl)
]

finish-IsAdvanced : (buf : List ℕ) (c : SimConfig) → IsAdvanced c (finish buf c).1
unfolding pop_transmission_tcp pop_iplayer_tcp
finish-IsAdvanced buf c = record {
  saddr = advance-IsNext c.saddr_min c.saddr_max c.saddr_cur;
  daddr = advance-IsNext c.daddr_min c.daddr_max c.daddr_cur;
  sport = advance-IsNext c.sport_min c.sport_max c.sport_cur;
  dport = advance-IsNext c.dport_min c.dport_max c.dport_cur;
}

-- What `generator_tcp_packet` leaves: a frame with the next addresses and ports over the text, in
-- a buffer of the same length, and a configuration with the same text and length.
pub record IsGenerated (buf text : List ℕ) (c : SimConfig) (out : List ℕ) (c' : SimConfig)
    : Type 0 where
  pub framed : IsTcpFrame out c'.saddr_cur c'.daddr_cur c'.sport_cur c'.dport_cur
  pub advanced : IsAdvanced c c'
  pub payload : (k : ℕ) → k < c.pktlen - 54 → load8 out (56 + k) ≡ load8 text (k % length text)
  pub same_length : length out ≡ length buf
  pub same_text : c'.pkt_data ≡ c.pkt_data
  pub same_pktlen : c'.pktlen ≡ c.pktlen
  pub same_nums : thread_nums c' ≡ thread_nums c

pub generator_tcp_packet-IsGenerated :
    (fuel : ℕ) (buf text : List ℕ) (c : SimConfig)
    → c.pkt_data ≡ some text
    → 0 < length text
    → length text < 2 ^ 31
    → 54 ≤ c.pktlen
    → c.pktlen < 2 ^ 31
    → length buf ≡ c.pktlen + 2
    → c.pktlen < fuel
    → (r : List ℕ × SimConfig) × (generator_tcp_packet fuel buf c ≡ some r)
      × IsGenerated buf text c r.0 r.1
generator_tcp_packet-IsGenerated fuel buf text c has_text pos short least most size enough =
    let j : sub32 c.pktlen 54 ≡ c.pktlen - 54 = omega arith in
    let (b₁, run, f) =
      fill_payload-IsFilled text pos short fuel buf 56 (c.pktlen - 54) (omega arith) (omega arith)
        (omega arith) in
    let (same, after, frame_lem) = headers b₁ c (omega (arith, f.same_length)) in
    let (same_text, same_pktlen, same_nums) = finish_config b₁ c in
    (
      finish b₁ c,
      generator_tcp_packet-run fuel buf c b₁ (
          pop_payload-run fuel buf 56 text c b₁ has_text
            (ap (fill_payload fuel buf 56 text) j ∙ run)),
      record {
        framed = frame_lem;
        advanced = finish-IsAdvanced b₁ c;
        payload = λ k h. after (56 + k) (omega arith) ∙ f.inside k h;
        same_length = same ∙ f.same_length;
        same_text = same_text;
        same_pktlen = same_pktlen;
        same_nums = same_nums;
      },
    )

-- With a configured text that is not empty and below 2 ^ 31 characters, a packet length from 54 to
-- 2 ^ 31 - 1, a buffer of that length and two bytes more, and fuel above the length,
-- `generator_tcp_packet` ends, moves each of the four cursors one step through its range, and makes
-- a TCP frame with the addresses and ports of the cursors, whose payload is the configured text
-- over and over.
pub generator_tcp_packet-IsTcpFrame :
    (fuel : ℕ) (buf text : List ℕ) (c : SimConfig)
    → c.pkt_data ≡ some text
    → 0 < length text
    → length text < 2 ^ 31
    → 54 ≤ c.pktlen
    → c.pktlen < 2 ^ 31
    → length buf ≡ c.pktlen + 2
    → c.pktlen < fuel
    → (r : List ℕ × SimConfig) × (generator_tcp_packet fuel buf c ≡ some r)
      × IsAdvanced c r.1
      × IsTcpFrame r.0 r.1.saddr_cur r.1.daddr_cur r.1.sport_cur r.1.dport_cur
      × ((k : ℕ) → k < c.pktlen - 54 → load8 r.0 (56 + k) ≡ load8 text (k % length text))
generator_tcp_packet-IsTcpFrame fuel buf text c has_text pos short least most size enough =
    let (r, run, g) =
      generator_tcp_packet-IsGenerated fuel buf text c has_text pos short least most size enough in
    (r, run, g.advanced, g.framed, g.payload)

-- The choice of the code is the larger, and the smaller, of two values.
upper-max : (a b : ℕ) → (if leb b a then a else b) ≡ max a b
upper-max a b = ground arith

lower-min : (a b : ℕ) → (if leb b a then b else a) ≡ min a b
lower-min a b = ground arith

-- What the parser makes of a TCP frame without options, in a packet of 54 to 2 ^ 32 - 1 bytes: the
-- larger and the smaller address and port, as they stand in the packet, TCP, and the payload
-- behind the 54 bytes of headers.
pub make_flow_item_tcp-frame :
    (flow : FlowItem) (p : Packet) (saddr daddr source dest : ℕ)
    → IsTcpFrame p.bytes saddr daddr source dest
    → 54 ≤ p.length
    → p.length < 2 ^ 32
    → make_flow_item_tcp flow p ≡ record {
      address = flow.address;
      upper_ip = max (htonl saddr) (htonl daddr);
      lower_ip = min (htonl saddr) (htonl daddr);
      upper_port = max (htons source) (htons dest);
      lower_port = min (htons source) (htons dest);
      protocol = 6;
      packet = p;
      payload = 56;
      payload_len = p.length - 54;
      pool = flow.pool;
    }
unfolding make_flow_item_tcp
make_flow_item_tcp-frame flow p saddr daddr source dest f least most =
    let ihl : load8 p.bytes 16 % 16 * 4 ≡ 20 = omega (arith, f.ihl_at) in
    let doff : load8 p.bytes 48 / 16 * 4 ≡ 20 = omega (arith, f.doff_at) in
    let len : u32 (sub32 p.length 56 + 2) ≡ p.length - 54 = omega arith in
    rw (
      ihl, doff, f.saddr_at, f.daddr_at, f.source_at, f.dest_at, f.protocol_at, upper-max,
      upper-max, lower-min, lower-min, len,
    )
