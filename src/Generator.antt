-- ===== src/Generator.antt =====
-- packet_generator.c: the cursors over addresses and ports, the construction of a packet in its
-- buffer, and the loop's work on one packet. A buffer is what `packet->data` points to; offsets
-- are those of the source.
pub mod Cursor
pub mod Payload
pub mod Layout
pub mod RoundTrip
pub mod Refresh
pub mod Loop
pub mod Sends
pub mod Start
pub mod Filled
pub mod Collector
pub mod Collects
pub mod Thread
pub mod Steady
use freepacket.Base.{
  ℕ, zero, suc, ◌+◌, ◌-◌, List, [], ◌∷◌, Bool, true, false, Option, none, some, length, take, u16,
  u32, sub32, ◌==◌, if◌then◌else◌, int_lt, is_negative,
}
use freepacket.Memory.{write, store8, store16, store32, store_low, store_high, htons, htonl}
use freepacket.Config.{SimConfig}

abbrev pub ip_idx : ℕ
ip_idx = 16

abbrev pub tcp_idx : ℕ
tcp_idx = 36

abbrev pub udp_idx : ℕ
udp_idx = 36

abbrev pub pay_len : ℕ
pay_len = 2

-- `cur == max ? (cur = min) : (++cur)`, the body of the four `get_next_…` functions and macros.
unfoldable pub advance : ℕ → ℕ → ℕ → ℕ
advance cur_min cur_max cur = if cur == cur_max then cur_min else u32 (cur + 1)

unfoldable pub next_srcip : SimConfig → SimConfig
next_srcip c = record c { saddr_cur = advance c.saddr_min c.saddr_max c.saddr_cur }

unfoldable pub next_dstip : SimConfig → SimConfig
next_dstip c = record c { daddr_cur = advance c.daddr_min c.daddr_max c.daddr_cur }

unfoldable pub next_srcport : SimConfig → SimConfig
next_srcport c = record c { sport_cur = advance c.sport_min c.sport_max c.sport_cur }

unfoldable pub next_dstport : SimConfig → SimConfig
next_dstport c = record c { dport_cur = advance c.dport_min c.dport_max c.dport_cur }

-- The inline functions `get_next_srcport` and `get_next_dstport` return a `uint16_t`.
pub get_next_srcport : SimConfig → ℕ × SimConfig
get_next_srcport c = (u16 (next_srcport c).sport_cur, next_srcport c)

pub get_next_dstport : SimConfig → ℕ × SimConfig
get_next_dstport c = (u16 (next_dstport c).dport_cur, next_dstport c)

-- `while (j > i) { memcpy(payload + start, data, i); start += i; j -= i; }` and the `memcpy` of
-- the rest. `none` is a loop that still runs when the fuel is used up.
unfoldable pub fill : ℕ → List ℕ → ℕ → List ℕ → ℕ → Option (List ℕ)
fill zero buf start text j = none
fill (suc fuel) buf start text j =
    let rest =
      fill fuel (write buf start text) (start + length text) text (sub32 j (length text)) in
    elim (int_lt (length text) j) [ true ↦ rest | false ↦ some (write buf start (take j text)) ]

-- `pop_payload(buf + off, text, config)`, from `if (i > j)` on, with `j` the bytes wanted. A
-- negative `j` makes `memcpy` copy more than any buffer holds: `none`.
unfoldable pub fill_payload : ℕ → List ℕ → ℕ → List ℕ → ℕ → Option (List ℕ)
fill_payload fuel buf off text j =
    if int_lt j (length text)
    then (if is_negative j then none else fill fuel (write buf off (take j text)) off text j)
    else fill fuel buf off text j

-- `strlen` of a null pointer is a fault.
unfoldable pub pop_payload : ℕ → List ℕ → ℕ → SimConfig → Option (List ℕ)
pop_payload fuel buf off c = elim (c.pkt_data) [
  | none ↦ none
  | some text ↦ fill_payload fuel buf off text (sub32 c.pktlen 54)
]

unfoldable pub pop_transmission_tcp : List ℕ → ℕ → SimConfig → List ℕ × SimConfig
unfolding next_srcport next_dstport
pop_transmission_tcp buf off c =
    let c₁ = next_srcport c in
    let c₂ = next_dstport c₁ in
    let b₁ = store16 buf off (htons c₁.sport_cur) in
    let b₂ = store16 b₁ (off + 2) (htons c₂.dport_cur) in (store_high b₂ (off + 12) 5, c₂)

unfoldable pub pop_transmission_udp : List ℕ → ℕ → SimConfig → List ℕ × SimConfig
unfolding next_srcport next_dstport
pop_transmission_udp buf off c =
    let c₁ = next_srcport c in
    let c₂ = next_dstport c₁ in
    let b₁ = store16 buf off (htons c₁.sport_cur) in
    let b₂ = store16 b₁ (off + 2) (htons c₂.dport_cur) in
    (store16 b₂ (off + 4) (htons (sub32 c.pktlen udp_idx)), c₂)

unfoldable pub pop_iplayer_tcp : List ℕ → ℕ → SimConfig → List ℕ × SimConfig
unfolding next_srcip next_dstip
pop_iplayer_tcp buf off c =
    let c₁ = next_srcip c in
    let c₂ = next_dstip c₁ in
    let b₁ = store_high buf off 4 in
    let b₂ = store_low b₁ off 5 in
    let b₃ = store16 b₂ (off + 2) (htons (sub32 c.pktlen ip_idx)) in
    let b₄ = store8 b₃ (off + 8) 64 in
    let b₅ = store8 b₄ (off + 9) 6 in
    let b₆ = store32 b₅ (off + 12) (htonl c₁.saddr_cur) in
    (store32 b₆ (off + 16) (htonl c₂.daddr_cur), c₂)

unfoldable pub pop_iplayer_udp : List ℕ → ℕ → SimConfig → List ℕ × SimConfig
unfolding next_srcip next_dstip
pop_iplayer_udp buf off c =
    let c₁ = next_srcip c in
    let c₂ = next_dstip c₁ in
    let b₁ = store_low buf off 5 in
    let b₂ = store16 b₁ (off + 2) (htons (sub32 c.pktlen ip_idx)) in
    let b₃ = store8 b₂ (off + 9) 17 in
    let b₄ = store32 b₃ (off + 12) (htonl c₁.saddr_cur) in
    (store32 b₄ (off + 16) (htonl c₂.daddr_cur), c₂)

unfoldable pub pop_datalink : List ℕ → ℕ → SimConfig → List ℕ
pop_datalink buf off c =
    let b₁ = write buf off (take 6 c.dstmac) in
    let b₂ = write b₁ (off + 6) (take 6 c.srcmac) in store16 b₂ (off + 12) (htons 0x0800)

-- `generator_tcp_packet` and `generator_udp_packet`
unfoldable pub generator_tcp_packet : ℕ → List ℕ → SimConfig → Option (List ℕ × SimConfig)
generator_tcp_packet fuel buf c = elim (pop_payload fuel buf 56 c) [
  | none ↦ none
  | some b₁ ↦
      let (b₂, c₂) = pop_transmission_tcp b₁ tcp_idx c in
      let (b₃, c₃) = pop_iplayer_tcp b₂ ip_idx c₂ in some (pop_datalink b₃ pay_len c₃, c₃)
]

unfoldable pub generator_udp_packet : ℕ → List ℕ → SimConfig → Option (List ℕ × SimConfig)
generator_udp_packet fuel buf c = elim (pop_payload fuel buf 44 c) [
  | none ↦ none
  | some b₁ ↦
      let (b₂, c₂) = pop_transmission_udp b₁ udp_idx c in
      let (b₃, c₃) = pop_iplayer_udp b₂ ip_idx c₂ in some (pop_datalink b₃ pay_len c₃, c₃)
]

-- What the loop of `packet_generator` writes into each packet that it sends.
unfoldable pub refresh : List ℕ → SimConfig → List ℕ × SimConfig
unfolding next_srcip next_dstip next_srcport next_dstport
refresh buf c =
    let c₁ = next_srcport c in
    let c₂ = next_dstport c₁ in
    let c₃ = next_srcip c₂ in
    let c₄ = next_dstip c₃ in
    let b₁ = store16 buf tcp_idx (htons c₁.sport_cur) in
    let b₂ = store16 b₁ (tcp_idx + 2) (htons c₂.dport_cur) in
    let b₃ = store32 b₂ 28 (htonl c₃.saddr_cur) in (store32 b₃ 32 (htonl c₄.daddr_cur), c₄)

-- `next_thread_id`: the parser that gets the next packet.
unfoldable pub next_thread : ℕ → ℕ → ℕ → ℕ → ℕ
next_thread g_nums p_nums index next_thread_id =
    if int_lt (u32 (next_thread_id + g_nums)) p_nums then u32 (next_thread_id + g_nums) else index
