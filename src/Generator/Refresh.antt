-- ===== src/Generator/Refresh.antt =====
-- What the loop of `packet_generator` writes into a packet.
use freepacket.Base.{ℕ, ◌≤◌, ◌<◌, ◌≡◌, refl, ◌∙◌, inr, List, arith, length}
use freepacket.Memory.{load8, load16, load32, htons, htonl}
use freepacket.Memory.Frame.{frame, load16-write_out, load16-store, htons-lt, htonl-lt}
use freepacket.Config.{SimConfig}
use freepacket.Generator.{refresh, advance}
use freepacket.Generator.Layout.{address_low, address_high}
use native.Mathlib.Nat.{mod-eq_of_lt}
use freepacket.Generator.RoundTrip.{IsTcpFrame, IsAdvanced, advance-IsNext, thread_nums}

-- The loop of `packet_generator` makes of a TCP frame of at least 56 bytes one with the next
-- addresses and ports, of the same length and with the same bytes from offset 40 on.
pub refresh-IsTcpFrame :
    (buf : List ℕ) (c : SimConfig) (saddr daddr source dest : ℕ)
    → 56 ≤ length buf
    → IsTcpFrame buf saddr daddr source dest
    → let (out, c') = refresh buf c in
      IsTcpFrame out c'.saddr_cur c'.daddr_cur c'.sport_cur c'.dport_cur
      × (length out ≡ length buf)
      × ((j : ℕ) → 40 ≤ j → load8 out j ≡ load8 buf j)
unfolding refresh
refresh-IsTcpFrame buf c saddr daddr source dest room f = (
  record {
    proto_at = omega (frame, f.proto_at);
    ihl_at = omega (frame, f.ihl_at);
    protocol_at = omega (frame, f.protocol_at);
    saddr_at =
        address_low _ _ _ (omega frame)
        ∙ mod-eq_of_lt (htonl-lt (advance c.saddr_min c.saddr_max c.saddr_cur));
    daddr_at =
        address_high _ _ _ (omega frame)
        ∙ mod-eq_of_lt (htonl-lt (advance c.daddr_min c.daddr_max c.daddr_cur));
    source_at = omega (frame, htons-lt (advance c.sport_min c.sport_max c.sport_cur));
    dest_at =
        load16-write_out _ _ 32 38 (inr (omega arith))
        ∙ load16-write_out _ _ 28 38 (inr (omega arith))
        ∙ load16-store _ 38 _ (omega frame)
        ∙ mod-eq_of_lt (htons-lt (advance c.dport_min c.dport_max c.dport_cur));
    doff_at = omega (frame, f.doff_at);
  },
  omega frame,
  λ j h. omega frame,
)

-- A packet with the addresses and ports of the cursors, which have made a step, and nothing else
-- written behind the ports.
pub record IsRefreshed (buf : List ℕ) (c : SimConfig) (out : List ℕ) (c' : SimConfig) : Type 0 where
  pub advanced : IsAdvanced c c'
  pub saddr_at : load32 out 28 ≡ htonl c'.saddr_cur
  pub daddr_at : load32 out 32 ≡ htonl c'.daddr_cur
  pub source_at : load16 out 36 ≡ htons c'.sport_cur
  pub dest_at : load16 out 38 ≡ htons c'.dport_cur
  pub same_length : length out ≡ length buf
  pub before : (j : ℕ) → j < 28 → load8 out j ≡ load8 buf j
  pub behind : (j : ℕ) → 40 ≤ j → load8 out j ≡ load8 buf j
  pub same_nums : thread_nums c' ≡ thread_nums c
  pub same_pktlen : c'.pktlen ≡ c.pktlen

pub refresh-IsRefreshed :
    (buf : List ℕ) (c : SimConfig)
    → 40 ≤ length buf
    → IsRefreshed buf c (refresh buf c).0 (refresh buf c).1
unfolding refresh
refresh-IsRefreshed buf c room = record {
  advanced = record {
    saddr = advance-IsNext c.saddr_min c.saddr_max c.saddr_cur;
    daddr = advance-IsNext c.daddr_min c.daddr_max c.daddr_cur;
    sport = advance-IsNext c.sport_min c.sport_max c.sport_cur;
    dport = advance-IsNext c.dport_min c.dport_max c.dport_cur;
  };
  saddr_at =
      address_low _ _ _ (omega frame)
      ∙ mod-eq_of_lt (htonl-lt (advance c.saddr_min c.saddr_max c.saddr_cur));
  daddr_at =
      address_high _ _ _ (omega frame)
      ∙ mod-eq_of_lt (htonl-lt (advance c.daddr_min c.daddr_max c.daddr_cur));
  source_at = omega (frame, htons-lt (advance c.sport_min c.sport_max c.sport_cur));
  dest_at =
      load16-write_out _ _ 32 38 (inr (omega arith))
      ∙ load16-write_out _ _ 28 38 (inr (omega arith))
      ∙ load16-store _ 38 _ (omega frame)
      ∙ mod-eq_of_lt (htons-lt (advance c.dport_min c.dport_max c.dport_cur));
  same_length = omega frame;
  before = λ j h. omega frame;
  behind = λ j h. omega frame;
  same_nums = refl;
  same_pktlen = refl;
}
