-- ===== src/Print/Frame.antt =====
-- What parse.c writes of a TCP frame of the generator.
use freepacket.Base.{
  [], ◌∷◌, ℕ, ◌+◌, ◌%◌, ◌^◌, ◌≡◌, ap, ap₂, ◌∙◌, List, ◌++◌, append_assoc, some, eq→==, length,
  arith, chars, print_uint,
}
use freepacket.Memory.{htons, htonl}
use freepacket.Memory.Frame.{htons-htons}
use freepacket.Config.{SimConfig}
use freepacket.Generator.{generator_tcp_packet}
use freepacket.Generator.RoundTrip.{IsTcpFrame, generator_tcp_packet-IsGenerated}
use freepacket.Generator.Filled.{CanMake}
use freepacket.Print.{
  newline, parse_iphdr, print_addresses, print_ports, parse_tcphdr, printf_mac_info, iphdr_lines,
  tcphdr_lines, parse_full_packet,
}

-- The two lines with the addresses and the ports of a connection, as they are to be read.
unfoldable pub connection : (ℕ → List ℕ) → ℕ → ℕ → ℕ → ℕ → List ℕ
connection inet_ntoa saddr daddr source dest =
    (chars "saddr:"
      ++ (inet_ntoa saddr ++ ((32 ∷ 9 ∷ []) ++ (chars "daddr:" ++ (inet_ntoa daddr ++ 10 ∷ [])))))
    ++ (chars "Source port:"
        ++ (print_uint source
            ++ (chars "    " ++ (chars "dest   port:" ++ (print_uint dest ++ 10 ∷ [])))))

-- `text` has `part` in it.
pub record Contains (part text : List ℕ) : Type 0 where
  pub before : List ℕ
  pub after : List ℕ
  pub split : text ≡ before ++ (part ++ after)

full_packet_lem :
    (inet_ntoa : ℕ → List ℕ) (packet : List ℕ) (saddr daddr source dest : ℕ)
    → IsTcpFrame packet saddr daddr source dest
    → parse_full_packet inet_ntoa packet 2
      ≡ printf_mac_info packet 2
        ++ ((iphdr_lines packet 16 ++ print_addresses inet_ntoa (htonl saddr) (htonl daddr))
            ++ (print_ports (htons source) (htons dest) ++ tcphdr_lines packet 36))
unfolding parse_full_packet parse_iphdr parse_tcphdr
full_packet_lem inet_ntoa packet saddr daddr source dest f =
    rw (parse_full_packet, eq→== _ _ f.proto_at, eq→== _ _ f.protocol_at, f.ihl_at)
      (ap₂
        (λ addresses ports.
          printf_mac_info packet 2
          ++ ((iphdr_lines packet 16 ++ addresses) ++ (ports ++ tcphdr_lines packet 36)))
        (ap₂ (print_addresses inet_ntoa) f.saddr_at f.daddr_at)
        (ap₂ print_ports f.source_at f.dest_at))

regroup :
    (mac lines addresses ports rest : List ℕ)
    → mac ++ ((lines ++ addresses) ++ (ports ++ rest))
      ≡ (mac ++ lines) ++ ((addresses ++ ports) ++ rest)
regroup mac lines addresses ports rest = simp (append_assoc)

print_ports-htons :
    (source dest : ℕ)
    → print_ports (htons source) (htons dest)
      ≡ chars "Source port:"
        ++ (print_uint (source % 2 ^ 16)
            ++ (chars "    " ++ (chars "dest   port:" ++ (print_uint (dest % 2 ^ 16) ++ newline))))
unfolding print_ports
print_ports-htons source dest =
    ap₂
      (λ a b.
        chars "Source port:"
        ++ (print_uint a ++ (chars "    " ++ (chars "dest   port:" ++ (print_uint b ++ newline)))))
      (htons-htons source) (htons-htons dest)

-- What `parse_full_packet` writes of an Ethernet frame with a TCP segment has, in one piece, the line
-- with both addresses and the line with both ports.
frame-Contains :
    (inet_ntoa : ℕ → List ℕ) (packet : List ℕ) (saddr daddr source dest : ℕ)
    → IsTcpFrame packet saddr daddr source dest
    → Contains
        (connection inet_ntoa (htonl saddr) (htonl daddr) (source % 2 ^ 16) (dest % 2 ^ 16))
        (parse_full_packet inet_ntoa packet 2)
unfolding connection print_addresses
frame-Contains inet_ntoa packet saddr daddr source dest f = record {
  before = printf_mac_info packet 2 ++ iphdr_lines packet 16;
  after = tcphdr_lines packet 36;
  split =
      full_packet_lem inet_ntoa packet saddr daddr source dest f
      ∙ regroup (printf_mac_info packet 2) (iphdr_lines packet 16)
          (print_addresses inet_ntoa (htonl saddr) (htonl daddr))
          (print_ports (htons source) (htons dest)) (tcphdr_lines packet 36)
      ∙ ap
          (λ ports.
            (printf_mac_info packet 2 ++ iphdr_lines packet 16)
            ++ ((print_addresses inet_ntoa (htonl saddr) (htonl daddr) ++ ports)
                ++ tcphdr_lines packet 36))
          (print_ports-htons source dest);
}

-- A packet of `generator_tcp_packet`, made with a text and a length that it can be made with, is one
-- of which `parse_full_packet` writes, in one piece, the line with both addresses and the line with
-- both ports of the generator's cursors, the ports as 16-bit numbers.
pub generated_packet-printed :
    (inet_ntoa : ℕ → List ℕ) (fuel pktlen : ℕ) (text buf : List ℕ) (c : SimConfig)
    → CanMake fuel pktlen text c
    → length buf ≡ pktlen + 2
    → (r : List ℕ × SimConfig) × (generator_tcp_packet fuel buf c ≡ some r)
      × (let c' = r.1 in
          Contains
            (connection inet_ntoa
              (htonl c'.saddr_cur)
              (htonl c'.daddr_cur)
              (c'.sport_cur % 2 ^ 16)
              (c'.dport_cur % 2 ^ 16))
            (parse_full_packet inet_ntoa r.0 2))
generated_packet-printed inet_ntoa fuel pktlen text buf c m size =
    let (r, run, g) =
      generator_tcp_packet-IsGenerated fuel buf text c m.has_text m.some_text m.short
        (omega (arith, m.least, m.same)) (omega (arith, m.most, m.same))
        (omega (arith, size, m.same)) (omega (arith, m.enough, m.same)) in
    let c' = r.1 in
    (
      r,
      run,
      frame-Contains inet_ntoa r.0 c'.saddr_cur c'.daddr_cur c'.sport_cur c'.dport_cur g.framed,
    )
