-- ===== src/Print.antt =====
-- parse.c: what is written of a packet. The output is the list of its characters, and a pointer
-- into the packet is an offset; `inet_ntoa` is a parameter. The mutex of the output is left out.
pub mod Names
pub mod Dump
pub mod Frame
use freepacket.Base.{
  ℕ, zero, suc, ◌+◌, ◌*◌, ◌/◌, ◌%◌, List, [], ◌∷◌, ◌++◌, ◌==◌, if◌then◌else◌, bit_and, Bool, ◌||◌,
  not, chars, print_int, print_uint, hex2, upper2, hex,
}
use freepacket.Memory.{load8, load16, load32, htons}
use freepacket.Print.Names.{text_of, ip_protocols, mac_types}

abbrev pub newline : List ℕ
newline = 10 ∷ []

-- `parse_tos(tos)`
unfoldable pub parse_tos : ℕ → List ℕ
parse_tos tos =
    let masked = bit_and tos 0x1e in
    if masked == 0x10
    then chars "IPTOS_LOWDELAY" ++ newline
    else (if masked == 0x08
        then chars "IPTOS_THROUGHPUT" ++ newline
        else (if masked == 0x04
            then chars "IPTOS_RELIABILITY" ++ newline
            else (if masked == 0x02 then chars "IPTOS_MINCOST" ++ newline else [])))

-- `IP_MF` and `IP_OFFSET`
abbrev pub ip_mf : ℕ
ip_mf = 0x2000

abbrev pub ip_offset : ℕ
ip_offset = 0x1fff

-- `parse_frag_off(frag_off)`, on the two bytes as they are in the packet.
unfoldable pub parse_frag_off : ℕ → List ℕ
parse_frag_off frag_off =
    if bit_and frag_off (htons (ip_mf + ip_offset)) == 0
    then chars "not yet fragment" ++ newline
    else chars "have fragment  "
      ++ ((if bit_and frag_off (htons ip_mf) == 0
            then chars "and it end" ++ newline
            else chars "and not end" ++ newline)
          ++ (chars "ip offset:"
              ++ (print_int (htons (bit_and frag_off (htons ip_offset))) ++ newline)))

-- `parse_ip_protocol(protocol)`
unfoldable pub parse_ip_protocol : ℕ → List ℕ
parse_ip_protocol protocol = text_of ip_protocols (chars "unknow protocol") protocol ++ newline

-- `parse_mac_type(h_proto)`
unfoldable pub parse_mac_type : ℕ → List ℕ
parse_mac_type h_proto = text_of mac_types (chars "unknow type") h_proto ++ newline

-- The last line of `parse_iphdr`.
unfoldable pub print_addresses : (ℕ → List ℕ) → ℕ → ℕ → List ℕ
print_addresses inet_ntoa saddr daddr =
    chars "saddr:"
    ++ (inet_ntoa saddr ++ ((32 ∷ 9 ∷ []) ++ (chars "daddr:" ++ (inet_ntoa daddr ++ newline))))

-- The lines of `parse_iphdr` before it.
unfoldable pub iphdr_lines : List ℕ → ℕ → List ℕ
iphdr_lines packet off =
    (chars "ip_version:" ++ (print_int (load8 packet off / 16) ++ newline))
    ++ ((chars "header_len:" ++ (print_int (load8 packet off % 16 * 4) ++ (chars "B" ++ newline)))
        ++ (parse_tos (load8 packet (off + 1))
            ++ ((chars "total_len:"
                  ++ (print_int (htons (load16 packet (off + 2))) ++ (chars "B" ++ newline)))
                ++ ((chars "id:" ++ (print_int (load16 packet (off + 4)) ++ newline))
                    ++ (parse_frag_off (load16 packet (off + 6))
                        ++ ((chars "ttl:" ++ (print_int (load8 packet (off + 8)) ++ newline))
                            ++ parse_ip_protocol (load8 packet (off + 9))))))))

-- `parse_iphdr(packet + off)`
unfoldable pub parse_iphdr : (ℕ → List ℕ) → List ℕ → ℕ → List ℕ
parse_iphdr inet_ntoa packet off =
    iphdr_lines packet off
    ++ print_addresses inet_ntoa (load32 packet (off + 12)) (load32 packet (off + 16))

-- The first line of `parse_tcphdr`.
unfoldable pub print_ports : ℕ → ℕ → List ℕ
print_ports source dest =
    chars "Source port:"
    ++ (print_uint (htons source)
        ++ (chars "    " ++ (chars "dest   port:" ++ (print_uint (htons dest) ++ newline))))

-- The line of the flags; `flags` is the byte of the header.
unfoldable pub print_flags : ℕ → List ℕ
print_flags flags =
    let bit = λ (k : ℕ). print_uint (flags / k % 2) in
    chars "URG:"
    ++ (bit 32
        ++ (chars " ACK:"
            ++ (bit 16
                ++ (chars " PSH:"
                    ++ (bit 8
                        ++ (chars " RST:"
                            ++ (bit 4
                                ++ (chars " SYN:"
                                    ++ (bit 2 ++ (chars " FIN:" ++ (bit 1 ++ newline)))))))))))

-- The line of the sequence numbers; `ntohs` of a 32-bit field keeps its first two bytes.
unfoldable pub print_sequence : ℕ → ℕ → List ℕ
print_sequence seq ack_seq =
    chars "seq : "
    ++ (print_uint (htons seq)
        ++ (chars "    " ++ (chars "ack seq : " ++ (print_uint (htons ack_seq) ++ newline))))

-- The lines of `parse_tcphdr` behind the first.
unfoldable pub tcphdr_lines : List ℕ → ℕ → List ℕ
tcphdr_lines packet off =
    print_sequence (load32 packet (off + 4)) (load32 packet (off + 8))
    ++ ((chars "tcp header len:" ++ (print_uint (load8 packet (off + 12) / 16 * 4) ++ newline))
        ++ (print_flags (load8 packet (off + 13))
            ++ ((chars "window:" ++ (print_uint (load16 packet (off + 14)) ++ chars "    "))
                ++ ((chars "Checksum:"
                      ++ (hex 5 (load16 packet (off + 16)) ++ (chars " " ++ newline)))
                    ++ (chars "Urgent Pointer:"
                        ++ (print_uint (load16 packet (off + 18)) ++ newline))))))

-- `parse_tcphdr(packet + off)`
unfoldable pub parse_tcphdr : List ℕ → ℕ → List ℕ
parse_tcphdr packet off =
    print_ports (load16 packet off) (load16 packet (off + 2)) ++ tcphdr_lines packet off

-- Six bytes from `off` on, as `%02X:%02X:%02X:%02X:%02X:%02X`.
unfoldable pub print_mac : List ℕ → ℕ → List ℕ
print_mac packet off =
    upper2 (load8 packet off)
    ++ (58
        ∷ (upper2 (load8 packet (off + 1))
            ++ (58
                ∷ (upper2 (load8 packet (off + 2))
                    ++ (58
                        ∷ (upper2 (load8 packet (off + 3))
                            ++ (58
                                ∷ (upper2 (load8 packet (off + 4))
                                    ++ (58 ∷ upper2 (load8 packet (off + 5)))))))))))

-- `printf_mac_info(packet + off)`
unfoldable pub printf_mac_info : List ℕ → ℕ → List ℕ
printf_mac_info packet off =
    (chars "DMAC:" ++ (print_mac packet off ++ newline))
    ++ ((chars "SMAC:" ++ (print_mac packet (off + 6) ++ newline))
        ++ parse_mac_type (htons (load16 packet (off + 12))))

-- `parse_full_packet(packet + off)`
unfoldable pub parse_full_packet : (ℕ → List ℕ) → List ℕ → ℕ → List ℕ
parse_full_packet inet_ntoa packet off =
    printf_mac_info packet off
    ++ (if load16 packet (off + 12) == htons 0x0800
        then parse_iphdr inet_ntoa packet (off + 14)
          ++ (if load8 packet (off + 23) == 6
              then parse_tcphdr packet (off + 14 + load8 packet (off + 14) % 16 * 4)
              else [])
        else [])

-- The loop of `print_packet` from byte `i` on.
unfoldable pub print_bytes : ℕ → List ℕ → List ℕ
print_bytes i [] = []
print_bytes i (byte ∷ bytes) =
    (if (i == 0) || not (i % 16 == 0)
      then hex2 byte ++ chars " "
      else newline ++ (hex2 byte ++ chars " "))
    ++ print_bytes (i + 1) bytes

-- `print_packet(packet, size)`, with `bytes` the `size` bytes at `packet`.
unfoldable pub print_packet : List ℕ → List ℕ
print_packet bytes = print_bytes 0 bytes ++ newline
