-- ===== src/Tests/Prints.antt =====
-- A dump of three bytes, and a frame of the generator that is printed.
use freepacket.Base.{
  ℕ, ◌%◌, ◌^◌, ◌≡◌, List, [], ◌∷◌, some, replicate, arith, length-replicate, print_uint,
}
use freepacket.Memory.{htonl}
use freepacket.Config.{SimConfig}
use freepacket.Generator.{generator_tcp_packet}
use freepacket.Print.{parse_full_packet, print_packet}
use freepacket.Print.Dump.{read_dump, read_dump-print_packet}
use freepacket.Print.Frame.{Contains, connection, generated_packet-printed}
use freepacket.Tests.Mains.{single, single-CanMake}

abbrev three_bytes : List ℕ
three_bytes = 0 ∷ 171 ∷ 255 ∷ []

read_dump-print_packet_example : read_dump (print_packet three_bytes) ≡ three_bytes
read_dump-print_packet_example =
    read_dump-print_packet three_bytes (omega arith, (omega arith, (omega arith, tt)))

generated_packet-printed_example :
    (r : List ℕ × SimConfig) × (generator_tcp_packet 61 (replicate 62 0) (single 2) ≡ some r)
    × (let c' = r.1 in
        Contains
          (connection print_uint
            (htonl c'.saddr_cur)
            (htonl c'.daddr_cur)
            (c'.sport_cur % 2 ^ 16)
            (c'.dport_cur % 2 ^ 16))
          (parse_full_packet print_uint r.0 2))
generated_packet-printed_example =
    generated_packet-printed print_uint 61 60 (97 ∷ 98 ∷ 10 ∷ []) (replicate 62 0) (single 2)
      (single-CanMake 2) (length-replicate {A = ℕ} 62 0)
