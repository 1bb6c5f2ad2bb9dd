-- ===== src/Print/Names.antt =====
-- The texts that parse.c has for the protocols of an IP header and for the types of an Ethernet
-- frame. The numbers are those of the headers of the system.
use freepacket.Base.{ℕ, List, [], ◌∷◌, ◌==◌, if◌then◌else◌, chars}

-- A `switch`: the text of the case, or that of `default`.
unfoldable pub text_of : List (ℕ × List ℕ) → List ℕ → ℕ → List ℕ
text_of [] other n = other
text_of ((m, text) ∷ cases) other n =
    let rest = text_of cases other n in if n == m then text else rest

-- The cases of `parse_ip_protocol`, without the ends of the lines.
abbrev pub ip_protocols : List (ℕ × List ℕ)
ip_protocols =
    (0, chars "Dummy protocol for TCP")
    ∷ (1, chars " Internet Control Message Protocol ")
    ∷ (2, chars " Internet Group Management Protocol ")
    ∷ (4, chars " IPIP tunnels (older KA9Q tunnels use 94) ")
    ∷ (6, chars " Transmission Control Protocol ")
    ∷ (8, chars " Exterior Gateway Protocol ")
    ∷ (12, chars " PUP protocol ")
    ∷ (17, chars " User Datagram Protocol ")
    ∷ (22, chars " XNS IDP protocol ")
    ∷ (33, chars " Datagram Congestion Control Protocol ")
    ∷ (46, chars " RSVP protocol ")
    ∷ (47, chars " Cisco GRE tunnels (rfc 1701,1702) ")
    ∷ (41, chars " IPv6-in-IPv4 tunnelling ")
    ∷ (50, chars " Encapsulation Security Payload protocol ")
    ∷ (51, chars " Authentication Header protocol ")
    ∷ (103, chars " Protocol Independent Multicast ")
    ∷ (108, chars " Compression Header protocol ")
    ∷ (132, chars " Stream Control Transport Protocol ")
    ∷ (136, chars " UDP-Lite (RFC 3828) ")
    ∷ (255, chars " Raw IP packets ")
    ∷ []

-- The cases of `parse_mac_type`, without the ends of the lines.
abbrev pub mac_types : List (ℕ × List ℕ)
mac_types =
    (96, chars " Ethernet Loopback packet ")
    ∷ (0x200, chars " Xerox PUP packet     ")
    ∷ (0x201, chars " Xerox PUP Addr Trans packet  ")
    ∷ (0x800, chars " Internet Protocol packet ")
    ∷ (0x805, chars " CCITT X.25           ")
    ∷ (0x806, chars " Address Resolution packet    ")
    ∷ (0x8ff, chars " G8BPQ AX.25 Ethernet Packet  [ NOT AN OFFICIALLY REGISTERED ID ] ")
    ∷ (0xa00, chars " Xerox IEEE802.3 PUP packet ")
    ∷ (0xa01, chars " Xerox IEEE802.3 PUP Addr Trans packet ")
    ∷ (0x6000, chars " DEC Assigned proto           ")
    ∷ (0x6001, chars " DEC DNA Dump/Load            ")
    ∷ (0x6002, chars " DEC DNA Remote Console       ")
    ∷ (0x6003, chars " DEC DNA Routing              ")
    ∷ (0x6004, chars " DEC LAT                      ")
    ∷ (0x6005, chars " DEC Diagnostics              ")
    ∷ (0x6006, chars " DEC Customer use             ")
    ∷ (0x6007, chars " DEC Systems Comms Arch       ")
    ∷ (0x6558, chars " Trans Ether Bridging     ")
    ∷ (0x8035, chars " Reverse Addr Res packet  ")
    ∷ (0x809b, chars " Appletalk DDP        ")
    ∷ (0x80f3, chars " Appletalk AARP       ")
    ∷ (0x8100, chars " 802.1Q VLAN Extended Header  ")
    ∷ (0x8137, chars " IPX over DIX         ")
    ∷ (0x86dd, chars " IPv6 over bluebook       ")
    ∷ (0x8808, chars " IEEE Pause frames. See 802.3 31B ")
    ∷ (0x8809, chars " Slow Protocol. See 802.3ad 43B ")
    ∷ (
      0x883e,
      chars " Web-cache coordination protocol defined in draft-wilson-wrec-wccp-v2-00.txt ",
    )
    ∷ (0x8863, chars " PPPoE discovery messages     ")
    ∷ (0x8847, chars " MPLS Unicast traffic     ")
    ∷ (0x8848, chars " MPLS Multicast traffic   ")
    ∷ (0x884c, chars " MultiProtocol Over ATM   ")
    ∷ (0x8884, chars " Frame-based ATM Transportover Ethernet ")
    ∷ (0x888e, chars " Port Access Entity (IEEE 802.1X) ")
    ∷ (0x88a2, chars " ATA over Ethernet        ")
    ∷ (0x88ca, chars " TIPC             ")
    ∷ (0x88f7, chars " IEEE 1588 Timesync ")
    ∷ (0x8906, chars " Fibre Channel over Ethernet  ")
    ∷ (0x8914, chars " FCoE Initialization Protocol ")
    ∷ (0xdada, chars " Ethertype DSA [ NOT AN OFFICIALLY REGISTERED ID ] ")
    ∷ (1, chars " Dummy type for 802.3 frames  ")
    ∷ (2, chars " Dummy protocol id for AX.25  ")
    ∷ (3, chars " Every packet (be careful!!!) ")
    ∷ (4, chars " 802.2 frames         ")
    ∷ (5, chars " Internal only        ")
    ∷ (6, chars " DEC DDCMP: Internal only     ")
    ∷ (7, chars " Dummy type for WAN PPP frames")
    ∷ (8, chars " Dummy type for PPP MP frames ")
    ∷ (9, chars " Localtalk pseudo type    ")
    ∷ (12, chars " Controller Area Network      ")
    ∷ (16, chars " Dummy type for Atalk over PPP")
    ∷ (17, chars " 802.2 frames         ")
    ∷ (21, chars " Mobitex (kaz@cafe.net)   ")
    ∷ (22, chars " Card specific control frames ")
    ∷ (23, chars " Linux-IrDA           ")
    ∷ (24, chars " Acorn Econet         ")
    ∷ (25, chars " HDLC frames          ")
    ∷ (26, chars " 1A for ArcNet :-)            ")
    ∷ (27, chars " Distributed Switch Arch. ")
    ∷ (28, chars " Trailer switch tagging   ")
    ∷ (245, chars " Nokia Phonet frames          ")
    ∷ (246, chars " IEEE802.15.4 frame       ")
    ∷ []
