-- ===== src/Config/Defaults.antt =====
-- `init_config_s` of config.c, without the fields of TILERA_PLATFORM.
use freepacket.Base.{ℕ, ◌+◌, ◌*◌, [], ◌∷◌, some, none}
use freepacket.Config.{SimConfig}

-- `inet_addr("a.b.c.d")`: the four bytes in memory order, on a little-endian host.
abbrev pub inet_addr : ℕ → ℕ → ℕ → ℕ → ℕ
inet_addr a b c d = a + 256 * b + 65536 * c + 16777216 * d

-- `init_config_s(config)`; `mhz` is what `get_cpu_mhz` measures. `destory_time` is not set.
unfoldable pub init_config_s : ℕ → SimConfig → SimConfig
init_config_s mhz config = record config {
  protocol = 6;
  srcmac = 0x10 ∷ 0xbf ∷ 0x48 ∷ 0xd7 ∷ 0x9c ∷ 0xf8 ∷ [];
  dstmac = 0x10 ∷ 0xbf ∷ 0x48 ∷ 0xd7 ∷ 0x98 ∷ 0x3c ∷ [];
  saddr_min = inet_addr 192 168 103 19;
  daddr_min = inet_addr 192 168 103 18;
  saddr_cur = inet_addr 192 168 103 19;
  daddr_cur = inet_addr 192 168 103 18;
  saddr_max = inet_addr 192 168 103 19;
  daddr_max = inet_addr 192 168 103 18;
  sport_min = 100;
  dport_min = 200;
  sport_cur = 100;
  dport_cur = 200;
  sport_max = 100;
  dport_max = 200;
  speed = 5000;
  pkt_data = none;
  generator_pool_size = 100000;
  parser_queue_length = 50000;
  parser_pool_size = 100000;
  manager_queue_length = 50000;
  manager_pool_size = 50000;
  manager_hash_length = 1173;
  manager_buffer_size = 65536;
  pktlen = 600;
  period = 200;
  link_name = some (120 ∷ 103 ∷ 98 ∷ 101 ∷ 49 ∷ []);
  packet_generator_mode = 1;
  generator_nums = 1;
  parser_nums = 1;
  manager_nums = 1;
  screen_display = 1;
  pipe_depth = 2;
  speed_mode = 0;
  mhz = mhz;
}
