-- ===== src/Config.antt =====
-- `sim_config_t` of config.h, without the fields of TILERA_PLATFORM. An `int` is its 32-bit
-- pattern; a C string is the list of its characters without the terminator, and a pointer to one
-- is an option.
pub mod Chars
pub mod Mac
pub mod Keys
pub mod Lines
pub mod Reload
pub mod Defaults
pub mod Bounds
pub mod Clock
use freepacket.Base.{ℕ, List, Option}

pub record SimConfig : Type 0 where
  pub protocol : ℕ
  pub srcmac : List ℕ
  pub dstmac : List ℕ
  pub saddr_min : ℕ
  pub daddr_min : ℕ
  pub saddr_cur : ℕ
  pub daddr_cur : ℕ
  pub saddr_max : ℕ
  pub daddr_max : ℕ
  pub sport_min : ℕ
  pub dport_min : ℕ
  pub sport_cur : ℕ
  pub dport_cur : ℕ
  pub sport_max : ℕ
  pub dport_max : ℕ
  pub speed : ℕ
  pub pkt_data : Option (List ℕ)
  pub pktlen : ℕ
  pub period : ℕ
  pub link_name : Option (List ℕ)
  pub packet_generator_mode : ℕ
  pub generator_nums : ℕ
  pub parser_nums : ℕ
  pub manager_nums : ℕ
  pub generator_pool_size : ℕ
  pub parser_queue_length : ℕ
  pub parser_pool_size : ℕ
  pub manager_queue_length : ℕ
  pub manager_pool_size : ℕ
  pub manager_hash_length : ℕ
  pub manager_buffer_size : ℕ
  pub pipe_depth : ℕ
  pub screen_display : ℕ
  pub speed_mode : ℕ
  pub mhz : ℕ
  pub destory_time : ℕ
