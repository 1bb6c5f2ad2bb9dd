-- ===== src/Config/Keys.antt =====
-- The names of config.c, in the order in which `read_config_file` compares them.
use freepacket.Base.{ℕ, List, [], ◌∷◌, Option, none, some, if◌then◌else◌}
use freepacket.Config.Chars.{equal}

pub data Key : Type 0 where
  proto srcmac dstmac srcip dstip srcport dstport pktlen pktdata speed link_name generator_nums
        parser_nums manager_nums generator_pool_size parser_queue_length parser_pool_size
        manager_pool_size manager_queue_length manager_hash_length manager_buffer_size
        packet_generator_mode pipe_depth screen_display speed_mode destory_time :
      Key

-- Each name with its characters.
abbrev pub names : List (List ℕ × Key)
names =
    (80 ∷ 82 ∷ 79 ∷ 84 ∷ 79 ∷ [], proto)
    ∷ (83 ∷ 82 ∷ 67 ∷ 77 ∷ 65 ∷ 67 ∷ [], srcmac)
    ∷ (68 ∷ 83 ∷ 84 ∷ 77 ∷ 65 ∷ 67 ∷ [], dstmac)
    ∷ (83 ∷ 82 ∷ 67 ∷ 73 ∷ 80 ∷ [], srcip)
    ∷ (68 ∷ 83 ∷ 84 ∷ 73 ∷ 80 ∷ [], dstip)
    ∷ (83 ∷ 82 ∷ 67 ∷ 80 ∷ 79 ∷ 82 ∷ 84 ∷ [], srcport)
    ∷ (68 ∷ 83 ∷ 84 ∷ 80 ∷ 79 ∷ 82 ∷ 84 ∷ [], dstport)
    ∷ (80 ∷ 75 ∷ 84 ∷ 76 ∷ 69 ∷ 78 ∷ [], pktlen)
    ∷ (80 ∷ 75 ∷ 84 ∷ 68 ∷ 65 ∷ 84 ∷ 65 ∷ [], pktdata)
    ∷ (83 ∷ 80 ∷ 69 ∷ 69 ∷ 68 ∷ [], speed)
    ∷ (76 ∷ 73 ∷ 78 ∷ 75 ∷ 95 ∷ 78 ∷ 65 ∷ 77 ∷ 69 ∷ [], link_name)
    ∷ (71 ∷ 69 ∷ 78 ∷ 69 ∷ 82 ∷ 65 ∷ 84 ∷ 79 ∷ 82 ∷ 95 ∷ 78 ∷ 85 ∷ 77 ∷ 83 ∷ [], generator_nums)
    ∷ (80 ∷ 65 ∷ 82 ∷ 83 ∷ 69 ∷ 82 ∷ 95 ∷ 78 ∷ 85 ∷ 77 ∷ 83 ∷ [], parser_nums)
    ∷ (77 ∷ 65 ∷ 78 ∷ 65 ∷ 71 ∷ 69 ∷ 82 ∷ 95 ∷ 78 ∷ 85 ∷ 77 ∷ 83 ∷ [], manager_nums)
    ∷ (
      71 ∷ 69 ∷ 78 ∷ 69 ∷ 82 ∷ 65 ∷ 84 ∷ 79 ∷ 82 ∷ 95 ∷ 80 ∷ 79 ∷ 79 ∷ 76 ∷ 95 ∷ 83 ∷ 73 ∷ 90 ∷ 69
          ∷ [],
      generator_pool_size,
    )
    ∷ (
      80 ∷ 65 ∷ 82 ∷ 83 ∷ 69 ∷ 82 ∷ 95 ∷ 81 ∷ 85 ∷ 69 ∷ 85 ∷ 69 ∷ 95 ∷ 76 ∷ 69 ∷ 78 ∷ 71 ∷ 84 ∷ 72
          ∷ [],
      parser_queue_length,
    )
    ∷ (
      80 ∷ 65 ∷ 82 ∷ 83 ∷ 69 ∷ 82 ∷ 95 ∷ 80 ∷ 79 ∷ 79 ∷ 76 ∷ 95 ∷ 83 ∷ 73 ∷ 90 ∷ 69 ∷ [],
      parser_pool_size,
    )
    ∷ (
      77 ∷ 65 ∷ 78 ∷ 65 ∷ 71 ∷ 69 ∷ 82 ∷ 95 ∷ 80 ∷ 79 ∷ 79 ∷ 76 ∷ 95 ∷ 83 ∷ 73 ∷ 90 ∷ 69 ∷ [],
      manager_pool_size,
    )
    ∷ (
      77 ∷ 65 ∷ 78 ∷ 65 ∷ 71 ∷ 69 ∷ 82 ∷ 95 ∷ 81 ∷ 85 ∷ 69 ∷ 85 ∷ 69 ∷ 95 ∷ 76 ∷ 69 ∷ 78 ∷ 71 ∷ 84
          ∷ 72 ∷ [],
      manager_queue_length,
    )
    ∷ (
      77 ∷ 65 ∷ 78 ∷ 65 ∷ 71 ∷ 69 ∷ 82 ∷ 95 ∷ 72 ∷ 65 ∷ 83 ∷ 72 ∷ 95 ∷ 76 ∷ 69 ∷ 78 ∷ 71 ∷ 84 ∷ 72
          ∷ [],
      manager_hash_length,
    )
    ∷ (
      77 ∷ 65 ∷ 78 ∷ 65 ∷ 71 ∷ 69 ∷ 82 ∷ 95 ∷ 66 ∷ 85 ∷ 70 ∷ 70 ∷ 69 ∷ 82 ∷ 95 ∷ 83 ∷ 73 ∷ 90 ∷ 69
          ∷ [],
      manager_buffer_size,
    )
    ∷ (
      80 ∷ 65 ∷ 67 ∷ 75 ∷ 69 ∷ 84 ∷ 95 ∷ 71 ∷ 69 ∷ 78 ∷ 69 ∷ 82 ∷ 65 ∷ 84 ∷ 79 ∷ 82 ∷ 95 ∷ 77 ∷ 79
          ∷ 68 ∷ 69 ∷ [],
      packet_generator_mode,
    )
    ∷ (80 ∷ 73 ∷ 80 ∷ 69 ∷ 95 ∷ 68 ∷ 69 ∷ 80 ∷ 84 ∷ 72 ∷ [], pipe_depth)
    ∷ (83 ∷ 67 ∷ 82 ∷ 69 ∷ 69 ∷ 78 ∷ 95 ∷ 68 ∷ 73 ∷ 83 ∷ 80 ∷ 76 ∷ 65 ∷ 89 ∷ [], screen_display)
    ∷ (83 ∷ 80 ∷ 69 ∷ 69 ∷ 68 ∷ 95 ∷ 77 ∷ 79 ∷ 68 ∷ 69 ∷ [], speed_mode)
    ∷ (68 ∷ 69 ∷ 83 ∷ 84 ∷ 79 ∷ 82 ∷ 89 ∷ 95 ∷ 84 ∷ 73 ∷ 77 ∷ 69 ∷ [], destory_time)
    ∷ []

-- The names that `read_config_simple` compares.
abbrev pub simple_names : List (List ℕ × Key)
simple_names =
    (80 ∷ 73 ∷ 80 ∷ 69 ∷ 95 ∷ 68 ∷ 69 ∷ 80 ∷ 84 ∷ 72 ∷ [], pipe_depth)
    ∷ (83 ∷ 67 ∷ 82 ∷ 69 ∷ 69 ∷ 78 ∷ 95 ∷ 68 ∷ 73 ∷ 83 ∷ 80 ∷ 76 ∷ 65 ∷ 89 ∷ [], screen_display)
    ∷ (83 ∷ 80 ∷ 69 ∷ 69 ∷ 68 ∷ 95 ∷ 77 ∷ 79 ∷ 68 ∷ 69 ∷ [], speed_mode)
    ∷ (68 ∷ 69 ∷ 83 ∷ 84 ∷ 79 ∷ 82 ∷ 89 ∷ 95 ∷ 84 ∷ 73 ∷ 77 ∷ 69 ∷ [], destory_time)
    ∷ []

-- The first name for which `strcmp(pname, name) == 0`.
unfoldable pub key_of : List (List ℕ × Key) → List ℕ → Option Key
key_of [] pname = none
key_of ((name, key) ∷ rest) pname =
    let later = key_of rest pname in if equal pname name then some key else later
