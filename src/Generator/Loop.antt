-- ===== src/Generator/Loop.antt =====
-- The filling of a generator's pool and one round of `packet_generator`. The waits for the clock
-- that `speed_mode` asks for change no state and are left out; a wait on a queue that no other
-- thread serves is `spins`.
use freepacket.Base.{
  sign_extend, ℕ, zero, suc, ◌+◌, List, [], Option, none, some, true, false, Outcome, returns,
  spins, overruns, get_or, set, u32, u64, int_lt, if◌then◌else◌, ◌==◌,
}
use freepacket.Config.{SimConfig}
use freepacket.Queue.{Queue, enqueue, dequeue}
use freepacket.Parser.{Packet}
use freepacket.Parser.Loop.{null_packet}
use freepacket.Generator.{generator_tcp_packet, generator_udp_packet, refresh, next_thread}

-- What stands for a read outside `parser_group->parser`, which `threads_own` rules out.
abbrev pub null_queue : Queue Packet
null_queue = record {
  log2_entries = 0;
  enqueue_count = 0;
  dequeue_count = 0;
  node = [];
  item_size = 0;
  total = 0;
  length = 0;
}

-- `generator_t` with the queues of the parsers and `global_loss->send_total`.
pub record GeneratorState : Type 0 where
  pub config : SimConfig
  pub index : ℕ
  pub next_thread_id : ℕ
  pub pool : Queue Packet
  pub parsers : List (Queue Packet)
  pub total_send_byte : ℕ
  pub send_total : ℕ
  pub alive : ℕ

-- The `GenerHandler` that `generator_mode` picks: TCP, UDP, or an exit of the program.
unfoldable pub handler : ℕ → SimConfig → Option (List ℕ → SimConfig → Option (List ℕ × SimConfig))
handler fuel config =
    if config.protocol == 6
    then some (generator_tcp_packet fuel)
    else (if config.protocol == 17 then some (generator_udp_packet fuel) else none)

-- One round of `make_all_packet`, with `pool_id` the address of the pool. An empty pool is
-- skipped; `none` is a handler that has not ended when its fuel is used up.
unfoldable pub make_packet :
    (List ℕ → SimConfig → Option (List ℕ × SimConfig))
    → ℕ
    → SimConfig × Queue Packet
    → Option (Outcome (SimConfig × Queue Packet))
make_packet run pool_id (config, pool) = elim (dequeue null_packet pool) [
  | none ↦ some (returns (config, pool))
  | some (packet, pool') ↦ elim (run packet.bytes config) [
    | none ↦ none
    | some (bytes, config') ↦
        elim (enqueue pool'
          (record packet { bytes = bytes; length = config.pktlen; pool = pool_id })) [
            | none ↦ some spins
            | some pool'' ↦ some (returns (config', pool''))
          ]
  ]
]

-- `for (i = 0; i < (1 << LG2_CAPACITY); i++) …`
unfoldable pub make_packets :
    (List ℕ → SimConfig → Option (List ℕ × SimConfig))
    → ℕ
    → ℕ
    → SimConfig × Queue Packet
    → Option (Outcome (SimConfig × Queue Packet))
make_packets run pool_id zero s = some (returns s)
make_packets run pool_id (suc n) s = elim (make_packet run pool_id s) [
  | none ↦ none
  | some (returns s') ↦ make_packets run pool_id n s'
  | some spins ↦ some spins
  | some overruns ↦ some overruns
]

-- The counters at the end of a round.
unfoldable pub count_packet : GeneratorState → GeneratorState
count_packet s = record s {
  total_send_byte = u64 (s.total_send_byte + sign_extend (s.config).pktlen);
  send_total = u64 (s.send_total + sign_extend (s.config).pktlen);
  alive = u32 (s.alive + 1);
}

-- A packet that is ready goes to the next parser, or back to the pool.
unfoldable pub send_packet : SimConfig → Packet → GeneratorState → Outcome GeneratorState
send_packet global_config packet s = elim (int_lt 1 global_config.pipe_depth) [
  | true ↦ elim (enqueue (get_or s.parsers s.next_thread_id null_queue) packet) [
    | none ↦ spins
    | some queue ↦ returns (
        count_packet (record s {
          parsers = set s.parsers s.next_thread_id queue;
          next_thread_id =
              next_thread (s.config).generator_nums (s.config).parser_nums s.index s.next_thread_id;
        }))
  ]
  | false ↦ elim (enqueue s.pool packet) [
    | none ↦ spins
    | some pool ↦ returns (count_packet (record s { pool = pool }))
  ]
]

-- The body of the `while(times)` of `packet_generator`; `times` is never changed.
unfoldable pub packet_generator_round : SimConfig → GeneratorState → Outcome GeneratorState
packet_generator_round global_config s = elim (dequeue null_packet s.pool) [
  | none ↦ spins
  | some (packet, pool) ↦
      let (bytes, config) = refresh packet.bytes s.config in
      send_packet global_config (record packet { bytes = bytes })
        (record s { config = config; pool = pool })
]

-- `rounds` rounds.
unfoldable pub packet_generator : SimConfig → ℕ → GeneratorState → Outcome GeneratorState
packet_generator global_config zero s = returns s
packet_generator global_config (suc rounds) s = elim (packet_generator_round global_config s) [
  | returns s' ↦ packet_generator global_config rounds s'
  | spins ↦ spins
  | overruns ↦ overruns
]
