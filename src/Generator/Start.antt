-- ===== src/Generator/Start.antt =====
-- How a generator comes to its loop: `init_signle_generator`, the start of `packet_generator`, and
-- the choice of `generator_mode` and `packet_generator_loop`. The pool is named by its address.
use freepacket.Base.{ℕ, zero, suc, ◌^◌, List, Option, none, some, Outcome, returns, spins, overruns}
use freepacket.Config.{SimConfig}
use freepacket.Queue.{Queue, init, enqueue, dequeue}
use freepacket.Queue.Fill.{fill_pool}
use freepacket.Parser.{Packet}
use freepacket.Parser.Loop.{null_packet}
use freepacket.Generator.Loop.{GeneratorState, handler, make_packets, packet_generator}

-- `LG2_CAPACITY`
abbrev pub lg2_capacity : ℕ
lg2_capacity = 10

-- `init_signle_generator(group, i, dev_id)`: `node` is the memory of the pool's array and `buffers`
-- are the packets in the memory behind it. `malloc` leaves any value in `alive`.
unfoldable pub init_single_generator :
    SimConfig → ℕ → List Packet → List Packet → List (Queue Packet) → ℕ → ℕ → GeneratorState
init_single_generator global_config i node buffers parsers send_total alive = record {
  config = global_config;
  index = i;
  next_thread_id = 0;
  pool = fill_pool (init lg2_capacity null_packet node) buffers;
  parsers = parsers;
  total_send_byte = 0;
  send_total = send_total;
  alive = alive;
}

-- `packet_generator` up to its loop: the local `next_thread_id`, and `make_all_packet`.
unfoldable pub start_packets :
    (List ℕ → SimConfig → Option (List ℕ × SimConfig))
    → ℕ
    → GeneratorState
    → Option (Outcome GeneratorState)
start_packets run pool_id s =
    elim (make_packets run pool_id (2 ^ lg2_capacity) (s.config, s.pool)) [
      | none ↦ none
      | some (returns (config, pool)) ↦
          some (returns (record s { config = config; pool = pool; next_thread_id = s.index }))
      | some spins ↦ some spins
      | some overruns ↦ some overruns
    ]

-- `packet_generator` with `rounds` rounds of its loop.
unfoldable pub run_generator :
    SimConfig
    → (List ℕ → SimConfig → Option (List ℕ × SimConfig))
    → ℕ
    → ℕ
    → GeneratorState
    → Option (Outcome GeneratorState)
run_generator global_config run pool_id rounds s = elim (start_packets run pool_id s) [
  | none ↦ none
  | some (returns s') ↦ some (packet_generator global_config rounds s')
  | some spins ↦ some spins
  | some overruns ↦ some overruns
]

-- How `generator_mode` ends: with the result of its generator, or with `exit(-1)`.
pub data Mode : Type 0 where
  generates : Option (Outcome GeneratorState) → Mode
  exits : Mode

unfoldable pub generator_mode : SimConfig → ℕ → ℕ → ℕ → GeneratorState → Mode
generator_mode global_config fuel pool_id rounds s = elim (handler fuel s.config) [
  | none ↦ exits
  | some run ↦ generates (run_generator global_config run pool_id rounds s)
]

-- One round of `make_clean_packet`: a packet is taken out of the pool and put back.
unfoldable pub clean_packet : Queue Packet → Outcome (Queue Packet)
clean_packet pool = elim (dequeue null_packet pool) [
  | none ↦ returns pool
  | some (packet, pool') ↦ elim (enqueue pool' packet) [
    | none ↦ spins
    | some pool'' ↦ returns pool''
  ]
]

unfoldable pub clean_packets : ℕ → Queue Packet → Outcome (Queue Packet)
clean_packets zero pool = returns pool
clean_packets (suc n) pool = elim (clean_packet pool) [
  | returns pool' ↦ clean_packets n pool'
  | spins ↦ spins
  | overruns ↦ overruns
]

-- `make_clean_packet(generator)`, without the pointer to the data, which is where the packet says.
unfoldable pub make_clean_packet : GeneratorState → Outcome GeneratorState
make_clean_packet s = elim (clean_packets (2 ^ lg2_capacity) s.pool) [
  | returns pool ↦ returns (record s { pool = pool })
  | spins ↦ spins
  | overruns ↦ overruns
]
