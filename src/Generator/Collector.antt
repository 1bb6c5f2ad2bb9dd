-- ===== src/Generator/Collector.antt =====
-- `intel_packet_collector`: one round of the loop that takes frames from the network card. What
-- `inac_get_l2_pkt` and `inac_get_l2_size` return is an argument of the round.
use freepacket.Base.{
  sign_extend, ℕ, ◌+◌, List, Option, none, some, true, false, Outcome, returns, spins, overruns,
  length, get_or, set, u32, u64, int_lt, ltb, take,
}
use freepacket.Memory.{write}
use freepacket.Config.{SimConfig}
use freepacket.Queue.{enqueue, dequeue}
use freepacket.Parser.{Packet}
use freepacket.Parser.Loop.{null_packet}
use freepacket.Generator.{next_thread, pay_len}
use freepacket.Generator.Loop.{GeneratorState, null_queue}

-- One frame of the card: `va`, whose memory has at least `l2_length` bytes.
pub record Arrival : Type 0 where
  pub va : Option (List ℕ)
  pub l2_length : ℕ

-- The packet to the next parser, or back to its pool.
unfoldable pub pass_on : SimConfig → Packet → GeneratorState → Outcome GeneratorState
pass_on global_config packet s = elim (int_lt 1 global_config.pipe_depth) [
  | true ↦ elim (enqueue (get_or s.parsers s.next_thread_id null_queue) packet) [
    | none ↦ spins
    | some queue ↦ returns (record s {
      parsers = set s.parsers s.next_thread_id queue;
      next_thread_id =
          next_thread (s.config).generator_nums (s.config).parser_nums s.index s.next_thread_id;
    })
  ]
  | false ↦ elim (enqueue s.pool packet) [
    | none ↦ spins
    | some pool ↦ returns (record s { pool = pool })
  ]
]

-- The counters of a round that had a frame.
unfoldable pub count_frame : ℕ → GeneratorState → GeneratorState
count_frame l2_length s = record s {
  total_send_byte = u64 (s.total_send_byte + sign_extend l2_length);
  alive = u32 (s.alive + 1);
}

-- The branch for a frame. The code copies the frame without a test; a copy that would run past the
-- end of the buffer has no result in C, and is `overruns` here.
unfoldable pub collect : SimConfig → ℕ → List ℕ → ℕ → GeneratorState → Outcome GeneratorState
collect global_config pool_id va l2_length s = elim (dequeue null_packet s.pool) [
  | none ↦ spins
  | some (packet, pool) ↦ elim (ltb (length packet.bytes) (pay_len + l2_length)) [
    | true ↦ overruns
    | false ↦
        elim (pass_on global_config
          (record packet {
            pool = pool_id;
            bytes = write packet.bytes pay_len (take l2_length va);
            length = l2_length;
          })
          (record s { pool = pool })) [
            | returns s' ↦ returns (count_frame l2_length s')
            | spins ↦ spins
            | overruns ↦ overruns
          ]
  ]
]

-- The end of a round.
unfoldable pub tick : Outcome GeneratorState → Outcome GeneratorState
tick (returns s) = returns (record s { alive = u32 (s.alive + 1) })
tick spins = spins
tick overruns = overruns

-- The body of the `while(1)` of `intel_packet_collector`.
unfoldable pub collector_round : SimConfig → ℕ → Arrival → GeneratorState → Outcome GeneratorState
collector_round global_config pool_id arrival s = elim (arrival.va) [
  | none ↦ tick (returns s)
  | some va ↦ elim (int_lt 40 arrival.l2_length) [
    | true ↦ tick (collect global_config pool_id va arrival.l2_length s)
    | false ↦ tick (returns s)
  ]
]
