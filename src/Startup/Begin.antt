-- ===== src/Startup/Begin.antt =====
-- The groups that `main` starts.
use freepacket.Base.{
  ℕ, zero, suc, ◌+◌, ◌*◌, ◌^◌, ◌≤◌, ◌<◌, ◌≡◌, List, [], ◌∷◌, ◌++◌, if◌then◌else◌, int_lt,
  length as arr_length, map,
}
use freepacket.Config.{SimConfig}
use freepacket.Queue.{Queue}
use freepacket.Queue.Single.{Holds}
use freepacket.Parser.{Packet, FlowItem}
use freepacket.Parser.Loop.{null_packet, null_flow}
use freepacket.Parser.Start.{with_pool}
use freepacket.Session.{HashTable}
use freepacket.Manager.Prime.{IsPrime}
use freepacket.Manager.Ready.{IsReady}
use freepacket.Generator.Loop.{GeneratorState}
use freepacket.Startup.Groups.{
  manager_thread, sweeper_thread, parser_thread, generator_thread, server_thread, Heap, Program,
  queues_of,
}

-- The numbers from `i` on, `n` of them.
unfoldable pub from : ℕ → ℕ → List ℕ
from i zero = []
from i (suc n) = i ∷ from (i + 1) n

-- `P` of each element with its place, counted from `i`.
abbrev pub AllFrom {ℓ κ} : {A : Type ℓ} → (ℕ → A → Type κ) → ℕ → List A → Type κ
AllFrom P i [] = Unit
AllFrom P i (x ∷ xs) = P i x × AllFrom P (i + 1) xs

-- Memory of the sizes that the init functions ask for, and a prime above the hash length, so that
-- as many buckets have fewer than 2 ^ 31 bytes.
pub record IsAllocated (fuel p : ℕ) (config : SimConfig) (heap : Heap) : Type 0 where
  pub manager_queues : (i : ℕ) → arr_length (heap.manager_memory i).queue_node ≡ 2 ^ 10
  pub manager_pools : (i : ℕ) → arr_length (heap.manager_memory i).pool_node ≡ 2 ^ 16
  pub manager_nodes : (i : ℕ) → arr_length (heap.manager_memory i).nodes ≡ 2 ^ 16
  pub sized : (i k : ℕ) → arr_length ((heap.manager_memory i).malloc k) ≡ config.manager_buffer_size
  pub parser_queues : (i : ℕ) → arr_length (heap.parser_memory i).queue_node ≡ 2 ^ 10
  pub parser_pools : (i : ℕ) → arr_length (heap.parser_memory i).pool_node ≡ 2 ^ 10
  pub flows : (i : ℕ) → arr_length (heap.parser_memory i).flows ≡ 2 ^ 10
  pub generator_pools : (i : ℕ) → arr_length (heap.generator_memory i).node ≡ 2 ^ 10
  pub packets : (i : ℕ) → arr_length (heap.generator_memory i).buffers ≡ 2 ^ 10
  pub prime : IsPrime p
  pub above : config.manager_hash_length < p
  pub near : p ≤ config.manager_hash_length + fuel
  pub small : p < 2 ^ 31
  pub fits : (i : ℕ) → p * (heap.manager_memory i).bucket_size < 2 ^ 31

-- An empty queue, and a pool that has the parser's own flow items.
pub record IsNewParser (heap : Heap) (i : ℕ) (p : Queue Packet × Queue FlowItem) : Type 0 where
  pub queue : Holds null_packet (2 ^ 10) 0 [] p.0
  pub pool :
      Holds null_flow
        (2 ^ 10)
        (2 ^ 10)
        (with_pool (heap.pool_id i) (heap.parser_memory i).flows)
        p.1

-- A pool that has the generator's own packets, a copy of the configuration, and the queues of the
-- parsers.
pub record IsNewGenerator (config : SimConfig) (heap : Heap) (queues : List (Queue Packet)) (i : ℕ)
    (g : GeneratorState) : Type 0 where
  pub index : g.index ≡ i
  pub config_copy : g.config ≡ config
  pub pool : Holds null_packet (2 ^ 10) (2 ^ 10) (heap.generator_memory i).buffers g.pool
  pub parsers : g.parsers ≡ queues
  pub nothing_sent : g.total_send_byte ≡ 0

-- Every manager, parser and generator is new, there are as many as configured, and the threads are
-- created in the order of the groups: a thread that sweeps the tables only if the pipeline has
-- sessions, and the server of the counters last.
pub record IsBegun (config : SimConfig) (heap : Heap) (program : Program) : Type 0 where
  pub config_kept : program.config ≡ config
  pub managers :
      AllFrom (λ k (m : Queue FlowItem × HashTable). IsReady config m.0 m.1) 0 program.managers
  pub manager_count : arr_length program.managers ≡ config.manager_nums
  pub parsers : AllFrom (IsNewParser heap) 0 program.parsers
  pub parser_count : arr_length program.parsers ≡ config.parser_nums
  pub generators :
      AllFrom (IsNewGenerator config heap (queues_of program.parsers)) 0 program.generators
  pub generator_count : arr_length program.generators ≡ config.generator_nums
  pub threads :
      program.threads
      ≡ (map manager_thread (from 0 config.manager_nums)
          ++ (if int_lt 4 config.pipe_depth then sweeper_thread ∷ [] else []))
        ++ (map parser_thread (from 0 config.parser_nums)
            ++ (map generator_thread (from 0 config.generator_nums) ++ server_thread ∷ []))

-- The numbers of threads are not negative.
pub record HasCounts (config : SimConfig) : Type 0 where
  pub manager_nums : config.manager_nums < 2 ^ 31
  pub parser_nums : config.parser_nums < 2 ^ 31
  pub generator_nums : config.generator_nums < 2 ^ 31
