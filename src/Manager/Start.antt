-- ===== src/Manager/Start.antt =====
-- `init_signle_manager` and `process_all_session` of packet_manager.c.
use freepacket.Base.{ℕ, ◌+◌, List, [], ◌∷◌, Outcome, returns, spins, overruns}
use freepacket.Config.{SimConfig}
use freepacket.Queue.{Queue, init}
use freepacket.Queue.Fill.{fill_pool}
use freepacket.Parser.{FlowItem}
use freepacket.Parser.Loop.{null_flow}
use freepacket.Session.{HashTable, Blist, null_blist, hash_travel_delete}
use freepacket.Manager.{Creation, setup, no_memory, past_end, no_prime, hash_create}

-- `LG2_CAPACITY` and `MANAGER_POOL`
abbrev pub lg2_capacity : ℕ
lg2_capacity = 10

abbrev pub manager_pool : ℕ
manager_pool = 16

-- `session->item.buffer = malloc(…)` for each node, with `malloc j` the memory of the `j`th.
unfoldable pub with_buffers : (ℕ → List ℕ) → ℕ → List Blist → List Blist
with_buffers malloc j [] = []
with_buffers malloc j (node ∷ nodes) =
    record node { item = record (node.item) { buffer = malloc j } }
    ∷ with_buffers malloc (j + 1) nodes

-- The memory that `init_signle_manager` allocates: the arrays of the queue and of the pool, the
-- nodes, and their buffers, all of any content; and `sizeof(bucket_t)`, with a `pthread_mutex_t`.
pub record ManagerMemory : Type 0 where
  pub queue_node : List FlowItem
  pub pool_node : List Blist
  pub nodes : List Blist
  pub malloc : ℕ → List ℕ
  pub bucket_size : ℕ

-- `init_signle_manager(group, i)`: the queue and the table. `fuel` is for `next_prime`.
unfoldable pub init_single_manager :
    ℕ → SimConfig → ManagerMemory → Creation (Queue FlowItem × HashTable)
init_single_manager fuel global_config m =
    let queue = init lg2_capacity null_flow m.queue_node in
    let session_pool =
      fill_pool (init manager_pool null_blist m.pool_node) (with_buffers m.malloc 0 m.nodes) in
    elim (hash_create fuel m.bucket_size global_config.manager_hash_length session_pool) [
      | setup ht ↦ setup (queue, ht)
      | no_memory ↦ no_memory
      | past_end ↦ past_end
      | no_prime ↦ no_prime
    ]

-- The `for` of one round of `process_all_session`, from the `i`th table on. `now i k` is the time
-- stamp counter when bucket `k` of table `i` is swept.
unfoldable pub sweep_tables :
    SimConfig → (ℕ → ℕ → ℕ) → ℕ → List HashTable → Outcome (List HashTable)
sweep_tables config now i [] = returns []
sweep_tables config now i (ht ∷ tables) = elim (hash_travel_delete config (now i) ht) [
  | returns ht' ↦ elim (sweep_tables config now (i + 1) tables) [
    | returns tables' ↦ returns (ht' ∷ tables')
    | spins ↦ spins
    | overruns ↦ overruns
  ]
  | spins ↦ spins
  | overruns ↦ overruns
]
