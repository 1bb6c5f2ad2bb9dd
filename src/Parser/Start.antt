-- ===== src/Parser/Start.antt =====
-- `init_single_parser` of packet_parser.c.
use freepacket.Base.{ℕ, ◌^◌, ◌≡◌, refl, suc, List, [], ◌∷◌, arith, length, ap, ◌∙◌}
use freepacket.Queue.{Queue, init}
use freepacket.Queue.Single.{Holds, init-Holds}
use freepacket.Queue.Fill.{fill_pool, fill_pool-init}
use freepacket.Parser.{Packet, FlowItem}
use freepacket.Parser.Loop.{null_flow, null_packet}

-- The memory that is allocated: the arrays of the queue and of the pool, and the flow items.
pub record ParserMemory : Type 0 where
  pub queue_node : List Packet
  pub pool_node : List FlowItem
  pub flows : List FlowItem

-- `flow->pool = parser->pool` for each flow item, with `pool_id` the address of the pool.
unfoldable pub with_pool : ℕ → List FlowItem → List FlowItem
with_pool pool_id [] = []
with_pool pool_id (flow ∷ flows) = record flow { pool = pool_id } ∷ with_pool pool_id flows

-- `init_single_parser(parser)`: the queue and the pool.
unfoldable pub init_single_parser : ℕ → ParserMemory → Queue Packet × Queue FlowItem
init_single_parser pool_id m = (
  init 10 null_packet m.queue_node,
  fill_pool (init 10 null_flow m.pool_node) (with_pool pool_id m.flows),
)

pub length-with_pool :
    (pool_id : ℕ) (flows : List FlowItem) → length (with_pool pool_id flows) ≡ length flows
unfolding with_pool
length-with_pool pool_id [] = refl
length-with_pool pool_id (flow ∷ flows) = ap suc (length-with_pool pool_id flows)

-- The queue of a new parser is empty, and its pool has all of its flow items, which name the pool.
pub init_single_parser-Holds :
    (pool_id : ℕ) (m : ParserMemory)
    → length m.queue_node ≡ 2 ^ 10
    → length m.pool_node ≡ 2 ^ 10
    → length m.flows ≡ 2 ^ 10
    → let (queue, pool) = init_single_parser pool_id m in
      Holds null_packet (2 ^ 10) 0 [] queue
      × Holds null_flow (2 ^ 10) (2 ^ 10) (with_pool pool_id m.flows) pool
unfolding init_single_parser
init_single_parser-Holds pool_id m cells pool_cells many =
    let h =
      fill_pool-init null_flow 10 m.pool_node (with_pool pool_id m.flows) (omega arith) pool_cells
        (omega (arith, many, length-with_pool pool_id m.flows)) in
    (
      init-Holds null_packet 10 m.queue_node (omega arith) cells,
      record {
        valid = h.valid;
        same_capacity = h.same_capacity;
        taken = h.taken ∙ length-with_pool pool_id m.flows ∙ many;
        holds = h.holds;
      },
    )
