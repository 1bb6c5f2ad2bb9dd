-- ===== src/Pipeline/Trio.antt =====
-- A generator, a parser and the managers around one pool of packets and one pool of flow items, at a
-- pipeline depth of 4: the managers give both back without a session. A parser that waits for flow
-- items has its 64 packets counted as still in its queue.
use freepacket.Base.{ℕ, List, [], ◌∷◌, ◌++◌, map, get_or, set, Outcome, returns, spins, overruns}
use freepacket.Config.{SimConfig}
use freepacket.Queue.{Queue}
use freepacket.Queue.Single.{contents}
use freepacket.Parser.{FlowItem}
use freepacket.Parser.Loop.{null_queue, null_flow}
use freepacket.Session.{HashTable}
use freepacket.Manager.{ManagerState, packet_manager_round}
use freepacket.Pipeline.Circle.{Pair, generator_turn, parser_turn, turn, circle, Tag, tag}
use freepacket.Pipeline.Flows.{in_queues}

-- The queues of the managers are those of the parser; each manager has its table and its count of
-- rounds.
pub record Trio : Type 0 where
  pub pair : Pair
  pub tables : List HashTable
  pub alives : List ℕ

-- What stands for the table of a manager that is not there.
abbrev pub no_table : HashTable
no_table = record {
  num_buckets = 0;
  buckets = [];
  session_pool = record {
    log2_entries = 0;
    enqueue_count = 0;
    dequeue_count = 0;
    node = [];
    item_size = 0;
    total = 0;
    length = 0;
  };
}

abbrev pub manager_queues : Trio → List (Queue FlowItem)
manager_queues s = s.pair.parser.managers.queues

-- What manager `k` sees.
unfoldable pub manager_seen : ℕ → Trio → ManagerState
manager_seen k s = record {
  queue = get_or (manager_queues s) k null_queue;
  ht = get_or s.tables k no_table;
  packet_pool = s.pair.generator.pool;
  flow_pool = s.pair.parser.pool;
  alive = get_or s.alives k 0;
}

unfoldable pub manager_back : ℕ → ManagerState → Trio → Trio
manager_back k m s = record {
  pair = record {
    generator = record s.pair.generator { pool = m.packet_pool };
    parser = record s.pair.parser {
      pool = m.flow_pool;
      managers = record s.pair.parser.managers { queues = set (manager_queues s) k m.queue };
    };
  };
  tables = set s.tables k m.ht;
  alives = set s.alives k m.alive;
}

-- Whose round it is; that of a manager is at a reading of the time stamp counter.
pub data Move : Type 0 where
  sends : Move
  parses : Move
  manages : ℕ → ℕ → Move

unfoldable pub move : SimConfig → Move → Trio → Outcome Trio
move config sends s = elim (turn config generator_turn s.pair) [
  | returns pair ↦ returns (record s { pair = pair })
  | spins ↦ spins
  | overruns ↦ overruns
]
move config parses s = elim (turn config parser_turn s.pair) [
  | returns pair ↦ returns (record s { pair = pair })
  | spins ↦ spins
  | overruns ↦ overruns
]
move config (manages k now) s = elim (packet_manager_round config now (manager_seen k s)) [
  | returns m ↦ returns (manager_back k m s)
  | spins ↦ spins
  | overruns ↦ overruns
]

-- Rounds in some order. A thread that waits leaves its turn to the others.
unfoldable pub moves : SimConfig → List Move → Trio → Outcome Trio
moves config [] s = returns s
moves config (m ∷ ms) s = elim (move config m s) [
  | returns s' ↦ moves config ms s'
  | spins ↦ moves config ms s
  | overruns ↦ overruns
]

abbrev pub packets_of : List FlowItem → List Tag
packets_of flows = map (λ (f : FlowItem). tag f.packet) flows

-- The tags of all packets: in the queue of the parser, in the pool, and with the managers.
abbrev pub everywhere : Trio → List Tag
everywhere s = circle s.pair ++ packets_of (in_queues (manager_queues s))

abbrev pub addresses : List FlowItem → List ℕ
addresses flows = map (λ (f : FlowItem). f.address) flows

-- The addresses of all flow items: in the pool of the parser, and with the managers.
abbrev pub flow_places : Trio → List ℕ
flow_places s = addresses (contents null_flow s.pair.parser.pool ++ in_queues (manager_queues s))
