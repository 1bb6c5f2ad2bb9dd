-- ===== src/Parser/Loop.antt =====
-- One round of `packet_parser_loop`: up to 64 packets from the parser's queue to the managers, or
-- back to the pools, by the depth of the pipeline. The pools and queues are as this round finds
-- them; a wait on one that no other thread serves is `spins`.
use freepacket.Base.{
  ℕ, ◌+◌, List, [], ◌∷◌, none, some, true, false, get_or, set, ltb, u32, int_lt, if◌then◌else◌,
  Outcome, returns, spins, overruns,
}
use freepacket.Config.{SimConfig}
use freepacket.Queue.{Queue, enqueue, enqueue_multiple, dequeue_multiple}
use freepacket.Parser.{Packet, FlowItem, hash_index, make_flow_item_tcp}

-- `COUNT`
abbrev pub batch : ℕ
batch = 64

-- The size of `ghash_view`
abbrev pub view_size : ℕ
view_size = 36

abbrev pub null_packet : Packet
null_packet = record { address = 0; bytes = []; length = 0; pool = 0 }

abbrev pub null_flow : FlowItem
null_flow = record {
  address = 0;
  upper_ip = 0;
  lower_ip = 0;
  upper_port = 0;
  lower_port = 0;
  protocol = 0;
  packet = null_packet;
  payload = 0;
  payload_len = 0;
  pool = 0;
}

-- What stands for a read outside `manager_group->manager`, which `hash_index-lt` rules out.
abbrev pub null_queue : Queue FlowItem
null_queue = record {
  log2_entries = 0;
  enqueue_count = 0;
  dequeue_count = 0;
  node = [];
  item_size = 0;
  total = 0;
  length = 0;
}

-- The queues of the managers, and `ghash_view`.
pub record Managers : Type 0 where
  pub numbers : ℕ
  pub queues : List (Queue FlowItem)
  pub ghash_view : List ℕ

-- `parser_t` with the pool that its packets came from, and the managers.
pub record ParserState : Type 0 where
  pub queue : Queue Packet
  pub pool : Queue FlowItem
  pub packet_pool : Queue Packet
  pub managers : Managers
  pub alive : ℕ

-- One flow to its manager.
unfoldable pub send_flow : FlowItem → Managers → Outcome Managers
send_flow flow m =
    let index = hash_index flow m.numbers in
    if ltb index view_size
    then elim (enqueue (get_or m.queues index null_queue) flow) [
      | none ↦ spins
      | some queue ↦ returns (record m {
        queues = set m.queues index queue;
        ghash_view = set m.ghash_view index (u32 (get_or m.ghash_view index 0 + 1));
      })
    ]
    else overruns

unfoldable pub send_flows : List FlowItem → Managers → Outcome Managers
send_flows [] m = returns m
send_flows (flow ∷ flows) m = elim (send_flow flow m) [
  | returns m' ↦ send_flows flows m'
  | spins ↦ spins
  | overruns ↦ overruns
]

-- `for(k …) make_flow_item_tcp(flow[k], packet[k], 0)`
unfoldable pub make_flows : List FlowItem → List Packet → List FlowItem
make_flows [] packets = []
make_flows (flow ∷ flows) [] = []
make_flows (flow ∷ flows) (packet ∷ packets) =
    make_flow_item_tcp flow packet ∷ make_flows flows packets

-- The packets back to their pool.
unfoldable pub release : List Packet → ParserState → Outcome ParserState
release packets s = elim (enqueue_multiple s.packet_pool packets) [
  | none ↦ spins
  | some packet_pool ↦ returns (record s { packet_pool = packet_pool })
]

-- The packets back to their pool, then the flows to theirs.
unfoldable pub release_both : List Packet → List FlowItem → ParserState → Outcome ParserState
release_both packets flows s = elim (release packets s) [
  | returns s' ↦ elim (enqueue_multiple s'.pool flows) [
    | none ↦ spins
    | some pool ↦ returns (record s' { pool = pool })
  ]
  | spins ↦ spins
  | overruns ↦ overruns
]

unfoldable pub parse_batch : SimConfig → List Packet → ParserState → Outcome ParserState
parse_batch config packets s = elim (dequeue_multiple null_flow s.pool batch) [
  | none ↦ spins
  | some (items, pool) ↦
      let flows = make_flows items packets in
      let taken = record s { pool = pool } in
      elim (int_lt 3 config.pipe_depth) [
        | true ↦ elim (send_flows flows s.managers) [
          | returns m ↦ returns (record taken { managers = m })
          | spins ↦ spins
          | overruns ↦ overruns
        ]
        | false ↦ release_both packets flows taken
      ]
]

-- The body of the `while(1)` of `packet_parser_loop`.
unfoldable pub packet_parser_round : SimConfig → ParserState → Outcome ParserState
packet_parser_round config s = elim (dequeue_multiple null_packet s.queue batch) [
  | none ↦ spins
  | some (packets, queue) ↦
      let started = record s { queue = queue; alive = u32 (s.alive + 1) } in
      elim (int_lt 2 config.pipe_depth) [
        | true ↦ parse_batch config packets started
        | false ↦ release packets started
      ]
]
