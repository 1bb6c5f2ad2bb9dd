-- ===== src/Tests/Mains.antt =====
-- The program from its start, with one thread of each kind.
use freepacket.Base.{ℕ, ◌+◌, ◌^◌, refl, [], ◌∷◌, arith, replicate}
use freepacket.Config.{SimConfig}
use freepacket.Parser.Loop.{null_packet, null_flow}
use freepacket.Generator.Filled.{CanMake}
use freepacket.Startup.Groups.{Heap}
use freepacket.Pipeline.Trio.{Trio}
use freepacket.Tests.Packets.{config}
use freepacket.Tests.Starts.{buffer, memory}

abbrev pub single : ℕ → SimConfig
single depth = record config {
  generator_nums = 1;
  parser_nums = 1;
  manager_nums = 1;
  pipe_depth = depth;
}

abbrev heap : Heap
heap = record {
  manager_memory = λ i. memory;
  parser_memory = λ i. record {
    queue_node = replicate (2 ^ 10) null_packet;
    pool_node = replicate (2 ^ 10) null_flow;
    flows = replicate (2 ^ 10) null_flow;
  };
  pool_id = λ i. 500 + i;
  generator_memory = λ i. record {
    node = replicate (2 ^ 10) null_packet;
    buffers = replicate (2 ^ 10) buffer;
    alive = 3;
  };
}

pub single-CanMake : (depth : ℕ) → CanMake 61 60 (97 ∷ 98 ∷ 10 ∷ []) (single depth)
single-CanMake depth = record {
  has_text = refl;
  some_text = omega arith;
  short = omega arith;
  same = refl;
  least = omega arith;
  most = omega arith;
  enough = omega arith;
}
