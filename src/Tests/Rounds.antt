-- ===== src/Tests/Rounds.antt =====
-- A round of a generator, two rounds of a parser, and both around one pool.
use freepacket.Base.{returns, ℕ, ◌≤◌, ◌≡◌, refl, [], ◌∷◌, arith, replicate, true}
use freepacket.Queue.{Queue, slot}
use freepacket.Queue.Single.{IsValid}
use freepacket.Parser.{Packet}
use freepacket.Parser.Loop.{Managers, ParserState, null_flow, null_packet, packet_parser_round}
use freepacket.Parser.Distribute.{CanSend, HasRoom}
use freepacket.Parser.Round.{
  HasBatch, IsHandedOn, IsReleased, packet_parser_round-IsHandedOn, packet_parser_round-IsReleased,
}
use freepacket.Generator.Loop.{GeneratorState, packet_generator_round}
use freepacket.Generator.Sends.{IsPassedOn, packet_generator_round-IsPassedOn}
use freepacket.Pipeline.Circle.{Pair}
use freepacket.Pipeline.Sound.{IsPlace, IsSound}
use freepacket.Tests.Packets.{config, frame_of}
use freepacket.Tests.Sessions.{two, two-IsValid, small_config}

-- A generator with one packet in its pool and one parser.
abbrev pub sent : Packet
sent = record { address = 1; bytes = frame_of 19 18 100 200; length = 60; pool = 1 }

abbrev pub generator : GeneratorState
generator = record {
  config = config;
  index = 0;
  next_thread_id = 0;
  pool = two sent null_packet 1;
  parsers = two null_packet null_packet 0 ∷ [];
  total_send_byte = 0;
  send_total = 0;
  alive = 0;
}

packet_generator_round-IsPassedOn_example :
    (s' : GeneratorState) × (packet_generator_round config generator ≡ returns s')
    × IsPassedOn generator s'
unfolding slot
packet_generator_round-IsPassedOn_example =
    packet_generator_round-IsPassedOn config generator refl (record {
      valid = two-IsValid sent null_packet 1 (omega arith);
      some_packet = omega arith;
      existing = omega arith;
      parser_valid = two-IsValid null_packet null_packet 0 (omega arith);
      room = omega arith;
      counter = omega arith;
      sized = omega arith;
    })

-- A queue of 64 cells of which the first `n` are full.
abbrev pub batch_of : {A : Type 0} → A → ℕ → Queue A
batch_of x n = record {
  log2_entries = 6;
  enqueue_count = n;
  dequeue_count = 0;
  node = replicate 64 x;
  item_size = 8;
  total = 64;
  length = n;
}

pub batch_of-IsValid : {A : Type 0} (x : A) (n : ℕ) → n ≤ 64 → IsValid (batch_of x n)
batch_of-IsValid x n h = record {
  cells = refl;
  narrow = omega arith;
  ordered = omega arith;
  bounded = omega arith;
  counted = omega arith;
  wide = omega arith;
}

full-HasBatch : {A : Type 0} (x : A) → HasBatch (batch_of x 64)
full-HasBatch x = record {
  valid = batch_of-IsValid x 64 (omega arith);
  enough = omega arith;
  counter = omega arith;
}

-- Two managers with empty queues.
abbrev pub managers : Managers
managers = record {
  numbers = 2;
  queues = batch_of null_flow 0 ∷ batch_of null_flow 0 ∷ [];
  ghash_view = replicate 36 0;
}

empty-HasRoom : HasRoom 64 (batch_of null_flow 0)
empty-HasRoom = record {
  valid = batch_of-IsValid null_flow 0 (omega arith);
  room = omega arith;
  counter = omega arith;
}

managers-CanSend : CanSend 64 managers
managers-CanSend = record {
  some_managers = omega arith;
  counted = omega arith;
  cells = refl;
  rooms = (empty-HasRoom, (empty-HasRoom, tt));
}

-- A parser with 64 packets and 64 flow items.
abbrev pub parser : ParserState
parser = record {
  queue = batch_of sent 64;
  pool = batch_of null_flow 64;
  packet_pool = batch_of null_packet 0;
  managers = managers;
  alive = 0;
}

packet_parser_round-IsHandedOn_example :
    (s' : ParserState) × (packet_parser_round (small_config 4) parser ≡ returns s')
    × IsHandedOn parser s'
packet_parser_round-IsHandedOn_example =
    packet_parser_round-IsHandedOn (small_config 4) parser (omega arith) (omega arith)
      (full-HasBatch sent) (full-HasBatch null_flow) managers-CanSend

packet_parser_round-IsReleased_example :
    (s' : ParserState) × (packet_parser_round (small_config 3) parser ≡ returns s')
    × IsReleased true parser s'
packet_parser_round-IsReleased_example =
    packet_parser_round-IsReleased (small_config 3) parser (omega arith) (full-HasBatch sent)
      (full-HasBatch null_flow)
      (record {
        valid = batch_of-IsValid null_packet 0 (omega arith);
        room = omega arith;
        counter = omega arith;
      })

-- A generator with 64 packets and the parser that gives them back.
abbrev pub pair : Pair
pair = record {
  generator = record generator {
    config = record config { generator_nums = 1; parser_nums = 1 };
    pool = batch_of sent 64;
    parsers = batch_of null_packet 0 ∷ [];
  };
  parser = parser;
}

batch_of-IsPlace : (x : Packet) (n : ℕ) → n ≤ 64 → IsPlace 3 64 (batch_of x n)
batch_of-IsPlace x n h = record {
  valid = batch_of-IsValid x n h;
  roomy = omega arith;
  counter = omega arith;
}

pub pair-IsSound : IsSound 3 64 64 pair
pair-IsSound = record {
  pool = batch_of-IsPlace sent 64 (omega arith);
  queue = batch_of-IsPlace null_packet 0 (omega arith);
  total = refl;
  within = omega arith;
  one_parser = refl;
  same_index = refl;
  same_turn = refl;
  nums = (refl, refl);
}
