-- ===== src/Tests/Starts.antt =====
-- The command line and the configuration file of a start, and what the threads find.
use freepacket.Base.{
  chars, u64, ℕ, zero, suc, ◌*◌, ◌/◌, ◌^◌, ◌≡◌, refl, List, [], ◌∷◌, ◌++◌, some, none, true, arith,
  replicate, All, length-replicate, returns,
}
use freepacket.Config.{SimConfig}
use freepacket.Config.Mac.{ether_atoe, ether_etoa}
use freepacket.Config.Mac.RoundTrip.{ether_atoe-etoa}
use freepacket.Startup.{Opt, Doubles, parse_args, configure}
use freepacket.Startup.Options.{IsOverridden, parse_args-IsOverridden}
use freepacket.Startup.Checked.{Started, configure-Started}
use freepacket.Display.{display_step, sys_display}
use freepacket.Display.Rounds.{shown_for, sys_display_settles}
use freepacket.Parser.{Packet, make_flow_item_tcp}
use freepacket.Parser.Loop.{null_packet, null_flow}
use freepacket.Generator.{generator_tcp_packet}
use freepacket.Generator.Loop.{GeneratorState}
use freepacket.Generator.Start.{init_single_generator, run_generator}
use freepacket.Generator.Steady.{run_generator-IsSteady}
use freepacket.Generator.Filled.{IsRoomy, IsStocked, CanMake}
use freepacket.Generator.Collector.{Arrival, collector_round}
use freepacket.Generator.Collects.{framed, CanCollect, IsCollected, collector_round-IsCollected}
use freepacket.Session.{HashTable, null_blist, hash_add_item}
use freepacket.Manager.Start.{ManagerMemory}
use freepacket.Session.Added.{add_bytes}
use freepacket.Session.Refine.{TableOk, view}
use freepacket.Pipeline.{packet_of, repeated, generated_packet-collected}
use freepacket.Tests.Packets.{config}
use freepacket.Tests.Sessions.{two, two-IsValid, table, table-TableOk, small_config}

ether_atoe-etoa_example :
    ether_atoe (ether_etoa (0x10 ∷ 0xbf ∷ 0x48 ∷ 0xd7 ∷ 0x09 ∷ 0xf8 ∷ []))
    ≡ 0x10 ∷ 0xbf ∷ 0x48 ∷ 0xd7 ∷ 0x09 ∷ 0xf8 ∷ []
ether_atoe-etoa_example =
    ether_atoe-etoa (0x10 ∷ 0xbf ∷ 0x48 ∷ 0xd7 ∷ 0x09 ∷ 0xf8 ∷ [])
      (omega arith, (omega arith, (omega arith, (omega arith, (omega arith, (omega arith, tt))))))
      refl

-- `-g 2 --pktlen 100 --mhash_length 7`
abbrev options : List Opt
options =
    record { c = b'g'; option_index = 0; optarg = chars "2" }
    ∷ record { c = b'o'; option_index = 2; optarg = chars "100" }
    ∷ record { c = b'h'; option_index = 10; optarg = chars "7" }
    ∷ []

parse_args-IsOverridden_example : IsOverridden config (parse_args options config)
parse_args-IsOverridden_example = parse_args-IsOverridden options config

-- Whole numbers in the place of `double`.
abbrev whole : Doubles
whole = record {
  Double = ℕ;
  of_uint = λ n. n;
  of_int = λ n. n;
  mul = λ a b. a * b;
  div = λ a b. a / b;
  to_uint = λ n. n;
}

configure-Started_example :
    Started (configure whole 0 2000 (chars "PARSER_NUMS = 4" ++ 10 ∷ []) options config)
configure-Started_example =
    configure-Started whole 0 2000 (chars "PARSER_NUMS = 4" ++ 10 ∷ []) options config

sys_display_settles_example :
    sys_display 0 (none ∷ replicate 3 none) 1 config
    ≡ (display_step 1 1).1 ∷ replicate 3 (shown_for true)
sys_display_settles_example = sys_display_settles 0 3 true 1 config refl (omega arith)

abbrev pub buffer : Packet
buffer = record null_packet { address = 7; bytes = replicate 62 0 }

pub All-buffers : (n : ℕ) → All (IsRoomy 60) (replicate n buffer)
All-buffers zero = tt
All-buffers (suc n) = (refl, All-buffers n)

config-CanMake : CanMake 61 60 (97 ∷ 98 ∷ 10 ∷ []) config
config-CanMake = record {
  has_text = refl;
  some_text = omega arith;
  short = omega arith;
  same = refl;
  least = omega arith;
  most = omega arith;
  enough = omega arith;
}

-- The pipeline ends at the generator.
abbrev alone : SimConfig
alone = record config { pipe_depth = 1 }

alone-CanMake : CanMake 61 60 (97 ∷ 98 ∷ 10 ∷ []) alone
alone-CanMake = record {
  has_text = refl;
  some_text = omega arith;
  short = omega arith;
  same = refl;
  least = omega arith;
  most = omega arith;
  enough = omega arith;
}

run_generator-IsSteady_example :
    (s : GeneratorState) × (run_generator alone (generator_tcp_packet 61) 9 5000 (
        init_single_generator alone 0
          (replicate (2 ^ 10) null_packet)
          (replicate (2 ^ 10) buffer)
          []
          0
          5)
      ≡ some (returns s))
    × IsStocked 60 9 (2 ^ 10) s.pool
    × (s.total_send_byte ≡ u64 (5000 * 60))
run_generator-IsSteady_example =
    run_generator-IsSteady 61 60 9 (97 ∷ 98 ∷ 10 ∷ []) alone 0 (replicate (2 ^ 10) null_packet)
      (replicate (2 ^ 10) buffer) [] 0 5 5000 alone-CanMake refl
      (length-replicate (2 ^ 10) null_packet) (length-replicate (2 ^ 10) buffer)
      (All-buffers (2 ^ 10)) (omega arith)

-- A frame of 50 bytes, and one of 61.
abbrev arrival : ℕ → Arrival
arrival n = record { va = some (replicate 61 3); l2_length = n }

abbrev collecting : GeneratorState
collecting = record {
  config = config;
  index = 0;
  next_thread_id = 0;
  pool = two buffer null_packet 1;
  parsers = two null_packet null_packet 0 ∷ [];
  total_send_byte = 0;
  send_total = 0;
  alive = 0;
}

collecting-CanCollect : CanCollect buffer [] collecting
collecting-CanCollect = record {
  valid = two-IsValid buffer null_packet 1 (omega arith);
  front = refl;
  existing = omega arith;
  parser_valid = two-IsValid null_packet null_packet 0 (omega arith);
  room = omega arith;
  counter = omega arith;
}

collector_round-IsCollected_example :
    (s' : GeneratorState) × (collector_round config 9 (arrival 50) collecting ≡ returns s')
    × IsCollected (framed 9 (replicate 61 3) 50 buffer) [] collecting s'
collector_round-IsCollected_example =
    collector_round-IsCollected config 9 (arrival 50) (replicate 61 3) buffer [] collecting refl
      refl refl (omega arith) collecting-CanCollect

abbrev pub memory : ManagerMemory
memory = record {
  queue_node = replicate (2 ^ 10) null_flow;
  pool_node = replicate (2 ^ 16) null_blist;
  nodes = replicate (2 ^ 16) null_blist;
  malloc = λ j. replicate 65536 0;
  bucket_size = 64;
}

generated_packet-collected_example :
    (r : List ℕ × SimConfig) × (ht' : HashTable) × (generator_tcp_packet 61 (replicate 62 0) config
      ≡ some r)
    × (let flow = make_flow_item_tcp null_flow (packet_of 7 9 60 r.0) in
        (hash_add_item (small_config 5) 50 table 3 flow ≡ returns ht')
        × TableOk 8 ht'
        × (view ht' 3 flow ≡ add_bytes 8 (view table 3 flow) (repeated (97 ∷ 98 ∷ 10 ∷ []) 0 6)))
generated_packet-collected_example =
    generated_packet-collected 61 60 (97 ∷ 98 ∷ 10 ∷ []) 7 9 (replicate 62 0) config null_flow 8
      (small_config 5) 50 table 3 config-CanMake refl (omega arith) refl (omega arith) table-TableOk
      (record {
        some_free = omega arith;
        room = omega arith;
        counter = omega arith;
        few = omega arith;
      })
