-- ===== src/Pipeline/Started.antt =====
-- The generator and the parser that `main` of simulation.c starts, at a pipeline depth of 2.
use freepacket.Base.{
  ℕ, ◌+◌, ◌*◌, ◌^◌, ◌<◌, ◌≡◌, refl, sym, ap, ◌∙◌, List, [], ◌∷◌, Option, none, some, replicate,
  length, All, returns, spins, overruns, map, get_or, arith,
}
use mathlib.Core.Path.{subst}
use freepacket.Config.{SimConfig}
use freepacket.Queue.{Queue}
use freepacket.Queue.Single.{contents}
use freepacket.Queue.Fill.{length-contents}
use freepacket.Parser.{Packet, FlowItem}
use freepacket.Parser.Loop.{null_packet, ParserState, Managers, null_packet, null_flow, batch}
use freepacket.Session.{HashTable}
use freepacket.Generator.{generator_tcp_packet}
use freepacket.Generator.Loop.{GeneratorState, null_queue}
use freepacket.Generator.Start.{start_packets}
use freepacket.Generator.Filled.{IsMade, IsRoomy, CanMake, start_packets-full}
use freepacket.Startup.Groups.{Heap, Program, queues_of}
use freepacket.Startup.Begin.{IsNewParser, IsNewGenerator, AllFrom}
use freepacket.Pipeline.Circle.{Pair, ring}
use freepacket.Pipeline.Sound.{held, IsPlace, IsSound}
use freepacket.Pipeline.Store.{IsStore}
use freepacket.Parser.Start.{length-with_pool}

-- The queues of the managers, and `ghash_view`.
unfoldable pub managers_of : SimConfig → List (Queue FlowItem × HashTable) → Managers
managers_of config managers = record {
  numbers = config.manager_nums;
  queues = map (λ (m : Queue FlowItem × HashTable). m.0) managers;
  ghash_view = replicate 36 0;
}

-- `parser_t` of a parser, when its packets come from `pool`.
unfoldable pub parser_of : Managers → Queue Packet → Queue Packet × Queue FlowItem → ℕ → ParserState
parser_of managers pool parser alive = record {
  queue = parser.0;
  pool = parser.1;
  packet_pool = pool;
  managers = managers;
  alive = alive;
}

-- The first generator and the first parser, once the generator comes to its loop.
unfoldable pub pair_of :
    ℕ → ℕ → ℕ → Program → List GeneratorState → List (Queue Packet × Queue FlowItem) → Option Pair
pair_of fuel pool_id alive program [] parsers = none
pair_of fuel pool_id alive program (g ∷ gs) [] = none
pair_of fuel pool_id alive program (g ∷ gs) (parser ∷ parsers) =
    elim (start_packets (generator_tcp_packet fuel) pool_id g) [
      | none ↦ none
      | some (returns g') ↦ some (record {
        generator = g';
        parser = parser_of (managers_of program.config program.managers) g'.pool parser alive;
      })
      | some spins ↦ none
      | some overruns ↦ none
    ]

-- A configuration of one generator and one parser, and a pipeline of this depth.
pub record IsPaired (depth : ℕ) (config : SimConfig) : Type 0 where
  pub one_generator : config.generator_nums ≡ 1
  pub one_parser : config.parser_nums ≡ 1
  pub some_managers : config.manager_nums < 2 ^ 31
  pub same_depth : config.pipe_depth ≡ depth

module _ (fuel pktlen pool_id alive n depth : ℕ) (text : List ℕ) (config : SimConfig) (heap : Heap)
    (paired : IsPaired depth config) (makes : CanMake fuel pktlen text config)
    (many : length (heap.generator_memory 0).buffers ≡ 2 ^ 10)
    (items : length (heap.parser_memory 0).flows ≡ 2 ^ 10)
    (roomy : All (IsRoomy pktlen) (heap.generator_memory 0).buffers)
    (few : 2 ^ 11 + n * batch < 2 ^ 32) where
  -- The generator and the parser of one round each.
  pub pair_of-IsSound :
      (program : Program) (gs : List GeneratorState) (ps : List (Queue Packet × Queue FlowItem))
      → AllFrom (IsNewGenerator config heap (queues_of ps)) 0 gs
      → length gs ≡ 1
      → AllFrom (IsNewParser heap) 0 ps
      → length ps ≡ 1
      → (pair : Pair) × (pair_of fuel pool_id alive program gs ps ≡ some pair)
        × IsSound n 1024 1024 pair
        × All (IsMade pktlen pool_id) (contents null_packet pair.generator.pool)
        × (contents null_packet (ring pair) ≡ [])
        × IsStore (n * batch) 1024 pair.parser.pool
        × (held pair.parser.pool ≡ 1024)
        × (pair.parser.managers ≡ managers_of program.config program.managers)
  unfolding pair_of parser_of
  pair_of-IsSound program [] ps g one_g p one_p = absurd (omega (arith, one_g))
  pair_of-IsSound program (g₁ ∷ g₂ ∷ gs) ps g one_g p one_p = absurd (omega (arith, one_g))
  pair_of-IsSound program (g ∷ []) [] news one_g newp one_p = absurd (omega (arith, one_p))
  pair_of-IsSound program (g ∷ []) (p₁ ∷ p₂ ∷ ps) news one_g newp one_p =
      absurd (omega (arith, one_p))
  pair_of-IsSound program (g ∷ []) (p ∷ []) (new, none_left) one_g (newp, nothing) one_p =
      let m : CanMake fuel pktlen text g.config = rw new.config_copy makes in
      let (c', pool', ran, stocked, same, count, nums, cap) =
        start_packets-full fuel pktlen pool_id text g (heap.generator_memory 0).buffers m new.pool
          many roomy in
      let g' = record g { config = c'; pool = pool'; next_thread_id = g.index } in
      let stock : held pool' ≡ 2 ^ 10 = sym (length-contents null_packet pool') ∙ stocked.stock in
      let queue : held p.0 ≡ 0 =
        sym (length-contents null_packet p.0) ∙ ap length newp.queue.holds in
      let first : get_or g.parsers 0 null_queue ≡ p.0 =
        ap (λ qs. get_or qs 0 null_queue) new.parsers in
      (
        record {
          generator = g';
          parser = parser_of (managers_of program.config program.managers) pool' p alive;
        },
        rw (pair_of, ran),
        record {
          pool = record {
            valid = stocked.valid;
            roomy = omega (arith, cap);
            counter = omega (arith, count, few);
          };
          queue =
              subst (λ q. IsPlace n 1024 q) (sym first)
                (record {
                  valid = newp.queue.valid;
                  roomy = omega (arith, newp.queue.same_capacity);
                  counter = omega (arith, newp.queue.taken, few);
                });
          total = omega (arith, stock, queue, ap held first);
          within = omega arith;
          one_parser = ap length new.parsers;
          same_index = new.index;
          same_turn = new.index;
          nums = (
            ap (λ (r : ℕ × ℕ). r.0) nums
                ∙ ap (λ (c : SimConfig). c.generator_nums) new.config_copy
                ∙ paired.one_generator,
            ap (λ (r : ℕ × ℕ). r.1) nums
                ∙ ap (λ (c : SimConfig). c.parser_nums) new.config_copy
                ∙ paired.one_parser,
          );
        },
        stocked.made,
        ap (contents null_packet) first ∙ newp.queue.holds,
        record {
          valid = newp.pool.valid;
          roomy = omega (arith, newp.pool.same_capacity);
          counter = omega (arith, newp.pool.taken, few);
        },
        sym (length-contents null_flow p.1)
            ∙ ap length newp.pool.holds
            ∙ length-with_pool (heap.pool_id 0) (heap.parser_memory 0).flows
            ∙ items,
        refl,
      )
