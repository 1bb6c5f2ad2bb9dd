-- ===== src/Startup/Groups.antt =====
-- `init_manager_group`, `init_parser_group` and `init_generator_group`, and the rest of `main`, which
-- starts the threads. The memory that is allocated, what `inac_open` returns and which threads
-- can be created are arguments.
use freepacket.Base.{
  ℕ, zero, suc, ◌+◌, List, [], ◌∷◌, ◌++◌, map, Option, none, some, Bool, ◌==◌, if◌then◌else◌,
  int_lt, is_negative,
}
use freepacket.Config.{SimConfig}
use freepacket.Queue.{Queue}
use freepacket.Parser.{Packet, FlowItem}
use freepacket.Parser.Start.{ParserMemory, init_single_parser}
use freepacket.Session.{HashTable}
use freepacket.Manager.{Creation, setup, no_memory, past_end, no_prime}
use freepacket.Manager.Start.{ManagerMemory, init_single_manager}
use freepacket.Generator.Loop.{GeneratorState}
use freepacket.Generator.Start.{init_single_generator}
use freepacket.Startup.{Opt, Doubles, starts, stops, overwrites, configure}

-- The threads, by the function that they run and their place in the group.
pub data Created : Type 0 where
  manager_thread : ℕ → Created
  sweeper_thread : Created
  parser_thread : ℕ → Created
  generator_thread : ℕ → Created
  server_thread : Created

-- What an init function returns: a group, NULL, or not at all.
pub data Group {ℓ} (A : Type ℓ) : Type ℓ where
  group : A → Group A
  null : Group A
  exits : Group A

-- `for (i = 0; i < numbers; …)` makes no round for a negative number.
abbrev pub rounds_of : ℕ → ℕ
rounds_of numbers = if is_negative numbers then 0 else numbers

-- The memory of generator `i`: its pool's array, the packets behind it, and what `alive` holds.
pub record GeneratorMemory : Type 0 where
  pub node : List Packet
  pub buffers : List Packet
  pub alive : ℕ

-- Everything that is allocated; `pool_id i` is the address of the pool of parser `i`.
pub record Heap : Type 0 where
  pub manager_memory : ℕ → ManagerMemory
  pub parser_memory : ℕ → ParserMemory
  pub pool_id : ℕ → ℕ
  pub generator_memory : ℕ → GeneratorMemory

-- The loop of `init_manager_group` from manager `i` on.
unfoldable pub init_managers :
    ℕ → SimConfig → Heap → ℕ → ℕ → Creation (List (Queue FlowItem × HashTable) × List Created)
init_managers fuel config heap i zero = setup ([], [])
init_managers fuel config heap i (suc n) =
    elim (init_single_manager fuel config (heap.manager_memory i)) [
      | setup manager ↦ elim (init_managers fuel config heap (i + 1) n) [
        | setup (managers, threads) ↦ setup (manager ∷ managers, manager_thread i ∷ threads)
        | no_memory ↦ no_memory
        | past_end ↦ past_end
        | no_prime ↦ no_prime
      ]
      | no_memory ↦ no_memory
      | past_end ↦ past_end
      | no_prime ↦ no_prime
    ]

-- `init_manager_group(config)`
unfoldable pub init_manager_group :
    ℕ → SimConfig → Heap → Creation (List (Queue FlowItem × HashTable) × List Created)
init_manager_group fuel config heap =
    elim (init_managers fuel config heap 0 (rounds_of config.manager_nums)) [
      | no_memory ↦ no_memory
      | past_end ↦ past_end
      | no_prime ↦ no_prime
      | setup (managers, threads) ↦
          setup
            (managers, threads ++ (if int_lt 4 config.pipe_depth then sweeper_thread ∷ [] else []))
    ]

-- The loop of `init_parser_group` from parser `i` on.
unfoldable pub init_parsers : Heap → ℕ → ℕ → List (Queue Packet × Queue FlowItem) × List Created
init_parsers heap i zero = ([], [])
init_parsers heap i (suc n) =
    let (parsers, threads) = init_parsers heap (i + 1) n in
    (
      init_single_parser (heap.pool_id i) (heap.parser_memory i) ∷ parsers,
      parser_thread i ∷ threads,
    )

-- `init_parser_group(config)`, where `global_parser_group` may be there already.
unfoldable pub init_parser_group :
    Option (List (Queue Packet × Queue FlowItem))
    → SimConfig
    → Heap
    → Group (List (Queue Packet × Queue FlowItem) × List Created)
init_parser_group (some parsers) config heap = null
init_parser_group none config heap = group (init_parsers heap 0 (rounds_of config.parser_nums))

-- The loop of `init_generator_group` from generator `i` on; `none` is a thread that cannot be
-- created, at which the program ends.
unfoldable pub init_generators :
    SimConfig
    → Heap
    → (ℕ → Bool)
    → List (Queue Packet)
    → ℕ
    → ℕ
    → Option (List GeneratorState × List Created)
init_generators config heap creates queues i zero = some ([], [])
init_generators config heap creates queues i (suc n) =
    let m = heap.generator_memory i in
    let rest = init_generators config heap creates queues (i + 1) n in
    if creates i
    then elim rest [
      | none ↦ none
      | some (generators, threads) ↦ some (
        init_single_generator config i m.node m.buffers queues 0 m.alive ∷ generators,
        generator_thread i ∷ threads,
      )
    ]
    else none

-- `init_generator_group(config)`, with the queues of the parsers and what `inac_open` returns in
-- the mode of the collector.
unfoldable pub init_generator_group :
    Option (List GeneratorState)
    → SimConfig
    → Heap
    → (ℕ → Bool)
    → ℕ
    → List (Queue Packet)
    → Group (List GeneratorState × List Created)
init_generator_group (some generators) config heap creates opened queues = null
init_generator_group none config heap creates opened queues =
    let made = init_generators config heap creates queues 0 (rounds_of config.generator_nums) in
    let go : Group (List GeneratorState × List Created) = elim made [
      | none ↦ exits
      | some r ↦ group r
    ] in
    if config.packet_generator_mode == 0 then (if opened == 0 then go else exits) else go

-- The three groups, and the threads in the order in which they are created.
pub record Program : Type 0 where
  pub config : SimConfig
  pub managers : List (Queue FlowItem × HashTable)
  pub parsers : List (Queue Packet × Queue FlowItem)
  pub generators : List GeneratorState
  pub threads : List Created

-- How `main` comes to `sys_display`: with the groups, or not; `unfinished` is `next_prime` without
-- a prime within the fuel.
pub data Begun : Type 0 where
  begins : Program → Begun
  quits : Begun
  corrupts : Begun
  unfinished : Begun

-- The queues that the generators see.
abbrev pub queues_of : List (Queue Packet × Queue FlowItem) → List (Queue Packet)
queues_of parsers = map (λ (p : Queue Packet × Queue FlowItem). p.0) parsers

-- `main` from `init_manager_group` to `sys_display`.
unfoldable pub begin : ℕ → SimConfig → Heap → (ℕ → Bool) → ℕ → Begun
begin fuel config heap creates opened = elim (init_manager_group fuel config heap) [
  | no_memory ↦ quits
  | past_end ↦ corrupts
  | no_prime ↦ unfinished
  | setup (managers, manager_threads) ↦ elim (init_parser_group none config heap) [
    | null ↦ quits
    | exits ↦ quits
    | group (parsers, parser_threads) ↦
        elim (init_generator_group none config heap creates opened (queues_of parsers)) [
          | null ↦ quits
          | exits ↦ quits
          | group (generators, generator_threads) ↦ begins (record {
            config = config;
            managers = managers;
            parsers = parsers;
            generators = generators;
            threads =
                manager_threads ++ (parser_threads ++ (generator_threads ++ server_thread ∷ []));
          })
        ]
  ]
]

-- `main`, with the arguments of `configure` and of `begin`.
unfoldable pub main :
    (d : Doubles) → ℕ → ℕ → List ℕ → List Opt → SimConfig → ℕ → Heap → (ℕ → Bool) → ℕ → Begun
main d junk mhz file options cleared fuel heap creates opened =
    elim (configure d junk mhz file options cleared) [
      | starts config ↦ begin fuel config heap creates opened
      | stops ↦ quits
      | overwrites ↦ corrupts
    ]
