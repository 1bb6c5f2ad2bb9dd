-- ===== src/Pipeline/Begun.antt =====
-- The generator, the parser and the managers that `main` of simulation.c starts, at a pipeline
-- depth of 4.
use freepacket.Base.{
  ℕ, suc, ◌+◌, ◌*◌, ◌^◌, ◌≤◌, ◌<◌, ◌≡◌, refl, sym, ap, ◌∙◌, List, [], ◌∷◌, ◌++◌, length, All, map,
  arith,
}
use mathlib.Core.Path.{subst}
use freepacket.Config.{SimConfig}
use freepacket.Queue.{Queue}
use freepacket.Parser.{FlowItem}
use freepacket.Parser.Loop.{Managers, batch, view_size}
use freepacket.Session.{HashTable}
use freepacket.Manager.Ready.{IsReady}
use freepacket.Startup.Groups.{Program}
use freepacket.Startup.Begin.{AllFrom}
use freepacket.Pipeline.Circle.{Pair}
use freepacket.Pipeline.Sound.{held, IsSound}
use freepacket.Pipeline.Flows.{in_queues}
use freepacket.Pipeline.Store.{IsStore}
use freepacket.Pipeline.Started.{managers_of}
use freepacket.Pipeline.Trio.{Trio}
use freepacket.Pipeline.Whole.{IsWhole}

-- All threads of the program but the sweepers and the display.
unfoldable pub trio_of : Program → Pair → Trio
trio_of program pair = record {
  pair = pair;
  tables = map (λ (m : Queue FlowItem × HashTable). m.1) program.managers;
  alives = map (λ (m : Queue FlowItem × HashTable). 0) program.managers;
}

abbrev pub queues_in : List (Queue FlowItem × HashTable) → List (Queue FlowItem)
queues_in ms = map (λ (m : Queue FlowItem × HashTable). m.0) ms

pub queues_in-empty :
    (config : SimConfig) (b i : ℕ) (ms : List (Queue FlowItem × HashTable))
    → 2 ^ 11 + b < 2 ^ 32
    → AllFrom (λ k (m : Queue FlowItem × HashTable). IsReady config m.0 m.1) i ms
    → All (IsStore (0 + b) 1024) (queues_in ms)
      × (in_queues (queues_in ms) ≡ [])
      × (length (queues_in ms) ≡ length ms)
unfolding in_queues
queues_in-empty config b i [] few all = (tt, refl, refl)
queues_in-empty config b i (m ∷ ms) few (ready, all) =
    let (stores, none_there, many) = queues_in-empty config b (i + 1) ms few all in
    (
      (
        record {
          valid = ready.queue_ok.valid;
          roomy = omega (arith, ready.queue_ok.same_capacity);
          counter = omega (arith, ready.queue_ok.taken, few);
        },
        stores,
      ),
      ap (λ xs. xs ++ in_queues (queues_in ms)) ready.queue_ok.holds ∙ none_there,
      ap suc many,
    )

pub trio_of-IsWhole :
    (config : SimConfig) (n : ℕ) (program : Program) (pair : Pair)
    → 2 ^ 11 + n * batch < 2 ^ 32
    → 0 < config.manager_nums
    → config.manager_nums ≤ view_size
    → AllFrom (λ k (m : Queue FlowItem × HashTable). IsReady config m.0 m.1) 0 program.managers
    → length program.managers ≡ config.manager_nums
    → program.config ≡ config
    → IsSound n 1024 1024 pair
    → IsStore (n * batch) 1024 pair.parser.pool
    → held pair.parser.pool ≡ 1024
    → pair.parser.managers ≡ managers_of program.config program.managers
    → IsWhole n 1024 1024 (trio_of program pair)
unfolding trio_of managers_of
trio_of-IsWhole config n program pair few some_managers counted ready many kept sound pool full
      managers =
    let (stores, idle, cells) = queues_in-empty config (n * batch) 0 program.managers few ready in
    let numbers : pair.parser.managers.numbers ≡ config.manager_nums =
      ap (λ (m : Managers). m.numbers) managers ∙ ap (λ (c : SimConfig). c.manager_nums) kept in
    let queues : pair.parser.managers.queues ≡ queues_in program.managers =
      ap (λ (m : Managers). m.queues) managers in
    let none_there : length (in_queues pair.parser.managers.queues) ≡ 0 =
      ap (λ qs. length (in_queues qs)) queues ∙ ap length idle in
    record {
      outside = 1024;
      pair = sound;
      flow_pool = pool;
      managers = record {
        some_managers = omega (arith, numbers, some_managers);
        counted = omega (arith, numbers, counted);
        cells = ap length queues ∙ cells ∙ many ∙ sym numbers;
        stores = subst (All (IsStore (0 + n * batch) 1024)) (sym queues) stores;
        fits = omega (arith, none_there);
      };
      all_packets = omega (arith, none_there);
      all_flows = omega (arith, none_there, full);
    }
