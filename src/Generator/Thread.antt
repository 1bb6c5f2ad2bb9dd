-- ===== src/Generator/Thread.antt =====
-- `packet_generator_loop`: the collector or the generator, by the configured mode.
use freepacket.Base.{ℕ, List, [], ◌∷◌, Outcome, returns, spins, overruns, ◌==◌, if◌then◌else◌}
use freepacket.Config.{SimConfig}
use freepacket.Generator.Loop.{GeneratorState}
use freepacket.Generator.Start.{Mode, generator_mode, make_clean_packet}
use freepacket.Generator.Collector.{Arrival, collector_round}

-- The `while(1)` of `intel_packet_collector`, one round for each thing that the card returns.
unfoldable pub collector_rounds :
    SimConfig → ℕ → List Arrival → GeneratorState → Outcome GeneratorState
collector_rounds global_config pool_id [] s = returns s
collector_rounds global_config pool_id (arrival ∷ arrivals) s =
    elim (collector_round global_config pool_id arrival s) [
      | returns s' ↦ collector_rounds global_config pool_id arrivals s'
      | spins ↦ spins
      | overruns ↦ overruns
    ]

-- `intel_packet_collector(generator)`
unfoldable pub intel_packet_collector :
    SimConfig → ℕ → List Arrival → GeneratorState → Outcome GeneratorState
intel_packet_collector global_config pool_id arrivals s =
    elim (make_clean_packet (record s { next_thread_id = s.index })) [
      | returns s' ↦ collector_rounds global_config pool_id arrivals s'
      | spins ↦ spins
      | overruns ↦ overruns
    ]

-- What the thread does before `pthread_exit`.
pub data Thread : Type 0 where
  collects : Outcome GeneratorState → Thread
  makes : Mode → Thread
  exits_at_once : Thread

-- `packet_generator_loop(generator)`, with `rounds` rounds of a generator.
unfoldable pub packet_generator_loop :
    SimConfig → ℕ → ℕ → ℕ → List Arrival → GeneratorState → Thread
packet_generator_loop global_config fuel pool_id rounds arrivals s =
    if (s.config).packet_generator_mode == 0
    then collects (intel_packet_collector global_config pool_id arrivals s)
    else (if (s.config).packet_generator_mode == 1
        then makes (generator_mode global_config fuel pool_id rounds s)
        else exits_at_once)
