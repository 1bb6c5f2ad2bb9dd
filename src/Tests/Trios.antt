-- ===== src/Tests/Trios.antt =====
-- A generator, a parser and two managers around two pools.
use freepacket.Base.{returns, ℕ, ◌*◌, ◌≤◌, ◌≡◌, refl, [], ◌∷◌, arith, ap, length}
use freepacket.Pipeline.Flows.{in_queues}
use freepacket.Parser.Loop.{null_flow, batch}
use freepacket.Pipeline.Store.{IsStore}
use freepacket.Pipeline.Trio.{manager_queues, Trio, Move, sends, manages, move, moves, no_table}
use freepacket.Pipeline.Whole.{IsWhole, IsKept}
use freepacket.Pipeline.Moves.{moves-lives}
use freepacket.Tests.Rounds.{batch_of, batch_of-IsValid, pair, pair-IsSound}
use freepacket.Tests.Sessions.{small_config}

abbrev trio : Trio
trio = record { pair = pair; tables = no_table ∷ no_table ∷ []; alives = 0 ∷ 0 ∷ [] }

flows-IsStore : (b n : ℕ) → n ≤ 64 → b ≤ 1000 → IsStore b 64 (batch_of null_flow n)
flows-IsStore b n h k = record {
  valid = batch_of-IsValid null_flow n h;
  roomy = omega arith;
  counter = omega (arith, h, k);
}

nothing_queued : in_queues (manager_queues trio) ≡ []
unfolding in_queues
nothing_queued = refl

trio-IsWhole : IsWhole 3 64 64 trio
trio-IsWhole = record {
  outside = 64;
  pair = pair-IsSound;
  flow_pool = flows-IsStore (3 * batch) 64 (omega arith) (omega arith);
  managers = record {
    some_managers = omega arith;
    counted = omega arith;
    cells = refl;
    stores = (
      flows-IsStore (3 * batch) 0 (omega arith) (omega arith),
      (flows-IsStore (3 * batch) 0 (omega arith) (omega arith), tt),
    );
    fits = omega (arith, ap length nothing_queued);
  };
  all_packets = omega (arith, ap length nothing_queued);
  all_flows = omega (arith, ap length nothing_queued);
}

moves-lives_example :
    (s' : Trio) × (m : Move) × (s'' : Trio) × (moves
        (small_config 4)
        (sends ∷ manages 1 5 ∷ [])
        trio
      ≡ returns s')
    × (move (small_config 4) m s' ≡ returns s'')
    × IsKept 0 64 64 s' s''
moves-lives_example =
    moves-lives 0 64 64 (small_config 4) (sends ∷ manages 1 5 ∷ []) trio refl (omega arith)
      (omega arith) trio-IsWhole
