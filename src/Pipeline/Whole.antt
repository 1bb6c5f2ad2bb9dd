-- ===== src/Pipeline/Whole.antt =====
-- The invariant of a generator, a parser and managers.
use freepacket.Base.{ℕ, suc, ◌+◌, ◌*◌, ◌<◌, ◌≡◌, length, get_or, arith, ◌⊎◌}
use mathlib.Core.List.{Perm}
use mathlib.Core.List.Perm
use freepacket.Session.Places.{SameNodes, SameNodes-refl, SameNodes-trans}
use freepacket.Parser.Loop.{batch, null_queue}
use freepacket.Pipeline.Circle.{ring}
use freepacket.Pipeline.Sound.{held, IsSound, IsSound-less}
use freepacket.Pipeline.Flows.{in_queues}
use freepacket.Pipeline.Store.{IsStore, IsReadyFor, stores-less}
use freepacket.Pipeline.Trio.{
  Trio, Move, sends, parses, manages, manager_queues, everywhere, flow_places,
}

-- `packets` packets and `flows` flow items, in queues and pools that can take them all, with counters
-- that `n` more rounds leave within 32 bits.
pub record IsWhole (n packets flows : ℕ) (s : Trio) : Type 0 where
  pub outside : ℕ
  pub pair : IsSound n packets outside s.pair
  pub flow_pool : IsStore (n * batch) flows s.pair.parser.pool
  pub managers : IsReadyFor (n * batch) flows 0 s.pair.parser.managers
  pub all_packets : outside + length (in_queues (manager_queues s)) ≡ packets
  pub all_flows : held s.pair.parser.pool + length (in_queues (manager_queues s)) ≡ flows

-- What a round finds when it waits.
abbrev pub Waits : Move → Trio → Type 0
Waits sends s = held s.pair.generator.pool ≡ 0
Waits parses s = (held (ring s.pair) < batch) ⊎ (held s.pair.parser.pool < batch)
Waits (manages k now) s = held (get_or (manager_queues s) k null_queue) ≡ 0

-- The invariant holds again, and no packet and no flow item is lost or doubled.
pub record IsKept (n packets flows : ℕ) (s s' : Trio) : Type 0 where
  pub whole : IsWhole n packets flows s'
  pub same : Perm (everywhere s) (everywhere s')
  pub same_flows : Perm (flow_places s) (flow_places s')

-- The packets, the flow items and the nodes of each table are those of before in some order.
pub record IsSame (s s' : Trio) : Type 0 where
  pub packets : Perm (everywhere s) (everywhere s')
  pub flows : Perm (flow_places s) (flow_places s')
  pub nodes : SameNodes s.tables s'.tables

pub IsSame-refl : (s : Trio) → IsSame s s
IsSame-refl s = record {
  packets = Perm.refl (everywhere s);
  flows = Perm.refl (flow_places s);
  nodes = SameNodes-refl s.tables;
}

pub IsSame-trans : (s t u : Trio) → IsSame s t → IsSame t u → IsSame s u
IsSame-trans s t u h k = record {
  packets = Perm.trans h.packets k.packets;
  flows = Perm.trans h.flows k.flows;
  nodes = SameNodes-trans s.tables t.tables u.tables h.nodes k.nodes;
}

module _ (n packets flows : ℕ) where
  pub IsWhole-less : (s : Trio) → IsWhole (suc n) packets flows s → IsWhole n packets flows s
  IsWhole-less s h = record {
    outside = h.outside;
    pair = IsSound-less n packets h.outside s.pair h.pair;
    flow_pool = record {
      valid = h.flow_pool.valid;
      roomy = h.flow_pool.roomy;
      counter = omega (arith, h.flow_pool.counter);
    };
    managers = record {
      some_managers = h.managers.some_managers;
      counted = h.managers.counted;
      cells = h.managers.cells;
      stores =
          stores-less (0 + suc n * batch) (0 + n * batch) flows (manager_queues s) (omega arith)
            h.managers.stores;
      fits = h.managers.fits;
    };
    all_packets = h.all_packets;
    all_flows = h.all_flows;
  }
