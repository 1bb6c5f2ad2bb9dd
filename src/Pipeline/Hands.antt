-- ===== src/Pipeline/Hands.antt =====
-- What a round of a generator, a parser and a manager does around the two pools.
use freepacket.Base.{
  ℕ, suc, ◌+◌, ◌*◌, ◌-◌, ◌^◌, ◌≤◌, ◌<◌, ◌≡◌, refl, sym, ap, ◌∙◌, ◌++◌, length, length-take,
  length-drop, length-set, get_or, set, get_or-set_self, take, returns, true, int_lt, u32, arith,
}
use mathlib.Core.List.{Perm}
use mathlib.Core.List.Perm
use freepacket.Base.Places.{same_Perm}
use mathlib.Core.Path.{subst}
use freepacket.Config.{SimConfig}
use freepacket.Queue.Single.{contents}
use freepacket.Queue.Fill.{length-contents}
use freepacket.Queue.Batch.{dequeue_multiple_more}
use freepacket.Parser.Loop.{
  ParserState, null_packet, null_flow, batch, make_flows, parse_batch, packet_parser_round,
}
use freepacket.Parser.Round.{length-make_flows}
use freepacket.Generator.Loop.{GeneratorState}
use freepacket.Generator.Loop as Sending
use freepacket.Pipeline.Circle.{ring, seen, put_back, turn, circle, tags}
use freepacket.Pipeline.Sound.{held, IsPlace, IsPlace-less}
use freepacket.Pipeline.Turns.{generator_moves}
use freepacket.Pipeline.Flows.{in_queues}
use freepacket.Pipeline.Store.{IsStore, IsReadyFor, stores-less, send_flows-stores}
use freepacket.Pipeline.Trio.{
  Trio, sends, parses, move, manager_queues, everywhere, packets_of, addresses, flow_places,
}
use freepacket.Pipeline.Whole.{IsWhole, IsWhole-less, IsKept}
use freepacket.Pipeline.Handed.{
  packets_of-make_flows, addresses-make_flows, items_handed, handed_on,
}

deep_tests :
    (depth : ℕ) → depth < 2 ^ 31 → 3 < depth → (int_lt 2 depth ≡ true) × (int_lt 3 depth ≡ true)
deep_tests depth signed deep = (ground arith, ground arith)

-- The flows of a batch are with the managers.
pub record IsHanded (s s' : Trio) : Type 0 where
  pub tables : s'.tables ≡ s.tables
  pub numbers : s'.pair.parser.managers.numbers ≡ s.pair.parser.managers.numbers
  pub handed : Perm (in_queues (manager_queues s')) (
      make_flows
        (take batch (contents null_flow s.pair.parser.pool))
        (take batch (contents null_packet (ring s.pair)))
      ++ in_queues (manager_queues s))

module _ (n packets flows : ℕ) (config : SimConfig) where
  -- The round of the generator, with a packet in the pool.
  pub sends_keeps :
      (s : Trio)
      → IsWhole (suc n) packets flows s
      → 0 < held s.pair.generator.pool
      → int_lt 1 config.pipe_depth ≡ true
      → (s' : Trio) × (move config sends s ≡ returns s')
        × IsKept n packets flows s s'
        × (s'.tables ≡ s.tables)
        × (s'.pair.parser ≡ s.pair.parser)
  unfolding move
  sends_keeps s h some_there depth =
      let (pair, went, m, kept) =
        generator_moves n packets h.outside config s.pair h.pair some_there depth in
      let less = IsWhole-less n packets flows s h in
      let same_queues : pair.parser.managers.queues ≡ manager_queues s =
        ap (λ (p : ParserState). p.managers.queues) kept in
      let s' = record s { pair = pair } in
      (
        s',
        rw (move, went),
        record {
          whole = record {
            outside = h.outside;
            pair = m.sound;
            flow_pool =
                subst (λ (p : ParserState). IsStore (n * batch) flows p.pool) (sym kept)
                  less.flow_pool;
            managers =
                subst (λ (p : ParserState). IsReadyFor (n * batch) flows 0 p.managers) (sym kept)
                  less.managers;
            all_packets = ap (λ qs. h.outside + length (in_queues qs)) same_queues ∙ h.all_packets;
            all_flows =
                ap (λ (p : ParserState). held p.pool + length (in_queues p.managers.queues)) kept
                ∙ h.all_flows;
          };
          same =
              subst (λ qs. Perm (everywhere s) (circle pair ++ packets_of (in_queues qs)))
                (sym same_queues)
                (Perm.append_right (packets_of (in_queues (manager_queues s))) m.same);
          same_flows = same_Perm (
              ap
                (λ (p : ParserState).
                  addresses (contents null_flow p.pool ++ in_queues p.managers.queues))
                (sym kept));
        },
        refl,
        kept,
      )

  -- The round of the parser, with a batch in its queue and one in its pool.
  pub parses_keeps :
      (s : Trio)
      → IsWhole (suc n) packets flows s
      → batch ≤ held (ring s.pair)
      → batch ≤ held s.pair.parser.pool
      → config.pipe_depth < 2 ^ 31
      → 3 < config.pipe_depth
      → (s' : Trio) × (move config parses s ≡ returns s')
        × IsKept n packets flows s s'
        × IsHanded s s'
  unfolding move turn seen put_back packet_parser_round parse_batch
  parses_keeps s h enough items signed deep =
      let g = s.pair.generator in
      let p = s.pair.parser in
      let xs = contents null_packet (ring s.pair) in
      let ys = contents null_flow p.pool in
      let place = h.pair.queue in
      let size : length (take batch xs) ≡ batch =
        omega (arith, length-take batch xs, length-contents null_packet (ring s.pair)) in
      let size' : length (take batch ys) ≡ batch =
        omega (arith, length-take batch ys, length-contents null_flow p.pool) in
      let made = make_flows (take batch ys) (take batch xs) in
      let many : length made ≡ batch =
        length-make_flows (take batch ys) (take batch xs) (size' ∙ sym size) ∙ size in
      let (queue, got, t) =
        dequeue_multiple_more null_packet place.valid batch enough (omega (arith, place.counter))
          (omega arith) in
      let (pool, got', t') =
        dequeue_multiple_more null_flow h.flow_pool.valid batch items
          (omega (arith, h.flow_pool.counter)) (omega arith) in
      let ready : IsReadyFor (n * batch) flows (length made) p.managers = record {
        some_managers = h.managers.some_managers;
        counted = h.managers.counted;
        cells = h.managers.cells;
        stores =
            stores-less (0 + suc n * batch) (length made + n * batch) flows p.managers.queues
              (omega (arith, many)) h.managers.stores;
        fits = omega (arith, many, h.all_flows);
      } in
      let (m, sent, st) = send_flows-stores (n * batch) flows made p.managers ready in
      let (depth₂, depth₃) = deep_tests config.pipe_depth signed deep in
      let placed : get_or (set g.parsers 0 queue) 0 Sending.null_queue ≡ queue =
        get_or-set_self g.parsers 0 queue Sending.null_queue (omega (arith, h.pair.one_parser)) in
      let queue_held : held queue ≡ held (ring s.pair) - batch =
        sym (length-contents null_packet queue)
        ∙ ap length t.holds
        ∙ length-drop batch xs
        ∙ ap (λ k. k - batch) (length-contents null_packet (ring s.pair)) in
      let pool_held : held pool ≡ held p.pool - batch =
        sym (length-contents null_flow pool)
        ∙ ap length t'.holds
        ∙ length-drop batch ys
        ∙ ap (λ k. k - batch) (length-contents null_flow p.pool) in
      let p' = record (seen s.pair) {
        queue = queue;
        pool = pool;
        managers = m;
        alive = u32 (p.alive + 1);
      } in
      let s' = record s { pair = put_back p' s.pair } in
      (
        s',
        rw (move, turn, packet_parser_round, got, depth₂, parse_batch, got', depth₃, sent),
        record {
          whole = record {
            outside = h.outside - batch;
            pair = record {
              pool = IsPlace-less n packets g.pool h.pair.pool;
              queue =
                  subst (λ q. IsPlace n packets q) (sym placed)
                    (record {
                      valid = t.valid;
                      roomy = omega (arith, place.roomy, t.same_capacity);
                      counter = omega (arith, place.counter, t.taken);
                    });
              total = omega (arith, ap held placed, queue_held, h.pair.total);
              within = omega (arith, h.pair.within);
              one_parser = length-set g.parsers 0 queue ∙ h.pair.one_parser;
              same_index = h.pair.same_index;
              same_turn = h.pair.same_turn;
              nums = h.pair.nums;
            };
            flow_pool = record {
              valid = t'.valid;
              roomy = omega (arith, h.flow_pool.roomy, t'.same_capacity);
              counter = omega (arith, h.flow_pool.counter, t'.taken);
            };
            managers = st.ready;
            all_packets = omega (arith, st.more, many, h.all_packets, h.pair.total, enough);
            all_flows = omega (arith, st.more, many, h.all_flows, pool_held, items);
          };
          same =
              subst
                (λ zs.
                  Perm (everywhere s)
                    (tags (zs ++ contents null_packet g.pool) ++ packets_of (in_queues m.queues)))
                (sym (ap (contents null_packet) placed ∙ t.holds))
                (handed_on batch xs (contents null_packet g.pool) (in_queues p.managers.queues)
                  (in_queues m.queues) made
                  (packets_of-make_flows (take batch ys) (take batch xs) (size' ∙ sym size))
                  st.same);
          same_flows =
              subst (λ zs. Perm (flow_places s) (addresses (zs ++ in_queues m.queues)))
                (sym t'.holds)
                (items_handed batch ys (in_queues p.managers.queues) (in_queues m.queues) made
                  (addresses-make_flows (take batch ys) (take batch xs) (size' ∙ sym size))
                  st.same);
        },
        record { tables = refl; numbers = st.same_numbers; handed = st.same },
      )
