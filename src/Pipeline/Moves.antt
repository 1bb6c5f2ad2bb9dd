-- ===== src/Pipeline/Moves.antt =====
-- Any order of the rounds of a generator, a parser and managers around the two pools.
use freepacket.Base.{
  length-append, ℕ, suc, ◌+◌, ◌≤◌, ◌<◌, ◌≡◌, ◌⊎◌, inl, inr, refl, List, [], ◌∷◌, length, get_or,
  returns, spins, true, int_lt, ltb, Bool-cases, ltb→lt, ltb→le, arith,
}
use mathlib.Core.List.Perm
use mathlib.Core.Path.{subst}
use freepacket.Config.{SimConfig}
use freepacket.Queue.{Queue}
use freepacket.Queue.Single.{contents}
use freepacket.Queue.Fill.{length-contents}
use freepacket.Queue.Batch.{dequeue_multiple_more, dequeue_multiple_few}
use freepacket.Parser.{FlowItem}
use freepacket.Parser.Loop.{
  null_packet, null_flow, null_queue, batch, parse_batch, packet_parser_round,
}
use freepacket.Pipeline.Circle.{ring, seen, turn}
use freepacket.Pipeline.Sound.{held}
use freepacket.Pipeline.Turns.{generator_waits, parser_waits}
use freepacket.Pipeline.Flows.{in_queues}
use freepacket.Pipeline.Trio.{
  Trio, Move, sends, parses, manages, move, moves, manager_queues, everywhere, flow_places,
}
use freepacket.Pipeline.Whole.{IsWhole, IsWhole-less, IsKept, Waits}
use freepacket.Pipeline.Hands.{sends_keeps, parses_keeps}
use freepacket.Pipeline.Returned.{manages_keeps, manages_waits}

module _ (n packets flows : ℕ) (config : SimConfig) where
  pub sends_waits :
      (s : Trio)
      → IsWhole (suc n) packets flows s
      → held s.pair.generator.pool ≡ 0
      → move config sends s ≡ spins
  unfolding move
  sends_waits s h empty = rw (move, generator_waits n packets h.outside config s.pair h.pair empty)

  pub few_packets_wait :
      (s : Trio)
      → IsWhole (suc n) packets flows s
      → held (ring s.pair) < batch
      → move config parses s ≡ spins
  unfolding move
  few_packets_wait s h few = rw (move, parser_waits n packets h.outside config s.pair h.pair few)

  pub few_flows_wait :
      int_lt 2 config.pipe_depth ≡ true
      → (s : Trio) → IsWhole (suc n) packets flows s
      → batch ≤ held (ring s.pair)
      → held s.pair.parser.pool < batch
      → move config parses s ≡ spins
  unfolding move turn seen packet_parser_round parse_batch
  few_flows_wait depth₂ s h enough few =
      let place = h.pair.queue in
      let (queue, got, t) =
        dequeue_multiple_more null_packet place.valid batch enough (omega (arith, place.counter))
          (omega arith) in
      let none_got =
        dequeue_multiple_few null_flow h.flow_pool.valid batch few
          (omega (arith, h.flow_pool.counter)) (omega arith) in
      rw (move, turn, packet_parser_round, got, depth₂, parse_batch, none_got)

module _ (n packets flows : ℕ) (config : SimConfig) (depth : config.pipe_depth ≡ 4) where
  -- A round keeps the invariant, or waits because there is nothing for it.
  pub move_cases :
      (m : Move) (s : Trio)
      → IsWhole (suc n) packets flows s
      → ((s' : Trio) × (move config m s ≡ returns s') × IsKept n packets flows s s')
        ⊎ ((move config m s ≡ spins) × Waits m s)
  move_cases sends s h = elim (Bool-cases (ltb 0 (held s.pair.generator.pool))) [
    | inl some_there ↦
        let (s', went, k, same, parser) =
          sends_keeps n packets flows config s h (ltb→lt _ _ some_there) (rw depth refl) in
        inl (s', went, k)
    | inr empty ↦
        let e : held s.pair.generator.pool ≡ 0 = omega (arith, ltb→le _ _ empty) in
        inr (sends_waits n packets flows config s h e, e)
  ]
  move_cases parses s h = elim (Bool-cases (ltb (held (ring s.pair)) batch)) [
    | inl few ↦
        inr (few_packets_wait n packets flows config s h (ltb→lt _ _ few), inl (ltb→lt _ _ few))
    | inr enough ↦ elim (Bool-cases (ltb (held s.pair.parser.pool) batch)) [
      | inl few ↦ inr (
        few_flows_wait n packets flows config (rw depth refl) s h (ltb→le _ _ enough)
            (ltb→lt _ _ few),
        inr (ltb→lt _ _ few),
      )
      | inr items ↦
          let (s', went, k, handed) =
            parses_keeps n packets flows config s h (ltb→le _ _ enough) (ltb→le _ _ items)
              (omega (arith, depth)) (omega (arith, depth)) in
          inl (s', went, k)
    ]
  ]
  move_cases (manages k now) s h =
      elim (Bool-cases (ltb 0 (held (get_or (manager_queues s) k null_queue)))) [
        | inl some_there ↦
            inl (
              manages_keeps n packets flows config k now s h (ltb→lt _ _ some_there)
                (rw depth refl))
        | inr empty ↦
            let e : held (get_or (manager_queues s) k null_queue) ≡ 0 =
              omega (arith, ltb→le _ _ empty) in
            inr (manages_waits n packets flows config k now s h e, e)
      ]

  -- A flow with the managers is in the queue of one of them.
  some_queue :
      (qs : List (Queue FlowItem))
      → 0 < length (in_queues qs)
      → (k : ℕ) × (0 < held (get_or qs k null_queue))
  unfolding in_queues
  some_queue [] h = absurd (omega (arith, h))
  some_queue (q ∷ qs) h = elim (Bool-cases (ltb 0 (held q))) [
    | inl there ↦ (0, ltb→lt _ _ there)
    | inr empty ↦
        let (k, there) = some_queue qs (
          omega (
            arith,
            h,
            length-append (contents null_flow q) (in_queues qs),
            length-contents null_flow q,
            ltb→le _ _ empty,
          )) in
        (suc k, there)
  ]

  -- With a batch of packets and one of flow items, one of the threads can move.
  one_moves :
      (s : Trio)
      → IsWhole (suc n) packets flows s
      → batch ≤ packets
      → batch ≤ flows
      → (m : Move) × (s' : Trio) × (move config m s ≡ returns s') × IsKept n packets flows s s'
  one_moves s h many items = elim (Bool-cases (ltb 0 (held s.pair.generator.pool))) [
    | inl some_there ↦
        let (s', went, k, same, parser) =
          sends_keeps n packets flows config s h (ltb→lt _ _ some_there) (rw depth refl) in
        (sends, s', went, k)
    | inr empty ↦ elim (Bool-cases (ltb 0 (length (in_queues (manager_queues s))))) [
      | inl busy ↦
          let (k, there) = some_queue (manager_queues s) (ltb→lt _ _ busy) in
          let (s', went, kept) =
            manages_keeps n packets flows config k 0 s h there (rw depth refl) in
          (manages k 0, s', went, kept)
      | inr idle ↦
          let (s', went, k, handed) =
            parses_keeps n packets flows config s h
              (omega (arith, h.pair.total, h.all_packets, ltb→le _ _ empty, ltb→le _ _ idle, many))
              (omega (arith, h.all_flows, ltb→le _ _ idle, items)) (omega (arith, depth))
              (omega (arith, depth)) in
          (parses, s', went, k)
    ]
  ]

module _ (n packets flows : ℕ) (config : SimConfig) (depth : config.pipe_depth ≡ 4) where
  -- One generator, one parser and one to 36 managers at a pipeline depth of 4, with valid queues
  -- and pools that can each take all packets or all flow items, and counters that the rounds leave
  -- within 32 bits: rounds of the threads in any order return without an overrun, where a thread
  -- that finds nothing to do leaves its turn to the others. The conditions hold again, and the
  -- addresses and lengths of the packets in the pool, in the queue of the parser and with the
  -- managers are those of before in some order, and so are the addresses of the flow items in
  -- their pool and with the managers: no packet and no flow item is lost or doubled.
  pub moves-IsKept :
      (ms : List Move) (s : Trio)
      → IsWhole (length ms + n) packets flows s
      → (s' : Trio) × (moves config ms s ≡ returns s') × IsKept n packets flows s s'
  unfolding moves
  moves-IsKept [] s h = (
    s,
    refl,
    record {
      whole = subst (λ k. IsWhole k packets flows s) (omega arith) h;
      same = Perm.refl (everywhere s);
      same_flows = Perm.refl (flow_places s);
    },
  )
  moves-IsKept (m ∷ ms) s h =
      let h' : IsWhole (suc (length ms + n)) packets flows s =
        subst (λ k. IsWhole k packets flows s) (omega arith) h in
      elim (move_cases (length ms + n) packets flows config depth m s h') [
        | inl (s₁, ran, k) ↦
            let (s', rest, k') = moves-IsKept ms s₁ k.whole in
            (
              s',
              rw (moves, ran, rest),
              record {
                whole = k'.whole;
                same = Perm.trans k.same k'.same;
                same_flows = Perm.trans k.same_flows k'.same_flows;
              },
            )
        | inr (waits, idle) ↦
            let (s', rest, k') =
              moves-IsKept ms s (IsWhole-less (length ms + n) packets flows s h') in
            (s', rw (moves, waits, rest), k')
      ]

-- Under the conditions of `moves-IsKept`, for one round more, and with at least 64 packets and 64
-- flow items: after rounds of the threads in any order, a round of one of them returns, and keeps
-- the packets and the flow items up to their order. The threads never all wait for one another.
pub moves-lives :
    (n packets flows : ℕ) (config : SimConfig) (ms : List Move) (s : Trio)
    → config.pipe_depth ≡ 4
    → batch ≤ packets
    → batch ≤ flows
    → IsWhole (length ms + suc n) packets flows s
    → (s' : Trio) × (m : Move) × (s'' : Trio) × (moves config ms s ≡ returns s')
      × (move config m s' ≡ returns s'')
      × IsKept n packets flows s' s''
moves-lives n packets flows config ms s depth many items h =
    let (s', ran, k) = moves-IsKept (suc n) packets flows config depth ms s h in
    let (m, s'', went, k') = one_moves n packets flows config depth s' k.whole many items in
    (s', m, s'', ran, went, k')
