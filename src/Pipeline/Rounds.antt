-- ===== src/Pipeline/Rounds.antt =====
-- Any order of the rounds of all threads.
use freepacket.Base.{
  ℕ, suc, ◌+◌, ◌^◌, ◌<◌, ◌≡◌, ◌⊎◌, inl, inr, refl, ◌∙◌, List, [], ◌∷◌, length, get_or, returns,
  spins, true, int_lt, ltb, Bool-cases, ltb→lt, ltb→le, arith,
}
use mathlib.Core.List.Perm
use mathlib.Core.Path.{subst}
use freepacket.Config.{SimConfig}
use freepacket.Parser.Loop.{null_queue, batch}
use freepacket.Pipeline.Circle.{ring}
use freepacket.Pipeline.Sound.{held}
use freepacket.Pipeline.Trio.{
  Trio, Move, sends, parses, manages, move, manager_queues, everywhere, flow_places,
}
use freepacket.Pipeline.Whole.{IsWhole-less, IsSame, IsSame-refl, IsSame-trans}
use freepacket.Pipeline.Moves.{sends_waits, few_packets_wait, few_flows_wait}
use freepacket.Pipeline.Returned.{manages_waits}
use freepacket.Pipeline.Full.{
  IsFull, Round, of_thread, cleans, round, rounds, tables_less, sweep_tables-IsAlive, sends-IsFull,
  parses-IsFull, manages-IsFull,
}

deeper_tests :
    (depth : ℕ)
    → depth < 2 ^ 31
    → 4 < depth
    → (int_lt 1 depth ≡ true) × (int_lt 2 depth ≡ true) × (int_lt 4 depth ≡ true)
deeper_tests depth signed deep = (ground arith, ground arith, ground arith)

module _ (n packets flows limit total : ℕ) (config : SimConfig) (small : limit < 2 ^ 31)
    (size : config.manager_buffer_size ≡ limit) (signed : config.pipe_depth < 2 ^ 31)
    (deep : 4 < config.pipe_depth) where
  move-IsFull :
      (m : Move) (s : Trio)
      → IsFull (suc n) packets flows limit total s
      → ((s' : Trio) × (move config m s ≡ returns s')
          × IsFull n packets flows limit total s'
          × IsSame s s')
        ⊎ (move config m s ≡ spins)
  move-IsFull sends s h =
      let (depth₁, depth₂, depth₄) = deeper_tests config.pipe_depth signed deep in
      elim (Bool-cases (ltb 0 (held s.pair.generator.pool))) [
        | inl some_there ↦ inl (
            sends-IsFull n packets flows limit total config small size s h (ltb→lt _ _ some_there)
              depth₁)
        | inr empty ↦
            inr (sends_waits n packets flows config s h.whole (omega (arith, ltb→le _ _ empty)))
      ]
  move-IsFull parses s h =
      let (depth₁, depth₂, depth₄) = deeper_tests config.pipe_depth signed deep in
      elim (Bool-cases (ltb (held (ring s.pair)) batch)) [
        | inl few ↦ inr (few_packets_wait n packets flows config s h.whole (ltb→lt _ _ few))
        | inr enough ↦ elim (Bool-cases (ltb (held s.pair.parser.pool) batch)) [
          | inl few ↦ inr (
              few_flows_wait n packets flows config depth₂ s h.whole (ltb→le _ _ enough)
                (ltb→lt _ _ few))
          | inr items ↦ inl (
              parses-IsFull n packets flows limit total config small size s h (ltb→le _ _ enough)
                (ltb→le _ _ items) signed (omega (arith, deep)))
        ]
      ]
  move-IsFull (manages k now) s h =
      let (depth₁, depth₂, depth₄) = deeper_tests config.pipe_depth signed deep in
      elim (Bool-cases (ltb 0 (held (get_or (manager_queues s) k null_queue)))) [
        | inl some_there ↦
            manages-IsFull n packets flows limit total config small size k now s h
              (ltb→lt _ _ some_there) depth₄
        | inr empty ↦
            inr (
              manages_waits n packets flows config k now s h.whole
                (omega (arith, ltb→le _ _ empty)))
      ]

  round-IsFull :
      (r : Round) (s : Trio)
      → IsFull (suc n) packets flows limit total s
      → ((s' : Trio) × (round config r s ≡ returns s')
          × IsFull n packets flows limit total s'
          × IsSame s s')
        ⊎ (round config r s ≡ spins)
  unfolding round
  round-IsFull (of_thread m) s h = move-IsFull m s h
  round-IsFull (cleans now) s h =
      let (ts, run, alive, many, same) =
        sweep_tables-IsAlive limit n total config small size now 0 s.tables h.tables in
      let less = IsWhole-less n packets flows s h.whole in
      inl (
        record s { tables = ts },
        rw (round, run),
        record {
          whole = record {
            outside = less.outside;
            pair = less.pair;
            flow_pool = less.flow_pool;
            managers = less.managers;
            all_packets = less.all_packets;
            all_flows = less.all_flows;
          };
          plain = h.plain;
          fitting = h.fitting;
          counted = many ∙ h.counted;
          tables = alive;
        },
        record {
          packets = Perm.refl (everywhere s);
          flows = Perm.refl (flow_places s);
          nodes = same;
        },
      )

  IsFull-less :
      (s : Trio) → IsFull (suc n) packets flows limit total s → IsFull n packets flows limit total s
  IsFull-less s h = record {
    whole = IsWhole-less n packets flows s h.whole;
    plain = h.plain;
    fitting = h.fitting;
    counted = h.counted;
    tables = tables_less limit n total config small size s.tables h.tables;
  }

-- The program at a pipeline depth of 5 or more, with one generator, one parser, one to 36 managers
-- and the thread that ends old sessions: with valid queues and pools that can each take all packets or
-- all flow items, plain packets whose payload fits a buffer of less than 2 ^ 31 bytes, a sound table
-- for each manager, and counters that the rounds leave within their width, rounds of all threads in
-- any order return without an overrun, where a thread that finds nothing to do, or no free
-- session, leaves its turn to the others. All this holds again, and the addresses and lengths of
-- the packets, the addresses of the flow items in their pool and with the managers, and, for each
-- table, the addresses of its nodes in sessions and in its pool are those of before in some order:
-- no packet, flow item or node of a session is lost or doubled.
pub rounds-IsFull :
    (n packets flows limit total : ℕ) (config : SimConfig) (rs : List Round) (s : Trio)
    → limit < 2 ^ 31
    → config.manager_buffer_size ≡ limit
    → config.pipe_depth < 2 ^ 31
    → 4 < config.pipe_depth
    → IsFull (length rs + n) packets flows limit total s
    → (s' : Trio) × (rounds config rs s ≡ returns s')
      × IsFull n packets flows limit total s'
      × IsSame s s'
unfolding rounds
rounds-IsFull n packets flows limit total config [] s small size signed deep h =
    (s, refl, subst (λ k. IsFull k packets flows limit total s) (omega arith) h, IsSame-refl s)
rounds-IsFull n packets flows limit total config (r ∷ rs) s small size signed deep h =
    let h' : IsFull (suc (length rs + n)) packets flows limit total s =
      subst (λ k. IsFull k packets flows limit total s) (omega arith) h in
    elim (round-IsFull (length rs + n) packets flows limit total config small size signed deep r s
      h') [
        | inl (s₁, run, h₁, same) ↦
            let (s', rest, z, same') =
              rounds-IsFull n packets flows limit total config rs s₁ small size signed deep h₁ in
            (s', rw (rounds, run, rest), z, IsSame-trans s s₁ s' same same')
        | inr waits ↦
            let (s', rest, z, same') =
              rounds-IsFull n packets flows limit total config rs s small size signed deep (
                IsFull-less (length rs + n) packets flows limit total config small size signed deep
                  s h') in
            (s', rw (rounds, waits, rest), z, same')
      ]
