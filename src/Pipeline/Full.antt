-- ===== src/Pipeline/Full.antt =====
-- A generator, a parser, managers with sessions and the thread that ends old sessions: the program
-- at a pipeline depth of 5 or more.
use freepacket.Base.{
  ℕ, zero, suc, ◌+◌, ◌^◌, ◌≤◌, ◌<◌, ◌≡◌, ◌⊎◌, inl, inr, refl, sym, ap, ◌∙◌, List, [], ◌∷◌, ◌++◌,
  take, length, length-set, get_or, All, All-append, All-get_or, All-set, Outcome, returns, spins,
  overruns, true, int_lt, arith,
}
use mathlib.Core.List.Perm
use mathlib.Core.Path.{subst}
use freepacket.Config.{SimConfig}
use freepacket.Queue.Single.{contents}
use freepacket.Parser.{Packet}
use freepacket.Parser.Loop.{ParserState, null_packet, null_flow, null_queue, batch, make_flows}
use freepacket.Session.{HashTable}
use freepacket.Session.Refine.{hash_add_item_cases}
use freepacket.Session.Life.{IsAlive, alive-CanAdd, updated-IsAlive, swept-IsAlive, IsAlive-less}
use freepacket.Manager.{manager_hash, packet_manager_round, add_flow}
use freepacket.Manager.Start.{sweep_tables}
use freepacket.Pipeline.Circle.{ring, Tag, tags}
use freepacket.Pipeline.Sound.{held}
use freepacket.Pipeline.Flows.{in_queues}
use freepacket.Pipeline.Fits.{
  IsPlain, IsPlain-prop, IsFitting, IsFitting-prop, All-Perm, make_flows-IsFitting,
}
use freepacket.Pipeline.Trio.{
  Trio, Move, sends, parses, manages, move, manager_seen, manager_queues, everywhere, packets_of,
  no_table,
}
use freepacket.Session.Places.{SameNodes, SameNodes-refl, SameNodes-set}
use freepacket.Pipeline.Whole.{IsWhole, IsSame}
use freepacket.Pipeline.Hands.{sends_keeps, parses_keeps}
use freepacket.Pipeline.Returned.{front_flow, queue_there, front_leaves, releases_keeps}

-- The invariant of `IsWhole`, with plain packets everywhere, flows that fit with the managers, and a
-- sound table for each manager.
pub record IsFull (n packets flows limit total : ℕ) (s : Trio) : Type 0 where
  pub whole : IsWhole n packets flows s
  pub plain : All (IsPlain limit) (everywhere s)
  pub fitting : All (IsFitting limit) (in_queues (manager_queues s))
  pub counted : length s.tables ≡ s.pair.parser.managers.numbers
  pub tables : All (IsAlive limit n total) s.tables

-- The rounds of the threads, and a round of `process_all_session` over all tables.
pub data Round : Type 0 where
  of_thread : Move → Round
  cleans : (ℕ → ℕ → ℕ) → Round

unfoldable pub round : SimConfig → Round → Trio → Outcome Trio
round config (of_thread m) s = move config m s
round config (cleans now) s = elim (sweep_tables config now 0 s.tables) [
  | returns tables ↦ returns (record s { tables = tables })
  | spins ↦ spins
  | overruns ↦ overruns
]

-- Rounds in some order. A thread that waits leaves its turn to the others.
unfoldable pub rounds : SimConfig → List Round → Trio → Outcome Trio
rounds config [] s = returns s
rounds config (r ∷ rs) s = elim (round config r s) [
  | returns s' ↦ rounds config rs s'
  | spins ↦ rounds config rs s
  | overruns ↦ overruns
]

All-tags_take :
    (P : Tag → Type 0) (k : ℕ) (xs ys : List Packet) (zs : List Tag)
    → All P (tags (xs ++ ys) ++ zs)
    → All P (tags (take k xs))
All-tags_take P zero xs ys zs all = tt
All-tags_take P (suc k) [] ys zs all = tt
All-tags_take P (suc k) (x ∷ xs) ys zs (first, all) = (first, All-tags_take P k xs ys zs all)

module _ (limit n total : ℕ) (config : SimConfig) (small : limit < 2 ^ 31)
    (size : config.manager_buffer_size ≡ limit) where
  pub tables_less :
      (ts : List HashTable) → All (IsAlive limit (suc n) total) ts → All (IsAlive limit n total) ts
  tables_less [] all = tt
  tables_less (t ∷ ts) (a, all) =
      (IsAlive-less limit n total config small size t a, tables_less ts all)

  -- A round of `process_all_session`.
  pub sweep_tables-IsAlive :
      (now : ℕ → ℕ → ℕ) (i : ℕ) (ts : List HashTable)
      → All (IsAlive limit (suc n) total) ts
      → (ts' : List HashTable) × (sweep_tables config now i ts ≡ returns ts')
        × All (IsAlive limit n total) ts'
        × (length ts' ≡ length ts)
        × SameNodes ts ts'
  unfolding sweep_tables SameNodes
  sweep_tables-IsAlive now i [] all = ([], refl, tt, refl, tt)
  sweep_tables-IsAlive now i (t ∷ ts) (a, all) =
      let (t', run, b, same) = swept-IsAlive limit n total config small size (now i) t a in
      let (ts', rest, bs, many, others) = sweep_tables-IsAlive now (i + 1) ts all in
      (t' ∷ ts', rw (sweep_tables, run, rest), (b, bs), ap suc many, (same, others))

module _ (n packets flows limit total : ℕ) (config : SimConfig) (small : limit < 2 ^ 31)
    (size : config.manager_buffer_size ≡ limit) where
  pub sends-IsFull :
      (s : Trio)
      → IsFull (suc n) packets flows limit total s
      → 0 < held s.pair.generator.pool
      → int_lt 1 config.pipe_depth ≡ true
      → (s' : Trio) × (move config sends s ≡ returns s')
        × IsFull n packets flows limit total s'
        × IsSame s s'
  sends-IsFull s h some_there depth =
      let (s', went, k, same, parser) =
        sends_keeps n packets flows config s h.whole some_there depth in
      (
        s',
        went,
        record {
          whole = k.whole;
          plain = All-Perm (IsPlain limit) (IsPlain-prop limit) k.same h.plain;
          fitting =
              subst (λ (p : ParserState). All (IsFitting limit) (in_queues p.managers.queues))
                (sym parser) h.fitting;
          counted =
              ap length same
              ∙ h.counted
              ∙ sym (ap (λ (p : ParserState). p.managers.numbers) parser);
          tables =
              subst (λ ts. All (IsAlive limit n total) ts) (sym same)
                (tables_less limit n total config small size s.tables h.tables);
        },
        record {
          packets = k.same;
          flows = k.same_flows;
          nodes = subst (λ ts. SameNodes s.tables ts) (sym same) (SameNodes-refl s.tables);
        },
      )

  pub parses-IsFull :
      (s : Trio)
      → IsFull (suc n) packets flows limit total s
      → batch ≤ held (ring s.pair)
      → batch ≤ held s.pair.parser.pool
      → config.pipe_depth < 2 ^ 31
      → 3 < config.pipe_depth
      → (s' : Trio) × (move config parses s ≡ returns s')
        × IsFull n packets flows limit total s'
        × IsSame s s'
  parses-IsFull s h enough items signed deep =
      let (s', went, k, e) =
        parses_keeps n packets flows config s h.whole enough items signed deep in
      let xs = contents null_packet (ring s.pair) in
      let made = make_flows (take batch (contents null_flow s.pair.parser.pool)) (take batch xs) in
      let fit : All (IsFitting limit) made =
        make_flows-IsFitting limit (take batch (contents null_flow s.pair.parser.pool))
          (take batch xs)
          (All-tags_take (IsPlain limit) batch xs (contents null_packet s.pair.generator.pool)
            (packets_of (in_queues (manager_queues s))) h.plain) in
      (
        s',
        went,
        record {
          whole = k.whole;
          plain = All-Perm (IsPlain limit) (IsPlain-prop limit) k.same h.plain;
          fitting =
              All-Perm (IsFitting limit) (IsFitting-prop limit) (Perm.symm e.handed)
                (All-append (IsFitting limit) made (in_queues (manager_queues s)) fit h.fitting);
          counted = ap length e.tables ∙ h.counted ∙ sym e.numbers;
          tables = rw e.tables (tables_less limit n total config small size s.tables h.tables);
        },
        record {
          packets = k.same;
          flows = k.same_flows;
          nodes = subst (λ ts. SameNodes s.tables ts) (sym e.tables) (SameNodes-refl s.tables);
        },
      )

  -- The round of manager `k`, with a flow in its queue.
  pub manages-IsFull :
      (k now : ℕ) (s : Trio)
      → IsFull (suc n) packets flows limit total s
      → 0 < held (get_or (manager_queues s) k null_queue)
      → int_lt 4 config.pipe_depth ≡ true
      → ((s' : Trio) × (move config (manages k now) s ≡ returns s')
          × IsFull n packets flows limit total s'
          × IsSame s s')
        ⊎ (move config (manages k now) s ≡ spins)
  unfolding move packet_manager_round manager_seen add_flow
  manages-IsFull k now s h some_there deep =
      let inside = queue_there (manager_queues s) k some_there in
      let there : k < length s.tables = omega (arith, inside, h.counted, h.whole.managers.cells) in
      let ht = get_or s.tables k no_table in
      let flow = front_flow k s in
      let key = manager_hash flow ht.num_buckets in
      let (got, moved) = front_leaves n packets flows config k s h.whole some_there in
      let (fit, others) = All-Perm (IsFitting limit) (IsFitting-prop limit) moved h.fitting in
      let a = All-get_or (IsAlive limit (suc n) total) s.tables k no_table h.tables there in
      elim (hash_add_item_cases limit config now ht key flow small size a.table_ok
        (alive-CanAdd limit n total config small size key flow ht a fit.inside fit.fits)) [
          | inr (waits, empty) ↦ inr (rw (move, packet_manager_round, got, deep, add_flow, waits))
          | inl (ht', run, u) ↦
              let (s', went, kept, e) =
                releases_keeps n packets flows config k now ht' s h.whole some_there
                  (rw (packet_manager_round, got, deep, add_flow, run) refl) in
              let (alive, same_nodes) =
                updated-IsAlive limit n total config small size key flow ht ht' a u in
              let (fit', rest) =
                All-Perm (IsFitting limit) (IsFitting-prop limit) e.taken h.fitting in
              inl (
                s',
                went,
                record {
                  whole = kept.whole;
                  plain = All-Perm (IsPlain limit) (IsPlain-prop limit) kept.same h.plain;
                  fitting = rest;
                  counted =
                      ap length e.tables ∙ length-set s.tables k ht' ∙ h.counted ∙ sym e.numbers;
                  tables = rw e.tables (
                      All-set (IsAlive limit n total) s.tables k ht'
                        (tables_less limit n total config small size s.tables h.tables) alive);
                },
                record {
                  packets = kept.same;
                  flows = kept.same_flows;
                  nodes =
                      subst (λ ts. SameNodes s.tables ts) (sym e.tables)
                        (SameNodes-set s.tables k ht' no_table same_nodes);
                },
              )
        ]
