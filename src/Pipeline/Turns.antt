-- ===== src/Pipeline/Turns.antt =====
-- What a turn of a generator and of a parser around one pool does, and when it waits.
use freepacket.Base.{
  ℕ, suc, ◌+◌, ◌-◌, ◌≤◌, ◌<◌, ◌≡◌, refl, sym, ap, ap₂, ◌∙◌, ◌++◌, some, length, length-set, get_or,
  set, get_or-set_self, returns, spins, take, drop, arith, true, false, int_lt, u32, arith,
  length-drop, length-append, length-take,
}
use mathlib.Core.List.{Perm}
use mathlib.Core.List.Perm
use mathlib.Core.Path.{subst}
use freepacket.Config.{SimConfig}
use freepacket.Queue.{enqueue}
use freepacket.Queue.Single.{contents, stored, dropped, enqueue_room, dequeue_more}
use freepacket.Queue.Fill.{length-contents}
use freepacket.Queue.Batch.{
  enqueue_multiple_room, dequeue_multiple_more, dequeue_multiple_few, dequeue_empty,
}
use freepacket.Parser.Loop.{null_packet, batch, release, packet_parser_round}
use freepacket.Generator.{refresh, next_thread}
use freepacket.Generator.Loop.{null_queue, count_packet, send_packet, packet_generator_round}
use freepacket.Generator.Sends.{front, refreshed}
use freepacket.Pipeline.Circle.{
  Pair, generator_turn, parser_turn, ring, seen, put_back, turn, circle, tags, passed_on,
  given_back,
}
use freepacket.Pipeline.Sound.{
  held, IsSound, IsMoved, refresh_nums, tag-refresh, next_thread_lem, stored-IsPlace,
  dropped-IsPlace,
}

module _ (n all now : ℕ) (config : SimConfig) where
  -- The turn of the generator, with a packet in the pool, in a pipeline that has parsers.
  pub generator_moves :
      (s : Pair)
      → IsSound (suc n) all now s
      → 0 < held s.generator.pool
      → int_lt 1 config.pipe_depth ≡ true
      → (s' : Pair) × (turn config generator_turn s ≡ returns s')
        × IsMoved n all now s s'
        × (s'.parser ≡ s.parser)
  unfolding turn packet_generator_round send_packet count_packet
  generator_moves s h some_there depth₁ =
      let g = s.generator in
      let (pool_place, pool_held, taken) = dropped-IsPlace n all g.pool h.pool some_there in
      let (queue_place, queue_held, passed) =
        stored-IsPlace n all (ring s) (refreshed g) h.queue (omega (arith, h.total)) in
      let got = dequeue_more null_packet h.pool.valid (omega arith) in
      let i = g.next_thread_id in
      let put : enqueue (get_or g.parsers i null_queue) (refreshed g)
          ≡ some (stored (ring s) (refreshed g)) =
        rw h.same_turn (
          enqueue_room null_packet h.queue.valid (refreshed g)
            (omega (arith, h.queue.roomy, h.total)) (omega (arith, h.queue.counter))) in
      let c = (refresh (front g).bytes g.config).1 in
      let (gn, pn) = refresh_nums (front g).bytes g.config in
      let g' = count_packet (record g {
        config = c;
        pool = dropped g.pool;
        parsers = set g.parsers i (stored (ring s) (refreshed g));
        next_thread_id = next_thread c.generator_nums c.parser_nums g.index i;
      }) in
      let placed : get_or (set g.parsers i (stored (ring s) (refreshed g))) 0 null_queue
          ≡ stored (ring s) (refreshed g) =
        rw h.same_turn (
          get_or-set_self g.parsers 0 (stored (ring s) (refreshed g)) null_queue
            (omega (arith, h.one_parser))) in
      (
        record s { generator = g' },
        rw (turn, packet_generator_round, got, send_packet, depth₁, put),
        record {
          sound = record {
            pool = pool_place;
            queue = rw placed queue_place;
            within = h.within;
            total = rw placed (omega (arith, h.total, pool_held, queue_held));
            one_parser = length-set g.parsers i (stored (ring s) (refreshed g)) ∙ h.one_parser;
            same_index = h.same_index;
            same_turn = rw (gn, pn, h.nums.0, h.nums.1, h.same_index, h.same_turn) next_thread_lem;
            nums = (gn ∙ h.nums.0, pn ∙ h.nums.1);
          };
          same =
              let moved : circle (record s { generator = g' }) ≡ circle s =
                ap (λ xs. tags (xs ++ contents null_packet (dropped g.pool)))
                  (ap (contents null_packet) placed ∙ passed)
                ∙ passed_on (contents null_packet (ring s)) (contents null_packet (dropped g.pool))
                    (front g) (refreshed g) (tag-refresh (front g) g.config)
                ∙ ap (λ xs. tags (contents null_packet (ring s) ++ xs)) (sym taken) in
              subst (λ xs. Perm (circle s) xs) (sym moved) (Perm.refl (circle s));
        },
        refl,
      )

  -- The turn of the parser, with a batch in its queue.
  pub parser_moves :
      (s : Pair)
      → IsSound (suc n) all now s
      → batch ≤ held (ring s)
      → config.pipe_depth ≡ 2
      → (s' : Pair) × (turn config parser_turn s ≡ returns s') × IsMoved n all now s s'
  unfolding turn seen put_back packet_parser_round release
  parser_moves s h enough depth =
      let g = s.generator in
      let xs = contents null_packet (ring s) in
      let size : length (take batch xs) ≡ batch =
        omega (arith, length-take batch xs, length-contents null_packet (ring s)) in
      let (queue, got, t) =
        dequeue_multiple_more null_packet h.queue.valid batch enough
          (omega (arith, h.queue.counter)) (omega arith) in
      let (pool, put, u) =
        enqueue_multiple_room null_packet h.pool.valid (take batch xs)
          (omega (arith, size, h.pool.roomy, h.total)) (omega (arith, size, h.pool.counter)) in
      let depth₂ : int_lt 2 config.pipe_depth ≡ false = rw depth refl in
      let placed : get_or (set g.parsers 0 queue) 0 null_queue ≡ queue =
        get_or-set_self g.parsers 0 queue null_queue (omega (arith, h.one_parser)) in
      let queue_held : held queue ≡ held (ring s) - batch =
        sym (length-contents null_packet queue)
        ∙ ap length t.holds
        ∙ length-drop batch xs
        ∙ ap (λ k. k - batch) (length-contents null_packet (ring s)) in
      let pool_held : held pool ≡ held g.pool + batch =
        sym (length-contents null_packet pool)
        ∙ ap length u.holds
        ∙ length-append (contents null_packet g.pool) (take batch xs)
        ∙ ap₂ (λ k m. k + m) (length-contents null_packet g.pool) size in
      let s' =
        put_back
          (record (seen s) { queue = queue; packet_pool = pool; alive = u32 (s.parser.alive + 1) })
          s in
      let moved : circle s'
          ≡ tags (drop batch xs ++ (contents null_packet g.pool ++ take batch xs)) =
        ap₂ (λ ys zs. tags (ys ++ zs)) (ap (contents null_packet) placed ∙ t.holds) u.holds in
      (
        s',
        rw (turn, packet_parser_round, got, depth₂, release, put),
        record {
          sound = record {
            pool = record {
              valid = u.valid;
              roomy = omega (arith, h.pool.roomy, u.same_capacity);
              counter = omega (arith, h.pool.counter, u.taken, size);
            };
            queue = rw placed (record {
              valid = t.valid;
              roomy = omega (arith, h.queue.roomy, t.same_capacity);
              counter = omega (arith, h.queue.counter, t.taken);
            });
            within = h.within;
            total = rw placed (omega (arith, h.total, pool_held, queue_held));
            one_parser = length-set g.parsers 0 queue ∙ h.one_parser;
            same_index = h.same_index;
            same_turn = h.same_turn;
            nums = h.nums;
          };
          same =
              subst (λ ys. Perm (circle s) ys) (sym moved)
                (given_back batch xs (contents null_packet g.pool));
        },
      )

  pub generator_waits :
      (s : Pair)
      → IsSound (suc n) all now s
      → held s.generator.pool ≡ 0
      → turn config generator_turn s ≡ spins
  unfolding turn packet_generator_round
  generator_waits s h empty = rw (
    turn,
    packet_generator_round,
    dequeue_empty null_packet h.pool.valid (omega (arith, empty, (h.pool.valid).ordered)),
  )

  pub parser_waits :
      (s : Pair)
      → IsSound (suc n) all now s
      → held (ring s) < batch
      → turn config parser_turn s ≡ spins
  unfolding turn seen packet_parser_round
  parser_waits s h few =
      let none_got =
        dequeue_multiple_few null_packet h.queue.valid batch few (omega (arith, h.queue.counter))
          (omega arith) in
      rw (turn, packet_parser_round, none_got)
